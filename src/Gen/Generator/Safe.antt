-- ===== src/Gen/Generator/Safe.antt =====
-- NewGenerator of gen/generator.go reads no nil pointer if those of the document point at something.
use agen.Prelude.{ℕ, Bool, true, false, not, ◌&&◌, List, [], ◌∷◌, Option, none, some, if_both}
use agen.Prelude.Result.{reject}
use agen.Prelude.Int.{ℤ, pos}
use agen.Prelude.Text.{Text, lists, is_empty, eq_text}
use agen.AsyncApi.RedisBinding.{
  Action, send, receive, RedisChannelBinding, RedisOperationBinding, redis_type_stream,
}
use agen.AsyncApi.Channel.{Channel}
use agen.AsyncApi.Operation.{Operation, Reply}
use agen.Gen.{Generated, name_conflict}
use agen.Gen.Parts.{Model, Engine, State, action_text}
use agen.Gen.Building.{build_operation}
use agen.Gen.Building.Steps.{IsSound}
use agen.Gen.Building.Marked.{build_operation-IsLinked}
use agen.Gen.Building.Safe.{IsSafe, ok-IsSafe, bind-IsSafe, HasChannel, AllMessages}
use agen.Gen.Building.Complete.{HasAll, build_operation-IsSafe}
use agen.Gen.Unsupported.{contains}
use agen.Gen.RedisDefaults.{
  eq_ℤ, Wiring, group_of, with_mode, with_group, with_max_len, with_action, with_binding,
  with_operation, defaults_from, redis_binding_defaults,
}
use agen.Gen.Generator.{
  Filters, misses, filter_operations, with_reply, synthetic_operations, build_each,
  build_operations, build_wiring,
}
use agen.Gen.Generator.Linked.{build_each-AllLinked}

with_mode-IsSafe : (name t : Text) (w : Wiring) → IsSafe (with_mode name t w)
unfolding with_mode
with_mode-IsSafe name t w =
    if_both (λ (x : Generated Wiring). IsSafe x) (is_empty w.mode) (λ _ e. cc)
      (λ _.
        if_both (λ (x : Generated Wiring). IsSafe x) (not (eq_text w.mode t)) (λ _ e. cc)
          (λ _ e. cc))

with_group-IsSafe : (name g : Text) (w : Wiring) → IsSafe (with_group name g w)
unfolding with_group
with_group-IsSafe name g w =
    if_both (λ (x : Generated Wiring). IsSafe x) (is_empty g)
      (λ _.
        if_both (λ (x : Generated Wiring). IsSafe x) (eq_text w.mode redis_type_stream) (λ _ e. cc)
          (λ _ e. cc))
      (λ _.
        if_both (λ (x : Generated Wiring). IsSafe x) (is_empty w.group) (λ _ e. cc)
          (λ _.
            if_both (λ (x : Generated Wiring). IsSafe x) (not (eq_text w.group g)) (λ _ e. cc)
              (λ _ e. cc)))

with_max_len-IsSafe : (name : Text) (n : ℤ) (w : Wiring) → IsSafe (with_max_len name n w)
unfolding with_max_len
with_max_len-IsSafe name n w =
    if_both (λ (x : Generated Wiring). IsSafe x) (eq_ℤ n (pos 0)) (λ _ e. cc)
      (λ _.
        if_both (λ (x : Generated Wiring). IsSafe x) (eq_ℤ w.max_len (pos 0)) (λ _ e. cc)
          (λ _.
            if_both (λ (x : Generated Wiring). IsSafe x) (not (eq_ℤ w.max_len n)) (λ _ e. cc)
              (λ _ e. cc)))

with_action-IsSafe :
    (a : Action) (op ch : Text) (r : Option RedisOperationBinding) (b : RedisChannelBinding)
    (w : Wiring)
    → IsSafe (with_action a op ch r b w)
unfolding with_action
with_action-IsSafe receive op ch r b w = with_group-IsSafe op (group_of r) w
with_action-IsSafe send op ch r b w = with_max_len-IsSafe ch b.max_len w

module _ {Requirement B Tag Node : Type 0} where
  with_operation-IsSafe :
      (op : Operation Requirement B Tag Node) (o : Option (Channel B Tag Node)) (w : Wiring)
      → IsSafe (with_operation op o w)
  unfolding with_operation with_binding
  with_operation-IsSafe op none w = ok-IsSafe w
  with_operation-IsSafe op (some ch) w = elim ch.redis as (λ o. IsSafe (with_binding op ch o w)) [
    | none ↦ λ e. cc
    | some b ↦
        bind-IsSafe (with_mode ch.name_of b.type_of w) _ (with_mode-IsSafe ch.name_of b.type_of w)
          (λ w' _. with_action-IsSafe op.action op.name_of ch.name_of op.redis b w')
  ]

  defaults_from-IsSafe :
      (at : ℕ → Option (Channel B Tag Node)) (ops : List (Operation Requirement B Tag Node))
      (w : Wiring)
      → IsSafe (defaults_from at ops w)
  unfolding defaults_from
  defaults_from-IsSafe at [] w = ok-IsSafe w
  defaults_from-IsSafe at (op ∷ ops) w =
      bind-IsSafe (with_operation op (at op.channel) w) _
        (with_operation-IsSafe op (at op.channel) w) (λ w' _. defaults_from-IsSafe at ops w')

module _ {MessageBinding Correlation Requirement B Tag Node RawSchema Schema : Type 0}
    (model : Model MessageBinding Correlation Requirement B Tag Node RawSchema Schema)
    (engine : Engine Schema) where
  pub build_wiring-IsSafe :
      (wired : Bool) (ops : List (Operation Requirement B Tag Node))
      → IsSafe (build_wiring model engine wired ops)
  unfolding build_wiring redis_binding_defaults
  build_wiring-IsSafe false ops = ok-IsSafe _
  build_wiring-IsSafe true ops = defaults_from-IsSafe model.channel_at ops _

  unfoldable pub HasReply : Option (Reply Node) → Type 0
  HasReply none = Unit
  HasReply (some reply) =
      HasChannel model engine reply.channel × AllMessages model engine reply.messages_of

  unfoldable pub AllHave : List (Operation Requirement B Tag Node) → Type 0
  AllHave [] = Unit
  AllHave (op ∷ ops) = HasAll model engine op × AllHave ops

  -- The channel and the messages of each operation and of its reply are there.
  unfoldable pub AllPlaced : List (Operation Requirement B Tag Node) → Type 0
  AllPlaced [] = Unit
  AllPlaced (op ∷ ops) = (HasAll model engine op × HasReply op.reply) × AllPlaced ops

  AllPlaced-AllHave : (ops : List (Operation Requirement B Tag Node)) → AllPlaced ops → AllHave ops
  unfolding AllPlaced AllHave
  AllPlaced-AllHave [] all = tt
  AllPlaced-AllHave (op ∷ ops) ((has, _), all) = (has, AllPlaced-AllHave ops all)

  pub filter_operations-AllPlaced :
      (filters : Filters) (ops : List (Operation Requirement B Tag Node))
      → AllPlaced ops
      → AllPlaced (filter_operations filters ops)
  unfolding filter_operations AllPlaced
  filter_operations-AllPlaced filters [] all = tt
  filter_operations-AllPlaced filters (op ∷ ops) (first, all) =
      let rest = filter_operations-AllPlaced filters ops all in
      if_both AllPlaced (misses filters.operations_regex op.name_of) (λ _. rest)
        (λ _.
          if_both AllPlaced
            (not (is_empty filters.actions)
              && not (contains filters.actions (action_text op.action)))
            (λ _. rest) (λ _. (first, rest)))

  with_reply-AllHave :
      (op : Operation Requirement B Tag Node) (a : Action) (reply : Option (Reply Node))
      (rest : List (Operation Requirement B Tag Node))
      → HasReply reply
      → AllHave rest
      → AllHave (with_reply op a reply rest)
  unfolding with_reply AllHave HasReply
  with_reply-AllHave op receive (some reply) rest has all = (has, all)
  with_reply-AllHave op receive none rest has all = all
  with_reply-AllHave op send reply rest has all = all

  reject-IsSafe : (b : Bool) (name : Text) → IsSafe (reject b (name_conflict name))
  reject-IsSafe true name e = cc
  reject-IsSafe false name e = cc

  synthetic_operations-AllHave :
      (ops : List (Operation Requirement B Tag Node))
      → AllPlaced ops
      → AllHave (synthetic_operations ops)
  unfolding synthetic_operations AllHave AllPlaced
  synthetic_operations-AllHave [] all = tt
  synthetic_operations-AllHave (op ∷ ops) ((_, first), all) =
      with_reply-AllHave op op.action op.reply (synthetic_operations ops) first
        (synthetic_operations-AllHave ops all)

  build_each-IsSafe :
      (ops : List (Operation Requirement B Tag Node)) (before : List Text) (st : State model engine)
      → IsSound model engine st
      → AllHave ops
      → IsSafe (build_each model engine ops before st)
  unfolding build_each AllHave
  build_each-IsSafe [] before st sound all = ok-IsSafe _
  build_each-IsSafe (op ∷ ops) before st sound (first, all) =
      bind-IsSafe (build_operation model engine op st) _
        (build_operation-IsSafe model engine op st sound first)
        (λ built e.
          let ((_, sound'), _) = build_operation-IsLinked model engine op st built sound e in
          bind-IsSafe _ _ (reject-IsSafe (lists (built.0).name before) (built.0).name) (λ _ _.
            bind-IsSafe (build_each model engine ops ((built.0).name ∷ before) (built.1)) _
              (build_each-IsSafe ops ((built.0).name ∷ before) (built.1) sound' all)
              (λ rest _. ok-IsSafe _)))

  pub build_operations-IsSafe :
      (ops : List (Operation Requirement B Tag Node)) (st : State model engine)
      → IsSound model engine st
      → AllPlaced ops
      → IsSafe (build_operations model engine ops st)
  unfolding build_operations
  build_operations-IsSafe ops st sound all =
      bind-IsSafe (build_each model engine ops [] st) _
        (build_each-IsSafe ops [] st sound (AllPlaced-AllHave ops all))
        (λ first e.
          let ((_, sound'), _) = build_each-AllLinked model engine ops [] st first sound e in
          bind-IsSafe (build_each model engine (synthetic_operations ops) (first.1) (first.2)) _
            (build_each-IsSafe (synthetic_operations ops) (first.1) (first.2) sound'
              (synthetic_operations-AllHave ops all))
            (λ second _. ok-IsSafe _))
