-- ===== src/Gen/RedisDefaults/Agreement.antt =====
-- The declared wiring fits every operation.
use agen.Prelude.{
  ℕ, ◌≡◌, ◌⊎◌, inl, inr, refl, sym, ap, ◌∙◌, true, false, List, [], ◌∷◌, Option, none, some, arith,
  Bool-cases,
}
use mathlib.Core.Path.{subst}
use agen.Prelude.Result.{ok, bind-ok}
use agen.Prelude.Int.{ℤ, pos, negsuc}
use agen.Prelude.Text.{Text, is_empty, eq_text, eq_text_iff}
use agen.AsyncApi.RedisBinding.{
  Action, send, receive, RedisChannelBinding, RedisOperationBinding, redis_type_stream,
}
use agen.AsyncApi.Channel.{Channel}
use agen.AsyncApi.Operation.{Operation}
use agen.Gen.RedisDefaults.{
  eq_ℤ, Wiring, group_of, with_mode, with_group, with_max_len, with_action, with_binding,
  with_operation, defaults_from, redis_binding_defaults,
}

eq_ℤ_iff : (a b : ℤ) → eq_ℤ a b ≡ true → a ≡ b
eq_ℤ_iff (pos a) (pos b) h = ground arith
eq_ℤ_iff (pos a) (negsuc b) h = cc
eq_ℤ_iff (negsuc a) (pos b) h = cc
eq_ℤ_iff (negsuc a) (negsuc b) h = ground arith

-- A receive operation has the group of the wiring, or none outside streams; the channel of a send
-- operation has its length, or none.
unfoldable pub FitsAction :
    Wiring → Action → Option RedisOperationBinding → RedisChannelBinding → Type 0
FitsAction w receive r b =
    ((is_empty (group_of r) ≡ false) × (group_of r ≡ w.group))
    ⊎ ((is_empty (group_of r) ≡ true) × (eq_text w.mode redis_type_stream ≡ false))
FitsAction w send r b = (b.max_len ≡ pos 0) ⊎ (b.max_len ≡ w.max_len)

-- What is declared stays.
record Later (w w' : Wiring) : Type 0 where
  mode_stays : (is_empty w.mode ≡ true) ⊎ (w.mode ≡ w'.mode)
  group_stays : (is_empty w.group ≡ true) ⊎ (w.group ≡ w'.group)
  max_len_stays : (w.max_len ≡ pos 0) ⊎ (w.max_len ≡ w'.max_len)

Later-refl : (w : Wiring) → Later w w
Later-refl w = record { mode_stays = inr refl; group_stays = inr refl; max_len_stays = inr refl }

stays_trans :
    {A : Type 0} (P : A → Type 0) (a b c : A) → P a ⊎ (a ≡ b) → P b ⊎ (b ≡ c) → P a ⊎ (a ≡ c)
stays_trans P a b c (inl h) k = inl h
stays_trans P a b c (inr e) (inl k) = inl (subst P (sym e) k)
stays_trans P a b c (inr e) (inr f) = inr (e ∙ f)

Later-trans : (u v w : Wiring) → Later u v → Later v w → Later u w
Later-trans u v w a b = record {
  mode_stays = stays_trans (λ t. is_empty t ≡ true) u.mode v.mode w.mode a.mode_stays b.mode_stays;
  group_stays =
      stays_trans (λ t. is_empty t ≡ true) u.group v.group w.group a.group_stays b.group_stays;
  max_len_stays =
      stays_trans (λ n. n ≡ pos 0) u.max_len v.max_len w.max_len a.max_len_stays b.max_len_stays;
}

with_mode-Later :
    (name t : Text) (w w' : Wiring) → with_mode name t w ≡ ok w' → Later w w' × (t ≡ w'.mode)
unfolding with_mode
with_mode-Later name t w w' h = elim (Bool-cases (is_empty w.mode)) [
  | inl e ↦ (
    record {
      mode_stays = inl e;
      group_stays = inr (ground arith);
      max_len_stays = inr (ground arith);
    },
    ground arith,
  )
  | inr e ↦ (
    record {
      mode_stays = inr (ground arith);
      group_stays = inr (ground arith);
      max_len_stays = inr (ground arith);
    },
    ground (arith, eq_text_iff w.mode t),
  )
]

with_group-Later :
    (name : Text) (r : Option RedisOperationBinding) (b : RedisChannelBinding) (w w' : Wiring)
    → with_group name (group_of r) w ≡ ok w'
    → Later w w' × (w.mode ≡ w'.mode) × FitsAction w' receive r b
unfolding with_group FitsAction
with_group-Later name r b w w' h = elim (Bool-cases (is_empty (group_of r))) [
  | inl e ↦
      let same : w ≡ w' = ground arith in
      let quiet : eq_text w'.mode redis_type_stream ≡ false = ground arith in
      (subst (λ x. Later w x) same (Later-refl w), ap (λ (x : Wiring). x.mode) same, inr (e, quiet))
  | inr e ↦ elim (Bool-cases (is_empty w.group)) [
    | inl f ↦ (
      record {
        mode_stays = inr (ground arith);
        group_stays = inl f;
        max_len_stays = inr (ground arith);
      },
      ground arith,
      inl (e, ground arith),
    )
    | inr f ↦
        let same : w ≡ w' = ground arith in
        (
          subst (λ x. Later w x) same (Later-refl w),
          ap (λ (x : Wiring). x.mode) same,
          inl (e, ground (arith, eq_text_iff w.group (group_of r))),
        )
  ]
]

with_max_len-Later :
    (name : Text) (r : Option RedisOperationBinding) (b : RedisChannelBinding) (w w' : Wiring)
    → with_max_len name b.max_len w ≡ ok w'
    → Later w w' × (w.mode ≡ w'.mode) × FitsAction w' send r b
unfolding with_max_len FitsAction
with_max_len-Later name r b w w' h = elim (Bool-cases (eq_ℤ b.max_len (pos 0))) [
  | inl e ↦
      let same : w ≡ w' = ground arith in
      (
        subst (λ x. Later w x) same (Later-refl w),
        ap (λ (x : Wiring). x.mode) same,
        inl (eq_ℤ_iff b.max_len (pos 0) e),
      )
  | inr e ↦ elim (Bool-cases (eq_ℤ w.max_len (pos 0))) [
    | inl f ↦ (
      record {
        mode_stays = inr (ground arith);
        group_stays = inr (ground arith);
        max_len_stays = inl (eq_ℤ_iff w.max_len (pos 0) f);
      },
      ground arith,
      inr (ground arith),
    )
    | inr f ↦
        let same : w ≡ w' = ground arith in
        (
          subst (λ x. Later w x) same (Later-refl w),
          ap (λ (x : Wiring). x.mode) same,
          inr (ground (arith, eq_ℤ_iff w.max_len b.max_len)),
        )
  ]
]

with_action-Later :
    (a : Action) (op channel : Text) (r : Option RedisOperationBinding) (b : RedisChannelBinding)
    (w w' : Wiring)
    → with_action a op channel r b w ≡ ok w'
    → Later w w' × (w.mode ≡ w'.mode) × FitsAction w' a r b
unfolding with_action
with_action-Later receive op channel r b w w' h = with_group-Later op r b w w' h
with_action-Later send op channel r b w w' h = with_max_len-Later channel r b w w' h

-- What fits a wiring fits those behind it.
FitsAction-Later :
    (w w' : Wiring) (a : Action) (r : Option RedisOperationBinding) (b : RedisChannelBinding)
    → Later w w'
    → w.mode ≡ w'.mode
    → FitsAction w a r b
    → FitsAction w' a r b
unfolding FitsAction
FitsAction-Later w w' receive r b later m (inl (some_group, e)) = elim later.group_stays [
  | inl f ↦ absurd (ground arith)
  | inr f ↦ inl (some_group, e ∙ f)
]
FitsAction-Later w w' receive r b later m (inr (no_group, quiet)) =
    inr (no_group, ap (λ t. eq_text t redis_type_stream) (sym m) ∙ quiet)
FitsAction-Later w w' send r b later m (inl e) = inl e
FitsAction-Later w w' send r b later m (inr e) = elim later.max_len_stays [
  | inl f ↦ inl (e ∙ f)
  | inr f ↦ inr (e ∙ f)
]

abbrev pub IsTypedBinding : Option RedisChannelBinding → Type 0
IsTypedBinding none = Unit
IsTypedBinding (some b) = is_empty b.type_of ≡ false

typed_binding :
    (o : Option RedisChannelBinding) (b : RedisChannelBinding)
    → o ≡ some b
    → IsTypedBinding o
    → is_empty b.type_of ≡ false
typed_binding none b e typed = cc
typed_binding (some c) b e typed = ground arith

module _ {B Tag Node : Type 0} where
  -- The type of a channel, where it has a binding, is not empty.
  abbrev pub IsTyped : Option (Channel B Tag Node) → Type 0
  IsTyped none = Unit
  IsTyped (some ch) = IsTypedBinding ch.redis

module _ {Requirement B Tag Node : Type 0} where
  -- The wiring has the type of the channel, and fits the action.
  unfoldable pub Fits :
      Wiring → Operation Requirement B Tag Node → Option (Channel B Tag Node) → Type 0
  Fits w op none = Unit
  Fits w op (some ch) =
      (b : RedisChannelBinding) × (ch.redis ≡ some b)
      × (b.type_of ≡ w.mode)
      × FitsAction w op.action op.redis b

  with_binding-Fits :
      (op : Operation Requirement B Tag Node) (ch : Channel B Tag Node)
      (o : Option RedisChannelBinding) (w w' : Wiring)
      → ch.redis ≡ o
      → with_binding op ch o w ≡ ok w'
      → Later w w' × Fits w' op (some ch)
  unfolding with_binding Fits
  with_binding-Fits op ch none w w' e h = cc
  with_binding-Fits op ch (some b) w w' e h =
      let (v, e₁, h₁) = bind-ok (with_mode ch.name_of b.type_of w) _ h in
      let (later, typed) = with_mode-Later ch.name_of b.type_of w v e₁ in
      let (later', kept, fits) =
        with_action-Later op.action op.name_of ch.name_of op.redis b v w' h₁ in
      (Later-trans w v w' later later', (b, e, typed ∙ kept, fits))

  with_operation-Fits :
      (op : Operation Requirement B Tag Node) (o : Option (Channel B Tag Node)) (w w' : Wiring)
      → with_operation op o w ≡ ok w'
      → Later w w' × Fits w' op o
  unfolding with_operation
  with_operation-Fits op none w w' h =
      let same : w ≡ w' = ground arith in
      (subst (λ x. Later w x) same (Later-refl w), unfold Fits in tt)
  with_operation-Fits op (some ch) w w' h = with_binding-Fits op ch ch.redis w w' refl h

  Fits-Later :
      (w w' : Wiring) (op : Operation Requirement B Tag Node) (o : Option (Channel B Tag Node))
      → Later w w'
      → IsTyped o
      → Fits w op o
      → Fits w' op o
  unfolding Fits
  Fits-Later w w' op none later typed fits = tt
  Fits-Later w w' op (some ch) later typed (b, e, t, fits) =
      let some_type = typed_binding ch.redis b e typed in
      let kept : w.mode ≡ w'.mode = elim later.mode_stays [
        | inl f ↦ absurd (ground arith)
        | inr f ↦ f
      ] in
      (b, e, t ∙ kept, FitsAction-Later w w' op.action op.redis b later kept fits)

  module _ (at : ℕ → Option (Channel B Tag Node)) where
    abbrev pub AllTyped : List (Operation Requirement B Tag Node) → Type 0
    AllTyped [] = Unit
    AllTyped (op ∷ ops) = IsTyped (at op.channel) × AllTyped ops

    abbrev pub AllFit : Wiring → List (Operation Requirement B Tag Node) → Type 0
    AllFit w [] = Unit
    AllFit w (op ∷ ops) = Fits w op (at op.channel) × AllFit w ops

    defaults_from-AllFit :
        (ops : List (Operation Requirement B Tag Node)) (w w' : Wiring)
        → AllTyped ops
        → defaults_from at ops w ≡ ok w'
        → Later w w' × AllFit w' ops
    unfolding defaults_from
    defaults_from-AllFit [] w w' typed h =
        let same : w ≡ w' = ground arith in (subst (λ x. Later w x) same (Later-refl w), tt)
    defaults_from-AllFit (op ∷ ops) w w' (typed, all) h =
        let (v, e, h₁) = bind-ok (with_operation op (at op.channel) w) _ h in
        let (later, fits) = with_operation-Fits op (at op.channel) w v e in
        let (later', fit) = defaults_from-AllFit ops v w' all h₁ in
        (
          Later-trans w v w' later later',
          (Fits-Later v w' op (at op.channel) later' typed fits, fit),
        )

    -- If the wiring of the operations is derived, and the channels that have a binding have a type,
    -- then every channel has a binding of the type of the wiring. A receive operation has the
    -- consumer group of the wiring, or none, which the stream type does not allow; the channel of a
    -- send operation has the length of the wiring, or none.
    pub redis_binding_defaults-AllFit :
        (ops : List (Operation Requirement B Tag Node)) (w : Wiring)
        → AllTyped ops
        → redis_binding_defaults at ops ≡ ok w
        → AllFit w ops
    unfolding redis_binding_defaults
    redis_binding_defaults-AllFit ops w typed h =
        (defaults_from-AllFit ops (record { mode = []; group = []; max_len = pos 0 }) w typed h).1
