-- ===== src/Gen/Building/Typed.antt =====
-- The sum type that buildOperation gives an operation.
use agen.Prelude.{
  ℕ, suc, ◌≤◌, ◌≡◌, ◌⊎◌, inl, inr, refl, ap, List, [], ◌∷◌, Option, none, arith, length, get_elem?,
  ltb, Bool-cases,
}
use agen.Prelude.Result.{ok, bind-ok, ok-subst}
use agen.Prelude.Text.{Text}
use agen.AsyncApi.Operation
use agen.Gen.Ir
use agen.Gen.Names.{go_name_of, reserve_name}
use agen.Gen.Sorting.{set_key}
use agen.Gen.Parts.{Model, Engine, State, or_nil, channel_for, messages_for}
use agen.Gen.Building.{spec_names, sum_type_for, build_operation}
use agen.Gen.Building.Placed.{AllShow, ShowsMessage}
use agen.Gen.Building.Steps.{IsSound, channel_for-Sound}
use agen.Gen.Building.Messages.{messages_for-Sound}
use agen.Gen.Building.Quiet.{Allocates, channel_for-Quiet, messages_for-Quiet}
use agen.Gen.Building.Shared.{
  NamesAre, spec_names-NamesAre, IsKeyed, Keeps, Keeps-trans, Quiet-Keeps, IsShared,
  shared_sum_type-Keeps,
}

length-AllShow : (R : ℕ → ℕ → Type 0) (ks is : List ℕ) → AllShow R ks is → length is ≡ length ks
unfolding AllShow
length-AllShow R [] [] all = refl
length-AllShow R [] (i ∷ is) all = absurd all
length-AllShow R (k ∷ ks) [] all = absurd all
length-AllShow R (k ∷ ks) (i ∷ is) (first, all) = ap suc (length-AllShow R ks is all)

module _ {MessageBinding Correlation Requirement B Tag Node RawSchema Schema : Type 0}
    (model : Model MessageBinding Correlation Requirement B Tag Node RawSchema Schema)
    (engine : Engine Schema) (a : Allocates engine) where
  abbrev St : Type 0
  St = State model engine

  -- An operation with at most one message has no sum type; with more, it has the one at the key of the
  -- names of its messages in the document.
  abbrev pub IsTyped : List ℕ → Option engine.GoType → St → Type 0
  IsTyped ks o st =
      ((length ks ≤ 1) × (o ≡ none))
      ⊎ ((names : List Text) × NamesAre model ks names
          × IsShared model engine a (set_key names) o st)

  pub IsTyped-later :
      (ks : List ℕ) (o : Option engine.GoType) (st st' : St)
      → Keeps model engine a st st'
      → IsTyped ks o st
      → IsTyped ks o st'
  IsTyped-later ks o st st' keeps (inl few) = inl few
  IsTyped-later ks o st st' keeps (inr (names, are, (t, is, at))) =
      inr (names, are, (t, is, keeps.stays (set_key names) t at))

  sum_type_for-Keeps :
      (go_name : Text) (ks is : List ℕ) (st : St) (r : Option engine.GoType × St)
      → IsKeyed model engine a st
      → AllShow (ShowsMessage model st.messages) ks is
      → sum_type_for model engine go_name is st ≡ ok r
      → Keeps model engine a st (r.1) × IsTyped ks (r.0) (r.1)
  unfolding sum_type_for
  sum_type_for-Keeps go_name ks is st r keyed all h = elim (Bool-cases (ltb 1 (length is))) [
    | inl many ↦
        let (names, e, h₁) = bind-ok (spec_names model engine is st) _ (rw many at h) in
        let (keeps, shared) =
          shared_sum_type-Keeps model engine a (set_key names) go_name is st r keyed h₁ in
        (keeps, inr (names, spec_names-NamesAre model engine ks is st names all e, shared))
    | inr few ↦
        let same = length-AllShow (ShowsMessage model st.messages) ks is all in
        ok-subst (λ x. Keeps model engine a st (x.1) × IsTyped ks (x.0) (x.1)) (rw few at h)
          (record { keyed = keyed; stays = λ k u h'. h' }, inl (ground (arith, few, same), refl))
  ]

  pub build_operation-Keeps :
      (op : Operation.Operation Requirement B Tag Node) (st : St)
      (r : Ir.Operation engine.GoType × St)
      → IsSound model engine st
      → IsKeyed model engine a st
      → build_operation model engine op st ≡ ok r
      → Keeps model engine a st (r.1) × IsTyped op.messages_of (r.0).sum_type (r.1)
  unfolding build_operation
  build_operation-Keeps op st r sound keyed h =
      let (go_name, _, h₁) =
        bind-ok (go_name_of model.scalar model.rules op.extensions op.name_of) _ h in
      let s : St = record st { names = reserve_name go_name st.names } in
      let (found, e₁, h₂) = bind-ok (channel_for model engine op.channel s) _ h₁ in
      let (msgs, e₂, h₃) = bind-ok (messages_for model engine op.messages_of (found.1)) _ h₂ in
      let (ch, _, h₄) = bind-ok (or_nil (get_elem? (msgs.1).channels (found.0))) _ h₃ in
      let (sum, e₄, h₅) = bind-ok (sum_type_for model engine ch.go_name (msgs.0) (msgs.1)) _ h₄ in
      let (one, _) = channel_for-Sound model engine op.channel s found sound e₁ in
      let (_, all) = messages_for-Sound model engine op.messages_of (found.1) msgs one.1 e₂ in
      let start : IsKeyed model engine a s = record { made = keyed.made; apart = keyed.apart } in
      let first =
        Quiet-Keeps model engine a s (found.1)
          (channel_for-Quiet model engine a op.channel s found e₁) start in
      let second =
        Quiet-Keeps model engine a (found.1) (msgs.1)
          (messages_for-Quiet model engine a op.messages_of (found.1) msgs e₂) first.keyed in
      let (third, typed) =
        sum_type_for-Keeps ch.go_name op.messages_of (msgs.0) (msgs.1) sum second.keyed all e₄ in
      let keeps =
        Keeps-trans model engine a s (msgs.1) (sum.1)
          (Keeps-trans model engine a s (found.1) (msgs.1) first second) third in
      ok-subst (λ x. Keeps model engine a st (x.1) × IsTyped op.messages_of (x.0).sum_type (x.1)) h₅
        (record { keyed = keeps.keyed; stays = keeps.stays }, typed)
