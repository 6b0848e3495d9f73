-- ===== src/Gen/Building/Shared.antt =====
-- The sum types of buildOperation: what `sumTypes` holds, and which sum type an operation gets.
use agen.Prelude.{
  ℕ, ◌≡◌, ◌≢◌, ◌⊎◌, inl, inr, refl, sym, ap, ◌∙◌, List, [], ◌∷◌, ◌++◌, Option, none, some, arith,
  get_elem?, Bool-cases,
}
use mathlib.Core.Path.{subst}
use agen.Prelude.Result.{ok, ◌>>=◌, bind-ok, ok-subst}
use agen.Prelude.Text.{Text, text, lookup, insert, lookup-insert, eq_text, eq_text_iff}
use agen.AsyncApi.Message
use agen.Gen.Names.{lower_first}
use agen.Gen.Parts.{Model, Engine, State, or_nil, saved}
use agen.Gen.Building.{spec_names, mark_messages, new_sum_type, shared_sum_type}
use agen.Gen.Building.Placed.{AllShow, ShowsMessage}
use agen.Gen.Building.Steps.{or_nil-some}
use agen.Gen.Building.Quiet.{Allocates, Quiet, Quiet-trans, saved-Quiet, mark_messages-Quiet}

module _ {MessageBinding Correlation Requirement B Tag Node RawSchema Schema : Type 0}
    (model : Model MessageBinding Correlation Requirement B Tag Node RawSchema Schema) where
  -- The names of the messages in the document, in order.
  unfoldable pub NamesAre : List ℕ → List Text → Type 0
  NamesAre [] [] = Unit
  NamesAre [] (n ∷ ns) = ⊥
  NamesAre (k ∷ ks) [] = ⊥
  NamesAre (k ∷ ks) (n ∷ ns) =
      ((msg : Message.Message MessageBinding Correlation Tag RawSchema Schema) × (model.message_at k
          ≡ some msg)
        × (msg.spec_name ≡ n))
      × NamesAre ks ns

  pub NamesAre-unique :
      (ks : List ℕ) (ns ms : List Text) → NamesAre ks ns → NamesAre ks ms → ns ≡ ms
  unfolding NamesAre
  NamesAre-unique [] [] [] p q = refl
  NamesAre-unique [] [] (m ∷ ms) p q = absurd q
  NamesAre-unique [] (n ∷ ns) ms p q = absurd p
  NamesAre-unique (k ∷ ks) [] ms p q = absurd p
  NamesAre-unique (k ∷ ks) (n ∷ ns) [] p q = absurd q
  NamesAre-unique (k ∷ ks) (n ∷ ns) (m ∷ ms) ((msg, at, named), p) ((msg', at', named'), q) =
      let rest = NamesAre-unique ks ns ms p q in
      let same : msg ≡ msg' = ground arith in
      let first : n ≡ m = sym named ∙ ap (λ x. x.spec_name) same ∙ named' in cc

  module _ (engine : Engine Schema) where
    pub spec_names-NamesAre :
        (ks is : List ℕ) (st : State model engine) (names : List Text)
        → AllShow (ShowsMessage model st.messages) ks is
        → spec_names model engine is st ≡ ok names
        → NamesAre ks names
    unfolding spec_names NamesAre AllShow
    spec_names-NamesAre [] [] st names all h = ok-subst (λ x. NamesAre [] x) h tt
    spec_names-NamesAre [] (i ∷ is) st names all h = absurd all
    spec_names-NamesAre (k ∷ ks) [] st names all h = absurd all
    spec_names-NamesAre (k ∷ ks) (i ∷ is) st names ((msg, m, e, at, named, _, _, _), all) h =
        let (m', e₁, h₁) = bind-ok (or_nil (get_elem? st.messages i)) _ h in
        let (rest, e₂, h₂) = bind-ok (spec_names model engine is st) _ h₁ in
        let same : m ≡ m' = cc (at, or_nil-some (get_elem? st.messages i) m' e₁) in
        ok-subst (λ x. NamesAre (k ∷ ks) x) h₂
          (
            (msg, e, sym named ∙ ap (λ x. x.spec_name) same),
            spec_names-NamesAre ks is st rest all e₂,
          )

module _ {MessageBinding Correlation Requirement B Tag Node RawSchema Schema : Type 0}
    (model : Model MessageBinding Correlation Requirement B Tag Node RawSchema Schema)
    (engine : Engine Schema) (a : Allocates engine) where
  abbrev St : Type 0
  St = State model engine

  -- Every sum type is made, and no two keys have the same.
  pub record IsKeyed (st : St) : Type 0 where
    pub made :
        (k : Text) (t : engine.GoType) → lookup k st.sum_types ≡ some t → a.IsMade st.engine_state t
    pub apart :
        (k l : Text) (t : engine.GoType)
        → lookup k st.sum_types ≡ some t
        → lookup l st.sum_types ≡ some t
        → k ≡ l

  -- What a step leaves: no key loses its sum type.
  pub record Keeps (st st' : St) : Type 0 where
    pub keyed : IsKeyed st'
    pub stays :
        (k : Text) (t : engine.GoType)
        → lookup k st.sum_types ≡ some t
        → lookup k st'.sum_types ≡ some t

  pub Keeps-trans : (st s st' : St) → Keeps st s → Keeps s st' → Keeps st st'
  Keeps-trans st s st' p q = record {
    keyed = q.keyed;
    stays = λ k t h. q.stays k t (p.stays k t h);
  }

  pub Quiet-Keeps : (st st' : St) → Quiet model engine a st st' → IsKeyed st → Keeps st st'
  Quiet-Keeps st st' (same, keep) keyed = record {
    keyed = record {
      made = λ k t h. keep t (keyed.made k t (ap (lookup k) (sym same) ∙ h));
      apart = λ k l t h h'.
          keyed.apart k l t (ap (lookup k) (sym same) ∙ h) (ap (lookup l) (sym same) ∙ h');
    };
    stays = λ k t h. ap (lookup k) same ∙ h;
  }

  -- A sum type that was not made before, under a free key.
  module _ (key : Text) (t : engine.GoType) (st st' : St) (free : lookup key st.sum_types ≡ none)
      (new : (u : engine.GoType) → a.IsMade st.engine_state u → u ≢ t) (keyed : IsKeyed st)
      (added : st'.sum_types ≡ insert key t st.sum_types) where
    of_key :
        (k : Text) (u : engine.GoType)
        → lookup k st'.sum_types ≡ some u
        → ((k ≡ key) × (u ≡ t)) ⊎ ((lookup k st.sum_types ≡ some u) × (u ≢ t))
    of_key k u h = elim (Bool-cases (eq_text key k)) [
      | inl e ↦
          inl (
            sym ((eq_text_iff key k).0 e),
            ground (arith, added, lookup-insert key k t st.sum_types),
          )
      | inr e ↦
          let old : lookup k st.sum_types ≡ some u =
            ground (arith, added, lookup-insert key k t st.sum_types) in
          inr (old, new u (keyed.made k u old))
    ]

    added-Keeps :
        a.IsMade st'.engine_state t
        → ((u : engine.GoType) → a.IsMade st.engine_state u → a.IsMade st'.engine_state u)
        → Keeps st st'
    added-Keeps made keep = record {
      keyed = record {
        made = λ k u h. elim (of_key k u h) [
          | inl (_, same) ↦ subst (λ x. a.IsMade st'.engine_state x) (sym same) made
          | inr (old, _) ↦ keep u (keyed.made k u old)
        ];
        apart = λ k l u h h'. elim (of_key k u h) [
          | inl (e, same) ↦ elim (of_key l u h') [
            | inl (e', _) ↦ e ∙ sym e'
            | inr (_, other) ↦ absurd (other same)
          ]
          | inr (old, other) ↦ elim (of_key l u h') [
            | inl (_, same) ↦ absurd (other same)
            | inr (old', _) ↦ keyed.apart k l u old old'
          ]
        ];
      };
      stays = λ k u h. ground (arith, added, lookup-insert key k t st.sum_types, eq_text_iff key k);
    }

  new_sum_type-Keeps :
      (key go_name : Text) (is : List ℕ) (st : St) (r : engine.GoType × St)
      → lookup key st.sum_types ≡ none
      → IsKeyed st
      → new_sum_type model engine key go_name is st ≡ ok r
      → Keeps st (r.1) × (lookup key (r.1).sum_types ≡ some (r.0))
  unfolding new_sum_type
  new_sum_type-Keeps key go_name is st r free keyed h =
      let marker = lower_first go_name ++ text "Message" in
      let name = go_name ++ text "Message" in
      let iface = engine.interface st.engine_state name marker in
      let s : St = record st { engine_state = iface.1 } in
      let (marked, e, h₁) = bind-ok (mark_messages model engine (iface.0) marker is s) _ h in
      let (after, e₁, h₂) = bind-ok (saved model engine (iface.0) go_name marked) _ h₁ in
      let (same, keep) =
        Quiet-trans model engine a s marked after
          (mark_messages-Quiet model engine a (iface.0) marker is s marked e)
          (saved-Quiet model engine a (iface.0) go_name marked after e₁) in
      let st' : St = record after { sum_types = insert key (iface.0) after.sum_types } in
      ok-subst (λ x. Keeps st (x.1) × (lookup key (x.1).sum_types ≡ some (x.0))) h₂
        (
          added-Keeps key (iface.0) st st' free
              (λ u made e'.
                a.interface_new st.engine_state name marker
                  (subst (λ x. a.IsMade st.engine_state x) e' made))
              keyed (ap (insert key (iface.0)) same)
              (keep (iface.0) (a.interface_made st.engine_state name marker))
              (λ u made. keep u (a.interface_keeps st.engine_state name marker u made)),
          ground (arith, lookup-insert key key (iface.0) after.sum_types, eq_text_iff key key),
        )

  -- The sum type is the one at the key.
  abbrev pub IsShared : Text → Option engine.GoType → St → Type 0
  IsShared key o st = (t : engine.GoType) × (o ≡ some t) × (lookup key st.sum_types ≡ some t)

  pub shared_sum_type-Keeps :
      (key go_name : Text) (is : List ℕ) (st : St) (r : Option engine.GoType × St)
      → IsKeyed st
      → shared_sum_type model engine key go_name is st ≡ ok r
      → Keeps st (r.1) × IsShared key (r.0) (r.1)
  unfolding shared_sum_type
  shared_sum_type-Keeps key go_name is st r keyed h =
      elim (lookup key st.sum_types)
          as (λ o.
            lookup key st.sum_types ≡ o
            → (elim o [
              | none ↦
                  (new_sum_type model engine key go_name is st >>= λ made.
                  ok (some (made.0), made.1))
              | some t ↦ ok (some t, st)
            ])
              ≡ ok r
            → Keeps st (r.1) × IsShared key (r.0) (r.1)) [
              | none ↦ λ free e.
                  let (made, e₁, e₂) = bind-ok (new_sum_type model engine key go_name is st) _ e in
                  let (keeps, at) = new_sum_type-Keeps key go_name is st made free keyed e₁ in
                  ok-subst (λ x. Keeps st (x.1) × IsShared key (x.0) (x.1)) e₂
                    (keeps, (made.0, refl, at))
              | some t ↦ λ at e.
                  ok-subst (λ x. Keeps st (x.1) × IsShared key (x.0) (x.1)) e
                    (record { keyed = keyed; stays = λ k u h'. h' }, (t, refl, at))
            ]
        refl h
