-- ===== src/Gen/Generator/Operations.antt =====
-- The loops over the operations in `build` of gen/generator.go.
use agen.Prelude.{
  ℕ, ◌≡◌, refl, sym, ap, ◌∙◌, true, false, ◌||◌, List, [], ◌∷◌, ◌++◌, Option, none, some, ltb,
  length, get_elem?, is_some, arith, Bool-cases, inl, inr,
}
use mathlib.Core.Path.{subst}
use agen.Prelude.Result.{ok, ◌>>=◌, bind-ok, reject-bind, ok-subst}
use agen.Prelude.Text.{Text, lists, lookup, eq_text, eq_text_iff}
use agen.AsyncApi.Operation.{Operation}
use agen.Gen.Ir
use agen.Gen.Parts.{
  Model, Engine, State, or_nil, pretty_description, action_text, messages_for, message_for,
  channel_for,
}
use agen.Gen.Building.{build_operation, sum_type_for, shared_sum_type, spec_names, new_sum_type}
use agen.Gen.Names.{go_name_of, reserve_name}
use agen.Gen.Generator.{build_each, build_operations, synthetic_operations}

-- No text stands in the list twice.
unfoldable pub AllDiffer : List Text → Type 0
AllDiffer [] = Unit
AllDiffer (t ∷ ts) = (lists t ts ≡ false) × AllDiffer ts

lists-append : (n : Text) (xs ys : List Text) → lists n (xs ++ ys) ≡ (lists n xs || lists n ys)
unfolding lists
lists-append n [] ys = refl
lists-append n (x ∷ xs) ys = ground (arith, lists-append n xs ys)

AllDiffer-append :
    (xs ys : List Text)
    → AllDiffer xs
    → AllDiffer ys
    → ((n : Text) → lists n xs ≡ true → lists n ys ≡ false)
    → AllDiffer (xs ++ ys)
unfolding AllDiffer lists
AllDiffer-append [] ys a b apart = b
AllDiffer-append (x ∷ xs) ys (first, a) b apart =
    let own = apart x (ground (arith, (eq_text_iff x x).1 refl)) in
    (
      ground (arith, lists-append x xs ys, first, own),
      AllDiffer-append xs ys a b (λ n h. apart n (ground (arith, h))),
    )

-- The `names` differ from each other and from those `before`, and `after` lists both.
abbrev Extends : List Text → List Text → List Text → Type 0
Extends before names after =
    AllDiffer names
    × ((n : Text) → lists n before ≡ true → lists n names ≡ false)
    × ((n : Text) → lists n after ≡ (lists n names || lists n before))

Extends-nil : (before : List Text) → Extends before [] before
unfolding AllDiffer lists
Extends-nil before = (tt, λ n _. refl, λ n. refl)

Extends-cons :
    (name : Text) (before names after : List Text)
    → lists name before ≡ false
    → Extends (name ∷ before) names after
    → Extends before (name ∷ names) after
unfolding AllDiffer lists
Extends-cons name before names after new (differ, apart, seen) = (
  (apart name (ground (arith, (eq_text_iff name name).1 refl)), differ),
  λ n h. elim (Bool-cases (eq_text name n)) [
    | inl same ↦
        let e : name ≡ n = (eq_text_iff name n).0 same in
        absurd (ground (arith, new, subst (λ m. lists m before ≡ true) (sym e) h))
    | inr differs ↦ ground (arith, differs, apart n)
  ],
  λ n. ground (arith, seen n),
)

Extends-append :
    (names names' between after : List Text)
    → Extends [] names between
    → Extends between names' after
    → AllDiffer (names ++ names')
unfolding lists
Extends-append names names' between after (differ, _, seen) (differ', apart, _) =
    AllDiffer-append names names' differ differ' (λ n h. apart n (ground (arith, seen n, h)))

module _ {GoType : Type 0} where
  unfoldable pub names_of : List (Ir.Operation GoType) → List Text
  names_of [] = []
  names_of (o ∷ os) = o.name ∷ names_of os

  names_of-append :
      (os ps : List (Ir.Operation GoType)) → names_of (os ++ ps) ≡ names_of os ++ names_of ps
  unfolding names_of
  names_of-append [] ps = refl
  names_of-append (o ∷ os) ps = ap (λ t. o.name ∷ t) (names_of-append os ps)

module _ {Requirement B Tag Node GoType : Type 0} where
  -- An operation of the document and what is generated for it.
  abbrev pub Matches : Operation Requirement B Tag Node → Ir.Operation GoType → Type 0
  Matches op o =
      (o.operation_id ≡ op.name_of)
      × (o.action ≡ action_text op.action)
      × (o.go_doc ≡ pretty_description op.merged.description_of op.merged.summary_of)
      × (length o.messages ≡ length op.messages_of)
      × (is_some o.sum_type ≡ ltb 1 (length op.messages_of))

  unfoldable pub AllMatch :
      List (Operation Requirement B Tag Node) → List (Ir.Operation GoType) → Type 0
  AllMatch [] [] = Unit
  AllMatch [] (o ∷ os) = ⊥
  AllMatch (op ∷ ops) [] = ⊥
  AllMatch (op ∷ ops) (o ∷ os) = Matches op o × AllMatch ops os

  AllMatch-append :
      (ops ops' : List (Operation Requirement B Tag Node)) (os os' : List (Ir.Operation GoType))
      → AllMatch ops os
      → AllMatch ops' os'
      → AllMatch (ops ++ ops') (os ++ os')
  unfolding AllMatch
  AllMatch-append [] ops' [] os' a b = b
  AllMatch-append [] ops' (o ∷ os) os' a b = absurd a
  AllMatch-append (op ∷ ops) ops' [] os' a b = absurd a
  AllMatch-append (op ∷ ops) ops' (o ∷ os) os' (first, a) b =
      (first, AllMatch-append ops ops' os os' a b)

module _ {MessageBinding Correlation Requirement B Tag Node RawSchema Schema : Type 0}
    (model : Model MessageBinding Correlation Requirement B Tag Node RawSchema Schema)
    (engine : Engine Schema) where
  messages_for-length :
      (ks : List ℕ) (st : State model engine) (r : List ℕ × State model engine)
      → messages_for model engine ks st ≡ ok r
      → length (r.0) ≡ length ks
  unfolding messages_for
  messages_for-length [] st r h = ground arith
  messages_for-length (k ∷ ks) st r h =
      let (first, e, h₁) = bind-ok (message_for model engine k st) _ h in
      let (rest, e₁, h₂) = bind-ok (messages_for model engine ks (first.1)) _ h₁ in
      let ih = messages_for-length ks (first.1) rest e₁ in ground arith

  shared_sum_type-some :
      (key go_name : Text) (is : List ℕ) (st : State model engine)
      (r : Option engine.GoType × State model engine)
      → shared_sum_type model engine key go_name is st ≡ ok r
      → is_some (r.0) ≡ true
  unfolding shared_sum_type
  shared_sum_type-some key go_name is st r h =
      elim (lookup key st.sum_types)
          as (λ o.
            (elim o [
              | none ↦
                  (new_sum_type model engine key go_name is st >>= λ made.
                  ok (some (made.0), made.1))
              | some t ↦ ok (some t, st)
            ])
              ≡ ok r
            → is_some (r.0) ≡ true) [
              | none ↦ λ e.
                  let (made, _, e₁) = bind-ok (new_sum_type model engine key go_name is st) _ e in
                  ground arith
              | some t ↦ λ e. ground arith
            ]
        h

  sum_type_for-some :
      (go_name : Text) (is : List ℕ) (st : State model engine)
      (r : Option engine.GoType × State model engine)
      → sum_type_for model engine go_name is st ≡ ok r
      → is_some (r.0) ≡ ltb 1 (length is)
  unfolding sum_type_for
  sum_type_for-some go_name is st r h = elim (Bool-cases (ltb 1 (length is))) [
    | inl many ↦
        let (specs, e, h₁) = bind-ok (spec_names model engine is st) _ (rw many at h) in
        shared_sum_type-some _ go_name is st r h₁ ∙ sym many
    | inr few ↦ ok-subst (λ x. is_some (x.0) ≡ ltb 1 (length is)) (rw few at h) (sym few)
  ]

  build_operation-Matches :
      (op : Operation Requirement B Tag Node) (st : State model engine)
      (r : Ir.Operation engine.GoType × State model engine)
      → build_operation model engine op st ≡ ok r
      → Matches op (r.0)
  unfolding build_operation
  build_operation-Matches op st r h =
      let (go_name, e, h₁) =
        bind-ok (go_name_of model.scalar model.rules op.extensions op.name_of) _ h in
      let (found, e₁, h₂) =
        bind-ok
          (channel_for model engine op.channel
            (record st { names = reserve_name go_name st.names }))
          _ h₁ in
      let (msgs, e₂, h₃) = bind-ok (messages_for model engine op.messages_of (found.1)) _ h₂ in
      let (ch, e₃, h₄) = bind-ok (or_nil (get_elem? (msgs.1).channels (found.0))) _ h₃ in
      let (sum, e₄, h₅) = bind-ok (sum_type_for model engine ch.go_name (msgs.0) (msgs.1)) _ h₄ in
      let count = messages_for-length op.messages_of (found.1) msgs e₂ in
      let some_sum =
        sum_type_for-some ch.go_name (msgs.0) (msgs.1) sum e₄ ∙ ap (λ n. ltb 1 n) count in
      ok-subst (λ x. Matches op (x.0)) h₅ (refl, refl, refl, count, some_sum)

  build_each-Accounts :
      (ops : List (Operation Requirement B Tag Node)) (before : List Text) (st : State model engine)
      (r : List (Ir.Operation engine.GoType) × List Text × State model engine)
      → build_each model engine ops before st ≡ ok r
      → AllMatch ops (r.0) × Extends before (names_of (r.0)) (r.1)
  unfolding build_each AllMatch names_of
  build_each-Accounts [] before st r h =
      ok-subst
        (λ x.
          AllMatch {Requirement = Requirement} {B = B} {Tag = Tag} {Node = Node} [] (x.0)
          × Extends before (names_of (x.0)) (x.1))
        h (tt, Extends-nil before)
  build_each-Accounts (op ∷ ops) before st r h =
      let (built, e, h₁) = bind-ok (build_operation model engine op st) _ h in
      let name = (built.0).name in
      let (new, h₂) = reject-bind (lists name before) _ _ h₁ in
      let (rest, e₁, h₃) = bind-ok (build_each model engine ops (name ∷ before) (built.1)) _ h₂ in
      let (all, extends) = build_each-Accounts ops (name ∷ before) (built.1) rest e₁ in
      ok-subst (λ x. AllMatch (op ∷ ops) (x.0) × Extends before (names_of (x.0)) (x.1)) h₃
        (
          (build_operation-Matches op st built e, all),
          Extends-cons name before (names_of (rest.0)) (rest.1) new extends,
        )

  -- Each operation that the filter leaves, and behind these each reply of a receive operation, is
  -- generated once, in order: with its id, its action and its documentation, with as many messages as
  -- it has, and with a sum type exactly if there are several. No two of the generated operations have
  -- the same name.
  pub build_operations-AllMatch :
      (ops : List (Operation Requirement B Tag Node)) (st : State model engine)
      (r : List (Ir.Operation engine.GoType) × State model engine)
      → build_operations model engine ops st ≡ ok r
      → AllMatch (ops ++ synthetic_operations ops) (r.0) × AllDiffer (names_of (r.0))
  unfolding build_operations
  build_operations-AllMatch ops st r h =
      let (first, e, h₁) = bind-ok (build_each model engine ops [] st) _ h in
      let (second, e₁, h₂) =
        bind-ok (build_each model engine (synthetic_operations ops) (first.1) (first.2)) _ h₁ in
      let (all, extends) = build_each-Accounts ops [] st first e in
      let (all', extends') =
        build_each-Accounts (synthetic_operations ops) (first.1) (first.2) second e₁ in
      ok-subst (λ x. AllMatch (ops ++ synthetic_operations ops) (x.0) × AllDiffer (names_of (x.0)))
        h₂
        (
          AllMatch-append ops (synthetic_operations ops) (first.0) (second.0) all all',
          subst AllDiffer (sym (names_of-append (first.0) (second.0))) (
              Extends-append (names_of (first.0)) (names_of (second.0)) (first.1) (second.1) extends
                extends'),
        )
