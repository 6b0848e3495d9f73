-- ===== src/Gen/Generator/Shared.antt =====
-- Which operations of a generator share a sum type.
use agen.Prelude.{
  ℕ, zero, suc, ◌<◌, ◌≡◌, ◌↔◌, inl, inr, sym, ap, ◌∙◌, List, [], ◌∷◌, ◌++◌, Option, some, arith,
  length, get_elem?,
}
use mathlib.Core.Path.{subst}
use agen.Prelude.Result.{ok, bind-ok, reject-bind, ok-subst}
use agen.Prelude.Text.{Text, Map, lookup, lists}
use agen.AsyncApi.Server
use agen.AsyncApi.Operation.{Operation}
use agen.Gen.Ir
use agen.Gen.Features.{FeatureSet}
use agen.Gen.Sorting.{set_key}
use agen.Gen.Sorting.Order.{count}
use agen.Gen.Sorting.Keys.{NulFree, set_key_iff}
use agen.Gen.Parts.{Model, Engine, State}
use agen.Gen.Building.{build_operation}
use agen.Gen.Building.Steps.{IsSound}
use agen.Gen.Building.Marked.{build_operation-IsLinked}
use agen.Gen.Building.Quiet.{Allocates}
use agen.Gen.Building.Shared.{NamesAre, NamesAre-unique, IsKeyed, Keeps, Keeps-trans, IsShared}
use agen.Gen.Building.Typed.{IsTyped, IsTyped-later, build_operation-Keeps}
use agen.Gen.Generator.{
  Filters, Generator, features_of, build, new_state, new_generator, build_each, build_operations,
  filter_operations, synthetic_operations,
}
use agen.Gen.Generator.Built.{effective, build-steps, new_state-IsSound}

module _ {MessageBinding Correlation Requirement B Tag Node RawSchema Schema : Type 0}
    (model : Model MessageBinding Correlation Requirement B Tag Node RawSchema Schema)
    (engine : Engine Schema) (a : Allocates engine) where
  abbrev St : Type 0
  St = State model engine

  -- Each operation has the sum type of the names of its messages.
  unfoldable AllTyped :
      List (Operation Requirement B Tag Node) → List (Ir.Operation engine.GoType) → St → Type 0
  AllTyped [] [] st = Unit
  AllTyped [] (o ∷ os) st = ⊥
  AllTyped (op ∷ ops) [] st = ⊥
  AllTyped (op ∷ ops) (o ∷ os) st =
      IsTyped model engine a op.messages_of o.sum_type st × AllTyped ops os st

  AllTyped-later :
      (ops : List (Operation Requirement B Tag Node)) (os : List (Ir.Operation engine.GoType))
      (st st' : St)
      → Keeps model engine a st st'
      → AllTyped ops os st
      → AllTyped ops os st'
  unfolding AllTyped
  AllTyped-later [] [] st st' keeps all = tt
  AllTyped-later [] (o ∷ os) st st' keeps all = all
  AllTyped-later (op ∷ ops) [] st st' keeps all = all
  AllTyped-later (op ∷ ops) (o ∷ os) st st' keeps (first, all) = (
    IsTyped-later model engine a op.messages_of o.sum_type st st' keeps first,
    AllTyped-later ops os st st' keeps all,
  )

  AllTyped-append :
      (ops ops' : List (Operation Requirement B Tag Node))
      (os os' : List (Ir.Operation engine.GoType)) (st : St)
      → AllTyped ops os st
      → AllTyped ops' os' st
      → AllTyped (ops ++ ops') (os ++ os') st
  unfolding AllTyped
  AllTyped-append [] ops' [] os' st p q = q
  AllTyped-append [] ops' (o ∷ os) os' st p q = absurd p
  AllTyped-append (op ∷ ops) ops' [] os' st p q = absurd p
  AllTyped-append (op ∷ ops) ops' (o ∷ os) os' st (first, p) q =
      (first, AllTyped-append ops ops' os os' st p q)

  AllTyped-at :
      (ops : List (Operation Requirement B Tag Node)) (os : List (Ir.Operation engine.GoType))
      (st : St) (i : ℕ) (op : Operation Requirement B Tag Node) (o : Ir.Operation engine.GoType)
      → AllTyped ops os st
      → get_elem? ops i ≡ some op
      → get_elem? os i ≡ some o
      → IsTyped model engine a op.messages_of o.sum_type st
  unfolding AllTyped
  AllTyped-at [] os st i op o all h k = cc
  AllTyped-at (x ∷ ops) [] st i op o all h k = cc
  AllTyped-at (x ∷ ops) (z ∷ os) st zero op o (first, all) h k =
      let same : x ≡ op = ground arith in
      let same' : z ≡ o = ground arith in
      subst (λ u. IsTyped model engine a op.messages_of u.sum_type st) same'
        (subst (λ u. IsTyped model engine a u.messages_of z.sum_type st) same first)
  AllTyped-at (x ∷ ops) (z ∷ os) st (suc i) op o (first, all) h k =
      AllTyped-at ops os st i op o all h k

  build_each-AllTyped :
      (ops : List (Operation Requirement B Tag Node)) (before : List Text) (st : St)
      (r : List (Ir.Operation engine.GoType) × List Text × St)
      → IsSound model engine st
      → IsKeyed model engine a st
      → build_each model engine ops before st ≡ ok r
      → IsSound model engine (r.2) × Keeps model engine a st (r.2) × AllTyped ops (r.0) (r.2)
  unfolding build_each AllTyped
  build_each-AllTyped [] before st r sound keyed h =
      ok-subst
        (λ x. IsSound model engine (x.2) × Keeps model engine a st (x.2) × AllTyped [] (x.0) (x.2))
        h (sound, record { keyed = keyed; stays = λ k t h'. h' }, tt)
  build_each-AllTyped (op ∷ ops) before st r sound keyed h =
      let (built, e, h₁) = bind-ok (build_operation model engine op st) _ h in
      let name = (built.0).name in
      let (_, h₂) = reject-bind (lists name before) _ _ h₁ in
      let (rest, e₁, h₃) = bind-ok (build_each model engine ops (name ∷ before) (built.1)) _ h₂ in
      let ((_, sound'), _) = build_operation-IsLinked model engine op st built sound e in
      let (keeps, typed) = build_operation-Keeps model engine a op st built sound keyed e in
      let (sound'', keeps', all) =
        build_each-AllTyped ops (name ∷ before) (built.1) rest sound' keeps.keyed e₁ in
      ok-subst
        (λ x.
          IsSound model engine (x.2)
          × Keeps model engine a st (x.2)
          × AllTyped (op ∷ ops) (x.0) (x.2))
        h₃
        (
          sound'',
          Keeps-trans model engine a st (built.1) (rest.2) keeps keeps',
          (
            IsTyped-later model engine a op.messages_of (built.0).sum_type (built.1) (rest.2) keeps'
                typed,
            all,
          ),
        )

  build_operations-AllTyped :
      (ops : List (Operation Requirement B Tag Node)) (st : St)
      (r : List (Ir.Operation engine.GoType) × St)
      → IsSound model engine st
      → IsKeyed model engine a st
      → build_operations model engine ops st ≡ ok r
      → IsKeyed model engine a (r.1) × AllTyped (ops ++ synthetic_operations ops) (r.0) (r.1)
  unfolding build_operations
  build_operations-AllTyped ops st r sound keyed h =
      let replies = synthetic_operations ops in
      let (first, e, h₁) = bind-ok (build_each model engine ops [] st) _ h in
      let (second, e₁, h₂) = bind-ok (build_each model engine replies (first.1) (first.2)) _ h₁ in
      let (sound', keeps, all) = build_each-AllTyped ops [] st first sound keyed e in
      let (_, keeps', all') =
        build_each-AllTyped replies (first.1) (first.2) second sound' keeps.keyed e₁ in
      ok-subst (λ x. IsKeyed model engine a (x.1) × AllTyped (ops ++ replies) (x.0) (x.1)) h₂
        (
          keeps'.keyed,
          AllTyped-append ops replies (first.0) (second.0) (second.2)
              (AllTyped-later ops (first.0) (first.2) (second.2) keeps' all) all',
        )

  new_state-IsKeyed : (s : engine.State) → IsKeyed model engine a (new_state model engine s)
  unfolding new_state lookup
  new_state-IsKeyed s = record { made = λ k t h. cc; apart = λ k l t h h'. cc }

  -- Two sum types at the keys of names are the same exactly if the names are.
  shared_iff :
      (st : St) (ks ls : List ℕ) (names names' : List Text) (o p : Option engine.GoType)
      → IsKeyed model engine a st
      → 1 < length ks
      → 1 < length ls
      → NamesAre model ks names
      → NamesAre model ls names'
      → NulFree names
      → NulFree names'
      → IsShared model engine a (set_key names) o st
      → IsShared model engine a (set_key names') p st
      → (o ≡ p) ↔ ((c : Text) → count c names ≡ count c names')
  unfolding NamesAre
  shared_iff st [] ls names names' o p keyed many many' are are' free free' is is' =
      absurd (omega (arith, many))
  shared_iff st (k ∷ ks) [] names names' o p keyed many many' are are' free free' is is' =
      absurd (omega (arith, many'))
  shared_iff st (k ∷ ks) (l ∷ ls) [] names' o p keyed many many' are are' free free' is is' =
      absurd are
  shared_iff st (k ∷ ks) (l ∷ ls) (x ∷ xs) [] o p keyed many many' are are' free free' is is' =
      absurd are'
  shared_iff st (k ∷ ks) (l ∷ ls) (x ∷ xs) (z ∷ zs) o p keyed many many' are are' free free'
        (t, is, at) (u, is', at') =
      let (of_key, to_key) = set_key_iff x z xs zs free free' in
      (
        λ same.
            let one : t ≡ u = ground arith in
            of_key (
              keyed.apart (set_key (x ∷ xs)) (set_key (z ∷ zs)) u
                (subst (λ v. lookup (set_key (x ∷ xs)) st.sum_types ≡ some v) one at) at'),
        λ same.
            let key = to_key same in
            is ∙ sym at ∙ ap (λ v. lookup v st.sum_types) key ∙ at' ∙ sym is',
      )

  -- With several messages, only the sum type at the key is left.
  several-IsShared :
      (ks : List ℕ) (names : List Text) (o : Option engine.GoType) (st : St)
      → 1 < length ks
      → NamesAre model ks names
      → IsTyped model engine a ks o st
      → IsShared model engine a (set_key names) o st
  several-IsShared ks names o st many are (inl (few, _)) = absurd (omega (arith, many, few))
  several-IsShared ks names o st many are (inr (names', are', is)) =
      subst (λ x. IsShared model engine a (set_key x) o st)
        (NamesAre-unique model ks names' names are' are) is

  module _ {Requirements Bindings Tags : Type 0} (ignored : List Text) (filters : Filters)
      (servers : Map (Server.Server Requirements Bindings Tags))
      (ops : List (Operation Requirement B Tag Node)) (s : engine.State) where
    new_generator-AllTyped :
        (features : Option FeatureSet) (r : FeatureSet × Generator model engine)
        → new_generator model engine features ignored filters servers ops s ≡ ok r
        → IsKeyed model engine a (r.1).state
          × AllTyped (effective filters ops) (r.1).operations (r.1).state
    unfolding new_generator
    new_generator-AllTyped features r h =
        let start = new_state model engine s in
        let (features', e, h₁) = bind-ok (features_of features) _ h in
        let (g, e₁, h₂) = bind-ok (build model engine ignored filters servers ops start) _ h₁ in
        ok-subst
          (λ x.
            IsKeyed model engine a (x.1).state
            × AllTyped (effective filters ops) (x.1).operations (x.1).state)
          h₂
          (build_operations-AllTyped (filter_operations filters ops) start (g.operations, g.state)
            (new_state-IsSound model engine ignored filters servers ops s) (new_state-IsKeyed s)
            (build-steps model engine ignored filters servers ops start g e₁).0)

    -- Where the engine gives each new interface a type that was not made before, and keeps what is
    -- made, two operations of a generator that have several messages, whose names in the document have
    -- no NUL bytes, have the same sum type if and only if the lists of their names have each name
    -- equally often, in whatever order. The replies of receive operations count as operations.
    pub new_generator-sum_type_iff :
        (features : Option FeatureSet) (r : FeatureSet × Generator model engine) (i j : ℕ)
        (op op' : Operation Requirement B Tag Node) (o o' : Ir.Operation engine.GoType)
        (names names' : List Text)
        → new_generator model engine features ignored filters servers ops s ≡ ok r
        → get_elem? (effective filters ops) i ≡ some op
        → get_elem? (effective filters ops) j ≡ some op'
        → get_elem? (r.1).operations i ≡ some o
        → get_elem? (r.1).operations j ≡ some o'
        → 1 < length op.messages_of
        → 1 < length op'.messages_of
        → NamesAre model op.messages_of names
        → NamesAre model op'.messages_of names'
        → NulFree names
        → NulFree names'
        → (o.sum_type ≡ o'.sum_type) ↔ ((c : Text) → count c names ≡ count c names')
    new_generator-sum_type_iff features r i j op op' o o' names names' h at at' here here' many
          many' are are' free free' =
        let st = (r.1).state in
        let (keyed, all) = new_generator-AllTyped features r h in
        let typed = AllTyped-at (effective filters ops) (r.1).operations st i op o all at here in
        let typed' =
          AllTyped-at (effective filters ops) (r.1).operations st j op' o' all at' here' in
        shared_iff st op.messages_of op'.messages_of names names' o.sum_type o'.sum_type keyed many
          many' are are' free free'
          (several-IsShared op.messages_of names o.sum_type st many are typed)
          (several-IsShared op'.messages_of names' o'.sum_type st many' are' typed')
