-- ===== src/Gen/Generator/Linked.antt =====
-- The operations that `build` of gen/generator.go generates stay linked to their channels and messages.
use agen.Prelude.{◌≡◌, List, [], ◌∷◌, ◌++◌}
use agen.Prelude.Result.{ok, bind-ok, reject-bind, ok-subst}
use agen.Prelude.Text.{Text, lists}
use agen.AsyncApi.Operation.{Operation}
use agen.Gen.Ir
use agen.Gen.Parts.{Model, Engine, State}
use agen.Gen.Building.{build_operation}
use agen.Gen.Building.Placed.{AllShow-mono, ShowsMessage}
use agen.Gen.Building.Steps.{IsSound, Grows, Sound, Grows-trans}
use agen.Gen.Building.Marked.{IsLinked, build_operation-IsLinked}
use agen.Gen.Generator.{build_each, build_operations, synthetic_operations}

module _ {MessageBinding Correlation Requirement B Tag Node RawSchema Schema : Type 0}
    (model : Model MessageBinding Correlation Requirement B Tag Node RawSchema Schema)
    (engine : Engine Schema) where
  unfoldable pub AllLinked :
      List (Operation Requirement B Tag Node)
      → List (Ir.Operation engine.GoType)
      → State model engine
      → Type 0
  AllLinked [] [] st = Unit
  AllLinked [] (o ∷ os) st = ⊥
  AllLinked (op ∷ ops) [] st = ⊥
  AllLinked (op ∷ ops) (o ∷ os) st = IsLinked model engine op o st × AllLinked ops os st

  IsLinked-Later :
      (op : Operation Requirement B Tag Node) (o : Ir.Operation engine.GoType)
      (st st' : State model engine)
      → Grows model engine st st'
      → IsLinked model engine op o st
      → IsLinked model engine op o st'
  IsLinked-Later op o st st' (cs, ms) (channel, all) = (
    cs op.channel o.channel channel,
    AllShow-mono (ShowsMessage model st.messages) (ShowsMessage model st'.messages) op.messages_of
        o.messages ms all,
  )

  AllLinked-Later :
      (ops : List (Operation Requirement B Tag Node)) (os : List (Ir.Operation engine.GoType))
      (st st' : State model engine)
      → Grows model engine st st'
      → AllLinked ops os st
      → AllLinked ops os st'
  unfolding AllLinked
  AllLinked-Later [] [] st st' grows all = tt
  AllLinked-Later [] (o ∷ os) st st' grows all = all
  AllLinked-Later (op ∷ ops) [] st st' grows all = all
  AllLinked-Later (op ∷ ops) (o ∷ os) st st' grows (first, all) =
      (IsLinked-Later op o st st' grows first, AllLinked-Later ops os st st' grows all)

  AllLinked-append :
      (ops ops' : List (Operation Requirement B Tag Node))
      (os os' : List (Ir.Operation engine.GoType)) (st : State model engine)
      → AllLinked ops os st
      → AllLinked ops' os' st
      → AllLinked (ops ++ ops') (os ++ os') st
  unfolding AllLinked
  AllLinked-append [] ops' [] os' st a b = b
  AllLinked-append [] ops' (o ∷ os) os' st a b = absurd a
  AllLinked-append (op ∷ ops) ops' [] os' st a b = absurd a
  AllLinked-append (op ∷ ops) ops' (o ∷ os) os' st (first, a) b =
      (first, AllLinked-append ops ops' os os' st a b)

  pub build_each-AllLinked :
      (ops : List (Operation Requirement B Tag Node)) (before : List Text) (st : State model engine)
      (r : List (Ir.Operation engine.GoType) × List Text × State model engine)
      → IsSound model engine st
      → build_each model engine ops before st ≡ ok r
      → Sound model engine st (r.2) × AllLinked ops (r.0) (r.2)
  unfolding build_each AllLinked
  build_each-AllLinked [] before st r sound h =
      ok-subst (λ x. Sound model engine st (x.2) × AllLinked [] (x.0) (x.2)) h
        (((λ k i h'. h', λ k i h'. h'), sound), tt)
  build_each-AllLinked (op ∷ ops) before st r sound h =
      let (built, e, h₁) = bind-ok (build_operation model engine op st) _ h in
      let name = (built.0).name in
      let (new, h₂) = reject-bind (lists name before) _ _ h₁ in
      let (rest, e₁, h₃) = bind-ok (build_each model engine ops (name ∷ before) (built.1)) _ h₂ in
      let (first, linked) = build_operation-IsLinked model engine op st built sound e in
      let ((grows, sound'), all) =
        build_each-AllLinked ops (name ∷ before) (built.1) rest first.1 e₁ in
      ok-subst (λ x. Sound model engine st (x.2) × AllLinked (op ∷ ops) (x.0) (x.2)) h₃
        (
          (Grows-trans model engine st (built.1) (rest.2) first.0 grows, sound'),
          (IsLinked-Later op (built.0) (built.1) (rest.2) grows linked, all),
        )

  -- If what the maps find is at its place before, then so it is after the operations are built; and
  -- each operation, also the reply of a receive operation, refers to a channel with the name, the
  -- address and the description of its channel in the document, and in order to messages with the
  -- names and content types of its messages there, each with a payload or headers exactly if the
  -- message in the document has them. No later operation changes that.
  pub build_operations-AllLinked :
      (ops : List (Operation Requirement B Tag Node)) (st : State model engine)
      (r : List (Ir.Operation engine.GoType) × State model engine)
      → IsSound model engine st
      → build_operations model engine ops st ≡ ok r
      → IsSound model engine (r.1) × AllLinked (ops ++ synthetic_operations ops) (r.0) (r.1)
  unfolding build_operations
  build_operations-AllLinked ops st r sound h =
      let replies = synthetic_operations ops in
      let (first, e, h₁) = bind-ok (build_each model engine ops [] st) _ h in
      let (second, e₁, h₂) = bind-ok (build_each model engine replies (first.1) (first.2)) _ h₁ in
      let ((_, sound'), all) = build_each-AllLinked ops [] st first sound e in
      let ((grows, sound''), all') =
        build_each-AllLinked replies (first.1) (first.2) second sound' e₁ in
      ok-subst (λ x. IsSound model engine (x.1) × AllLinked (ops ++ replies) (x.0) (x.1)) h₂
        (
          sound'',
          AllLinked-append ops replies (first.0) (second.0) (second.2)
              (AllLinked-Later ops (first.0) (first.2) (second.2) grows all) all',
        )
