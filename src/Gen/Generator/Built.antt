-- ===== src/Gen/Generator/Built.antt =====
-- What `build` of gen/generator.go leaves in the generator.
use agen.Prelude.{◌≡◌, true, List, ◌++◌, Option}
use mathlib.Core.Path.{subst}
use agen.Prelude.Result.{ok, bind-ok, ok-subst}
use agen.Prelude.Text.{Text, Map}
use agen.AsyncApi.Server
use agen.AsyncApi.Operation.{Operation}
use agen.Gen.Parts.{Model, Engine, State}
use agen.Gen.Building.Placed.{AllPairs}
use agen.Gen.Building.Steps.{IsSound}
use agen.Gen.Features.{FeatureSet}
use agen.Gen.Backend.{broker_backend}
use agen.Gen.RedisDefaults.Agreement.{AllTyped, AllFit, redis_binding_defaults-AllFit}
use agen.Gen.Generator.{
  Filters, Generator, features_of, build, new_state, new_generator, build_servers, build_operations,
  build_wiring, filter_operations, synthetic_operations, sorted_server_keys,
}
use agen.Gen.Generator.Operations.{AllMatch, AllDiffer, names_of, build_operations-AllMatch}
use agen.Gen.Generator.Linked.{AllLinked, build_operations-AllLinked}

-- The operations that the filter leaves, and their replies.
abbrev pub effective :
    {Requirement B Tag Node : Type 0}
    → Filters
    → List (Operation Requirement B Tag Node)
    → List (Operation Requirement B Tag Node)
effective filters ops =
    filter_operations filters ops ++ synthetic_operations (filter_operations filters ops)

module _ {MessageBinding Correlation Requirement B Tag Node RawSchema Schema : Type 0}
    (model : Model MessageBinding Correlation Requirement B Tag Node RawSchema Schema)
    (engine : Engine Schema) {Requirements Bindings Tags : Type 0} (ignored : List Text)
    (filters : Filters) (servers : Map (Server.Server Requirements Bindings Tags))
    (ops : List (Operation Requirement B Tag Node)) (st : State model engine) where
  pub build-steps :
      (g : Generator model engine)
      → build model engine ignored filters servers ops st ≡ ok g
      → (build_operations model engine (filter_operations filters ops) st
          ≡ ok (g.operations, g.state))
        × (build_wiring model engine ((broker_backend g.servers).0) (effective filters ops)
            ≡ ok g.wiring)
  unfolding build
  build-steps g h =
      let (servers', e, h₁) =
        bind-ok (build_servers model.rules ignored servers (sorted_server_keys servers)) _ h in
      let (built, e₁, h₂) =
        bind-ok (build_operations model engine (filter_operations filters ops) st) _ h₁ in
      let (wiring', e₂, h₃) =
        bind-ok (build_wiring model engine ((broker_backend servers').0) (effective filters ops)) _
          h₂ in
      ok-subst
        (λ x.
          (build_operations model engine (filter_operations filters ops) st
            ≡ ok (x.operations, x.state))
          × (build_wiring model engine ((broker_backend x.servers).0) (effective filters ops)
              ≡ ok x.wiring))
        h₃ (e₁, e₂)

  -- If building succeeds, each operation that the filter leaves, and behind these each reply of a
  -- receive operation among them, is generated once, in order: with its id, its action and its
  -- documentation, with as many messages as it has, and with a sum type exactly if there are several.
  -- No two of the generated operations have the same name.
  pub build-AllMatch :
      (g : Generator model engine)
      → build model engine ignored filters servers ops st ≡ ok g
      → AllMatch (effective filters ops) g.operations × AllDiffer (names_of g.operations)
  build-AllMatch g h =
      build_operations-AllMatch model engine (filter_operations filters ops) st
        (g.operations, g.state) (build-steps g h).0

  -- If building succeeds, the servers that are left share a protocol with a backend, and the channels
  -- that have a binding have a type, then the wiring of the generated constructors fits every
  -- operation, also the replies: each channel has a binding of the type of the wiring, a receive
  -- operation has its consumer group, or none, which the stream type does not allow, and the channel of
  -- a send operation has its length, or none.
  pub build-AllFit :
      (g : Generator model engine)
      → AllTyped model.channel_at (effective filters ops)
      → (broker_backend g.servers).0 ≡ true
      → build model engine ignored filters servers ops st ≡ ok g
      → AllFit model.channel_at g.wiring (effective filters ops)
  build-AllFit g typed wired h =
      redis_binding_defaults-AllFit model.channel_at (effective filters ops) g.wiring typed (
        unfold build_wiring in
        subst (λ b. build_wiring model engine b (effective filters ops) ≡ ok g.wiring) wired
          (build-steps g h).1)

module _ {MessageBinding Correlation Requirement B Tag Node RawSchema Schema : Type 0}
    (model : Model MessageBinding Correlation Requirement B Tag Node RawSchema Schema)
    (engine : Engine Schema) {Requirements Bindings Tags : Type 0} (ignored : List Text)
    (filters : Filters) (servers : Map (Server.Server Requirements Bindings Tags))
    (ops : List (Operation Requirement B Tag Node)) (s : engine.State) where
  pub new_state-IsSound : IsSound model engine (new_state model engine s)
  unfolding new_state AllPairs
  new_state-IsSound = (tt, tt)

  -- If a generator is made, each generated operation, also the reply of a receive operation, refers to
  -- a channel with the name, the address and the description of its channel in the document, and in
  -- order to messages with the names and content types of its messages there, each with a payload or
  -- headers exactly if the message in the document has them. What the maps of the generator find is at
  -- its place.
  pub new_generator-AllLinked :
      (features : Option FeatureSet) (r : FeatureSet × Generator model engine)
      → new_generator model engine features ignored filters servers ops s ≡ ok r
      → IsSound model engine (r.1).state
        × AllLinked model engine (effective filters ops) (r.1).operations (r.1).state
  unfolding new_generator
  new_generator-AllLinked features r h =
      let start = new_state model engine s in
      let (features', e, h₁) = bind-ok (features_of features) _ h in
      let (g, e₁, h₂) = bind-ok (build model engine ignored filters servers ops start) _ h₁ in
      ok-subst
        (λ x.
          IsSound model engine (x.1).state
          × AllLinked model engine (effective filters ops) (x.1).operations (x.1).state)
        h₂
        (build_operations-AllLinked model engine (filter_operations filters ops) start
          (g.operations, g.state) new_state-IsSound
          (build-steps model engine ignored filters servers ops start g e₁).0)
