-- ===== src/Gen/Generator.antt =====
-- `build` of gen/generator.go: from the parsed document to the servers, channels and operations of the
-- generated code.
--
-- The regular expression of the filter is a parameter, a test of the name.
pub mod Operations
pub mod Linked
pub mod Built
pub mod Shared
pub mod Safe
pub mod EndToEnd
mod Tests
use agen.Prelude.{
  Bool, true, false, not, ◌&&◌, List, [], ◌∷◌, ◌++◌, Option, none, some, if◌then◌else◌,
}
use agen.Prelude.Int.{pos}
use agen.Prelude.Result.{ok, err, ◌>>=◌, ◌>>◌, reject}
use agen.Prelude.Text.{Text, text, Map, lookup, is_empty, lists}
use agen.AsyncApi.RedisBinding.{Action, send, receive}
use agen.AsyncApi.Traits
use agen.AsyncApi.Server
use agen.AsyncApi.Operation.{Operation, Reply}
use agen.Gen.{Generated, name_conflict, unknown_protocol}
use agen.Gen.Features.{FeatureSet, build_features}
use agen.Gen.Unsupported.{not_implemented, fail, contains}
use agen.Gen.Backend.{broker_backend}
use agen.Gen.Backend
use agen.Gen.Sorting.{sort_strings}
use agen.Gen.Names.{GoNames, pascal_name}
use agen.Gen.RedisDefaults.{Wiring, redis_binding_defaults}
use agen.Gen.Ir
use agen.Gen.Parts.{Model, Engine, State, action_text, or_nil}
use agen.Gen.Building.{build_operation}

abbrev pub known_protocols : List Text
known_protocols =
    text "redis"
    ∷ text "kafka"
    ∷ text "kafka-secure"
    ∷ text "mqtt"
    ∷ text "mqtt5"
    ∷ text "amqp"
    ∷ text "amqp1"
    ∷ text "nats"
    ∷ text "websockets"
    ∷ text "ws"
    ∷ text "googlepubsub"
    ∷ text "pulsar"
    ∷ text "sns"
    ∷ text "sqs"
    ∷ text "ibmmq"
    ∷ text "solace"
    ∷ text "jms"
    ∷ text "mercure"
    ∷ text "stomp"
    ∷ text "http"
    ∷ []

-- `Filters`; `none` is a nil regular expression.
pub record Filters : Type 0 where
  pub operations_regex : Option (Text → Bool)
  pub actions : List Text

-- The features of the options, or the default ones.
unfoldable pub features_of : Option FeatureSet → Generated FeatureSet
unfolding build_features
features_of none = build_features [] [] false
features_of (some features) = ok features

unfoldable pub keys_of {ℓ} : {V : Type ℓ} → Map V → List Text
keys_of [] = []
keys_of ((k, v) ∷ m) = k ∷ keys_of m

unfoldable pub sorted_server_keys {ℓ} : {V : Type ℓ} → Map V → List Text
unfolding keys_of sort_strings
sorted_server_keys m = sort_strings (keys_of m)

unfoldable pub with_server : Option Backend.Server → List Backend.Server → List Backend.Server
with_server none servers = servers
with_server (some s) servers = s ∷ servers

module _ {Requirement Bindings Tags : Type 0} where
  -- The body of the loop over the servers; `none` is a server that is left out.
  unfoldable pub build_server :
      GoNames
      → List Text
      → Server.Server Requirement Bindings Tags
      → Generated (Option Backend.Server)
  unfolding fail lists pascal_name
  build_server rules ignored s =
      if not (lists s.protocol known_protocols)
      then elim (fail ignored (some (not_implemented (text "protocol " ++ s.protocol)))) [
        | none ↦ ok none
        | some e ↦ err (unknown_protocol s.protocol)
      ]
      else (pascal_name rules (s.name_of ∷ []) >>= λ go_name. ok (
          some (record {
            name = s.name_of;
            go_name = go_name;
            host = s.host;
            protocol = s.protocol;
            protocol_version = s.protocol_version;
            description = s.description_of;
          })))

  unfoldable pub build_servers :
      GoNames
      → List Text
      → Map (Server.Server Requirement Bindings Tags)
      → List Text
      → Generated (List Backend.Server)
  unfolding build_server with_server lookup or_nil
  build_servers rules ignored servers [] = ok []
  build_servers rules ignored servers (name ∷ names) = do
    s ← or_nil (lookup name servers)
    built ← build_server rules ignored s
    rest ← build_servers rules ignored servers names
    ok (with_server built rest)

-- `r != nil && !r.MatchString(name)`
unfoldable pub misses : Option (Text → Bool) → Text → Bool
misses none name = false
misses (some matches) name = not (matches name)

module _ {Requirement B Tag Node : Type 0} where
  unfoldable pub filter_operations :
      Filters → List (Operation Requirement B Tag Node) → List (Operation Requirement B Tag Node)
  unfolding misses contains
  filter_operations filters [] = []
  filter_operations filters (op ∷ ops) =
      let rest = filter_operations filters ops in
      if misses filters.operations_regex op.name_of
      then rest
      else if not (is_empty filters.actions)
          && not (contains filters.actions (action_text op.action))
      then rest
      else op ∷ rest

  -- The reply of a receive operation, as a send operation.
  unfoldable pub reply_operation :
      Operation Requirement B Tag Node → Reply Node → Operation Requirement B Tag Node
  reply_operation op reply = record {
    name_of = op.name_of ++ text "Reply";
    action = send;
    channel = reply.channel;
    messages_of = reply.messages_of;
    merged = record {
      title_of = reply.title_of;
      summary_of = reply.summary_of;
      description_of = reply.description_of;
      security_of = [];
      bindings_of = [];
    };
    redis = none;
    reply = none;
    tags_of = [];
    extensions = reply.extensions;
  }

  unfoldable pub with_reply :
      Operation Requirement B Tag Node
      → Action
      → Option (Reply Node)
      → List (Operation Requirement B Tag Node)
      → List (Operation Requirement B Tag Node)
  unfolding reply_operation
  with_reply op receive (some reply) rest = reply_operation op reply ∷ rest
  with_reply op receive none rest = rest
  with_reply op send reply rest = rest

  unfoldable pub synthetic_operations :
      List (Operation Requirement B Tag Node) → List (Operation Requirement B Tag Node)
  unfolding with_reply
  synthetic_operations [] = []
  synthetic_operations (op ∷ ops) = with_reply op op.action op.reply (synthetic_operations ops)

module _ {MessageBinding Correlation Requirement B Tag Node RawSchema Schema : Type 0}
    (model : Model MessageBinding Correlation Requirement B Tag Node RawSchema Schema)
    (engine : Engine Schema) where
  abbrev pub Building : Type 0
  Building = State model engine

  -- The empty maps that NewGenerator makes, with a new engine.
  unfoldable pub new_state : engine.State → Building
  new_state s = record {
    engine_state = s;
    names = record { ref_names = []; used = [] };
    channels = [];
    seen_channels = [];
    messages = [];
    built_msgs = [];
    sum_types = [];
  }

  -- The body of both loops over operations, with `opNames`.
  unfoldable pub build_each :
      List (Operation Requirement B Tag Node)
      → List Text
      → Building
      → Generated (List (Ir.Operation engine.GoType) × List Text × Building)
  unfolding build_operation lists
  build_each [] op_names st = ok ([], op_names, st)
  build_each (op ∷ ops) op_names st = do
    built ← build_operation model engine op st
    reject (lists (built.0).name op_names) (name_conflict (built.0).name)
    rest ← build_each ops ((built.0).name ∷ op_names) (built.1)
    ok (built.0 ∷ rest.0, rest.1, rest.2)

  unfoldable pub build_operations :
      List (Operation Requirement B Tag Node)
      → Building
      → Generated (List (Ir.Operation engine.GoType) × Building)
  unfolding build_each synthetic_operations
  build_operations ops st = do
    first ← build_each ops [] st
    second ← build_each (synthetic_operations ops) (first.1) (first.2)
    ok (first.0 ++ second.0, second.2)

  -- The wiring; without a backend the fields keep their zero values.
  unfoldable pub build_wiring : Bool → List (Operation Requirement B Tag Node) → Generated Wiring
  unfolding redis_binding_defaults
  build_wiring false ops = ok (record { mode = []; group = []; max_len = pos 0 })
  build_wiring true ops = redis_binding_defaults model.channel_at ops

  -- What `build` leaves in the generator.
  pub record Generator : Type 0 where
    pub servers : List Backend.Server
    pub operations : List (Ir.Operation engine.GoType)
    pub state : Building
    pub wiring : Wiring

  module _ {Requirements Bindings Tags : Type 0} where
    unfoldable pub build :
        List Text
        → Filters
        → Map (Server.Server Requirements Bindings Tags)
        → List (Operation Requirement B Tag Node)
        → Building
        → Generated Generator
    unfolding build_servers sorted_server_keys filter_operations build_operations broker_backend
        build_wiring synthetic_operations
    build ignored filters api_servers api_operations st = do
      servers' ← build_servers model.rules ignored api_servers (sorted_server_keys api_servers)
      let ops = filter_operations filters api_operations
      built ← build_operations ops st
      wiring' ← build_wiring ((broker_backend servers').0) (ops ++ synthetic_operations ops)
      ok (record { servers = servers'; operations = built.0; state = built.1; wiring = wiring' })

    unfoldable pub new_generator :
        Option FeatureSet
        → List Text
        → Filters
        → Map (Server.Server Requirements Bindings Tags)
        → List (Operation Requirement B Tag Node)
        → engine.State
        → Generated (FeatureSet × Generator)
    unfolding features_of build new_state
    new_generator features ignored filters api_servers api_operations s = do
      features' ← features_of features
      g ← build ignored filters api_servers api_operations (new_state s)
      ok (features', g)
