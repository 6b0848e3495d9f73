-- ===== src/Gen/Generator/Tests.antt =====
-- A run of `build`, and the theorems about it at this run.
use agen.Prelude.{
  ℕ, suc, ◌<◌, ◌≡◌, ◌↔◌, refl, arith, ap, true, false, List, [], ◌∷◌, ◌++◌, none, some, get_elem?,
}
use agen.Prelude.Int.{pos}
use agen.Prelude.Result.{ok, ◌>>=◌}
use agen.Prelude.Text.{Text, Map, text, lookup, insert}
use agen.AsyncApi.RedisBinding.{receive, send}
use agen.AsyncApi.Address.{address_tokens}
use agen.AsyncApi.Server
use agen.AsyncApi.Message.{Message}
use agen.AsyncApi.Channel.{Parameter}
use agen.AsyncApi.Channel
use agen.AsyncApi.Operation.{Operation}
use agen.Gen.Features.{FeatureSet}
use agen.Gen.Ir
use agen.Gen.Backend
use agen.Gen.Backend.{broker_backend}
use agen.Gen.Names.{GoNames, lower_first}
use agen.Gen.Parts.{Model, Engine, State}
use agen.Gen.Sorting.Order.{count}
use agen.Gen.Building.Steps.{IsSound}
use agen.Gen.Building.Quiet.{Allocates}
use agen.Gen.Building.Shared.{NamesAre}
use agen.Gen.RedisDefaults.Agreement.{AllTyped, AllFit}
use agen.Gen.Generator.{
  Filters, Generator, build, new_state, new_generator, filter_operations, synthetic_operations,
}
use agen.Gen.Generator.Operations.{AllMatch, AllDiffer, names_of}
use agen.Gen.Generator.Linked.{AllLinked}
use agen.Gen.Generator.Shared.{new_generator-sum_type_iff}
use agen.Gen.Generator.Built.{effective, build-AllMatch, new_generator-AllLinked, build-AllFit}

abbrev lights : Channel.Channel ℕ ℕ ℕ
lights = record {
  name_of = text "Lights";
  address = text "lights/{id}";
  title_of = [];
  summary_of = [];
  description_of = [];
  messages_of = 0 ∷ 1 ∷ [];
  parameters_of = (text "id", 0) ∷ [];
  servers_of = [];
  bindings_of = [];
  redis = some (record { type_of = text "stream"; max_len = pos 0; binding_version = [] });
  tags_of = [];
  extensions = [];
}

abbrev id : Parameter
id = record {
  name_of = text "Id";
  enum_of = [];
  default_of = [];
  description_of = [];
  location_of = [];
}

abbrev turned_on : Message ℕ ℕ ℕ ℕ ℕ
turned_on = record {
  spec_name = text "On";
  name_of = text "On";
  title_of = [];
  summary_of = [];
  description_of = [];
  content_type_of = text "application/json";
  bindings_of = [];
  tags_of = [];
  payload_of = some 7;
  headers_of = none;
  correlation_id = none;
}

abbrev turned_off : Message ℕ ℕ ℕ ℕ ℕ
turned_off = record turned_on { spec_name = text "Off"; name_of = text "Off"; payload_of = none }

-- Names are kept as they are.
abbrev rules : GoNames
rules = record {
  initialisms = false;
  pascal_special = λ name. some name;
  pascal_special_initialisms = λ name. some name;
  is_exported = λ _. true;
}

abbrev model : Model ℕ ℕ ℕ ℕ ℕ ℕ ℕ ℕ
model = record {
  channel_at = get_elem? (lights ∷ []);
  parameter_at = get_elem? (id ∷ []);
  message_at = get_elem? (turned_on ∷ turned_off ∷ []);
  message_extensions = λ _. [];
  scalar = λ _. none;
  rules = rules;
  capitalize = λ name. name;
}

-- A type is the number of those before it.
abbrev counter : Engine ℕ
counter = record {
  State = ℕ;
  GoType = ℕ;
  generate = λ s names name schema. some (s, suc s, names);
  add_feature = λ s t feature. s;
  envelope = λ s name doc payload headers. (s, suc s);
  interface = λ s name marker. (s, suc s);
  implement = λ s t iface. s;
  save_type = λ s t. some s;
}

abbrev fresh : State model counter
fresh = new_state model counter 0

abbrev production : Server.Server ℕ ℕ ℕ
production = record {
  name_of = text "production";
  host = text "localhost";
  protocol = text "redis";
  protocol_version = [];
  pathname = [];
  title_of = [];
  summary_of = [];
  description_of = [];
  security_of = [];
  bindings_of = 0;
  tags_of = 0;
}

abbrev servers : Map (Server.Server ℕ ℕ ℕ)
servers = (text "production", production) ∷ []

abbrev on_light : Operation ℕ ℕ ℕ ℕ
on_light = record {
  name_of = text "OnLight";
  action = receive;
  channel = 0;
  messages_of = 0 ∷ 1 ∷ [];
  merged = record {
    title_of = [];
    summary_of = text "Lights";
    description_of = [];
    security_of = [];
    bindings_of = [];
  };
  redis = some (record { consumer_group = text "workers"; binding_version = [] });
  reply = some (record {
    channel = 0;
    messages_of = 1 ∷ [];
    title_of = [];
    summary_of = [];
    description_of = [];
    extensions = [];
  });
  tags_of = [];
  extensions = [];
}

abbrev turn_on : Operation ℕ ℕ ℕ ℕ
turn_on = record on_light { name_of = text "TurnOn"; action = send; redis = none; reply = none }

abbrev only_receive : Filters
only_receive = record { operations_regex = none; actions = text "receive" ∷ [] }

abbrev lights_built : Ir.Channel
lights_built = record {
  name = text "Lights";
  go_name = text "Lights";
  address = text "lights/{id}";
  description = [];
  params =
      (record { name = text "Id"; go_name = text "Id"; enum = []; default = []; description = [] })
      ∷ [];
}

abbrev on_built : Ir.Message ℕ
on_built = record {
  name = text "On";
  spec_name = text "On";
  title = [];
  description = [];
  type_of = 1;
  headers = none;
  payload = some 0;
  content_type = text "application/json";
  sum_marker = text "lightsMessage";
}

abbrev off_built : Ir.Message ℕ
off_built = record on_built {
  name = text "Off";
  spec_name = text "Off";
  type_of = 2;
  payload = none;
}

abbrev after : State model counter
after = record {
  engine_state = 4;
  names = record {
    ref_names = [];
    used =
        text "OnLightReply"
        ∷ text "OffHeaders"
        ∷ text "OffPayload"
        ∷ text "Off"
        ∷ text "OnHeaders"
        ∷ text "OnPayload"
        ∷ text "On"
        ∷ text "Lights"
        ∷ text "OnLight"
        ∷ [];
  };
  channels = lights_built ∷ [];
  seen_channels = (0, 0) ∷ [];
  messages = on_built ∷ off_built ∷ [];
  built_msgs = (1, 1) ∷ (0, 0) ∷ [];
  sum_types = (text "Off" ++ 0 ∷ text "On", 3) ∷ [];
}

abbrev on_light_built : Ir.Operation ℕ
on_light_built = record {
  name = text "OnLight";
  operation_id = text "OnLight";
  action = text "receive";
  description = [];
  deprecated = false;
  channel = 0;
  messages = 0 ∷ 1 ∷ [];
  sum_type = some 3;
  go_doc = text "Lights" ∷ [];
}

abbrev reply_built : Ir.Operation ℕ
reply_built = record {
  name = text "OnLightReply";
  operation_id = text "OnLightReply";
  action = text "send";
  description = [];
  deprecated = false;
  channel = 0;
  messages = 1 ∷ [];
  sum_type = none;
  go_doc = [];
}

abbrev production_built : Backend.Server
production_built = record {
  name = text "production";
  go_name = text "production";
  host = text "localhost";
  protocol = text "redis";
  protocol_version = [];
  description = [];
}

abbrev generated : Generator model counter
generated = record {
  servers = production_built ∷ [];
  operations = on_light_built ∷ reply_built ∷ [];
  state = after;
  wiring = record { mode = text "stream"; group = text "workers"; max_len = pos 0 };
}

abbrev ops : List (Operation ℕ ℕ ℕ ℕ)
ops = on_light ∷ turn_on ∷ []

builds : build model counter [] only_receive servers ops fresh ≡ ok generated
unfolding build new_state lookup insert address_tokens filter_operations synthetic_operations
    lower_first
builds = refl

build-AllMatch_example :
    AllMatch (effective only_receive ops) generated.operations
    × AllDiffer (names_of generated.operations)
build-AllMatch_example =
    build-AllMatch model counter [] only_receive servers ops fresh generated builds

abbrev features : FeatureSet
features = (text "fakes", tt) ∷ []

makes :
    new_generator model counter (some features) [] only_receive servers ops 0
    ≡ ok (features, generated)
unfolding new_generator
makes = ap (λ g. g >>= λ x. ok (features, x)) builds

new_generator-AllLinked_example :
    IsSound model counter after
    × AllLinked model counter (effective only_receive ops) generated.operations after
new_generator-AllLinked_example =
    new_generator-AllLinked model counter [] only_receive servers ops 0 (some features)
      (features, generated) makes

effective-AllTyped : AllTyped model.channel_at (effective only_receive ops)
unfolding filter_operations synthetic_operations
effective-AllTyped = (refl, (refl, tt))

is_wired : (broker_backend generated.servers).0 ≡ true
unfolding broker_backend
is_wired = refl

build-AllFit_example : AllFit model.channel_at generated.wiring (effective only_receive ops)
build-AllFit_example =
    build-AllFit model counter [] only_receive servers ops fresh generated effective-AllTyped
      is_wired builds

-- The numbers of the counter are the types made so far.
counts : Allocates counter
counts = record {
  IsMade = λ s t. t < s;
  generate_keeps = λ s s' names names' name schema t u h made.
      let grown : suc s ≡ s' = ground arith in omega (arith, made, grown);
  add_feature_keeps = λ s t u feature made. made;
  envelope_keeps = λ s name doc payload headers u made. omega (arith, made);
  implement_keeps = λ s t iface u made. made;
  save_keeps = λ s s' t u h made. let same : s ≡ s' = ground arith in omega (arith, made, same);
  interface_keeps = λ s name marker u made. omega (arith, made);
  interface_made = λ s name marker. omega arith;
  interface_new = λ s name marker made. omega (arith, made);
}

-- An operation with the same messages in the other order.
abbrev on_other : Operation ℕ ℕ ℕ ℕ
on_other = record on_light { name_of = text "OnOther"; messages_of = 1 ∷ 0 ∷ []; reply = none }

abbrev with_other : State model counter
with_other = record after {
  names = record {
    ref_names = [];
    used =
        text "OnLightReply"
        ∷ text "OnOther"
        ∷ text "OffHeaders"
        ∷ text "OffPayload"
        ∷ text "Off"
        ∷ text "OnHeaders"
        ∷ text "OnPayload"
        ∷ text "On"
        ∷ text "Lights"
        ∷ text "OnLight"
        ∷ [];
  };
}

abbrev on_other_built : Ir.Operation ℕ
on_other_built = record on_light_built {
  name = text "OnOther";
  operation_id = text "OnOther";
  messages = 1 ∷ 0 ∷ [];
}

abbrev generated_other : Generator model counter
generated_other = record generated {
  operations = on_light_built ∷ on_other_built ∷ reply_built ∷ [];
  state = with_other;
}

makes_other :
    new_generator model counter (some features) [] only_receive servers (on_light ∷ on_other ∷ []) 0
    ≡ ok (features, generated_other)
unfolding new_generator build new_state lookup insert address_tokens filter_operations
    synthetic_operations lower_first
makes_other = refl

names_here : NamesAre model (0 ∷ 1 ∷ []) (text "On" ∷ text "Off" ∷ [])
unfolding NamesAre
names_here = ((turned_on, refl, refl), ((turned_off, refl, refl), tt))

names_other : NamesAre model (1 ∷ 0 ∷ []) (text "Off" ∷ text "On" ∷ [])
unfolding NamesAre
names_other = ((turned_off, refl, refl), ((turned_on, refl, refl), tt))

abbrev effective_reply : Operation ℕ ℕ ℕ ℕ
effective_reply = record on_light {
  name_of = text "OnLightReply";
  action = send;
  messages_of = 1 ∷ [];
  merged = record on_light.merged { summary_of = [] };
  redis = none;
  reply = none;
}

other_effective :
    effective only_receive (on_light ∷ on_other ∷ []) ≡ on_light ∷ on_other ∷ effective_reply ∷ []
unfolding filter_operations synthetic_operations
other_effective = refl

new_generator-sum_type_iff_example :
    (on_light_built.sum_type ≡ on_other_built.sum_type)
    ↔ ((c : Text) → count c (text "On" ∷ text "Off" ∷ []) ≡ count c (text "Off" ∷ text "On" ∷ []))
new_generator-sum_type_iff_example =
    new_generator-sum_type_iff model counter counts [] only_receive servers
      (on_light ∷ on_other ∷ []) 0 (some features) (features, generated_other) 0 1 on_light on_other
      on_light_built on_other_built (text "On" ∷ text "Off" ∷ []) (text "Off" ∷ text "On" ∷ [])
      makes_other (ap (λ l. get_elem? l 0) other_effective)
      (ap (λ l. get_elem? l 1) other_effective) refl refl (omega arith) (omega arith) names_here
      names_other (refl, (refl, tt)) (refl, (refl, tt))
