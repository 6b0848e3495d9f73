-- ===== src/AsyncApi/Operation/Tests.antt =====
-- Runs of the parser of channels and operations, and the theorems about it at them.
use agen.Prelude.{ℕ, zero, suc, ◌≡◌, refl, true, false, [], ◌∷◌, Option, none, some, get_elem?}
use agen.Prelude.Result.{ok}
use agen.Prelude.Int.{pos}
use agen.Prelude.Text.{Text, Map, text, lookup, insert}
use agen.AsyncApi.{Pointers}
use agen.AsyncApi.Traits
use agen.AsyncApi.Traits.{OperationTrait, merge_bindings}
use agen.AsyncApi.Address.{validate_address_params, address_tokens}
use agen.AsyncApi.RedisBinding.{
  Yaml, Kind, mapping, scalar, Binding, receive, parse_redis_channel_binding,
  parse_redis_operation_binding,
}
use agen.AsyncApi.Message.{RawMessage, MessageRef, Message, Reader}
use agen.AsyncApi.Message.Pointer.{Store, sorted_entries, update}
use agen.AsyncApi.Message.Pointer.Heap.{IsWellFormed, AllBelow, AllJson}
use agen.AsyncApi.Channel.{
  RawParameter, ParameterRef, Parameter, RawChannel, ChannelRef, ChannelTrait, parse_parameter,
}
use agen.AsyncApi.Channel.Renamed.{parse_parameter-shared}
use agen.AsyncApi.Channel.Traits.{Document}
use agen.AsyncApi.Channel.Built.{IsParser, AllLinked}
use agen.AsyncApi.Channel.Decoded.{AreDecoded}
use agen.AsyncApi.Channel.WellFormed.{Grown, parse_channel_ref-Grown}
use agen.AsyncApi.Channel.Parsing.{
  Parser, ParsedChannel, parse_channel, parse_channel_pointer, parse_channel_ref,
}
use agen.AsyncApi.Channel.Parsing.Sharing.{parse_channel_pointer-again}
use agen.AsyncApi.Channel.Parsing.Declared.{IsChannel, parse_channel-IsChannel}
use agen.AsyncApi.Server
use agen.Gen.Names.{GoNames}
use agen.Gen.Parts.{Engine}
use agen.Gen.Generator.{Filters}
use agen.AsyncApi.Operation.{RawOperation, Operation, parse_operations}
use agen.AsyncApi.Operation.WellFormed.{AreOperations, parse_operations-AreOperations}

abbrev take_key : ℕ → Text → Option ℕ
take_key zero k = none
take_key (suc c) k = some c

-- The document: nodes by their addresses.
abbrev nodes : Map ℕ
nodes =
    (text "#/channels/lights", 0)
    ∷ (text "#/components/parameters/id", 1)
    ∷ (text "#/components/messages/light", 2)
    ∷ []

abbrev document_pointers : Pointers
document_pointers = record {
  Ctx = ℕ;
  Key = Text;
  Node = ℕ;
  key = λ _ ref. some ref;
  add_key = take_key;
  ptr = λ k. k;
  resolve = λ k. lookup k nodes;
}

abbrev light : RawMessage ℕ ℕ ℕ ℕ ℕ
light = record {
  schema_format = [];
  name_of = [];
  title_of = [];
  summary_of = [];
  description_of = [];
  content_type_of = [];
  bindings_of = [];
  tags_of = [];
  payload_of = some 3;
  headers_of = none;
  correlation_id = none;
  traits_of = [];
}

abbrev message_at : ℕ → Option (MessageRef ℕ ℕ ℕ ℕ ℕ)
message_at (suc (suc zero)) = some (record { ref = []; message = light })
message_at _ = none

abbrev reader : Reader ℕ ℕ ℕ ℕ ℕ
reader = record {
  pointers = document_pointers;
  decode_trait = λ _. none;
  decode_message = message_at;
  parse_schema = λ _ raw. some raw;
  spec_default_content_type = [];
}

-- Node 0 is `{type: stream}`, and node 1 `{consumerGroup: workers}`.
abbrev kind_of : ℕ → Kind
kind_of zero = mapping
kind_of (suc zero) = mapping
kind_of _ = scalar

abbrev string_at : ℕ → Option Text
string_at (suc (suc zero)) = some (text "stream")
string_at (suc (suc (suc zero))) = some (text "workers")
string_at _ = none

abbrev map_at : ℕ → Option (Map ℕ)
map_at zero = some ((text "type", 2) ∷ [])
map_at (suc zero) = some ((text "consumerGroup", 3) ∷ [])
map_at _ = none

abbrev values : Yaml
values = record {
  Node = ℕ;
  is_zero = λ _. false;
  kind = kind_of;
  tag = λ _. text "!!str";
  decode_string = string_at;
  decode_int = λ _. none;
  decode_map = map_at;
}

abbrev id_parameter : RawParameter
id_parameter = record {
  enum_of = [];
  default_of = [];
  description_of = text "the id";
  location_of = [];
}

abbrev by_reference : ParameterRef
by_reference = record {
  ref = text "#/components/parameters/id";
  parameter = record { enum_of = []; default_of = []; description_of = []; location_of = [] };
}

abbrev slot : MessageRef ℕ ℕ ℕ ℕ ℕ
slot = record { ref = text "#/components/messages/light"; message = light }

-- A trait with a server and a parameter, which the channel loses.
abbrev trait : ChannelTrait (Binding values) ℕ ℕ (MessageRef ℕ ℕ ℕ ℕ ℕ)
trait = record {
  ref = [];
  title_of = text "Lights";
  summary_of = [];
  description_of = [];
  servers_of = some (text "#/servers/production") ∷ [];
  parameters_of = (text "lost", some by_reference) ∷ [];
  bindings_of = [];
}

abbrev lights : RawChannel (Binding values) ℕ ℕ (MessageRef ℕ ℕ ℕ ℕ ℕ)
lights = record {
  address = text "lights.{light}";
  servers_of = some (text "#/servers/nowhere") ∷ [];
  messages_of = (text "light", some slot) ∷ [];
  parameters_of = (text "light", some by_reference) ∷ (text "none", none) ∷ [];
  title_of = [];
  summary_of = [];
  description_of = [];
  bindings_of = [];
  tags_of = [];
  traits_of = some trait ∷ [];
  extensions = (text "x-redis", 0) ∷ [];
}

abbrev channel_at : ℕ → Option (RawChannel (Binding values) ℕ ℕ (MessageRef ℕ ℕ ℕ ℕ ℕ))
channel_at zero = some lights
channel_at _ = none

abbrev parameter_at : ℕ → Option RawParameter
parameter_at (suc zero) = some id_parameter
parameter_at _ = none

abbrev document : Document document_pointers (Binding values) ℕ ℕ (MessageRef ℕ ℕ ℕ ℕ ℕ)
document = record {
  decode_parameter = parameter_at;
  decode_channel = channel_at;
  decode_channel_trait = λ _. none;
  empty_key = [];
  delete = λ c _. suc c;
}

abbrev fresh : Parser reader values document
fresh = record {
  ctx = 5;
  parameters = record { heap = []; cached = [] };
  channels = record { heap = []; cached = [] };
  messages = record { heap = []; cached = [] };
}

fresh-IsParser : IsParser reader values document fresh
unfolding IsWellFormed AllBelow AllJson AllLinked
fresh-IsParser = record {
  messages_ok = (tt, tt);
  parameters_ok = tt;
  channels_ok = tt;
  linked = tt;
}

fresh-AreDecoded : AreDecoded reader values document fresh
unfolding lookup
fresh-AreDecoded p i h = cc

abbrev parsed_light : Message ℕ ℕ ℕ ℕ ℕ
parsed_light = record {
  spec_name = text "light";
  name_of = text "light";
  title_of = [];
  summary_of = [];
  description_of = [];
  content_type_of = text "application/json";
  bindings_of = [];
  tags_of = [];
  payload_of = some 3;
  headers_of = none;
  correlation_id = none;
}

abbrev parsed_channel : Text → ParsedChannel reader values document
parsed_channel name = record {
  name_of = name;
  address = text "lights.{light}";
  title_of = text "Lights";
  summary_of = [];
  description_of = [];
  messages_of = 0 ∷ [];
  parameters_of = (text "light", 0) ∷ [];
  servers_of = text "production" ∷ [];
  bindings_of = [];
  redis = some (record { type_of = text "stream"; max_len = pos 0; binding_version = [] });
  tags_of = [];
  extensions = (text "x-redis", 0) ∷ [];
}

abbrev named : Text → Parameter
named name = record {
  name_of = name;
  enum_of = [];
  default_of = [];
  description_of = text "the id";
  location_of = [];
}

-- The key of the trait's server stays in the context.
abbrev loaded : Parser reader values document
loaded = record {
  ctx = 4;
  parameters = record {
    heap = named (text "light") ∷ [];
    cached = (text "#/components/parameters/id", 0) ∷ [];
  };
  channels = record {
    heap = parsed_channel (text "lights") ∷ [];
    cached = (text "#/channels/lights", 0) ∷ [];
  };
  messages = record {
    heap = parsed_light ∷ [];
    cached = (text "#/components/messages/light", 0) ∷ [];
  };
}

follows_lights :
    parse_channel_pointer reader values document 3 (text "#/channels/lights") fresh ≡ ok (0, loaded)
unfolding parse_channel_pointer lookup insert merge_bindings update parse_redis_channel_binding
    validate_address_params address_tokens sorted_entries
follows_lights = refl

-- The same channel again, in the state that the first parse leaves.
parse_channel_pointer-again_example :
    parse_channel_pointer reader values document 7 (text "#/channels/lights") loaded
    ≡ ok (0, loaded)
parse_channel_pointer-again_example =
    parse_channel_pointer-again reader values document 3 7 (text "#/channels/lights") fresh loaded 0
      refl follows_lights

-- The channel, written inline in an operation.
abbrev inline_state : Parser reader values document
inline_state = record {
  ctx = 4;
  parameters = loaded.parameters;
  channels = record { heap = parsed_channel (text "onLight") ∷ []; cached = [] };
  messages = loaded.messages;
}

abbrev inline_ref : ChannelRef (Binding values) ℕ ℕ (MessageRef ℕ ℕ ℕ ℕ ℕ)
inline_ref = record { ref = []; channel = lights }

parses_inline :
    parse_channel_ref reader values document 3 (text "onLight") inline_ref fresh
    ≡ ok (0, inline_state)
unfolding parse_channel_ref lookup insert merge_bindings update parse_redis_channel_binding
    validate_address_params address_tokens sorted_entries
parses_inline = refl

parse_channel_ref-Grown_example : Grown reader values document 0 fresh inline_state
parse_channel_ref-Grown_example =
    parse_channel_ref-Grown reader values document 3 (text "onLight") inline_ref fresh inline_state
      0 fresh-IsParser parses_inline

parses_channel :
    parse_channel reader values document 3 (text "onLight") lights fresh
    ≡ ok (
      parsed_channel (text "onLight"),
      record inline_state { channels = record { heap = []; cached = [] } },
    )
unfolding parse_channel lookup insert merge_bindings update parse_redis_channel_binding
    validate_address_params address_tokens sorted_entries
parses_channel = refl

parse_channel-IsChannel_example :
    IsChannel reader values document (text "onLight") lights (parsed_channel (text "onLight"))
parse_channel-IsChannel_example =
    parse_channel-IsChannel reader values document 3 (text "onLight") lights fresh
      (parsed_channel (text "onLight"))
      (record inline_state { channels = record { heap = []; cached = [] } }) parses_channel

abbrev no_parameters : Store Parameter
no_parameters = record { heap = []; cached = [] }

abbrev one_parameter : Store Parameter
one_parameter = record {
  heap = named (text "a") ∷ [];
  cached = (text "#/components/parameters/id", 0) ∷ [];
}

parses_parameter :
    parse_parameter document_pointers parameter_at 5 (text "a") by_reference no_parameters
    ≡ ok (0, one_parameter)
unfolding parse_parameter lookup insert update
parses_parameter = refl

no_parameters-below : AllBelow 0 []
unfolding AllBelow
no_parameters-below = tt

parse_parameter-shared_example :
    (s' : Store Parameter) × (parse_parameter document_pointers parameter_at 5
        (text "b")
        by_reference
        one_parameter
      ≡ ok (0, s'))
    × ((q : Parameter) × (get_elem? s'.heap 0 ≡ some q) × (q.name_of ≡ text "b"))
parse_parameter-shared_example =
    parse_parameter-shared document_pointers parameter_at 5 (text "a") (text "b") by_reference
      no_parameters one_parameter 0 refl no_parameters-below parses_parameter

abbrev to_lights : ChannelRef (Binding values) ℕ ℕ (MessageRef ℕ ℕ ℕ ℕ ℕ)
to_lights = record { ref = text "#/channels/lights"; channel = lights }

abbrev bare : Traits.Operation ℕ (Binding values)
bare = record {
  title_of = [];
  summary_of = [];
  description_of = [];
  security_of = [];
  bindings_of = [];
}

abbrev Channels : Type 0
Channels = ChannelRef (Binding values) ℕ ℕ (MessageRef ℕ ℕ ℕ ℕ ℕ)

abbrev on_light : RawOperation ℕ Channels (MessageRef ℕ ℕ ℕ ℕ ℕ) ℕ (Binding values) ℕ
on_light = record {
  ref = [];
  action = text "receive";
  channel = some to_lights;
  messages_of = [];
  merged = bare;
  traits_of = none ∷ [];
  tags_of = [];
  reply = some (record {
    channel = some to_lights;
    messages_of = some slot ∷ [];
    title_of = [];
    summary_of = [];
    description_of = [];
    extensions = [];
  });
  extensions = (text "x-redis", 1) ∷ [];
}

abbrev operation_at :
    ℕ → Option (RawOperation ℕ Channels (MessageRef ℕ ℕ ℕ ℕ ℕ) ℕ (Binding values) ℕ)
operation_at _ = none

abbrev operation_trait_at : ℕ → Option (OperationTrait ℕ (Binding values))
operation_trait_at _ = none

abbrev operations :
    Map (Option (RawOperation ℕ Channels (MessageRef ℕ ℕ ℕ ℕ ℕ) ℕ (Binding values) ℕ))
operations = (text "z", none) ∷ (text "onLight", some on_light) ∷ []

abbrev parsed_operation : Operation ℕ (Binding values) ℕ ℕ
parsed_operation = record {
  name_of = text "onLight";
  action = receive;
  channel = 0;
  messages_of = 0 ∷ [];
  merged = bare;
  redis = some (record { consumer_group = text "workers"; binding_version = [] });
  reply = some (record {
    channel = 0;
    messages_of = 0 ∷ [];
    title_of = [];
    summary_of = [];
    description_of = [];
    extensions = [];
  });
  tags_of = [];
  extensions = (text "x-redis", 1) ∷ [];
}

parses_operations :
    parse_operations reader values document operation_at operation_trait_at 3 operations fresh
    ≡ ok (parsed_operation ∷ [], loaded)
unfolding parse_operations lookup insert merge_bindings update parse_redis_channel_binding
    parse_redis_operation_binding validate_address_params address_tokens sorted_entries
parses_operations = refl

parse_operations-AreOperations_example :
    AreOperations reader values document operation_at operation_trait_at loaded
      (sorted_entries operations)
      (parsed_operation ∷ [])
    × IsParser reader values document loaded
    × AreDecoded reader values document loaded
parse_operations-AreOperations_example =
    parse_operations-AreOperations reader values document operation_at operation_trait_at 3
      operations fresh loaded (parsed_operation ∷ []) fresh-IsParser fresh-AreDecoded
      parses_operations

-- A type is the number of those before it, and names are kept as they are.
abbrev counter : Engine ℕ
counter = record {
  State = ℕ;
  GoType = ℕ;
  generate = λ s names name schema. some (s, suc s, names);
  add_feature = λ s t feature. s;
  envelope = λ s name doc payload headers. (s, suc s);
  interface = λ s name marker. (s, suc s);
  implement = λ s t iface. s;
  save_type = λ s t. some s;
}

abbrev rules : GoNames
rules = record {
  initialisms = false;
  pascal_special = λ name. some name;
  pascal_special_initialisms = λ name. some name;
  is_exported = λ _. true;
}

abbrev no_servers : Map (Server.Server ℕ ℕ ℕ)
no_servers = []

abbrev no_filters : Filters
no_filters = record { operations_regex = none; actions = [] }
