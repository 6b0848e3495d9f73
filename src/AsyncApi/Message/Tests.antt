-- ===== src/AsyncApi/Message/Tests.antt =====
-- Runs of the message parser, and the theorems about it at them.
use agen.Prelude.{ℕ, zero, suc, ◌<◌, ◌≡◌, ◌≢◌, refl, [], ◌∷◌, Option, none, some, arith}
use agen.Prelude.Result.{ok, err}
use agen.Prelude.Text.{Text, Map, text, lookup}
use agen.AsyncApi.{Pointers, out_of_fuel}
use agen.AsyncApi.Traits.{merge_bindings}
use agen.AsyncApi.Message.{MessageTrait, RawMessage, MessageRef, Message, Reader, parse_message}
use agen.AsyncApi.Message.Content.{IsMessage, parse_message-IsMessage}
use agen.AsyncApi.Message.Pointer.{Store, parse_message_pointer}
use agen.AsyncApi.Message.Pointer.{parse_messages_list, parse_messages_map}
use agen.AsyncApi.Message.Pointer.Heap.{AllBelow, AllJson, IsWellFormed, GrownAll}
use agen.AsyncApi.Message.Pointer.WellFormed.{parse_messages_map-IsWellFormed}
use agen.AsyncApi.Message.Pointer.Sharing.{parse_message_pointer-again}
use agen.AsyncApi.Message.Pointer.Fuel.{parse_message_pointer_ends}

abbrev trait : MessageTrait ℕ ℕ ℕ ℕ ℕ
trait = record {
  ref = [];
  name_of = [];
  title_of = text "Traced";
  summary_of = [];
  description_of = [];
  content_type_of = text "application/vnd.x+json";
  bindings_of = [];
  headers_of = some 5;
  correlation_id = none;
}

abbrev light : RawMessage ℕ ℕ ℕ ℕ ℕ
light = record {
  schema_format = [];
  name_of = [];
  title_of = [];
  summary_of = text "A light was measured";
  description_of = [];
  content_type_of = [];
  bindings_of = [];
  tags_of = [];
  payload_of = some 3;
  headers_of = none;
  correlation_id = none;
  traits_of = some trait ∷ [];
}

abbrev slot : MessageRef ℕ ℕ ℕ ℕ ℕ
slot = record { ref = text "/components/light"; message = light }

abbrev component : MessageRef ℕ ℕ ℕ ℕ ℕ
component = record { ref = []; message = light }

abbrev document : Map (MessageRef ℕ ℕ ℕ ℕ ℕ)
document =
    (text "/channels/a/light", slot)
    ∷ (text "/loop", record { ref = text "/loop"; message = light })
    ∷ (text "/components/light", component)
    ∷ []

-- A context is the number of keys that it still takes.
abbrev take_key : ℕ → Text → Option ℕ
take_key zero k = none
take_key (suc c) k = some c

abbrev document_pointers : Pointers
document_pointers = record {
  Ctx = ℕ;
  Key = Text;
  Node = MessageRef ℕ ℕ ℕ ℕ ℕ;
  key = λ _ ref. some ref;
  add_key = take_key;
  ptr = λ k. k;
  resolve = λ k. lookup k document;
}

abbrev reader : Reader ℕ ℕ ℕ ℕ ℕ
reader = record {
  pointers = document_pointers;
  decode_trait = λ _. none;
  decode_message = λ node. some node;
  parse_schema = λ _ raw. some raw;
  spec_default_content_type = [];
}

abbrev parsed : Message ℕ ℕ ℕ ℕ ℕ
parsed = record {
  spec_name = text "light";
  name_of = text "light";
  title_of = text "Traced";
  summary_of = text "A light was measured";
  description_of = [];
  content_type_of = text "application/vnd.x+json";
  bindings_of = [];
  tags_of = [];
  payload_of = some 3;
  headers_of = none;
  correlation_id = none;
}

-- The headers of the trait are dropped.
parses_light : parse_message reader 3 (text "light") light ≡ ok parsed
unfolding parse_message merge_bindings
parses_light = refl

parse_message-IsMessage_example : IsMessage reader 3 (text "light") light parsed
parse_message-IsMessage_example =
    parse_message-IsMessage reader 3 (text "light") light parsed parses_light

abbrev fresh : Store (Message ℕ ℕ ℕ ℕ ℕ)
fresh = record { heap = []; cached = [] }

abbrev loaded : Store (Message ℕ ℕ ℕ ℕ ℕ)
loaded = record { heap = parsed ∷ []; cached = (text "/components/light", 0) ∷ [] }

follows_slot : parse_message_pointer reader 4 3 (text "/channels/a/light") fresh ≡ ok (0, loaded)
unfolding parse_message_pointer lookup merge_bindings
follows_slot = refl

parse_message_pointer-again_example :
    parse_message_pointer reader 4 3 (text "/channels/a/light") loaded ≡ ok (0, loaded)
parse_message_pointer-again_example =
    parse_message_pointer-again reader 4 3 (text "/channels/a/light") fresh loaded 0 follows_slot

room_shrinks : (c : ℕ) (k : Text) (c' : ℕ) → take_key c k ≡ some c' → c' < c
room_shrinks zero k c' e = cc
room_shrinks (suc c) k c' e = ground arith

enough : 3 < 4
enough = omega arith

parse_message_pointer_ends_example :
    parse_message_pointer reader 4 3 (text "/loop") fresh ≢ err out_of_fuel
parse_message_pointer_ends_example =
    parse_message_pointer_ends reader (λ c. c) room_shrinks 4 3 (text "/loop") fresh enough

fresh-IsWellFormed : IsWellFormed fresh
unfolding IsWellFormed AllBelow AllJson
fresh-IsWellFormed = (tt, tt)

lists_slot :
    parse_messages_list reader 4 3 (some slot ∷ none ∷ some slot ∷ []) fresh
    ≡ ok (0 ∷ 0 ∷ [], loaded)
unfolding parse_messages_list lookup merge_bindings
lists_slot = refl

-- An inline message has no name of its own.
abbrev named_parsed : Message ℕ ℕ ℕ ℕ ℕ
named_parsed = record {
  spec_name = text "b";
  name_of = text "b";
  title_of = text "Traced";
  summary_of = text "A light was measured";
  description_of = [];
  content_type_of = text "application/vnd.x+json";
  bindings_of = [];
  tags_of = [];
  payload_of = some 3;
  headers_of = none;
  correlation_id = none;
}

abbrev both : Map (Option (MessageRef ℕ ℕ ℕ ℕ ℕ))
both = (text "b", some component) ∷ (text "a", some slot) ∷ []

abbrev named : Store (Message ℕ ℕ ℕ ℕ ℕ)
named = record { heap = parsed ∷ named_parsed ∷ []; cached = (text "/components/light", 0) ∷ [] }

maps_both : parse_messages_map reader 4 3 both fresh ≡ ok (0 ∷ 1 ∷ [], named)
unfolding parse_messages_map lookup merge_bindings
maps_both = refl

parse_messages_map-IsWellFormed_example : GrownAll (0 ∷ 1 ∷ []) fresh named
parse_messages_map-IsWellFormed_example =
    parse_messages_map-IsWellFormed reader 4 3 both fresh named (0 ∷ 1 ∷ []) fresh-IsWellFormed
      maps_both
