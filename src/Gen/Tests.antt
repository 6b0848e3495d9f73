-- ===== src/Gen/Tests.antt =====
-- Runs of the generator's parts, and the theorems about them at them.
use agen.Prelude.{
  ℕ, ◌≡◌, ◌≢◌, ◌↔◌, refl, true, false, not, ◌&&◌, ◌||◌, List, [], ◌∷◌, Option, none, some,
  get_elem?,
}
use agen.Prelude.Int.{pos}
use agen.Prelude.Result.{ok}
use agen.Prelude.Text.{Text, text, lists}
use agen.AsyncApi.RedisBinding.{RedisChannelBinding, receive, send}
use agen.AsyncApi.Channel.{Channel}
use agen.AsyncApi.Operation.{Operation}
use agen.Gen.Features.{
  Feature, default_features, build_features, is_ok, has_in, all_known, build_features-has,
}
use agen.Gen.Unsupported.{
  GoError, wrapped, not_implemented, as_not_implemented, fail, IsIgnored, fail_iff,
}
use agen.Gen.Backend.{Server, broker_backend, has_backend, AllSpeak, broker_backend_iff}
use agen.Gen.Sorting.{sort_strings}
use agen.Gen.Sorting.Order.{IsSorted, count, sort_strings-IsSorted}
use agen.Gen.RedisDefaults.{Wiring, redis_binding_defaults}
use agen.Gen.Names.{GoNames, Names, Ref, name_schema_ref, reserve_name}
use agen.Gen.Names.Unique.{Reaches, here, reserved, no_names, name_schema_ref_iff}

abbrev fakes : List Feature
fakes = text "fakes" ∷ []

abbrev middleware : List Feature
middleware = text "middleware" ∷ []

build_features-has_example :
    (is_ok (build_features fakes middleware false)
      ≡ (false || (all_known fakes && all_known middleware)))
    × (has_in (build_features fakes middleware false) (text "fakes") ≡ (
        not false
        && ((all_known fakes && all_known middleware)
            && ((lists (text "fakes") fakes || lists (text "fakes") default_features)
                && not (lists (text "fakes") middleware)))))
build_features-has_example = build_features-has fakes middleware false (text "fakes")

abbrev ignored : List Text
ignored = text "schema.complex anyOf" ∷ []

abbrev any_of : GoError
any_of = wrapped (text "payload") (not_implemented (text "complex anyOf"))

fail_iff_example :
    (fail ignored none ≡ none)
    × ((fail ignored (some any_of) ≡ none) ↔ IsIgnored ignored (as_not_implemented any_of))
fail_iff_example = fail_iff ignored any_of

abbrev production : Server
production = record {
  name = text "production";
  go_name = text "Production";
  host = text "localhost";
  protocol = text "redis";
  protocol_version = [];
  description = [];
}

broker_backend_iff_example : (broker_backend (production ∷ []) ≡ (true, text "redis")) ↔ (
    ((production ∷ []) ≢ [])
    × (has_backend (text "redis") ≡ true)
    × AllSpeak (text "redis") (production ∷ []))
broker_backend_iff_example = broker_backend_iff (production ∷ []) (text "redis")

sort_strings-IsSorted_example :
    IsSorted (sort_strings (text "b" ∷ text "a" ∷ []))
    × ((c : Text)
        → count c (sort_strings (text "b" ∷ text "a" ∷ [])) ≡ count c (text "b" ∷ text "a" ∷ []))
sort_strings-IsSorted_example = sort_strings-IsSorted (text "b" ∷ text "a" ∷ [])

sorts_three :
    sort_strings (text "b" ∷ text "ab" ∷ text "a" ∷ []) ≡ text "a" ∷ text "ab" ∷ text "b" ∷ []
unfolding sort_strings
sorts_three = refl

abbrev stream : RedisChannelBinding
stream = record { type_of = text "stream"; max_len = pos 100; binding_version = [] }

abbrev lights : Channel ℕ ℕ ℕ
lights = record {
  name_of = text "lights";
  address = text "lights";
  title_of = [];
  summary_of = [];
  description_of = [];
  messages_of = [];
  parameters_of = [];
  servers_of = [];
  bindings_of = [];
  redis = some stream;
  tags_of = [];
  extensions = [];
}

abbrev on_light : Operation ℕ ℕ ℕ ℕ
on_light = record {
  name_of = text "onLight";
  action = receive;
  channel = 0;
  messages_of = [];
  merged = record {
    title_of = [];
    summary_of = [];
    description_of = [];
    security_of = [];
    bindings_of = [];
  };
  redis = some (record { consumer_group = text "workers"; binding_version = [] });
  reply = none;
  tags_of = [];
  extensions = [];
}

abbrev turn_on : Operation ℕ ℕ ℕ ℕ
turn_on = record on_light { name_of = text "turnOn"; action = send; redis = none }

abbrev wiring : Wiring
wiring = record { mode = text "stream"; group = text "workers"; max_len = pos 100 }

abbrev channel_at : ℕ → Option (Channel ℕ ℕ ℕ)
channel_at i = get_elem? (lights ∷ []) i

derives_wiring : redis_binding_defaults channel_at (on_light ∷ turn_on ∷ []) ≡ ok wiring
unfolding redis_binding_defaults
derives_wiring = refl

-- Names are kept as they are.
abbrev rules : GoNames
rules = record {
  initialisms = false;
  pascal_special = λ name. some name;
  pascal_special_initialisms = λ name. some name;
  is_exported = λ _. true;
}

abbrev first_names : Names
first_names = record {
  ref_names = (text "#/components/schemas/Id", text "Id") ∷ [];
  used = text "Id" ∷ [];
}

abbrev second_names : Names
second_names = record {
  ref_names =
      (text "#/components/schemas/Id", text "Id")
      ∷ (text "#/channels/a/schemas/Id", text "schemas Id")
      ∷ [];
  used = text "schemas Id" ∷ text "Light" ∷ text "Id" ∷ [];
}

abbrev here_id : Ref
here_id = record { loc = []; ptr = text "#/components/schemas/Id" }

abbrev there_id : Ref
there_id = record { loc = text "lights.yml"; ptr = text "#/channels/a/schemas/Id" }

names_component : name_schema_ref rules here_id no_names ≡ ok (text "Id", first_names)
unfolding name_schema_ref
names_component = refl

abbrev with_light : Names
with_light = record {
  ref_names = (text "#/components/schemas/Id", text "Id") ∷ [];
  used = text "Light" ∷ text "Id" ∷ [];
}

reserves_light : Reaches rules first_names with_light
unfolding reserve_name
reserves_light = reserved (text "Light") here

names_channel : name_schema_ref rules there_id with_light ≡ ok (text "schemas Id", second_names)
unfolding name_schema_ref
names_channel = refl

name_schema_ref_iff_example :
    (text "Id" ≡ text "schemas Id")
    ↔ (text "#/components/schemas/Id" ≡ text "#/channels/a/schemas/Id")
name_schema_ref_iff_example =
    name_schema_ref_iff rules here_id there_id (text "Id") (text "schemas Id") no_names first_names
      with_light second_names here names_component reserves_light names_channel refl refl
