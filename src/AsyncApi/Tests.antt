-- ===== src/AsyncApi/Tests.antt =====
-- Runs of the parser's parts, and the theorems at inputs that meet their hypotheses.
use agen.Prelude.{ℕ, ◌≡◌, ◌↔◌, ◌⊎◌, refl, false, List, [], ◌∷◌, ◌++◌, Option, none, some, arith}
use agen.Prelude.Int.{ℤ, pos}
use agen.Prelude.Text.{Text, text, Map, lookup, insert}
use agen.AsyncApi.{Pointers}
use agen.Prelude.Result.{ok}
use agen.AsyncApi.Traits.{OperationTrait, Operation, merge_bindings, merge_operation_traits}
use agen.AsyncApi.Traits.Merged.{Merged, Resolved, merge_operation_traits_iff}
use agen.AsyncApi.Traits.Bindings.{declared, or_else, lookup-merge_bindings}
use agen.AsyncApi.Address.{address_tokens, validate_address_params}
use agen.AsyncApi.Address.Template.{
  Segment, render, parameters, AreSegments, IsTail, plain, Template, AllDeclared,
  address_tokens-render, address_tokens-Template, validate_address_params_iff,
}
use agen.AsyncApi.RedisBinding.{
  Yaml, Kind, scalar, mapping, RedisChannelBinding, RedisOperationBinding, receive,
  parse_redis_channel_binding, validate_redis_operation_binding,
}
use agen.AsyncApi.RedisBinding.Sound.{
  IsChannelBinding, IsStream, parse_redis_channel_binding-IsChannelBinding,
  validate_redis_operation_binding_iff,
}

-- A document in which nothing resolves.
abbrev nowhere : Pointers
nowhere = record {
  Ctx = Unit;
  Key = Text;
  Node = Unit;
  key = λ _ ref. some ref;
  add_key = λ c _. some c;
  ptr = λ _. [];
  resolve = λ _. none;
}

abbrev operation : Operation ℕ ℕ
operation = record {
  title_of = text "Turn on";
  summary_of = [];
  description_of = [];
  security_of = [];
  bindings_of = (text "kafka", some 1) ∷ [];
}

abbrev trait : OperationTrait ℕ ℕ
trait = record {
  ref = [];
  title_of = [];
  summary_of = text "A summary";
  description_of = [];
  security_of = 7 ∷ [];
  bindings_of = (text "redis", some 2) ∷ (text "kafka", none) ∷ [];
}

abbrev merged : Operation ℕ ℕ
merged = record {
  title_of = text "Turn on";
  summary_of = text "A summary";
  description_of = [];
  security_of = 7 ∷ [];
  bindings_of = (text "kafka", some 1) ∷ (text "redis", some 2) ∷ [];
}

no_trait : Unit {0} → Option (OperationTrait ℕ ℕ)
no_trait _ = none

merge-operation :
    merge_operation_traits ℕ ℕ nowhere no_trait tt operation (none ∷ some trait ∷ []) ≡ ok merged
unfolding merge_operation_traits merge_bindings lookup insert
merge-operation = refl

merge_operation_traits_iff_example :
    (merge_operation_traits ℕ ℕ nowhere no_trait tt operation (none ∷ some trait ∷ []) ≡ ok merged)
    ↔ ((rs : List (OperationTrait ℕ ℕ)) × Resolved ℕ ℕ nowhere no_trait tt
          (none ∷ some trait ∷ [])
          rs
        × Merged ℕ ℕ operation rs merged)
merge_operation_traits_iff_example =
    merge_operation_traits_iff ℕ ℕ nowhere no_trait tt (none ∷ some trait ∷ []) operation merged

abbrev old_bindings : Map (Option ℕ)
old_bindings = (text "kafka", some 1) ∷ []

abbrev new_bindings : Map (Option ℕ)
new_bindings = (text "redis", some 2) ∷ []

merged-bindings : merge_bindings old_bindings new_bindings ≡ ok (old_bindings ++ new_bindings)
unfolding merge_bindings lookup insert
merged-bindings = refl

lookup-merge_bindings_example :
    lookup (text "redis") (old_bindings ++ new_bindings)
    ≡ or_else (lookup (text "redis") old_bindings) (declared (text "redis") new_bindings)
lookup-merge_bindings_example =
    lookup-merge_bindings new_bindings old_bindings (old_bindings ++ new_bindings) (text "redis")
      merged-bindings

abbrev segments : List Segment
segments =
    (record { literal = text "light/"; parameter = text "id" })
    ∷ (record { literal = text "/"; parameter = text "kind" })
    ∷ []

tokens_of_address :
    address_tokens (text "light/{id}/{kind}/on") ≡ some (text "id" ∷ text "kind" ∷ [])
unfolding address_tokens
tokens_of_address = refl

abbrev tail : Text
tail = text "/on"

tail-IsTail : IsTail tail
tail-IsTail = plain (omega arith)

segments-AreSegments : AreSegments segments
segments-AreSegments = omega arith

address_tokens-render_example : address_tokens (render segments tail) ≡ some (parameters segments)
address_tokens-render_example = address_tokens-render segments tail segments-AreSegments tail-IsTail

address_tokens-Template_example :
    (t : Template (text "a/{b")) × (address_tokens (text "a/{b") ≡ some (parameters t.segments))
address_tokens-Template_example = address_tokens-Template (text "a/{b")

abbrev as_template : Template (render segments tail)
as_template = record {
  segments = segments;
  tail = tail;
  is_rendered = refl;
  segments_ok = segments-AreSegments;
  tail_ok = tail-IsTail;
}

abbrev declarations : Map ℕ
declarations = (text "id", 1) ∷ []

validate_address_params_iff_example :
    (validate_address_params (render segments tail) declarations ≡ some (ok tt))
    ↔ AllDeclared declarations (parameters segments)
validate_address_params_iff_example =
    validate_address_params_iff declarations (render segments tail) as_template

-- Nodes of a document: a text, a number or a mapping.
data Value : Type 0 where
  str : Text → Value
  int : ℤ → Value
  redis : Value → Value → Value

abbrev as_string : Value → Option Text
as_string (str t) = some t
as_string _ = none

abbrev as_int : Value → Option ℤ
as_int (int z) = some z
as_int _ = none

abbrev as_map : Value → Option (Map Value)
as_map (redis t n) = some ((text "type", t) ∷ (text "maxLen", n) ∷ [])
as_map _ = none

abbrev kind_of : Value → Kind
kind_of (redis t n) = mapping
kind_of _ = scalar

abbrev tag_of : Value → Text
tag_of (str t) = text "!!str"
tag_of (int z) = text "!!int"
tag_of (redis t n) = text "!!map"

abbrev values : Yaml
values = record {
  Node = Value;
  is_zero = λ _. false;
  kind = kind_of;
  tag = tag_of;
  decode_string = as_string;
  decode_int = as_int;
  decode_map = as_map;
}

abbrev extensions : Map Value
extensions = (text "x-redis", redis (str (text "stream")) (int (pos 100))) ∷ []

abbrev stream : RedisChannelBinding
stream = record { type_of = text "stream"; max_len = pos 100; binding_version = [] }

parse-stream : parse_redis_channel_binding values [] extensions ≡ ok (some stream)
unfolding parse_redis_channel_binding lookup insert
parse-stream = refl

parse_redis_channel_binding-IsChannelBinding_example : IsChannelBinding stream
parse_redis_channel_binding-IsChannelBinding_example =
    parse_redis_channel_binding-IsChannelBinding values [] extensions stream parse-stream

abbrev group : RedisOperationBinding
group = record { consumer_group = text "workers"; binding_version = [] }

validate_redis_operation_binding_iff_example :
    (validate_redis_operation_binding (some group) receive (some (some stream)) ≡ ok tt)
    ↔ ((group.consumer_group ≡ []) ⊎ ((receive ≡ receive) × IsStream (some (some stream))))
validate_redis_operation_binding_iff_example =
    validate_redis_operation_binding_iff group receive (some (some stream))
