-- ===== src/AsyncApi.antt =====
-- asyncapi/parser: from the decoded document to the semantic model.
--
-- A Go string is its bytes, a Go map the list of its entries, in the order in which `range` visits
-- them. An error is one of the messages below; the location that wraps it is not modelled.
pub mod Traits
pub mod Address
pub mod RedisBinding
pub mod Message
pub mod Server
pub mod Channel
pub mod Operation
pub mod Extensions
mod Tests
use agen.Prelude.{◌≡◌, Option, none, some, arith}
use agen.Prelude.Result.{Result, ok, err}
use agen.Prelude.Text.{Text}
use agen.AsyncApi.RedisBinding.{RedisError}

-- The fields that a trait may set.
pub data Field : Type 0 where
  name title summary description content_type security tags bindings parameters : Field

pub data Error : Type 0 where
  -- `trait overrides "title"`; `trait overrides bindings.redis`
  trait_overrides : Field → Error
  trait_overrides_entry : Field → Text → Error
  -- `resolve %q`, `decode … %q`, `… is a chained reference`
  cannot_resolve cannot_decode chained_reference : Text → Error
  trait_overrides_headers trait_overrides_correlation_id : Error
  undeclared_parameter : Text → Error
  avro_not_supported schema_format_not_supported unsupported_content_type : Text → Error
  invalid_payload invalid_headers : Error
  invalid_version unsupported_version version_not_supported : Text → Error
  host_required protocol_required title_required version_required : Error
  address_required channel_required no_messages : Error
  reply_channel_required reply_no_messages : Error
  invalid_action : Text → Error
  invalid_redis : RedisError → Error
  -- The error of `AddKey`, as it is.
  cannot_add_key : Error
  -- A nil pointer that the code reads.
  nil_dereference : Error
  -- No error of the code: the model ran out of fuel.
  out_of_fuel : Error

-- What a part of the parser returns.
abbrev pub Parsed {ℓ} : Type ℓ → Type ℓ
Parsed A = Result Error A

-- The pointer machinery of the JSON pointer package, which the parser calls: `ctx.Key`, `ctx.AddKey`
-- and `jsonpointer.Resolve` on the document. `none` is an error. Every `AddKey` is undone by the
-- deferred `Delete`, so a caller goes on with the context that it had.
pub record Pointers : Type 1 where
  pub Ctx : Type 0
  pub Key : Type 0
  pub Node : Type 0
  pub key : Ctx → Text → Option Key
  pub add_key : Ctx → Key → Option Ctx
  -- A key also has a location, which `jsonpointer.Resolve` does not get.
  pub ptr : Key → Text
  pub resolve : Text → Option Node

-- An error of a callee, wrapped.
unfoldable pub or_err {ℓ} : {A : Type ℓ} → Error → Option A → Parsed A
or_err e none = err e
or_err e (some a) = ok a

pub or_err-ok {ℓ} : {A : Type ℓ} (e : Error) (o : Option A) (a : A) → or_err e o ≡ ok a → o ≡ some a
unfolding or_err
or_err-ok e none a h = cc
or_err-ok e (some b) a h = ground arith
