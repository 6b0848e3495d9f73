-- ===== src/Gen.antt =====
-- gen/generator.go: from the parsed document to the model of the code to generate.
--
-- A `*parser.Channel` or `*parser.Message` is its place in the heap of the parser. The engine that
-- lowers schemas and the rules for Go names are parameters.
pub mod Features
pub mod Unsupported
pub mod Backend
pub mod Sorting
pub mod Names
pub mod RedisDefaults
pub mod Ir
pub mod Parts
pub mod Building
pub mod Generator
mod Tests
use agen.Prelude.Result.{Result}
use agen.Prelude.Text.{Text}

pub data Error : Type 0 where
  -- `unknown feature %q`, `name conflict: %q`, `extension %s: %q must be an exported Go identifier`
  unknown_feature name_conflict : Text → Error
  not_exported : Text → Text → Error
  -- An error of the rules for Go names, or of the engine.
  bad_name generate_failed save_failed : Text → Error
  unknown_protocol : Text → Error
  -- A nil pointer that the code reads.
  nil_dereference : Error
  -- The errors of `redisBindingDefaults`, each with the channel or operation.
  type_required mixed_types group_required mixed_groups mixed_max_lens : Text → Error

-- What a part of the generator returns.
abbrev pub Generated {ℓ} : Type ℓ → Type ℓ
Generated A = Result Error A
