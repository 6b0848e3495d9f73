-- ===== src/Config.antt =====
-- internal/config: the configuration of a run, its defaults, and where its file is found.
--
-- A directory is the list of its segments, the innermost first, so that its parent is the rest of the
-- list and the root, or `.`, is its own parent. The file system, the YAML package and the package for
-- paths are parameters.
pub mod Loaded
mod Tests
use agen.Prelude.{Bool, ◌||◌, List, [], ◌∷◌, Option, none, some, if◌then◌else◌}
use agen.Prelude.Result.{Result, ok, err, ◌>>=◌, ◌>>◌}
use agen.Prelude.Int.{ℤ}
use agen.Prelude.Text.{Text, text, is_empty, eq_text}

pub record Target : Type 0 where
  pub package_name : Text
  pub dir : Text
  pub spec : Text

pub record Parser : Type 0 where
  pub infer_types : Bool
  pub allow_remote : Bool
  pub depth_limit : ℤ
  pub ignore_unsupported : List Text

pub record Features : Type 0 where
  pub enable : List Text
  pub disable : List Text
  pub disable_all : Bool

pub record Filters : Type 0 where
  pub operations_regex : Text
  pub actions : List Text

pub record Generator : Type 0 where
  pub features : Features
  pub filters : Filters
  pub initialisms : Bool

pub record Config : Type 0 where
  pub target : Target
  pub parser : Parser
  pub generator : Generator
  -- The output of `expand`.
  pub output : Text

pub data ConfigError : Type 0 where
  cannot_read cannot_decode : ConfigError
  invalid_action : Text → ConfigError

unfoldable pub is_action : Text → Bool
unfolding eq_text
is_action a = eq_text a (text "send") || eq_text a (text "receive")

-- The loop over the actions, and then `return nil`.
unfoldable pub check_actions : List Text → Result ConfigError (Unit {0})
unfolding is_action
check_actions [] = ok tt
check_actions (a ∷ actions) =
    let rest = check_actions actions in if is_action a then rest else err (invalid_action a)

unfoldable pub with_target : Config → Target → Config
with_target c t = record {
  target = t;
  parser = c.parser;
  generator = c.generator;
  output = c.output;
}

unfoldable pub default_dir : Text → Text
default_dir dir = if is_empty dir then text "./api" else dir

unfoldable pub set_defaults : Config → Result ConfigError Config
unfolding check_actions with_target default_dir
set_defaults c = do
  check_actions c.generator.filters.actions
  ok (
      with_target c (record {
        package_name = c.target.package_name;
        dir = default_dir c.target.dir;
        spec = c.target.spec;
      }))

-- `resolve path` is the absolute path against the directory of the configuration, if there is one.
unfoldable pub absolute : (Text → Bool) → (Text → Option Text) → Text → Text
absolute is_abs resolve path =
    if is_abs path then path else elim (resolve path) [ none ↦ path | some full ↦ full ]

unfoldable pub with_absolute : (Text → Bool) → (Text → Option Text) → Config → Config
unfolding absolute with_target
with_absolute is_abs resolve c = with_target c (record {
  package_name = c.target.package_name;
  dir = absolute is_abs resolve c.target.dir;
  spec = absolute is_abs resolve c.target.spec;
})

unfoldable pub or_fail : {A : Type 0} → ConfigError → Option A → Result ConfigError A
or_fail e none = err e
or_fail e (some a) = ok a

module _ (read : Text → Option Text) (decode : Text → Option Config) (is_abs : Text → Bool)
    (resolve : Text → Text → Option Text) where
  unfoldable pub load : Text → Result ConfigError Config
  unfolding or_fail set_defaults with_absolute
  load path = do
    data_ ← or_fail cannot_read (read path)
    cfg ← or_fail cannot_decode (decode data_)
    checked ← set_defaults cfg
    ok (with_absolute is_abs (resolve path) checked)

abbrev pub config_files : List Text
config_files = text "agen.yml" ∷ text "agen.yaml" ∷ text ".agen.yml" ∷ text ".agen.yaml" ∷ []

module _ (is_file : List Text → Text → Bool) where
  unfoldable pub first_file : List Text → List Text → Option Text
  first_file dir [] = none
  first_file dir (f ∷ files) =
      let rest = first_file dir files in if is_file dir f then some f else rest

  unfoldable pub found_in :
      List Text → Option Text → Option (List Text × Text) → Option (List Text × Text)
  found_in dir none above = above
  found_in dir (some f) above = some (dir, f)

  unfoldable pub auto_discover : List Text → Option (List Text × Text)
  unfolding first_file found_in
  auto_discover [] = found_in [] (first_file [] config_files) none
  auto_discover (s ∷ dir) =
      let above = auto_discover dir in found_in (s ∷ dir) (first_file (s ∷ dir) config_files) above
