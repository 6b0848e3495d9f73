-- ===== src/Config/Tests.antt =====
-- A configuration and a tree of directories, and the theorems at them.
use agen.Prelude.{◌≡◌, ◌↔◌, refl, Bool, true, false, ◌&&◌, List, [], ◌∷◌, some, if◌then◌else◌}
use agen.Prelude.Result.{ok, err}
use agen.Prelude.Int.{pos}
use agen.Prelude.Text.{Text, text, eq_text, is_empty}
use agen.Config.{Config, set_defaults, invalid_action, auto_discover}
use agen.Config.Loaded.{AllActions, IsNearest, set_defaults-ok_iff, auto_discover-IsNearest}

abbrev config_for : Text → List Text → Config
config_for dir actions = record {
  target = record { package_name = text "api"; dir = dir; spec = text "asyncapi.yml" };
  parser = record {
    infer_types = false;
    allow_remote = false;
    depth_limit = pos 0;
    ignore_unsupported = [];
  };
  generator = record {
    features = record { enable = []; disable = []; disable_all = false };
    filters = record { operations_regex = []; actions = actions };
    initialisms = true;
  };
  output = [];
}

abbrev config : Config
config = config_for [] (text "send" ∷ [])

abbrev completed : Config
completed = config_for (text "./api") (text "send" ∷ [])

rejects_action :
    set_defaults (config_for [] (text "publish" ∷ [])) ≡ err (invalid_action (text "publish"))
unfolding set_defaults
rejects_action = refl

set_defaults-ok_iff_example :
    (set_defaults config ≡ ok completed)
    ↔ AllActions config.generator.filters.actions
      × (completed.target.package_name ≡ config.target.package_name)
      × (completed.target.dir
          ≡ (if is_empty config.target.dir then text "./api" else config.target.dir))
      × (completed.target.spec ≡ config.target.spec)
      × (completed.parser ≡ config.parser)
      × (completed.generator ≡ config.generator)
      × (completed.output ≡ config.output)
set_defaults-ok_iff_example = set_defaults-ok_iff config completed

-- One file, in the directory `repo`.
abbrev holds : List Text → Text → Bool
holds [] f = false
holds (s ∷ dir) f = eq_text s (text "repo") && eq_text f (text "agen.yaml")

abbrev start : List Text
start = text "api" ∷ text "repo" ∷ text "home" ∷ []

abbrev repo : List Text
repo = text "repo" ∷ text "home" ∷ []

finds_file : auto_discover holds start ≡ some (repo, text "agen.yaml")
unfolding auto_discover eq_text
finds_file = refl

auto_discover-IsNearest_example : IsNearest holds start repo (text "agen.yaml")
auto_discover-IsNearest_example =
    auto_discover-IsNearest holds start repo (text "agen.yaml") finds_file
