-- ===== src/Config/Loaded.antt =====
-- What is loaded, and from where.
use agen.Prelude.{
  ◌≡◌, ◌↔◌, refl, ◌∙◌, ap, Bool, true, List, [], ◌∷◌, ◌++◌, Option, none, some, if◌then◌else◌,
  arith,
}
use mathlib.Core.Path.{subst}
use agen.Prelude.Result.{ok}
use agen.Prelude.Text.{Text, text, is_empty}
use agen.Config.{
  Config, is_action, check_actions, default_dir, with_target, set_defaults, config_files,
  first_file, found_in, auto_discover,
}

unfoldable pub AllActions : List Text → Type 0
AllActions [] = Unit
AllActions (a ∷ actions) = (is_action a ≡ true) × AllActions actions

check_actions_iff : (actions : List Text) → (check_actions actions ≡ ok tt) ↔ AllActions actions
unfolding check_actions AllActions
check_actions_iff [] = ground arith
check_actions_iff (a ∷ actions) = ground (arith, check_actions_iff actions)

-- `SetDefaults` succeeds exactly if every action of the filters is `send` or `receive`, and then it sets
-- the directory to `./api` if it is empty, and nothing else.
pub set_defaults-ok_iff :
    (c d : Config)
    → (set_defaults c ≡ ok d)
      ↔ AllActions c.generator.filters.actions
        × (d.target.package_name ≡ c.target.package_name)
        × (d.target.dir ≡ (if is_empty c.target.dir then text "./api" else c.target.dir))
        × (d.target.spec ≡ c.target.spec)
        × (d.parser ≡ c.parser)
        × (d.generator ≡ c.generator)
        × (d.output ≡ c.output)
unfolding set_defaults with_target default_dir
set_defaults-ok_iff c d = ground (arith, check_actions_iff c.generator.filters.actions)

-- The directories from `dir` up to `top`, without `top`, hold no configuration file.
unfoldable pub NoneBelow : (List Text → Text → Bool) → List Text → List Text → Type 0
NoneBelow is_file [] top = Unit
NoneBelow is_file (s ∷ inner) top =
    (first_file is_file (s ∷ inner ++ top) config_files ≡ none) × NoneBelow is_file inner top

-- The nearest file: in `top`, with nothing in the directories from `dir` up to there.
unfoldable pub IsNearest : (List Text → Text → Bool) → List Text → List Text → Text → Type 0
IsNearest is_file dir top f =
    (first_file is_file top config_files ≡ some f)
    × ((inner : List Text) × (dir ≡ inner ++ top) × NoneBelow is_file inner top)

module _ (is_file : List Text → Text → Bool) where
  found-IsNearest :
      (dir top : List Text) (f : Text) (o : Option Text) (above : Option (List Text × Text))
      → first_file is_file dir config_files ≡ o
      → (above ≡ some (top, f) → o ≡ none → IsNearest is_file dir top f)
      → found_in is_file dir o above ≡ some (top, f)
      → IsNearest is_file dir top f
  unfolding found_in IsNearest NoneBelow
  found-IsNearest dir top f none above e up h = up h refl
  found-IsNearest dir top f (some g) above e up h =
      let same : dir ≡ top = ground arith in
      let file : some g ≡ some f = ground arith in
      (subst (λ d. first_file is_file d config_files ≡ some f) same (e ∙ file), ([], same, tt))

  -- If `AutoDiscover` finds a file, it is the first of the known names that is a file in its
  -- directory, this directory is `dir` or one above it, and no directory between them has such a file.
  pub auto_discover-IsNearest :
      (dir top : List Text) (f : Text)
      → auto_discover is_file dir ≡ some (top, f)
      → IsNearest is_file dir top f
  unfolding auto_discover IsNearest NoneBelow
  auto_discover-IsNearest [] top f h =
      found-IsNearest [] top f (first_file is_file [] config_files) none refl (λ e. cc) h
  auto_discover-IsNearest (s ∷ dir) top f h =
      found-IsNearest (s ∷ dir) top f (first_file is_file (s ∷ dir) config_files)
        (auto_discover is_file dir) refl
        (λ above missed.
          let (found, (inner, e, empty)) = auto_discover-IsNearest dir top f above in
          (
            found,
            (
              s ∷ inner,
              ap (λ d. s ∷ d) e,
              (subst (λ d. first_file is_file (s ∷ d) config_files ≡ none) e missed, empty),
            ),
          ))
        h
