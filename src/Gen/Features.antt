-- ===== src/Gen/Features.antt =====
-- The feature flags of gen/generator.go, and its list of ignored errors.
use agen.Prelude.{
  ◌≡◌, refl, ap, ◌∙◌, Bool, true, false, not, ◌&&◌, ◌||◌, List, [], ◌∷◌, if◌then◌else◌, is_some,
  arith,
}
use agen.Prelude.Result.{ok, err, ◌>>=◌}
use agen.Prelude.Text.{
  Text, text, Map, lookup, insert, delete, lists, eq_text, lookup-insert, lookup-delete,
}
use agen.Gen.{Error, Generated, unknown_feature}

abbrev pub Feature : Type 0
Feature = Text

abbrev pub default_features : List Feature
default_features = text "publisher" ∷ text "subscriber" ∷ text "middleware" ∷ []

abbrev pub all_features : List Feature
all_features =
    text "publisher"
    ∷ text "subscriber"
    ∷ text "middleware"
    ∷ text "fakes"
    ∷ text "unimplemented"
    ∷ text "debug_example_tests"
    ∷ []

-- A set is a map to `struct{}`.
abbrev pub FeatureSet : Type 0
FeatureSet = Map (Unit {0})

unfoldable pub has : FeatureSet → Feature → Bool
has f p = is_some (lookup p f)

unfoldable pub feature_known_in : List Feature → Feature → Bool
unfolding eq_text
feature_known_in [] p = false
feature_known_in (known ∷ features) p = eq_text known p || feature_known_in features p

unfoldable pub feature_known : Feature → Bool
unfolding feature_known_in
feature_known p = feature_known_in all_features p

-- The three loops of `BuildFeatures`.
unfoldable pub add_defaults : List Feature → FeatureSet → FeatureSet
unfolding insert
add_defaults [] f = f
add_defaults (p ∷ ps) f = add_defaults ps (insert p tt f)

unfoldable pub enable_all : List Feature → FeatureSet → Generated FeatureSet
unfolding feature_known insert
enable_all [] f = ok f
enable_all (p ∷ ps) f =
    let rest = enable_all ps (insert p tt f) in
    if not (feature_known p) then err (unknown_feature p) else rest

unfoldable pub disable_each : List Feature → FeatureSet → Generated FeatureSet
unfolding feature_known delete
disable_each [] f = ok f
disable_each (p ∷ ps) f =
    let rest = disable_each ps (delete p f) in
    if not (feature_known p) then err (unknown_feature p) else rest

unfoldable pub build_features : List Feature → List Feature → Bool → Generated FeatureSet
unfolding add_defaults enable_all disable_each
build_features enable disable true = ok []
build_features enable disable false = do
  f ← enable_all enable (add_defaults default_features [])
  disable_each disable f

-- Each of them is one of the features that agen has.
abbrev pub all_known : List Feature → Bool
all_known [] = true
all_known (p ∷ ps) = lists p all_features && all_known ps

abbrev pub is_ok : Generated FeatureSet → Bool
is_ok (ok f) = true
is_ok (err e) = false

abbrev pub has_in : Generated FeatureSet → Feature → Bool
has_in (ok f) p = has f p
has_in (err e) p = false

has-insert : (q p : Feature) (f : FeatureSet) → has (insert q tt f) p ≡ (eq_text q p || has f p)
unfolding has
has-insert q p f = ground (arith, lookup-insert q p tt f)

has-delete : (q p : Feature) (f : FeatureSet) → has (delete q f) p ≡ (not (eq_text q p) && has f p)
unfolding has
has-delete q p f = ground (arith, lookup-delete q p f)

or_false : (a b : Bool) → b ≡ false → (a || b) ≡ a
or_false true b h = refl
or_false false b h = h

has-add_defaults :
    (ps : List Feature) (f : FeatureSet) (p : Feature)
    → has (add_defaults ps f) p ≡ (lists p ps || has f p)
unfolding add_defaults lists
has-add_defaults [] f p = refl
has-add_defaults (q ∷ ps) f p =
    ground (arith, has-add_defaults ps (insert q tt f) p, has-insert q p f)

has_defaults : (p : Feature) → has (add_defaults default_features []) p ≡ lists p default_features
unfolding has lookup
has_defaults p =
    has-add_defaults default_features [] p ∙ or_false (lists p default_features) (has [] p) refl

feature_known-lists : (ps : List Feature) (p : Feature) → feature_known_in ps p ≡ lists p ps
unfolding feature_known_in lists
feature_known-lists [] p = refl
feature_known-lists (q ∷ ps) p = ground (arith, feature_known-lists ps p)

-- One round of a loop that refuses unknown features.
if_not {ℓ} : {A : Type ℓ} (b : Bool) (x y : A) → (if not b then x else y) ≡ (if b then y else x)
if_not true x y = refl
if_not false x y = refl

round :
    (known all now : Bool) (rest : Generated FeatureSet) (e : Error) (p : Feature)
    → is_ok rest ≡ all
    → has_in rest p ≡ (all && now)
    → (is_ok (if known then rest else err e) ≡ (known && all))
      × (has_in (if known then rest else err e) p ≡ ((known && all) && now))
round true all now rest e p h k = (h, k)
round false all now rest e p h k = (refl, refl)

known_or_unknown :
    (q p : Feature) (all now : Bool) (rest : Generated FeatureSet)
    → is_ok rest ≡ all
    → has_in rest p ≡ (all && now)
    → (is_ok (if not (feature_known q) then err (unknown_feature q) else rest)
        ≡ (lists q all_features && all))
      × (has_in (if not (feature_known q) then err (unknown_feature q) else rest) p
          ≡ ((lists q all_features && all) && now))
unfolding feature_known
known_or_unknown q p all now rest h k =
    rw (if_not (feature_known_in all_features q) (err (unknown_feature q)) rest) (
      rw (feature_known-lists all_features q)
        (round (lists q all_features) all now rest (unknown_feature q) p h k))

now_enabled :
    (q p : Feature) (ps : List Feature) (f : FeatureSet)
    → (lists p ps || has (insert q tt f) p) ≡ (lists p (q ∷ ps) || has f p)
unfolding lists
now_enabled q p ps f = ground (arith, has-insert q p f)

now_disabled :
    (q p : Feature) (ps : List Feature) (f : FeatureSet)
    → (has (delete q f) p && not (lists p ps)) ≡ (has f p && not (lists p (q ∷ ps)))
unfolding lists
now_disabled q p ps f = ground (arith, has-delete q p f)

-- What the loops leave, by what the set had of `p` at their start.
enable_all_lem :
    (ps : List Feature) (f : FeatureSet) (p : Feature)
    → (is_ok (enable_all ps f) ≡ all_known ps)
      × (has_in (enable_all ps f) p ≡ (all_known ps && (lists p ps || has f p)))
unfolding enable_all
enable_all_lem [] f p = unfold lists in (refl, refl)
enable_all_lem (q ∷ ps) f p =
    let ih = enable_all_lem ps (insert q tt f) p in
    known_or_unknown q p (all_known ps) (lists p (q ∷ ps) || has f p)
      (enable_all ps (insert q tt f)) (ih.0)
      (ih.1 ∙ ap (λ b. all_known ps && b) (now_enabled q p ps f))

disable_each_lem :
    (ps : List Feature) (f : FeatureSet) (p : Feature)
    → (is_ok (disable_each ps f) ≡ all_known ps)
      × (has_in (disable_each ps f) p ≡ (all_known ps && (has f p && not (lists p ps))))
unfolding disable_each
disable_each_lem [] f p = unfold lists in ground arith
disable_each_lem (q ∷ ps) f p =
    let ih = disable_each_lem ps (delete q f) p in
    known_or_unknown q p (all_known ps) (has f p && not (lists p (q ∷ ps)))
      (disable_each ps (delete q f)) (ih.0)
      (ih.1 ∙ ap (λ b. all_known ps && b) (now_disabled q p ps f))

-- Disabling after enabling: the steps of the block, by the result of the first.
disabled_after :
    (r : Generated FeatureSet) (ps : List Feature) (p : Feature) (all now : Bool)
    → is_ok r ≡ all
    → has_in r p ≡ (all && now)
    → (is_ok (r >>= disable_each ps) ≡ (all && all_known ps))
      × (has_in (r >>= disable_each ps) p ≡ ((all && all_known ps) && (now && not (lists p ps))))
disabled_after (ok f) ps p all now h k = ground (arith, disable_each_lem ps f p)
disabled_after (err e) ps p all now h k = ground arith

-- `BuildFeatures` fails exactly if all features are not disabled at once and a listed one is not a
-- feature of agen. The set that it returns has the default features and the enabled ones, less the
-- disabled ones; it is empty where all are disabled at once.
pub build_features-has :
    (enable disable : List Feature) (disable_all : Bool) (p : Feature)
    → (is_ok (build_features enable disable disable_all)
        ≡ (disable_all || (all_known enable && all_known disable)))
      × (has_in (build_features enable disable disable_all) p ≡ (
          not disable_all
          && ((all_known enable && all_known disable)
              && ((lists p enable || lists p default_features) && not (lists p disable)))))
unfolding build_features
build_features-has enable disable true p = unfold has lookup in (refl, refl)
build_features-has enable disable false p =
    let r = enable_all enable (add_defaults default_features []) in
    let (fine, within) = enable_all_lem enable (add_defaults default_features []) p in
    disabled_after r disable p (all_known enable) (lists p enable || lists p default_features) fine
      (within ∙ ap (λ b. all_known enable && (lists p enable || b)) (has_defaults p))
