-- ===== src/Gen/Unsupported.antt =====
-- The errors that `ignore_unsupported` turns off: `Generator.fail` of gen/generator.go.
use agen.Prelude.{
  ◌≡◌, ◌↔◌, ◌⊎◌, inl, inr, refl, ap, Bool, true, false, ◌&&◌, ◌||◌, List, [], ◌∷◌, ◌++◌, Option,
  none, some, if◌then◌else◌, arith, Bool-cases,
}
use agen.Prelude.Text.{Text, text, lists, eq_text, eq_text_iff}
use agen.AsyncApi.Message.{has_prefix}

-- A Go error: `*lowering.ErrNotImplemented`, an error with a context, or any other.
pub data GoError : Type 0 where
  not_implemented : Text → GoError
  wrapped : Text → GoError → GoError
  other : Text → GoError

-- `errors.As(err, &ni)`, with `ni.Name`
unfoldable pub as_not_implemented : GoError → Option Text
as_not_implemented (not_implemented name) = some name
as_not_implemented (wrapped context e) = as_not_implemented e
as_not_implemented (other message) = none

unfoldable pub contains : List Text → Text → Bool
unfolding eq_text
contains [] v = false
contains (item ∷ s) v = eq_text item v || contains s v

unfoldable pub contains_prefix : List Text → Text → Bool
unfolding has_prefix
contains_prefix [] prefix = false
contains_prefix (item ∷ s) prefix = has_prefix prefix item || contains_prefix s prefix

-- The test of `fail` on the name of a feature.
unfoldable pub skips : List Text → Text → Bool
unfolding contains contains_prefix
skips ignored name =
    contains ignored (text "all")
    || contains ignored name
    || contains_prefix ignored (text "schema.") && contains ignored (text "schema." ++ name)

unfoldable pub fail_if_known : List Text → GoError → Option Text → Option GoError
unfolding skips
fail_if_known ignored e none = some e
fail_if_known ignored e (some name) = if skips ignored name then none else some e

-- `none` is `nil`.
unfoldable pub fail : List Text → Option GoError → Option GoError
unfolding fail_if_known as_not_implemented
fail ignored none = none
fail ignored (some e) = fail_if_known ignored e (as_not_implemented e)

contains-lists : (s : List Text) (v : Text) → contains s v ≡ lists v s
unfolding contains lists
contains-lists [] v = refl
contains-lists (item ∷ s) v = ground (arith, contains-lists s v)

has_prefix-append : (p t : Text) → has_prefix p (p ++ t) ≡ true
unfolding has_prefix
has_prefix-append [] t = refl
has_prefix-append (c ∷ p) t = ground (arith, has_prefix-append p t, eq_text_iff (c ∷ []) (c ∷ []))

contains_prefix-lists :
    (s : List Text) (p t : Text) → lists (p ++ t) s ≡ true → contains_prefix s p ≡ true
unfolding contains_prefix lists
contains_prefix-lists [] p t h = cc
contains_prefix-lists (item ∷ s) p t h = elim (Bool-cases (eq_text item (p ++ t))) [
  | inl e ↦ rw ((eq_text_iff item (p ++ t)).0 e) (rw (has_prefix-append p t))
  | inr e ↦ ground (arith, contains_prefix-lists s p t)
]

and_implied : (a b : Bool) → (b ≡ true → a ≡ true) → (a && b) ≡ b
and_implied a true h = rw (h refl)
and_implied true false h = refl
and_implied false false h = refl

skips_lem :
    (ignored : List Text) (name : Text)
    → skips ignored name
      ≡ (lists (text "all") ignored || lists name ignored || lists (text "schema." ++ name) ignored)
unfolding skips
skips_lem ignored name = rw (contains-lists ignored (text "all")) (
    rw (contains-lists ignored name) (
      rw (contains-lists ignored (text "schema." ++ name)) (
        ap (λ b. lists (text "all") ignored || lists name ignored || b)
          (and_implied (contains_prefix ignored (text "schema."))
            (lists (text "schema." ++ name) ignored)
            (contains_prefix-lists ignored (text "schema.") name)))))

-- Whether an error is about a feature that the list turns off.
abbrev pub IsIgnored : List Text → Option Text → Type 0
IsIgnored ignored none = ⊥
IsIgnored ignored (some name) =
    (lists (text "all") ignored ≡ true)
    ⊎ (lists name ignored ≡ true)
    ⊎ (lists (text "schema." ++ name) ignored ≡ true)

or_iff : (a b c : Bool) → ((a || b || c) ≡ true) ↔ ((a ≡ true) ⊎ (b ≡ true) ⊎ (c ≡ true))
or_iff true b c = (λ _. inl refl, λ _. refl)
or_iff false true c = (λ _. inr (inl refl), λ _. refl)
or_iff false false true = (λ _. inr (inr refl), λ _. refl)
or_iff false false false = (λ e. cc, λ s. ground arith)

if_none : (b : Bool) (e : GoError) → (if b then none else some e) ≡ none → b ≡ true
if_none true e h = refl
if_none false e h = cc

fail_if_known_iff :
    (ignored : List Text) (e : GoError) (o : Option Text)
    → (fail_if_known ignored e o ≡ none) ↔ IsIgnored ignored o
unfolding fail_if_known
fail_if_known_iff ignored e none = (λ h. cc, λ h. absurd h)
fail_if_known_iff ignored e (some name) =
    let both =
      or_iff (lists (text "all") ignored) (lists name ignored)
        (lists (text "schema." ++ name) ignored) in
    rw (skips_lem ignored name) (λ h. both.0 (if_none _ e h), λ i. rw (both.1 i))

-- An error goes away exactly if somewhere in its chain a feature is not implemented, and the list has
-- `all`, the name of the feature or its name behind `schema.`; without an error there is none.
pub fail_iff :
    (ignored : List Text) (e : GoError)
    → (fail ignored none ≡ none)
      × ((fail ignored (some e) ≡ none) ↔ IsIgnored ignored (as_not_implemented e))
unfolding fail
fail_iff ignored e = (refl, fail_if_known_iff ignored e (as_not_implemented e))
