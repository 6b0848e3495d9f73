-- ===== src/AsyncApi/Server/Version.antt =====
-- The versions that are supported.
use agen.Prelude.{
  ◌≡◌, ◌↔◌, ◌⊎◌, inl, inr, refl, sym, ◌∙◌, ap, [], ◌∷◌, ◌++◌, Option, none, some, Option-cases,
  arith,
}
use mathlib.Core.Path.{subst}
use agen.Prelude.Result.{ok}
use agen.Prelude.Text.{Text, text, eq_text, eq_text_iff}
use agen.AsyncApi.Server.{
  cut, before_dot, check_minor, check_version, check_version_parts, parse_version,
}

-- 3.0 or 3.1, and anything behind a dot.
unfoldable pub IsSupported : Text → Type 0
IsSupported v =
    (v ≡ text "3.0")
    ⊎ (v ≡ text "3.1")
    ⊎ ((patch : Text) × (v ≡ text "3.0." ++ patch))
    ⊎ ((patch : Text) × (v ≡ text "3.1." ++ patch))

cut-some : (t a b : Text) → cut t ≡ some (a, b) → t ≡ a ++ 46 ∷ b
unfolding cut
cut-some [] a b h = cc
cut-some (c ∷ t) [] b h = ground arith
cut-some (c ∷ t) (x ∷ a) b h = ground (arith, cut-some t a b)

before_dot-none : (t : Text) → cut t ≡ none → before_dot t ≡ t
unfolding before_dot
before_dot-none t e = ground arith

before_dot-some : (t a b : Text) → cut t ≡ some (a, b) → before_dot t ≡ a
unfolding before_dot
before_dot-some t a b e = ground arith

-- A text is what stands before its first dot, or that, the dot and a rest.
before_dot-or_rest : (t : Text) → (before_dot t ≡ t) ⊎ ((b : Text) × (t ≡ before_dot t ++ 46 ∷ b))
before_dot-or_rest t = elim (Option-cases (cut t)) [
  | inl e ↦ inl (before_dot-none t e)
  | inr ((a, b), e) ↦
      inr (b, cut-some t a b e ∙ ap (λ d. d ++ 46 ∷ b) (sym (before_dot-some t a b e)))
]

checked_minor :
    (v u minor : Text)
    → check_minor v minor ≡ ok u
    → (u ≡ v) × ((minor ≡ text "0") ⊎ (minor ≡ text "1"))
unfolding check_minor
checked_minor v u minor h =
    ground (arith, eq_text_iff minor (text "0"), eq_text_iff minor (text "1"))

checked_version :
    (v u major minor : Text)
    → check_version v major minor ≡ ok u
    → (major ≡ text "3") × (check_minor v minor ≡ ok u)
unfolding check_version
checked_version v u major minor h = ground (arith, eq_text_iff major (text "3"))

rest-IsSupported :
    (rest : Text)
    → (before_dot rest ≡ text "0") ⊎ (before_dot rest ≡ text "1")
    → IsSupported (text "3" ++ 46 ∷ rest)
unfolding IsSupported
rest-IsSupported rest m = elim (before_dot-or_rest rest) [
  | inl e ↦ elim m [
    | inl z ↦ inl (ap (λ r. text "3" ++ 46 ∷ r) (sym e ∙ z))
    | inr o ↦ inr (inl (ap (λ r. text "3" ++ 46 ∷ r) (sym e ∙ o)))
  ]
  | inr (b, e) ↦ elim m [
    | inl z ↦ inr (inr (inl (b, ap (λ r. text "3" ++ 46 ∷ r) (e ∙ ap (λ d. d ++ 46 ∷ b) z))))
    | inr o ↦ inr (inr (inr (b, ap (λ r. text "3" ++ 46 ∷ r) (e ∙ ap (λ d. d ++ 46 ∷ b) o))))
  ]
]

checked_parts :
    (v u : Text) (o : Option (Text × Text))
    → cut v ≡ o
    → check_version_parts v o ≡ ok u
    → (u ≡ v) × IsSupported v
unfolding check_version_parts
checked_parts v u none e h = cc
checked_parts v u (some (major, rest)) e h =
    let (three, h₁) = checked_version v u major (before_dot rest) h in
    let (same, minor) = checked_minor v u (before_dot rest) h₁ in
    let whole = cut-some v major rest e ∙ ap (λ m. m ++ 46 ∷ rest) three in
    (same, subst IsSupported (sym whole) (rest-IsSupported rest minor))

parsed-IsSupported : (v u : Text) → parse_version v ≡ ok u → (u ≡ v) × IsSupported v
unfolding parse_version
parsed-IsSupported v u h = checked_parts v u (cut v) refl h

IsSupported-parsed : (v : Text) → IsSupported v → parse_version v ≡ ok v
unfolding IsSupported parse_version check_version_parts before_dot check_version check_minor cut
    eq_text
IsSupported-parsed v (inl e) = rw e refl
IsSupported-parsed v (inr (inl e)) = rw e refl
IsSupported-parsed v (inr (inr (inl (patch, e)))) = rw e refl
IsSupported-parsed v (inr (inr (inr (patch, e)))) = rw e refl

-- `parseVersion` returns a version exactly if it is the given one, and the given one is 3.0 or 3.1, or
-- one of these with a dot and any text behind it.
pub parse_version-ok_iff : (v u : Text) → (parse_version v ≡ ok u) ↔ ((u ≡ v) × IsSupported v)
parse_version-ok_iff v u =
    (parsed-IsSupported v u, λ (e, supported). IsSupported-parsed v supported ∙ ap ok (sym e))
