-- ===== src/Prelude/Text.antt =====
-- Texts as lists of bytes, and maps with texts for keys.
use Prim.Native.Char.{code}
use Prim.Native.String.{String}
use agen.Prelude.{
  ℕ, ◌≡◌, ◌↔◌, refl, Bool, true, false, ◌&&◌, ◌||◌, List, [], ◌∷◌, Option, none, some, arith, ◌==◌,
  if◌then◌else◌,
}

abbrev pub Text : Type 0
Text = List ℕ

-- The bytes of an ASCII literal.
abbrev pub text : String → Text
text String.[] = []
text (String.◌∷◌ c s) = code c ∷ text s

abbrev pub is_empty {ℓ} : {A : Type ℓ} → List A → Bool
is_empty [] = true
is_empty (x ∷ xs) = false

unfoldable pub eq_text : Text → Text → Bool
eq_text [] [] = true
eq_text (x ∷ xs) (y ∷ ys) = x == y && eq_text xs ys
eq_text _ _ = false

pub eq_text_iff : (a b : Text) → (eq_text a b ≡ true) ↔ (a ≡ b)
unfolding eq_text
eq_text_iff (x ∷ a) (y ∷ b) = ground (arith, eq_text_iff a b)
eq_text_iff _ _ = ground arith

unfoldable pub lists : Text → List Text → Bool
unfolding eq_text
lists k [] = false
lists k (j ∷ ks) = eq_text j k || lists k ks

-- A Go map, as its entries.
abbrev pub Map {ℓ} : Type ℓ → Type ℓ
Map V = List (Text × V)

module _ {ℓ} {V : Type ℓ} where
  unfoldable pub lookup : Text → Map V → Option V
  unfolding eq_text
  lookup k [] = none
  lookup k ((j, v) ∷ m) = if eq_text j k then some v else lookup k m

  unfoldable pub insert : Text → V → Map V → Map V
  unfolding eq_text
  insert k v [] = (k, v) ∷ []
  insert k v ((j, w) ∷ m) = if eq_text j k then (k, v) ∷ m else (j, w) ∷ insert k v m

  unfoldable pub delete : Text → Map V → Map V
  unfolding eq_text
  delete k [] = []
  delete k ((j, v) ∷ m) = if eq_text j k then delete k m else (j, v) ∷ delete k m

  pub lookup-delete :
      (k j : Text) (m : Map V) → lookup j (delete k m) ≡ (if eq_text k j then none else lookup j m)
  unfolding lookup delete
  lookup-delete k j [] = ground arith
  lookup-delete k j ((i, w) ∷ m) =
      ground (arith, eq_text_iff k j, eq_text_iff i k, eq_text_iff i j, lookup-delete k j m)

  -- Every Go map lists distinct keys.
  unfoldable pub Distinct : Map V → Type ℓ
  Distinct [] = Unit
  Distinct ((k, v) ∷ m) = (lookup k m ≡ none) × Distinct m

  pub lookup-insert :
      (k j : Text) (v : V) (m : Map V)
      → lookup j (insert k v m) ≡ (if eq_text k j then some v else lookup j m)
  unfolding lookup insert
  lookup-insert k j v [] = refl
  lookup-insert k j v ((i, w) ∷ m) =
      ground (arith, eq_text_iff k j, eq_text_iff i k, eq_text_iff i j, lookup-insert k j v m)
