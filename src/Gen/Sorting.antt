-- ===== src/Gen/Sorting.antt =====
-- `sortStrings` of gen/generator.go, and the key by which operations share a sum type.
pub mod Inserting
pub mod Order
pub mod Keys
use agen.Prelude.{
  ℕ, zero, suc, ◌+◌, ◌-◌, Bool, true, false, ◌&&◌, ◌||◌, List, [], ◌∷◌, ◌++◌, if◌then◌else◌, length,
  get_elem?, set, get_or_else, ltb, ◌==◌,
}
use agen.Prelude.Text.{Text}

-- `a < b`, by the bytes.
unfoldable pub ltb_text : Text → Text → Bool
ltb_text s [] = false
ltb_text [] (y ∷ t) = true
ltb_text (x ∷ s) (y ∷ t) = ltb x y || x == y && ltb_text s t

-- `s[j]`, which the loops never read out of range.
abbrev pub at : List Text → ℕ → Text
at s j = get_or_else [] (get_elem? s j)

-- `s[j], s[j-1] = s[j-1], s[j]`, for the index above `j`.
abbrev pub swap : ℕ → List Text → List Text
swap j s = set (set s (suc j) (at s j)) j (at s (suc j))

-- The inner loop.
unfoldable pub sink : ℕ → List Text → List Text
unfolding ltb_text
sink zero s = s
sink (suc j) s =
    let rest = sink j (swap j s) in if ltb_text (at s (suc j)) (at s j) then rest else s

-- The outer loop, by the rounds that are left.
unfoldable pub sort_from : ℕ → ℕ → List Text → List Text
unfolding sink
sort_from zero i s = s
sort_from (suc rounds) i s = sort_from rounds (suc i) (sink i s)

unfoldable pub sort_strings : List Text → List Text
unfolding sort_from
sort_strings s = sort_from (length s - 1) 1 s

-- `strings.Join(s, "\x00")`
unfoldable pub join_nul : List Text → Text
join_nul [] = []
join_nul (t ∷ []) = t
join_nul (t ∷ u ∷ s) = t ++ 0 ∷ join_nul (u ∷ s)

-- `setKey`, from the names of the messages.
unfoldable pub set_key : List Text → Text
unfolding sort_strings join_nul
set_key names = join_nul (sort_strings names)
