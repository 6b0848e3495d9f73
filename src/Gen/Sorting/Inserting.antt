-- ===== src/Gen/Sorting/Inserting.antt =====
-- The loops insert each text into the texts before it.
use agen.Prelude.{
  ℕ, suc, ◌+◌, ◌-◌, ◌≡◌, refl, sym, ap, ◌∙◌, List, [], ◌∷◌, if◌then◌else◌, length, get_elem?, set,
  get_or_else, arith, Bool-cases, inl, inr,
}
use agen.Prelude.Text.{Text}
use agen.Gen.Sorting.{ltb_text, at, sink, sort_from, sort_strings}

-- A list in front of another, back to front.
unfoldable pub rev : List Text → List Text → List Text
rev [] l = l
rev (x ∷ r) l = rev r (x ∷ l)

-- Insertion into a list that falls.
unfoldable pub insert_falling : Text → List Text → List Text
insert_falling x [] = x ∷ []
insert_falling x (y ∷ r) = if ltb_text x y then y ∷ insert_falling x r else x ∷ y ∷ r

unfoldable pub insert_each : List Text → List Text → List Text
unfolding insert_falling
insert_each r [] = r
insert_each r (x ∷ l) = insert_each (insert_falling x r) l

get_elem?-rev : (r l : List Text) (k : ℕ) → get_elem? (rev r l) (length r + k) ≡ get_elem? l k
unfolding rev
get_elem?-rev [] l k = ap (get_elem? l) (omega arith)
get_elem?-rev (x ∷ r) l k =
    ap (get_elem? (rev r (x ∷ l))) (omega arith) ∙ get_elem?-rev r (x ∷ l) (suc k)

set-rev : (r l : List Text) (k : ℕ) (v : Text) → set (rev r l) (length r + k) v ≡ rev r (set l k v)
unfolding rev
set-rev [] l k v = ap (λ i. set l i v) (omega arith)
set-rev (x ∷ r) l k v =
    ap (λ i. set (rev r (x ∷ l)) i v) (omega arith) ∙ set-rev r (x ∷ l) (suc k) v

module _ (r l : List Text) (x y : Text) where
  at_lower : at (rev r (y ∷ x ∷ l)) (length r) ≡ y
  at_lower =
      ap (at (rev r (y ∷ x ∷ l))) (omega arith)
      ∙ ap (get_or_else []) (get_elem?-rev r (y ∷ x ∷ l) 0)

  at_upper : at (rev r (y ∷ x ∷ l)) (suc (length r)) ≡ x
  at_upper =
      ap (at (rev r (y ∷ x ∷ l))) (omega arith)
      ∙ ap (get_or_else []) (get_elem?-rev r (y ∷ x ∷ l) 1)

  set_upper : (v : Text) → set (rev r (y ∷ x ∷ l)) (suc (length r)) v ≡ rev r (y ∷ v ∷ l)
  set_upper v = ap (λ i. set (rev r (y ∷ x ∷ l)) i v) (omega arith) ∙ set-rev r (y ∷ x ∷ l) 1 v

  set_lower : (v : Text) → set (rev r (y ∷ x ∷ l)) (length r) v ≡ rev r (v ∷ x ∷ l)
  set_lower v = ap (λ i. set (rev r (y ∷ x ∷ l)) i v) (omega arith) ∙ set-rev r (y ∷ x ∷ l) 0 v

swap-rev :
    (r l : List Text) (x y : Text)
    → set (set (rev r (y ∷ x ∷ l)) (suc (length r)) y) (length r) x ≡ rev r (x ∷ y ∷ l)
swap-rev r l x y = ap (λ t. set t (length r) x) (set_upper r l x y y) ∙ set_lower r l y y x

sink-rev :
    (r l : List Text) (x : Text) → sink (length r) (rev r (x ∷ l)) ≡ rev (insert_falling x r) l
unfolding sink insert_falling rev
sink-rev [] l x = refl
sink-rev (y ∷ r) l x = rw (at_upper r l x y) (
    rw (at_lower r l x y) (elim (Bool-cases (ltb_text x y)) [
      | inl less ↦ rw less (ap (sink (length r)) (swap-rev r l x y) ∙ sink-rev r (y ∷ l) x)
      | inr more ↦ rw more
    ]))

length-insert_falling : (x : Text) (r : List Text) → length (insert_falling x r) ≡ suc (length r)
unfolding insert_falling
length-insert_falling x [] = refl
length-insert_falling x (y ∷ r) = ground (arith, length-insert_falling x r)

sort_from-rev :
    (r l : List Text) → sort_from (length l) (length r) (rev r l) ≡ rev (insert_each r l) []
unfolding sort_from insert_each
sort_from-rev r [] = refl
sort_from-rev r (x ∷ l) =
    ap (sort_from (length l) (suc (length r))) (sink-rev r l x)
    ∙ ap (λ i. sort_from (length l) i (rev (insert_falling x r) l))
        (sym (length-insert_falling x r))
    ∙ sort_from-rev (insert_falling x r) l

pub sort_strings-insert_each : (s : List Text) → sort_strings s ≡ rev (insert_each [] s) []
unfolding sort_strings rev insert_each insert_falling
sort_strings-insert_each [] = refl
sort_strings-insert_each (x ∷ s) =
    ap (λ n. sort_from n 1 (x ∷ s)) {x = length (x ∷ s) - 1} {y = length s} (omega arith)
    ∙ sort_from-rev (x ∷ []) s
