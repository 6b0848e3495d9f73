-- ===== src/Gen/Sorting/Order.antt =====
-- `sortStrings` sorts, and its result depends on the items alone.
use agen.Prelude.{
  ℕ, ◌+◌, ◌<◌, ◌≡◌, refl, sym, ap, ◌∙◌, inl, inr, true, false, List, [], ◌∷◌, if◌then◌else◌, arith,
  Bool-cases, if_both,
}
use agen.Prelude.Text.{Text, eq_text, eq_text_iff}
use agen.Gen.Sorting.{ltb_text, sort_strings}
use agen.Gen.Sorting.Inserting.{rev, insert_falling, insert_each, sort_strings-insert_each}

ltb_text_refl : (a : Text) → ltb_text a a ≡ false
unfolding ltb_text
ltb_text_refl [] = refl
ltb_text_refl (x ∷ a) = ground (arith, ltb_text_refl a)

ltb_text_asym : (a b : Text) → ltb_text a b ≡ true → ltb_text b a ≡ false
unfolding ltb_text
ltb_text_asym a [] h = cc
ltb_text_asym [] (y ∷ b) h = refl
ltb_text_asym (x ∷ a) (y ∷ b) h = ground (arith, ltb_text_asym a b)

ltb_text_trans : (a b c : Text) → ltb_text a b ≡ false → ltb_text b c ≡ false → ltb_text a c ≡ false
unfolding ltb_text
ltb_text_trans a b [] h k = refl
ltb_text_trans a [] (z ∷ c) h k = cc
ltb_text_trans [] (y ∷ b) (z ∷ c) h k = cc
ltb_text_trans (x ∷ a) (y ∷ b) (z ∷ c) h k = ground (arith, ltb_text_trans a b c)

ltb_text_antisym : (a b : Text) → ltb_text a b ≡ false → ltb_text b a ≡ false → a ≡ b
unfolding ltb_text
ltb_text_antisym [] [] h k = refl
ltb_text_antisym [] (y ∷ b) h k = cc
ltb_text_antisym (x ∷ a) [] h k = cc
ltb_text_antisym (x ∷ a) (y ∷ b) h k = ground (arith, ltb_text_antisym a b)

-- How often a list has an item.
unfoldable pub count : Text → List Text → ℕ
unfolding eq_text
count a [] = 0
count a (x ∷ l) = (if eq_text x a then 1 else 0) + count a l

-- Nothing of the list is above the text, or below it.
unfoldable pub Below : Text → List Text → Type 0
Below a [] = Unit
Below a (x ∷ l) = (ltb_text a x ≡ false) × Below a l

unfoldable pub Above : Text → List Text → Type 0
Above a [] = Unit
Above a (x ∷ l) = (ltb_text x a ≡ false) × Above a l

pub IsFalling : List Text → Type 0
IsFalling [] = Unit
IsFalling (x ∷ l) = Below x l × IsFalling l

unfoldable pub IsSorted : List Text → Type 0
IsSorted [] = Unit
IsSorted (x ∷ l) = Above x l × IsSorted l

Below-trans : (a b : Text) (l : List Text) → ltb_text a b ≡ false → Below b l → Below a l
unfolding Below
Below-trans a b [] h below = tt
Below-trans a b (x ∷ l) h (first, below) = (ltb_text_trans a b x h first, Below-trans a b l h below)

insert_falling-Below :
    (a x : Text) (l : List Text) → ltb_text a x ≡ false → Below a l → Below a (insert_falling x l)
unfolding insert_falling Below
insert_falling-Below a x [] h below = (h, tt)
insert_falling-Below a x (y ∷ l) h (first, below) =
    if_both (Below a) (ltb_text x y) (λ _. (first, insert_falling-Below a x l h below))
      (λ _. (h, (first, below)))

insert_falling-IsFalling : (x : Text) (l : List Text) → IsFalling l → IsFalling (insert_falling x l)
unfolding insert_falling IsFalling Below
insert_falling-IsFalling x [] falling = (tt, tt)
insert_falling-IsFalling x (y ∷ l) (below, falling) =
    if_both IsFalling (ltb_text x y)
      (λ less. (
        insert_falling-Below y x l (ltb_text_asym x y less) below,
        insert_falling-IsFalling x l falling,
      ))
      (λ more. ((more, Below-trans x y l more below), (below, falling)))

insert_each-IsFalling : (r l : List Text) → IsFalling r → IsFalling (insert_each r l)
unfolding insert_each
insert_each-IsFalling r [] falling = falling
insert_each-IsFalling r (x ∷ l) falling =
    insert_each-IsFalling (insert_falling x r) l (insert_falling-IsFalling x r falling)

count-insert_falling : (a x : Text) (l : List Text) → count a (insert_falling x l) ≡ count a (x ∷ l)
unfolding insert_falling count
count-insert_falling a x [] = refl
count-insert_falling a x (y ∷ l) = ground (arith, count-insert_falling a x l)

count-insert_each : (a : Text) (r l : List Text) → count a (insert_each r l) ≡ count a r + count a l
unfolding insert_each count
count-insert_each a r [] = omega arith
count-insert_each a r (x ∷ l) =
    let one : count a (x ∷ r) ≡ (if eq_text x a then 1 else 0) + count a r = refl in
    omega (arith, count-insert_each a (insert_falling x r) l, count-insert_falling a x r, one)

count-rev : (a : Text) (r l : List Text) → count a (rev r l) ≡ count a r + count a l
unfolding rev count
count-rev a [] l = omega arith
count-rev a (x ∷ r) l = omega (arith, count-rev a r (x ∷ l))

pub count-sort_strings : (a : Text) (s : List Text) → count a (sort_strings s) ≡ count a s
count-sort_strings a s =
    ap (count a) (sort_strings-insert_each s)
    ∙ unfold count in omega (arith, count-rev a (insert_each [] s) [], count-insert_each a [] s)

-- Nothing of the second list is below anything of the first.
Over : List Text → List Text → Type 0
Over [] l = Unit
Over (x ∷ r) l = Above x l × Over r l

Over-cons : (x : Text) (r l : List Text) → Below x r → Over r l → Over r (x ∷ l)
unfolding Over Below Above
Over-cons x [] l below over = tt
Over-cons x (y ∷ r) l (first, below) (above, over) = ((first, above), Over-cons x r l below over)

rev-IsSorted : (r l : List Text) → IsFalling r → IsSorted l → Over r l → IsSorted (rev r l)
unfolding rev IsFalling IsSorted Over
rev-IsSorted [] l falling sorted over = sorted
rev-IsSorted (x ∷ r) l (below, falling) sorted (above, over) =
    rev-IsSorted r (x ∷ l) falling (above, sorted) (Over-cons x r l below over)

Over-nil : (r : List Text) → Over r []
unfolding Over Above
Over-nil [] = tt
Over-nil (x ∷ r) = (tt, Over-nil r)

-- `sortStrings` orders its texts by their bytes, and holds each text as often as before.
pub sort_strings-IsSorted :
    (s : List Text)
    → IsSorted (sort_strings s) × ((a : Text) → count a (sort_strings s) ≡ count a s)
unfolding IsFalling IsSorted
sort_strings-IsSorted s = (
  rw (sort_strings-insert_each s) (
      rev-IsSorted (insert_each [] s) [] (insert_each-IsFalling [] s tt) tt
        (Over-nil (insert_each [] s))),
  λ a. count-sort_strings a s,
)

-- Lists that fall and have the same items.
Below-of_count : (a x : Text) (l : List Text) → Below a l → 0 < count x l → ltb_text a x ≡ false
unfolding Below count
Below-of_count a x [] below h = absurd (omega arith)
Below-of_count a x (y ∷ l) (first, below) h = elim (Bool-cases (eq_text y x)) [
  | inl e ↦ rw (sym ((eq_text_iff y x).0 e)) first
  | inr e ↦ Below-of_count a x l below (ground arith)
]

pub count-head : (x : Text) (l : List Text) → 0 < count x (x ∷ l)
unfolding count
count-head x l = ground (arith, eq_text_iff x x)

count-tail :
    (a x : Text) (r l : List Text) → count a (x ∷ r) ≡ count a (x ∷ l) → count a r ≡ count a l
unfolding count
count-tail a x r l h = omega (arith, h)

Below-head : (a x : Text) (l : List Text) → Below a l → 0 < count x (a ∷ l) → ltb_text a x ≡ false
unfolding count
Below-head a x l below h = elim (Bool-cases (eq_text a x)) [
  | inl e ↦ rw (sym ((eq_text_iff a x).0 e)) (ltb_text_refl a)
  | inr e ↦ Below-of_count a x l below (unfold count in ground arith)
]

falling_unique :
    (r l : List Text) → IsFalling r → IsFalling l → ((a : Text) → count a r ≡ count a l) → r ≡ l
unfolding IsFalling
falling_unique [] [] p q same = refl
falling_unique [] (y ∷ l) p q same = absurd (unfold count in omega (arith, same y, count-head y l))
falling_unique (x ∷ r) [] p q same = absurd (unfold count in omega (arith, same x, count-head x r))
falling_unique (x ∷ r) (y ∷ l) (below_x, p) (below_y, q) same =
    let e : x ≡ y =
      ltb_text_antisym x y (Below-head x y r below_x (omega (arith, same y, count-head y l)))
        (Below-head y x l below_y (omega (arith, same x, count-head x r))) in
    let same_tail : (a : Text) → count a r ≡ count a l =
      λ a. count-tail a x r l (same a ∙ ap (λ z. count a (z ∷ l)) (sym e)) in
    rw e (ap (λ t. y ∷ t) (falling_unique r l p q same_tail))

pub sort_strings-eq :
    (s t : List Text) → ((a : Text) → count a s ≡ count a t) → sort_strings s ≡ sort_strings t
unfolding IsFalling
sort_strings-eq s t same =
    let counts : (a : Text) → count a (insert_each [] s) ≡ count a (insert_each [] t) = λ a.
      count-insert_each a [] s
      ∙ ap (λ n. count a [] + n) (same a)
      ∙ sym (count-insert_each a [] t) in
    sort_strings-insert_each s
    ∙ ap (λ r. rev r [])
        (falling_unique (insert_each [] s) (insert_each [] t) (insert_each-IsFalling [] s tt)
          (insert_each-IsFalling [] t tt) counts)
    ∙ sym (sort_strings-insert_each t)
