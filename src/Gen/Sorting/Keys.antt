-- ===== src/Gen/Sorting/Keys.antt =====
-- The key of a set of messages.
use agen.Prelude.{
  ◌<◌, ◌≡◌, ◌↔◌, refl, sym, ap, ◌∙◌, Bool, true, ◌&&◌, not, List, [], ◌∷◌, ◌++◌, ◌==◌, arith,
  Bool-cases, inl, inr, ◌≢◌,
}
use agen.Prelude.Text.{Text, eq_text, eq_text_iff}
use agen.Gen.Sorting.{sort_strings, join_nul, set_key}
use agen.Gen.Sorting.Order.{count, sort_strings-eq, count-sort_strings, count-head}

abbrev pub nul_free : Text → Bool
nul_free [] = true
nul_free (c ∷ t) = not (c == 0) && nul_free t

-- No name has the byte that separates names in a key.
abbrev pub NulFree : List Text → Type 0
NulFree [] = Unit
NulFree (t ∷ s) = (nul_free t ≡ true) × NulFree s

NulFree-count : (s : List Text) (a : Text) → NulFree s → 0 < count a s → nul_free a ≡ true
unfolding count
NulFree-count [] a free h = absurd (omega arith)
NulFree-count (t ∷ s) a (first, free) h = elim (Bool-cases (eq_text t a)) [
  | inl e ↦ rw (sym ((eq_text_iff t a).0 e)) first
  | inr e ↦ NulFree-count s a free (ground arith)
]

NulFree-of_count : (s : List Text) → ((a : Text) → 0 < count a s → nul_free a ≡ true) → NulFree s
unfolding count
NulFree-of_count [] all = tt
NulFree-of_count (t ∷ s) all =
    (all t (ground (arith, eq_text_iff t t)), NulFree-of_count s (λ a h. all a (omega arith)))

cut_at_nul :
    (a b u v : Text)
    → nul_free a ≡ true
    → nul_free b ≡ true
    → (a ++ 0 ∷ u) ≡ (b ++ 0 ∷ v)
    → (a ≡ b) × (u ≡ v)
cut_at_nul [] [] u v p q e = (refl, ground arith)
cut_at_nul [] (y ∷ b) u v p q e = absurd (ground arith)
cut_at_nul (x ∷ a) [] u v p q e = absurd (ground arith)
cut_at_nul (x ∷ a) (y ∷ b) u v p q e = ground (arith, cut_at_nul a b u v)

no_nul_inside : (a b v : Text) → nul_free a ≡ true → a ≢ b ++ 0 ∷ v
no_nul_inside [] [] v p e = cc
no_nul_inside [] (y ∷ b) v p e = cc
no_nul_inside (x ∷ a) [] v p e = ground arith
no_nul_inside (x ∷ a) (y ∷ b) v p e = no_nul_inside a b v (ground arith) (ground arith)

join_nul-injective :
    (a b : Text) (s t : List Text)
    → NulFree (a ∷ s)
    → NulFree (b ∷ t)
    → join_nul (a ∷ s) ≡ join_nul (b ∷ t)
    → (a ∷ s) ≡ (b ∷ t)
unfolding join_nul
join_nul-injective a b [] [] p q e = ap (λ c. c ∷ []) e
join_nul-injective a b [] (d ∷ t) p q e = absurd (no_nul_inside a b (join_nul (d ∷ t)) p.0 e)
join_nul-injective a b (c ∷ s) [] p q e = absurd (no_nul_inside b a (join_nul (c ∷ s)) q.0 (sym e))
join_nul-injective a b (c ∷ s) (d ∷ t) p q e =
    let (first, rest) = cut_at_nul a b (join_nul (c ∷ s)) (join_nul (d ∷ t)) p.0 q.0 e in
    rw first (ap (λ l. b ∷ l) (join_nul-injective c d s t p.1 q.1 rest))

sort_strings-NulFree : (s : List Text) → NulFree s → NulFree (sort_strings s)
sort_strings-NulFree s free =
    NulFree-of_count (sort_strings s)
      (λ a h. NulFree-count s a free (omega (arith, count-sort_strings a s)))

join_nul-injective_of_count :
    (a b : Text) (s t : List Text)
    → 0 < count a s
    → 0 < count b t
    → NulFree s
    → NulFree t
    → join_nul s ≡ join_nul t
    → s ≡ t
join_nul-injective_of_count a b [] t h k p q e = absurd (unfold count in omega (arith, h))
join_nul-injective_of_count a b (c ∷ s) [] h k p q e = absurd (unfold count in omega (arith, k))
join_nul-injective_of_count a b (c ∷ s) (d ∷ t) h k p q e = join_nul-injective c d s t p q e

-- The keys of two lists of names without NUL bytes are equal if and only if both have each name equally
-- often.
pub set_key_iff :
    (a b : Text) (s t : List Text)
    → NulFree (a ∷ s)
    → NulFree (b ∷ t)
    → (set_key (a ∷ s) ≡ set_key (b ∷ t)) ↔ ((c : Text) → count c (a ∷ s) ≡ count c (b ∷ t))
unfolding set_key
set_key_iff a b s t p q = (
  λ e.
      let sorted : sort_strings (a ∷ s) ≡ sort_strings (b ∷ t) =
        join_nul-injective_of_count a b (sort_strings (a ∷ s)) (sort_strings (b ∷ t))
          (omega (arith, count-sort_strings a (a ∷ s), count-head a s))
          (omega (arith, count-sort_strings b (b ∷ t), count-head b t))
          (sort_strings-NulFree (a ∷ s) p) (sort_strings-NulFree (b ∷ t) q) e in
      λ c. sym (count-sort_strings c (a ∷ s)) ∙ ap (count c) sorted ∙ count-sort_strings c (b ∷ t),
  λ same. ap join_nul (sort_strings-eq (a ∷ s) (b ∷ t) same),
)
