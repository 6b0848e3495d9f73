-- ===== src/AsyncApi/Address/Cutting.antt =====
-- Texts cut at the first place of a byte.
use mathlib.Core.Option.{none-ne-some}
use agen.Prelude.{
  ℕ, zero, suc, ◌+◌, ◌≡◌, ◌≢◌, inl, inr, refl, ap, [], ◌∷◌, ◌++◌, none, some, arith, ◌==◌, ==_iff,
  Bool-cases, Option-cases, length, take, drop,
}
use agen.Prelude.Text.{Text}
use agen.AsyncApi.Address.{index_byte}

-- The byte does not stand in the text.
abbrev pub Lacks : ℕ → Text → Type 0
Lacks c [] = Unit
Lacks c (x ∷ s) = (x ≢ c) × Lacks c s

pub index_byte-none : (s : Text) (c : ℕ) → index_byte s c ≡ none → Lacks c s
unfolding index_byte
index_byte-none [] c e = tt
index_byte-none (x ∷ s) c e = (ground (arith, ==_iff x c), index_byte-none s c (ground arith))

pub index_byte-append :
    (a b : Text) (c : ℕ) → Lacks c a → index_byte (a ++ (c ∷ b)) c ≡ some (length a)
unfolding index_byte
index_byte-append [] b c l = ground arith
index_byte-append (x ∷ a) b c (n, l) =
    let other = index_byte-append a b c l in ground (arith, ==_iff x c)

pub Lacks-index_byte : (s : Text) (c : ℕ) → Lacks c s → index_byte s c ≡ none
unfolding index_byte
Lacks-index_byte [] c l = refl
Lacks-index_byte (x ∷ s) c (n, l) = let other = Lacks-index_byte s c l in ground (arith, ==_iff x c)

-- `s` cut at its first `c`, which stands at `i`.
pub record Cut (s : Text) (c i : ℕ) : Type 0 where
  pub before : Text
  pub after : Text
  pub whole : s ≡ before ++ (c ∷ after)
  pub first : Lacks c before
  pub place : length before ≡ i

pub index_byte-Cut : (s : Text) (c i : ℕ) → index_byte s c ≡ some i → Cut s c i
unfolding index_byte
index_byte-Cut [] c i e = absurd (none-ne-some i e)
index_byte-Cut (x ∷ s) c i e = elim (Bool-cases (x == c)) [
  | inl here ↦ record {
    before = [];
    after = s;
    whole = let x' : x ≡ c = ground arith in rw x';
    first = tt;
    place = ground arith;
  }
  | inr other ↦ elim (Option-cases (index_byte s c)) [
    | inl missing ↦ absurd (none-ne-some i (rw (other, missing) at e))
    | inr (j, found) ↦
        let cut = index_byte-Cut s c j found in
        let i' : suc j ≡ i = ground arith in
        let at = cut.place in
        record {
          before = x ∷ cut.before;
          after = cut.after;
          whole = ap (◌∷◌ x) cut.whole;
          first = (ground (arith, ==_iff x c), cut.first);
          place = omega arith;
        }
  ]
]

pub drop-append : (a b : Text) → drop (length a) (a ++ b) ≡ b
drop-append [] b = refl
drop-append (x ∷ a) b = drop-append a b

pub take-append : (a b : Text) → take (length a) (a ++ b) ≡ a
take-append [] b = refl
take-append (x ∷ a) b = ap (◌∷◌ x) (take-append a b)

pub drop-more : (a b : Text) (k n : ℕ) → length a + k ≡ n → drop n (a ++ b) ≡ drop k b
drop-more [] b k n e = let e' : k ≡ n = omega arith in rw e'
drop-more (x ∷ a) b k zero e = absurd (omega arith)
drop-more (x ∷ a) b k (suc n) e = drop-more a b k n (omega arith)
