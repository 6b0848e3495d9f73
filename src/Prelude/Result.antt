-- ===== src/Prelude/Result.antt =====
-- The results of fallible code: a value, or an error of type `E`.
use mathlib.Core.Path.{subst}
use agen.Prelude.{◌≡◌, refl, Bool, true, false}

pub data Result {ℓ} (E : Type 0) (A : Type ℓ) : Type ℓ where
  ok : A → Result E A
  err : E → Result E A

module _ {E : Type 0} where
  infixl 5 ◌>>=◌ ◌>>◌
  -- Opens everywhere, so that a block computes as far as its steps do.
  abbrev pub ◌>>=◌ {ℓ κ} : {A : Type ℓ} {B : Type κ} → Result E A → (A → Result E B) → Result E B
  ◌>>=◌ (err e) next = err e
  ◌>>=◌ (ok a) next = next a

  abbrev pub ◌>>◌ {ℓ} : {B : Type ℓ} → Result E (Unit {0}) → Result E B → Result E B
  first >> second = first >>= λ _. second

  -- `if b { return err }`
  abbrev pub reject : Bool → E → Result E (Unit {0})
  reject false e = ok tt
  reject true e = err e

  -- What a block that succeeds has gone through.
  pub bind-ok {ℓ κ} :
      {A : Type ℓ} {B : Type κ} (step : Result E A) (next : A → Result E B) {b : B}
      → (step >>= next) ≡ ok b
      → (a : A) × (step ≡ ok a) × (next a ≡ ok b)
  bind-ok (err e) next done = cc
  bind-ok (ok a) next done = (a, refl, done)

  pub reject-ok : (b : Bool) (e : E) → reject b e ≡ ok tt → b ≡ false
  reject-ok true e h = cc
  reject-ok false e h = refl

  pub reject-bind {ℓ} :
      {A : Type ℓ} (b : Bool) (e : E) (next : Result E A) {a : A}
      → (reject b e >>= λ _. next) ≡ ok a
      → (b ≡ false) × (next ≡ ok a)
  reject-bind true e next h = cc
  reject-bind false e next h = (refl, h)

  -- What holds of the value that a block returns holds of its result.
  pub ok-subst {ℓ κ} :
      {A : Type ℓ} (P : A → Type κ) {a b : A} → ◌≡◌ {A = Result E A} (ok a) (ok b) → P a → P b
  ok-subst P {a = a} {b = b} same p = let e : a ≡ b = cc in subst P e p
