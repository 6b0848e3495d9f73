-- ===== src/AsyncApi/Message/Pointer/Sharing.antt =====
-- A message that has been parsed is shared by all references to it.
use agen.Prelude.{
  ℕ, zero, suc, ◌≡◌, ◌⊎◌, refl, sym, ◌∙◌, Bool, true, false, not, Option, none, some, arith,
  if_both, if◌then◌else◌, length,
}
use mathlib.Core.Option.{none-ne-some}
use agen.Prelude.Result.{ok, err, ◌>>=◌, bind-ok}
use agen.Prelude.Text.{Text, lookup, lookup-insert, eq_text_iff, is_empty}
use agen.AsyncApi.{Parsed, cannot_resolve, cannot_decode, or_err}
use agen.AsyncApi.Message.{MessageRef, Reader, parse_message}
use agen.AsyncApi.Message.Pointer.{
  Store, alloc, cache, Stored, ptr_last_segment, follow_message, load_message, cached_message,
  parse_message_pointer,
}

-- The cache of `st'` is that of `st`, but for entries `i`.
Adds : {M : Type 0} → ℕ → Store M → Store M → Type 0
Adds i st st' =
    (k : Text) → (lookup k st'.cached ≡ lookup k st.cached) ⊎ (lookup k st'.cached ≡ some i)

-- What a message that is parsed, stored and cached leaves.
saved-Adds :
    {M : Type 0} (step : Parsed M) (k : Text) (st st' : Store M) (i : ℕ)
    → (step >>= λ m. ok (cache k (alloc m st))) ≡ ok (i, st')
    → Adds i st st'
unfolding Adds cache alloc
saved-Adds (err e) k st st' i h j = cc
saved-Adds (ok m) k st st' i h j = ground (arith, lookup-insert k j (length st.heap) st.cached)

saved-hit :
    {M : Type 0} (step : Parsed M) (k : Text) (st st' : Store M) (i : ℕ)
    → (step >>= λ m. ok (cache k (alloc m st))) ≡ ok (i, st')
    → lookup k st'.cached ≡ some i
unfolding cache alloc
saved-hit (err e) k st st' i h = cc
saved-hit (ok m) k st st' i h =
    ground (arith, lookup-insert k k (length st.heap) st.cached, eq_text_iff k k)

-- A conditional with the same test in two states.
if_again {ℓ} :
    {A : Type ℓ} (b : Bool) {x x' y y' r : A}
    → (x ≡ r → x' ≡ r)
    → (y ≡ r → y' ≡ r)
    → (if b then x else y) ≡ r
    → (if b then x' else y') ≡ r
if_again true yes_case no_case h = yes_case h
if_again false yes_case no_case h = no_case h

module _ {Binding Correlation Tag RawSchema Schema : Type 0}
    (w : Reader Binding Correlation Tag RawSchema Schema) where
  open w use {pointers, decode_message}
  open pointers use {Ctx, Key, key, add_key, ptr, resolve}

  abbrev Next : Type 0
  Next = Ctx → Text → Stored w → Parsed (ℕ × Stored w)

  follow-Adds :
      (next : Next)
      → ((c : Ctx) (r : Text) (s s' : Stored w) (i : ℕ) → next c r s ≡ ok (i, s') → Adds i s s')
      → (ctx : Ctx) (k : Text) (raw : MessageRef Binding Correlation Tag RawSchema Schema)
        (st st' : Stored w) (i : ℕ)
      → follow_message w next ctx k raw st ≡ ok (i, st')
      → Adds i st st'
  unfolding follow_message
  follow-Adds next adds ctx k raw st st' i =
      if_both (λ r. r ≡ ok (i, st') → Adds i st st') (not (is_empty raw.ref))
        (λ _ h. adds ctx raw.ref st st' i h)
        (λ _ h. saved-Adds (parse_message w ctx (ptr_last_segment k) raw.message) k st st' i h)

  load-Adds :
      (next : Next)
      → ((c : Ctx) (r : Text) (s s' : Stored w) (i : ℕ) → next c r s ≡ ok (i, s') → Adds i s s')
      → (ctx : Ctx) (ref : Text) (k : Key) (st st' : Stored w) (i : ℕ)
      → load_message w next ctx ref k st ≡ ok (i, st')
      → Adds i st st'
  unfolding load_message
  load-Adds next adds ctx ref k st st' i h =
      let (inner, _, h₁) = bind-ok (or_err (cannot_resolve ref) (add_key ctx k)) _ h in
      let (node, _, h₂) = bind-ok (or_err (cannot_resolve ref) (resolve (ptr k))) _ h₁ in
      let (raw, _, h₃) = bind-ok (or_err (cannot_decode ref) (decode_message node)) _ h₂ in
      follow-Adds next adds inner (ptr k) raw st st' i h₃

  cached-Adds :
      (next : Next)
      → ((c : Ctx) (r : Text) (s s' : Stored w) (i : ℕ) → next c r s ≡ ok (i, s') → Adds i s s')
      → (ctx : Ctx) (ref : Text) (k : Key) (st st' : Stored w) (i : ℕ) (o : Option ℕ)
      → cached_message w next ctx ref k st o ≡ ok (i, st')
      → Adds i st st'
  unfolding cached_message Adds
  cached-Adds next adds ctx ref k st st' i (some j) h = λ l. ground arith
  cached-Adds next adds ctx ref k st st' i none h = load-Adds next adds ctx ref k st st' i h

  pointer-Adds :
      (n : ℕ) (ctx : Ctx) (ref : Text) (st st' : Stored w) (i : ℕ)
      → parse_message_pointer w n ctx ref st ≡ ok (i, st')
      → Adds i st st'
  unfolding parse_message_pointer
  pointer-Adds zero ctx ref st st' i h = cc
  pointer-Adds (suc n) ctx ref st st' i h =
      let (k, _, h₁) = bind-ok (or_err (cannot_resolve ref) (key ctx ref)) _ h in
      cached-Adds (λ c r s. parse_message_pointer w n c r s)
        (λ c r s s' j. pointer-Adds n c r s s' j) ctx ref k st st' i (lookup (ptr k) st.cached) h₁

  follow-again :
      (next : Next)
      → ((c : Ctx) (r : Text) (s s' : Stored w) (i : ℕ)
          → next c r s ≡ ok (i, s')
          → next c r s' ≡ ok (i, s'))
      → (ctx : Ctx) (k : Text) (raw : MessageRef Binding Correlation Tag RawSchema Schema)
        (st st' : Stored w) (i : ℕ)
      → lookup k st'.cached ≡ none
      → follow_message w next ctx k raw st ≡ ok (i, st')
      → follow_message w next ctx k raw st' ≡ ok (i, st')
  unfolding follow_message
  follow-again next again ctx k raw st st' i miss =
      let step = parse_message w ctx (ptr_last_segment k) raw.message in
      if_again (not (is_empty raw.ref)) (again ctx raw.ref st st' i)
        (λ h. absurd (none-ne-some i (sym miss ∙ saved-hit step k st st' i h)))

  load-again :
      (next : Next)
      → ((c : Ctx) (r : Text) (s s' : Stored w) (i : ℕ)
          → next c r s ≡ ok (i, s')
          → next c r s' ≡ ok (i, s'))
      → (ctx : Ctx) (ref : Text) (k : Key) (st st' : Stored w) (i : ℕ)
      → lookup (ptr k) st'.cached ≡ none
      → load_message w next ctx ref k st ≡ ok (i, st')
      → load_message w next ctx ref k st' ≡ ok (i, st')
  unfolding load_message
  load-again next again ctx ref k st st' i miss h =
      let (inner, e₁, h₁) = bind-ok (or_err (cannot_resolve ref) (add_key ctx k)) _ h in
      let (node, e₂, h₂) = bind-ok (or_err (cannot_resolve ref) (resolve (ptr k))) _ h₁ in
      let (raw, e₃, h₃) = bind-ok (or_err (cannot_decode ref) (decode_message node)) _ h₂ in
      rw (e₁, e₂, e₃, follow-again next again inner (ptr k) raw st st' i miss h₃)

  cached-again :
      (next : Next)
      → ((c : Ctx) (r : Text) (s s' : Stored w) (i : ℕ)
          → next c r s ≡ ok (i, s')
          → next c r s' ≡ ok (i, s'))
      → (ctx : Ctx) (ref : Text) (k : Key) (st st' : Stored w) (i : ℕ) (o o' : Option ℕ)
      → o ≡ lookup (ptr k) st.cached
      → o' ≡ lookup (ptr k) st'.cached
      → Adds i st st'
      → cached_message w next ctx ref k st o ≡ ok (i, st')
      → cached_message w next ctx ref k st' o' ≡ ok (i, st')
  unfolding cached_message Adds
  cached-again next again ctx ref k st st' i (some j) (some j') e e' adds h = ground arith
  cached-again next again ctx ref k st st' i (some j) none e e' adds h = ground arith
  cached-again next again ctx ref k st st' i none (some j) e e' adds h =
      ground (arith, adds (ptr k))
  cached-again next again ctx ref k st st' i none none e e' adds h =
      load-again next again ctx ref k st st' i (sym e') h

  -- If a reference to a message is parsed, with any fuel and whatever messages are there, then parsing
  -- it again gives the same pointer, and neither stores nor caches anything.
  pub parse_message_pointer-again :
      (n : ℕ) (ctx : Ctx) (ref : Text) (st st' : Stored w) (i : ℕ)
      → parse_message_pointer w n ctx ref st ≡ ok (i, st')
      → parse_message_pointer w n ctx ref st' ≡ ok (i, st')
  unfolding parse_message_pointer
  parse_message_pointer-again zero ctx ref st st' i h = cc
  parse_message_pointer-again (suc n) ctx ref st st' i h =
      let (k, e, h₁) = bind-ok (or_err (cannot_resolve ref) (key ctx ref)) _ h in
      rw (
        e,
        cached-again (λ c r s. parse_message_pointer w n c r s)
            (λ c r s s' j. parse_message_pointer-again n c r s s' j) ctx ref k st st' i
            (lookup (ptr k) st.cached) (lookup (ptr k) st'.cached) refl refl
            (pointer-Adds (suc n) ctx ref st st' i h) h₁,
      )
