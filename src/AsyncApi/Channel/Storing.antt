-- ===== src/AsyncApi/Channel/Storing.antt =====
-- The stores of the parser: what is stored stays, and the cached pointers stay inside the heap.
use agen.Prelude.{
  ℕ, zero, suc, ◌<◌, ◌≤◌, ◌≡◌, refl, List, [], ◌∷◌, ◌++◌, Option, none, some, arith, not, length,
  length-append, length-set, get_elem?, set, if_both,
}
use mathlib.Core.Path.{subst}
use agen.Prelude.Result.{ok, bind-ok}
use agen.Prelude.Text.{Text, lookup, is_empty}
use agen.AsyncApi.{Parsed, Pointers, cannot_resolve, cannot_decode, or_err}
use agen.AsyncApi.Message.Pointer.{Store, alloc, cache, update, ptr_last_segment}
use agen.AsyncApi.Message.Pointer.Heap.{AllBelow, AllBelow-mono, AllBelow-insert, AllBelow-lookup}
use agen.AsyncApi.Channel.{
  RawParameter, ParameterRef, Parameter, parameter_from, rename, load_parameter, cached_parameter,
  parse_parameter_pointer, parse_parameter,
}

pub get_elem?-append {ℓ} :
    {A : Type ℓ} (xs ys : List A) (i : ℕ) (a : A)
    → get_elem? xs i ≡ some a
    → get_elem? (xs ++ ys) i ≡ some a
get_elem?-append [] ys i a h = cc
get_elem?-append (x ∷ xs) ys zero a h = h
get_elem?-append (x ∷ xs) ys (suc i) a h = get_elem?-append xs ys i a h

pub get_elem?-last {ℓ} :
    {A : Type ℓ} (xs : List A) (a : A) → get_elem? (xs ++ (a ∷ [])) (length xs) ≡ some a
get_elem?-last [] a = refl
get_elem?-last (x ∷ xs) a = get_elem?-last xs a

pub get_elem?-set_at {ℓ} :
    {A : Type ℓ} (xs : List A) (i : ℕ) (a v : A)
    → get_elem? xs i ≡ some a
    → get_elem? (set xs i v) i ≡ some v
get_elem?-set_at [] i a v h = cc
get_elem?-set_at (x ∷ xs) zero a v h = refl
get_elem?-set_at (x ∷ xs) (suc i) a v h = get_elem?-set_at xs i a v h

pub get_elem?-below {ℓ} :
    {A : Type ℓ} (xs : List A) (i : ℕ) → i < length xs → (a : A) × (get_elem? xs i ≡ some a)
get_elem?-below [] i h = absurd (omega arith)
get_elem?-below (x ∷ xs) zero h = (x, refl)
get_elem?-below (x ∷ xs) (suc i) h = get_elem?-below xs i (omega arith)

module _ {M : Type 0} where
  -- Every cached pointer is a place of the heap.
  abbrev pub IsInside : Store M → Type 0
  IsInside st = AllBelow (length st.heap) st.cached

  -- What a step that returns the pointer `i` leaves of a store.
  unfoldable pub Steps : ℕ → Store M → Store M → Type 0
  Steps i st st' = IsInside st' × (i < length st'.heap) × (length st.heap ≤ length st'.heap)

  pub alloc-Steps : (m : M) (st : Store M) → IsInside st → Steps (length st.heap) st (alloc m st).1
  unfolding Steps alloc
  alloc-Steps m st inside =
      let longer = length-append st.heap (m ∷ []) in
      (
        AllBelow-mono (length st.heap) (length (st.heap ++ (m ∷ []))) st.cached (omega arith)
            inside,
        omega arith,
        omega arith,
      )

  pub cache-Steps :
      (k : Text) (i : ℕ) (st st' : Store M) → Steps i st st' → Steps i st (cache k (i, st')).1
  unfolding Steps cache
  cache-Steps k i st st' (inside, below, longer) =
      (AllBelow-insert (length st'.heap) i k st'.cached below inside, below, longer)

  pub update-Steps :
      (j i : ℕ) (f : M → M) (st st' : Store M) → Steps i st st' → Steps i st (update j f st')
  unfolding Steps update
  update-Steps j i f st st' (inside, below, longer) =
      elim (get_elem? st'.heap j)
        as (λ o. Steps i st (elim o [
          | none ↦ st'
          | some m ↦ record { heap = set st'.heap j (f m); cached = st'.cached }
        ])) [
          | none ↦ (inside, below, longer)
          | some m ↦
              let same = length-set st'.heap j (f m) in
              (
                AllBelow-mono (length st'.heap) (length (set st'.heap j (f m))) st'.cached
                    (omega arith) inside,
                omega arith,
                omega arith,
              )
        ]

module _ {M : Type 0} where
  pair_Steps :
      (j i : ℕ) (st s s' : Store M)
      → Steps j st s
      → ◌≡◌ {A = Parsed (ℕ × Store M)} (ok (j, s)) (ok (i, s'))
      → Steps i st s'
  pair_Steps j i st s s' steps e =
      let same : j ≡ i = ground arith in
      let store : s ≡ s' = ground arith in
      subst (λ x. Steps i st x) store (subst (λ x. Steps x st s) same steps)

module _ (p : Pointers) (decode : p.Node → Option RawParameter) where
  open p use {Ctx, Key, key, add_key, ptr, resolve}

  load_parameter-Steps :
      (ctx : Ctx) (ref : Text) (k : Key) (st st' : Store Parameter) (i : ℕ)
      → IsInside st
      → load_parameter p decode ctx ref k st ≡ ok (i, st')
      → Steps i st st'
  unfolding load_parameter
  load_parameter-Steps ctx ref k st st' i inside h =
      let (inner, _, h₁) = bind-ok (or_err (cannot_resolve ref) (add_key ctx k)) _ h in
      let (node, _, h₂) = bind-ok (or_err (cannot_resolve ref) (resolve (ptr k))) _ h₁ in
      let (raw, _, h₃) = bind-ok (or_err (cannot_decode ref) (decode node)) _ h₂ in
      let m = parameter_from (ptr_last_segment (ptr k)) raw in
      pair_Steps (length st.heap) i st (cache (ptr k) (alloc m st)).1 st'
        (cache-Steps (ptr k) (length st.heap) st (alloc m st).1 (alloc-Steps m st inside)) h₃

  cached_parameter-Steps :
      (ctx : Ctx) (ref : Text) (k : Key) (st st' : Store Parameter) (i : ℕ) (o : Option ℕ)
      → lookup (ptr k) st.cached ≡ o
      → IsInside st
      → cached_parameter p decode ctx ref k st o ≡ ok (i, st')
      → Steps i st st'
  unfolding cached_parameter
  cached_parameter-Steps ctx ref k st st' i (some j) e inside h =
      pair_Steps j i st st st'
        (unfold Steps in
          (inside, AllBelow-lookup (length st.heap) j (ptr k) st.cached e inside, omega arith))
        h
  cached_parameter-Steps ctx ref k st st' i none e inside h =
      load_parameter-Steps ctx ref k st st' i inside h

  parse_parameter_pointer-Steps :
      (ctx : Ctx) (ref : Text) (st st' : Store Parameter) (i : ℕ)
      → IsInside st
      → parse_parameter_pointer p decode ctx ref st ≡ ok (i, st')
      → Steps i st st'
  unfolding parse_parameter_pointer
  parse_parameter_pointer-Steps ctx ref st st' i inside h =
      let (k, _, h₁) = bind-ok (or_err (cannot_resolve ref) (key ctx ref)) _ h in
      cached_parameter-Steps ctx ref k st st' i (lookup (ptr k) st.cached) refl inside h₁

  pub parse_parameter-Steps :
      (ctx : Ctx) (name : Text) (pref : ParameterRef) (st st' : Store Parameter) (i : ℕ)
      → IsInside st
      → parse_parameter p decode ctx name pref st ≡ ok (i, st')
      → Steps i st st'
  unfolding parse_parameter
  parse_parameter-Steps ctx name pref st st' i inside =
      if_both (λ r. r ≡ ok (i, st') → Steps i st st') (not (is_empty pref.ref))
        (λ _ h.
          let ((j, s), e, h₁) = bind-ok (parse_parameter_pointer p decode ctx pref.ref st) _ h in
          pair_Steps j i st (update j (rename name) s) st'
            (update-Steps j j (rename name) st s
              (parse_parameter_pointer-Steps ctx pref.ref st s j inside e))
            h₁)
        (λ _ h.
          let m = parameter_from name pref.parameter in
          pair_Steps (length st.heap) i st (alloc m st).1 st' (alloc-Steps m st inside) h)
