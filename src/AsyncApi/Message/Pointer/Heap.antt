-- ===== src/AsyncApi/Message/Pointer/Heap.antt =====
-- The heap of messages: its pointers stay inside it, and its messages have JSON content types.
use agen.Prelude.{
  ℕ, zero, suc, ◌<◌, ◌≤◌, ◌≡◌, refl, true, List, [], ◌∷◌, ◌++◌, none, some, arith, if_both, length,
  length-append, length-set, get_elem?, set,
}
use agen.Prelude.Text.{Text, Map, lookup, insert, eq_text, is_empty}
use agen.AsyncApi.Message.{Message, is_json}
use agen.AsyncApi.Message.Pointer.{Store, alloc, cache, update, name_message}

-- Every pointer of the cache is below `n`.
unfoldable pub AllBelow : ℕ → Map ℕ → Type 0
AllBelow n [] = Unit
AllBelow n ((k, i) ∷ m) = (i < n) × AllBelow n m

-- Every pointer of a list is below `n`.
unfoldable pub AllInside : ℕ → List ℕ → Type 0
AllInside n [] = Unit
AllInside n (i ∷ is) = (i < n) × AllInside n is

pub AllBelow-mono : (n n' : ℕ) (m : Map ℕ) → n ≤ n' → AllBelow n m → AllBelow n' m
unfolding AllBelow
AllBelow-mono n n' [] h all = tt
AllBelow-mono n n' ((k, i) ∷ m) h (below, all) = (omega arith, AllBelow-mono n n' m h all)

pub AllBelow-insert :
    (n i : ℕ) (k : Text) (m : Map ℕ) → i < n → AllBelow n m → AllBelow n (insert k i m)
unfolding AllBelow insert
AllBelow-insert n i k [] h all = (h, tt)
AllBelow-insert n i k ((j, l) ∷ m) h (below, all) =
    if_both (AllBelow n) (eq_text j k) (λ _. (h, all)) (λ _. (below, AllBelow-insert n i k m h all))

pub AllBelow-lookup : (n i : ℕ) (k : Text) (m : Map ℕ) → lookup k m ≡ some i → AllBelow n m → i < n
unfolding AllBelow lookup
AllBelow-lookup n i k [] e all = cc
AllBelow-lookup n i k ((j, l) ∷ m) e (below, all) = ground (arith, AllBelow-lookup n i k m)

pub AllInside-mono : (n n' : ℕ) (is : List ℕ) → n ≤ n' → AllInside n is → AllInside n' is
unfolding AllInside
AllInside-mono n n' [] h all = tt
AllInside-mono n n' (i ∷ is) h (below, all) = (omega arith, AllInside-mono n n' is h all)

module _ {Binding Correlation Tag RawSchema Schema : Type 0} where
  -- Every message has a JSON content type.
  unfoldable pub AllJson : List (Message Binding Correlation Tag RawSchema Schema) → Type 0
  AllJson [] = Unit
  AllJson (m ∷ ms) = (is_json m.content_type_of ≡ true) × AllJson ms

  pub AllJson-append :
      (ms : List (Message Binding Correlation Tag RawSchema Schema))
      (m : Message Binding Correlation Tag RawSchema Schema)
      → AllJson ms
      → is_json m.content_type_of ≡ true
      → AllJson (ms ++ (m ∷ []))
  unfolding AllJson
  AllJson-append [] m all h = (h, tt)
  AllJson-append (x ∷ ms) m (first, all) h = (first, AllJson-append ms m all h)

  unfoldable pub IsWellFormed : Store (Message Binding Correlation Tag RawSchema Schema) → Type 0
  IsWellFormed st = AllBelow (length st.heap) st.cached × AllJson st.heap

  -- What a step that returns the pointer `i` leaves.
  unfoldable pub Grown :
      ℕ
      → Store (Message Binding Correlation Tag RawSchema Schema)
      → Store (Message Binding Correlation Tag RawSchema Schema)
      → Type 0
  Grown i st st' = IsWellFormed st' × (i < length st'.heap) × (length st.heap ≤ length st'.heap)

  unfoldable pub GrownAll :
      List ℕ
      → Store (Message Binding Correlation Tag RawSchema Schema)
      → Store (Message Binding Correlation Tag RawSchema Schema)
      → Type 0
  GrownAll is st st' =
      IsWellFormed st' × AllInside (length st'.heap) is × (length st.heap ≤ length st'.heap)

  pub alloc-Grown :
      (m : Message Binding Correlation Tag RawSchema Schema)
      (st : Store (Message Binding Correlation Tag RawSchema Schema))
      → is_json m.content_type_of ≡ true
      → IsWellFormed st
      → Grown (length st.heap) st (alloc m st).1
  unfolding Grown IsWellFormed alloc
  alloc-Grown m st h (below, all) =
      let longer = length-append st.heap (m ∷ []) in
      (
        (
          AllBelow-mono (length st.heap) _ st.cached (omega arith) below,
          AllJson-append st.heap m all h,
        ),
        omega arith,
        omega arith,
      )

  pub cache-Grown :
      (k : Text) (i : ℕ) (st st' : Store (Message Binding Correlation Tag RawSchema Schema))
      → Grown i st st'
      → Grown i st (cache k (i, st')).1
  unfolding Grown IsWellFormed cache
  cache-Grown k i st st' ((below, all), inside, longer) =
      ((AllBelow-insert (length st'.heap) i k st'.cached inside below, all), inside, longer)

  pub Grown-good :
      (i : ℕ) (st st' : Store (Message Binding Correlation Tag RawSchema Schema))
      → Grown i st st'
      → IsWellFormed st'
  unfolding Grown
  Grown-good i st st' grown = grown.0

  pub nil-GrownAll :
      (st : Store (Message Binding Correlation Tag RawSchema Schema))
      → IsWellFormed st
      → GrownAll [] st st
  unfolding GrownAll AllInside
  nil-GrownAll st good = (good, tt, omega arith)

  pub cons-GrownAll :
      (i : ℕ) (is : List ℕ) (st s st' : Store (Message Binding Correlation Tag RawSchema Schema))
      → Grown i st s
      → GrownAll is s st'
      → GrownAll (i ∷ is) st st'
  unfolding Grown GrownAll AllInside
  cons-GrownAll i is st s st' (_, inside, longer) (good, all, longer') =
      (good, (omega arith, all), omega arith)

  -- A message written through a pointer.
  AllJson-set :
      (ms : List (Message Binding Correlation Tag RawSchema Schema)) (i : ℕ)
      (m : Message Binding Correlation Tag RawSchema Schema)
      → AllJson ms
      → is_json m.content_type_of ≡ true
      → AllJson (set ms i m)
  unfolding AllJson
  AllJson-set [] i m all h = tt
  AllJson-set (x ∷ ms) zero m (first, all) h = (h, all)
  AllJson-set (x ∷ ms) (suc i) m (first, all) h = (first, AllJson-set ms i m all h)

  AllJson-get :
      (ms : List (Message Binding Correlation Tag RawSchema Schema)) (i : ℕ)
      (m : Message Binding Correlation Tag RawSchema Schema)
      → AllJson ms
      → get_elem? ms i ≡ some m
      → is_json m.content_type_of ≡ true
  unfolding AllJson
  AllJson-get [] i m all e = cc
  AllJson-get (x ∷ ms) zero m (first, all) e = ground arith
  AllJson-get (x ∷ ms) (suc i) m (first, all) e = AllJson-get ms i m all e

  name_message-json :
      (n : Text) (m : Message Binding Correlation Tag RawSchema Schema)
      → is_json m.content_type_of ≡ true
      → is_json (name_message n m).content_type_of ≡ true
  unfolding name_message
  name_message-json n m h =
      if_both
        (λ (x : Message Binding Correlation Tag RawSchema Schema). is_json x.content_type_of ≡ true)
        (is_empty m.spec_name) (λ _. h) (λ _. h)

  pub update-Grown :
      (n : Text) (i : ℕ) (st s : Store (Message Binding Correlation Tag RawSchema Schema))
      → Grown i st s
      → Grown i st (update i (name_message n) s)
  unfolding update Grown IsWellFormed
  update-Grown n i st s ((below, all), inside, longer) =
      elim (get_elem? s.heap i)
          as (λ o.
            get_elem? s.heap i ≡ o
            → Grown i st (elim o [
              | none ↦ s
              | some m ↦ record { heap = set s.heap i (name_message n m); cached = s.cached }
            ])) [
              | none ↦ λ e. ((below, all), inside, longer)
              | some m ↦ λ e.
                  let same = length-set s.heap i (name_message n m) in
                  (
                    (
                      AllBelow-mono (length s.heap) _ s.cached (omega (arith, same)) below,
                      AllJson-set s.heap i _ all
                          (name_message-json n m (AllJson-get s.heap i m all e)),
                    ),
                    omega (arith, same),
                    omega (arith, same),
                  )
            ]
        refl
