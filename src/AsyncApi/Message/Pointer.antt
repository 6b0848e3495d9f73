-- ===== src/AsyncApi/Message/Pointer.antt =====
-- asyncapi/parser/parse_operation.go: references to messages, with the cache of the parsed messages.
--
-- A `*Message` is its place in the heap, since the code shares messages and renames them through a
-- pointer. Fuel bounds the chain of references that is followed: a key that a chain has met is refused
-- by `AddKey`, and so is one above the depth limit.
pub mod Sharing
pub mod Staying
pub mod Listed
pub mod Fuel
pub mod Heap
pub mod Sorting
pub mod WellFormed
use agen.Prelude.{
  ℕ, zero, suc, Bool, true, false, not, List, [], ◌∷◌, ◌++◌, Option, none, some, if◌then◌else◌,
  length, get_elem?, set, ltb, ◌==◌, ◌||◌, ◌&&◌,
}
use agen.Prelude.Result.{ok, err, ◌>>=◌, ◌>>◌}
use agen.Prelude.Text.{Text, Map, is_empty, lookup, insert}
use agen.AsyncApi.{Parsed, cannot_resolve, cannot_decode, out_of_fuel, or_err}
use agen.AsyncApi.Message.{MessageRef, Message, Reader, parse_message}

-- `ptrLastSegment`: behind the last slash.
unfoldable pub segment_from : Text → Text → Text
segment_from segment [] = segment
segment_from segment (c ∷ ptr) = if c == 47 then segment_from ptr ptr else segment_from segment ptr

unfoldable pub ptr_last_segment : Text → Text
unfolding segment_from
ptr_last_segment ptr = segment_from ptr ptr

-- `sortedKeys`, with the values: strings are ordered by their bytes.
unfoldable pub leb_text : Text → Text → Bool
leb_text [] t = true
leb_text (x ∷ s) [] = false
leb_text (x ∷ s) (y ∷ t) = ltb x y || x == y && leb_text s t

unfoldable pub insert_sorted {ℓ} : {V : Type ℓ} → Text → V → Map V → Map V
unfolding leb_text
insert_sorted k v [] = (k, v) ∷ []
insert_sorted k v ((j, u) ∷ m) =
    if leb_text k j then (k, v) ∷ (j, u) ∷ m else (j, u) ∷ insert_sorted k v m

unfoldable pub sorted_entries {ℓ} : {V : Type ℓ} → Map V → Map V
unfolding insert_sorted
sorted_entries [] = []
sorted_entries ((k, v) ∷ m) = insert_sorted k v (sorted_entries m)

-- The part of the parser's state that is about messages.
pub record Store (M : Type 0) : Type 0 where
  pub heap : List M
  pub cached : Map ℕ

module _ {M : Type 0} where
  -- `&Message{…}`
  unfoldable pub alloc : M → Store M → ℕ × Store M
  alloc m st = (length st.heap, record { heap = st.heap ++ (m ∷ []); cached = st.cached })

  -- `p.messages[key.Ptr] = semantic`
  unfoldable pub cache : Text → ℕ × Store M → ℕ × Store M
  unfolding insert
  cache k (i, st) = (i, record { heap = st.heap; cached = insert k i st.cached })

  -- Writes through the pointer `i`.
  unfoldable pub update : ℕ → (M → M) → Store M → Store M
  update i f st = elim (get_elem? st.heap i) [
    | none ↦ st
    | some m ↦ record { heap = set st.heap i (f m); cached = st.cached }
  ]

module _ {Binding Correlation Tag RawSchema Schema : Type 0} where
  -- The message that a map holds under `n`.
  unfoldable pub name_message :
      Text
      → Message Binding Correlation Tag RawSchema Schema
      → Message Binding Correlation Tag RawSchema Schema
  name_message n m =
      if is_empty m.spec_name
      then record {
        spec_name = n;
        name_of = if is_empty m.name_of then n else m.name_of;
        title_of = m.title_of;
        summary_of = m.summary_of;
        description_of = m.description_of;
        content_type_of = m.content_type_of;
        bindings_of = m.bindings_of;
        tags_of = m.tags_of;
        payload_of = m.payload_of;
        headers_of = m.headers_of;
        correlation_id = m.correlation_id;
      }
      else m

  module _ (w : Reader Binding Correlation Tag RawSchema Schema) where
    open w use {pointers, decode_message}
    open pointers use {Ctx, Key, key, add_key, ptr, resolve}

    abbrev pub Stored : Type 0
    Stored = Store (Message Binding Correlation Tag RawSchema Schema)

    -- Behind the decoding; `next` parses the pointer that a reference to a reference goes on with.
    unfoldable pub follow_message :
        (Ctx → Text → Stored → Parsed (ℕ × Stored))
        → Ctx
        → Text
        → MessageRef Binding Correlation Tag RawSchema Schema
        → Stored
        → Parsed (ℕ × Stored)
    unfolding ptr_last_segment alloc cache parse_message
    follow_message next ctx k raw st =
        if not (is_empty raw.ref)
        then next ctx raw.ref st
        else (parse_message w ctx (ptr_last_segment k) raw.message >>= λ m.
            ok (cache k (alloc m st)))

    unfoldable pub load_message :
        (Ctx → Text → Stored → Parsed (ℕ × Stored))
        → Ctx
        → Text
        → Key
        → Stored
        → Parsed (ℕ × Stored)
    unfolding or_err follow_message
    load_message next ctx ref k st = do
      inner ← or_err (cannot_resolve ref) (add_key ctx k)
      node ← or_err (cannot_resolve ref) (resolve (ptr k))
      raw ← or_err (cannot_decode ref) (decode_message node)
      follow_message next inner (ptr k) raw st

    unfoldable pub cached_message :
        (Ctx → Text → Stored → Parsed (ℕ × Stored))
        → Ctx
        → Text
        → Key
        → Stored
        → Option ℕ
        → Parsed (ℕ × Stored)
    unfolding load_message
    cached_message next ctx ref k st (some i) = ok (i, st)
    cached_message next ctx ref k st none = load_message next ctx ref k st

    unfoldable pub parse_message_pointer : ℕ → Ctx → Text → Stored → Parsed (ℕ × Stored)
    unfolding or_err cached_message lookup
    parse_message_pointer zero ctx ref st = err out_of_fuel
    parse_message_pointer (suc n) ctx ref st = do
      k ← or_err (cannot_resolve ref) (key ctx ref)
      cached_message (λ c r s. parse_message_pointer n c r s) ctx ref k st
          (lookup (ptr k) st.cached)

    unfoldable pub parse_message_ref :
        ℕ → Ctx → MessageRef Binding Correlation Tag RawSchema Schema → Stored → Parsed (ℕ × Stored)
    unfolding parse_message_pointer parse_message alloc
    parse_message_ref n ctx ref st =
        if not (is_empty ref.ref)
        then parse_message_pointer n ctx ref.ref st
        else (parse_message w ctx [] ref.message >>= λ m. ok (alloc m st))

    -- A nil reference is skipped.
    unfoldable pub parse_messages_list :
        ℕ
        → Ctx
        → List (Option (MessageRef Binding Correlation Tag RawSchema Schema))
        → Stored
        → Parsed (List ℕ × Stored)
    unfolding parse_message_ref
    parse_messages_list n ctx [] st = ok ([], st)
    parse_messages_list n ctx (none ∷ refs) st = parse_messages_list n ctx refs st
    parse_messages_list n ctx (some ref ∷ refs) st = do
      first ← parse_message_ref n ctx ref st
      rest ← parse_messages_list n ctx refs (first.1)
      ok (first.0 ∷ rest.0, rest.1)

    unfoldable pub parse_entries :
        ℕ
        → Ctx
        → Map (Option (MessageRef Binding Correlation Tag RawSchema Schema))
        → Stored
        → Parsed (List ℕ × Stored)
    unfolding parse_message_ref update name_message
    parse_entries n ctx [] st = ok ([], st)
    parse_entries n ctx ((k, none) ∷ refs) st = parse_entries n ctx refs st
    parse_entries n ctx ((k, some ref) ∷ refs) st = do
      first ← parse_message_ref n ctx ref st
      rest ← parse_entries n ctx refs (update (first.0) (name_message k) (first.1))
      ok (first.0 ∷ rest.0, rest.1)

    unfoldable pub parse_messages_map :
        ℕ
        → Ctx
        → Map (Option (MessageRef Binding Correlation Tag RawSchema Schema))
        → Stored
        → Parsed (List ℕ × Stored)
    unfolding parse_entries sorted_entries
    parse_messages_map n ctx refs st = parse_entries n ctx (sorted_entries refs) st
