-- ===== src/AsyncApi/Message/Pointer/WellFormed.antt =====
-- Parsing references to messages keeps the heap and the cache well formed.
use mathlib.Core.Path.{subst}
use agen.Prelude.{
  ℕ, zero, suc, ◌≡◌, refl, true, not, List, [], ◌∷◌, Option, none, some, arith, if_both, length,
}
use agen.Prelude.Result.{ok, err, ◌>>=◌, bind-ok}
use agen.Prelude.Text.{Text, Map, lookup, is_empty}
use agen.AsyncApi.{Parsed, cannot_resolve, cannot_decode, or_err}
use agen.AsyncApi.Message.{Message, MessageRef, RawMessage, Reader, is_json, parse_message}
use agen.AsyncApi.Message.Content.{IsMessage, parse_message-IsMessage}
use agen.AsyncApi.Message.Pointer.{
  alloc, cache, update, Stored, ptr_last_segment, follow_message, load_message, cached_message,
  parse_message_pointer, parse_message_ref, parse_messages_list, name_message, parse_entries,
  sorted_entries, parse_messages_map,
}
use agen.AsyncApi.Message.Pointer.Heap.{
  IsWellFormed, Grown, GrownAll, AllBelow-lookup, alloc-Grown, cache-Grown, Grown-good,
  nil-GrownAll, cons-GrownAll, update-Grown,
}

module _ {Binding Correlation Tag RawSchema Schema : Type 0} where
  module _ (w : Reader Binding Correlation Tag RawSchema Schema) where
    open w use {pointers, decode_message}
    open pointers use {Ctx, Key, key, add_key, ptr, resolve}

    parsed-json :
        (ctx : Ctx) (n : Text) (raw : RawMessage Binding Correlation Tag RawSchema Schema)
        (m : Message Binding Correlation Tag RawSchema Schema)
        → parse_message w ctx n raw ≡ ok m
        → is_json m.content_type_of ≡ true
    unfolding IsMessage
    parsed-json ctx n raw m h = (parse_message-IsMessage w ctx n raw m h).1

    -- A step keeps the store well formed, and returns a pointer into the heap.
    Grows : (st : Stored w) → Parsed (ℕ × Stored w) → Type 0
    Grows st r = (i : ℕ) (st' : Stored w) → r ≡ ok (i, st') → Grown i st st'

    ok-Grows : (st st' : Stored w) (i : ℕ) → Grown i st st' → Grows st (ok (i, st'))
    unfolding Grows
    ok-Grows st st' i grown j s e =
        let same : i ≡ j = ground arith in
        let store : st' ≡ s = ground arith in
        subst (λ x. Grown x st s) same (subst (λ x. Grown i st x) store grown)

    bind-Grows :
        {A : Type 0} (st : Stored w) (step : Parsed A) (next : A → Parsed (ℕ × Stored w))
        → ((a : A) → step ≡ ok a → Grows st (next a))
        → Grows st (step >>= next)
    unfolding Grows
    bind-Grows st (ok a) next h i st' p = h a refl i st' p
    bind-Grows st (err e) next h i st' p = cc

    follow-Grows :
        (next : Ctx → Text → Stored w → Parsed (ℕ × Stored w))
        → ((c : Ctx) (r : Text) (s : Stored w) → IsWellFormed s → Grows s (next c r s))
        → (ctx : Ctx) (k : Text) (raw : MessageRef Binding Correlation Tag RawSchema Schema)
          (st : Stored w)
        → IsWellFormed st
        → Grows st (follow_message w next ctx k raw st)
    unfolding follow_message
    follow-Grows next grows ctx k raw st good =
        if_both (Grows st) (not (is_empty raw.ref)) (λ _. grows ctx raw.ref st good)
          (λ _. bind-Grows st (parse_message w ctx (ptr_last_segment k) raw.message) _ (λ m e.
            ok-Grows st (cache k (alloc m st)).1 (length st.heap) (
              cache-Grown k (length st.heap) st (alloc m st).1
                (alloc-Grown m st (parsed-json ctx (ptr_last_segment k) raw.message m e) good))))

    load-Grows :
        (next : Ctx → Text → Stored w → Parsed (ℕ × Stored w))
        → ((c : Ctx) (r : Text) (s : Stored w) → IsWellFormed s → Grows s (next c r s))
        → (ctx : Ctx) (ref : Text) (k : Key) (st : Stored w) → IsWellFormed st
        → Grows st (load_message w next ctx ref k st)
    unfolding load_message
    load-Grows next grows ctx ref k st good =
        bind-Grows st (or_err (cannot_resolve ref) (add_key ctx k)) _ (λ inner _.
          bind-Grows st (or_err (cannot_resolve ref) (resolve (ptr k))) _ (λ node _.
            bind-Grows st (or_err (cannot_decode ref) (decode_message node)) _
              (λ raw _. follow-Grows next grows inner (ptr k) raw st good)))

    cached-Grows :
        (next : Ctx → Text → Stored w → Parsed (ℕ × Stored w))
        → ((c : Ctx) (r : Text) (s : Stored w) → IsWellFormed s → Grows s (next c r s))
        → (ctx : Ctx) (ref : Text) (k : Key) (st : Stored w) (o : Option ℕ)
        → lookup (ptr k) st.cached ≡ o
        → IsWellFormed st
        → Grows st (cached_message w next ctx ref k st o)
    unfolding cached_message IsWellFormed Grown
    cached-Grows next grows ctx ref k st (some i) e (below, all) =
        ok-Grows st st i
          ((below, all), AllBelow-lookup (length st.heap) i (ptr k) st.cached e below, omega arith)
    cached-Grows next grows ctx ref k st none e good = load-Grows next grows ctx ref k st good

    pointer-Grows :
        (n : ℕ) (ctx : Ctx) (ref : Text) (st : Stored w)
        → IsWellFormed st
        → Grows st (parse_message_pointer w n ctx ref st)
    unfolding parse_message_pointer Grows
    pointer-Grows zero ctx ref st good i st' h = cc
    pointer-Grows (suc n) ctx ref st good i st' h =
        bind-Grows st (or_err (cannot_resolve ref) (key ctx ref)) _
          (λ k _.
            cached-Grows (λ c r s. parse_message_pointer w n c r s)
              (λ c r s ok_s. pointer-Grows n c r s ok_s) ctx ref k st (lookup (ptr k) st.cached)
              refl good)
          i st' h

    ref-Grows :
        (n : ℕ) (ctx : Ctx) (ref : MessageRef Binding Correlation Tag RawSchema Schema)
        (st : Stored w)
        → IsWellFormed st
        → Grows st (parse_message_ref w n ctx ref st)
    unfolding parse_message_ref
    ref-Grows n ctx ref st good =
        if_both (Grows st) (not (is_empty ref.ref)) (λ _. pointer-Grows n ctx ref.ref st good)
          (λ _. bind-Grows st (parse_message w ctx [] ref.message) _ (λ m e.
            ok-Grows st (alloc m st).1 (length st.heap)
              (alloc-Grown m st (parsed-json ctx [] ref.message m e) good)))

    parse_message_ref-Grown :
        (n : ℕ) (ctx : Ctx) (ref : MessageRef Binding Correlation Tag RawSchema Schema)
        (st : Stored w)
        → IsWellFormed st
        → (i : ℕ) (st' : Stored w) → parse_message_ref w n ctx ref st ≡ ok (i, st')
        → Grown i st st'
    unfolding Grows
    parse_message_ref-Grown n ctx ref st good = ref-Grows n ctx ref st good

    ok-GrownAll :
        (st s st' : Stored w) (a is : List ℕ)
        → GrownAll a st s
        → (step : Parsed (List ℕ × Stored w)) → step ≡ ok (a, s)
        → step ≡ ok (is, st')
        → GrownAll is st st'
    ok-GrownAll st s st' a is grown step e₀ e =
        let same : a ≡ is = ground arith in
        let store : s ≡ st' = ground arith in
        subst (λ x. GrownAll x st st') same (subst (λ x. GrownAll a st x) store grown)

    -- Where every cached pointer is in the heap and every message has a JSON content type, a list of
    -- references to messages that is parsed leaves a heap that is no shorter, in which the same holds
    -- and which holds every pointer that is returned.
    pub parse_messages_list-IsWellFormed :
        (n : ℕ) (ctx : Ctx)
        (refs : List (Option (MessageRef Binding Correlation Tag RawSchema Schema)))
        (st st' : Stored w) (is : List ℕ)
        → IsWellFormed st
        → parse_messages_list w n ctx refs st ≡ ok (is, st')
        → GrownAll is st st'
    unfolding parse_messages_list
    parse_messages_list-IsWellFormed n ctx [] st st' is good h =
        ok-GrownAll st st st' [] is (nil-GrownAll st good) (ok ([], st)) refl h
    parse_messages_list-IsWellFormed n ctx (none ∷ refs) st st' is good h =
        parse_messages_list-IsWellFormed n ctx refs st st' is good h
    parse_messages_list-IsWellFormed n ctx (some ref ∷ refs) st st' is good h =
        let (first, e₁, h₁) = bind-ok (parse_message_ref w n ctx ref st) _ h in
        let (rest, e₂, h₂) = bind-ok (parse_messages_list w n ctx refs (first.1)) _ h₁ in
        let grown = parse_message_ref-Grown n ctx ref st good (first.0) (first.1) e₁ in
        let all =
          parse_messages_list-IsWellFormed n ctx refs (first.1) (rest.1) (rest.0)
            (Grown-good (first.0) st (first.1) grown) e₂ in
        ok-GrownAll st (rest.1) st' (first.0 ∷ rest.0) is
          (cons-GrownAll (first.0) (rest.0) st (first.1) (rest.1) grown all)
          (ok (first.0 ∷ rest.0, rest.1)) refl h₂

    entries-GrownAll :
        (n : ℕ) (ctx : Ctx)
        (refs : Map (Option (MessageRef Binding Correlation Tag RawSchema Schema)))
        (st st' : Stored w) (is : List ℕ)
        → IsWellFormed st
        → parse_entries w n ctx refs st ≡ ok (is, st')
        → GrownAll is st st'
    unfolding parse_entries
    entries-GrownAll n ctx [] st st' is good h =
        ok-GrownAll st st st' [] is (nil-GrownAll st good) (ok ([], st)) refl h
    entries-GrownAll n ctx ((k, none) ∷ refs) st st' is good h =
        entries-GrownAll n ctx refs st st' is good h
    entries-GrownAll n ctx ((k, some ref) ∷ refs) st st' is good h =
        let (first, e₁, h₁) = bind-ok (parse_message_ref w n ctx ref st) _ h in
        let named = update (first.0) (name_message k) (first.1) in
        let (rest, e₂, h₂) = bind-ok (parse_entries w n ctx refs named) _ h₁ in
        let grown =
          update-Grown k (first.0) st (first.1)
            (parse_message_ref-Grown n ctx ref st good (first.0) (first.1) e₁) in
        let all =
          entries-GrownAll n ctx refs named (rest.1) (rest.0) (Grown-good (first.0) st named grown)
            e₂ in
        ok-GrownAll st (rest.1) st' (first.0 ∷ rest.0) is
          (cons-GrownAll (first.0) (rest.0) st named (rest.1) grown all)
          (ok (first.0 ∷ rest.0, rest.1)) refl h₂

    -- Where every cached pointer is in the heap and every message has a JSON content type, the messages
    -- of a channel that are parsed, and named by the keys of their map, leave a heap that is no
    -- shorter, in which the same holds and which holds every pointer that is returned.
    pub parse_messages_map-IsWellFormed :
        (n : ℕ) (ctx : Ctx)
        (refs : Map (Option (MessageRef Binding Correlation Tag RawSchema Schema)))
        (st st' : Stored w) (is : List ℕ)
        → IsWellFormed st
        → parse_messages_map w n ctx refs st ≡ ok (is, st')
        → GrownAll is st st'
    unfolding parse_messages_map
    parse_messages_map-IsWellFormed n ctx refs st st' is good h =
        entries-GrownAll n ctx (sorted_entries refs) st st' is good h
