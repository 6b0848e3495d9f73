-- ===== src/AsyncApi/Message/Pointer/Listed.antt =====
-- Which messages the references of a list are to: parseMessageRef and the loop over `op.Messages` of
-- asyncapi/parser/parse_operation.go.
use agen.Prelude.{
  ℕ, zero, suc, ◌≡◌, refl, true, false, not, List, [], ◌∷◌, Option, none, some, arith, if_both,
  get_elem?,
}
use agen.Prelude.Result.{ok, bind-ok, ok-subst}
use agen.Prelude.Text.{Text, Map, lookup, is_empty}
use agen.AsyncApi.{Parsed, cannot_resolve, cannot_decode, or_err, or_err-ok}
use agen.AsyncApi.Message.{Message, MessageRef, Reader, parse_message}
use agen.AsyncApi.Message.Content.{IsMessage, parse_message-IsMessage}
use agen.AsyncApi.Message.Pointer.{
  alloc, Stored, ptr_last_segment, follow_message, load_message, cached_message,
  parse_message_pointer, parse_message_ref, parse_messages_list, parse_entries, parse_messages_map,
  sorted_entries, update, name_message,
}
use agen.AsyncApi.Message.Pointer.Staying.{
  IsRenamed, IsRenamed-trans, Stays, Stays-refl, Stays-trans, alloc-Stays, saved-Stays, saved-at,
  update-Stays,
}
use agen.AsyncApi.Channel.Storing.{get_elem?-last}

module _ {Binding Correlation Tag RawSchema Schema : Type 0}
    (w : Reader Binding Correlation Tag RawSchema Schema) where
  open w use {pointers, decode_message}
  open pointers use {Ctx, Key, key, add_key, ptr, resolve}

  -- The chain of references that starts at `ref` ends at a key under which the store has cached `i`.
  pub data Leads (st : Stored w) : Ctx → Text → ℕ → Type 0 where
    hit :
        {ctx : Ctx} {ref : Text} {i : ℕ} (k : Key)
        → key ctx ref ≡ some k
        → lookup (ptr k) st.cached ≡ some i
        → Leads st ctx ref i
    chained :
        {ctx : Ctx} {ref : Text} {i : ℕ} (k : Key) (inner : Ctx) (node : pointers.Node)
        (raw : MessageRef Binding Correlation Tag RawSchema Schema)
        → key ctx ref ≡ some k
        → add_key ctx k ≡ some inner
        → resolve (ptr k) ≡ some node
        → decode_message node ≡ some raw
        → is_empty raw.ref ≡ false
        → Leads st inner raw.ref i
        → Leads st ctx ref i

  Leads-later :
      (st st' : Stored w) {ctx : Ctx} {ref : Text} {i : ℕ}
      → Stays st st'
      → Leads st ctx ref i
      → Leads st' ctx ref i
  Leads-later st st' {i = i} stays (hit k e at) = hit k e (stays.cached_stays (ptr k) i at)
  Leads-later st st' stays (chained k inner node raw e added resolved decoded some_ref rest) =
      chained k inner node raw e added resolved decoded some_ref (Leads-later st st' stays rest)

  abbrev Led : Stored w → Ctx → Text → Parsed (ℕ × Stored w) → Type 0
  Led st ctx ref r = (i : ℕ) (st' : Stored w) → r ≡ ok (i, st') → Stays st st' × Leads st' ctx ref i

  abbrev Next : Type 0
  Next = Ctx → Text → Stored w → Parsed (ℕ × Stored w)

  load-Led :
      (next : Next)
      → ((c : Ctx) (r : Text) (s : Stored w) → Led s c r (next c r s))
      → (ctx : Ctx) (ref : Text) (k : Key) (st : Stored w) → key ctx ref ≡ some k
      → lookup (ptr k) st.cached ≡ none
      → Led st ctx ref (load_message w next ctx ref k st)
  unfolding load_message follow_message
  load-Led next led ctx ref k st e free i st' h =
      let (inner, e₁, h₁) = bind-ok (or_err (cannot_resolve ref) (add_key ctx k)) _ h in
      let (node, e₂, h₂) = bind-ok (or_err (cannot_resolve ref) (resolve (ptr k))) _ h₁ in
      let (raw, e₃, h₃) = bind-ok (or_err (cannot_decode ref) (decode_message node)) _ h₂ in
      if_both (λ r. r ≡ ok (i, st') → Stays st st' × Leads st' ctx ref i) (not (is_empty raw.ref))
        (λ some_ref h₄.
          let (stays, rest) = led inner raw.ref st i st' h₄ in
          (
            stays,
            chained k inner node raw e (or_err-ok (cannot_resolve ref) (add_key ctx k) inner e₁)
                (or_err-ok (cannot_resolve ref) (resolve (ptr k)) node e₂)
                (or_err-ok (cannot_decode ref) (decode_message node) raw e₃) (ground arith) rest,
          ))
        (λ _ h₄.
          let (m, _, h₅) =
            bind-ok (parse_message w inner (ptr_last_segment (ptr k)) raw.message) _ h₄ in
          ok-subst (λ x. Stays st (x.1) × Leads (x.1) ctx ref (x.0)) h₅
            (saved-Stays (ptr k) m st free, hit k e (saved-at (ptr k) m st)))
        h₃

  cached-Led :
      (next : Next)
      → ((c : Ctx) (r : Text) (s : Stored w) → Led s c r (next c r s))
      → (ctx : Ctx) (ref : Text) (k : Key) (st : Stored w) (o : Option ℕ) → key ctx ref ≡ some k
      → lookup (ptr k) st.cached ≡ o
      → Led st ctx ref (cached_message w next ctx ref k st o)
  unfolding cached_message
  cached-Led next led ctx ref k st (some j) e at i st' h =
      ok-subst (λ x. Stays st (x.1) × Leads (x.1) ctx ref (x.0)) h (Stays-refl st, hit k e at)
  cached-Led next led ctx ref k st none e free i st' h =
      load-Led next led ctx ref k st e free i st' h

  parse_message_pointer-Led :
      (n : ℕ) (ctx : Ctx) (ref : Text) (st : Stored w)
      → Led st ctx ref (parse_message_pointer w n ctx ref st)
  unfolding parse_message_pointer
  parse_message_pointer-Led zero ctx ref st i st' h = cc
  parse_message_pointer-Led (suc n) ctx ref st i st' h =
      let (k, e, h₁) = bind-ok (or_err (cannot_resolve ref) (key ctx ref)) _ h in
      cached-Led (λ c r s. parse_message_pointer w n c r s)
        (λ c r s. parse_message_pointer-Led n c r s) ctx ref k st (lookup (ptr k) st.cached)
        (or_err-ok (cannot_resolve ref) (key ctx ref) k e) refl i st' h₁

  -- The pointer to a message of a list: what the reference leads to, or the message that is written in
  -- its place, which a map of messages may have renamed.
  pub data IsListed (st : Stored w) (ctx : Ctx)
      (ref : MessageRef Binding Correlation Tag RawSchema Schema) (i : ℕ) : Type 0 where
    referenced : is_empty ref.ref ≡ false → Leads st ctx ref.ref i → IsListed st ctx ref i
    inline :
        is_empty ref.ref ≡ true
        → (m m' : Message Binding Correlation Tag RawSchema Schema) → get_elem? st.heap i ≡ some m'
        → IsRenamed m m'
        → IsMessage w ctx [] ref.message m
        → IsListed st ctx ref i

  IsListed-later :
      (st st' : Stored w) (ctx : Ctx) (ref : MessageRef Binding Correlation Tag RawSchema Schema)
      (i : ℕ)
      → Stays st st'
      → IsListed st ctx ref i
      → IsListed st' ctx ref i
  IsListed-later st st' ctx ref i stays (referenced some_ref leads) =
      referenced some_ref (Leads-later st st' stays leads)
  IsListed-later st st' ctx ref i stays (inline no_ref m m' at renamed is) =
      let (m'', at', renamed') = stays.heap_stays i m' at in
      inline no_ref m m'' at' (IsRenamed-trans m m' m'' renamed renamed') is

  parse_message_ref-IsListed :
      (n : ℕ) (ctx : Ctx) (ref : MessageRef Binding Correlation Tag RawSchema Schema)
      (st : Stored w) (r : ℕ × Stored w)
      → parse_message_ref w n ctx ref st ≡ ok r
      → Stays st (r.1) × IsListed (r.1) ctx ref (r.0)
  unfolding parse_message_ref
  parse_message_ref-IsListed n ctx ref st r =
      if_both (λ x. x ≡ ok r → Stays st (r.1) × IsListed (r.1) ctx ref (r.0))
        (not (is_empty ref.ref))
        (λ some_ref h.
          let (stays, leads) = parse_message_pointer-Led n ctx ref.ref st (r.0) (r.1) h in
          (stays, referenced (ground arith) leads))
        (λ no_ref h.
          let (m, e, h₁) = bind-ok (parse_message w ctx [] ref.message) _ h in
          ok-subst (λ x. Stays st (x.1) × IsListed (x.1) ctx ref (x.0)) h₁
            (
              alloc-Stays m st,
              inline (ground arith) m m (unfold alloc in get_elem?-last st.heap m) refl
                  (parse_message-IsMessage w ctx [] ref.message m e),
            ))

  -- One pointer for each reference that is not null, in order.
  pub data AreListed (st : Stored w) (ctx : Ctx)
      : List (Option (MessageRef Binding Correlation Tag RawSchema Schema)) → List ℕ → Type 0 where
    end : AreListed st ctx [] []
    skip :
        {refs : List (Option (MessageRef Binding Correlation Tag RawSchema Schema))} {is : List ℕ}
        → AreListed st ctx refs is
        → AreListed st ctx (none ∷ refs) is
    next_listed :
        {ref : MessageRef Binding Correlation Tag RawSchema Schema} {i : ℕ}
        {refs : List (Option (MessageRef Binding Correlation Tag RawSchema Schema))} {is : List ℕ}
        → IsListed st ctx ref i
        → AreListed st ctx refs is
        → AreListed st ctx (some ref ∷ refs) (i ∷ is)

  pub AreListed-later :
      (st st' : Stored w) (ctx : Ctx)
      {refs : List (Option (MessageRef Binding Correlation Tag RawSchema Schema))} {is : List ℕ}
      → Stays st st'
      → AreListed st ctx refs is
      → AreListed st' ctx refs is
  AreListed-later st st' ctx stays end = end
  AreListed-later st st' ctx stays (skip all) = skip (AreListed-later st st' ctx stays all)
  AreListed-later st st' ctx stays (next_listed {ref} {i} one all) =
      next_listed (IsListed-later st st' ctx ref i stays one) (AreListed-later st st' ctx stays all)

  pub parse_messages_list-AreListed :
      (n : ℕ) (ctx : Ctx)
      (refs : List (Option (MessageRef Binding Correlation Tag RawSchema Schema))) (st : Stored w)
      (r : List ℕ × Stored w)
      → parse_messages_list w n ctx refs st ≡ ok r
      → Stays st (r.1) × AreListed (r.1) ctx refs (r.0)
  unfolding parse_messages_list
  parse_messages_list-AreListed n ctx [] st r h =
      ok-subst (λ x. Stays st (x.1) × AreListed (x.1) ctx [] (x.0)) h (Stays-refl st, end)
  parse_messages_list-AreListed n ctx (none ∷ refs) st r h =
      let (stays, all) = parse_messages_list-AreListed n ctx refs st r h in (stays, skip all)
  parse_messages_list-AreListed n ctx (some ref ∷ refs) st r h =
      let (first, e, h₁) = bind-ok (parse_message_ref w n ctx ref st) _ h in
      let (rest, e₁, h₂) = bind-ok (parse_messages_list w n ctx refs (first.1)) _ h₁ in
      let (stays, one) = parse_message_ref-IsListed n ctx ref st first e in
      let (stays', all) = parse_messages_list-AreListed n ctx refs (first.1) rest e₁ in
      ok-subst (λ x. Stays st (x.1) × AreListed (x.1) ctx (some ref ∷ refs) (x.0)) h₂
        (
          Stays-trans st (first.1) (rest.1) stays stays',
          next_listed (IsListed-later (first.1) (rest.1) ctx ref (first.0) stays' one) all,
        )

  parse_entries-Stays :
      (n : ℕ) (ctx : Ctx)
      (refs : Map (Option (MessageRef Binding Correlation Tag RawSchema Schema))) (st : Stored w)
      (r : List ℕ × Stored w)
      → parse_entries w n ctx refs st ≡ ok r
      → Stays st (r.1)
  unfolding parse_entries
  parse_entries-Stays n ctx [] st r h = ok-subst (λ x. Stays st (x.1)) h (Stays-refl st)
  parse_entries-Stays n ctx ((k, none) ∷ refs) st r h = parse_entries-Stays n ctx refs st r h
  parse_entries-Stays n ctx ((k, some ref) ∷ refs) st r h =
      let (first, e, h₁) = bind-ok (parse_message_ref w n ctx ref st) _ h in
      let named = update (first.0) (name_message k) (first.1) in
      let (rest, e₁, h₂) = bind-ok (parse_entries w n ctx refs named) _ h₁ in
      let (stays, _) = parse_message_ref-IsListed n ctx ref st first e in
      ok-subst (λ x. Stays st (x.1)) h₂
        (Stays-trans st (first.1) (rest.1) stays (
          Stays-trans (first.1) named (rest.1) (update-Stays k (first.0) (first.1))
            (parse_entries-Stays n ctx refs named rest e₁)))

  pub parse_messages_map-Stays :
      (n : ℕ) (ctx : Ctx)
      (refs : Map (Option (MessageRef Binding Correlation Tag RawSchema Schema))) (st : Stored w)
      (r : List ℕ × Stored w)
      → parse_messages_map w n ctx refs st ≡ ok r
      → Stays st (r.1)
  unfolding parse_messages_map
  parse_messages_map-Stays n ctx refs st r h =
      parse_entries-Stays n ctx (sorted_entries refs) st r h
