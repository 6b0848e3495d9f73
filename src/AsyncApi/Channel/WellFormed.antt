-- ===== src/AsyncApi/Channel/WellFormed.antt =====
-- Parsing a channel keeps the state of the parser well formed.
use agen.Prelude.{
  ℕ, ◌≡◌, refl, ◌∙◌, sym, ap, [], ◌∷◌, ◌++◌, Option, none, some, arith, not, length, get_elem?,
  if_both,
}
use mathlib.Core.Path.{subst}
use agen.Prelude.Result.{ok, bind-ok}
use agen.Prelude.Text.{Text, Map, lookup, insert, lookup-insert, eq_text_iff, is_empty}
use agen.AsyncApi.{cannot_resolve, cannot_decode, or_err, or_err-ok}
use agen.AsyncApi.RedisBinding.{Yaml, Binding}
use agen.AsyncApi.Message.{MessageRef, Reader}
use agen.AsyncApi.Message.Pointer.{Store, Stored, alloc, cache, ptr_last_segment}
use agen.AsyncApi.Message.Pointer.Staying.{Stays}
use agen.AsyncApi.Message.Pointer.Heap.{IsWellFormed, AllBelow-lookup}
use agen.AsyncApi.Channel.{Parameter, ChannelRef}
use agen.AsyncApi.Channel.Storing.{
  IsInside, Steps, alloc-Steps, cache-Steps, get_elem?-append, get_elem?-last, get_elem?-below,
}
use agen.AsyncApi.Channel.Traits.{Document}
use agen.AsyncApi.Channel.Parsing.{
  Parser, ParsedChannel, Raw, parse_channel, store_channel, keep_channel, load_channel,
  cached_channel, parse_channel_pointer, parse_channel_ref,
}
use agen.AsyncApi.Channel.Parsing.Declared.{IsChannel, parse_channel-IsChannel}
use agen.AsyncApi.Channel.Decoded.{IsDecoded, AreDecoded, kept-AreDecoded, cached-AreDecoded}
use agen.AsyncApi.Channel.Built.{
  AllLinked, AllLinked-mono, AllLinked-append, IsParser, Extends, Built, parse_channel-Built,
  Extends-refl,
}

-- At a free key, an entry hides none.
insert-free :
    (p : Text) (i : ℕ) (m : Map ℕ) (q : Text) (j : ℕ) (m' : Map ℕ)
    → lookup p m ≡ none
    → m' ≡ insert p i m
    → lookup q m ≡ some j
    → lookup q m' ≡ some j
insert-free p i m q j m' free e h = ground (arith, lookup-insert p q i m, eq_text_iff p q, e)

module _ {MessageBinding Correlation Tag RawSchema Schema : Type 0}
    (w : Reader MessageBinding Correlation Tag RawSchema Schema) (y : Yaml)
    (d : Document w.pointers
      (Binding y)
      Tag
      y.Node
      (MessageRef MessageBinding Correlation Tag RawSchema Schema)) where
  open w use {pointers}
  open pointers use {Key, key, add_key, ptr, resolve}

  -- A step that returns the channel `i`.
  pub record Grown (i : ℕ) (st st' : Parser w y d) : Type 0 where
    pub good : IsParser w y d st'
    pub extends : Extends w y d st st'
    pub placed : (c : ParsedChannel w y d) × (get_elem? st'.channels.heap i ≡ some c)

  -- A built channel is stored behind the others.
  stored-stays :
      (st : Parser w y d) (c : ParsedChannel w y d) (s st' : Parser w y d)
      → s.channels ≡ st.channels
      → st'.channels.heap ≡ s.channels.heap ++ (c ∷ [])
      → (i : ℕ) (x : ParsedChannel w y d) → get_elem? st.channels.heap i ≡ some x
      → get_elem? st'.channels.heap i ≡ some x
  stored-stays st c s st' same heap i x e =
      ap (λ l. get_elem? l i) heap
      ∙ get_elem?-append s.channels.heap (c ∷ []) i x
          (ap (λ (h : Store (ParsedChannel w y d)). get_elem? h.heap i) same ∙ e)

  -- What it leaves, where the cache keeps its pointers and is still one of channels of the document.
  stored-Grown :
      (st : Parser w y d) (c : ParsedChannel w y d) (s st' : Parser w y d)
      → IsParser w y d st
      → Built w y d st c s
      → st'.messages ≡ s.messages
      → st'.parameters ≡ s.parameters
      → st'.channels.heap ≡ s.channels.heap ++ (c ∷ [])
      → IsInside st'.channels
      → ((p : Text) (i : ℕ)
          → lookup p st.channels.cached ≡ some i
          → lookup p st'.channels.cached ≡ some i)
      → (AreDecoded w y d st → AreDecoded w y d st')
      → Grown (length s.channels.heap) st st'
  stored-Grown st c s st' good built messages parameters heap inside cached decoded =
      let before = ap (λ (x : Store (ParsedChannel w y d)). x.heap) built.same_channels in
      let m = length s.messages.heap in
      let k = length s.parameters.heap in
      record {
        good = record {
          messages_ok = subst (λ x. IsWellFormed x) (sym messages) built.messages_ok;
          parameters_ok = subst (λ x. IsInside x) (sym parameters) built.parameters_ok.0;
          channels_ok = inside;
          linked =
              subst
                (λ (x : Stored w).
                  AllLinked (length x.heap) (length st'.parameters.heap) st'.channels.heap)
                (sym messages)
                (subst (λ (x : Store Parameter). AllLinked m (length x.heap) st'.channels.heap)
                  (sym parameters)
                  (subst (λ x. AllLinked m k x) (sym heap)
                    (AllLinked-append m k s.channels.heap c
                      (subst (λ x. AllLinked m k x) (sym before)
                        (AllLinked-mono (length st.messages.heap) m (length st.parameters.heap) k
                          st.channels.heap built.messages_grow built.parameters_ok.1 good.linked))
                      built.own)));
        };
        extends = record {
          messages_grow =
              omega (arith, built.messages_grow, ap (λ (x : Stored w). length x.heap) messages);
          parameters_grow = omega (
            arith,
            built.parameters_ok.1,
            ap (λ (x : Store Parameter). length x.heap) parameters,
          );
          channels_stay = stored-stays st c s st' built.same_channels heap;
          cached_stay = cached;
          decoded_stay = decoded;
          messages_stay =
              subst (λ (x : Stored w). Stays st.messages x) (sym messages) built.messages_stay;
        };
        placed = (
          c,
          ap (λ l. get_elem? l (length s.channels.heap)) heap ∙ get_elem?-last s.channels.heap c,
        );
      }

  -- The channel that the document has at the key is cached there, which was free.
  keep_channel-Grown :
      (k : Key) (st : Parser w y d) (node : pointers.Node) (raw : Raw w y d)
      (r : ParsedChannel w y d × Parser w y d) (q : ℕ × Parser w y d)
      → IsParser w y d st
      → lookup (ptr k) st.channels.cached ≡ none
      → resolve (ptr k) ≡ some node
      → d.decode_channel node ≡ some raw
      → IsChannel w y d (ptr_last_segment (ptr k)) raw (r.0)
      → Built w y d st (r.0) (r.1)
      → keep_channel w y d k r ≡ q
      → Grown (q.0) st (q.1)
  unfolding keep_channel alloc cache Steps
  keep_channel-Grown k st node raw (c, s) q good free resolved decoded is built h =
      let inside : IsInside s.channels =
        subst (λ x. IsInside x) (sym built.same_channels) good.channels_ok in
      let (kept, _, _) =
        cache-Steps (ptr k) (length s.channels.heap) s.channels (alloc c s.channels).1
          (alloc-Steps c s.channels inside) in
      let st' : Parser w y d = (keep_channel w y d k (c, s)).1 in
      let cached : st'.channels.cached
          ≡ insert (ptr k) (length s.channels.heap) st.channels.cached =
        ap (λ (x : Store (ParsedChannel w y d)). insert (ptr k) (length s.channels.heap) x.cached)
          built.same_channels in
      let new : IsDecoded w y d st' (ptr k) (length s.channels.heap) = record {
        node = node;
        resolved = resolved;
        raw = raw;
        decoded = decoded;
        channel = c;
        stored = get_elem?-last s.channels.heap c;
        is_channel = is;
      } in
      subst (λ x. Grown (x.0) st (x.1)) h
        (stored-Grown st c s st' good built refl refl refl kept
          (λ p i e.
            insert-free (ptr k) (length s.channels.heap) st.channels.cached p i st'.channels.cached
              free cached e)
          (cached-AreDecoded w y d st st' (ptr k) (length s.channels.heap)
            (stored-stays st c s st' built.same_channels refl) cached new))

  store_channel-Grown :
      (st : Parser w y d) (r : ParsedChannel w y d × Parser w y d) (q : ℕ × Parser w y d)
      → IsParser w y d st
      → Built w y d st (r.0) (r.1)
      → store_channel w y d r ≡ q
      → Grown (q.0) st (q.1)
  unfolding store_channel alloc Steps
  store_channel-Grown st (c, s) q good built h =
      let inside : IsInside s.channels =
        subst (λ x. IsInside x) (sym built.same_channels) good.channels_ok in
      let (stored, _, _) = alloc-Steps c s.channels inside in
      let st' : Parser w y d = (store_channel w y d (c, s)).1 in
      let cached : st'.channels.cached ≡ st.channels.cached =
        ap (λ (x : Store (ParsedChannel w y d)). x.cached) built.same_channels in
      subst (λ x. Grown (x.0) st (x.1)) h
        (stored-Grown st c s st' good built refl refl refl stored
          (λ p i e. ap (λ m. lookup p m) cached ∙ e)
          (kept-AreDecoded w y d st st' (stored-stays st c s st' built.same_channels refl) cached))

  load_channel-Grown :
      (n : ℕ) (ref : Text) (k : Key) (st : Parser w y d) (q : ℕ × Parser w y d)
      → lookup (ptr k) st.channels.cached ≡ none
      → IsParser w y d st
      → load_channel w y d n ref k st ≡ ok q
      → Grown (q.0) st (q.1)
  unfolding load_channel
  load_channel-Grown n ref k st q free good h =
      let (inner, _, h₁) = bind-ok (or_err (cannot_resolve ref) (add_key st.ctx k)) _ h in
      let (node, e₂, h₂) = bind-ok (or_err (cannot_resolve ref) (resolve (ptr k))) _ h₁ in
      let (raw, e₃, h₃) = bind-ok (or_err (cannot_decode ref) (d.decode_channel node)) _ h₂ in
      let s : Parser w y d = record st { ctx = inner } in
      let (r, e, h₄) = bind-ok (parse_channel w y d n (ptr_last_segment (ptr k)) raw s) _ h₃ in
      let b =
        parse_channel-Built w y d n (ptr_last_segment (ptr k)) raw s r good.messages_ok
          good.parameters_ok e in
      let built : Built w y d st (r.0) (r.1) = record {
        same_channels = b.same_channels;
        messages_ok = b.messages_ok;
        messages_grow = b.messages_grow;
        messages_stay = b.messages_stay;
        parameters_ok = b.parameters_ok;
        own = b.own;
      } in
      keep_channel-Grown k st node raw r q good free
        (or_err-ok (cannot_resolve ref) (resolve (ptr k)) node e₂)
        (or_err-ok (cannot_decode ref) (d.decode_channel node) raw e₃)
        (parse_channel-IsChannel w y d n (ptr_last_segment (ptr k)) raw s (r.0) (r.1) e) built
        (ground arith)

  cached_channel-Grown :
      (n : ℕ) (ref : Text) (k : Key) (st : Parser w y d) (q : ℕ × Parser w y d) (o : Option ℕ)
      → lookup (ptr k) st.channels.cached ≡ o
      → IsParser w y d st
      → cached_channel w y d n ref k st o ≡ ok q
      → Grown (q.0) st (q.1)
  unfolding cached_channel
  cached_channel-Grown n ref k st q (some i) e good h =
      let same : (i, st) ≡ q = ground arith in
      let below =
        AllBelow-lookup (length st.channels.heap) i (ptr k) st.channels.cached e good.channels_ok in
      subst (λ x. Grown (x.0) st (x.1)) same
        (record {
          good = good;
          extends = Extends-refl w y d st;
          placed = get_elem?-below st.channels.heap i below;
        })
  cached_channel-Grown n ref k st q none e good h = load_channel-Grown n ref k st q e good h

  -- Parsing a channel, referenced or inline, keeps the state of the parser well formed: every cached
  -- pointer and every pointer of a stored channel is a place of its heap. The heaps grow, the channels
  -- that are stored stay as they are, those that are cached stay cached, the cache still holds only
  -- channels that the document has at their pointers, if it did, the stored messages are at most
  -- renamed, and the pointer that is returned is to a stored channel.
  pub parse_channel_ref-Grown :
      (n : ℕ) (inline_name : Text)
      (ref : ChannelRef
        (Binding y)
        Tag
        y.Node
        (MessageRef MessageBinding Correlation Tag RawSchema Schema))
      (st st' : Parser w y d) (i : ℕ)
      → IsParser w y d st
      → parse_channel_ref w y d n inline_name ref st ≡ ok (i, st')
      → Grown i st st'
  unfolding parse_channel_ref parse_channel_pointer
  parse_channel_ref-Grown n inline_name ref st st' i good =
      if_both (λ r. r ≡ ok (i, st') → Grown i st st') (not (is_empty ref.ref))
        (λ _ h.
          let (k, _, h₁) = bind-ok (or_err (cannot_resolve ref.ref) (key st.ctx ref.ref)) _ h in
          cached_channel-Grown n ref.ref k st (i, st') (lookup (ptr k) st.channels.cached) refl good
            h₁)
        (λ _ h.
          let (r, e, h₁) = bind-ok (parse_channel w y d n inline_name ref.channel st) _ h in
          store_channel-Grown st r (i, st') good
            (parse_channel-Built w y d n inline_name ref.channel st r good.messages_ok
              good.parameters_ok e)
            (ground arith))
