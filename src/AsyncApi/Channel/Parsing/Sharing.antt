-- ===== src/AsyncApi/Channel/Parsing/Sharing.antt =====
-- A channel that has been parsed through a reference is shared by all references to it.
use agen.Prelude.{ℕ, ◌≡◌, refl, Option, none, some, arith, length}
use agen.Prelude.Result.{ok, bind-ok}
use agen.Prelude.Text.{Text, lookup, lookup-insert, eq_text_iff}
use agen.AsyncApi.{cannot_resolve, cannot_decode, or_err}
use agen.AsyncApi.RedisBinding.{Yaml, Binding}
use agen.AsyncApi.Message.{MessageRef, Reader}
use agen.AsyncApi.Message.Pointer.{alloc, cache, ptr_last_segment}
use agen.AsyncApi.Channel.Traits.{Document}
use agen.AsyncApi.Channel.Parsing.{
  Parser, ParsedChannel, parse_channel, keep_channel, load_channel, cached_channel,
  parse_channel_pointer,
}

module _ {MessageBinding Correlation Tag RawSchema Schema : Type 0}
    (w : Reader MessageBinding Correlation Tag RawSchema Schema) (y : Yaml)
    (d : Document w.pointers
      (Binding y)
      Tag
      y.Node
      (MessageRef MessageBinding Correlation Tag RawSchema Schema)) where
  open w use {pointers}
  open pointers use {Key, key, add_key, ptr, resolve}

  keep_channel-hit :
      (k : Key) (r : ParsedChannel w y d × Parser w y d) (i : ℕ) (st' : Parser w y d)
      → keep_channel w y d k r ≡ (i, st')
      → lookup (ptr k) st'.channels.cached ≡ some i
  unfolding keep_channel alloc cache
  keep_channel-hit k (c, st) i st' h = ground (
    arith,
    lookup-insert (ptr k) (ptr k) (length st.channels.heap) st.channels.cached,
    eq_text_iff (ptr k) (ptr k),
  )

  load_channel-hit :
      (n : ℕ) (ref : Text) (k : Key) (st st' : Parser w y d) (i : ℕ)
      → load_channel w y d n ref k st ≡ ok (i, st')
      → lookup (ptr k) st'.channels.cached ≡ some i
  unfolding load_channel
  load_channel-hit n ref k st st' i h =
      let (inner, _, h₁) = bind-ok (or_err (cannot_resolve ref) (add_key st.ctx k)) _ h in
      let (node, _, h₂) = bind-ok (or_err (cannot_resolve ref) (resolve (ptr k))) _ h₁ in
      let (raw, _, h₃) = bind-ok (or_err (cannot_decode ref) (d.decode_channel node)) _ h₂ in
      let (r, _, h₄) =
        bind-ok (parse_channel w y d n (ptr_last_segment (ptr k)) raw (record st { ctx = inner })) _
          h₃ in
      keep_channel-hit k r i st' (ground arith)

  pub cached_channel-hit :
      (n : ℕ) (ref : Text) (k : Key) (st st' : Parser w y d) (i : ℕ) (o : Option ℕ)
      → o ≡ lookup (ptr k) st.channels.cached
      → cached_channel w y d n ref k st o ≡ ok (i, st')
      → lookup (ptr k) st'.channels.cached ≡ some i
  unfolding cached_channel
  cached_channel-hit n ref k st st' i (some j) e h = ground arith
  cached_channel-hit n ref k st st' i none e h = load_channel-hit n ref k st st' i h

  -- If a reference to a channel is parsed, from any state, and the context that this leaves still
  -- takes the reference for the same key, then parsing it again, with any fuel, gives the same pointer
  -- and leaves the state as it is: the channel, its messages and its parameters are not parsed twice.
  pub parse_channel_pointer-again :
      (n m : ℕ) (ref : Text) (st st' : Parser w y d) (i : ℕ)
      → key st'.ctx ref ≡ key st.ctx ref
      → parse_channel_pointer w y d n ref st ≡ ok (i, st')
      → parse_channel_pointer w y d m ref st' ≡ ok (i, st')
  unfolding parse_channel_pointer cached_channel
  parse_channel_pointer-again n m ref st st' i same h =
      let (k, e, h₁) = bind-ok (or_err (cannot_resolve ref) (key st.ctx ref)) _ h in
      rw (same, e, cached_channel-hit n ref k st st' i (lookup (ptr k) st.channels.cached) refl h₁)
