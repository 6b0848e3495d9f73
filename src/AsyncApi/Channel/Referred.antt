-- ===== src/AsyncApi/Channel/Referred.antt =====
-- Which channel parseChannel of asyncapi/parser returns for a reference.
use agen.Prelude.{ℕ, ◌≡◌, refl, true, false, not, some, arith, get_elem?, if_both}
use mathlib.Core.Path.{subst}
use agen.Prelude.Result.{ok, bind-ok}
use agen.Prelude.Text.{Text, lookup, is_empty}
use agen.AsyncApi.{cannot_resolve, or_err, or_err-ok}
use agen.AsyncApi.RedisBinding.{Yaml, Binding}
use agen.AsyncApi.Message.{MessageRef, Reader}
use agen.AsyncApi.Message.Pointer.{alloc}
use agen.AsyncApi.Channel.{ChannelRef}
use agen.AsyncApi.Channel.Storing.{get_elem?-last}
use agen.AsyncApi.Channel.Traits.{Document}
use agen.AsyncApi.Channel.Parsing.{
  Parser, ParsedChannel, parse_channel, store_channel, parse_channel_pointer, parse_channel_ref,
}
use agen.AsyncApi.Channel.Parsing.Declared.{IsChannel, parse_channel-IsChannel}
use agen.AsyncApi.Channel.Parsing.Sharing.{cached_channel-hit}
use agen.AsyncApi.Channel.Built.{Extends}

module _ {MessageBinding Correlation Tag RawSchema Schema : Type 0}
    (w : Reader MessageBinding Correlation Tag RawSchema Schema) (y : Yaml)
    (d : Document w.pointers
      (Binding y)
      Tag
      y.Node
      (MessageRef MessageBinding Correlation Tag RawSchema Schema)) where
  open w use {pointers}
  open pointers use {Ctx, Key, key, ptr}

  -- The channel `i`, which is `c`, is what a reference is to: the channel in the cache at the key of
  -- the reference in some context, or the channel that is written in its place, under the given name.
  pub data Refers (st : Parser w y d) (inline_name : Text)
      (ref : ChannelRef
        (Binding y)
        Tag
        y.Node
        (MessageRef MessageBinding Correlation Tag RawSchema Schema))
      (i : ℕ) (c : ParsedChannel w y d) : Type 0 where
    referenced :
        is_empty ref.ref ≡ false
        → (ctx : Ctx) (k : Key) → key ctx ref.ref ≡ some k
        → lookup (ptr k) st.channels.cached ≡ some i
        → Refers st inline_name ref i c
    inline :
        is_empty ref.ref ≡ true
        → IsChannel w y d inline_name ref.channel c
        → Refers st inline_name ref i c

  pub Refers-later :
      (st st' : Parser w y d) (inline_name : Text)
      (ref : ChannelRef
        (Binding y)
        Tag
        y.Node
        (MessageRef MessageBinding Correlation Tag RawSchema Schema))
      (i : ℕ) (c : ParsedChannel w y d)
      → Extends w y d st st'
      → Refers st inline_name ref i c
      → Refers st' inline_name ref i c
  Refers-later st st' inline_name ref i c later (referenced some_ref ctx k at hit) =
      referenced some_ref ctx k at (later.cached_stay (ptr k) i hit)
  Refers-later st st' inline_name ref i c later (inline no_ref is) = inline no_ref is

  store_channel-at :
      (r : ParsedChannel w y d × Parser w y d) (i : ℕ) (st' : Parser w y d)
      (c : ParsedChannel w y d)
      → store_channel w y d r ≡ (i, st')
      → get_elem? st'.channels.heap i ≡ some c
      → r.0 ≡ c
  unfolding store_channel alloc
  store_channel-at (x, s) i st' c h at = let last = get_elem?-last s.channels.heap x in ground arith

  pub parse_channel_ref-Refers :
      (n : ℕ) (inline_name : Text)
      (ref : ChannelRef
        (Binding y)
        Tag
        y.Node
        (MessageRef MessageBinding Correlation Tag RawSchema Schema))
      (st st' : Parser w y d) (i : ℕ) (c : ParsedChannel w y d)
      → get_elem? st'.channels.heap i ≡ some c
      → parse_channel_ref w y d n inline_name ref st ≡ ok (i, st')
      → Refers st' inline_name ref i c
  unfolding parse_channel_ref parse_channel_pointer
  parse_channel_ref-Refers n inline_name ref st st' i c at =
      if_both (λ r. r ≡ ok (i, st') → Refers st' inline_name ref i c) (not (is_empty ref.ref))
        (λ some_ref h.
          let (k, e, h₁) = bind-ok (or_err (cannot_resolve ref.ref) (key st.ctx ref.ref)) _ h in
          referenced (ground arith) st.ctx k
            (or_err-ok (cannot_resolve ref.ref) (key st.ctx ref.ref) k e)
            (cached_channel-hit w y d n ref.ref k st st' i (lookup (ptr k) st.channels.cached) refl
              h₁))
        (λ no_ref h.
          let (r, e, h₁) = bind-ok (parse_channel w y d n inline_name ref.channel st) _ h in
          inline (ground arith) (
            subst (λ x. IsChannel w y d inline_name ref.channel x)
              (store_channel-at r i st' c (ground arith) at)
              (parse_channel-IsChannel w y d n inline_name ref.channel st (r.0) (r.1) e)))
