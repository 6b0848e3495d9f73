-- ===== src/AsyncApi/Channel/Decoded.antt =====
-- What the cache of channels, `p.channels` of asyncapi/parser, holds.
use agen.Prelude.{ℕ, ◌≡◌, inl, inr, some, arith, get_elem?, Bool-cases}
use mathlib.Core.Path.{subst}
use agen.Prelude.Text.{Text, lookup, insert, lookup-insert, eq_text, eq_text_iff}
use agen.AsyncApi.RedisBinding.{Yaml, Binding}
use agen.AsyncApi.Message.{MessageRef, Reader}
use agen.AsyncApi.Message.Pointer.{ptr_last_segment}
use agen.AsyncApi.Channel.Traits.{Document}
use agen.AsyncApi.Channel.Parsing.{Parser, ParsedChannel, Raw}
use agen.AsyncApi.Channel.Parsing.Declared.{IsChannel}

module _ {MessageBinding Correlation Tag RawSchema Schema : Type 0}
    (w : Reader MessageBinding Correlation Tag RawSchema Schema) (y : Yaml)
    (d : Document w.pointers
      (Binding y)
      Tag
      y.Node
      (MessageRef MessageBinding Correlation Tag RawSchema Schema)) where
  open w use {pointers}
  open pointers use {resolve}

  -- The channel `i` is stored, and is the one that the document has at the pointer, named after the
  -- pointer's last segment.
  pub record IsDecoded (st : Parser w y d) (p : Text) (i : ℕ) : Type 0 where
    pub node : pointers.Node
    pub resolved : resolve p ≡ some node
    pub raw : Raw w y d
    pub decoded : d.decode_channel node ≡ some raw
    pub channel : ParsedChannel w y d
    pub stored : get_elem? st.channels.heap i ≡ some channel
    pub is_channel : IsChannel w y d (ptr_last_segment p) raw channel

  -- The cache holds only such channels.
  abbrev pub AreDecoded : Parser w y d → Type 0
  AreDecoded st = (p : Text) (i : ℕ) → lookup p st.channels.cached ≡ some i → IsDecoded st p i

  pub IsDecoded-later :
      (st st' : Parser w y d) (p : Text) (i : ℕ)
      → ((j : ℕ) (c : ParsedChannel w y d)
          → get_elem? st.channels.heap j ≡ some c
          → get_elem? st'.channels.heap j ≡ some c)
      → IsDecoded st p i
      → IsDecoded st' p i
  IsDecoded-later st st' p i stay is = record {
    node = is.node;
    resolved = is.resolved;
    raw = is.raw;
    decoded = is.decoded;
    channel = is.channel;
    stored = stay i is.channel is.stored;
    is_channel = is.is_channel;
  }

  pub kept-AreDecoded :
      (st st' : Parser w y d)
      → ((j : ℕ) (c : ParsedChannel w y d)
          → get_elem? st.channels.heap j ≡ some c
          → get_elem? st'.channels.heap j ≡ some c)
      → st'.channels.cached ≡ st.channels.cached
      → AreDecoded st
      → AreDecoded st'
  kept-AreDecoded st st' stay cached all q j h =
      IsDecoded-later st st' q j stay (all q j (ground (arith, cached)))

  -- One more pointer in the cache.
  pub cached-AreDecoded :
      (st st' : Parser w y d) (p : Text) (i : ℕ)
      → ((j : ℕ) (c : ParsedChannel w y d)
          → get_elem? st.channels.heap j ≡ some c
          → get_elem? st'.channels.heap j ≡ some c)
      → st'.channels.cached ≡ insert p i st.channels.cached
      → IsDecoded st' p i
      → AreDecoded st
      → AreDecoded st'
  cached-AreDecoded st st' p i stay cached new all q j h = elim (Bool-cases (eq_text p q)) [
    | inl e ↦
        let same : p ≡ q = (eq_text_iff p q).0 e in
        let here : i ≡ j = ground (arith, cached, lookup-insert p q i st.channels.cached) in
        subst (λ x. IsDecoded st' x j) same (subst (λ x. IsDecoded st' p x) here new)
    | inr e ↦
        let old : lookup q st.channels.cached ≡ some j =
          ground (arith, cached, lookup-insert p q i st.channels.cached) in
        IsDecoded-later st st' q j stay (all q j old)
  ]
