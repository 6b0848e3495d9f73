-- ===== src/AsyncApi/Channel/Built.antt =====
-- What parseChannel builds, and when the state of the parser is well formed.
use agen.Prelude.{
  ℕ, zero, suc, ◌≤◌, ◌≡◌, refl, ◌∙◌, sym, ap, List, [], ◌∷◌, ◌++◌, some, arith, length, get_elem?,
  if_both,
}
use mathlib.Core.Path.{subst}
use agen.Prelude.Result.{ok, bind-ok, reject-bind}
use agen.Prelude.Text.{Text, lookup, is_empty}
use agen.AsyncApi.{address_required}
use agen.AsyncApi.Address.{validate_address_params}
use agen.AsyncApi.RedisBinding.{Yaml, Binding, parse_redis_channel_binding}
use agen.AsyncApi.Message.{MessageRef, Reader}
use agen.AsyncApi.Message.Pointer.{Store, Stored, sorted_entries, parse_messages_map}
use agen.AsyncApi.Message.Pointer.Heap.{
  IsWellFormed, GrownAll, AllBelow, AllBelow-mono, AllInside, AllInside-mono,
}
use agen.AsyncApi.Message.Pointer.WellFormed.{parse_messages_map-IsWellFormed}
use agen.AsyncApi.Message.Pointer.Staying.{Stays, Stays-refl, Stays-trans}
use agen.AsyncApi.Message.Pointer.Listed.{parse_messages_map-Stays}
use agen.AsyncApi.Channel.{Parameter, Channel}
use agen.AsyncApi.Channel.Storing.{IsInside}
use agen.AsyncApi.Channel.Growing.{
  Longer, Longer-trans, merge_channel_traits-Traited, parse_parameters-Longer,
}
use agen.AsyncApi.Channel.Traits.{Document, merge_channel_traits}
use agen.AsyncApi.Channel.Decoded.{AreDecoded}
use agen.AsyncApi.Channel.Parsing.{
  Parser, ParsedChannel, Raw, initial_channel, channel_servers, parse_parameters, channel_messages,
  redis_or_err, address_or_err, finish_channel, parse_channel,
}

pub le_refl : (n : ℕ) → n ≤ n
le_refl n = omega arith

module _ {B Tag Node : Type 0} where
  -- The pointers of a channel are below the lengths of the heaps.
  abbrev pub IsLinked : ℕ → ℕ → Channel B Tag Node → Type 0
  IsLinked messages parameters c =
      AllInside messages c.messages_of × AllBelow parameters c.parameters_of

  unfoldable pub AllLinked : ℕ → ℕ → List (Channel B Tag Node) → Type 0
  AllLinked messages parameters [] = Unit
  AllLinked messages parameters (c ∷ cs) =
      IsLinked messages parameters c × AllLinked messages parameters cs

  pub AllLinked-mono :
      (m m' p p' : ℕ) (cs : List (Channel B Tag Node))
      → m ≤ m'
      → p ≤ p'
      → AllLinked m p cs
      → AllLinked m' p' cs
  unfolding AllLinked
  AllLinked-mono m m' p p' [] h k all = tt
  AllLinked-mono m m' p p' (c ∷ cs) h k ((inside, below), all) = (
    (AllInside-mono m m' c.messages_of h inside, AllBelow-mono p p' c.parameters_of k below),
    AllLinked-mono m m' p p' cs h k all,
  )

  pub AllLinked-append :
      (m p : ℕ) (cs : List (Channel B Tag Node)) (c : Channel B Tag Node)
      → AllLinked m p cs
      → IsLinked m p c
      → AllLinked m p (cs ++ (c ∷ []))
  unfolding AllLinked
  AllLinked-append m p [] c all linked = (linked, tt)
  AllLinked-append m p (x ∷ cs) c (first, all) linked =
      (first, AllLinked-append m p cs c all linked)

  pub AllLinked-at :
      (m p : ℕ) (cs : List (Channel B Tag Node)) (i : ℕ) (c : Channel B Tag Node)
      → AllLinked m p cs
      → get_elem? cs i ≡ some c
      → IsLinked m p c
  unfolding AllLinked
  AllLinked-at m p [] i c all h = cc
  AllLinked-at m p (x ∷ cs) zero c (first, all) h =
      let same : x ≡ c = ground arith in subst (λ z. IsLinked m p z) same first
  AllLinked-at m p (x ∷ cs) (suc i) c (first, all) h = AllLinked-at m p cs i c all h

module _ {MessageBinding Correlation Tag RawSchema Schema : Type 0}
    (w : Reader MessageBinding Correlation Tag RawSchema Schema) (y : Yaml)
    (d : Document w.pointers
      (Binding y)
      Tag
      y.Node
      (MessageRef MessageBinding Correlation Tag RawSchema Schema)) where
  open w use {pointers}
  open pointers use {Key, key, add_key, ptr, resolve}

  -- Every cached pointer, and every pointer of a stored channel, is a place of its heap, and every
  -- message has a JSON content type.
  pub record IsParser (st : Parser w y d) : Type 0 where
    pub messages_ok : IsWellFormed st.messages
    pub parameters_ok : IsInside st.parameters
    pub channels_ok : IsInside st.channels
    pub linked : AllLinked (length st.messages.heap) (length st.parameters.heap) st.channels.heap

  -- The heaps grow, a stored channel stays as it is and a cached one stays cached, the cache still holds
  -- only channels of the document, and messages are at most renamed.
  pub record Extends (st st' : Parser w y d) : Type 0 where
    pub messages_grow : length st.messages.heap ≤ length st'.messages.heap
    pub parameters_grow : length st.parameters.heap ≤ length st'.parameters.heap
    pub channels_stay :
        (i : ℕ) (c : ParsedChannel w y d)
        → get_elem? st.channels.heap i ≡ some c
        → get_elem? st'.channels.heap i ≡ some c
    pub cached_stay :
        (p : Text) (i : ℕ)
        → lookup p st.channels.cached ≡ some i
        → lookup p st'.channels.cached ≡ some i
    pub decoded_stay : AreDecoded w y d st → AreDecoded w y d st'
    pub messages_stay : Stays st.messages st'.messages

  -- What parseChannel leaves, before the channel is stored.
  pub record Built (st : Parser w y d) (c : ParsedChannel w y d) (st' : Parser w y d) : Type 0 where
    pub same_channels : st'.channels ≡ st.channels
    pub messages_ok : IsWellFormed st'.messages
    pub messages_grow : length st.messages.heap ≤ length st'.messages.heap
    pub messages_stay : Stays st.messages st'.messages
    pub parameters_ok : Longer st.parameters st'.parameters
    pub own : IsLinked (length st'.messages.heap) (length st'.parameters.heap) c

  channel_messages-GrownAll :
      (n : ℕ) (raw : Raw w y d) (st : Parser w y d) (r : List ℕ × Parser w y d)
      → IsWellFormed st.messages
      → channel_messages w y d n raw st ≡ ok r
      → GrownAll (r.0) st.messages (r.1).messages
        × ((r.1).channels ≡ st.channels)
        × ((r.1).parameters ≡ st.parameters)
        × Stays st.messages (r.1).messages
  unfolding channel_messages
  channel_messages-GrownAll n raw st r good =
      if_both
        (λ x.
          x ≡ ok r
          → GrownAll (r.0) st.messages (r.1).messages
            × ((r.1).channels ≡ st.channels)
            × ((r.1).parameters ≡ st.parameters)
            × Stays st.messages (r.1).messages)
        (is_empty raw.messages_of)
        (λ _ h.
          let same : ([], st) ≡ r = ground arith in
          subst
            (λ x.
              GrownAll (x.0) st.messages (x.1).messages
              × ((x.1).channels ≡ st.channels)
              × ((x.1).parameters ≡ st.parameters)
              × Stays st.messages (x.1).messages)
            same
            (
              unfold GrownAll in unfold AllInside in (good, tt, le_refl (length st.messages.heap)),
              refl,
              refl,
              Stays-refl st.messages,
            ))
        (λ _ h.
          let ((is, s), e, h₁) =
            bind-ok (parse_messages_map w n st.ctx raw.messages_of st.messages) _ h in
          let same : (is, record st { messages = s }) ≡ r = ground arith in
          subst
            (λ x.
              GrownAll (x.0) st.messages (x.1).messages
              × ((x.1).channels ≡ st.channels)
              × ((x.1).parameters ≡ st.parameters)
              × Stays st.messages (x.1).messages)
            same
            (
              parse_messages_map-IsWellFormed w n st.ctx raw.messages_of st.messages s is good e,
              refl,
              refl,
              parse_messages_map-Stays w n st.ctx raw.messages_of st.messages (is, s) e,
            ))

  finish_channel-Built :
      (n : ℕ) (raw : Raw w y d) (semantic : ParsedChannel w y d) (st : Parser w y d)
      (r : ParsedChannel w y d × Parser w y d)
      → IsWellFormed st.messages
      → IsInside st.parameters
      → finish_channel w y d n raw semantic st ≡ ok r
      → Built st (r.0) (r.1)
  unfolding finish_channel validate_address_params GrownAll
  finish_channel-Built n raw semantic st r good inside h =
      let refs = sorted_entries raw.parameters_of in
      let (redis', _, h₁) =
        bind-ok (redis_or_err (parse_redis_channel_binding y semantic.bindings_of raw.extensions)) _
          h in
      let (params, e₂, h₂) =
        bind-ok (parse_parameters pointers d st.ctx refs [] st.parameters) _ h₁ in
      let (msgs, e₃, h₃) =
        bind-ok (channel_messages w y d n raw (record st { parameters = params.1 })) _ h₂ in
      let (u, _, h₄) =
        bind-ok (address_or_err (validate_address_params semantic.address (params.0))) _ h₃ in
      let (longer, below) =
        parse_parameters-Longer pointers d st.ctx refs [] st.parameters params inside
          (unfold AllBelow in tt) e₂ in
      let (grown, channels, parameters, stays) =
        channel_messages-GrownAll n raw (record st { parameters = params.1 }) msgs good e₃ in
      let (good', all, grow) = grown in
      let c : ParsedChannel w y d = record semantic {
        redis = redis';
        parameters_of = params.0;
        messages_of = msgs.0;
      } in
      let same : (c, msgs.1) ≡ r = ground arith in
      subst (λ x. Built st (x.0) (x.1)) same
        (record {
          same_channels = channels;
          messages_ok = good';
          messages_grow = grow;
          messages_stay = stays;
          parameters_ok = subst (λ x. Longer st.parameters x) (sym parameters) longer;
          own = (
            all,
            subst (λ (x : Store Parameter). AllBelow (length x.heap) (params.0)) (sym parameters)
                below,
          );
        })

  pub parse_channel-Built :
      (n : ℕ) (name : Text) (raw : Raw w y d) (st : Parser w y d)
      (r : ParsedChannel w y d × Parser w y d)
      → IsWellFormed st.messages
      → IsInside st.parameters
      → parse_channel w y d n name raw st ≡ ok r
      → Built st (r.0) (r.1)
  unfolding parse_channel
  parse_channel-Built n name raw st r good inside h =
      let first = initial_channel name raw (channel_servers pointers st.ctx raw.servers_of) in
      let (_, h₁) = reject-bind (is_empty raw.address) address_required _ h in
      let (merged, e, h₂) = bind-ok (merge_channel_traits pointers d raw.traits_of first st) _ h₁ in
      let (channels, messages, longer) =
        merge_channel_traits-Traited pointers d raw.traits_of first st merged inside e in
      let built =
        finish_channel-Built n raw (merged.0) (merged.1) r
          (subst (λ x. IsWellFormed x) (sym messages) good) longer.0 h₂ in
      record {
        same_channels = built.same_channels ∙ channels;
        messages_ok = built.messages_ok;
        messages_grow =
            omega (arith, built.messages_grow, ap (λ (x : Stored w). length x.heap) messages);
        messages_stay =
            subst (λ (x : Stored w). Stays x (r.1).messages) messages built.messages_stay;
        parameters_ok =
            Longer-trans st.parameters (merged.1).parameters (r.1).parameters longer
              built.parameters_ok;
        own = built.own;
      }

  pub Extends-refl : (st : Parser w y d) → Extends st st
  Extends-refl st = record {
    messages_grow = omega arith;
    parameters_grow = omega arith;
    channels_stay = λ i c e. e;
    cached_stay = λ p i e. e;
    decoded_stay = λ all. all;
    messages_stay = Stays-refl st.messages;
  }

  pub Extends-trans : (st s st' : Parser w y d) → Extends st s → Extends s st' → Extends st st'
  Extends-trans st s st' a b = record {
    messages_grow = omega (arith, a.messages_grow, b.messages_grow);
    parameters_grow = omega (arith, a.parameters_grow, b.parameters_grow);
    channels_stay = λ i c e. b.channels_stay i c (a.channels_stay i c e);
    cached_stay = λ p i e. b.cached_stay p i (a.cached_stay p i e);
    decoded_stay = λ all. b.decoded_stay (a.decoded_stay all);
    messages_stay = Stays-trans st.messages s.messages st'.messages a.messages_stay b.messages_stay;
  }

  -- More messages keep the state well formed.
  pub with_messages :
      (st : Parser w y d) (s : Stored w)
      → IsParser st
      → IsWellFormed s
      → length st.messages.heap ≤ length s.heap
      → IsParser (record st { messages = s })
  with_messages st s good good' longer = record {
    messages_ok = good';
    parameters_ok = good.parameters_ok;
    channels_ok = good.channels_ok;
    linked =
        AllLinked-mono (length st.messages.heap) (length s.heap) (length st.parameters.heap)
          (length st.parameters.heap) st.channels.heap longer (le_refl (length st.parameters.heap))
          good.linked;
  }

  -- A stored channel of a well-formed state is linked.
  pub IsLinked-at :
      (st : Parser w y d) (i : ℕ) (c : ParsedChannel w y d)
      → IsParser st
      → get_elem? st.channels.heap i ≡ some c
      → IsLinked (length st.messages.heap) (length st.parameters.heap) c
  IsLinked-at st i c good at =
      AllLinked-at (length st.messages.heap) (length st.parameters.heap) st.channels.heap i c
        good.linked at
