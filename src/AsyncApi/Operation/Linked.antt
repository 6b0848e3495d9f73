-- ===== src/AsyncApi/Operation/Linked.antt =====
-- What holds of a parsed operation: its channel, its messages, its redis binding and its reply.
use agen.Prelude.{
  ℕ, ◌≡◌, ◌⊎◌, inl, inr, refl, true, false, not, List, Option, none, some, arith, length, get_elem?,
  if_both, Bool-cases,
}
use mathlib.Core.Path.{subst}
use agen.Prelude.Result.{ok, bind-ok}
use agen.Prelude.Text.{text, is_empty}
use agen.AsyncApi.{Error, reply_channel_required, reply_no_messages, or_err, or_err-ok}
use agen.AsyncApi.RedisBinding.{
  Yaml, Binding, Action, send, receive, RedisChannelBinding, RedisOperationBinding, is_stream,
  validate_redis_operation_binding,
}
use agen.AsyncApi.Message.{MessageRef, Reader}
use agen.AsyncApi.Message.Pointer.{Stored, parse_messages_list}
use agen.AsyncApi.Message.Pointer.Heap.{GrownAll, AllInside, AllInside-mono}
use agen.AsyncApi.Message.Pointer.Staying.{Stays}
use agen.AsyncApi.Message.Pointer.Listed.{AreListed, AreListed-later, parse_messages_list-AreListed}
use agen.AsyncApi.Message.Pointer.WellFormed.{parse_messages_list-IsWellFormed}
use agen.AsyncApi.Channel.Traits.{Document}
use agen.AsyncApi.Channel.Decoded.{kept-AreDecoded}
use agen.AsyncApi.Channel.Parsing.{Parser, ParsedChannel, redis_or_err, parse_channel_ref}
use agen.AsyncApi.Channel.Built.{
  IsParser, Extends, Extends-refl, Extends-trans, IsLinked-at, with_messages,
}
use agen.AsyncApi.Channel.WellFormed.{parse_channel_ref-Grown}
use agen.AsyncApi.Channel.Referred.{Refers, Refers-later, parse_channel_ref-Refers}
use agen.AsyncApi.Operation.{
  RawReply, Reply, Messages, Channels, channel_at, choose_messages, parse_reply, optional_reply,
}

module _ {MessageBinding Correlation Tag RawSchema Schema : Type 0}
    (w : Reader MessageBinding Correlation Tag RawSchema Schema) (y : Yaml)
    (d : Document w.pointers
      (Binding y)
      Tag
      y.Node
      (MessageRef MessageBinding Correlation Tag RawSchema Schema)) where
  -- The pointers are those of the messages that the document lists itself, in some context.
  pub record Taken (own : List (Option (Messages w y d))) (st : Parser w y d) (is : List ℕ)
      : Type 0 where
    pub listed : is_empty own ≡ false
    pub ctx_of : w.pointers.Ctx
    pub taken : AreListed w st.messages ctx_of own is

  -- The list is that of the messages the document lists, or, where it lists none, that of the channel,
  -- which then has some; its pointers are places of the heap.
  pub record Chosen (own : List (Option (Messages w y d))) (c : ParsedChannel w y d)
      (st : Parser w y d) (is : List ℕ) : Type 0 where
    pub from :
        Taken own st is ⊎ ((is_empty own ≡ true) × (is ≡ c.messages_of) × (is_empty is ≡ false))
    pub placed : AllInside (length st.messages.heap) is

  pub record Chose (own : List (Option (Messages w y d))) (c : ParsedChannel w y d)
      (st st' : Parser w y d) (is : List ℕ) : Type 0 where
    pub chosen : Chosen own c st' is
    pub good : IsParser w y d st'
    pub extends : Extends w y d st st'

  own_messages :
      (own : List (Option (Messages w y d))) (c : ParsedChannel w y d) (st : Parser w y d)
      (s : Stored w) (is : List ℕ)
      → IsParser w y d st
      → Taken own (record st { messages = s }) is
      → Stays st.messages s
      → GrownAll is st.messages s
      → Chose own c st (record st { messages = s }) is
  unfolding GrownAll
  own_messages own c st s is good taken stays (good', placed, longer) = record {
    chosen = record { from = inl taken; placed = placed };
    good = with_messages w y d st s good good' longer;
    extends = record {
      messages_grow = longer;
      parameters_grow = omega arith;
      channels_stay = λ i x e. e;
      cached_stay = λ p i e. e;
      decoded_stay = kept-AreDecoded w y d st (record st { messages = s }) (λ i x e. e) refl;
      messages_stay = stays;
    };
  }

  pub choose_messages-Chose :
      (n : ℕ) (missing : Error) (own : List (Option (Messages w y d))) (i : ℕ)
      (c : ParsedChannel w y d) (st : Parser w y d) (r : List ℕ × Parser w y d)
      → IsParser w y d st
      → get_elem? st.channels.heap i ≡ some c
      → choose_messages w y d n missing own c.messages_of st ≡ ok r
      → Chose own c st (r.1) (r.0)
  unfolding choose_messages
  choose_messages-Chose n missing own i c st r good at =
      if_both (λ x. x ≡ ok r → Chose own c st (r.1) (r.0)) (not (is_empty own))
        (λ own_listed h.
          let ((is, s), e, h₁) = bind-ok (parse_messages_list w n st.ctx own st.messages) _ h in
          let same : (is, record st { messages = s }) ≡ r = ground arith in
          let grown =
            parse_messages_list-IsWellFormed w n st.ctx own st.messages s is good.messages_ok e in
          let (stays, all) = parse_messages_list-AreListed w n st.ctx own st.messages (is, s) e in
          subst (λ x. Chose own c st (x.1) (x.0)) same
            (own_messages own c st s is good
              (record { listed = ground arith; ctx_of = st.ctx; taken = all }) stays grown))
        (λ own_none h.
          if_both (λ x. x ≡ ok r → Chose own c st (r.1) (r.0)) (not (is_empty c.messages_of))
            (λ listed k.
              let same : (c.messages_of, st) ≡ r = ground arith in
              subst (λ x. Chose own c st (x.1) (x.0)) same
                (record {
                  chosen = record {
                    from = inr (ground arith, refl, ground arith);
                    placed = (IsLinked-at w y d st i c good at).0;
                  };
                  good = good;
                  extends = Extends-refl w y d st;
                }))
            (λ _ k. cc) h)

  pub Chosen-later :
      (own : List (Option (Messages w y d))) (c : ParsedChannel w y d) (st st' : Parser w y d)
      (is : List ℕ)
      → Extends w y d st st'
      → Chosen own c st is
      → Chosen own c st' is
  Chosen-later own c st st' is later chosen = record {
    from = elim chosen.from [
      | inl own_list ↦ inl (record {
        listed = own_list.listed;
        ctx_of = own_list.ctx_of;
        taken =
            AreListed-later w st.messages st'.messages own_list.ctx_of later.messages_stay
              own_list.taken;
      })
      | inr of_channel ↦ inr of_channel
    ];
    placed =
        AllInside-mono (length st.messages.heap) (length st'.messages.heap) is later.messages_grow
          chosen.placed;
  }

  pub channel_at-ok :
      (i : ℕ) (st : Parser w y d) (c : ParsedChannel w y d)
      → channel_at w y d i st ≡ ok c
      → get_elem? st.channels.heap i ≡ some c
  unfolding channel_at or_err
  channel_at-ok i st c h = ground arith

  -- A reply, against that of the document: its channel is stored and is the one that the reply refers
  -- to, and its messages are chosen.
  pub data IsReply (st : Parser w y d)
      : Option (RawReply y.Node (Channels w y d) (Messages w y d))
        → Option (Reply y.Node)
        → Type 0 where
    no_reply : IsReply st none none
    replied :
        {raw : RawReply y.Node (Channels w y d) (Messages w y d)} {reply : Reply y.Node}
        (c : ParsedChannel w y d) (ref : Channels w y d)
        → raw.channel ≡ some ref
        → Refers w y d st (text "reply") ref reply.channel c
        → get_elem? st.channels.heap reply.channel ≡ some c
        → Chosen raw.messages_of c st reply.messages_of
        → IsReply st (some raw) (some reply)

  pub record Replied (raw : Option (RawReply y.Node (Channels w y d) (Messages w y d)))
      (st st' : Parser w y d) (reply : Option (Reply y.Node)) : Type 0 where
    pub is_reply : IsReply st' raw reply
    pub good : IsParser w y d st'
    pub extends : Extends w y d st st'

  parse_reply-Replied :
      (n : ℕ) (raw : RawReply y.Node (Channels w y d) (Messages w y d)) (st : Parser w y d)
      (r : Reply y.Node × Parser w y d)
      → IsParser w y d st
      → parse_reply w y d n raw st ≡ ok r
      → Replied (some raw) st (r.1) (some (r.0))
  unfolding parse_reply
  parse_reply-Replied n raw st r good h =
      let (ref, e₁, h₁) = bind-ok (or_err reply_channel_required raw.channel) _ h in
      let ((i, s), e₂, h₂) = bind-ok (parse_channel_ref w y d n (text "reply") ref st) _ h₁ in
      let (c, e₃, h₃) = bind-ok (channel_at w y d i s) _ h₂ in
      let (msgs, e₄, h₄) =
        bind-ok (choose_messages w y d n reply_no_messages raw.messages_of c.messages_of s) _ h₃ in
      let grown = parse_channel_ref-Grown w y d n (text "reply") ref st s i good e₂ in
      let at = channel_at-ok i s c e₃ in
      let chose =
        choose_messages-Chose n reply_no_messages raw.messages_of i c s msgs grown.good at e₄ in
      let reply : Reply y.Node = record {
        channel = i;
        messages_of = msgs.0;
        title_of = raw.title_of;
        summary_of = raw.summary_of;
        description_of = raw.description_of;
        extensions = raw.extensions;
      } in
      let same : (reply, msgs.1) ≡ r = ground arith in
      subst (λ x. Replied (some raw) st (x.1) (some (x.0))) same
        (record {
          is_reply =
              replied c ref (or_err-ok reply_channel_required raw.channel ref e₁)
                (Refers-later w y d s (msgs.1) (text "reply") ref i c chose.extends
                  (parse_channel_ref-Refers w y d n (text "reply") ref st s i c at e₂))
                (chose.extends.channels_stay i c at) chose.chosen;
          good = chose.good;
          extends = Extends-trans w y d st s (msgs.1) grown.extends chose.extends;
        })

  pub optional_reply-Replied :
      (n : ℕ) (raw : Option (RawReply y.Node (Channels w y d) (Messages w y d))) (st : Parser w y d)
      (r : Option (Reply y.Node) × Parser w y d)
      → IsParser w y d st
      → optional_reply w y d n raw st ≡ ok r
      → Replied raw st (r.1) (r.0)
  unfolding optional_reply
  optional_reply-Replied n none st r good h =
      let same : (none, st) ≡ r = ground arith in
      subst (λ x. Replied none st (x.1) (x.0)) same
        (record { is_reply = no_reply; good = good; extends = Extends-refl w y d st })
  optional_reply-Replied n (some raw) st r good h =
      let ((reply, s), e, h₁) = bind-ok (parse_reply w y d n raw st) _ h in
      let same : (some reply, s) ≡ r = ground arith in
      subst (λ x. Replied (some raw) st (x.1) (x.0)) same
        (parse_reply-Replied n raw st (reply, s) good e)

-- A consumer group is given only to an operation that receives from a stream.
unfoldable pub IsGrouped :
    Option RedisOperationBinding → Action → Option RedisChannelBinding → Type 0
IsGrouped none action channel = Unit
IsGrouped (some r) action channel =
    (is_empty r.consumer_group ≡ true) ⊎ ((action ≡ receive) × (is_stream (some channel) ≡ true))

grouped :
    (r : RedisOperationBinding) (a : Action) (c : Option RedisChannelBinding) (u : Unit {0})
    → is_empty r.consumer_group ≡ false
    → redis_or_err (validate_redis_operation_binding (some r) a (some c)) ≡ ok u
    → (a ≡ receive) × (is_stream (some c) ≡ true)
unfolding redis_or_err validate_redis_operation_binding
grouped r send c u e h = absurd (ground arith)
grouped r receive c u e h = (refl, ground arith)

pub validated :
    (r : Option RedisOperationBinding) (a : Action) (c : Option RedisChannelBinding) (u : Unit {0})
    → redis_or_err (validate_redis_operation_binding r a (some c)) ≡ ok u
    → IsGrouped r a c
unfolding IsGrouped
validated none a c u h = tt
validated (some r) a c u h = elim (Bool-cases (is_empty r.consumer_group)) [
  | inl e ↦ inl e
  | inr e ↦ inr (grouped r a c u e h)
]
