-- ===== src/AsyncApi/Operation.antt =====
-- asyncapi/parser/parse_operation.go: operations with their channels, messages and replies, and the loop
-- over the operations of a document, parseOperations.
pub mod Resolved
pub mod Linked
pub mod WellFormed
mod Tests
use agen.Prelude.{ℕ, not, List, [], ◌∷◌, Option, none, some, if◌then◌else◌, get_elem?}
use agen.Prelude.Result.{ok, err, ◌>>=◌, ◌>>◌}
use agen.Prelude.Text.{Text, text, Map, is_empty, eq_text}
use agen.AsyncApi.{
  Parsed, Error, cannot_resolve, cannot_decode, invalid_action, channel_required, no_messages,
  reply_channel_required, reply_no_messages, nil_dereference, or_err,
}
use agen.AsyncApi.Traits
use agen.AsyncApi.Traits.{OperationTrait, merge_operation_traits}
use agen.AsyncApi.RedisBinding.{
  Yaml, Binding, Action, send, receive, RedisOperationBinding, parse_redis_operation_binding,
  validate_redis_operation_binding,
}
use agen.AsyncApi.Message.{MessageRef, Reader}
use agen.AsyncApi.Message.Pointer.{sorted_entries, parse_messages_list}
use agen.AsyncApi.Channel.{ChannelRef}
use agen.AsyncApi.Channel.Traits.{Document}
use agen.AsyncApi.Channel.Parsing.{Parser, ParsedChannel, redis_or_err, parse_channel_ref}

module _ (Node Channels MessageRefs : Type 0) where
  -- `asyncapi.OperationReply`, less its traits, which nothing reads.
  pub record RawReply : Type 0 where
    pub channel : Option Channels
    pub messages_of : List (Option MessageRefs)
    pub title_of : Text
    pub summary_of : Text
    pub description_of : Text
    pub extensions : Map Node

  module _ (Requirement B Tag : Type 0) where
    -- `asyncapi.Operation`; the fields that a trait may set stand in a record of their own.
    pub record RawOperation : Type 0 where
      pub ref : Text
      pub action : Text
      pub channel : Option Channels
      pub messages_of : List (Option MessageRefs)
      pub merged : Traits.Operation Requirement B
      pub traits_of : List (Option (OperationTrait Requirement B))
      pub tags_of : List Tag
      pub reply : Option RawReply
      pub extensions : Map Node

-- `Reply` and `Operation` of asyncapi/parser/api.go
module _ (Node : Type 0) where
  pub record Reply : Type 0 where
    pub channel : ℕ
    pub messages_of : List ℕ
    pub title_of : Text
    pub summary_of : Text
    pub description_of : Text
    pub extensions : Map Node

module _ (Requirement B Tag Node : Type 0) where
  pub record Operation : Type 0 where
    pub name_of : Text
    pub action : Action
    pub channel : ℕ
    pub messages_of : List ℕ
    pub merged : Traits.Operation Requirement B
    pub redis : Option RedisOperationBinding
    pub reply : Option (Reply Node)
    pub tags_of : List Tag
    pub extensions : Map Node

-- The test of `op.Action`.
unfoldable pub action_of : Text → Parsed Action
unfolding eq_text
action_of action =
    if eq_text action (text "send")
    then ok send
    else if eq_text action (text "receive")
    then ok receive
    else err (invalid_action action)

module _ {MessageBinding Correlation Tag RawSchema Schema : Type 0}
    (w : Reader MessageBinding Correlation Tag RawSchema Schema) (y : Yaml)
    (d : Document w.pointers
      (Binding y)
      Tag
      y.Node
      (MessageRef MessageBinding Correlation Tag RawSchema Schema)) where
  open w use {pointers}
  open pointers use {Ctx, Node, key, add_key, ptr, resolve}

  abbrev pub Messages : Type 0
  Messages = MessageRef MessageBinding Correlation Tag RawSchema Schema

  abbrev pub Channels : Type 0
  Channels = ChannelRef (Binding y) Tag y.Node Messages

  -- What a pointer to a channel points at.
  unfoldable pub channel_at : ℕ → Parser w y d → Parsed (ParsedChannel w y d)
  unfolding or_err
  channel_at i st = or_err nil_dereference (get_elem? st.channels.heap i)

  -- The messages of an operation or a reply win over those of its channel; `missing` is the error
  -- where neither has any.
  unfoldable pub choose_messages :
      ℕ → Error → List (Option Messages) → List ℕ → Parser w y d → Parsed (List ℕ × Parser w y d)
  unfolding parse_messages_list
  choose_messages n missing own of_channel st =
      if not (is_empty own)
      then (parse_messages_list w n st.ctx own st.messages >>= λ parsed.
          ok (parsed.0, record st { messages = parsed.1 }))
      else if not (is_empty of_channel)
      then ok (of_channel, st)
      else err missing

  unfoldable pub parse_reply :
      ℕ → RawReply y.Node Channels Messages → Parser w y d → Parsed (Reply y.Node × Parser w y d)
  unfolding or_err parse_channel_ref channel_at choose_messages
  parse_reply n reply st = do
    ref ← or_err reply_channel_required reply.channel
    found ← parse_channel_ref w y d n (text "reply") ref st
    ch ← channel_at (found.0) (found.1)
    msgs ← choose_messages n reply_no_messages reply.messages_of ch.messages_of (found.1)
    ok (
      record {
        channel = found.0;
        messages_of = msgs.0;
        title_of = reply.title_of;
        summary_of = reply.summary_of;
        description_of = reply.description_of;
        extensions = reply.extensions;
      },
      msgs.1,
    )

  unfoldable pub optional_reply :
      ℕ
      → Option (RawReply y.Node Channels Messages)
      → Parser w y d
      → Parsed (Option (Reply y.Node) × Parser w y d)
  unfolding parse_reply
  optional_reply n none st = ok (none, st)
  optional_reply n (some reply) st = do
    parsed ← parse_reply n reply st
    ok (some (parsed.0), parsed.1)

  module _ {Requirement : Type 0}
      (decode : Node → Option (RawOperation y.Node Channels Messages Requirement (Binding y) Tag))
      (decode_trait : Node → Option (OperationTrait Requirement (Binding y))) where
    abbrev pub Raw : Type 0
    Raw = RawOperation y.Node Channels Messages Requirement (Binding y) Tag

    abbrev pub ParsedOperation : Type 0
    ParsedOperation = Operation Requirement (Binding y) Tag y.Node

    -- An operation that the reference leads to is taken as it is.
    unfoldable pub resolve_operation_ref : Ctx → Text → Parsed Raw
    unfolding or_err
    resolve_operation_ref ctx ref = do
      k ← or_err (cannot_resolve ref) (key ctx ref)
      inner ← or_err (cannot_resolve ref) (add_key ctx k)
      node ← or_err (cannot_resolve ref) (resolve (ptr k))
      or_err (cannot_decode ref) (decode node)

    unfoldable pub resolve_operation : Ctx → Raw → Parsed Raw
    unfolding resolve_operation_ref
    resolve_operation ctx op =
        if not (is_empty op.ref) then resolve_operation_ref ctx op.ref else ok op

    -- The steps behind the channel.
    unfoldable pub finish_operation :
        ℕ
        → Text
        → Raw
        → Action
        → Traits.Operation Requirement (Binding y)
        → ℕ
        → Parser w y d
        → Parsed (ParsedOperation × Parser w y d)
    unfolding channel_at redis_or_err parse_redis_operation_binding validate_redis_operation_binding
        choose_messages optional_reply
    finish_operation n name op action' merged' i st = do
      ch ← channel_at i st
      redis' ← redis_or_err (parse_redis_operation_binding y merged'.bindings_of op.extensions)
      redis_or_err (validate_redis_operation_binding redis' action' (some ch.redis))
      msgs ← choose_messages n no_messages op.messages_of ch.messages_of st
      reply' ← optional_reply n op.reply (msgs.1)
      ok (
        record {
          name_of = name;
          action = action';
          channel = i;
          messages_of = msgs.0;
          merged = merged';
          redis = redis';
          reply = reply'.0;
          tags_of = op.tags_of;
          extensions = op.extensions;
        },
        reply'.1,
      )

    unfoldable pub parse_operation :
        ℕ → Text → Raw → Parser w y d → Parsed (ParsedOperation × Parser w y d)
    unfolding resolve_operation action_of merge_operation_traits or_err parse_channel_ref
        finish_operation
    parse_operation n name raw st = do
      op ← resolve_operation st.ctx raw
      action' ← action_of op.action
      merged' ←
          merge_operation_traits Requirement (Binding y) pointers decode_trait st.ctx op.merged
            op.traits_of
      ref ← or_err channel_required op.channel
      found ← parse_channel_ref w y d n name ref st
      finish_operation n name op action' merged' (found.0) (found.1)

    -- A nil operation is skipped; each other one is appended to `api.Operations`.
    unfoldable pub parse_each :
        ℕ → Map (Option Raw) → Parser w y d → Parsed (List ParsedOperation × Parser w y d)
    unfolding parse_operation
    parse_each n [] st = ok ([], st)
    parse_each n ((name, none) ∷ ops) st = parse_each n ops st
    parse_each n ((name, some op) ∷ ops) st = do
      first ← parse_operation n name op st
      rest ← parse_each n ops (first.1)
      ok (first.0 ∷ rest.0, rest.1)

    unfoldable pub parse_operations :
        ℕ → Map (Option Raw) → Parser w y d → Parsed (List ParsedOperation × Parser w y d)
    unfolding parse_each sorted_entries
    parse_operations n ops st = parse_each n (sorted_entries ops) st
