-- ===== src/AsyncApi/Operation/WellFormed.antt =====
-- The operations of a document are linked to stored channels and messages.
use agen.Prelude.{ℕ, ◌≡◌, refl, List, [], ◌∷◌, Option, none, some, arith, get_elem?}
use mathlib.Core.Path.{subst}
use agen.Prelude.Result.{ok, bind-ok}
use agen.Prelude.Text.{Text, text, Map}
use agen.AsyncApi.{no_messages, channel_required, or_err, or_err-ok}
use agen.AsyncApi.Traits
use agen.AsyncApi.Traits.{OperationTrait, merge_operation_traits}
use agen.AsyncApi.RedisBinding.{
  Yaml, Binding, Action, parse_redis_operation_binding, validate_redis_operation_binding,
}
use agen.AsyncApi.Message.{MessageRef, Reader}
use agen.AsyncApi.Message.Pointer.{sorted_entries}
use agen.AsyncApi.Channel.Traits.{Document}
use agen.AsyncApi.Channel.Parsing.{Parser, ParsedChannel, redis_or_err, parse_channel_ref}
use agen.AsyncApi.Channel.Built.{IsParser, Extends, Extends-refl, Extends-trans}
use agen.AsyncApi.Channel.Decoded.{AreDecoded}
use agen.AsyncApi.Channel.WellFormed.{parse_channel_ref-Grown}
use agen.AsyncApi.Channel.Referred.{Refers, Refers-later, parse_channel_ref-Refers}
use agen.AsyncApi.Operation.{
  RawOperation, Operation, Messages, Channels, channel_at, choose_messages, optional_reply,
  resolve_operation, action_of, finish_operation, parse_operation, parse_each, parse_operations,
  Raw,
}
use agen.AsyncApi.Operation.Resolved.{
  IsAction, action_of-IsAction, IsResolved, resolve_operation-IsResolved,
}
use agen.AsyncApi.Operation.Linked.{
  Chosen, Chosen-later, choose_messages-Chose, channel_at-ok, IsReply, no_reply, replied,
  optional_reply-Replied, IsGrouped, validated,
}

module _ {MessageBinding Correlation Tag RawSchema Schema : Type 0}
    (w : Reader MessageBinding Correlation Tag RawSchema Schema) (y : Yaml)
    (d : Document w.pointers
      (Binding y)
      Tag
      y.Node
      (MessageRef MessageBinding Correlation Tag RawSchema Schema)) where
  IsReply-later :
      {st st' : Parser w y d}
      → Extends w y d st st'
      → {raw : _} {reply : _} → IsReply w y d st raw reply
      → IsReply w y d st' raw reply
  IsReply-later later no_reply = no_reply
  IsReply-later {st} {st'} later (replied {raw} {reply} c ref own refers at chosen) =
      replied c ref own (Refers-later w y d st st' (text "reply") ref reply.channel c later refers)
        (later.channels_stay reply.channel c at)
        (Chosen-later w y d raw.messages_of c st st' reply.messages_of later chosen)

  module _ {Requirement : Type 0}
      (decode : w.pointers.Node
        → Option
            (RawOperation y.Node (Channels w y d) (Messages w y d) Requirement (Binding y) Tag))
      (decode_trait : w.pointers.Node → Option (OperationTrait Requirement (Binding y))) where
    -- What holds of a parsed operation, in the state `st`.
    pub record IsOperation (st : Parser w y d) (name : Text) (raw : Raw w y d decode decode_trait)
        (o : Operation Requirement (Binding y) Tag y.Node) : Type 0 where
      pub named : o.name_of ≡ name
      pub ctx_of : w.pointers.Ctx
      pub own : Raw w y d decode decode_trait
      pub resolved : IsResolved w y d decode decode_trait ctx_of raw own
      pub traited :
          merge_operation_traits Requirement
            (Binding y)
            w.pointers
            decode_trait
            ctx_of
            own.merged
            own.traits_of
          ≡ ok o.merged
      pub bound :
          redis_or_err (parse_redis_operation_binding y o.merged.bindings_of own.extensions)
          ≡ ok o.redis
      pub acts : IsAction own.action o.action
      pub tagged : o.tags_of ≡ own.tags_of
      pub extended : o.extensions ≡ own.extensions
      pub ref : Channels w y d
      pub own_channel : own.channel ≡ some ref
      pub channel_of : ParsedChannel w y d
      pub refers : Refers w y d st name ref o.channel channel_of
      pub linked : get_elem? st.channels.heap o.channel ≡ some channel_of
      pub chosen : Chosen w y d own.messages_of channel_of st o.messages_of
      pub grouped : IsGrouped o.redis o.action channel_of.redis
      pub answered : IsReply w y d st own.reply o.reply

    IsOperation-later :
        (st st' : Parser w y d) (name : Text) (raw : Raw w y d decode decode_trait)
        (o : Operation Requirement (Binding y) Tag y.Node)
        → Extends w y d st st'
        → IsOperation st name raw o
        → IsOperation st' name raw o
    IsOperation-later st st' name raw o later is = record {
      named = is.named;
      ctx_of = is.ctx_of;
      own = is.own;
      resolved = is.resolved;
      traited = is.traited;
      bound = is.bound;
      acts = is.acts;
      tagged = is.tagged;
      extended = is.extended;
      ref = is.ref;
      own_channel = is.own_channel;
      channel_of = is.channel_of;
      refers = Refers-later w y d st st' name is.ref o.channel is.channel_of later is.refers;
      linked = later.channels_stay o.channel is.channel_of is.linked;
      chosen =
          Chosen-later w y d is.own.messages_of is.channel_of st st' o.messages_of later is.chosen;
      grouped = is.grouped;
      answered = IsReply-later later is.answered;
    }

    -- A step that returns an operation.
    record Operates (st : Parser w y d) (name : Text) (raw : Raw w y d decode decode_trait)
        (r : Operation Requirement (Binding y) Tag y.Node × Parser w y d) : Type 0 where
      is_operation : IsOperation (r.1) name raw (r.0)
      good : IsParser w y d (r.1)
      extends : Extends w y d st (r.1)

    finish_operation-Operates :
        (n : ℕ) (name : Text) (ctx : w.pointers.Ctx) (raw op : Raw w y d decode decode_trait)
        (a : Action) (merged : Traits.Operation Requirement (Binding y)) (ref : Channels w y d)
        (i : ℕ) (st : Parser w y d)
        (r : Operation Requirement (Binding y) Tag y.Node × Parser w y d)
        → IsParser w y d st
        → resolve_operation w y d decode decode_trait ctx raw ≡ ok op
        → action_of op.action ≡ ok a
        → merge_operation_traits Requirement
            (Binding y)
            w.pointers
            decode_trait
            ctx
            op.merged
            op.traits_of
          ≡ ok merged
        → op.channel ≡ some ref
        → ((c : ParsedChannel w y d)
            → get_elem? st.channels.heap i ≡ some c
            → Refers w y d st name ref i c)
        → finish_operation w y d decode decode_trait n name op a merged i st ≡ ok r
        → Operates st name raw r
    unfolding finish_operation
    finish_operation-Operates n name ctx raw op a merged' ref i st r good resolved acts traited own
          refers h =
        let bound =
          redis_or_err (parse_redis_operation_binding y merged'.bindings_of op.extensions) in
        let (c, e₁, h₁) = bind-ok (channel_at w y d i st) _ h in
        let (redis', e₂, h₂) = bind-ok bound _ h₁ in
        let (u, e₃, h₃) =
          bind-ok (redis_or_err (validate_redis_operation_binding redis' a (some c.redis))) _ h₂ in
        let (msgs, e₄, h₄) =
          bind-ok (choose_messages w y d n no_messages op.messages_of c.messages_of st) _ h₃ in
        let (reply', e₅, h₅) = bind-ok (optional_reply w y d n op.reply (msgs.1)) _ h₄ in
        let at = channel_at-ok w y d i st c e₁ in
        let chose =
          choose_messages-Chose w y d n no_messages op.messages_of i c st msgs good at e₄ in
        let answer = optional_reply-Replied w y d n op.reply (msgs.1) reply' chose.good e₅ in
        let later = Extends-trans w y d st (msgs.1) (reply'.1) chose.extends answer.extends in
        let o : Operation Requirement (Binding y) Tag y.Node = record {
          name_of = name;
          action = a;
          channel = i;
          messages_of = msgs.0;
          merged = merged';
          redis = redis';
          reply = reply'.0;
          tags_of = op.tags_of;
          extensions = op.extensions;
        } in
        let same : (o, reply'.1) ≡ r = ground arith in
        subst (λ x. Operates st name raw x) same
          (record {
            is_operation = record {
              named = refl;
              ctx_of = ctx;
              own = op;
              resolved = resolve_operation-IsResolved w y d decode decode_trait ctx raw op resolved;
              traited = traited;
              bound = e₂;
              acts = action_of-IsAction op.action a acts;
              tagged = refl;
              extended = refl;
              ref = ref;
              own_channel = own;
              channel_of = c;
              refers = Refers-later w y d st (reply'.1) name ref i c later (refers c at);
              linked = later.channels_stay i c at;
              chosen =
                  Chosen-later w y d op.messages_of c (msgs.1) (reply'.1) (msgs.0) answer.extends
                    chose.chosen;
              grouped = validated redis' a c.redis u e₃;
              answered = answer.is_reply;
            };
            good = answer.good;
            extends = later;
          })

    parse_operation-Operates :
        (n : ℕ) (name : Text) (raw : Raw w y d decode decode_trait) (st : Parser w y d)
        (r : Operation Requirement (Binding y) Tag y.Node × Parser w y d)
        → IsParser w y d st
        → parse_operation w y d decode decode_trait n name raw st ≡ ok r
        → Operates st name raw r
    unfolding parse_operation
    parse_operation-Operates n name raw st r good h =
        let (op, resolved, h₁) =
          bind-ok (resolve_operation w y d decode decode_trait st.ctx raw) _ h in
        let (a, acts, h₂) = bind-ok (action_of op.action) _ h₁ in
        let (merged', traited, h₃) =
          bind-ok
            (merge_operation_traits Requirement (Binding y) w.pointers decode_trait st.ctx op.merged
              op.traits_of)
            _ h₂ in
        let (ref, e₀, h₄) = bind-ok (or_err channel_required op.channel) _ h₃ in
        let ((i, s), e, h₅) = bind-ok (parse_channel_ref w y d n name ref st) _ h₄ in
        let grown = parse_channel_ref-Grown w y d n name ref st s i good e in
        let done =
          finish_operation-Operates n name st.ctx raw op a merged' ref i s r grown.good resolved
            acts traited (or_err-ok channel_required op.channel ref e₀)
            (λ c at. parse_channel_ref-Refers w y d n name ref st s i c at e) h₅ in
        record {
          is_operation = done.is_operation;
          good = done.good;
          extends = Extends-trans w y d st s (r.1) grown.extends done.extends;
        }

    -- The operations are those of the entries that are not null, in their order.
    pub data AreOperations (st : Parser w y d)
        : Map (Option (Raw w y d decode decode_trait))
          → List (Operation Requirement (Binding y) Tag y.Node)
          → Type 0 where
      done : AreOperations st [] []
      skipped :
          {name : Text} {ops : Map (Option (Raw w y d decode decode_trait))}
          {os : List (Operation Requirement (Binding y) Tag y.Node)}
          → AreOperations st ops os
          → AreOperations st ((name, none) ∷ ops) os
      parsed :
          {name : Text} {op : Raw w y d decode decode_trait}
          {ops : Map (Option (Raw w y d decode decode_trait))}
          {o : Operation Requirement (Binding y) Tag y.Node}
          {os : List (Operation Requirement (Binding y) Tag y.Node)}
          → IsOperation st name op o
          → AreOperations st ops os
          → AreOperations st ((name, some op) ∷ ops) (o ∷ os)

    -- What parsing operations leaves.
    pub record Operated (st : Parser w y d) (ops : Map (Option (Raw w y d decode decode_trait)))
        (r : List (Operation Requirement (Binding y) Tag y.Node) × Parser w y d) : Type 0 where
      pub are_operations : AreOperations (r.1) ops (r.0)
      pub good : IsParser w y d (r.1)
      pub extends : Extends w y d st (r.1)

    parse_each-Operated :
        (n : ℕ) (ops : Map (Option (Raw w y d decode decode_trait))) (st : Parser w y d)
        (r : List (Operation Requirement (Binding y) Tag y.Node) × Parser w y d)
        → IsParser w y d st
        → parse_each w y d decode decode_trait n ops st ≡ ok r
        → Operated st ops r
    unfolding parse_each
    parse_each-Operated n [] st r good h =
        let same : ([], st) ≡ r = ground arith in
        subst (λ x. Operated st [] x) same
          (record { are_operations = done; good = good; extends = Extends-refl w y d st })
    parse_each-Operated n ((name, none) ∷ ops) st r good h =
        let rest = parse_each-Operated n ops st r good h in
        record {
          are_operations = skipped rest.are_operations;
          good = rest.good;
          extends = rest.extends;
        }
    parse_each-Operated n ((name, some op) ∷ ops) st r good h =
        let (first, e, h₁) = bind-ok (parse_operation w y d decode decode_trait n name op st) _ h in
        let (others, e', h₂) =
          bind-ok (parse_each w y d decode decode_trait n ops (first.1)) _ h₁ in
        let one = parse_operation-Operates n name op st first good e in
        let rest = parse_each-Operated n ops (first.1) others one.good e' in
        let same : (first.0 ∷ others.0, others.1) ≡ r = ground arith in
        subst (λ x. Operated st ((name, some op) ∷ ops) x) same
          (record {
            are_operations =
                parsed
                  (IsOperation-later (first.1) (others.1) name op (first.0) rest.extends
                    one.is_operation)
                  rest.are_operations;
            good = rest.good;
            extends = Extends-trans w y d st (first.1) (others.1) one.extends rest.extends;
          })

    pub parse_operations-Operated :
        (n : ℕ) (ops : Map (Option (Raw w y d decode decode_trait))) (st : Parser w y d)
        (r : List (Operation Requirement (Binding y) Tag y.Node) × Parser w y d)
        → IsParser w y d st
        → parse_operations w y d decode decode_trait n ops st ≡ ok r
        → Operated st (sorted_entries ops) r
    unfolding parse_operations
    parse_operations-Operated n ops st r good h =
        parse_each-Operated n (sorted_entries ops) st r good h

    -- From a well-formed state whose cache holds only channels that the document has at their pointers,
    -- parsing the operations of a document leaves such a state, and one operation for each entry that
    -- is not null, in the order of the names. Each is named after its entry, is the operation that is
    -- written there or the one that the entry's reference is to, and has its action, its tags and its
    -- extensions; its traits are merged, and its redis binding is what the merged bindings and the
    -- extensions say. Its channel is stored and is the one that the document gives the operation: the
    -- channel that the cache has at the key of its reference, or a channel that is parsed from the one
    -- written in its place and named after the operation. Its messages are stored: where the operation
    -- lists messages itself, they are those, in order, each the one in the cache at the end of its
    -- chain of references, or the one written in its place, at most renamed; and only where it lists
    -- none, they are those of its channel, at least one. A consumer group is given only where it
    -- receives from a stream; and its reply, where it has one, has its own channel, which is named
    -- `reply` if it is written there, and its messages in the same way.
    pub parse_operations-AreOperations :
        (n : ℕ) (ops : Map (Option (Raw w y d decode decode_trait))) (st st' : Parser w y d)
        (os : List (Operation Requirement (Binding y) Tag y.Node))
        → IsParser w y d st
        → AreDecoded w y d st
        → parse_operations w y d decode decode_trait n ops st ≡ ok (os, st')
        → AreOperations st' (sorted_entries ops) os × IsParser w y d st' × AreDecoded w y d st'
    parse_operations-AreOperations n ops st st' os good decoded h =
        let all = parse_operations-Operated n ops st (os, st') good h in
        (all.are_operations, all.good, all.extends.decoded_stay decoded)
