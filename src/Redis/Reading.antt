-- ===== src/Redis/Reading.antt =====
-- runtime/redis/redis.go: `readLoop` and the loop of `runPubSub`, over what the server answers.
--
-- A turn is one run of a loop's body. The list of turns is a run of the loop, which may be stopped by a
-- turn in it; what the loop gives to the handler and to `OnError` goes into a log.
pub mod Handled
use agen.Prelude.{Bool, true, false, List, [], ◌∷◌, ◌++◌, Option, none, some, if◌then◌else◌, ◌+◌}
use agen.Prelude.Text.{Text, text}
use agen.Broker.{Incoming}
use agen.Redis.Streams.{Entry, stream_incoming}

pub data Event : Type 0 where
  dispatched : Incoming → Event
  dispatch_failed : Incoming → Event
  decode_failed : Event

-- What ends a loop.
pub data Stop : Type 0 where
  cancelled : Stop
  channel_closed : Stop
  xreadgroup_failed : Stop

-- The entries of one stream, in a reply.
pub record Stream : Type 0 where
  pub stream : Text
  pub messages : List Entry

-- `empty` is `redis.Nil`, the reply without entries.
pub data Reply : Type 0 where
  entries : List Stream → Reply
  empty failed : Reply

-- `cancelled_before` and `cancelled_after` are `ctx.Err()` before and after the call.
pub record Turn : Type 0 where
  pub cancelled_before : Bool
  pub reply : Reply
  pub cancelled_after : Bool

-- The names, and one ">" for what nobody has got.
unfoldable pub read_streams : List Text → List Text
read_streams addresses = addresses ++ (text ">" ∷ [])

module _ (dispatch_fails : Incoming → Bool) where
  unfoldable pub dispatch : Incoming → List Event
  dispatch in_ = dispatched in_ ∷ (if dispatch_fails in_ then dispatch_failed in_ ∷ [] else [])

  unfoldable pub dispatch_entries : Text → List Entry → List Event
  unfolding dispatch
  dispatch_entries stream [] = []
  dispatch_entries stream (entry ∷ rest) =
      dispatch (stream_incoming stream entry) ++ dispatch_entries stream rest

  unfoldable pub dispatch_streams : List Stream → List Event
  unfolding dispatch_entries
  dispatch_streams [] = []
  dispatch_streams (s ∷ rest) = dispatch_entries s.stream s.messages ++ dispatch_streams rest

  -- `rest` is what the turns behind this one come to.
  unfoldable pub on_reply : Reply → Bool → Option Stop × List Event → Option Stop × List Event
  unfolding dispatch_streams
  on_reply (entries streams) cancelled_after rest = (rest.0, dispatch_streams streams ++ rest.1)
  on_reply empty cancelled_after rest = rest
  on_reply failed true rest = rest
  on_reply failed false rest = (some xreadgroup_failed, [])

  -- The stop, if there is one among the turns, and the log.
  unfoldable pub read_loop : List Turn → Option Stop × List Event
  unfolding on_reply
  read_loop [] = (none, [])
  read_loop (turn ∷ turns) =
      let rest = read_loop turns in
      if turn.cancelled_before
      then (some cancelled, [])
      else on_reply turn.reply turn.cancelled_after rest

  -- What `select` takes: the end of the context, or a message, with what its envelope decodes to, or
  -- the closed channel. Both ends return `ctx.Err()`, which may be nil at a closed channel.
  pub data Selected : Type 0 where
    done closed : Selected
    message : Option Incoming → Selected

  unfoldable pub pubsub_loop : List Selected → Option Stop × List Event
  unfolding dispatch
  pubsub_loop [] = (none, [])
  pubsub_loop (done ∷ turns) = (some cancelled, [])
  pubsub_loop (closed ∷ turns) = (some channel_closed, [])
  pubsub_loop (message none ∷ turns) =
      let rest = pubsub_loop turns in (rest.0, decode_failed ∷ rest.1)
  pubsub_loop (message (some in_) ∷ turns) =
      let rest = pubsub_loop turns in (rest.0, dispatch in_ ++ rest.1)
