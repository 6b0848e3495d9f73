-- ===== src/Redis/Reading/Handled.antt =====
-- What the read loop gives to the handler.
use agen.Prelude.{
  ◌≡◌, refl, ap, Bool, true, false, not, ◌&&◌, List, [], ◌∷◌, ◌++◌, Option, if◌then◌else◌, arith,
  if_both,
}
use agen.Prelude.Text.{Text}
use agen.Broker.{Incoming}
use agen.Redis.Streams.{Entry, stream_incoming}
use agen.Redis.Reading.{
  Event, dispatched, dispatch_failed, decode_failed, Stop, Stream, Reply, entries, empty, failed,
  Turn, dispatch, dispatch_entries, dispatch_streams, on_reply, read_loop,
}

-- The messages among the events.
unfoldable pub handled : List Event → List Incoming
handled [] = []
handled (dispatched in_ ∷ log) = in_ ∷ handled log
handled (dispatch_failed in_ ∷ log) = handled log
handled (decode_failed ∷ log) = handled log

-- The loop goes on behind a turn unless the context is cancelled before the read, or the read fails
-- while it is not cancelled.
unfoldable pub read_goes_on : Reply → Bool → Bool
read_goes_on failed cancelled_after = cancelled_after
read_goes_on _ cancelled_after = true

unfoldable pub goes_on : Turn → Bool
unfolding read_goes_on
goes_on turn = not turn.cancelled_before && read_goes_on turn.reply turn.cancelled_after

unfoldable pub before_stop : List Turn → List Turn
unfolding goes_on
before_stop [] = []
before_stop (turn ∷ turns) = if goes_on turn then turn ∷ before_stop turns else []

unfoldable pub messages_of : Text → List Entry → List Incoming
messages_of stream [] = []
messages_of stream (entry ∷ rest) = stream_incoming stream entry ∷ messages_of stream rest

unfoldable pub streams_of : List Stream → List Incoming
unfolding messages_of
streams_of [] = []
streams_of (s ∷ rest) = messages_of s.stream s.messages ++ streams_of rest

unfoldable pub reply_of : Reply → List Incoming
unfolding streams_of
reply_of (entries streams) = streams_of streams
reply_of empty = []
reply_of failed = []

-- All that the server hands out in the turns.
unfoldable pub handed_out : List Turn → List Incoming
unfolding reply_of
handed_out [] = []
handed_out (turn ∷ turns) = reply_of turn.reply ++ handed_out turns

handled-append : (log later : List Event) → handled (log ++ later) ≡ handled log ++ handled later
unfolding handled
handled-append [] later = refl
handled-append (dispatched in_ ∷ log) later = ap (λ rest. in_ ∷ rest) (handled-append log later)
handled-append (dispatch_failed in_ ∷ log) later = handled-append log later
handled-append (decode_failed ∷ log) later = handled-append log later

module _ (dispatch_fails : Incoming → Bool) where
  handled-dispatch : (in_ : Incoming) → handled (dispatch dispatch_fails in_) ≡ in_ ∷ []
  unfolding dispatch handled
  handled-dispatch in_ =
      if_both (λ rest. in_ ∷ handled rest ≡ in_ ∷ []) (dispatch_fails in_) (λ _. refl) (λ _. refl)

  handled-dispatch_entries :
      (stream : Text) (rest : List Entry)
      → handled (dispatch_entries dispatch_fails stream rest) ≡ messages_of stream rest
  unfolding dispatch_entries messages_of
  handled-dispatch_entries stream [] = unfold handled in refl
  handled-dispatch_entries stream (entry ∷ rest) = rw (
    handled-append (dispatch dispatch_fails (stream_incoming stream entry)) _,
    handled-dispatch (stream_incoming stream entry),
    handled-dispatch_entries stream rest,
  )

  handled-dispatch_streams :
      (streams : List Stream)
      → handled (dispatch_streams dispatch_fails streams) ≡ streams_of streams
  unfolding dispatch_streams streams_of
  handled-dispatch_streams [] = unfold handled in refl
  handled-dispatch_streams (s ∷ rest) = rw (
    handled-append (dispatch_entries dispatch_fails s.stream s.messages) _,
    handled-dispatch_entries s.stream s.messages,
    handled-dispatch_streams rest,
  )

  handled-on_reply :
      (reply : Reply) (cancelled_after : Bool) (rest : Option Stop × List Event)
      → handled (on_reply dispatch_fails reply cancelled_after rest).1
        ≡ (if read_goes_on reply cancelled_after then reply_of reply ++ handled rest.1 else [])
  unfolding on_reply reply_of read_goes_on handled
  handled-on_reply (entries streams) cancelled_after rest = rw (
    handled-append (dispatch_streams dispatch_fails streams) rest.1,
    handled-dispatch_streams streams,
  )
  handled-on_reply empty cancelled_after rest = refl
  handled-on_reply failed true rest = refl
  handled-on_reply failed false rest = refl

  -- The read loop gives to the handler what the server hands out in the turns before the one that
  -- stops it, each message once and in the server's order, whether or not the handler fails.
  pub handled-read_loop :
      (turns : List Turn)
      → handled (read_loop dispatch_fails turns).1 ≡ handed_out (before_stop turns)
  unfolding read_loop before_stop goes_on handed_out handled
  handled-read_loop [] = refl
  handled-read_loop (turn ∷ turns) = ground (
    arith,
    handled-on_reply turn.reply turn.cancelled_after (read_loop dispatch_fails turns),
    handled-read_loop turns,
  )
