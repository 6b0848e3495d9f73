-- ===== src/Redis/Tests.antt =====
-- Runs of the Redis runtime, and its theorems at such runs.
use agen.Prelude.{
  ℕ, ◌≡◌, ◌<◌, ◌↔◌, refl, true, false, ◌&&◌, List, [], ◌∷◌, none, some, arith, is_some,
  if◌then◌else◌,
}
use agen.Prelude.Result.{ok, err}
use agen.Prelude.Int.{pos, ltb_ℤ}
use agen.Prelude.Text.{Text, Map, Distinct, text, lookup, eq_text, lists}
use agen.Broker.{Outgoing, received}
use agen.Redis.{
  group_required, streams, parse_mode, is_pubsub, Security, given, PublisherConfig, Publisher,
  new_publisher, ConsumerConfig, Consumer, new_consumer,
}
use agen.Redis.Config.{Connects, new_publisher-ok_iff, IsReady, new_consumer-IsReady}
use agen.Redis.Streams.{Value, string, str, stream_values, Entry, stream_incoming, header_names}
use agen.Redis.Streams.RoundTrip.{Delivers, as_delivered, stream_incoming-stream_values}
use agen.Redis.Streams.Names.{lists-header_names-Delivers}
use agen.Redis.Reclaimer.{
  Settings, Answers, dlq_args, attempts_of, Round, failed, claimed, run_reclaimer,
}
use agen.Redis.Reclaimer.Deliveries.{deliveries, capped, deliveries-run_reclaimer}
use agen.Redis.Reclaimer.DeadLetters.{saved, run_reclaimer-saved, lookup-dlq_args}
use agen.Redis.Reading.{entries, empty, Turn, read_loop}
use agen.Redis.Reading.Handled.{handled, before_stop, handed_out, handled-read_loop}

abbrev no_security : Security
no_security = record { username = []; password = []; tls = false; insecure_skip_verify = false }

abbrev publisher_config : PublisherConfig ℕ
publisher_config = record {
  addr = text "redis:6379";
  mode = text "streams";
  max_len = pos 100;
  security = no_security;
  client = some 7;
}

abbrev publisher : Publisher ℕ
publisher = record { connection = given 7; mode = streams; max_len = pos 100 }

made : new_publisher publisher_config ≡ ok publisher
unfolding new_publisher
made = refl

new_publisher-ok_iff_example :
    (new_publisher publisher_config ≡ ok publisher)
    ↔ (parse_mode publisher_config.mode ≡ ok publisher.mode)
      × (publisher.max_len ≡ publisher_config.max_len)
      × (is_pubsub publisher.mode && ltb_ℤ (pos 0) publisher_config.max_len ≡ false)
      × Connects publisher_config.client publisher_config.addr publisher_config.security
          publisher.connection
new_publisher-ok_iff_example = new_publisher-ok_iff publisher_config publisher

abbrev consumer_config : Text → ConsumerConfig ℕ
consumer_config group = record {
  addr = text "redis:6379";
  mode = [];
  addresses = text "orders" ∷ [];
  group = group;
  consumer = [];
  security = no_security;
  block = pos 0;
  count = pos 0;
  claim_min_idle = pos 0;
  max_deliveries = pos 3;
  dead_letter = true;
  client = some 7;
}

abbrev consumer : Consumer ℕ
consumer = record {
  connection = given 7;
  mode = streams;
  addresses = text "orders" ∷ [];
  group = text "billing";
  consumer = text "consumer-1";
  block = pos 5000000000;
  count = pos 10;
  claim_min_idle = pos 30000000000;
  max_deliveries = pos 3;
  dead_letter = true;
}

without_group : new_consumer (text "consumer-1") (consumer_config []) ≡ err group_required
unfolding new_consumer
without_group = refl

returns_consumer : new_consumer (text "consumer-1") (consumer_config (text "billing")) ≡ ok consumer
unfolding new_consumer
returns_consumer = refl

new_consumer-IsReady_example : IsReady consumer
new_consumer-IsReady_example =
    new_consumer-IsReady (text "consumer-1") (consumer_config (text "billing")) consumer refl
      returns_consumer

abbrev order : Outgoing
order = record {
  topic = text "orders";
  key = text "k1";
  content_type = text "application/json";
  headers = (text "trace", text "abc") ∷ (text "payload", text "big") ∷ [];
  body = text "{}";
}

abbrev entry : Entry
entry = record {
  id = text "1-0";
  values =
      (text "payload", string (text "{}"))
      ∷ (text "content_type", string (text "application/json"))
      ∷ (text "key", string (text "k1"))
      ∷ (text "h.trace", string (text "abc"))
      ∷ (text "h.payload", string (text "big"))
      ∷ [];
}

order-Distinct : Distinct order.headers
unfolding Distinct lookup
order-Distinct = (refl, (refl, tt))

-- A server that keeps the order of the fields.
unfoldable stringify : Map Value → Map Value
unfolding str
stringify [] = []
stringify ((f, v) ∷ values) = (f, string (str (some v))) ∷ stringify values

lookup-stringify :
    (f : Text) (values : Map Value) → lookup f (stringify values) ≡ as_delivered (lookup f values)
unfolding lookup stringify as_delivered
lookup-stringify f [] = refl
lookup-stringify f ((j, v) ∷ values) = ground (arith, lookup-stringify f values)

order-Delivers : Delivers order entry
unfolding Delivers stream_values stringify
order-Delivers f = lookup-stringify f (stream_values order)

stream_incoming-stream_values_example : stream_incoming (text "orders") entry ≡ received order
stream_incoming-stream_values_example =
    stream_incoming-stream_values order entry order-Distinct order-Delivers

lists-header_names-Delivers_example :
    lists (text "trace") (header_names entry.values) ≡ is_some (lookup (text "trace") order.headers)
lists-header_names-Delivers_example =
    lists-header_names-Delivers (text "trace") order entry order-Distinct order-Delivers

abbrev settings : Settings
settings = record { stream = text "orders"; max_deliveries = 2; dead_letter = true }

abbrev answers : Answers
answers = record { xadd_fails = λ _. false; dispatch_fails = λ _. true }

abbrev rounds : List Round
rounds =
    claimed (text "1-0") (entry ∷ []) answers
    ∷ failed
    ∷ claimed (text "0-0") (entry ∷ []) answers
    ∷ []

positive : 0 < settings.max_deliveries
positive = omega arith

deliveries-run_reclaimer_example :
    deliveries (text "1-0") (run_reclaimer settings rounds).log 0
    ≡ capped 2 (attempts_of (text "1-0") (run_reclaimer settings rounds).attempts)
deliveries-run_reclaimer_example = deliveries-run_reclaimer settings rounds (text "1-0") positive

run_reclaimer-saved_example : saved none (run_reclaimer settings rounds).log ≡ true
run_reclaimer-saved_example = run_reclaimer-saved settings rounds refl

entry-Distinct : Distinct entry.values
unfolding Distinct lookup
entry-Distinct = (refl, (refl, (refl, (refl, (refl, tt)))))

lookup-dlq_args_example : lookup (text "key") (dlq_args (text "orders") entry).values ≡ (
    if eq_text (text "dlq_source_stream") (text "key")
    then some (string (text "orders"))
    else if eq_text (text "dlq_source_id") (text "key")
    then some (string (text "1-0"))
    else lookup (text "key") entry.values)
lookup-dlq_args_example = lookup-dlq_args (text "orders") (text "key") entry entry-Distinct

abbrev turns : List Turn
turns =
    record {
      cancelled_before = false;
      reply = entries (record { stream = text "orders"; messages = entry ∷ [] } ∷ []);
      cancelled_after = false;
    }
    ∷ record { cancelled_before = true; reply = empty; cancelled_after = true }
    ∷ []

handled-read_loop_example : handled (read_loop (λ _. true) turns).1 ≡ handed_out (before_stop turns)
handled-read_loop_example = handled-read_loop (λ _. true) turns
