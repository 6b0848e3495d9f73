-- ===== src/Redis/Reclaimer.antt =====
-- runtime/redis/redis.go: `runReclaimer`, which claims pending entries, counts the claims of each in
-- `attempts` and hands it to the handler again, or gives it up.
--
-- A round is one run of the loop. What the server and the handler answer in a round is given, and
-- what the code asks of them goes into a log. A run of the reclaimer is a list of rounds, up to the
-- one that finds the context cancelled. The counters do not wrap: an int64 holds 2^63 claims.
pub mod Deliveries
pub mod DeadLetters
use agen.Prelude.{ℕ, ◌+◌, Bool, List, [], ◌∷◌, ◌++◌, if◌then◌else◌, leb, get_or_else}
use agen.Prelude.Int.{pos}
use agen.Prelude.Text.{Text, Map, text, lookup, insert, delete}
use agen.Redis.Streams.{Value, string, Entry, XAddArgs}

-- The fields of the configuration that the loop reads; `stream` is the first address.
pub record Settings : Type 0 where
  pub stream : Text
  pub max_deliveries : ℕ
  pub dead_letter : Bool

-- Whether XADD fails, and whether the handler does.
pub record Answers : Type 0 where
  pub xadd_fails : XAddArgs → Bool
  pub dispatch_fails : Entry → Bool

pub data Action : Type 0 where
  autoclaimed : Text → Action
  autoclaim_failed : Action
  dispatched : Text → Action
  redeliver_failed : Text → Action
  dead_lettered : Text → XAddArgs → Action
  dead_letter_failed : Text → Action
  acked : Text → Action

unfoldable pub copy_values : Map Value → Map Value → Map Value
unfolding insert
copy_values [] values = values
copy_values ((k, v) ∷ rest) values = copy_values rest (insert k v values)

unfoldable pub dlq_args : Text → Entry → XAddArgs
unfolding copy_values insert
dlq_args stream entry = record {
  stream = stream ++ text ".dlq";
  values =
      insert (text "dlq_source_stream") (string stream)
        (insert (text "dlq_source_id") (string entry.id) (copy_values entry.values []));
  max_len = pos 0;
}

unfoldable pub attempts_of : Text → Map ℕ → ℕ
unfolding lookup
attempts_of id attempts = get_or_else 0 (lookup id attempts)

-- An entry that has been delivered often enough.
unfoldable pub give_up : Settings → Answers → Map ℕ → Entry → Map ℕ × List Action
unfolding dlq_args delete
give_up cfg ans attempts entry =
    if cfg.dead_letter
    then if ans.xadd_fails (dlq_args cfg.stream entry)
      then (attempts, dead_letter_failed entry.id ∷ [])
      else (
        delete entry.id attempts,
        dead_lettered entry.id (dlq_args cfg.stream entry) ∷ acked entry.id ∷ [],
      )
    else (delete entry.id attempts, acked entry.id ∷ [])

unfoldable pub redeliver : Answers → Entry → List Action
redeliver ans entry =
    dispatched entry.id ∷ (if ans.dispatch_fails entry then redeliver_failed entry.id ∷ [] else [])

unfoldable pub on_claims : Settings → Answers → Map ℕ → Entry → ℕ → Map ℕ × List Action
unfolding give_up redeliver insert
on_claims cfg ans attempts entry n =
    if leb cfg.max_deliveries n
    then give_up cfg ans (insert entry.id n attempts) entry
    else (insert entry.id n attempts, redeliver ans entry)

unfoldable pub reclaim_entry : Settings → Answers → Map ℕ → Entry → Map ℕ × List Action
unfolding on_claims attempts_of
reclaim_entry cfg ans attempts entry =
    on_claims cfg ans attempts entry (attempts_of entry.id attempts + 1)

pub record State : Type 0 where
  pub cursor : Text
  pub attempts : Map ℕ
  pub log : List Action

unfoldable pub and_log : State → Map ℕ × List Action → State
and_log s (attempts, actions) = record {
  cursor = s.cursor;
  attempts = attempts;
  log = s.log ++ actions;
}

unfoldable pub reclaim_entries : Settings → Answers → List Entry → State → State
unfolding reclaim_entry and_log
reclaim_entries cfg ans [] s = s
reclaim_entries cfg ans (entry ∷ entries) s =
    reclaim_entries cfg ans entries (and_log s (reclaim_entry cfg ans s.attempts entry))

-- What XAUTOCLAIM answers, and with it the rest of the round.
pub data Round : Type 0 where
  failed : Round
  claimed : Text → List Entry → Answers → Round

unfoldable pub on_round : Settings → Round → State → State
unfolding reclaim_entries
on_round cfg failed s = record {
  cursor = s.cursor;
  attempts = s.attempts;
  log = s.log ++ (autoclaim_failed ∷ []);
}
on_round cfg (claimed next entries ans) s =
    reclaim_entries cfg ans entries
      (record { cursor = next; attempts = s.attempts; log = s.log ++ (autoclaimed s.cursor ∷ []) })

unfoldable pub initial : State
initial = record { cursor = text "0-0"; attempts = []; log = [] }

unfoldable pub run_rounds : Settings → List Round → State → State
unfolding on_round
run_rounds cfg [] s = s
run_rounds cfg (round ∷ rounds) s = run_rounds cfg rounds (on_round cfg round s)

unfoldable pub run_reclaimer : Settings → List Round → State
unfolding run_rounds initial
run_reclaimer cfg rounds = run_rounds cfg rounds initial
