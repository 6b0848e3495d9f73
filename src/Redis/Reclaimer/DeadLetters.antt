-- ===== src/Redis/Reclaimer/DeadLetters.antt =====
-- No entry is acknowledged before its dead letter is stored.
use agen.Prelude.{
  ℕ, ◌≡◌, refl, Bool, true, false, ◌&&◌, List, [], ◌∷◌, ◌++◌, Option, none, some, arith, leb,
  if_both, if◌then◌else◌,
}
use agen.Prelude.Text.{
  Text, Map, Distinct, text, lookup, insert, delete, lookup-insert, eq_text, eq_text_iff,
}
use agen.Redis.Streams.{Value, string, Entry, XAddArgs}
use agen.Redis.Reclaimer.{
  Settings, Answers, Action, autoclaimed, autoclaim_failed, dispatched, redeliver_failed,
  dead_lettered, dead_letter_failed, acked, copy_values, dlq_args, give_up, redeliver, on_claims,
  reclaim_entry, State, and_log, reclaim_entries, Round, failed, claimed, on_round, initial,
  run_rounds, run_reclaimer,
}

unfoldable pub is_for : Option Text → Text → Bool
unfolding eq_text
is_for none j = false
is_for (some id) j = eq_text id j

-- Each acknowledgement comes right after the dead letter of the same entry; `last` is the entry whose
-- dead letter has just been stored.
unfoldable pub saved : Option Text → List Action → Bool
unfolding is_for
saved last [] = true
saved last (dead_lettered id args ∷ log) = saved (some id) log
saved last (acked j ∷ log) = is_for last j && saved none log
saved last (_ ∷ log) = saved none log

saved_any : (last : Option Text) (log : List Action) → saved none log ≡ true → saved last log ≡ true
unfolding saved is_for
saved_any last [] h = refl
saved_any last (dead_lettered id args ∷ log) h = h
saved_any last (acked j ∷ log) h = cc
saved_any last (autoclaimed cursor ∷ log) h = h
saved_any last (autoclaim_failed ∷ log) h = h
saved_any last (dispatched id ∷ log) h = h
saved_any last (redeliver_failed id ∷ log) h = h
saved_any last (dead_letter_failed id ∷ log) h = h

saved-append :
    (last : Option Text) (log later : List Action)
    → saved last log ≡ true
    → saved none later ≡ true
    → saved last (log ++ later) ≡ true
unfolding saved
saved-append last [] later h k = saved_any last later k
saved-append last (dead_lettered id args ∷ log) later h k = saved-append (some id) log later h k
saved-append last (acked j ∷ log) later h k = ground (arith, saved-append none log later)
saved-append last (autoclaimed cursor ∷ log) later h k = saved-append none log later h k
saved-append last (autoclaim_failed ∷ log) later h k = saved-append none log later h k
saved-append last (dispatched id ∷ log) later h k = saved-append none log later h k
saved-append last (redeliver_failed id ∷ log) later h k = saved-append none log later h k
saved-append last (dead_letter_failed id ∷ log) later h k = saved-append none log later h k

Saved : Map ℕ × List Action → Type 0
Saved (attempts, log) = saved none log ≡ true

dead_lettered-Saved :
    (attempts : Map ℕ) (id : Text) (args : XAddArgs)
    → Saved (attempts, dead_lettered id args ∷ acked id ∷ [])
unfolding Saved saved is_for
dead_lettered-Saved attempts id args = ground (arith, eq_text_iff id id)

give_up-Saved :
    (cfg : Settings) (ans : Answers) (attempts : Map ℕ) (entry : Entry)
    → cfg.dead_letter ≡ true
    → Saved (give_up cfg ans attempts entry)
unfolding give_up Saved saved
give_up-Saved cfg ans attempts entry on =
    if_both Saved cfg.dead_letter
      (λ _.
        if_both Saved (ans.xadd_fails (dlq_args cfg.stream entry)) (λ _. refl)
          (λ _.
            dead_lettered-Saved (delete entry.id attempts) entry.id (dlq_args cfg.stream entry)))
      (λ off. cc)

redeliver-saved : (ans : Answers) (entry : Entry) → saved none (redeliver ans entry) ≡ true
unfolding redeliver saved
redeliver-saved ans entry =
    if_both (λ log. saved none log ≡ true) (ans.dispatch_fails entry) (λ _. refl) (λ _. refl)

on_claims-Saved :
    (cfg : Settings) (ans : Answers) (attempts : Map ℕ) (entry : Entry) (n : ℕ)
    → cfg.dead_letter ≡ true
    → Saved (on_claims cfg ans attempts entry n)
unfolding on_claims Saved
on_claims-Saved cfg ans attempts entry n on =
    if_both Saved (leb cfg.max_deliveries n)
      (λ _. give_up-Saved cfg ans (insert entry.id n attempts) entry on)
      (λ _. redeliver-saved ans entry)

and_log-saved :
    (s : State) (r : Map ℕ × List Action)
    → saved none s.log ≡ true
    → Saved r
    → saved none (and_log s r).log ≡ true
unfolding and_log Saved
and_log-saved s (attempts, log) h k = saved-append none s.log log h k

reclaim_entries-saved :
    (cfg : Settings) (ans : Answers) (entries : List Entry) (s : State)
    → cfg.dead_letter ≡ true
    → saved none s.log ≡ true
    → saved none (reclaim_entries cfg ans entries s).log ≡ true
unfolding reclaim_entries reclaim_entry
reclaim_entries-saved cfg ans [] s on h = h
reclaim_entries-saved cfg ans (entry ∷ entries) s on h =
    reclaim_entries-saved cfg ans entries (and_log s (reclaim_entry cfg ans s.attempts entry)) on (
      and_log-saved s (reclaim_entry cfg ans s.attempts entry) h
        (on_claims-Saved cfg ans s.attempts entry _ on))

on_round-saved :
    (cfg : Settings) (round : Round) (s : State)
    → cfg.dead_letter ≡ true
    → saved none s.log ≡ true
    → saved none (on_round cfg round s).log ≡ true
unfolding on_round saved
on_round-saved cfg failed s on h = saved-append none s.log (autoclaim_failed ∷ []) h refl
on_round-saved cfg (claimed next entries ans) s on h =
    reclaim_entries-saved cfg ans entries _ on
      (saved-append none s.log (autoclaimed s.cursor ∷ []) h refl)

run_rounds-saved :
    (cfg : Settings) (rounds : List Round) (s : State)
    → cfg.dead_letter ≡ true
    → saved none s.log ≡ true
    → saved none (run_rounds cfg rounds s).log ≡ true
unfolding run_rounds
run_rounds-saved cfg [] s on h = h
run_rounds-saved cfg (round ∷ rounds) s on h =
    run_rounds-saved cfg rounds (on_round cfg round s) on (on_round-saved cfg round s on h)

-- With dead letters on, whatever the server and the handler answer, the reclaimer acknowledges an
-- entry only right after it has stored the dead letter of this entry.
pub run_reclaimer-saved :
    (cfg : Settings) (rounds : List Round)
    → cfg.dead_letter ≡ true
    → saved none (run_reclaimer cfg rounds).log ≡ true
unfolding run_reclaimer initial saved
run_reclaimer-saved cfg rounds on = run_rounds-saved cfg rounds initial on refl

lookup-copy_values :
    (f : Text) (rest values : Map Value)
    → Distinct rest
    → lookup f (copy_values rest values)
      ≡ (elim (lookup f rest) [ none ↦ lookup f values | some v ↦ some v ])
unfolding lookup copy_values Distinct
lookup-copy_values f [] values distinct = refl
lookup-copy_values f ((k, v) ∷ rest) values distinct = ground (
  arith,
  lookup-copy_values f rest (insert k v values) (distinct.1),
  lookup-insert k f v values,
  eq_text_iff k f,
)

lookup-copy_values_empty :
    (f : Text) (rest : Map Value) → Distinct rest → lookup f (copy_values rest []) ≡ lookup f rest
unfolding lookup
lookup-copy_values_empty f rest distinct = ground (arith, lookup-copy_values f rest [] distinct)

-- The dead letter of an entry with no field twice holds the entry's id and its stream under their two
-- names, and every other field as the entry does.
pub lookup-dlq_args :
    (stream f : Text) (entry : Entry)
    → Distinct entry.values
    → lookup f (dlq_args stream entry).values ≡ (
        if eq_text (text "dlq_source_stream") f
        then some (string stream)
        else if eq_text (text "dlq_source_id") f
        then some (string entry.id)
        else lookup f entry.values)
unfolding dlq_args
lookup-dlq_args stream f entry distinct =
    rw (
      lookup-insert _ f _ _,
      lookup-insert _ f _ _,
      lookup-copy_values_empty f entry.values distinct,
    )
