-- ===== src/Redis/Reclaimer/Deliveries.antt =====
-- How often an entry is delivered between two times that it is given up.
use agen.Prelude.{
  ℕ, suc, ◌+◌, ◌-◌, ◌<◌, ◌≡◌, refl, ◌∙◌, true, false, List, [], ◌∷◌, ◌++◌, if◌then◌else◌, leb,
  arith, if_both,
}
use agen.Prelude.Text.{
  Text, Map, lookup, insert, delete, lookup-insert, lookup-delete, eq_text, eq_text_iff,
}
use agen.Redis.Streams.{Entry}
use agen.Redis.Reclaimer.{
  Settings, Answers, Action, autoclaimed, autoclaim_failed, dispatched, dead_letter_failed, acked,
  attempts_of, dlq_args, give_up, redeliver, on_claims, reclaim_entry, State, and_log,
  reclaim_entries, Round, failed, claimed, on_round, initial, run_rounds, run_reclaimer,
}

-- One action, on a count of the deliveries of `id` since it was last acknowledged.
unfoldable pub recount : Text → Action → ℕ → ℕ
unfolding eq_text
recount id (dispatched j) n = if eq_text j id then suc n else n
recount id (acked j) n = if eq_text j id then 0 else n
recount id _ n = n

unfoldable pub deliveries : Text → List Action → ℕ → ℕ
unfolding recount
deliveries id [] n = n
deliveries id (a ∷ log) n = deliveries id log (recount id a n)

deliveries-append :
    (id : Text) (log later : List Action) (n : ℕ)
    → deliveries id (log ++ later) n ≡ deliveries id later (deliveries id log n)
unfolding deliveries
deliveries-append id [] later n = refl
deliveries-append id (a ∷ log) later n = deliveries-append id log later (recount id a n)

-- The count that goes with `n` claims.
unfoldable pub capped : ℕ → ℕ → ℕ
capped limit n = if leb limit n then limit - 1 else n

-- What an entry's claim does to the count of each entry.
attempts_of-insert :
    (id j : Text) (n : ℕ) (attempts : Map ℕ)
    → attempts_of id (insert j n attempts) ≡ (if eq_text j id then n else attempts_of id attempts)
unfolding attempts_of
attempts_of-insert id j n attempts = ground (arith, lookup-insert j id n attempts)

attempts_of-delete :
    (id j : Text) (attempts : Map ℕ)
    → attempts_of id (delete j attempts) ≡ (if eq_text j id then 0 else attempts_of id attempts)
unfolding attempts_of
attempts_of-delete id j attempts = ground (arith, lookup-delete j id attempts)

abbrev Outcome : Type 0
Outcome = Map ℕ × List Action

Balanced : Settings → Text → ℕ → Outcome → Type 0
Balanced cfg id n (attempts, log) =
    deliveries id log n ≡ capped cfg.max_deliveries (attempts_of id attempts)

deliveries-redeliver :
    (ans : Answers) (entry : Entry) (id : Text) (n : ℕ)
    → deliveries id (redeliver ans entry) n ≡ (if eq_text entry.id id then suc n else n)
unfolding deliveries redeliver recount
deliveries-redeliver ans entry id n =
    if_both
      (λ log.
        deliveries id log (if eq_text entry.id id then suc n else n)
        ≡ (if eq_text entry.id id then suc n else n))
      (ans.dispatch_fails entry) (λ _. refl) (λ _. refl)

failed-Balanced :
    (cfg : Settings) (attempts : Map ℕ) (j id : Text) (n m : ℕ)
    → 0 < cfg.max_deliveries
    → leb cfg.max_deliveries m ≡ true
    → m ≡ attempts_of j attempts + 1
    → n ≡ capped cfg.max_deliveries (attempts_of id attempts)
    → Balanced cfg id n (insert j m attempts, dead_letter_failed j ∷ [])
unfolding Balanced deliveries recount capped
failed-Balanced cfg attempts j id n m positive enough counted balanced =
    ground (arith, attempts_of-insert id j m attempts, eq_text_iff j id)

acked-Balanced :
    (cfg : Settings) (attempts : Map ℕ) (j id : Text) (n m : ℕ)
    → 0 < cfg.max_deliveries
    → n ≡ capped cfg.max_deliveries (attempts_of id attempts)
    → Balanced cfg id n (delete j (insert j m attempts), acked j ∷ [])
unfolding Balanced deliveries recount capped
acked-Balanced cfg attempts j id n m positive balanced = ground (
  arith,
  attempts_of-insert id j m attempts,
  attempts_of-delete id j (insert j m attempts),
  eq_text_iff j id,
)

redeliver-Balanced :
    (cfg : Settings) (ans : Answers) (attempts : Map ℕ) (entry : Entry) (id : Text) (n m : ℕ)
    → 0 < cfg.max_deliveries
    → leb cfg.max_deliveries m ≡ false
    → m ≡ attempts_of entry.id attempts + 1
    → n ≡ capped cfg.max_deliveries (attempts_of id attempts)
    → Balanced cfg id n (insert entry.id m attempts, redeliver ans entry)
unfolding Balanced capped
redeliver-Balanced cfg ans attempts entry id n m positive few counted balanced = ground (
  arith,
  attempts_of-insert id entry.id m attempts,
  deliveries-redeliver ans entry id n,
  eq_text_iff entry.id id,
)

give_up-Balanced :
    (cfg : Settings) (ans : Answers) (attempts : Map ℕ) (entry : Entry) (id : Text) (n m : ℕ)
    → 0 < cfg.max_deliveries
    → leb cfg.max_deliveries m ≡ true
    → m ≡ attempts_of entry.id attempts + 1
    → n ≡ capped cfg.max_deliveries (attempts_of id attempts)
    → Balanced cfg id n (give_up cfg ans (insert entry.id m attempts) entry)
unfolding give_up Balanced deliveries attempts_of
give_up-Balanced cfg ans attempts entry id n m positive enough counted balanced =
    if_both (Balanced cfg id n) cfg.dead_letter
      (λ _.
        if_both (Balanced cfg id n) (ans.xadd_fails (dlq_args cfg.stream entry))
          (λ _. failed-Balanced cfg attempts entry.id id n m positive enough counted balanced)
          (λ _. acked-Balanced cfg attempts entry.id id n m positive balanced))
      (λ _. acked-Balanced cfg attempts entry.id id n m positive balanced)

on_claims-Balanced :
    (cfg : Settings) (ans : Answers) (attempts : Map ℕ) (entry : Entry) (id : Text) (n m : ℕ)
    → 0 < cfg.max_deliveries
    → m ≡ attempts_of entry.id attempts + 1
    → n ≡ capped cfg.max_deliveries (attempts_of id attempts)
    → Balanced cfg id n (on_claims cfg ans attempts entry m)
unfolding on_claims
on_claims-Balanced cfg ans attempts entry id n m positive counted balanced =
    if_both (Balanced cfg id n) (leb cfg.max_deliveries m)
      (λ enough. give_up-Balanced cfg ans attempts entry id n m positive enough counted balanced)
      (λ few. redeliver-Balanced cfg ans attempts entry id n m positive few counted balanced)

-- The log of a state, against its counters.
Settled : Settings → Text → State → Type 0
Settled cfg id s = deliveries id s.log 0 ≡ capped cfg.max_deliveries (attempts_of id s.attempts)

and_log-Settled :
    (cfg : Settings) (id : Text) (s : State) (r : Outcome)
    → Balanced cfg id (deliveries id s.log 0) r
    → Settled cfg id (and_log s r)
unfolding Settled Balanced and_log
and_log-Settled cfg id s (attempts, log) balanced = deliveries-append id s.log log 0 ∙ balanced

reclaim_entries-Settled :
    (cfg : Settings) (ans : Answers) (id : Text) (entries : List Entry) (s : State)
    → 0 < cfg.max_deliveries
    → Settled cfg id s
    → Settled cfg id (reclaim_entries cfg ans entries s)
unfolding reclaim_entries reclaim_entry Settled
reclaim_entries-Settled cfg ans id [] s positive settled = settled
reclaim_entries-Settled cfg ans id (entry ∷ entries) s positive settled =
    let balanced =
      on_claims-Balanced cfg ans s.attempts entry id (deliveries id s.log 0)
        (attempts_of entry.id s.attempts + 1) positive refl settled in
    reclaim_entries-Settled cfg ans id entries (and_log s (reclaim_entry cfg ans s.attempts entry))
      positive (and_log-Settled cfg id s _ balanced)

on_round-Settled :
    (cfg : Settings) (id : Text) (round : Round) (s : State)
    → 0 < cfg.max_deliveries
    → Settled cfg id s
    → Settled cfg id (on_round cfg round s)
unfolding on_round Settled deliveries recount
on_round-Settled cfg id failed s positive settled =
    deliveries-append id s.log (autoclaim_failed ∷ []) 0 ∙ settled
on_round-Settled cfg id (claimed next entries ans) s positive settled =
    reclaim_entries-Settled cfg ans id entries _ positive
      (deliveries-append id s.log (autoclaimed s.cursor ∷ []) 0 ∙ settled)

run_rounds-Settled :
    (cfg : Settings) (id : Text) (rounds : List Round) (s : State)
    → 0 < cfg.max_deliveries
    → Settled cfg id s
    → Settled cfg id (run_rounds cfg rounds s)
unfolding run_rounds
run_rounds-Settled cfg id [] s positive settled = settled
run_rounds-Settled cfg id (round ∷ rounds) s positive settled =
    run_rounds-Settled cfg id rounds (on_round cfg round s) positive
      (on_round-Settled cfg id round s positive settled)

-- With a positive `MaxDeliveries`, whatever the server and the handler answer, at every moment
-- between two rounds the reclaimer has handed an entry to the handler, since it last acknowledged the
-- entry, as often as its counter says, except that it stops at `MaxDeliveries - 1`, above which the
-- counter alone goes on.
pub deliveries-run_reclaimer :
    (cfg : Settings) (rounds : List Round) (id : Text)
    → 0 < cfg.max_deliveries
    → deliveries id (run_reclaimer cfg rounds).log 0
      ≡ capped cfg.max_deliveries (attempts_of id (run_reclaimer cfg rounds).attempts)
unfolding run_reclaimer Settled initial deliveries capped attempts_of lookup
deliveries-run_reclaimer cfg rounds id positive =
    run_rounds-Settled cfg id rounds initial positive (ground arith)
