-- ===== src/Hookline/Queue/Settle/Tests.antt =====
-- Concrete runs of `settle` of hookline/src/queue.rs, and of what the API does meanwhile.
use aiiiia.Hookline.Queue.Tests.{plain, delivery_to, three_due}
use aiiiia.Hookline.Queue.Settle.Answers.{settle_answers}
use aiiiia.Hookline.Queue.Settle.Total.{settle_total}
use aiiiia.Hookline.Tables.{exists}
use aiiiia.Hookline.Breaker.{cooldown_for, reaches, on_failure, default_policy}
use aiiiia.Hookline.Models.{Attempt, success, Delivery, Db, is_terminal}
use aiiiia.Hookline.Queue.{Job, is_due}
use aiiiia.Hookline.Queue.Settle.{
  attempt_row, Outcome, Settled, is_owned, is_held, superseded_rows, apply, settle_action,
  settle_failure, settle,
}
use aiiiia.Hookline.Queue.Settle.Races.{IsUntouched, settle-superseded, replayed-is_owned}
use aiiiia.Hookline.Queue.Settle.Requeue.{replay-cancel_lem}
use aiiiia.Hookline.Queue.Settle.Terminal.{IsKept, settle-IsKept}
use aiiiia.Hookline.Store.{
  empty_health, health_of, record_failure, replayed, cancelled_row, record_attempt, get_delivery,
  replay, cancel,
}
use aiiiia.Prelude.Int.{ℤ, ◌≤ℤ◌, pos}
use aiiiia.Prelude.Results.{ok}
use aiiiia.Prelude.{◌++◌, ◌≡◌, refl, ◌↔◌, true, false, none, some, [], ◌∷◌, arith, All, All2}

-- A worker's job on the first delivery, and what may happen to the row meanwhile.
abbrev leased : Delivery
leased = record (delivery_to 11 1) { lease_until = some (pos 61_000); updated_at = pos 1_000 }

abbrev in_flight : Job
in_flight = record {
  delivery = leased;
  endpoint = plain;
  message = record {
    id = 5;
    app_id = 7;
    event_type = 0;
    payload = 0;
    idempotency_key = none;
    created_at = pos 100;
  };
  secrets = 33 ∷ [];
  lease_until = pos 61_000;
}

abbrev refused : Outcome
refused = record {
  succeeded = false;
  status_code = some 500;
  error = none;
  duration_ms = pos 20;
  response_snippet = none;
}

abbrev one_cancelled : Db
one_cancelled = record three_due { deliveries = cancelled_row (pos 1_500) leased ∷ [] }

abbrev after_answer : Db
after_answer = record one_cancelled {
  attempts = attempt_row 99 in_flight refused (pos 2_000) ∷ [];
  health =
      record (empty_health 1) { consecutive_failures = 1; last_failure_at = some (pos 2_000) } ∷ [];
}

late_answer :
    settle 99 in_flight refused (some (pos 9_000)) default_policy (pos 2_000) one_cancelled
    ≡ ok (Settled.superseded, after_answer)
unfolding settle record_attempt settle_failure settle_action apply record_failure health_of
    superseded_rows is_owned is_held on_failure reaches cooldown_for
late_answer = refl

settle-superseded_example :
    (Settled.superseded ≡ Settled.superseded)
    × All2 IsUntouched one_cancelled.deliveries after_answer.deliveries
unfolding settle record_attempt settle_failure settle_action apply record_failure health_of
    superseded_rows is_owned is_held
settle-superseded_example =
    settle-superseded 99 in_flight refused (some (pos 9_000)) default_policy (pos 2_000)
      one_cancelled after_answer Settled.superseded refl late_answer

settle-IsKept_example : All2 IsKept one_cancelled.deliveries after_answer.deliveries
unfolding settle record_attempt settle_failure settle_action apply record_failure health_of
    superseded_rows is_owned is_held
settle-IsKept_example =
    settle-IsKept 99 in_flight refused (some (pos 9_000)) default_policy (pos 2_000) one_cancelled
      after_answer Settled.superseded late_answer

replayed-is_owned_example :
    (is_owned in_flight (replayed (pos 1_500) leased) ≡ true) ↔ (in_flight.delivery.attempts ≡ 0)
unfolding is_owned
replayed-is_owned_example = replayed-is_owned in_flight (pos 1_500) leased refl (omega arith)

-- The delivery in flight is cancelled and, later, replayed.
abbrev one_leased : Db
one_leased = record three_due { deliveries = leased ∷ [] }

abbrev one_replayed : Db
one_replayed = record three_due {
  deliveries = replayed (pos 1_700) (cancelled_row (pos 1_500) leased) ∷ [];
}

first_step :
    cancel 7 11 (pos 1_500) one_leased ≡ ok (cancelled_row (pos 1_500) leased, one_cancelled)
unfolding cancel get_delivery is_terminal
first_step = refl

second_step :
    replay 7 11 (pos 1_700) one_cancelled
    ≡ ok (replayed (pos 1_700) (cancelled_row (pos 1_500) leased), one_replayed)
unfolding replay get_delivery
second_step = refl

replay-cancel_lem_example :
    All
      (λ d.
        d.id ≡ 11
        → ((job : Job) → is_owned job d ≡ false)
          × ((at : ℤ) → (is_due at d ≡ true) ↔ (pos 1_700 ≤ℤ at)))
      one_replayed.deliveries
replay-cancel_lem_example =
    replay-cancel_lem 7 11 (pos 1_500) (pos 1_700) one_leased one_cancelled one_replayed
      (cancelled_row (pos 1_500) leased) (replayed (pos 1_700) (cancelled_row (pos 1_500) leased))
      first_step second_step

settle_total_example :
    (out : Settled × Db) × (settle 99 in_flight refused none default_policy
        (pos 2_000)
        one_cancelled
      ≡ ok out)
settle_total_example =
    settle_total 99 in_flight refused none default_policy (pos 2_000) one_cancelled refl refl refl

settle_answers_example :
    ((a : Attempt) × (after_answer.attempts ≡ one_cancelled.attempts ++ a ∷ [])
      × (a.id ≡ 99)
      × (a.delivery_id ≡ 11)
      × (a.endpoint_id ≡ 1)
      × (a.message_id ≡ 5)
      × (a.app_id ≡ 7)
      × (a.attempt_no ≡ 1)
      × ((a.status ≡ success) ↔ (refused.succeeded ≡ true))
      × (a.status_code ≡ some 500)
      × (a.error ≡ none)
      × (a.duration_ms ≡ pos 20)
      × (a.response_snippet ≡ none)
      × (a.created_at ≡ pos 2_000))
    × ((Settled.superseded ≡ Settled.succeeded) ↔ (
        (refused.succeeded ≡ true) × (exists (is_owned in_flight) one_cancelled.deliveries ≡ true)))
settle_answers_example =
    settle_answers 99 in_flight refused (some (pos 9_000)) default_policy (pos 2_000) one_cancelled
      after_answer Settled.superseded late_answer
