-- ===== src/Hookline/Queue/Settle.antt =====
-- hookline/src/queue.rs: what is written when an attempt is over, and giving a lease back unused.
pub mod Steps
pub mod Outcomes
pub mod Terminal
pub mod Races
pub mod Requeue
mod Tests
pub mod Total
pub mod Answers
use aiiiia.Hookline.Breaker.{Policy, Action, on_failure, carry_on, open_until, disable}
use aiiiia.Hookline.Models.{
  DeliveryStatus, is_pending, LastError, Delivery, Attempt, Db, StoreError, reported, answered,
  request_failed, repeated_failures, success, failure,
}
use aiiiia.Hookline.Queue.{Job}
use aiiiia.Hookline.Store.{
  record_success, record_failure, open_circuit, disable_endpoint, record_attempt,
}
use aiiiia.Hookline.Tables.{is_at, exists, update}
use aiiiia.Prelude.Int.{ℤ, ltb_ℤ}
use aiiiia.Prelude.Results.{◌>>=◌, Result, ok}
use aiiiia.Prelude.{
  ◌==◌, ◌+◌, ◌%◌, ◌^◌, Bool, true, false, ◌&&◌, Option, none, some, List, if◌then◌else◌, ℕ,
}

pub record Outcome : Type 0 where
  pub succeeded : Bool
  pub status_code : Option ℕ
  pub error : Option ℕ
  pub duration_ms : ℤ
  pub response_snippet : Option ℕ

pub data Settled : Type 0 where
  superseded : Settled
  succeeded : Settled
  retrying : ℤ → Settled
  failed : Settled
  failed_and_disabled : Settled

-- u32 arithmetic
abbrev pub attempt_no : Job → ℕ
attempt_no job = (job.delivery.attempts + 1) % 2 ^ 32

abbrev pub attempt_row : ℕ → Job → Outcome → ℤ → Attempt
attempt_row id job outcome now = record {
  id = id;
  delivery_id = job.delivery.id;
  endpoint_id = job.delivery.endpoint_id;
  message_id = job.delivery.message_id;
  app_id = job.delivery.app_id;
  attempt_no = attempt_no job;
  status = if outcome.succeeded then success else failure;
  status_code = outcome.status_code;
  error = outcome.error;
  duration_ms = outcome.duration_ms;
  response_snippet = outcome.response_snippet;
  created_at = now;
}

-- `WHERE id = ?1 AND status = 'pending' AND attempts = ?4 AND lease_until = ?5`
unfoldable pub is_owned : Job → Delivery → Bool
is_owned job d =
    (d.id == job.delivery.id)
    && (is_pending d.status
        && ((d.attempts == job.delivery.attempts) && is_at d.lease_until job.lease_until))

-- `WHERE id = ?1 AND lease_until = ?2`
unfoldable pub is_held : Job → Delivery → Bool
is_held job d = (d.id == job.delivery.id) && is_at d.lease_until job.lease_until

abbrev pub released_row : ℤ → Delivery → Delivery
released_row now d = record d { lease_until = none; updated_at = now }

abbrev pub succeeded_row : Job → ℤ → Delivery → Delivery
succeeded_row job now d = record d {
  status = DeliveryStatus.succeeded;
  attempts = attempt_no job;
  lease_until = none;
  last_error = none;
  updated_at = now;
}

abbrev pub retried_row : Job → ℤ → LastError → ℤ → Delivery → Delivery
retried_row job next_at error now d = record d {
  attempts = attempt_no job;
  next_at = next_at;
  lease_until = none;
  last_error = some error;
  updated_at = now;
}

abbrev pub failed_row : Job → LastError → ℤ → Delivery → Delivery
failed_row job error now d = record d {
  status = DeliveryStatus.failed;
  attempts = attempt_no job;
  lease_until = none;
  last_error = some error;
  updated_at = now;
}

-- The row moved on: only the lease is given back, if it is still held.
unfoldable pub superseded_rows : Job → ℤ → List Delivery → List Delivery
superseded_rows job now rows = update (is_held job) (released_row now) rows

-- What settle returns after its update of the row: `changed` is whether the update found the row.
abbrev pub settled : Bool → Job → ℤ → Settled → Db → Settled × Db
settled true job now result db = (result, db)
settled false job now result db =
    (Settled.superseded, record db { deliveries = superseded_rows job now db.deliveries })

unfoldable pub apply : Job → Action → ℤ → Db → Result StoreError Db
apply job carry_on now db = ok db
apply job (open_until until) now db = ok (open_circuit job.endpoint.id until db)
apply job disable now db =
    disable_endpoint job.endpoint.app_id job.endpoint.id repeated_failures now db >>= λ done.
    ok done.1

abbrev pub error_of : Outcome → LastError
error_of outcome = elim outcome.error [
  | some text ↦ reported text
  | none ↦ elim outcome.status_code [ some code ↦ answered code | none ↦ request_failed ]
]

-- The later of the schedule's time and the end of an open circuit.
abbrev pub due_at : Action → ℤ → ℤ
due_at carry_on next_at = next_at
due_at (open_until until) next_at = if ltb_ℤ until next_at then next_at else until
due_at disable next_at = next_at

abbrev pub or_disabled : Action → Settled → Settled
or_disabled carry_on result = result
or_disabled (open_until until) result = result
or_disabled disable result = Settled.failed_and_disabled

-- The row that a failed attempt leaves, and what is returned when the row is still the worker's.
abbrev pub failure_row : Job → LastError → Option ℤ → Action → ℤ → Delivery → Delivery
failure_row job error none action now d = failed_row job error now d
failure_row job error (some next_at) action now d =
    retried_row job (due_at action next_at) error now d

abbrev pub failure_result : Option ℤ → Action → Settled
failure_result none action = or_disabled action Settled.failed
failure_result (some next_at) action = or_disabled action (Settled.retrying (due_at action next_at))

unfoldable pub settle_success : Job → ℤ → Db → Result StoreError (Settled × Db)
settle_success job now db = record_success job.endpoint.id now db >>= λ healthy. ok (
    settled (exists (is_owned job) healthy.deliveries) job now Settled.succeeded (record healthy {
      deliveries = update (is_owned job) (succeeded_row job now) healthy.deliveries;
    }))

-- What settle does with a failed attempt, once the breaker's action is known.
unfoldable pub settle_action :
    Job → Outcome → Option ℤ → Action → ℤ → Db → Result StoreError (Settled × Db)
settle_action job outcome retry_at action now db =
    let change = failure_row job (error_of outcome) retry_at action now in
    apply job action now (record db { deliveries = update (is_owned job) change db.deliveries })
    >>= λ applied. ok (
        settled (exists (is_owned job) db.deliveries) job now (failure_result retry_at action)
          applied)

unfoldable pub settle_failure :
    Job → Outcome → Option ℤ → Policy → ℤ → Db → Result StoreError (Settled × Db)
settle_failure job outcome retry_at policy now db =
    record_failure job.endpoint.id now db >>= λ counted.
    settle_action job outcome retry_at (on_failure policy counted.0 now) now counted.1

-- The id is the one made for the row of attempts.
unfoldable pub settle :
    ℕ → Job → Outcome → Option ℤ → Policy → ℤ → Db → Result StoreError (Settled × Db)
settle id job outcome retry_at policy now db =
    record_attempt job.delivery.id (attempt_row id job outcome now) db >>= λ recorded.
    if outcome.succeeded
    then settle_success job now recorded.1
    else settle_failure job outcome retry_at policy now recorded.1

unfoldable pub release : ℕ → ℤ → Db → Db
release delivery_id now db = record db {
  deliveries = update (λ d. d.id == delivery_id) (released_row now) db.deliveries;
}
