-- ===== src/Hookline/Queue/Settle/Outcomes.antt =====
-- What `settle` of hookline/src/queue.rs returns and writes, on every branch.
use aiiiia.Hookline.Breaker.{Action, Policy, on_failure}
use aiiiia.Hookline.Models.{Delivery, Db}
use aiiiia.Hookline.Queue.{Job}
use aiiiia.Hookline.Queue.Settle.{
  apply, settle_action, Outcome, Settled, attempt_row, is_owned, succeeded_row, superseded_rows,
  settled, error_of, failure_row, failure_result, settle_success, settle_failure, settle,
}
use aiiiia.Hookline.Queue.Settle.Steps.{
  record_attempt-ok, apply-ok, record_failure-ok, applied_rows, record_success-ok,
}
use aiiiia.Hookline.Store.{record_failure, record_attempt, record_success}
use aiiiia.Hookline.Tables.{exists, update}
use aiiiia.Prelude.Int.{ℤ}
use aiiiia.Prelude.Results.{>>=-eq-ok, ok-inj, ok}
use aiiiia.Prelude.{
  if_true, if_false, ◌∙◌, inl, inr, Bool-cases, ◌⊎◌, ◌≡◌, sym, ap, ◌⊎◌, Bool, true, false, Option,
  List, [], ◌∷◌, ◌++◌, if◌then◌else◌, ℕ,
}

module _ (job : Job) (now : ℤ) (db after : Db) (result : Settled) where
  -- The result, and the deliveries that are left, according to whether the update found the row.
  abbrev pub IsSettled : List Delivery → Settled → Type 0
  IsSettled rows wanted =
      let mine = exists (is_owned job) db.deliveries in
      (result ≡ (if mine then wanted else Settled.superseded))
      × (after.deliveries ≡ (if mine then rows else superseded_rows job now rows))

  pub record SettleSteps (outcome : Outcome) (retry_at : Option ℤ) (policy : Policy) (id : ℕ)
      : Type 0 where
    pub recorded : after.attempts ≡ db.attempts ++ attempt_row id job outcome now ∷ []
    pub settled_as :
        ((outcome.succeeded ≡ true)
          × IsSettled
              (update (is_owned job) (succeeded_row job now) db.deliveries)
              Settled.succeeded)
        ⊎ ((outcome.succeeded ≡ false)
            × ((count : ℕ) × IsSettled
                  (applied_rows job (on_failure policy count now) now (
                    update
                      (is_owned job)
                      (failure_row job
                        (error_of outcome)
                        retry_at
                        (on_failure policy count now)
                        now)
                      db.deliveries))
                  (failure_result retry_at (on_failure policy count now))))

settled_parts :
    (mine : Bool) (job : Job) (now : ℤ) (wanted result : Settled) (left after : Db)
    → settled mine job now wanted left ≡ (result, after)
    → (result ≡ (if mine then wanted else Settled.superseded))
      × ((after.deliveries
            ≡ (if mine then left.deliveries else superseded_rows job now left.deliveries))
          × (after.attempts ≡ left.attempts))
settled_parts true job now wanted result left after h =
    let same = sym h in
    (ap (λ r. r.0) same, (ap (λ r. r.1.deliveries) same, ap (λ r. r.1.attempts) same))
settled_parts false job now wanted result left after h =
    let same = sym h in
    (ap (λ r. r.0) same, (ap (λ r. r.1.deliveries) same, ap (λ r. r.1.attempts) same))

module _ (job : Job) (now : ℤ) (db after : Db) (result : Settled) where
  settle_success-ok :
      settle_success job now db ≡ ok (result, after)
      → IsSettled job now db after result
          (update (is_owned job) (succeeded_row job now) db.deliveries)
          Settled.succeeded
        × (after.attempts ≡ db.attempts)
  unfolding settle_success
  settle_success-ok h =
      let (healthy, first, more) =
        >>=-eq-ok (record_success job.endpoint.id now db)
          (λ healthy. ok (
            settled (exists (is_owned job) healthy.deliveries) job now Settled.succeeded
              (record healthy {
                deliveries = update (is_owned job) (succeeded_row job now) healthy.deliveries;
              })))
          h in
      let kept = record_success-ok job.endpoint.id now db healthy first in
      let parts =
        settled_parts (exists (is_owned job) healthy.deliveries) job now Settled.succeeded result
          (record healthy {
            deliveries = update (is_owned job) (succeeded_row job now) healthy.deliveries;
          })
          after (ok-inj more) in
      rw (← kept.0, ← kept.1) ((parts.0, parts.1.0), parts.1.1)

  settle_action-ok :
      (outcome : Outcome) (retry_at : Option ℤ) (action : Action) (start : Db)
      → settle_action job outcome retry_at action now start ≡ ok (result, after)
      → IsSettled job now start after result
          (applied_rows job action now (
            update
              (is_owned job)
              (failure_row job (error_of outcome) retry_at action now)
              start.deliveries))
          (failure_result retry_at action)
        × (after.attempts ≡ start.attempts)
  unfolding settle_action
  settle_action-ok outcome retry_at action start h =
      let written = record start {
        deliveries =
            update (is_owned job) (failure_row job (error_of outcome) retry_at action now)
              start.deliveries;
      } in
      let mine = exists (is_owned job) start.deliveries in
      let (applied, done, more) =
        >>=-eq-ok (apply job action now written)
          (λ applied. ok (settled mine job now (failure_result retry_at action) applied)) h in
      let kept = apply-ok job action now written applied done in
      let parts =
        settled_parts mine job now (failure_result retry_at action) result applied after
          (ok-inj more) in
      rw (← kept.0, ← kept.1) ((parts.0, parts.1.0), parts.1.1)

  settle_failure-ok :
      (outcome : Outcome) (retry_at : Option ℤ) (policy : Policy)
      → settle_failure job outcome retry_at policy now db ≡ ok (result, after)
      → ((count : ℕ) × IsSettled job now db after result
            (applied_rows job (on_failure policy count now) now (
              update
                (is_owned job)
                (failure_row job (error_of outcome) retry_at (on_failure policy count now) now)
                db.deliveries))
            (failure_result retry_at (on_failure policy count now)))
        × (after.attempts ≡ db.attempts)
  unfolding settle_failure
  settle_failure-ok outcome retry_at policy h =
      let (counted, first, more) =
        >>=-eq-ok (record_failure job.endpoint.id now db)
          (λ counted.
            settle_action job outcome retry_at (on_failure policy counted.0 now) now counted.1)
          h in
      let kept = record_failure-ok job.endpoint.id now db counted first in
      let parts =
        settle_action-ok outcome retry_at (on_failure policy counted.0 now) counted.1 more in
      ((counted.0, rw (← kept.0) parts.0), rw (← kept.1) parts.1)

-- What a settle that does not fail has done.
pub settle-ok :
    (id : ℕ) (job : Job) (outcome : Outcome) (retry_at : Option ℤ) (policy : Policy) (now : ℤ)
    (db after : Db) (result : Settled)
    → settle id job outcome retry_at policy now db ≡ ok (result, after)
    → SettleSteps job now db after result outcome retry_at policy id
unfolding settle
settle-ok id job outcome retry_at policy now db after result h =
    let (recorded, first, more) =
      >>=-eq-ok (record_attempt job.delivery.id (attempt_row id job outcome now) db)
        (λ recorded.
          if outcome.succeeded
          then settle_success job now recorded.1
          else settle_failure job outcome retry_at policy now recorded.1)
        h in
    let kept =
      record_attempt-ok job.delivery.id (attempt_row id job outcome now) db recorded first in
    elim (Bool-cases outcome.succeeded) [
      | inl e ↦
          let done = settle_success-ok job now recorded.1 after result (
            if_true outcome.succeeded (settle_success job now recorded.1)
              (settle_failure job outcome retry_at policy now recorded.1) e more) in
          record {
            recorded = done.1 ∙ ap (λ x. x.attempts) kept;
            settled_as = inl (e, rw (← ap (λ x. x.deliveries) kept) done.0);
          }
      | inr e ↦
          let done = settle_failure-ok job now recorded.1 after result outcome retry_at policy (
            if_false outcome.succeeded (settle_success job now recorded.1)
              (settle_failure job outcome retry_at policy now recorded.1) e more) in
          record {
            recorded = done.1 ∙ ap (λ x. x.attempts) kept;
            settled_as = inr (e, rw (← ap (λ x. x.deliveries) kept) done.0);
          }
    ]
