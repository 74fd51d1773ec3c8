-- ===== src/Hookline/Queue/Settle/Steps.antt =====
-- What each step of `settle` in hookline/src/queue.rs leaves when it does not fail.
use aiiiia.Hookline.Tables.{first_where}
use aiiiia.Hookline.Breaker.{Action, carry_on, open_until, disable}
use aiiiia.Hookline.Models.{
  DisabledReason, Endpoint, repeated_failures, not_found, constraint, Delivery, Health, Attempt, Db,
}
use aiiiia.Hookline.Queue.{exists, Job}
use aiiiia.Hookline.Queue.Settle.{apply}
use aiiiia.Hookline.Store.{
  get_endpoint, health_of, record_success, record_failure, disabled_db, upserted, upsert_health,
  open_circuit, cancel_pending, disable_endpoint, record_attempt,
}
use aiiiia.Prelude.Int.{ℤ}
use aiiiia.Prelude.Results.{>>=-eq-ok, ok_or, ok-inj, if_err, if_ok, ◌>>=◌, ok}
use aiiiia.Prelude.{
  ◌||◌, ◌+◌, ◌%◌, ◌^◌, sym, ap, ◌∙◌, not, ◌||◌, none, some, ◌==◌, ◌≡◌, List, [], ◌∷◌, ◌++◌, ℕ,
}

pub record_attempt-ok :
    (delivery_id : ℕ) (row : Attempt) (db : Db) (out : Attempt × Db)
    → record_attempt delivery_id row db ≡ ok out
    → out.1 ≡ record db { attempts = db.attempts ++ row ∷ [] }
unfolding record_attempt
record_attempt-ok delivery_id row db out h =
    let twice =
      exists (λ a. a.id == row.id) db.attempts
      || not (exists (λ d. d.id == delivery_id) db.deliveries) in
    let after = record db { attempts = db.attempts ++ row ∷ [] } in
    let (fresh, more) =
      if_err twice constraint
        (ok_or (first_where (λ a. a.id == row.id) after.attempts) not_found >>= λ a. ok (a, after))
        h in
    let (a, found, made) =
      >>=-eq-ok (ok_or (first_where (λ a. a.id == row.id) after.attempts) not_found)
        (λ a. ok (a, after)) more in
    sym (ap (λ r. r.1) (ok-inj made))

upsert_health-ok :
    (endpoint_id : ℕ) (change : Health → Health) (db after : Db)
    → upsert_health endpoint_id change db ≡ ok after
    → after ≡ record db { health = upserted endpoint_id change db.health }
upsert_health-ok endpoint_id change db after h =
    let known =
      exists (λ r. r.endpoint_id == endpoint_id) db.health
      || exists (λ e. e.id == endpoint_id) db.endpoints in
    sym (
      ok-inj
        (if_ok known constraint (ok (record db { health = upserted endpoint_id change db.health }))
          h).1)

disable_endpoint-ok :
    (app_id id : ℕ) (reason : DisabledReason) (now : ℤ) (db : Db) (out : Endpoint × Db)
    → disable_endpoint app_id id reason now db ≡ ok out
    → (out.1.deliveries ≡ cancel_pending id now db.deliveries) × (out.1.attempts ≡ db.attempts)
unfolding disable_endpoint
disable_endpoint-ok app_id id reason now db out h =
    let after = disabled_db app_id id reason now db in
    let (found, _, more) =
      >>=-eq-ok (get_endpoint db app_id id)
        (λ found. get_endpoint after app_id id >>= λ e. ok (e, after)) h in
    let (e, _, made) = >>=-eq-ok (get_endpoint after app_id id) (λ e. ok (e, after)) more in
    let same = sym (ap (λ r. r.1) (ok-inj made)) in
    (ap (λ x. x.deliveries) same, ap (λ x. x.attempts) same)

-- The deliveries once the breaker's action is applied.
abbrev pub applied_rows : Job → Action → ℤ → List Delivery → List Delivery
applied_rows job carry_on now rows = rows
applied_rows job (open_until until) now rows = rows
applied_rows job disable now rows = cancel_pending job.endpoint.id now rows

pub apply-ok :
    (job : Job) (action : Action) (now : ℤ) (db after : Db)
    → apply job action now db ≡ ok after
    → (after.deliveries ≡ applied_rows job action now db.deliveries)
      × (after.attempts ≡ db.attempts)
unfolding apply disable_endpoint open_circuit
apply-ok job carry_on now db after h =
    let same = sym (ok-inj h) in (ap (λ x. x.deliveries) same, ap (λ x. x.attempts) same)
apply-ok job (open_until until) now db after h =
    let same = sym (ok-inj h) in (ap (λ x. x.deliveries) same, ap (λ x. x.attempts) same)
apply-ok job disable now db after h =
    let (done, disabled, out) =
      >>=-eq-ok (disable_endpoint job.endpoint.app_id job.endpoint.id repeated_failures now db)
        (λ done. ok done.1) h in
    let same =
      disable_endpoint-ok job.endpoint.app_id job.endpoint.id repeated_failures now db done
        disabled in
    rw (← ok-inj out) same

pub record_success-ok :
    (endpoint_id : ℕ) (now : ℤ) (db after : Db)
    → record_success endpoint_id now db ≡ ok after
    → (after.deliveries ≡ db.deliveries) × (after.attempts ≡ db.attempts)
unfolding record_success
record_success-ok endpoint_id now db after h =
    let same =
      upsert_health-ok endpoint_id
        (λ r. record r {
          consecutive_failures = 0;
          circuit_open_until = none;
          last_success_at = some now;
        })
        db after h in
    (ap (λ x. x.deliveries) same, ap (λ x. x.attempts) same)

pub record_failure-ok :
    (endpoint_id : ℕ) (now : ℤ) (db : Db) (out : ℕ × Db)
    → record_failure endpoint_id now db ≡ ok out
    → (out.1.deliveries ≡ db.deliveries) × (out.1.attempts ≡ db.attempts)
unfolding record_failure
record_failure-ok endpoint_id now db out h =
    let change : Health → Health = λ r. record r {
      consecutive_failures = r.consecutive_failures + 1;
      last_failure_at = some now;
    } in
    let (after, counted, made) =
      >>=-eq-ok (upsert_health endpoint_id change db)
        (λ after. ok ((health_of after endpoint_id).consecutive_failures % 2 ^ 32, after)) h in
    let same =
      sym (ap (λ r. r.1) (ok-inj made)) ∙ upsert_health-ok endpoint_id change db after counted in
    (ap (λ x. x.deliveries) same, ap (λ x. x.attempts) same)
