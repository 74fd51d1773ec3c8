-- ===== src/Hookline/Queue/Settle/Total.antt =====
-- `settle` of hookline/src/queue.rs does not fail on rows that are there.
use aiiiia.Hookline.Queue.Settle.Steps.{record_attempt-ok}
use aiiiia.Hookline.Breaker.{Policy, on_failure, Action, carry_on, open_until, disable}
use aiiiia.Hookline.Models.{StoreError, Endpoint, Health, Attempt, Db, repeated_failures}
use aiiiia.Hookline.Queue.{Result, Job}
use aiiiia.Hookline.Queue.Settle.{
  Outcome, Settled, attempt_row, is_owned, succeeded_row, settled, error_of, failure_row,
  failure_result, settle_success, settle_action, settle_failure, settle, apply,
}
use aiiiia.Hookline.Store.{
  health_of, record_success, record_failure, get_endpoint, upserted, upsert_health, open_circuit,
  disabled_db, disable_endpoint, record_attempt,
}
use aiiiia.Hookline.Tables.{first_where, exists, update}
use aiiiia.Prelude.Int.{ℤ}
use aiiiia.Prelude.Results.{ok}
use aiiiia.Prelude.{
  ◌+◌, ◌%◌, ◌^◌, sym, subst, Option, none, if◌then◌else◌, ==_iff, ◌≡◌, refl, ◌∙◌, inl, inr, Bool,
  true, false, ◌&&◌, some, List, [], ◌∷◌, ◌++◌, arith, Bool-cases, ℕ, ◌==◌, ◌||◌,
}

after_false : (a b : Bool) → a ≡ false → (a || b) ≡ true → b ≡ true
after_false a b e h = ground arith

or_true : (a : Bool) → (a || true) ≡ true
or_true a = ground arith

and_first : (a b : Bool) → (a && b) ≡ true → a ≡ true
and_first a b h = ground arith

or_mono :
    (a b c d : Bool)
    → (a ≡ true → b ≡ true)
    → (c ≡ true → d ≡ true)
    → (a || c) ≡ true
    → (b || d) ≡ true
or_mono a b c d h k both = grind arith

module _ {ℓ} {A : Type ℓ} where
  first_where_total :
      (p : A → Bool) (rows : List A)
      → exists p rows ≡ true
      → (a : A) × (first_where p rows ≡ some a)
  first_where_total p [] h = cc
  first_where_total p (a ∷ rows) h = elim (Bool-cases (p a)) [
    | inl e ↦ rw e (a, refl)
    | inr e ↦ rw e (first_where_total p rows (after_false (p a) (exists p rows) e h))
  ]

  exists-append :
      (p : A → Bool) (rows : List A) (a : A) → p a ≡ true → exists p (rows ++ a ∷ []) ≡ true
  exists-append p [] a h = grind arith
  exists-append p (b ∷ rows) a h = rw (exists-append p rows a h) (or_true (p b))

  exists-update :
      (p q : A → Bool) (change : A → A) (rows : List A)
      → ((a : A) → p (change a) ≡ p a)
      → exists p (update q change rows) ≡ exists p rows
  exists-update p q change [] same = refl
  exists-update p q change (a ∷ rows) same = elim (Bool-cases (q a)) [
    | inl e ↦ rw (e, same a, exists-update p q change rows same)
    | inr e ↦ rw (e, exists-update p q change rows same)
  ]

  exists_mono :
      (p q : A → Bool) (rows : List A)
      → ((a : A) → p a ≡ true → q a ≡ true)
      → exists p rows ≡ true
      → exists q rows ≡ true
  exists_mono p q [] step h = h
  exists_mono p q (a ∷ rows) step h =
      or_mono (p a) (q a) (exists p rows) (exists q rows) (step a) (exists_mono p q rows step) h

-- An endpoint that is there.
abbrev pub IsPresent : Endpoint → Db → Type 0
IsPresent e db = exists (λ r. (r.id == e.id) && (r.app_id == e.app_id)) db.endpoints ≡ true

get_endpoint_total :
    (e : Endpoint) (db : Db)
    → IsPresent e db
    → (found : Endpoint) × (get_endpoint db e.app_id e.id ≡ ok found)
unfolding get_endpoint
get_endpoint_total e db h =
    let (found, same) =
      first_where_total (λ r. (r.id == e.id) && (r.app_id == e.app_id)) db.endpoints h in
    rw same (found, refl)

record_attempt_total :
    (delivery_id : ℕ) (row : Attempt) (db : Db)
    → exists (λ a. a.id == row.id) db.attempts ≡ false
    → exists (λ d. d.id == delivery_id) db.deliveries ≡ true
    → (out : Attempt × Db) × (record_attempt delivery_id row db ≡ ok out)
unfolding record_attempt
record_attempt_total delivery_id row db fresh known =
    let after = record db { attempts = db.attempts ++ row ∷ [] } in
    let (a, found) =
      first_where_total (λ a. a.id == row.id) after.attempts
        (exists-append (λ a. a.id == row.id) db.attempts row ((==_iff row.id row.id).1 refl)) in
    rw (fresh, known, found) ((a, after), refl)

upsert_health_total :
    (e : Endpoint) (change : Health → Health) (db : Db)
    → IsPresent e db
    → upsert_health e.id change db ≡ ok (record db { health = upserted e.id change db.health })
upsert_health_total e change db h =
    let known =
      exists_mono (λ r. (r.id == e.id) && (r.app_id == e.app_id)) (λ r. r.id == e.id) db.endpoints
        (λ r k. and_first (r.id == e.id) (r.app_id == e.app_id) k) h in
    rw (known, or_true (exists (λ r. r.endpoint_id == e.id) db.health)) refl

apply_total :
    (job : Job) (action : Action) (now : ℤ) (db : Db)
    → IsPresent job.endpoint db
    → (after : Db) × (apply job action now db ≡ ok after)
unfolding apply disable_endpoint
apply_total job carry_on now db h = (db, refl)
apply_total job (open_until until) now db h = (open_circuit job.endpoint.id until db, refl)
apply_total job disable now db h =
    let e = job.endpoint in
    let after = disabled_db e.app_id e.id repeated_failures now db in
    let here : Endpoint → Bool = λ r. (r.id == e.id) && (r.app_id == e.app_id) in
    let (found, first) = get_endpoint_total e db h in
    let (kept, second) = get_endpoint_total e after (
      exists-update here here
        (λ r. record r {
          disabled_at = some now;
          disabled_reason = some repeated_failures;
          updated_at = now;
        })
        db.endpoints (λ r. refl)
      ∙ h) in
    rw (first, second) (after, refl)

settle_success_total :
    (job : Job) (now : ℤ) (db : Db)
    → IsPresent job.endpoint db
    → (out : Settled × Db) × (settle_success job now db ≡ ok out)
unfolding settle_success record_success
settle_success_total job now db h =
    let change : Health → Health = λ r. record r {
      consecutive_failures = 0;
      circuit_open_until = none;
      last_success_at = some now;
    } in
    let healthy = record db { health = upserted job.endpoint.id change db.health } in
    rw (upsert_health_total job.endpoint change db h) (
      settled (exists (is_owned job) healthy.deliveries) job now Settled.succeeded (record healthy {
        deliveries = update (is_owned job) (succeeded_row job now) healthy.deliveries;
      }),
      refl,
    )

settle_failure_total :
    (job : Job) (outcome : Outcome) (retry_at : Option ℤ) (policy : Policy) (now : ℤ) (db : Db)
    → IsPresent job.endpoint db
    → (out : Settled × Db) × (settle_failure job outcome retry_at policy now db ≡ ok out)
unfolding settle_failure settle_action record_failure
settle_failure_total job outcome retry_at policy now db h =
    let id = job.endpoint.id in
    let change : Health → Health = λ r. record r {
      consecutive_failures = r.consecutive_failures + 1;
      last_failure_at = some now;
    } in
    let counted = record db { health = upserted id change db.health } in
    let count = (health_of counted id).consecutive_failures % 2 ^ 32 in
    let action = on_failure policy count now in
    let row = failure_row job (error_of outcome) retry_at action now in
    let (applied, done) =
      apply_total job action now
        (record counted { deliveries = update (is_owned job) row counted.deliveries }) h in
    rw (upsert_health_total job.endpoint change db h, done)
      (
        settled (exists (is_owned job) counted.deliveries) job now (failure_result retry_at action)
            applied,
        refl,
      )

either_total :
    (b : Bool) (x y : Result StoreError (Settled × Db))
    → (out : Settled × Db) × (x ≡ ok out)
    → (out : Settled × Db) × (y ≡ ok out)
    → (out : Settled × Db) × ((if b then x else y) ≡ ok out)
either_total true x y h k = h
either_total false x y h k = k

-- A settle returns, and does not fail, when the attempt's id is new and the job's delivery and endpoint
-- have not been deleted.
pub settle_total :
    (id : ℕ) (job : Job) (outcome : Outcome) (retry_at : Option ℤ) (policy : Policy) (now : ℤ)
    (db : Db)
    → exists (λ a. a.id == id) db.attempts ≡ false
    → exists (λ d. d.id == job.delivery.id) db.deliveries ≡ true
    → IsPresent job.endpoint db
    → (out : Settled × Db) × (settle id job outcome retry_at policy now db ≡ ok out)
unfolding settle
settle_total id job outcome retry_at policy now db fresh known here =
    let row = attempt_row id job outcome now in
    let (recorded, first) = record_attempt_total job.delivery.id row db fresh known in
    let kept = record_attempt-ok job.delivery.id row db recorded first in
    let still = subst (IsPresent job.endpoint) (sym kept) here in
    rw first (
      either_total outcome.succeeded (settle_success job now recorded.1)
        (settle_failure job outcome retry_at policy now recorded.1)
        (settle_success_total job now recorded.1 still)
        (settle_failure_total job outcome retry_at policy now recorded.1 still))
