-- ===== src/Hookline/Store.antt =====
-- hookline/src/store.rs: the operations on endpoints, deliveries, attempts and endpoint health that move
-- deliveries along. An operation either fails or returns the tables it leaves; an insert that repeats a
-- key or names a missing row fails, as the primary keys and foreign keys of the schema have it.
use aiiiia.Hookline.Models.{
  is_terminal, is_pending, DisabledReason, Delivery, Endpoint, Health, Attempt, Db, StoreError,
  pending, cancelled, was_disabled, not_found, conflict, constraint,
}
use aiiiia.Hookline.Tables.{is_after, rows_where, first_where, exists, update}
use aiiiia.Prelude.Int.{ℤ, ltb_ℤ}
use aiiiia.Prelude.Results.{◌>>=◌, Result, ok_or, require, err, ok}
use aiiiia.Prelude.{
  ◌==◌, ◌+◌, ◌%◌, ◌^◌, Bool, not, ◌&&◌, ◌||◌, none, some, List, [], ◌∷◌, ◌++◌, if◌then◌else◌,
  length, ℕ,
}

unfoldable pub get_endpoint : Db → ℕ → ℕ → Result StoreError Endpoint
get_endpoint db app_id id =
    ok_or (first_where (λ e. (e.id == id) && (e.app_id == app_id)) db.endpoints) not_found

unfoldable pub get_delivery : Db → ℕ → ℕ → Result StoreError Delivery
get_delivery db app_id id =
    ok_or (first_where (λ d. (d.id == id) && (d.app_id == app_id)) db.deliveries) not_found

-- Health: a row that is there is changed, else one is inserted.
abbrev pub empty_health : ℕ → Health
empty_health endpoint_id = record {
  endpoint_id = endpoint_id;
  consecutive_failures = 0;
  circuit_open_until = none;
  last_success_at = none;
  last_failure_at = none;
  next_allowed_at = none;
}

-- INSERT ... ON CONFLICT(endpoint_id) DO UPDATE, where the endpoint is there.
abbrev pub upserted : ℕ → (Health → Health) → List Health → List Health
upserted endpoint_id change rows =
    if exists (λ h. h.endpoint_id == endpoint_id) rows
    then update (λ h. h.endpoint_id == endpoint_id) change rows
    else rows ++ change (empty_health endpoint_id) ∷ []

abbrev pub upsert_health : ℕ → (Health → Health) → Db → Result StoreError Db
upsert_health endpoint_id change db =
    if exists (λ h. h.endpoint_id == endpoint_id) db.health
      || exists (λ e. e.id == endpoint_id) db.endpoints
    then ok (record db { health = upserted endpoint_id change db.health })
    else err constraint

unfoldable pub health_of : Db → ℕ → Health
health_of db endpoint_id = elim (first_where (λ h. h.endpoint_id == endpoint_id) db.health) [
  | none ↦ empty_health endpoint_id
  | some h ↦ h
]

unfoldable pub record_success : ℕ → ℤ → Db → Result StoreError Db
record_success endpoint_id now db =
    upsert_health endpoint_id
      (λ h. record h {
        consecutive_failures = 0;
        circuit_open_until = none;
        last_success_at = some now;
      })
      db

-- The count is returned as a u32.
unfoldable pub record_failure : ℕ → ℤ → Db → Result StoreError (ℕ × Db)
record_failure endpoint_id now db =
    upsert_health endpoint_id
      (λ h. record h {
        consecutive_failures = h.consecutive_failures + 1;
        last_failure_at = some now;
      })
      db
    >>= λ after. ok ((health_of after endpoint_id).consecutive_failures % 2 ^ 32, after)

unfoldable pub open_circuit : ℕ → ℤ → Db → Db
open_circuit endpoint_id until db = record db {
  health =
      update (λ h. h.endpoint_id == endpoint_id) (λ h. record h { circuit_open_until = some until })
        db.health;
}

unfoldable pub close_circuit : ℕ → Db → Db
close_circuit endpoint_id db = record db {
  health =
      update (λ h. h.endpoint_id == endpoint_id)
        (λ h. record h { circuit_open_until = none; consecutive_failures = 0 }) db.health;
}

-- Endpoints
abbrev pub cancel_pending : ℕ → ℤ → List Delivery → List Delivery
cancel_pending endpoint_id now rows =
    update (λ d. (d.endpoint_id == endpoint_id) && is_pending d.status)
      (λ d. record d { status = cancelled; updated_at = now; last_error = some was_disabled }) rows

abbrev pub disabled_db : ℕ → ℕ → DisabledReason → ℤ → Db → Db
disabled_db app_id id reason now db = record db {
  endpoints =
      update (λ e. (e.id == id) && (e.app_id == app_id))
        (λ e. record e { disabled_at = some now; disabled_reason = some reason; updated_at = now })
        db.endpoints;
  deliveries = cancel_pending id now db.deliveries;
}

unfoldable pub disable_endpoint :
    ℕ → ℕ → DisabledReason → ℤ → Db → Result StoreError (Endpoint × Db)
disable_endpoint app_id id reason now db = get_endpoint db app_id id >>= λ found.
    get_endpoint (disabled_db app_id id reason now db) app_id id >>= λ e.
    ok (e, disabled_db app_id id reason now db)

unfoldable pub enable_endpoint : ℕ → ℕ → ℤ → Db → Result StoreError (Endpoint × Db)
enable_endpoint app_id id now db = get_endpoint db app_id id >>= λ found.
    let after = record db {
      endpoints =
          update (λ e. (e.id == id) && (e.app_id == app_id))
            (λ e. record e { disabled_at = none; disabled_reason = none; updated_at = now })
            db.endpoints;
      health = rows_where (λ h. not (h.endpoint_id == id)) db.health;
    } in
    get_endpoint after app_id id >>= λ e. ok (e, after)

-- Returns how many deliveries were brought forward.
unfoldable pub resume : ℕ → ℕ → ℤ → Db → Result StoreError (ℕ × Db)
resume app_id id now db =
    let later : Delivery → Bool =
      λ d. (d.endpoint_id == id) && (is_pending d.status && ltb_ℤ now d.next_at) in
    get_endpoint db app_id id >>= λ found.
    let closed = close_circuit id db in
    ok (
      length (rows_where later closed.deliveries),
      record closed {
        deliveries =
            update later (λ d. record d { next_at = now; updated_at = now }) closed.deliveries;
      },
    )

-- Deliveries: what a replay and a cancel write to the row.
abbrev pub replayed : ℤ → Delivery → Delivery
replayed now d = record d {
  status = pending;
  attempts = 0;
  next_at = now;
  last_error = none;
  updated_at = now;
  lease_until = if is_after d.lease_until now then d.lease_until else none;
}

abbrev pub cancelled_row : ℤ → Delivery → Delivery
cancelled_row now d = record d { status = cancelled; lease_until = none; updated_at = now }

unfoldable pub replay : ℕ → ℕ → ℤ → Db → Result StoreError (Delivery × Db)
replay app_id id now db = get_delivery db app_id id >>= λ d.
    let after = record db {
      deliveries = update (λ r. r.id == d.id) (replayed now) db.deliveries;
    } in
    get_delivery after app_id id >>= λ r. ok (r, after)

unfoldable pub cancel : ℕ → ℕ → ℤ → Db → Result StoreError (Delivery × Db)
cancel app_id id now db = get_delivery db app_id id >>= λ d.
    require (not (is_terminal d.status)) conflict >>= λ _.
    let after = record db {
      deliveries = update (λ r. r.id == d.id) (cancelled_row now) db.deliveries;
    } in
    get_delivery after app_id id >>= λ r. ok (r, after)

-- Attempts: the id is the one that ids::new_at made.
unfoldable pub record_attempt : ℕ → Attempt → Db → Result StoreError (Attempt × Db)
record_attempt delivery_id row db =
    if exists (λ a. a.id == row.id) db.attempts
      || not (exists (λ d. d.id == delivery_id) db.deliveries)
    then err constraint
    else (let after = record db { attempts = db.attempts ++ row ∷ [] } in
        ok_or (first_where (λ a. a.id == row.id) after.attempts) not_found >>= λ a. ok (a, after))
