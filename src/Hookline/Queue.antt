-- ===== src/Hookline/Queue.antt =====
-- hookline/src/queue.rs: which deliveries to attempt next, and what the workers write when they are done.
-- A statement is a function on the tables; a transaction that fails leaves the tables as they were.
pub mod Leases
pub mod Open
pub mod Claim
pub mod Exclusive
pub mod Effect
pub mod Settle
mod Tests
use aiiiia.Hookline.Store.{get_endpoint, upserted}
use aiiiia.Prelude.{
  is_some, is_none, is_in, order_by, ◌%◌, ◌^◌, ℕ, ◌-◌, ◌/◌, max, Option, none, some, Bool, true,
  false, not, ◌&&◌, ◌||◌, List, [], ◌∷◌, ◌++◌, map, ltb, ◌==◌, if◌then◌else◌, length, ◌≡◌,
}
use aiiiia.Prelude.Int.{ℤ, pos, pos_part, ◌+ℤ◌, ltb_ℤ, leb_ℤ}
use aiiiia.Prelude.Results.{Result, err, ok, ok_or, ◌>>=◌}
use aiiiia.Hookline.Models.{
  is_pending, DeliveryStatus, pending, succeeded, failed, cancelled, Delivery, Endpoint, Health,
  Message, Secret, Db, StoreError, not_found, is_active,
}
use aiiiia.Hookline.Tables.{is_after, is_past, rows_where, first_where, exists, update, limit_rows}

pub record Job : Type 0 where
  pub delivery : Delivery
  pub endpoint : Endpoint
  pub message : Message
  pub secrets : List ℕ
  pub lease_until : ℤ

abbrev pub rate_period : ℕ
rate_period = 60_000

-- `status = 'pending' AND next_at <= ?1 AND (lease_until IS NULL OR lease_until <= ?1)`
abbrev pub is_due : ℤ → Delivery → Bool
is_due now d = is_pending d.status && (leb_ℤ d.next_at now && is_past d.lease_until now)

-- `NOT EXISTS (SELECT 1 FROM endpoint_health h WHERE ... h.circuit_open_until > ?1)`; the left join says
-- the same, since endpoint_id is the key of endpoint_health.
abbrev pub is_closed : ℤ → List Health → ℕ → Bool
is_closed now health endpoint_id =
    not (exists (λ h. (h.endpoint_id == endpoint_id) && is_after h.circuit_open_until now) health)

abbrev pub is_allowed : ℤ → List Health → ℕ → Bool
is_allowed now health endpoint_id =
    not (exists (λ h. (h.endpoint_id == endpoint_id) && is_after h.next_allowed_at now) health)

-- ORDER BY next_at, id
abbrev pub is_sooner : Delivery → Delivery → Bool
is_sooner a b = ltb_ℤ a.next_at b.next_at || (leb_ℤ a.next_at b.next_at && ltb a.id b.id)

-- SET lease_until = ?1 + ?2, updated_at = ?1
abbrev pub lease : ℤ → ℤ → Delivery → Delivery
lease now lease_millis d = record d { lease_until = some (now +ℤ lease_millis); updated_at = now }

abbrev pub delivery_ids : List Delivery → List ℕ
delivery_ids [] = []
delivery_ids (d ∷ rows) = d.id ∷ delivery_ids rows

-- UPDATE deliveries ... WHERE id IN ids RETURNING *
abbrev pub take_leases : ℤ → ℤ → List ℕ → List Delivery → List Delivery × List Delivery
take_leases now lease_millis ids rows =
    let here : Delivery → Bool = λ d. is_in d.id ids in
    (map (lease now lease_millis) (rows_where here rows), update here (lease now lease_millis) rows)

-- The endpoint, joined on its key, has no limit of its own and is not disabled.
abbrev pub is_unlimited : List Endpoint → ℕ → Bool
is_unlimited endpoints endpoint_id =
    exists (λ e. (e.id == endpoint_id) && (is_none e.rate_limit && is_none e.disabled_at)) endpoints

abbrev pub unlimited_ids : ℤ → ℕ → Db → List ℕ
unlimited_ids now limit db = delivery_ids (
    limit_rows limit (
      order_by is_sooner (
        rows_where
          (λ d.
            is_due now d
            && (is_unlimited db.endpoints d.endpoint_id && is_closed now db.health d.endpoint_id))
          db.deliveries)))

unfoldable pub claim_unlimited : ℤ → ℤ → ℕ → Db → List Delivery × Db
claim_unlimited now lease_millis limit db =
    let taken = take_leases now lease_millis (unlimited_ids now limit db) db.deliveries in
    (taken.0, record db { deliveries = taken.1 })

-- A rate limited endpoint that may be sent to and has work due.
abbrev pub is_ready : ℤ → Db → Endpoint → Bool
is_ready now db e =
    is_some e.rate_limit
    && (is_none e.disabled_at
        && (is_closed now db.health e.id
            && (is_allowed now db.health e.id
                && exists (λ d. (d.endpoint_id == e.id) && is_due now d) db.deliveries)))

abbrev pub spacing : Option ℤ → ℕ
spacing none = rate_period
spacing (some rate_limit) = max (rate_period / max (pos_part rate_limit) 1) 1

-- The first delivery due to the endpoint, if there is one.
abbrev pub next_ids : ℤ → ℕ → List Delivery → List ℕ
next_ids now endpoint_id rows = delivery_ids (
    limit_rows 1
      (order_by is_sooner (rows_where (λ d. (d.endpoint_id == endpoint_id) && is_due now d) rows)))

-- INSERT INTO endpoint_health(endpoint_id, next_allowed_at) ... ON CONFLICT DO UPDATE; the endpoint was
-- read in the same transaction, so its key is there.
abbrev pub allow_at : ℕ → ℤ → List Health → List Health
allow_at endpoint_id at health =
    upserted endpoint_id (λ h. record h { next_allowed_at = some at }) health

-- What a turn of the loop does once it has leased a delivery, or has found none.
unfoldable pub allow_next : ℤ → Endpoint → List Delivery → Db → List Delivery × Db
allow_next now e [] db = ([], db)
allow_next now e (d ∷ more) db =
    (d ∷ more, record db { health = allow_at e.id (now +ℤ pos (spacing e.rate_limit)) db.health })

-- One turn of the loop over the endpoints that are ready.
unfoldable pub claim_next : ℤ → ℤ → Endpoint → Db → List Delivery × Db
claim_next now lease_millis e db =
    let taken = take_leases now lease_millis (next_ids now e.id db.deliveries) db.deliveries in
    allow_next now e taken.0 (record db { deliveries = taken.1 })

unfoldable pub claim_each : ℤ → ℤ → List Endpoint → Db → List Delivery × Db
claim_each now lease_millis [] db = ([], db)
claim_each now lease_millis (e ∷ ready) db =
    let first = claim_next now lease_millis e db in
    let rest = claim_each now lease_millis ready first.1 in (first.0 ++ rest.0, rest.1)

unfoldable pub claim_limited : ℤ → ℤ → ℕ → Db → List Delivery × Db
claim_limited now lease_millis limit db =
    let ready =
      limit_rows limit
        (order_by (λ a b. ltb a.id b.id) (rows_where (is_ready now db) db.endpoints)) in
    claim_each now lease_millis ready db

-- Both passes of a claim.
unfoldable pub claim_deliveries : ℤ → ℤ → ℕ → Db → List Delivery × Db
claim_deliveries now lease_millis limit db =
    let claimed = claim_unlimited now lease_millis limit db in
    if ltb (length claimed.0) limit
    then (let more = claim_limited now lease_millis (limit - length claimed.0) claimed.1 in
        (claimed.0 ++ more.0, more.1))
    else claimed

-- store::secrets::active
abbrev pub active_secrets : List Secret → ℕ → ℤ → List ℕ
active_secrets secrets endpoint_id now =
    map (λ s. s.secret)
      (order_by
        (λ a b.
          ltb_ℤ b.created_at a.created_at || (leb_ℤ b.created_at a.created_at && ltb b.id a.id))
        (rows_where (λ s. (s.endpoint_id == endpoint_id) && is_active s now) secrets))

unfoldable pub message_of : Db → Delivery → Result StoreError Message
message_of db d =
    ok_or (first_where (λ m. (m.id == d.message_id) && (m.app_id == d.app_id)) db.messages)
      not_found

-- `Delivery::from_row`, whose attempts are an i64 cast to u32.
abbrev pub read_delivery : Delivery → Delivery
read_delivery d = record d { attempts = d.attempts % 2 ^ 32 }

abbrev pub job_made : ℤ → ℤ → Db → Delivery → Endpoint → Message → Job
job_made now lease_until db d e m = record {
  delivery = read_delivery d;
  endpoint = e;
  message = m;
  secrets = active_secrets db.secrets d.endpoint_id now;
  lease_until = lease_until;
}

unfoldable pub job_of : ℤ → ℤ → Db → Delivery → Result StoreError Job
job_of now lease_until db d = get_endpoint db d.app_id d.endpoint_id >>= λ e.
    message_of db d >>= λ m. ok (job_made now lease_until db d e m)

unfoldable pub jobs_of : ℤ → ℤ → Db → List Delivery → Result StoreError (List Job)
jobs_of now lease_until db [] = ok []
jobs_of now lease_until db (d ∷ claimed) = job_of now lease_until db d >>= λ job.
    jobs_of now lease_until db claimed >>= λ jobs. ok (job ∷ jobs)

unfoldable pub claim : ℤ → ℤ → ℕ → Db → Result StoreError (List Job × Db)
claim now lease_millis limit db =
    let claimed = claim_deliveries now lease_millis limit db in
    jobs_of now (now +ℤ lease_millis) claimed.1 claimed.0 >>= λ jobs. ok (jobs, claimed.1)
