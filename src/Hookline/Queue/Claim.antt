-- ===== src/Hookline/Queue/Claim.antt =====
-- Which deliveries `claim` of hookline/src/queue.rs takes.
use aiiiia.Hookline.Store.{get_endpoint}
use aiiiia.Hookline.Queue.Leases.{selected_lem, take_leases_outside}
use aiiiia.Hookline.Queue.Open.{
  is_enabled, is_open, is_claimable, IsBlocked, is_unlimited-is_enabled, blocked_unlimited,
  blocked_next, AreOpen, ready-AreOpen,
}
use aiiiia.Prelude.{
  order_by, All-mono, subst, ==_iff, ℕ, ◌-◌, ◌≡◌, ◌≢◌, refl, sym, ap, ◌∙◌, true, false, ◌&&◌, List,
  [], ◌∷◌, ltb, ◌==◌, length, All, Bool-cases, inl, inr,
}
use aiiiia.Prelude.Int.{ℤ, ◌+ℤ◌}
use aiiiia.Prelude.Results.{ok, ◌>>=◌, >>=-eq-ok, ok-inj}
use aiiiia.Hookline.Models.{Delivery, Endpoint, Db}
use aiiiia.Hookline.Tables.{All-append, rows_where, limit_rows}
use aiiiia.Hookline.Queue.{
  job_made, read_delivery, message_of, allow_next, Job, is_due, is_closed, is_unlimited, is_ready,
  is_sooner, take_leases, unlimited_ids, claim_unlimited, next_ids, claim_next, claim_each,
  claim_limited, claim_deliveries, job_of, jobs_of, claim,
}

pub allow_next_rows :
    (now : ℤ) (e : Endpoint) (claimed : List Delivery) (db : Db)
    → ((allow_next now e claimed db).0 ≡ claimed)
      × ((allow_next now e claimed db).1.deliveries ≡ db.deliveries)
unfolding allow_next
allow_next_rows now e [] db = (refl, refl)
allow_next_rows now e (d ∷ more) db = (refl, refl)

claim_unlimited_keeps :
    (now lease_millis : ℤ) (limit : ℕ) (db : Db)
    → ((claim_unlimited now lease_millis limit db).1.endpoints ≡ db.endpoints)
      × ((claim_unlimited now lease_millis limit db).1.health ≡ db.health)
unfolding claim_unlimited
claim_unlimited_keeps now lease_millis limit db = (refl, refl)

module _ (now lease_millis : ℤ) (i : ℕ) (start : Db) where
  -- A pass takes nothing of a blocked id, and leaves it blocked.
  claim_unlimited-IsBlocked :
      (limit : ℕ)
      → IsBlocked now start i start.deliveries
      → All (λ d. d.id ≢ i) (claim_unlimited now lease_millis limit start).0
        × IsBlocked now start i (claim_unlimited now lease_millis limit start).1.deliveries
  unfolding claim_unlimited
  claim_unlimited-IsBlocked limit h =
      take_leases_outside now lease_millis (unlimited_ids now limit start) i start.deliveries
        (λ d. is_claimable now start d ≡ false)
        (selected_lem
          (λ d.
            is_due now d
            && (is_unlimited start.endpoints d.endpoint_id
                && is_closed now start.health d.endpoint_id))
          is_sooner limit i start.deliveries
          (All-mono (λ d. d.id ≡ i → is_claimable now start d ≡ false)
            (λ d.
              d.id ≡ i
              → (is_due now d
                  && (is_unlimited start.endpoints d.endpoint_id
                      && is_closed now start.health d.endpoint_id))
                ≡ false)
            start.deliveries
            (λ d blocked same.
              blocked_unlimited (is_due now d) (is_unlimited start.endpoints d.endpoint_id)
                (is_enabled start.endpoints d.endpoint_id)
                (is_closed now start.health d.endpoint_id)
                (is_unlimited-is_enabled start.endpoints d.endpoint_id) (blocked same))
            h))
        h

  claim_next-IsBlocked :
      (e : Endpoint) (db : Db)
      → is_open now start e.id ≡ true
      → IsBlocked now start i db.deliveries
      → All (λ d. d.id ≢ i) (claim_next now lease_millis e db).0
        × IsBlocked now start i (claim_next now lease_millis e db).1.deliveries
  unfolding claim_next
  claim_next-IsBlocked e db opened h =
      let taken = take_leases now lease_millis (next_ids now e.id db.deliveries) db.deliveries in
      let kept =
        take_leases_outside now lease_millis (next_ids now e.id db.deliveries) i db.deliveries
          (λ d. is_claimable now start d ≡ false)
          (selected_lem (λ d. (d.endpoint_id == e.id) && is_due now d) is_sooner 1 i db.deliveries
            (All-mono (λ d. d.id ≡ i → is_claimable now start d ≡ false)
              (λ d. d.id ≡ i → ((d.endpoint_id == e.id) && is_due now d) ≡ false) db.deliveries
              (λ d blocked same.
                blocked_next (d.endpoint_id == e.id) (is_due now d)
                  (is_open now start d.endpoint_id)
                  (λ b. ap (is_open now start) ((==_iff d.endpoint_id e.id).0 b) ∙ opened)
                  (blocked same))
              h))
          h in
      let same = allow_next_rows now e taken.0 (record db { deliveries = taken.1 }) in
      rw (same.0, same.1) kept

  claim_each-IsBlocked :
      (ready : List Endpoint) (db : Db)
      → AreOpen now start ready
      → IsBlocked now start i db.deliveries
      → All (λ d. d.id ≢ i) (claim_each now lease_millis ready db).0
        × IsBlocked now start i (claim_each now lease_millis ready db).1.deliveries
  unfolding claim_each
  claim_each-IsBlocked [] db opened h = (tt, h)
  claim_each-IsBlocked (e ∷ ready) db opened h =
      let first = claim_next now lease_millis e db in
      let this = claim_next-IsBlocked e db opened.0 h in
      let others = claim_each-IsBlocked ready first.1 opened.1 this.1 in
      (
        All-append (λ d. d.id ≢ i) first.0 (claim_each now lease_millis ready first.1).0 this.0
            others.0,
        others.1,
      )

  claim_limited-IsBlocked :
      (limit : ℕ) (db : Db)
      → (db.endpoints ≡ start.endpoints) × (db.health ≡ start.health)
      → IsBlocked now start i db.deliveries
      → All (λ d. d.id ≢ i) (claim_limited now lease_millis limit db).0
        × IsBlocked now start i (claim_limited now lease_millis limit db).1.deliveries
  unfolding claim_limited
  claim_limited-IsBlocked limit db (ends, healths) h =
      claim_each-IsBlocked
        (limit_rows limit
          (order_by (λ a b. ltb a.id b.id) (rows_where (is_ready now db) db.endpoints)))
        db
        (let ready =
            limit_rows limit
              (order_by (λ a b. ltb a.id b.id) (rows_where (is_ready now db) db.endpoints)) in
          All-mono (λ e. is_open now db e.id ≡ true) (λ e. is_open now start e.id ≡ true) ready
            (λ e known. rw (← ends, ← healths) known) (ready-AreOpen now limit db))
        h

  claim_deliveries-IsBlocked :
      (limit : ℕ)
      → IsBlocked now start i start.deliveries
      → All (λ d. d.id ≢ i) (claim_deliveries now lease_millis limit start).0
  unfolding claim_deliveries
  claim_deliveries-IsBlocked limit h =
      let claimed = claim_unlimited now lease_millis limit start in
      let rest = limit - length claimed.0 in
      let first = claim_unlimited-IsBlocked limit h in
      let second =
        claim_limited-IsBlocked rest claimed.1 (claim_unlimited_keeps now lease_millis limit start)
          first.1 in
      elim (Bool-cases (ltb (length claimed.0) limit)) [
        | inl e ↦ rw e (
            All-append (λ d. d.id ≢ i) claimed.0 (claim_limited now lease_millis rest claimed.1).0
              first.0 second.0)
        | inr e ↦ rw e first.0
      ]

pub job_of-delivery :
    (now until : ℤ) (db : Db) (d : Delivery) (job : Job)
    → job_of now until db d ≡ ok job
    → job.delivery ≡ read_delivery d
unfolding job_of
job_of-delivery now until db d job h =
    let (e, _, more) =
      >>=-eq-ok (get_endpoint db d.app_id d.endpoint_id)
        (λ e. message_of db d >>= λ m. ok (job_made now until db d e m)) h in
    let (m, _, made) = >>=-eq-ok (message_of db d) (λ m. ok (job_made now until db d e m)) more in
    sym (ap (λ j. j.delivery) (ok-inj made))

-- What holds of the ids claimed holds of the jobs' ids.
pub All-jobs_of :
    (P : ℕ → Type 0) (now until : ℤ) (db : Db) (claimed : List Delivery) (jobs : List Job)
    → jobs_of now until db claimed ≡ ok jobs
    → All (λ d. P d.id) claimed
    → All (λ j. P j.delivery.id) jobs
unfolding jobs_of
All-jobs_of P now until db [] jobs h all = rw (← ok-inj h) tt
All-jobs_of P now until db (d ∷ claimed) jobs h all =
    let (job, found, more) =
      >>=-eq-ok (job_of now until db d)
        (λ job. jobs_of now until db claimed >>= λ jobs. ok (job ∷ jobs)) h in
    let (others, rest, whole) =
      >>=-eq-ok (jobs_of now until db claimed) (λ jobs. ok (job ∷ jobs)) more in
    rw (← ok-inj whole) (
      subst P (sym (ap (λ r. r.id) (job_of-delivery now until db d job found))) all.0,
      All-jobs_of P now until db claimed others rest all.1,
    )

-- No delivery is claimed unless a row of that id is due, not leased, and to an endpoint that is enabled
-- and whose circuit is closed.
pub claim_only_claimable :
    (now lease_millis : ℤ) (limit : ℕ) (db after : Db) (jobs : List Job) (i : ℕ)
    → claim now lease_millis limit db ≡ ok (jobs, after)
    → All (λ d. d.id ≡ i → is_claimable now db d ≡ false) db.deliveries
    → All (λ j. j.delivery.id ≢ i) jobs
unfolding claim
claim_only_claimable now lease_millis limit db after jobs i h blocked =
    let claimed = claim_deliveries now lease_millis limit db in
    let (found, made, out) =
      >>=-eq-ok (jobs_of now (now +ℤ lease_millis) claimed.1 claimed.0)
        (λ jobs. ok (jobs, claimed.1)) h in
    subst (All (λ j. j.delivery.id ≢ i)) (ap (λ r. r.0) (ok-inj out)) (
      All-jobs_of (λ id. id ≢ i) now (now +ℤ lease_millis) claimed.1 claimed.0 found made
        (claim_deliveries-IsBlocked now lease_millis i db limit blocked))
