-- ===== src/Hookline/Queue/Exclusive.antt =====
-- A lease keeps other workers away: two claims of hookline/src/queue.rs, one after the other.
use aiiiia.Hookline.Models.{Delivery, Endpoint, Db}
use aiiiia.Hookline.Queue.{
  is_pending, Job, take_leases, unlimited_ids, claim_unlimited, is_ready, next_ids, claim_next,
  claim_each, claim_limited, claim_deliveries, jobs_of, claim,
}
use aiiiia.Hookline.Queue.Claim.{allow_next_rows, All-jobs_of, claim_only_claimable}
use aiiiia.Hookline.Queue.Leases.{IsLeased, take_leases-IsLeased, take_leases_returned}
use aiiiia.Hookline.Queue.Open.{is_open, is_claimable}
use aiiiia.Hookline.Tables.{is_past, rows_where, limit_rows, All-append}
use aiiiia.Prelude.Int.{leb_ℤ, ℤ, ◌+ℤ◌, ◌<ℤ◌}
use aiiiia.Prelude.Results.{>>=-eq-ok, ok-inj, ok}
use aiiiia.Prelude.{
  order_by, All-mono, Any, sym, ◌∙◌, subst, Bool, ◌&&◌, Option, arith, ◌-◌, ◌≡◌, ◌≢◌, inl, inr,
  false, some, List, [], ◌∷◌, ltb, Bool-cases, length, All, ℕ,
}

module _ (now lease_millis : ℤ) (i : ℕ) where
  claim_each-IsLeased :
      (ready : List Endpoint) (db : Db)
      → IsLeased (now +ℤ lease_millis) i db.deliveries
      → IsLeased (now +ℤ lease_millis) i (claim_each now lease_millis ready db).1.deliveries
  unfolding claim_each claim_next
  claim_each-IsLeased [] db h = h
  claim_each-IsLeased (e ∷ ready) db h =
      let taken = take_leases now lease_millis (next_ids now e.id db.deliveries) db.deliveries in
      let same = allow_next_rows now e taken.0 (record db { deliveries = taken.1 }) in
      claim_each-IsLeased ready (claim_next now lease_millis e db).1 (
        rw (same.1) (
          take_leases-IsLeased now lease_millis (next_ids now e.id db.deliveries) i db.deliveries
            h))

module _ (now lease_millis : ℤ) where
  -- Of every delivery claimed the row is leased until the time the claim asks for.
  abbrev pub AreLeased : List Delivery → Db → Type 0
  AreLeased claimed db = All (λ d. IsLeased (now +ℤ lease_millis) d.id db.deliveries) claimed

  claim_each-AreLeased :
      (ready : List Endpoint) (db : Db)
      → AreLeased (claim_each now lease_millis ready db).0 (claim_each now lease_millis ready db).1
  unfolding claim_each claim_next
  claim_each-AreLeased [] db = tt
  claim_each-AreLeased (e ∷ ready) db =
      let ids = next_ids now e.id db.deliveries in
      let taken = take_leases now lease_millis ids db.deliveries in
      let first = claim_next now lease_millis e db in
      let rest = claim_each now lease_millis ready first.1 in
      let same = allow_next_rows now e taken.0 (record db { deliveries = taken.1 }) in
      All-append (λ d. IsLeased (now +ℤ lease_millis) d.id rest.1.deliveries) first.0 rest.0
        (All-mono (λ d. IsLeased (now +ℤ lease_millis) d.id first.1.deliveries)
          (λ d. IsLeased (now +ℤ lease_millis) d.id rest.1.deliveries) first.0
          (λ d known. claim_each-IsLeased now lease_millis d.id ready first.1 known)
          (rw (same.0, same.1) (take_leases_returned now lease_millis ids 0 db.deliveries)))
        (claim_each-AreLeased ready first.1)

  claim_deliveries-AreLeased :
      (limit : ℕ) (db : Db)
      → AreLeased
          (claim_deliveries now lease_millis limit db).0
          (claim_deliveries now lease_millis limit db).1
  unfolding claim_deliveries claim_limited claim_unlimited
  claim_deliveries-AreLeased limit db =
      let claimed = claim_unlimited now lease_millis limit db in
      let n = limit - length claimed.0 in
      let ready = limit_rows n (
        order_by (λ a b. ltb a.id b.id)
          (rows_where (is_ready now claimed.1) claimed.1.endpoints)) in
      let rest = claim_each now lease_millis ready claimed.1 in
      let first =
        take_leases_returned now lease_millis (unlimited_ids now limit db) 0 db.deliveries in
      elim (Bool-cases (ltb (length claimed.0) limit)) [
        | inl e ↦ rw e (
            All-append (λ d. IsLeased (now +ℤ lease_millis) d.id rest.1.deliveries) claimed.0 rest.0
              (All-mono (λ d. IsLeased (now +ℤ lease_millis) d.id claimed.1.deliveries)
                (λ d. IsLeased (now +ℤ lease_millis) d.id rest.1.deliveries) claimed.0
                (λ d known. claim_each-IsLeased now lease_millis d.id ready claimed.1 known) first)
              (claim_each-AreLeased ready claimed.1))
        | inr e ↦ rw e first
      ]

-- A lease that still runs makes a row not claimable.
running_lem :
    (later until : ℤ) (held : Option ℤ) (a b c : Bool)
    → later <ℤ until
    → held ≡ some until
    → ((a && (b && is_past held later)) && c) ≡ false
running_lem later until held a b c before h = grind arith

module _ {ℓ} {A : Type ℓ} where
  All-both :
      (P Q R : A → Type 0) (l : List A) → ((a : A) → P a → Q a → R a) → All P l → All Q l → All R l
  All-both P Q R [] step h k = tt
  All-both P Q R (a ∷ l) step h k = (step a h.0 k.0, All-both P Q R l step h.1 k.1)

  All-swap {κ} :
      {B : Type κ} (R : A → B → Type 0) (l : List A) (m : List B)
      → All (λ a. All (λ b. R a b) m) l
      → All (λ b. All (λ a. R a b) l) m
  All-swap R l [] h = tt
  All-swap R l (b ∷ m) h = (
    All-mono (λ a. All (λ c. R a c) (b ∷ m)) (λ a. R a b) l (λ a all. all.0) h,
    All-swap R l m
        (All-mono (λ a. All (λ c. R a c) (b ∷ m)) (λ a. All (λ c. R a c) m) l (λ a all. all.1) h),
  )

-- A row of that id has that lease in the table.
abbrev pub HasLease : Delivery → List Delivery → Type 0
HasLease d rows = Any (λ e. (e.id ≡ d.id) × (e.lease_until ≡ d.lease_until)) rows

lease_kept :
    (until : ℤ) (i : ℕ) (d : Delivery) (rows : List Delivery)
    → IsLeased until i rows
    → d.id ≡ i
    → HasLease d rows
    → d.lease_until ≡ some until
lease_kept until i d [] leased same found = absurd found
lease_kept until i d (e ∷ rows) leased same (inl (this, held)) = sym held ∙ leased.0 (this ∙ same)
lease_kept until i d (e ∷ rows) leased same (inr found) =
    lease_kept until i d rows leased.1 same found

-- Two claims share no delivery when the second comes before the leases of the first end and finds the
-- deliveries of the first under the leases that the first left; whatever else has changed in the tables
-- between the two claims.
pub claim_exclusive :
    (now lease_millis later more : ℤ) (limit other : ℕ) (db between current after : Db)
    (jobs others : List Job)
    → claim now lease_millis limit db ≡ ok (jobs, between)
    → All
        (λ d. All (λ j. d.id ≡ j.delivery.id → HasLease d between.deliveries) jobs)
        current.deliveries
    → later <ℤ now +ℤ lease_millis
    → claim later more other current ≡ ok (others, after)
    → All (λ j. All (λ k. k.delivery.id ≢ j.delivery.id) others) jobs
unfolding claim
claim_exclusive now lease_millis later more limit other db between current after jobs others h kept
      before k =
    let until : ℤ = now +ℤ lease_millis in
    let claimed = claim_deliveries now lease_millis limit db in
    let (found, made, out) =
      >>=-eq-ok (jobs_of now until claimed.1 claimed.0) (λ jobs. ok (jobs, claimed.1)) h in
    let same = ok-inj out in
    All-both (λ j. IsLeased until j.delivery.id between.deliveries)
      (λ j. All (λ d. d.id ≡ j.delivery.id → HasLease d between.deliveries) current.deliveries)
      (λ j. All (λ k. k.delivery.id ≢ j.delivery.id) others) jobs
      (λ j leased left. claim_only_claimable later more other current after others j.delivery.id k (
        All-mono (λ d. d.id ≡ j.delivery.id → HasLease d between.deliveries)
          (λ d. d.id ≡ j.delivery.id → is_claimable later current d ≡ false) current.deliveries
          (λ d known i.
            running_lem later until d.lease_until (is_pending d.status) (leb_ℤ d.next_at later)
              (is_open later current d.endpoint_id) before
              (lease_kept until j.delivery.id d between.deliveries leased i (known i)))
          left))
      (subst (λ r. All (λ j. IsLeased until j.delivery.id r.1.deliveries) r.0) same
        (All-jobs_of (λ id. IsLeased until id claimed.1.deliveries) now until claimed.1 claimed.0
          found made (claim_deliveries-AreLeased now lease_millis limit db)))
      (All-swap (λ d j. d.id ≡ j.delivery.id → HasLease d between.deliveries) current.deliveries
        jobs kept)
