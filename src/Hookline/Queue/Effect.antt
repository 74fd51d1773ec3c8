-- ===== src/Hookline/Queue/Effect.antt =====
-- What `claim` of hookline/src/queue.rs writes to the deliveries.
use aiiiia.Hookline.Queue.Claim.{allow_next_rows, job_of-delivery}
use aiiiia.Prelude.Results.{>>=-eq-ok, ◌>>=◌, ok-inj, ok}
use aiiiia.Hookline.Models.{Endpoint, Db, Delivery}
use aiiiia.Hookline.Queue.{
  unlimited_ids, claim_unlimited, is_ready, next_ids, claim_next, claim_each, claim_limited,
  claim_deliveries, job_of, jobs_of, claim, Job, lease, delivery_ids, take_leases,
}
use aiiiia.Hookline.Tables.{rows_where, limit_rows, update}
use aiiiia.Prelude.Int.{◌+ℤ◌, ℤ}
use aiiiia.Prelude.{
  order_by, is_in, All-mono, ==_iff, ◌⊎◌, ◌-◌, ap, ◌∙◌, ◌⊎◌, inl, inr, Bool, true, false, arith,
  ltb, Bool-cases, length, ◌≡◌, refl, sym, List, [], ◌∷◌, ◌++◌, All, ℕ, ◌==◌, ◌||◌,
}

abbrev pub job_ids : List Job → List ℕ
job_ids [] = []
job_ids (j ∷ jobs) = j.delivery.id ∷ job_ids jobs

or_split : (a b : Bool) → (a || b) ≡ true → (a ≡ true) ⊎ (b ≡ true)
or_split true b h = inl refl
or_split false b h = inr h

or_left : (a b : Bool) → a ≡ true → (a || b) ≡ true
or_left a b h = ground arith

or_right : (a b : Bool) → b ≡ true → (a || b) ≡ true
or_right a b h = ground arith

same_test : (a b : Bool) → (a ≡ true → b ≡ true) → (b ≡ true → a ≡ true) → a ≡ b
same_test a b h k = grind arith

or_assoc : (a b c : Bool) → (a || (b || c)) ≡ ((a || b) || c)
or_assoc a b c = ground arith

is_in-append :
    (i : ℕ) (ids others : List ℕ) → is_in i (ids ++ others) ≡ (is_in i ids || is_in i others)
is_in-append i [] others = refl
is_in-append i (j ∷ ids) others =
    rw (is_in-append i ids others) (or_assoc (i == j) (is_in i ids) (is_in i others))

delivery_ids-append :
    (rows more : List Delivery)
    → delivery_ids (rows ++ more) ≡ delivery_ids rows ++ delivery_ids more
delivery_ids-append [] more = refl
delivery_ids-append (d ∷ rows) more = ap (λ r. d.id ∷ r) (delivery_ids-append rows more)

module _ (now lease_millis : ℤ) where
  -- The rows, with those of the ids leased.
  abbrev pub leased_rows : List ℕ → List Delivery → List Delivery
  leased_rows ids rows = update (λ d. is_in d.id ids) (lease now lease_millis) rows

  leased_rows-cong :
      (ids others : List ℕ) (rows : List Delivery)
      → All (λ d. is_in d.id ids ≡ is_in d.id others) rows
      → leased_rows ids rows ≡ leased_rows others rows
  leased_rows-cong ids others [] h = refl
  leased_rows-cong ids others (d ∷ rows) h = rw (h.0, leased_rows-cong ids others rows h.1)

  leased_rows_nil : (rows : List Delivery) → leased_rows [] rows ≡ rows
  leased_rows_nil [] = refl
  leased_rows_nil (d ∷ rows) = ap (λ r. d ∷ r) (leased_rows_nil rows)

  leased_rows-append :
      (ids others : List ℕ) (rows : List Delivery)
      → leased_rows others (leased_rows ids rows) ≡ leased_rows (ids ++ others) rows
  leased_rows-append ids others [] = refl
  leased_rows-append ids others (d ∷ rows) = elim (Bool-cases (is_in d.id ids)) [
    | inl e ↦ elim (Bool-cases (is_in d.id others)) [
      | inl k ↦ rw (is_in-append d.id ids others, e, k, leased_rows-append ids others rows)
      | inr k ↦ rw (is_in-append d.id ids others, e, k, leased_rows-append ids others rows)
    ]
    | inr e ↦ elim (Bool-cases (is_in d.id others)) [
      | inl k ↦ rw (is_in-append d.id ids others, e, k, leased_rows-append ids others rows)
      | inr k ↦ rw (is_in-append d.id ids others, e, k, leased_rows-append ids others rows)
    ]
  ]

  abbrev pub returned : List ℕ → List Delivery → List ℕ
  returned ids rows = delivery_ids (take_leases now lease_millis ids rows).0

  returned_among :
      (i : ℕ) (ids : List ℕ) (rows : List Delivery)
      → is_in i (returned ids rows) ≡ true
      → is_in i ids ≡ true
  returned_among i ids [] = λ h. cc
  returned_among i ids (d ∷ rows) = elim (Bool-cases (is_in d.id ids)) [
    | inl e ↦ rw e (λ h. elim (or_split (i == d.id) (is_in i (returned ids rows)) h) [
      | inl k ↦ ap (λ n. is_in n ids) ((==_iff i d.id).0 k) ∙ e
      | inr k ↦ returned_among i ids rows k
    ])
    | inr e ↦ rw e (returned_among i ids rows)
  ]

  returned_more :
      (i : ℕ) (ids : List ℕ) (d : Delivery) (rows : List Delivery)
      → is_in i (returned ids rows) ≡ true
      → is_in i (returned ids (d ∷ rows)) ≡ true
  returned_more i ids d rows h = elim (Bool-cases (is_in d.id ids)) [
    | inl e ↦ rw e (or_right (i == d.id) (is_in i (returned ids rows)) h)
    | inr e ↦ rw e h
  ]

  among_returned :
      (ids : List ℕ) (rows : List Delivery)
      → All (λ d. is_in d.id ids ≡ true → is_in d.id (returned ids rows) ≡ true) rows
  among_returned ids [] = tt
  among_returned ids (d ∷ rows) =
      let tail : (a : Delivery)
          → is_in a.id (returned ids rows) ≡ true
          → is_in a.id (returned ids (d ∷ rows)) ≡ true =
        λ a k. returned_more a.id ids d rows k in
      (
        (λ h.
            rw h (
              or_left (d.id == d.id) (is_in d.id (returned ids rows)) ((==_iff d.id d.id).1 refl))),
        All-mono (λ a. is_in a.id ids ≡ true → is_in a.id (returned ids rows) ≡ true)
            (λ a. is_in a.id ids ≡ true → is_in a.id (returned ids (d ∷ rows)) ≡ true) rows
            (λ a known k. tail a (known k)) (among_returned ids rows),
      )

  -- Leasing the ids of the rows it returns is what the statement does.
  take_leases_effect :
      (ids : List ℕ) (rows : List Delivery)
      → (take_leases now lease_millis ids rows).1
        ≡ leased_rows (delivery_ids (take_leases now lease_millis ids rows).0) rows
  take_leases_effect ids rows = sym (
      leased_rows-cong (delivery_ids (take_leases now lease_millis ids rows).0) ids rows (
        All-mono (λ d. is_in d.id ids ≡ true → is_in d.id (returned ids rows) ≡ true)
          (λ d. is_in d.id (returned ids rows) ≡ is_in d.id ids) rows
          (λ d known.
            same_test (is_in d.id (returned ids rows)) (is_in d.id ids)
              (returned_among d.id ids rows) known)
          (among_returned ids rows)))

  claim_each_effect :
      (ready : List Endpoint) (db : Db)
      → (claim_each now lease_millis ready db).1.deliveries
        ≡ leased_rows (delivery_ids (claim_each now lease_millis ready db).0) db.deliveries
  unfolding claim_each claim_next
  claim_each_effect [] db = sym (leased_rows_nil db.deliveries)
  claim_each_effect (e ∷ ready) db =
      let taken = take_leases now lease_millis (next_ids now e.id db.deliveries) db.deliveries in
      let same = allow_next_rows now e taken.0 (record db { deliveries = taken.1 }) in
      let first = claim_next now lease_millis e db in
      let rest = claim_each now lease_millis ready first.1 in
      claim_each_effect ready first.1
      ∙ ap (leased_rows (delivery_ids rest.0))
          (same.1 ∙ take_leases_effect (next_ids now e.id db.deliveries) db.deliveries)
      ∙ leased_rows-append (delivery_ids taken.0) (delivery_ids rest.0) db.deliveries
      ∙ ap (λ ids. leased_rows ids db.deliveries)
          (sym (ap (λ r. delivery_ids (r ++ rest.0)) same.0 ∙ delivery_ids-append taken.0 rest.0))

  claim_deliveries_effect :
      (limit : ℕ) (db : Db)
      → (claim_deliveries now lease_millis limit db).1.deliveries
        ≡ leased_rows (delivery_ids (claim_deliveries now lease_millis limit db).0) db.deliveries
  unfolding claim_deliveries claim_limited claim_unlimited
  claim_deliveries_effect limit db =
      let claimed = claim_unlimited now lease_millis limit db in
      let n = limit - length claimed.0 in
      let ready = limit_rows n (
        order_by (λ a b. ltb a.id b.id)
          (rows_where (is_ready now claimed.1) claimed.1.endpoints)) in
      let rest = claim_each now lease_millis ready claimed.1 in
      let first = take_leases_effect (unlimited_ids now limit db) db.deliveries in
      elim (Bool-cases (ltb (length claimed.0) limit)) [
        | inl e ↦ rw e (
            claim_each_effect ready claimed.1
            ∙ ap (leased_rows (delivery_ids rest.0)) first
            ∙ leased_rows-append (delivery_ids claimed.0) (delivery_ids rest.0) db.deliveries
            ∙ ap (λ ids. leased_rows ids db.deliveries)
                (sym (delivery_ids-append claimed.0 rest.0)))
        | inr e ↦ rw e first
      ]

job_ids-jobs_of :
    (now until : ℤ) (db : Db) (claimed : List Delivery) (jobs : List Job)
    → jobs_of now until db claimed ≡ ok jobs
    → delivery_ids claimed ≡ job_ids jobs
unfolding jobs_of
job_ids-jobs_of now until db [] jobs h = ap job_ids (ok-inj h)
job_ids-jobs_of now until db (d ∷ claimed) jobs h =
    let (job, found, more) =
      >>=-eq-ok (job_of now until db d)
        (λ job. jobs_of now until db claimed >>= λ jobs. ok (job ∷ jobs)) h in
    let (others, rest, whole) =
      >>=-eq-ok (jobs_of now until db claimed) (λ jobs. ok (job ∷ jobs)) more in
    ap (λ r. d.id ∷ r) (job_ids-jobs_of now until db claimed others rest)
    ∙ ap (λ r. r.id ∷ job_ids others) (sym (job_of-delivery now until db d job found))
    ∙ ap job_ids (ok-inj whole)

-- A claim that does not fail writes the lease and the time of update to exactly the rows whose ids are
-- those of the jobs it returns, and leaves the other rows as they were, in their order.
pub claim_effect :
    (now lease_millis : ℤ) (limit : ℕ) (db after : Db) (jobs : List Job)
    → claim now lease_millis limit db ≡ ok (jobs, after)
    → after.deliveries
      ≡ update (λ d. is_in d.id (job_ids jobs)) (lease now lease_millis) db.deliveries
unfolding claim
claim_effect now lease_millis limit db after jobs h =
    let claimed = claim_deliveries now lease_millis limit db in
    let (found, made, out) =
      >>=-eq-ok (jobs_of now (now +ℤ lease_millis) claimed.1 claimed.0)
        (λ jobs. ok (jobs, claimed.1)) h in
    let same = ok-inj out in
    let ids = job_ids-jobs_of now (now +ℤ lease_millis) claimed.1 claimed.0 found made in
    ap (λ r. r.1.deliveries) (sym same)
    ∙ claim_deliveries_effect now lease_millis limit db
    ∙ ap (λ i. leased_rows now lease_millis i db.deliveries) (ids ∙ ap (λ r. job_ids r.0) same)
