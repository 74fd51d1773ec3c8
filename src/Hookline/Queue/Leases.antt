-- ===== src/Hookline/Queue/Leases.antt =====
-- What the statement that leases rows returns and leaves: hookline/src/queue.rs.
use aiiiia.Prelude.{
  All-order_by, is_in, order_by, All-mono, ℕ, ◌≡◌, ◌≢◌, refl, ap, some, Bool, true, false, List, [],
  ◌∷◌, All, arith, Bool-cases, inl, inr,
}
use aiiiia.Prelude.Int.{ℤ, ◌+ℤ◌}
use aiiiia.Hookline.Models.{Delivery}
use aiiiia.Hookline.Tables.{
  All-always, All-Unit, rows_where, limit_rows, All-rows_where, All-limit_rows, All-update, All-map,
}
use aiiiia.Hookline.Queue.{lease, delivery_ids, take_leases}

-- Every row of that id is leased until the time.
abbrev pub IsLeased : ℤ → ℕ → List Delivery → Type 0
IsLeased until i rows = All (λ d. d.id ≡ i → d.lease_until ≡ some until) rows

is_in-delivery_ids :
    (i : ℕ) (rows : List Delivery) → All (λ d. d.id ≢ i) rows → is_in i (delivery_ids rows) ≡ false
is_in-delivery_ids i [] h = refl
is_in-delivery_ids i (d ∷ rows) h = grind (arith, is_in-delivery_ids i rows h.1)

-- What a selection leaves out when the WHERE clause rules it out.
pub selected_lem :
    (p : Delivery → Bool) (before : Delivery → Delivery → Bool) (limit i : ℕ) (rows : List Delivery)
    → All (λ d. d.id ≡ i → p d ≡ false) rows
    → is_in i (delivery_ids (limit_rows limit (order_by before (rows_where p rows)))) ≡ false
selected_lem p before limit i rows h =
    is_in-delivery_ids i (limit_rows limit (order_by before (rows_where p rows))) (
      All-limit_rows (λ d. d.id ≢ i) limit (order_by before (rows_where p rows))
        (All-order_by (λ d. d.id ≢ i) before (rows_where p rows)
          (All-rows_where (λ d. d.id ≢ i) p rows
            (All-mono (λ d. d.id ≡ i → p d ≡ false) (λ d. p d ≡ true → d.id ≢ i) rows
              (λ d ruled_out holds same. cc (ruled_out same)) h))))

module _ (now lease_millis : ℤ) (ids : List ℕ) (i : ℕ) (rows : List Delivery) where
  -- The statement neither returns nor changes a row of an id that is not among those named.
  pub take_leases_outside :
      (P : Delivery → Type 0)
      → is_in i ids ≡ false
      → All (λ d. d.id ≡ i → P d) rows
      → All (λ d. d.id ≢ i) (take_leases now lease_millis ids rows).0
        × All (λ d. d.id ≡ i → P d) (take_leases now lease_millis ids rows).1
  take_leases_outside P out h = (
    All-map (λ d. d.id ≢ i) (λ d. d.id ≢ i) (lease now lease_millis)
        (rows_where (λ d. is_in d.id ids) rows) (λ d ne. ne)
        (All-rows_where (λ d. d.id ≢ i) (λ d. is_in d.id ids) rows
          (All-mono (λ d. d.id ≡ i → P d) (λ d. is_in d.id ids ≡ true → d.id ≢ i) rows
            (λ d _ found same. cc (ap (λ n. is_in n ids) same)) h)),
    All-update (λ d. d.id ≡ i → P d) (λ d. d.id ≡ i → P d) (λ d. is_in d.id ids)
        (lease now lease_millis) rows
        (λ a known. elim (Bool-cases (is_in a.id ids)) [
          | inl e ↦ rw e (λ same. absurd (cc (e, out, ap (λ n. is_in n ids) same)))
          | inr e ↦ rw e known
        ])
        h,
  )

  -- A row that is leased until that time stays so.
  pub take_leases-IsLeased :
      IsLeased (now +ℤ lease_millis) i rows
      → IsLeased (now +ℤ lease_millis) i (take_leases now lease_millis ids rows).1
  take_leases-IsLeased h =
      All-update (λ d. d.id ≡ i → d.lease_until ≡ some (now +ℤ lease_millis))
        (λ d. d.id ≡ i → d.lease_until ≡ some (now +ℤ lease_millis)) (λ d. is_in d.id ids)
        (lease now lease_millis) rows
        (λ a known. elim (Bool-cases (is_in a.id ids)) [
          | inl e ↦ rw e (λ same. refl)
          | inr e ↦ rw e known
        ])
        h

  -- What it returns it has leased.
  pub take_leases_returned :
      All
        (λ r. IsLeased (now +ℤ lease_millis) r.id (take_leases now lease_millis ids rows).1)
        (take_leases now lease_millis ids rows).0
  take_leases_returned =
      All-map (λ d. is_in d.id ids ≡ true)
        (λ r. IsLeased (now +ℤ lease_millis) r.id (take_leases now lease_millis ids rows).1)
        (lease now lease_millis) (rows_where (λ d. is_in d.id ids) rows)
        (λ d found.
          All-update (λ a. Unit {0}) (λ a. a.id ≡ d.id → a.lease_until ≡ some (now +ℤ lease_millis))
            (λ a. is_in a.id ids) (lease now lease_millis) rows
            (λ a _. elim (Bool-cases (is_in a.id ids)) [
              | inl e ↦ rw e (λ same. refl)
              | inr e ↦ rw e (λ same. absurd (cc (e, found, ap (λ n. is_in n ids) same)))
            ])
            (All-Unit rows))
        (All-rows_where (λ d. is_in d.id ids ≡ true) (λ d. is_in d.id ids) rows
          (All-always (λ d. is_in d.id ids ≡ true → is_in d.id ids ≡ true) rows (λ d found. found)))
