-- ===== src/Hookline/Queue/Settle/Requeue.antt =====
-- A delivery cancelled and replayed through hookline/src/store.rs while a worker of
-- hookline/src/queue.rs is sending it.
use aiiiia.Prelude.{
  ap, sym, Bool, Bool-cases, none, some, arith, ◌≡◌, refl, ◌∙◌, ◌↔◌, inl, inr, true, false, not,
  ◌&&◌, List, [], ◌∷◌, ℕ, ◌==◌, All, ==_iff,
}
use aiiiia.Prelude.Int.{ℤ, ◌≤ℤ◌}
use aiiiia.Prelude.Results.{>>=-eq-ok, ok-inj, ok, ok_or_iff, require}
use aiiiia.Hookline.Models.{Delivery, Db, is_terminal, conflict, not_found}
use aiiiia.Hookline.Queue.{Job, is_due}
use aiiiia.Hookline.Queue.Settle.{is_owned}
use aiiiia.Hookline.Store.{get_delivery, replayed, cancelled_row, replay, cancel}
use aiiiia.Hookline.Tables.{first_where, update, All-update, All-always}

first_where-holds {ℓ} :
    {A : Type ℓ} (p : A → Bool) (rows : List A) (a : A) → first_where p rows ≡ some a → p a ≡ true
first_where-holds p [] a h = cc
first_where-holds p (b ∷ rows) a h = elim (Bool-cases (p b)) [
  | inl e ↦ cc (e, rw e at h)
  | inr e ↦ first_where-holds p rows a (rw e at h)
]

get_delivery-id :
    (db : Db) (app_id id : ℕ) (d : Delivery) → get_delivery db app_id id ≡ ok d → d.id ≡ id
unfolding get_delivery
get_delivery-id db app_id id d h =
    let found =
      first_where-holds (λ r. (r.id == id) && (r.app_id == app_id)) db.deliveries d
        ((ok_or_iff (first_where (λ r. (r.id == id) && (r.app_id == app_id)) db.deliveries)
            not_found d).0
          h) in
    ground arith

-- An update of the rows of an id establishes of them what it writes.
All-written :
    (P Q : Delivery → Type 0) (key id : ℕ) (change : Delivery → Delivery) (rows : List Delivery)
    → key ≡ id
    → ((d : Delivery) → (change d).id ≡ d.id)
    → ((d : Delivery) → P d → Q (change d))
    → All (λ d. d.id ≡ id → P d) rows
    → All (λ d. d.id ≡ id → Q d) (update (λ r. r.id == key) change rows)
All-written P Q key id change rows same kept step =
    All-update (λ d. d.id ≡ id → P d) (λ d. d.id ≡ id → Q d) (λ r. r.id == key) change rows
      (λ d h. elim (Bool-cases (d.id == key)) [
        | inl e ↦ rw e (λ i. step d (h (sym (kept d) ∙ i)))
        | inr e ↦ rw e (λ i. absurd (cc (e, (==_iff d.id key).1 (i ∙ sym same))))
      ])

cancel_rows :
    (app_id id : ℕ) (now : ℤ) (db after : Db) (r : Delivery)
    → cancel app_id id now db ≡ ok (r, after)
    → (key : ℕ) × (key ≡ id)
      × (after.deliveries ≡ update (λ d. d.id == key) (cancelled_row now) db.deliveries)
unfolding cancel
cancel_rows app_id id now db after r h =
    let (d, got, h1) = >>=-eq-ok (get_delivery db app_id id) _ h in
    let (t, _, h2) = >>=-eq-ok (require (not (is_terminal d.status)) conflict) _ h1 in
    let (e, _, out) = >>=-eq-ok (get_delivery _ app_id id) _ h2 in
    (d.id, get_delivery-id db app_id id d got, sym (ap (λ z. z.1.deliveries) (ok-inj out)))

replay_rows :
    (app_id id : ℕ) (now : ℤ) (db after : Db) (r : Delivery)
    → replay app_id id now db ≡ ok (r, after)
    → (key : ℕ) × (key ≡ id)
      × (after.deliveries ≡ update (λ d. d.id == key) (replayed now) db.deliveries)
unfolding replay
replay_rows app_id id now db after r h =
    let (d, got, h1) = >>=-eq-ok (get_delivery db app_id id) _ h in
    let (e, _, out) = >>=-eq-ok (get_delivery _ app_id id) _ h1 in
    (d.id, get_delivery-id db app_id id d got, sym (ap (λ z. z.1.deliveries) (ok-inj out)))

-- When a delivery is cancelled and then, on the tables that the cancel left, replayed, and neither fails,
-- it is afterwards no worker's, whatever lease it was under, and is due exactly from the time of the
-- replay on.
pub replay-cancel_lem :
    (app_id id : ℕ) (now later : ℤ) (db between after : Db) (first second : Delivery)
    → cancel app_id id now db ≡ ok (first, between)
    → replay app_id id later between ≡ ok (second, after)
    → All
        (λ d.
          d.id ≡ id
          → ((job : Job) → is_owned job d ≡ false)
            × ((at : ℤ) → (is_due at d ≡ true) ↔ (later ≤ℤ at)))
        after.deliveries
unfolding is_owned
replay-cancel_lem app_id id now later db between after first second h k =
    let (key, same, rows) = cancel_rows app_id id now db between first h in
    let (again, equal, last) = replay_rows app_id id later between after second k in
    let free : All (λ d. d.id ≡ id → d.lease_until ≡ none) between.deliveries = rw rows (
      All-written (λ d. Unit {0}) (λ d. d.lease_until ≡ none) key id (cancelled_row now)
        db.deliveries same (λ d. refl) (λ d u. refl)
        (All-always (λ d. d.id ≡ id → Unit {0}) db.deliveries (λ d i. tt))) in
    rw last (
      All-written (λ d. d.lease_until ≡ none)
        (λ d.
          ((job : Job) → is_owned job d ≡ false)
          × ((at : ℤ) → (is_due at d ≡ true) ↔ (later ≤ℤ at)))
        again id (replayed later) between.deliveries equal (λ d. refl)
        (λ d clear. (
          λ job. rw clear (ground arith),
          λ at. rw clear ((λ g. ground arith), (λ g. ground arith)),
        ))
        free)
