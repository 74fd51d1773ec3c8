-- ===== src/Hookline/Queue/Settle/Terminal.antt =====
-- A delivery that has come to an end stays as it is through `settle` of hookline/src/queue.rs.
use aiiiia.Hookline.Queue.Settle.Outcomes.{settle-ok}
use aiiiia.Hookline.Breaker.{Policy, Action, on_failure, carry_on, open_until, disable}
use aiiiia.Hookline.Models.{
  DeliveryStatus, is_terminal, is_pending, LastError, Delivery, Db, pending, cancelled,
  was_disabled,
}
use aiiiia.Hookline.Queue.{Job}
use aiiiia.Hookline.Queue.Settle.{
  Outcome, Settled, is_owned, is_held, released_row, succeeded_row, superseded_rows, error_of,
  failure_row, settle,
}
use aiiiia.Hookline.Queue.Settle.Steps.{applied_rows}
use aiiiia.Hookline.Tables.{is_at, exists, update, All2-update}
use aiiiia.Prelude.Int.{ℤ}
use aiiiia.Prelude.Results.{ok}
use aiiiia.Prelude.{
  ◌≡◌, refl, sym, ap, ◌∙◌, inl, inr, Bool, true, false, ◌&&◌, Option, none, some, List, arith,
  if◌then◌else◌, All2, All2-trans, All2-refl, ℕ, ◌==◌,
}

not_both : (s : DeliveryStatus) → is_pending s ≡ true → is_terminal s ≡ true → ⊥
unfolding is_terminal
not_both pending h k = cc
not_both DeliveryStatus.succeeded h k = cc
not_both DeliveryStatus.failed h k = cc
not_both cancelled h k = cc

second_of : (a b c : Bool) → (a && (b && c)) ≡ true → b ≡ true
second_of a b c h = ground arith

last_of : (a b : Bool) → (a && b) ≡ true → (a && (b && true)) ≡ true
last_of a b h = ground arith

-- An update, an apply and a release keep a delivery that has come to an end as it is.
abbrev pub IsKept : Delivery → Delivery → Type 0
IsKept d d' =
    (d.id ≡ d'.id)
    × (is_terminal d.status ≡ true
        → (d'.status ≡ d.status)
          × ((d'.attempts ≡ d.attempts)
              × ((d'.next_at ≡ d.next_at) × (d'.last_error ≡ d.last_error))))

IsKept-refl : (d : Delivery) → IsKept d d
IsKept-refl d = (refl, λ h. (refl, (refl, (refl, refl))))

IsKept-trans : (a b c : Delivery) → IsKept a b → IsKept b c → IsKept a c
IsKept-trans a b c h k = (
  h.0 ∙ k.0,
  λ t.
      let x = h.1 t in
      let y = k.1 (ap is_terminal x.0 ∙ t) in
      (y.0 ∙ x.0, (y.1.0 ∙ x.1.0, (y.1.1.0 ∙ x.1.1.0, y.1.1.1 ∙ x.1.1.1))),
)

IsKept-superseded_rows :
    (job : Job) (now : ℤ) (rows : List Delivery) → All2 IsKept rows (superseded_rows job now rows)
unfolding superseded_rows
IsKept-superseded_rows job now rows =
    All2-update IsKept (is_held job) (released_row now) rows
      (λ d h. (refl, λ k. (refl, (refl, (refl, refl))))) IsKept-refl

IsKept-owned :
    (job : Job) (change : Delivery → Delivery) (rows : List Delivery)
    → ((d : Delivery) → (change d).id ≡ d.id)
    → All2 IsKept rows (update (is_owned job) change rows)
unfolding is_owned is_terminal
IsKept-owned job change rows same =
    All2-update IsKept (is_owned job) change rows
      (λ d h. (
        sym (same d),
        λ k. absurd (
            not_both d.status
              (second_of (d.id == job.delivery.id) (is_pending d.status)
                ((d.attempts == job.delivery.attempts) && is_at d.lease_until job.lease_until) h)
              k),
      ))
      IsKept-refl

IsKept-applied_rows :
    (job : Job) (action : Action) (now : ℤ) (rows : List Delivery)
    → All2 IsKept rows (applied_rows job action now rows)
IsKept-applied_rows job carry_on now rows = All2-refl IsKept IsKept-refl rows
IsKept-applied_rows job (open_until until) now rows = All2-refl IsKept IsKept-refl rows
IsKept-applied_rows job disable now rows =
    All2-update IsKept (λ d. (d.endpoint_id == job.endpoint.id) && is_pending d.status)
      (λ d. record d { status = cancelled; updated_at = now; last_error = some was_disabled }) rows
      (λ d h. (
        refl,
        λ k. absurd (
            not_both d.status
              (second_of (d.endpoint_id == job.endpoint.id) (is_pending d.status) true
                (last_of (d.endpoint_id == job.endpoint.id) (is_pending d.status) h))
              k),
      ))
      IsKept-refl

IsKept-rows :
    (mine : Bool) (job : Job) (now : ℤ) (start rows : List Delivery)
    → All2 IsKept start rows
    → All2 IsKept start (if mine then rows else superseded_rows job now rows)
IsKept-rows true job now start rows h = h
IsKept-rows false job now start rows h =
    All2-trans IsKept IsKept-trans start rows (superseded_rows job now rows) h
      (IsKept-superseded_rows job now rows)

failure_row-id :
    (job : Job) (error : LastError) (retry_at : Option ℤ) (action : Action) (now : ℤ) (d : Delivery)
    → (failure_row job error retry_at action now d).id ≡ d.id
failure_row-id job error none action now d = refl
failure_row-id job error (some next_at) action now d = refl

-- A settle that does not fail leaves as many deliveries, in their order, and of one that was succeeded,
-- failed or cancelled the status, the attempts, the next time and the last error.
pub settle-IsKept :
    (id : ℕ) (job : Job) (outcome : Outcome) (retry_at : Option ℤ) (policy : Policy) (now : ℤ)
    (db after : Db) (result : Settled)
    → settle id job outcome retry_at policy now db ≡ ok (result, after)
    → All2 IsKept db.deliveries after.deliveries
settle-IsKept id job outcome retry_at policy now db after result h =
    let steps = settle-ok id job outcome retry_at policy now db after result h in
    let mine = exists (is_owned job) db.deliveries in
    elim steps.settled_as [
      | inl (good, (res, rows)) ↦ rw rows (
          IsKept-rows mine job now db.deliveries
            (update (is_owned job) (succeeded_row job now) db.deliveries)
            (IsKept-owned job (succeeded_row job now) db.deliveries (λ d. refl)))
      | inr (bad, (count, (res, rows))) ↦
          let action = on_failure policy count now in
          let change = failure_row job (error_of outcome) retry_at action now in
          let written = update (is_owned job) change db.deliveries in
          rw rows (
            IsKept-rows mine job now db.deliveries (applied_rows job action now written) (
              All2-trans IsKept IsKept-trans db.deliveries written
                (applied_rows job action now written)
                (IsKept-owned job change db.deliveries
                  (failure_row-id job (error_of outcome) retry_at action now))
                (IsKept-applied_rows job action now written)))
    ]
