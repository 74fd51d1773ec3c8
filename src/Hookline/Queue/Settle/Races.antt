-- ===== src/Hookline/Queue/Settle/Races.antt =====
-- A delivery that the API changes while a worker of hookline/src/queue.rs is sending it: the operations
-- of hookline/src/store.rs against `settle`.
use aiiiia.Hookline.Breaker.{on_failure, Policy, Action, carry_on, open_until, disable}
use aiiiia.Hookline.Models.{is_pending, Delivery, Db, cancelled, was_disabled}
use aiiiia.Hookline.Queue.{Job}
use aiiiia.Hookline.Queue.Settle.{
  succeeded_row, error_of, failure_row, failure_result, Outcome, Settled, is_owned, is_held,
  released_row, superseded_rows, settle,
}
use aiiiia.Hookline.Queue.Settle.Outcomes.{settle-ok}
use aiiiia.Hookline.Queue.Settle.Steps.{applied_rows}
use aiiiia.Hookline.Store.{replayed}
use aiiiia.Hookline.Tables.{is_after, is_at, update, update_none, exists, All2-update}
use aiiiia.Prelude.Int.{ℤ, ◌<ℤ◌}
use aiiiia.Prelude.Results.{ok}
use aiiiia.Prelude.{
  sym, ap, subst, Bool, none, arith, if◌then◌else◌, ◌≡◌, refl, ◌∙◌, ◌↔◌, inl, inr, true, false,
  ◌&&◌, Option, some, List, All2, All2-trans, All2-refl, ℕ, ◌==◌, ◌⊎◌,
}

-- The row is the same but for its lease, its time of update, and that the breaker may have cancelled it.
abbrev pub IsUntouched : Delivery → Delivery → Type 0
IsUntouched d d' =
    (d.id ≡ d'.id)
    × ((d'.attempts ≡ d.attempts)
        × ((d'.next_at ≡ d.next_at)
            × (((d'.status ≡ d.status) × (d'.last_error ≡ d.last_error))
                ⊎ (d'.status ≡ cancelled))))

IsUntouched-refl : (d : Delivery) → IsUntouched d d
IsUntouched-refl d = (refl, (refl, (refl, inl (refl, refl))))

-- Giving leases back after the breaker's action.
superseded-IsUntouched :
    (job : Job) (action : Action) (now : ℤ) (rows : List Delivery)
    → All2 IsUntouched rows (superseded_rows job now (applied_rows job action now rows))
unfolding superseded_rows
superseded-IsUntouched job action now rows =
    All2-trans IsUntouched
      (λ a b c h k. (
        h.0 ∙ k.0,
        (
          k.1.0 ∙ h.1.0,
          (
            k.1.1.0 ∙ h.1.1.0,
            elim k.1.1.1 [
              | inl (same, text) ↦ elim h.1.1.1 [
                | inl (first, words) ↦ inl (same ∙ first, text ∙ words)
                | inr gone ↦ inr (same ∙ gone)
              ]
              | inr gone ↦ inr gone
            ],
          ),
        ),
      ))
      rows (applied_rows job action now rows)
      (superseded_rows job now (applied_rows job action now rows)) (applied action)
      (All2-update IsUntouched (is_held job) (released_row now) (applied_rows job action now rows)
        (λ d h. (refl, (refl, (refl, inl (refl, refl))))) IsUntouched-refl)
  where
    applied : (a : Action) → All2 IsUntouched rows (applied_rows job a now rows)
    applied carry_on = All2-refl IsUntouched IsUntouched-refl rows
    applied (open_until until) = All2-refl IsUntouched IsUntouched-refl rows
    applied disable =
        All2-update IsUntouched (λ d. (d.endpoint_id == job.endpoint.id) && is_pending d.status)
          (λ d. record d { status = cancelled; updated_at = now; last_error = some was_disabled })
          rows (λ d h. (refl, (refl, (refl, inr refl)))) IsUntouched-refl

module _ {ℓ} {A : Type ℓ} where
  otherwise :
      (mine : Bool) (x y : A) {out : A} → mine ≡ false → out ≡ (if mine then x else y) → out ≡ y
  otherwise true x y lost h = cc
  otherwise false x y lost h = h

-- Where no row is the job's any more, a settle that does not fail answers that it was superseded, and
-- changes no delivery's attempts or next time; a status it only changes to cancelled.
pub settle-superseded :
    (id : ℕ) (job : Job) (outcome : Outcome) (retry_at : Option ℤ) (policy : Policy) (now : ℤ)
    (db after : Db) (result : Settled)
    → exists (is_owned job) db.deliveries ≡ false
    → settle id job outcome retry_at policy now db ≡ ok (result, after)
    → (result ≡ Settled.superseded) × All2 IsUntouched db.deliveries after.deliveries
settle-superseded id job outcome retry_at policy now db after result lost h =
    let steps = settle-ok id job outcome retry_at policy now db after result h in
    elim steps.settled_as [
      | inl (good, (res, rows)) ↦
          let done = update_none (is_owned job) (succeeded_row job now) db.deliveries lost in
          (
            otherwise (exists (is_owned job) db.deliveries) Settled.succeeded Settled.superseded
                lost res,
            subst (All2 IsUntouched db.deliveries)
                (sym (
                  (let written = update (is_owned job) (succeeded_row job now) db.deliveries in
                    otherwise (exists (is_owned job) db.deliveries) written
                      (superseded_rows job now written) lost rows)
                  ∙ ap (superseded_rows job now) done))
                (superseded-IsUntouched job carry_on now db.deliveries),
          )
      | inr (bad, (count, (res, rows))) ↦
          let action = on_failure policy count now in
          let change = failure_row job (error_of outcome) retry_at action now in
          let done = update_none (is_owned job) change db.deliveries lost in
          (
            otherwise (exists (is_owned job) db.deliveries) (failure_result retry_at action)
                Settled.superseded lost res,
            subst (All2 IsUntouched db.deliveries)
                (sym (
                  (let written =
                      applied_rows job action now (update (is_owned job) change db.deliveries) in
                    otherwise (exists (is_owned job) db.deliveries) written
                      (superseded_rows job now written) lost rows)
                  ∙ ap (λ r. superseded_rows job now (applied_rows job action now r)) done))
                (superseded-IsUntouched job action now db.deliveries),
          )
    ]

replayed_test :
    (this waits : Bool) (made n : ℕ) (held : Option ℤ) (until now : ℤ)
    → (this && (waits && ((made == n) && is_at held until))) ≡ true
    → now <ℤ until
    → ((this && (true && ((0 == n) && is_at (if is_after held now then held else none) until)))
        ≡ true)
      ↔ (n ≡ 0)
replayed_test this waits made n none until now h running = grind arith
replayed_test this waits made n (some at) until now h running = grind arith

-- A replay of a delivery that a worker is sending, under a lease that still runs, leaves the row the
-- worker's, for settle to write over, exactly when it had made no attempt before.
pub replayed-is_owned :
    (job : Job) (now : ℤ) (d : Delivery)
    → is_owned job d ≡ true
    → now <ℤ job.lease_until
    → (is_owned job (replayed now d) ≡ true) ↔ (job.delivery.attempts ≡ 0)
unfolding is_owned
replayed-is_owned job now d h running =
    replayed_test (d.id == job.delivery.id) (is_pending d.status) d.attempts job.delivery.attempts
      d.lease_until job.lease_until now h running
