-- ===== src/Hookline/Queue/Settle/Answers.antt =====
-- What `settle` of hookline/src/queue.rs records and answers.
use aiiiia.Hookline.Breaker.{Policy, Action, on_failure, carry_on, open_until, disable}
use aiiiia.Hookline.Models.{Db, Attempt, success, failure}
use aiiiia.Hookline.Queue.{Job}
use aiiiia.Hookline.Queue.Settle.{Outcome, Settled, attempt_row, is_owned, failure_result, settle}
use aiiiia.Hookline.Queue.Settle.Outcomes.{settle-ok}
use aiiiia.Hookline.Tables.{exists}
use aiiiia.Prelude.Int.{ℤ}
use aiiiia.Prelude.Results.{ok}
use aiiiia.Prelude.{
  ◌≡◌, refl, sym, ◌∙◌, ◌≢◌, ◌↔◌, inl, inr, Bool, true, false, Option, none, some, [], ◌∷◌, ◌++◌,
  if◌then◌else◌, ℕ, ◌+◌, ◌%◌, ◌^◌, ◌⊎◌,
}

not_delivered :
    (retry_at : Option ℤ) (action : Action) → failure_result retry_at action ≢ Settled.succeeded
not_delivered none carry_on h = cc
not_delivered none (open_until until) h = cc
not_delivered none disable h = cc
not_delivered (some next_at) carry_on h = cc
not_delivered (some next_at) (open_until until) h = cc
not_delivered (some next_at) disable h = cc

is_delivered :
    (mine good : Bool) (retry_at : Option ℤ) (action : Action) (result : Settled)
    → ((good ≡ true) × (result ≡ (if mine then Settled.succeeded else Settled.superseded)))
      ⊎ ((good ≡ false)
          × (result ≡ (if mine then failure_result retry_at action else Settled.superseded)))
    → (result ≡ Settled.succeeded) ↔ ((good ≡ true) × (mine ≡ true))
is_delivered true true retry_at action result h =
    ((λ k. (refl, refl)), (λ k. elim h [ inl a ↦ a.1 | inr b ↦ absurd (cc b.0) ]))
is_delivered false true retry_at action result h =
    ((λ k. absurd (elim h [ inl a ↦ cc (k, a.1) | inr b ↦ cc b.0 ])), (λ k. absurd (cc k.1)))
is_delivered true false retry_at action result h = (
  (λ k. absurd (elim h [ inl a ↦ cc a.0 | inr b ↦ not_delivered retry_at action (sym b.1 ∙ k) ])),
  (λ k. absurd (cc k.0)),
)
is_delivered false false retry_at action result h =
    ((λ k. absurd (elim h [ inl a ↦ cc a.0 | inr b ↦ cc (k, b.1) ])), (λ k. absurd (cc k.0)))

is_success : (good : Bool) → ((if good then success else failure) ≡ success) ↔ (good ≡ true)
is_success true = ((λ h. refl), (λ h. refl))
is_success false = ((λ h. cc), (λ h. cc))

-- A settle that does not fail adds one attempt to the end of the log: of the job's delivery, numbered one
-- more than the job's attempts as a u32, a success exactly when the request succeeded, with what the
-- request brought back, at the time of the settle. It answers that the delivery succeeded exactly when
-- the request succeeded and a row was still the worker's.
pub settle_answers :
    (id : ℕ) (job : Job) (outcome : Outcome) (retry_at : Option ℤ) (policy : Policy) (now : ℤ)
    (db after : Db) (result : Settled)
    → settle id job outcome retry_at policy now db ≡ ok (result, after)
    → ((a : Attempt) × (after.attempts ≡ db.attempts ++ a ∷ [])
        × (a.id ≡ id)
        × (a.delivery_id ≡ job.delivery.id)
        × (a.endpoint_id ≡ job.delivery.endpoint_id)
        × (a.message_id ≡ job.delivery.message_id)
        × (a.app_id ≡ job.delivery.app_id)
        × (a.attempt_no ≡ (job.delivery.attempts + 1) % 2 ^ 32)
        × ((a.status ≡ success) ↔ (outcome.succeeded ≡ true))
        × (a.status_code ≡ outcome.status_code)
        × (a.error ≡ outcome.error)
        × (a.duration_ms ≡ outcome.duration_ms)
        × (a.response_snippet ≡ outcome.response_snippet)
        × (a.created_at ≡ now))
      × ((result ≡ Settled.succeeded)
          ↔ ((outcome.succeeded ≡ true) × (exists (is_owned job) db.deliveries ≡ true)))
settle_answers id job outcome retry_at policy now db after result h =
    let steps = settle-ok id job outcome retry_at policy now db after result h in
    let mine = exists (is_owned job) db.deliveries in
    (
      (
        attempt_row id job outcome now,
        steps.recorded,
        refl,
        refl,
        refl,
        refl,
        refl,
        refl,
        is_success outcome.succeeded,
        refl,
        refl,
        refl,
        refl,
        refl,
      ),
      elim steps.settled_as [
        | inl (good, (res, rows)) ↦
            is_delivered mine outcome.succeeded retry_at carry_on result (inl (good, res))
        | inr (bad, (count, (res, rows))) ↦
            is_delivered mine outcome.succeeded retry_at (on_failure policy count now) result
              (inr (bad, res))
      ],
    )
