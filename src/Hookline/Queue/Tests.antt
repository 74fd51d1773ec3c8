-- ===== src/Hookline/Queue/Tests.antt =====
-- Concrete runs of `claim` of hookline/src/queue.rs: one tenant, two endpoints, three deliveries.
use aiiiia.Hookline.Queue.Effect.{job_ids, claim_effect}
use aiiiia.Hookline.Tables.{update}
use aiiiia.Hookline.Models.{Message, Delivery, Endpoint, Db, is_active, pending}
use aiiiia.Hookline.Queue.{
  lease, Job, claim_unlimited, allow_next, claim_next, claim_each, claim_limited, claim_deliveries,
  message_of, job_of, jobs_of, claim,
}
use aiiiia.Hookline.Queue.Claim.{claim_only_claimable}
use aiiiia.Hookline.Queue.Exclusive.{HasLease, claim_exclusive}
use aiiiia.Hookline.Store.{empty_health, get_endpoint}
use aiiiia.Prelude.Int.{◌+ℤ◌, pos}
use aiiiia.Prelude.Results.{ok}
use aiiiia.Prelude.{inr, inl, is_in, ◌+◌, ◌≡◌, refl, ◌≢◌, none, some, List, [], ◌∷◌, arith, All, ℕ}

abbrev pub plain : Endpoint
plain = record {
  id = 1;
  app_id = 7;
  url = 70;
  description = 71;
  event_types = none;
  disabled_at = none;
  disabled_reason = none;
  rate_limit = none;
  created_at = pos 0;
  updated_at = pos 0;
}

abbrev limited : Endpoint
limited = record plain { id = 2; rate_limit = some (pos 60) }

abbrev pub delivery_to : ℕ → ℕ → Delivery
delivery_to id endpoint_id = record {
  id = id;
  message_id = 5;
  endpoint_id = endpoint_id;
  app_id = 7;
  status = pending;
  attempts = 0;
  next_at = pos 100;
  lease_until = none;
  last_error = none;
  created_at = pos 100;
  updated_at = pos 100;
}

abbrev pub three_due : Db
three_due = record {
  endpoints = plain ∷ limited ∷ [];
  secrets =
      record { id = 3; endpoint_id = 1; secret = 33; created_at = pos 0; expires_at = none } ∷ [];
  messages =
      record {
        id = 5;
        app_id = 7;
        event_type = 0;
        payload = 0;
        idempotency_key = none;
        created_at = pos 100;
      }
      ∷ [];
  deliveries = delivery_to 11 1 ∷ delivery_to 12 2 ∷ delivery_to 13 2 ∷ [];
  attempts = [];
  health = [];
}

abbrev pub note : Message
note = record {
  id = 5;
  app_id = 7;
  event_type = 0;
  payload = 0;
  idempotency_key = none;
  created_at = pos 100;
}

-- The row once it is leased, and the job made of it.
abbrev leased_at : ℕ → Delivery → Delivery
leased_at now d = record d { lease_until = some (pos (now + 60_000)); updated_at = pos now }

abbrev job_at : ℕ → Endpoint → List ℕ → Delivery → Job
job_at now e secrets d = record {
  delivery = leased_at now d;
  endpoint = e;
  message = note;
  secrets = secrets;
  lease_until = pos (now + 60_000);
}

abbrev first_jobs : List Job
first_jobs =
    job_at 1_000 plain (33 ∷ []) (delivery_to 11 1)
    ∷ job_at 1_000 limited [] (delivery_to 12 2)
    ∷ []

abbrev after_first : Db
after_first = record three_due {
  deliveries =
      leased_at 1_000 (delivery_to 11 1)
      ∷ leased_at 1_000 (delivery_to 12 2)
      ∷ delivery_to 13 2
      ∷ [];
  health = record (empty_health 2) { next_allowed_at = some (pos 2_000) } ∷ [];
}

-- Meanwhile a delivery to the plain endpoint has come in.
abbrev current : Db
current = record after_first { deliveries = delivery_to 14 1 ∷ after_first.deliveries }

abbrev second_jobs : List Job
second_jobs =
    job_at 2_500 plain (33 ∷ []) (delivery_to 14 1)
    ∷ job_at 2_500 limited [] (delivery_to 13 2)
    ∷ []

abbrev after_second : Db
after_second = record three_due {
  deliveries =
      leased_at 2_500 (delivery_to 14 1)
      ∷ leased_at 1_000 (delivery_to 11 1)
      ∷ leased_at 1_000 (delivery_to 12 2)
      ∷ leased_at 2_500 (delivery_to 13 2)
      ∷ [];
  health = record (empty_health 2) { next_allowed_at = some (pos 3_500) } ∷ [];
}

-- One of the two deliveries to the limited endpoint waits for the next claim.
first_claim : claim (pos 1_000) (pos 60_000) 10 three_due ≡ ok (first_jobs, after_first)
unfolding claim claim_deliveries claim_unlimited claim_limited claim_each claim_next allow_next
    jobs_of job_of get_endpoint message_of is_active ◌+ℤ◌
first_claim = refl

second_claim : claim (pos 2_500) (pos 60_000) 10 current ≡ ok (second_jobs, after_second)
unfolding claim claim_deliveries claim_unlimited claim_limited claim_each claim_next allow_next
    jobs_of job_of get_endpoint message_of is_active ◌+ℤ◌
second_claim = refl

leases_kept :
    All
      (λ d. All (λ j. d.id ≡ j.delivery.id → HasLease d after_first.deliveries) first_jobs)
      current.deliveries
leases_kept = (
  ((λ h. absurd (omega (arith, h))), ((λ h. absurd (omega (arith, h))), tt)),
  (
    ((λ h. inl (refl, refl)), ((λ h. absurd (omega (arith, h))), tt)),
    (
      ((λ h. absurd (omega (arith, h))), ((λ h. inr (inl (refl, refl))), tt)),
      (((λ h. absurd (omega (arith, h))), ((λ h. absurd (omega (arith, h))), tt)), tt),
    ),
  ),
)

claim_exclusive_example : All (λ j. All (λ k. k.delivery.id ≢ j.delivery.id) second_jobs) first_jobs
unfolding ◌+ℤ◌
claim_exclusive_example =
    claim_exclusive (pos 1_000) (pos 60_000) (pos 2_500) (pos 60_000) 10 10 three_due after_first
      current after_second first_jobs second_jobs first_claim leases_kept (omega arith) second_claim

claim_only_claimable_example : All (λ j. j.delivery.id ≢ 12) second_jobs
claim_only_claimable_example =
    claim_only_claimable (pos 2_500) (pos 60_000) 10 current after_second second_jobs 12
      second_claim
      (
        (λ h. absurd (omega arith)),
        ((λ h. absurd (omega arith)), ((λ h. refl), ((λ h. absurd (omega arith)), tt))),
      )

claim_effect_example :
    after_first.deliveries
    ≡ update
        (λ d. is_in d.id (job_ids first_jobs))
        (lease (pos 1_000) (pos 60_000))
        three_due.deliveries
claim_effect_example =
    claim_effect (pos 1_000) (pos 60_000) 10 three_due after_first first_jobs first_claim
