-- ===== src/Hookline/Models.antt =====
-- hookline/src/models.rs: the rows of the tables the queue works on, and hookline/src/schema.
-- An id is a number, since only equality and the order of ids are used; a text that no code here looks
-- into is the number it is stored under. A row of deliveries has its lease_until, which the struct
-- Delivery leaves in the table. Times are milliseconds, far enough from the ends of an i64 to be added.
use aiiiia.Prelude.{ℕ, Option, none, some, Bool, true, false, List}
use aiiiia.Prelude.Int.{ℤ, ltb_ℤ}

pub data DeliveryStatus : Type 0 where
  pending : DeliveryStatus
  succeeded : DeliveryStatus
  failed : DeliveryStatus
  cancelled : DeliveryStatus

unfoldable pub is_terminal : DeliveryStatus → Bool
is_terminal pending = false
is_terminal succeeded = true
is_terminal failed = true
is_terminal cancelled = true

-- `status = 'pending'`
abbrev pub is_pending : DeliveryStatus → Bool
is_pending pending = true
is_pending succeeded = false
is_pending failed = false
is_pending cancelled = false

-- The texts that end up in last_error: reported by the sender, or written by the code.
pub data LastError : Type 0 where
  reported : ℕ → LastError
  answered : ℕ → LastError
  request_failed : LastError
  was_disabled : LastError

-- Why an endpoint was switched off: a text of the operator's, or the breaker's own.
pub data DisabledReason : Type 0 where
  given : ℕ → DisabledReason
  repeated_failures : DisabledReason

pub record Delivery : Type 0 where
  pub id : ℕ
  pub message_id : ℕ
  pub endpoint_id : ℕ
  pub app_id : ℕ
  pub status : DeliveryStatus
  pub attempts : ℕ
  pub next_at : ℤ
  pub lease_until : Option ℤ
  pub last_error : Option LastError
  pub created_at : ℤ
  pub updated_at : ℤ

-- A row of endpoints: rate_limit is the integer of the column, cast to u32 where it is read.
pub record Endpoint : Type 0 where
  pub id : ℕ
  pub app_id : ℕ
  pub url : ℕ
  pub description : ℕ
  pub event_types : Option (List ℕ)
  pub disabled_at : Option ℤ
  pub disabled_reason : Option DisabledReason
  pub rate_limit : Option ℤ
  pub created_at : ℤ
  pub updated_at : ℤ

pub record Health : Type 0 where
  pub endpoint_id : ℕ
  pub consecutive_failures : ℕ
  pub circuit_open_until : Option ℤ
  pub last_success_at : Option ℤ
  pub last_failure_at : Option ℤ
  pub next_allowed_at : Option ℤ

pub record Message : Type 0 where
  pub id : ℕ
  pub app_id : ℕ
  pub event_type : ℕ
  pub payload : ℕ
  pub idempotency_key : Option ℕ
  pub created_at : ℤ

pub record Secret : Type 0 where
  pub id : ℕ
  pub endpoint_id : ℕ
  pub secret : ℕ
  pub created_at : ℤ
  pub expires_at : Option ℤ

pub data AttemptStatus : Type 0 where
  success : AttemptStatus
  failure : AttemptStatus

pub record Attempt : Type 0 where
  pub id : ℕ
  pub delivery_id : ℕ
  pub endpoint_id : ℕ
  pub message_id : ℕ
  pub app_id : ℕ
  pub attempt_no : ℕ
  pub status : AttemptStatus
  pub status_code : Option ℕ
  pub error : Option ℕ
  pub duration_ms : ℤ
  pub response_snippet : Option ℕ
  pub created_at : ℤ

-- The tables of the database that the queue reads or writes.
pub record Db : Type 0 where
  pub endpoints : List Endpoint
  pub secrets : List Secret
  pub messages : List Message
  pub deliveries : List Delivery
  pub attempts : List Attempt
  pub health : List Health

pub data StoreError : Type 0 where
  not_found : StoreError
  conflict : StoreError
  constraint : StoreError

unfoldable pub is_active : Secret → ℤ → Bool
is_active s now = elim s.expires_at [ none ↦ true | some at ↦ ltb_ℤ now at ]
