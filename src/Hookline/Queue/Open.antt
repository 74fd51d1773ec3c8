-- ===== src/Hookline/Queue/Open.antt =====
-- The endpoints that may be sent to, as the two passes of hookline/src/queue.rs select them.
use aiiiia.Prelude.{
  All-order_by, is_some, is_none, order_by, All-mono, ℕ, ◌≡◌, Bool, true, false, ◌&&◌, List, [],
  ◌∷◌, ltb, ◌==◌, All, arith,
}
use aiiiia.Prelude.Int.{ℤ}
use aiiiia.Hookline.Models.{Delivery, Endpoint, Db}
use aiiiia.Hookline.Tables.{rows_where, exists, limit_rows, All-rows_where, All-limit_rows}
use aiiiia.Hookline.Queue.{is_due, is_closed, is_allowed, is_unlimited, is_ready}

-- The endpoint is there and not disabled.
abbrev pub is_enabled : List Endpoint → ℕ → Bool
is_enabled endpoints endpoint_id =
    exists (λ e. (e.id == endpoint_id) && is_none e.disabled_at) endpoints

-- An endpoint that is enabled and whose circuit is closed.
abbrev pub is_open : ℤ → Db → ℕ → Bool
is_open now db endpoint_id =
    is_enabled db.endpoints endpoint_id && is_closed now db.health endpoint_id

-- Due, with no lease that still runs, to such an endpoint.
abbrev pub is_claimable : ℤ → Db → Delivery → Bool
is_claimable now db d = is_due now d && is_open now db d.endpoint_id

-- No row of that id may be claimed.
abbrev pub IsBlocked : ℤ → Db → ℕ → List Delivery → Type 0
IsBlocked now db i rows = All (λ d. d.id ≡ i → is_claimable now db d ≡ false) rows

pub is_unlimited-is_enabled :
    (endpoints : List Endpoint) (i : ℕ)
    → is_unlimited endpoints i ≡ true
    → is_enabled endpoints i ≡ true
is_unlimited-is_enabled [] i h = h
is_unlimited-is_enabled (e ∷ endpoints) i h = grind (arith, is_unlimited-is_enabled endpoints i)

enabled_members :
    (endpoints : List Endpoint)
    → All (λ e. is_none e.disabled_at ≡ true → is_enabled endpoints e.id ≡ true) endpoints
enabled_members [] = tt
enabled_members (first ∷ endpoints) = (
  (λ enabled. grind arith),
  All-mono (λ e. is_none e.disabled_at ≡ true → is_enabled endpoints e.id ≡ true)
      (λ e. is_none e.disabled_at ≡ true → is_enabled (first ∷ endpoints) e.id ≡ true) endpoints
      (λ e known enabled. grind (arith, known enabled)) (enabled_members endpoints),
)

open_parts :
    (limited enabled closed allowed work found : Bool)
    → (enabled ≡ true → found ≡ true)
    → (limited && (enabled && (closed && (allowed && work)))) ≡ true
    → (found && closed) ≡ true
open_parts limited enabled closed allowed work found here h = grind arith

pub blocked_unlimited :
    (due unlimited enabled closed : Bool)
    → (unlimited ≡ true → enabled ≡ true)
    → (due && (enabled && closed)) ≡ false
    → (due && (unlimited && closed)) ≡ false
blocked_unlimited due unlimited enabled closed here h = grind arith

pub blocked_next :
    (to_it due opened : Bool)
    → (to_it ≡ true → opened ≡ true)
    → (due && opened) ≡ false
    → (to_it && due) ≡ false
blocked_next to_it due opened here h = grind arith

-- The endpoints the second pass goes through are open.
abbrev pub AreOpen : ℤ → Db → List Endpoint → Type 0
AreOpen now db ready = All (λ e. is_open now db e.id ≡ true) ready

pub ready-AreOpen :
    (now : ℤ) (limit : ℕ) (db : Db)
    → AreOpen now db (
        limit_rows limit
          (order_by (λ a b. ltb a.id b.id) (rows_where (is_ready now db) db.endpoints)))
ready-AreOpen now limit db =
    let ready = rows_where (is_ready now db) db.endpoints in
    All-limit_rows (λ e. is_open now db e.id ≡ true) limit (order_by (λ a b. ltb a.id b.id) ready)
      (All-order_by (λ e. is_open now db e.id ≡ true) (λ a b. ltb a.id b.id) ready
        (All-rows_where (λ e. is_open now db e.id ≡ true) (is_ready now db) db.endpoints
          (All-mono (λ e. is_none e.disabled_at ≡ true → is_enabled db.endpoints e.id ≡ true)
            (λ e. is_ready now db e ≡ true → is_open now db e.id ≡ true) db.endpoints
            (λ e enabled found.
              open_parts (is_some e.rate_limit) (is_none e.disabled_at)
                (is_closed now db.health e.id) (is_allowed now db.health e.id)
                (exists (λ d. (d.endpoint_id == e.id) && is_due now d) db.deliveries)
                (is_enabled db.endpoints e.id) enabled found)
            (enabled_members db.endpoints))))
