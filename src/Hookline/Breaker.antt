-- ===== src/Hookline/Breaker.antt =====
-- hookline/src/breaker.rs: what to do about an endpoint that keeps failing.
-- A Duration is its number of nanoseconds, and an instant is an i64 of milliseconds.
pub mod Cooldown
pub mod Actions
mod Tests
use aiiiia.Prelude.{
  ℕ, ◌+◌, ◌-◌, ◌*◌, ◌/◌, ◌^◌, ◌%◌, min, Option, none, some, Bool, true, false, if◌then◌else◌, ltb,
  leb,
}
use aiiiia.Prelude.Int.{ℤ, ◌+ℤ◌, as_u64, as_i64, wrap_i64}

pub record Policy : Type 0 where
  pub failures_to_open : ℕ
  pub cooldown : ℕ
  pub max_cooldown : ℕ
  pub failures_to_disable : Option ℕ

abbrev pub from_secs : ℕ → ℕ
from_secs s = s * 1_000_000_000

abbrev pub from_millis : ℕ → ℕ
from_millis ms = ms * 1_000_000

-- `d.as_millis() as u64`
abbrev pub as_millis : ℕ → ℕ
as_millis d = as_u64 (d / 1_000_000)

abbrev pub default_policy : Policy
default_policy = record {
  failures_to_open = 5;
  cooldown = from_secs 30;
  max_cooldown = from_secs (30 * 60);
  failures_to_disable = some 200;
}

pub data Action : Type 0 where
  carry_on : Action
  open_until : ℤ → Action
  disable : Action

-- `1u64.checked_shl(n).unwrap_or(u64::MAX)`
unfoldable pub factor_for : ℕ → ℕ
factor_for n = if ltb n 64 then 2 ^ n % 2 ^ 64 else 2 ^ 64 - 1

-- `x.saturating_mul(y)` on u64
unfoldable pub saturating_mul : ℕ → ℕ → ℕ
saturating_mul x y = min (x * y) (2 ^ 64 - 1)

unfoldable pub cooldown_for : Policy → ℕ → ℕ
unfolding factor_for saturating_mul
cooldown_for p consecutive =
    let past = consecutive - p.failures_to_open in
    let factor = factor_for (min past 32) in
    let millis = saturating_mul (as_millis p.cooldown) factor in
    from_millis (min millis (as_millis p.max_cooldown))

unfoldable pub reaches : Option ℕ → ℕ → Bool
reaches none consecutive = false
reaches (some limit) consecutive = leb limit consecutive

unfoldable pub on_failure : Policy → ℕ → ℤ → Action
unfolding reaches
on_failure p consecutive now =
    if reaches p.failures_to_disable consecutive
    then disable
    else if ltb consecutive p.failures_to_open
    then carry_on
    else open_until (wrap_i64 (now +ℤ as_i64 (as_millis (cooldown_for p consecutive))))
