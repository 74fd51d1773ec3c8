-- ===== src/Hookline/Breaker/Cooldown.antt =====
-- How long the circuit stays open: `cooldown_for` against its closed form.
use native.Mathlib.Nat.{pow-suc}
use aiiiia.Prelude.{ℕ, suc, ◌-◌, ◌*◌, ◌/◌, ◌%◌, ◌^◌, ◌≤◌, ◌<◌, ◌≡◌, min, arith}
use aiiiia.Prelude.Words.{pow_two_mono}
use aiiiia.Hookline.Breaker.{
  Policy, from_millis, as_millis, factor_for, saturating_mul, cooldown_for,
}

factor_for_lem : (n : ℕ) → n ≤ 32 → factor_for n ≡ 2 ^ n
unfolding factor_for
factor_for_lem n h = let small : 2 ^ n ≤ 2 ^ 32 = pow_two_mono n 32 h in ground arith

-- The cooldown, with the first cooldown and the maximum read in whole milliseconds modulo 2 ^ 64, is
-- the first cooldown doubled once for each failure past the threshold, at most 32 times, and cut off at
-- the maximum.
pub cooldown_for_lem :
    (p : Policy) (c : ℕ)
    → cooldown_for p c
      ≡ min
          (p.cooldown / 1_000_000 % 2 ^ 64 * 2 ^ min (c - p.failures_to_open) 32)
          (p.max_cooldown / 1_000_000 % 2 ^ 64)
        * 1_000_000
unfolding cooldown_for saturating_mul
cooldown_for_lem p c =
    let e = factor_for_lem (min (c - p.failures_to_open) 32) (omega arith) in rw e (ground arith)

-- More failures in a row never shorten the cooldown.
pub cooldown_for_mono : (p : Policy) (c d : ℕ) → c ≤ d → cooldown_for p c ≤ cooldown_for p d
cooldown_for_mono p c d h =
    let more =
      pow_two_mono (min (c - p.failures_to_open) 32) (min (d - p.failures_to_open) 32)
        (omega arith) in
    rw (cooldown_for_lem p c, cooldown_for_lem p d)
      (mul_min_mono (as_millis p.cooldown) _ _ (as_millis p.max_cooldown) more)
  where
    mul_min_mono : (k a b m : ℕ) → a ≤ b → from_millis (min (k * a) m) ≤ from_millis (min (k * b) m)
    mul_min_mono k a b m le = let wider : k * a ≤ k * b = grind arith in ground arith

-- Each failure past the threshold doubles the cooldown up to the maximum, for the first 32 of them.
pub cooldown_for_doubles :
    (p : Policy) (c : ℕ)
    → p.failures_to_open ≤ c
    → c - p.failures_to_open < 32
    → cooldown_for p (suc c) ≡ min (2 * cooldown_for p c) (from_millis (as_millis p.max_cooldown))
cooldown_for_doubles p c h lt =
    let here' : min (c - p.failures_to_open) 32 ≡ c - p.failures_to_open = omega arith in
    let next : min (suc c - p.failures_to_open) 32 ≡ suc (c - p.failures_to_open) = omega arith in
    rw
      (
        cooldown_for_lem p (suc c),
        cooldown_for_lem p c,
        here',
        next,
        pow-suc 2 (c - p.failures_to_open),
      )
      (halve (as_millis p.cooldown) (2 ^ (c - p.failures_to_open)) (as_millis p.max_cooldown))
  where
    halve :
        (k a m : ℕ)
        → from_millis (min (k * (a * 2)) m) ≡ min (2 * from_millis (min (k * a) m)) (from_millis m)
    halve k a m = let twice : k * (a * 2) ≡ 2 * (k * a) = omega arith in rw twice (ground arith)

-- The cooldown stays within the maximum, read in whole milliseconds, and at the threshold it is the
-- policy's first cooldown unless the maximum is less.
pub cooldown_for_bounds :
    (p : Policy) (c : ℕ)
    → (cooldown_for p c ≤ from_millis (as_millis p.max_cooldown))
      × (cooldown_for p p.failures_to_open
          ≡ from_millis (min (as_millis p.cooldown) (as_millis p.max_cooldown)))
cooldown_for_bounds p c = (
  rw (cooldown_for_lem p c) (ground arith),
  (let none_past : min (p.failures_to_open - p.failures_to_open) 32 ≡ 0 = omega arith in
      rw (cooldown_for_lem p p.failures_to_open, none_past) (ground arith)),
)
