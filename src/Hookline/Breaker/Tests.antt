-- ===== src/Hookline/Breaker/Tests.antt =====
-- hookline/src/breaker.rs at the default policy, and the theorems there.
use aiiiia.Prelude.{◌-◌, ◌*◌, ◌/◌, ◌%◌, ◌^◌, ◌≤◌, ◌<◌, ◌≡◌, ◌↔◌, refl, min, arith}
use aiiiia.Prelude.Int.{ℤ, pos, ◌+ℤ◌, ◌≤ℤ◌}
use aiiiia.Hookline.Breaker.{
  carry_on, open_until, disable, from_millis, from_secs, as_millis, cooldown_for, on_failure,
  default_policy,
}
use aiiiia.Hookline.Breaker.Cooldown.{cooldown_for_lem, cooldown_for_bounds}
use aiiiia.Hookline.Breaker.Actions.{IsHopeless, on_failure_iff, on_failure-open_until}

abbrev now : ℤ
now = pos 1_700_000_000_000

fifth_opens : on_failure default_policy 5 now ≡ open_until (pos 1_700_000_030_000)
unfolding on_failure cooldown_for ◌+ℤ◌
fifth_opens = refl

fourth_carries_on : on_failure default_policy 4 now ≡ carry_on
unfolding on_failure
fourth_carries_on = refl

hopeless_is_disabled : on_failure default_policy 200 now ≡ disable
unfolding on_failure
hopeless_is_disabled = refl

capped : cooldown_for default_policy 199 ≡ from_secs 1800
unfolding cooldown_for
capped = refl

cooldown_for_lem_example :
    cooldown_for default_policy 7
    ≡ min
        (default_policy.cooldown / 1_000_000 % 2 ^ 64 * 2 ^ min (7 - 5) 32)
        (default_policy.max_cooldown / 1_000_000 % 2 ^ 64)
      * 1_000_000
cooldown_for_lem_example = cooldown_for_lem default_policy 7

cooldown_for_bounds_example :
    (cooldown_for default_policy 50 ≤ from_millis (as_millis default_policy.max_cooldown))
    × (cooldown_for default_policy 5
        ≡ from_millis
            (min (as_millis default_policy.cooldown) (as_millis default_policy.max_cooldown)))
cooldown_for_bounds_example = cooldown_for_bounds default_policy 50

on_failure_iff_example :
    (IsHopeless default_policy 5 ↔ (on_failure default_policy 5 now ≡ disable))
    × (((¬ IsHopeless default_policy 5) × (5 < default_policy.failures_to_open))
        ↔ (on_failure default_policy 5 now ≡ carry_on))
    × (((¬ IsHopeless default_policy 5) × (default_policy.failures_to_open ≤ 5))
        ↔ ((t : ℤ) × (on_failure default_policy 5 now ≡ open_until t)))
on_failure_iff_example = on_failure_iff default_policy 5 now

on_failure-open_until_example :
    (pos 1_700_000_030_000 ≡ now +ℤ pos (as_millis (cooldown_for default_policy 5)))
    × (now ≤ℤ pos 1_700_000_030_000)
    × (pos 1_700_000_030_000 ≤ℤ now +ℤ pos (as_millis default_policy.max_cooldown))
unfolding cooldown_for ◌+ℤ◌
on_failure-open_until_example =
    on_failure-open_until default_policy 5 now (pos 1_700_000_030_000) fifth_opens (omega arith)
      (omega arith)
