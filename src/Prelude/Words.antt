-- ===== src/Prelude/Words.antt =====
-- Powers of two and saturating arithmetic on unsigned machine words.
use Prim.Native.Nat.{ℕ, zero, suc, ◌^◌, ◌<◌, ◌≤◌}
use native.Mathlib.Omega.{arith}
use native.Mathlib.Nat.{pow-suc}

pub pow_two_pos : (n : ℕ) → 0 < 2 ^ n
pow_two_pos zero = omega arith
pow_two_pos (suc n) = omega (arith, pow_two_pos n, pow-suc 2 n)

pub pow_two_mono : (m n : ℕ) → m ≤ n → 2 ^ m ≤ 2 ^ n
pow_two_mono zero n h = omega (arith, pow_two_pos n)
pow_two_mono (suc m) zero h = elim h [ ]
pow_two_mono (suc m) (suc n) h =
    omega (arith, pow_two_mono m n (omega arith), pow-suc 2 m, pow-suc 2 n)
