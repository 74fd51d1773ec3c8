-- ===== src/Saturn/Float.antt =====
-- The f64 of Rust, a parameter of the development: a type of values with the operations that
-- src/lang.rs calls, and what is relied on of them. NaNs are one value, as for F of src/sym.rs, since
-- nothing in the language observes a NaN's sign or payload.
pub mod Sample
use aiiiia.Prelude.{ℕ, ◌≡◌, Bool}

-- Comparisons are IEEE-754's, so equal is not the identity of values: `bits` is.
pub record Ieee (F : Type 0) : Type 0 where
  pub bits : F → ℕ
  pub bits_inj : (x y : F) → bits x ≡ bits y → x ≡ y
  pub zero_value : F
  pub one : F
  pub minus_one : F
  pub nan : F
  pub is_nan : F → Bool
  pub is_sign_negative : F → Bool
  pub less : F → F → Bool
  pub less_equal : F → F → Bool
  pub equal : F → F → Bool
  pub plus : F → F → F
  pub minus : F → F → F
  pub times : F → F → F
  pub divide : F → F → F
  pub powf : F → F → F
  pub arctangent : F → F → F
  pub negate : F → F
  pub square_root : F → F
  pub logarithm : F → F
  pub exponential : F → F
  pub sine : F → F
  pub cosine : F → F
  pub tangent : F → F
  pub absolute : F → F
  pub round_down : F → F
  pub round_up : F → F
