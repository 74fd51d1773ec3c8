-- ===== src/Saturn/Float/Sample.antt =====
-- An instance of the numbers for concrete runs: natural numbers, exact where they can be.
use aiiiia.Saturn.Float.{Ieee}
use aiiiia.Prelude.{ℕ, ◌+◌, ◌-◌, ◌*◌, false, ltb, leb, ◌==◌, not, ◌&&◌, if◌then◌else◌}

abbrev pub sample : Ieee ℕ
sample = record {
  bits = λ x. x;
  bits_inj = λ x y h. h;
  zero_value = 0;
  one = 1;
  minus_one = 0;
  nan = 0;
  is_nan = λ x. false;
  is_sign_negative = λ x. false;
  less = ltb;
  less_equal = leb;
  equal = λ x y. x == y;
  plus = λ x y. x + y;
  minus = λ x y. x - y;
  times = λ x y. x * y;
  divide = λ x y. x;
  powf = λ x y. x;
  arctangent = λ x y. x;
  negate = λ x. x;
  square_root = λ x. x;
  logarithm = λ x. x;
  exponential = λ x. x;
  sine = λ x. x;
  cosine = λ x. x;
  tangent = λ x. x;
  absolute = λ x. x;
  round_down = λ x. x;
  round_up = λ x. x;
}

-- With a NaN, 2, and a negative zero, 3: equal to 0, whose sign it does not have.
abbrev magnitude : ℕ → ℕ
magnitude x = if x == 3 then 0 else x

abbrev pub signed : Ieee ℕ
signed = record sample {
  zero_value = 0;
  nan = 2;
  is_nan = λ x. x == 2;
  is_sign_negative = λ x. x == 3;
  less = λ x y. not (x == 2) && (not (y == 2) && ltb (magnitude x) (magnitude y));
  less_equal = λ x y. not (x == 2) && (not (y == 2) && leb (magnitude x) (magnitude y));
  equal = λ x y. not (x == 2) && (not (y == 2) && (magnitude x == magnitude y));
}
