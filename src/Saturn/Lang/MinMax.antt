-- ===== src/Saturn/Lang/MinMax.antt =====
-- `min` and `max` of src/lang.rs, whose comment asks that the order of the operands does not matter.
use aiiiia.Prelude.{
  ◌≡◌, refl, sym, ap, ◌∙◌, inl, inr, Bool, true, false, not, if◌then◌else◌, Bool-cases,
}
use aiiiia.Saturn.Float.{Ieee}
use aiiiia.Saturn.Lang.{min_value, max_value}

module _ {F : Type 0} (ieee : Ieee F) where
  -- What IEEE-754 says of comparisons: equality is symmetric; of two numbers that differ one is less; two
  -- numbers that are equal and of one sign are the same; and NaNs are one value.
  pub record IsOrdered : Type 0 where
    pub equal_sym : (x y : F) → ieee.equal x y ≡ ieee.equal y x
    pub less_total :
        (x y : F)
        → ieee.is_nan x ≡ false
        → ieee.is_nan y ≡ false
        → ieee.equal x y ≡ false
        → ieee.less x y ≡ not (ieee.less y x)
    pub one_sign :
        (x y : F)
        → ieee.equal x y ≡ true
        → ieee.is_sign_negative x ≡ ieee.is_sign_negative y
        → x ≡ y
    pub one_nan : (x y : F) → ieee.is_nan x ≡ true → ieee.is_nan y ≡ true → x ≡ y

  module _ (v : IsOrdered) where
    -- Equal operands, by their signs.
    tie :
        (a b : F)
        → ieee.equal a b ≡ true
        → ((if ieee.is_sign_negative a then a else b) ≡ (if ieee.is_sign_negative b then b else a))
          × ((if ieee.is_sign_negative a then b else a)
              ≡ (if ieee.is_sign_negative b then a else b))
    tie a b h = by_signs (ieee.is_sign_negative a) (ieee.is_sign_negative b) refl refl
      where
        by_signs :
            (s t : Bool)
            → ieee.is_sign_negative a ≡ s
            → ieee.is_sign_negative b ≡ t
            → ((if s then a else b) ≡ (if t then b else a))
              × ((if s then b else a) ≡ (if t then a else b))
        by_signs true true e f = let same = v.one_sign a b h (e ∙ sym f) in (same, sym same)
        by_signs true false e f = (refl, refl)
        by_signs false true e f = (refl, refl)
        by_signs false false e f = let same = v.one_sign a b h (e ∙ sym f) in (sym same, same)

    -- With comparisons as IEEE-754 has them, the lesser and the greater of two values do not depend on
    -- their order, for NaNs and zeros of either sign as well.
    pub min_value-max_value_comm :
        (a b : F)
        → (min_value ieee a b ≡ min_value ieee b a) × (max_value ieee a b ≡ max_value ieee b a)
    unfolding min_value max_value
    min_value-max_value_comm a b = elim (Bool-cases (ieee.is_nan a)) [
      | inl nan_a ↦ elim (Bool-cases (ieee.is_nan b)) [
        | inl nan_b ↦ let same = v.one_nan a b nan_a nan_b in rw (nan_a, nan_b) (sym same, sym same)
        | inr num_b ↦ rw (nan_a, num_b) (refl, refl)
      ]
      | inr num_a ↦ elim (Bool-cases (ieee.is_nan b)) [
        | inl nan_b ↦ rw (num_a, nan_b) (refl, refl)
        | inr num_b ↦ elim (Bool-cases (ieee.equal a b)) [
          | inl e ↦ rw (num_a, num_b, e, sym (v.equal_sym a b) ∙ e) (tie a b e)
          | inr e ↦
              let less = v.less_total a b num_a num_b e in
              elim (Bool-cases (ieee.less b a)) [
                | inl k ↦
                    rw (num_a, num_b, e, sym (v.equal_sym a b) ∙ e, k, less ∙ ap not k) (refl, refl)
                | inr k ↦
                    rw (num_a, num_b, e, sym (v.equal_sym a b) ∙ e, k, less ∙ ap not k) (refl, refl)
              ]
        ]
      ]
    ]
