-- ===== src/Saturn/Vm/Apply.antt =====
-- The fast paths of src/vm.rs and `Op::eval` of src/lang.rs.
use aiiiia.Saturn.Float.{Ieee}
use aiiiia.Saturn.Lang.{
  add, sub, mul, div, pow, min_op, max_op, neg, sqrt, ln, exp, sin, cos, tan, abs, floor, ceil, Op,
  eval_op,
}
use aiiiia.Saturn.Vm.{apply1, apply2}
use aiiiia.Prelude.{◌≡◌, refl, [], ◌∷◌}

module _ {F : Type 0} (ieee : Ieee F) where
  apply1-eval_op : (op : Op F) (a : F) → apply1 ieee op a ≡ eval_op ieee op (a ∷ [])
  unfolding apply1 eval_op
  apply1-eval_op neg a = refl
  apply1-eval_op sqrt a = refl
  apply1-eval_op ln a = refl
  apply1-eval_op exp a = refl
  apply1-eval_op sin a = refl
  apply1-eval_op cos a = refl
  apply1-eval_op tan a = refl
  apply1-eval_op abs a = refl
  apply1-eval_op floor a = refl
  apply1-eval_op ceil a = refl
  apply1-eval_op op a = refl

  apply2-eval_op : (op : Op F) (a b : F) → apply2 ieee op a b ≡ eval_op ieee op (a ∷ b ∷ [])
  unfolding apply2 eval_op
  apply2-eval_op add a b = refl
  apply2-eval_op sub a b = refl
  apply2-eval_op mul a b = refl
  apply2-eval_op div a b = refl
  apply2-eval_op pow a b = refl
  apply2-eval_op min_op a b = refl
  apply2-eval_op max_op a b = refl
  apply2-eval_op op a b = refl

  -- The machine's functions for one and for two operands give what `Op::eval` gives on the same
  -- operands, for every operator: none exactly where that has no value.
  pub apply-eval_op :
      (op : Op F) (a b : F)
      → (apply1 ieee op a ≡ eval_op ieee op (a ∷ []))
        × (apply2 ieee op a b ≡ eval_op ieee op (a ∷ b ∷ []))
  apply-eval_op op a b = (apply1-eval_op op a, apply2-eval_op op a b)
