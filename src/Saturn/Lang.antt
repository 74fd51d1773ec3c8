-- ===== src/Saturn/Lang.antt =====
-- src/lang.rs: the operators of the language and what they compute. A variable is the index that its
-- name is interned under (Sym of src/sym.rs).
pub mod Node
pub mod Expr
pub mod Reach
pub mod Topo
pub mod Equal
pub mod Normal
pub mod Add
pub mod MinMax
pub mod Tests
use aiiiia.Prelude.{
  ℕ, ◌≡◌, Option, none, some, Bool, true, false, not, ◌&&◌, ◌||◌, List, [], ◌∷◌, ◌==◌,
  if◌then◌else◌, length,
}
use aiiiia.Saturn.Float.{Ieee}

pub data Op (F : Type 0) : Type 0 where
  const : F → Op F
  var : ℕ → Op F
  add : Op F
  sub : Op F
  mul : Op F
  div : Op F
  pow : Op F
  min_op : Op F
  max_op : Op F
  atan2 : Op F
  neg : Op F
  sqrt : Op F
  ln : Op F
  exp : Op F
  sin : Op F
  cos : Op F
  tan : Op F
  abs : Op F
  sign : Op F
  floor : Op F
  ceil : Op F
  lt : Op F
  le : Op F
  gt : Op F
  ge : Op F
  eq : Op F
  ne : Op F
  and : Op F
  or : Op F
  not_op : Op F
  if_else : Op F
  diff : Op F

module _ {F : Type 0} where
  unfoldable pub arity : Op F → ℕ
  arity (const x) = 0
  arity (var s) = 0
  arity neg = 1
  arity sqrt = 1
  arity ln = 1
  arity exp = 1
  arity sin = 1
  arity cos = 1
  arity tan = 1
  arity abs = 1
  arity sign = 1
  arity floor = 1
  arity ceil = 1
  arity not_op = 1
  arity if_else = 3
  arity _ = 2

  unfoldable pub is_commutative : Op F → Bool
  is_commutative add = true
  is_commutative mul = true
  is_commutative min_op = true
  is_commutative max_op = true
  is_commutative eq = true
  is_commutative ne = true
  is_commutative and = true
  is_commutative or = true
  is_commutative _ = false

  unfoldable pub is_infix : Op F → Bool
  is_infix add = true
  is_infix sub = true
  is_infix mul = true
  is_infix div = true
  is_infix pow = true
  is_infix lt = true
  is_infix le = true
  is_infix gt = true
  is_infix ge = true
  is_infix eq = true
  is_infix ne = true
  is_infix and = true
  is_infix or = true
  is_infix _ = false

  unfoldable pub precedence : Op F → ℕ
  precedence or = 1
  precedence and = 2
  precedence eq = 3
  precedence ne = 3
  precedence lt = 4
  precedence le = 4
  precedence gt = 4
  precedence ge = 4
  precedence add = 5
  precedence sub = 5
  precedence mul = 6
  precedence div = 6
  precedence pow = 8
  precedence _ = 10

  unfoldable pub is_right_assoc : Op F → Bool
  is_right_assoc pow = true
  is_right_assoc _ = false

  unfoldable pub is_foldable : Op F → Bool
  is_foldable (var s) = false
  is_foldable diff = false
  is_foldable _ = true

module _ {F : Type 0} (ieee : Ieee F) where
  -- The tie between zeros goes to the negative one, whatever the order of the operands.
  unfoldable pub min_value : F → F → F
  min_value a b =
      if ieee.is_nan a
      then b
      else if ieee.is_nan b
      then a
      else if ieee.equal a b
      then if ieee.is_sign_negative a then a else b
      else if ieee.less a b
      then a
      else b

  -- `a > b` is `b < a`.
  unfoldable pub max_value : F → F → F
  max_value a b =
      if ieee.is_nan a
      then b
      else if ieee.is_nan b
      then a
      else if ieee.equal a b
      then if ieee.is_sign_negative a then b else a
      else if ieee.less b a
      then a
      else b

  abbrev pub of_bool : Bool → F
  of_bool true = ieee.one
  of_bool false = ieee.zero_value

  abbrev pub truthy : F → Bool
  truthy x = not (ieee.equal x ieee.zero_value) && not (ieee.is_nan x)

  unfoldable pub sign_value : F → F
  sign_value a =
      if ieee.is_nan a
      then ieee.nan
      else if ieee.less ieee.zero_value a
      then ieee.one
      else if ieee.less a ieee.zero_value
      then ieee.minus_one
      else ieee.zero_value

  abbrev pub eval0 : Op F → Option F
  eval0 (const c) = some c
  eval0 _ = none

  abbrev pub eval1 : Op F → F → Option F
  eval1 neg a = some (ieee.negate a)
  eval1 sqrt a = some (ieee.square_root a)
  eval1 ln a = some (ieee.logarithm a)
  eval1 exp a = some (ieee.exponential a)
  eval1 sin a = some (ieee.sine a)
  eval1 cos a = some (ieee.cosine a)
  eval1 tan a = some (ieee.tangent a)
  eval1 abs a = some (ieee.absolute a)
  eval1 sign a = some (sign_value a)
  eval1 floor a = some (ieee.round_down a)
  eval1 ceil a = some (ieee.round_up a)
  eval1 not_op a = some (of_bool (not (truthy a)))
  eval1 _ a = none

  abbrev pub eval2 : Op F → F → F → Option F
  eval2 add a b = some (ieee.plus a b)
  eval2 sub a b = some (ieee.minus a b)
  eval2 mul a b = some (ieee.times a b)
  eval2 div a b = some (ieee.divide a b)
  eval2 pow a b = some (ieee.powf a b)
  eval2 min_op a b = some (min_value a b)
  eval2 max_op a b = some (max_value a b)
  eval2 atan2 a b = some (ieee.arctangent a b)
  eval2 lt a b = some (of_bool (ieee.less a b))
  eval2 le a b = some (of_bool (ieee.less_equal a b))
  eval2 gt a b = some (of_bool (ieee.less b a))
  eval2 ge a b = some (of_bool (ieee.less_equal b a))
  eval2 eq a b = some (of_bool (ieee.equal a b))
  eval2 ne a b = some (of_bool (not (ieee.equal a b)))
  eval2 and a b = some (of_bool (truthy a && truthy b))
  eval2 or a b = some (of_bool (truthy a || truthy b))
  eval2 _ a b = none

  abbrev pub eval3 : Op F → F → F → F → Option F
  eval3 if_else c a b = some (if truthy c then a else b)
  eval3 _ c a b = none

  -- None unless the arguments are as many as the operator's arity.
  unfoldable pub eval_op : Op F → List F → Option F
  eval_op op [] = eval0 op
  eval_op op (a ∷ []) = eval1 op a
  eval_op op (a ∷ b ∷ []) = eval2 op a b
  eval_op op (a ∷ b ∷ c ∷ []) = eval3 op a b c
  eval_op op (a ∷ b ∷ c ∷ d ∷ more) = none
