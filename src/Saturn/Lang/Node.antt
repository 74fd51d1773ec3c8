-- ===== src/Saturn/Lang/Node.antt =====
-- src/lang.rs: an operator with its children, compared and normalised. The children that exist are a
-- list, which the array and the length of ENode hold.
use aiiiia.Saturn.Float.{Ieee}
use aiiiia.Saturn.Lang.{
  min_op, max_op, Op, is_commutative, const, var, add, sub, mul, div, pow, atan2, neg, sqrt, ln,
  exp, sin, cos, tan, abs, sign, floor, ceil, lt, le, gt, ge, eq, ne, and, or, not_op, if_else,
  diff,
}
use aiiiia.Prelude.{
  ◌≡◌, Option, none, some, Bool, true, false, ◌&&◌, List, [], ◌∷◌, ltb, if◌then◌else◌, ℕ, ◌==◌,
}

pub record ENode (F : Type 0) : Type 0 where
  pub op : Op F
  pub children : List ℕ

-- Which constructor it is, in the order of their declaration.
module _ {F : Type 0} where
  abbrev pub tag : Op F → ℕ
  tag (const x) = 0
  tag (var s) = 1
  tag add = 2
  tag sub = 3
  tag mul = 4
  tag div = 5
  tag pow = 6
  tag min_op = 7
  tag max_op = 8
  tag atan2 = 9
  tag neg = 10
  tag sqrt = 11
  tag ln = 12
  tag exp = 13
  tag sin = 14
  tag cos = 15
  tag tan = 16
  tag abs = 17
  tag sign = 18
  tag floor = 19
  tag ceil = 20
  tag lt = 21
  tag le = 22
  tag gt = 23
  tag ge = 24
  tag eq = 25
  tag ne = 26
  tag and = 27
  tag or = 28
  tag not_op = 29
  tag if_else = 30
  tag diff = 31

  -- The literal or the variable that a node is.
  abbrev pub as_const : Op F → Option F
  as_const (const c) = some c
  as_const _ = none

  abbrev pub as_var : Op F → Option ℕ
  as_var (var s) = some s
  as_var _ = none

  pub as_const_lem : (op : Op F) (c : F) → as_const op ≡ some c → op ≡ const c
  as_const_lem (const x) c h = cc
  as_const_lem op c h = cc

  -- `a + b` and `b + a` have one form.
  unfoldable pub normalize : ENode F → ENode F
  normalize node = elim node.children [
    | [] ↦ node
    | a ∷ others ↦ elim others [
      | [] ↦ node
      | b ∷ more ↦ elim more [
        | [] ↦
            if is_commutative node.op && ltb b a
            then record node { children = b ∷ a ∷ [] }
            else node
        | c ∷ rest ↦ node
      ]
    ]
  ]

module _ {F : Type 0} (ieee : Ieee F) where
  -- The bits of a literal, the index of a variable.
  abbrev pub payload : Op F → ℕ
  payload (const x) = ieee.bits x
  payload (var s) = s
  payload _ = 0

  unfoldable pub op_eq : Op F → Op F → Bool
  op_eq a b = (tag a == tag b) && (payload a == payload b)

abbrev pub ids_eq : List ℕ → List ℕ → Bool
ids_eq [] [] = true
ids_eq [] (y ∷ ys) = false
ids_eq (x ∷ xs) [] = false
ids_eq (x ∷ xs) (y ∷ ys) = (x == y) && ids_eq xs ys

module _ {F : Type 0} (ieee : Ieee F) where
  unfoldable pub node_eq : ENode F → ENode F → Bool
  node_eq a b = op_eq ieee a.op b.op && ids_eq a.children b.children
