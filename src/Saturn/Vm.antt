-- ===== src/Saturn/Vm.antt =====
-- src/vm.rs: the register machine. What indexes out of bounds, or fails an `expect` or an assertion,
-- gives none.
pub mod Apply
pub mod Compiler
pub mod Needed
pub mod Uses
pub mod Constants
pub mod Slots
pub mod Operands
pub mod Readied
pub mod Emit
pub mod Live
pub mod Step
pub mod Pass
pub mod Inputs
pub mod Built
pub mod Size
pub mod Progress
pub mod Total
pub mod Outcomes
pub mod Batch
pub mod Correct
pub mod Tests
use aiiiia.Prelude.Results.{Result, ok_or, err, ok}
use aiiiia.Saturn.Eval.{EvalError, unbound, panicked}
use aiiiia.Saturn.Float.{Ieee}
use aiiiia.Saturn.Lang.{
  Op, min_value, max_value, truthy, eval_op, add, sub, mul, div, pow, min_op, max_op, neg, sqrt, ln,
  exp, sin, cos, tan, abs, floor, ceil,
}
use aiiiia.Saturn.Lang.Topo.{last}
use aiiiia.Prelude.{
  ◌>>=◌, ◌-◌, true, false, Option, none, some, List, [], ◌∷◌, ◌++◌, ltb, if◌then◌else◌, length,
  get_elem?, set, take, drop, replicate, ℕ, ◌>>=◌, ◌==◌, ◌<◌,
}

pub data Instr (F : Type 0) : Type 0 where
  load_const : ℕ → ℕ → Instr F
  load_param : ℕ → ℕ → Instr F
  un : ℕ → Op F → ℕ → Instr F
  bin : ℕ → Op F → ℕ → ℕ → Instr F
  select : ℕ → ℕ → ℕ → ℕ → Instr F

pub record Program (F : Type 0) : Type 0 where
  pub code : List (Instr F)
  pub consts : List F
  pub params : List ℕ
  pub slots : ℕ

module _ {F : Type 0} where
  abbrev pub dst_of : Instr F → ℕ
  dst_of (load_const dst k) = dst
  dst_of (load_param dst p) = dst
  dst_of (un dst op a) = dst
  dst_of (bin dst op a b) = dst
  dst_of (select dst c a b) = dst

module _ {F : Type 0} (ieee : Ieee F) where
  unfoldable pub apply1 : Op F → F → Option F
  apply1 neg a = some (ieee.negate a)
  apply1 sqrt a = some (ieee.square_root a)
  apply1 ln a = some (ieee.logarithm a)
  apply1 exp a = some (ieee.exponential a)
  apply1 sin a = some (ieee.sine a)
  apply1 cos a = some (ieee.cosine a)
  apply1 tan a = some (ieee.tangent a)
  apply1 abs a = some (ieee.absolute a)
  apply1 floor a = some (ieee.round_down a)
  apply1 ceil a = some (ieee.round_up a)
  apply1 other a = eval_op ieee other (a ∷ [])

  unfoldable pub apply2 : Op F → F → F → Option F
  apply2 add a b = some (ieee.plus a b)
  apply2 sub a b = some (ieee.minus a b)
  apply2 mul a b = some (ieee.times a b)
  apply2 div a b = some (ieee.divide a b)
  apply2 pow a b = some (ieee.powf a b)
  apply2 min_op a b = some (min_value ieee a b)
  apply2 max_op a b = some (max_value ieee a b)
  apply2 other a b = eval_op ieee other (a ∷ b ∷ [])

  unfoldable pub instr_value : List F → List F → List F → Instr F → Option F
  instr_value consts args slots (load_const dst k) = get_elem? consts k
  instr_value consts args slots (load_param dst p) = get_elem? args p
  instr_value consts args slots (un dst op a) = get_elem? slots a >>= λ x. apply1 op x
  instr_value consts args slots (bin dst op a b) =
      get_elem? slots a >>= λ x. get_elem? slots b >>= λ y. apply2 op x y
  instr_value consts args slots (select dst c a b) =
      get_elem? slots c >>= λ x. if truthy ieee x then get_elem? slots a else get_elem? slots b

  -- The value last computed, and the slots as the code leaves them.
  unfoldable pub run_code : List F → List F → List (Instr F) → F → List F → Option (F × List F)
  run_code consts args [] last slots = some (last, slots)
  run_code consts args (i ∷ code) last slots = instr_value consts args slots i >>= λ v.
      elim (ltb (dst_of i) (length slots)) [
        | true ↦ run_code consts args code v (set slots (dst_of i) v)
        | false ↦ none
      ]

  -- The slot array is made longer if it is too short; only the program's part of it is used.
  unfoldable pub eval_with : Program F → List F → List F → Option (F × List F)
  eval_with p args slots =
      if length args == length p.params
      then (let resized = slots ++ replicate (p.slots - length slots) ieee.zero_value in
          run_code p.consts args p.code ieee.zero_value (take p.slots resized) >>= λ out.
          some (out.0, out.1 ++ drop p.slots resized))
      else none

  unfoldable pub eval_program : Program F → List F → Option F
  eval_program p args = eval_with p args (replicate p.slots ieee.zero_value) >>= λ out. some out.0

  -- Once per row, with one slot array.
  unfoldable pub eval_batch : Program F → List (List F) → List F → Option (List F × List F)
  eval_batch p [] slots = some ([], slots)
  eval_batch p (row ∷ rows) slots = eval_with p row slots >>= λ out.
      eval_batch p rows out.1 >>= λ rest. some (out.0 ∷ rest.0, rest.1)

module _ {F : Type 0} where
  unfoldable pub gather : (ℕ → Option F) → List ℕ → Result EvalError (List F)
  gather env [] = ok []
  gather env (p ∷ params) = elim (env p) [
    | none ↦ err (unbound p)
    | some v ↦ elim (gather env params) [ err problem ↦ err problem | ok vs ↦ ok (v ∷ vs) ]
  ]

module _ {F : Type 0} (ieee : Ieee F) where
  -- With the variables looked up by name.
  unfoldable pub eval_env : Program F → (ℕ → Option F) → Result EvalError F
  eval_env p env = elim (gather env p.params) [
    | err problem ↦ err problem
    | ok args ↦ ok_or (eval_program ieee p args) panicked
  ]
