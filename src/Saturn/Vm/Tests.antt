-- ===== src/Saturn/Vm/Tests.antt =====
-- Concrete runs of src/vm.rs on `x * x + (2 + 3)`: the sum folds, and the slot of `x` is used again.
use aiiiia.Saturn.Vm.Batch.{eval_batch_lem}
use aiiiia.Saturn.Lang.Node.{ENode}
use aiiiia.Saturn.Lang.Topo.{IsExpr}
use aiiiia.Saturn.Vm.Outcomes.{IsDerivative, compile_correct, compile_err_iff}
use aiiiia.Saturn.Vm.Total.{IsPlain}
use aiiiia.Saturn.Float.Sample.{sample}
use aiiiia.Saturn.Eval.{eval_loop, eval_at, EvalError, unreduced_diff, eval}
use aiiiia.Saturn.Eval.Tests.{unused_left_out, polynomial, polynomial-IsExpr, at_four}
use aiiiia.Saturn.Lang.{const, var, diff, mul, add, is_foldable, eval_op, arity}
use aiiiia.Saturn.Lang.Expr.{root, mark, reachable}
use aiiiia.Saturn.Vm.{eval_batch, Program, load_const, load_param, bin, gather, eval_with, eval_env}
use aiiiia.Saturn.Vm.Compiler.{
  is_diff, compile, fold, fold_pass, needed, emitted, last_uses, emit_pass, emit_value, emit, alloc,
  intern_const, dead, recycle,
}
use aiiiia.Saturn.Vm.Correct.{eval_with_iff, eval_env_iff}
use aiiiia.Prelude.Results.{err, ok}
use aiiiia.Prelude.{
  Option, zero, suc, ◌<◌, sym, ap, ◌∙◌, subst, false, length, get_elem?, some-inj, All, Any, ◌≡◌,
  ◌↔◌, refl, ltb, some, List, [], ◌∷◌, ℕ, arith, ◌>>=◌,
}

abbrev square_plus_five : Program ℕ
square_plus_five = record {
  code = load_param 0 0 ∷ bin 1 mul 0 0 ∷ load_const 0 0 ∷ bin 2 add 1 0 ∷ [];
  consts = 5 ∷ [];
  params = 7 ∷ [];
  slots = 3;
}

compiles : compile sample ltb polynomial ≡ ok square_plus_five
unfolding compile root reachable mark fold_pass fold is_foldable eval_op needed emitted last_uses
    emit_pass emit_value emit alloc intern_const dead recycle arity
compiles = refl

eval_env_iff_example :
    (eval_env sample square_plus_five at_four ≡ ok 21) ↔ (eval sample at_four polynomial ≡ ok 21)
eval_env_iff_example =
    eval_env_iff sample at_four ltb polynomial polynomial-IsExpr square_plus_five 21 compiles
      (omega arith)

abbrev used_slots : List ℕ
used_slots = 8 ∷ 9 ∷ []

four_given : gather at_four square_plus_five.params ≡ ok (4 ∷ [])
unfolding gather
four_given = refl

eval_with_iff_example :
    ((eval_with sample square_plus_five (4 ∷ []) used_slots >>= λ out. some out.0) ≡ some 21)
    ↔ (eval sample at_four polynomial ≡ ok 21)
eval_with_iff_example =
    eval_with_iff sample at_four ltb polynomial polynomial-IsExpr square_plus_five (4 ∷ [])
      used_slots 21 compiles (omega arith) four_given

abbrev at_one : ℕ → Option ℕ
at_one s = some 1

one_given : gather at_one square_plus_five.params ≡ ok (1 ∷ [])
unfolding gather
one_given = refl

value_at_four : eval sample at_four polynomial ≡ ok 21
unfolding eval eval_at eval_loop reachable mark root eval_op
value_at_four = refl

value_at_one : eval sample at_one polynomial ≡ ok 6
unfolding eval eval_at eval_loop reachable mark root eval_op
value_at_one = refl

eval_batch_lem_example :
    (after : List ℕ) × (eval_batch sample square_plus_five ((4 ∷ []) ∷ (1 ∷ []) ∷ []) used_slots
      ≡ some (21 ∷ 6 ∷ [], after))
eval_batch_lem_example =
    eval_batch_lem sample ltb polynomial polynomial-IsExpr square_plus_five (at_four ∷ at_one ∷ [])
      ((4 ∷ []) ∷ (1 ∷ []) ∷ []) (21 ∷ 6 ∷ []) used_slots compiles (omega arith)
      (four_given, (value_at_four, (one_given, (value_at_one, tt))))

polynomial-root : root polynomial ≡ some 6
unfolding root
polynomial-root = refl

-- A node that is no derivative, as it stands in the list.
IsPlain-at :
    (x : ℕ) (m : ENode ℕ)
    → get_elem? polynomial x ≡ some m
    → is_diff m.op ≡ false
    → IsPlain polynomial x
IsPlain-at x m there plain n h = ap (λ k. is_diff k.op) (some-inj (sym h ∙ there)) ∙ plain

polynomial-IsPlain : All (IsPlain polynomial) (0 ∷ 1 ∷ 3 ∷ 4 ∷ 5 ∷ 6 ∷ [])
polynomial-IsPlain = (
  IsPlain-at 0 (record { op = var 7; children = [] }) refl refl,
  (
    IsPlain-at 1 (record { op = mul; children = 0 ∷ 0 ∷ [] }) refl refl,
    (
      IsPlain-at 3 (record { op = const 2; children = [] }) refl refl,
      (
        IsPlain-at 4 (record { op = const 3; children = [] }) refl refl,
        (
          IsPlain-at 5 (record { op = add; children = 3 ∷ 4 ∷ [] }) refl refl,
          (IsPlain-at 6 (record { op = add; children = 1 ∷ 5 ∷ [] }) refl refl, tt),
        ),
      ),
    ),
  ),
)

compile_correct_example :
    (p : Program ℕ) × ((compile sample ltb polynomial ≡ ok p)
      × ((eval_env sample p at_four ≡ ok 21) ↔ (eval sample at_four polynomial ≡ ok 21)))
compile_correct_example =
    compile_correct sample ltb polynomial polynomial-IsExpr 6 (0 ∷ 1 ∷ 3 ∷ 4 ∷ 5 ∷ 6 ∷ [])
      polynomial-root unused_left_out (omega arith) at_four 21 polynomial-IsPlain

-- The derivative of `x` by `x`, not reduced.
abbrev derivative : List (ENode ℕ)
derivative = record { op = var 7; children = [] } ∷ record { op = diff; children = 0 ∷ 0 ∷ [] } ∷ []

abbrev IsDerivativeNode : ℕ → ENode ℕ → Type 0
IsDerivativeNode i n = All (λ c. c < i) n.children × (length n.children ≡ arity n.op)

derivative_ok : (i : ℕ) (n : ENode ℕ) → get_elem? derivative i ≡ some n → IsDerivativeNode i n
unfolding arity
derivative_ok zero n h = subst (IsDerivativeNode 0) (some-inj h) (tt, refl)
derivative_ok (suc zero) n h =
    subst (IsDerivativeNode 1) (some-inj h) ((omega arith, (omega arith, tt)), refl)
derivative_ok (suc (suc i)) n h = cc

derivative-IsExpr : IsExpr derivative
derivative-IsExpr = record {
  topological = λ i n h. (derivative_ok i n h).0;
  arities = λ i n h. (derivative_ok i n h).1;
}

derivative-root : root derivative ≡ some 1
unfolding root
derivative-root = refl

derivative-reachable : reachable derivative 1 ≡ some (0 ∷ 1 ∷ [])
unfolding reachable mark
derivative-reachable = refl

compile_err_iff_example : (compile sample ltb derivative ≡ err unreduced_diff) ↔ (
    (◌≡◌ {A = EvalError} unreduced_diff unreduced_diff)
    × Any (IsDerivative derivative) (0 ∷ 1 ∷ []))
compile_err_iff_example =
    compile_err_iff sample ltb derivative derivative-IsExpr 1 (0 ∷ 1 ∷ []) derivative-root
      derivative-reachable (omega arith) unreduced_diff
