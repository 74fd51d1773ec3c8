-- ===== src/Saturn/Eval/Tests.antt =====
-- Concrete runs of src/eval.rs and of `reachable` of src/lang.rs, on `x * x + (2 + 3)` where the third
-- node is not used.
use aiiiia.Saturn.Float.Sample.{sample}
use aiiiia.Saturn.Eval.{eval_at}
use aiiiia.Saturn.Eval.Meaning.{value_at}
use aiiiia.Saturn.Eval.Interpreter.{eval_at_iff}
use aiiiia.Saturn.Lang.{add, mul, const, var, arity}
use aiiiia.Saturn.Lang.Node.{ENode}
use aiiiia.Saturn.Lang.Expr.{mark, reachable}
use aiiiia.Saturn.Lang.Topo.{IsExpr, IsOrder, reachable-IsOrder}
use aiiiia.Prelude.Results.{ok}
use aiiiia.Prelude.{
  ◌≢◌, All, ◌≡◌, ◌↔◌, ◌<◌, refl, subst, some-inj, zero, suc, get_elem?, length, ℕ, Option, some,
  List, [], ◌∷◌, arith,
}

abbrev pub polynomial : List (ENode ℕ)
polynomial =
    record { op = var 7; children = [] }
    ∷ record { op = mul; children = 0 ∷ 0 ∷ [] }
    ∷ record { op = const 9; children = [] }
    ∷ record { op = const 2; children = [] }
    ∷ record { op = const 3; children = [] }
    ∷ record { op = add; children = 3 ∷ 4 ∷ [] }
    ∷ record { op = add; children = 1 ∷ 5 ∷ [] }
    ∷ []

abbrev pub at_four : ℕ → Option ℕ
at_four s = some 4

abbrev IsNodeOk : ℕ → ENode ℕ → Type 0
IsNodeOk i n = All (λ c. c < i) n.children × (length n.children ≡ arity n.op)

polynomial_ok : (i : ℕ) (n : ENode ℕ) → get_elem? polynomial i ≡ some n → IsNodeOk i n
unfolding arity
polynomial_ok zero n h = subst (IsNodeOk 0) (some-inj h) (tt, refl)
polynomial_ok (suc zero) n h =
    subst (IsNodeOk 1) (some-inj h) ((omega arith, (omega arith, tt)), refl)
polynomial_ok (suc (suc zero)) n h = subst (IsNodeOk 2) (some-inj h) (tt, refl)
polynomial_ok (suc (suc (suc zero))) n h = subst (IsNodeOk 3) (some-inj h) (tt, refl)
polynomial_ok (suc (suc (suc (suc zero)))) n h = subst (IsNodeOk 4) (some-inj h) (tt, refl)
polynomial_ok (suc (suc (suc (suc (suc zero))))) n h =
    subst (IsNodeOk 5) (some-inj h) ((omega arith, (omega arith, tt)), refl)
polynomial_ok (suc (suc (suc (suc (suc (suc zero)))))) n h =
    subst (IsNodeOk 6) (some-inj h) ((omega arith, (omega arith, tt)), refl)
polynomial_ok (suc (suc (suc (suc (suc (suc (suc i))))))) n h = cc

pub polynomial-IsExpr : IsExpr polynomial
polynomial-IsExpr = record {
  topological = λ i n h. (polynomial_ok i n h).0;
  arities = λ i n h. (polynomial_ok i n h).1;
}

-- The third node is no child of another.
not_two :
    (i : ℕ) (n : ENode ℕ) → i ≢ 2 → get_elem? polynomial i ≡ some n → All (λ c. c ≢ 2) n.children
not_two i n apart h = children_not_two i h
  where
    children_not_two : (i : ℕ) → get_elem? polynomial i ≡ some n → All (λ c. c ≢ 2) n.children
    children_not_two zero h = subst (λ m. All (λ c. c ≢ 2) m.children) (some-inj h) tt
    children_not_two (suc zero) h =
        subst (λ m. All (λ c. c ≢ 2) m.children) (some-inj h)
          ((λ e. omega arith), ((λ e. omega arith), tt))
    children_not_two (suc (suc zero)) h = subst (λ m. All (λ c. c ≢ 2) m.children) (some-inj h) tt
    children_not_two (suc (suc (suc zero))) h =
        subst (λ m. All (λ c. c ≢ 2) m.children) (some-inj h) tt
    children_not_two (suc (suc (suc (suc zero)))) h =
        subst (λ m. All (λ c. c ≢ 2) m.children) (some-inj h) tt
    children_not_two (suc (suc (suc (suc (suc zero))))) h =
        subst (λ m. All (λ c. c ≢ 2) m.children) (some-inj h)
          ((λ e. omega arith), ((λ e. omega arith), tt))
    children_not_two (suc (suc (suc (suc (suc (suc zero)))))) h =
        subst (λ m. All (λ c. c ≢ 2) m.children) (some-inj h)
          ((λ e. omega arith), ((λ e. omega arith), tt))
    children_not_two (suc (suc (suc (suc (suc (suc (suc i))))))) h = cc

eval_at_iff_example :
    (eval_at sample at_four polynomial 6 ≡ ok 21) ↔ (value_at sample at_four polynomial 6 ≡ some 21)
eval_at_iff_example = eval_at_iff sample at_four polynomial polynomial-IsExpr 6 21 (omega arith)

reachable-IsOrder_example :
    (ids : List ℕ) × ((reachable polynomial 6 ≡ some ids) × IsOrder polynomial (λ i. i ≢ 2) 6 ids)
reachable-IsOrder_example =
    reachable-IsOrder polynomial (λ i. i ≢ 2) 6 polynomial-IsExpr.topological (omega arith)
      (λ e. omega arith) not_two

pub unused_left_out : reachable polynomial 6 ≡ some (0 ∷ 1 ∷ 3 ∷ 4 ∷ 5 ∷ 6 ∷ [])
unfolding reachable mark
unused_left_out = refl
