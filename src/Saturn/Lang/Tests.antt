-- ===== src/Saturn/Lang/Tests.antt =====
-- Concrete expressions of src/lang.rs: `x`, then `x` and `y`, built by `add`.
use aiiiia.Saturn.Float.Sample.{sample, signed}
use aiiiia.Saturn.Lang.{arity, is_commutative, mul, var, min_value, max_value}
use aiiiia.Saturn.Lang.Add.{IsShared, empty_expr-IsShared, add_node_lem, add_node_swapped}
use aiiiia.Saturn.Lang.Expr.{RecExpr, empty_expr, add_node}
use aiiiia.Saturn.Lang.MinMax.{IsOrdered, min_value-max_value_comm}
use aiiiia.Saturn.Lang.Node.{ENode, normalize, node_eq, op_eq}
use aiiiia.Prelude.{
  ◌≡◌, refl, sym, ◌∙◌, subst, true, ◌++◌, ◌<◌, ◌^◌, length, get_elem?, some-inj, ℕ, [], ◌∷◌, some,
  arith,
}

abbrev x_only : RecExpr ℕ
x_only = record {
  nodes = record { op = var 0; children = [] } ∷ [];
  memo = (record { op = var 0; children = [] }, 0) ∷ [];
}

abbrev x_and_y : RecExpr ℕ
x_and_y = record {
  nodes = record { op = var 0; children = [] } ∷ record { op = var 1; children = [] } ∷ [];
  memo = (record { op = var 1; children = [] }, 1) ∷ (record { op = var 0; children = [] }, 0) ∷ [];
}

-- Adding a variable keeps the table right.
var-IsShared :
    (s : ℕ) (expr : RecExpr ℕ) (id : ℕ) (after : RecExpr ℕ)
    → IsShared sample expr
    → length expr.nodes < 2 ^ 32
    → add_node sample record { op = var s; children = [] } expr ≡ some (id, after)
    → IsShared sample after
unfolding arity
var-IsShared s expr id after v room h =
    let (first_id, (first, (added, (kept, rest)))) =
      add_node_lem sample record { op = var s; children = [] } expr v room tt refl in
    subst (λ (out : ℕ × RecExpr ℕ). IsShared sample out.1) (some-inj (sym added ∙ h)) kept

x_only-IsShared : IsShared sample x_only
unfolding add_node normalize node_eq op_eq
x_only-IsShared = var-IsShared 0 empty_expr 0 x_only (empty_expr-IsShared sample) (omega arith) refl

x_and_y-IsShared : IsShared sample x_and_y
unfolding add_node normalize node_eq op_eq
x_and_y-IsShared = var-IsShared 1 x_only 1 x_and_y x_only-IsShared (omega arith) refl

add_node_lem_example :
    (id : ℕ) × ((after : RecExpr ℕ) × ((add_node sample
            record { op = mul; children = 1 ∷ 0 ∷ [] }
            x_and_y
          ≡ some (id, after))
        × ((IsShared sample after)
            × ((get_elem? after.nodes id
                  ≡ some (normalize record { op = mul; children = 1 ∷ 0 ∷ [] }))
                × ((k : ℕ) (n : ENode ℕ)
                    → get_elem? x_and_y.nodes k ≡ some n
                    → get_elem? after.nodes k ≡ some n)))))
unfolding arity
add_node_lem_example =
    add_node_lem sample record { op = mul; children = 1 ∷ 0 ∷ [] } x_and_y x_and_y-IsShared
      (omega arith) (omega arith, (omega arith, tt)) refl

abbrev x_times_y : RecExpr ℕ
x_times_y = record {
  nodes = x_and_y.nodes ++ record { op = mul; children = 0 ∷ 1 ∷ [] } ∷ [];
  memo = (record { op = mul; children = 0 ∷ 1 ∷ [] }, 2) ∷ x_and_y.memo;
}

x_times_y-added :
    add_node sample record { op = mul; children = 0 ∷ 1 ∷ [] } x_and_y ≡ some (2, x_times_y)
unfolding add_node normalize node_eq op_eq is_commutative
x_times_y-added = refl

mul-is_commutative : is_commutative {F = ℕ} mul ≡ true
unfolding is_commutative
mul-is_commutative = refl

add_node_swapped_example :
    add_node sample record { op = mul; children = 1 ∷ 0 ∷ [] } x_times_y ≡ some (2, x_times_y)
add_node_swapped_example =
    add_node_swapped sample mul 0 1 x_and_y 2 x_times_y x_and_y-IsShared mul-is_commutative
      (omega arith) (omega arith) x_times_y-added

signed-IsOrdered : IsOrdered signed
signed-IsOrdered = record {
  equal_sym = λ x y. ground arith;
  less_total = λ x y nan_x nan_y apart. ground arith;
  one_sign = λ x y same sign. ground arith;
  one_nan = λ x y nan_x nan_y. ground arith;
}

-- The operands are the zeros of both signs.
min_value-max_value_comm_example :
    (min_value signed 0 3 ≡ min_value signed 3 0) × (max_value signed 0 3 ≡ max_value signed 3 0)
min_value-max_value_comm_example = min_value-max_value_comm signed signed-IsOrdered 0 3

lesser_zero : (min_value signed 0 3 ≡ 3) × (min_value signed 3 0 ≡ 3)
unfolding min_value
lesser_zero = (refl, refl)

nan_gives_way : (min_value signed 2 5 ≡ 5) × (max_value signed 5 2 ≡ 5)
unfolding min_value max_value
nan_gives_way = (refl, refl)
