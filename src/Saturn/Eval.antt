-- ===== src/Saturn/Eval.antt =====
-- src/eval.rs: the reference interpreter. A map is a function from keys to optional values.
pub mod Meaning
pub mod Interpreter
pub mod Tests
use aiiiia.Prelude.Results.{◌>>=◌, Result, ok_or, err, ok}
use aiiiia.Saturn.Float.{Ieee}
use aiiiia.Saturn.Lang.{Op, eval_op, const, var, diff}
use aiiiia.Saturn.Lang.Expr.{root, reachable}
use aiiiia.Saturn.Lang.Node.{ENode}
use aiiiia.Prelude.{get_elem?, ℕ, ◌==◌, ◌≡◌, Option, none, some, List, [], ◌∷◌, if◌then◌else◌}

pub data Limit : Type 0 where
  distinct_constants : Limit
  live_values : Limit

-- `panicked` stands for an index out of bounds or an `expect` that fails.
pub data EvalError : Type 0 where
  unbound : ℕ → EvalError
  unreduced_diff : EvalError
  program_too_large : Limit → EvalError
  panicked : EvalError

abbrev pub insert {ℓ} : {A : Type ℓ} → ℕ → A → (ℕ → Option A) → ℕ → Option A
insert key value old k = if key == k then some value else old k

module _ {F : Type 0} where
  abbrev pub cons_value : Option F → Option (List F) → Option (List F)
  cons_value none vs = none
  cons_value (some v) none = none
  cons_value (some v) (some vs) = some (v ∷ vs)

  -- The values of the children, when each has one.
  abbrev pub values : (ℕ → Option F) → List ℕ → Option (List F)
  values vals [] = some []
  values vals (c ∷ children) = cons_value (vals c) (values vals children)

module _ {F : Type 0} (ieee : Ieee F) where
  abbrev pub eval_node : (ℕ → Option F) → (ℕ → Option F) → Op F → List ℕ → Result EvalError F
  eval_node env vals (const c) children = ok c
  eval_node env vals (var s) children = ok_or (env s) (unbound s)
  eval_node env vals diff children = err unreduced_diff
  eval_node env vals op children =
      ok_or (values vals children) panicked >>= λ args. ok_or (eval_op ieee op args) unreduced_diff

  unfoldable pub eval_loop :
      (ℕ → Option F) → List (ENode F) → List ℕ → (ℕ → Option F) → Result EvalError (ℕ → Option F)
  eval_loop env nodes [] vals = ok vals
  eval_loop env nodes (id ∷ rest) vals = ok_or (get_elem? nodes id) panicked >>= λ node.
      eval_node env vals node.op node.children >>= λ v. eval_loop env nodes rest (insert id v vals)

  unfoldable pub eval_at : (ℕ → Option F) → List (ENode F) → ℕ → Result EvalError F
  eval_at env nodes id = ok_or (reachable nodes id) panicked >>= λ ids.
      eval_loop env nodes ids (λ k. none) >>= λ vals. ok_or (vals id) panicked

  unfoldable pub eval : (ℕ → Option F) → List (ENode F) → Result EvalError F
  eval env nodes = ok_or (root nodes) panicked >>= λ id. eval_at env nodes id
