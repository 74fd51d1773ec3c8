-- ===== src/Saturn/Lang/Expr.antt =====
-- src/lang.rs: the flat DAG that an expression is kept in.
use aiiiia.Saturn.Id.{new_id}
use aiiiia.Saturn.Float.{Ieee}
use aiiiia.Saturn.Lang.Node.{ENode, normalize, node_eq}
use aiiiia.Prelude.{
  ◌>>=◌, zero, suc, ◌+◌, Bool, true, false, ◌&&◌, Option, none, some, List, [], ◌∷◌, ◌++◌, ltb,
  if◌then◌else◌, length, get_elem?, set, replicate, ℕ,
}

pub record RecExpr (F : Type 0) : Type 0 where
  pub nodes : List (ENode F)
  pub memo : List (ENode F × ℕ)

module _ {F : Type 0} where
  abbrev pub empty_expr : RecExpr F
  empty_expr = record { nodes = []; memo = [] }

-- The children are all there.
abbrev pub all_below : ℕ → List ℕ → Bool
all_below n [] = true
all_below n (c ∷ children) = ltb c n && all_below n children

module _ {F : Type 0} (ieee : Ieee F) where
  abbrev pub memo_get : ENode F → List (ENode F × ℕ) → Option ℕ
  memo_get node [] = none
  memo_get node ((other, id) ∷ memo) =
      if node_eq ieee other node then some id else memo_get node memo

  -- Fails where the source panics: a child is not yet in the expression.
  unfoldable pub add_node : ENode F → RecExpr F → Option (ℕ × RecExpr F)
  add_node given expr =
      let node = normalize given in
      if all_below (length expr.nodes) node.children
      then (elim (memo_get node expr.memo) [
        | some id ↦ some (id, expr)
        | none ↦ some (
          new_id (length expr.nodes),
          record {
            nodes = expr.nodes ++ node ∷ [];
            memo = (node, new_id (length expr.nodes)) ∷ expr.memo;
          },
        )
      ])
      else none

abbrev pub push_all : List ℕ → List ℕ → List ℕ
push_all [] stack = stack
push_all (c ∷ children) stack = push_all children (c ∷ stack)

module _ {F : Type 0} where
  -- The last node; none where the source panics.
  unfoldable pub root : List (ENode F) → Option ℕ
  root [] = none
  root (node ∷ nodes) = some (length nodes)

  -- The loop of reachable; it gives none when it indexes out of bounds, or runs out of fuel.
  unfoldable pub mark : ℕ → List (ENode F) → List ℕ → List Bool → Option (List Bool)
  mark zero nodes stack seen = elim stack [ [] ↦ some seen | x ∷ rest ↦ none ]
  mark (suc fuel) nodes stack seen = elim stack [
    | [] ↦ some seen
    | x ∷ rest ↦ get_elem? seen x >>= λ known. elim known [
      | true ↦ mark fuel nodes rest seen
      | false ↦ get_elem? nodes x >>= λ node.
          mark fuel nodes (push_all node.children rest) (set seen x true)
    ]
  ]

  -- Every pop takes one id off the stack, and a node's children are pushed once.
  abbrev pub edges : List (ENode F) → ℕ
  edges [] = 0
  edges (node ∷ nodes) = length node.children + edges nodes

abbrev pub marked_ids : ℕ → List Bool → List ℕ
marked_ids i [] = []
marked_ids i (seen ∷ rest) = if seen then i ∷ marked_ids (suc i) rest else marked_ids (suc i) rest

module _ {F : Type 0} where
  unfoldable pub reachable : List (ENode F) → ℕ → Option (List ℕ)
  reachable nodes id =
      mark (suc (edges nodes)) nodes (id ∷ []) (replicate (length nodes) false) >>= λ seen.
      some (marked_ids 0 seen)
