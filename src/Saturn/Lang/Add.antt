-- ===== src/Saturn/Lang/Add.antt =====
-- `RecExpr::add` of src/lang.rs keeps the expression in dependency order and each node in it once.
use aiiiia.Prelude.{
  All-mono, length-append, arith, ◌^◌, ap, subst, Option-cases, ℕ, ◌<◌, ◌≡◌, refl, sym, ◌∙◌, ◌≢◌,
  ◌⊎◌, inl, inr, true, false, none, some, List, [], ◌∷◌, ◌++◌, lt→ltb, Bool-cases, length,
  get_elem?, get_elem?-lt, get_elem?-append_left, get_elem?-append_end, some-inj,
  get_elem?-append_cases, All,
}
use aiiiia.Saturn.Id.{new_id, new_id_small}
use aiiiia.Saturn.Lang.Normal.{normalize-All, normalize-arity, normalize-swap}
use aiiiia.Saturn.Float.{Ieee}
use aiiiia.Saturn.Lang.{Op, is_commutative, arity}
use aiiiia.Saturn.Lang.Expr.{RecExpr, empty_expr, all_below, memo_get, add_node}
use aiiiia.Saturn.Lang.Node.{ENode, normalize, node_eq}
use aiiiia.Saturn.Lang.Equal.{node_eq_iff}
use aiiiia.Saturn.Lang.Topo.{IsExpr}

module _ {F : Type 0} (ieee : Ieee F) where
  -- The table knows each node by its place, and nothing else: so no two places hold one node.
  pub record IsShared (expr : RecExpr F) : Type 0 where
    pub in_order : IsExpr expr.nodes
    pub memo_sound :
        (n : ENode F) (id : ℕ)
        → memo_get ieee n expr.memo ≡ some id
        → get_elem? expr.nodes id ≡ some n
    pub memo_complete :
        (n : ENode F) (id : ℕ)
        → get_elem? expr.nodes id ≡ some n
        → memo_get ieee n expr.memo ≡ some id

  pub empty_expr-IsShared : IsShared empty_expr
  empty_expr-IsShared = record {
    in_order = record { topological = λ i n h. cc; arities = λ i n h. cc };
    memo_sound = λ n id h. cc;
    memo_complete = λ n id h. cc;
  }

  all_below_lem :
      (size : ℕ) (children : List ℕ) → All (λ c. c < size) children → all_below size children ≡ true
  all_below_lem size [] h = refl
  all_below_lem size (c ∷ children) h = rw (lt→ltb c size h.0) (all_below_lem size children h.1)

  -- The expression after a node that it does not have yet.
  abbrev extended : ENode F → RecExpr F → RecExpr F
  extended n expr = record {
    nodes = expr.nodes ++ n ∷ [];
    memo = (n, length expr.nodes) ∷ expr.memo;
  }

  node-cases : (m n : ENode F) → (m ≡ n) ⊎ ((m ≢ n) × (node_eq ieee n m ≡ false))
  node-cases m n = elim (Bool-cases (node_eq ieee n m)) [
    | inl e ↦ inl (sym ((node_eq_iff ieee n m).0 e))
    | inr e ↦ inr ((λ same. cc (e, (node_eq_iff ieee n m).1 (sym same))), e)
  ]

  extended-IsShared :
      (n : ENode F) (expr : RecExpr F)
      → IsShared expr
      → All (λ c. c < length expr.nodes) n.children
      → length n.children ≡ arity n.op
      → memo_get ieee n expr.memo ≡ none
      → IsShared (extended n expr)
  extended-IsShared n expr v early size new = record {
    in_order = record {
      topological = λ i m h. elim (get_elem?-append_cases expr.nodes n i h) [
        | inl k ↦ v.in_order.topological i m k
        | inr (e, same) ↦ rw (sym same, e) early
      ];
      arities = λ i m h. elim (get_elem?-append_cases expr.nodes n i h) [
        | inl k ↦ v.in_order.arities i m k
        | inr (e, same) ↦ rw (sym same) size
      ];
    };
    memo_sound = λ m id h. elim (node-cases m n) [
      | inl same ↦
          let here : length expr.nodes ≡ id =
            some-inj (rw ((node_eq_iff ieee n m).1 (sym same)) at h) in
          rw (sym here, same) (get_elem?-append_end expr.nodes n)
      | inr (apart, e) ↦
          let old = v.memo_sound m id (rw e at h) in
          get_elem?-append_left expr.nodes (n ∷ []) id (get_elem?-lt expr.nodes id old) ∙ old
    ];
    memo_complete = λ m id h. elim (get_elem?-append_cases expr.nodes n id h) [
      | inl k ↦
          let found = v.memo_complete m id k in
          elim (node-cases m n) [
            | inl same ↦ absurd (cc (new, found, same))
            | inr (apart, e) ↦ rw e found
          ]
      | inr (e, same) ↦ rw ((node_eq_iff ieee n m).1 same, e) refl
    ];
  }

  -- In an expression of less than 2 ^ 32 nodes, in dependency order, whose table knows each node by its
  -- place: adding a node, with as many children as its operator takes and all of them present, succeeds and
  -- keeps the order and the table. The id returned is the place of the node in normal form, and what was
  -- at a place before is still there.
  pub add_node_lem :
      (given : ENode F) (expr : RecExpr F)
      → IsShared expr
      → length expr.nodes < 2 ^ 32
      → All (λ c. c < length expr.nodes) given.children
      → length given.children ≡ arity given.op
      → (id : ℕ) × ((after : RecExpr F) × ((add_node ieee given expr ≡ some (id, after))
            × ((IsShared after)
                × ((get_elem? after.nodes id ≡ some (normalize given))
                    × ((k : ℕ) (n : ENode F)
                        → get_elem? expr.nodes k ≡ some n
                        → get_elem? after.nodes k ≡ some n)))))
  unfolding add_node
  add_node_lem given expr v room early size =
      let n = normalize given in
      let present = normalize-All (λ c. c < length expr.nodes) given early in
      let checked = all_below_lem (length expr.nodes) n.children present in
      elim (Option-cases (memo_get ieee n expr.memo)) [
        | inr (id, e) ↦
            (id, (expr, (rw (add_node, checked, e) refl, (v, (v.memo_sound n id e, (λ k m h. h))))))
        | inl e ↦ (
          length expr.nodes,
          (
            extended n expr,
            (
              rw (add_node, checked, e, new_id_small (length expr.nodes) room) refl,
              (
                extended-IsShared n expr v present (normalize-arity given size) e,
                (
                  get_elem?-append_end expr.nodes n,
                  (λ k m h.
                      get_elem?-append_left expr.nodes (n ∷ []) k (get_elem?-lt expr.nodes k h)
                      ∙ h),
                ),
              ),
            ),
          ),
        )
      ]

  -- A node that has been added is found when it is added again.
  add_node_again :
      (given other : ENode F) (expr : RecExpr F) (id : ℕ) (after : RecExpr F)
      → normalize other ≡ normalize given
      → All (λ c. c < length expr.nodes) given.children
      → add_node ieee given expr ≡ some (id, after)
      → add_node ieee other after ≡ some (id, after)
  unfolding add_node
  add_node_again given other expr id after same early h =
      let n = normalize given in
      let present = normalize-All (λ c. c < length expr.nodes) given early in
      let checked = all_below_lem (length expr.nodes) n.children present in
      elim (Option-cases (memo_get ieee n expr.memo)) [
        | inr (known, e) ↦
            let out : ◌≡◌ {A = ℕ × RecExpr F} (known, expr) (id, after) =
              some-inj (sym (rw (add_node, checked, e) refl) ∙ h) in
            subst (λ (o : ℕ × RecExpr F). add_node ieee other o.1 ≡ some o) out
              (rw
                (
                  add_node,
                  ap (λ m. all_below (length expr.nodes) m.children) same ∙ checked,
                  ap (λ m. memo_get ieee m expr.memo) same ∙ e,
                )
                refl)
        | inl e ↦
            let fresh = new_id (length expr.nodes) in
            let grown : RecExpr F = record {
              nodes = expr.nodes ++ n ∷ [];
              memo = (n, fresh) ∷ expr.memo;
            } in
            let out : ◌≡◌ {A = ℕ × RecExpr F} (fresh, grown) (id, after) =
              some-inj (sym (rw (add_node, checked, e) refl) ∙ h) in
            let still = all_below_lem (length grown.nodes) n.children (
              All-mono (λ c. c < length expr.nodes) (λ c. c < length grown.nodes) n.children
                (λ c lt. omega (arith, length-append expr.nodes (n ∷ []), lt)) present) in
            subst (λ (o : ℕ × RecExpr F). add_node ieee other o.1 ≡ some o) out
              (rw
                (
                  add_node,
                  ap (λ m. all_below (length grown.nodes) m.children) same ∙ still,
                  (node_eq_iff ieee n (normalize other)).1 (sym same),
                )
                refl)
      ]

  -- In an expression in dependency order whose table knows each node by its place: after `a op b` has been
  -- added for a commutative operator and children that are present, adding `b op a` returns the same id
  -- and changes nothing.
  pub add_node_swapped :
      (op : Op F) (a b : ℕ) (expr : RecExpr F) (id : ℕ) (after : RecExpr F)
      → IsShared expr
      → is_commutative op ≡ true
      → a < length expr.nodes
      → b < length expr.nodes
      → add_node ieee record { op = op; children = a ∷ b ∷ [] } expr ≡ some (id, after)
      → add_node ieee record { op = op; children = b ∷ a ∷ [] } after ≡ some (id, after)
  add_node_swapped op a b expr id after v commutes small_a small_b h =
      add_node_again record { op = op; children = a ∷ b ∷ [] }
        record { op = op; children = b ∷ a ∷ [] } expr id after (normalize-swap op a b commutes)
        (small_a, (small_b, tt)) h
