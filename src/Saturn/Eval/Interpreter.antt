-- ===== src/Saturn/Eval/Interpreter.antt =====
-- The interpreter of src/eval.rs computes what an expression means.
use aiiiia.Saturn.Lang.Expr.{reachable}
use aiiiia.Saturn.UnionFind.{new}
use aiiiia.Saturn.Eval.{
  eval_at, unbound, insert, cons_value, values, eval_node, eval_loop, unreduced_diff, panicked,
}
use aiiiia.Saturn.Eval.Meaning.{value_at_lem, applied, op_value, value_at}
use aiiiia.Saturn.Float.{Ieee}
use aiiiia.Saturn.Lang.{Op, arity, eval_op, const, var, diff}
use aiiiia.Saturn.Lang.Node.{ENode}
use aiiiia.Saturn.Lang.Reach.{ℕ-cases, IsIn}
use aiiiia.Saturn.Lang.Topo.{All-true, reachable-IsOrder, IsIn-last, IsExpr, IsTopo}
use aiiiia.Prelude.{
  ne_test, ==_iff, subst, ◌<◌, sym, inl, inr, Option-cases, get_elem?, some-inj, All-mono, ◌≡◌,
  refl, ap, ◌∙◌, ◌↔◌, Option, none, some, List, [], ◌∷◌, arith, length, All, ℕ, ◌⊎◌,
}
use aiiiia.Prelude.Results.{ok_or_iff, >>=-eq-ok, ok-inj, ok_or, ok, ◌>>=◌}

pub no_children : (children : List ℕ) → length children ≡ 0 → children ≡ []
no_children [] h = refl
no_children (c ∷ children) h = absurd (omega arith)

module _ {F : Type 0} where
  values-agree :
      (vals others : ℕ → Option F) (children : List ℕ)
      → All (λ c. vals c ≡ others c) children
      → values vals children ≡ values others children
  values-agree vals others [] h = refl
  values-agree vals others (c ∷ children) h =
      ap (λ v. cons_value v (values vals children)) h.0
      ∙ ap (cons_value (others c)) (values-agree vals others children h.1)

  abbrev pub IsDefined : (ℕ → Option F) → ℕ → Type 0
  IsDefined vals c = (v : F) × (vals c ≡ some v)

  pub cons_value-some :
      (o : Option F) (rest : Option (List F)) (out : List F)
      → cons_value o rest ≡ some out
      → ((v : F) × (o ≡ some v)) × ((vs : List F) × (rest ≡ some vs))
  cons_value-some none rest out h = cc
  cons_value-some (some v) none out h = cc
  cons_value-some (some v) (some vs) out h = ((v, refl), (vs, refl))

  values-IsDefined :
      (vals : ℕ → Option F) (children : List ℕ) (out : List F)
      → values vals children ≡ some out
      → All (IsDefined vals) children
  values-IsDefined vals [] out h = tt
  values-IsDefined vals (c ∷ children) out h =
      let (here, (vs, rest)) = cons_value-some (vals c) (values vals children) out h in
      (here, values-IsDefined vals children vs rest)

module _ {F : Type 0} (ieee : Ieee F) (env : ℕ → Option F) where
  no_diff : (args : Option (List F)) {v : F} → applied ieee env diff args ≡ some v → ⊥
  unfolding eval_op
  no_diff none h = cc
  no_diff (some []) h = cc
  no_diff (some (a ∷ [])) h = cc
  no_diff (some (a ∷ b ∷ [])) h = cc
  no_diff (some (a ∷ b ∷ c ∷ [])) h = cc
  no_diff (some (a ∷ b ∷ c ∷ d ∷ more)) h = cc

  none-applied : (op : Op F) {v : F} → applied ieee env op none ≡ some v → ⊥
  none-applied op h = cc

  applied_ok :
      (op : Op F) (args : Option (List F)) (v : F)
      → ((ok_or args panicked >>= λ a. ok_or (eval_op ieee op a) unreduced_diff) ≡ ok v)
        ↔ (applied ieee env op args ≡ some v)
  applied_ok op none v = ((λ h. cc), (λ h. cc))
  applied_ok op (some a) v = ok_or_iff (eval_op ieee op a) unreduced_diff v

  -- One node, once its children have their values.
  eval_node_iff :
      (vals others : ℕ → Option F) (op : Op F) (children : List ℕ) (v : F)
      → length children ≡ arity op
      → All (λ c. vals c ≡ others c) children
      → (eval_node ieee env vals op children ≡ ok v)
        ↔ (op_value ieee env others op children ≡ some v)
  unfolding arity eval_op
  eval_node_iff vals others (const c) children v size h =
      rw (no_children children size) ((λ k. ap some (ok-inj k)), (λ k. ap ok (some-inj k)))
  eval_node_iff vals others (var s) children v size h = ok_or_iff (env s) (unbound s) v
  eval_node_iff vals others diff children v size h =
      ((λ k. cc), (λ k. absurd (no_diff (values others children) k)))
  eval_node_iff vals others op children v size h =
      rw (values-agree vals others children h) (applied_ok op (values others children) v)

  module _ (nodes : List (ENode F)) (v : IsExpr nodes) where
    abbrev meaning : ℕ → Option F
    meaning = value_at ieee env nodes

    -- The map holds the meaning of the ids done.
    abbrev IsRight : List ℕ → (ℕ → Option F) → Type 0
    IsRight done vals = (c : ℕ) → IsIn c done → vals c ≡ meaning c

    IsRight-insert :
        (x : ℕ) (done : List ℕ) (vals : ℕ → Option F) (w : F)
        → meaning x ≡ some w
        → IsRight done vals
        → IsRight (x ∷ done) (insert x w vals)
    IsRight-insert x done vals w h right c k = elim (ℕ-cases x c) [
      | inl e ↦ rw ((==_iff x c).1 e) (sym h ∙ ap meaning e)
      | inr apart ↦
          rw (ne_test x c apart)
            (elim k [ inl e ↦ absurd (apart (sym e)) | inr there ↦ right c there ])
    ]

    agree :
        (done : List ℕ) (vals : ℕ → Option F) (children : List ℕ)
        → IsRight done vals
        → All (λ c. IsIn c done) children
        → All (λ c. vals c ≡ meaning c) children
    agree done vals children right h =
        All-mono (λ c. IsIn c done) (λ c. vals c ≡ meaning c) children right h

    node_means :
        (x : ℕ) (n : ENode F) (w : F) (vals : ℕ → Option F)
        → get_elem? nodes x ≡ some n
        → All (λ c. vals c ≡ meaning c) n.children
        → eval_node ieee env vals n.op n.children ≡ ok w
        → meaning x ≡ some w
    node_means x n w vals there h value =
        value_at_lem ieee env nodes x n v.topological there
        ∙ (eval_node_iff vals meaning n.op n.children w (v.arities x n there) h).0 value

    eval_loop_sound :
        (ids done : List ℕ) (vals out : ℕ → Option F)
        → IsTopo nodes done ids
        → IsRight done vals
        → eval_loop ieee env nodes ids vals ≡ ok out
        → ((c : ℕ) → IsIn c done ⊎ IsIn c ids → out c ≡ meaning c)
    unfolding eval_loop
    eval_loop_sound [] done vals out topo right h c place = elim place [
      | inl k ↦ ap (λ r. r c) (sym (ok-inj h)) ∙ right c k
      | inr k ↦ absurd k
    ]
    eval_loop_sound (x ∷ rest) done vals out topo right h c place =
        let (n, (there, (ready, (new, later)))) = topo in
        let (m, found, more) =
          >>=-eq-ok (ok_or (get_elem? nodes x) panicked)
            (λ node. eval_node ieee env vals node.op node.children >>= λ w.
              eval_loop ieee env nodes rest (insert x w vals))
            h in
        let same : n ≡ m =
          some-inj (sym there ∙ (ok_or_iff (get_elem? nodes x) panicked m).0 found) in
        let (w, value, others) =
          >>=-eq-ok (eval_node ieee env vals m.op m.children)
            (λ w. eval_loop ieee env nodes rest (insert x w vals)) more in
        let means =
          node_means x n w vals there (agree done vals n.children right ready)
            (ap (λ k. eval_node ieee env vals k.op k.children) same ∙ value) in
        eval_loop_sound rest (x ∷ done) (insert x w vals) out later
          (IsRight-insert x done vals w means right) others c
          (elim place [
            | inl k ↦ inl (inr k)
            | inr k ↦ elim k [ inl e ↦ inl (inl e) | inr later ↦ inr later ]
          ])

    eval_loop_complete :
        (ids done : List ℕ) (vals : ℕ → Option F)
        → IsTopo nodes done ids
        → IsRight done vals
        → All (IsDefined meaning) ids
        → (out : ℕ → Option F) × (eval_loop ieee env nodes ids vals ≡ ok out)
    unfolding eval_loop
    eval_loop_complete [] done vals topo right h = (vals, refl)
    eval_loop_complete (x ∷ rest) done vals topo right h =
        let (n, (there, (ready, (new, later)))) = topo in
        let (w, means) = h.0 in
        let value =
          (eval_node_iff vals meaning n.op n.children w (v.arities x n there)
              (agree done vals n.children right ready)).1
            (sym (value_at_lem ieee env nodes x n v.topological there) ∙ means) in
        let (out, done) =
          eval_loop_complete rest (x ∷ done) (insert x w vals) later
            (IsRight-insert x done vals w means right) h.1 in
        rw (there, value) (out, done)

    applied-IsDefined :
        (op : Op F) (children : List ℕ) (w : F)
        → applied ieee env op (values meaning children) ≡ some w
        → All (IsDefined meaning) children
    applied-IsDefined op children w h = elim (Option-cases (values meaning children)) [
      | inl e ↦ absurd (none-applied op (rw e at h))
      | inr (out, e) ↦ values-IsDefined meaning children out e
    ]

    op-IsDefined :
        (op : Op F) (children : List ℕ) (w : F)
        → length children ≡ arity op
        → op_value ieee env meaning op children ≡ some w
        → All (IsDefined meaning) children
    unfolding arity
    op-IsDefined (var s) children w size h = rw (no_children children size) tt
    op-IsDefined op children w size h = applied-IsDefined op children w h

    -- Where the root has a meaning so has every node that it needs.
    pub meaning-IsDefined :
        (i : ℕ) (n : ENode F)
        → IsDefined meaning i
        → get_elem? nodes i ≡ some n
        → All (IsDefined meaning) n.children
    meaning-IsDefined i n (w, h) there =
        op-IsDefined n.op n.children w (v.arities i n there)
          (sym (value_at_lem ieee env nodes i n v.topological there) ∙ h)

    -- For an expression in dependency order whose operators have as many children as they take: the
    -- interpreter answers with a value for a node exactly when that is the node's meaning, which is
    -- defined with no search and no order of visits, by one pass over all the nodes.
    pub eval_at_iff :
        (id : ℕ) (w : F)
        → id < length nodes
        → (eval_at ieee env nodes id ≡ ok w) ↔ (meaning id ≡ some w)
    unfolding eval_at
    eval_at_iff id w small = (
      (λ h.
          let (ids, found, more) =
            >>=-eq-ok (ok_or (reachable nodes id) panicked)
              (λ ids. eval_loop ieee env nodes ids (λ k. none) >>= λ vals. ok_or (vals id) panicked)
              h in
          let (vals, ran, got) =
            >>=-eq-ok (eval_loop ieee env nodes ids (λ k. none)) (λ vals. ok_or (vals id) panicked)
              more in
          let (listed, (there, order)) =
            reachable-IsOrder nodes (λ i. Unit {0}) id v.topological small tt
              (λ i n k e. All-true n.children) in
          let same : listed ≡ ids =
            some-inj (sym there ∙ (ok_or_iff (reachable nodes id) panicked ids).0 found) in
          let right =
            eval_loop_sound ids [] (λ k. none) vals (subst (IsTopo nodes []) same order.topo)
              (λ c k. absurd k) ran id
              (inr (subst (IsIn id) same (IsIn-last listed id order.ends))) in
          sym right ∙ (ok_or_iff (vals id) panicked w).0 got),
      (λ h.
          let (ids, (found, order)) =
            reachable-IsOrder nodes (IsDefined meaning) id v.topological small (w, h)
              meaning-IsDefined in
          let (out, done) =
            eval_loop_complete ids [] (λ k. none) order.topo (λ c k. absurd k) order.kept in
          let right =
            eval_loop_sound ids [] (λ k. none) out order.topo (λ c k. absurd k) done id
              (inr (IsIn-last ids id order.ends)) in
          rw (found, done) ((ok_or_iff (out id) panicked w).1 (right ∙ h))),
    )
