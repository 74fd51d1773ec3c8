-- ===== src/Saturn/Vm/Outcomes.antt =====
-- What the compiler of src/vm.rs answers for an expression of at most 65,536 nodes.
use aiiiia.Saturn.Lang.Reach.{IsIn}
use aiiiia.Saturn.Lang.Expr.{root, reachable}
use aiiiia.Saturn.Lang.Node.{as_var, ENode}
use aiiiia.Saturn.Lang.Topo.{plain-IsOrder, IsExpr, IsTopo}
use aiiiia.Saturn.UnionFind.{new}
use aiiiia.Saturn.Float.{Ieee}
use aiiiia.Saturn.Eval.{EvalError, insert, eval, unreduced_diff}
use aiiiia.Saturn.Vm.{Program, eval_env}
use aiiiia.Saturn.Vm.Built.{program_of}
use aiiiia.Saturn.Vm.Compiler.{
  compile, fold, fold_pass, is_diff, vars_of, emitted, needed, last_uses, start_compiler,
}
use aiiiia.Saturn.Vm.Step.{All-self}
use aiiiia.Saturn.Vm.Correct.{eval_env_iff, root_small}
use aiiiia.Saturn.Vm.Needed.{All-emitted, emitted-IsReady}
use aiiiia.Saturn.Vm.Total.{IsPlain, fold_pass_total, emit_pass_total}
use aiiiia.Saturn.Vm.Size.{length-reachable, length-emitted, length-vars_of, IsIn-vars_of}
use aiiiia.Prelude.Results.{ok, err}
use aiiiia.Prelude.{
  ◌↔◌, dedup, none, arith, All-mono, order_by, ℕ, ◌^◌, ◌≤◌, ◌≡◌, refl, sym, ap, ◌∙◌, ◌⊎◌, inl, inr,
  Bool, true, false, Option, some, List, [], ◌∷◌, Bool-cases, Option-cases, length, get_elem?,
  some-inj, All, Any, length-dedup, length-order_by, Any-dedup, Any-order_by,
}

module _ {F : Type 0} (nodes : List (ENode F)) where
  -- The node is a derivative.
  abbrev pub IsDerivative : ℕ → Type 0
  IsDerivative x = (n : ENode F) × ((get_elem? nodes x ≡ some n) × (is_diff n.op ≡ true))

  IsPlain-cases : (ids : List ℕ) → All (IsPlain nodes) ids ⊎ Any IsDerivative ids
  IsPlain-cases [] = inl tt
  IsPlain-cases (x ∷ ids) = elim (IsPlain-cases ids) [
    | inr k ↦ inr (inr k)
    | inl rest ↦ elim (Option-cases (get_elem? nodes x)) [
      | inl e ↦ inl ((λ n h. cc), rest)
      | inr (m, e) ↦ elim (Bool-cases (is_diff m.op)) [
        | inl d ↦ inr (inl (m, (e, d)))
        | inr d ↦ inl ((λ n h. ap (λ k. is_diff k.op) (some-inj (sym h ∙ e)) ∙ d), rest)
      ]
    ]
  ]

  fold_pass-err :
      (ieee : Ieee F) (done ids : List ℕ) (known : ℕ → Option F)
      → IsTopo nodes done ids
      → Any IsDerivative ids
      → fold_pass ieee nodes ids known ≡ err unreduced_diff
  unfolding fold_pass
  fold_pass-err ieee done [] known topo h = absurd h
  fold_pass-err ieee done (x ∷ ids) known (n, (there, (ready, (new, later)))) h =
      elim (Bool-cases (is_diff n.op)) [
        | inl d ↦ rw (fold_pass, there, d) refl
        | inr d ↦
            let rest = in_rest n d there h in
            elim (Option-cases (fold ieee n known)) [
              | inl e ↦
                  rw (fold_pass, there, d, e) (fold_pass-err ieee (x ∷ done) ids known later rest)
              | inr (w, e) ↦
                  rw (fold_pass, there, d, e)
                    (fold_pass-err ieee (x ∷ done) ids (insert x w known) later rest)
            ]
      ]
    where
      in_rest :
          (n : ENode F)
          → is_diff n.op ≡ false
          → get_elem? nodes x ≡ some n
          → Any IsDerivative (x ∷ ids)
          → Any IsDerivative ids
      in_rest n d there (inl (m, (e, k))) =
          absurd (cc (d, ap (λ u. is_diff u.op) (some-inj (sym there ∙ e)), k))
      in_rest n d there (inr k) = k

module _ {F : Type 0} (ieee : Ieee F) (named_before : ℕ → ℕ → Bool) (nodes : List (ENode F))
    (v : IsExpr nodes) (start : ℕ) (order : List ℕ) (rooted : root nodes ≡ some start)
    (listed : reachable nodes start ≡ some order) where
  order-IsTopo : IsTopo nodes [] order
  order-IsTopo =
      (plain-IsOrder nodes start order v.topological (root_small nodes start rooted) listed).topo

  module _ (fits : length nodes ≤ 2 ^ 16) where
    built :
        All (IsPlain nodes) order
        → (p : Program F) × ((compile ieee named_before nodes ≡ ok p) × (length p.params ≤ 2 ^ 16))
    unfolding compile
    built plain =
        let params = dedup (order_by named_before (vars_of nodes order)) in
        let (known, folds) = fold_pass_total ieee nodes [] order (λ k. none) order-IsTopo plain in
        let ids = emitted known (needed nodes known order (start ∷ [])) order in
        let (st, emits) =
          emit_pass_total ieee nodes v params known (last_uses nodes known ids 0 ids (λ k. none))
            start 0 [] ids start_compiler
            (emitted-IsReady nodes known order (start ∷ []) order-IsTopo)
            (omega (
              arith,
              fits,
              length-reachable nodes start order listed,
              length-emitted nodes known (needed nodes known order (start ∷ [])) order,
            ))
            record { slots = omega arith; pool = omega arith } (λ c k. absurd k)
            (All-emitted nodes known served (needed nodes known order (start ∷ [])) order (
              All-mono (λ c. IsIn c order) served order
                (λ x place n s there is_s.
                  Any-dedup s (order_by named_before (vars_of nodes order)) (
                    Any-order_by (λ q. s ≡ q) named_before (vars_of nodes order)
                      (IsIn-vars_of nodes order x n s place there is_s)))
                (All-self order))) in
        (
          program_of ieee named_before nodes order st,
          (
            rw (compile, rooted, listed, folds, emits) refl,
            omega (
              arith,
              fits,
              length-reachable nodes start order listed,
              length-vars_of nodes order,
              length-order_by named_before (vars_of nodes order),
              length-dedup (order_by named_before (vars_of nodes order)),
            ),
          ),
        )
      where
        served : ℕ → Type 0
        served x =
            (n : ENode F) (s : ℕ)
            → get_elem? nodes x ≡ some n
            → as_var n.op ≡ some s
            → IsIn s (dedup (order_by named_before (vars_of nodes order)))

    -- For an expression of at most 65,536 nodes, in dependency order, whose operators have as many
    -- children as they take, with a root: if nothing that the root needs is a derivative, the
    -- compiler gives a program, and run in any environment the program gives a value exactly when the
    -- interpreter does, and the same value.
    pub compile_correct :
        (env : ℕ → Option F) (w : F)
        → All (IsPlain nodes) order
        → (p : Program F) × ((compile ieee named_before nodes ≡ ok p)
            × ((eval_env ieee p env ≡ ok w) ↔ (eval ieee env nodes ≡ ok w)))
    compile_correct env w plain =
        let (p, (compiled, few)) = built plain in
        (p, (compiled, eval_env_iff ieee env named_before nodes v p w compiled few))

    -- For an expression of at most 65,536 nodes, in dependency order, whose operators have as many
    -- children as they take, with a root: the compiler reports a derivative exactly when the root or
    -- something that it needs is one, and this is the only error that it reports.
    pub compile_err_iff :
        (problem : EvalError)
        → (compile ieee named_before nodes ≡ err problem)
          ↔ ((problem ≡ unreduced_diff) × Any (IsDerivative nodes) order)
    unfolding compile
    compile_err_iff problem = (
      (λ h. elim (IsPlain-cases nodes order) [
        | inl plain ↦ let (p, (compiled, few)) = built plain in absurd (cc (compiled, h))
        | inr found ↦ (cc (h, failed found), found)
      ]),
      (λ (same, found). failed found ∙ ap err (sym same)),
    )
      where
        failed :
            Any (IsDerivative nodes) order → compile ieee named_before nodes ≡ err unreduced_diff
        failed found =
            rw
              (
                compile,
                rooted,
                listed,
                fold_pass-err nodes ieee [] order (λ k. none) order-IsTopo found,
              )
              refl
