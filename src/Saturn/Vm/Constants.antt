-- ===== src/Saturn/Vm/Constants.antt =====
-- The compiler of src/vm.rs: the nodes that have a value at compile time, and the pool of literals.
use aiiiia.Prelude.{
  ne_test, ◌^◌, refl, ltb, get_elem?-append_end, some-inj, ==_iff, ℕ, ◌≡◌, sym, ap, ◌∙◌, subst, inl,
  inr, Option, none, some, List, [], ◌∷◌, ◌++◌, if◌then◌else◌, Option-cases, length, get_elem?,
  get_elem?-lt, get_elem?-append_left,
}
use aiiiia.Prelude.Results.{ok_or_iff, if_ok, >>=-eq-ok, ok_or, ok-inj, if_err, err, ok}
use aiiiia.Saturn.Eval.{
  distinct_constants, program_too_large, insert, values, unreduced_diff, panicked,
}
use aiiiia.Saturn.Eval.Interpreter.{no_children, cons_value-some}
use aiiiia.Saturn.Lang.{is_foldable, eval_op, const, var, diff, Op, arity}
use aiiiia.Saturn.Lang.Node.{ENode}
use aiiiia.Saturn.Lang.Reach.{ℕ-cases}
use aiiiia.Saturn.Lang.Topo.{IsExpr}
use aiiiia.Saturn.Float.{Ieee}
use aiiiia.Saturn.Vm.Compiler.{is_diff, Compiler, fold, fold_pass, intern_const}
use aiiiia.Saturn.Eval.Meaning.{op_value, value_at_lem, value_at}

module _ {F : Type 0} where
  -- The values of some of the children are those of another map, where there are such.
  values-agree_some :
      (known vals : ℕ → Option F) (children : List ℕ) (args : List F)
      → ((c : ℕ) (v : F) → known c ≡ some v → vals c ≡ some v)
      → values known children ≡ some args
      → values vals children ≡ some args
  values-agree_some known vals [] args right h = h
  values-agree_some known vals (c ∷ children) args right h =
      let ((v, here), (vs, rest)) = cons_value-some (known c) (values known children) args h in
      let same = rw (here, rest) at h in
      rw (right c v here, values-agree_some known vals children vs right rest) same

  no_value : {v : F} → ◌≡◌ {A = Option F} none (some v) → ⊥
  no_value h = cc

  -- A pool that keeps its entries.
  abbrev pub IsKeptIn : List F → List F → Type 0
  IsKeptIn old new_pool = (k : ℕ) (v : F) → get_elem? old k ≡ some v → get_elem? new_pool k ≡ some v

  pub IsKeptIn-append : (old : List F) (v : F) → IsKeptIn old (old ++ v ∷ [])
  IsKeptIn-append old v k w h = get_elem?-append_left old (v ∷ []) k (get_elem?-lt old k h) ∙ h

module _ {F : Type 0} (ieee : Ieee F) (env : ℕ → Option F) (nodes : List (ENode F))
    (v : IsExpr nodes) where
  -- What is known at compile time is what the node means.
  abbrev pub IsSound : (ℕ → Option F) → Type 0
  IsSound known = (c : ℕ) (w : F) → known c ≡ some w → value_at ieee env nodes c ≡ some w

  folded :
      (id : ℕ) (n : ENode F) (known : ℕ → Option F) (w : F)
      → IsSound known
      → get_elem? nodes id ≡ some n
      → fold ieee n known ≡ some w
      → value_at ieee env nodes id ≡ some w
  unfolding fold arity eval_op is_foldable
  folded id n known w right there h =
      value_at_lem ieee env nodes id n v.topological there
      ∙ op_folded n.op n.children (v.arities id n there) h
    where
      op_folded :
          (op : Op F) (children : List ℕ)
          → length children ≡ arity op
          → fold ieee record { op = op; children = children } known ≡ some w
          → op_value ieee env (value_at ieee env nodes) op children ≡ some w
      op_folded (const c) children size h = rw (no_children children size) h
      op_folded (var s) children size h = cc
      op_folded diff children size h = cc
      op_folded op children size h = elim (Option-cases (values known children)) [
        | inl e ↦ absurd (no_value (rw e at h))
        | inr (args, e) ↦
            rw (values-agree_some known (value_at ieee env nodes) children args right e) (rw e at h)
      ]

  pub fold_pass-IsSound :
      (ids : List ℕ) (known out : ℕ → Option F)
      → IsSound known
      → fold_pass ieee nodes ids known ≡ ok out
      → IsSound out
  unfolding fold_pass
  fold_pass-IsSound [] known out right h = subst IsSound (ok-inj h) right
  fold_pass-IsSound (id ∷ ids) known out right h =
      let (n, found, more) =
        >>=-eq-ok (ok_or (get_elem? nodes id) panicked)
          (λ node. if is_diff node.op then err unreduced_diff else elim (fold ieee node known) [
            | none ↦ fold_pass ieee nodes ids known
            | some v ↦ fold_pass ieee nodes ids (insert id v known)
          ])
          h in
      let there = (ok_or_iff (get_elem? nodes id) panicked n).0 found in
      let (plain, rest) =
        if_err (is_diff n.op) unreduced_diff
          (elim (fold ieee n known) [
            | none ↦ fold_pass ieee nodes ids known
            | some v ↦ fold_pass ieee nodes ids (insert id v known)
          ])
          more in
      elim (Option-cases (fold ieee n known)) [
        | inl e ↦ fold_pass-IsSound ids known out right (rw e at rest)
        | inr (w, e) ↦
            fold_pass-IsSound ids (insert id w known) out
              (λ c u k. elim (ℕ-cases id c) [
                | inl same ↦
                    ap (value_at ieee env nodes) (sym same)
                    ∙ folded id n known w right there e
                    ∙ (rw ((==_iff id c).1 same) at k)
                | inr apart ↦ right c u (rw (ne_test id c apart) at k)
              ])
              (rw e at rest)
      ]

module _ {F : Type 0} (ieee : Ieee F) where
  -- The index of the pool leads to literals with those bits.
  abbrev pub IsIndexed : Compiler F → Type 0
  IsIndexed st =
      (b k : ℕ)
      → st.const_index b ≡ some k
      → (x : F) × ((get_elem? st.consts k ≡ some x) × (ieee.bits x ≡ b))

  pub record IsInterned (x : F) (st : Compiler F) (k : ℕ) (after : Compiler F) : Type 0 where
    pub placed : get_elem? after.consts k ≡ some x
    pub indexed : IsIndexed after
    pub kept : IsKeptIn st.consts after.consts
    pub same_code : after.code ≡ st.code
    pub same_slots : after.slot_of ≡ st.slot_of
    pub same_free : after.free ≡ st.free
    pub same_high : after.high_water ≡ st.high_water

  pub intern_const-IsInterned :
      (x : F) (st : Compiler F) (k : ℕ) (after : Compiler F)
      → IsIndexed st
      → intern_const ieee x st ≡ ok (k, after)
      → IsInterned x st k after
  unfolding intern_const
  intern_const-IsInterned x st k after v h = elim (Option-cases (st.const_index (ieee.bits x))) [
    | inr (i, e) ↦
        let (y, (there, same)) = v (ieee.bits x) i e in
        subst (λ (out : ℕ × Compiler F). IsInterned x st out.0 out.1)
          (ok-inj (rw (intern_const, e) at h))
          record {
            placed = there ∙ ap some (ieee.bits_inj y x same);
            indexed = v;
            kept = λ j w k. k;
            same_code = refl;
            same_slots = refl;
            same_free = refl;
            same_high = refl;
          }
    | inl e ↦
        let (small, done) =
          if_ok (ltb (length st.consts) (2 ^ 16)) (program_too_large distinct_constants)
            (ok (length st.consts, pooled st)) (rw (intern_const, e) at h) in
        subst (λ (out : ℕ × Compiler F). IsInterned x st out.0 out.1) (ok-inj done)
          record {
            placed = get_elem?-append_end st.consts x;
            indexed = λ b j k. elim (ℕ-cases (ieee.bits x) b) [
              | inl same ↦ (
                x,
                (
                  ap (get_elem? (st.consts ++ x ∷ []))
                        (sym (some-inj (rw ((==_iff (ieee.bits x) b).1 same) at k)))
                      ∙ get_elem?-append_end st.consts x,
                  same,
                ),
              )
              | inr apart ↦
                  let (y, (there, same)) = v b j (rw (ne_test (ieee.bits x) b apart) at k) in
                  (y, (IsKeptIn-append st.consts x j y there, same))
            ];
            kept = IsKeptIn-append st.consts x;
            same_code = refl;
            same_slots = refl;
            same_free = refl;
            same_high = refl;
          }
  ]
    where
      pooled : Compiler F → Compiler F
      pooled st = record st {
        consts = st.consts ++ x ∷ [];
        const_index = insert (ieee.bits x) (length st.consts) st.const_index;
      }
