-- ===== src/Saturn/Vm/Inputs.antt =====
-- The compiled program of src/vm.rs: its parameters are variables that the expression needs, and the last
-- id emitted is the root.
use aiiiia.Prelude.{
  ℕ, ◌≡◌, refl, sym, ap, ◌∙◌, inl, inr, Option, none, some, List, [], ◌∷◌, arith, Option-cases,
  get_elem?, some-inj, All,
}
use aiiiia.Saturn.Eval.Meaning.{op_value, value_at, value_at_lem}
use aiiiia.Saturn.Lang.{Op, var}
use aiiiia.Saturn.Lang.Node.{ENode, as_var}
use aiiiia.Saturn.Lang.Topo.{IsExpr, last}
use aiiiia.Saturn.Float.{Ieee}
use aiiiia.Saturn.Vm.{gather}
use aiiiia.Saturn.Vm.Compiler.{vars_of}
use aiiiia.Saturn.Vm.Step.{meanings}
use aiiiia.Saturn.Eval.Interpreter.{IsDefined}
use aiiiia.Prelude.Results.{ok}

module _ {F : Type 0} (ieee : Ieee F) (env : ℕ → Option F) (nodes : List (ENode F)) where
  -- The last meaning is that of the last id.
  pub meanings-start :
      (start : ℕ) (w prev : F) (ids : List ℕ)
      → ((d : ℕ) → last d ids ≡ start)
      → meanings ieee env nodes prev ids ≡ some w
      → value_at ieee env nodes start ≡ some w
  meanings-start start w prev [] ends h = absurd (omega (arith, ends 0, ends 1))
  meanings-start start w prev (x ∷ []) ends h = elim (Option-cases (value_at ieee env nodes x)) [
    | inl e ↦ cc
    | inr (u, e) ↦ ap (value_at ieee env nodes) (sym (ends 0)) ∙ e ∙ (rw e at h)
  ]
  meanings-start start w prev (x ∷ y ∷ ids) ends h =
      elim (Option-cases (value_at ieee env nodes x)) [
        | inl e ↦ absurd (none-some (rw e at h))
        | inr (u, e) ↦ meanings-start start w u (y ∷ ids) ends (rw e at h)
      ]
    where
      none-some : ◌≡◌ {A = Option F} none (some w) → ⊥
      none-some h = cc

  pub meanings_total :
      (start : ℕ) (prev : F) (ids : List ℕ)
      → ((d : ℕ) → last d ids ≡ start)
      → All (IsDefined (value_at ieee env nodes)) ids
      → meanings ieee env nodes prev ids ≡ value_at ieee env nodes start
  meanings_total start prev [] ends h = absurd (omega (arith, ends 0, ends 1))
  meanings_total start prev (x ∷ []) ends ((w, e), h) =
      rw e (sym e ∙ ap (value_at ieee env nodes) (ends 0))
  meanings_total start prev (x ∷ y ∷ ids) ends ((w, e), h) =
      rw e (meanings_total start w (y ∷ ids) ends h)

  module _ (v : IsExpr nodes) where
    -- A variable that is needed is bound, where every id has a meaning.
    pub vars_of-IsDefined :
        (ids : List ℕ)
        → All (IsDefined (value_at ieee env nodes)) ids
        → All (IsDefined env) (vars_of nodes ids)
    vars_of-IsDefined [] h = tt
    vars_of-IsDefined (x ∷ ids) h = elim (Option-cases (get_elem? nodes x)) [
      | inl e ↦ rw (vars_of, e) (vars_of-IsDefined ids h.1)
      | inr (n, e) ↦ elim (Option-cases (as_var n.op)) [
        | inl k ↦ rw (vars_of, e, k) (vars_of-IsDefined ids h.1)
        | inr (s, k) ↦ rw (vars_of, e, k) (bound x n s e k h.0, vars_of-IsDefined ids h.1)
      ]
    ]
      where
        is_var : (op : Op F) (s : ℕ) → as_var op ≡ some s → op ≡ var s
        is_var (var s) t h = ap var (some-inj h)
        is_var op t h = cc

        bound :
            (x : ℕ) (n : ENode F) (s : ℕ)
            → get_elem? nodes x ≡ some n
            → as_var n.op ≡ some s
            → IsDefined (value_at ieee env nodes) x
            → IsDefined env s
        bound x n s e k (w, means) = (
          w,
          ap (λ op. op_value ieee env (value_at ieee env nodes) op n.children)
                (sym (is_var n.op s k))
              ∙ sym (value_at_lem ieee env nodes x n v.topological e)
              ∙ means,
        )

module _ {F : Type 0} (env : ℕ → Option F) where
  pub gather_total :
      (params : List ℕ)
      → All (IsDefined env) params
      → (args : List F) × (gather env params ≡ ok args)
  unfolding gather
  gather_total [] h = ([], refl)
  gather_total (s ∷ params) ((w, e), h) =
      let (args, rest) = gather_total params h in (w ∷ args, rw (gather, e, rest) refl)
