-- ===== src/Saturn/Vm/Size.antt =====
-- The compiler of src/vm.rs: no list is longer than the expression.
use aiiiia.Prelude.{
  ==_iff, ◌==◌, ℕ, zero, suc, ◌≤◌, ◌≡◌, refl, sym, ap, ◌∙◌, subst, inl, inr, Bool, true, false, not,
  ◌||◌, Option, none, some, List, [], ◌∷◌, arith, Bool-cases, Option-cases, is_some, length,
  get_elem?, set, length-set, replicate, length-replicate, some-inj, is_in,
}
use aiiiia.Saturn.Lang.Node.{ENode, as_var}
use aiiiia.Saturn.Lang.Reach.{IsIn}
use aiiiia.Saturn.Lang.Expr.{push_all, edges, mark, marked_ids, reachable}
use aiiiia.Saturn.Vm.Compiler.{vars_of, emitted, position}

length-mark :
    {F : Type 0} (fuel : ℕ) (nodes : List (ENode F)) (stack : List ℕ) (seen out : List Bool)
    → mark fuel nodes stack seen ≡ some out
    → length out ≡ length seen
unfolding mark
length-mark zero nodes [] seen out h = ap length (sym (some-inj h))
length-mark zero nodes (x ∷ rest) seen out h = cc
length-mark (suc fuel) nodes [] seen out h = ap length (sym (some-inj h))
length-mark (suc fuel) nodes (x ∷ rest) seen out h = elim (Option-cases (get_elem? seen x)) [
  | inl e ↦ absurd (no_marks (rw (mark, e) at h))
  | inr (known, e) ↦ elim (Bool-cases known) [
    | inl yes_seen ↦ length-mark fuel nodes rest seen out (rw (mark, e, yes_seen) at h)
    | inr not_seen ↦ elim (Option-cases (get_elem? nodes x)) [
      | inl k ↦ absurd (no_marks (rw (mark, e, not_seen, k) at h))
      | inr (n, k) ↦
          length-mark fuel nodes (push_all n.children rest) (set seen x true) out
            (rw (mark, e, not_seen, k) at h)
          ∙ length-set seen x true
    ]
  ]
]
  where
    no_marks : ◌≡◌ {A = Option (List Bool)} none (some out) → ⊥
    no_marks h = cc

length-marked_ids : (i : ℕ) (seen : List Bool) → length (marked_ids i seen) ≤ length seen
length-marked_ids i [] = omega arith
length-marked_ids i (true ∷ seen) = omega (arith, length-marked_ids (suc i) seen)
length-marked_ids i (false ∷ seen) = omega (arith, length-marked_ids (suc i) seen)

module _ {F : Type 0} (nodes : List (ENode F)) where
  pub length-reachable :
      (start : ℕ) (ids : List ℕ) → reachable nodes start ≡ some ids → length ids ≤ length nodes
  unfolding reachable
  length-reachable start ids h =
      elim (Option-cases
        (mark (suc (edges nodes)) nodes (start ∷ []) (replicate (length nodes) false))) [
          | inl e ↦ absurd (no_ids (rw (reachable, e) at h))
          | inr (seen, e) ↦
              let made : marked_ids 0 seen ≡ ids = some-inj (rw (reachable, e) at h) in
              subst (λ l. length l ≤ length nodes) made
                (omega (
                  arith,
                  length-marked_ids 0 seen,
                  length-mark (suc (edges nodes)) nodes (start ∷ [])
                      (replicate (length nodes) false) seen e,
                  length-replicate (length nodes) false,
                ))
        ]
    where
      no_ids : ◌≡◌ {A = Option (List ℕ)} none (some ids) → ⊥
      no_ids h = cc

  pub length-emitted :
      (known : ℕ → Option F) (used ids : List ℕ) → length (emitted known used ids) ≤ length ids
  unfolding emitted
  length-emitted known used [] = omega arith
  length-emitted known used (x ∷ ids) =
      elim (Bool-cases (not (is_some (known x)) || is_in x used)) [
        | inl e ↦ rw e (omega (arith, length-emitted known used ids))
        | inr e ↦ rw e (omega (arith, length-emitted known used ids))
      ]

  pub length-vars_of : (ids : List ℕ) → length (vars_of nodes ids) ≤ length ids
  length-vars_of [] = omega arith
  length-vars_of (x ∷ ids) = elim (Option-cases (get_elem? nodes x)) [
    | inl e ↦ rw (vars_of, e) (omega (arith, length-vars_of ids))
    | inr (n, e) ↦ elim (Option-cases (as_var n.op)) [
      | inl k ↦ rw (vars_of, e, k) (omega (arith, length-vars_of ids))
      | inr (s, k) ↦ rw (vars_of, e, k) (omega (arith, length-vars_of ids))
    ]
  ]

  -- Every variable of the ids is among those collected.
  pub IsIn-vars_of :
      (ids : List ℕ) (x : ℕ) (n : ENode F) (s : ℕ)
      → IsIn x ids
      → get_elem? nodes x ≡ some n
      → as_var n.op ≡ some s
      → IsIn s (vars_of nodes ids)
  IsIn-vars_of [] x n s h there is_s = absurd h
  IsIn-vars_of (y ∷ ids) x n s (inl same) there is_s =
      rw (vars_of, sym same, there, is_s) (inl refl)
  IsIn-vars_of (y ∷ ids) x n s (inr later) there is_s =
      let rest = IsIn-vars_of ids x n s later there is_s in
      elim (Option-cases (get_elem? nodes y)) [
        | inl e ↦ rw (vars_of, e) rest
        | inr (m, e) ↦ elim (Option-cases (as_var m.op)) [
          | inl k ↦ rw (vars_of, e, k) rest
          | inr (u, k) ↦ rw (vars_of, e, k) (inr rest)
        ]
      ]

pub position_total :
    (s : ℕ) (params : List ℕ) → IsIn s params → (p : ℕ) × (position s params ≡ some p)
position_total s [] h = absurd h
position_total s (q ∷ params) h = elim (Bool-cases (q == s)) [
  | inl e ↦ (0, rw (position, e) refl)
  | inr e ↦ elim h [
    | inl same ↦ absurd (cc (e, (==_iff q s).1 (sym same)))
    | inr later ↦
        let (p, found) = position_total s params later in (suc p, rw (position, e, found) refl)
  ]
]
