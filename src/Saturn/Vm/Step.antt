-- ===== src/Saturn/Vm/Step.antt =====
-- One step of the second pass of src/vm.rs: the instruction added is run on slots that hold the values
-- still to be used.

use aiiiia.Prelude.{
  ne_test, lt→ltb, Option-cases, length-set, get_elem?-set_ne, ◌>>=◌, ==_iff, ℕ, suc, ◌^◌, ◌≤◌, ◌<◌,
  ◌≡◌, refl, sym, ap, ◌∙◌, subst, inl, inr, Option, none, some, List, [], ◌∷◌, ◌++◌, arith, length,
  get_elem?, set, get_elem?-set_self, some-inj, All, All-mono, All-both,
}
use aiiiia.Prelude.Results.{ok}
use aiiiia.Saturn.Eval.{insert}
use aiiiia.Saturn.Eval.Meaning.{value_at}
use aiiiia.Saturn.Lang.Node.{ENode}
use aiiiia.Saturn.Lang.Reach.{IsIn, ℕ-cases}
use aiiiia.Saturn.Lang.Topo.{IsExpr}
use aiiiia.Saturn.Vm.Constants.{IsKeptIn, IsSound}
use aiiiia.Saturn.Float.{Ieee}
use aiiiia.Saturn.Vm.{gather, run_code, dst_of, Instr}
use aiiiia.Saturn.Vm.Compiler.{Compiler, finish_node, children_of}
use aiiiia.Saturn.Vm.Emit.{IsHeld, IsRead, IsEmitted}
use aiiiia.Saturn.Vm.Live.{IsLive, IsAssigned, IsLive-before, not_taken}
use aiiiia.Saturn.Vm.Needed.{children_of_lem}
use aiiiia.Saturn.Vm.Uses.{IsUsedFrom}

pub append_nil {ℓ} : {A : Type ℓ} (xs : List A) → xs ≡ xs ++ []
append_nil [] = refl
append_nil (x ∷ xs) = ap (λ l. x ∷ l) (append_nil xs)

append_assoc {ℓ} : {A : Type ℓ} (xs ys zs : List A) → (xs ++ ys) ++ zs ≡ xs ++ (ys ++ zs)
append_assoc [] ys zs = refl
append_assoc (x ∷ xs) ys zs = ap (λ l. x ∷ l) (append_assoc xs ys zs)

pub All-self : (xs : List ℕ) → All (λ c. IsIn c xs) xs
All-self [] = tt
All-self (x ∷ xs) =
    (inl refl, All-mono (λ c. IsIn c xs) (λ c. IsIn c (x ∷ xs)) xs (λ c h. inr h) (All-self xs))

module _ {F : Type 0} (ieee : Ieee F) (env : ℕ → Option F) (nodes : List (ENode F)) where
  -- The meaning of the last id, if all have one.
  abbrev pub meanings : F → List ℕ → Option F
  meanings prev [] = some prev
  meanings prev (x ∷ ids) = value_at ieee env nodes x >>= λ w. meanings w ids

  module _ (v : IsExpr nodes) (params : List ℕ) (args : List F)
      (given : gather env params ≡ ok args) (fits : length params ≤ 2 ^ 16) (known : ℕ → Option F)
      (sound : IsSound ieee env nodes v known) (last_use : ℕ → Option ℕ) (start : ℕ)
      (here : List ℕ) where
    -- The slots that hold live values hold what they mean.
    abbrev pub IsHolding : List ℕ → ℕ → (ℕ → Option ℕ) → List F → Type 0
    IsHolding done i slot_of slots =
        (c s : ℕ)
        → IsLive last_use done i c
        → slot_of c ≡ some s
        → IsHeld ieee env nodes v params args given fits slots c s

    -- The code that the pass has added from one state to another, and what it computes.
    pub record IsCompiled (done : List ℕ) (i : ℕ) (ids : List ℕ) (st out : Compiler F)
        : Type 0 where
      pub added : List (Instr F)
      pub code : out.code ≡ st.code ++ added
      pub kept : IsKeptIn st.consts out.consts
      pub grown : st.high_water ≤ out.high_water
      pub runs :
          (prev : F) (slots : List F)
          → out.high_water ≤ length slots
          → IsHolding done i st.slot_of slots
          → (run_code ieee out.consts args added prev slots >>= λ o. some o.0) ≡ meanings prev ids

    module _ (done : List ℕ) (i x : ℕ) (n : ENode F) (st after : Compiler F) (dst : ℕ)
        (there : get_elem? nodes x ≡ some n)
        (ready : known x ≡ none → All (λ c. IsIn c done) n.children) (new : IsIn x done → ⊥)
        (inside : (c : ℕ) → IsIn c done → IsIn c here)
        (uses : known x ≡ none
          → (c : ℕ) → IsIn c here
          → IsIn c (children_of nodes x)
          → IsUsedFrom i last_use c)
        (assigned : IsAssigned last_use done i st.slot_of st.free st.high_water)
        (e : IsEmitted ieee env nodes v params args given fits x n (known x) st dst after) where
      -- Where the node is not folded its children are live.
      children-IsRead :
          (slots : List F)
          → IsHolding done i st.slot_of slots
          → known x ≡ none
          → All (IsRead ieee env nodes v params args given fits slots st.slot_of) n.children
      children-IsRead slots hold free =
          All-both (λ c. IsIn c done) (λ c. IsIn c n.children)
            (IsRead ieee env nodes v params args given fits slots st.slot_of) n.children
            (λ c early child s at.
              let (k, (used, le)) =
                uses free c (inside c early)
                  (subst (λ l. IsIn c l) (sym (children_of_lem nodes x n there)) child) in
              hold c s (early, (λ j f. omega (arith, some-inj (sym used ∙ f)))) at)
            (ready free) (All-self n.children)

      abbrev after_step : Compiler F
      after_step = finish_node ieee last_use i start x n.children dst after

      holds_after :
          (slots : List F) (w : F)
          → dst < length slots
          → value_at ieee env nodes x ≡ some w
          → IsHolding done i st.slot_of slots
          → IsHolding (x ∷ done) (suc i) (insert x dst st.slot_of) (set slots dst w)
      holds_after slots w room means hold c s live at = elim (ℕ-cases x c) [
        | inl same ↦
            let slot : dst ≡ s = some-inj (rw ((==_iff x c).1 same) at at) in
            (
              w,
              (
                subst (λ u. get_elem? (set slots dst w) u ≡ some w) slot
                    (get_elem?-set_self slots dst w room),
                ap (value_at ieee env nodes) (sym same) ∙ means,
              ),
            )
        | inr other ↦
            let was =
              IsLive-before last_use done i st.slot_of st.free after.free st.high_water dst
                after.high_water x assigned e.taken new c other live in
            let old = rw (ne_test x c other) at at in
            let (u, (held, meant)) = hold c s was old in
            let apart =
              not_taken last_use done i st.slot_of st.free after.free st.high_water dst
                after.high_water x assigned e.taken new c s was old in
            (u, (get_elem?-set_ne slots w (λ same. apart (sym same)) ∙ held, meant))
      ]

      -- One instruction, then the code of the ids that follow.
      pub IsCompiled-step :
          (ids : List ℕ) (out : Compiler F)
          → IsCompiled (x ∷ done) (suc i) ids after_step out
          → IsCompiled done i (x ∷ ids) st out
      unfolding run_code
      IsCompiled-step ids out rest = record {
        added = e.instr ∷ rest.added;
        code =
            rest.code
            ∙ ap (λ c. c ++ rest.added) e.code
            ∙ append_assoc st.code (e.instr ∷ []) rest.added;
        kept = λ k w h. rest.kept k w (e.kept k w h);
        grown = omega (arith, e.taken.grown, rest.grown);
        runs = λ prev slots big hold.
            let value = e.computes out.consts slots rest.kept (children-IsRead slots hold) in
            let room : dst < length slots = omega (arith, e.taken.below, rest.grown) in
            elim (Option-cases (value_at ieee env nodes x)) [
              | inl none_means ↦ rw (value ∙ none_means, none_means) refl
              | inr (w, means) ↦
                  rw
                    (
                      value ∙ means,
                      means,
                      lt→ltb (dst_of e.instr) (length slots) (omega (arith, e.target, room)),
                    )
                    (subst
                      (λ d.
                        (run_code ieee out.consts args rest.added w (set slots d w) >>= λ o.
                        some o.0)
                        ≡ meanings w ids)
                      (sym e.target)
                      (rest.runs w (set slots dst w) (omega (arith, length-set slots dst w)) (
                        subst (λ f. IsHolding (x ∷ done) (suc i) (insert x dst f) (set slots dst w))
                          (sym e.same_slots) (holds_after slots w room means hold))))
            ];
      }
