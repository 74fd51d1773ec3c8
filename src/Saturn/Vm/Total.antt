-- ===== src/Saturn/Vm/Total.antt =====
-- The compiler of src/vm.rs succeeds.

use aiiiia.Saturn.Lang.Node.{ENode, as_var}
use aiiiia.Saturn.Lang.Reach.{ℕ-cases, IsIn}
use aiiiia.Saturn.Lang.Topo.{IsExpr, IsTopo}
use aiiiia.Saturn.UnionFind.{new}
use aiiiia.Saturn.Float.{Ieee}
use aiiiia.Saturn.Eval.{insert}
use aiiiia.Saturn.Vm.Compiler.{Compiler, fold, fold_pass, emit_pass, finish_node, is_diff}
use aiiiia.Saturn.Vm.Needed.{IsReady}
use aiiiia.Saturn.Vm.Progress.{IsSmall, HasSlot, Emits, folded_total, own_total}
use aiiiia.Prelude.Results.{ok}
use aiiiia.Prelude.{
  ne_test, ==_iff, suc, ◌+◌, ◌≤◌, sym, ap, ◌∙◌, arith, length, All-mono, ℕ, ◌^◌, ◌<◌, ◌≡◌, refl,
  inl, inr, false, Option, none, some, List, [], ◌∷◌, Option-cases, get_elem?, All,
}

module _ {F : Type 0} (nodes : List (ENode F)) where
  -- It is no derivative.
  abbrev pub IsPlain : ℕ → Type 0
  IsPlain x = (n : ENode F) → get_elem? nodes x ≡ some n → is_diff n.op ≡ false

module _ {F : Type 0} (ieee : Ieee F) (nodes : List (ENode F)) where
  pub fold_pass_total :
      (done ids : List ℕ) (known : ℕ → Option F)
      → IsTopo nodes done ids
      → All (IsPlain nodes) ids
      → (out : ℕ → Option F) × (fold_pass ieee nodes ids known ≡ ok out)
  unfolding fold_pass
  fold_pass_total done [] known topo plain = (known, refl)
  fold_pass_total done (x ∷ ids) known (n, (there, (ready, (new, later)))) (plain, rest) =
      elim (Option-cases (fold ieee n known)) [
        | inl e ↦
            let (out, done_all) = fold_pass_total (x ∷ done) ids known later rest in
            (out, rw (fold_pass, there, plain n there, e) done_all)
        | inr (w, e) ↦
            let (out, done_all) = fold_pass_total (x ∷ done) ids (insert x w known) later rest in
            (out, rw (fold_pass, there, plain n there, e) done_all)
      ]

  module _ (v : IsExpr nodes) (params : List ℕ) (known : ℕ → Option F) (last_use : ℕ → Option ℕ)
      (start : ℕ) where
    -- The variables of a node are parameters.
    abbrev IsServed : ℕ → Type 0
    IsServed x =
        (n : ENode F) (s : ℕ) → get_elem? nodes x ≡ some n → as_var n.op ≡ some s → IsIn s params

    emits :
        (bound : ℕ) (x : ℕ) (n : ENode F) (st : Compiler F) (room : bound < 2 ^ 16)
        (small : IsSmall bound st)
        → get_elem? nodes x ≡ some n
        → (known x ≡ none → All (HasSlot st) n.children)
        → IsServed x
        → (folded : Option F) → known x ≡ folded
        → Emits ieee bound params n st room small folded
    emits bound x n st room small there ready served none e =
        own_total ieee bound params n st room small (ready e) (v.arities x n there)
          (λ s k. served n s there k)
    emits bound x n st room small there ready served (some w) e =
        folded_total ieee bound params n st room small w

    pub emit_pass_total :
        (i : ℕ) (done ids : List ℕ) (st : Compiler F)
        → IsReady nodes known done ids
        → i + length ids ≤ 2 ^ 16
        → IsSmall i st
        → ((c : ℕ) → IsIn c done → HasSlot st c)
        → All IsServed ids
        → (out : Compiler F) × (emit_pass ieee nodes params known last_use start i ids st ≡ ok out)
    unfolding emit_pass
    emit_pass_total i done [] st ready room small have served = (st, refl)
    emit_pass_total i done (x ∷ ids) st (n, (there, (ready, (new, later)))) room small have served =
        let (dst, (after, (emitted_here, grown))) =
          emits i x n st (omega arith) small there
            (λ free.
              All-mono (λ c. IsIn c done) (HasSlot st) n.children (λ c k. have c k) (ready free))
            served.0 (known x) refl in
        let (out, rest) =
          emit_pass_total (suc i) (x ∷ done) ids
            (finish_node ieee last_use i start x n.children dst after) later (omega arith)
            record { slots = grown.small.slots; pool = grown.small.pool }
            (λ c k. elim (ℕ-cases x c) [
              | inl same ↦ (dst, rw ((==_iff x c).1 same) refl)
              | inr apart ↦
                  let (s, e) = have c (elim k [ inl f ↦ absurd (apart (sym f)) | inr old ↦ old ]) in
                  (s, rw (ne_test x c apart) (ap (λ f. f c) grown.same_slots ∙ e))
            ])
            served.1 in
        (out, rw (emit_pass, there, emitted_here) rest)
