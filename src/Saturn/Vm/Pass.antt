-- ===== src/Saturn/Vm/Pass.antt =====
-- The second pass of src/vm.rs as a whole: the code computes what the ids emitted mean, one by one.
use aiiiia.Saturn.Eval.{insert, panicked}
use aiiiia.Saturn.Lang.Node.{ENode}
use aiiiia.Saturn.Lang.Reach.{IsIn}
use aiiiia.Saturn.Lang.Topo.{IsExpr}
use aiiiia.Saturn.UnionFind.{new}
use aiiiia.Saturn.Vm.Constants.{IsSound, IsIndexed}
use aiiiia.Saturn.Vm.Needed.{IsReady}
use aiiiia.Saturn.Vm.Uses.{IsTimed}
use aiiiia.Saturn.Float.{Ieee}
use aiiiia.Saturn.Vm.{gather, run_code}
use aiiiia.Saturn.Vm.Compiler.{emitted, Compiler, emit_pass, emit_value, finish_node, recycle, dead}
use aiiiia.Saturn.Vm.Emit.{emit_value-IsEmitted}
use aiiiia.Saturn.Vm.Live.{IsAssigned, step-IsAssigned}
use aiiiia.Saturn.Vm.Step.{IsCompiled, IsCompiled-step, append_nil}
use aiiiia.Prelude.{
  ℕ, suc, ◌^◌, ◌≤◌, ◌≡◌, refl, sym, ◌∙◌, subst, ◌⊎◌, inl, inr, Option, List, [], ◌∷◌, arith, length,
  get_elem?, some-inj,
}
use aiiiia.Prelude.Results.{ok_or_iff, >>=-eq-ok, ok_or, ok-inj, ok, ◌>>=◌}

module _ {F : Type 0} (ieee : Ieee F) (env : ℕ → Option F) (nodes : List (ENode F))
    (v : IsExpr nodes) (params : List ℕ) (args : List F) (given : gather env params ≡ ok args)
    (fits : length params ≤ 2 ^ 16) (known : ℕ → Option F) (sound : IsSound ieee env nodes v known)
    (last_use : ℕ → Option ℕ) (start : ℕ) (here : List ℕ) where
  pub emit_pass-IsCompiled :
      (done : List ℕ) (i : ℕ) (ids : List ℕ) (st out : Compiler F)
      → IsReady nodes known done ids
      → IsTimed nodes known here last_use i ids
      → ((c : ℕ) → IsIn c done ⊎ IsIn c ids → IsIn c here)
      → IsAssigned last_use done i st.slot_of st.free st.high_water
      → IsIndexed ieee st
      → emit_pass ieee nodes params known last_use start i ids st ≡ ok out
      → IsCompiled ieee env nodes v params args given fits known sound last_use start here done i
          ids st out
  unfolding emit_pass run_code
  emit_pass-IsCompiled done i [] st out ready timed inside assigned indexed h =
      subst
        (IsCompiled ieee env nodes v params args given fits known sound last_use start here done i
          [] st)
        (ok-inj h)
        record {
          added = [];
          code = append_nil st.code;
          kept = λ k w h. h;
          grown = omega arith;
          runs = λ prev slots big hold. refl;
        }
  emit_pass-IsCompiled done i (x ∷ ids) st out (n, (there, (ready, (new, later)))) timed inside
        assigned indexed h =
      let (m, found, more) =
        >>=-eq-ok (ok_or (get_elem? nodes x) panicked)
          (λ node. emit_value ieee params node (known x) st >>= λ (dst, after).
            emit_pass ieee nodes params known last_use start (suc i) ids
              (finish_node ieee last_use i start x node.children dst after))
          h in
      let same : m ≡ n =
        some-inj (sym ((ok_or_iff (get_elem? nodes x) panicked m).0 found) ∙ there) in
      let ((dst, after), emitted, rest) =
        >>=-eq-ok (emit_value ieee params n (known x) st)
          (λ (dst, after).
            emit_pass ieee nodes params known last_use start (suc i) ids
              (finish_node ieee last_use i start x n.children dst after))
          (subst
            (λ node.
              (emit_value ieee params node (known x) st >>= λ (dst, after).
              emit_pass ieee nodes params known last_use start (suc i) ids
                (finish_node ieee last_use i start x node.children dst after))
              ≡ ok out)
            same more) in
      let e =
        emit_value-IsEmitted ieee env nodes v params args given fits x n st there indexed
          assigned.distinct assigned.small (known x) dst after (sound x) emitted in
      let step =
        step-IsAssigned last_use done i st.slot_of st.free after.free st.high_water dst
          after.high_water x assigned e.taken new start n.children in
      IsCompiled-step ieee env nodes v params args given fits known sound last_use start here done i
        x n st after dst there ready new (λ c k. inside c (inl k)) timed.0 assigned e ids out
        (emit_pass-IsCompiled (x ∷ done) (suc i) ids
          (finish_node ieee last_use i start x n.children dst after) out later timed.1
          (λ c k. elim k [
            | inl l ↦ elim l [ inl f ↦ inside c (inr (inl f)) | inr d ↦ inside c (inl d) ]
            | inr l ↦ inside c (inr (inr l))
          ])
          (subst
            (λ f.
              IsAssigned last_use (x ∷ done) (suc i) (insert x dst f)
                (recycle (insert x dst f) dst (dead last_use i start n.children) after.free)
                after.high_water)
            (sym e.same_slots) step)
          e.indexed rest)
