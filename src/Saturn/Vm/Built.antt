-- ===== src/Saturn/Vm/Built.antt =====
-- The stages of a compilation of src/vm.rs that succeeds.
use aiiiia.Prelude.{dedup, ℕ, max, ◌≡◌, Bool, Option, none, some, List, [], ◌∷◌, order_by}
use aiiiia.Prelude.Results.{ok_or_iff, >>=-eq-ok, ◌>>=◌, Result, ok_or, ok-inj, ok}
use aiiiia.Saturn.Lang.Expr.{root, reachable}
use aiiiia.Saturn.Lang.Node.{ENode}
use aiiiia.Saturn.Float.{Ieee}
use aiiiia.Saturn.Vm.{Program}
use aiiiia.Saturn.Vm.Compiler.{
  Compiler, compile, vars_of, emitted, needed, last_uses, start_compiler, emit_pass, fold_pass,
}
use aiiiia.Saturn.Eval.{EvalError, panicked}

module _ {F : Type 0} (ieee : Ieee F) (named_before : ℕ → ℕ → Bool) (nodes : List (ENode F)) where
  abbrev pub program_of : List ℕ → Compiler F → Program F
  program_of order st = record {
    code = st.code;
    consts = st.consts;
    params = dedup (order_by named_before (vars_of nodes order));
    slots = max st.high_water 1;
  }

  -- What a compilation that succeeds went through.
  pub record IsBuilt (p : Program F) : Type 0 where
    pub start : ℕ
    pub order : List ℕ
    pub known : ℕ → Option F
    pub st : Compiler F
    pub rooted : root nodes ≡ some start
    pub listed : reachable nodes start ≡ some order
    pub folded : fold_pass ieee nodes order (λ k. none) ≡ ok known
    pub emits :
        emit_pass ieee nodes
          (dedup (order_by named_before (vars_of nodes order)))
          known
          (last_uses nodes known
            (emitted known (needed nodes known order (start ∷ [])) order)
            0
            (emitted known (needed nodes known order (start ∷ [])) order)
            (λ k. none))
          start
          0
          (emitted known (needed nodes known order (start ∷ [])) order)
          start_compiler
        ≡ ok st
    pub made : program_of order st ≡ p

  pub compile-IsBuilt : (p : Program F) → compile ieee named_before nodes ≡ ok p → IsBuilt p
  unfolding compile
  compile-IsBuilt p h =
      let (start, first, from_start) =
        >>=-eq-ok (ok_or (root nodes) panicked) (λ start. build_at start) h in
      let (order, second, from_order) =
        >>=-eq-ok (ok_or (reachable nodes start) panicked) (λ order. build_on start order)
          from_start in
      let (known, third, from_known) =
        >>=-eq-ok (fold_pass ieee nodes order (λ k. none)) (λ known. build_from start order known)
          from_order in
      let (st, fourth, done) =
        >>=-eq-ok (pass start order known) (λ st. ok (program_of order st)) from_known in
      record {
        start = start;
        order = order;
        known = known;
        st = st;
        rooted = (ok_or_iff (root nodes) panicked start).0 first;
        listed = (ok_or_iff (reachable nodes start) panicked order).0 second;
        folded = third;
        emits = fourth;
        made = ok-inj done;
      }
    where
      ids_of : ℕ → List ℕ → (ℕ → Option F) → List ℕ
      ids_of start order known = emitted known (needed nodes known order (start ∷ [])) order

      pass : ℕ → List ℕ → (ℕ → Option F) → Result EvalError (Compiler F)
      pass start order known =
          emit_pass ieee nodes (dedup (order_by named_before (vars_of nodes order))) known
            (last_uses nodes known (ids_of start order known) 0 (ids_of start order known)
              (λ k. none))
            start 0 (ids_of start order known) start_compiler

      build_from : ℕ → List ℕ → (ℕ → Option F) → Result EvalError (Program F)
      build_from start order known = pass start order known >>= λ st. ok (program_of order st)

      build_on : ℕ → List ℕ → Result EvalError (Program F)
      build_on start order =
          fold_pass ieee nodes order (λ k. none) >>= λ known. build_from start order known

      build_at : ℕ → Result EvalError (Program F)
      build_at start = ok_or (reachable nodes start) panicked >>= λ order. build_on start order
