-- ===== src/Saturn/Vm/Correct.antt =====
-- The compiler and the machine of src/vm.rs against the interpreter of src/eval.rs.
use aiiiia.Saturn.Eval.Meaning.{value_at}
use aiiiia.Saturn.Vm.Inputs.{meanings-start, meanings_total, vars_of-IsDefined, gather_total}
use aiiiia.Prelude.Results.{ok_or_iff, Result, ok_or, err, ok}
use aiiiia.Saturn.Lang.Expr.{root}
use aiiiia.Saturn.Lang.Node.{ENode}
use aiiiia.Saturn.Lang.Topo.{IsOrder, IsExpr, order-IsOrder, plain-IsOrder}
use aiiiia.Saturn.Vm.Constants.{fold_pass-IsSound}
use aiiiia.Saturn.Vm.Needed.{last-emitted, All-emitted, emitted-IsReady}
use aiiiia.Saturn.Vm.Operands.{length-gather}
use aiiiia.Saturn.Vm.Uses.{last_uses-IsTimed}
use aiiiia.Prelude.{All-dedup, ◌↔◌, All-order_by, ==_iff, ◌>>=◌}
use aiiiia.Saturn.Float.{Ieee}
use aiiiia.Saturn.Vm.{Program, gather, eval_with, eval_program, eval_env, run_code}
use aiiiia.Saturn.Vm.Compiler.{compile, vars_of, emitted, needed, last_uses, start_compiler}
use aiiiia.Saturn.Vm.Built.{IsBuilt, program_of, compile-IsBuilt}
use aiiiia.Saturn.Vm.Step.{meanings}
use aiiiia.Saturn.Vm.Pass.{emit_pass-IsCompiled}
use aiiiia.Saturn.Eval.{EvalError, panicked, eval}
use aiiiia.Saturn.Eval.Interpreter.{eval_at_iff, meaning-IsDefined, IsDefined}
use aiiiia.Prelude.{
  dedup, ℕ, ◌^◌, ◌≤◌, ◌<◌, ◌≡◌, refl, sym, ap, ◌∙◌, subst, inl, inr, Bool, Option, none, some, List,
  [], ◌∷◌, ◌++◌, arith, length, length-append, length-take, length-replicate, some-inj, order_by,
  max, take, drop, replicate, ◌-◌,
}

pub root_small :
    {F : Type 0} (nodes : List (ENode F)) (start : ℕ)
    → root nodes ≡ some start
    → start < length nodes
unfolding root
root_small [] start h = cc
root_small (n ∷ nodes) start h = omega (arith, some-inj h)

module _ {F : Type 0} (ieee : Ieee F) (env : ℕ → Option F) (named_before : ℕ → ℕ → Bool)
    (nodes : List (ENode F)) (v : IsExpr nodes) where
  first_of :
      (o : Option (F × List F)) (rest : List F)
      → ◌>>=◌ {A = F × List F} (o >>= λ out. some (out.0, out.1 ++ rest)) (λ out. some out.0)
        ≡ (o >>= λ out. some out.0)
  first_of none rest = refl
  first_of (some out) rest = refl

  module _ (p : Program F) (b : IsBuilt ieee named_before nodes p) where
    abbrev params_of : List ℕ
    params_of = dedup (order_by named_before (vars_of nodes b.order))

    abbrev ids_of : List ℕ
    ids_of = emitted b.known (needed nodes b.known b.order (b.start ∷ [])) b.order

    root_bound : b.start < length nodes
    root_bound = root_small nodes b.start b.rooted

    plain_order : IsOrder nodes (λ i. Unit {0}) b.start b.order
    plain_order = plain-IsOrder nodes b.start b.order v.topological root_bound b.listed

    whole_order :
        (w : F)
        → value_at ieee env nodes b.start ≡ some w
        → IsOrder nodes (IsDefined (value_at ieee env nodes)) b.start b.order
    whole_order w means =
        order-IsOrder nodes b.start b.order v.topological root_bound b.listed
          (IsDefined (value_at ieee env nodes)) (w, means) (meaning-IsDefined ieee env nodes v)

    -- The machine gives the last of the meanings, whatever the slots held before.
    machine_run :
        (args slots : List F)
        → gather env params_of ≡ ok args
        → length params_of ≤ 2 ^ 16
        → (eval_with ieee (program_of ieee named_before nodes b.order b.st) args slots >>= λ out.
            some out.0)
          ≡ meanings ieee env nodes ieee.zero_value ids_of
    unfolding eval_with
    machine_run args slots given fits =
        let high = max b.st.high_water 1 in
        let resized = slots ++ replicate (high - length slots) ieee.zero_value in
        let compiled =
          emit_pass-IsCompiled ieee env nodes v params_of args given fits b.known
            (fold_pass-IsSound ieee env nodes v b.order (λ k. none) b.known (λ c w k. cc) b.folded)
            (last_uses nodes b.known ids_of 0 ids_of (λ k. none)) b.start ids_of [] 0 ids_of
            start_compiler b.st
            (emitted-IsReady nodes b.known b.order (b.start ∷ []) plain_order.topo)
            (last_uses-IsTimed nodes b.known ids_of 0 ids_of (λ k. none))
            (λ c k. elim k [ inl early ↦ absurd early | inr place ↦ place ])
            record {
              owned = λ c s k. cc;
              placed = λ c s live. absurd live.0;
              single = λ c d s live. absurd live.0;
              distinct = tt;
              small = λ s k. absurd k;
            }
            (λ c k e. cc) b.emits in
        let room : b.st.high_water ≤ length (take high resized) = omega (
          arith,
          length-take high resized,
          length-append slots (replicate (high - length slots) ieee.zero_value),
          length-replicate (high - length slots) ieee.zero_value,
        ) in
        rw ((==_iff (length args) (length params_of)).1 (length-gather env params_of args given)) (
          first_of (run_code ieee b.st.consts args b.st.code ieee.zero_value (take high resized))
            (drop high resized)
          ∙ ap
              (λ code.
                run_code ieee b.st.consts args code ieee.zero_value (take high resized) >>= λ out.
                some out.0)
              compiled.code
          ∙ compiled.runs ieee.zero_value (take high resized) room (λ c s live. absurd live.0))

    meanings_iff :
        (prev w : F) → (meanings ieee env nodes prev ids_of ≡ some w) ↔ (eval ieee env nodes ≡ ok w)
    unfolding eval
    meanings_iff prev w =
        let ends =
          last-emitted nodes b.known b.start b.order (b.start ∷ []) (inl refl) plain_order.ends in
        let at_root = eval_at_iff ieee env nodes v b.start w root_bound in
        (
          (λ h.
              rw b.rooted (at_root.1 (meanings-start ieee env nodes b.start w prev ids_of ends h))),
          (λ h.
              let means = at_root.0 (rw b.rooted at h) in
              let whole = whole_order w means in
              meanings_total ieee env nodes b.start prev ids_of ends (
                All-emitted nodes b.known (IsDefined (value_at ieee env nodes))
                  (needed nodes b.known b.order (b.start ∷ [])) b.order whole.kept)
              ∙ means),
        )

    -- Where the expression has a value, the parameters are bound.
    params_bound :
        (w : F) → eval ieee env nodes ≡ ok w → (args : List F) × (gather env params_of ≡ ok args)
    unfolding eval
    params_bound w h =
        let means = (eval_at_iff ieee env nodes v b.start w root_bound).0 (rw b.rooted at h) in
        let whole = whole_order w means in
        gather_total env params_of (
          All-dedup (IsDefined env) (order_by named_before (vars_of nodes b.order)) (
            All-order_by (IsDefined env) named_before (vars_of nodes b.order)
              (vars_of-IsDefined ieee env nodes v b.order whole.kept)))

  -- For an expression in dependency order whose operators have as many children as they take and that
  -- compiles, to a program of at most 65,536 parameters: with the arguments that an environment has
  -- for the parameters, and with any slots of the caller's, the machine's answer is a value exactly
  -- when the interpreter's is, and the same.
  pub eval_with_iff :
      (p : Program F) (args slots : List F) (w : F)
      → compile ieee named_before nodes ≡ ok p
      → length p.params ≤ 2 ^ 16
      → gather env p.params ≡ ok args
      → ((eval_with ieee p args slots >>= λ out. some out.0) ≡ some w)
        ↔ (eval ieee env nodes ≡ ok w)
  eval_with_iff p args slots w h fits given =
      let b = compile-IsBuilt ieee named_before nodes p h in
      let same = sym b.made in
      let run =
        machine_run p b args slots (subst (λ q. gather env q.params ≡ ok args) same given)
          (subst (λ q. length q.params ≤ 2 ^ 16) same fits) in
      subst
        (λ q.
          ((eval_with ieee q args slots >>= λ out. some out.0) ≡ some w)
          ↔ (eval ieee env nodes ≡ ok w))
        b.made (rw run (meanings_iff p b ieee.zero_value w))

  -- For an expression in dependency order whose operators have as many children as they take and that
  -- compiles, to a program of at most 65,536 parameters: run in an environment, the program gives a
  -- value exactly when the interpreter does, and the same value.
  pub eval_env_iff :
      (p : Program F) (w : F)
      → compile ieee named_before nodes ≡ ok p
      → length p.params ≤ 2 ^ 16
      → (eval_env ieee p env ≡ ok w) ↔ (eval ieee env nodes ≡ ok w)
  unfolding eval_env eval_program
  eval_env_iff p w h fits = (
    (λ ran. from_args (gather env p.params) refl ran),
    (λ means.
        let b = compile-IsBuilt ieee named_before nodes p h in
        let (args, given) = params_bound p b w means in
        let bound = subst (λ q. gather env q.params ≡ ok args) b.made given in
        rw (eval_env, bound)
          ((ok_or_iff (eval_program ieee p args) panicked w).1
            ((eval_with_iff p args (replicate p.slots ieee.zero_value) w h fits bound).1 means))),
  )
    where
      from_args :
          (given : Result EvalError (List F))
          → gather env p.params ≡ given
          → elim given [
            | err problem ↦ err problem
            | ok args ↦ ok_or (eval_program ieee p args) panicked
          ]
            ≡ ok w
          → eval ieee env nodes ≡ ok w
      from_args (err problem) e ran = cc
      from_args (ok args) e ran =
          (eval_with_iff p args (replicate p.slots ieee.zero_value) w h fits e).0
            ((ok_or_iff (eval_program ieee p args) panicked w).0 ran)
