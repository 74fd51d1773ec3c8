-- ===== src/Saturn/Vm/Batch.antt =====
-- `eval_batch` of src/vm.rs: one buffer of slots for many rows.
use aiiiia.Prelude.Results.{ok}
use aiiiia.Saturn.Lang.Node.{ENode}
use aiiiia.Saturn.Lang.Topo.{IsExpr}
use aiiiia.Saturn.Float.{Ieee}
use aiiiia.Saturn.Eval.{eval}
use aiiiia.Saturn.Vm.{Program, gather, eval_with, eval_batch}
use aiiiia.Saturn.Vm.Compiler.{compile}
use aiiiia.Saturn.Vm.Correct.{eval_with_iff}
use aiiiia.Prelude.{
  ℕ, ◌^◌, ◌≤◌, ◌≡◌, refl, ap, Bool, Option, none, some, List, [], ◌∷◌, length, some-inj, ◌>>=◌,
}

module _ {F : Type 0} (ieee : Ieee F) (named_before : ℕ → ℕ → Bool) (nodes : List (ENode F))
    (v : IsExpr nodes) where
  -- Each row holds what an environment has for the parameters, and each output is the interpreter's value
  -- in that environment.
  abbrev pub IsBatch : List ℕ → List (ℕ → Option F) → List (List F) → List F → Type 0
  IsBatch params [] [] [] = Unit
  IsBatch params (env ∷ envs) (row ∷ rows) (w ∷ outs) =
      (gather env params ≡ ok row) × ((eval ieee env nodes ≡ ok w) × IsBatch params envs rows outs)
  IsBatch params envs rows outs = ⊥

  ran :
      (o : Option (F × List F)) (w : F)
      → (o >>= λ out. some out.0) ≡ some w
      → (after : List F) × (o ≡ some (w, after))
  ran none w h = cc
  ran (some (u, after)) w h = (after, ap (λ k. some (k, after)) (some-inj h))

  -- For an expression in dependency order whose operators have as many children as they take and that
  -- compiles, to a program of at most 65,536 parameters: where each row holds the arguments of an
  -- environment in which the interpreter gives a value, a batch gives these values in order, whatever
  -- the slots hold at first or the rows before leave in them.
  pub eval_batch_lem :
      (p : Program F) (envs : List (ℕ → Option F)) (rows : List (List F)) (outs slots : List F)
      → compile ieee named_before nodes ≡ ok p
      → length p.params ≤ 2 ^ 16
      → IsBatch p.params envs rows outs
      → (after : List F) × (eval_batch ieee p rows slots ≡ some (outs, after))
  unfolding eval_batch
  eval_batch_lem p [] [] [] slots compiled few h = (slots, refl)
  eval_batch_lem p (env ∷ envs) (row ∷ rows) (w ∷ outs) slots compiled few (given, (value, rest)) =
      let (left, first) =
        ran (eval_with ieee p row slots) w (
          (eval_with_iff ieee env named_before nodes v p row slots w compiled few given).1 value) in
      let (after, others) = eval_batch_lem p envs rows outs left compiled few rest in
      (after, rw (eval_batch, first, others) refl)
  eval_batch_lem p [] [] (w ∷ outs) slots compiled few h = absurd h
  eval_batch_lem p [] (row ∷ rows) outs slots compiled few h = absurd h
  eval_batch_lem p (env ∷ envs) [] outs slots compiled few h = absurd h
  eval_batch_lem p (env ∷ envs) (row ∷ rows) [] slots compiled few h = absurd h
