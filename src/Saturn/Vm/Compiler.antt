-- ===== src/Saturn/Vm/Compiler.antt =====
-- src/vm.rs: the compiler. Maps are functions from keys to optional values, sets of ids are lists.
use aiiiia.Saturn.Eval.{
  EvalError, insert, values, distinct_constants, live_values, unreduced_diff, program_too_large,
  panicked,
}
use aiiiia.Saturn.Float.{Ieee}
use aiiiia.Saturn.Lang.{Op, arity, is_foldable, eval_op, var, if_else, diff}
use aiiiia.Saturn.Lang.Expr.{push_all, root, reachable}
use aiiiia.Saturn.Lang.Node.{ENode, as_const, as_var}
use aiiiia.Saturn.Vm.{Program, Instr, load_const, load_param, un, bin, select}
use aiiiia.Prelude.{
  zero, suc, ◌+◌, ◌%◌, ◌^◌, max, Bool, true, false, not, ◌&&◌, ◌||◌, Option, none, some, List, [],
  ◌∷◌, ◌++◌, ltb, if◌then◌else◌, is_some, length, get_elem?, is_in, order_by, dedup, ℕ, ◌==◌,
}
use aiiiia.Prelude.Results.{Result, ok_or, err, ok, ◌>>=◌}

pub record Compiler (F : Type 0) : Type 0 where
  pub code : List (Instr F)
  pub consts : List F
  pub const_index : ℕ → Option ℕ
  pub slot_of : ℕ → Option ℕ
  pub free : List ℕ
  pub high_water : ℕ

module _ {F : Type 0} where
  abbrev pub is_diff : Op F → Bool
  is_diff diff = true
  is_diff _ = false

  -- The ids that are compiled are indices of nodes.
  abbrev pub children_of : List (ENode F) → ℕ → List ℕ
  children_of nodes id = elim (get_elem? nodes id) [ none ↦ [] | some n ↦ n.children ]

  abbrev pub start_compiler : Compiler F
  start_compiler = record {
    code = [];
    consts = [];
    const_index = λ k. none;
    slot_of = λ k. none;
    free = [];
    high_water = 0;
  }

  -- The variables among the ids.
  abbrev pub vars_of : List (ENode F) → List ℕ → List ℕ
  vars_of nodes [] = []
  vars_of nodes (id ∷ ids) = elim (get_elem? nodes id) [
    | none ↦ vars_of nodes ids
    | some n ↦ elim (as_var n.op) [ none ↦ vars_of nodes ids | some s ↦ s ∷ vars_of nodes ids ]
  ]

abbrev pub position : ℕ → List ℕ → Option ℕ
position s [] = none
position s (q ∷ params) =
    let rest = position s params in
    if q == s then some 0 else elim rest [ none ↦ none | some i ↦ some (suc i) ]

module _ {F : Type 0} (ieee : Ieee F) where
  unfoldable pub fold : ENode F → (ℕ → Option F) → Option F
  fold node known = elim (as_const node.op) [
    | some c ↦ some c
    | none ↦
        if is_foldable node.op
        then elim (values known node.children) [
          | none ↦ none
          | some args ↦ eval_op ieee node.op args
        ]
        else none
  ]

  -- Pass one: the nodes that have a value at compile time.
  unfoldable pub fold_pass :
      List (ENode F) → List ℕ → (ℕ → Option F) → Result EvalError (ℕ → Option F)
  fold_pass nodes [] known = ok known
  fold_pass nodes (id ∷ ids) known = ok_or (get_elem? nodes id) panicked >>= λ node.
      if is_diff node.op then err unreduced_diff else elim (fold node known) [
        | none ↦ fold_pass nodes ids known
        | some v ↦ fold_pass nodes ids (insert id v known)
      ]

  unfoldable pub intern_const : F → Compiler F → Result EvalError (ℕ × Compiler F)
  intern_const x st = elim (st.const_index (ieee.bits x)) [
    | some i ↦ ok (i, st)
    | none ↦
        let i = length st.consts in
        if ltb i (2 ^ 16)
        then ok (
          i,
          record st {
            consts = st.consts ++ x ∷ [];
            const_index = insert (ieee.bits x) i st.const_index;
          },
        )
        else err (program_too_large distinct_constants)
  ]

-- The children's last use so far is at position i.
abbrev pub use_at : ℕ → List ℕ → List ℕ → (ℕ → Option ℕ) → ℕ → Option ℕ
use_at i here [] last_use = last_use
use_at i here (c ∷ children) last_use =
    use_at i here children (if is_in c here then insert c i last_use else last_use)

module _ {F : Type 0} where
  unfoldable pub alloc : Compiler F → Result EvalError (ℕ × Compiler F)
  alloc st = elim st.free [
    | s ∷ rest ↦ ok (s, record st { free = rest })
    | [] ↦
        if ltb st.high_water (2 ^ 16)
        then ok (st.high_water, record st { high_water = st.high_water + 1 })
        else err (program_too_large live_values)
  ]

  -- The ids that something not folded reads, and the root.
  unfoldable pub needed : List (ENode F) → (ℕ → Option F) → List ℕ → List ℕ → List ℕ
  needed nodes known [] acc = acc
  needed nodes known (id ∷ ids) acc =
      needed nodes known ids
        (if is_some (known id) then acc else push_all (children_of nodes id) acc)

  unfoldable pub emitted : (ℕ → Option F) → List ℕ → List ℕ → List ℕ
  emitted known used [] = []
  emitted known used (id ∷ ids) =
      if not (is_some (known id)) || is_in id used
      then id ∷ emitted known used ids
      else emitted known used ids

  unfoldable pub last_uses :
      List (ENode F) → (ℕ → Option F) → List ℕ → ℕ → List ℕ → (ℕ → Option ℕ) → ℕ → Option ℕ
  last_uses nodes known here i [] last_use = last_use
  last_uses nodes known here i (id ∷ ids) last_use =
      last_uses nodes known here (suc i) ids
        (if is_some (known id) then last_use else use_at i here (children_of nodes id) last_use)

  abbrev pub push_instr : Instr F → Compiler F → Compiler F
  push_instr instr st = record st { code = st.code ++ instr ∷ [] }

  -- The instruction of an operator that is not a literal; none where the source panics. The index of a
  -- parameter is cast to a u16.
  abbrev pub sized_instr : ℕ → Op F → ℕ → List ℕ → Option (Instr F)
  sized_instr (suc zero) op dst (a ∷ rest) = some (un dst op a)
  sized_instr (suc (suc zero)) op dst (a ∷ b ∷ rest) = some (bin dst op a b)
  sized_instr _ op dst operands = none

  abbrev pub select_instr : ℕ → List ℕ → Option (Instr F)
  select_instr dst (c ∷ a ∷ b ∷ rest) = some (select dst c a b)
  select_instr dst _ = none

  abbrev pub param_instr : ℕ → Option ℕ → Option (Instr F)
  param_instr dst none = none
  param_instr dst (some p) = some (load_param dst (p % 2 ^ 16))

  abbrev pub instr_of : List ℕ → Op F → ℕ → List ℕ → Option (Instr F)
  instr_of params (var s) dst operands = param_instr dst (position s params)
  instr_of params if_else dst operands = select_instr dst operands
  instr_of params op dst operands = sized_instr (arity op) op dst operands

module _ {F : Type 0} (ieee : Ieee F) where
  unfoldable pub emit : List ℕ → ENode F → Compiler F → Result EvalError (ℕ × Compiler F)
  emit params node st = ok_or (values st.slot_of node.children) panicked >>= λ operands.
      alloc st >>= λ (dst, after). elim (as_const node.op) [
        | some c ↦ intern_const ieee c after >>= λ (k, interned).
            ok (dst, push_instr (load_const dst k) interned)
        | none ↦ ok_or (instr_of params node.op dst operands) panicked >>= λ instr.
            ok (dst, push_instr instr after)
      ]

  -- A literal for a node that folded, else the node's own instruction.
  unfoldable pub emit_value :
      List ℕ → ENode F → Option F → Compiler F → Result EvalError (ℕ × Compiler F)
  emit_value params node none st = emit params node st
  emit_value params node (some v) st = intern_const ieee v st >>= λ (k, interned).
      alloc interned >>= λ (dst, after). ok (dst, push_instr (load_const dst k) after)

-- The operands whose last use was this instruction, each once.
abbrev pub used_up : (ℕ → Option ℕ) → ℕ → ℕ → List ℕ → List ℕ
used_up last_use i root [] = []
used_up last_use i root (c ∷ children) =
    if (elim (last_use c) [ none ↦ false | some j ↦ j == i ]) && not (c == root)
    then c ∷ used_up last_use i root children
    else used_up last_use i root children

unfoldable pub dead : (ℕ → Option ℕ) → ℕ → ℕ → List ℕ → List ℕ
dead last_use i root children = dedup (order_by ltb (used_up last_use i root children))

-- A slot goes back to the free ones unless it was just written.
abbrev pub pushed : ℕ → Option ℕ → List ℕ → List ℕ
pushed dst none free = free
pushed dst (some s) free = if s == dst then free else s ∷ free

unfoldable pub recycle : (ℕ → Option ℕ) → ℕ → List ℕ → List ℕ → List ℕ
recycle slot_of dst [] free = free
recycle slot_of dst (c ∷ ids) free = recycle slot_of dst ids (pushed dst (slot_of c) free)

module _ {F : Type 0} (ieee : Ieee F) where
  abbrev pub finish_node : (ℕ → Option ℕ) → ℕ → ℕ → ℕ → List ℕ → ℕ → Compiler F → Compiler F
  finish_node last_use i root id children dst st =
      let slots = insert id dst st.slot_of in
      record st {
        slot_of = slots;
        free = recycle slots dst (dead last_use i root children) st.free;
      }

  -- Pass two.
  unfoldable pub emit_pass :
      List (ENode F)
      → List ℕ
      → (ℕ → Option F)
      → (ℕ → Option ℕ)
      → ℕ
      → ℕ
      → List ℕ
      → Compiler F
      → Result EvalError (Compiler F)
  emit_pass nodes params known last_use root i [] st = ok st
  emit_pass nodes params known last_use root i (id ∷ ids) st =
      ok_or (get_elem? nodes id) panicked >>= λ node.
      emit_value ieee params node (known id) st >>= λ (dst, after).
      emit_pass nodes params known last_use root (suc i) ids
        (finish_node last_use i root id node.children dst after)

  -- The order of the variables is that of their names.
  unfoldable pub compile : (ℕ → ℕ → Bool) → List (ENode F) → Result EvalError (Program F)
  compile named_before nodes = ok_or (root nodes) panicked >>= λ start.
      ok_or (reachable nodes start) panicked >>= λ order.
      let params = dedup (order_by named_before (vars_of nodes order)) in
      fold_pass ieee nodes order (λ k. none) >>= λ known.
      let ids = emitted known (needed nodes known order (start ∷ [])) order in
      let last_use = last_uses nodes known ids 0 ids (λ k. none) in
      emit_pass nodes params known last_use start 0 ids start_compiler >>= λ st.
      ok record { code = st.code; consts = st.consts; params = params; slots = max st.high_water 1 }
