-- ===== src/Saturn/Vm/Emit.antt =====
-- One node of the second pass of src/vm.rs: the instruction emitted computes what the node means.
use aiiiia.Saturn.Lang.{arity, eval_op}
use aiiiia.Prelude.{
  IsDistinct, ℕ, suc, ◌^◌, ◌≤◌, ◌<◌, ◌≡◌, refl, sym, ap, ◌∙◌, subst, Option, none, some, List, [],
  ◌∷◌, ◌++◌, length, get_elem?, some-inj, All,
}
use aiiiia.Prelude.Results.{ok_or_iff, Result, ok_or, >>=-eq-ok, ◌>>=◌, ok-inj, ok}
use aiiiia.Saturn.Eval.{EvalError, panicked, values}
use aiiiia.Saturn.Eval.Interpreter.{no_children, cons_value-some}
use aiiiia.Saturn.Eval.Meaning.{value_at_lem, value_at}
use aiiiia.Saturn.Lang.Node.{as_const, as_const_lem, ENode}
use aiiiia.Saturn.Lang.Reach.{IsIn}
use aiiiia.Saturn.Lang.Topo.{IsExpr}
use aiiiia.Saturn.Vm.Constants.{IsKeptIn, IsIndexed, intern_const-IsInterned}
use aiiiia.Saturn.Vm.Slots.{IsTaken, alloc-IsAllocated}
use aiiiia.Saturn.Vm.Operands.{instr_of_lem, instr_of-dst_of}
use aiiiia.Saturn.Vm.Readied.{IsReadied, allocated-IsReadied, intern_first, intern_last}
use aiiiia.Saturn.Float.{Ieee}
use aiiiia.Saturn.Vm.{load_const, gather, instr_value, dst_of, Instr}
use aiiiia.Saturn.Vm.Compiler.{
  Compiler, emit, emit_value, alloc, intern_const, push_instr, instr_of,
}

module _ {F : Type 0} (ieee : Ieee F) (env : ℕ → Option F) (nodes : List (ENode F))
    (v : IsExpr nodes) (params : List ℕ) (args : List F) (given : gather env params ≡ ok args)
    (fits : length params ≤ 2 ^ 16) where
  -- The slot holds what the node means.
  abbrev pub IsHeld : List F → ℕ → ℕ → Type 0
  IsHeld slots c s = (w : F) × ((get_elem? slots s ≡ some w) × (value_at ieee env nodes c ≡ some w))

  -- The slots of the children, where they have one, hold what those mean.
  abbrev pub IsRead : List F → (ℕ → Option ℕ) → ℕ → Type 0
  IsRead slots slot_of c = (s : ℕ) → slot_of c ≡ some s → IsHeld slots c s

  operands_read :
      (slots : List F) (slot_of : ℕ → Option ℕ) (children operands : List ℕ)
      → values slot_of children ≡ some operands
      → All (IsRead slots slot_of) children
      → (length operands ≡ length children)
        × ((found : List F) × ((values (get_elem? slots) operands ≡ some found)
              × (values (value_at ieee env nodes) children ≡ some found)))
  operands_read slots slot_of [] operands h read = rw (sym (some-inj h)) (refl, ([], (refl, refl)))
  operands_read slots slot_of (c ∷ children) operands h read =
      let ((s, here), (others, rest)) =
        cons_value-some (slot_of c) (values slot_of children) operands h in
      let (size, (found, (holds, means))) =
        operands_read slots slot_of children others rest read.1 in
      let (w, (held, meant)) = read.0 s here in
      let shape : s ∷ others ≡ operands = some-inj (rw (here, rest) at h) in
      rw (sym shape) (ap suc size, (w ∷ found, (rw (held, holds) refl, rw (meant, means) refl)))

  pub record IsEmitted (x : ℕ) (n : ENode F) (folded : Option F) (st : Compiler F) (dst : ℕ)
      (after : Compiler F) : Type 0 where
    pub instr : Instr F
    pub code : after.code ≡ st.code ++ instr ∷ []
    pub target : dst_of instr ≡ dst
    pub taken : IsTaken st.free st.high_water dst after.free after.high_water
    pub same_slots : after.slot_of ≡ st.slot_of
    pub kept : IsKeptIn st.consts after.consts
    pub indexed : IsIndexed ieee after
    pub computes :
        (consts slots : List F)
        → IsKeptIn after.consts consts
        → (folded ≡ none → All (IsRead slots st.slot_of) n.children)
        → instr_value ieee consts args slots instr ≡ value_at ieee env nodes x

  literal-IsEmitted :
      (x : ℕ) (n : ENode F) (folded : Option F) (w : F) (st : Compiler F) (dst k : ℕ)
      (ready : Compiler F)
      → IsReadied ieee st dst ready
      → get_elem? ready.consts k ≡ some w
      → value_at ieee env nodes x ≡ some w
      → IsEmitted x n folded st dst (push_instr (load_const dst k) ready)
  unfolding instr_value
  literal-IsEmitted x n folded w st dst k ready r placed means = record {
    instr = load_const dst k;
    code = ap (λ c. c ++ load_const dst k ∷ []) r.same_code;
    target = refl;
    taken = r.taken;
    same_slots = r.same_slots;
    kept = r.kept;
    indexed = r.indexed;
    computes = λ consts slots whole read. whole k w placed ∙ sym means;
  }

  const_means :
      (x : ℕ) (n : ENode F) (c : F)
      → get_elem? nodes x ≡ some n
      → as_const n.op ≡ some c
      → value_at ieee env nodes x ≡ some c
  unfolding eval_op arity
  const_means x n c there e =
      let literal = as_const_lem n.op c e in
      let bare = no_children n.children (v.arities x n there ∙ ap arity literal) in
      value_at_lem ieee env nodes x n v.topological there ∙ rw (literal, bare) refl

  module _ (x : ℕ) (n : ENode F) (st : Compiler F) (there : get_elem? nodes x ≡ some n)
      (indexed : IsIndexed ieee st) (distinct : IsDistinct st.free)
      (small : (s : ℕ) → IsIn s st.free → s < st.high_water) where
    -- A literal for a node whose value is known.
    folded-IsEmitted :
        (w : F) (dst : ℕ) (after : Compiler F)
        → value_at ieee env nodes x ≡ some w
        → emit_value ieee params n (some w) st ≡ ok (dst, after)
        → IsEmitted x n (some w) st dst after
    unfolding emit_value
    folded-IsEmitted w dst after means h =
        let ((k, interned), first, more) =
          >>=-eq-ok (intern_const ieee w st)
            (λ (k, interned).
              alloc interned >>= λ (dst, after). ok (dst, push_instr (load_const dst k) after))
            h in
        let ((slot, allocated), second, done) =
          >>=-eq-ok (alloc interned) (λ (dst, after). ok (dst, push_instr (load_const dst k) after))
            more in
        let i = intern_const-IsInterned ieee w st k interned indexed first in
        let a =
          alloc-IsAllocated interned slot allocated (rw i.same_free distinct)
            (rw (i.same_free, i.same_high) small) second in
        subst (λ (out : ℕ × Compiler F). IsEmitted x n (some w) st out.0 out.1) (ok-inj done)
          (literal-IsEmitted x n (some w) w st slot k allocated
            (intern_first ieee w st k interned slot allocated i
              (allocated-IsReadied ieee interned slot allocated i.indexed a))
            (ap (λ c. get_elem? c k) a.same_consts ∙ i.placed) means)

    -- The node's own instruction, or a literal.
    own-IsEmitted :
        (dst : ℕ) (after : Compiler F)
        → emit_value ieee params n none st ≡ ok (dst, after)
        → IsEmitted x n none st dst after
    unfolding emit_value emit
    own-IsEmitted dst after h =
        let (operands, first, more) =
          >>=-eq-ok (ok_or (values st.slot_of n.children) panicked)
            (λ operands. after_read operands) h in
        let ((slot, allocated), second, rest) =
          >>=-eq-ok (alloc st) (λ (dst, after). after_alloc operands dst after) more in
        let r =
          allocated-IsReadied ieee st slot allocated indexed
            (alloc-IsAllocated st slot allocated distinct small second) in
        by_literal operands slot allocated
          ((ok_or_iff (values st.slot_of n.children) panicked operands).0 first) r (as_const n.op)
          refl rest
      where
        pushed_const : ℕ → ℕ × Compiler F → Result EvalError (ℕ × Compiler F)
        pushed_const dst (k, interned) = ok (dst, push_instr (load_const dst k) interned)

        after_alloc : List ℕ → ℕ → Compiler F → Result EvalError (ℕ × Compiler F)
        after_alloc operands dst after = elim (as_const n.op) [
          | some c ↦ intern_const ieee c after >>= λ (k, interned).
              ok (dst, push_instr (load_const dst k) interned)
          | none ↦ ok_or (instr_of params n.op dst operands) panicked >>= λ instr.
              ok (dst, push_instr instr after)
        ]

        after_read : List ℕ → Result EvalError (ℕ × Compiler F)
        after_read operands = alloc st >>= λ (dst, after). after_alloc operands dst after

        by_literal :
            (operands : List ℕ) (slot : ℕ) (allocated : Compiler F)
            → values st.slot_of n.children ≡ some operands
            → IsReadied ieee st slot allocated
            → (o : Option F) → as_const n.op ≡ o
            → ◌≡◌ {A = Result EvalError (ℕ × Compiler F)}
                (elim o [
                  | some c ↦ intern_const ieee c allocated >>= λ (k, interned).
                      ok (slot, push_instr (load_const slot k) interned)
                  | none ↦ ok_or (instr_of params n.op slot operands) panicked >>= λ instr.
                      ok (slot, push_instr instr allocated)
                ])
                (ok (dst, after))
            → IsEmitted x n none st dst after
        by_literal operands slot allocated found r (some c) e k =
            let ((j, interned), first, done) =
              >>=-eq-ok (intern_const ieee c allocated)
                (λ (k, interned). ok (slot, push_instr (load_const slot k) interned)) k in
            let i = intern_const-IsInterned ieee c allocated j interned r.indexed first in
            subst (λ (out : ℕ × Compiler F). IsEmitted x n none st out.0 out.1) (ok-inj done)
              (literal-IsEmitted x n none c st slot j interned
                (intern_last ieee c st allocated j interned slot r i) i.placed
                (const_means x n c there e))
        by_literal operands slot allocated found r none e k =
            let (instr, first, done) =
              >>=-eq-ok (ok_or (instr_of params n.op slot operands) panicked)
                (λ instr. ok (slot, push_instr instr allocated)) k in
            let picked = (ok_or_iff (instr_of params n.op slot operands) panicked instr).0 first in
            subst (λ (out : ℕ × Compiler F). IsEmitted x n none st out.0 out.1) (ok-inj done)
              record {
                instr = instr;
                code = ap (λ c. c ++ instr ∷ []) r.same_code;
                target = instr_of-dst_of slot instr params n.op operands picked;
                taken = r.taken;
                same_slots = r.same_slots;
                kept = r.kept;
                indexed = r.indexed;
                computes = λ consts slots whole read.
                    let (size, (values_found, (holds, means))) =
                      operands_read slots st.slot_of n.children operands found (read refl) in
                    instr_of_lem ieee env consts args slots params (value_at ieee env nodes) n.op
                      slot n.children operands instr values_found given fits picked
                      (size ∙ v.arities x n there) holds means
                    ∙ sym (value_at_lem ieee env nodes x n v.topological there);
              }

    -- What is emitted for a node, folded or not.
    pub emit_value-IsEmitted :
        (folded : Option F) (dst : ℕ) (after : Compiler F)
        → ((w : F) → folded ≡ some w → value_at ieee env nodes x ≡ some w)
        → emit_value ieee params n folded st ≡ ok (dst, after)
        → IsEmitted x n folded st dst after
    emit_value-IsEmitted none dst after sound h = own-IsEmitted dst after h
    emit_value-IsEmitted (some w) dst after sound h = folded-IsEmitted w dst after (sound w refl) h
