-- ===== src/Saturn/Vm/Progress.antt =====
-- One node of the second pass of src/vm.rs can be emitted as long as there are indices left.
use aiiiia.Saturn.Eval.{insert, values}
use aiiiia.Prelude.{
  ◌+◌, ◌∙◌, inl, inr, Option, ◌++◌, lt→ltb, Option-cases, length-append, All, ℕ, zero, suc, ◌%◌,
  ◌^◌, ◌≤◌, ◌<◌, ◌≡◌, refl, ap, ◌⊎◌, none, some, List, [], ◌∷◌, arith, length,
}
use aiiiia.Saturn.Lang.Node.{ENode, as_const, as_var}
use aiiiia.Saturn.Lang.Reach.{IsIn}
use aiiiia.Saturn.Vm.Size.{position_total}
use aiiiia.Saturn.Float.{Ieee}
use aiiiia.Saturn.Lang.{Op, arity, const, var, if_else}
use aiiiia.Saturn.Vm.{load_param, un, bin, select, Instr, load_const}
use aiiiia.Saturn.Vm.Compiler.{
  Compiler, alloc, intern_const, instr_of, sized_instr, select_instr, param_instr, emit, emit_value,
  push_instr,
}
use aiiiia.Prelude.Results.{ok}

module _ {F : Type 0} where
  -- After as many nodes as the bound, at most as many slots and literals are in use.
  pub record IsSmall (bound : ℕ) (st : Compiler F) : Type 0 where
    pub slots : st.high_water ≤ bound
    pub pool : length st.consts ≤ bound

  abbrev pub HasSlot : Compiler F → ℕ → Type 0
  HasSlot st c = (s : ℕ) × (st.slot_of c ≡ some s)

  -- The state grows by one node and keeps the slots it has given.
  pub record IsGrown (bound : ℕ) (st after : Compiler F) : Type 0 where
    pub small : IsSmall (suc bound) after
    pub same_slots : after.slot_of ≡ st.slot_of

  alloc_total :
      (bound : ℕ) (st : Compiler F)
      → bound < 2 ^ 16
      → st.high_water ≤ bound
      → (dst : ℕ) × ((after : Compiler F) × ((alloc st ≡ ok (dst, after))
            × ((after.high_water ≤ suc bound)
                × ((after.consts ≡ st.consts) × (after.slot_of ≡ st.slot_of)))))
  unfolding alloc
  alloc_total bound st room v = by_free st.free refl
    where
      by_free :
          (free : List ℕ)
          → st.free ≡ free
          → (dst : ℕ) × ((after : Compiler F) × ((alloc st ≡ ok (dst, after))
                × ((after.high_water ≤ suc bound)
                    × ((after.consts ≡ st.consts) × (after.slot_of ≡ st.slot_of)))))
      by_free [] e = (
        st.high_water,
        (
          record st { high_water = st.high_water + 1 },
          (
            rw (alloc, e, lt→ltb st.high_water (2 ^ 16) (omega (arith, v)))
                (ap
                  (λ f. ok (st.high_water, record st { free = f; high_water = st.high_water + 1 }))
                  e),
            (omega (arith, v), (refl, refl)),
          ),
        ),
      )
      by_free (s ∷ rest) e =
          (s, (record st { free = rest }, (rw (alloc, e) refl, (omega (arith, v), (refl, refl)))))

  sized_instr_total :
      (k : ℕ) (op : Op F) (dst : ℕ) (operands : List ℕ)
      → length operands ≡ k
      → (k ≡ 1) ⊎ (k ≡ 2)
      → (instr : Instr F) × (sized_instr k op dst operands ≡ some instr)
  sized_instr_total zero op dst operands size h = ground arith
  sized_instr_total (suc zero) op dst [] size h = absurd (omega arith)
  sized_instr_total (suc zero) op dst (a ∷ rest) size h = (un dst op a, refl)
  sized_instr_total (suc (suc zero)) op dst [] size h = absurd (omega arith)
  sized_instr_total (suc (suc zero)) op dst (a ∷ []) size h = absurd (omega arith)
  sized_instr_total (suc (suc zero)) op dst (a ∷ b ∷ rest) size h = (bin dst op a b, refl)
  sized_instr_total (suc (suc (suc k))) op dst operands size h = ground arith

  -- Every operator but a literal has an instruction.
  instr_of_total :
      (params : List ℕ) (op : Op F) (dst : ℕ) (operands : List ℕ)
      → as_const op ≡ none
      → length operands ≡ arity op
      → ((s : ℕ) → as_var op ≡ some s → IsIn s params)
      → (instr : Instr F) × (instr_of params op dst operands ≡ some instr)
  unfolding arity
  instr_of_total params (const c) dst operands plain size bound = cc
  instr_of_total params (var s) dst operands plain size bound =
      let (p, found) = position_total s params (bound s refl) in
      (load_param dst (p % 2 ^ 16), ap (param_instr dst) found)
  instr_of_total params if_else dst operands plain size bound = choice operands size
    where
      choice :
          (operands : List ℕ)
          → length operands ≡ 3
          → (instr : Instr F) × (select_instr dst operands ≡ some instr)
      choice [] k = absurd (omega arith)
      choice (c ∷ []) k = absurd (omega arith)
      choice (c ∷ a ∷ []) k = absurd (omega arith)
      choice (c ∷ a ∷ b ∷ rest) k = (select dst c a b, refl)
  instr_of_total params op dst operands plain size bound =
      sized_instr_total (arity op) op dst operands size (omega arith)

module _ {F : Type 0} (ieee : Ieee F) where
  intern_total :
      (bound : ℕ) (x : F) (st : Compiler F)
      → length st.consts ≤ bound
      → bound < 2 ^ 16
      → (k : ℕ) × ((after : Compiler F) × ((intern_const ieee x st ≡ ok (k, after))
            × ((length after.consts ≤ suc bound)
                × ((after.high_water ≡ st.high_water) × (after.slot_of ≡ st.slot_of)))))
  unfolding intern_const
  intern_total bound x st v room = elim (Option-cases (st.const_index (ieee.bits x))) [
    | inr (k, e) ↦ (k, (st, (rw (intern_const, e) refl, (omega (arith, v), (refl, refl)))))
    | inl e ↦ (
      length st.consts,
      (
        record st {
          consts = st.consts ++ x ∷ [];
          const_index = insert (ieee.bits x) (length st.consts) st.const_index;
        },
        (
          rw (intern_const, e, lt→ltb (length st.consts) (2 ^ 16) (omega (arith, v))) refl,
          (omega (arith, v, length-append st.consts (x ∷ [])), (refl, refl)),
        ),
      ),
    )
  ]

  values_total :
      (st : Compiler F) (children : List ℕ)
      → All (HasSlot st) children
      → (operands : List ℕ) × ((values st.slot_of children ≡ some operands)
          × (length operands ≡ length children))
  values_total st [] h = ([], (refl, refl))
  values_total st (c ∷ children) ((s, e), h) =
      let (operands, (found, size)) = values_total st children h in
      (s ∷ operands, (rw (e, found) refl, ap suc size))

  module _ (bound : ℕ) (params : List ℕ) (n : ENode F) (st : Compiler F) (room : bound < 2 ^ 16)
      (v : IsSmall bound st) where
    abbrev pub Emits : Option F → Type 0
    Emits folded =
        (dst : ℕ) × ((after : Compiler F) × ((emit_value ieee params n folded st ≡ ok (dst, after))
            × IsGrown bound st after))

    pub folded_total : (w : F) → Emits (some w)
    unfolding emit_value
    folded_total w =
        let (k, (interned, (first, (pool, (high, slots))))) = intern_total bound w st v.pool room in
        let (dst, (after, (second, (grown, (consts, kept))))) =
          alloc_total bound interned room (omega (arith, v.slots, high)) in
        (
          dst,
          (
            push_instr (load_const dst k) after,
            (
              rw (emit_value, first, second) refl,
              record {
                small = record { slots = grown; pool = rw consts pool };
                same_slots = kept ∙ slots;
              },
            ),
          ),
        )

    pub own_total :
        All (HasSlot st) n.children
        → length n.children ≡ arity n.op
        → ((s : ℕ) → as_var n.op ≡ some s → IsIn s params)
        → Emits none
    unfolding emit_value emit
    own_total have size bound_vars =
        let (operands, (found, same_size)) = values_total st n.children have in
        let (dst, (after, (first, (grown, (consts, kept))))) = alloc_total bound st room v.slots in
        elim (Option-cases (as_const n.op)) [
          | inr (c, e) ↦
              let (k, (interned, (second, (pool, (high, slots))))) =
                intern_total bound c after (rw consts v.pool) room in
              (
                dst,
                (
                  push_instr (load_const dst k) interned,
                  (
                    rw (emit_value, emit, found, first, e, second) refl,
                    record {
                      small = record { slots = rw high grown; pool = pool };
                      same_slots = slots ∙ kept;
                    },
                  ),
                ),
              )
          | inl e ↦
              let (instr, second) =
                instr_of_total params n.op dst operands e (same_size ∙ size) bound_vars in
              (
                dst,
                (
                  push_instr instr after,
                  (
                    rw (emit_value, emit, found, first, e, second) refl,
                    record {
                      small = record { slots = grown; pool = rw consts (omega (arith, v.pool)) };
                      same_slots = kept;
                    },
                  ),
                ),
              )
        ]
