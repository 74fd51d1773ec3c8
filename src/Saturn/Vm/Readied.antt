-- ===== src/Saturn/Vm/Readied.antt =====
-- The compiler of src/vm.rs between taking a slot and adding an instruction.
use aiiiia.Prelude.{ℕ, ◌≡◌, sym, ap, ◌∙◌, subst, get_elem?}
use aiiiia.Saturn.Vm.Constants.{IsInterned, IsKeptIn, IsIndexed}
use aiiiia.Saturn.Vm.Slots.{IsTaken, IsAllocated}
use aiiiia.Saturn.Float.{Ieee}
use aiiiia.Saturn.Vm.Compiler.{Compiler}

module _ {F : Type 0} (ieee : Ieee F) where
  -- A slot is taken, and the pool may have grown.
  pub record IsReadied (st : Compiler F) (dst : ℕ) (ready : Compiler F) : Type 0 where
    pub taken : IsTaken st.free st.high_water dst ready.free ready.high_water
    pub same_code : ready.code ≡ st.code
    pub same_slots : ready.slot_of ≡ st.slot_of
    pub kept : IsKeptIn st.consts ready.consts
    pub indexed : IsIndexed ieee ready

  pub allocated-IsReadied :
      (st : Compiler F) (dst : ℕ) (ready : Compiler F)
      → IsIndexed ieee st
      → IsAllocated st dst ready
      → IsReadied st dst ready
  allocated-IsReadied st dst ready v a = record {
    taken = a.taken;
    same_code = a.same_code;
    same_slots = a.same_slots;
    kept = λ k w h. ap (λ c. get_elem? c k) a.same_consts ∙ h;
    indexed = λ b k h.
        let (w, (held, same)) = v b k (ap (λ f. f b) (sym a.same_index) ∙ h) in
        (w, (ap (λ c. get_elem? c k) a.same_consts ∙ held, same));
  }

  pub intern_first :
      (w : F) (st : Compiler F) (k : ℕ) (interned : Compiler F) (dst : ℕ) (ready : Compiler F)
      → IsInterned ieee w st k interned
      → IsReadied interned dst ready
      → IsReadied st dst ready
  intern_first w st k interned dst ready i r = record {
    taken =
        subst (λ f. IsTaken f st.high_water dst ready.free ready.high_water) i.same_free
          (subst (λ g. IsTaken interned.free g dst ready.free ready.high_water) i.same_high
            r.taken);
    same_code = r.same_code ∙ i.same_code;
    same_slots = r.same_slots ∙ i.same_slots;
    kept = λ j u h. r.kept j u (i.kept j u h);
    indexed = r.indexed;
  }

  pub intern_last :
      (w : F) (st ready : Compiler F) (k : ℕ) (interned : Compiler F) (dst : ℕ)
      → IsReadied st dst ready
      → IsInterned ieee w ready k interned
      → IsReadied st dst interned
  intern_last w st ready k interned dst r i = record {
    taken =
        subst (λ f. IsTaken st.free st.high_water dst f interned.high_water) (sym i.same_free)
          (subst (λ g. IsTaken st.free st.high_water dst ready.free g) (sym i.same_high) r.taken);
    same_code = i.same_code ∙ r.same_code;
    same_slots = i.same_slots ∙ r.same_slots;
    kept = λ j u h. i.kept j u (r.kept j u h);
    indexed = i.indexed;
  }
