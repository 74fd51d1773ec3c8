-- ===== src/Saturn/Vm/Slots.antt =====
-- The compiler of src/vm.rs: the slots that are free, and those that hold values still to be used.
use aiiiia.Prelude.{
  ne_test, dedup-IsDistinct, All-dedup, ◌==◌, IsDistinct, ==_iff, ℕ, ◌+◌, ◌^◌, ◌≤◌, ◌<◌, ◌≡◌, refl,
  sym, ap, ◌∙◌, subst, ◌≢◌, ◌⊎◌, inl, inr, Bool, true, false, not, ◌&&◌, Option, none, some, List,
  [], ◌∷◌, arith, ltb, if◌then◌else◌, Bool-cases, All, order_by, All-order_by,
}
use aiiiia.Prelude.Results.{ok-inj, if_ok, ok}
use aiiiia.Saturn.Eval.{live_values, program_too_large}
use aiiiia.Saturn.Lang.Reach.{IsIn, ℕ-cases}
use aiiiia.Saturn.Vm.Compiler.{pushed, Compiler, alloc, used_up, dead, recycle}

All-at : (P : ℕ → Type 0) (xs : List ℕ) (c : ℕ) → All P xs → IsIn c xs → P c
All-at P [] c h k = absurd k
All-at P (x ∷ xs) c h k = elim k [
  | inl e ↦ subst P (sym e) h.0
  | inr later ↦ All-at P xs c h.1 later
]

module _ (last_use : ℕ → Option ℕ) (i root : ℕ) where
  spent-All :
      (c : ℕ) (o : Option ℕ) (b : Bool) (rest : List ℕ)
      → last_use c ≡ o
      → All (λ c. last_use c ≡ some i) rest
      → All
          (λ c. last_use c ≡ some i)
          (if (elim o [ none ↦ false | some j ↦ j == i ]) && b then c ∷ rest else rest)
  spent-All c none b rest e h = h
  spent-All c (some j) true rest e h = elim (ℕ-cases j i) [
    | inl same ↦ rw ((==_iff j i).1 same) (e ∙ ap some same, h)
    | inr apart ↦ rw (ne_test j i apart) h
  ]
  spent-All c (some j) false rest e h = elim (Bool-cases (j == i)) [
    | inl same ↦ rw same h
    | inr apart ↦ rw apart h
  ]

  used_up-All :
      (children : List ℕ) → All (λ c. last_use c ≡ some i) (used_up last_use i root children)
  used_up-All [] = tt
  used_up-All (c ∷ children) =
      spent-All c (last_use c) (not (c == root)) (used_up last_use i root children) refl
        (used_up-All children)

  pub dead-last_use :
      (children : List ℕ) (c : ℕ) → IsIn c (dead last_use i root children) → last_use c ≡ some i
  unfolding dead
  dead-last_use children c h =
      All-at (λ c. last_use c ≡ some i) (dead last_use i root children) c
        (All-dedup (λ c. last_use c ≡ some i) (order_by ltb (used_up last_use i root children))
          (All-order_by (λ c. last_use c ≡ some i) ltb (used_up last_use i root children)
            (used_up-All children)))
        h

  pub dead-IsDistinct : (children : List ℕ) → IsDistinct (dead last_use i root children)
  unfolding dead
  dead-IsDistinct children = dedup-IsDistinct (used_up last_use i root children)

module _ (slot_of : ℕ → Option ℕ) (dst : ℕ) where
  -- The slot of a node, which is not the one just written.
  abbrev IsOther : ℕ → ℕ → Type 0
  IsOther d s = (slot_of d ≡ some s) × (s ≢ dst)

  pushed-cases :
      (c : ℕ) (free : List ℕ)
      → (pushed dst (slot_of c) free ≡ free)
        ⊎ ((s : ℕ) × (IsOther c s × (pushed dst (slot_of c) free ≡ s ∷ free)))
  pushed-cases c free = by_slot (slot_of c) refl
    where
      by_slot :
          (o : Option ℕ)
          → slot_of c ≡ o
          → (pushed dst o free ≡ free) ⊎ ((s : ℕ) × (IsOther c s × (pushed dst o free ≡ s ∷ free)))
      by_slot none e = inl refl
      by_slot (some s) e = elim (ℕ-cases s dst) [
        | inl same ↦ inl (rw ((==_iff s dst).1 same) refl)
        | inr apart ↦ inr (s, ((e, apart), rw (ne_test s dst apart) refl))
      ]

  -- A slot that is free afterwards was free, or was that of an id recycled.
  pub recycle-IsIn :
      (ids free : List ℕ) (s : ℕ)
      → IsIn s (recycle slot_of dst ids free)
      → IsIn s free ⊎ ((d : ℕ) × (IsIn d ids × IsOther d s))
  unfolding recycle
  recycle-IsIn [] free s h = inl h
  recycle-IsIn (c ∷ ids) free s h = elim (recycle-IsIn ids (pushed dst (slot_of c) free) s h) [
    | inr (d, (k, other)) ↦ inr (d, (inr k, other))
    | inl k ↦ elim (pushed-cases c free) [
      | inl e ↦ inl (subst (IsIn s) e k)
      | inr (u, (other, e)) ↦ elim (subst (IsIn s) e k) [
        | inl same ↦ inr (c, (inl refl, subst (IsOther c) (sym same) other))
        | inr old ↦ inl old
      ]
    ]
  ]

  pub recycle-IsDistinct :
      (ids free : List ℕ)
      → IsDistinct ids
      → IsDistinct free
      → ((d s : ℕ) → IsIn d ids → IsOther d s → IsIn s free → ⊥)
      → ((d e s : ℕ) → IsIn d ids → IsIn e ids → IsOther d s → IsOther e s → d ≡ e)
      → IsDistinct (recycle slot_of dst ids free)
  unfolding recycle
  recycle-IsDistinct [] free ids_ok free_ok taken single = free_ok
  recycle-IsDistinct (c ∷ ids) free ids_ok free_ok taken single =
      let single_later : (d e s : ℕ) → IsIn d ids → IsIn e ids → IsOther d s → IsOther e s → d ≡ e =
        λ d e s k l. single d e s (inr k) (inr l) in
      elim (pushed-cases c free) [
        | inl e ↦
            subst (λ f. IsDistinct (recycle slot_of dst ids f)) (sym e)
              (recycle-IsDistinct ids free ids_ok.1 free_ok (λ d s k. taken d s (inr k))
                single_later)
        | inr (u, (other, e)) ↦
            subst (λ f. IsDistinct (recycle slot_of dst ids f)) (sym e)
              (recycle-IsDistinct ids (u ∷ free) ids_ok.1 (taken c u (inl refl) other, free_ok)
                (λ d s k o l. elim l [
                  | inl same ↦ ids_ok.0 (
                      subst (λ a. IsIn a ids)
                        (single d c u (inr k) (inl refl) (subst (IsOther d) same o) other) k)
                  | inr old ↦ taken d s (inr k) o old
                ])
                single_later)
      ]

-- What an allocation does to the free slots and the number of slots.
pub record IsTaken (free : List ℕ) (high dst : ℕ) (left : List ℕ) (high_after : ℕ) : Type 0 where
  pub below : dst < high_after
  pub grown : high ≤ high_after
  pub subset : (s : ℕ) → IsIn s left → IsIn s free
  pub fresh : IsIn dst left → ⊥
  pub source : IsIn dst free ⊎ (dst ≡ high)
  pub distinct : IsDistinct left

module _ {F : Type 0} where
  pub record IsAllocated (st : Compiler F) (dst : ℕ) (after : Compiler F) : Type 0 where
    pub taken : IsTaken st.free st.high_water dst after.free after.high_water
    pub same_code : after.code ≡ st.code
    pub same_slots : after.slot_of ≡ st.slot_of
    pub same_consts : after.consts ≡ st.consts
    pub same_index : after.const_index ≡ st.const_index

  pub alloc-IsAllocated :
      (st : Compiler F) (dst : ℕ) (after : Compiler F)
      → IsDistinct st.free
      → ((s : ℕ) → IsIn s st.free → s < st.high_water)
      → alloc st ≡ ok (dst, after)
      → IsAllocated st dst after
  unfolding alloc
  alloc-IsAllocated st dst after distinct small h = by_free st.free refl
    where
      by_free : (free : List ℕ) → st.free ≡ free → IsAllocated st dst after
      by_free [] e =
          let (room, done) =
            if_ok (ltb st.high_water (2 ^ 16)) (program_too_large live_values)
              (ok (st.high_water, record st { high_water = st.high_water + 1 }))
              (rw (alloc, e) at h) in
          subst (λ (out : ℕ × Compiler F). IsAllocated st out.0 out.1) (ok-inj done)
            record {
              taken = record {
                below = omega arith;
                grown = omega arith;
                subset = λ s k. k;
                fresh = λ k. subst (IsIn st.high_water) e k;
                source = inr refl;
                distinct = distinct;
              };
              same_code = refl;
              same_slots = refl;
              same_consts = refl;
              same_index = refl;
            }
      by_free (s ∷ rest) e =
          let kept = subst IsDistinct e distinct in
          subst (λ (out : ℕ × Compiler F). IsAllocated st out.0 out.1) (ok-inj (rw (alloc, e) at h))
            record {
              taken = record {
                below = small s (subst (IsIn s) (sym e) (inl refl));
                grown = omega arith;
                subset = λ u k. subst (IsIn u) (sym e) (inr k);
                fresh = kept.0;
                source = inl (subst (IsIn s) (sym e) (inl refl));
                distinct = kept.1;
              };
              same_code = refl;
              same_slots = refl;
              same_consts = refl;
              same_index = refl;
            }
