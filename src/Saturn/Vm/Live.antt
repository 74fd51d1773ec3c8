-- ===== src/Saturn/Vm/Live.antt =====
-- The second pass of src/vm.rs keeps the values still to be used in slots of their own.
use aiiiia.Prelude.{
  ne_test, IsDistinct, ==_iff, ℕ, suc, ◌≤◌, ◌<◌, ◌≡◌, sym, ap, ◌∙◌, subst, ◌≢◌, ◌⊎◌, inl, inr,
  Option, some, List, ◌∷◌, arith, some-inj,
}
use aiiiia.Saturn.Eval.{insert}
use aiiiia.Saturn.Lang.Reach.{IsIn, ℕ-cases}
use aiiiia.Saturn.Vm.Compiler.{dead, recycle}
use aiiiia.Saturn.Vm.Slots.{
  IsTaken, recycle-IsIn, recycle-IsDistinct, dead-last_use, dead-IsDistinct,
}

module _ (last_use : ℕ → Option ℕ) where
  -- Emitted, and not used for the last time before this position.
  abbrev pub IsLive : List ℕ → ℕ → ℕ → Type 0
  IsLive done i c = IsIn c done × ((k : ℕ) → last_use c ≡ some k → i ≤ k)

  -- Live values have slots of their own, which are not free; free slots are distinct.
  pub record IsAssigned (done : List ℕ) (i : ℕ) (slot_of : ℕ → Option ℕ) (free : List ℕ) (high : ℕ)
      : Type 0 where
    pub owned : (c s : ℕ) → slot_of c ≡ some s → IsIn c done
    pub placed : (c s : ℕ) → IsLive done i c → slot_of c ≡ some s → (s < high) × (IsIn s free → ⊥)
    pub single :
        (c d s : ℕ)
        → IsLive done i c
        → IsLive done i d
        → slot_of c ≡ some s
        → slot_of d ≡ some s
        → c ≡ d
    pub distinct : IsDistinct free
    pub small : (s : ℕ) → IsIn s free → s < high

  module _ (done : List ℕ) (i : ℕ) (slot_of : ℕ → Option ℕ) (free left : List ℕ)
      (high dst high_after id : ℕ) (v : IsAssigned done i slot_of free high)
      (t : IsTaken free high dst left high_after) (new : IsIn id done → ⊥) where
    abbrev next_slots : ℕ → Option ℕ
    next_slots = insert id dst slot_of

    next_slots-same : (c s : ℕ) → id ≡ c → next_slots c ≡ some s → dst ≡ s
    next_slots-same c s same h = some-inj (rw ((==_iff id c).1 same) at h)

    next_slots-other : (c s : ℕ) → id ≢ c → next_slots c ≡ some s → slot_of c ≡ some s
    next_slots-other c s apart h = rw (ne_test id c apart) at h

    -- What is live after the step was live before.
    pub IsLive-before : (c : ℕ) → id ≢ c → IsLive (id ∷ done) (suc i) c → IsLive done i c
    IsLive-before c apart (place, later) = (
      elim place [ inl same ↦ absurd (apart (sym same)) | inr k ↦ k ],
      (λ k e. omega (arith, later k e)),
    )

    -- The slot taken holds nothing live.
    pub not_taken : (c s : ℕ) → IsLive done i c → slot_of c ≡ some s → s ≢ dst
    not_taken c s live h same =
        let (below, kept) = v.placed c s live h in
        elim t.source [
          | inl k ↦ kept (subst (λ u. IsIn u free) (sym same) k)
          | inr top ↦ absurd (omega arith)
        ]

    module _ (root : ℕ) (children : List ℕ) where
      abbrev recycled : List ℕ
      recycled = recycle next_slots dst (dead last_use i root children) left

      -- What the step recycles was live, in a slot of its own.
      spent :
          (d s : ℕ)
          → IsIn d (dead last_use i root children)
          → (next_slots d ≡ some s) × (s ≢ dst)
          → (IsLive done i d) × ((slot_of d ≡ some s) × (last_use d ≡ some i))
      spent d s k (h, apart) = elim (ℕ-cases id d) [
        | inl same ↦ absurd (apart (sym (next_slots-same d s same h)))
        | inr other ↦
            let here = next_slots-other d s other h in
            let used = dead-last_use last_use i root children d k in
            ((v.owned d s here, (λ j e. omega (arith, some-inj (sym used ∙ e)))), (here, used))
      ]

      free_after :
          (s : ℕ)
          → IsIn s recycled
          → IsIn s left
            ⊎ ((d : ℕ) × ((IsLive done i d)
                  × ((slot_of d ≡ some s) × ((last_use d ≡ some i) × (s ≢ dst)))))
      free_after s h = elim (recycle-IsIn next_slots dst (dead last_use i root children) left s h) [
        | inl k ↦ inl k
        | inr (d, (k, other)) ↦
            let (live, (here, used)) = spent d s k other in inr (d, (live, (here, (used, other.1))))
      ]

      placed_after :
          (c s : ℕ)
          → IsLive (id ∷ done) (suc i) c
          → next_slots c ≡ some s
          → (s < high_after) × (IsIn s recycled → ⊥)
      placed_after c s live h = elim (ℕ-cases id c) [
        | inl same ↦
            let at = next_slots-same c s same h in
            (
              subst (λ u. u < high_after) at t.below,
              (λ k. elim (free_after s k) [
                | inl l ↦ t.fresh (subst (λ u. IsIn u left) (sym at) l)
                | inr (d, (was, (here, (used, apart)))) ↦ apart (sym at)
              ]),
            )
        | inr other ↦
            let here = next_slots-other c s other h in
            let was = IsLive-before c other live in
            let (below, kept) = v.placed c s was here in
            (
              omega (arith, t.grown),
              (λ k. elim (free_after s k) [
                | inl l ↦ kept (t.subset s l)
                | inr (d, (live_d, (here_d, (used, apart)))) ↦
                    let same = v.single c d s was live_d here here_d in
                    absurd (omega (arith, live.1 i (ap last_use same ∙ used)))
              ]),
            )
      ]

      single_after :
          (c d s : ℕ)
          → IsLive (id ∷ done) (suc i) c
          → IsLive (id ∷ done) (suc i) d
          → next_slots c ≡ some s
          → next_slots d ≡ some s
          → c ≡ d
      single_after c d s lc ld hc hd = elim (ℕ-cases id c) [
        | inl same_c ↦ elim (ℕ-cases id d) [
          | inl same_d ↦ sym same_c ∙ same_d
          | inr other_d ↦ absurd (
              not_taken d s (IsLive-before d other_d ld) (next_slots-other d s other_d hd)
                (sym (next_slots-same c s same_c hc)))
        ]
        | inr other_c ↦ elim (ℕ-cases id d) [
          | inl same_d ↦ absurd (
              not_taken c s (IsLive-before c other_c lc) (next_slots-other c s other_c hc)
                (sym (next_slots-same d s same_d hd)))
          | inr other_d ↦
              v.single c d s (IsLive-before c other_c lc) (IsLive-before d other_d ld)
                (next_slots-other c s other_c hc) (next_slots-other d s other_d hd)
        ]
      ]

      -- The step keeps the assignment.
      pub step-IsAssigned : IsAssigned (id ∷ done) (suc i) next_slots recycled high_after
      step-IsAssigned = record {
        owned = λ c s h. elim (ℕ-cases id c) [
          | inl same ↦ inl (sym same)
          | inr other ↦ inr (v.owned c s (next_slots-other c s other h))
        ];
        placed = placed_after;
        single = single_after;
        distinct =
            recycle-IsDistinct next_slots dst (dead last_use i root children) left
              (dead-IsDistinct last_use i root children) t.distinct
              (λ d s k other l.
                let (live, (here, used)) = spent d s k other in
                (v.placed d s live here).1 (t.subset s l))
              (λ d e s k l o u.
                let (live_d, (here_d, used_d)) = spent d s k o in
                let (live_e, (here_e, used_e)) = spent e s l u in
                v.single d e s live_d live_e here_d here_e);
        small = λ s k. elim (free_after s k) [
          | inl l ↦ omega (arith, t.grown, v.small s (t.subset s l))
          | inr (d, (live, (here, (used, apart)))) ↦
              omega (arith, t.grown, (v.placed d s live here).0)
        ];
      }
