-- ===== src/Saturn/UnionFind/Sets.antt =====
-- `set_count` counts the sets, and `union` joins at most two of them.
use native.Mathlib.Nat.{zero-add}
use aiiiia.Prelude.{
  ℕ, zero, suc, ◌+◌, ◌<◌, ◌≡◌, ◌≢◌, ◌↔◌, refl, sym, ap, ◌∙◌, inl, inr, ◌⊎◌, some, List, [], ◌∷◌,
  arith, length, get_elem?, set, get_elem?-set_ne, length-set, some-inj, ℕ_discrete,
}
use aiiiia.Saturn.UnionFind.{UnionFind, find_immutable, union, count_roots, set_count}
use aiiiia.Saturn.UnionFind.Roots.{root, RootOf-root}
use aiiiia.Saturn.UnionFind.Find.{
  get_elem?-set_cases, IsValid, find_immutable-of_RootOf, RootOf-of_find_immutable,
}
use aiiiia.Saturn.UnionFind.Union.{Joins, union-Joins, redirect_root_inv}
use aiiiia.Saturn.UnionFind.Link.{redirect_root_self, redirect_root}

-- The roots are counted alike in two lists with the same roots.
count_roots_ext :
    (i : ℕ) (ps qs : List ℕ)
    → length ps ≡ length qs
    → ((k : ℕ) → get_elem? ps k ≡ some (i + k) → get_elem? qs k ≡ some (i + k))
    → ((k : ℕ) → get_elem? qs k ≡ some (i + k) → get_elem? ps k ≡ some (i + k))
    → count_roots i ps ≡ count_roots i qs
unfolding count_roots
count_roots_ext i [] [] e there back = refl
count_roots_ext i [] (q ∷ qs) e there back = absurd (omega arith)
count_roots_ext i (p ∷ ps) [] e there back = absurd (omega arith)
count_roots_ext i (p ∷ ps) (q ∷ qs) e there back =
    let rest =
      count_roots_ext (i + 1) ps qs (omega arith)
        (λ k h. rw (shift i k) (there (suc k) (rw (← shift i k) h)))
        (λ k h. rw (shift i k) (back (suc k) (rw (← shift i k) h))) in
    elim (ℕ_discrete p i) [
      | yes p_is ↦
          let at_p : p ≡ i + 0 = omega arith in
          let q_is : q ≡ i + 0 = some-inj (there 0 (ap some at_p)) in ground (arith, rest)
      | no n ↦
          let q_not : q ≢ i = λ q_is.
            (let at_q : q ≡ i + 0 = omega arith in
              let p_is : p ≡ i + 0 = some-inj (back 0 (ap some at_q)) in n (omega arith)) in
          ground (arith, rest)
    ]
  where
    shift : (i k : ℕ) → i + 1 + k ≡ i + suc k
    shift i k = omega arith

-- Pointing one root elsewhere leaves one root less.
count_roots-set :
    (i : ℕ) (ps : List ℕ) (k v : ℕ)
    → get_elem? ps k ≡ some (i + k)
    → v ≢ i + k
    → suc (count_roots i (set ps k v)) ≡ count_roots i ps
unfolding count_roots
count_roots-set i [] k v h n = cc
count_roots-set i (p ∷ ps) zero v h n = let e : p ≡ i = omega (arith, some-inj h) in ground arith
count_roots-set i (p ∷ ps) (suc k) v h n =
    let shift : i + 1 + k ≡ i + suc k = omega arith in
    omega (arith, count_roots-set (i + 1) ps k v (rw shift h) (rw shift n))

module _ (u : UnionFind) (v : IsValid u) where
  pub is_root_iff : (x : ℕ) → (get_elem? u.parents x ≡ some x) ↔ (find_immutable u x ≡ some x)
  is_root_iff x = (
    (λ h. find_immutable-of_RootOf u v x x (root refl h)),
    (λ h. RootOf-root u.parents (RootOf-of_find_immutable u v x x h)),
  )

-- Two valid states over the same ids with the same ids as their own roots count as many sets.
set_count_ext :
    (u w : UnionFind)
    → length u.parents ≡ length w.parents
    → ((x : ℕ) → (get_elem? u.parents x ≡ some x) ↔ (get_elem? w.parents x ≡ some x))
    → set_count u ≡ set_count w
unfolding set_count
set_count_ext u w len same =
    count_roots_ext 0 u.parents w.parents len (λ k h. rw zero-add ((same k).0 (rw zero-add at h)))
      (λ k h. rw zero-add ((same k).1 (rw zero-add at h)))

-- `find` does not change the number of sets, and `union` lowers it by one exactly when it joins two.
module _ (u w : UnionFind) (a b kept gone : ℕ) (v : IsValid u) (j : Joins u a b w kept gone) where
  union_equal_count : kept ≡ gone → set_count w ≡ set_count u
  union_equal_count e = set_count_ext w u j.same_ids (λ x. (
    (λ h. (is_root_iff u v x).1 (same x ∙ (is_root_iff w j.is_valid x).0 h)),
    (λ h. (is_root_iff w j.is_valid x).1 (sym (same x) ∙ (is_root_iff u v x).0 h)),
  ))
    where
      same : (x : ℕ) → find_immutable u x ≡ find_immutable w x
      same x = sym (j.joined x ∙ rw e (sym (redirect_root_self gone (find_immutable u x))))

  gone_root : get_elem? u.parents gone ≡ some gone
  gone_root = elim j.picked [
    | inl (p, q) ↦ RootOf-root u.parents (RootOf-of_find_immutable u v b gone q)
    | inr (p, q) ↦ RootOf-root u.parents (RootOf-of_find_immutable u v a gone p)
  ]

  kept_root : get_elem? u.parents kept ≡ some kept
  kept_root = elim j.picked [
    | inl (p, q) ↦ RootOf-root u.parents (RootOf-of_find_immutable u v a kept p)
    | inr (p, q) ↦ RootOf-root u.parents (RootOf-of_find_immutable u v b kept q)
  ]

  -- A root of the new state is a root of the old one, other than the absorbed one.
  root-of_joined :
      (x : ℕ)
      → kept ≢ gone
      → get_elem? w.parents x ≡ some x
      → get_elem? (set u.parents gone kept) x ≡ some x
  root-of_joined x ne h =
      let f = sym (j.joined x) ∙ (is_root_iff w j.is_valid x).0 h in
      elim (redirect_root_inv gone kept x (find_immutable u x) f) [
        | inl (_, is_kept) ↦
            rw is_kept (get_elem?-set_ne u.parents kept (λ e. ne (sym e)) ∙ kept_root)
        | inr found ↦
            let other : gone ≢ x = λ e.
              (let moved : redirect_root gone kept (find_immutable u x) ≡ some kept =
                  rw found (ground arith) in
                ne (some-inj (sym moved ∙ f) ∙ sym e)) in
            get_elem?-set_ne u.parents kept other ∙ (is_root_iff u v x).1 found
      ]

  joined-of_root :
      (x : ℕ)
      → kept ≢ gone
      → get_elem? (set u.parents gone kept) x ≡ some x
      → get_elem? w.parents x ≡ some x
  joined-of_root x ne h = elim (get_elem?-set_cases u.parents gone kept x x h) [
    | inl (p, q) ↦ absurd (ne (q ∙ sym p))
    | inr (other, top) ↦
        (is_root_iff w j.is_valid x).1 (j.joined x ∙ rw ((is_root_iff u v x).0 top) (ground arith))
  ]

  union_distinct_count : kept ≢ gone → suc (set_count w) ≡ set_count u
  unfolding set_count
  union_distinct_count ne =
      let at_gone : get_elem? u.parents gone ≡ some (0 + gone) = rw zero-add gone_root in
      let less = count_roots-set 0 u.parents gone kept at_gone (rw zero-add ne) in
      ap suc (
        set_count_ext w (record u { parents = set u.parents gone kept })
          (j.same_ids ∙ sym (length-set u.parents gone kept))
          (λ x. (root-of_joined x ne, joined-of_root x ne)))
      ∙ less

-- `union` in a valid state lowers the number of sets by one where its arguments were in two sets, and
-- leaves it where they were in one.
pub set_count-union :
    (u w : UnionFind) (a b kept gone : ℕ)
    → IsValid u
    → a < length u.parents
    → b < length u.parents
    → union u a b ≡ some (w, kept, gone)
    → ((find_immutable u a ≢ find_immutable u b) × (suc (set_count w) ≡ set_count u))
      ⊎ ((find_immutable u a ≡ find_immutable u b) × (set_count w ≡ set_count u))
set_count-union u w a b kept gone v la lb h =
    let j = union-Joins u w a b kept gone v la lb h in
    elim (ℕ_discrete kept gone) [
      | yes same ↦ inr (equal_of_picked j same, union_equal_count u w a b kept gone v j same)
      | no ne ↦ inl (distinct_of_picked j ne, union_distinct_count u w a b kept gone v j ne)
    ]
  where
    equal_of_picked :
        Joins u a b w kept gone → kept ≡ gone → find_immutable u a ≡ find_immutable u b
    equal_of_picked j same = elim j.picked [ inl (p, q) ↦ cc | inr (p, q) ↦ cc ]

    distinct_of_picked :
        Joins u a b w kept gone → kept ≢ gone → find_immutable u a ≢ find_immutable u b
    distinct_of_picked j ne same = elim j.picked [
      | inl (p, q) ↦ ne (some-inj (sym p ∙ same ∙ q))
      | inr (p, q) ↦ ne (some-inj (sym q ∙ sym same ∙ p))
    ]
