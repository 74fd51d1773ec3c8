-- ===== src/Saturn/Vm/Uses.antt =====
-- The compiler of src/vm.rs: the position at which each id is used last.
use aiiiia.Saturn.Eval.{insert}
use aiiiia.Saturn.Lang.Node.{ENode}
use aiiiia.Saturn.Lang.Reach.{IsIn, ℕ-cases}
use aiiiia.Saturn.Vm.Compiler.{children_of, use_at, last_uses}
use aiiiia.Saturn.Vm.Needed.{is_in_iff}
use aiiiia.Prelude.{
  ne_test, refl, refl, ==_iff, ℕ, suc, ◌≡◌, sym, ap, subst, ◌⊎◌, inl, inr, Option, none, some, List,
  [], ◌∷◌, arith, if◌then◌else◌, Bool-cases, is_some, is_in, ◌≤◌,
}

-- It is used at that position, or later.
abbrev pub IsUsedFrom : ℕ → (ℕ → Option ℕ) → ℕ → Type 0
IsUsedFrom i last_use c = (k : ℕ) × ((last_use c ≡ some k) × (i ≤ k))

insert-IsUsedFrom :
    (low i x : ℕ) (last_use : ℕ → Option ℕ) (c : ℕ)
    → low ≤ i
    → (x ≡ c) ⊎ IsUsedFrom low last_use c
    → IsUsedFrom low (insert x i last_use) c
insert-IsUsedFrom low i x last_use c le h = elim (ℕ-cases x c) [
  | inl e ↦ (i, (rw ((==_iff x c).1 e) refl, le))
  | inr apart ↦ elim h [
    | inl e ↦ absurd (apart e)
    | inr (k, (e, more)) ↦ (k, (rw (ne_test x c apart) e, more))
  ]
]

use_at-keeps :
    (low i : ℕ) (here children : List ℕ) (last_use : ℕ → Option ℕ) (c : ℕ)
    → low ≤ i
    → IsUsedFrom low last_use c
    → IsUsedFrom low (use_at i here children last_use) c
use_at-keeps low i here [] last_use c le h = h
use_at-keeps low i here (x ∷ children) last_use c le h = elim (Bool-cases (is_in x here)) [
  | inl e ↦ rw e (
      use_at-keeps low i here children (insert x i last_use) c le
        (insert-IsUsedFrom low i x last_use c le (inr h)))
  | inr e ↦ rw e (use_at-keeps low i here children last_use c le h)
]

use_at-uses :
    (i : ℕ) (here children : List ℕ) (last_use : ℕ → Option ℕ) (c : ℕ)
    → IsIn c here
    → IsIn c children
    → IsUsedFrom i (use_at i here children last_use) c
use_at-uses i here [] last_use c h k = absurd k
use_at-uses i here (x ∷ children) last_use c h k = elim k [
  | inl e ↦
      let there = (is_in_iff x here).1 (subst (λ a. IsIn a here) e h) in
      rw there (
        use_at-keeps i i here children (insert x i last_use) c (omega arith)
          (insert-IsUsedFrom i i x last_use c (omega arith) (inl (sym e))))
  | inr later ↦
      use_at-uses i here children (if is_in x here then insert x i last_use else last_use) c h later
]

module _ {F : Type 0} (nodes : List (ENode F)) (known : ℕ → Option F) (here : List ℕ) where
  last_uses-keeps :
      (low i : ℕ) (ids : List ℕ) (last_use : ℕ → Option ℕ) (c : ℕ)
      → low ≤ i
      → IsUsedFrom low last_use c
      → IsUsedFrom low (last_uses nodes known here i ids last_use) c
  unfolding last_uses
  last_uses-keeps low i [] last_use c le h = h
  last_uses-keeps low i (id ∷ ids) last_use c le h = elim (Bool-cases (is_some (known id))) [
    | inl e ↦ rw e (last_uses-keeps low (suc i) ids last_use c (omega arith) h)
    | inr e ↦ rw e (
        last_uses-keeps low (suc i) ids (use_at i here (children_of nodes id) last_use) c
          (omega arith) (use_at-keeps low i here (children_of nodes id) last_use c le h))
  ]

  -- What is not folded uses its children at its own position, or they are used again later.
  abbrev pub IsTimed : (ℕ → Option ℕ) → ℕ → List ℕ → Type 0
  IsTimed last_use i [] = Unit
  IsTimed last_use i (x ∷ rest) =
      ((known x ≡ none)
        → (c : ℕ) → IsIn c here
        → IsIn c (children_of nodes x)
        → IsUsedFrom i last_use c)
      × IsTimed last_use (suc i) rest

  pub last_uses-IsTimed :
      (i : ℕ) (ids : List ℕ) (last_use : ℕ → Option ℕ)
      → IsTimed (last_uses nodes known here i ids last_use) i ids
  unfolding last_uses
  last_uses-IsTimed i [] last_use = tt
  last_uses-IsTimed i (id ∷ ids) last_use = (
    (λ free c h k. rw (ap is_some free) (
        last_uses-keeps i (suc i) ids (use_at i here (children_of nodes id) last_use) c
          (omega arith) (use_at-uses i here (children_of nodes id) last_use c h k))),
    last_uses-IsTimed (suc i) ids
        (if is_some (known id) then last_use else use_at i here (children_of nodes id) last_use),
  )
