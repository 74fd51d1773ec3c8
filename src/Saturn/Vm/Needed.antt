-- ===== src/Saturn/Vm/Needed.antt =====
-- The compiler of src/vm.rs: which nodes are emitted, in which order, and where each is used last.

use aiiiia.Saturn.Lang.Expr.{push_all}
use aiiiia.Saturn.Lang.Node.{ENode}
use aiiiia.Saturn.Lang.Reach.{IsIn-push_all_right, All-IsIn-push_all, IsIn, ℕ-cases}
use aiiiia.Saturn.Lang.Topo.{last, IsTopo}
use aiiiia.Saturn.UnionFind.{new}
use aiiiia.Saturn.Vm.Compiler.{children_of, needed, emitted}
use aiiiia.Prelude.{
  ne_test, sym, Bool, ◌==◌, ==_iff, ℕ, ◌≡◌, refl, ap, subst, ◌↔◌, inl, inr, true, false, not, ◌||◌,
  Option, none, some, List, [], ◌∷◌, if◌then◌else◌, Bool-cases, is_some, get_elem?, All, All-mono,
  All-both, is_in,
}

pub is_in_iff : (c : ℕ) (ids : List ℕ) → (is_in c ids ≡ true) ↔ IsIn c ids
is_in_iff c [] = ((λ h. cc), (λ h. absurd h))
is_in_iff c (x ∷ ids) = (
  (λ h. elim (ℕ-cases c x) [
    | inl e ↦ inl e
    | inr apart ↦ inr ((is_in_iff c ids).0 (rw (ne_test c x apart) at h))
  ]),
  (λ h. elim h [
    | inl e ↦ rw ((==_iff c x).1 e) refl
    | inr k ↦ elim (Bool-cases (c == x)) [
      | inl e ↦ rw e refl
      | inr e ↦ rw e ((is_in_iff c ids).1 k)
    ]
  ]),
)

or_true : (a b : Bool) → b ≡ true → (a || b) ≡ true
or_true true b h = refl
or_true false b h = h

pub children_of_lem :
    {F : Type 0} (nodes : List (ENode F)) (id : ℕ) (n : ENode F)
    → get_elem? nodes id ≡ some n
    → children_of nodes id ≡ n.children
children_of_lem nodes id n h = rw (children_of, h) refl

module _ {F : Type 0} (nodes : List (ENode F)) (known : ℕ → Option F) where
  -- Each id is a node's and is new; unless it has folded its children come before it.
  abbrev pub IsReady : List ℕ → List ℕ → Type 0
  IsReady done [] = Unit
  IsReady done (x ∷ rest) =
      (n : ENode F) × ((get_elem? nodes x ≡ some n)
        × ((known x ≡ none → All (λ c. IsIn c done) n.children)
            × ((IsIn x done → ⊥) × IsReady (x ∷ done) rest)))

  needed-keeps : (c : ℕ) (ids acc : List ℕ) → IsIn c acc → IsIn c (needed nodes known ids acc)
  unfolding needed
  needed-keeps c [] acc h = h
  needed-keeps c (id ∷ ids) acc h = elim (Bool-cases (is_some (known id))) [
    | inl e ↦ rw e (needed-keeps c ids acc h)
    | inr e ↦ rw e (
        needed-keeps c ids (push_all (children_of nodes id) acc)
          (IsIn-push_all_right c (children_of nodes id) acc h))
  ]

  abbrev IsCovered : List ℕ → ℕ → Type 0
  IsCovered used x =
      (n : ENode F)
      → get_elem? nodes x ≡ some n
      → known x ≡ none
      → All (λ c. IsIn c used) n.children

  needed-IsCovered : (ids acc : List ℕ) → All (IsCovered (needed nodes known ids acc)) ids
  unfolding needed
  needed-IsCovered [] acc = tt
  needed-IsCovered (id ∷ ids) acc = (
    (λ n there free. rw (ap is_some free) (
        subst
          (λ children.
            All (λ c. IsIn c (needed nodes known ids (push_all (children_of nodes id) acc)))
              children)
          (children_of_lem nodes id n there)
          (All-mono (λ c. IsIn c (push_all (children_of nodes id) acc))
            (λ c. IsIn c (needed nodes known ids (push_all (children_of nodes id) acc)))
            (children_of nodes id)
            (λ c k. needed-keeps c ids (push_all (children_of nodes id) acc) k)
            (All-IsIn-push_all (children_of nodes id) acc)))),
    needed-IsCovered ids (if is_some (known id) then acc else push_all (children_of nodes id) acc),
  )

  -- The ids emitted are in an order of evaluation.
  emitted-IsReady_from :
      (used order before done : List ℕ)
      → IsTopo nodes before order
      → All (IsCovered used) order
      → ((c : ℕ) → IsIn c before → IsIn c used → IsIn c done)
      → ((c : ℕ) → IsIn c done → IsIn c before)
      → IsReady done (emitted known used order)
  unfolding emitted
  emitted-IsReady_from used [] before done topo covered whole old = tt
  emitted-IsReady_from used (x ∷ rest) before done topo covered whole old =
      let (n, (there, (ready, (new, later)))) = topo in
      elim (Bool-cases (not (is_some (known x)) || is_in x used)) [
        | inl e ↦ rw e (
          n,
          (
            there,
            (
              (λ free.
                  All-both (λ c. IsIn c before) (λ c. IsIn c used) (λ c. IsIn c done) n.children
                    whole ready (covered.0 n there free)),
              (
                (λ k. new (old x k)),
                emitted-IsReady_from used rest (x ∷ before) (x ∷ done) later covered.1
                    (λ c h k. elim h [ inl e ↦ inl e | inr b ↦ inr (whole c b k) ])
                    (λ c h. elim h [ inl e ↦ inl e | inr b ↦ inr (old c b) ]),
              ),
            ),
          ),
        )
        | inr e ↦ rw e (
            emitted-IsReady_from used rest (x ∷ before) done later covered.1
              (λ c h k. elim h [
                | inl same ↦ absurd (not_used x (known x) (subst (λ i. IsIn i used) same k) e)
                | inr b ↦ whole c b k
              ])
              (λ c h. inr (old c h)))
      ]
    where
      not_used :
          (x : ℕ) (o : Option F) → IsIn x used → (not (is_some o) || is_in x used) ≡ false → ⊥
      not_used x none k e = cc
      not_used x (some v) k e = cc (e, (is_in_iff x used).1 k)

  pub emitted-IsReady :
      (order acc : List ℕ)
      → IsTopo nodes [] order
      → IsReady [] (emitted known (needed nodes known order acc) order)
  emitted-IsReady order acc topo =
      emitted-IsReady_from (needed nodes known order acc) order [] [] topo
        (needed-IsCovered order acc) (λ c h k. absurd h) (λ c h. h)

  last-emitted_from :
      (start : ℕ) (used order : List ℕ)
      → IsIn start used
      → ((d : ℕ) → last d order ≡ start)
      → (d : ℕ) → last d (emitted known used order) ≡ start
  unfolding emitted
  last-emitted_from start used [] h ends d = ends d
  last-emitted_from start used (x ∷ []) h ends d =
      let here = subst (λ i. is_in i used ≡ true) (sym (ends d)) ((is_in_iff start used).1 h) in
      rw (or_true (not (is_some (known x))) (is_in x used) here) (ends d)
  last-emitted_from start used (x ∷ y ∷ rest) h ends d =
      elim (Bool-cases (not (is_some (known x)) || is_in x used)) [
        | inl e ↦ rw e (last-emitted_from start used (y ∷ rest) h ends x)
        | inr e ↦ rw e (last-emitted_from start used (y ∷ rest) h ends d)
      ]

  -- A start that is needed stays the last.
  pub last-emitted :
      (start : ℕ) (order acc : List ℕ)
      → IsIn start acc
      → ((d : ℕ) → last d order ≡ start)
      → (d : ℕ) → last d (emitted known (needed nodes known order acc) order) ≡ start
  last-emitted start order acc h ends d =
      last-emitted_from start (needed nodes known order acc) order (needed-keeps start order acc h)
        ends d

  pub All-emitted :
      (P : ℕ → Type 0) (used order : List ℕ) → All P order → All P (emitted known used order)
  unfolding emitted
  All-emitted P used [] h = tt
  All-emitted P used (x ∷ order) h = elim (Bool-cases (not (is_some (known x)) || is_in x used)) [
    | inl e ↦ rw e (h.0, All-emitted P used order h.1)
    | inr e ↦ rw e (All-emitted P used order h.1)
  ]
