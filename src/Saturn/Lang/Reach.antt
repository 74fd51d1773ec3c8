-- ===== src/Saturn/Lang/Reach.antt =====
-- `reachable` of src/lang.rs: its loop ends, and marks a set that holds the start and is closed under
-- children.
use aiiiia.Saturn.Lang.Expr.{marked_ids, reachable, push_all, mark, edges}
use aiiiia.Saturn.Lang.Node.{ENode}
use aiiiia.Prelude.{
  sym, subst, ◌≢◌, ℕ_discrete, Bool-cases, length-set, get_elem?-set_self, get_elem?-set_ne,
  length-replicate, get_elem?-lt, get_elem?_total, some-inj, All-mono, zero, suc, ◌+◌, ◌≤◌, ◌<◌,
  ◌≡◌, refl, ap, ◌∙◌, inl, inr, Bool, true, false, some, List, [], ◌∷◌, arith, if◌then◌else◌,
  length, get_elem?, set, replicate, All, Any, ℕ, ◌⊎◌,
}

abbrev pub IsIn : ℕ → List ℕ → Type 0
IsIn i ids = Any (λ x. i ≡ x) ids

All-push_all :
    (P : ℕ → Type 0) (children stack : List ℕ)
    → All P children
    → All P stack
    → All P (push_all children stack)
All-push_all P [] stack h k = k
All-push_all P (c ∷ children) stack h k = All-push_all P children (c ∷ stack) h.1 (h.0, k)

pub IsIn-push_all_right :
    (i : ℕ) (children stack : List ℕ) → IsIn i stack → IsIn i (push_all children stack)
IsIn-push_all_right i [] stack h = h
IsIn-push_all_right i (c ∷ children) stack h = IsIn-push_all_right i children (c ∷ stack) (inr h)

pub All-IsIn-push_all :
    (children stack : List ℕ) → All (λ c. IsIn c (push_all children stack)) children
All-IsIn-push_all [] stack = tt
All-IsIn-push_all (c ∷ children) stack =
    (IsIn-push_all_right c children (c ∷ stack) (inl refl), All-IsIn-push_all children (c ∷ stack))

length-push_all :
    (children stack : List ℕ) → length (push_all children stack) ≡ length children + length stack
length-push_all [] stack = omega arith
length-push_all (c ∷ children) stack = omega (arith, length-push_all children (c ∷ stack))

pub ℕ-cases : (a b : ℕ) → (a ≡ b) ⊎ (a ≢ b)
ℕ-cases a b = elim (ℕ_discrete a b) [ yes e ↦ inl e | no apart ↦ inr apart ]

none_marked : (i n : ℕ) → get_elem? (replicate n false) i ≡ some true → ⊥
none_marked i zero h = cc
none_marked zero (suc n) h = cc
none_marked (suc i) (suc n) h = none_marked i n h

mark_done :
    {F : Type 0} (fuel : ℕ) (nodes : List (ENode F)) (seen : List Bool)
    → mark fuel nodes [] seen ≡ some seen
unfolding mark
mark_done zero nodes seen = refl
mark_done (suc fuel) nodes seen = refl

module _ {F : Type 0} where
  -- The children of the nodes that are not marked yet.
  abbrev unseen_edges : List (ENode F) → List Bool → ℕ
  unseen_edges [] seen = 0
  unseen_edges (node ∷ nodes) [] = 0
  unseen_edges (node ∷ nodes) (b ∷ seen) =
      (if b then 0 else length node.children) + unseen_edges nodes seen

  unseen_edges-set :
      (nodes : List (ENode F)) (seen : List Bool) (x : ℕ) (node : ENode F)
      → get_elem? nodes x ≡ some node
      → get_elem? seen x ≡ some false
      → unseen_edges nodes (set seen x true) + length node.children ≡ unseen_edges nodes seen
  unseen_edges-set [] seen x node h k = cc
  unseen_edges-set (n ∷ nodes) [] x node h k = cc
  unseen_edges-set (n ∷ nodes) (b ∷ seen) zero node h k = ground (arith, some-inj h, some-inj k)
  unseen_edges-set (n ∷ nodes) (b ∷ seen) (suc x) node h k =
      omega (arith, unseen_edges-set nodes seen x node h k)

  unseen_edges-replicate :
      (nodes : List (ENode F)) → unseen_edges nodes (replicate (length nodes) false) ≡ edges nodes
  unseen_edges-replicate [] = refl
  unseen_edges-replicate (n ∷ nodes) = omega (arith, unseen_edges-replicate nodes)

  module _ (nodes : List (ENode F)) (start : ℕ) (P : ℕ → Type 0) where
    -- The ids on the stack and the marked ones satisfy P, and what a marked node needs is marked or on
    -- the stack.
    record IsMarking (stack : List ℕ) (seen : List Bool) : Type 0 where
      sized : length seen ≡ length nodes
      pending : All P stack
      marked : (i : ℕ) → get_elem? seen i ≡ some true → P i
      closure :
          (i : ℕ) (n : ENode F)
          → get_elem? seen i ≡ some true
          → get_elem? nodes i ≡ some n
          → All (λ c. (get_elem? seen c ≡ some true) ⊎ IsIn c stack) n.children
      started : (get_elem? seen start ≡ some true) ⊎ IsIn start stack

    -- What the loop leaves.
    pub record IsMarked (seen : List Bool) : Type 0 where
      pub sized : length seen ≡ length nodes
      pub sound : (i : ℕ) → get_elem? seen i ≡ some true → P i
      pub closed :
          (i : ℕ) (n : ENode F)
          → get_elem? seen i ≡ some true
          → get_elem? nodes i ≡ some n
          → All (λ c. get_elem? seen c ≡ some true) n.children
      pub has_start : get_elem? seen start ≡ some true

    module _ (inside : (i : ℕ) → P i → i < length nodes)
        (below : (i : ℕ) (n : ENode F) → P i → get_elem? nodes i ≡ some n → All P n.children) where
      skip-IsMarking :
          (x : ℕ) (rest : List ℕ) (seen : List Bool)
          → get_elem? seen x ≡ some true
          → IsMarking (x ∷ rest) seen
          → IsMarking rest seen
      skip-IsMarking x rest seen known v = record {
        sized = v.sized;
        pending = v.pending.1;
        marked = v.marked;
        closure = λ i n h k.
            All-mono (λ c. (get_elem? seen c ≡ some true) ⊎ IsIn c (x ∷ rest))
              (λ c. (get_elem? seen c ≡ some true) ⊎ IsIn c rest) n.children
              (λ c where_it_is. popped c where_it_is) (v.closure i n h k);
        started = popped start v.started;
      }
        where
          popped :
              (c : ℕ)
              → (get_elem? seen c ≡ some true) ⊎ IsIn c (x ∷ rest)
              → (get_elem? seen c ≡ some true) ⊎ IsIn c rest
          popped c (inl h) = inl h
          popped c (inr (inl e)) = inl (ap (get_elem? seen) e ∙ known)
          popped c (inr (inr h)) = inr h

      visit-IsMarking :
          (x : ℕ) (rest : List ℕ) (seen : List Bool) (node : ENode F)
          → get_elem? seen x ≡ some false
          → get_elem? nodes x ≡ some node
          → IsMarking (x ∷ rest) seen
          → IsMarking (push_all node.children rest) (set seen x true)
      visit-IsMarking x rest seen node unknown there v = record {
        sized = length-set seen x true ∙ v.sized;
        pending = All-push_all P node.children rest (below x node v.pending.0 there) v.pending.1;
        marked = λ i h. elim (ℕ-cases x i) [
          | inl e ↦ subst P e v.pending.0
          | inr apart ↦ v.marked i (sym (get_elem?-set_ne seen true apart) ∙ h)
        ];
        closure = λ i n h k. elim (ℕ-cases x i) [
          | inl e ↦
              let same : node ≡ n = some-inj (sym there ∙ ap (get_elem? nodes) e ∙ k) in
              subst
                (λ m.
                  All
                    (λ c.
                      (get_elem? (set seen x true) c ≡ some true)
                      ⊎ IsIn c (push_all node.children rest))
                    m.children)
                same
                (All-mono (λ c. IsIn c (push_all node.children rest))
                  (λ c.
                    (get_elem? (set seen x true) c ≡ some true)
                    ⊎ IsIn c (push_all node.children rest))
                  node.children (λ c h. inr h) (All-IsIn-push_all node.children rest))
          | inr apart ↦
              All-mono (λ c. (get_elem? seen c ≡ some true) ⊎ IsIn c (x ∷ rest))
                (λ c.
                  (get_elem? (set seen x true) c ≡ some true)
                  ⊎ IsIn c (push_all node.children rest))
                n.children later (v.closure i n (sym (get_elem?-set_ne seen true apart) ∙ h) k)
        ];
        started = later start v.started;
      }
        where
          later :
              (c : ℕ)
              → (get_elem? seen c ≡ some true) ⊎ IsIn c (x ∷ rest)
              → (get_elem? (set seen x true) c ≡ some true) ⊎ IsIn c (push_all node.children rest)
          later c h = elim (ℕ-cases x c) [
            | inl e ↦ inl (
                subst (λ j. get_elem? (set seen x true) j ≡ some true) e
                  (get_elem?-set_self seen x true (get_elem?-lt seen x unknown)))
            | inr apart ↦ elim h [
              | inl k ↦ inl (get_elem?-set_ne seen true apart ∙ k)
              | inr place ↦ elim place [
                | inl e ↦ absurd (apart (sym e))
                | inr k ↦ inr (IsIn-push_all_right c node.children rest k)
              ]
            ]
          ]

      ended : (seen : List Bool) → IsMarking [] seen → IsMarked seen
      ended seen v = record {
        sized = v.sized;
        sound = v.marked;
        closed = λ i n h k.
            All-mono (λ c. (get_elem? seen c ≡ some true) ⊎ IsIn c [])
              (λ c. get_elem? seen c ≡ some true) n.children
              (λ c where_it_is. settled c where_it_is) (v.closure i n h k);
        has_start = settled start v.started;
      }
        where
          settled :
              (c : ℕ) → (get_elem? seen c ≡ some true) ⊎ IsIn c [] → get_elem? seen c ≡ some true
          settled c (inl h) = h
          settled c (inr h) = absurd h

      -- Enough fuel for the stack and what may still be pushed.
      mark-IsMarked :
          (fuel : ℕ) (stack : List ℕ) (seen : List Bool)
          → length stack + unseen_edges nodes seen ≤ fuel
          → IsMarking stack seen
          → (out : List Bool) × ((mark fuel nodes stack seen ≡ some out) × IsMarked out)
      unfolding mark
      mark-IsMarked fuel [] seen h v = (seen, (mark_done fuel nodes seen, ended seen v))
      mark-IsMarked zero (x ∷ rest) seen h v = absurd (omega arith)
      mark-IsMarked (suc fuel) (x ∷ rest) seen h v =
          let small = inside x v.pending.0 in
          let (known, flag) = get_elem?_total seen x (omega (arith, v.sized)) in
          let (node, there) = get_elem?_total nodes x small in
          elim (Bool-cases known) [
            | inl e ↦
                let found = flag ∙ ap some e in
                let (out, done) =
                  mark-IsMarked fuel rest seen (omega arith) (skip-IsMarking x rest seen found v) in
                rw found (out, done)
            | inr e ↦
                let found = flag ∙ ap some e in
                let (out, done) =
                  mark-IsMarked fuel (push_all node.children rest) (set seen x true)
                    (omega (
                      arith,
                      unseen_edges-set nodes seen x node there found,
                      length-push_all node.children rest,
                    ))
                    (visit-IsMarking x rest seen node found there v) in
                rw (found, there) (out, done)
          ]

      -- From a start that satisfies P the search succeeds.
      pub reachable-IsMarked :
          P start
          → (seen : List Bool) × ((reachable nodes start ≡ some (marked_ids 0 seen))
              × IsMarked seen)
      unfolding reachable
      reachable-IsMarked h =
          let (out, (done, v)) =
            mark-IsMarked (suc (edges nodes)) (start ∷ []) (replicate (length nodes) false)
              (omega (arith, unseen_edges-replicate nodes))
              record {
                sized = length-replicate (length nodes) false;
                pending = (h, tt);
                marked = λ i k. absurd (none_marked i (length nodes) k);
                closure = λ i n k there. absurd (none_marked i (length nodes) k);
                started = inr (inl refl);
              } in
          (out, (rw done refl, v))
