-- ===== src/Saturn/Lang/Topo.antt =====
-- The order in which `reachable` of src/lang.rs lists its ids.
use aiiiia.Saturn.Lang.{arity}
use aiiiia.Saturn.Lang.Expr.{marked_ids, reachable}
use aiiiia.Saturn.Lang.Node.{ENode}
use aiiiia.Saturn.Lang.Reach.{IsIn, ℕ-cases, reachable-IsMarked}
use aiiiia.Prelude.{
  get_elem?-lt, get_elem?_total, zero, suc, ◌+◌, ◌≤◌, ◌<◌, ◌≡◌, refl, sym, ap, ◌∙◌, subst, inl, inr,
  Bool, true, some, List, [], ◌∷◌, arith, Bool-cases, length, get_elem?, get_elem?-lt,
  get_elem?_total, some-inj, All, All-both, ℕ,
}

-- The last entry of a list, or the default.
abbrev pub last : ℕ → List ℕ → ℕ
last d [] = d
last d (x ∷ ids) = last x ids

module _ {F : Type 0} (nodes : List (ENode F)) where
  -- Each node's children come before it.
  abbrev pub IsTopological : Type 0
  IsTopological = (i : ℕ) (n : ENode F) → get_elem? nodes i ≡ some n → All (λ c. c < i) n.children

  -- Each id is a node's, is new, and has its children among the ids before.
  abbrev pub IsTopo : List ℕ → List ℕ → Type 0
  IsTopo done [] = Unit
  IsTopo done (x ∷ rest) =
      (n : ENode F) × ((get_elem? nodes x ≡ some n)
        × (All (λ c. IsIn c done) n.children × ((IsIn x done → ⊥) × IsTopo (x ∷ done) rest)))

  module _ (topological : IsTopological) (seen : List Bool) (sized : length seen ≡ length nodes)
      (closed : (i : ℕ) (n : ENode F)
        → get_elem? seen i ≡ some true
        → get_elem? nodes i ≡ some n
        → All (λ c. get_elem? seen c ≡ some true) n.children) where
    marked_ids-IsTopo :
        (i : ℕ) (rest : List Bool) (done : List ℕ)
        → ((k : ℕ) → get_elem? rest k ≡ get_elem? seen (i + k))
        → ((c : ℕ) → IsIn c done → c < i)
        → ((c : ℕ) → c < i → get_elem? seen c ≡ some true → IsIn c done)
        → IsTopo done (marked_ids i rest)
    marked_ids-IsTopo i [] done agree early whole = tt
    marked_ids-IsTopo i (b ∷ rest) done agree early whole =
        let next : (k : ℕ) → get_elem? rest k ≡ get_elem? seen (suc i + k) =
          λ k. agree (suc k) ∙ ap (get_elem? seen) (omega arith) in
        let flag : get_elem? seen i ≡ some b = sym (agree 0 ∙ ap (get_elem? seen) (omega arith)) in
        elim (Bool-cases b) [
          | inl e ↦
              let here = flag ∙ ap some e in
              let (n, there) =
                get_elem?_total nodes i (omega (arith, get_elem?-lt seen i flag, sized)) in
              rw e (
                n,
                (
                  there,
                  (
                    All-both (λ c. c < i) (λ c. get_elem? seen c ≡ some true) (λ c. IsIn c done)
                        n.children (λ c h k. whole c h k) (topological i n there)
                        (closed i n here there),
                    (
                      (λ h. absurd (omega (arith, early i h))),
                      marked_ids-IsTopo (suc i) rest (i ∷ done) next
                          (λ c h. elim h [ inl e ↦ omega arith | inr k ↦ omega (arith, early c k) ])
                          (λ c h k. elim (ℕ-cases c i) [
                            | inl e ↦ inl e
                            | inr apart ↦ inr (whole c (ground arith) k)
                          ]),
                    ),
                  ),
                ),
              )
          | inr e ↦ rw e (
              marked_ids-IsTopo (suc i) rest done next (λ c h. omega (arith, early c h))
                (λ c h k. elim (ℕ-cases c i) [
                  | inl same ↦ absurd (cc (k, flag, e, same))
                  | inr apart ↦ whole c (ground arith) k
                ]))
        ]

-- With no mark there is no id.
marked_ids_none :
    (i : ℕ) (rest : List Bool)
    → ((k : ℕ) → get_elem? rest k ≡ some true → ⊥)
    → marked_ids i rest ≡ []
marked_ids_none i [] h = refl
marked_ids_none i (b ∷ rest) h = elim (Bool-cases b) [
  | inl e ↦ absurd (h 0 (ap some e))
  | inr e ↦ rw e (marked_ids_none (suc i) rest (λ k m. h (suc k) m))
]

last-marked_ids :
    (i k d : ℕ) (rest : List Bool)
    → get_elem? rest k ≡ some true
    → ((j : ℕ) → get_elem? rest j ≡ some true → j ≤ k)
    → last d (marked_ids i rest) ≡ i + k
last-marked_ids i k d [] h most = cc
last-marked_ids i zero d (b ∷ rest) h most =
    rw (some-inj h, marked_ids_none (suc i) rest (λ j m. absurd (omega (arith, most (suc j) m))))
      (omega arith)
last-marked_ids i (suc k) d (b ∷ rest) h most =
    let tail : (x : ℕ) → last x (marked_ids (suc i) rest) ≡ i + suc k = λ x.
      last-marked_ids (suc i) k x rest h (λ j m. omega (arith, most (suc j) m)) ∙ omega arith in
    elim (Bool-cases b) [ inl e ↦ rw e (tail i) | inr e ↦ rw e (tail d) ]

-- What `reachable` gives in a DAG: the start last, an order of evaluation, and only ids that the start
-- needs.
pub record IsOrder {F : Type 0} (nodes : List (ENode F)) (P : ℕ → Type 0) (start : ℕ) (ids : List ℕ)
    : Type 0 where
  pub topo : IsTopo nodes [] ids
  pub ends : (d : ℕ) → last d ids ≡ start
  pub kept : All P ids

All-marked_ids :
    (P : ℕ → Type 0) (i : ℕ) (rest : List Bool)
    → ((k : ℕ) → get_elem? rest k ≡ some true → P (i + k))
    → All P (marked_ids i rest)
All-marked_ids P i [] h = tt
All-marked_ids P i (b ∷ rest) h =
    let tail = All-marked_ids P (suc i) rest (λ k m. subst P (omega arith) (h (suc k) m)) in
    elim (Bool-cases b) [
      | inl e ↦ rw e (subst P (omega arith) (h 0 (ap some e)), tail)
      | inr e ↦ rw e tail
    ]

module _ {F : Type 0} (nodes : List (ENode F)) (P : ℕ → Type 0) (start : ℕ) where
  -- From a node of an expression in dependency order the search ends, and gives ids of nodes, each once,
  -- children before what uses them, the start last; all satisfy whatever the start satisfies and passes
  -- on from a node to its children, so none is listed that the start does not need.
  pub reachable-IsOrder :
      IsTopological nodes
      → start < length nodes
      → P start
      → ((i : ℕ) (n : ENode F) → P i → get_elem? nodes i ≡ some n → All P n.children)
      → (ids : List ℕ) × ((reachable nodes start ≡ some ids) × IsOrder nodes P start ids)
  reachable-IsOrder topological small h below =
      let (seen, (found, v)) =
        reachable-IsMarked nodes start (λ i. P i × (i ≤ start)) (λ i k. omega (arith, k.1))
          (λ i n k there.
            All-both P (λ c. c < i) (λ c. P c × (c ≤ start)) n.children
              (λ c p lt. (p, omega (arith, k.1))) (below i n k.0 there) (topological i n there))
          (h, omega arith) in
      (
        marked_ids 0 seen,
        (
          found,
          record {
            topo =
                marked_ids-IsTopo nodes topological seen v.sized v.closed 0 seen []
                  (λ k. ap (get_elem? seen) (omega arith)) (λ c k. absurd k)
                  (λ c k m. absurd (omega arith));
            ends = λ d.
                last-marked_ids 0 start d seen v.has_start (λ j m. (v.sound j m).1) ∙ omega arith;
            kept = All-marked_ids P 0 seen (λ k m. subst P (omega arith) (v.sound k m).0);
          },
        ),
      )

pub All-true {ℓ} : {A : Type ℓ} (xs : List A) → All (λ a. Unit {0}) xs
All-true [] = tt
All-true (x ∷ xs) = (tt, All-true xs)

module _ {F : Type 0} (nodes : List (ENode F)) (start : ℕ) (order : List ℕ)
    (topological : IsTopological nodes) (small : start < length nodes)
    (listed : reachable nodes start ≡ some order) where
  -- The same of a list that the search has given.
  pub order-IsOrder :
      (P : ℕ → Type 0)
      → P start
      → ((i : ℕ) (n : ENode F) → P i → get_elem? nodes i ≡ some n → All P n.children)
      → IsOrder nodes P start order
  order-IsOrder P h below =
      let (ids, (found, o)) = reachable-IsOrder nodes P start topological small h below in
      subst (IsOrder nodes P start) (some-inj (sym found ∙ listed)) o

  pub plain-IsOrder : IsOrder nodes (λ i. Unit {0}) start order
  plain-IsOrder = order-IsOrder (λ i. Unit {0}) tt (λ i n k e. All-true n.children)

-- The start is among the ids.
pub IsIn-last : (ids : List ℕ) (start : ℕ) → ((d : ℕ) → last d ids ≡ start) → IsIn start ids
IsIn-last [] start h = absurd (omega (arith, h 0, h 1))
IsIn-last (x ∷ ids) start h = last-IsIn x ids start (h x)
  where
    last-IsIn : (d : ℕ) (rest : List ℕ) (e : ℕ) → last d rest ≡ e → IsIn e (d ∷ rest)
    last-IsIn d [] e k = inl (sym k)
    last-IsIn d (y ∷ rest) e k = inr (last-IsIn y rest e k)

module _ {F : Type 0} (nodes : List (ENode F)) where
  -- What the constructors of expressions keep: children come first, as many as the operator takes.
  pub record IsExpr : Type 0 where
    pub topological : IsTopological nodes
    pub arities :
        (i : ℕ) (n : ENode F) → get_elem? nodes i ≡ some n → length n.children ≡ arity n.op
