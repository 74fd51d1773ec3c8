-- ===== src/Saturn/UnionFind/Find.antt =====
-- `find` and `find_immutable` return the root, and path halving moves no root.
use mathlib.Core.Path.{subst}
use aiiiia.Prelude.{
  ℕ, zero, suc, ◌+◌, ◌<◌, ◌≤◌, ◌≡◌, ◌≢◌, refl, sym, ◌∙◌, inl, inr, ◌⊎◌, none, some, List, arith,
  length, get_elem?, set, get_elem?_total, get_elem?-lt, get_elem?-set_self, get_elem?-set_ne,
  length-set, some-inj, ℕ_discrete, sum, get_elem?-le-sum, dec_lt, get_elem?_beyond,
}
use aiiiia.Saturn.UnionFind.{
  UnionFind, find_loop, find, find_immutable_loop, find_immutable, fuel_of,
}
use aiiiia.Saturn.UnionFind.Sizes.{root_sizes-set_link}
use aiiiia.Saturn.UnionFind.Roots.{
  RootOf, root, link, IsForest, RootOf-root, RootOf-link, RootOf_start-lt, size_total, root_total,
}

-- Every id keeps its root.
abbrev pub SameRoots : List ℕ → List ℕ → Type 0
SameRoots ps qs = (x r : ℕ) → RootOf ps x r → RootOf qs x r

-- A link that leads to its root stays.
abbrev pub KeepsFlat : List ℕ → List ℕ → Type 0
KeepsFlat ps qs = (x r : ℕ) → RootOf ps x r → get_elem? ps x ≡ some r → get_elem? qs x ≡ some r

-- A read after a write, by whether the index is the written one.
pub get_elem?-set_cases :
    (ps : List ℕ) (i v x y : ℕ)
    → get_elem? (set ps i v) x ≡ some y
    → ((i ≡ x) × (v ≡ y)) ⊎ ((i ≢ x) × (get_elem? ps x ≡ some y))
get_elem?-set_cases ps i v x y h = elim (ℕ_discrete i x) [
  | yes e ↦
      let there : x < length ps = rw (length-set ps i v) at (get_elem?-lt (set ps i v) x h) in
      let wrote = get_elem?-set_self ps i v (rw e there) in inl (e, cc)
  | no n ↦ inr (n, sym (get_elem?-set_ne ps v n) ∙ h)
]

-- One step of path halving.
module _ (ps ss : List ℕ) (f : IsForest ps ss) (id parent grandparent : ℕ)
    (up : get_elem? ps id ≡ some parent) (not_root : id ≢ parent)
    (up2 : get_elem? ps parent ≡ some grandparent) where
  -- The recorded size grows over both links.
  size_grows : (s t : ℕ) → get_elem? ss id ≡ some s → get_elem? ss grandparent ≡ some t → s < t
  size_grows s t es et =
      let (m, em) = size_total ps ss f parent (f.closed id parent up) in
      let first = f.grows id parent s m up not_root es em in
      elim (ℕ_discrete parent grandparent) [
        | yes e ↦ let same : m ≡ t = some-inj (sym em ∙ rw e et) in omega arith
        | no n ↦ let second = f.grows parent grandparent m t up2 n em et in omega arith
      ]

  id-ne-grandparent : id ≢ grandparent
  id-ne-grandparent e =
      let (s, es) = size_total ps ss f id (get_elem?-lt ps id up) in
      let grown = size_grows s s es (rw (← e) es) in omega arith

  halve_get : get_elem? (set ps id grandparent) id ≡ some grandparent
  halve_get = get_elem?-set_self ps id grandparent (get_elem?-lt ps id up)

  halve_skip :
      {r : ℕ} → RootOf (set ps id grandparent) parent r → RootOf (set ps id grandparent) id r
  halve_skip {r} d = elim (ℕ_discrete parent grandparent) [
    | yes e ↦ link halve_get id-ne-grandparent (subst (λ z. RootOf (set ps id grandparent) z r) e d)
    | no n ↦
        link halve_get id-ne-grandparent
          (RootOf-link (set ps id grandparent) (get_elem?-set_ne ps grandparent not_root ∙ up2) n d)
  ]

  halve-SameRoots : SameRoots ps (set ps id grandparent)
  halve-SameRoots x r (root e h) =
      let other : id ≢ x = λ q. not_root (some-inj (sym (rw q h) ∙ up)) in
      root e (get_elem?-set_ne ps grandparent other ∙ h)
  halve-SameRoots x r (link {y} h n d) = elim (ℕ_discrete id x) [
    | yes q ↦
        let same : y ≡ parent = some-inj (sym h ∙ rw (← q) up) in
        rw (← q) (halve_skip (rw (← same) (halve-SameRoots y r d)))
    | no other ↦ link (get_elem?-set_ne ps grandparent other ∙ h) n (halve-SameRoots y r d)
  ]

  halve-KeepsFlat : KeepsFlat ps (set ps id grandparent)
  halve-KeepsFlat x r d h = elim (ℕ_discrete id x) [
    | yes q ↦
        let up_root : parent ≡ r = some-inj (sym up ∙ rw q h) in
        let top = RootOf-root ps d in
        let same : grandparent ≡ r = some-inj (sym up2 ∙ rw up_root top) in
        rw (← q, ← same) halve_get
    | no n ↦ get_elem?-set_ne ps grandparent n ∙ h
  ]

  halve-IsForest : IsForest (set ps id grandparent) ss
  halve-IsForest = record {
    same_length = length-set ps id grandparent ∙ f.same_length;
    closed = λ x y h.
        rw (length-set ps id grandparent) (elim (get_elem?-set_cases ps id grandparent x y h) [
          | inl (a, b) ↦ rw (← b) (f.closed parent grandparent up2)
          | inr (a, b) ↦ f.closed x y b
        ]);
    grows = λ x y s t h n es et. elim (get_elem?-set_cases ps id grandparent x y h) [
      | inl (a, b) ↦ size_grows s t (rw a es) (rw b et)
      | inr (a, b) ↦ f.grows x y s t b n es et
    ];
    positive = f.positive;
    counted =
        root_sizes-set_link 0 ps ss id parent grandparent up
          ((λ e. absurd (not_root (omega arith))), (λ e. absurd (id-ne-grandparent (omega arith))))
        ∙ f.counted
        ∙ sym (length-set ps id grandparent);
    fits = rw (length-set ps id grandparent) f.fits;
  }

-- With enough fuel the loop of `find` returns the root, in a forest with the same roots.
pub find_loop_lem :
    (fuel : ℕ) (ps ss : List ℕ) (x s r : ℕ)
    → IsForest ps ss
    → get_elem? ss x ≡ some s
    → sum ss < s + fuel
    → RootOf ps x r
    → (qs : List ℕ) × (find_loop fuel ps x ≡ some (qs, r))
      × IsForest qs ss
      × SameRoots ps qs
      × KeepsFlat ps qs
      × (length qs ≡ length ps)
unfolding find_loop
find_loop_lem zero ps ss x s r f e lt d = absurd (omega (arith, get_elem?-le-sum ss x e))
find_loop_lem (suc fuel) ps ss x s r f e lt (root q h) =
    (ps, ground arith, f, (λ y t c. c), (λ y t c k. k), refl)
find_loop_lem (suc fuel) ps ss x s r f e lt (link {y} h n d) =
    let (g, hg) = get_elem?_total ps y (f.closed x y h) in
    let qs = set ps x g in
    let f' = halve-IsForest ps ss f x y g h n hg in
    let keep = halve-SameRoots ps ss f x y g h n hg in
    let (t, et) = size_total ps ss f g (f.closed y g hg) in
    let grown = size_grows ps ss f x y g h n hg s t e et in
    let here' = keep x r (link h n d) in
    let rest =
      RootOf-link qs (halve_get ps ss f x y g h n hg) (id-ne-grandparent ps ss f x y g h n hg)
        here' in
    let flat = halve-KeepsFlat ps ss f x y g h n hg in
    let (out, ran, f2, keep2, flat2, len) =
      find_loop_lem fuel qs ss g t r f' et (omega arith) rest in
    (
      out,
      ground (arith, ran),
      f2,
      (λ z u c. keep2 z u (keep z u c)),
      (λ z u c k. flat2 z u (keep z u c) (flat z u c k)),
      len ∙ length-set ps x g,
    )

pub find_immutable_loop_lem :
    (fuel : ℕ) (ps ss : List ℕ) (x s r : ℕ)
    → IsForest ps ss
    → get_elem? ss x ≡ some s
    → sum ss < s + fuel
    → RootOf ps x r
    → find_immutable_loop fuel ps x ≡ some r
unfolding find_immutable_loop
find_immutable_loop_lem zero ps ss x s r f e lt d = absurd (omega (arith, get_elem?-le-sum ss x e))
find_immutable_loop_lem (suc fuel) ps ss x s r f e lt (root q h) = ground arith
find_immutable_loop_lem (suc fuel) ps ss x s r f e lt (link {y} h n d) =
    let (t, et) = size_total ps ss f y (f.closed x y h) in
    let grown = f.grows x y s t h n e et in
    ground (arith, find_immutable_loop_lem fuel ps ss y t r f et (omega arith) d)

-- The state is a forest of size-ordered links.
abbrev pub IsValid : UnionFind → Type 0
IsValid u = IsForest u.parents u.sizes

module _ (u : UnionFind) (v : IsValid u) where
  pub find_immutable-of_RootOf : (x r : ℕ) → RootOf u.parents x r → find_immutable u x ≡ some r
  unfolding find_immutable
  find_immutable-of_RootOf x r d =
      let (s, e) = size_total u.parents u.sizes v x (RootOf_start-lt u.parents d) in
      find_immutable_loop_lem (fuel_of u) u.parents u.sizes x s r v e (omega arith) d

  pub find_immutable_beyond : (x : ℕ) → length u.parents ≤ x → find_immutable u x ≡ none
  unfolding find_immutable find_immutable_loop
  find_immutable_beyond x h = rw (get_elem?_beyond u.parents x h)

  pub RootOf-of_find_immutable : (x r : ℕ) → find_immutable u x ≡ some r → RootOf u.parents x r
  RootOf-of_find_immutable x r h = elim (dec_lt x (length u.parents)) [
    | yes lt ↦
        let (q, d) = root_total u.parents u.sizes v x lt in
        let found = find_immutable-of_RootOf x q d in
        let same : q ≡ r = some-inj (sym found ∙ h) in rw (← same) d
    | no ge ↦ let missing = find_immutable_beyond x (omega arith) in absurd (cc)
  ]

-- Two forests over the same ids with the same roots answer `find_immutable` alike.
pub find_immutable-SameRoots :
    (u w : UnionFind)
    → IsValid u
    → IsValid w
    → SameRoots u.parents w.parents
    → length w.parents ≡ length u.parents
    → (x : ℕ) → find_immutable w x ≡ find_immutable u x
find_immutable-SameRoots u w v v' keep len x = elim (dec_lt x (length u.parents)) [
  | yes lt ↦
      let (r, d) = root_total u.parents u.sizes v x lt in
      find_immutable-of_RootOf w v' x r (keep x r d) ∙ sym (find_immutable-of_RootOf u v x r d)
  | no ge ↦
      find_immutable_beyond w v' x (omega arith) ∙ sym (find_immutable_beyond u v x (omega arith))
]

-- `find`, with the links that it leaves alone.
pub find_lem :
    (u : UnionFind) (x : ℕ)
    → IsValid u
    → x < length u.parents
    → (w : UnionFind) × (r : ℕ) × (find u x ≡ some (w, r))
      × (find_immutable u x ≡ some r)
      × IsValid w
      × (w.sizes ≡ u.sizes)
      × (length w.parents ≡ length u.parents)
      × ((y : ℕ) → find_immutable w y ≡ find_immutable u y)
      × KeepsFlat u.parents w.parents
unfolding find
find_lem u x v lt =
    let (r, d) = root_total u.parents u.sizes v x lt in
    let (s, e) = size_total u.parents u.sizes v x lt in
    let (qs, ran, v', keep, flat, len) =
      find_loop_lem (fuel_of u) u.parents u.sizes x s r v e (omega arith) d in
    let w : UnionFind = record u { parents = qs } in
    (
      w,
      r,
      ground (arith, ran),
      find_immutable-of_RootOf u v x r d,
      v',
      refl,
      len,
      find_immutable-SameRoots u w v v' keep len,
      flat,
    )

-- `w` is valid, with the ids, the recorded sizes and the roots of `u`.
pub record SameView (u w : UnionFind) : Type 0 where
  pub is_valid : IsValid w
  pub sizes_kept : w.sizes ≡ u.sizes
  pub ids_kept : length w.parents ≡ length u.parents
  pub roots_kept : (x : ℕ) → find_immutable w x ≡ find_immutable u x

-- `find` of an id in range of a valid state always returns. It gives the root that `find_immutable`
-- gives, in a valid state with the same ids and sizes, where `find_immutable` answers for every id as
-- before.
pub find-find_immutable :
    (u : UnionFind) (x : ℕ)
    → IsValid u
    → x < length u.parents
    → (w : UnionFind) × (r : ℕ) × (find u x ≡ some (w, r))
      × (find_immutable u x ≡ some r)
      × SameView u w
find-find_immutable u x v lt =
    let (w, r, ran, root_of_x, v', sizes, len, same, _) = find_lem u x v lt in
    (
      w,
      r,
      ran,
      root_of_x,
      record { is_valid = v'; sizes_kept = sizes; ids_kept = len; roots_kept = same },
    )
