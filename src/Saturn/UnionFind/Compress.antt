-- ===== src/Saturn/UnionFind/Compress.antt =====
-- `compress_all` links every id to its root.
use mathlib.Core.Path.{subst}
use aiiiia.Prelude.{
  get_elem?_total, ℕ, zero, suc, ◌+◌, ◌<◌, ◌≡◌, ◌≢◌, refl, sym, ap, ◌∙◌, inl, inr, some, List,
  arith, length, get_elem?, set, get_elem?-set_self, get_elem?-set_ne, length-set, some-inj,
  ℕ_discrete, dec_lt, get_elem?_beyond,
}
use aiiiia.Saturn.UnionFind.{UnionFind, find, find_immutable, compress_loop, compress_all}
use aiiiia.Saturn.UnionFind.Sizes.{root_sizes-set_link}
use aiiiia.Saturn.UnionFind.Roots.{
  RootOf-of_root, RootOf, root, link, IsForest, RootOf-root, RootOf_start-lt, RootOf-lt,
  RootOf_unique, size_total, root_total,
}
use aiiiia.Saturn.UnionFind.Find.{
  SameView, SameRoots, KeepsFlat, find_immutable-SameRoots, get_elem?-set_cases, IsValid,
  find_immutable-of_RootOf, RootOf-of_find_immutable, find_lem, find_immutable_beyond,
}

-- The recorded size grows from an id to its root.
RootOf-grows :
    (ps ss : List ℕ) (x r s t : ℕ)
    → IsForest ps ss
    → RootOf ps x r
    → x ≢ r
    → get_elem? ss x ≡ some s
    → get_elem? ss r ≡ some t
    → s < t
RootOf-grows ps ss x r s t f (root e h) n es et = absurd (n e)
RootOf-grows ps ss x r s t f (link {y} h n' d) n es et =
    let (m, em) = size_total ps ss f y (f.closed x y h) in
    let first = f.grows x y s m h n' es em in
    elim (ℕ_discrete y r) [
      | yes e ↦ let same : m ≡ t = some-inj (sym em ∙ rw e et) in omega arith
      | no other ↦ let second = RootOf-grows ps ss y r m t f d other em et in omega arith
    ]

-- An id pointed at its root.
module _ (ps ss : List ℕ) (f : IsForest ps ss) (i r : ℕ) (top : RootOf ps i r) where
  pointed : get_elem? (set ps i r) i ≡ some r
  pointed = get_elem?-set_self ps i r (RootOf_start-lt ps top)

  pointed_root : get_elem? (set ps i r) r ≡ some r
  pointed_root = elim (ℕ_discrete i r) [
    | yes e ↦ subst (λ z. get_elem? (set ps i r) z ≡ some r) e pointed
    | no n ↦ get_elem?-set_ne ps r n ∙ RootOf-root ps top
  ]

  point_self : RootOf (set ps i r) i r
  point_self = elim (ℕ_discrete i r) [
    | yes e ↦ root e (pointed ∙ ap some (sym e))
    | no n ↦ link pointed n (root refl pointed_root)
  ]

  point_at : (x s : ℕ) → i ≡ x → RootOf ps x s → RootOf (set ps i r) x s
  point_at x s q d =
      let same : r ≡ s = RootOf_unique ps (subst (λ z. RootOf ps z r) q top) d in
      subst (λ z. RootOf (set ps i r) z s) q (subst (λ z. RootOf (set ps i r) i z) same point_self)

  point-SameRoots : SameRoots ps (set ps i r)
  point-SameRoots x s (root e h) = elim (ℕ_discrete i x) [
    | yes q ↦ point_at x s q (root e h)
    | no n ↦ root e (get_elem?-set_ne ps r n ∙ h)
  ]
  point-SameRoots x s (link {y} h n d) = elim (ℕ_discrete i x) [
    | yes q ↦ point_at x s q (link h n d)
    | no other ↦ link (get_elem?-set_ne ps r other ∙ h) n (point-SameRoots y s d)
  ]

  point-KeepsFlat : KeepsFlat ps (set ps i r)
  point-KeepsFlat x s d h = elim (ℕ_discrete i x) [
    | yes q ↦
        let same : r ≡ s = RootOf_unique ps (subst (λ z. RootOf ps z r) q top) d in
        rw (← q, ← same) pointed
    | no n ↦ get_elem?-set_ne ps r n ∙ h
  ]

  point-IsForest : IsForest (set ps i r) ss
  point-IsForest = record {
    same_length = length-set ps i r ∙ f.same_length;
    closed = λ x y h. rw (length-set ps i r) (elim (get_elem?-set_cases ps i r x y h) [
      | inl (a, b) ↦ rw (← b) (RootOf-lt ps top)
      | inr (a, b) ↦ f.closed x y b
    ]);
    grows = λ x y s t h n es et. elim (get_elem?-set_cases ps i r x y h) [
      | inl (a, b) ↦
          RootOf-grows ps ss x y s t f
            (subst (λ z. RootOf ps z y) a (subst (λ z. RootOf ps i z) b top)) n es et
      | inr (a, b) ↦ f.grows x y s t b n es et
    ];
    positive = f.positive;
    counted =
        (let (p, at_i) = get_elem?_total ps i (RootOf_start-lt ps top) in
          root_sizes-set_link 0 ps ss i p r at_i (
            (λ e.
                let loop : p ≡ i = omega arith in
                omega (arith, RootOf-of_root ps (at_i ∙ ap some loop) top)),
            (λ e.
                let same : r ≡ i = omega arith in
                omega (
                  arith,
                  some-inj
                      (sym at_i ∙ subst (λ z. get_elem? ps z ≡ some z) same (RootOf-root ps top)),
                )),
          ))
        ∙ f.counted
        ∙ sym (length-set ps i r);
    fits = rw (length-set ps i r) f.fits;
  }

-- Every id below `i` links to its root.
abbrev pub FlatBelow : ℕ → UnionFind → Type 0
FlatBelow i u = (x r : ℕ) → x < i → find_immutable u x ≡ some r → get_elem? u.parents x ≡ some r

SameView-trans : {u w z : UnionFind} → SameView u w → SameView w z → SameView u z
SameView-trans a b = record {
  is_valid = b.is_valid;
  sizes_kept = b.sizes_kept ∙ a.sizes_kept;
  ids_kept = b.ids_kept ∙ a.ids_kept;
  roots_kept = λ x. b.roots_kept x ∙ a.roots_kept x;
}

point : UnionFind → ℕ → ℕ → UnionFind
point u i r = record u { parents = set u.parents i r }

point-SameView :
    (u : UnionFind) (i r : ℕ) → IsValid u → RootOf u.parents i r → SameView u (point u i r)
unfolding point
point-SameView u i r v top =
    let v' = point-IsForest u.parents u.sizes v i r top in
    let len = length-set u.parents i r in
    record {
      is_valid = v';
      sizes_kept = refl;
      ids_kept = len;
      roots_kept =
          find_immutable-SameRoots u (point u i r) v v'
            (point-SameRoots u.parents u.sizes v i r top) len;
    }

-- One round of `compress_all`.
round :
    (u : UnionFind) (i : ℕ)
    → IsValid u
    → i < length u.parents
    → FlatBelow i u
    → (w : UnionFind) × (r : ℕ) × (find u i ≡ some (w, r))
      × SameView u (point w i r)
      × FlatBelow (i + 1) (point w i r)
unfolding point
round u i v lt flat =
    let (w, r, ran, fr, v1, sizes, len, same, keep) = find_lem u i v lt in
    let top = RootOf-of_find_immutable w v1 i r (same i ∙ fr) in
    let view = point-SameView w i r v1 top in
    let through =
      SameView-trans
        (record { is_valid = v1; sizes_kept = sizes; ids_kept = len; roots_kept = same }) view in
    (
      w,
      r,
      ran,
      through,
      λ x s below h. elim (ℕ_discrete i x) [
        | yes q ↦
            let found : find_immutable u i ≡ some s =
              ap (find_immutable u) q ∙ sym (through.roots_kept x) ∙ h in
            let is : r ≡ s = some-inj (sym fr ∙ found) in
            rw (← q, ← is) (pointed w.parents w.sizes v1 i r top)
        | no n ↦
            let before : find_immutable u x ≡ some s = sym (through.roots_kept x) ∙ h in
            let d = RootOf-of_find_immutable u v x s before in
            get_elem?-set_ne w.parents r n ∙ keep x s d (flat x s (omega arith) before)
      ],
    )

compress_loop_lem :
    (n i : ℕ) (u : UnionFind)
    → IsValid u
    → i + n ≡ length u.parents
    → FlatBelow i u
    → (w : UnionFind) × (compress_loop n i u ≡ some w)
      × SameView u w
      × FlatBelow (length u.parents) w
unfolding compress_loop point
compress_loop_lem zero i u v e flat = (
  u,
  refl,
  record { is_valid = v; sizes_kept = refl; ids_kept = refl; roots_kept = λ x. refl },
  λ x r lt h. flat x r (omega arith) h,
)
compress_loop_lem (suc n) i u v e flat =
    let (w, r, ran, view, flat') = round u i v (omega arith) flat in
    let (z, ran2, view2, flat2) =
      compress_loop_lem n (i + 1) (point w i r) view.is_valid (omega (arith, view.ids_kept))
        flat' in
    (
      z,
      ground (arith, ran, ran2),
      SameView-trans view view2,
      λ x s lt h. flat2 x s (rw (view.ids_kept) lt) h,
    )

-- `compress_all` of a valid state always returns a valid state with the same ids, sizes and roots, in
-- which the link of every id is its root.
pub compress_all_lem :
    (u : UnionFind)
    → IsValid u
    → (w : UnionFind) × (compress_all u ≡ some w)
      × SameView u w
      × ((x : ℕ) → get_elem? w.parents x ≡ find_immutable w x)
unfolding compress_all
compress_all_lem u v =
    let (w, ran, view, flat) =
      compress_loop_lem (length u.parents) 0 u v (omega arith) (λ x r lt h. absurd (omega arith)) in
    (
      w,
      ran,
      view,
      λ x. elim (dec_lt x (length w.parents)) [
        | yes lt ↦
            let (r, d) = root_total w.parents w.sizes view.is_valid x lt in
            let found = find_immutable-of_RootOf w view.is_valid x r d in
            flat x r (rw (← view.ids_kept) lt) found ∙ sym found
        | no ge ↦
            get_elem?_beyond w.parents x (omega arith)
            ∙ sym (find_immutable_beyond w view.is_valid x (omega arith))
      ],
    )
