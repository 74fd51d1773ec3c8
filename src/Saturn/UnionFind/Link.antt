-- ===== src/Saturn/UnionFind/Link.antt =====
-- One root hung below another: the write that `union` makes.
use native.Mathlib.Nat.{zero-add}
use aiiiia.Prelude.{
  ℕ, ◌%◌, ◌^◌, ◌+◌, ◌<◌, ◌≡◌, ◌≢◌, refl, sym, ◌∙◌, inl, inr, Option, none, some, List, arith,
  length, get_elem?, set, get_elem?-lt, get_elem?-set_self, get_elem?-set_ne, length-set, some-inj,
  ℕ_discrete, ◌>>=◌, ◌==◌, if◌then◌else◌, dec_lt,
}
use aiiiia.Saturn.UnionFind
use aiiiia.Saturn.UnionFind.{UnionFind, find_immutable}
use aiiiia.Saturn.UnionFind.Sizes.{root_sizes-hang, root_sizes-resize, root_size-le}
use aiiiia.Saturn.UnionFind.Roots.{RootOf, root, link, IsForest, root_sizes, root_total}
use aiiiia.Saturn.UnionFind.Find.{
  get_elem?-set_cases, IsValid, find_immutable-of_RootOf, find_immutable_beyond,
}

-- `r` becomes `kept` where it is `gone`.
abbrev pub redirect : ℕ → ℕ → ℕ → ℕ
redirect gone kept r = if r == gone then kept else r

abbrev pub redirect_root : ℕ → ℕ → Option ℕ → Option ℕ
redirect_root gone kept o = o >>= λ r. some (redirect gone kept r)

-- One root `rb` hung below another, `ra`.
module _ (ps ss : List ℕ) (f : IsForest ps ss) (ra rb sa sb : ℕ)
    (a_root : get_elem? ps ra ≡ some ra) (b_root : get_elem? ps rb ≡ some rb) (ne : ra ≢ rb)
    (a_size : get_elem? ss ra ≡ some sa) (b_size : get_elem? ss rb ≡ some sb) where
  hung : get_elem? (set ps rb ra) rb ≡ some ra
  hung = get_elem?-set_self ps rb ra (get_elem?-lt ps rb b_root)

  kept_root : get_elem? (set ps rb ra) ra ≡ some ra
  kept_root = get_elem?-set_ne ps ra (λ e. ne (sym e)) ∙ a_root

  link-RootOf : (x r : ℕ) → RootOf ps x r → RootOf (set ps rb ra) x (redirect rb ra r)
  link-RootOf x r (root e h) = elim (ℕ_discrete rb x) [
    | yes q ↦
        let target : redirect rb ra r ≡ ra = ground arith in
        rw (target, ← q) (link hung (λ c. ne (sym c)) (root refl kept_root))
    | no n ↦
        let target : redirect rb ra r ≡ r = ground arith in
        rw target (root e (get_elem?-set_ne ps ra n ∙ h))
  ]
  link-RootOf x r (link {y} h n d) =
      let other : rb ≢ x = λ q. (let e : x ≡ y = cc in n e) in
      link (get_elem?-set_ne ps ra other ∙ h) n (link-RootOf y r d)

  link_grows :
      (x y s t : ℕ)
      → get_elem? (set ps rb ra) x ≡ some y
      → x ≢ y
      → get_elem? (set ss ra (sa + sb)) x ≡ some s
      → get_elem? (set ss ra (sa + sb)) y ≡ some t
      → s < t
  link_grows x y s t h n es et =
      let at_x = get_elem?-set_cases ss ra (sa + sb) x s es in
      let at_y = get_elem?-set_cases ss ra (sa + sb) y t et in
      elim (get_elem?-set_cases ps rb ra x y h) [
        | inl (xb, ya) ↦ elim at_x [
          | inl (xa, _) ↦ absurd (ne (xa ∙ sym xb))
          | inr (_, s_is) ↦ elim at_y [
            | inl (_, t_is) ↦
                let same : sb ≡ s = some-inj (sym b_size ∙ (rw xb s_is)) in
                let p = f.positive ra sa a_size in omega arith
            | inr (other, _) ↦ absurd (other ya)
          ]
        ]
        | inr (_, up) ↦ elim at_x [
          | inl (xa, _) ↦ let loop : x ≡ y = cc in absurd (n loop)
          | inr (_, s_is) ↦ elim at_y [
            | inl (ya, t_is) ↦ let p = f.grows x y s sa up n s_is (rw (← ya) a_size) in omega arith
            | inr (_, t_is) ↦ f.grows x y s t up n s_is t_is
          ]
        ]
      ]

  -- The size of what is kept counts both, and fits as the ids do.
  sizes_fit : (root_sizes 0 (set ps rb ra) (set ss ra (sa + sb)) ≡ length ps) × (sa + sb < 2 ^ 32)
  sizes_fit =
      let hang = root_sizes-hang 0 ps ss rb ra sb (rw zero-add b_root) b_size (rw zero-add ne) in
      let grow =
        root_sizes-resize 0 (set ps rb ra) ss ra sa (sa + sb) (rw zero-add kept_root) a_size in
      let le = root_size-le 0 (set ps rb ra) ss ra sa (rw zero-add kept_root) a_size in
      (omega (arith, f.counted), omega (arith, f.counted, f.fits))

  link-IsForest : IsForest (set ps rb ra) (set ss ra (sa + sb))
  link-IsForest = record {
    same_length = length-set ps rb ra ∙ f.same_length ∙ sym (length-set ss ra (sa + sb));
    closed = λ x y h. rw (length-set ps rb ra) (elim (get_elem?-set_cases ps rb ra x y h) [
      | inl (a, b) ↦ rw (← b) (get_elem?-lt ps ra a_root)
      | inr (a, b) ↦ f.closed x y b
    ]);
    grows = link_grows;
    positive = λ x s h. elim (get_elem?-set_cases ss ra (sa + sb) x s h) [
      | inl (a, b) ↦ let p = f.positive ra sa a_size in omega arith
      | inr (a, b) ↦ f.positive x s b
    ];
    counted = sizes_fit.0 ∙ sym (length-set ps rb ra);
    fits = rw (length-set ps rb ra) f.fits;
  }

pub redirect_root_self : (r : ℕ) (o : Option ℕ) → o ≡ redirect_root r r o
redirect_root_self r none = refl
redirect_root_self r (some s) = ground arith

-- The state after linking answers `find_immutable` as the statement of `union` says.
module _ (u : UnionFind) (v : IsValid u) (ra rb sa sb : ℕ)
    (a_root : get_elem? u.parents ra ≡ some ra) (b_root : get_elem? u.parents rb ≡ some rb)
    (ne : ra ≢ rb) (a_size : get_elem? u.sizes ra ≡ some sa)
    (b_size : get_elem? u.sizes rb ≡ some sb) where
  unfoldable pub linked : UnionFind
  linked = record { parents = set u.parents rb ra; sizes = set u.sizes ra (sa + sb) }

  -- What the code writes is that: the sum does not wrap around.
  pub link_lem : UnionFind.link u ra rb sa sb ≡ (linked, ra, rb)
  unfolding linked UnionFind.link
  link_lem =
      let fit = (sizes_fit u.parents u.sizes v ra rb sa sb a_root b_root ne a_size b_size).1 in
      let exact : (sa + sb) % 2 ^ 32 ≡ sa + sb = ground arith in rw exact refl

  pub same_length-linked : length linked.parents ≡ length u.parents
  unfolding linked
  same_length-linked = length-set u.parents rb ra

  pub linked-IsValid : IsValid linked
  unfolding linked
  linked-IsValid = link-IsForest u.parents u.sizes v ra rb sa sb a_root b_root ne a_size b_size

  pub find_immutable-linked :
      (x : ℕ) → find_immutable linked x ≡ redirect_root rb ra (find_immutable u x)
  unfolding linked
  find_immutable-linked x = elim (dec_lt x (length u.parents)) [
    | yes lt ↦
        let (r, d) = root_total u.parents u.sizes v x lt in
        let moved =
          link-RootOf u.parents u.sizes v ra rb sa sb a_root b_root ne a_size b_size x r d in
        rw (find_immutable-of_RootOf u v x r d)
          (find_immutable-of_RootOf linked linked-IsValid x (redirect rb ra r) moved)
    | no ge ↦ rw (find_immutable_beyond u v x (omega arith)) (
        find_immutable_beyond linked linked-IsValid x
          (rw (length-set u.parents rb ra) (omega arith)))
  ]
