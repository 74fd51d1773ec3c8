-- ===== src/Saturn/UnionFind/MakeSet.antt =====
-- `make_set` adds one set, of the new id alone.
use native.Mathlib.Nat.{zero-add}
use aiiiia.Prelude.{
  ℕ, ◌<◌, ◌^◌, suc, ◌+◌, ◌≡◌, ◌≢◌, refl, sym, ap, ◌∙◌, inl, inr, none, some, List, [], ◌∷◌, ◌++◌,
  arith, length, get_elem?, get_elem?_total, get_elem?-lt, ℕ_discrete, ◌==◌, if◌then◌else◌, dec_lt,
  length-append, get_elem?-append_left, get_elem?-append_end, get_elem?-append_cases,
}
use aiiiia.Saturn.UnionFind.{UnionFind, make_set, find_immutable, count_roots, set_count}
use aiiiia.Saturn.Id.{new_id_small}
use aiiiia.Saturn.UnionFind.Sizes.{root_sizes-append}
use aiiiia.Saturn.UnionFind.Roots.{root_sizes, RootOf, root, link, root_total}
use aiiiia.Saturn.UnionFind.Find.{IsValid, find_immutable-of_RootOf, find_immutable_beyond}

-- The state that `make_set` returns while the new id fits.
grown : UnionFind → UnionFind
grown u = record { parents = u.parents ++ length u.parents ∷ []; sizes = u.sizes ++ 1 ∷ [] }

make_set-grown :
    (u : UnionFind) → length u.parents < 2 ^ 32 → make_set u ≡ (grown u, length u.parents)
unfolding make_set grown
make_set-grown u h = rw (new_id_small (length u.parents) h) refl

module _ (u : UnionFind) (v : IsValid u) (room : suc (length u.parents) < 2 ^ 32) where
  old_size :
      (x y s : ℕ)
      → get_elem? u.parents x ≡ some y
      → get_elem? (u.sizes ++ 1 ∷ []) x ≡ some s
      → get_elem? u.sizes x ≡ some s
  old_size x y s h es = elim (get_elem?-append_cases u.sizes 1 x es) [
    | inl e ↦ e
    | inr (e, _) ↦ absurd (omega (arith, get_elem?-lt u.parents x h, v.same_length))
  ]

  grown-IsValid : IsValid (grown u)
  unfolding grown
  grown-IsValid = record {
    same_length = omega (
      arith,
      length-append u.parents (length u.parents ∷ []),
      length-append u.sizes (1 ∷ []),
      v.same_length,
    );
    closed = λ x y h.
        rw (length-append u.parents (length u.parents ∷ []))
          (elim (get_elem?-append_cases u.parents (length u.parents) x h) [
            | inl e ↦ let lt = v.closed x y e in omega arith
            | inr (e, same) ↦ omega arith
          ]);
    grows = λ x y s t h n es et. elim (get_elem?-append_cases u.parents (length u.parents) x h) [
      | inl e ↦
          let (z, ez) = get_elem?_total u.parents y (v.closed x y e) in
          v.grows x y s t e n (old_size x y s e es) (old_size y z t ez et)
      | inr (e, same) ↦ absurd (n (e ∙ same))
    ];
    positive = λ x s h. elim (get_elem?-append_cases u.sizes 1 x h) [
      | inl e ↦ v.positive x s e
      | inr (e, same) ↦ omega arith
    ];
    counted =
        ap (λ id. root_sizes 0 (u.parents ++ id ∷ []) (u.sizes ++ 1 ∷ []))
          (sym (zero-add (length u.parents)))
        ∙ root_sizes-append 0 u.parents u.sizes 1 v.same_length
        ∙ omega (arith, v.counted, length-append u.parents (length u.parents ∷ []));
    fits = omega (arith, length-append u.parents (length u.parents ∷ []));
  }

  grown-RootOf : (x r : ℕ) → RootOf u.parents x r → RootOf (grown u).parents x r
  unfolding grown
  grown-RootOf x r (root e h) =
      root e (get_elem?-append_left u.parents _ x (get_elem?-lt u.parents x h) ∙ h)
  grown-RootOf x r (link {y} h n d) =
      link (get_elem?-append_left u.parents _ x (get_elem?-lt u.parents x h) ∙ h) n
        (grown-RootOf y r d)

  grown_own : find_immutable (grown u) (length u.parents) ≡ some (length u.parents)
  unfolding grown
  grown_own =
      find_immutable-of_RootOf (grown u) grown-IsValid (length u.parents) (length u.parents)
        (root refl (get_elem?-append_end u.parents (length u.parents)))

  grown_other : (x : ℕ) → x ≢ length u.parents → find_immutable (grown u) x ≡ find_immutable u x
  unfolding grown
  grown_other x n = elim (dec_lt x (length u.parents)) [
    | yes lt ↦
        let (r, d) = root_total u.parents u.sizes v x lt in
        find_immutable-of_RootOf (grown u) grown-IsValid x r (grown-RootOf x r d)
        ∙ sym (find_immutable-of_RootOf u v x r d)
    | no ge ↦
        find_immutable_beyond (grown u) grown-IsValid x
          (rw (length-append u.parents (length u.parents ∷ [])) (omega arith))
        ∙ sym (find_immutable_beyond u v x (omega arith))
  ]

count_roots-append :
    (i : ℕ) (ps : List ℕ) (p : ℕ)
    → count_roots i (ps ++ p ∷ []) ≡ count_roots i ps + (if p == i + length ps then 1 else 0)
unfolding count_roots
count_roots-append i [] p = ground arith
count_roots-append i (q ∷ ps) p =
    let shift : i + 1 + length ps ≡ i + suc (length ps) = omega arith in
    rw (← shift) (omega (arith, count_roots-append (i + 1) ps p))

grown_count : (u : UnionFind) → set_count (grown u) ≡ suc (set_count u)
unfolding grown set_count
grown_count u = rw (count_roots-append 0 u.parents (length u.parents)) (ground arith)

-- `make_set` on a valid state of less than 2 ^ 32 - 1 ids gives an id that was in no set a set of its own,
-- and is valid; it leaves every other id's root, and counts one set more.
pub make_set_lem :
    (u : UnionFind)
    → IsValid u
    → suc (length u.parents) < 2 ^ 32
    → IsValid (make_set u).0
      × (find_immutable u (make_set u).1 ≡ none)
      × ((x : ℕ)
          → find_immutable (make_set u).0 x
            ≡ (if x == (make_set u).1 then some (make_set u).1 else find_immutable u x))
      × (set_count (make_set u).0 ≡ suc (set_count u))
make_set_lem u v room = rw (make_set-grown u (omega arith)) (
  grown-IsValid u v room,
  find_immutable_beyond u v (length u.parents) (omega arith),
  (λ x. elim (ℕ_discrete x (length u.parents)) [
    | yes e ↦ let own = grown_own u v room in ground (arith, ap (find_immutable (grown u)) e)
    | no n ↦ ground (arith, grown_other u v room x n)
  ]),
  grown_count u,
)
