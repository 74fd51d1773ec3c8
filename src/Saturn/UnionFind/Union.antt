-- ===== src/Saturn/UnionFind/Union.antt =====
-- `union` joins exactly two sets, and keeps the larger one's root.
use mathlib.Core.Path.{subst}
use aiiiia.Prelude.{
  some-inj, ℕ, ◌<◌, ◌≤◌, ◌≡◌, ◌≢◌, refl, sym, ap, ◌∙◌, inl, inr, ◌⊎◌, Option, none, some, List,
  arith, length, get_elem?, get_elem?-lt, ℕ_discrete, ◌>>=◌, ◌==◌, if◌then◌else◌, dec_lt, ltb,
}
use aiiiia.Saturn.UnionFind
use aiiiia.Saturn.UnionFind.{UnionFind, find, find_immutable, union}
use aiiiia.Saturn.UnionFind.Roots.{RootOf-root, size_total}
use aiiiia.Saturn.UnionFind.Find.{IsValid, RootOf-of_find_immutable, find_lem}
use aiiiia.Saturn.UnionFind.Link.{
  redirect_root, redirect_root_self, linked, link_lem, same_length-linked, linked-IsValid,
  find_immutable-linked,
}

-- `w` is `u` with the set of the root `gone` joined to that of the root `kept`; these are the roots of
-- `a` and `b`, and the kept one's recorded size is at least the other's.
pub record Joins (u : UnionFind) (a b : ℕ) (w : UnionFind) (kept gone : ℕ) : Type 0 where
  pub is_valid : IsValid w
  pub same_ids : length w.parents ≡ length u.parents
  pub picked :
      ((find_immutable u a ≡ some kept) × (find_immutable u b ≡ some gone))
      ⊎ ((find_immutable u a ≡ some gone) × (find_immutable u b ≡ some kept))
  pub joined : (x : ℕ) → find_immutable w x ≡ redirect_root gone kept (find_immutable u x)
  pub larger :
      (s : ℕ) × (t : ℕ) × (get_elem? u.sizes kept ≡ some s)
      × (get_elem? u.sizes gone ≡ some t)
      × (t ≤ s)

-- What `union` does once both roots are known.
join_roots : UnionFind → ℕ → ℕ → Option (UnionFind × ℕ × ℕ)
join_roots u ra rb = if ra == rb then some (u, ra, ra) else (do
  sa ← get_elem? u.sizes ra
  sb ← get_elem? u.sizes rb
  some (if ltb sa sb then UnionFind.link u rb ra sb sa else UnionFind.link u ra rb sa sb))

module _ (u : UnionFind) (v : IsValid u) (a b ra rb : ℕ) (fa : find_immutable u a ≡ some ra)
    (fb : find_immutable u b ≡ some rb) where
  root_a : get_elem? u.parents ra ≡ some ra
  root_a = RootOf-root u.parents (RootOf-of_find_immutable u v a ra fa)

  root_b : get_elem? u.parents rb ≡ some rb
  root_b = RootOf-root u.parents (RootOf-of_find_immutable u v b rb fb)

  join_equal :
      (sa : ℕ)
      → get_elem? u.sizes ra ≡ some sa
      → ra ≡ rb
      → (join_roots u ra rb ≡ some (u, ra, ra)) × Joins u a b u ra ra
  unfolding join_roots
  join_equal sa ea e = (
    ground arith,
    record {
      is_valid = v;
      same_ids = refl;
      picked = inl (fa, rw e fb);
      joined = λ x. redirect_root_self ra (find_immutable u x);
      larger = (sa, sa, ea, ea, omega arith);
    },
  )

  join_distinct :
      (sa sb : ℕ)
      → ra ≢ rb
      → get_elem? u.sizes ra ≡ some sa
      → get_elem? u.sizes rb ≡ some sb
      → (w : UnionFind) × (kept : ℕ) × (gone : ℕ) × (join_roots u ra rb ≡ some (w, kept, gone))
        × Joins u a b w kept gone
  unfolding join_roots
  join_distinct sa sb ne ea eb = elim (dec_lt sa sb) [
    | yes lt ↦ (
      linked u v rb ra sb sa root_b root_a (λ e. ne (sym e)) eb ea,
      rb,
      ra,
      ground (arith, link_lem u v rb ra sb sa root_b root_a (λ e. ne (sym e)) eb ea),
      record {
        is_valid = linked-IsValid u v rb ra sb sa root_b root_a (λ e. ne (sym e)) eb ea;
        same_ids = same_length-linked u v rb ra sb sa root_b root_a (λ e. ne (sym e)) eb ea;
        picked = inr (fa, fb);
        joined = find_immutable-linked u v rb ra sb sa root_b root_a (λ e. ne (sym e)) eb ea;
        larger = (sb, sa, eb, ea, omega arith);
      },
    )
    | no ge ↦ (
      linked u v ra rb sa sb root_a root_b ne ea eb,
      ra,
      rb,
      ground (arith, link_lem u v ra rb sa sb root_a root_b ne ea eb),
      record {
        is_valid = linked-IsValid u v ra rb sa sb root_a root_b ne ea eb;
        same_ids = same_length-linked u v ra rb sa sb root_a root_b ne ea eb;
        picked = inl (fa, fb);
        joined = find_immutable-linked u v ra rb sa sb root_a root_b ne ea eb;
        larger = (sa, sb, ea, eb, omega arith);
      },
    )
  ]

  join_roots_lem :
      (w : UnionFind) × (kept : ℕ) × (gone : ℕ) × (join_roots u ra rb ≡ some (w, kept, gone))
      × Joins u a b w kept gone
  join_roots_lem =
      let (sa, ea) = size_total u.parents u.sizes v ra (get_elem?-lt u.parents ra root_a) in
      let (sb, eb) = size_total u.parents u.sizes v rb (get_elem?-lt u.parents rb root_b) in
      elim (ℕ_discrete ra rb) [
        | yes e ↦ let (ran, done) = join_equal sa ea e in (u, ra, ra, ran, done)
        | no ne ↦ join_distinct sa sb ne ea eb
      ]

Joins-carry :
    (u q w : UnionFind) (a b kept gone : ℕ)
    → ((x : ℕ) → find_immutable q x ≡ find_immutable u x)
    → q.sizes ≡ u.sizes
    → length q.parents ≡ length u.parents
    → Joins q a b w kept gone
    → Joins u a b w kept gone
Joins-carry u q w a b kept gone same sizes len j = record {
  is_valid = j.is_valid;
  same_ids = j.same_ids ∙ len;
  picked = rw (← same a, ← same b) j.picked;
  joined = λ x. j.joined x ∙ ap (redirect_root gone kept) (same x);
  larger =
      let (s, t, p, q', le) = j.larger in
      (
        s,
        t,
        ap (λ (l : List ℕ). get_elem? l kept) (sym sizes) ∙ p,
        ap (λ (l : List ℕ). get_elem? l gone) (sym sizes) ∙ q',
        le,
      );
}

-- `union` of two ids in range of a valid state always returns. In the state that it returns, which
-- is valid over the same ids, the root of each id is as before, but that the absorbed root is
-- replaced by the kept one; these two are the roots of the arguments, equal where those were in
-- one set, and the kept root's recorded size is at least the absorbed one's.
pub union_lem :
    (u : UnionFind) (a b : ℕ)
    → IsValid u
    → a < length u.parents
    → b < length u.parents
    → (w : UnionFind) × (kept : ℕ) × (gone : ℕ) × (union u a b ≡ some (w, kept, gone))
      × Joins u a b w kept gone
unfolding union join_roots
union_lem u a b v la lb =
    let (u1, ra, ran1, fa, v1, sizes1, len1, same1, _) = find_lem u a v la in
    let (u2, rb, ran2, fb, v2, sizes2, len2, same2, _) = find_lem u1 b v1 (rw len1 lb) in
    let (w, kept, gone, ran, j) =
      join_roots_lem u2 v2 a b ra rb (same2 a ∙ same1 a ∙ fa) (same2 b ∙ fb) in
    (
      w,
      kept,
      gone,
      ground (arith, ran1, ran2, ran),
      Joins-carry u u2 w a b kept gone (λ x. same2 x ∙ same1 x) (sizes2 ∙ sizes1) (len2 ∙ len1) j,
    )

pub redirect_root_inv :
    (gone kept r : ℕ) (o : Option ℕ)
    → redirect_root gone kept o ≡ some r
    → ((o ≡ some gone) × (r ≡ kept)) ⊎ (o ≡ some r)
redirect_root_inv gone kept r none h = cc
redirect_root_inv gone kept r (some s) h = ground arith

-- The same, of a result at hand.
pub union-Joins :
    (u w : UnionFind) (a b kept gone : ℕ)
    → IsValid u
    → a < length u.parents
    → b < length u.parents
    → union u a b ≡ some (w, kept, gone)
    → Joins u a b w kept gone
union-Joins u w a b kept gone v la lb h =
    let (w', k, g, ran, j) = union_lem u a b v la lb in
    let e : ◌≡◌ {A = UnionFind × ℕ × ℕ} (w', k, g) (w, kept, gone) = some-inj (sym ran ∙ h) in
    subst (λ (t : UnionFind × ℕ × ℕ). Joins u a b t.0 t.1 t.2) e j
