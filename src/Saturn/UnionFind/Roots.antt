-- ===== src/Saturn/UnionFind/Roots.antt =====
-- The forest that the parent links of src/unionfind.rs form, and the root of each id in it.
use aiiiia.Prelude.{
  ℕ, zero, suc, ◌+◌, ◌<◌, ◌≡◌, ◌≢◌, refl, sym, ap, ◌∙◌, some, List, [], ◌∷◌, ◌==◌, if◌then◌else◌,
  ◌^◌, arith, length, get_elem?, get_elem?_total, get_elem?-lt, some-inj, ℕ_discrete, sum,
  get_elem?-le-sum,
}

-- `r` is the root that the links from `x` lead to.
pub data RootOf (ps : List ℕ) : ℕ → ℕ → Type 0 where
  root : {x r : ℕ} → x ≡ r → get_elem? ps x ≡ some x → RootOf ps x r
  link : {x y r : ℕ} → get_elem? ps x ≡ some y → x ≢ y → RootOf ps y r → RootOf ps x r

-- The recorded sizes of the roots among ids from `i` on, added up.
abbrev pub root_sizes : ℕ → List ℕ → List ℕ → ℕ
root_sizes i [] ss = 0
root_sizes i (p ∷ ps) [] = 0
root_sizes i (p ∷ ps) (s ∷ ss) = (if p == i then s else 0) + root_sizes (i + 1) ps ss

-- Links stay in range, and the recorded size grows along each of them, so there is no cycle; the sizes of
-- the roots add up to the number of ids, which fits a u32.
pub record IsForest (ps ss : List ℕ) : Type 0 where
  pub same_length : length ps ≡ length ss
  pub closed : (x y : ℕ) → get_elem? ps x ≡ some y → y < length ps
  pub grows :
      (x y s t : ℕ)
      → get_elem? ps x ≡ some y
      → x ≢ y
      → get_elem? ss x ≡ some s
      → get_elem? ss y ≡ some t
      → s < t
  pub positive : (x s : ℕ) → get_elem? ss x ≡ some s → 0 < s
  pub counted : root_sizes 0 ps ss ≡ length ps
  pub fits : length ps < 2 ^ 32

module _ (ps : List ℕ) where
  pub RootOf-root : {x r : ℕ} → RootOf ps x r → get_elem? ps r ≡ some r
  RootOf-root (root e h) = cc
  RootOf-root (link h n d) = RootOf-root d

  pub RootOf_start-lt : {x r : ℕ} → RootOf ps x r → x < length ps
  RootOf_start-lt (root e h) = get_elem?-lt ps _ h
  RootOf_start-lt (link h n d) = get_elem?-lt ps _ h

  pub RootOf-lt : {x r : ℕ} → RootOf ps x r → r < length ps
  RootOf-lt d = get_elem?-lt ps _ (RootOf-root d)

  pub RootOf-of_root : {x r : ℕ} → get_elem? ps x ≡ some x → RootOf ps x r → x ≡ r
  RootOf-of_root h (root e _) = e
  RootOf-of_root h (link h' n d) = absurd (n (some-inj (sym h ∙ h')))

  pub RootOf-link : {x y r : ℕ} → get_elem? ps x ≡ some y → x ≢ y → RootOf ps x r → RootOf ps y r
  RootOf-link h n (root e h') = absurd (n (some-inj (sym h' ∙ h)))
  RootOf-link {x} {y} {r} h n (link {y = z} h' n' d) =
      let e : z ≡ y = some-inj (sym h' ∙ h) in rw (← e) d

  pub RootOf_unique : {x r s : ℕ} → RootOf ps x r → RootOf ps x s → r ≡ s
  RootOf_unique (root e h) d = sym e ∙ RootOf-of_root h d
  RootOf_unique (link h n c) d = RootOf_unique c (RootOf-link h n d)

module _ (ps ss : List ℕ) (f : IsForest ps ss) where
  -- Every id in range has a recorded size.
  pub size_total : (x : ℕ) → x < length ps → (s : ℕ) × (get_elem? ss x ≡ some s)
  size_total x h = get_elem?_total ss x (omega (arith, f.same_length))

  -- Fuel beyond the total of the sizes climbs to a root.
  root_total_from :
      (fuel x s : ℕ)
      → get_elem? ss x ≡ some s
      → sum ss < s + fuel
      → x < length ps
      → (r : ℕ) × RootOf ps x r
  root_total_from zero x s e h lt = absurd (omega (arith, get_elem?-le-sum ss x e))
  root_total_from (suc fuel) x s e h lt =
      let (y, py) = get_elem?_total ps x lt in
      elim (ℕ_discrete x y) [
        | yes same ↦ (x, root refl (py ∙ ap some (sym same)))
        | no n ↦
            let ly = f.closed x y py in
            let (t, et) = size_total y ly in
            let grown = f.grows x y s t py n e et in
            let (r, d) = root_total_from fuel y t et (omega arith) ly in (r, link py n d)
      ]

  pub root_total : (x : ℕ) → x < length ps → (r : ℕ) × RootOf ps x r
  root_total x lt =
      let (s, e) = size_total x lt in root_total_from (suc (sum ss)) x s e (omega arith) lt
