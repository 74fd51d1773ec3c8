-- ===== src/Saturn/UnionFind/Same.antt =====
-- `union` as an operation on the partition of the ids into sets.
use aiiiia.Prelude.{ℕ, ◌<◌, ◌≡◌, ◌↔◌, refl, sym, ◌∙◌, inl, inr, ◌⊎◌, some, arith, length, some-inj}
use aiiiia.Saturn.UnionFind.{UnionFind, find_immutable, union}
use aiiiia.Saturn.UnionFind.Find.{IsValid}
use aiiiia.Saturn.UnionFind.Union.{Joins, union-Joins, redirect_root_inv}
use aiiiia.Saturn.UnionFind.Link.{redirect}

-- Two ids are in one set.
abbrev pub Same : UnionFind → ℕ → ℕ → Type 0
Same u x y = (r : ℕ) × (find_immutable u x ≡ some r) × (find_immutable u y ≡ some r)

module _ {u w : UnionFind} {a b kept gone : ℕ} (j : Joins u a b w kept gone) where
  to_kept :
      (x : ℕ)
      → (find_immutable u x ≡ some kept) ⊎ (find_immutable u x ≡ some gone)
      → find_immutable w x ≡ some kept
  to_kept x (inl e) = j.joined x ∙ rw e (ground arith)
  to_kept x (inr e) = j.joined x ∙ rw e (ground arith)

  kept_or_gone :
      (c : ℕ) (r : ℕ) → (c ≡ a) ⊎ (c ≡ b) → find_immutable u c ≡ some r → (r ≡ kept) ⊎ (r ≡ gone)
  kept_or_gone c r (inl e) h = elim j.picked [
    | inl (p, q) ↦ inl (some-inj (sym h ∙ rw e p))
    | inr (p, q) ↦ inr (some-inj (sym h ∙ rw e p))
  ]
  kept_or_gone c r (inr e) h = elim j.picked [
    | inl (p, q) ↦ inr (some-inj (sym h ∙ rw e q))
    | inr (p, q) ↦ inl (some-inj (sym h ∙ rw e q))
  ]

  joins_to_kept : (x c : ℕ) → (c ≡ a) ⊎ (c ≡ b) → Same u x c → find_immutable w x ≡ some kept
  joins_to_kept x c which (r, p, q) =
      to_kept x
        (elim (kept_or_gone c r which q) [ inl e ↦ inl (rw (← e) p) | inr e ↦ inr (rw (← e) p) ])

  -- One id in the absorbed set and one in the kept set are in the sets of the two arguments.
  across :
      (x y : ℕ)
      → find_immutable u x ≡ some gone
      → find_immutable u y ≡ some kept
      → (Same u x a × Same u b y) ⊎ (Same u x b × Same u a y)
  across x y p q = elim j.picked [
    | inl (ka, gb) ↦ inr ((gone, p, gb), (kept, ka, q))
    | inr (ga, kb) ↦ inl ((gone, p, ga), (kept, kb, q))
  ]

  across_back :
      (x y : ℕ)
      → find_immutable u x ≡ some kept
      → find_immutable u y ≡ some gone
      → (Same u x a × Same u b y) ⊎ (Same u x b × Same u a y)
  across_back x y p q = elim j.picked [
    | inl (ka, gb) ↦ inl ((kept, p, ka), (gone, gb, q))
    | inr (ga, kb) ↦ inr ((kept, p, kb), (gone, ga, q))
  ]

  Joins-split :
      (x y : ℕ) → Same w x y → Same u x y ⊎ ((Same u x a × Same u b y) ⊎ (Same u x b × Same u a y))
  Joins-split x y (r, p, q) =
      let px = redirect_root_inv gone kept r (find_immutable u x) (sym (j.joined x) ∙ p) in
      let py = redirect_root_inv gone kept r (find_immutable u y) (sym (j.joined y) ∙ q) in
      elim px [
        | inl (gx, k) ↦ elim py [
          | inl (gy, _) ↦ inl (gone, gx, gy)
          | inr ry ↦ inr (across x y gx (rw k at ry))
        ]
        | inr rx ↦ elim py [
          | inl (gy, k) ↦ inr (across_back x y (rw k at rx) gy)
          | inr ry ↦ inl (r, rx, ry)
        ]
      ]

  Joins-merge :
      (x y : ℕ) → Same u x y ⊎ ((Same u x a × Same u b y) ⊎ (Same u x b × Same u a y)) → Same w x y
  Joins-merge x y (inl (r, p, q)) =
      (redirect gone kept r, j.joined x ∙ rw p refl, j.joined y ∙ rw q refl)
  Joins-merge x y (inr (inl (xa, (r, p, q)))) =
      (kept, joins_to_kept x a (inl refl) xa, joins_to_kept y b (inr refl) (r, q, p))
  Joins-merge x y (inr (inr (xb, (r, p, q)))) =
      (kept, joins_to_kept x b (inr refl) xb, joins_to_kept y a (inl refl) (r, q, p))

-- After `union` of `a` and `b` in a valid state, two ids are in one set exactly when they were before,
-- or when each was in the set of one of the two arguments.
pub union-Same :
    (u w : UnionFind) (a b kept gone x y : ℕ)
    → IsValid u
    → a < length u.parents
    → b < length u.parents
    → union u a b ≡ some (w, kept, gone)
    → Same w x y ↔ (Same u x y ⊎ ((Same u x a × Same u b y) ⊎ (Same u x b × Same u a y)))
union-Same u w a b kept gone x y v la lb h =
    let j = union-Joins u w a b kept gone v la lb h in (Joins-split j x y, Joins-merge j x y)
