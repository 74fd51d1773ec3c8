-- ===== src/Hookline/Tables.antt =====
-- The SQL statements of hookline/src/queue.rs and hookline/src/store.rs, as functions on a table that is
-- a list of rows: WHERE, UPDATE, ORDER BY, LIMIT, EXISTS and IN.
use aiiiia.Prelude.{
  ◌++◌, ℕ, zero, suc, ◌≡◌, refl, Option, none, some, Bool, true, false, ◌&&◌, ◌||◌, List, [], ◌∷◌,
  map, take, ltb, ◌^◌, if◌then◌else◌, All, All2, arith, Bool-cases, inl, inr,
}
use aiiiia.Prelude.Int.{ℤ, ltb_ℤ, leb_ℤ}

-- `t > now` and `t IS NULL OR t <= now`, for a column that may be NULL.
abbrev pub is_after : Option ℤ → ℤ → Bool
is_after none now = false
is_after (some t) now = ltb_ℤ now t

abbrev pub is_past : Option ℤ → ℤ → Bool
is_past none now = true
is_past (some t) now = leb_ℤ t now

-- `column = t`, which a NULL column never satisfies.
abbrev pub is_at : Option ℤ → ℤ → Bool
is_at none t = false
is_at (some u) t = leb_ℤ u t && leb_ℤ t u

or_false : (a b : Bool) → (a || b) ≡ false → (a ≡ false) × (b ≡ false)
or_false a b h = ground arith

module _ {ℓ} {A : Type ℓ} where
  abbrev pub rows_where : (A → Bool) → List A → List A
  rows_where p [] = []
  rows_where p (a ∷ rows) = if p a then a ∷ rows_where p rows else rows_where p rows

  abbrev pub first_where : (A → Bool) → List A → Option A
  first_where p [] = none
  first_where p (a ∷ rows) = if p a then some a else first_where p rows

  abbrev pub exists : (A → Bool) → List A → Bool
  exists p [] = false
  exists p (a ∷ rows) = p a || exists p rows

  -- UPDATE rows SET change WHERE p
  abbrev pub update : (A → Bool) → (A → A) → List A → List A
  update p change [] = []
  update p change (a ∷ rows) = (if p a then change a else a) ∷ update p change rows

  -- LIMIT of a usize passed as an i64: a negative one is no limit.
  abbrev pub limit_rows : ℕ → List A → List A
  limit_rows n rows = if ltb n (2 ^ 63) then take n rows else rows

  module _ (P : A → Type 0) where
    pub All-rows_where :
        (p : A → Bool) (rows : List A)
        → All (λ a. p a ≡ true → P a) rows
        → All P (rows_where p rows)
    All-rows_where p [] h = tt
    All-rows_where p (a ∷ rows) h = elim (Bool-cases (p a)) [
      | inl e ↦ rw e (h.0 e, All-rows_where p rows h.1)
      | inr e ↦ rw e (All-rows_where p rows h.1)
    ]

    pub All-take : (n : ℕ) (rows : List A) → All P rows → All P (take n rows)
    All-take zero rows h = tt
    All-take (suc n) [] h = tt
    All-take (suc n) (a ∷ rows) h = (h.0, All-take n rows h.1)

    pub All-limit_rows : (n : ℕ) (rows : List A) → All P rows → All P (limit_rows n rows)
    All-limit_rows n rows h = elim (Bool-cases (ltb n (2 ^ 63))) [
      | inl e ↦ rw e (All-take n rows h)
      | inr e ↦ rw e h
    ]

  pub All-update :
      (P Q : A → Type 0) (p : A → Bool) (change : A → A) (rows : List A)
      → ((a : A) → P a → Q (if p a then change a else a))
      → All P rows
      → All Q (update p change rows)
  All-update P Q p change [] step h = tt
  All-update P Q p change (a ∷ rows) step h = (step a h.0, All-update P Q p change rows step h.1)

  pub All-map {κ} :
      {B : Type κ} (P : A → Type 0) (Q : B → Type 0) (f : A → B) (rows : List A)
      → ((a : A) → P a → Q (f a))
      → All P rows
      → All Q (map f rows)
  All-map P Q f [] step h = tt
  All-map P Q f (a ∷ rows) step h = (step a h.0, All-map P Q f rows step h.1)

  pub All-Unit : (rows : List A) → All (λ a. Unit {0}) rows
  All-Unit [] = tt
  All-Unit (a ∷ rows) = (tt, All-Unit rows)

  pub All-always : (P : A → Type 0) (rows : List A) → ((a : A) → P a) → All P rows
  All-always P [] every = tt
  All-always P (a ∷ rows) every = (every a, All-always P rows every)

  pub All-append :
      (P : A → Type 0) (rows more : List A) → All P rows → All P more → All P (rows ++ more)
  All-append P [] more h k = k
  All-append P (a ∷ rows) more h k = (h.0, All-append P rows more h.1 k)

  pub All2-update :
      (R : A → A → Type 0) (p : A → Bool) (change : A → A) (rows : List A)
      → ((a : A) → p a ≡ true → R a (change a))
      → ((a : A) → R a a)
      → All2 R rows (update p change rows)
  All2-update R p change [] step same = tt
  All2-update R p change (a ∷ rows) step same = elim (Bool-cases (p a)) [
    | inl e ↦ rw e (step a e, All2-update R p change rows step same)
    | inr e ↦ rw e (same a, All2-update R p change rows step same)
  ]

  -- An update that finds no row changes nothing.
  pub update_none :
      (p : A → Bool) (change : A → A) (rows : List A)
      → exists p rows ≡ false
      → update p change rows ≡ rows
  update_none p change [] h = refl
  update_none p change (a ∷ rows) h =
      let parts = or_false (p a) (exists p rows) h in
      rw (parts.0, update_none p change rows parts.1)
