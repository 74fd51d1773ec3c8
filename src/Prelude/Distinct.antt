-- ===== src/Prelude/Distinct.antt =====
-- Lists without repetition, and the sorting of numbers that leaves one of each.
use Prim.Native.Nat.{ℕ, ◌≤◌, ◌<◌}
use mathlib.Core.Path.{◌≡◌}
use mathlib.Core.Logic.{inl, inr}
use native.Mathlib.Omega.{arith}
use mathlib.Core.Bool.{false}
use mathlib.Core.List.{List, [], ◌∷◌}
use aiiiia.Prelude.Tests.{ltb, ◌==◌, if◌then◌else◌, Bool-cases, ltb→lt}
use aiiiia.Prelude.Lists.{All, Any, All-mono}
use aiiiia.Prelude.Sorting.{insert_by, order_by, All-insert_by}

-- Vec::dedup: an entry equal to the one before it is dropped.
abbrev pub dedup_after : ℕ → List ℕ → List ℕ
dedup_after x [] = []
dedup_after x (y ∷ ys) = if y == x then dedup_after x ys else y ∷ dedup_after y ys

abbrev pub dedup : List ℕ → List ℕ
dedup [] = []
dedup (x ∷ xs) = x ∷ dedup_after x xs

abbrev pub IsDistinct : List ℕ → Type 0
IsDistinct [] = Unit
IsDistinct (x ∷ xs) = (Any (λ y. x ≡ y) xs → ⊥) × IsDistinct xs

abbrev IsSorted : List ℕ → Type 0
IsSorted [] = Unit
IsSorted (x ∷ xs) = All (λ y. x ≤ y) xs × IsSorted xs

not_below : (b a : ℕ) → ltb b a ≡ false → a ≤ b
not_below b a e = ground arith

insert_by-IsSorted : (a : ℕ) (xs : List ℕ) → IsSorted xs → IsSorted (insert_by ltb a xs)
insert_by-IsSorted a [] h = (tt, tt)
insert_by-IsSorted a (b ∷ xs) h = elim (Bool-cases (ltb b a)) [
  | inl e ↦ rw e (
    All-insert_by (λ y. b ≤ y) ltb a xs (omega (arith, ltb→lt b a e)) h.0,
    insert_by-IsSorted a xs h.1,
  )
  | inr e ↦
      let le = not_below b a e in
      rw e ((le, All-mono (λ y. b ≤ y) (λ y. a ≤ y) xs (λ y k. omega arith) h.0), h)
]

order_by-IsSorted : (xs : List ℕ) → IsSorted (order_by ltb xs)
order_by-IsSorted [] = tt
order_by-IsSorted (x ∷ xs) = insert_by-IsSorted x (order_by ltb xs) (order_by-IsSorted xs)

not_above : (x : ℕ) (ys : List ℕ) → All (λ y. x < y) ys → Any (λ y. x ≡ y) ys → ⊥
not_above x [] h k = k
not_above x (y ∷ ys) h k = elim k [ inl e ↦ omega arith | inr later ↦ not_above x ys h.1 later ]

-- What is left is above the entry before it.
dedup_after_above :
    (x : ℕ) (ys : List ℕ)
    → All (λ y. x ≤ y) ys
    → IsSorted ys
    → All (λ y. x < y) (dedup_after x ys) × IsDistinct (dedup_after x ys)
dedup_after_above x [] h sorted = (tt, tt)
dedup_after_above x (y ∷ ys) h sorted = elim (Bool-cases (y == x)) [
  | inl e ↦ rw e (dedup_after_above x ys h.1 sorted.1)
  | inr e ↦
      let above = differs y x h.0 e in
      let (more, distinct) = dedup_after_above y ys sorted.0 sorted.1 in
      rw e (
        (above, All-mono (λ z. y < z) (λ z. x < z) (dedup_after y ys) (λ z k. omega arith) more),
        (not_above y (dedup_after y ys) more, distinct),
      )
]
  where
    differs : (y x : ℕ) → x ≤ y → (y == x) ≡ false → x < y
    differs y x le e = ground arith

pub dedup-IsDistinct : (xs : List ℕ) → IsDistinct (dedup (order_by ltb xs))
dedup-IsDistinct xs = distinct (order_by ltb xs) (order_by-IsSorted xs)
  where
    distinct : (xs : List ℕ) → IsSorted xs → IsDistinct (dedup xs)
    distinct [] h = tt
    distinct (x ∷ xs) h =
        let (above, rest) = dedup_after_above x xs h.0 h.1 in
        (not_above x (dedup_after x xs) above, rest)

module _ (P : ℕ → Type 0) where
  pub All-dedup : (xs : List ℕ) → All P xs → All P (dedup xs)
  All-dedup [] h = tt
  All-dedup (x ∷ xs) h = (h.0, after x xs h.1)
    where
      after : (x : ℕ) (ys : List ℕ) → All P ys → All P (dedup_after x ys)
      after x [] h = tt
      after x (y ∷ ys) h = elim (Bool-cases (y == x)) [
        | inl e ↦ rw e (after x ys h.1)
        | inr e ↦ rw e (h.0, after y ys h.1)
      ]
