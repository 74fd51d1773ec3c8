-- ===== src/Prelude/Members.antt =====
-- Sorting and dropping repetitions keep the members of a list.
use Prim.Native.Nat.{ℕ, suc, ◌≤◌}
use mathlib.Core.Path.{◌≡◌, refl, ◌∙◌}
use mathlib.Core.Logic.{inl, inr}
use mathlib.Core.Bool.{Bool}
use mathlib.Core.List.{List, [], ◌∷◌}
use native.Mathlib.Omega.{arith}
use aiiiia.Prelude.Tests.{◌==◌, Bool-cases, ==_iff}
use aiiiia.Prelude.Lists.{Any, length}
use aiiiia.Prelude.Sorting.{insert_by, order_by}
use aiiiia.Prelude.Distinct.{dedup_after, dedup}

module _ {ℓ} {A : Type ℓ} (P : A → Type 0) (before : A → A → Bool) where
  Any-insert_by_here : (a : A) (rows : List A) → P a → Any P (insert_by before a rows)
  Any-insert_by_here a [] h = inl h
  Any-insert_by_here a (b ∷ rows) h = elim (Bool-cases (before b a)) [
    | inl e ↦ rw e (inr (Any-insert_by_here a rows h))
    | inr e ↦ rw e (inl h)
  ]

  Any-insert_by_there : (a : A) (rows : List A) → Any P rows → Any P (insert_by before a rows)
  Any-insert_by_there a [] h = absurd h
  Any-insert_by_there a (b ∷ rows) h = elim (Bool-cases (before b a)) [
    | inl e ↦ rw e (elim h [ inl k ↦ inl k | inr k ↦ inr (Any-insert_by_there a rows k) ])
    | inr e ↦ rw e (inr h)
  ]

  pub Any-order_by : (rows : List A) → Any P rows → Any P (order_by before rows)
  Any-order_by [] h = h
  Any-order_by (a ∷ rows) h = elim h [
    | inl k ↦ Any-insert_by_here a (order_by before rows) k
    | inr k ↦ Any-insert_by_there a (order_by before rows) (Any-order_by rows k)
  ]

module _ {ℓ} {A : Type ℓ} (before : A → A → Bool) where
  length-insert_by : (a : A) (rows : List A) → length (insert_by before a rows) ≡ suc (length rows)
  length-insert_by a [] = refl
  length-insert_by a (b ∷ rows) = elim (Bool-cases (before b a)) [
    | inl e ↦ rw e (omega (arith, length-insert_by a rows))
    | inr e ↦ rw e refl
  ]

  pub length-order_by : (rows : List A) → length (order_by before rows) ≡ length rows
  length-order_by [] = refl
  length-order_by (a ∷ rows) =
      omega (arith, length-insert_by a (order_by before rows), length-order_by rows)

length-dedup_after : (x : ℕ) (ys : List ℕ) → length (dedup_after x ys) ≤ length ys
length-dedup_after x [] = omega arith
length-dedup_after x (y ∷ ys) = elim (Bool-cases (y == x)) [
  | inl e ↦ rw e (omega (arith, length-dedup_after x ys))
  | inr e ↦ rw e (omega (arith, length-dedup_after y ys))
]

pub length-dedup : (xs : List ℕ) → length (dedup xs) ≤ length xs
length-dedup [] = omega arith
length-dedup (x ∷ xs) = omega (arith, length-dedup_after x xs)

Any-dedup_after :
    (c x : ℕ) (ys : List ℕ) → Any (λ y. c ≡ y) (x ∷ ys) → Any (λ y. c ≡ y) (x ∷ dedup_after x ys)
Any-dedup_after c x [] h = h
Any-dedup_after c x (y ∷ ys) h = elim (Bool-cases (y == x)) [
  | inl e ↦ rw e (
      Any-dedup_after c x ys (elim h [
        | inl k ↦ inl k
        | inr k ↦ elim k [ inl same ↦ inl (same ∙ (==_iff y x).0 e) | inr later ↦ inr later ]
      ]))
  | inr e ↦ rw e (elim h [ inl k ↦ inl k | inr k ↦ inr (Any-dedup_after c y ys k) ])
]

pub Any-dedup : (c : ℕ) (xs : List ℕ) → Any (λ y. c ≡ y) xs → Any (λ y. c ≡ y) (dedup xs)
Any-dedup c [] h = h
Any-dedup c (x ∷ xs) h = Any-dedup_after c x xs h
