-- ===== src/Prelude/Sorting.antt =====
-- Sorting by insertion, and sets of ids as lists.
use Prim.Native.Nat.{ℕ}
use mathlib.Core.Bool.{Bool, false, ◌||◌}
use mathlib.Core.List.{List, [], ◌∷◌}
use aiiiia.Prelude.Tests.{◌==◌, if◌then◌else◌, Bool-cases}
use aiiiia.Prelude.Lists.{All}
use mathlib.Core.Logic.{inl, inr}

abbrev pub is_in : ℕ → List ℕ → Bool
is_in i [] = false
is_in i (j ∷ js) = (i == j) || is_in i js

module _ {ℓ} {A : Type ℓ} where
  abbrev pub insert_by : (A → A → Bool) → A → List A → List A
  insert_by before a [] = a ∷ []
  insert_by before a (b ∷ rows) = if before b a then b ∷ insert_by before a rows else a ∷ b ∷ rows

  abbrev pub order_by : (A → A → Bool) → List A → List A
  order_by before [] = []
  order_by before (a ∷ rows) = insert_by before a (order_by before rows)

module _ {ℓ} {A : Type ℓ} (P : A → Type 0) where
  pub All-insert_by :
      (before : A → A → Bool) (a : A) (rows : List A)
      → P a
      → All P rows
      → All P (insert_by before a rows)
  All-insert_by before a [] pa h = (pa, tt)
  All-insert_by before a (b ∷ rows) pa h = elim (Bool-cases (before b a)) [
    | inl e ↦ rw e (h.0, All-insert_by before a rows pa h.1)
    | inr e ↦ rw e (pa, h)
  ]

  pub All-order_by :
      (before : A → A → Bool) (rows : List A) → All P rows → All P (order_by before rows)
  All-order_by before [] h = tt
  All-order_by before (a ∷ rows) h =
      All-insert_by before a (order_by before rows) h.0 (All-order_by before rows h.1)
