-- ===== src/Prelude/Lists.antt =====
-- Lists measured and indexed by native numbers, under the library's names.
use Prim.Native.Nat.{ℕ, zero, suc, ◌+◌, ◌-◌, ◌<◌, ◌≤◌, min}
use mathlib.Core.Path.{◌≡◌, refl, ap}
use mathlib.Core.Logic.{◌≢◌, ◌⊎◌, inl, inr}
use mathlib.Core.List.{List, [], ◌∷◌, ◌++◌, map}
use mathlib.Core.Option.{Option, none, some}
use native.Mathlib.Omega.{arith}

module _ {ℓ} {A : Type ℓ} where
  abbrev pub length : List A → ℕ
  length [] = 0
  length (x ∷ xs) = suc (length xs)

  abbrev pub get_elem? : List A → ℕ → Option A
  get_elem? [] i = none
  get_elem? (x ∷ xs) zero = some x
  get_elem? (x ∷ xs) (suc i) = get_elem? xs i

  -- A write out of bounds changes nothing.
  abbrev pub set : List A → ℕ → A → List A
  set [] i v = []
  set (x ∷ xs) zero v = v ∷ xs
  set (x ∷ xs) (suc i) v = x ∷ set xs i v

  pub length-append : (xs ys : List A) → length (xs ++ ys) ≡ length xs + length ys
  length-append [] ys = omega arith
  length-append (x ∷ xs) ys = omega (arith, length-append xs ys)

module _ {ℓ} {A : Type ℓ} where
  pub length-set : (xs : List A) (i : ℕ) (v : A) → length (set xs i v) ≡ length xs
  length-set [] i v = refl
  length-set (x ∷ xs) zero v = refl
  length-set (x ∷ xs) (suc i) v = ap suc (length-set xs i v)

  pub get_elem?-set_self :
      (xs : List A) (i : ℕ) (v : A) → i < length xs → get_elem? (set xs i v) i ≡ some v
  get_elem?-set_self [] i v h = elim h [ ]
  get_elem?-set_self (x ∷ xs) zero v h = refl
  get_elem?-set_self (x ∷ xs) (suc i) v h = get_elem?-set_self xs i v (omega arith)

  pub get_elem?-set_ne :
      (xs : List A) {i j : ℕ} (v : A) → i ≢ j → get_elem? (set xs i v) j ≡ get_elem? xs j
  get_elem?-set_ne [] v h = refl
  get_elem?-set_ne (x ∷ xs) {i = zero} {j = zero} v h = absurd (h refl)
  get_elem?-set_ne (x ∷ xs) {i = zero} {j = suc j} v h = refl
  get_elem?-set_ne (x ∷ xs) {i = suc i} {j = zero} v h = refl
  get_elem?-set_ne (x ∷ xs) {i = suc i} {j = suc j} v h = get_elem?-set_ne xs v (λ e. h (ap suc e))

module _ {ℓ} {A : Type ℓ} where
  abbrev pub get_or : List A → ℕ → A → A
  get_or [] i d = d
  get_or (x ∷ xs) zero d = x
  get_or (x ∷ xs) (suc i) d = get_or xs i d

  abbrev pub take : ℕ → List A → List A
  take zero xs = []
  take (suc n) [] = []
  take (suc n) (x ∷ xs) = x ∷ take n xs

  abbrev pub drop : ℕ → List A → List A
  drop zero xs = xs
  drop (suc n) [] = []
  drop (suc n) (x ∷ xs) = drop n xs

  abbrev pub replicate : ℕ → A → List A
  replicate zero a = []
  replicate (suc n) a = a ∷ replicate n a

  pub take-append-drop : (n : ℕ) (xs : List A) → take n xs ++ drop n xs ≡ xs
  take-append-drop zero xs = refl
  take-append-drop (suc n) [] = refl
  take-append-drop (suc n) (x ∷ xs) = rw (take-append-drop n xs)

  pub length-take : (n : ℕ) (xs : List A) → length (take n xs) ≡ min n (length xs)
  length-take zero xs = omega arith
  length-take (suc n) [] = omega arith
  length-take (suc n) (x ∷ xs) = omega (arith, length-take n xs)

  pub length-drop : (n : ℕ) (xs : List A) → length (drop n xs) ≡ length xs - n
  length-drop zero xs = omega arith
  length-drop (suc n) [] = omega arith
  length-drop (suc n) (x ∷ xs) = omega (arith, length-drop n xs)

  pub length-replicate : (n : ℕ) (a : A) → length (replicate n a) ≡ n
  length-replicate zero a = refl
  length-replicate (suc n) a = ap suc (length-replicate n a)

  pub length-map {κ} : {B : Type κ} (xs : List A) (f : A → B) → length (map f xs) ≡ length xs
  length-map [] f = refl
  length-map (x ∷ xs) f = ap suc (length-map xs f)

abbrev pub sum : List ℕ → ℕ
sum [] = 0
sum (x ∷ xs) = x + sum xs

module _ {ℓ} {A : Type ℓ} where
  pub get_elem?-lt : (xs : List A) (i : ℕ) {a : A} → get_elem? xs i ≡ some a → i < length xs
  get_elem?-lt [] i h = cc
  get_elem?-lt (x ∷ xs) zero h = omega arith
  get_elem?-lt (x ∷ xs) (suc i) h = omega (arith, get_elem?-lt xs i h)

  pub get_elem?_total : (xs : List A) (i : ℕ) → i < length xs → (a : A) × (get_elem? xs i ≡ some a)
  get_elem?_total [] i h = elim h [ ]
  get_elem?_total (x ∷ xs) zero h = (x, refl)
  get_elem?_total (x ∷ xs) (suc i) h = get_elem?_total xs i (omega arith)

  pub get_elem?_beyond : (xs : List A) (i : ℕ) → length xs ≤ i → get_elem? xs i ≡ none
  get_elem?_beyond [] i h = refl
  get_elem?_beyond (x ∷ xs) zero h = elim h [ ]
  get_elem?_beyond (x ∷ xs) (suc i) h = get_elem?_beyond xs i (omega arith)

  pub get_elem?-append_left :
      (xs ys : List A) (i : ℕ) → i < length xs → get_elem? (xs ++ ys) i ≡ get_elem? xs i
  get_elem?-append_left [] ys i h = elim h [ ]
  get_elem?-append_left (x ∷ xs) ys zero h = refl
  get_elem?-append_left (x ∷ xs) ys (suc i) h = get_elem?-append_left xs ys i (omega arith)

  pub get_elem?-append_end : (xs : List A) (a : A) → get_elem? (xs ++ a ∷ []) (length xs) ≡ some a
  get_elem?-append_end [] a = refl
  get_elem?-append_end (x ∷ xs) a = get_elem?-append_end xs a

pub get_elem?-le-sum : (xs : List ℕ) (i : ℕ) {n : ℕ} → get_elem? xs i ≡ some n → n ≤ sum xs
get_elem?-le-sum [] i h = cc
get_elem?-le-sum (x ∷ xs) zero h = ground arith
get_elem?-le-sum (x ∷ xs) (suc i) h = omega (arith, get_elem?-le-sum xs i h)

pub some-inj {ℓ} : {A : Type ℓ} {a b : A} → some a ≡ some b → a ≡ b
some-inj h = cc

-- What a list with one entry more holds at an index.
pub get_elem?-append_cases {ℓ} :
    {A : Type ℓ} (xs : List A) (a : A) (i : ℕ) {b : A}
    → get_elem? (xs ++ a ∷ []) i ≡ some b
    → (get_elem? xs i ≡ some b) ⊎ ((i ≡ length xs) × (a ≡ b))
get_elem?-append_cases [] a zero h = inr (refl, some-inj h)
get_elem?-append_cases [] a (suc i) h = cc
get_elem?-append_cases (x ∷ xs) a zero h = inl h
get_elem?-append_cases (x ∷ xs) a (suc i) h = elim (get_elem?-append_cases xs a i h) [
  | inl e ↦ inl e
  | inr (e, same) ↦ inr (ap suc e, same)
]

-- Every entry satisfies the predicate; some entry does.
module _ {ℓ} {A : Type ℓ} (P : A → Type 0) where
  abbrev pub All : List A → Type 0
  All [] = Unit
  All (first ∷ others) = P first × All others

  abbrev pub Any : List A → Type 0
  Any [] = ⊥
  Any (first ∷ others) = P first ⊎ Any others

-- Two lists of one length whose entries are related place by place.
abbrev pub All2 {ℓ} : {A : Type ℓ} → (A → A → Type 0) → List A → List A → Type 0
All2 R [] [] = Unit
All2 R [] (y ∷ ys) = ⊥
All2 R (x ∷ xs) [] = ⊥
All2 R (x ∷ xs) (y ∷ ys) = R x y × All2 R xs ys

pub All2-trans {ℓ} :
    {A : Type ℓ} (R : A → A → Type 0) (trans : (a b c : A) → R a b → R b c → R a c)
    (xs ys zs : List A)
    → All2 R xs ys
    → All2 R ys zs
    → All2 R xs zs
All2-trans R trans [] [] zs h k = k
All2-trans R trans [] (y ∷ ys) zs h k = absurd h
All2-trans R trans (x ∷ xs) [] zs h k = absurd h
All2-trans R trans (x ∷ xs) (y ∷ ys) [] h k = absurd k
All2-trans R trans (x ∷ xs) (y ∷ ys) (z ∷ zs) h k =
    (trans x y z h.0 k.0, All2-trans R trans xs ys zs h.1 k.1)

pub All2-refl {ℓ} :
    {A : Type ℓ} (R : A → A → Type 0) (refl_of : (a : A) → R a a) (xs : List A) → All2 R xs xs
All2-refl R refl_of [] = tt
All2-refl R refl_of (x ∷ xs) = (refl_of x, All2-refl R refl_of xs)

module _ {ℓ} {A : Type ℓ} where
  pub All-mono :
      (P Q : A → Type 0) (rows : List A) → ((a : A) → P a → Q a) → All P rows → All Q rows
  All-mono P Q [] step h = tt
  All-mono P Q (a ∷ rows) step h = (step a h.0, All-mono P Q rows step h.1)

  pub All-both :
      (P Q R : A → Type 0) (rows : List A)
      → ((a : A) → P a → Q a → R a)
      → All P rows
      → All Q rows
      → All R rows
  All-both P Q R [] step h k = tt
  All-both P Q R (a ∷ rows) step h k = (step a h.0 k.0, All-both P Q R rows step h.1 k.1)
