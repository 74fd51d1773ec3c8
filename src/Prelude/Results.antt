-- ===== src/Prelude/Results.antt =====
-- Results: a value, or an error of some type, as Rust's `Result`.
use mathlib.Core.Path.{◌≡◌, refl, ap}
use mathlib.Core.Logic.{◌↔◌}
use aiiiia.Prelude.Lists.{some-inj}
use mathlib.Core.Bool.{Bool, true, false}
use mathlib.Core.Option.{Option, none, some}
use aiiiia.Prelude.Tests.{if◌then◌else◌}

pub data Result {ℓ κ} (E : Type κ) (A : Type ℓ) : Type (ℓ ⊔ κ) where
  err : E → Result E A
  ok : A → Result E A

infixl 5 ◌>>=◌ ◌>>◌
module _ {ℓ κ} {E : Type 0} {A : Type ℓ} {B : Type κ} where
  -- Rust's `?`: an error is passed on.
  abbrev pub ◌>>=◌ : Result E A → (A → Result E B) → Result E B
  ◌>>=◌ (err problem) next = err problem
  ◌>>=◌ (ok value) next = next value

  -- What a chain that succeeds went through.
  pub >>=-eq-ok :
      (first : Result E A) (next : A → Result E B) {out : B}
      → ◌>>=◌ first next ≡ ok out
      → (value : A) × (first ≡ ok value) × (next value ≡ ok out)
  >>=-eq-ok (err problem) next h = cc
  >>=-eq-ok (ok value) next h = (value, refl, h)

module _ {ℓ} {E : Type 0} {A : Type ℓ} where
  abbrev pub ◌>>◌ : Result E (Unit {0}) → Result E A → Result E A
  ◌>>◌ (err problem) next = err problem
  ◌>>◌ (ok done) next = next

  pub >>-eq-ok :
      (first : Result E (Unit {0})) (next : Result E A) {out : A}
      → ◌>>◌ first next ≡ ok out
      → (first ≡ ok tt) × (next ≡ ok out)
  >>-eq-ok (err problem) next h = cc
  >>-eq-ok (ok done) next h = (refl, h)

  -- `o.ok_or(e)?`
  abbrev pub ok_or : Option A → E → Result E A
  ok_or none problem = err problem
  ok_or (some value) problem = ok value

  pub ok-inj : {a b : A} → ◌≡◌ {A = Result E A} (ok a) (ok b) → a ≡ b
  ok-inj h = cc

module _ {ℓ} {E : Type 0} {A : Type ℓ} where
  -- A test that fails with an error, passed.
  pub if_err :
      (b : Bool) (problem : E) (next : Result E A) {out : A}
      → (if b then err problem else next) ≡ ok out
      → (b ≡ false) × (next ≡ ok out)
  if_err true problem next h = cc
  if_err false problem next h = (refl, h)

  pub if_ok :
      (b : Bool) (problem : E) (next : Result E A) {out : A}
      → (if b then next else err problem) ≡ ok out
      → (b ≡ true) × (next ≡ ok out)
  if_ok true problem next h = (refl, h)
  if_ok false problem next h = cc

-- An error unless the test holds.
abbrev pub require : {E : Type 0} → Bool → E → Result E (Unit {0})
require holds problem = elim holds [ true ↦ ok tt | false ↦ err problem ]

pub ok_or_iff {ℓ} :
    {A : Type ℓ} {E : Type 0} (o : Option A) (problem : E) (a : A)
    → (ok_or o problem ≡ ok a) ↔ (o ≡ some a)
ok_or_iff none problem a = ((λ h. cc), (λ h. cc))
ok_or_iff (some b) problem a = ((λ h. ap some (ok-inj h)), (λ h. ap ok (some-inj h)))
