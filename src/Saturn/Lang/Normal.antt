-- ===== src/Saturn/Lang/Normal.antt =====
-- The normal form of nodes in src/lang.rs.
use aiiiia.Prelude.{
  ℕ, ◌≡◌, refl, sym, ap, ◌∙◌, subst, ◌≢◌, ◌⊎◌, inl, inr, true, false, ◌&&◌, List, [], ◌∷◌, arith,
  ltb, Bool-cases, length, All,
}
use aiiiia.Saturn.Lang.Reach.{ℕ-cases}
use aiiiia.Saturn.Lang.{Op, arity, is_commutative, const}
use aiiiia.Saturn.Lang.Node.{ENode, normalize}

ltb_asym : (a b : ℕ) → ltb a b ≡ true → ltb b a ≡ false
ltb_asym a b h = ground arith

ltb_flip : (a b : ℕ) → a ≢ b → ltb a b ≡ false → ltb b a ≡ true
ltb_flip a b apart h = ground arith

module _ {F : Type 0} where
  -- Normal form leaves a node, or swaps its two children.
  normalize_pair :
      (op : Op F) (children : List ℕ)
      → let n : ENode F = record { op = op; children = children } in
        (normalize n ≡ n)
        ⊎ ((a : ℕ) × ((b : ℕ) × ((children ≡ a ∷ b ∷ [])
                × (normalize n ≡ record { op = op; children = b ∷ a ∷ [] }))))
  unfolding normalize
  normalize_pair op [] = inl refl
  normalize_pair op (a ∷ []) = inl refl
  normalize_pair op (a ∷ b ∷ c ∷ rest) = inl refl
  normalize_pair op (a ∷ b ∷ []) = elim (Bool-cases (is_commutative op && ltb b a)) [
    | inl swaps ↦ inr (a, (b, (refl, rw swaps refl)))
    | inr stays ↦ inl (rw stays refl)
  ]

  normalize-cases :
      (n : ENode F)
      → (normalize n ≡ n)
        ⊎ ((a : ℕ) × ((b : ℕ) × ((n.children ≡ a ∷ b ∷ [])
                × (normalize n ≡ record n { children = b ∷ a ∷ [] }))))
  normalize-cases n = normalize_pair n.op n.children

  pub normalize-All :
      (P : ℕ → Type 0) (n : ENode F) → All P n.children → All P (normalize n).children
  normalize-All P n h = elim (normalize-cases n) [
    | inl e ↦ subst (λ m. All P m.children) (sym e) h
    | inr (a, (b, (shape, e))) ↦
        let (pa, (pb, none_left)) = subst (All P) shape h in
        subst (λ m. All P m.children) (sym e) (pb, (pa, none_left))
  ]

  pub normalize-arity :
      (n : ENode F)
      → length n.children ≡ arity n.op
      → length (normalize n).children ≡ arity (normalize n).op
  normalize-arity n h = elim (normalize-cases n) [
    | inl e ↦ subst (λ m. length m.children ≡ arity m.op) (sym e) h
    | inr (a, (b, (shape, e))) ↦
        subst (λ m. length m.children ≡ arity m.op) (sym e) (sym (ap length shape) ∙ h)
  ]

  -- Either order of the operands of a commutative operator has one normal form.
  pub normalize-swap :
      (op : Op F) (a b : ℕ)
      → is_commutative op ≡ true
      → normalize record { op = op; children = b ∷ a ∷ [] }
        ≡ normalize record { op = op; children = a ∷ b ∷ [] }
  unfolding normalize
  normalize-swap op a b h = elim (ℕ-cases a b) [
    | inl same ↦ rw same refl
    | inr apart ↦ elim (Bool-cases (ltb a b)) [
      | inl e ↦ rw (h, e, ltb_asym a b e) refl
      | inr e ↦ rw (h, e, ltb_flip a b apart e) refl
    ]
  ]

  pub commutative-arity : (op : Op F) → is_commutative op ≡ true → 2 ≡ arity op
  unfolding is_commutative arity
  commutative-arity (const c) h = cc
  commutative-arity op h = cc
