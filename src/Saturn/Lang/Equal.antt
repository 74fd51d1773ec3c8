-- ===== src/Saturn/Lang/Equal.antt =====
-- Equality of nodes in src/lang.rs: two nodes that compare equal are the same.
use aiiiia.Prelude.{
  ◌==◌, ==_iff, ℕ, zero, suc, ◌-◌, ◌≤◌, ◌≡◌, refl, sym, ap, ◌∙◌, subst, ◌↔◌, Bool, true, false,
  ◌&&◌, some, List, [], ◌∷◌, arith, get_elem?, some-inj,
}
use aiiiia.Saturn.Float.{Ieee}
use aiiiia.Saturn.Lang.{
  Op, const, var, add, sub, mul, div, pow, min_op, max_op, atan2, neg, sqrt, ln, exp, sin, cos, tan,
  abs, sign, floor, ceil, lt, le, gt, ge, eq, ne, and, or, not_op, if_else, diff,
}
use aiiiia.Saturn.Lang.Node.{ENode, tag, payload, op_eq, ids_eq, node_eq}

and_true : (a b : Bool) → (a && b) ≡ true → (a ≡ true) × (b ≡ true)
and_true true b h = (refl, h)
and_true false b h = cc

module _ {F : Type 0} where
  -- The operators but literals and variables, by their tags less two.
  abbrev plain_ops : List (Op F)
  plain_ops =
      add ∷ sub ∷ mul ∷ div ∷ pow ∷ min_op ∷ max_op ∷ atan2 ∷ neg ∷ sqrt ∷ ln ∷ exp ∷ sin ∷ cos
      ∷ tan ∷ abs ∷ sign ∷ floor ∷ ceil ∷ lt ∷ le ∷ gt ∷ ge ∷ eq ∷ ne ∷ and ∷ or ∷ not_op ∷ if_else
      ∷ diff ∷ []

  tag-plain_ops : (op : Op F) → 2 ≤ tag op → get_elem? plain_ops (tag op - 2) ≡ some op
  tag-plain_ops (const c) h = absurd (omega arith)
  tag-plain_ops (var s) h = absurd (omega arith)
  tag-plain_ops op h = refl

  tag_zero : (op : Op F) → tag op ≡ 0 → (c : F) × (op ≡ const c)
  tag_zero (const c) h = (c, refl)
  tag_zero op h = absurd (omega arith)

  tag_one : (op : Op F) → tag op ≡ 1 → (s : ℕ) × (op ≡ var s)
  tag_one (var s) h = (s, refl)
  tag_one op h = absurd (omega arith)

module _ {F : Type 0} (ieee : Ieee F) where
  op_eq_refl : (op : Op F) → op_eq ieee op op ≡ true
  unfolding op_eq
  op_eq_refl op =
      rw ((==_iff (tag op) (tag op)).1 refl) ((==_iff (payload ieee op) (payload ieee op)).1 refl)

  -- One tag and one payload are one operator.
  op_eq_sound : (a b : Op F) → op_eq ieee a b ≡ true → a ≡ b
  unfolding op_eq
  op_eq_sound a b h =
      let (tags, loads) = and_true (tag a == tag b) (payload ieee a == payload ieee b) h in
      by_tag ((==_iff (tag a) (tag b)).0 tags) ((==_iff (payload ieee a) (payload ieee b)).0 loads)
        (tag a) refl
    where
      by_tag : tag a ≡ tag b → payload ieee a ≡ payload ieee b → (t : ℕ) → tag a ≡ t → a ≡ b
      by_tag tags loads zero e =
          let (c, is_c) = tag_zero a e in
          let (d, is_d) = tag_zero b (sym tags ∙ e) in
          is_c
          ∙ ap const
              (ieee.bits_inj c d (ap (payload ieee) (sym is_c) ∙ loads ∙ ap (payload ieee) is_d))
          ∙ sym is_d
      by_tag tags loads (suc zero) e =
          let (s, is_s) = tag_one a e in
          let (u, is_u) = tag_one b (sym tags ∙ e) in
          is_s ∙ ap var (ap (payload ieee) (sym is_s) ∙ loads ∙ ap (payload ieee) is_u) ∙ sym is_u
      by_tag tags loads (suc (suc t)) e = some-inj (
          sym (tag-plain_ops a (omega arith))
          ∙ ap (λ k. get_elem? plain_ops (k - 2)) tags
          ∙ tag-plain_ops b (omega arith))

ids_eq_iff : (xs ys : List ℕ) → (ids_eq xs ys ≡ true) ↔ (xs ≡ ys)
ids_eq_iff [] [] = ((λ h. refl), (λ h. refl))
ids_eq_iff [] (y ∷ ys) = ((λ h. cc), (λ h. cc))
ids_eq_iff (x ∷ xs) [] = ((λ h. cc), (λ h. cc))
ids_eq_iff (x ∷ xs) (y ∷ ys) = (
  (λ h.
      let (heads, tails) = and_true (x == y) (ids_eq xs ys) h in
      cc ((==_iff x y).0 heads, (ids_eq_iff xs ys).0 tails)),
  (λ h.
      let heads : x ≡ y = cc in
      let tails : xs ≡ ys = cc in rw ((==_iff x y).1 heads) ((ids_eq_iff xs ys).1 tails)),
)

module _ {F : Type 0} (ieee : Ieee F) where
  -- Nodes compare equal exactly when they are the same.
  pub node_eq_iff : (a b : ENode F) → (node_eq ieee a b ≡ true) ↔ (a ≡ b)
  unfolding node_eq
  node_eq_iff a b = (
    (λ h.
        let (ops, ids) = and_true (op_eq ieee a.op b.op) (ids_eq a.children b.children) h in
        same_node (op_eq_sound ieee a.op b.op ops) ((ids_eq_iff a.children b.children).0 ids)),
    (λ h.
        subst (λ n. node_eq ieee a n ≡ true) h
          (rw (op_eq_refl ieee a.op) ((ids_eq_iff a.children a.children).1 refl))),
  )
    where
      same_node : a.op ≡ b.op → a.children ≡ b.children → a ≡ b
      same_node ops ids = λ i. record { op = ops i; children = ids i }
