-- ===== src/Saturn/Eval/Meaning.antt =====
-- What an expression means, independently of the order in which src/eval.rs visits its nodes: the value
-- of every node in one pass over the array.
use aiiiia.Saturn.Eval.{values}
use aiiiia.Saturn.Float.{Ieee}
use aiiiia.Saturn.Lang.{Op, eval_op, var}
use aiiiia.Saturn.Lang.Node.{ENode}
use aiiiia.Saturn.Lang.Topo.{IsTopological}
use aiiiia.Prelude.{
  sym, ap, get_elem?-append_end, some-inj, zero, suc, ◌+◌, ◌<◌, ◌≡◌, refl, ◌∙◌, subst, Option, none,
  some, List, [], ◌∷◌, ◌++◌, arith, length, get_elem?, length-append, get_elem?-append_left, All,
  All-mono, ℕ,
}

module _ {F : Type 0} (ieee : Ieee F) (env : ℕ → Option F) where
  abbrev pub applied : Op F → Option (List F) → Option F
  applied op none = none
  applied op (some args) = eval_op ieee op args

  abbrev pub op_value : (ℕ → Option F) → Op F → List ℕ → Option F
  op_value vals (var s) children = env s
  op_value vals op children = applied op (values vals children)

  abbrev pub value_in : List (Option F) → ℕ → Option F
  value_in known c = elim (get_elem? known c) [ none ↦ none | some v ↦ v ]

  abbrev pub all_values : List (Option F) → List (ENode F) → List (Option F)
  all_values known [] = known
  all_values known (n ∷ nodes) =
      all_values (known ++ op_value (value_in known) n.op n.children ∷ []) nodes

  -- The value of a node, if it has one.
  unfoldable pub value_at : List (ENode F) → ℕ → Option F
  value_at nodes = value_in (all_values [] nodes)

  value_in-append_left :
      (known : List (Option F)) (more : List (Option F)) (c : ℕ)
      → c < length known
      → value_in (known ++ more) c ≡ value_in known c
  value_in-append_left known more c h = rw (value_in, get_elem?-append_left known more c h) refl

  value_in-append_end :
      (known : List (Option F)) (v : Option F) → value_in (known ++ v ∷ []) (length known) ≡ v
  value_in-append_end known none = rw (value_in, get_elem?-append_end known none) refl
  value_in-append_end known (some v) = rw (value_in, get_elem?-append_end known (some v)) refl

  value_in-all_values :
      (known : List (Option F)) (nodes : List (ENode F)) (c : ℕ)
      → c < length known
      → value_in (all_values known nodes) c ≡ value_in known c
  value_in-all_values known [] c h = refl
  value_in-all_values known (n ∷ nodes) c h =
      let v = op_value (value_in known) n.op n.children ∷ [] in
      value_in-all_values (known ++ v) nodes c (omega (arith, length-append known v))
      ∙ value_in-append_left known v c h

  values-cong :
      (vals others : ℕ → Option F) (children : List ℕ)
      → All (λ c. vals c ≡ others c) children
      → values vals children ≡ values others children
  values-cong vals others [] h = refl
  values-cong vals others (c ∷ children) h = rw (h.0, values-cong vals others children h.1) refl

  pub op_value-cong :
      (vals others : ℕ → Option F) (op : Op F) (children : List ℕ)
      → All (λ c. vals c ≡ others c) children
      → op_value vals op children ≡ op_value others op children
  op_value-cong vals others (var s) children h = refl
  op_value-cong vals others op children h = ap (applied op) (values-cong vals others children h)

  value_from :
      (known : List (Option F)) (nodes : List (ENode F)) (k : ℕ) (n : ENode F)
      → ((i : ℕ) (m : ENode F)
          → get_elem? nodes i ≡ some m
          → All (λ c. c < length known + i) m.children)
      → get_elem? nodes k ≡ some n
      → value_in (all_values known nodes) (length known + k)
        ≡ op_value (value_in (all_values known nodes)) n.op n.children
  value_from known [] k n early h = cc
  value_from known (m ∷ nodes) zero n early h =
      let v = op_value (value_in known) m.op m.children in
      let there : m ≡ n = some-inj h in
      let size : length known + 0 ≡ length known = omega arith in
      let later : (c : ℕ)
          → c < length known + 0
          → value_in known c ≡ value_in (all_values (known ++ v ∷ []) nodes) c =
        λ c lt. sym (
          value_in-all_values (known ++ v ∷ []) nodes c
            (omega (arith, length-append known (v ∷ [])))
          ∙ value_in-append_left known (v ∷ []) c (omega arith)) in
      ap (value_in (all_values (known ++ v ∷ []) nodes)) size
      ∙ value_in-all_values (known ++ v ∷ []) nodes (length known)
          (omega (arith, length-append known (v ∷ [])))
      ∙ value_in-append_end known v
      ∙ op_value-cong (value_in known) (value_in (all_values (known ++ v ∷ []) nodes)) m.op
          m.children
          (All-mono (λ c. c < length known + 0)
            (λ c. value_in known c ≡ value_in (all_values (known ++ v ∷ []) nodes) c) m.children
            later (early 0 m refl))
      ∙ ap (λ k. op_value (value_in (all_values (known ++ v ∷ []) nodes)) k.op k.children) there
  value_from known (m ∷ nodes) (suc k) n early h =
      let v = op_value (value_in known) m.op m.children ∷ [] in
      let size : length (known ++ v) ≡ suc (length known) = omega (arith, length-append known v) in
      subst
        (λ i.
          value_in (all_values (known ++ v) nodes) i
          ≡ op_value (value_in (all_values (known ++ v) nodes)) n.op n.children)
        (omega arith)
        (value_from (known ++ v) nodes k n
          (λ i m there.
            All-mono (λ c. c < length known + suc i) (λ c. c < length (known ++ v) + i) m.children
              (λ c lt. omega arith) (early (suc i) m there))
          h)

  -- In a DAG a node's value is its operator's on the children's values.
  pub value_at_lem :
      (nodes : List (ENode F)) (i : ℕ) (n : ENode F)
      → IsTopological nodes
      → get_elem? nodes i ≡ some n
      → value_at nodes i ≡ op_value (value_at nodes) n.op n.children
  unfolding value_at
  value_at_lem nodes i n topological h =
      subst
        (λ k.
          value_in (all_values [] nodes) k
          ≡ op_value (value_in (all_values [] nodes)) n.op n.children)
        (omega arith)
        (value_from [] nodes i n
          (λ j m there.
            All-mono (λ c. c < j) (λ c. c < 0 + j) m.children (λ c lt. omega arith)
              (topological j m there))
          h)
