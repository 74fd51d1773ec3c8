-- ===== src/Saturn/Vm/Operands.antt =====
-- The instructions that the compiler of src/vm.rs picks: on slots that hold what the operands mean, each
-- computes what its node means.
use aiiiia.Prelude.{
  ne_test, ◌^◌, ◌≤◌, if◌then◌else◌, Bool-cases, ==_iff, ◌>>=◌, ℕ, zero, suc, ◌<◌, ◌≡◌, refl, sym,
  ap, ◌∙◌, inl, inr, Option, none, some, List, [], ◌∷◌, arith, length, get_elem?, some-inj,
}
use aiiiia.Prelude.Results.{Result, ok-inj, err, ok}
use aiiiia.Saturn.Eval.{EvalError, cons_value, values, unbound}
use aiiiia.Saturn.Eval.Meaning.{op_value, applied}
use aiiiia.Saturn.Lang.{arity, truthy, eval_op, var, if_else, Op}
use aiiiia.Saturn.Lang.Reach.{ℕ-cases}
use aiiiia.Saturn.Float.{Ieee}
use aiiiia.Saturn.Vm.{Instr, apply1, apply2, gather, instr_value, dst_of}
use aiiiia.Saturn.Vm.Apply.{apply-eval_op}
use aiiiia.Saturn.Vm.Compiler.{position, sized_instr, select_instr, param_instr, instr_of}

module _ {F : Type 0} (env : ℕ → Option F) where
  pub gather_cons :
      (q : ℕ) (params : List ℕ) (args : List F)
      → gather env (q ∷ params) ≡ ok args
      → (v : F) × ((vs : List F) × ((env q ≡ some v)
            × ((gather env params ≡ ok vs) × (args ≡ v ∷ vs))))
  unfolding gather
  gather_cons q params args h = by_value (env q) (gather env params) refl refl h
    where
      by_value :
          (o : Option F) (rest : Result EvalError (List F))
          → env q ≡ o
          → gather env params ≡ rest
          → elim o [
            | none ↦ err (unbound q)
            | some v ↦ elim rest [ err problem ↦ err problem | ok vs ↦ ok (v ∷ vs) ]
          ]
            ≡ ok args
          → (v : F) × ((vs : List F) × ((env q ≡ some v)
                × ((gather env params ≡ ok vs) × (args ≡ v ∷ vs))))
      by_value none rest e k h = cc
      by_value (some v) (err problem) e k h = cc
      by_value (some v) (ok vs) e k h = (v, (vs, (e, (k, sym (ok-inj h)))))

  -- The argument at a parameter's position is the variable's value.
  pub gather-position :
      (s : ℕ) (params : List ℕ) (args : List F) (p : ℕ)
      → gather env params ≡ ok args
      → position s params ≡ some p
      → (get_elem? args p ≡ env s) × (p < length params)
  gather-position s [] args p h k = cc
  gather-position s (q ∷ params) args p h k =
      let (v, (vs, (here, (rest, shape)))) = gather_cons q params args h in
      elim (ℕ-cases q s) [
        | inl same ↦
            let first : 0 ≡ p = some-inj (rw ((==_iff q s).1 same) at k) in
            (rw (sym first, shape) (sym here ∙ ap env same), omega arith)
        | inr apart ↦
            later q v vs p (gather-position s params vs) rest shape (position s params) refl
              (rw (ne_test q s apart) at k)
      ]
    where
      later :
          (q : ℕ) (v : F) (vs : List F) (p : ℕ)
          → ((i : ℕ)
              → gather env params ≡ ok vs
              → position s params ≡ some i
              → (get_elem? vs i ≡ env s) × (i < length params))
          → gather env params ≡ ok vs
          → args ≡ v ∷ vs
          → (o : Option ℕ) → position s params ≡ o
          → elim o [ none ↦ none | some i ↦ some (suc i) ] ≡ some p
          → (get_elem? args p ≡ env s) × (p < suc (length params))
      later q v vs p ih rest shape none e k = cc
      later q v vs p ih rest shape (some i) e k =
          let (there, small) = ih i rest e in
          let at : suc i ≡ p = some-inj k in (rw (sym at, shape) there, omega arith)

  pub length-gather :
      (params : List ℕ) (args : List F) → gather env params ≡ ok args → length args ≡ length params
  unfolding gather
  length-gather [] args h = ap length (sym (ok-inj h))
  length-gather (q ∷ params) args h =
      let (v, (vs, (here, (rest, shape)))) = gather_cons q params args h in
      rw shape (ap suc (length-gather params vs rest))

module _ {F : Type 0} (ieee : Ieee F) (env : ℕ → Option F) (consts args slots : List F) where
  one_read :
      (op : Op F) (o : Option F)
      → (o >>= λ x. apply1 ieee op x) ≡ applied ieee env op (cons_value o (some []))
  one_read op none = refl
  one_read op (some a) = (apply-eval_op ieee op a a).0

  two_read :
      (op : Op F) (o u : Option F)
      → (o >>= λ x. u >>= λ y. apply2 ieee op x y)
        ≡ applied ieee env op (cons_value o (cons_value u (some [])))
  two_read op none u = refl
  two_read op (some a) none = refl
  two_read op (some a) (some b) = (apply-eval_op ieee op a b).1

  -- An instruction for one operand or two applies the operator to what the slots hold.
  sized_instr_lem :
      (k : ℕ) (op : Op F) (dst : ℕ) (operands : List ℕ) (instr : Instr F)
      → sized_instr k op dst operands ≡ some instr
      → length operands ≡ k
      → instr_value ieee consts args slots instr
        ≡ applied ieee env op (values (get_elem? slots) operands)
  unfolding instr_value
  sized_instr_lem zero op dst operands instr h size = cc
  sized_instr_lem (suc zero) op dst [] instr h size = cc
  sized_instr_lem (suc zero) op dst (a ∷ []) instr h size =
      rw (sym (some-inj h)) (one_read op (get_elem? slots a))
  sized_instr_lem (suc zero) op dst (a ∷ b ∷ rest) instr h size = absurd (omega arith)
  sized_instr_lem (suc (suc zero)) op dst [] instr h size = cc
  sized_instr_lem (suc (suc zero)) op dst (a ∷ []) instr h size = cc
  sized_instr_lem (suc (suc zero)) op dst (a ∷ b ∷ []) instr h size =
      rw (sym (some-inj h)) (two_read op (get_elem? slots a) (get_elem? slots b))
  sized_instr_lem (suc (suc zero)) op dst (a ∷ b ∷ c ∷ rest) instr h size = absurd (omega arith)
  sized_instr_lem (suc (suc (suc k))) op dst operands instr h size = cc

  -- A choice between two operands, once all three have values.
  select_instr_lem :
      (dst : ℕ) (operands : List ℕ) (instr : Instr F) (found : List F)
      → select_instr dst operands ≡ some instr
      → length operands ≡ 3
      → values (get_elem? slots) operands ≡ some found
      → instr_value ieee consts args slots instr ≡ eval_op ieee if_else found
  unfolding instr_value eval_op
  select_instr_lem dst [] instr found h size read = cc
  select_instr_lem dst (c ∷ []) instr found h size read = cc
  select_instr_lem dst (c ∷ a ∷ []) instr found h size read = cc
  select_instr_lem dst (c ∷ a ∷ b ∷ d ∷ rest) instr found h size read = absurd (omega arith)
  select_instr_lem dst (c ∷ a ∷ b ∷ []) instr found h size read =
      rw (sym (some-inj h))
        (chosen (get_elem? slots c) (get_elem? slots a) (get_elem? slots b) read)
    where
      chosen :
          (o u w : Option F)
          → cons_value o (cons_value u (cons_value w (some []))) ≡ some found
          → (o >>= λ x. if truthy ieee x then u else w) ≡ eval_op ieee if_else found
      chosen none u w k = cc
      chosen (some x) none w k = cc
      chosen (some x) (some y) none k = cc
      chosen (some x) (some y) (some z) k =
          rw (sym (some-inj k))
            (elim (Bool-cases (truthy ieee x)) [ inl e ↦ rw e refl | inr e ↦ rw e refl ])

  -- The instruction of a node that is not a literal computes the node's operator on its operands.
  pub instr_of_lem :
      (params : List ℕ) (vals : ℕ → Option F) (op : Op F) (dst : ℕ) (children operands : List ℕ)
      (instr : Instr F) (found : List F)
      → gather env params ≡ ok args
      → length params ≤ 2 ^ 16
      → instr_of params op dst operands ≡ some instr
      → length operands ≡ arity op
      → values (get_elem? slots) operands ≡ some found
      → values vals children ≡ some found
      → instr_value ieee consts args slots instr ≡ op_value ieee env vals op children
  unfolding instr_value eval_op arity
  instr_of_lem params vals (var s) dst children operands instr found given fits h size read means =
      loaded (position s params) refl h
    where
      loaded :
          (o : Option ℕ)
          → position s params ≡ o
          → param_instr dst o ≡ some instr
          → instr_value ieee consts args slots instr ≡ env s
      loaded none e k = cc
      loaded (some p) e k =
          let (there, small) = gather-position env s params args p given e in
          rw (sym (some-inj k)) (ap (get_elem? args) (omega arith) ∙ there)
  instr_of_lem params vals if_else dst children operands instr found given fits h size read means =
      select_instr_lem dst operands instr found h size read ∙ rw means refl
  instr_of_lem params vals op dst children operands instr found given fits h size read means =
      sized_instr_lem (arity op) op dst operands instr h size
      ∙ ap (applied ieee env op) (read ∙ sym means)

module _ {F : Type 0} (dst : ℕ) (instr : Instr F) where
  sized_instr-dst_of :
      (k : ℕ) (op : Op F) (operands : List ℕ)
      → sized_instr k op dst operands ≡ some instr
      → dst_of instr ≡ dst
  sized_instr-dst_of zero op operands h = cc
  sized_instr-dst_of (suc zero) op [] h = cc
  sized_instr-dst_of (suc zero) op (a ∷ rest) h = ap dst_of (sym (some-inj h))
  sized_instr-dst_of (suc (suc zero)) op [] h = cc
  sized_instr-dst_of (suc (suc zero)) op (a ∷ []) h = cc
  sized_instr-dst_of (suc (suc zero)) op (a ∷ b ∷ rest) h = ap dst_of (sym (some-inj h))
  sized_instr-dst_of (suc (suc (suc k))) op operands h = cc

  select_instr-dst_of :
      (operands : List ℕ) → select_instr dst operands ≡ some instr → dst_of instr ≡ dst
  select_instr-dst_of [] h = cc
  select_instr-dst_of (c ∷ []) h = cc
  select_instr-dst_of (c ∷ a ∷ []) h = cc
  select_instr-dst_of (c ∷ a ∷ b ∷ rest) h = ap dst_of (sym (some-inj h))

  param_instr-dst_of : (o : Option ℕ) → param_instr dst o ≡ some instr → dst_of instr ≡ dst
  param_instr-dst_of none h = cc
  param_instr-dst_of (some p) h = ap dst_of (sym (some-inj h))

  -- It writes the slot that was taken for it.
  pub instr_of-dst_of :
      (params : List ℕ) (op : Op F) (operands : List ℕ)
      → instr_of params op dst operands ≡ some instr
      → dst_of instr ≡ dst
  instr_of-dst_of params (var s) operands h = param_instr-dst_of (position s params) h
  instr_of-dst_of params if_else operands h = select_instr-dst_of operands h
  instr_of-dst_of params op operands h = sized_instr-dst_of (arity op) op operands h
