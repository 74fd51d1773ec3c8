-- ===== src/Saturn/UnionFind/Sizes.antt =====
-- How the sizes of the roots add up after each write of src/unionfind.rs.
use aiiiia.Prelude.{
  ℕ, zero, suc, ◌+◌, ◌≤◌, ◌≡◌, ◌≢◌, ◌↔◌, refl, sym, ◌∙◌, some, List, [], ◌∷◌, ◌++◌, arith, length,
  get_elem?, set, some-inj, ℕ_discrete,
}
use aiiiia.Saturn.UnionFind.Roots.{root_sizes}

shift : (i k : ℕ) → i + 1 + k ≡ i + suc k
shift i k = omega arith

-- A link that is moved and does not begin or cease to be a root changes nothing.
pub root_sizes-set_link :
    (i : ℕ) (ps ss : List ℕ) (k p v : ℕ)
    → get_elem? ps k ≡ some p
    → (p ≡ i + k) ↔ (v ≡ i + k)
    → root_sizes i (set ps k v) ss ≡ root_sizes i ps ss
root_sizes-set_link i [] ss k p v h same = refl
root_sizes-set_link i (q ∷ ps) [] zero p v h same = refl
root_sizes-set_link i (q ∷ ps) [] (suc k) p v h same = refl
root_sizes-set_link i (q ∷ ps) (s ∷ ss) zero p v h same =
    let first : q ≡ p = some-inj h in
    elim (ℕ_discrete v i) [
      | yes e ↦ let there : p ≡ i + 0 = same.1 (omega arith) in ground arith
      | no n ↦
          let away : p ≢ i =
            λ e. (let back : v ≡ i + 0 = same.0 (omega arith) in n (omega arith)) in
          ground arith
    ]
root_sizes-set_link i (q ∷ ps) (s ∷ ss) (suc k) p v h same = omega (
  arith,
  root_sizes-set_link (i + 1) ps ss k p v h (
    (λ e. same.0 (e ∙ shift i k) ∙ sym (shift i k)),
    (λ e. same.1 (e ∙ shift i k) ∙ sym (shift i k)),
  ),
)

-- A root that is hung elsewhere takes its size away.
pub root_sizes-hang :
    (i : ℕ) (ps ss : List ℕ) (k v s : ℕ)
    → get_elem? ps k ≡ some (i + k)
    → get_elem? ss k ≡ some s
    → v ≢ i + k
    → root_sizes i (set ps k v) ss + s ≡ root_sizes i ps ss
root_sizes-hang i [] ss k v s h es n = cc
root_sizes-hang i (q ∷ ps) [] k v s h es n = cc
root_sizes-hang i (q ∷ ps) (t ∷ ss) zero v s h es n =
    let first : q ≡ i = omega (arith, some-inj h) in let size : t ≡ s = some-inj es in ground arith
root_sizes-hang i (q ∷ ps) (t ∷ ss) (suc k) v s h es n =
    omega (arith, root_sizes-hang (i + 1) ps ss k v s (rw (shift i k) h) es (rw (shift i k) n))

-- A root whose size is written counts with the new size.
pub root_sizes-resize :
    (i : ℕ) (ps ss : List ℕ) (k s t : ℕ)
    → get_elem? ps k ≡ some (i + k)
    → get_elem? ss k ≡ some s
    → root_sizes i ps (set ss k t) + s ≡ root_sizes i ps ss + t
root_sizes-resize i [] ss k s t h es = cc
root_sizes-resize i (q ∷ ps) [] k s t h es = cc
root_sizes-resize i (q ∷ ps) (r ∷ ss) zero s t h es =
    let first : q ≡ i = omega (arith, some-inj h) in let size : r ≡ s = some-inj es in ground arith
root_sizes-resize i (q ∷ ps) (r ∷ ss) (suc k) s t h es =
    omega (arith, root_sizes-resize (i + 1) ps ss k s t (rw (shift i k) h) es)

pub root_size-le :
    (i : ℕ) (ps ss : List ℕ) (k s : ℕ)
    → get_elem? ps k ≡ some (i + k)
    → get_elem? ss k ≡ some s
    → s ≤ root_sizes i ps ss
root_size-le i ps ss k s h es =
    omega (arith, root_sizes-hang i ps ss k (suc (i + k)) s h es (omega arith))

pub root_sizes-append :
    (i : ℕ) (ps ss : List ℕ) (s : ℕ)
    → length ps ≡ length ss
    → root_sizes i (ps ++ (i + length ps) ∷ []) (ss ++ s ∷ []) ≡ root_sizes i ps ss + s
root_sizes-append i [] [] s e = ground arith
root_sizes-append i [] (t ∷ ss) s e = absurd (omega arith)
root_sizes-append i (q ∷ ps) [] s e = absurd (omega arith)
root_sizes-append i (q ∷ ps) (t ∷ ss) s e =
    rw (← shift i (length ps)) (omega (arith, root_sizes-append (i + 1) ps ss s (omega arith)))
