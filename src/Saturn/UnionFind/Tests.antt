-- ===== src/Saturn/UnionFind/Tests.antt =====
-- src/unionfind.rs on concrete inputs, and the theorems there.
use aiiiia.Prelude.{
  ℕ, ◌≡◌, refl, some, none, arith, [], ◌∷◌, ◌⊎◌, ◌↔◌, ◌≢◌, suc, get_elem?, if◌then◌else◌, ◌==◌,
}
use aiiiia.Saturn.UnionFind.{
  UnionFind, new, make_set, find_loop, find, find_immutable, link, union, compress_loop,
  compress_all, set_count,
}
use aiiiia.Saturn.UnionFind.Find.{IsValid, SameView, find-find_immutable}
use aiiiia.Saturn.UnionFind.MakeSet.{make_set_lem}
use aiiiia.Saturn.UnionFind.Union.{Joins, union_lem, union-Joins}
use aiiiia.Saturn.UnionFind.Same.{Same, union-Same}
use aiiiia.Saturn.UnionFind.Sets.{set_count-union}
use aiiiia.Saturn.UnionFind.Compress.{compress_all_lem}

new-IsValid : IsValid new
unfolding new
new-IsValid = record {
  same_length = refl;
  closed = λ x y h. cc;
  grows = λ x y s t h n es et. cc;
  positive = λ x s h. cc;
  counted = refl;
  fits = omega arith;
}

abbrev one : UnionFind
one = (make_set new).0

abbrev two : UnionFind
two = (make_set one).0

abbrev three : UnionFind
three = (make_set two).0

one-IsValid : IsValid one
unfolding new
one-IsValid = (make_set_lem new new-IsValid (omega arith)).0

two-IsValid : IsValid two
unfolding new make_set
two-IsValid = (make_set_lem one one-IsValid (omega arith)).0

three-IsValid : IsValid three
unfolding new make_set
three-IsValid = (make_set_lem two two-IsValid (omega arith)).0

-- Three ids, the last two joined.
abbrev pair : UnionFind
pair = record { parents = 0 ∷ 1 ∷ 1 ∷ []; sizes = 1 ∷ 2 ∷ 1 ∷ [] }

pair_runs : union three 1 2 ≡ some (pair, 1, 2)
unfolding new make_set union find find_loop link
pair_runs = refl

pair-IsValid : IsValid pair
unfolding make_set new
pair-IsValid =
    (union-Joins three pair 1 2 1 2 three-IsValid (omega arith) (omega arith) pair_runs).is_valid

chain_compresses :
    compress_all (record pair { parents = 1 ∷ 2 ∷ 2 ∷ [] })
    ≡ some (record pair { parents = 2 ∷ 2 ∷ 2 ∷ [] })
unfolding compress_all compress_loop find find_loop
chain_compresses = refl

find-find_immutable_example :
    (w : UnionFind) × (r : ℕ) × (find pair 2 ≡ some (w, r))
    × (find_immutable pair 2 ≡ some r)
    × SameView pair w
find-find_immutable_example = find-find_immutable pair 2 pair-IsValid (omega arith)

union_lem_example :
    (w : UnionFind) × (kept : ℕ) × (gone : ℕ) × (union pair 0 2 ≡ some (w, kept, gone))
    × Joins pair 0 2 w kept gone
union_lem_example = union_lem pair 0 2 pair-IsValid (omega arith) (omega arith)

-- `union` of 0 and 2 hangs 0 below 1.
joined_runs :
    union pair 0 2 ≡ some (record { parents = 1 ∷ 1 ∷ 1 ∷ []; sizes = 1 ∷ 3 ∷ 1 ∷ [] }, 1, 0)
unfolding union find find_loop link
joined_runs = refl

abbrev joined : UnionFind
joined = record { parents = 1 ∷ 1 ∷ 1 ∷ []; sizes = 1 ∷ 3 ∷ 1 ∷ [] }

union-Same_example :
    Same joined 0 1
    ↔ (Same pair 0 1 ⊎ ((Same pair 0 0 × Same pair 2 1) ⊎ (Same pair 0 2 × Same pair 0 1)))
union-Same_example =
    union-Same pair joined 0 2 1 0 0 1 pair-IsValid (omega arith) (omega arith) joined_runs

set_count-union_example :
    ((find_immutable pair 0 ≢ find_immutable pair 2) × (suc (set_count joined) ≡ set_count pair))
    ⊎ ((find_immutable pair 0 ≡ find_immutable pair 2) × (set_count joined ≡ set_count pair))
set_count-union_example =
    set_count-union pair joined 0 2 1 0 pair-IsValid (omega arith) (omega arith) joined_runs

compress_all_lem_example :
    (w : UnionFind) × (compress_all pair ≡ some w)
    × SameView pair w
    × ((x : ℕ) → get_elem? w.parents x ≡ find_immutable w x)
compress_all_lem_example = compress_all_lem pair pair-IsValid

make_set_lem_example :
    IsValid (make_set pair).0
    × (find_immutable pair (make_set pair).1 ≡ none)
    × ((x : ℕ)
        → find_immutable (make_set pair).0 x
          ≡ (if x == (make_set pair).1 then some (make_set pair).1 else find_immutable pair x))
    × (set_count (make_set pair).0 ≡ suc (set_count pair))
make_set_lem_example = make_set_lem pair pair-IsValid (omega arith)
