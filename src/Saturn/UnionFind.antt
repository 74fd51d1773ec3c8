-- ===== src/Saturn/UnionFind.antt =====
-- src/unionfind.rs: the union-find over ids, with path halving and union by size.
-- An id is its index. `none` is a panic (an index out of bounds) or, in a loop, that the fuel ran out.
pub mod Roots
pub mod Sizes
pub mod Find
pub mod Link
pub mod Union
pub mod Same
pub mod Compress
pub mod MakeSet
pub mod Sets
mod Tests
use aiiiia.Saturn.Id.{new_id}
use aiiiia.Prelude.{
  ◌%◌, ◌^◌, ℕ, zero, suc, ◌+◌, ◌-◌, Option, none, some, List, [], ◌∷◌, ◌++◌, Bool, true, false,
  if◌then◌else◌, ◌==◌, ltb, length, get_elem?, set, sum, ◌>>=◌,
}

pub record UnionFind : Type 0 where
  pub parents : List ℕ
  pub sizes : List ℕ

unfoldable pub new : UnionFind
new = record { parents = []; sizes = [] }

unfoldable pub make_set : UnionFind → UnionFind × ℕ
make_set u = (
  record { parents = u.parents ++ new_id (length u.parents) ∷ []; sizes = u.sizes ++ 1 ∷ [] },
  new_id (length u.parents),
)

-- The loop of `find`: it points a node at its grandparent, and goes on there.
unfoldable pub find_loop : ℕ → List ℕ → ℕ → Option (List ℕ × ℕ)
find_loop zero ps id = none
find_loop (suc fuel) ps id = do
  parent ← get_elem? ps id
  let rest = (do
    grandparent ← get_elem? ps parent
    find_loop fuel (set ps id grandparent) grandparent)
  if parent == id then some (ps, id) else rest

-- The rounds that suffice: each step goes to a node with a larger recorded size.
abbrev pub fuel_of : UnionFind → ℕ
fuel_of u = suc (sum u.sizes)

unfoldable pub find : UnionFind → ℕ → Option (UnionFind × ℕ)
find u id = do
  (ps, root) ← find_loop (fuel_of u) u.parents id
  some (record u { parents = ps }, root)

unfoldable pub find_immutable_loop : ℕ → List ℕ → ℕ → Option ℕ
find_immutable_loop zero ps id = none
find_immutable_loop (suc fuel) ps id = do
  parent ← get_elem? ps id
  let rest = find_immutable_loop fuel ps parent
  if parent == id then some id else rest

unfoldable pub find_immutable : UnionFind → ℕ → Option ℕ
find_immutable u id = find_immutable_loop (fuel_of u) u.parents id

-- `parents[rb] = ra; sizes[ra] += sizes[rb]`, a sum of u32s that wraps around where overflow checks are
-- compiled out.
unfoldable pub link : UnionFind → ℕ → ℕ → ℕ → ℕ → UnionFind × ℕ × ℕ
link u ra rb sa sb =
    (record { parents = set u.parents rb ra; sizes = set u.sizes ra ((sa + sb) % 2 ^ 32) }, ra, rb)

-- The set's new root, and the root that it absorbed.
unfoldable pub union : UnionFind → ℕ → ℕ → Option (UnionFind × ℕ × ℕ)
unfolding link
union u a b = do
  (u, ra) ← find u a
  (u, rb) ← find u b
  if ra == rb then some (u, ra, ra) else (do
    sa ← get_elem? u.sizes ra
    sb ← get_elem? u.sizes rb
    some (if ltb sa sb then link u rb ra sb sa else link u ra rb sa sb))

-- `for i in i..i + n`
unfoldable pub compress_loop : ℕ → ℕ → UnionFind → Option UnionFind
compress_loop zero i u = some u
compress_loop (suc n) i u = do
  (u, root) ← find u i
  compress_loop n (i + 1) (record u { parents = set u.parents i root })

unfoldable pub compress_all : UnionFind → Option UnionFind
compress_all u = compress_loop (length u.parents) 0 u

unfoldable pub count_roots : ℕ → List ℕ → ℕ
count_roots i [] = 0
count_roots i (p ∷ ps) = (if p == i then 1 else 0) + count_roots (i + 1) ps

unfoldable pub set_count : UnionFind → ℕ
set_count u = count_roots 0 u.parents
