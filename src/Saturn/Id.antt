-- ===== src/Saturn/Id.antt =====
-- Id of src/lang.rs, the u32 index of a node or of a class.
use aiiiia.Prelude.{ℕ, ◌%◌, ◌^◌, ◌<◌, ◌≡◌, arith}

-- `Id::new`: the cast wraps around where the assertion on the index is compiled out.
abbrev pub new_id : ℕ → ℕ
new_id i = i % 2 ^ 32

pub new_id_small : (i : ℕ) → i < 2 ^ 32 → new_id i ≡ i
new_id_small i h = ground arith
