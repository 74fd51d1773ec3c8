-- ===== src/Saturn.antt =====
-- The expression optimiser: src/ of the repository.
pub mod Id
pub mod UnionFind
pub mod Scheduler
pub mod Float
pub mod Lang
pub mod Eval
pub mod Vm
