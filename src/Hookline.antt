-- ===== src/Hookline.antt =====
-- The webhook sender: hookline/ of the repository.
pub mod Models
pub mod Tables
pub mod Breaker
pub mod Guard
pub mod Store
pub mod Queue
