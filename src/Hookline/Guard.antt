-- ===== src/Hookline/Guard.antt =====
-- hookline/src/guard.rs: deciding whether a destination URL is safe to request.
pub mod Address
pub mod Text
pub mod Check
pub mod Ranges
pub mod Mapped
pub mod Conditions
pub mod Safe
pub mod Resolve
mod Tests
