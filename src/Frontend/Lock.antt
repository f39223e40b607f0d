-- ===== src/Frontend/Lock.antt =====
-- frontend/lock.rs: the daemon-wide lock registry.
pub mod Table
pub mod Registry
pub mod Valid
pub mod Refine
pub mod RefineRelease
pub mod Safety
pub mod Conflict
pub mod Nesting
pub mod Close
pub mod Wait
pub mod Others
pub mod Owners
pub mod Tests
