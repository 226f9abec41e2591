-- ===== src/Repair.antt =====
-- The repair of a package, src/learnarken/repair/: what a patch is, and the approve-then-write commit.
pub mod Models
pub mod Journal
pub mod Apply
pub mod Commit
pub mod Gate
mod Samples
