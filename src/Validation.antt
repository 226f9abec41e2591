-- ===== src/Validation.antt =====
-- src/learnarken/validation: the four-layer validator of a package.
pub mod Report
pub mod Issue
pub mod Identity
pub mod CrossFile
pub mod File
pub mod Cycles
pub mod Engine
mod Samples
