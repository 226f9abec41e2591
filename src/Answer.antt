-- ===== src/Answer.antt =====
-- The evidence-gated answer of src/learnarken/answer/: models, the model's contract, the gates.
pub mod Models
pub mod Json
pub mod Contract
pub mod Engine
pub mod Stream
pub mod Status
mod Samples
