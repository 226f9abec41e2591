-- ===== src/Llm.antt =====
-- src/learnarken/llm/minimax.py: the client of the language model's service.
pub mod Json
pub mod Contract
pub mod Chat
pub mod Stream
mod Samples
