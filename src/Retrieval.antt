-- ===== src/Retrieval.antt =====
-- src/learnarken/retrieval: the lexical index, the routes of a mode, and the search over a package. Python's sets are
-- lists that are read by membership, and a text that is split into tokens is the list of its code points.
pub mod Tokens
pub mod Applies
pub mod Bm25
pub mod Routes
pub mod Search
pub mod Corpus
pub mod Index
mod Samples
