-- ===== src/Package.antt =====
-- The canonical model of a package, src/learnarken/models.py, and the retrieval unit,
-- src/learnarken/chunking/base.py and documents.py. A `date` is its ordinal number.
pub mod Model
pub mod Chunk
