-- ===== src/Perf.antt =====
-- src/learnarken/perf: sharded work.
pub mod Shard
