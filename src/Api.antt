-- ===== src/Api.antt =====
-- src/learnarken/api: the service around the answer engine.
pub mod DemoGuard
