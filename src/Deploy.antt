-- ===== src/Deploy.antt =====
-- deploy/: the fences of the demo machine.
pub mod Trigger
pub mod Gate
pub mod Watchdog
