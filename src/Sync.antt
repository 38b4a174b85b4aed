-- ===== src/Sync.antt =====
-- crates/msr-core/src/sync
pub mod Atomic
pub mod Relay
