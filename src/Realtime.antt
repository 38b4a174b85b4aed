-- ===== src/Realtime.antt =====
-- crates/msr-core/src/realtime
pub mod Progress
pub mod Handover
pub mod Sender
pub mod Thread
