-- ===== src/Fs.antt =====
-- The rolling files of crates/msr-core/src/fs.
pub mod Bytes
pub mod Policy
pub mod Directory
pub mod System
pub mod Csv
