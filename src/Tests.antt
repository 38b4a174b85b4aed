-- ===== src/Tests.antt =====
-- Runs of the models on concrete inputs: the theorems at states in which their conditions hold.
mod Control
mod Cycle
mod Worker
mod Lifecycle
mod Files
mod Rolling
mod Records
mod Journal
mod Registers
mod Plugins
