-- ===== src/Legacy.antt =====
-- crates/msr-legacy
pub mod Float
pub mod Util
pub mod BangBang
pub mod Pid
pub mod Value
pub mod State
pub mod Comparison
pub mod BoolExpr
pub mod Entities
pub mod Fsm
pub mod Runtime
