-- ===== src/Register.antt =====
-- Registers: crates/msr-core/src/register/mod.rs. The index of a register is the number that it
-- wraps.
pub mod Recorder
use msr.Prelude.{Option, List}
use msr.Time.{SystemInstant}

pub record ObservedValue (V : Type 0) : Type 0 where
  pub observed_at : SystemInstant
  pub value : V

pub record ObservedValues (V : Type 0) : Type 0 where
  pub observed_at : SystemInstant
  pub values : List (Option V)
