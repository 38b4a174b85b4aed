-- ===== src/Legacy/Value.antt =====
-- crates/msr-legacy/src/value.rs: the values of inputs, outputs and memory. A duration is its number
-- of nanoseconds, binary data a list of bytes.
use msr.Prelude.{ℕ, String, Bool, List, ℤ}

pub data Value (F : Type 0) : Type 0 where
  bit : Bool → Value F
  decimal : F → Value F
  integer : ℤ → Value F
  text : String → Value F
  bin : List ℕ → Value F
  timeout : ℕ → Value F
