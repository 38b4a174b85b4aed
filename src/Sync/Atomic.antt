-- ===== src/Sync/Atomic.antt =====
-- crates/msr-core/src/sync/atomic.rs: the results of switching an atomic state, and the flag. Each
-- operation is one atomic access, so memory orderings play no part in sequential states.
use msr.Prelude.{ℕ, Bool, true, false, ◌==◌, if◌then◌else◌, Result, ok, err}

pub data SwitchAtomicStateOk (T : Type 0) : Type 0 where
  accepted : T → SwitchAtomicStateOk T
  ignored : SwitchAtomicStateOk T

pub data SwitchAtomicStateErr (T : Type 0) : Type 0 where
  rejected : T → SwitchAtomicStateErr T

abbrev pub SwitchAtomicStateResult : Type 0 → Type 0
SwitchAtomicStateResult T = Result (SwitchAtomicStateOk T) (SwitchAtomicStateErr T)

-- `AtomicU8::swap`: the new and the previous value.
unfoldable pub swap : ℕ → ℕ → ℕ × ℕ
swap new cell = (new, cell)

-- `AtomicU8::compare_exchange`: the cell after, and the previous value or the one that was found.
unfoldable pub compare_exchange : ℕ → ℕ → ℕ → ℕ × Result ℕ ℕ
compare_exchange expected new cell = if cell == expected then (new, ok cell) else (cell, err cell)

-- `OrderedAtomicFlag`
unfoldable pub flag_reset : Bool → Bool
flag_reset cell = false

unfoldable pub flag_set : Bool → Bool
flag_set cell = true

unfoldable pub check_and_reset : Bool → Bool × Bool
check_and_reset true = (false, true)
check_and_reset false = (false, false)
