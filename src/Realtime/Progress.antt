-- ===== src/Realtime/Progress.antt =====
-- The progress hint and its atomic cell: crates/msr-core/src/realtime/worker/progress/mod.rs. Each
-- function makes one atomic access to the cell.
pub mod Laws
use msr.Prelude.{ℕ, Option, none, some, ◌==◌, if◌then◌else◌, Result, ok, err}
use msr.Sync.Atomic.{
  SwitchAtomicStateOk, accepted, ignored, SwitchAtomicStateErr, SwitchAtomicStateResult, swap,
  compare_exchange,
}
use msr.Sync.Relay

pub data ProgressHint : Type 0 where
  continue suspend finish : ProgressHint

-- PROGRESS_HINT_CONTINUE, PROGRESS_HINT_SUSPENDING, PROGRESS_HINT_FINISHING
unfoldable pub progress_hint_to_atomic_state : ProgressHint → ℕ
progress_hint_to_atomic_state continue = 0
progress_hint_to_atomic_state suspend = 1
progress_hint_to_atomic_state finish = 2

-- `none` stands for the panic of `unreachable!`.
unfoldable pub progress_hint_from_atomic_state : ℕ → Option ProgressHint
progress_hint_from_atomic_state value =
    if value == 0
    then some continue
    else if value == 1
    then some suspend
    else if value == 2
    then some finish
    else none

-- `AtomicProgressHint::load`, and `peek`, which differs only in its memory ordering
unfoldable pub load_hint : ℕ → Option ProgressHint
load_hint cell = progress_hint_from_atomic_state cell

unfoldable pub accepted_from : Option ProgressHint → Option (SwitchAtomicStateOk ProgressHint)
accepted_from none = none
accepted_from (some hint) = some (accepted hint)

-- The cell after the access, and the result; `none` where the source panics.
unfoldable pub switch_to_desired : ProgressHint → ℕ → ℕ × Option (SwitchAtomicStateOk ProgressHint)
switch_to_desired desired cell =
    let desired_value = progress_hint_to_atomic_state desired in
    let (cell', previous_value) = swap desired_value cell in
    (
      cell',
      if previous_value == desired_value
          then some ignored
          else accepted_from (progress_hint_from_atomic_state previous_value),
    )

-- `.map(…).or_else(…)` on the result of the exchange
unfoldable pub exchanged :
    ProgressHint → ProgressHint → Result ℕ ℕ → Option (SwitchAtomicStateResult ProgressHint)
exchanged expected desired (ok previous_value) =
    if progress_hint_to_atomic_state desired == progress_hint_to_atomic_state expected
    then some (ok ignored)
    else some (ok (accepted expected))
exchanged expected desired (err current_value) =
    if progress_hint_to_atomic_state desired == current_value
    then some (ok ignored)
    else elim (progress_hint_from_atomic_state current_value) [
      | some current ↦ some (err (SwitchAtomicStateErr.rejected current))
      | none ↦ none
    ]

unfoldable pub switch_from_expected_to_desired :
    ProgressHint → ProgressHint → ℕ → ℕ × Option (SwitchAtomicStateResult ProgressHint)
switch_from_expected_to_desired expected desired cell =
    let (cell', found) =
      compare_exchange (progress_hint_to_atomic_state expected)
        (progress_hint_to_atomic_state desired) cell in
    (cell', exchanged expected desired found)

-- `AtomicProgressHint::{suspend, resume, finish, reset}`
unfoldable pub suspend_hint : ℕ → ℕ × Option (SwitchAtomicStateResult ProgressHint)
suspend_hint = switch_from_expected_to_desired continue suspend

unfoldable pub resume_hint : ℕ → ℕ × Option (SwitchAtomicStateResult ProgressHint)
resume_hint = switch_from_expected_to_desired suspend continue

unfoldable pub as_result :
    Option (SwitchAtomicStateOk ProgressHint) → Option (SwitchAtomicStateResult ProgressHint)
as_result none = none
as_result (some r) = some (ok r)

unfoldable pub finish_hint : ℕ → ℕ × Option (SwitchAtomicStateResult ProgressHint)
finish_hint cell = let (cell', r) = switch_to_desired finish cell in (cell', as_result r)

unfoldable pub reset_hint : ℕ → ℕ × Option (SwitchAtomicStateOk ProgressHint)
reset_hint = switch_to_desired continue
