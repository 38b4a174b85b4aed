-- ===== src/Realtime/Thread/Senders.antt =====
-- What the switches of senders and of the receiver leave in the hint
-- (crates/msr-core/src/realtime/worker/progress/mod.rs).
use msr.Prelude.{ℕ, ◌≡◌, true, some, arith}
use msr.Sync.Atomic.{SwitchAtomicStateResult, swap, compare_exchange}
use msr.Realtime.Progress.{
  ProgressHint, progress_hint_to_atomic_state, progress_hint_from_atomic_state, load_hint,
  suspend_hint, resume_hint, finish_hint, switch_to_desired, switch_from_expected_to_desired,
  exchanged, accepted_from, as_result,
}
use msr.Realtime.Handover
use msr.Realtime.Handover.{ProgressHintHandover, load, tried}
use msr.Realtime.Handover.Interleaving.{Switch, to_suspend, to_resume, to_finish, switched}

-- The hint `finish` stays.
pub finish-switched :
    (op : Switch) (cell : ℕ) (r : SwitchAtomicStateResult ProgressHint)
    → (switched op cell).1 ≡ some r
    → load_hint cell ≡ some ProgressHint.finish
    → load_hint (switched op cell).0 ≡ some ProgressHint.finish
unfolding load_hint suspend_hint resume_hint finish_hint switch_to_desired
    switch_from_expected_to_desired exchanged accepted_from as_result progress_hint_to_atomic_state
    progress_hint_from_atomic_state swap compare_exchange
finish-switched to_suspend cell r e f = ground arith
finish-switched to_resume cell r e f = ground arith
finish-switched to_finish cell r e f = ground arith

pub tried-finish :
    (h h' : ProgressHintHandover)
    → Handover.try_finishing h ≡ some (h', true)
    → load h' ≡ some ProgressHint.finish
unfolding Handover.try_finishing tried load load_hint finish_hint switch_to_desired accepted_from
    as_result progress_hint_to_atomic_state progress_hint_from_atomic_state swap
tried-finish h h' e = ground arith
