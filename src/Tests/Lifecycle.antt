-- ===== src/Tests/Lifecycle.antt =====
-- Runs of the worker's thread of crates/msr-core on concrete workers.
use msr.Prelude.{
  ◌<◌, ℕ, zero, suc, ◌+◌, ◌≡◌, refl, ◌↔◌, ◌⊎◌, inr, true, false, Option, none, some, Result, ok,
  is_ok,
}
use msr.Sync.Atomic.{swap, compare_exchange}
use msr.Sync.Relay.{new}
use msr.Realtime.Progress.{
  ProgressHint, progress_hint_to_atomic_state, progress_hint_from_atomic_state, load_hint,
  suspend_hint, finish_hint, switch_to_desired, switch_from_expected_to_desired, exchanged,
  accepted_from, as_result,
}
use msr.Realtime.Handover
use msr.Realtime.Handover.{load, tried, default_handover}
use msr.Realtime.Thread.{
  terminating, CompletionStatus, realtime, Worker, ended, blocked, panicked, Thread, store_state,
  returns, proceed, schedule, after_work, after_try_suspending, after_try_finishing, after_look,
  after_wait, consumed, advance, spawn, load_state,
}
use msr.Realtime.Thread.Steps.{run, Reach, here, later}
use msr.Realtime.Thread.Places.{latest, IsLifecycle}
use msr.Realtime.Thread.Lifecycle.{states_in_order, ended-terminating}
use msr.Realtime.Thread.Callbacks.{Called, ended-Called}
use msr.Realtime.Thread.Waiting.{stuck_only_suspended, finishing_is_settled}

-- A worker that asks for the given status whenever it has performed work.
abbrev worker_example : CompletionStatus → Worker ℕ (Unit {0}) ℕ
worker_example status = record {
  start_working = λ n e. (n, e, ok tt);
  perform_work = λ n e h. (n + 1, false, ok status);
  finish_working = λ n e. (n, e, ok tt);
}

module _ (status : CompletionStatus) where
  abbrev moved : Option (Thread ℕ (Unit {0}) ℕ) → Thread ℕ (Unit {0}) ℕ → Thread ℕ (Unit {0}) ℕ
  moved none t = t
  moved (some u) t = u

  abbrev step : Thread ℕ (Unit {0}) ℕ → Thread ℕ (Unit {0}) ℕ
  step t = moved (advance (worker_example status) realtime (ok tt) t.stage t) t

  abbrev steps : ℕ → Thread ℕ (Unit {0}) ℕ → Thread ℕ (Unit {0}) ℕ
  steps zero t = t
  steps (suc n) t = step (steps n t)

  step-Reach :
      {s t : Thread ℕ (Unit {0}) ℕ}
      → Reach (worker_example status) realtime (ok tt) s t 0
      → Reach (worker_example status) realtime (ok tt) s (step t) 0
  step-Reach {s} {t} r = go (advance (worker_example status) realtime (ok tt) t.stage t) refl
    where
      go :
          (o : Option (Thread ℕ (Unit {0}) ℕ))
          → advance (worker_example status) realtime (ok tt) t.stage t ≡ o
          → Reach (worker_example status) realtime (ok tt) s (moved o t) 0
      go none e = r
      go (some u) e = later r (run u e)

  steps-Reach :
      (n : ℕ) (s : Thread ℕ (Unit {0}) ℕ)
      → Reach (worker_example status) realtime (ok tt) s (steps n s) 0
  steps-Reach zero s = here 0
  steps-Reach (suc n) s = step-Reach (steps-Reach n s)

abbrev spawned : Thread ℕ (Unit {0}) ℕ
spawned = spawn 0 tt default_handover

-- Nine statements lead to the end.
abbrev finished_example : Thread ℕ (Unit {0}) ℕ
finished_example = steps CompletionStatus.finishing 9 spawned

finished_example-Reach :
    Reach (worker_example CompletionStatus.finishing) realtime (ok tt) spawned finished_example 0
finished_example-Reach = steps-Reach CompletionStatus.finishing 9 spawned

finished_example-stage : finished_example.stage ≡ ended (ok tt)
unfolding spawn advance store_state returns proceed schedule after_work after_try_finishing consumed
    Handover.try_finishing tried finish_hint switch_to_desired accepted_from as_result
    progress_hint_to_atomic_state progress_hint_from_atomic_state swap default_handover
finished_example-stage = refl

-- Eight statements lead to the wait.
abbrev waiting_example : Thread ℕ (Unit {0}) ℕ
waiting_example = steps CompletionStatus.suspending 8 spawned

waiting_example-Reach :
    Reach (worker_example CompletionStatus.suspending) realtime (ok tt) spawned waiting_example 0
waiting_example-Reach = steps-Reach CompletionStatus.suspending 8 spawned

waiting_example-stuck :
    advance
      (worker_example CompletionStatus.suspending)
      realtime
      (ok tt)
      waiting_example.stage
      waiting_example
    ≡ none
unfolding spawn advance store_state returns proceed schedule after_work after_try_suspending
    consumed after_look after_wait load load_hint suspend_hint switch_from_expected_to_desired
    exchanged compare_exchange Handover.try_suspending tried progress_hint_to_atomic_state
    progress_hint_from_atomic_state default_handover new
waiting_example-stuck = refl

states_in_order_example :
    IsLifecycle finished_example.stored
    × (load_state finished_example ≡ some (latest finished_example.stored))
states_in_order_example =
    states_in_order (worker_example CompletionStatus.finishing) realtime (ok tt) 0 tt
      default_handover finished_example-Reach

ended-terminating_example :
    (is_ok {A = Unit {0}} {E = ℕ} (ok tt) ≡ true) ↔ (load_state finished_example ≡ some terminating)
ended-terminating_example =
    ended-terminating (worker_example CompletionStatus.finishing) realtime (ok tt) 0 tt
      default_handover (ok tt) finished_example-Reach finished_example-stage

ended-Called_example :
    Called {X = ℕ} (ended (ok tt)) finished_example.calls × (finished_example.in_scope ≡ false)
ended-Called_example =
    ended-Called (worker_example CompletionStatus.finishing) realtime (ok tt) 0 tt default_handover
      (ok tt) finished_example-Reach finished_example-stage

finishing_is_settled_example : load finished_example.handover ≡ some ProgressHint.finish
finishing_is_settled_example =
    finishing_is_settled (worker_example CompletionStatus.finishing) realtime (ok tt) 0 tt
      default_handover finished_example-Reach (inr finished_example-stage)

stuck_only_suspended_example :
    ((r : Result (Unit {0}) ℕ) × (waiting_example.stage ≡ ended r))
    ⊎ (waiting_example.stage ≡ panicked)
    ⊎ ((waiting_example.stage ≡ blocked)
        × ((load waiting_example.handover ≡ some ProgressHint.suspend) ⊎ (0 < 0)))
stuck_only_suspended_example =
    stuck_only_suspended (worker_example CompletionStatus.suspending) realtime (ok tt) 0 tt
      default_handover waiting_example-Reach waiting_example-stuck
