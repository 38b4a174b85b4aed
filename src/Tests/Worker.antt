-- ===== src/Tests/Worker.antt =====
-- The relay and the progress hint of crates/msr-core on concrete inputs.
use msr.Prelude.{
  ℕ, ◌+◌, ◌<◌, ◌≡◌, refl, ◌≢◌, ◌⊎◌, false, Option, none, some, List, [], ◌∷◌, arith, ok,
}
use msr.Sync.Relay.{Turn, replace_notify_one, wait_until, new}
use msr.Sync.Relay.Wakeup
use msr.Sync.Relay.Wakeup.{Monitor, no_lost_wakeup}
use msr.Sync.Relay.Deadline.{wait_until_returns}
use msr.Sync.Atomic.{compare_exchange, accepted}
use msr.Realtime.Progress.{
  continue, suspend, progress_hint_to_atomic_state, progress_hint_from_atomic_state, load_hint,
  suspend_hint, resume_hint, switch_from_expected_to_desired, exchanged,
}
use msr.Realtime.Handover.{default_handover, notifies, load}
use msr.Realtime.Handover.Refinement.{
  View, Op, ask_suspend, ask_resume, concrete, specified, performed, performed-specified,
}
use msr.Realtime.Handover.Interleaving
use msr.Realtime.Handover.Interleaving.{System, waiting, to_suspend, no_lost_resume, slot_of}

abbrev turns_example : List (Turn ℕ)
turns_example =
    record { now = 3; slot = none; timed_out = false }
    ∷ record { now = 12; slot = some 7; timed_out = false }
    ∷ []

wait_until_returns_example : (v : Option ℕ) × (wait_until 10 turns_example new ≡ some (new, v))
wait_until_returns_example = wait_until_returns 10 turns_example new refl

-- A consumer blocks, and a producer has put a value and not yet notified.
abbrev monitor_example : Monitor ℕ
monitor_example = record {
  relay = record { slot = some 7 };
  blocked = 1;
  awake = 0;
  expiring = 0;
  ones = 1;
  alls = 0;
}

monitor_example-Reach : Wakeup.Reach new monitor_example
unfolding new replace_notify_one
monitor_example-Reach =
    Wakeup.Reach.later
      (Wakeup.Reach.later (Wakeup.Reach.later Wakeup.Reach.start Wakeup.Step.arrive)
        (Wakeup.Step.block 0 refl refl))
      (Wakeup.Step.put_one 7)

no_lost_wakeup_example : 0 < 0 + 0 + 1 + 0
no_lost_wakeup_example = no_lost_wakeup 7 monitor_example-Reach refl (omega arith)

abbrev view_example : View
view_example = record { hint = suspend; notified = false }

performed-specified_example :
    performed ask_resume (concrete view_example)
    ≡ some (concrete (specified ask_resume view_example).0, (specified ask_resume view_example).1)
performed-specified_example = performed-specified ask_resume view_example

ask_suspend_no_reset : ask_suspend ≢ Op.reset
ask_suspend_no_reset e = cc

ask_resume_no_reset : ask_resume ≢ Op.reset
ask_resume_no_reset e = cc

-- The receiver waits after a sender has suspended it, and another sender resumes it.
abbrev waiting_example : System
waiting_example = record {
  handover = record { latest_progress_hint = 0; update_notification_relay = new };
  pending = 2;
  phase = waiting;
}

waiting_example-Reach : Interleaving.Reach waiting_example
unfolding default_handover suspend_hint resume_hint switch_from_expected_to_desired exchanged
    progress_hint_to_atomic_state progress_hint_from_atomic_state compare_exchange notifies load
    load_hint
waiting_example-Reach =
    Interleaving.Reach.later
      (Interleaving.Reach.later
        (Interleaving.Reach.later
          (Interleaving.Reach.later Interleaving.Reach.start
            (Interleaving.Step.send to_suspend (ok (accepted continue)) refl))
          (Interleaving.Step.enter refl))
        (Interleaving.Step.wait refl refl))
      (Interleaving.Step.send Interleaving.to_resume (ok (accepted suspend)) refl)

no_lost_resume_example :
    (load waiting_example.handover ≡ some suspend) ⊎ (slot_of waiting_example ≡ some tt) ⊎ (0 < 2)
no_lost_resume_example = no_lost_resume waiting_example-Reach refl
