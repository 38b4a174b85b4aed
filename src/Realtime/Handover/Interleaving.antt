-- ===== src/Realtime/Handover/Interleaving.antt =====
-- Senders and the receiver of one handover in any interleaving
-- (crates/msr-core/src/realtime/worker/progress/mod.rs). A sender's switch is an atomic access to the
-- hint, after which it stands before `replace_notify_one` if it has changed the hint; the receiver is in
-- or out of `wait_while_suspending`.
use msr.Prelude.{
  ℕ, suc, ◌<◌, ◌≡◌, refl, ◌≢◌, ◌⊎◌, inl, inr, Bool, false, Option, some, arith, if◌then◌else◌,
  Bool-cases,
}
use msr.Sync.Atomic.{SwitchAtomicStateResult, swap, compare_exchange}
use msr.Sync.Relay.{Relay, replace_notify_one, take}
use msr.Realtime.Progress.{
  ProgressHint, suspend, progress_hint_to_atomic_state, progress_hint_from_atomic_state,
  suspend_hint, resume_hint, finish_hint, switch_to_desired, switch_from_expected_to_desired,
  exchanged, accepted_from, as_result,
}
use msr.Realtime.Handover
use msr.Realtime.Handover.{ProgressHintHandover, default_handover, notifies, load}

pub data Phase : Type 0 where
  elsewhere : Phase  -- not in `wait_while_suspending`
  looking : Phase  -- about to load the hint
  waiting : Phase  -- in `Relay::wait`

pub record System : Type 0 where
  pub handover : ProgressHintHandover
  pub pending : ℕ  -- senders before `replace_notify_one`
  pub phase : Phase

pub data Switch : Type 0 where
  to_suspend to_resume to_finish : Switch

abbrev pub switched : Switch → ℕ → ℕ × Option (SwitchAtomicStateResult ProgressHint)
switched to_suspend = suspend_hint
switched to_resume = resume_hint
switched to_finish = finish_hint

abbrev pub initial : System
initial = record { handover = default_handover; pending = 0; phase = elsewhere }

abbrev pub cell_of : System → ℕ
cell_of s = s.handover.latest_progress_hint

abbrev pub slot_of : System → Option (Unit {0})
slot_of s = s.handover.update_notification_relay.slot

abbrev pub with_cell : ℕ → System → System
with_cell cell s = record s { handover = record s.handover { latest_progress_hint = cell } }

abbrev pub with_relay : Relay (Unit {0}) → System → System
with_relay relay s = record s { handover = record s.handover { update_notification_relay = relay } }

pub data Step (s : System) : System → Type 0 where
  send :
      (w : Switch) (r : SwitchAtomicStateResult ProgressHint)
      → (switched w (cell_of s)).1 ≡ some r
      → Step s (record (with_cell (switched w (cell_of s)).0 s) {
        pending = if notifies r then suc s.pending else s.pending;
      })
  notify :
      (k : ℕ)
      → s.pending ≡ suc k
      → Step s
          (record (with_relay (replace_notify_one tt s.handover.update_notification_relay).0 s) {
            pending = k;
          })
  -- `try_suspending`, `try_finishing` and `reset`, which only the receiver calls
  try_suspending :
      (h : ProgressHintHandover) (b : Bool)
      → s.phase ≡ elsewhere
      → Handover.try_suspending s.handover ≡ some (h, b)
      → Step s (record s { handover = h })
  try_finishing :
      (h : ProgressHintHandover) (b : Bool)
      → s.phase ≡ elsewhere
      → Handover.try_finishing s.handover ≡ some (h, b)
      → Step s (record s { handover = h })
  reset :
      (h : ProgressHintHandover)
      → s.phase ≡ elsewhere
      → Handover.reset s.handover ≡ some h
      → Step s (record s { handover = h })
  enter : s.phase ≡ elsewhere → Step s (record s { phase = looking })
  wait : s.phase ≡ looking → load s.handover ≡ some suspend → Step s (record s { phase = waiting })
  leave :
      (hint : ProgressHint)
      → s.phase ≡ looking
      → load s.handover ≡ some hint
      → hint ≢ suspend
      → Step s (record s { phase = elsewhere })
  -- `wait` returns
  wake :
      (u : Unit {0})
      → s.phase ≡ waiting
      → slot_of s ≡ some u
      → Step s
          (record (with_relay (take s.handover.update_notification_relay).0 s) { phase = looking })

pub data Reach : System → Type 0 where
  start : Reach initial
  later : {s t : System} → Reach s → Step s t → Reach t

abbrev pub IsAwaited : System → Type 0
IsAwaited s =
    s.phase ≡ waiting → (load s.handover ≡ some suspend) ⊎ (slot_of s ≡ some tt) ⊎ (0 < s.pending)

-- A switch that does not notify has not changed the hint.
pub switched-unchanged :
    (w : Switch) (cell : ℕ) (r : SwitchAtomicStateResult ProgressHint)
    → (switched w cell).1 ≡ some r
    → notifies r ≡ false
    → (switched w cell).0 ≡ cell
unfolding suspend_hint resume_hint finish_hint switch_to_desired switch_from_expected_to_desired
    exchanged accepted_from as_result progress_hint_to_atomic_state progress_hint_from_atomic_state
    swap compare_exchange notifies
switched-unchanged to_suspend cell r e n = ground arith
switched-unchanged to_resume cell r e n = ground arith
switched-unchanged to_finish cell r e n = ground arith

Step-IsAwaited : {s t : System} → Step s t → IsAwaited s → IsAwaited t
unfolding replace_notify_one
Step-IsAwaited {s} (send w r e) h p = elim (Bool-cases (notifies r)) [
  | inl y ↦ rw y (inr (inr (omega arith)))
  | inr n ↦ rw n (rw (switched-unchanged w (cell_of s) r e n) (h p))
]
Step-IsAwaited (notify k e) h p = inr (inl refl)
Step-IsAwaited (try_suspending g b q e) h p = cc
Step-IsAwaited (try_finishing g b q e) h p = cc
Step-IsAwaited (reset g q e) h p = cc
Step-IsAwaited (enter q) h p = cc
Step-IsAwaited (wait q e) h p = inl e
Step-IsAwaited (leave hint q e n) h p = cc
Step-IsAwaited (wake u q e) h p = cc

Reach-IsAwaited : {s : System} → Reach s → IsAwaited s
Reach-IsAwaited start = λ p. cc
Reach-IsAwaited (later r s) = Step-IsAwaited s (Reach-IsAwaited r)

-- No resume and no finish is lost: whenever the receiver waits in `wait_while_suspending`, the hint
-- is still `suspend`, or a notification is in the relay, or a sender is about to put it there.
pub no_lost_resume :
    {s : System}
    → Reach s
    → s.phase ≡ waiting
    → (load s.handover ≡ some suspend) ⊎ (slot_of s ≡ some tt) ⊎ (0 < s.pending)
no_lost_resume r p = Reach-IsAwaited r p
