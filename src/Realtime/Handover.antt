-- ===== src/Realtime/Handover.antt =====
-- `ProgressHintHandover` of crates/msr-core/src/realtime/worker/progress/mod.rs.
pub mod Refinement
pub mod Interleaving
use msr.Prelude.{
  ℕ, Bool, true, false, Option, none, some, List, if◌then◌else◌, Result, ok, err, is_ok,
}
use msr.Sync.Atomic.{
  SwitchAtomicStateOk, accepted, ignored, SwitchAtomicStateErr, SwitchAtomicStateResult,
}
use msr.Sync.Relay.{Relay, Turn, replace_notify_one, take}
use msr.Sync.Relay
use msr.Realtime.Progress.{
  ProgressHint, load_hint, suspend_hint, resume_hint, finish_hint, reset_hint,
}

-- `UpdateNotificationToken` carries nothing.
pub record ProgressHintHandover : Type 0 where
  pub latest_progress_hint : ℕ
  pub update_notification_relay : Relay (Unit {0})

-- `SwitchProgressHintOk` has the constructors of `SwitchAtomicStateOk`.
abbrev pub SwitchProgressHintOk : Type 0
SwitchProgressHintOk = SwitchAtomicStateOk ProgressHint

pub data SwitchProgressHintError : Type 0 where
  detached : SwitchProgressHintError
  rejected : ProgressHint → SwitchProgressHintError

abbrev pub SwitchProgressHintResult : Type 0
SwitchProgressHintResult = Result SwitchProgressHintOk SwitchProgressHintError

-- `ProgressHintHandover::default`
unfoldable pub default_handover : ProgressHintHandover
default_handover = record { latest_progress_hint = 0; update_notification_relay = Relay.new }

-- `matches!(ok, Accepted { .. })`
unfoldable pub notifies : SwitchAtomicStateResult ProgressHint → Bool
notifies (ok (accepted previous)) = true
notifies (ok ignored) = false
notifies (err e) = false

unfoldable pub converted : SwitchAtomicStateResult ProgressHint → SwitchProgressHintResult
converted (ok r) = ok r
converted (err (SwitchAtomicStateErr.rejected current)) =
    err (SwitchProgressHintError.rejected current)

-- The handover's relay after a switch: filled if the hint has changed.
unfoldable pub after_switched :
    SwitchAtomicStateResult ProgressHint → Relay (Unit {0}) → Relay (Unit {0})
after_switched r relay = if notifies r then (replace_notify_one tt relay).0 else relay

-- `after_latest_progress_hint_switched_result`; `none` where the switch has panicked.
unfoldable pub after_latest_progress_hint_switched :
    ℕ × Option (SwitchAtomicStateResult ProgressHint)
    → ProgressHintHandover
    → Option (ProgressHintHandover × SwitchProgressHintResult)
after_latest_progress_hint_switched (cell, none) h = none
after_latest_progress_hint_switched (cell, some r) h = some (
  record {
    latest_progress_hint = cell;
    update_notification_relay = after_switched r h.update_notification_relay;
  },
  converted r,
)

unfoldable pub load : ProgressHintHandover → Option ProgressHint
load h = load_hint h.latest_progress_hint

-- `ProgressHintHandover::{suspend, resume, finish}`
unfoldable pub suspend :
    ProgressHintHandover → Option (ProgressHintHandover × SwitchProgressHintResult)
suspend h = after_latest_progress_hint_switched (suspend_hint h.latest_progress_hint) h

unfoldable pub resume :
    ProgressHintHandover → Option (ProgressHintHandover × SwitchProgressHintResult)
resume h = after_latest_progress_hint_switched (resume_hint h.latest_progress_hint) h

unfoldable pub finish :
    ProgressHintHandover → Option (ProgressHintHandover × SwitchProgressHintResult)
finish h = after_latest_progress_hint_switched (finish_hint h.latest_progress_hint) h

-- `ProgressHintHandover::reset`; `none` where the switch has panicked, here and below.
unfoldable pub reset : ProgressHintHandover → Option ProgressHintHandover
reset h =
    let (cell, r) = reset_hint h.latest_progress_hint in
    elim r [
      | none ↦ none
      | some _ ↦ some (record {
        latest_progress_hint = cell;
        update_notification_relay = (take h.update_notification_relay).0;
      })
    ]

-- The receiver's own switches do not notify.
unfoldable pub tried :
    ℕ × Option (SwitchAtomicStateResult ProgressHint)
    → ProgressHintHandover
    → Option (ProgressHintHandover × Bool)
tried (cell, none) h = none
tried (cell, some r) h = some (record h { latest_progress_hint = cell }, is_ok r)

unfoldable pub try_suspending : ProgressHintHandover → Option (ProgressHintHandover × Bool)
try_suspending h = tried (suspend_hint h.latest_progress_hint) h

unfoldable pub try_finishing : ProgressHintHandover → Option (ProgressHintHandover × Bool)
try_finishing h = tried (finish_hint h.latest_progress_hint) h

-- The handover after a wait on the relay, and whether there was a notification; `none` where the turns
-- end while it waits.
unfoldable pub after_waiting :
    Option (Relay (Unit {0}) × Option (Unit {0}))
    → ProgressHintHandover
    → Option (ProgressHintHandover × Bool)
after_waiting none h = none
after_waiting (some (relay, none)) h = some (record h { update_notification_relay = relay }, false)
after_waiting (some (relay, some _)) h = some (record h { update_notification_relay = relay }, true)

-- `wait`, whose result the source drops
unfoldable pub wait :
    List (Turn (Unit {0})) → ProgressHintHandover → Option (ProgressHintHandover × Bool)
unfolding after_waiting
wait turns h = after_waiting (Relay.wait turns h.update_notification_relay) h

unfoldable pub wait_for :
    ℕ → ℕ → ℕ → List (Turn (Unit {0})) → ProgressHintHandover → Option (ProgressHintHandover × Bool)
unfolding after_waiting
wait_for last now timeout turns h =
    after_waiting (Relay.wait_for last now timeout turns h.update_notification_relay) h

unfoldable pub wait_until :
    ℕ → List (Turn (Unit {0})) → ProgressHintHandover → Option (ProgressHintHandover × Bool)
unfolding after_waiting
wait_until deadline turns h =
    after_waiting (Relay.wait_until deadline turns h.update_notification_relay) h
