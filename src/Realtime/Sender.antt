-- ===== src/Realtime/Sender.antt =====
-- `ProgressHintSender` and `ProgressHintReceiver` of
-- crates/msr-core/src/realtime/worker/progress/mod.rs.
pub mod Detached
use msr.Prelude.{ℕ, ◌+◌, Bool, Option, none, some, ◌==◌, if◌then◌else◌, err}
use msr.Realtime.Handover
use msr.Realtime.Handover.{
  ProgressHintHandover, SwitchProgressHintResult, detached, default_handover,
}

-- The receiver owns the only lasting `Arc` of a handover. `address` tells one handover from the next,
-- and a sender's `Weak` is an address.
pub record ProgressHintReceiver : Type 0 where
  pub address : ℕ
  pub handover : ProgressHintHandover

pub record ProgressHintSender : Type 0 where
  pub handover : ℕ

unfoldable pub attach : ProgressHintReceiver → ProgressHintSender
attach rx = record { handover = rx.address }

unfoldable pub is_attached : ProgressHintSender → ProgressHintReceiver → Bool
is_attached tx rx = tx.handover == rx.address

-- `detach`: a new handover at an address of its own.
unfoldable pub detach : ProgressHintReceiver → ProgressHintReceiver
unfolding default_handover
detach rx = record { address = rx.address + 1; handover = default_handover }

-- `upgrade_handover().and_then(…)`
unfoldable pub with_handover :
    (ProgressHintHandover → Option (ProgressHintHandover × SwitchProgressHintResult))
    → ProgressHintSender
    → ProgressHintReceiver
    → Option (ProgressHintReceiver × SwitchProgressHintResult)
unfolding is_attached
with_handover switch tx rx =
    if is_attached tx rx
    then elim (switch rx.handover) [
      | none ↦ none
      | some (h, r) ↦ some (record rx { handover = h }, r)
    ]
    else some (rx, err detached)

-- `ProgressHintSender::{suspend, resume, finish}`
unfoldable pub suspend :
    ProgressHintSender
    → ProgressHintReceiver
    → Option (ProgressHintReceiver × SwitchProgressHintResult)
suspend = with_handover Handover.suspend

unfoldable pub resume :
    ProgressHintSender
    → ProgressHintReceiver
    → Option (ProgressHintReceiver × SwitchProgressHintResult)
resume = with_handover Handover.resume

unfoldable pub finish :
    ProgressHintSender
    → ProgressHintReceiver
    → Option (ProgressHintReceiver × SwitchProgressHintResult)
finish = with_handover Handover.finish
