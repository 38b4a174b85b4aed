-- ===== src/Realtime/Sender/Detached.antt =====
-- Detaching senders (crates/msr-core/src/realtime/worker/progress/mod.rs).
use msr.Prelude.{ℕ, zero, suc, ◌+◌, ◌≡◌, refl, false, Option, some, arith, err}
use msr.Realtime.Handover
use msr.Realtime.Handover.{ProgressHintHandover, SwitchProgressHintResult, detached}
use msr.Realtime.Sender
use msr.Realtime.Sender.{
  ProgressHintReceiver, ProgressHintSender, attach, is_attached, detach, with_handover,
}

-- The receiver after `n` calls of `detach`.
abbrev pub detached_times : ℕ → ProgressHintReceiver → ProgressHintReceiver
detached_times zero rx = rx
detached_times (suc n) rx = detach (detached_times n rx)

address_lem : (n : ℕ) (rx : ProgressHintReceiver) → (detached_times n rx).address ≡ rx.address + n
unfolding detach
address_lem zero rx = omega arith
address_lem (suc n) rx = omega (arith, address_lem n rx)

is_attached_lem :
    (n : ℕ) (rx : ProgressHintReceiver)
    → is_attached (attach rx) (detached_times (suc n) rx) ≡ false
unfolding is_attached attach
is_attached_lem n rx = ground (arith, address_lem (suc n) rx)

not_attached :
    (switch : ProgressHintHandover → Option (ProgressHintHandover × SwitchProgressHintResult))
    (tx : ProgressHintSender) (rx : ProgressHintReceiver)
    → is_attached tx rx ≡ false
    → with_handover switch tx rx ≡ some (rx, err detached)
unfolding with_handover
not_attached switch tx rx e = rw e refl

-- A sender that was attached before the receiver has detached its senders, once or more often, is
-- refused by each operation and changes nothing.
detach-refused :
    (n : ℕ) (rx : ProgressHintReceiver)
    → let after = detached_times (suc n) rx in
      (Sender.suspend (attach rx) after ≡ some (after, err detached))
      × (Sender.resume (attach rx) after ≡ some (after, err detached))
      × (Sender.finish (attach rx) after ≡ some (after, err detached))
unfolding Sender.suspend Sender.resume Sender.finish
detach-refused n rx =
    let e = is_attached_lem n rx in
    let after = detached_times (suc n) rx in
    (
      not_attached Handover.suspend (attach rx) after e,
      not_attached Handover.resume (attach rx) after e,
      not_attached Handover.finish (attach rx) after e,
    )
