-- ===== src/Realtime/Handover/Refinement.antt =====
-- What the handover of crates/msr-core/src/realtime/worker/progress/mod.rs promises: a hint and a
-- buffered notification, with the transitions that its documentation names.
use msr.Prelude.{
  ◌≡◌, refl, ap, ◌∙◌, ◌≢◌, Bool, true, false, Option, none, some, List, [], ◌∷◌, ok, err, All,
}
use msr.Sync.Atomic.{accepted, ignored, swap, compare_exchange}
use msr.Sync.Relay.{replace_notify_one, take, new}
use msr.Realtime.Progress.{
  ProgressHint, continue, suspend, finish, progress_hint_to_atomic_state,
  progress_hint_from_atomic_state, suspend_hint, resume_hint, finish_hint, reset_hint,
  switch_to_desired, switch_from_expected_to_desired, exchanged, accepted_from, as_result,
}
use msr.Realtime.Handover
use msr.Realtime.Handover.{
  ProgressHintHandover, SwitchProgressHintResult, rejected, default_handover, notifies, converted,
  after_switched, after_latest_progress_hint_switched, tried,
}

-- The hint, and whether a notification is buffered.
pub record View : Type 0 where
  pub hint : ProgressHint
  pub notified : Bool

abbrev pub token : Bool → Option (Unit {0})
token true = some tt
token false = none

-- The handover in a given view.
abbrev pub concrete : View → ProgressHintHandover
concrete v = record {
  latest_progress_hint = progress_hint_to_atomic_state v.hint;
  update_notification_relay = record { slot = token v.notified };
}

pub data Op : Type 0 where
  ask_suspend ask_resume ask_finish try_suspending try_finishing reset : Op

pub data Reply : Type 0 where
  switched : SwitchProgressHintResult → Reply
  permitted : Bool → Reply
  done : Reply

-- The result of a switch that changes the hint.
abbrev pub changed : ProgressHint → View → View × Reply
changed hint v = (record { hint = hint; notified = true }, switched (ok (accepted v.hint)))

abbrev pub specified : Op → View → View × Reply
specified ask_suspend v = elim v.hint [
  | continue ↦ changed suspend v
  | suspend ↦ (v, switched (ok ignored))
  | finish ↦ (v, switched (err (rejected finish)))
]
specified ask_resume v = elim v.hint [
  | continue ↦ (v, switched (ok ignored))
  | suspend ↦ changed continue v
  | finish ↦ (v, switched (err (rejected finish)))
]
specified ask_finish v = elim v.hint [ finish ↦ (v, switched (ok ignored)) | _ ↦ changed finish v ]
specified try_suspending v = elim v.hint [
  | finish ↦ (v, permitted false)
  | _ ↦ (record v { hint = suspend }, permitted true)
]
specified try_finishing v = (record v { hint = finish }, permitted true)
specified reset v = (record { hint = continue; notified = false }, done)

abbrev pub with_reply :
    {A : Type 0}
    → (A → Reply)
    → Option (ProgressHintHandover × A)
    → Option (ProgressHintHandover × Reply)
with_reply f none = none
with_reply f (some (h, a)) = some (h, f a)

abbrev pub with_done : Option ProgressHintHandover → Option (ProgressHintHandover × Reply)
with_done none = none
with_done (some h) = some (h, done)

-- The operations of the code.
abbrev pub performed : Op → ProgressHintHandover → Option (ProgressHintHandover × Reply)
performed ask_suspend h = with_reply switched (Handover.suspend h)
performed ask_resume h = with_reply switched (Handover.resume h)
performed ask_finish h = with_reply switched (Handover.finish h)
performed try_suspending h = with_reply permitted (Handover.try_suspending h)
performed try_finishing h = with_reply permitted (Handover.try_finishing h)
performed reset h = with_done (Handover.reset h)

refine :
    (op : Op) (hint : ProgressHint) (notified : Bool)
    → performed op (concrete (record { hint = hint; notified = notified }))
      ≡ some (
        concrete (specified op (record { hint = hint; notified = notified })).0,
        (specified op (record { hint = hint; notified = notified })).1,
      )
unfolding Handover.suspend Handover.resume Handover.finish Handover.try_suspending
    Handover.try_finishing Handover.reset tried after_latest_progress_hint_switched after_switched
    notifies converted suspend_hint resume_hint finish_hint reset_hint switch_to_desired
    switch_from_expected_to_desired exchanged accepted_from as_result progress_hint_to_atomic_state
    progress_hint_from_atomic_state swap compare_exchange replace_notify_one take
refine ask_suspend continue true = refl
refine ask_suspend continue false = refl
refine ask_suspend suspend true = refl
refine ask_suspend suspend false = refl
refine ask_suspend finish true = refl
refine ask_suspend finish false = refl
refine ask_resume continue true = refl
refine ask_resume continue false = refl
refine ask_resume suspend true = refl
refine ask_resume suspend false = refl
refine ask_resume finish true = refl
refine ask_resume finish false = refl
refine ask_finish continue true = refl
refine ask_finish continue false = refl
refine ask_finish suspend true = refl
refine ask_finish suspend false = refl
refine ask_finish finish true = refl
refine ask_finish finish false = refl
refine try_suspending continue true = refl
refine try_suspending continue false = refl
refine try_suspending suspend true = refl
refine try_suspending suspend false = refl
refine try_suspending finish true = refl
refine try_suspending finish false = refl
refine try_finishing continue true = refl
refine try_finishing continue false = refl
refine try_finishing suspend true = refl
refine try_finishing suspend false = refl
refine try_finishing finish true = refl
refine try_finishing finish false = refl
refine reset continue true = refl
refine reset continue false = refl
refine reset suspend true = refl
refine reset suspend false = refl
refine reset finish true = refl
refine reset finish false = refl

-- The operations of the handover, on every hint and with or without a buffered notification, do not
-- panic and do what is specified: the hint and the notification afterwards, and the reply.
pub performed-specified :
    (op : Op) (v : View)
    → performed op (concrete v) ≡ some (concrete (specified op v).0, (specified op v).1)
performed-specified op v = refine op v.hint v.notified

-- Calls one after the other.
abbrev pub after : List Op → View → View
after [] v = v
after (op ∷ ops) v = after ops (specified op v).0

abbrev pub state_of : Option (ProgressHintHandover × Reply) → Option ProgressHintHandover
state_of none = none
state_of (some (h, r)) = some h

abbrev pub performed_all : List Op → Option ProgressHintHandover → Option ProgressHintHandover
performed_all [] h = h
performed_all (op ∷ ops) none = none
performed_all (op ∷ ops) (some h) = performed_all ops (state_of (performed op h))

abbrev pub default_view : View
default_view = record { hint = continue; notified = false }

performed_all-after :
    (ops : List Op) (v : View)
    → performed_all ops (some (concrete v)) ≡ some (concrete (after ops v))
performed_all-after [] v = refl
performed_all-after (op ∷ ops) v =
    ap (λ r. performed_all ops (state_of r)) (performed-specified op v)
    ∙ performed_all-after ops (specified op v).0

-- Any sequence of calls on a new handover, each of which starts with the hint and the notification
-- that the one before it has left, does not panic and leaves what is specified.
run_from_default :
    (ops : List Op)
    → performed_all ops (some default_handover) ≡ some (concrete (after ops default_view))
unfolding default_handover new progress_hint_to_atomic_state
run_from_default ops = performed_all-after ops default_view

abbrev pub finished : Bool → View
finished notified = record { hint = finish; notified = notified }

stays_finished :
    (op : Op) (notified : Bool)
    → op ≢ reset
    → (specified op (finished notified)).0 ≡ finished notified
stays_finished ask_suspend notified n = refl
stays_finished ask_resume notified n = refl
stays_finished ask_finish notified n = refl
stays_finished try_suspending notified n = refl
stays_finished try_finishing notified n = refl
stays_finished reset notified n = absurd (n refl)

after-finished :
    (ops : List Op) (notified : Bool)
    → All (λ op. op ≢ reset) ops
    → after ops (finished notified) ≡ finished notified
after-finished [] notified a = refl
after-finished (op ∷ ops) notified a =
    ap (after ops) (stays_finished op notified a.0) ∙ after-finished ops notified a.1

-- Without a reset, no sequence of calls changes a handover that is at `finish`.
finish_is_final :
    (ops : List Op) (notified : Bool)
    → All (λ op. op ≢ reset) ops
    → performed_all ops (some (concrete (finished notified))) ≡ some (concrete (finished notified))
finish_is_final ops notified a =
    performed_all-after ops (finished notified)
    ∙ ap (λ v. some (concrete v)) (after-finished ops notified a)
