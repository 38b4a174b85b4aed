-- ===== src/Realtime/Thread/Steps.antt =====
-- The runs of a worker's thread (crates/msr-core/src/realtime/worker/thread/mod.rs) while senders change
-- the progress hint. As in Handover/Interleaving, a sender's switch is an atomic access to the hint, after
-- which it stands before `replace_notify_one` if it has changed the hint; the number of those senders is
-- a part of the run.
use mathlib.Core.Path.{subst}
use msr.Prelude.{ℕ, suc, ◌≡◌, Option, none, some, if◌then◌else◌, Result}
use msr.Sync.Atomic.{SwitchAtomicStateResult}
use msr.Sync.Relay.{replace_notify_one}
use msr.Realtime.Progress.{ProgressHint}
use msr.Realtime.Handover.{ProgressHintHandover, notifies}
use msr.Realtime.Handover.Interleaving.{Switch, switched}
use msr.Realtime.Thread.{ThreadScheduling, Worker, Stage, Thread, advance}

abbrev pub after_switch : Switch → ProgressHintHandover → ProgressHintHandover
after_switch op h = record h { latest_progress_hint = (switched op h.latest_progress_hint).0 }

abbrev pub after_notify : ProgressHintHandover → ProgressHintHandover
after_notify h = record h {
  update_notification_relay = (replace_notify_one tt h.update_notification_relay).0;
}

abbrev pub Each {ℓ} : {A : Type 0} → (A → Type ℓ) → Option A → Type ℓ
Each P none = Unit
Each P (some a) = P a

module _ {W E X : Type 0} (w : Worker W E X) (scheduling : ThreadScheduling)
    (entered : Result (Unit {0}) X) where
  pub data Step (t : Thread W E X) (n : ℕ) : Thread W E X → ℕ → Type 0 where
    run : (u : Thread W E X) → advance w scheduling entered t.stage t ≡ some u → Step t n u n
    send :
        (op : Switch) (r : SwitchAtomicStateResult ProgressHint)
        → (switched op t.handover.latest_progress_hint).1 ≡ some r
        → Step t n
            (record t { handover = after_switch op t.handover })
            (if notifies r then suc n else n)
    notify : (k : ℕ) → n ≡ suc k → Step t n (record t { handover = after_notify t.handover }) k

  -- Some senders may stand before `replace_notify_one` at the start.
  pub data Reach (s : Thread W E X) : Thread W E X → ℕ → Type 0 where
    here : (n : ℕ) → Reach s s n
    later : {t u : Thread W E X} {n m : ℕ} → Reach s t n → Step t n u m → Reach s u m

  each_some : {A : Type 0} (P : A → Type 0) {o : Option A} {a : A} → Each P o → o ≡ some a → P a
  each_some P {o} {a} h e = rw e at h

  pub Reach-inv :
      (P : Stage X → Thread W E X → ℕ → Type 0)
      → ((st : Stage X) (t : Thread W E X) (n : ℕ)
          → P st t n
          → Each (λ u. P u.stage u n) (advance w scheduling entered st t))
      → ((op : Switch) (r : SwitchAtomicStateResult ProgressHint) (t : Thread W E X) (n : ℕ)
          → (switched op t.handover.latest_progress_hint).1 ≡ some r
          → P t.stage t n
          → P t.stage
              (record t { handover = after_switch op t.handover })
              (if notifies r then suc n else n))
      → ((t : Thread W E X) (k : ℕ)
          → P t.stage t (suc k)
          → P t.stage (record t { handover = after_notify t.handover }) k)
      → {s t : Thread W E X} {n : ℕ} → Reach s t n
      → ((n : ℕ) → P s.stage s n)
      → P t.stage t n
  Reach-inv P on_run on_send on_notify (here n) p = p n
  Reach-inv P on_run on_send on_notify (later {t} {u = v} {n} r (run u e)) p =
      each_some (λ u. P u.stage u n) (on_run t.stage t n (Reach-inv P on_run on_send on_notify r p))
        e
  Reach-inv P on_run on_send on_notify (later {t} {u = v} {n} r (send op q e)) p =
      on_send op q t n e (Reach-inv P on_run on_send on_notify r p)
  Reach-inv P on_run on_send on_notify (later {t} {u = v} {n} r (notify k e)) p =
      on_notify t k (subst (P t.stage t) e (Reach-inv P on_run on_send on_notify r p))
