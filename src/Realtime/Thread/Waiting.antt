-- ===== src/Realtime/Thread/Waiting.antt =====
-- Where a worker's thread waits (crates/msr-core/src/realtime/worker/thread/mod.rs), and what holds of
-- the progress hint there and while it finishes.
use mathlib.Core.Path.{subst}
use msr.Prelude.{
  ℕ, suc, ◌<◌, ◌≡◌, refl, sym, ◌∙◌, ◌⊎◌, inl, inr, Bool, true, false, Option, none, some, List, [],
  ◌∷◌, arith, if◌then◌else◌, Bool-cases, Result, ok, err,
}
use msr.Sync.Atomic.{SwitchAtomicStateResult}
use msr.Sync.Relay.{replace_notify_one}
use msr.Realtime.Progress.{ProgressHint}
use msr.Realtime.Handover
use msr.Realtime.Handover.{ProgressHintHandover, load, notifies}
use msr.Realtime.Handover.Interleaving.{Switch, switched, switched-unchanged}
use msr.Realtime.Thread.{
  State, starting, running, suspending, finishing, terminating, to_u8, CompletionStatus,
  ThreadScheduling, default, realtime, realtime_or_default, Worker, Stage, ended, store_starting,
  start_working, enter_scope, store_running, perform_work, try_suspending, store_suspending, look,
  blocked, try_finishing, store_finishing, finish_working, store_terminating, panicked, Thread,
  store_state, returns, proceed, schedule, after_work, panics, after_try_suspending,
  after_try_finishing, after_look, after_wait, advance, spawn,
}
use msr.Realtime.Thread.Steps.{Each, after_switch, after_notify, Reach, Reach-inv}
use msr.Realtime.Thread.Senders.{finish-switched, tried-finish}
use msr.Realtime.Thread.Places.{latest, follows, IsLifecycle, stands, only, only_lem}
use msr.Realtime.Thread.Lifecycle.{InOrder, advance-InOrder}

-- While the thread is blocked, the hint is `suspend`, or there is a notification, or a sender is about to
-- give one; once the state finishing is settled, the hint is `finish`.
abbrev pub Agrees : {X : Type 0} → Stage X → State → ProgressHintHandover → ℕ → Type 0
Agrees blocked _ h n =
    (load h ≡ some ProgressHint.suspend) ⊎ (h.update_notification_relay.slot ≡ some tt) ⊎ (0 < n)
Agrees store_finishing _ h n = load h ≡ some ProgressHint.finish
Agrees finish_working _ h n = load h ≡ some ProgressHint.finish
Agrees store_terminating _ h n = load h ≡ some ProgressHint.finish
Agrees (ended (ok _)) _ h n = load h ≡ some ProgressHint.finish
Agrees (ended (err _)) finishing h n = load h ≡ some ProgressHint.finish
Agrees _ _ h n = Unit

-- The thread has stored the state.
abbrev pub HasStored : State → List State → Type 0
HasStored s [] = ⊥
HasStored s (x ∷ xs) = (x ≡ s) ⊎ HasStored s xs

abbrev IsLate : State → Type 0
IsLate finishing = Unit
IsLate terminating = Unit
IsLate _ = ⊥

follows-IsLate : (q s : State) → follows q s ≡ true → IsLate q → IsLate s
follows-IsLate finishing terminating e h = tt
follows-IsLate finishing _ e h = cc
follows-IsLate terminating _ e h = cc
follows-IsLate _ _ e h = absurd h

-- What is stored after finishing is terminating.
latest-IsLate : (ss : List State) → IsLifecycle ss → HasStored finishing ss → IsLate (latest ss)
latest-IsLate [] l h = absurd h
latest-IsLate (x ∷ xs) (f, l) (inl e) = subst IsLate (sym e) tt
latest-IsLate (x ∷ xs) (f, l) (inr h) = follows-IsLate (latest xs) x f (latest-IsLate xs l h)

module _ {W E X : Type 0} (w : Worker W E X) (scheduling : ThreadScheduling)
    (entered : Result (Unit {0}) X) where
  abbrev Kept : Stage X → Thread W E X → ℕ → Type 0
  Kept st t n = Agrees st (latest t.stored) t.handover n

  abbrev Held : Stage X → Thread W E X → ℕ → Type 0
  Held st t n = InOrder w scheduling entered st t × Kept st t n

  -- A switch that leaves `suspend` makes its sender notify.
  awaited-switched :
      (op : Switch) (h : ProgressHintHandover) (n : ℕ) (r : SwitchAtomicStateResult ProgressHint)
      → (switched op h.latest_progress_hint).1 ≡ some r
      → Agrees {X = X} blocked suspending h n
      → Agrees {X = X} blocked suspending (after_switch op h) (if notifies r then suc n else n)
  unfolding load
  awaited-switched op h n r e a = elim (Bool-cases (notifies r)) [
    | inl y ↦ rw y (inr (inr (omega arith)))
    | inr q ↦ rw q (rw (switched-unchanged op h.latest_progress_hint r e q) a)
  ]

  switch-Kept :
      (op : Switch) (r : SwitchAtomicStateResult ProgressHint) (st : Stage X) (s : State)
      (h : ProgressHintHandover) (n : ℕ)
      → (switched op h.latest_progress_hint).1 ≡ some r
      → Agrees st s h n
      → Agrees st s (after_switch op h) (if notifies r then suc n else n)
  unfolding load
  switch-Kept op r blocked s h n e a = awaited-switched op h n r e a
  switch-Kept op r store_finishing s h n e a = finish-switched op h.latest_progress_hint r e a
  switch-Kept op r finish_working s h n e a = finish-switched op h.latest_progress_hint r e a
  switch-Kept op r store_terminating s h n e a = finish-switched op h.latest_progress_hint r e a
  switch-Kept op r (ended (ok _)) s h n e a = finish-switched op h.latest_progress_hint r e a
  switch-Kept op r (ended (err _)) finishing h n e a =
      finish-switched op h.latest_progress_hint r e a
  switch-Kept op r _ s h n e a = tt

  notify-Kept :
      (st : Stage X) (s : State) (h : ProgressHintHandover) (k : ℕ)
      → Agrees st s h (suc k)
      → Agrees st s (after_notify h) k
  unfolding load replace_notify_one
  notify-Kept blocked s h k a = inr (inl refl)
  notify-Kept store_finishing s h k a = a
  notify-Kept finish_working s h k a = a
  notify-Kept store_terminating s h k a = a
  notify-Kept (ended (ok _)) s h k a = a
  notify-Kept (ended (err _)) finishing h k a = a
  notify-Kept _ s h k a = tt

  -- A thread that fails where only one other state is stored does not owe anything.
  failed :
      (st : Stage X) (t : Thread W E X) (n : ℕ) (q : State)
      → only st (latest t.stored) ≡ q
      → stands st (latest t.stored) ≡ true
      → ((e : X) → Agrees (ended (err e)) q t.handover n)
      → (e : X) → Agrees (ended (err e)) (latest t.stored) t.handover n
  failed st t n q o h owes e =
      subst (λ s. Agrees (ended (err e)) s t.handover n) (sym (only_lem st (latest t.stored) h ∙ o))
        (owes e)

  schedule-Kept :
      (k : ThreadScheduling) (r : Result (Unit {0}) X) (t : Thread W E X) (n : ℕ)
      → ((e : X) → Kept (ended (err e)) t n)
      → Kept (schedule k r t).stage (schedule k r t) n
  unfolding schedule returns
  schedule-Kept default r t n bad = tt
  schedule-Kept realtime (ok _) t n bad = tt
  schedule-Kept realtime (err e) t n bad = bad e
  schedule-Kept realtime_or_default r t n bad = tt

  proceed-Kept :
      (r : Result (Unit {0}) X) (next : Stage X) (t : Thread W E X) (n : ℕ)
      → Kept next t n
      → ((e : X) → Kept (ended (err e)) t n)
      → Kept (proceed r next t).stage (proceed r next t) n
  unfolding proceed returns
  proceed-Kept (ok _) next t n good bad = good
  proceed-Kept (err e) next t n good bad = bad e

  work-Kept :
      (r : Result CompletionStatus X) (t : Thread W E X) (n : ℕ)
      → ((e : X) → Kept (ended (err e)) t n)
      → Kept (after_work r t).stage (after_work r t) n
  unfolding after_work returns
  work-Kept (ok CompletionStatus.suspending) t n bad = tt
  work-Kept (ok CompletionStatus.finishing) t n bad = tt
  work-Kept (err e) t n bad = bad e

  try_suspending-Kept :
      (r : Option (ProgressHintHandover × Bool)) (t : Thread W E X) (n : ℕ)
      → Kept (after_try_suspending r t).stage (after_try_suspending r t) n
  unfolding after_try_suspending panics
  try_suspending-Kept none t n = tt
  try_suspending-Kept (some (h, true)) t n = tt
  try_suspending-Kept (some (h, false)) t n = tt

  try_finishing-Kept :
      (r : Option (ProgressHintHandover × Bool)) (t : Thread W E X) (n : ℕ)
      → Handover.try_finishing t.handover ≡ r
      → Kept (after_try_finishing r t).stage (after_try_finishing r t) n
  unfolding after_try_finishing panics
  try_finishing-Kept none t n e = tt
  try_finishing-Kept (some (h, true)) t n e = tried-finish t.handover h e
  try_finishing-Kept (some (h, false)) t n e = tt

  look-Kept :
      (hint : Option ProgressHint) (t : Thread W E X) (n : ℕ)
      → load t.handover ≡ hint
      → Kept (after_look hint t).stage (after_look hint t) n
  unfolding after_look panics
  look-Kept none t n e = tt
  look-Kept (some ProgressHint.suspend) t n e = inl e
  look-Kept (some ProgressHint.continue) t n e = tt
  look-Kept (some ProgressHint.finish) t n e = tt

  wait-Kept :
      (slot : Option (Unit {0})) (t : Thread W E X) (n : ℕ)
      → Each (λ u. Kept u.stage u n) (after_wait slot t)
  unfolding after_wait
  wait-Kept none t n = tt
  wait-Kept (some _) t n = tt

  advance-Kept :
      (st : Stage X) (t : Thread W E X) (n : ℕ)
      → stands st (latest t.stored) ≡ true
      → Kept st t n
      → Each (λ u. Kept u.stage u n) (advance w scheduling entered st t)
  unfolding advance store_state returns
  advance-Kept store_starting t n h a = tt
  advance-Kept start_working t n h a =
      proceed-Kept _ enter_scope _ n tt (failed start_working t n starting refl h (λ e. tt))
  advance-Kept enter_scope t n h a =
      schedule-Kept scheduling entered t n (failed enter_scope t n starting refl h (λ e. tt))
  advance-Kept store_running t n h a = tt
  advance-Kept perform_work t n h a =
      work-Kept _ _ n (failed perform_work (record t { handover = _ }) n running refl h (λ e. tt))
  advance-Kept try_suspending t n h a = try_suspending-Kept _ t n
  advance-Kept store_suspending t n h a = tt
  advance-Kept look t n h a = look-Kept _ t n refl
  advance-Kept blocked t n h a = wait-Kept _ t n
  advance-Kept try_finishing t n h a = try_finishing-Kept _ t n refl
  advance-Kept store_finishing t n h a = a
  advance-Kept finish_working t n h a =
      proceed-Kept _ store_terminating _ n a (failed finish_working t n finishing refl h (λ e. a))
  advance-Kept store_terminating t n h a = a
  advance-Kept (ended r) t n h a = tt
  advance-Kept panicked t n h a = tt

  both :
      (P Q : Thread W E X → Type 0) (o : Option (Thread W E X))
      → Each P o
      → Each Q o
      → Each (λ u. P u × Q u) o
  both P Q none p q = tt
  both P Q (some u) p q = (p, q)

  Reach-Held :
      (worker : W) (environment : E) (handover : ProgressHintHandover) {t : Thread W E X} {n : ℕ}
      → Reach w scheduling entered (spawn worker environment handover) t n
      → Held t.stage t n
  unfolding spawn to_u8
  Reach-Held worker environment handover r =
      Reach-inv w scheduling entered Held
        (λ st t n (i, k).
          both (λ u. InOrder w scheduling entered u.stage u) (λ u. Kept u.stage u n)
            (advance w scheduling entered st t) (advance-InOrder w scheduling entered st t i)
            (advance-Kept st t n i.2 k))
        (λ op q t n e (i, k). (i, switch-Kept op q t.stage (latest t.stored) t.handover n e k))
        (λ t m (i, k). (i, notify-Kept t.stage (latest t.stored) t.handover m k)) r
        (λ n. ((refl, tt, refl), tt))

  halted :
      (st : Stage X) (t : Thread W E X) (n : ℕ)
      → Kept st t n
      → advance w scheduling entered st t ≡ none
      → ((r : Result (Unit {0}) X) × (st ≡ ended r))
        ⊎ (st ≡ panicked)
        ⊎ ((st ≡ blocked) × ((load t.handover ≡ some ProgressHint.suspend) ⊎ (0 < n)))
  unfolding advance after_wait
  halted (ended r) t n k e = inl (r, refl)
  halted panicked t n k e = inr (inl refl)
  halted blocked t n (inl s) e = inr (inr (refl, inl s))
  halted blocked t n (inr (inl full)) e = cc
  halted blocked t n (inr (inr more)) e = inr (inr (refl, inr more))
  halted _ t n k e = cc

  -- A thread that cannot go on, in any run, has ended or panicked, or it waits while the hint is
  -- `suspend`, or while a sender that has switched the hint is about to notify it.
  pub stuck_only_suspended :
      (worker : W) (environment : E) (handover : ProgressHintHandover) {t : Thread W E X} {n : ℕ}
      → Reach w scheduling entered (spawn worker environment handover) t n
      → advance w scheduling entered t.stage t ≡ none
      → ((r : Result (Unit {0}) X) × (t.stage ≡ ended r))
        ⊎ (t.stage ≡ panicked)
        ⊎ ((t.stage ≡ blocked) × ((load t.handover ≡ some ProgressHint.suspend) ⊎ (0 < n)))
  stuck_only_suspended worker environment handover {t} {n} reach e =
      halted t.stage t n (Reach-Held worker environment handover reach).1 e

  settled :
      (st : Stage X) (s : State) (h : ProgressHintHandover) (n : ℕ)
      → stands st s ≡ true
      → IsLate s
      → Agrees st s h n
      → load h ≡ some ProgressHint.finish
  settled finish_working s h n is late a = a
  settled store_terminating s h n is late a = a
  settled (ended (ok _)) s h n is late a = a
  settled (ended (err _)) finishing h n is late a = a
  settled _ finishing h n is late a = cc
  settled _ terminating h n is late a = cc
  settled _ _ h n is late a = absurd late

  succeeded-IsLate : (s : State) → stands {X = X} (ended (ok tt)) s ≡ true → IsLate s
  succeeded-IsLate terminating h = tt
  succeeded-IsLate _ h = cc

  -- A thread that has stored the state finishing, whatever it has done since, and one that has
  -- succeeded, finds the hint at `finish`, whatever the senders do.
  pub finishing_is_settled :
      (worker : W) (environment : E) (handover : ProgressHintHandover) {t : Thread W E X} {n : ℕ}
      → Reach w scheduling entered (spawn worker environment handover) t n
      → HasStored finishing t.stored ⊎ (t.stage ≡ ended (ok tt))
      → load t.handover ≡ some ProgressHint.finish
  finishing_is_settled worker environment handover {t} {n} reach h =
      let ((_, l, s), k) = Reach-Held worker environment handover reach in
      settled t.stage (latest t.stored) t.handover n s (late l s h) k
    where
      late :
          IsLifecycle t.stored
          → stands t.stage (latest t.stored) ≡ true
          → HasStored finishing t.stored ⊎ (t.stage ≡ ended (ok tt))
          → IsLate (latest t.stored)
      late l s (inl stored) = latest-IsLate t.stored l stored
      late l s (inr e) =
          succeeded-IsLate (latest t.stored) (subst (λ st. stands st (latest t.stored) ≡ true) e s)
