-- ===== src/Realtime/Thread/Lifecycle.antt =====
-- The order of the states of a worker's thread in crates/msr-core/src/realtime/worker/thread/mod.rs, for
-- a thread that runs while senders change the progress hint.
use msr.Prelude.{
  ℕ, ◌≡◌, refl, ap, ◌∙◌, ◌↔◌, Bool, true, false, Option, none, some, Result, ok, err, is_ok,
}
use msr.Realtime.Progress.{ProgressHint}
use msr.Realtime.Handover.{ProgressHintHandover}
use msr.Realtime.Thread.{
  State, initial, starting, running, suspending, finishing, terminating, to_u8, from_u8,
  CompletionStatus, ThreadScheduling, default, realtime, realtime_or_default, Worker, Stage, ended,
  store_starting, start_working, enter_scope, store_running, perform_work, try_suspending,
  store_suspending, look, blocked, try_finishing, store_finishing, finish_working,
  store_terminating, panicked, Thread, load_state, store_state, returns, proceed, schedule,
  after_work, panics, after_try_suspending, after_try_finishing, after_look, after_wait, advance,
  spawn,
}
use msr.Realtime.Thread.Steps.{Each, Reach, Reach-inv}
use msr.Realtime.Thread.Places.{latest, IsLifecycle, stands, only, only_lem, storing_lem}

module _ {W E X : Type 0} (w : Worker W E X) (scheduling : ThreadScheduling)
    (entered : Result (Unit {0}) X) where
  abbrev pub InOrder : Stage X → Thread W E X → Type 0
  InOrder st t =
      (t.state ≡ to_u8 (latest t.stored))
      × IsLifecycle t.stored
      × (stands st (latest t.stored) ≡ true)

  proceed-InOrder :
      (r : Result (Unit {0}) X) (next : Stage X) (t : Thread W E X)
      → InOrder next t
      → ((e : X) → InOrder (ended (err e)) t)
      → InOrder (proceed r next t).stage (proceed r next t)
  unfolding proceed returns
  proceed-InOrder (ok _) next t good bad = good
  proceed-InOrder (err e) next t good bad = bad e

  schedule-InOrder :
      (k : ThreadScheduling) (r : Result (Unit {0}) X) (t : Thread W E X)
      → InOrder store_running t
      → ((e : X) → InOrder (ended (err e)) t)
      → InOrder (schedule k r t).stage (schedule k r t)
  unfolding schedule returns
  schedule-InOrder default r t good bad = good
  schedule-InOrder realtime (ok _) t good bad = good
  schedule-InOrder realtime (err e) t good bad = bad e
  schedule-InOrder realtime_or_default r t good bad = good

  after_work-InOrder :
      (r : Result CompletionStatus X) (t : Thread W E X)
      → ((next : Stage X) → stands next running ≡ true → InOrder next t)
      → InOrder (after_work r t).stage (after_work r t)
  unfolding after_work returns
  after_work-InOrder (ok CompletionStatus.suspending) t at = at try_suspending refl
  after_work-InOrder (ok CompletionStatus.finishing) t at = at try_finishing refl
  after_work-InOrder (err e) t at = at (ended (err e)) refl

  after_try-InOrder :
      (r : Option (ProgressHintHandover × Bool)) (t : Thread W E X)
      → ((next : Stage X) → stands next running ≡ true → InOrder next t)
      → InOrder (after_try_suspending r t).stage (after_try_suspending r t)
        × InOrder (after_try_finishing r t).stage (after_try_finishing r t)
  unfolding after_try_suspending after_try_finishing panics
  after_try-InOrder none t at = (at panicked refl, at panicked refl)
  after_try-InOrder (some (h, true)) t at = (at store_suspending refl, at store_finishing refl)
  after_try-InOrder (some (h, false)) t at = (at perform_work refl, at perform_work refl)

  after_look-InOrder :
      (hint : Option ProgressHint) (t : Thread W E X)
      → ((next : Stage X) → stands next suspending ≡ true → InOrder next t)
      → InOrder (after_look hint t).stage (after_look hint t)
  unfolding after_look panics
  after_look-InOrder none t at = at panicked refl
  after_look-InOrder (some ProgressHint.suspend) t at = at blocked refl
  after_look-InOrder (some ProgressHint.continue) t at = at store_running refl
  after_look-InOrder (some ProgressHint.finish) t at = at store_running refl

  after_wait-InOrder :
      (slot : Option (Unit {0})) (t : Thread W E X)
      → ((next : Stage X) → stands next suspending ≡ true → InOrder next t)
      → Each (λ u. InOrder u.stage u) (after_wait slot t)
  unfolding after_wait
  after_wait-InOrder none t at = tt
  after_wait-InOrder (some _) t at = at look refl

  -- From a stage that stands in one state to any stage that stands in it.
  shifted :
      (st : Stage X) (s : State) (t : Thread W E X)
      → only st (latest t.stored) ≡ s
      → InOrder st t
      → (next : Stage X) → stands next s ≡ true
      → InOrder next t
  shifted st s t e (c, l, h) next q =
      (c, l, ap (stands next) (only_lem st (latest t.stored) h ∙ e) ∙ q)

  pub advance-InOrder :
      (st : Stage X) (t : Thread W E X)
      → InOrder st t
      → Each (λ u. InOrder u.stage u) (advance w scheduling entered st t)
  unfolding advance store_state returns
  advance-InOrder store_starting t (c, l, s) =
      (refl, (storing_lem {X = X} store_starting (latest t.stored) s, l), refl)
  advance-InOrder store_running t (c, l, s) =
      (refl, (storing_lem {X = X} store_running (latest t.stored) s, l), refl)
  advance-InOrder store_suspending t (c, l, s) =
      (refl, (storing_lem {X = X} store_suspending (latest t.stored) s, l), refl)
  advance-InOrder store_finishing t (c, l, s) =
      (refl, (storing_lem {X = X} store_finishing (latest t.stored) s, l), refl)
  advance-InOrder store_terminating t (c, l, s) =
      (refl, (storing_lem {X = X} store_terminating (latest t.stored) s, l), refl)
  advance-InOrder start_working t h =
      let at = shifted start_working starting t refl h in
      proceed-InOrder _ enter_scope _ (at enter_scope refl) (λ e. at (ended (err e)) refl)
  advance-InOrder enter_scope t h =
      let at = shifted enter_scope starting t refl h in
      schedule-InOrder scheduling entered t (at store_running refl) (λ e. at (ended (err e)) refl)
  advance-InOrder perform_work t h = after_work-InOrder _ _ (shifted perform_work running t refl h)
  advance-InOrder try_suspending t h =
      (after_try-InOrder _ t (shifted try_suspending running t refl h)).0
  advance-InOrder try_finishing t h =
      (after_try-InOrder _ t (shifted try_finishing running t refl h)).1
  advance-InOrder look t h = after_look-InOrder _ t (shifted look suspending t refl h)
  advance-InOrder blocked t h = after_wait-InOrder _ t (shifted blocked suspending t refl h)
  advance-InOrder finish_working t h =
      let at = shifted finish_working finishing t refl h in
      proceed-InOrder _ store_terminating _ (at store_terminating refl)
        (λ e. at (ended (err e)) refl)
  advance-InOrder (ended r) t h = tt
  advance-InOrder panicked t h = tt

  pub Reach-InOrder :
      (worker : W) (environment : E) (handover : ProgressHintHandover) {t : Thread W E X} {n : ℕ}
      → Reach w scheduling entered (spawn worker environment handover) t n
      → InOrder t.stage t
  unfolding spawn to_u8
  Reach-InOrder worker environment handover r =
      Reach-inv w scheduling entered (λ st t n. InOrder st t) (λ st t n h. advance-InOrder st t h)
        (λ op r t n e h. h) (λ t k h. h) r (λ n. (refl, tt, refl))

  from_to : (s : State) → from_u8 (to_u8 s) ≡ some s
  unfolding from_u8 to_u8
  from_to initial = refl
  from_to starting = refl
  from_to running = refl
  from_to suspending = refl
  from_to finishing = refl
  from_to terminating = refl

  -- Whatever the worker, the scheduling and the senders do: the states that a thread has stored follow
  -- one another as starting, running, any number of times suspending and running, finishing and
  -- terminating, and what others load is the last one.
  pub states_in_order :
      (worker : W) (environment : E) (handover : ProgressHintHandover) {t : Thread W E X} {n : ℕ}
      → Reach w scheduling entered (spawn worker environment handover) t n
      → IsLifecycle t.stored × (load_state t ≡ some (latest t.stored))
  unfolding load_state
  states_in_order worker environment handover {t} r =
      let (c, l, s) = Reach-InOrder worker environment handover r in
      (l, ap from_u8 c ∙ from_to (latest t.stored))

  outcome_lem :
      (r : Result (Unit {0}) X) (s : State)
      → stands (ended r) s ≡ true
      → (is_ok r ≡ true) ↔ (some s ≡ some terminating)
  outcome_lem (ok u) terminating h = (λ e. refl, λ e. refl)
  outcome_lem (ok u) _ h = cc
  outcome_lem (err x) terminating h = cc
  outcome_lem (err x) _ h = (λ e. cc, λ e. cc)

  -- A thread function that has returned has left the state terminating exactly if it has succeeded.
  pub ended-terminating :
      (worker : W) (environment : E) (handover : ProgressHintHandover) {t : Thread W E X} {n : ℕ}
      (r : Result (Unit {0}) X)
      → Reach w scheduling entered (spawn worker environment handover) t n
      → t.stage ≡ ended r
      → (is_ok r ≡ true) ↔ (load_state t ≡ some terminating)
  ended-terminating worker environment handover {t} r reach e =
      let (c, l, s) = Reach-InOrder worker environment handover reach in
      rw (states_in_order worker environment handover reach).1
        (outcome_lem r (latest t.stored) (rw e at s))
