-- ===== src/Realtime/Thread.antt =====
-- The worker's thread: crates/msr-core/src/realtime/worker/thread/mod.rs. The worker is a parameter,
-- as is what the operating system answers to a change of the scheduling.
pub mod Steps
pub mod Places
pub mod Lifecycle
pub mod Callbacks
pub mod Senders
pub mod Waiting
use msr.Prelude.{
  ℕ, Bool, true, false, Option, none, some, List, [], ◌∷◌, ◌==◌, if◌then◌else◌, Result, ok, err,
  is_ok,
}
use msr.Sync.Relay.{take}
use msr.Realtime.Progress.{ProgressHint}
use msr.Realtime.Handover
use msr.Realtime.Handover.{ProgressHintHandover, load}

pub data State : Type 0 where
  initial starting running suspending finishing terminating : State

unfoldable pub to_u8 : State → ℕ
to_u8 initial = 0
to_u8 starting = 1
to_u8 running = 2
to_u8 suspending = 3
to_u8 finishing = 4
to_u8 terminating = 5

-- The derived `FromPrimitive`
unfoldable pub from_u8 : ℕ → Option State
from_u8 value =
    if value == 0
    then some initial
    else if value == 1
    then some starting
    else if value == 2
    then some running
    else if value == 3
    then some suspending
    else if value == 4
    then some finishing
    else if value == 5
    then some terminating
    else none

-- The conditions of `wait_until_started` and `wait_until_not_running`
unfoldable pub has_started : State → Bool
has_started initial = false
has_started starting = false
has_started _ = true

unfoldable pub is_not_running : State → Bool
is_not_running initial = false
is_not_running starting = false
is_not_running running = false
is_not_running _ = true

pub data CompletionStatus : Type 0 where
  suspending finishing : CompletionStatus

pub data ThreadScheduling : Type 0 where
  default realtime realtime_or_default : ThreadScheduling

-- The trait `Worker`, for a worker in `W`, an environment in `E` and errors in `X`. `perform_work` may
-- also take the notification from the receiver's relay, which its `Bool` says.
pub record Worker (W E X : Type 0) : Type 0 where
  pub start_working : W → E → W × E × Result (Unit {0}) X
  pub perform_work : W → E → ProgressHintHandover → W × Bool × Result CompletionStatus X
  pub finish_working : W → E → W × E × Result (Unit {0}) X

-- Where the thread stands in `thread_fn`, before the statement that it is named for.
pub data Stage (X : Type 0) : Type 0 where
  store_starting start_working enter_scope store_running perform_work try_suspending
        store_suspending look blocked try_finishing store_finishing finish_working
        store_terminating :
      Stage X
  ended : Result (Unit {0}) X → Stage X
  panicked : Stage X

pub data Call : Type 0 where
  start perform finish : Call

-- `stored` and `calls` record what `store_state` and the worker have been called with, the last first.
pub record Thread (W E X : Type 0) : Type 0 where
  pub worker : W
  pub environment : E
  pub handover : ProgressHintHandover
  pub state : ℕ
  pub in_scope : Bool
  pub stage : Stage X
  pub stored : List State
  pub calls : List Call

unfoldable pub load_state : {W E X : Type 0} → Thread W E X → Option State
load_state t = from_u8 t.state

-- The handover after `perform_work`
unfoldable pub consumed : Bool → ProgressHintHandover → ProgressHintHandover
consumed false h = h
consumed true h = record h { update_notification_relay = (take h.update_notification_relay).0 }

module _ {W E X : Type 0} where
  -- `SharedState::store_state`, after which the thread goes to `next`
  unfoldable pub store_state : State → Stage X → Thread W E X → Thread W E X
  store_state s next t = record t { state = to_u8 s; stage = next; stored = s ∷ t.stored }

  -- The thread function returns, which drops the scheduling scope.
  unfoldable pub returns : Result (Unit {0}) X → Thread W E X → Thread W E X
  returns r t = record t { in_scope = false; stage = ended r }

  -- `?`
  unfoldable pub proceed : Result (Unit {0}) X → Stage X → Thread W E X → Thread W E X
  unfolding returns
  proceed (ok _) next t = record t { stage = next }
  proceed (err e) next t = returns (err e) t

  -- The `match` on the scheduling; `entered` is the result of `ThreadSchedulingScope::enter`.
  unfoldable pub schedule : ThreadScheduling → Result (Unit {0}) X → Thread W E X → Thread W E X
  unfolding returns
  schedule default entered t = record t { stage = store_running }
  schedule realtime (ok _) t = record t { in_scope = true; stage = store_running }
  schedule realtime (err e) t = returns (err e) t
  schedule realtime_or_default entered t = record t {
    in_scope = is_ok entered;
    stage = store_running;
  }

  unfoldable pub after_work : Result CompletionStatus X → Thread W E X → Thread W E X
  unfolding returns
  after_work (ok suspending) t = record t { stage = try_suspending }
  after_work (ok finishing) t = record t { stage = try_finishing }
  after_work (err e) t = returns (err e) t

  unfoldable pub panics : Thread W E X → Thread W E X
  panics t = record t { in_scope = false; stage = panicked }

  unfoldable pub after_try_suspending :
      Option (ProgressHintHandover × Bool) → Thread W E X → Thread W E X
  unfolding panics
  after_try_suspending none t = panics t
  after_try_suspending (some (h, true)) t = record t { handover = h; stage = store_suspending }
  after_try_suspending (some (h, false)) t = record t { handover = h; stage = perform_work }

  -- Finishing leaves the scheduling scope.
  unfoldable pub after_try_finishing :
      Option (ProgressHintHandover × Bool) → Thread W E X → Thread W E X
  unfolding panics
  after_try_finishing none t = panics t
  after_try_finishing (some (h, true)) t = record t {
    handover = h;
    in_scope = false;
    stage = store_finishing;
  }
  after_try_finishing (some (h, false)) t = record t { handover = h; stage = perform_work }

  -- The test of the loop in `wait_while_suspending`
  unfoldable pub after_look : Option ProgressHint → Thread W E X → Thread W E X
  unfolding panics
  after_look none t = panics t
  after_look (some ProgressHint.suspend) t = record t { stage = blocked }
  after_look (some _) t = record t { stage = store_running }

  -- `wait` on the relay; `none` while there is no notification
  unfoldable pub after_wait : Option (Unit {0}) → Thread W E X → Option (Thread W E X)
  after_wait none t = none
  after_wait (some _) t = some (record t {
    handover = record t.handover {
      update_notification_relay = (take t.handover.update_notification_relay).0;
    };
    stage = look;
  })

module _ {W E X : Type 0} (w : Worker W E X) (scheduling : ThreadScheduling)
    (entered : Result (Unit {0}) X) where
  -- One statement of `thread_fn`; `none` if the thread waits or has ended.
  unfoldable pub advance : Stage X → Thread W E X → Option (Thread W E X)
  unfolding after_wait
  advance store_starting t = some (store_state starting start_working t)
  advance start_working t =
      let (worker, environment, r) = w.start_working t.worker t.environment in
      some (
        proceed r enter_scope
          (record t { worker = worker; environment = environment; calls = start ∷ t.calls }))
  advance enter_scope t = some (schedule scheduling entered t)
  advance store_running t = some (store_state running perform_work t)
  advance perform_work t =
      let (worker, taken, r) = w.perform_work t.worker t.environment t.handover in
      some (
        after_work r (record t {
          worker = worker;
          handover = consumed taken t.handover;
          calls = perform ∷ t.calls;
        }))
  advance try_suspending t = some (after_try_suspending (Handover.try_suspending t.handover) t)
  advance store_suspending t = some (store_state suspending look t)
  advance look t = some (after_look (load t.handover) t)
  advance blocked t = after_wait t.handover.update_notification_relay.slot t
  advance try_finishing t = some (after_try_finishing (Handover.try_finishing t.handover) t)
  advance store_finishing t = some (store_state finishing finish_working t)
  advance finish_working t =
      let (worker, environment, r) = w.finish_working t.worker t.environment in
      some (
        proceed r store_terminating
          (record t { worker = worker; environment = environment; calls = finish ∷ t.calls }))
  advance store_terminating t = some (returns (ok tt) (store_state terminating store_terminating t))
  advance (ended r) t = none
  advance panicked t = none

-- `WorkerThread::spawn`
unfoldable pub spawn : {W E X : Type 0} → W → E → ProgressHintHandover → Thread W E X
spawn worker environment handover = record {
  worker = worker;
  environment = environment;
  handover = handover;
  state = 0;
  in_scope = false;
  stage = store_starting;
  stored = [];
  calls = [];
}
