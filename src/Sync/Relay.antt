-- ===== src/Sync/Relay.antt =====
-- crates/msr-core/src/sync/relay/mod.rs, by the critical sections of its mutex: `slot` is the value
-- that the mutex guards, and a producer's notification follows its section.
pub mod Wakeup
pub mod Deadline
use msr.Prelude.{ℕ, ◌+◌, Bool, Option, none, some, List, [], ◌∷◌, leb, ◌==◌, if◌then◌else◌}

pub record Relay (T : Type 0) : Type 0 where
  pub slot : Option T

-- Which consumers a producer wakes after it has released the mutex.
pub data Notify : Type 0 where
  nobody notify_one notify_all : Notify

-- What happens while a consumer waits in a loop: `now` is read before the wait, then the consumer wakes
-- up, by time-out or not, and finds the slot that the producers have left.
pub record Turn (T : Type 0) : Type 0 where
  pub now : ℕ
  pub slot : Option T
  pub timed_out : Bool

module _ {T : Type 0} where
  -- `Relay::with_value`
  unfoldable pub with_value : T → Relay T
  with_value value = record { slot = some value }

  -- `if replaced.is_none()`
  unfoldable pub on_edge : Option T → Notify → Notify
  on_edge none n = n
  on_edge (some _) n = nobody

  -- The state, the previous value and the notification.
  unfoldable pub replace_notify_one : T → Relay T → Relay T × Option T × Notify
  unfolding on_edge
  replace_notify_one value r = (record { slot = some value }, r.slot, on_edge r.slot notify_one)

  unfoldable pub replace_notify_all : T → Relay T → Relay T × Option T × Notify
  unfolding on_edge
  replace_notify_all value r = (record { slot = some value }, r.slot, on_edge r.slot notify_all)

  unfoldable pub take : Relay T → Relay T × Option T
  take r = (record { slot = none }, r.slot)

  -- `wait_until` over the turns of its loop; `none` if the turns end while it still waits.
  unfoldable pub wait_until : ℕ → List (Turn T) → Relay T → Option (Relay T × Option T)
  unfolding take
  wait_until deadline [] r = elim r.slot [ some value ↦ some (take r) | none ↦ none ]
  wait_until deadline (t ∷ ts) r =
      let rest = wait_until deadline ts (record { slot = t.slot }) in
      elim r.slot [
        | some value ↦ some (take r)
        | none ↦
            if leb deadline t.now
            then some (take r)
            else if t.timed_out
            then some (take (record { slot = t.slot }))
            else rest
      ]

  -- `wait`: time-outs do not end it.
  unfoldable pub wait : List (Turn T) → Relay T → Option (Relay T × Option T)
  unfolding take
  wait [] r = elim r.slot [ some value ↦ some (take r) | none ↦ none ]
  wait (t ∷ ts) r =
      let rest = wait ts (record { slot = t.slot }) in
      elim r.slot [ some value ↦ some (take r) | none ↦ rest ]

  -- `wait_for`, called at the instant `now`; instants end at `last`.
  unfoldable pub wait_for : ℕ → ℕ → ℕ → List (Turn T) → Relay T → Option (Relay T × Option T)
  unfolding take
  wait_for last now timeout ts r =
      if timeout == 0
      then some (take r)
      else if leb (now + timeout) last
      then wait_until (now + timeout) ts r
      else wait ts r

-- `Relay::new`
unfoldable pub new : {T : Type 0} → Relay T
new = record { slot = none }
