-- ===== src/Sync/Relay/Wakeup.antt =====
-- Producers and consumers of one relay (crates/msr-core/src/sync/relay/mod.rs) in any interleaving.
-- Threads are counted by where they stand; a critical section of the mutex is one step.
use msr.Prelude.{ℕ, suc, ◌+◌, ◌<◌, ◌≡◌, inl, inr, none, some, arith, Option-cases}
use msr.Sync.Relay.{
  Relay, Notify, notify_one, notify_all, replace_notify_one, replace_notify_all, take,
}

pub record Monitor (T : Type 0) : Type 0 where
  pub relay : Relay T
  pub blocked : ℕ  -- in `condvar.wait`
  pub awake : ℕ  -- about to take the mutex at the head of the loop
  pub expiring : ℕ  -- timed out, about to take the mutex and return
  pub ones : ℕ  -- producers before `notify_one`
  pub alls : ℕ  -- producers before `notify_all`

abbrev pub pending_one : Notify → ℕ
pending_one notify_one = 1
pending_one _ = 0

abbrev pub pending_all : Notify → ℕ
pending_all notify_all = 1
pending_all _ = 0

module _ {T : Type 0} where
  abbrev pub initial : Relay T → Monitor T
  initial r = record { relay = r; blocked = 0; awake = 0; expiring = 0; ones = 0; alls = 0 }

  -- The critical section of a producer, which then stands before its notification.
  abbrev pub after_put_one : T → Monitor T → Monitor T
  after_put_one v m =
      let (r, _, n) = replace_notify_one v m.relay in
      record m { relay = r; ones = m.ones + pending_one n; alls = m.alls + pending_all n }

  abbrev pub after_put_all : T → Monitor T → Monitor T
  after_put_all v m =
      let (r, _, n) = replace_notify_all v m.relay in
      record m { relay = r; ones = m.ones + pending_one n; alls = m.alls + pending_all n }

  pub data Step (m : Monitor T) : Monitor T → Type 0 where
    put_one : (v : T) → Step m (after_put_one v m)
    put_all : (v : T) → Step m (after_put_all v m)
    wake_one :
        (k b : ℕ)
        → m.ones ≡ suc k
        → m.blocked ≡ suc b
        → Step m (record m { ones = k; blocked = b; awake = m.awake + 1 })
    wake_none : (k : ℕ) → m.ones ≡ suc k → m.blocked ≡ 0 → Step m (record m { ones = k })
    wake_all :
        (k : ℕ)
        → m.alls ≡ suc k
        → Step m (record m { alls = k; blocked = 0; awake = m.awake + m.blocked })
    arrive : Step m (record m { awake = m.awake + 1 })
    return :
        (k : ℕ) (v : T)
        → m.awake ≡ suc k
        → m.relay.slot ≡ some v
        → Step m (record m { awake = k; relay = (take m.relay).0 })
    block :
        (k : ℕ)
        → m.awake ≡ suc k
        → m.relay.slot ≡ none
        → Step m (record m { awake = k; blocked = m.blocked + 1 })
    -- `now >= deadline` after a wakeup
    give_up : (k : ℕ) → m.awake ≡ suc k → m.relay.slot ≡ none → Step m (record m { awake = k })
    spurious : (b : ℕ) → m.blocked ≡ suc b → Step m (record m { blocked = b; awake = m.awake + 1 })
    time_out :
        (b : ℕ) → m.blocked ≡ suc b → Step m (record m { blocked = b; expiring = m.expiring + 1 })
    expire :
        (k : ℕ) → m.expiring ≡ suc k → Step m (record m { expiring = k; relay = (take m.relay).0 })
    take_now : Step m (record m { relay = (take m.relay).0 })

  pub data Reach (r : Relay T) : Monitor T → Type 0 where
    start : Reach r (initial r)
    later : {m n : Monitor T} → Reach r m → Step m n → Reach r n

  -- While the slot is filled and a consumer is blocked, somebody is on the way.
  abbrev pub IsLive : Monitor T → Type 0
  IsLive m =
      (v : T) → m.relay.slot ≡ some v → 0 < m.blocked → 0 < m.awake + m.expiring + m.ones + m.alls

  Step-IsLive : {m n : Monitor T} → Step m n → IsLive m → IsLive n
  unfolding replace_notify_one replace_notify_all take
  Step-IsLive {m} (put_one v) h w e b = elim (Option-cases m.relay.slot) [
    | inl empty ↦ ground arith
    | inr (u, full) ↦ ground (arith, h u full b)
  ]
  Step-IsLive {m} (put_all v) h w e b = elim (Option-cases m.relay.slot) [
    | inl empty ↦ ground arith
    | inr (u, full) ↦ ground (arith, h u full b)
  ]
  Step-IsLive (wake_one k b p q) h w e c = omega arith
  Step-IsLive (wake_none k p q) h w e b = omega arith
  Step-IsLive (wake_all k p) h w e b = omega arith
  Step-IsLive arrive h w e b = omega arith
  Step-IsLive (return k v p q) h w e b = cc
  Step-IsLive (block k p q) h w e b = cc
  Step-IsLive (give_up k p q) h w e b = cc
  Step-IsLive (spurious b p) h w e c = omega arith
  Step-IsLive (time_out b p) h w e c = omega arith
  Step-IsLive (expire k p) h w e b = cc
  Step-IsLive take_now h w e b = cc

  Reach-IsLive : {r : Relay T} {m : Monitor T} → Reach r m → IsLive m
  Reach-IsLive start = λ v e b. absurd (omega arith)
  Reach-IsLive (later r s) = Step-IsLive s (Reach-IsLive r)

  -- No wakeup is lost: in every reachable state in which a value is in the slot and a consumer is
  -- blocked, another consumer is about to look at the slot or a producer is about to notify.
  pub no_lost_wakeup :
      {r : Relay T} {m : Monitor T} (v : T)
      → Reach r m
      → m.relay.slot ≡ some v
      → 0 < m.blocked
      → 0 < m.awake + m.expiring + m.ones + m.alls
  no_lost_wakeup v r e b = Reach-IsLive r v e b
