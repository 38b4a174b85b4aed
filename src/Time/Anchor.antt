-- ===== src/Time/Anchor.antt =====
-- What the anchored instants and the intervals of crates/msr-core/src/time.rs mean.
use msr.Prelude.{ℕ, ◌+◌, ◌*◌, ◌≤◌, ◌<◌, ◌≡◌, refl, ◌≢◌, ◌↔◌, none, some, arith}
use msr.Time.{
  SystemInstant, Interval, nanos, micros, millis, seconds, minutes, hours, days, weeks, checked_add,
  checked_sub, checked_system_time_for_instant, add, add_assign, from_secs, as_duration,
}

-- An anchor gives an instant the system time at the same distance from its own system time, exactly
-- if that lies on the clock.
checked_system_time_iff :
    (last : ℕ) (s : SystemInstant) (instant t : ℕ)
    → s.system_time ≤ last
    → (checked_system_time_for_instant last s instant ≡ some t)
      ↔ ((t + s.instant ≡ s.system_time + instant) × (t ≤ last))
unfolding checked_system_time_for_instant checked_add checked_sub
checked_system_time_iff last s instant t b = (λ e. ground arith, λ e. ground arith)

added :
    (last : ℕ) (s s' : SystemInstant) (d : ℕ)
    → add last s d ≡ some s'
    → (s'.system_time ≡ s.system_time + d)
      × (s'.instant ≡ s.instant + d)
      × (s.system_time + d ≤ last)
unfolding checked_add add
added last s s' d e = ground arith

-- A later anchor of the same clocks gives every instant the same system time.
checked_system_time-add :
    (last : ℕ) (s s' : SystemInstant) (d instant : ℕ)
    → s.system_time ≤ last
    → add last s d ≡ some s'
    → checked_system_time_for_instant last s' instant
      ≡ checked_system_time_for_instant last s instant
unfolding checked_system_time_for_instant checked_add checked_sub add
checked_system_time-add last s s' d instant b e =
    let (t, i, c) = added last s s' d e in ground (arith, t, i, c)

-- `+=` panics where `+` does, and where it does not panic it leaves the instant as it was.
add_assign_stays :
    (last : ℕ) (s : SystemInstant) (d : ℕ)
    → ((add last s d ≡ none) ↔ (add_assign last s d ≡ none))
      × (add last s d ≢ none → add_assign last s d ≡ some s)
unfolding add add_assign checked_add
add_assign_stays last s d = ground arith

abbrev pub count : Interval → ℕ
count (nanos n) = n
count (micros n) = n
count (millis n) = n
count (seconds n) = n
count (minutes n) = n
count (hours n) = n
count (days n) = n
count (weeks n) = n

abbrev pub unit : Interval → ℕ
unit (nanos n) = 1
unit (micros n) = 1000
unit (millis n) = 1000000
unit (seconds n) = 1000000000
unit (minutes n) = 60000000000
unit (hours n) = 3600000000000
unit (days n) = 86400000000000
unit (weeks n) = 604800000000000

-- No interval with a `u32` overflows: its duration is its count times its unit.
as_duration_exact : (i : Interval) → count i < 4294967296 → as_duration i ≡ count i * unit i
unfolding as_duration from_secs
as_duration_exact (nanos n) h = omega arith
as_duration_exact (micros n) h = refl
as_duration_exact (millis n) h = refl
as_duration_exact (seconds n) h = omega arith
as_duration_exact (minutes n) h = omega arith
as_duration_exact (hours n) h = omega arith
as_duration_exact (days n) h = omega arith
as_duration_exact (weeks n) h = omega arith
