-- ===== src/Time.antt =====
-- crates/msr-core/src/time.rs: anchored instants and intervals. A point in time is the number of
-- nanoseconds from the first one that its clock can show; `last` is the number of the last one, beyond
-- which the standard library panics or, in a checked operation, returns nothing.
pub mod Anchor
use msr.Prelude.{ℕ, ◌+◌, ◌-◌, ◌*◌, ◌%◌, ◌^◌, Option, none, some, ltb, leb, if◌then◌else◌}

pub record SystemInstant : Type 0 where
  pub system_time : ℕ
  pub instant : ℕ

pub data Interval : Type 0 where
  nanos micros millis seconds minutes hours days weeks : ℕ → Interval

-- `+` on a clock; `none` stands for its panic.
unfoldable pub checked_add : ℕ → ℕ → ℕ → Option ℕ
checked_add last t d = if leb (t + d) last then some (t + d) else none

unfoldable pub checked_sub : ℕ → ℕ → Option ℕ
checked_sub t d = if leb d t then some (t - d) else none

-- `Instant::checked_duration_since`
unfoldable pub checked_duration_since : ℕ → ℕ → Option ℕ
checked_duration_since later earlier = if leb earlier later then some (later - earlier) else none

unfoldable pub checked_duration_since_instant : SystemInstant → ℕ → Option ℕ
unfolding checked_duration_since
checked_duration_since_instant s since = checked_duration_since s.instant since

unfoldable pub checked_duration_until_instant : SystemInstant → ℕ → Option ℕ
unfolding checked_duration_since
checked_duration_until_instant s until = checked_duration_since until s.instant

unfoldable pub checked_system_time_for_instant : ℕ → SystemInstant → ℕ → Option ℕ
unfolding checked_add checked_sub
checked_system_time_for_instant last s instant =
    if ltb s.instant instant
    then checked_add last s.system_time (instant - s.instant)
    else checked_sub s.system_time (s.instant - instant)

-- `Add<Duration> for SystemInstant`
unfoldable pub add : ℕ → SystemInstant → ℕ → Option SystemInstant
unfolding checked_add
add last s d = elim (checked_add last s.system_time d) [
  | none ↦ none
  | some system_time ↦ elim (checked_add last s.instant d) [
    | none ↦ none
    | some instant ↦ some (record { system_time = system_time; instant = instant })
  ]
]

-- `AddAssign<Duration> for SystemInstant`: the sums go into local copies of the fields.
unfoldable pub add_assign : ℕ → SystemInstant → ℕ → Option SystemInstant
unfolding checked_add
add_assign last s d = elim (checked_add last s.system_time d) [
  | none ↦ none
  | some system_time ↦ elim (checked_add last s.instant d) [ none ↦ none | some instant ↦ some (s) ]
]

-- `Duration::from_secs` of a product in `u64`
unfoldable pub from_secs : ℕ → ℕ
from_secs secs = secs % 2 ^ 64 * 1000000000

-- `as_duration`, in nanoseconds, with the wrap-around of the products in `u64`
unfoldable pub as_duration : Interval → ℕ
unfolding from_secs
as_duration (nanos n) = n
as_duration (micros n) = n * 1000
as_duration (millis n) = n * 1000000
as_duration (seconds n) = from_secs n
as_duration (minutes n) = from_secs (n * 60)
as_duration (hours n) = from_secs (n * 60 * 60)
as_duration (days n) = from_secs (n * 60 * 60 * 24)
as_duration (weeks n) = from_secs (n * 60 * 60 * 24 * 7)

-- `none` where the standard library panics
unfoldable pub system_time_before : Interval → ℕ → Option ℕ
unfolding checked_sub
system_time_before i t = checked_sub t (as_duration i)

unfoldable pub system_time_after : ℕ → Interval → ℕ → Option ℕ
unfolding checked_add
system_time_after last i t = checked_add last t (as_duration i)
