-- ===== src/Fs/Policy.antt =====
-- Limits and names of rolling files: crates/msr-core/src/fs/policy/mod.rs. File names are byte strings;
-- the format of the time stamps is that of the crate `time`, a parameter. The debug assertions are left
-- out.
pub mod Roll
pub mod FileName
use msr.Prelude.{
  ℕ, ◌-◌, Bool, true, false, not, ◌||◌, Option, none, some, List, ◌++◌, leb, ◌==◌, if◌then◌else◌,
  Result, ok, err, length,
}
use msr.Time.{Interval, days, weeks, system_time_after}
use msr.Fs.Bytes.{starts_with, ends_with, split_at}

pub record RollingFileLimits : Type 0 where
  pub max_bytes_written : Option ℕ
  pub max_records_written : Option ℕ
  pub max_nanoseconds_offset : Option ℕ
  pub interval : Option Interval

unfoldable pub unlimited : RollingFileLimits
unlimited = record {
  max_bytes_written = none;
  max_records_written = none;
  max_nanoseconds_offset = none;
  interval = none;
}

unfoldable pub daily : RollingFileLimits
unfolding unlimited
daily = record unlimited { interval = some (days 1) }

unfoldable pub weekly : RollingFileLimits
unfolding unlimited
weekly = record unlimited { interval = some (weeks 1) }

pub record RollingFileStatus : Type 0 where
  pub created_at : ℕ
  pub bytes_written : Option ℕ
  pub records_written : Option ℕ

-- `RollingFileStatus::new`
unfoldable pub created : ℕ → RollingFileStatus
created created_at = record {
  created_at = created_at;
  bytes_written = none;
  records_written = none;
}

-- A number that is known and a limit that is set, and reached.
unfoldable pub reached : Option ℕ → Option ℕ → Bool
reached (some written) (some max) = leb max written
reached _ _ = false

-- The last test; `none` where the addition to the system time panics.
unfoldable pub rollover : ℕ → Option Interval → ℕ → ℕ → Option Bool
rollover last none created_at now = some false
rollover last (some interval) created_at now = elim (system_time_after last interval created_at) [
  | none ↦ none
  | some next_rollover ↦ some (leb next_rollover now)
]

unfoldable pub should_roll : ℕ → RollingFileStatus → ℕ → ℕ → RollingFileLimits → Option Bool
should_roll last s now now_nanoseconds_offset limits =
    if reached s.bytes_written limits.max_bytes_written
    then some true
    else if reached s.records_written limits.max_records_written
    then some true
    else if reached (some now_nanoseconds_offset) limits.max_nanoseconds_offset
    then some true
    else rollover last limits.interval s.created_at now

pub record RollingFileNameTemplate : Type 0 where
  pub prefix : List ℕ
  pub suffix : List ℕ

pub data FileNameError (X : Type 0) : Type 0 where
  pattern : FileNameError X
  parse : X → FileNameError X

-- TIME_STAMP_STRING_LEN
abbrev pub time_stamp_string_len : ℕ
time_stamp_string_len = 26

unfoldable pub format_os_string_with_time_stamp :
    {T : Type 0} → (T → List ℕ) → RollingFileNameTemplate → T → List ℕ
format_os_string_with_time_stamp show t ts = t.prefix ++ show ts ++ t.suffix

module _ {T X : Type 0} (parse_ts : List ℕ → Result T X) where
  -- `ts.parse()?`
  unfoldable pub parsed : List ℕ → Result T (FileNameError X)
  parsed ts = elim (parse_ts ts) [ ok t ↦ ok t | err e ↦ err (parse e) ]

  -- What is left behind the prefix; `none` where the subtraction of the lengths panics.
  unfoldable pub parse_behind : List ℕ → List ℕ → Option (Result T (FileNameError X))
  unfolding split_at
  parse_behind suffix without_prefix =
      if leb (length suffix) (length without_prefix)
      then (let (ts, _) = split_at (length without_prefix - length suffix) without_prefix in
          if length ts == time_stamp_string_len then some (parsed ts) else some (err pattern))
      else none

  -- `parse_time_stamp_from_file_name`, of a file name that `to_str` gives or not
  unfoldable pub parse_time_stamp_from_file_name :
      RollingFileNameTemplate → Option (List ℕ) → Option (Result T (FileNameError X))
  unfolding split_at
  parse_time_stamp_from_file_name t none = some (err pattern)
  parse_time_stamp_from_file_name t (some file_name) =
      if not (starts_with file_name t.prefix) || not (ends_with file_name t.suffix)
      then some (err pattern)
      else parse_behind t.suffix (split_at (length t.prefix) file_name).1
