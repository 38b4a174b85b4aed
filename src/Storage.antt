-- ===== src/Storage.antt =====
-- The data of crates/msr-core/src/storage/mod.rs: configurations, descriptors, statistics, and the
-- offsets of records. A `Duration` and a point in time are numbers of nanoseconds. An offset is at most
-- 584 years; the panic of its addition to a point in time, 292 billion years away, is left out.
pub mod InMemory
pub mod Binary
pub mod Csv
use msr.Prelude.{ℕ, ◌+◌, ◌*◌, ◌%◌, ◌^◌, String, ◌≡◌, Option, List}
use msr.Time.{Interval, days, from_secs}
use msr.Fs.System.{IoError}
use msr.Fs.Csv.{CsvError, FileError, io_error, csv_error}

-- `Error`; any other error by its text.
pub data Error : Type 0 where
  io : IoError → Error
  csv : CsvError → Error
  other : String → Error

-- `From<crate::fs::csv::Error> for Error`
unfoldable pub error_from : FileError → Error
error_from (io_error e) = io e
error_from (csv_error e) = csv e

-- MAX_PREALLOCATED_CAPACITY_LIMIT
abbrev pub max_preallocated_capacity_limit : ℕ
max_preallocated_capacity_limit = 16384

-- `TimeInterval`, whose only constructor is `Days`
pub record TimeInterval : Type 0 where
  pub number_of_days : ℕ

-- SECONDS_PER_DAY
abbrev pub seconds_per_day : ℕ
seconds_per_day = 24 * 3600

-- `From<TimeInterval> for Duration`
unfoldable pub duration_from_time_interval : TimeInterval → ℕ
unfolding from_secs
duration_from_time_interval t = from_secs (seconds_per_day * t.number_of_days)

-- `From<TimeInterval> for Interval`
unfoldable pub interval_from_time_interval : TimeInterval → Interval
interval_from_time_interval t = days t.number_of_days

-- `MemorySize`, whose only constructor is `Bytes`
pub record MemorySize : Type 0 where
  pub bytes : ℕ

pub record StorageSegmentConfig : Type 0 where
  pub time_interval : TimeInterval
  pub size_limit : MemorySize

pub record StorageConfig : Type 0 where
  pub retention_time : TimeInterval
  pub segmentation : StorageSegmentConfig

pub data BinaryDataFormat : Type 0 where
  bytes_format utf8_format : BinaryDataFormat

pub record StorageDescriptor : Type 0 where
  pub kind : String
  pub base_path : Option (List ℕ)
  pub binary_data_format : BinaryDataFormat

pub record StorageSegmentStatistics : Type 0 where
  pub created_at : ℕ
  pub total_records : ℕ
  pub total_bytes : Option ℕ

pub record StorageStatistics : Type 0 where
  pub total_records : Option ℕ
  pub total_bytes : Option ℕ
  pub segments : Option (List StorageSegmentStatistics)

pub record RecordPreludeFilter : Type 0 where
  pub since_created_at : Option ℕ
  pub until_created_at : Option ℕ

-- `CreatedAtOffset::from` of a `Duration`: the cast to `u64` wraps around.
unfoldable pub offset_from_duration : ℕ → ℕ
offset_from_duration nanos = nanos % 2 ^ 64

unfoldable pub system_time_from_origin : ℕ → ℕ → ℕ
system_time_from_origin offset origin = origin + offset

-- The traits `ReadableRecordPrelude` and `WritableRecordPrelude`: what is set is read.
pub record RecordPrelude (R : Type 0) : Type 0 where
  pub created_at_offset : R → ℕ
  pub set_created_at_offset : ℕ → R → R
  pub set_law :
      (offset : ℕ) (record_ : R) → created_at_offset (set_created_at_offset offset record_) ≡ offset
