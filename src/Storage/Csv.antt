-- ===== src/Storage/Csv.antt =====
-- The record storage on rolling CSV files in crates/msr-core/src/storage/csv.rs: its state, and what
-- it does before it reads.
pub mod Files
pub mod Appending
pub mod Reading
pub mod Deserializing
use msr.Prelude.{ℕ, Bool, Option, none, some, List, if◌then◌else◌, Result, ok, err}
use msr.Time.{SystemInstant}
use msr.Fs.Policy.{RollingFileStatus, RollingFileNameTemplate, unlimited}
use msr.Fs.Directory.{SystemTimeRange, inclusive_upper_bound}
use msr.Fs.Csv.{FileError, RollingFileConfig, CsvWriter, RollingFileWriter, flush}
use msr.Storage.{
  Error, error_from, interval_from_time_interval, StorageConfig, BinaryDataFormat,
  StorageDescriptor, RecordPreludeFilter,
}

pub record WritingStatus (W Row : Type 0) : Type 0 where
  pub rolling_file : RollingFileStatus
  pub writer : RollingFileWriter W Row
  pub first_record_created_at : SystemInstant
  pub last_record_created_at : ℕ
  pub flush_pending : Bool

pub record FileRecordStorage (W Row : Type 0) : Type 0 where
  pub config : StorageConfig
  pub descriptor : StorageDescriptor
  pub custom_header : Option Row
  pub rolling_file_config : RollingFileConfig
  pub writing_status : Option (WritingStatus W Row)

-- The range of files for a filter of records; `epoch` and `now` are read from the system clock.
unfoldable pub file_info_filter_from_record_prelude_filter :
    ℕ → ℕ → RecordPreludeFilter → Option SystemTimeRange
file_info_filter_from_record_prelude_filter epoch now filter = elim filter.since_created_at [
  | none ↦ elim filter.until_created_at [
    | none ↦ none
    | some until ↦ some (inclusive_upper_bound epoch until)
  ]
  | some since ↦ elim filter.until_created_at [
    | none ↦ some (inclusive_upper_bound since now)
    | some until ↦ some (inclusive_upper_bound since until)
  ]
]

module _ {W Row : Type 0} where
  unfoldable pub try_new :
      BinaryDataFormat
      → StorageConfig
      → List ℕ
      → RollingFileNameTemplate
      → Option Row
      → FileRecordStorage W Row
  unfolding unlimited interval_from_time_interval
  try_new binary_data_format config base_path file_name_template custom_header = record {
    config = config;
    descriptor = record {
      kind = "csv-file";
      base_path = some base_path;
      binary_data_format = binary_data_format;
    };
    custom_header = custom_header;
    rolling_file_config = record {
      system = record { base_path = base_path; file_name_template = file_name_template };
      limits = record unlimited {
        max_bytes_written = some config.segmentation.size_limit.bytes;
        interval = some (interval_from_time_interval config.segmentation.time_interval);
      };
    };
    writing_status = none;
  }

  unfoldable pub replace_config :
      StorageConfig → FileRecordStorage W Row → FileRecordStorage W Row × StorageConfig
  replace_config new_config s = (record s { config = new_config }, s.config)

-- `?` on an error of the rolling writer
unfoldable pub lifted : {A : Type 0} → Result A FileError → Result A Error
unfolding error_from
lifted (ok a) = ok a
lifted (err e) = err (error_from e)

module _ {W Row S : Type 0} (csv : CsvWriter W Row S) where
  -- `flush_before_reading` of the status
  unfoldable pub flush_pending_writes :
      WritingStatus W Row → WritingStatus W Row × Result {0, 0} Unit Error
  unfolding flush lifted
  flush_pending_writes status =
      if status.flush_pending
      then (let (writer, res) = flush csv status.writer in
          (record status { writer = writer }, lifted res))
      else (status, ok tt)

  unfoldable pub flush_status :
      FileRecordStorage W Row
      → Option (WritingStatus W Row)
      → FileRecordStorage W Row × Result {0, 0} Unit Error
  unfolding flush_pending_writes
  flush_status s none = (s, ok tt)
  flush_status s (some status) =
      let (status', res) = flush_pending_writes status in
      (record s { writing_status = some status' }, res)

  unfoldable pub flush_before_reading :
      FileRecordStorage W Row → FileRecordStorage W Row × Result {0, 0} Unit Error
  unfolding flush_status
  flush_before_reading s = flush_status s s.writing_status
