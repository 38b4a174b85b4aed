-- ===== src/Storage/Csv/Appending.antt =====
-- How crates/msr-core/src/storage/csv.rs appends records: `writer` and `append_record`. The warning
-- about the system time is left out.
pub mod Offsets
use msr.Prelude.{ℕ, ◌-◌, true, false, Option, none, some, List, Result, ok, err}
use msr.Time.{SystemInstant}
use msr.Fs.Policy.{created}
use msr.Fs.System.{IoError, RollingFileInfo}
use msr.Fs.Csv.{FileError, WriteResult, CsvWriter, RollingFileWriter, new_writer}
use msr.Fs.Csv.Writing.{serialize}
use msr.Storage.{Error, error_from, offset_from_duration}
use msr.Storage.Csv.{WritingStatus, FileRecordStorage}
use msr.Storage.Csv.Files.{Disk, perform_housekeeping}

module _ {W Row : Type 0} where
  -- The status at the first record
  unfoldable pub first_status : SystemInstant → FileRecordStorage W Row → WritingStatus W Row
  unfolding created new_writer
  first_status created_at s = record {
    rolling_file = created created_at.system_time;
    writer = new_writer s.rolling_file_config s.custom_header;
    first_record_created_at = created_at;
    last_record_created_at = created_at.system_time;
    flush_pending = false;
  }

  -- The second part of `writer`, with the offset that it returns.
  unfoldable pub next_status : SystemInstant → WritingStatus W Row → WritingStatus W Row × ℕ
  unfolding offset_from_duration
  next_status created_at status = (
    record status { last_record_created_at = created_at.system_time; flush_pending = true },
    offset_from_duration (created_at.instant - status.first_record_created_at.instant),
  )

unfoldable pub appended_as :
    ℕ → Result (WriteResult × Option RollingFileInfo) FileError → Result (WriteResult × ℕ) Error
unfolding error_from
appended_as offset (ok (record_written, _)) = ok (record_written, offset)
appended_as offset (err e) = err (error_from e)

module _ {W Row S R : Type 0} (csv : CsvWriter W Row S) where
  unfoldable pub started :
      SystemInstant
      → FileRecordStorage W Row × Disk R × Result {0, 0} Unit Error
      → FileRecordStorage W Row × Disk R × Result {0, 0} Unit Error
  unfolding first_status
  started created_at (s, disk, err e) = (s, disk, err e)
  started created_at (s, disk, ok _) =
      (record s { writing_status = some (first_status created_at s) }, disk, ok tt)

  unfoldable pub started_after :
      SystemInstant
      → Option (FileRecordStorage W Row × Disk R × Result {0, 0} Unit Error)
      → Option (FileRecordStorage W Row × Disk R × Result {0, 0} Unit Error)
  unfolding started
  started_after created_at none = none
  started_after created_at (some housekeeping) = some (started created_at housekeeping)

  -- The first part of `writer`: there is a status, unless the housekeeping before the first one
  -- fails; `none` where it panics, as below.
  unfoldable pub ensure_status :
      ℕ
      → ℕ
      → SystemInstant
      → FileRecordStorage W Row
      → Disk R
      → Option (WritingStatus W Row)
      → Option (FileRecordStorage W Row × Disk R × Result {0, 0} Unit Error)
  unfolding perform_housekeeping started_after
  ensure_status epoch now created_at s disk (some status) = some (s, disk, ok tt)
  ensure_status epoch now created_at s disk none =
      started_after created_at (perform_housekeeping csv epoch now s disk)

  unfoldable pub appended :
      FileRecordStorage W Row
      → Disk R
      → WritingStatus W Row
      → ℕ
      → Option (RollingFileWriter W Row × Result (WriteResult × Option RollingFileInfo) FileError)
      → Option (FileRecordStorage W Row × Disk R × Result (WriteResult × ℕ) Error)
  unfolding appended_as
  appended s disk status offset none = none
  appended s disk status offset (some (w, res)) = some (
    record s { writing_status = some (record status { writer = w }) },
    disk,
    appended_as offset res,
  )

  module _ (set_created_at_offset : ℕ → S → S) (show : ℕ → List ℕ) (push : List ℕ → List ℕ → List ℕ)
      (create_new : List ℕ → Result {0, 0} Unit IoError) (last : ℕ) where
    -- With the status of the storage; `unwrap` panics if there is none.
    unfoldable pub append_with :
        SystemInstant
        → S
        → FileRecordStorage W Row
        → Disk R
        → Option (WritingStatus W Row)
        → Option (FileRecordStorage W Row × Disk R × Result (WriteResult × ℕ) Error)
    unfolding next_status appended serialize
    append_with created_at r s disk none = none
    append_with created_at r s disk (some status) =
        let (status', offset) = next_status created_at status in
        let r' = set_created_at_offset offset r in
        appended s disk status' offset
          (serialize csv show push create_new r' last created_at offset status'.writer)

    unfoldable pub append_ensured :
        SystemInstant
        → S
        → Option (FileRecordStorage W Row × Disk R × Result {0, 0} Unit Error)
        → Option (FileRecordStorage W Row × Disk R × Result (WriteResult × ℕ) Error)
    unfolding append_with
    append_ensured created_at r none = none
    append_ensured created_at r (some (s, disk, err e)) = some (s, disk, err e)
    append_ensured created_at r (some (s, disk, ok _)) =
        append_with created_at r s disk s.writing_status

    unfoldable pub append_record :
        ℕ
        → ℕ
        → SystemInstant
        → S
        → FileRecordStorage W Row
        → Disk R
        → Option (FileRecordStorage W Row × Disk R × Result (WriteResult × ℕ) Error)
    unfolding append_ensured ensure_status
    append_record epoch now created_at r s disk =
        append_ensured created_at r (ensure_status epoch now created_at s disk s.writing_status)
