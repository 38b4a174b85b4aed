-- ===== src/Storage/Csv/Deserializing/Recent.antt =====
-- `recent_records` of `FileRecordStorageWithDeserializer` in crates/msr-core/src/storage/csv.rs.
use msr.Prelude.{
  ℕ, zero, suc, min, Option, none, some, List, [], ◌∷◌, ◌++◌, reverse, leb, if◌then◌else◌, Result,
  ok, err, length,
}
use msr.Fs.Directory.{RollingFileInfoWithSize}
use msr.Fs.System.{IoError}
use msr.Fs.Csv.{CsvError, CsvWriter}
use msr.Storage.{Error, io, max_preallocated_capacity_limit}
use msr.Storage.Csv.{FileRecordStorage, flush_before_reading}
use msr.Storage.Csv.Files.{Disk, files_chronologically}
use msr.Storage.Csv.Reading.{push_back}
use msr.Storage.Csv.Deserializing.{
  FilteredRecord, matched, mismatch_created_after, Ended, next_file, failed, unfiltered,
  read_next_from_string_record_filtered, after_file,
}

module _ {Row T : Type 0} (created_at_offset : T → ℕ) (deserialize : Row → Result T Error) where
  -- A turn of the loop over a file in `recent_records`; a mismatch is not reached, and its panic is
  -- `none`.
  unfoldable pub push_read :
      (List (Result Row CsvError) → List (ℕ × T) → Option (Ended (List (ℕ × T))))
      → ℕ
      → ℕ
      → List (ℕ × T)
      → Result (Option (FilteredRecord T × List (Result Row CsvError))) Error
      → Option (Ended (List (ℕ × T)))
  unfolding push_back
  push_read again limit created_at records (err e) = some (failed e)
  push_read again limit created_at records (ok none) = some (next_file records)
  push_read again limit created_at records (ok (some (matched r, rows))) =
      again rows (push_back limit (created_at, r) records)
  push_read again limit created_at records (ok (some (mismatch_created_after, rows))) = none

  unfoldable pub last_records_read :
      ℕ → ℕ → ℕ → List (Result Row CsvError) → List (ℕ × T) → Option (Ended (List (ℕ × T)))
  unfolding read_next_from_string_record_filtered push_read
  last_records_read zero limit created_at rows records = none
  last_records_read (suc fuel) limit created_at rows records =
      push_read (last_records_read fuel limit created_at) limit created_at records (
        read_next_from_string_record_filtered created_at_offset deserialize created_at unfiltered
          rows)

  -- A file that cannot be opened ends the loop over the files.
  unfoldable pub recent_of_file :
      (List (ℕ × T) → Option (Result (List (ℕ × T)) Error))
      → ℕ
      → ℕ
      → List (ℕ × T)
      → Result (List (Result Row CsvError)) IoError
      → Option (Result (List (ℕ × T)) Error)
  unfolding after_file last_records_read
  recent_of_file rest limit created_at reverse_records (err e) = some (err (io e))
  recent_of_file rest limit created_at reverse_records (ok rows) =
      after_file created_at_offset deserialize rest (λ records. reverse_records ++ reverse records)
        (last_records_read (suc (length rows)) limit created_at rows [])

  unfoldable pub recent_of_files_read :
      ℕ
      → Disk Row
      → List RollingFileInfoWithSize
      → List (ℕ × T)
      → Option (Result (List (ℕ × T)) Error)
  unfolding recent_of_file
  recent_of_files_read limit disk [] reverse_records = some (ok reverse_records)
  recent_of_files_read limit disk (i ∷ is) reverse_records =
      let rest = recent_of_files_read limit disk is in
      if leb limit (length reverse_records)
      then some (ok reverse_records)
      else recent_of_file rest limit i.created_at reverse_records (disk.rows i.path)

  unfoldable pub recent_of_directory :
      ℕ
      → Disk Row
      → Result (List RollingFileInfoWithSize) Error
      → Option (Result (List (ℕ × T)) Error)
  unfolding recent_of_files_read
  recent_of_directory limit disk (err e) = some (err e)
  recent_of_directory limit disk (ok files) =
      recent_of_files_read (min limit max_preallocated_capacity_limit) disk (reverse files) []

  unfoldable pub recent_flushed_read :
      ℕ → Disk Row → Result {0, 0} Unit Error → Option (Result (List (ℕ × T)) Error)
  unfolding files_chronologically recent_of_directory
  recent_flushed_read limit disk (err e) = some (err e)
  recent_flushed_read limit disk (ok _) =
      recent_of_directory limit disk (files_chronologically none disk.files)

  -- `recent_records` of `FileRecordStorageWithDeserializer`
  unfoldable pub recent_records_read :
      {W H S : Type 0} (writer : CsvWriter W H S)
      → ℕ
      → FileRecordStorage W H
      → Disk Row
      → FileRecordStorage W H × Option (Result (List (ℕ × T)) Error)
  unfolding flush_before_reading recent_flushed_read
  recent_records_read writer limit s disk =
      let (s', flushed) = flush_before_reading writer s in
      (s', recent_flushed_read limit disk flushed)
