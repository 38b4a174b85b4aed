-- ===== src/Storage/Csv/Deserializing/Filter.antt =====
-- `filter_records_by_prelude` of crates/msr-core/src/storage/csv.rs.
use msr.Prelude.{
  ℕ, zero, suc, min, Option, none, some, List, [], ◌∷◌, ◌++◌, leb, if◌then◌else◌, Result, ok, err,
  length,
}
use msr.Fs.Directory.{SystemTimeRange, RollingFileInfoWithSize}
use msr.Fs.System.{IoError}
use msr.Fs.Csv.{CsvError, CsvWriter}
use msr.Storage.{Error, io, max_preallocated_capacity_limit, RecordPreludeFilter}
use msr.Storage.Csv.{
  FileRecordStorage, file_info_filter_from_record_prelude_filter, flush_before_reading,
}
use msr.Storage.Csv.Files.{Disk, files_chronologically}
use msr.Storage.Csv.Deserializing.{
  FilteredRecord, matched, mismatch_created_after, Ended, next_file, finished, failed,
  read_next_from_string_record_filtered, after_file,
}

module _ {Row T : Type 0} (created_at_offset : T → ℕ) (deserialize : Row → Result T Error) where
  -- A record that is let through, where there is room for it.
  unfoldable pub add_found :
      (List (ℕ × T) → Option (Ended (List (ℕ × T))))
      → ℕ
      → List (ℕ × T)
      → FilteredRecord T
      → Option (Ended (List (ℕ × T)))
  add_found again created_at records (matched r) = again (records ++ (created_at, r) ∷ [])
  add_found again created_at records mismatch_created_after = some (finished records)

  -- A turn of the loop over a file in `filter_records_by_prelude`
  unfoldable pub add_read :
      (List (Result Row CsvError) → List (ℕ × T) → Option (Ended (List (ℕ × T))))
      → ℕ
      → ℕ
      → List (ℕ × T)
      → Result (Option (FilteredRecord T × List (Result Row CsvError))) Error
      → Option (Ended (List (ℕ × T)))
  unfolding add_found
  add_read again limit created_at records (err e) = some (failed e)
  add_read again limit created_at records (ok none) = some (next_file records)
  add_read again limit created_at records (ok (some (found, rows))) =
      if leb limit (length records)
      then some (next_file records)
      else add_found (again rows) created_at records found

  unfoldable pub filtered_records_read :
      ℕ
      → ℕ
      → ℕ
      → RecordPreludeFilter
      → List (Result Row CsvError)
      → List (ℕ × T)
      → Option (Ended (List (ℕ × T)))
  unfolding read_next_from_string_record_filtered add_read
  filtered_records_read zero limit created_at filter rows records = none
  filtered_records_read (suc fuel) limit created_at filter rows records =
      add_read (filtered_records_read fuel limit created_at filter) limit created_at records
        (read_next_from_string_record_filtered created_at_offset deserialize created_at filter rows)

  unfoldable pub filtered_of_file :
      (List (ℕ × T) → Option (Result (List (ℕ × T)) Error))
      → ℕ
      → RecordPreludeFilter
      → ℕ
      → List (ℕ × T)
      → Result (List (Result Row CsvError)) IoError
      → Option (Result (List (ℕ × T)) Error)
  unfolding after_file filtered_records_read
  filtered_of_file rest limit filter created_at records (err e) = some (err (io e))
  filtered_of_file rest limit filter created_at records (ok rows) =
      after_file created_at_offset deserialize rest (λ found. found)
        (filtered_records_read (suc (length rows)) limit created_at filter rows records)

  unfoldable pub filtered_of_files :
      ℕ
      → RecordPreludeFilter
      → Disk Row
      → List RollingFileInfoWithSize
      → List (ℕ × T)
      → Option (Result (List (ℕ × T)) Error)
  unfolding filtered_of_file
  filtered_of_files limit filter disk [] records = some (ok records)
  filtered_of_files limit filter disk (i ∷ is) records =
      let rest = filtered_of_files limit filter disk is in
      if leb limit (length records)
      then some (ok records)
      else filtered_of_file rest limit filter i.created_at records (disk.rows i.path)

  unfoldable pub filtered_of_directory :
      ℕ
      → RecordPreludeFilter
      → Disk Row
      → Result (List RollingFileInfoWithSize) Error
      → Option (Result (List (ℕ × T)) Error)
  unfolding filtered_of_files
  filtered_of_directory limit filter disk (err e) = some (err e)
  filtered_of_directory limit filter disk (ok files) =
      filtered_of_files (min limit max_preallocated_capacity_limit) filter disk files []

  unfoldable pub filtered_flushed :
      Option SystemTimeRange
      → ℕ
      → RecordPreludeFilter
      → Disk Row
      → Result {0, 0} Unit Error
      → Option (Result (List (ℕ × T)) Error)
  unfolding files_chronologically filtered_of_directory
  filtered_flushed range limit filter disk (err e) = some (err e)
  filtered_flushed range limit filter disk (ok _) =
      filtered_of_directory limit filter disk (files_chronologically range disk.files)

  unfoldable pub filter_records_by_prelude :
      {W H S : Type 0} (writer : CsvWriter W H S)
      → ℕ
      → ℕ
      → ℕ
      → RecordPreludeFilter
      → FileRecordStorage W H
      → Disk Row
      → FileRecordStorage W H × Option (Result (List (ℕ × T)) Error)
  unfolding flush_before_reading filtered_flushed file_info_filter_from_record_prelude_filter
  filter_records_by_prelude writer epoch now limit filter s disk =
      let (s', flushed) = flush_before_reading writer s in
      let range = file_info_filter_from_record_prelude_filter epoch now filter in
      (s', filtered_flushed range limit filter disk flushed)
