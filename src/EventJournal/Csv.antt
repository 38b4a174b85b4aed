-- ===== src/EventJournal/Csv.antt =====
-- The event journal on CSV files: crates/msr-core/src/event_journal/csv.rs. What it only passes on to
-- the storage inside is that of Storage/Csv. Messages in the log are left out; the text of an error
-- is a parameter.
pub mod Matching
pub mod Filtered
use msr.Prelude.{
  ℕ, ◌-◌, min, String, Bool, true, not, ◌&&◌, Option, none, some, List, [], ◌∷◌, ◌++◌, map, str_eq,
  ltb, leb, if◌then◌else◌, Result, ok, err, length, take, any, keep, ℤ, eqb_ℤ,
}
use msr.Time.{SystemInstant}
use msr.Fs.Directory.{RollingFileInfoWithSize}
use msr.Fs.System.{IoError}
use msr.Fs.Csv.{CsvError, WriteResult, CsvWriter}
use msr.Storage.{
  Error, io, other, max_preallocated_capacity_limit, StorageConfig, BinaryDataFormat,
  RecordPreludeFilter,
}
use msr.Storage.Csv.{
  FileRecordStorage, try_new as csv_try_new, file_info_filter_from_record_prelude_filter,
  flush_before_reading,
}
use msr.Storage.Csv.Files.{Disk, files_chronologically}
use msr.Storage.Csv.Appending.{append_record as append_row}
use msr.Storage.Csv.Reading.{oks, recent_records as recent_rows, reader_into_filtered_record_iter}
use msr.EventJournal.{
  Severity, severity_value, JournalRecord, StorageRecord, StoredRecord, RestoreError, try_new,
  try_restore,
}

-- `Error`, of which the storage returns its first constructor only
pub data JournalError : Type 0 where
  storage : Error → JournalError
  other_error : String → JournalError

pub record RecordFilter : Type 0 where
  pub prelude : RecordPreludeFilter
  pub min_severity : Option Severity
  pub any_scopes : Option (List String)
  pub any_codes : Option (List ℤ)

unfoldable pub row_offset : {Stamp Text : Type 0} → StorageRecord Stamp Text → ℕ
row_offset r = r.created_at_offset_ns

unfoldable pub set_row_offset :
    {Stamp Text : Type 0} → ℕ → StorageRecord Stamp Text → StorageRecord Stamp Text
set_row_offset offset r = record r { created_at_offset_ns = offset }

-- `FileRecordStorage::try_new`
unfoldable pub journal_try_new :
    {W Row : Type 0} → List ℕ → List ℕ → BinaryDataFormat → StorageConfig → FileRecordStorage W Row
unfolding csv_try_new
journal_try_new base_path file_name_prefix binary_data_format initial_config =
    csv_try_new binary_data_format initial_config base_path
      (record { prefix = file_name_prefix; suffix = 46 ∷ 99 ∷ 115 ∷ 118 ∷ [] }) none

unfoldable pub severe_enough : Option Severity → Severity → Bool
unfolding severity_value
severe_enough none severity = true
severe_enough (some min_severity) severity =
    not (ltb (severity_value severity) (severity_value min_severity))

unfoldable pub one_of_codes : Option (List ℤ) → ℤ → Bool
one_of_codes none code = true
one_of_codes (some codes) code = any (λ c. eqb_ℤ c code) codes

unfoldable pub one_of_scopes : Option (List String) → String → Bool
one_of_scopes none scope = true
one_of_scopes (some scopes) scope = any (λ s. str_eq s scope) scopes

-- The test in `reader_into_filtered_record_iter`
unfoldable pub matches : {Stamp : Type 0} → RecordFilter → StoredRecord Stamp → Bool
unfolding severe_enough one_of_codes one_of_scopes
matches filter r =
    severe_enough filter.min_severity r.entry.severity
    && one_of_codes filter.any_codes r.entry.code
    && one_of_scopes filter.any_scopes r.entry.scope

module _ {Text E : Type 0} (base64_encode : List ℕ → Text)
    (base64_decode : Text → Result (List ℕ) E) (from_utf8 : List ℕ → Result Text E)
    (into_bytes : Text → List ℕ) where
  -- `filter_map` with `filter_map_storage_record`: records that are not restored are skipped.
  unfoldable pub restored_rows :
      {Stamp : Type 0}
      → BinaryDataFormat
      → List (ℕ × StorageRecord Stamp Text)
      → List (Result (StoredRecord Stamp) (RestoreError E))
  unfolding try_restore
  restored_rows format [] = []
  restored_rows format ((created_at_origin, r) ∷ rows) =
      try_restore base64_encode base64_decode from_utf8 into_bytes created_at_origin r format
      ∷ restored_rows format rows

  unfoldable pub filter_map_storage_records :
      {Stamp : Type 0}
      → BinaryDataFormat
      → List (ℕ × StorageRecord Stamp Text)
      → List (StoredRecord Stamp)
  unfolding oks restored_rows
  filter_map_storage_records format rows = oks (restored_rows format rows)

  unfoldable pub row_appended :
      {W Stamp : Type 0} (csv : CsvWriter W (List String) (StorageRecord Stamp Text))
      (show : ℕ → List ℕ) (push : List ℕ → List ℕ → List ℕ)
      (create_new : List ℕ → Result {0, 0} Unit IoError) (last epoch now : ℕ)
      (error_text : E → String)
      → SystemInstant
      → FileRecordStorage W (List String)
      → Disk (StorageRecord Stamp Text)
      → Result (StorageRecord Stamp Text) E
      → Option (
          FileRecordStorage W (List String)
          × Disk (StorageRecord Stamp Text)
          × Result (WriteResult × ℕ) Error)
  unfolding append_row set_row_offset
  row_appended csv show push create_new last epoch now error_text created_at s disk (err e) =
      some (s, disk, err (other (error_text e)))
  row_appended csv show push create_new last epoch now error_text created_at s disk (ok row) =
      append_row csv set_row_offset show push create_new last epoch now created_at row s disk

  -- `append_record`
  unfoldable pub journal_append_record :
      {W Stamp : Type 0} (csv : CsvWriter W (List String) (StorageRecord Stamp Text))
      (show : ℕ → List ℕ) (push : List ℕ → List ℕ → List ℕ)
      (create_new : List ℕ → Result {0, 0} Unit IoError) (last epoch now : ℕ)
      (error_text : E → String)
      → SystemInstant
      → JournalRecord Stamp
      → FileRecordStorage W (List String)
      → Disk (StorageRecord Stamp Text)
      → Option (
          FileRecordStorage W (List String)
          × Disk (StorageRecord Stamp Text)
          × Result (WriteResult × ℕ) Error)
  unfolding row_appended try_new
  journal_append_record csv show push create_new last epoch now error_text created_at r s disk =
      row_appended csv show push create_new last epoch now error_text created_at s disk
        (try_new base64_encode base64_decode from_utf8 into_bytes r s.descriptor.binary_data_format)

  unfoldable pub recent_restored :
      {Stamp : Type 0}
      → BinaryDataFormat
      → Result (List (ℕ × StorageRecord Stamp Text)) Error
      → Result (List (StoredRecord Stamp)) JournalError
  unfolding filter_map_storage_records
  recent_restored format (err e) = err (storage e)
  recent_restored format (ok rows) = ok (filter_map_storage_records format rows)

  -- `recent_records`
  unfoldable pub journal_recent_records :
      {W Stamp S : Type 0} (csv : CsvWriter W (List String) S)
      → ℕ
      → FileRecordStorage W (List String)
      → Disk (StorageRecord Stamp Text)
      → FileRecordStorage W (List String) × Result (List (StoredRecord Stamp)) JournalError
  unfolding recent_rows row_offset recent_restored
  journal_recent_records csv limit s disk =
      let (s', res) = recent_rows row_offset csv limit s disk in
      (s', recent_restored s'.descriptor.binary_data_format res)

  -- `reader_into_filtered_record_iter`
  unfoldable pub filtered_rows :
      {Stamp : Type 0}
      → List (Result (StorageRecord Stamp Text) CsvError)
      → ℕ
      → RecordFilter
      → BinaryDataFormat
      → List (StoredRecord Stamp)
  unfolding matches reader_into_filtered_record_iter row_offset filter_map_storage_records
  filtered_rows rows created_at_origin filter format = keep (matches filter) (
      filter_map_storage_records format (
        map (λ r. (created_at_origin, r))
          (reader_into_filtered_record_iter row_offset rows created_at_origin filter.prelude)))

  -- A file that is read, or not, and the files behind it
  unfoldable pub filtered_of_file :
      {Stamp : Type 0}
      → (List (StoredRecord Stamp) → Result (List (StoredRecord Stamp)) JournalError)
      → ℕ
      → RecordFilter
      → BinaryDataFormat
      → ℕ
      → List (StoredRecord Stamp)
      → Result (List (Result (StorageRecord Stamp Text) CsvError)) IoError
      → Result (List (StoredRecord Stamp)) JournalError
  unfolding filtered_rows
  filtered_of_file rest limit filter format created_at records (err e) = err (storage (io e))
  filtered_of_file rest limit filter format created_at records (ok rows) =
      rest (records ++ take (limit - length records) (filtered_rows rows created_at filter format))

  -- The loop over the files
  unfoldable pub filtered_of_files :
      {Stamp : Type 0}
      → ℕ
      → RecordFilter
      → BinaryDataFormat
      → Disk (StorageRecord Stamp Text)
      → List RollingFileInfoWithSize
      → List (StoredRecord Stamp)
      → Result (List (StoredRecord Stamp)) JournalError
  unfolding filtered_of_file
  filtered_of_files limit filter format disk [] records = ok records
  filtered_of_files limit filter format disk (file_info ∷ files) records =
      if leb limit (length records)
      then ok records
      else filtered_of_file (filtered_of_files limit filter format disk files) limit filter format
          file_info.created_at records (disk.rows file_info.path)

  unfoldable pub filtered_of_directory :
      {Stamp : Type 0}
      → ℕ
      → RecordFilter
      → BinaryDataFormat
      → Disk (StorageRecord Stamp Text)
      → Result (List RollingFileInfoWithSize) Error
      → Result (List (StoredRecord Stamp)) JournalError
  unfolding filtered_of_files
  filtered_of_directory limit filter format disk (err e) = err (storage e)
  filtered_of_directory limit filter format disk (ok files) =
      filtered_of_files limit filter format disk files []

  unfoldable pub filtered_flushed :
      {W Stamp : Type 0}
      → ℕ
      → ℕ
      → ℕ
      → RecordFilter
      → Disk (StorageRecord Stamp Text)
      → FileRecordStorage W (List String) × Result {0, 0} Unit Error
      → FileRecordStorage W (List String) × Result (List (StoredRecord Stamp)) JournalError
  unfolding files_chronologically filtered_of_directory file_info_filter_from_record_prelude_filter
  filtered_flushed epoch now limit filter disk (s, err e) = (s, err (storage e))
  filtered_flushed epoch now limit filter disk (s, ok _) = (
    s,
    filtered_of_directory (min limit max_preallocated_capacity_limit) filter
        s.descriptor.binary_data_format disk
        (files_chronologically
          (file_info_filter_from_record_prelude_filter epoch now filter.prelude) disk.files),
  )

  -- `filter_records`
  unfoldable pub journal_filter_records :
      {W Stamp S : Type 0} (csv : CsvWriter W (List String) S)
      → ℕ
      → ℕ
      → ℕ
      → RecordFilter
      → FileRecordStorage W (List String)
      → Disk (StorageRecord Stamp Text)
      → FileRecordStorage W (List String) × Result (List (StoredRecord Stamp)) JournalError
  unfolding flush_before_reading filtered_flushed
  journal_filter_records csv epoch now limit filter s disk =
      filtered_flushed epoch now limit filter disk (flush_before_reading csv s)
