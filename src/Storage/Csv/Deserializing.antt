-- ===== src/Storage/Csv/Deserializing.antt =====
-- How crates/msr-core/src/storage/csv.rs reads the records of a file one at a time, for
-- `FileRecordStorageWithDeserializer`, of which the other operations are those of the storage inside.
-- A reader is the list of what it returns up to the end of the file. The loops over the rows of a file
-- have fuel, and are `none` without; one more than the number of rows is enough.
pub mod Recent
pub mod Filter
pub mod Rows
pub mod Filtering
pub mod Agreement
use msr.Prelude.{ℕ, not, Option, none, some, List, [], ◌∷◌, if◌then◌else◌, Result, ok, err}
use msr.Fs.Csv.{CsvError}
use msr.Storage.{Error, csv, RecordPreludeFilter}
use msr.Storage.Csv.Reading.{created_before, created_until}

pub data FilteredRecord (T : Type 0) : Type 0 where
  matched : T → FilteredRecord T
  mismatch_created_after : FilteredRecord T

-- How a loop over the rows of a file ends: the next file follows, or the result is known, or a row
-- cannot be read.
pub data Ended (A : Type 0) : Type 0 where
  next_file finished : A → Ended A
  failed : Error → Ended A

-- `Default` of a filter
abbrev pub unfiltered : RecordPreludeFilter
unfiltered = record { since_created_at = none; until_created_at = none }

module _ {Row T : Type 0} (created_at_offset : T → ℕ) (deserialize : Row → Result T Error) where
  -- What a filter with a start or without says of a record; `none` where it is skipped. The end is
  -- looked at only if there is a start.
  unfoldable pub filtered_since : ℕ → Option ℕ → T → Option ℕ → Option (FilteredRecord T)
  unfolding created_before created_until
  filtered_since origin until r none = some (matched r)
  filtered_since origin until r (some since) =
      if created_before created_at_offset origin (some since) r
      then none
      else if not (created_until created_at_offset origin until r)
      then some mismatch_created_after
      else some (matched r)

  unfoldable pub filtered : ℕ → RecordPreludeFilter → T → Option (FilteredRecord T)
  unfolding filtered_since
  filtered origin filter r = filtered_since origin filter.until_created_at r filter.since_created_at

  unfoldable pub found_or :
      Result (Option (FilteredRecord T × List (Result Row CsvError))) Error
      → List (Result Row CsvError)
      → Option (FilteredRecord T)
      → Result (Option (FilteredRecord T × List (Result Row CsvError))) Error
  found_or rest rows none = rest
  found_or rest rows (some found) = ok (some (found, rows))

  -- A row that has been read
  unfoldable pub read_row :
      Result (Option (FilteredRecord T × List (Result Row CsvError))) Error
      → List (Result Row CsvError)
      → ℕ
      → RecordPreludeFilter
      → Result T Error
      → Result (Option (FilteredRecord T × List (Result Row CsvError))) Error
  unfolding found_or filtered
  read_row rest rows origin filter (err e) = err e
  read_row rest rows origin filter (ok r) = found_or rest rows (filtered origin filter r)

  -- The reader that is left is returned with the record.
  unfoldable pub read_next_from_string_record_filtered :
      ℕ
      → RecordPreludeFilter
      → List (Result Row CsvError)
      → Result (Option (FilteredRecord T × List (Result Row CsvError))) Error
  unfolding read_row
  read_next_from_string_record_filtered origin filter [] = ok none
  read_next_from_string_record_filtered origin filter (err e ∷ rows) = err (csv e)
  read_next_from_string_record_filtered origin filter (ok row ∷ rows) =
      let rest = read_next_from_string_record_filtered origin filter rows in
      read_row rest rows origin filter (deserialize row)

  -- What follows a file: the next one, or the result.
  unfoldable pub after_file :
      (List (ℕ × T) → Option (Result (List (ℕ × T)) Error))
      → (List (ℕ × T) → List (ℕ × T))
      → Option (Ended (List (ℕ × T)))
      → Option (Result (List (ℕ × T)) Error)
  after_file rest add none = none
  after_file rest add (some (failed e)) = some (err e)
  after_file rest add (some (finished records)) = some (ok (add records))
  after_file rest add (some (next_file records)) = rest (add records)
