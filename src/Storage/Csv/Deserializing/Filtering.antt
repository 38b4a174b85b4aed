-- ===== src/Storage/Csv/Deserializing/Filtering.antt =====
-- What `filter_records_by_prelude` of crates/msr-core/src/storage/csv.rs returns.
use msr.Prelude.{
  ℕ, zero, suc, ◌≤◌, ◌<◌, min, inl, inr, Option, none, some, List, [], ◌∷◌, ◌++◌, arith, leb,
  Bool-cases, Result, ok, err, length, All, length-append, All-append,
}
use msr.Fs.Directory.{RollingFileInfoWithSize, SystemTimeRange}
use msr.Fs.System.{IoError}
use msr.Fs.Csv.{CsvError, CsvWriter}
use msr.Storage.{Error, RecordPreludeFilter}
use msr.Storage.Csv.{
  FileRecordStorage, file_info_filter_from_record_prelude_filter, flush_before_reading,
}
use msr.Storage.Csv.Files.{Disk, files_chronologically}
use msr.Storage.Csv.Deserializing.{
  FilteredRecord, matched, mismatch_created_after, Ended, next_file, finished, failed,
  read_next_from_string_record_filtered, after_file,
}
use msr.Storage.Csv.Deserializing.Filter.{
  add_found, add_read, filtered_records_read, filtered_of_file, filtered_of_files,
  filtered_of_directory, filtered_flushed, filter_records_by_prelude,
}
use msr.Storage.Csv.Deserializing.Rows.{InRange, Reads, read_next-Reads}

module _ {Row T : Type 0} (created_at_offset : T → ℕ) (deserialize : Row → Result T Error) where
  -- At most as many records as the limit allows, all of them let through.
  abbrev pub Fits : ℕ → RecordPreludeFilter → List (ℕ × T) → Type 0
  Fits limit filter records =
      (length records ≤ limit) × All (InRange created_at_offset deserialize filter) records

  -- The fuel is enough, and the records fit.
  abbrev EndsWell : ℕ → RecordPreludeFilter → Option (Ended (List (ℕ × T))) → Type 0
  EndsWell limit filter none = ⊥
  EndsWell limit filter (some (failed e)) = Unit
  EndsWell limit filter (some (finished records)) = Fits limit filter records
  EndsWell limit filter (some (next_file records)) = Fits limit filter records

  module _ (limit created_at : ℕ) (filter : RecordPreludeFilter) (n : ℕ)
      (again : List (Result Row CsvError) → List (ℕ × T) → Option (Ended (List (ℕ × T))))
      (go : (rows : List (Result Row CsvError)) (records : List (ℕ × T))
        → length rows < n
        → Fits limit filter records
        → EndsWell limit filter (again rows records)) where
    add_found-EndsWell :
        (records : List (ℕ × T)) (found : FilteredRecord T) (rows : List (Result Row CsvError))
        → length records < limit
        → All (InRange created_at_offset deserialize filter) records
        → Reads created_at_offset deserialize created_at filter n (ok (some (found, rows)))
        → EndsWell limit filter
            (add_found created_at_offset deserialize (again rows) created_at records found)
    unfolding add_found
    add_found-EndsWell records (matched r) rows short all (l, range) =
        go rows (records ++ (created_at, r) ∷ []) l (
          omega (arith, short, length-append records ((created_at, r) ∷ [])),
          All-append (InRange created_at_offset deserialize filter) records ((created_at, r) ∷ [])
              all (range, tt),
        )
    add_found-EndsWell records mismatch_created_after rows short all l = (omega (arith, short), all)

    add_read-EndsWell :
        (records : List (ℕ × T))
        (res : Result (Option (FilteredRecord T × List (Result Row CsvError))) Error)
        → Fits limit filter records
        → Reads created_at_offset deserialize created_at filter n res
        → EndsWell limit filter
            (add_read created_at_offset deserialize again limit created_at records res)
    unfolding add_read
    add_read-EndsWell records (err e) fits reads = tt
    add_read-EndsWell records (ok none) fits reads = fits
    add_read-EndsWell records (ok (some (found, rows))) fits reads =
        elim (Bool-cases (leb limit (length records))) [
          | inl y ↦ rw y fits
          | inr f ↦ rw f (add_found-EndsWell records found rows (ground arith) fits.1 reads)
        ]

  filtered_records_read-EndsWell :
      (fuel limit created_at : ℕ) (filter : RecordPreludeFilter) (rows : List (Result Row CsvError))
      (records : List (ℕ × T))
      → length rows < fuel
      → Fits limit filter records
      → EndsWell limit filter (
          filtered_records_read created_at_offset deserialize fuel limit created_at filter rows
            records)
  unfolding filtered_records_read
  filtered_records_read-EndsWell zero limit created_at filter rows records h fits = omega (arith, h)
  filtered_records_read-EndsWell (suc fuel) limit created_at filter rows records h fits =
      add_read-EndsWell limit created_at filter (length rows)
        (filtered_records_read created_at_offset deserialize fuel limit created_at filter)
        (λ rows' records' l fits'.
          filtered_records_read-EndsWell fuel limit created_at filter rows' records'
            (omega (arith, h, l)) fits')
        records
        (read_next_from_string_record_filtered created_at_offset deserialize created_at filter rows)
        fits (read_next-Reads created_at_offset deserialize created_at filter rows)

  -- The fuel is enough, and if no error is returned the records fit.
  abbrev pub IsFiltered : ℕ → RecordPreludeFilter → Option (Result (List (ℕ × T)) Error) → Type 0
  IsFiltered limit filter none = ⊥
  IsFiltered limit filter (some (err e)) = Unit
  IsFiltered limit filter (some (ok records)) = Fits limit filter records

  module _ (limit : ℕ) (filter : RecordPreludeFilter)
      (rest : List (ℕ × T) → Option (Result (List (ℕ × T)) Error))
      (go : (records : List (ℕ × T))
        → Fits limit filter records
        → IsFiltered limit filter (rest records)) where
    after_file-IsFiltered :
        (o : Option (Ended (List (ℕ × T))))
        → EndsWell limit filter o
        → IsFiltered limit filter (after_file created_at_offset deserialize rest (λ found. found) o)
    unfolding after_file
    after_file-IsFiltered none h = h
    after_file-IsFiltered (some (failed e)) h = tt
    after_file-IsFiltered (some (finished records)) h = h
    after_file-IsFiltered (some (next_file records)) h = go records h

    filtered_of_file-IsFiltered :
        (created_at : ℕ) (records : List (ℕ × T))
        (res : Result (List (Result Row CsvError)) IoError)
        → Fits limit filter records
        → IsFiltered limit filter (
            filtered_of_file created_at_offset deserialize rest limit filter created_at records res)
    unfolding filtered_of_file
    filtered_of_file-IsFiltered created_at records (err e) fits = tt
    filtered_of_file-IsFiltered created_at records (ok rows) fits =
        after_file-IsFiltered
          (filtered_records_read created_at_offset deserialize (suc (length rows)) limit created_at
            filter rows records)
          (filtered_records_read-EndsWell (suc (length rows)) limit created_at filter rows records
            (omega arith) fits)

  filtered_of_files-IsFiltered :
      (limit : ℕ) (filter : RecordPreludeFilter) (disk : Disk Row)
      (is : List RollingFileInfoWithSize) (records : List (ℕ × T))
      → Fits limit filter records
      → IsFiltered limit filter
          (filtered_of_files created_at_offset deserialize limit filter disk is records)
  unfolding filtered_of_files
  filtered_of_files-IsFiltered limit filter disk [] records fits = fits
  filtered_of_files-IsFiltered limit filter disk (i ∷ is) records fits =
      elim (Bool-cases (leb limit (length records))) [
        | inl y ↦ rw y fits
        | inr f ↦ rw f (
            filtered_of_file-IsFiltered limit filter
              (filtered_of_files created_at_offset deserialize limit filter disk is)
              (λ found h. filtered_of_files-IsFiltered limit filter disk is found h) i.created_at
              records (disk.rows i.path) fits)
      ]

  filtered_of_directory-IsFiltered :
      (limit : ℕ) (filter : RecordPreludeFilter) (disk : Disk Row)
      (files : Result (List RollingFileInfoWithSize) Error)
      → IsFiltered
          (min limit 16384)
          filter
          (filtered_of_directory created_at_offset deserialize limit filter disk files)
  unfolding filtered_of_directory
  filtered_of_directory-IsFiltered limit filter disk (err e) = tt
  filtered_of_directory-IsFiltered limit filter disk (ok files) =
      filtered_of_files-IsFiltered (min limit 16384) filter disk files [] (omega arith, tt)

  filtered_flushed-IsFiltered :
      (range : Option SystemTimeRange) (limit : ℕ) (filter : RecordPreludeFilter) (disk : Disk Row)
      (flushed : Result {0, 0} Unit Error)
      → IsFiltered
          (min limit 16384)
          filter
          (filtered_flushed created_at_offset deserialize range limit filter disk flushed)
  unfolding filtered_flushed
  filtered_flushed-IsFiltered range limit filter disk (err e) = tt
  filtered_flushed-IsFiltered range limit filter disk (ok _) =
      filtered_of_directory-IsFiltered limit filter disk (files_chronologically range disk.files)

  -- For any storage, disk and filter `filter_records_by_prelude` returns: an error, or at most as many
  -- records as the limit allows, and at most 16384. If the filter has a start, each was created at its
  -- start or later, and at its end, if it has one, or earlier, by the time stamp of its file and its
  -- offset.
  pub filter_records-IsFiltered :
      {W H S : Type 0} (writer : CsvWriter W H S) (epoch now limit : ℕ)
      (filter : RecordPreludeFilter) (s : FileRecordStorage W H) (disk : Disk Row)
      → IsFiltered
          (min limit 16384)
          filter
          (filter_records_by_prelude created_at_offset deserialize writer epoch now limit filter s
            disk).1
  unfolding filter_records_by_prelude
  filter_records-IsFiltered writer epoch now limit filter s disk =
      filtered_flushed-IsFiltered (file_info_filter_from_record_prelude_filter epoch now filter)
        limit filter disk (flush_before_reading writer s).1
