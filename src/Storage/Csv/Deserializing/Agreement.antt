-- ===== src/Storage/Csv/Deserializing/Agreement.antt =====
-- The two versions of `recent_records` in crates/msr-core/src/storage/csv.rs.
use msr.Prelude.{
  length-map, ℕ, zero, suc, ◌<◌, min, ◌≡◌, refl, sym, ap, ◌∙◌, inl, inr, Option, none, some, List,
  [], ◌∷◌, ◌++◌, map, reverse, arith, leb, Bool-cases, Result, ok, err, ◌>>=◌, length, for_each,
}
use msr.Fs.Directory.{RollingFileInfoWithSize}
use msr.Fs.System.{IoError}
use msr.Fs.Csv.{CsvError, CsvWriter}
use msr.Storage.{Error, io}
use msr.Storage.Csv.{FileRecordStorage, flush_before_reading}
use msr.Storage.Csv.Files.{Disk, files_chronologically}
use msr.Storage.Csv.Reading.{
  oks, push_back, last_records_of, recent_of_files, recent_flushed, recent_records,
}
use msr.Storage.Csv.Reading.Recent.{read_unfiltered}
use msr.Storage.Csv.Deserializing.{
  matched, next_file, filtered_since, filtered, found_or, read_row, unfiltered,
  read_next_from_string_record_filtered, after_file,
}
use msr.Storage.Csv.Deserializing.Recent.{
  push_read, last_records_read, recent_of_file, recent_of_files_read, recent_of_directory,
  recent_flushed_read, recent_records_read,
}

module _ {Row T : Type 0} (created_at_offset : T → ℕ) (deserialize : Row → Result T Error)
    (value : Row → T) (reads : (row : Row) → deserialize row ≡ ok (value row)) where
  read_next :
      (origin : ℕ) (row : Row) (rows : List (Result Row CsvError))
      → read_next_from_string_record_filtered created_at_offset deserialize origin unfiltered
          (ok row ∷ rows)
        ≡ ok (some (matched (value row), rows))
  unfolding read_next_from_string_record_filtered read_row filtered filtered_since found_or
  read_next origin row rows =
      ap
        (λ res.
          read_row created_at_offset deserialize
            (read_next_from_string_record_filtered created_at_offset deserialize origin unfiltered
              rows)
            rows origin unfiltered res)
        (reads row)

  -- The fuel is enough.
  last_records_pushed :
      (fuel limit created_at : ℕ) (rows : List Row) (records : List (ℕ × T))
      → length rows < fuel
      → last_records_read created_at_offset deserialize fuel limit created_at (map ok rows) records
        ≡ some (
            next_file
              (for_each (λ r acc. push_back limit (created_at, r) acc) (map value rows) records))
  unfolding last_records_read push_read for_each
  last_records_pushed zero limit created_at rows records h =
      let no : ⊥ = omega (arith, h) in absurd no
  last_records_pushed (suc fuel) limit created_at [] records h = refl
  last_records_pushed (suc fuel) limit created_at (row ∷ rows) records h =
      ap
        (push_read created_at_offset deserialize
          (last_records_read created_at_offset deserialize fuel limit created_at) limit created_at
          records)
        (read_next created_at row (map ok rows))
      ∙ last_records_pushed fuel limit created_at rows
          (push_back limit (created_at, value row) records) (omega (arith, h))

  oks_values :
      (rows : List Row) → oks {E = CsvError} (map (λ row. ok (value row)) rows) ≡ map value rows
  unfolding oks
  oks_values [] = refl
  oks_values (row ∷ rows) = ap (λ ts. value row ∷ ts) (oks_values rows)

  last_records_valued :
      (limit created_at : ℕ) (rows : List Row)
      → last_records_of created_at_offset limit created_at (map (λ row. ok (value row)) rows)
        ≡ for_each (λ r acc. push_back limit (created_at, r) acc) (map value rows) []
  unfolding last_records_of
  last_records_valued limit created_at rows =
      ap (λ ts. for_each (λ r acc. push_back limit (created_at, r) acc) ts [])
        (read_unfiltered created_at_offset created_at (map (λ row. ok (value row)) rows)
          ∙ oks_values rows)

  -- A file that cannot be opened, or its rows, each of which is read as a value.
  abbrev pub rows_as :
      {A : Type 0}
      → (Row → A)
      → Result (List Row) IoError
      → Result (List (Result A CsvError)) IoError
  rows_as f (err e) = err e
  rows_as f (ok rows) = ok (map (λ row. ok (f row)) rows)

  by_file :
      (rest : List (ℕ × T) → Option (Result (List (ℕ × T)) Error))
      (rest' : List (ℕ × T) → Result (List (ℕ × T)) Error)
      → ((acc : List (ℕ × T)) → rest acc ≡ some (rest' acc))
      → (limit created_at : ℕ) (acc : List (ℕ × T)) (res : Result (List Row) IoError)
      → recent_of_file created_at_offset deserialize rest limit created_at acc
          (rows_as (λ row. row) res)
        ≡ some (elim (rows_as value res) [
          | err e ↦ err (io e)
          | ok rows ↦
              rest' (acc ++ reverse (last_records_of created_at_offset limit created_at rows))
        ])
  unfolding recent_of_file after_file
  by_file rest rest' same limit created_at acc (err e) = refl
  by_file rest rest' same limit created_at acc (ok rows) =
      let pushed =
        for_each (λ r found. push_back limit (created_at, r) found) (map value rows) [] in
      let read : Row → Result Row CsvError = λ row. ok row in
      let fuel : length rows < suc (length (map read rows)) = omega (arith, length-map read rows) in
      ap (after_file created_at_offset deserialize rest (λ records. acc ++ reverse records))
        (last_records_pushed (suc (length (map read rows))) limit created_at rows [] fuel)
      ∙ same (acc ++ reverse pushed)
      ∙ ap (λ records. some (rest' (acc ++ reverse records)))
          (sym (last_records_valued limit created_at rows))

  files_agree :
      (limit : ℕ) (disk : Disk Row) (disk' : Disk T) (raw : List ℕ → Result (List Row) IoError)
      → ((path : List ℕ) → disk.rows path ≡ rows_as (λ row. row) (raw path))
      → ((path : List ℕ) → disk'.rows path ≡ rows_as value (raw path))
      → (is : List RollingFileInfoWithSize) (acc : List (ℕ × T))
      → recent_of_files_read created_at_offset deserialize limit disk is acc
        ≡ some (recent_of_files created_at_offset limit disk' is acc)
  unfolding recent_of_files_read recent_of_files
  files_agree limit disk disk' raw h h' [] acc = refl
  files_agree limit disk disk' raw h h' (i ∷ is) acc = elim (Bool-cases (leb limit (length acc))) [
    | inl y ↦ rw y refl
    | inr n ↦ rw n (
        rw (h i.path) (
          rw (h' i.path) (
            by_file (recent_of_files_read created_at_offset deserialize limit disk is)
              (recent_of_files created_at_offset limit disk' is)
              (λ found. files_agree limit disk disk' raw h h' is found) limit i.created_at acc
              (raw i.path))))
  ]

  module _ (limit : ℕ) (disk : Disk Row) (disk' : Disk T) (raw : List ℕ → Result (List Row) IoError)
      (h : (path : List ℕ) → disk.rows path ≡ rows_as (λ row. row) (raw path))
      (h' : (path : List ℕ) → disk'.rows path ≡ rows_as value (raw path)) where
    directories_agree :
        (files : Result (List RollingFileInfoWithSize) Error)
        → recent_of_directory created_at_offset deserialize limit disk files
          ≡ some (
              files >>= λ infos.
              recent_of_files created_at_offset (min limit 16384) disk' (reverse infos) [])
    unfolding recent_of_directory
    directories_agree (err e) = refl
    directories_agree (ok infos) =
        files_agree (min limit 16384) disk disk' raw h h' (reverse infos) []

    flushed_agree :
        {A : Type 0}
        → disk'.files ≡ disk.files
        → (p : A × Result {0, 0} Unit Error)
        → ◌≡◌ {A = A × Option (Result (List (ℕ × T)) Error)}
            (p.0, recent_flushed_read created_at_offset deserialize limit disk p.1)
            (
              (recent_flushed created_at_offset limit disk' p).0,
              some (recent_flushed created_at_offset limit disk' p).1,
            )
    unfolding recent_flushed recent_flushed_read
    flushed_agree same (s, err e) = refl
    flushed_agree same (s, ok _) =
        ap (λ res. (s, res))
          (directories_agree (files_chronologically none disk.files)
            ∙ ap
                (λ files. some (
                  files_chronologically none files >>= λ infos.
                  recent_of_files created_at_offset (min limit 16384) disk' (reverse infos) []))
                (sym same))

    -- On the same files, some of which may not be opened, `recent_records` of both storages leaves the
    -- same storage and returns the same, where every row of a file is read without an error and
    -- deserialized to the value that the other storage reads. The loop over the rows has enough fuel.
    pub recent_records-agree :
        {W H S : Type 0} (writer : CsvWriter W H S) (s : FileRecordStorage W H)
        → disk'.files ≡ disk.files
        → recent_records_read created_at_offset deserialize writer limit s disk ≡ (
          (recent_records created_at_offset writer limit s disk').0,
          some (recent_records created_at_offset writer limit s disk').1,
        )
    unfolding recent_records recent_records_read
    recent_records-agree writer s same = flushed_agree same (flush_before_reading writer s)
