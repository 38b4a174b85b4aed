-- ===== src/EventJournal/Csv/Filtered.antt =====
-- What `filter_records` in crates/msr-core/src/event_journal/csv.rs returns.
use mathlib.Core.Path.{subst}
use msr.Prelude.{
  ℕ, ◌+◌, ◌-◌, ◌≤◌, min, String, ◌≡◌, inl, inr, Bool, true, Option, List, [], ◌∷◌, ◌++◌, map, arith,
  leb, leb→le, Bool-cases, Result, ok, err, length, take, keep, All, length-append, length-take,
  All-take, All-append,
}
use msr.Fs.Directory.{RollingFileInfoWithSize}
use msr.Fs.System.{IoError}
use msr.Fs.Csv.{CsvError, CsvWriter}
use msr.Storage.{Error, BinaryDataFormat}
use msr.Storage.Csv.{
  FileRecordStorage, flush_before_reading, file_info_filter_from_record_prelude_filter,
}
use msr.Storage.Csv.Files.{Disk, files_chronologically}
use msr.Storage.Csv.Reading.{
  oks, skip_while, take_while, created_before, created_until, reader_into_filtered_record_iter,
}
use msr.EventJournal.{
  Severity, severity_from_value, InvalidValue, StorageRecord, StoredRecord, restored, try_restore,
  decoded,
}
use msr.EventJournal.Csv.{
  JournalError, RecordFilter, row_offset, matches, restored_rows, filter_map_storage_records,
  filtered_rows, filtered_of_file, filtered_of_files, filtered_of_directory, filtered_flushed,
  journal_filter_records,
}
use msr.EventJournal.Csv.Matching.{HasEntry, IsUntil, matches-HasEntry}

-- What is taken while a test holds, satisfies the test.
take_while-All : {A : Type 0} (p : A → Bool) (xs : List A) → All (λ x. p x ≡ true) (take_while p xs)
unfolding take_while
take_while-All p [] = tt
take_while-All p (x ∷ xs) = elim (Bool-cases (p x)) [
  | inl e ↦ rw e (e, take_while-All p xs)
  | inr e ↦ rw e tt
]

-- Holds of a result that is no error.
OfOk : {A F : Type 0} → (A → Type 0) → Result A F → Type 0
OfOk P (ok a) = P a
OfOk P (err e) = Unit

oks-All :
    {A F : Type 0} (P : A → Type 0) (rs : List (Result A F)) → All (OfOk P) rs → All P (oks rs)
unfolding oks OfOk
oks-All P [] h = tt
oks-All P (ok a ∷ rs) h = (h.0, oks-All P rs h.1)
oks-All P (err e ∷ rs) h = oks-All P rs h.1

-- What is kept has what the test says, and what all had.
keep-both :
    {A : Type 0} (P Q : A → Type 0) (p : A → Bool)
    → ((x : A) → p x ≡ true → P x)
    → (xs : List A) → All Q xs
    → All (λ x. P x × Q x) (keep p xs)
keep-both P Q p f [] h = tt
keep-both P Q p f (x ∷ xs) h = elim (Bool-cases (p x)) [
  | inl e ↦ rw e ((f x e, h.0), keep-both P Q p f xs h.1)
  | inr e ↦ rw e (keep-both P Q p f xs h.1)
]

module _ {Text E : Type 0} (base64_encode : List ℕ → Text)
    (base64_decode : Text → Result (List ℕ) E) (from_utf8 : List ℕ → Result Text E)
    (into_bytes : Text → List ℕ) {Stamp : Type 0} where
  restored-IsUntil :
      (filter : RecordFilter) (origin : ℕ) (r : StorageRecord Stamp Text)
      → created_until row_offset origin filter.prelude.until_created_at r ≡ true
      → (bytes : Result (Option (List ℕ)) E) (severity : Result Severity InvalidValue)
      → OfOk
          (IsUntil filter)
          (restored base64_encode base64_decode from_utf8 into_bytes origin r bytes severity)
  unfolding restored OfOk IsUntil created_until row_offset
  restored-IsUntil filter origin r h (err e) severity = tt
  restored-IsUntil filter origin r h (ok bytes) (err e) = tt
  restored-IsUntil filter origin r h (ok bytes) (ok severity) = λ until u.
      leb→le (origin + r.created_at_offset_ns) until
        (subst (λ o. created_until row_offset origin o r ≡ true) u h)

  rows-IsUntil :
      (filter : RecordFilter) (origin : ℕ) (format : BinaryDataFormat)
      (rows : List (StorageRecord Stamp Text))
      → All (λ r. created_until row_offset origin filter.prelude.until_created_at r ≡ true) rows
      → All (OfOk (IsUntil filter)) (
          restored_rows base64_encode base64_decode from_utf8 into_bytes format
            (map (λ r. (origin, r)) rows))
  unfolding restored_rows try_restore
  rows-IsUntil filter origin format [] h = tt
  rows-IsUntil filter origin format (r ∷ rows) h = (
    restored-IsUntil filter origin r h.0
        (decoded base64_encode base64_decode from_utf8 into_bytes r.data_ format)
        (severity_from_value r.severity),
    rows-IsUntil filter origin format rows h.1,
  )

  filtered_rows-Pass :
      (rows : List (Result (StorageRecord Stamp Text) CsvError)) (origin : ℕ)
      (filter : RecordFilter) (format : BinaryDataFormat)
      → All
          (λ r. HasEntry filter r × IsUntil filter r)
          (filtered_rows base64_encode base64_decode from_utf8 into_bytes rows origin filter format)
  unfolding filtered_rows filter_map_storage_records reader_into_filtered_record_iter
  filtered_rows-Pass rows origin filter format =
      let until = created_until row_offset origin filter.prelude.until_created_at in
      let since = created_before row_offset origin filter.prelude.since_created_at in
      let kept = take_while until (skip_while since (oks rows)) in
      keep-both (HasEntry filter) (IsUntil filter) (matches filter) (matches-HasEntry filter) _ (
        oks-All (IsUntil filter)
          (restored_rows base64_encode base64_decode from_utf8 into_bytes format
            (map (λ r. (origin, r)) kept))
          (rows-IsUntil filter origin format kept
            (take_while-All until (skip_while since (oks rows)))))

  -- At most as many records as the limit allows, each of which the filter lets through
  unfoldable pub ArePassed :
      ℕ → RecordFilter → Result (List (StoredRecord Stamp)) JournalError → Type 0
  unfolding HasEntry IsUntil
  ArePassed limit filter (err e) = Unit
  ArePassed limit filter (ok records) =
      (length records ≤ limit) × All (λ r. HasEntry filter r × IsUntil filter r) records

  file-ArePassed :
      (rest : List (StoredRecord Stamp) → Result (List (StoredRecord Stamp)) JournalError)
      (limit : ℕ) (filter : RecordFilter) (format : BinaryDataFormat) (created_at : ℕ)
      (records : List (StoredRecord Stamp))
      → ((records : List (StoredRecord Stamp))
          → ArePassed limit filter (ok records)
          → ArePassed limit filter (rest records))
      → ArePassed limit filter (ok records)
      → (rows : Result (List (Result (StorageRecord Stamp Text) CsvError)) IoError)
      → ArePassed limit filter (
          filtered_of_file base64_encode base64_decode from_utf8 into_bytes rest limit filter format
            created_at records rows)
  unfolding ArePassed filtered_of_file
  file-ArePassed rest limit filter format created_at records go h (err e) = tt
  file-ArePassed rest limit filter format created_at records go h (ok rows) =
      let found =
        filtered_rows base64_encode base64_decode from_utf8 into_bytes rows created_at filter
          format in
      let n = limit - length records in
      go (records ++ take n found) (
        omega (arith, h.0, length-append records (take n found), length-take n found),
        All-append (λ r. HasEntry filter r × IsUntil filter r) records (take n found) h.1
            (All-take (λ r. HasEntry filter r × IsUntil filter r) n found
              (filtered_rows-Pass rows created_at filter format)),
      )

  files-ArePassed :
      (limit : ℕ) (filter : RecordFilter) (format : BinaryDataFormat)
      (disk : Disk (StorageRecord Stamp Text)) (files : List RollingFileInfoWithSize)
      (records : List (StoredRecord Stamp))
      → ArePassed limit filter (ok records)
      → ArePassed limit filter (
          filtered_of_files base64_encode base64_decode from_utf8 into_bytes limit filter format
            disk files records)
  unfolding filtered_of_files
  files-ArePassed limit filter format disk [] records h = h
  files-ArePassed limit filter format disk (i ∷ is) records h =
      elim (Bool-cases (leb limit (length records))) [
        | inl e ↦ rw e h
        | inr e ↦ rw e (
            file-ArePassed
              (filtered_of_files base64_encode base64_decode from_utf8 into_bytes limit filter
                format disk is)
              limit filter format i.created_at records (files-ArePassed limit filter format disk is)
              h (disk.rows i.path))
      ]

  directory-ArePassed :
      (limit : ℕ) (filter : RecordFilter) (format : BinaryDataFormat)
      (disk : Disk (StorageRecord Stamp Text)) (files : Result (List RollingFileInfoWithSize) Error)
      → ArePassed limit filter (
          filtered_of_directory base64_encode base64_decode from_utf8 into_bytes limit filter format
            disk files)
  unfolding filtered_of_directory ArePassed
  directory-ArePassed limit filter format disk (err e) = tt
  directory-ArePassed limit filter format disk (ok files) =
      files-ArePassed limit filter format disk files [] (omega arith, tt)

  flushed-ArePassed :
      {W : Type 0} (epoch now limit : ℕ) (filter : RecordFilter)
      (disk : Disk (StorageRecord Stamp Text))
      (flushed : FileRecordStorage W (List String) × Result {0, 0} Unit Error)
      → ArePassed
          (min limit 16384)
          filter
          (filtered_flushed base64_encode base64_decode from_utf8 into_bytes epoch now limit filter
            disk flushed).1
  unfolding filtered_flushed ArePassed
  flushed-ArePassed epoch now limit filter disk (s, err e) = tt
  flushed-ArePassed epoch now limit filter disk (s, ok _) =
      directory-ArePassed (min limit 16384) filter s.descriptor.binary_data_format disk (
        files_chronologically (file_info_filter_from_record_prelude_filter epoch now filter.prelude)
          disk.files)

  -- For any storage, disk and filter `filter_records` returns: an error, or at most as many records
  -- as the limit allows, and at most 16384, each of at least the least severity that the filter
  -- demands, with one of its codes and one of its scopes where it has any, and created at its end,
  -- if it has one, or earlier.
  pub filter_records-ArePassed :
      {W S : Type 0} (csv : CsvWriter W (List String) S) (epoch now limit : ℕ)
      (filter : RecordFilter) (s : FileRecordStorage W (List String))
      (disk : Disk (StorageRecord Stamp Text))
      → ArePassed
          (min limit 16384)
          filter
          (journal_filter_records base64_encode base64_decode from_utf8 into_bytes csv epoch now
            limit filter s disk).1
  unfolding journal_filter_records
  filter_records-ArePassed csv epoch now limit filter s disk =
      flushed-ArePassed epoch now limit filter disk (flush_before_reading csv s)
