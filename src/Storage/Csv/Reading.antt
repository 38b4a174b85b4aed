-- ===== src/Storage/Csv/Reading.antt =====
-- How crates/msr-core/src/storage/csv.rs reads records: `recent_records` of
-- `FileRecordStorage`. A reader is the list of what it returns up to the end of the file.
pub mod Ends
pub mod Recent
use msr.Prelude.{
  ℕ, zero, suc, ◌+◌, ◌-◌, ◌*◌, ◌/◌, ◌%◌, ◌^◌, ◌≤◌, ◌<◌, min, String, ◌≡◌, refl, sym, ap, ◌∙◌, ◌≢◌,
  ◌↔◌, ◌⊎◌, inl, inr, Bool, true, false, not, ◌&&◌, ◌||◌, Option, none, some, List, [], ◌∷◌, ◌++◌,
  map, reverse, append-nil, append_assoc, arith, str_eq, eq_iff, eq_refl, ltb, leb, ◌==◌,
  if◌then◌else◌, bool_eq, ltb→lt, lt→ltb, leb→le, ==_iff, Bool-cases, Option-cases, Result, ok, err,
  ◌>>=◌, ◌>>◌, is_ok, Result-cases, is_ok-bind, length, drop, any, find, keep, All, length-append,
  length-drop, All-append, for_each, for_each_inv, for_each_eq, for_each_All, All-keep, All-find,
  HashMap, get, insert, remove, get-insert, get-remove, ℤ, pos, negsuc, ltb_ℤ, leb_ℤ, eqb_ℤ,
  eqb_ℤ_iff,
}
use msr.Fs.Directory.{SystemTimeRange, RollingFileInfoWithSize}
use msr.Fs.Csv.{CsvError, CsvWriter}
use msr.Storage.{
  Error, io, csv, max_preallocated_capacity_limit, RecordPreludeFilter, system_time_from_origin,
}
use msr.Storage.Csv.{
  FileRecordStorage, file_info_filter_from_record_prelude_filter, flush_before_reading,
}
use msr.Storage.Csv.Files.{Disk, files_chronologically}

-- `filter_map` of the results that are no errors
unfoldable pub oks : {A E : Type 0} → List (Result A E) → List A
oks [] = []
oks (ok a ∷ rs) = a ∷ oks rs
oks (err _ ∷ rs) = oks rs

unfoldable pub skip_while : {A : Type 0} → (A → Bool) → List A → List A
skip_while p [] = []
skip_while p (x ∷ xs) = let rest = skip_while p xs in if p x then rest else x ∷ xs

unfoldable pub take_while : {A : Type 0} → (A → Bool) → List A → List A
take_while p [] = []
take_while p (x ∷ xs) = let rest = take_while p xs in if p x then x ∷ rest else []

-- A record is kept behind at most `limit - 1` others.
unfoldable pub push_back : {A : Type 0} → ℕ → A → List A → List A
push_back limit record_ records =
    if length records == limit then drop 1 records ++ record_ ∷ [] else records ++ record_ ∷ []

module _ {R : Type 0} (created_at_offset : R → ℕ) where
  unfoldable pub created_before : ℕ → Option ℕ → R → Bool
  unfolding system_time_from_origin
  created_before origin none r = false
  created_before origin (some since) r =
      ltb (system_time_from_origin (created_at_offset r) origin) since

  unfoldable pub created_until : ℕ → Option ℕ → R → Bool
  unfolding system_time_from_origin
  created_until origin none r = true
  created_until origin (some until) r =
      leb (system_time_from_origin (created_at_offset r) origin) until

  unfoldable pub reader_into_filtered_record_iter :
      List (Result R CsvError) → ℕ → RecordPreludeFilter → List R
  unfolding oks skip_while take_while created_before created_until
  reader_into_filtered_record_iter rows origin filter =
      take_while (created_until origin filter.until_created_at)
        (skip_while (created_before origin filter.since_created_at) (oks rows))

  -- The last records of a file, as many as the limit allows, each with the time stamp of the file.
  unfoldable pub last_records_of : ℕ → ℕ → List (Result R CsvError) → List (ℕ × R)
  unfolding reader_into_filtered_record_iter push_back for_each
  last_records_of limit created_at rows =
      let filter : RecordPreludeFilter = record {
        since_created_at = none;
        until_created_at = none;
      } in
      for_each (λ r records. push_back limit (created_at, r) records)
        (reader_into_filtered_record_iter rows created_at filter) []

  unfoldable pub recent_of_files :
      ℕ → Disk R → List RollingFileInfoWithSize → List (ℕ × R) → Result (List (ℕ × R)) Error
  unfolding last_records_of
  recent_of_files limit disk [] reverse_records = ok reverse_records
  recent_of_files limit disk (i ∷ is) reverse_records =
      let rest = recent_of_files limit disk is in
      if leb limit (length reverse_records) then ok reverse_records else elim (disk.rows i.path) [
        | err e ↦ err (io e)
        | ok rows ↦ rest (reverse_records ++ reverse (last_records_of limit i.created_at rows))
      ]

  unfoldable pub recent_flushed :
      {T : Type 0} → ℕ → Disk R → T × Result {0, 0} Unit Error → T × Result (List (ℕ × R)) Error
  unfolding files_chronologically recent_of_files
  recent_flushed limit disk (s, err e) = (s, err e)
  recent_flushed limit disk (s, ok _) = (
    s,
    do
      files ← files_chronologically none disk.files
      recent_of_files (min limit max_preallocated_capacity_limit) disk (reverse files) [],
  )

  -- `recent_records` of `FileRecordStorage`
  unfoldable pub recent_records :
      {W Row S : Type 0} (csv_writer : CsvWriter W Row S)
      → ℕ
      → FileRecordStorage W Row
      → Disk R
      → FileRecordStorage W Row × Result (List (ℕ × R)) Error
  unfolding flush_before_reading recent_flushed
  recent_records csv_writer limit s disk =
      recent_flushed limit disk (flush_before_reading csv_writer s)
