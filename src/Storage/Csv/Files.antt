-- ===== src/Storage/Csv/Files.antt =====
-- What crates/msr-core/src/storage/csv.rs does with whole files: retention and statistics. A disk is
-- what the operating system answers: the files of the directory whose names are those of rolling
-- files, the records of each file up to its end, and whether a file can be removed.
pub mod Retention
use msr.Prelude.{
  ℕ, ◌+◌, Option, none, some, List, [], ◌∷◌, ◌++◌, Result, ok, err, ◌>>=◌, is_ok, length, keep,
}
use msr.Time.{system_time_before}
use msr.Fs.Directory.{SystemTimeRange, inclusive_upper_bound, RollingFileInfoWithSize}
use msr.Fs.System.{IoError, chronologically}
use msr.Fs.Csv.{CsvError, CsvWriter}
use msr.Storage.{
  Error, io, interval_from_time_interval, StorageSegmentStatistics, StorageStatistics,
}
use msr.Storage.Csv.{FileRecordStorage, flush_before_reading}

-- The paths that have been removed are recorded; the files stay those that the directory had before.
pub record Disk (R : Type 0) : Type 0 where
  pub files : Result (List RollingFileInfoWithSize) IoError
  pub rows : List ℕ → Result (List (Result R CsvError)) IoError
  pub remove_file : List ℕ → Result {0, 0} Unit IoError
  pub removed : List (List ℕ)

-- `read_all_dir_entries_filtered_chronologically`
unfoldable pub files_chronologically :
    Option SystemTimeRange
    → Result (List RollingFileInfoWithSize) IoError
    → Result (List RollingFileInfoWithSize) Error
unfolding chronologically
files_chronologically filter (err e) = err (io e)
files_chronologically filter (ok infos) = ok (chronologically filter infos)

-- `pop()` without its result
unfoldable pub without_last : {A : Type 0} → List A → List A
without_last [] = []
without_last (x ∷ []) = []
without_last (x ∷ y ∷ ys) = x ∷ without_last (y ∷ ys)

module _ {R : Type 0} where
  unfoldable pub after_removal :
      List ℕ → Disk R → Result {0, 0} Unit IoError → Disk R × Result {0, 0} Unit Error
  after_removal path disk (ok _) = (record disk { removed = disk.removed ++ path ∷ [] }, ok tt)
  after_removal path disk (err e) = (disk, err (io e))

  unfoldable pub go_on :
      (Disk R → Disk R × Result {0, 0} Unit Error)
      → Disk R × Result {0, 0} Unit Error
      → Disk R × Result {0, 0} Unit Error
  go_on rest (disk, ok _) = rest disk
  go_on rest (disk, err e) = (disk, err e)

  -- The loop that deletes files stops at the first error.
  unfoldable pub remove_files :
      List RollingFileInfoWithSize → Disk R → Disk R × Result {0, 0} Unit Error
  unfolding after_removal go_on
  remove_files [] disk = (disk, ok tt)
  remove_files (i ∷ is) disk =
      let rest = remove_files is in go_on rest (after_removal i.path disk (disk.remove_file i.path))

  unfoldable pub remove_all_but_last :
      Disk R → Result (List RollingFileInfoWithSize) Error → Disk R × Result {0, 0} Unit Error
  unfolding remove_files without_last
  remove_all_but_last disk (err e) = (disk, err e)
  remove_all_but_last disk (ok files) = remove_files (without_last files) disk

-- The totals and the segments that `report_statistics` has counted so far.
pub record Counted : Type 0 where
  pub total_records : ℕ
  pub total_bytes : ℕ
  pub segments : List StorageSegmentStatistics

module _ {R : Type 0} where
  -- A file with the records of it that can be read.
  unfoldable pub count_file : RollingFileInfoWithSize → List (Result R CsvError) → Counted → Counted
  count_file i rows counted =
      let segment_total_records = length (keep is_ok rows) in
      record {
        total_records = counted.total_records + segment_total_records;
        total_bytes = counted.total_bytes + i.size_in_bytes;
        segments =
            counted.segments
            ++ record {
              created_at = i.created_at;
              total_records = segment_total_records;
              total_bytes = some i.size_in_bytes;
            }
              ∷ [];
      }

  unfoldable pub count_files :
      Disk R → List RollingFileInfoWithSize → Counted → Result Counted Error
  unfolding count_file
  count_files disk [] counted = ok counted
  count_files disk (i ∷ is) counted =
      let rest = count_files disk is in
      elim (disk.rows i.path) [ err e ↦ err (io e) | ok rows ↦ rest (count_file i rows counted) ]

  unfoldable pub statistics_of :
      Disk R → Result (List RollingFileInfoWithSize) Error → Result StorageStatistics Error
  unfolding count_files
  statistics_of disk (err e) = err e
  statistics_of disk (ok files) = do
    counted ← count_files disk files (record { total_records = 0; total_bytes = 0; segments = [] })
    ok (record {
      total_records = some counted.total_records;
      total_bytes = some counted.total_bytes;
      segments = some counted.segments;
    })

module _ {W Row S R : Type 0} (csv : CsvWriter W Row S) where
  unfoldable pub retain_flushed :
      ℕ
      → ℕ
      → Disk R
      → FileRecordStorage W Row × Result {0, 0} Unit Error
      → FileRecordStorage W Row × Disk R × Result {0, 0} Unit Error
  unfolding files_chronologically remove_all_but_last
  retain_flushed epoch created_since disk (s, err e) = (s, disk, err e)
  retain_flushed epoch created_since disk (s, ok _) =
      let files =
        files_chronologically (some (inclusive_upper_bound epoch created_since)) disk.files in
      let (disk', res) = remove_all_but_last disk files in (s, disk', res)

  unfoldable pub retain_all_records_created_since :
      ℕ
      → ℕ
      → FileRecordStorage W Row
      → Disk R
      → FileRecordStorage W Row × Disk R × Result {0, 0} Unit Error
  unfolding flush_before_reading retain_flushed
  retain_all_records_created_since epoch created_since s disk =
      retain_flushed epoch created_since disk (flush_before_reading csv s)

  -- `none` where the subtraction from the system time panics
  unfoldable pub perform_housekeeping :
      ℕ
      → ℕ
      → FileRecordStorage W Row
      → Disk R
      → Option (FileRecordStorage W Row × Disk R × Result {0, 0} Unit Error)
  unfolding system_time_before interval_from_time_interval retain_all_records_created_since
  perform_housekeeping epoch now s disk =
      elim (system_time_before (interval_from_time_interval s.config.retention_time) now) [
        | none ↦ none
        | some created_since ↦ some (retain_all_records_created_since epoch created_since s disk)
      ]

  unfoldable pub report_flushed :
      Disk R
      → FileRecordStorage W Row × Result {0, 0} Unit Error
      → FileRecordStorage W Row × Result StorageStatistics Error
  unfolding files_chronologically statistics_of
  report_flushed disk (s, err e) = (s, err e)
  report_flushed disk (s, ok _) = (s, statistics_of disk (files_chronologically none disk.files))

  unfoldable pub report_statistics :
      FileRecordStorage W Row → Disk R → FileRecordStorage W Row × Result StorageStatistics Error
  unfolding flush_before_reading report_flushed
  report_statistics s disk = report_flushed disk (flush_before_reading csv s)
