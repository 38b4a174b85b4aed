-- ===== src/Storage/Csv/Appending/Offsets.antt =====
-- The offsets that `append_record` of crates/msr-core/src/storage/csv.rs gives to records.
use msr.Prelude.{
  ℕ, ◌-◌, ◌%◌, ◌^◌, ◌≡◌, refl, ap, ◌∙◌, true, Option, none, some, List, Result, ok, err,
}
use mathlib.Core.Path.{subst}
use msr.Time.{SystemInstant}
use msr.Fs.System.{IoError, RollingFileInfo}
use msr.Fs.Csv.{FileError, WriteResult, CsvWriter, RollingFileWriter}
use msr.Fs.Csv.Writing.{serialize}
use msr.Storage.{Error, offset_from_duration}
use msr.Storage.Csv.{WritingStatus, FileRecordStorage}
use msr.Storage.Csv.Files.{Disk, perform_housekeeping}
use msr.Storage.Csv.Appending.{
  first_status, started, started_after, ensure_status, next_status, appended_as, appended,
  append_with, append_ensured, append_record,
}

-- The instant from which offsets are counted: that of the first record.
abbrev pub counted_from :
    {W Row : Type 0} → SystemInstant → Option (WritingStatus W Row) → SystemInstant
counted_from created_at none = created_at
counted_from created_at (some status) = status.first_record_created_at

module _ {W Row : Type 0} where
  -- A storage that has written: records are pending, the last one was created at a time, and offsets
  -- are counted from an instant.
  abbrev pub HasWritten : SystemInstant → SystemInstant → FileRecordStorage W Row → Type 0
  HasWritten first created_at s =
      (status : WritingStatus W Row) × (s.writing_status ≡ some status)
      × (status.first_record_created_at ≡ first)
      × (status.last_record_created_at ≡ created_at.system_time)
      × (status.flush_pending ≡ true)

module _ {W Row S R : Type 0} (csv : CsvWriter W Row S) where
  -- After success the record has the offset from the first one, and the storage has written.
  abbrev pub IsAppended :
      SystemInstant
      → SystemInstant
      → FileRecordStorage W Row × Disk R × Result (WriteResult × ℕ) Error
      → Type 0
  IsAppended first created_at (s, disk, err e) = Unit
  IsAppended first created_at (s, disk, ok (written, offset)) =
      (offset ≡ (created_at.instant - first.instant) % 2 ^ 64) × HasWritten first created_at s

  -- The storage has a status, and its offsets are counted from an instant.
  abbrev Ensured :
      SystemInstant → Option (FileRecordStorage W Row × Disk R × Result {0, 0} Unit Error) → Type 0
  Ensured first none = Unit
  Ensured first (some (s, disk, err e)) = Unit
  Ensured first (some (s, disk, ok _)) =
      (status : WritingStatus W Row) × (s.writing_status ≡ some status)
      × (status.first_record_created_at ≡ first)

  started_after-Ensured :
      (created_at : SystemInstant)
      (o : Option (FileRecordStorage W Row × Disk R × Result {0, 0} Unit Error))
      → Ensured created_at (started_after csv created_at o)
  unfolding started_after started first_status
  started_after-Ensured created_at none = tt
  started_after-Ensured created_at (some (s, disk, err e)) = tt
  started_after-Ensured created_at (some (s, disk, ok _)) = (first_status created_at s, refl, refl)

  ensure_status-Ensured :
      (epoch now : ℕ) (created_at : SystemInstant) (s : FileRecordStorage W Row) (disk : Disk R)
      (o : Option (WritingStatus W Row))
      → s.writing_status ≡ o
      → Ensured (counted_from created_at o) (ensure_status csv epoch now created_at s disk o)
  unfolding ensure_status
  ensure_status-Ensured epoch now created_at s disk none e =
      started_after-Ensured created_at (perform_housekeeping csv epoch now s disk)
  ensure_status-Ensured epoch now created_at s disk (some status) e = (status, e, refl)

  appended-IsAppended :
      (first created_at : SystemInstant) (s : FileRecordStorage W Row) (disk : Disk R)
      (status : WritingStatus W Row) (offset : ℕ)
      → offset ≡ (created_at.instant - first.instant) % 2 ^ 64
      → status.first_record_created_at ≡ first
      → status.last_record_created_at ≡ created_at.system_time
      → status.flush_pending ≡ true
      → (o : Option
          (RollingFileWriter W Row × Result (WriteResult × Option RollingFileInfo) FileError))
        (r : FileRecordStorage W Row × Disk R × Result (WriteResult × ℕ) Error)
      → appended csv s disk status offset o ≡ some r
      → IsAppended first created_at r
  unfolding appended
  appended-IsAppended first created_at s disk status offset e f l p none r q = cc
  appended-IsAppended first created_at s disk status offset e f l p (some (w, res)) r q =
      let s' = record s { writing_status = some (record status { writer = w }) } in
      let same : (s', disk, appended_as offset res) ≡ r = cc in
      subst (IsAppended first created_at) same (by_result res)
    where
      by_result :
          (res : Result (WriteResult × Option RollingFileInfo) FileError)
          → IsAppended first created_at (
            record s { writing_status = some (record status { writer = w }) },
            disk,
            appended_as offset res,
          )
      by_result (err e) = tt
      by_result (ok (written, _)) = (e, (record status { writer = w }, refl, f, l, p))

  module _ (set_created_at_offset : ℕ → S → S) (show : ℕ → List ℕ) (push : List ℕ → List ℕ → List ℕ)
      (create_new : List ℕ → Result {0, 0} Unit IoError) (last : ℕ) where
    append_with-IsAppended :
        (first created_at : SystemInstant) (record_ : S) (s : FileRecordStorage W Row)
        (disk : Disk R) (o : Option (WritingStatus W Row)) (status : WritingStatus W Row)
        → o ≡ some status
        → status.first_record_created_at ≡ first
        → (r : FileRecordStorage W Row × Disk R × Result (WriteResult × ℕ) Error)
        → append_with csv set_created_at_offset show push create_new last created_at record_ s disk
            o
          ≡ some r
        → IsAppended first created_at r
    unfolding append_with next_status offset_from_duration
    append_with-IsAppended first created_at record_ s disk none status e f r q = cc
    append_with-IsAppended first created_at record_ s disk (some status') status e f r q =
        let same : status' ≡ status = cc in
        let f' : status'.first_record_created_at ≡ first =
          ap (λ x. x.first_record_created_at) same ∙ f in
        let (next, offset) = next_status created_at status' in
        appended-IsAppended first created_at s disk next offset
          (ap (λ x. (created_at.instant - x.instant) % 2 ^ 64) f') f' refl refl
          (serialize csv show push create_new (set_created_at_offset offset record_) last created_at
            offset next.writer)
          r q

    append_ensured-IsAppended :
        (first created_at : SystemInstant) (record_ : S)
        (o : Option (FileRecordStorage W Row × Disk R × Result {0, 0} Unit Error))
        → Ensured first o
        → (r : FileRecordStorage W Row × Disk R × Result (WriteResult × ℕ) Error)
        → append_ensured csv set_created_at_offset show push create_new last created_at record_ o
          ≡ some r
        → IsAppended first created_at r
    unfolding append_ensured
    append_ensured-IsAppended first created_at record_ none h r q = cc
    append_ensured-IsAppended first created_at record_ (some (s, disk, err e)) h r q =
        let same : (s, disk, err e) ≡ r = cc in subst (IsAppended first created_at) same tt
    append_ensured-IsAppended first created_at record_ (some (s, disk, ok _)) (status, e, f) r q =
        append_with-IsAppended first created_at record_ s disk s.writing_status status e f r q

    -- An append that succeeds, whether it is the first one, which is preceded by housekeeping, or not,
    -- returns the distance of its instant from that of the first append, in `u64`; the instant of the
    -- first append stays, and the storage is to be flushed before it is read.
    pub append_record-IsAppended :
        (epoch now : ℕ) (created_at : SystemInstant) (record_ : S) (s : FileRecordStorage W Row)
        (disk : Disk R) (r : FileRecordStorage W Row × Disk R × Result (WriteResult × ℕ) Error)
        → append_record csv set_created_at_offset show push create_new last epoch now created_at
            record_ s disk
          ≡ some r
        → IsAppended (counted_from created_at s.writing_status) created_at r
    unfolding append_record
    append_record-IsAppended epoch now created_at record_ s disk r q =
        append_ensured-IsAppended (counted_from created_at s.writing_status) created_at record_
          (ensure_status csv epoch now created_at s disk s.writing_status)
          (ensure_status-Ensured epoch now created_at s disk s.writing_status refl) r q
