-- ===== src/Storage/InMemory.antt =====
-- `InMemoryRecordStorage` of crates/msr-core/src/storage/mod.rs. No operation fails. The capacity that
-- is allocated in advance has no effect on the records.
pub mod Recent
pub mod Retention
use msr.Prelude.{
  ℕ, ◌-◌, min, none, some, List, [], ◌∷◌, ◌++◌, leb, if◌then◌else◌, Result, ok, length, drop,
}
use msr.Time.{SystemInstant, checked_duration_since}
use msr.Fs.Csv.{WriteError}
use msr.Storage.{
  Error, StorageConfig, StorageDescriptor, StorageStatistics, bytes_format, offset_from_duration,
  RecordPrelude,
}

pub record InMemoryRecordStorage (R : Type 0) : Type 0 where
  pub config : StorageConfig
  pub descriptor : StorageDescriptor
  pub created_at_origin : SystemInstant
  pub records : List R

module _ {R : Type 0} where
  -- `new`, at an instant
  unfoldable pub new : StorageConfig → SystemInstant → InMemoryRecordStorage R
  new config now = record {
    config = config;
    descriptor = record { kind = "in-memory"; base_path = none; binary_data_format = bytes_format };
    created_at_origin = now;
    records = [];
  }

  unfoldable pub recent_records : ℕ → InMemoryRecordStorage R → Result (List R) Error
  recent_records limit s =
      let total_count = length s.records in
      let limited_count = min limit total_count in ok (drop (total_count - limited_count) s.records)

  unfoldable pub replace_config :
      StorageConfig → InMemoryRecordStorage R → InMemoryRecordStorage R × StorageConfig
  replace_config new_config s = (record s { config = new_config }, s.config)

  unfoldable pub perform_housekeeping :
      InMemoryRecordStorage R → InMemoryRecordStorage R × Result {0, 0} Unit Error
  perform_housekeeping s = (s, ok tt)

  unfoldable pub report_statistics : InMemoryRecordStorage R → Result StorageStatistics Error
  report_statistics s =
      ok (record { total_records = some (length s.records); total_bytes = none; segments = none })

-- `created_since.duration_since(origin).unwrap_or_default().into()`
unfoldable pub created_since_offset : SystemInstant → ℕ → ℕ
unfolding checked_duration_since offset_from_duration
created_since_offset origin created_since =
    elim (checked_duration_since created_since origin.system_time) [
      | none ↦ offset_from_duration 0
      | some duration ↦ offset_from_duration duration
    ]

module _ {R : Type 0} (prelude : RecordPrelude R) where
  -- The loop that drops records from the front.
  unfoldable pub pop_before : ℕ → List R → List R
  pop_before since [] = []
  pop_before since (r ∷ rs) =
      let rest = pop_before since rs in
      if leb since (prelude.created_at_offset r) then r ∷ rs else rest

  unfoldable pub retain_all_records_created_since :
      ℕ → InMemoryRecordStorage R → InMemoryRecordStorage R × Result {0, 0} Unit Error
  unfolding pop_before created_since_offset
  retain_all_records_created_since created_since s = (
    record s {
      records = pop_before (created_since_offset s.created_at_origin created_since) s.records;
    },
    ok tt,
  )

  -- The difference of two instants stops at zero.
  unfoldable pub append_record :
      SystemInstant
      → R
      → InMemoryRecordStorage R
      → InMemoryRecordStorage R × Result (Result {0, 0} Unit WriteError × ℕ) Error
  unfolding offset_from_duration
  append_record created_at r s =
      let offset = offset_from_duration (created_at.instant - s.created_at_origin.instant) in
      (
        record s { records = s.records ++ prelude.set_created_at_offset offset r ∷ [] },
        ok (ok tt, offset),
      )
