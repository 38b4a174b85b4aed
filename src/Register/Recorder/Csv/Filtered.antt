-- ===== src/Register/Recorder/Csv/Filtered.antt =====
-- What `filter_records` in crates/msr-core/src/register/recorder/csv.rs returns.
use msr.Prelude.{
  ℕ, ◌≤◌, min, String, ◌≡◌, Option, none, some, List, [], ◌∷◌, map, arith, Result, ok, err, length,
  All, length-map,
}
use msr.Fs.Csv.{CsvWriter}
use msr.Storage.{Error, RecordPreludeFilter}
use msr.Storage.Csv.Files.{Disk}
use msr.Storage.Csv.Deserializing.Rows.{InRange}
use msr.Storage.Csv.Deserializing.Filter.{filter_records_by_prelude}
use msr.Storage.Csv.Deserializing.Filtering.{IsFiltered, filter_records-IsFiltered}
use msr.Register.Recorder.{
  RecorderError, SerdeRegisterValue, StoredRegisterRecord, RegisterStorageRecord, created_at_offset,
  map_some, restore,
}
use msr.Value.{ValueType}
use msr.Register.Recorder.Csv.{Parsers}
use msr.Register.Recorder.Csv.Storage.{
  RegisterFileStorage, deserialize, restored_record, restored_records, recorder_filter_records,
}

-- A time stamp at the start of a filter that has one or later, and at its end or earlier.
unfoldable pub CreatedWithin : RecordPreludeFilter → ℕ → Type 0
CreatedWithin filter created_at =
    (since : ℕ)
    → filter.since_created_at ≡ some since
    → (since ≤ created_at)
      × ((until : ℕ) → filter.until_created_at ≡ some until → created_at ≤ until)

module _ {Stamp V : Type 0} where
  unfoldable pub AreFiltered :
      ℕ
      → RecordPreludeFilter
      → Option (Result (List (StoredRegisterRecord Stamp V)) RecorderError)
      → Type 0
  unfolding CreatedWithin
  AreFiltered limit filter none = ⊥
  AreFiltered limit filter (some (err e)) = Unit
  AreFiltered limit filter (some (ok records)) =
      (length records ≤ limit) × All (λ r. CreatedWithin filter r.created_at) records

module _ {Stamp F64 V IntError TimeError : Type 0} (from : SerdeRegisterValue F64 → V)
    (parsers : Parsers F64 Stamp IntError TimeError) (registers : List (ℕ × ValueType)) where
  restored-AreFiltered :
      (limit : ℕ) (filter : RecordPreludeFilter)
      (records : List (ℕ × RegisterStorageRecord Stamp F64))
      → All (InRange created_at_offset (deserialize parsers registers) filter) records
      → All (λ r. CreatedWithin filter r.created_at) (map (restored_record from) records)
  unfolding CreatedWithin restored_record created_at_offset restore InRange
  restored-AreFiltered limit filter [] h = tt
  restored-AreFiltered limit filter ((origin, r) ∷ records) h =
      (h.0, restored-AreFiltered limit filter records h.1)

  outcome-AreFiltered :
      (limit : ℕ) (filter : RecordPreludeFilter)
      (o : Option (Result (List (ℕ × RegisterStorageRecord Stamp F64)) Error))
      → IsFiltered created_at_offset (deserialize parsers registers) limit filter o
      → AreFiltered limit filter (map_some (restored_records from) o)
  unfolding AreFiltered restored_records map_some
  outcome-AreFiltered limit filter none h = h
  outcome-AreFiltered limit filter (some (err e)) h = tt
  outcome-AreFiltered limit filter (some (ok records)) h = (
    omega (arith, h.0, length-map (restored_record from) records),
    restored-AreFiltered limit filter records h.1,
  )

-- For any storage, disk and filter `filter_records` returns: an error, or at most as many records
-- as the limit allows, and at most 16384. If the filter has a start, the time stamp of each is at its
-- start or later, and at its end, if it has one, or earlier.
filter_records-AreFiltered :
    {Stamp F64 V IntError TimeError W S : Type 0} (from : SerdeRegisterValue F64 → V)
    (parsers : Parsers F64 Stamp IntError TimeError) (csv : CsvWriter W (List String) S)
    (epoch now limit : ℕ) (filter : RecordPreludeFilter) (s : RegisterFileStorage W)
    (disk : Disk (List String))
    → AreFiltered
        (min limit 16384)
        filter
        (recorder_filter_records from parsers csv epoch now limit filter s disk).1
unfolding recorder_filter_records
filter_records-AreFiltered from parsers csv epoch now limit filter s disk =
    outcome-AreFiltered from parsers s.registers (min limit 16384) filter
      (filter_records_by_prelude created_at_offset (deserialize parsers s.registers) csv epoch now
        limit filter s.inner disk).1
      (filter_records-IsFiltered created_at_offset (deserialize parsers s.registers) csv epoch now
        limit filter s.inner disk)
