-- ===== src/Register/Recorder/Csv/Storage.antt =====
-- The storage of records of registers on CSV files: `FileRecordStorage` in
-- crates/msr-core/src/register/recorder/csv.rs. What it only passes on to the storage inside is that
-- of Storage/Csv. A panic of the deserializer, which ends the reading where it happens, stands for an
-- error of its own. Warnings in the log are left out.
use msr.Prelude.{ℕ, String, Option, none, some, List, [], ◌∷◌, map, if◌then◌else◌, Result, ok, err}
use msr.Time.{SystemInstant}
use msr.Fs.System.{IoError}
use msr.Fs.Csv.{WriteResult, CsvWriter}
use msr.Storage.{Error, other, StorageConfig, bytes_format, RecordPreludeFilter}
use msr.Storage.Csv.{
  FileRecordStorage, try_new as csv_try_new, replace_config as csv_replace_config,
}
use msr.Storage.Csv.Files.{Disk}
use msr.Storage.Csv.Appending.{append_record as append_row}
use msr.Storage.Csv.Deserializing.Recent.{recent_records_read}
use msr.Storage.Csv.Deserializing.Filter.{filter_records_by_prelude}
use msr.Value.{ValueType, type_eq}
use msr.Register.Recorder.{
  RecorderError, mismatching_register_types, storage, SerdeRegisterValue, RegisterRecord,
  StoredRegisterRecord, RegisterStorageRecord, created_at_offset, set_created_at_offset, restore,
  storage_record_from, record_from_storage, map_some,
}
use msr.Register.Recorder.Csv.{Parsers, deserialize_string_record}

-- `FileRecordStorage`, with the registers of the deserializer inside
pub record RegisterFileStorage (W : Type 0) : Type 0 where
  pub register_types : List ValueType
  pub registers : List (ℕ × ValueType)
  pub inner : FileRecordStorage W (List String)

-- `.csv`
abbrev pub file_name_suffix : List ℕ
file_name_suffix = 46 ∷ 99 ∷ 115 ∷ 118 ∷ []

-- The text of an index, the number behind `#`, is a parameter.
unfoldable pub custom_headers : (index_text : ℕ → String) → List (ℕ × ValueType) → List String
custom_headers index_text registers =
    "created_at" ∷ "observed_at" ∷ map (λ (index, t). index_text index) registers

-- `FileRecordStorage::try_new`, which never fails
unfoldable pub recorder_try_new :
    {W : Type 0} (index_text : ℕ → String)
    → StorageConfig
    → List ℕ
    → List ℕ
    → List (ℕ × ValueType)
    → RegisterFileStorage W
unfolding custom_headers csv_try_new
recorder_try_new index_text config base_path file_name_prefix registers = record {
  register_types = map (λ (index, t). t) registers;
  registers = registers;
  inner =
      csv_try_new bytes_format config base_path
        (record { prefix = file_name_prefix; suffix = file_name_suffix })
        (some (custom_headers index_text registers));
}

unfoldable pub recorder_replace_config :
    {W : Type 0} → StorageConfig → RegisterFileStorage W → RegisterFileStorage W × StorageConfig
unfolding csv_replace_config
recorder_replace_config new_config s =
    let (inner, old_config) = csv_replace_config new_config s.inner in
    (record s { inner = inner }, old_config)

-- The check of `append_record`: the first value whose type is not that of its register
unfoldable pub first_mismatch :
    {V : Type 0} (to_value_type : V → ValueType)
    → List ValueType
    → List (Option V)
    → Option RecorderError
unfolding type_eq
first_mismatch to_value_type [] values = none
first_mismatch to_value_type (t ∷ ts) [] = none
first_mismatch to_value_type (t ∷ ts) (none ∷ vs) = first_mismatch to_value_type ts vs
first_mismatch to_value_type (t ∷ ts) (some v ∷ vs) =
    let rest = first_mismatch to_value_type ts vs in
    if type_eq t (to_value_type v)
    then rest
    else some (mismatching_register_types t (to_value_type v))

-- An error of writing is ignored.
unfoldable pub record_appended :
    SystemInstant → Result (WriteResult × ℕ) Error → Result ℕ RecorderError
record_appended created_at (ok _) = ok created_at.system_time
record_appended created_at (err e) = err (storage e)

unfoldable pub inner_appended :
    {W : Type 0}
    → SystemInstant
    → RegisterFileStorage W
    → Option
        (FileRecordStorage W (List String) × Disk (List String) × Result (WriteResult × ℕ) Error)
    → Option (RegisterFileStorage W × Disk (List String) × Result ℕ RecorderError)
unfolding record_appended
inner_appended created_at s none = none
inner_appended created_at s (some (inner, disk, res)) =
    some (record s { inner = inner }, disk, record_appended created_at res)

module _ {W Stamp F64 : Type 0} (csv : CsvWriter W (List String) (RegisterStorageRecord Stamp F64))
    (show : ℕ → List ℕ) (push : List ℕ → List ℕ → List ℕ)
    (create_new : List ℕ → Result {0, 0} Unit IoError) (last epoch now : ℕ)
    (created_at : SystemInstant) (s : RegisterFileStorage W) (disk : Disk (List String)) where
  -- The conversion may panic.
  unfoldable pub append_converted :
      Option (RegisterStorageRecord Stamp F64)
      → Option (RegisterFileStorage W × Disk (List String) × Result ℕ RecorderError)
  unfolding append_row inner_appended set_created_at_offset
  append_converted none = none
  append_converted (some r) = inner_appended created_at s (
      append_row csv set_created_at_offset show push create_new last epoch now created_at r s.inner
        disk)

  unfoldable pub append_checked :
      Option RecorderError
      → Option (RegisterStorageRecord Stamp F64)
      → Option (RegisterFileStorage W × Disk (List String) × Result ℕ RecorderError)
  unfolding append_converted
  append_checked (some e) r = some (s, disk, err e)
  append_checked none r = append_converted r

  unfoldable pub recorder_append_record :
      {V : Type 0} (to_value_type : V → ValueType) (into : V → Option (SerdeRegisterValue F64))
      → RegisterRecord Stamp V
      → Option (RegisterFileStorage W × Disk (List String) × Result ℕ RecorderError)
  unfolding append_checked first_mismatch storage_record_from
  recorder_append_record to_value_type into r =
      append_checked (first_mismatch to_value_type s.register_types r.observation.register_values)
        (storage_record_from into r)

-- The deserializer
unfoldable pub panicking : {A : Type 0} → Option (Result A Error) → Result A Error
panicking none = err (other "not implemented")
panicking (some res) = res

unfoldable pub deserialize :
    {F64 Stamp IntError TimeError : Type 0} (parsers : Parsers F64 Stamp IntError TimeError)
    → List (ℕ × ValueType)
    → List String
    → Result (RegisterStorageRecord Stamp F64) Error
unfolding deserialize_string_record panicking
deserialize parsers registers fields =
    panicking (deserialize_string_record parsers registers fields)

module _ {Stamp F64 V : Type 0} (from : SerdeRegisterValue F64 → V) where
  unfoldable pub restored_record :
      ℕ × RegisterStorageRecord Stamp F64 → StoredRegisterRecord Stamp V
  unfolding restore record_from_storage
  restored_record (created_at_origin, r) = restore created_at_origin (record_from_storage from r)

  unfoldable pub restored_records :
      Result (List (ℕ × RegisterStorageRecord Stamp F64)) Error
      → Result (List (StoredRegisterRecord Stamp V)) RecorderError
  unfolding restored_record
  restored_records (ok records) = ok (map restored_record records)
  restored_records (err e) = err (storage e)

module _ {Stamp F64 V IntError TimeError W S : Type 0} (from : SerdeRegisterValue F64 → V)
    (parsers : Parsers F64 Stamp IntError TimeError) (csv : CsvWriter W (List String) S) where
  -- The second part is as for the storage inside.
  unfoldable pub recorder_recent_records :
      ℕ
      → RegisterFileStorage W
      → Disk (List String)
      → RegisterFileStorage W × Option (Result (List (StoredRegisterRecord Stamp V)) RecorderError)
  unfolding recent_records_read restored_records deserialize created_at_offset map_some
  recorder_recent_records limit s disk =
      let (inner, res) =
        recent_records_read created_at_offset (deserialize parsers s.registers) csv limit s.inner
          disk in
      (record s { inner = inner }, map_some (restored_records from) res)

  unfoldable pub recorder_filter_records :
      ℕ
      → ℕ
      → ℕ
      → RecordPreludeFilter
      → RegisterFileStorage W
      → Disk (List String)
      → RegisterFileStorage W × Option (Result (List (StoredRegisterRecord Stamp V)) RecorderError)
  unfolding filter_records_by_prelude restored_records deserialize created_at_offset map_some
  recorder_filter_records epoch now limit filter s disk =
      let (inner, res) =
        filter_records_by_prelude created_at_offset (deserialize parsers s.registers) csv epoch now
          limit filter s.inner disk in
      (record s { inner = inner }, map_some (restored_records from) res)
