-- ===== src/Register/Recorder.antt =====
-- Records of register values and how they are stored: crates/msr-core/src/register/recorder/mod.rs.
-- Time stamps are of any type. The debug assertions that an offset is set only once are left out.
pub mod Csv
pub mod Types
use msr.Prelude.{ℕ, String, Bool, Option, none, some, List, [], ◌∷◌, map, ℤ}
use msr.Time.{SystemInstant}
use msr.Storage.{Error, system_time_from_origin}
use msr.Value.Scalar.{ScalarValue}
use msr.Value.{ValueType, Value}
use msr.Register.{ObservedValues}

-- The errors of recorders
pub data RecorderError : Type 0 where
  mismatching_register_types : ValueType → ValueType → RecorderError
  storage : Error → RecorderError
  other : String → RecorderError

pub record ObservedRegisterValues (Stamp V : Type 0) : Type 0 where
  pub observed_at : Stamp
  pub register_values : List (Option V)

-- `From<register::ObservedValues<RegisterValue>>`
unfoldable pub observed_from :
    {Stamp V : Type 0} (timestamp_utc : SystemInstant → Stamp)
    → ObservedValues V
    → ObservedRegisterValues Stamp V
observed_from timestamp_utc from = record {
  observed_at = timestamp_utc from.observed_at;
  register_values = from.values;
}

-- `Record`, with the field of its prelude
pub record RegisterRecord (Stamp V : Type 0) : Type 0 where
  pub created_at_offset : ℕ
  pub observation : ObservedRegisterValues Stamp V

-- `StoredRecord`, with the field of its prelude
pub record StoredRegisterRecord (Stamp V : Type 0) : Type 0 where
  pub created_at : ℕ
  pub observation : ObservedRegisterValues Stamp V

-- `StoredRecord::restore`
unfoldable pub restore :
    {Stamp V : Type 0} → ℕ → RegisterRecord Stamp V → StoredRegisterRecord Stamp V
unfolding system_time_from_origin
restore origin r = record {
  created_at = system_time_from_origin r.created_at_offset origin;
  observation = r.observation;
}

pub data SerdeRegisterValue (F64 : Type 0) : Type 0 where
  bool : Bool → SerdeRegisterValue F64
  i64 : ℤ → SerdeRegisterValue F64
  u64 : ℕ → SerdeRegisterValue F64
  f64 : F64 → SerdeRegisterValue F64
  string : String → SerdeRegisterValue F64

module _ {F32 F64 : Type 0} (widened : F32 → F64) where
  -- `From<ScalarValue> for SerdeRegisterValue`
  unfoldable pub serde_from_scalar : ScalarValue F32 F64 → SerdeRegisterValue F64
  serde_from_scalar (ScalarValue.bool val) = bool val
  serde_from_scalar (ScalarValue.i8 val) = i64 val
  serde_from_scalar (ScalarValue.u8 val) = u64 val
  serde_from_scalar (ScalarValue.i16 val) = i64 val
  serde_from_scalar (ScalarValue.u16 val) = u64 val
  serde_from_scalar (ScalarValue.i32 val) = i64 val
  serde_from_scalar (ScalarValue.u32 val) = u64 val
  serde_from_scalar (ScalarValue.f32 val) = f64 (widened val)
  serde_from_scalar (ScalarValue.i64 val) = i64 val
  serde_from_scalar (ScalarValue.u64 val) = u64 val
  serde_from_scalar (ScalarValue.f64 val) = f64 val

  -- `From<Value> for SerdeRegisterValue`; `none` where it panics
  unfoldable pub serde_from_value : Value F32 F64 → Option (SerdeRegisterValue F64)
  unfolding serde_from_scalar
  serde_from_value (Value.scalar val) = some (serde_from_scalar val)
  serde_from_value (Value.string val) = some (string val)
  serde_from_value (Value.duration _) = none
  serde_from_value (Value.bytes _) = none

-- `From<SerdeRegisterValue> for Value`
unfoldable pub value_from_serde : {F32 F64 : Type 0} → SerdeRegisterValue F64 → Value F32 F64
value_from_serde (bool val) = Value.scalar (ScalarValue.bool val)
value_from_serde (i64 val) = Value.scalar (ScalarValue.i64 val)
value_from_serde (u64 val) = Value.scalar (ScalarValue.u64 val)
value_from_serde (f64 val) = Value.scalar (ScalarValue.f64 val)
value_from_serde (string val) = Value.string val

-- `StorageRecord`
pub record RegisterStorageRecord (Stamp F64 : Type 0) : Type 0 where
  pub created_at_offset_ns : ℕ
  pub observed_at : Stamp
  pub register_values : List (Option (SerdeRegisterValue F64))

unfoldable pub created_at_offset : {Stamp F64 : Type 0} → RegisterStorageRecord Stamp F64 → ℕ
created_at_offset r = r.created_at_offset_ns

unfoldable pub set_created_at_offset :
    {Stamp F64 : Type 0} → ℕ → RegisterStorageRecord Stamp F64 → RegisterStorageRecord Stamp F64
set_created_at_offset offset r = record r { created_at_offset_ns = offset }

-- `Option::map`
unfoldable pub map_some : {A B : Type 0} → (A → B) → Option A → Option B
map_some f none = none
map_some f (some a) = some (f a)

unfoldable pub one_value :
    {A : Type 0} → Option (Option A) → Option (List (Option A)) → Option (List (Option A))
one_value none rest = none
one_value (some s) none = none
one_value (some s) (some rest) = some (s ∷ rest)

module _ {F64 V : Type 0} (into : V → Option (SerdeRegisterValue F64)) where
  -- `v.map(Into::into)`, which panics where the conversion does
  unfoldable pub optional : Option V → Option (Option (SerdeRegisterValue F64))
  unfolding map_some
  optional none = some none
  optional (some v) = map_some some (into v)

  unfoldable pub values_into : List (Option V) → Option (List (Option (SerdeRegisterValue F64)))
  unfolding optional one_value
  values_into [] = some []
  values_into (v ∷ vs) = one_value (optional v) (values_into vs)

unfoldable pub with_values :
    {Stamp F64 V : Type 0}
    → RegisterRecord Stamp V
    → List (Option (SerdeRegisterValue F64))
    → RegisterStorageRecord Stamp F64
with_values from values = record {
  created_at_offset_ns = from.created_at_offset;
  observed_at = from.observation.observed_at;
  register_values = values;
}

-- `From<Record<RegisterValue>> for StorageRecord`
unfoldable pub storage_record_from :
    {Stamp F64 V : Type 0} (into : V → Option (SerdeRegisterValue F64))
    → RegisterRecord Stamp V
    → Option (RegisterStorageRecord Stamp F64)
unfolding values_into with_values map_some
storage_record_from into from =
    map_some (with_values from) (values_into into from.observation.register_values)

-- `From<StorageRecord> for Record<RegisterValue>`
unfoldable pub record_from_storage :
    {Stamp F64 V : Type 0} (from : SerdeRegisterValue F64 → V)
    → RegisterStorageRecord Stamp F64
    → RegisterRecord Stamp V
unfolding map_some
record_from_storage from r = record {
  created_at_offset = r.created_at_offset_ns;
  observation = record {
    observed_at = r.observed_at;
    register_values = map (map_some from) r.register_values;
  };
}
