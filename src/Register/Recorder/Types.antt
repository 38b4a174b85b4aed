-- ===== src/Register/Recorder/Types.antt =====
-- The types of the values that are stored for registers, and of those that are read:
-- crates/msr-core/src/register/recorder/mod.rs and csv.rs.
pub mod Reading
use msr.Prelude.{
  ℕ, suc, ◌+◌, String, ◌≡◌, refl, inl, inr, Option, none, some, List, [], ◌∷◌, arith, str_eq, ◌==◌,
  ==_iff, Bool-cases, Result, ok, err, length, All,
}
use msr.Fs.System.{kind_other}
use msr.Storage.{Error, io}
use msr.Value.Scalar.{ScalarType, ScalarValue, bool, i8, u8, i16, u16, i32, u32, f32, i64, u64, f64}
use msr.Value.{ValueType, Value, scalar, duration, string, bytes, to_value_type}
use msr.Register.Recorder.{SerdeRegisterValue, RegisterStorageRecord, map_some, serde_from_value}
use msr.Register.Recorder.Csv.{
  Parsers, DeserializeError, map_ok, parse_scalar, parse_field, value_parsed, read_field,
  then_values, read_fields, observed_at_read, offset_read, columns_read, read_record, as_io_error,
  deserialize_string_record,
}

-- The type of a value as it is recorded
unfoldable pub recorded_type : {F64 : Type 0} → SerdeRegisterValue F64 → ValueType
recorded_type (SerdeRegisterValue.bool _) = scalar bool
recorded_type (SerdeRegisterValue.i64 _) = scalar i64
recorded_type (SerdeRegisterValue.u64 _) = scalar u64
recorded_type (SerdeRegisterValue.f64 _) = scalar f64
recorded_type (SerdeRegisterValue.string _) = string

-- The widest type of the same kind, as which values of a type are recorded, if they are
unfoldable pub widest : ScalarType → ScalarType
widest bool = bool
widest i8 = i64
widest i16 = i64
widest i32 = i64
widest i64 = i64
widest u8 = u64
widest u16 = u64
widest u32 = u64
widest u64 = u64
widest f32 = f64
widest f64 = f64

unfoldable pub stored_type : ValueType → Option ValueType
unfolding widest
stored_type (scalar t) = some (scalar (widest t))
stored_type string = some string
stored_type duration = none
stored_type bytes = none

-- A value is recorded with the widest type of its kind, and durations and bytes are not recorded.
pub serde_from_value-stored_type :
    {F32 F64 : Type 0} (widened : F32 → F64) (v : Value F32 F64)
    → map_some recorded_type (serde_from_value widened v) ≡ stored_type (to_value_type v)
unfolding map_some recorded_type serde_from_value stored_type to_value_type
serde_from_value-stored_type widened (scalar (ScalarValue.bool _)) = refl
serde_from_value-stored_type widened (scalar (ScalarValue.i8 _)) = refl
serde_from_value-stored_type widened (scalar (ScalarValue.u8 _)) = refl
serde_from_value-stored_type widened (scalar (ScalarValue.i16 _)) = refl
serde_from_value-stored_type widened (scalar (ScalarValue.u16 _)) = refl
serde_from_value-stored_type widened (scalar (ScalarValue.i32 _)) = refl
serde_from_value-stored_type widened (scalar (ScalarValue.u32 _)) = refl
serde_from_value-stored_type widened (scalar (ScalarValue.f32 _)) = refl
serde_from_value-stored_type widened (scalar (ScalarValue.i64 _)) = refl
serde_from_value-stored_type widened (scalar (ScalarValue.u64 _)) = refl
serde_from_value-stored_type widened (scalar (ScalarValue.f64 _)) = refl
serde_from_value-stored_type widened (duration _) = refl
serde_from_value-stored_type widened (string _) = refl
serde_from_value-stored_type widened (bytes _) = refl

-- The types whose values can be read
unfoldable pub IsReadable : ValueType → Type 0
IsReadable (scalar i8) = ⊥
IsReadable (scalar u8) = ⊥
IsReadable (scalar bool) = Unit
IsReadable (scalar i16) = Unit
IsReadable (scalar u16) = Unit
IsReadable (scalar i32) = Unit
IsReadable (scalar u32) = Unit
IsReadable (scalar f32) = Unit
IsReadable (scalar i64) = Unit
IsReadable (scalar u64) = Unit
IsReadable (scalar f64) = Unit
IsReadable string = Unit
IsReadable duration = ⊥
IsReadable bytes = ⊥

unfoldable pub HasType : {F64 : Type 0} → ValueType → Option (SerdeRegisterValue F64) → Type 0
unfolding recorded_type stored_type
HasType t none = Unit
HasType t (some v) = stored_type t ≡ some (recorded_type v)

-- As many values as registers, each of the type of its register or missing
unfoldable pub AreTyped :
    {F64 : Type 0} → List (ℕ × ValueType) → List (Option (SerdeRegisterValue F64)) → Type 0
unfolding HasType
AreTyped [] [] = Unit
AreTyped [] (v ∷ vs) = ⊥
AreTyped (register ∷ registers) [] = ⊥
AreTyped ((index, t) ∷ registers) (v ∷ vs) = HasType t v × AreTyped registers vs

abbrev pub AreReadable : List (ℕ × ValueType) → Type 0
AreReadable registers = All (λ (index, t). IsReadable t) registers

-- What a row is read as
unfoldable pub IsRead :
    {F64 Stamp : Type 0}
    → List (ℕ × ValueType)
    → Option (Result (RegisterStorageRecord Stamp F64) Error)
    → Type 0
unfolding AreTyped
IsRead registers none = AreReadable registers → ⊥
IsRead registers (some (err e)) = e ≡ io (record { kind = kind_other; raw_os_error = none })
IsRead registers (some (ok r)) = AreTyped registers r.register_values
