-- ===== src/Register/Recorder/Csv.antt =====
-- How records of registers are read from the fields of a CSV row:
-- `StorageRecordDeserializer` in crates/msr-core/src/register/recorder/csv.rs. The parsers of numbers
-- and time stamps are parameters, with their errors.
pub mod RoundTrip
pub mod Recorded
pub mod Storage
pub mod Checks
pub mod Filtered
use msr.Prelude.{
  ℕ, ◌+◌, String, Bool, Option, none, some, List, [], ◌∷◌, str_eq, ◌==◌, if◌then◌else◌, Result, ok,
  err, length, ℤ,
}
use msr.Fs.System.{kind_other}
use msr.Storage.{Error, io}
use msr.Value.Scalar.{ScalarType, bool, i8, u8, i16, u16, i32, u32, f32, i64, u64, f64}
use msr.Value.{ValueType, scalar, duration, string, bytes}
use msr.Register.Recorder.{SerdeRegisterValue, RegisterStorageRecord, map_some}

-- What the texts of fields are parsed as; an error of a value is its message.
pub record Parsers (F64 Stamp IntError TimeError : Type 0) : Type 0 where
  pub parse_offset : String → Result ℕ IntError
  pub parse_rfc3339 : String → Result Stamp TimeError
  pub parse_bool : String → Result Bool String
  pub parse_i64 : String → Result ℤ String
  pub parse_u64 : String → Result ℕ String
  pub parse_f64 : String → Result F64 String

-- `StorageRecordDeserializeError`; the message of a value that is not parsed is made from the error,
-- the index and the type of the register, and the field.
pub data DeserializeError (IntError TimeError : Type 0) : Type 0 where
  mismatching_number_of_fields : ℕ → ℕ → DeserializeError IntError TimeError
  parse_created_at_offset : IntError → DeserializeError IntError TimeError
  parse_observed_at : TimeError → DeserializeError IntError TimeError
  parse_register_value : String → ℕ → ValueType → String → DeserializeError IntError TimeError

-- `Result::map`
unfoldable pub map_ok : {A B E : Type 0} → (A → B) → Result A E → Result B E
map_ok f (ok a) = ok (f a)
map_ok f (err e) = err e

module _ {F64 Stamp IntError TimeError : Type 0}
    (parsers : Parsers F64 Stamp IntError TimeError) where
  -- `none` where it panics
  unfoldable pub parse_scalar :
      ScalarType → String → Option (Result (SerdeRegisterValue F64) String)
  unfolding map_ok
  parse_scalar bool field = some (map_ok SerdeRegisterValue.bool (parsers.parse_bool field))
  parse_scalar i16 field = some (map_ok SerdeRegisterValue.i64 (parsers.parse_i64 field))
  parse_scalar u16 field = some (map_ok SerdeRegisterValue.u64 (parsers.parse_u64 field))
  parse_scalar i32 field = some (map_ok SerdeRegisterValue.i64 (parsers.parse_i64 field))
  parse_scalar u32 field = some (map_ok SerdeRegisterValue.u64 (parsers.parse_u64 field))
  parse_scalar f32 field = some (map_ok SerdeRegisterValue.f64 (parsers.parse_f64 field))
  parse_scalar i64 field = some (map_ok SerdeRegisterValue.i64 (parsers.parse_i64 field))
  parse_scalar u64 field = some (map_ok SerdeRegisterValue.u64 (parsers.parse_u64 field))
  parse_scalar f64 field = some (map_ok SerdeRegisterValue.f64 (parsers.parse_f64 field))
  parse_scalar i8 field = none
  parse_scalar u8 field = none

  unfoldable pub parse_field : ValueType → String → Option (Result (SerdeRegisterValue F64) String)
  unfolding parse_scalar
  parse_field (scalar t) field = parse_scalar t field
  parse_field string field = some (ok (SerdeRegisterValue.string field))
  parse_field duration field = none
  parse_field bytes field = none

  unfoldable pub value_parsed :
      ℕ
      → ValueType
      → String
      → Result (SerdeRegisterValue F64) String
      → Result (Option (SerdeRegisterValue F64)) (DeserializeError IntError TimeError)
  value_parsed index t field (ok val) = ok (some val)
  value_parsed index t field (err e) = err (parse_register_value e index t field)

  -- The body of the loop
  unfoldable pub read_field :
      ℕ × ValueType
      → String
      → Option (Result (Option (SerdeRegisterValue F64)) (DeserializeError IntError TimeError))
  unfolding parse_field value_parsed map_some
  read_field (index, t) field =
      if str_eq field ""
      then some (ok none)
      else map_some (value_parsed index t field) (parse_field t field)

  unfoldable pub then_values :
      Option (Result (List (Option (SerdeRegisterValue F64))) (DeserializeError IntError TimeError))
      → Option (Result (Option (SerdeRegisterValue F64)) (DeserializeError IntError TimeError))
      → Option
          (Result (List (Option (SerdeRegisterValue F64))) (DeserializeError IntError TimeError))
  unfolding map_some map_ok
  then_values rest none = none
  then_values rest (some (err e)) = some (err e)
  then_values rest (some (ok v)) = map_some (map_ok (λ vs. v ∷ vs)) rest

  -- The loop over the fields and the registers, up to the end of the shorter ones
  unfoldable pub read_fields :
      List String
      → List (ℕ × ValueType)
      → Option
          (Result (List (Option (SerdeRegisterValue F64))) (DeserializeError IntError TimeError))
  unfolding read_field then_values
  read_fields [] registers = some (ok [])
  read_fields (field ∷ fields) [] = some (ok [])
  read_fields (field ∷ fields) (register ∷ registers) =
      then_values (read_fields fields registers) (read_field register field)

  unfoldable pub observed_at_read :
      List (ℕ × ValueType)
      → ℕ
      → List String
      → Result Stamp TimeError
      → Option (Result (RegisterStorageRecord Stamp F64) (DeserializeError IntError TimeError))
  unfolding read_fields map_some map_ok
  observed_at_read registers offset fields (err e) = some (err (parse_observed_at e))
  observed_at_read registers offset fields (ok stamp) =
      map_some
        (map_ok (λ values. record {
          created_at_offset_ns = offset;
          observed_at = stamp;
          register_values = values;
        }))
        (read_fields fields registers)

  -- `unwrap` panics if there is no second field.
  unfoldable pub offset_read :
      List (ℕ × ValueType)
      → List String
      → Result ℕ IntError
      → Option (Result (RegisterStorageRecord Stamp F64) (DeserializeError IntError TimeError))
  unfolding observed_at_read
  offset_read registers fields (err e) = some (err (parse_created_at_offset e))
  offset_read registers [] (ok offset) = none
  offset_read registers (field ∷ fields) (ok offset) =
      observed_at_read registers offset fields (parsers.parse_rfc3339 field)

  unfoldable pub columns_read :
      List (ℕ × ValueType)
      → List String
      → Option (Result (RegisterStorageRecord Stamp F64) (DeserializeError IntError TimeError))
  unfolding offset_read
  columns_read registers [] = none
  columns_read registers (field ∷ fields) =
      offset_read registers fields (parsers.parse_offset field)

  unfoldable pub read_record :
      List (ℕ × ValueType)
      → List String
      → Option (Result (RegisterStorageRecord Stamp F64) (DeserializeError IntError TimeError))
  unfolding columns_read
  read_record registers fields =
      if length fields == 2 + length registers
      then columns_read registers fields
      else some (err (mismatching_number_of_fields (2 + length registers) (length fields)))

-- Each error is wrapped as an `io::Error` of the kind `Other`.
unfoldable pub as_io_error :
    {A IntError TimeError : Type 0}
    → Result A (DeserializeError IntError TimeError)
    → Result A Error
as_io_error (ok a) = ok a
as_io_error (err e) = err (io (record { kind = kind_other; raw_os_error = none }))

unfoldable pub deserialize_string_record :
    {F64 Stamp IntError TimeError : Type 0} (parsers : Parsers F64 Stamp IntError TimeError)
    → List (ℕ × ValueType)
    → List String
    → Option (Result (RegisterStorageRecord Stamp F64) Error)
unfolding read_record as_io_error map_some
deserialize_string_record parsers registers fields =
    map_some as_io_error (read_record parsers registers fields)
