-- ===== src/Register/Recorder/Types/Reading.antt =====
-- The types of what is read from the fields of a row: crates/msr-core/src/register/recorder/csv.rs.
use msr.Prelude.{
  ℕ, suc, ◌+◌, String, ◌≡◌, refl, inl, inr, Option, none, some, List, [], ◌∷◌, arith, str_eq, ◌==◌,
  ==_iff, Bool-cases, Result, ok, err, length,
}
use msr.Value.Scalar.{ScalarType, bool, i8, u8, i16, u16, i32, u32, f32, i64, u64, f64}
use msr.Value.{ValueType, scalar, duration, string, bytes}
use msr.Register.Recorder.{SerdeRegisterValue, map_some}
use msr.Register.Recorder.Csv.{
  Parsers, DeserializeError, map_ok, parse_scalar, parse_field, value_parsed, read_field,
  then_values, read_fields, observed_at_read, offset_read, columns_read, read_record, as_io_error,
  deserialize_string_record,
}
use msr.Register.Recorder.Types.{
  recorded_type, stored_type, IsReadable, HasType, AreTyped, AreReadable, IsRead,
}

module _ {F64 : Type 0} where
  -- A field that is read has the type; if reading it panics, the type is not readable.
  IsFieldRead :
      {E : Type 0} → ValueType → Option (Result (Option (SerdeRegisterValue F64)) E) → Type 0
  unfolding HasType IsReadable
  IsFieldRead t none = IsReadable t → ⊥
  IsFieldRead t (some (err e)) = Unit
  IsFieldRead t (some (ok v)) = HasType t v

  AreFieldsRead :
      {E : Type 0}
      → List (ℕ × ValueType)
      → Option (Result (List (Option (SerdeRegisterValue F64))) E)
      → Type 0
  unfolding AreTyped
  AreFieldsRead registers none = AreReadable registers → ⊥
  AreFieldsRead registers (some (err e)) = Unit
  AreFieldsRead registers (some (ok vs)) = AreTyped registers vs

module _ {F64 Stamp IntError TimeError : Type 0}
    (parsers : Parsers F64 Stamp IntError TimeError) where
  parsed-IsFieldRead :
      {A : Type 0} (index : ℕ) (t : ValueType) (field : String) (f : A → SerdeRegisterValue F64)
      → ((a : A) → stored_type t ≡ some (recorded_type (f a)))
      → (res : Result A String)
      → IsFieldRead t (some (value_parsed parsers index t field (map_ok f res)))
  unfolding IsFieldRead value_parsed map_ok HasType
  parsed-IsFieldRead index t field f h (ok a) = h a
  parsed-IsFieldRead index t field f h (err e) = tt

  scalar-IsFieldRead :
      (index : ℕ) (t : ScalarType) (field : String)
      → IsFieldRead
          (scalar t)
          (map_some (value_parsed parsers index (scalar t) field) (parse_scalar parsers t field))
  unfolding IsFieldRead parse_scalar map_some stored_type recorded_type
  scalar-IsFieldRead index bool field =
      parsed-IsFieldRead index (scalar bool) field _ (λ a. refl) (parsers.parse_bool field)
  scalar-IsFieldRead index i8 field = λ h. h
  scalar-IsFieldRead index u8 field = λ h. h
  scalar-IsFieldRead index i16 field =
      parsed-IsFieldRead index (scalar i16) field _ (λ a. refl) (parsers.parse_i64 field)
  scalar-IsFieldRead index u16 field =
      parsed-IsFieldRead index (scalar u16) field _ (λ a. refl) (parsers.parse_u64 field)
  scalar-IsFieldRead index i32 field =
      parsed-IsFieldRead index (scalar i32) field _ (λ a. refl) (parsers.parse_i64 field)
  scalar-IsFieldRead index u32 field =
      parsed-IsFieldRead index (scalar u32) field _ (λ a. refl) (parsers.parse_u64 field)
  scalar-IsFieldRead index f32 field =
      parsed-IsFieldRead index (scalar f32) field _ (λ a. refl) (parsers.parse_f64 field)
  scalar-IsFieldRead index i64 field =
      parsed-IsFieldRead index (scalar i64) field _ (λ a. refl) (parsers.parse_i64 field)
  scalar-IsFieldRead index u64 field =
      parsed-IsFieldRead index (scalar u64) field _ (λ a. refl) (parsers.parse_u64 field)
  scalar-IsFieldRead index f64 field =
      parsed-IsFieldRead index (scalar f64) field _ (λ a. refl) (parsers.parse_f64 field)

  field-IsFieldRead :
      (index : ℕ) (t : ValueType) (field : String)
      → IsFieldRead t (map_some (value_parsed parsers index t field) (parse_field parsers t field))
  unfolding IsFieldRead parse_field value_parsed map_some HasType
  field-IsFieldRead index (scalar t) field = scalar-IsFieldRead index t field
  field-IsFieldRead index string field = refl
  field-IsFieldRead index duration field = λ h. h
  field-IsFieldRead index bytes field = λ h. h

  read_field-IsFieldRead :
      (index : ℕ) (t : ValueType) (field : String)
      → IsFieldRead t (read_field parsers (index, t) field)
  unfolding read_field IsFieldRead
  read_field-IsFieldRead index t field = elim (Bool-cases (str_eq field "")) [
    | inl e ↦ rw e tt
    | inr e ↦ rw e (field-IsFieldRead index t field)
  ]

  then_values-AreFieldsRead :
      (index : ℕ) (t : ValueType) (registers : List (ℕ × ValueType))
      (rest : Option
        (Result (List (Option (SerdeRegisterValue F64))) (DeserializeError IntError TimeError)))
      (v : Option (Result (Option (SerdeRegisterValue F64)) (DeserializeError IntError TimeError)))
      → AreFieldsRead registers rest
      → IsFieldRead t v
      → AreFieldsRead ((index, t) ∷ registers) (then_values parsers rest v)
  unfolding then_values AreFieldsRead IsFieldRead map_some map_ok AreTyped
  then_values-AreFieldsRead index t registers rest none hs h = λ all. h all.0
  then_values-AreFieldsRead index t registers rest (some (err e)) hs h = tt
  then_values-AreFieldsRead index t registers none (some (ok v)) hs h = λ all. hs all.1
  then_values-AreFieldsRead index t registers (some (err e)) (some (ok v)) hs h = tt
  then_values-AreFieldsRead index t registers (some (ok vs)) (some (ok v)) hs h = (h, hs)

  read_fields-AreFieldsRead :
      (fields : List String) (registers : List (ℕ × ValueType))
      → length fields ≡ length registers
      → AreFieldsRead registers (read_fields parsers fields registers)
  unfolding read_fields AreFieldsRead AreTyped
  read_fields-AreFieldsRead [] [] e = tt
  read_fields-AreFieldsRead [] (register ∷ registers) e = absurd (omega (arith, e))
  read_fields-AreFieldsRead (field ∷ fields) [] e = absurd (omega (arith, e))
  read_fields-AreFieldsRead (field ∷ fields) ((index, t) ∷ registers) e =
      then_values-AreFieldsRead index t registers (read_fields parsers fields registers)
        (read_field parsers (index, t) field)
        (read_fields-AreFieldsRead fields registers (omega (arith, e)))
        (read_field-IsFieldRead index t field)

  record-IsRead :
      (registers : List (ℕ × ValueType)) (offset : ℕ) (stamp : Stamp)
      (vs : Option
        (Result (List (Option (SerdeRegisterValue F64))) (DeserializeError IntError TimeError)))
      → AreFieldsRead registers vs
      → IsRead registers (
          map_some as_io_error (
            map_some
              (map_ok (λ values. record {
                created_at_offset_ns = offset;
                observed_at = stamp;
                register_values = values;
              }))
              vs))
  unfolding IsRead AreFieldsRead map_some map_ok as_io_error
  record-IsRead registers offset stamp none h = h
  record-IsRead registers offset stamp (some (err e)) h = refl
  record-IsRead registers offset stamp (some (ok vs)) h = h

  observed_at-IsRead :
      (registers : List (ℕ × ValueType)) (offset : ℕ) (fields : List String)
      (stamp : Result Stamp TimeError)
      → length fields ≡ length registers
      → IsRead registers
          (map_some as_io_error (observed_at_read parsers registers offset fields stamp))
  unfolding observed_at_read IsRead as_io_error
  observed_at-IsRead registers offset fields (err e) h = refl
  observed_at-IsRead registers offset fields (ok stamp) h =
      record-IsRead registers offset stamp (read_fields parsers fields registers)
        (read_fields-AreFieldsRead fields registers h)

  offset-IsRead :
      (registers : List (ℕ × ValueType)) (fields : List String) (offset : Result ℕ IntError)
      → length fields ≡ suc (length registers)
      → IsRead registers (map_some as_io_error (offset_read parsers registers fields offset))
  unfolding offset_read IsRead as_io_error
  offset-IsRead registers fields (err e) h = refl
  offset-IsRead registers [] (ok offset) h = absurd (omega (arith, h))
  offset-IsRead registers (field ∷ fields) (ok offset) h =
      observed_at-IsRead registers offset fields (parsers.parse_rfc3339 field) (omega (arith, h))

  columns-IsRead :
      (registers : List (ℕ × ValueType)) (fields : List String)
      → length fields ≡ 2 + length registers
      → IsRead registers (map_some as_io_error (columns_read parsers registers fields))
  unfolding columns_read IsRead
  columns-IsRead registers [] h = absurd (omega (arith, h))
  columns-IsRead registers (field ∷ fields) h =
      offset-IsRead registers fields (parsers.parse_offset field) (omega (arith, h))

  -- A row that is read has a value, or none, for each register, of the type in which values of the
  -- register are recorded; each error is an I/O error of the kind `Other`; and reading panics only if
  -- some register has a type that is not readable.
  pub deserialize-IsRead :
      (registers : List (ℕ × ValueType)) (fields : List String)
      → IsRead registers (deserialize_string_record parsers registers fields)
  unfolding deserialize_string_record read_record IsRead as_io_error
  deserialize-IsRead registers fields = elim (Bool-cases (length fields == 2 + length registers)) [
    | inl e ↦
        rw e (columns-IsRead registers fields ((==_iff (length fields) (2 + length registers)).0 e))
    | inr e ↦ rw e refl
  ]
