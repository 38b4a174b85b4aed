-- ===== src/Register/Recorder/Csv/RoundTrip.antt =====
-- What crates/msr-core/src/register/recorder writes as a CSV row, it reads back. The serializer of
-- the crate csv and the parsers are parameters; their laws are those of the standard library's
-- printing and parsing.
use mathlib.Core.Path.{subst}
use msr.Prelude.{
  ℕ, ◌+◌, ◌^◌, ◌<◌, String, ◌≡◌, refl, ap, ◌∙◌, Bool, true, false, Option, none, some, List, [],
  ◌∷◌, map, arith, str_eq, ◌==◌, ==_iff, ok, length, All, ℤ,
}
use msr.Value.Scalar.{bool, i8, u8, i16, u16, i32, u32, f32, i64, u64, f64}
use msr.Value.Scalar.Conversions.{bounds, InBounds}
use msr.Value.{ValueType, scalar, duration, string, bytes}
use msr.Register.Recorder.{SerdeRegisterValue, RegisterStorageRecord, map_some}
use msr.Register.Recorder.Csv.{
  Parsers, map_ok, parse_scalar, parse_field, value_parsed, read_field, then_values, read_fields,
  observed_at_read, offset_read, columns_read, read_record, as_io_error, deserialize_string_record,
}
use msr.Register.Recorder.Types.{
  recorded_type, stored_type, IsReadable, HasType, AreTyped, AreReadable,
}

-- The texts of values
pub record Texts (F64 Stamp : Type 0) : Type 0 where
  pub show_stamp : Stamp → String
  pub show_bool : Bool → String
  pub show_i64 : ℤ → String
  pub show_u64 : ℕ → String
  pub show_f64 : F64 → String

module _ {F64 Stamp : Type 0} (texts : Texts F64 Stamp) where
  unfoldable pub show_value : SerdeRegisterValue F64 → String
  show_value (SerdeRegisterValue.bool val) = texts.show_bool val
  show_value (SerdeRegisterValue.i64 val) = texts.show_i64 val
  show_value (SerdeRegisterValue.u64 val) = texts.show_u64 val
  show_value (SerdeRegisterValue.f64 val) = texts.show_f64 val
  show_value (SerdeRegisterValue.string val) = val

  unfoldable pub show_field : Option (SerdeRegisterValue F64) → String
  unfolding show_value
  show_field none = ""
  show_field (some v) = show_value v

  -- The fields of a record: a missing value is an empty field.
  unfoldable pub fields_of : RegisterStorageRecord Stamp F64 → List String
  unfolding show_field
  fields_of r =
      texts.show_u64 r.created_at_offset_ns
      ∷ texts.show_stamp r.observed_at
      ∷ map show_field r.register_values

-- Printing and parsing: numbers within their bounds, floating-point numbers that are numbers.
pub record TextLaws {F64 Stamp IntError TimeError : Type 0}
    (parsers : Parsers F64 Stamp IntError TimeError) (texts : Texts F64 Stamp)
    (IsNumber : F64 → Type 0) : Type 0 where
  pub offset_law : (n : ℕ) → n < 2 ^ 64 → parsers.parse_offset (texts.show_u64 n) ≡ ok n
  pub stamp_law : (s : Stamp) → parsers.parse_rfc3339 (texts.show_stamp s) ≡ ok s
  pub bool_law :
      (b : Bool)
      → (parsers.parse_bool (texts.show_bool b) ≡ ok b) × (str_eq (texts.show_bool b) "" ≡ false)
  pub i64_law :
      (n : ℤ)
      → InBounds (bounds i64) (some n)
      → (parsers.parse_i64 (texts.show_i64 n) ≡ ok n) × (str_eq (texts.show_i64 n) "" ≡ false)
  pub u64_law :
      (n : ℕ)
      → n < 2 ^ 64
      → (parsers.parse_u64 (texts.show_u64 n) ≡ ok n) × (str_eq (texts.show_u64 n) "" ≡ false)
  pub f64_law :
      (x : F64)
      → IsNumber x
      → (parsers.parse_f64 (texts.show_f64 x) ≡ ok x) × (str_eq (texts.show_f64 x) "" ≡ false)

-- The values that are read back: an empty text is read as no value.
unfoldable pub IsPrintable :
    {F64 : Type 0} (IsNumber : F64 → Type 0) → Option (SerdeRegisterValue F64) → Type 0
unfolding InBounds bounds
IsPrintable IsNumber none = Unit
IsPrintable IsNumber (some (SerdeRegisterValue.bool _)) = Unit
IsPrintable IsNumber (some (SerdeRegisterValue.i64 n)) = InBounds (bounds i64) (some n)
IsPrintable IsNumber (some (SerdeRegisterValue.u64 n)) = n < 2 ^ 64
IsPrintable IsNumber (some (SerdeRegisterValue.f64 x)) = IsNumber x
IsPrintable IsNumber (some (SerdeRegisterValue.string s)) = str_eq s "" ≡ false

module _ {F64 Stamp IntError TimeError : Type 0} (parsers : Parsers F64 Stamp IntError TimeError)
    (texts : Texts F64 Stamp) (IsNumber : F64 → Type 0)
    (laws : TextLaws parsers texts IsNumber) where
  field_read_back :
      (index : ℕ) (t : ValueType) (v : SerdeRegisterValue F64)
      → str_eq (show_value texts v) "" ≡ false
      → parse_field parsers t (show_value texts v) ≡ some (ok v)
      → read_field parsers (index, t) (show_value texts v) ≡ some (ok (some v))
  unfolding read_field value_parsed map_some
  field_read_back index t v e p =
      rw e (ap (map_some (value_parsed parsers index t (show_value texts v))) p)

  -- Fields of a register are parsed as those of a register of the type that is recorded.
  StoredParsed : ValueType → Option ValueType → String → Type 0
  StoredParsed t none field = Unit
  StoredParsed t (some u) field = parse_field parsers t field ≡ parse_field parsers u field

  parse_field-stored :
      (t : ValueType) → IsReadable t → (field : String) → StoredParsed t (stored_type t) field
  unfolding IsReadable stored_type parse_field StoredParsed
  parse_field-stored (scalar bool) h field = refl
  parse_field-stored (scalar i8) h field = absurd h
  parse_field-stored (scalar u8) h field = absurd h
  parse_field-stored (scalar i16) h field = refl
  parse_field-stored (scalar u16) h field = refl
  parse_field-stored (scalar i32) h field = refl
  parse_field-stored (scalar u32) h field = refl
  parse_field-stored (scalar f32) h field = refl
  parse_field-stored (scalar i64) h field = refl
  parse_field-stored (scalar u64) h field = refl
  parse_field-stored (scalar f64) h field = refl
  parse_field-stored string h field = refl
  parse_field-stored duration h field = absurd h
  parse_field-stored bytes h field = absurd h

  parse_recorded :
      (t : ValueType) (v : SerdeRegisterValue F64)
      → IsReadable t
      → HasType t (some v)
      → (field : String) → parse_field parsers t field ≡ parse_field parsers (recorded_type v) field
  unfolding HasType StoredParsed
  parse_recorded t v readable h field =
      subst (λ o. StoredParsed t o field) h (parse_field-stored t readable field)

  -- The text of a value is parsed as it, and is not empty.
  shown_parsed :
      (v : SerdeRegisterValue F64)
      → IsPrintable IsNumber (some v)
      → (parse_field parsers (recorded_type v) (show_value texts v) ≡ some (ok v))
        × (str_eq (show_value texts v) "" ≡ false)
  unfolding recorded_type IsPrintable show_value parse_field parse_scalar map_ok
  shown_parsed (SerdeRegisterValue.bool b) p =
      let (l, e) = laws.bool_law b in (ap (λ r. some (map_ok SerdeRegisterValue.bool r)) l, e)
  shown_parsed (SerdeRegisterValue.i64 n) p =
      let (l, e) = laws.i64_law n p in (ap (λ r. some (map_ok SerdeRegisterValue.i64 r)) l, e)
  shown_parsed (SerdeRegisterValue.u64 n) p =
      let (l, e) = laws.u64_law n p in (ap (λ r. some (map_ok SerdeRegisterValue.u64 r)) l, e)
  shown_parsed (SerdeRegisterValue.f64 x) p =
      let (l, e) = laws.f64_law x p in (ap (λ r. some (map_ok SerdeRegisterValue.f64 r)) l, e)
  shown_parsed (SerdeRegisterValue.string s) p = (refl, p)

  value_read_back :
      (index : ℕ) (t : ValueType) (v : Option (SerdeRegisterValue F64))
      → IsReadable t
      → HasType t v
      → IsPrintable IsNumber v
      → read_field parsers (index, t) (show_field texts v) ≡ some (ok v)
  unfolding show_field read_field
  value_read_back index t none readable h p = refl
  value_read_back index t (some v) readable h p =
      let (l, e) = shown_parsed v p in
      field_read_back index t v e (parse_recorded t v readable h (show_value texts v) ∙ l)

  values_read_back :
      (registers : List (ℕ × ValueType)) (vs : List (Option (SerdeRegisterValue F64)))
      → AreReadable registers
      → AreTyped registers vs
      → All (IsPrintable IsNumber) vs
      → read_fields parsers (map (show_field texts) vs) registers ≡ some (ok vs)
  unfolding AreTyped read_fields then_values map_some map_ok
  values_read_back [] [] readable h p = refl
  values_read_back [] (v ∷ vs) readable h p = absurd h
  values_read_back (register ∷ registers) [] readable h p = absurd h
  values_read_back ((index, t) ∷ registers) (v ∷ vs) readable h p =
      rw (value_read_back index t v readable.0 h.0 p.0)
        (ap (map_some (map_ok (λ ws. v ∷ ws))) (values_read_back registers vs readable.1 h.1 p.1))

  length-AreTyped :
      (registers : List (ℕ × ValueType)) (vs : List (Option (SerdeRegisterValue F64)))
      → AreTyped registers vs
      → length (map (show_field texts) vs) ≡ length registers
  unfolding AreTyped
  length-AreTyped [] [] h = refl
  length-AreTyped [] (v ∷ vs) h = absurd h
  length-AreTyped (register ∷ registers) [] h = absurd h
  length-AreTyped ((index, t) ∷ registers) (v ∷ vs) h =
      omega (arith, length-AreTyped registers vs h.1)

  pub record_read_back :
      (registers : List (ℕ × ValueType)) (r : RegisterStorageRecord Stamp F64)
      → AreReadable registers
      → AreTyped registers r.register_values
      → All (IsPrintable IsNumber) r.register_values
      → r.created_at_offset_ns < 2 ^ 64
      → deserialize_string_record parsers registers (fields_of texts r) ≡ some (ok r)
  unfolding deserialize_string_record read_record columns_read offset_read observed_at_read
      fields_of map_some map_ok as_io_error
  record_read_back registers r readable h p bound =
      let n : (length (fields_of texts r) == 2 + length registers) ≡ true =
        (==_iff _ _).1 (omega (arith, length-AreTyped registers r.register_values h)) in
      rw n (
        rw (laws.offset_law r.created_at_offset_ns bound) (
          rw (laws.stamp_law r.observed_at)
            (rw (values_read_back registers r.register_values readable h p) refl)))
