-- ===== src/Tests/Registers.antt =====
-- Values and register records of crates/msr-core/src/register on concrete inputs.
use msr.Prelude.{
  ℕ, zero, suc, ◌-◌, ◌<◌, String, ◌≡◌, refl, ap, inl, inr, Bool, true, false, Option, none, some,
  List, [], ◌∷◌, ◌++◌, arith, str_eq, eq_iff, ◌==◌, if◌then◌else◌, Bool-cases, Result, ok, err,
  length, ℤ, pos, negsuc,
}
use Prim.Native.Char.{Char, code}
use Prim.Native.String.{char_at}
use msr.Fs.Csv.{CsvWriter}
use msr.Value.Scalar.{ScalarType, ScalarValue}
use msr.Value.Scalar.Casts.{to_i8, to_u8, to_i16, to_u16, to_i32, to_u32, to_i64, to_u64}
use msr.Value.Scalar.Conversions.{IsLossless, natural, conversions-AreLossless}
use msr.Value.{ValueType, Value, to_value_type}
use msr.Register.Recorder.{
  SerdeRegisterValue, RegisterRecord, RegisterStorageRecord, serde_from_value, storage_record_from,
}
use msr.Register.Recorder.Csv.{Parsers, deserialize_string_record}
use msr.Register.Recorder.Types.{IsReadable, IsRead}
use msr.Register.Recorder.Types.Reading.{deserialize-IsRead}
use msr.Register.Recorder.Csv.RoundTrip.{Texts, TextLaws, IsPrintable, fields_of}
use msr.Register.Recorder.Csv.Recorded.{AreMatching, record_round_trip}
use msr.Register.Recorder.Csv.Storage.{
  RegisterFileStorage, recorder_try_new, recorder_append_record,
}
use msr.Register.Recorder.Csv.Checks.{row_appended, AppendsChecked, append_record-AppendsChecked}
use msr.Storage.Csv.Files.{Disk}
use msr.Tests.Records.{storage_config_example}
use msr.Tests.Rolling.{show_example, push_example, creates_example}

-- A number is written as one mark more than it has units, an integer with its sign in front.
abbrev mark : Char
mark = char_at "1" 0

abbrev plus : Char
plus = char_at "+" 0

abbrev minus : Char
minus = char_at "-" 0

abbrev tally : ℕ → String
tally zero = String.◌∷◌ mark String.[]
tally (suc n) = String.◌∷◌ mark (tally n)

abbrev marks : String → ℕ
marks String.[] = 0
marks (String.◌∷◌ c s) = suc (marks s)

abbrev parse_tally : String → Result ℕ String
parse_tally s = ok (marks s - 1)

abbrev signed : ℤ → String
signed (pos n) = String.◌∷◌ plus (tally n)
signed (negsuc n) = String.◌∷◌ minus (tally n)

abbrev parse_signed : String → Result ℤ String
parse_signed String.[] = err "empty"
parse_signed (String.◌∷◌ c s) =
    if code c == 45 then ok (negsuc (marks s - 1)) else ok (pos (marks s - 1))

abbrev parse_bool : String → Result Bool String
parse_bool s = if str_eq s "true" then ok true else ok false

abbrev show_bool : Bool → String
show_bool true = "true"
show_bool false = "false"

-- Floating-point numbers and time stamps are natural numbers here.
abbrev parsers_example : Parsers ℕ ℕ String String
parsers_example = record {
  parse_offset = parse_tally;
  parse_rfc3339 = parse_tally;
  parse_bool = parse_bool;
  parse_i64 = parse_signed;
  parse_u64 = parse_tally;
  parse_f64 = parse_tally;
}

abbrev texts_example : Texts ℕ ℕ
texts_example = record {
  show_stamp = tally;
  show_bool = show_bool;
  show_i64 = signed;
  show_u64 = tally;
  show_f64 = tally;
}

marks-tally : (n : ℕ) → marks (tally n) ≡ suc n
marks-tally zero = refl
marks-tally (suc n) = ap suc (marks-tally n)

tally_read : (n : ℕ) → parse_tally (tally n) ≡ ok n
tally_read n = ap ok (omega (arith, marks-tally n))

not_empty : (s : String) → 0 < marks s → str_eq s "" ≡ false
not_empty s h = elim (Bool-cases (str_eq s "")) [
  | inl e ↦ let no : marks s ≡ 0 = ap marks ((eq_iff s "").0 e) in absurd (omega (arith, no, h))
  | inr e ↦ e
]

tally_law : (n : ℕ) → (parse_tally (tally n) ≡ ok n) × (str_eq (tally n) "" ≡ false)
tally_law n = (tally_read n, not_empty (tally n) (omega (arith, marks-tally n)))

signed_law : (n : ℤ) → (parse_signed (signed n) ≡ ok n) × (str_eq (signed n) "" ≡ false)
signed_law (pos n) =
    (ap (λ k. ok (pos k)) (omega (arith, marks-tally n)), not_empty (signed (pos n)) (omega arith))
signed_law (negsuc n) = (
  ap (λ k. ok (negsuc k)) (omega (arith, marks-tally n)),
  not_empty (signed (negsuc n)) (omega arith),
)

bool_law : (b : Bool) → (parse_bool (show_bool b) ≡ ok b) × (str_eq (show_bool b) "" ≡ false)
bool_law true = (refl, refl)
bool_law false = (refl, refl)

laws_example : TextLaws parsers_example texts_example (λ x. Unit)
laws_example = record {
  offset_law = λ n h. tally_read n;
  stamp_law = tally_read;
  bool_law = bool_law;
  i64_law = λ n h. signed_law n;
  u64_law = λ n h. tally_law n;
  f64_law = λ x h. tally_law x;
}

abbrev registers_example : List (ℕ × ValueType)
registers_example =
    (1, ValueType.scalar ScalarType.i16)
    ∷ (2, ValueType.scalar ScalarType.bool)
    ∷ (3, ValueType.string)
    ∷ []

abbrev values_example : List (Option (Value ℕ ℕ))
values_example =
    some (Value.scalar (ScalarValue.i16 (negsuc 2))) ∷ none ∷ some (Value.string "on") ∷ []

abbrev record_example : RegisterRecord ℕ (Value ℕ ℕ)
record_example = record {
  created_at_offset = 3;
  observation = record { observed_at = 5; register_values = values_example };
}

abbrev stored_example : RegisterStorageRecord ℕ ℕ
stored_example = record {
  created_at_offset_ns = 3;
  observed_at = 5;
  register_values =
      some (SerdeRegisterValue.i64 (negsuc 2)) ∷ none ∷ some (SerdeRegisterValue.string "on") ∷ [];
}

record_round_trip_example :
    deserialize_string_record parsers_example registers_example
      ("1111" ∷ "111111" ∷ "-111" ∷ "" ∷ "on" ∷ [])
    ≡ some (ok stored_example)
unfolding fields_of IsReadable AreMatching storage_record_from serde_from_value IsPrintable
record_round_trip_example =
    record_round_trip parsers_example texts_example (λ x. Unit) laws_example
      (fields_of texts_example) (λ r. refl) (λ x. x) registers_example record_example stored_example
      (tt, (tt, (tt, tt))) (refl, (refl, tt)) refl ((refl, refl), (tt, (refl, tt))) (omega arith)

deserialize-IsRead_example : IsRead registers_example (
    deserialize_string_record parsers_example registers_example
      ("1111" ∷ "111111" ∷ "-111" ∷ "" ∷ "on" ∷ []))
deserialize-IsRead_example =
    deserialize-IsRead parsers_example registers_example
      ("1111" ∷ "111111" ∷ "-111" ∷ "" ∷ "on" ∷ [])

abbrev word_example : ScalarValue ℕ ℕ
word_example = ScalarValue.u16 300

conversions-AreLossless_example :
    IsLossless ScalarType.i8 (to_i8 word_example) word_example
    × IsLossless ScalarType.u8 (natural (to_u8 word_example)) word_example
    × IsLossless ScalarType.i16 (to_i16 word_example) word_example
    × IsLossless ScalarType.u16 (natural (to_u16 word_example)) word_example
    × IsLossless ScalarType.i32 (to_i32 word_example) word_example
    × IsLossless ScalarType.u32 (natural (to_u32 word_example)) word_example
    × IsLossless ScalarType.i64 (to_i64 word_example) word_example
    × IsLossless ScalarType.u64 (natural (to_u64 word_example)) word_example
conversions-AreLossless_example = conversions-AreLossless word_example

-- Rows with their header, which is written by the recorder.
abbrev register_rows : CsvWriter (List String) (List String) (RegisterStorageRecord ℕ ℕ)
register_rows = record {
  from_writer = λ has_headers. [];
  write_record = λ row rows. (rows ++ row, ok tt);
  serialize = λ r rows. (rows ++ fields_of texts_example r, ok tt);
  flush = λ rows. (rows, ok tt);
  bytes_written = λ rows. length rows;
}

abbrev recorder_example : RegisterFileStorage (List String)
recorder_example =
    recorder_try_new tally storage_config_example (47 ∷ []) (65 ∷ []) registers_example

abbrev empty_disk : Disk (List String)
empty_disk = record {
  files = ok [];
  rows = λ path. ok [];
  remove_file = λ path. ok tt;
  removed = [];
}

-- The second value is no Boolean.
abbrev mismatch_example : RegisterRecord ℕ (Value ℕ ℕ)
mismatch_example = record {
  created_at_offset = 0;
  observation = record {
    observed_at = 5;
    register_values = none ∷ some (Value.string "on") ∷ none ∷ [];
  };
}

abbrev type_of : Value ℕ ℕ → ValueType
type_of v = to_value_type v

append_record-AppendsChecked_example :
    AppendsChecked type_of
      (record { system_time = 9; instant = 9 })
      (storage_record_from (serde_from_value (λ x. x)) mismatch_example)
      (row_appended register_rows show_example push_example creates_example 1000 0 9
        (record { system_time = 9; instant = 9 })
        recorder_example
        empty_disk
        type_of)
      recorder_example
      empty_disk
      (none ∷ some (Value.string "on") ∷ none ∷ [])
      (recorder_append_record register_rows show_example push_example creates_example 1000 0 9
        (record { system_time = 9; instant = 9 })
        recorder_example
        empty_disk
        type_of
        (serde_from_value (λ x. x))
        mismatch_example)
append_record-AppendsChecked_example =
    append_record-AppendsChecked register_rows show_example push_example creates_example 1000 0 9
      (record { system_time = 9; instant = 9 }) recorder_example empty_disk type_of
      (serde_from_value (λ x. x)) mismatch_example
