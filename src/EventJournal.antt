-- ===== src/EventJournal.antt =====
-- Journal entries and how they are stored: crates/msr-core/src/event_journal/mod.rs. Time stamps are
-- of any type; errors of the text form of binary data are those of Storage/Binary.
pub mod Restore
pub mod Csv
use msr.Prelude.{
  ◌>>=◌, ℕ, String, Bool, ◌||◌, Option, none, some, List, ◌==◌, if◌then◌else◌, Result, ok, err, ℤ,
}
use msr.Storage.{BinaryDataFormat, system_time_from_origin}
use msr.Storage.Binary.{encode_binary_data_into_string, decode_binary_data_from_string}

pub data Severity : Type 0 where
  diagnostic_verbose diagnostic information_verbose information warning warning_unexpected error
        error_critical :
      Severity

-- SeverityValues
unfoldable pub severity_value : Severity → ℕ
severity_value diagnostic_verbose = 1
severity_value diagnostic = 2
severity_value information_verbose = 3
severity_value information = 4
severity_value warning = 5
severity_value warning_unexpected = 6
severity_value error = 7
severity_value error_critical = 8

-- The derived equality
unfoldable pub severity_eq : Severity → Severity → Bool
unfolding severity_value
severity_eq a b = severity_value a == severity_value b

unfoldable pub is_diagnostic : Severity → Bool
unfolding severity_eq
is_diagnostic s = severity_eq s diagnostic || severity_eq s information_verbose

unfoldable pub is_information : Severity → Bool
unfolding severity_eq
is_information s = severity_eq s information || severity_eq s information_verbose

unfoldable pub is_warning : Severity → Bool
unfolding severity_eq
is_warning s = severity_eq s warning || severity_eq s warning_unexpected

unfoldable pub is_error : Severity → Bool
unfolding severity_eq
is_error s = severity_eq s error || severity_eq s error_critical

-- `TryFromSeverityValueError`, whose only constructor is `InvalidValue`
pub record InvalidValue : Type 0 where
  pub invalid : ℕ

-- `TryFrom<SeverityValue> for Severity`
unfoldable pub severity_from_value : ℕ → Result Severity InvalidValue
severity_from_value v =
    if v == 1
    then ok diagnostic_verbose
    else if v == 2
    then ok diagnostic
    else if v == 3
    then ok information_verbose
    else if v == 4
    then ok information
    else if v == 5
    then ok warning
    else if v == 6
    then ok warning_unexpected
    else if v == 7
    then ok error
    else if v == 8
    then ok error_critical
    else err (record { invalid = v })

pub record Entry (Stamp : Type 0) : Type 0 where
  pub occurred_at : Stamp
  pub severity : Severity
  pub scope : String
  pub code : ℤ
  pub text : Option String
  pub data_ : Option (List ℕ)

-- `Record`, with the fields of its prelude
pub record JournalRecord (Stamp : Type 0) : Type 0 where
  pub id : String
  pub created_at_offset : ℕ
  pub entry : Entry Stamp

pub record StorageRecord (Stamp Text : Type 0) : Type 0 where
  pub created_at_offset_ns : ℕ
  pub occurred_at : Stamp
  pub severity : ℕ
  pub scope : String
  pub code : ℤ
  pub id : String
  pub text : Option String
  pub data_ : Option Text

-- `StoredRecord`, with the fields of its prelude
pub record StoredRecord (Stamp : Type 0) : Type 0 where
  pub id : String
  pub created_at : ℕ
  pub entry : Entry Stamp

-- What may fail as a record is restored.
pub data RestoreError (E : Type 0) : Type 0 where
  decoding : E → RestoreError E
  invalid_severity : InvalidValue → RestoreError E

module _ {Text E : Type 0} (base64_encode : List ℕ → Text)
    (base64_decode : Text → Result (List ℕ) E) (from_utf8 : List ℕ → Result Text E)
    (into_bytes : Text → List ℕ) where
  -- `data.map(..).transpose()`
  unfoldable pub encoded : Option (List ℕ) → BinaryDataFormat → Result (Option Text) E
  unfolding encode_binary_data_into_string
  encoded none format = ok none
  encoded (some input) format = do
    text ←
        encode_binary_data_into_string base64_encode base64_decode from_utf8 into_bytes input format
    ok (some text)

  unfoldable pub decoded : Option Text → BinaryDataFormat → Result (Option (List ℕ)) E
  unfolding decode_binary_data_from_string
  decoded none format = ok none
  decoded (some text) format = do
    output ←
        decode_binary_data_from_string base64_encode base64_decode from_utf8 into_bytes text format
    ok (some output)

  unfoldable pub with_stored_data :
      {Stamp : Type 0}
      → JournalRecord Stamp
      → Result (Option Text) E
      → Result (StorageRecord Stamp Text) E
  unfolding severity_value
  with_stored_data r (err e) = err e
  with_stored_data r (ok text_data) = ok (record {
    created_at_offset_ns = r.created_at_offset;
    occurred_at = r.entry.occurred_at;
    severity = severity_value r.entry.severity;
    scope = r.entry.scope;
    code = r.entry.code;
    id = r.id;
    text = r.entry.text;
    data_ = text_data;
  })

  unfoldable pub try_new :
      {Stamp : Type 0}
      → JournalRecord Stamp
      → BinaryDataFormat
      → Result (StorageRecord Stamp Text) E
  unfolding encoded with_stored_data
  try_new r format = with_stored_data r (encoded r.entry.data_ format)

  -- `map_err` of an error of the severity, and of the data
  unfoldable pub restored :
      {Stamp : Type 0}
      → ℕ
      → StorageRecord Stamp Text
      → Result (Option (List ℕ)) E
      → Result Severity InvalidValue
      → Result (StoredRecord Stamp) (RestoreError E)
  unfolding system_time_from_origin
  restored origin r (err e) severity = err (decoding e)
  restored origin r (ok bytes) (err e) = err (invalid_severity e)
  restored origin r (ok bytes) (ok severity) = ok (record {
    id = r.id;
    created_at = system_time_from_origin r.created_at_offset_ns origin;
    entry = record {
      occurred_at = r.occurred_at;
      severity = severity;
      scope = r.scope;
      code = r.code;
      text = r.text;
      data_ = bytes;
    };
  })

  unfoldable pub try_restore :
      {Stamp : Type 0}
      → ℕ
      → StorageRecord Stamp Text
      → BinaryDataFormat
      → Result (StoredRecord Stamp) (RestoreError E)
  unfolding decoded severity_from_value restored
  try_restore origin r format =
      restored origin r (decoded r.data_ format) (severity_from_value r.severity)
