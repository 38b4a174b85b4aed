-- ===== src/EventJournal/Restore.antt =====
-- What is stored of a journal record in crates/msr-core/src/event_journal/mod.rs is restored.
use msr.Prelude.{ℕ, ◌+◌, ◌≡◌, refl, sym, ap, ◌∙◌, Option, none, some, List, Result, ok, err, ◌>>=◌}
use msr.Storage.{BinaryDataFormat, system_time_from_origin}
use msr.Storage.Binary.{encode_binary_data_into_string, decode-encode}
use msr.EventJournal.{
  Severity, diagnostic_verbose, diagnostic, information_verbose, information, warning,
  warning_unexpected, error, error_critical, severity_value, severity_from_value, JournalRecord,
  StorageRecord, encoded, decoded, with_stored_data, try_new, restored, try_restore,
}

from-value : (s : Severity) → severity_from_value (severity_value s) ≡ ok s
unfolding severity_value severity_from_value
from-value diagnostic_verbose = refl
from-value diagnostic = refl
from-value information_verbose = refl
from-value information = refl
from-value warning = refl
from-value warning_unexpected = refl
from-value error = refl
from-value error_critical = refl

module _ {Text E : Type 0} (base64_encode : List ℕ → Text)
    (base64_decode : Text → Result (List ℕ) E) (from_utf8 : List ℕ → Result Text E)
    (into_bytes : Text → List ℕ)
    (base64 : (input : List ℕ) → base64_decode (base64_encode input) ≡ ok input)
    (utf8 : (input : List ℕ) (text : Text)
      → from_utf8 input ≡ ok text
      → into_bytes text ≡ input) where
  decoded-some :
      (input : List ℕ) (format : BinaryDataFormat) (res : Result Text E)
      → encode_binary_data_into_string base64_encode base64_decode from_utf8 into_bytes input format
        ≡ res
      → (text : Option Text) → (res >>= λ t. ok (some t)) ≡ ok text
      → decoded base64_encode base64_decode from_utf8 into_bytes text format ≡ ok (some input)
  unfolding decoded
  decoded-some input format (err e) h text q = cc
  decoded-some input format (ok t) h none q = cc
  decoded-some input format (ok t) h (some text) q =
      let same : t ≡ text = cc in
      let e =
        decode-encode base64_encode base64_decode from_utf8 into_bytes base64 utf8 input format text
          (h ∙ ap ok same) in
      rw e refl

  decoded-encoded :
      (input : Option (List ℕ)) (format : BinaryDataFormat) (text : Option Text)
      → encoded base64_encode base64_decode from_utf8 into_bytes input format ≡ ok text
      → decoded base64_encode base64_decode from_utf8 into_bytes text format ≡ ok input
  unfolding encoded decoded
  decoded-encoded none format none q = refl
  decoded-encoded none format (some t) q = cc
  decoded-encoded (some input) format text q =
      decoded-some input format
        (encode_binary_data_into_string base64_encode base64_decode from_utf8 into_bytes input
          format)
        refl text q

  restored_lem :
      {Stamp : Type 0} (origin : ℕ) (r : JournalRecord Stamp) (format : BinaryDataFormat)
      (text : Result (Option Text) E)
      → encoded base64_encode base64_decode from_utf8 into_bytes r.entry.data_ format ≡ text
      → (s : StorageRecord Stamp Text)
      → with_stored_data base64_encode base64_decode from_utf8 into_bytes r text ≡ ok s
      → try_restore base64_encode base64_decode from_utf8 into_bytes origin s format
        ≡ ok (record { id = r.id; created_at = origin + r.created_at_offset; entry = r.entry })
  unfolding with_stored_data try_restore restored system_time_from_origin
  restored_lem origin r format (err e) h s q = cc
  restored_lem origin r format (ok text) h s q =
      let kept : StorageRecord _ Text = record {
        created_at_offset_ns = r.created_at_offset;
        occurred_at = r.entry.occurred_at;
        severity = severity_value r.entry.severity;
        scope = r.entry.scope;
        code = r.entry.code;
        id = r.id;
        text = r.entry.text;
        data_ = text;
      } in
      let same : kept ≡ s = cc in
      ap (λ x. try_restore base64_encode base64_decode from_utf8 into_bytes origin x format)
        (sym same)
      ∙ ap
          (λ bytes.
            restored base64_encode base64_decode from_utf8 into_bytes origin kept bytes
              (severity_from_value kept.severity))
          (decoded-encoded r.entry.data_ format text h)
      ∙ ap
          (λ severity.
            restored base64_encode base64_decode from_utf8 into_bytes origin kept (ok r.entry.data_)
              severity)
          (from-value r.entry.severity)

  -- A journal record that can be stored, with or without data and in either format, is restored with
  -- the same entry and the same id, and with the system time at its offset from the origin, where
  -- Base64 and UTF-8 decode what they have encoded.
  pub try_restore-try_new :
      {Stamp : Type 0} (origin : ℕ) (r : JournalRecord Stamp) (format : BinaryDataFormat)
      (s : StorageRecord Stamp Text)
      → try_new base64_encode base64_decode from_utf8 into_bytes r format ≡ ok s
      → try_restore base64_encode base64_decode from_utf8 into_bytes origin s format
        ≡ ok (record { id = r.id; created_at = origin + r.created_at_offset; entry = r.entry })
  unfolding try_new
  try_restore-try_new origin r format s q =
      restored_lem origin r format
        (encoded base64_encode base64_decode from_utf8 into_bytes r.entry.data_ format) refl s q
