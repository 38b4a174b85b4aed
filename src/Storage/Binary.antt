-- ===== src/Storage/Binary.antt =====
-- Binary data as text: `encode_binary_data_into_string` and `decode_binary_data_from_string` of
-- crates/msr-core/src/storage/mod.rs. The alphabet of Base64 is that of the crate `base64`, and the
-- conversions between strings and UTF-8 are those of the standard library; both are parameters.
use msr.Prelude.{ℕ, ◌≡◌, sym, ap, ◌∙◌, List, Result, ok}
use msr.Storage.{BinaryDataFormat, bytes_format, utf8_format}

module _ {Text E : Type 0} (base64_encode : List ℕ → Text)
    (base64_decode : Text → Result (List ℕ) E) (from_utf8 : List ℕ → Result Text E)
    (into_bytes : Text → List ℕ) where
  unfoldable pub encode_binary_data_bytes : List ℕ → Text
  encode_binary_data_bytes input = base64_encode input

  unfoldable pub encode_binary_data_utf8 : List ℕ → Result Text E
  encode_binary_data_utf8 input = from_utf8 input

  unfoldable pub encode_binary_data_into_string : List ℕ → BinaryDataFormat → Result Text E
  unfolding encode_binary_data_bytes encode_binary_data_utf8
  encode_binary_data_into_string input bytes_format = ok (encode_binary_data_bytes input)
  encode_binary_data_into_string input utf8_format = encode_binary_data_utf8 input

  unfoldable pub decode_binary_data_bytes : Text → Result (List ℕ) E
  decode_binary_data_bytes input = base64_decode input

  unfoldable pub decode_binary_data_utf8 : Text → List ℕ
  decode_binary_data_utf8 input = into_bytes input

  unfoldable pub decode_binary_data_from_string : Text → BinaryDataFormat → Result (List ℕ) E
  unfolding decode_binary_data_bytes decode_binary_data_utf8
  decode_binary_data_from_string input bytes_format = decode_binary_data_bytes input
  decode_binary_data_from_string input utf8_format = ok (decode_binary_data_utf8 input)

  -- Whatever is encoded, as Base64 or as UTF-8, is decoded to the same bytes, where Base64 and UTF-8
  -- decode what they have encoded.
  pub decode-encode :
      ((input : List ℕ) → base64_decode (base64_encode input) ≡ ok input)
      → ((input : List ℕ) (text : Text) → from_utf8 input ≡ ok text → into_bytes text ≡ input)
      → (input : List ℕ) (format : BinaryDataFormat) (text : Text)
      → encode_binary_data_into_string input format ≡ ok text
      → decode_binary_data_from_string text format ≡ ok input
  unfolding encode_binary_data_into_string decode_binary_data_from_string encode_binary_data_bytes
      decode_binary_data_bytes encode_binary_data_utf8 decode_binary_data_utf8
  decode-encode base64 utf8 input bytes_format text e =
      let same : base64_encode input ≡ text = cc in sym (ap base64_decode same) ∙ base64 input
  decode-encode base64 utf8 input utf8_format text e = ap ok (utf8 input text e)
