-- ===== src/Register/Recorder/Csv/Recorded.antt =====
-- Records of values in crates/msr-core/src/register/recorder are read from a CSV row as they were
-- stored.
use mathlib.Core.Path.{subst}
use msr.Prelude.{
  ℕ, ◌^◌, ◌<◌, String, ◌≡◌, refl, sym, ap, ◌∙◌, Option, none, some, List, [], ◌∷◌, ok, All,
}
use msr.Value.{ValueType, Value, to_value_type}
use msr.Register.Recorder.{
  SerdeRegisterValue, RegisterRecord, RegisterStorageRecord, map_some, serde_from_value, optional,
  one_value, values_into, with_values, storage_record_from,
}
use msr.Register.Recorder.Csv.{Parsers, deserialize_string_record}
use msr.Register.Recorder.Types.{
  recorded_type, stored_type, HasType, AreTyped, AreReadable, serde_from_value-stored_type,
}
use msr.Register.Recorder.Csv.RoundTrip.{Texts, fields_of, TextLaws, IsPrintable, record_read_back}

-- Each value has the type of its register, which `append_record` checks, and there are as many.
unfoldable pub AreMatching :
    {F32 F64 : Type 0} → List (ℕ × ValueType) → List (Option (Value F32 F64)) → Type 0
unfolding to_value_type
AreMatching [] [] = Unit
AreMatching [] (v ∷ vs) = ⊥
AreMatching (register ∷ registers) [] = ⊥
AreMatching (register ∷ registers) (none ∷ vs) = AreMatching registers vs
AreMatching ((index, t) ∷ registers) (some v ∷ vs) =
    (to_value_type v ≡ t) × AreMatching registers vs

some_same : {A : Type 0} (o : Option A) {a : A} → map_some some o ≡ some (some a) → o ≡ some a
unfolding map_some
some_same none h = cc
some_same (some b) h = cc

-- A list that is made value by value has its first value and its rest.
made_of :
    {A : Type 0} (first : Option (Option A)) (rest : Option (List (Option A)))
    (ws : List (Option A))
    → one_value first rest ≡ some ws
    → (w : Option A) × (us : List (Option A)) × (first ≡ some w) × (rest ≡ some us) × (ws ≡ w ∷ us)
unfolding one_value
made_of none rest ws h = cc
made_of (some w) none ws h = cc
made_of (some w) (some us) ws h = (w, us, refl, refl, cc)

module _ {F32 F64 : Type 0} (widened : F32 → F64) where
  value-HasType :
      (t : ValueType) (v : Value F32 F64) (s : Option (SerdeRegisterValue F64))
      → to_value_type v ≡ t
      → map_some some (serde_from_value widened v) ≡ some s
      → HasType t s
  unfolding HasType map_some
  value-HasType t v none e h = tt
  value-HasType t v (some s) e h =
      let same : serde_from_value widened v ≡ some s = some_same (serde_from_value widened v) h in
      subst (λ u. stored_type u ≡ some (recorded_type s)) e
        (sym (serde_from_value-stored_type widened v) ∙ ap (map_some recorded_type) same)

  values-AreTyped :
      (registers : List (ℕ × ValueType)) (vs : List (Option (Value F32 F64)))
      (ws : List (Option (SerdeRegisterValue F64)))
      → AreMatching registers vs
      → values_into (serde_from_value widened) vs ≡ some ws
      → AreTyped registers ws
  unfolding AreMatching AreTyped values_into optional HasType
  values-AreTyped [] [] ws h e = let nil : ws ≡ [] = cc in rw nil tt
  values-AreTyped [] (v ∷ vs) ws h e = absurd h
  values-AreTyped (register ∷ registers) [] ws h e = absurd h
  values-AreTyped ((index, t) ∷ registers) (none ∷ vs) ws h e =
      let (w, us, f, r, same) =
        made_of (some none) (values_into (serde_from_value widened) vs) ws e in
      let missing : w ≡ none = cc in rw same (rw missing (tt, values-AreTyped registers vs us h r))
  values-AreTyped ((index, t) ∷ registers) (some v ∷ vs) ws h e =
      let (w, us, f, r, same) =
        made_of (optional (serde_from_value widened) (some v))
          (values_into (serde_from_value widened) vs) ws e in
      rw same (value-HasType t v w h.0 f, values-AreTyped registers vs us h.1 r)

  stored-AreTyped :
      {Stamp : Type 0} (registers : List (ℕ × ValueType))
      (from : RegisterRecord Stamp (Value F32 F64)) (r : RegisterStorageRecord Stamp F64)
      (o : Option (List (Option (SerdeRegisterValue F64))))
      → values_into (serde_from_value widened) from.observation.register_values ≡ o
      → AreMatching registers from.observation.register_values
      → map_some (with_values from) o ≡ some r
      → AreTyped registers r.register_values
  unfolding map_some with_values
  stored-AreTyped registers from r none e h same = cc
  stored-AreTyped registers from r (some ws) e h same =
      let is : r.register_values ≡ ws = cc in
      rw is (values-AreTyped registers from.observation.register_values ws h e)

-- A record whose values have the types of their registers, and can be read, is read from its row as
-- it was stored, whatever integers and floating-point numbers are recorded as.
pub record_round_trip :
    {F32 F64 Stamp IntError TimeError : Type 0} (parsers : Parsers F64 Stamp IntError TimeError)
    (texts : Texts F64 Stamp) (IsNumber : F64 → Type 0) (laws : TextLaws parsers texts IsNumber)
    (serialize : RegisterStorageRecord Stamp F64 → List String)
    (serialize_law : (r : RegisterStorageRecord Stamp F64) → serialize r ≡ fields_of texts r)
    (widened : F32 → F64) (registers : List (ℕ × ValueType))
    (from : RegisterRecord Stamp (Value F32 F64)) (r : RegisterStorageRecord Stamp F64)
    → AreReadable registers
    → AreMatching registers from.observation.register_values
    → storage_record_from (serde_from_value widened) from ≡ some r
    → All (IsPrintable IsNumber) r.register_values
    → r.created_at_offset_ns < 2 ^ 64
    → deserialize_string_record parsers registers (serialize r) ≡ some (ok r)
unfolding storage_record_from
record_round_trip parsers texts IsNumber laws serialize serialize_law widened registers from r
      readable matching e p bound =
    rw (serialize_law r) (
      record_read_back parsers texts IsNumber laws registers r readable
        (stored-AreTyped widened registers from r
          (values_into (serde_from_value widened) from.observation.register_values) refl matching e)
        p bound)
