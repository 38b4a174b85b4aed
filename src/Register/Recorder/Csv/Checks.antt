-- ===== src/Register/Recorder/Csv/Checks.antt =====
-- What `append_record` in crates/msr-core/src/register/recorder/csv.rs checks.
use msr.Prelude.{
  ℕ, String, ◌≡◌, refl, ◌≢◌, ◌⊎◌, inl, inr, true, false, Option, none, some, List, [], ◌∷◌,
  Bool-cases, Result, ok, err,
}
use msr.Time.{SystemInstant}
use msr.Fs.System.{IoError}
use msr.Fs.Csv.{WriteResult, CsvWriter}
use msr.Storage.{Error}
use msr.Storage.Csv.{FileRecordStorage}
use msr.Storage.Csv.Files.{Disk}
use msr.Storage.Csv.Appending.{append_record as append_row}
use msr.Value.{ValueType, type_eq}
use msr.Value.Equality.{type_eq_iff}
use msr.Register.Recorder.{
  RecorderError, mismatching_register_types, storage, other, SerdeRegisterValue, RegisterRecord,
  RegisterStorageRecord, set_created_at_offset, storage_record_from,
}
use msr.Register.Recorder.Csv.Storage.{
  RegisterFileStorage, first_mismatch, record_appended, inner_appended, append_converted,
  append_checked, recorder_append_record,
}

differ_lem : (t u : ValueType) → type_eq t u ≡ false → t ≡ u → ⊥
differ_lem t u e same =
    let is : type_eq t u ≡ true = (type_eq_iff t u).1 same in let no : ⊥ = cc in no

module _ {V : Type 0} (to_value_type : V → ValueType) where
  -- The values that are there have the types of the registers at the same positions.
  unfoldable pub AreOfTypes : List ValueType → List (Option V) → Type 0
  AreOfTypes [] vs = Unit
  AreOfTypes (t ∷ ts) [] = Unit
  AreOfTypes (t ∷ ts) (none ∷ vs) = AreOfTypes ts vs
  AreOfTypes (t ∷ ts) (some v ∷ vs) = (t ≡ to_value_type v) × AreOfTypes ts vs

  -- What the check says of the values
  CheckSays : List ValueType → List (Option V) → Option RecorderError → Type 0
  unfolding AreOfTypes
  CheckSays ts vs none = AreOfTypes ts vs
  CheckSays ts vs (some (mismatching_register_types t u)) = (t ≢ u) × (AreOfTypes ts vs → ⊥)
  CheckSays ts vs (some (storage e)) = ⊥
  CheckSays ts vs (some (other e)) = ⊥

  CheckSays-more :
      (t : ValueType) (ts : List ValueType) (v : V) (vs : List (Option V))
      → t ≡ to_value_type v
      → (o : Option RecorderError) → CheckSays ts vs o
      → CheckSays (t ∷ ts) (some v ∷ vs) o
  unfolding CheckSays AreOfTypes
  CheckSays-more t ts v vs e none h = (e, h)
  CheckSays-more t ts v vs e (some (mismatching_register_types a b)) h = (h.0, λ all. h.1 all.1)
  CheckSays-more t ts v vs e (some (storage x)) h = h
  CheckSays-more t ts v vs e (some (other x)) h = h

  CheckSays-skip :
      (t : ValueType) (ts : List ValueType) (vs : List (Option V)) (o : Option RecorderError)
      → CheckSays ts vs o
      → CheckSays (t ∷ ts) (none ∷ vs) o
  unfolding CheckSays AreOfTypes
  CheckSays-skip t ts vs none h = h
  CheckSays-skip t ts vs (some (mismatching_register_types a b)) h = h
  CheckSays-skip t ts vs (some (storage x)) h = h
  CheckSays-skip t ts vs (some (other x)) h = h

  first_mismatch-CheckSays :
      (ts : List ValueType) (vs : List (Option V))
      → CheckSays ts vs (first_mismatch to_value_type ts vs)
  unfolding CheckSays first_mismatch AreOfTypes
  first_mismatch-CheckSays [] vs = tt
  first_mismatch-CheckSays (t ∷ ts) [] = tt
  first_mismatch-CheckSays (t ∷ ts) (none ∷ vs) =
      CheckSays-skip t ts vs (first_mismatch to_value_type ts vs) (first_mismatch-CheckSays ts vs)
  first_mismatch-CheckSays (t ∷ ts) (some v ∷ vs) =
      elim (Bool-cases (type_eq t (to_value_type v))) [
        | inl e ↦ rw e (
            CheckSays-more t ts v vs ((type_eq_iff t (to_value_type v)).0 e)
              (first_mismatch to_value_type ts vs) (first_mismatch-CheckSays ts vs))
        | inr e ↦ rw e (
            let differ : t ≢ to_value_type v = differ_lem t (to_value_type v) e in
            (differ, λ all. differ all.0))
      ]

-- What `append_record` has done, where `converted` is the record for the storage inside, unless its
-- conversion panics, and `inside` is what that storage makes of it
module _ {W V S : Type 0} (to_value_type : V → ValueType) (created_at : SystemInstant)
    (converted : Option S)
    (inside : S
      → Option
          (FileRecordStorage W (List String) × Disk (List String) × Result (WriteResult × ℕ) Error))
    (s : RegisterFileStorage W) (disk : Disk (List String)) (values : List (Option V)) where
  -- The storage inside has been given the record, and only it has changed.
  abbrev AppendsInside :
      RegisterFileStorage W → Disk (List String) → Result (WriteResult × ℕ) Error → Type 0
  AppendsInside s' disk' res =
      (r : S) × (inner : FileRecordStorage W (List String)) × (converted ≡ some r)
      × (inside r ≡ some (inner, disk', res))
      × (s' ≡ record s { inner = inner })

  unfoldable pub AppendsChecked :
      Option (RegisterFileStorage W × Disk (List String) × Result ℕ RecorderError) → Type 0
  unfolding AreOfTypes
  AppendsChecked none =
      AreOfTypes to_value_type s.register_types values
      × ((converted ≡ none) ⊎ ((r : S) × (converted ≡ some r) × (inside r ≡ none)))
  AppendsChecked (some (s', disk', ok stamp)) =
      AreOfTypes to_value_type s.register_types values
      × (stamp ≡ created_at.system_time)
      × ((w : WriteResult × ℕ) × AppendsInside s' disk' (ok w))
  AppendsChecked (some (s', disk', err (mismatching_register_types t u))) =
      (t ≢ u) × (AreOfTypes to_value_type s.register_types values → ⊥) × (s' ≡ s) × (disk' ≡ disk)
  AppendsChecked (some (s', disk', err (storage e))) =
      AreOfTypes to_value_type s.register_types values × AppendsInside s' disk' (err e)
  AppendsChecked (some (s', disk', err (other e))) = ⊥

module _ {W Stamp F64 V : Type 0}
    (csv : CsvWriter W (List String) (RegisterStorageRecord Stamp F64)) (show : ℕ → List ℕ)
    (push : List ℕ → List ℕ → List ℕ) (create_new : List ℕ → Result {0, 0} Unit IoError)
    (last epoch now : ℕ) (created_at : SystemInstant) (s : RegisterFileStorage W)
    (disk : Disk (List String)) (to_value_type : V → ValueType) where
  -- What the storage inside makes of a record
  abbrev pub row_appended :
      RegisterStorageRecord Stamp F64
      → Option
          (FileRecordStorage W (List String) × Disk (List String) × Result (WriteResult × ℕ) Error)
  row_appended r =
      append_row csv set_created_at_offset show push create_new last epoch now created_at r s.inner
        disk

  module _ (converted : Option (RegisterStorageRecord Stamp F64)) (values : List (Option V)) where
    abbrev AppendsAs :
        Option (RegisterFileStorage W × Disk (List String) × Result ℕ RecorderError) → Type 0
    AppendsAs o = AppendsChecked to_value_type created_at converted row_appended s disk values o

    inner-AppendsChecked :
        (r : RegisterStorageRecord Stamp F64)
        → converted ≡ some r
        → AreOfTypes to_value_type s.register_types values
        → (o : Option (
            FileRecordStorage W (List String)
            × Disk (List String)
            × Result (WriteResult × ℕ) Error))
        → row_appended r ≡ o
        → AppendsAs (inner_appended created_at s o)
    unfolding AppendsChecked inner_appended record_appended
    inner-AppendsChecked r c h none e = (h, inr (r, c, e))
    inner-AppendsChecked r c h (some (inner, disk', ok w)) e =
        (h, refl, (w, (r, inner, c, e, refl)))
    inner-AppendsChecked r c h (some (inner, disk', err x)) e = (h, (r, inner, c, e, refl))

    converted-AppendsChecked :
        AreOfTypes to_value_type s.register_types values
        → (o : Option (RegisterStorageRecord Stamp F64)) → converted ≡ o
        → AppendsAs (append_converted csv show push create_new last epoch now created_at s disk o)
    unfolding AppendsChecked append_converted
    converted-AppendsChecked h none c = (h, inl c)
    converted-AppendsChecked h (some r) c = inner-AppendsChecked r c h (row_appended r) refl

    checked-AppendsChecked :
        (o : Option RecorderError)
        → CheckSays to_value_type s.register_types values o
        → AppendsAs
            (append_checked csv show push create_new last epoch now created_at s disk o converted)
    unfolding AppendsChecked append_checked CheckSays
    checked-AppendsChecked none h = converted-AppendsChecked h converted refl
    checked-AppendsChecked (some (mismatching_register_types t u)) h = (h.0, h.1, refl, refl)
    checked-AppendsChecked (some (storage e)) h = absurd h
    checked-AppendsChecked (some (other e)) h = absurd h

  -- `append_record` fails with mismatching types exactly if a value does not have the type of the
  -- register at its position, and then leaves the storage and the disk as they are. Otherwise it
  -- appends the converted record to the storage inside, only which changes: an error is the one of
  -- that storage, and without one the result is the given instant. It panics only if the conversion
  -- or the storage inside does.
  pub append_record-AppendsChecked :
      (into : V → Option (SerdeRegisterValue F64)) (r : RegisterRecord Stamp V)
      → AppendsChecked to_value_type created_at
          (storage_record_from into r)
          row_appended
          s
          disk
          r.observation.register_values
          (recorder_append_record csv show push create_new last epoch now created_at s disk
            to_value_type into r)
  unfolding recorder_append_record
  append_record-AppendsChecked into r =
      checked-AppendsChecked (storage_record_from into r) r.observation.register_values
        (first_mismatch to_value_type s.register_types r.observation.register_values)
        (first_mismatch-CheckSays to_value_type s.register_types r.observation.register_values)
