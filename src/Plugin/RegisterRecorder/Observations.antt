-- ===== src/Plugin/RegisterRecorder/Observations.antt =====
-- How plugins/csv-register-recorder/src/internal/context.rs reads and records: `status`,
-- `recent_records`, `filter_records` and `record_observed_register_group_values`.
-- `map_err`
use msr.Prelude.{
  ℕ, String, Bool, true, false, Option, none, some, List, [], ◌∷◌, ◌==◌, if◌then◌else◌, Result, ok,
  err, length, HashMap, get, insert,
}
use msr.Time.{SystemInstant}
use msr.Storage.{Error as StorageError, RecordPreludeFilter}
use msr.Register.Recorder.{RecorderError, ObservedRegisterValues, StoredRegisterRecord, map_some}
use msr.Register.Recorder.Csv.{map_ok}
use msr.Plugin.RegisterRecorder.{
  RegisterGroupConfig, State, inactive, active, StorageStatus, Status, Error,
  register_group_unknown, data_format_invalid, msr_record, msr_storage, Recorders, Context,
}

unfoldable pub with_error : {A E F : Type 0} → (E → F) → Result A E → Result A F
with_error f (ok a) = ok a
with_error f (err e) = err (f e)

-- The context of a group is replaced.
unfoldable pub set_group : {St : Type 0} → String → St → Context St → Context St
unfolding insert
set_group id context c = record c { register_groups = insert id context c.register_groups }

module _ {Stamp V World St : Type 0} (recorders : Recorders Stamp V World St) where
  -- `RegisterGroupContext::status`
  unfoldable pub group_status : Bool → World → St → St × Result StorageStatus StorageError
  unfolding map_ok
  group_status true world context =
      let (context', res) = recorders.report_statistics world context in
      (
        context',
        map_ok
            (λ statistics. record {
              descriptor = recorders.descriptor context';
              statistics = some statistics;
            })
            res,
      )
  group_status false world context =
      (context, ok (record { descriptor = recorders.descriptor context; statistics = none }))

  unfoldable pub and_status :
      String
      → HashMap St
      → HashMap St × Result (HashMap StorageStatus) Error
      → St × Result StorageStatus StorageError
      → HashMap St × Result (HashMap StorageStatus) Error
  unfolding map_ok
  and_status id unvisited rest (context, err e) = ((id, context) ∷ unvisited, err (msr_storage e))
  and_status id unvisited (contexts, res) (context, ok status) =
      ((id, context) ∷ contexts, map_ok (λ statuses. (id, status) ∷ statuses) res)

  -- The loop of `status`, up to the first error
  unfoldable pub statuses :
      Bool → World → HashMap St → HashMap St × Result (HashMap StorageStatus) Error
  unfolding group_status and_status
  statuses with_storage_statistics world [] = ([], ok [])
  statuses with_storage_statistics world ((id, context) ∷ contexts) =
      and_status id contexts (statuses with_storage_statistics world contexts)
        (group_status with_storage_statistics world context)

  unfoldable pub status : Bool → Bool → World → Context St → Context St × Result Status Error
  unfolding statuses map_ok
  status true with_storage_statistics world c =
      let (contexts, res) = statuses with_storage_statistics world c.register_groups in
      (
        record c { register_groups = contexts },
        map_ok (λ groups. record { state = c.state; register_groups = some groups }) res,
      )
  status false with_storage_statistics world c =
      (c, ok (record { state = c.state; register_groups = none }))

  unfoldable pub records_read :
      String
      → Context St
      → St × Option (Result (List (StoredRegisterRecord Stamp V)) RecorderError)
      → Context St × Option (Result (List (StoredRegisterRecord Stamp V)) Error)
  unfolding set_group with_error map_some
  records_read id c (context, res) = (set_group id context c, map_some (with_error msr_record) res)

  unfoldable pub recent_of_group :
      String
      → ℕ
      → World
      → Context St
      → Option St
      → Context St × Option (Result (List (StoredRegisterRecord Stamp V)) Error)
  unfolding records_read
  recent_of_group id limit world c none = (c, some (err register_group_unknown))
  recent_of_group id limit world c (some context) =
      records_read id c (recorders.recent_records limit world context)

  unfoldable pub recent_records :
      String
      → ℕ
      → World
      → Context St
      → Context St × Option (Result (List (StoredRegisterRecord Stamp V)) Error)
  unfolding recent_of_group get
  recent_records id limit world c = recent_of_group id limit world c (get id c.register_groups)

  unfoldable pub filtered_of_group :
      String
      → ℕ
      → RecordPreludeFilter
      → World
      → Context St
      → Option St
      → Context St × Option (Result (List (StoredRegisterRecord Stamp V)) Error)
  unfolding records_read
  filtered_of_group id limit filter world c none = (c, some (err register_group_unknown))
  filtered_of_group id limit filter world c (some context) =
      records_read id c (recorders.filter_records limit filter world context)

  unfoldable pub filter_records :
      String
      → ℕ
      → RecordPreludeFilter
      → World
      → Context St
      → Context St × Option (Result (List (StoredRegisterRecord Stamp V)) Error)
  unfolding filtered_of_group get
  filter_records id limit filter world c =
      filtered_of_group id limit filter world c (get id c.register_groups)

  unfoldable pub observation_appended :
      String
      → Context St
      → Option (St × World × Result ℕ RecorderError)
      → Option (Context St × World × Result (Option ℕ) Error)
  unfolding set_group with_error map_ok
  observation_appended id c none = none
  observation_appended id c (some (context, world, res)) =
      some (set_group id context c, world, with_error msr_record (map_ok some res))

  -- With the context of the group; `now` is what the generator reads.
  unfoldable pub record_in :
      String
      → ObservedRegisterValues Stamp V
      → SystemInstant
      → Context St
      → World
      → Option St
      → Option (Context St × World × Result (Option ℕ) Error)
  unfolding observation_appended
  record_in id observation now c world none = some (c, world, err register_group_unknown)
  record_in id observation now c world (some context) = observation_appended id c (
      recorders.append_record now (record { created_at_offset = 0; observation = observation })
        world context)

  -- With the configuration of the group; values of other types are only warned of here.
  unfoldable pub record_configured :
      String
      → ObservedRegisterValues Stamp V
      → SystemInstant
      → Context St
      → World
      → Option RegisterGroupConfig
      → Option (Context St × World × Result (Option ℕ) Error)
  unfolding record_in get
  record_configured id observation now c world none = some (c, world, err register_group_unknown)
  record_configured id observation now c world (some config) =
      if length config.registers == length observation.register_values
      then record_in id observation now c world (get id c.register_groups)
      else some (c, world, err data_format_invalid)

  unfoldable pub record_in_state :
      State
      → String
      → ObservedRegisterValues Stamp V
      → SystemInstant
      → Context St
      → World
      → Option (Context St × World × Result (Option ℕ) Error)
  unfolding record_configured get
  record_in_state inactive id observation now c world = some (c, world, ok none)
  record_in_state active id observation now c world =
      record_configured id observation now c world (get id c.config.register_groups)

  unfoldable pub record_observed_register_group_values :
      String
      → ObservedRegisterValues Stamp V
      → SystemInstant
      → Context St
      → World
      → Option (Context St × World × Result (Option ℕ) Error)
  unfolding record_in_state
  record_observed_register_group_values id observation now c world =
      record_in_state c.state id observation now c world
