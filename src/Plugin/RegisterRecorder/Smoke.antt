-- ===== src/Plugin/RegisterRecorder/Smoke.antt =====
-- `smoke_test` in plugins/csv-register-recorder/src/internal/context.rs. The clocks are functions of how
-- often they have been read; floating-point numbers are parameters.
pub mod Kept
use msr.Prelude.{
  ℕ, suc, String, true, false, Option, none, some, List, [], ◌∷◌, ◌++◌, ◌==◌, if◌then◌else◌, Result,
  ok, err, length, pos, negsuc,
}
use msr.Time.{SystemInstant}
use msr.Value.Scalar.{ScalarType, ScalarValue}
use msr.Value.{ValueType, Value}
use msr.Register.Recorder.{ObservedRegisterValues, StoredRegisterRecord}
use msr.Plugin.RegisterRecorder.{RegisterGroupConfig, Config, Error, Recorders, Context, Created}
use msr.Plugin.RegisterRecorder.Groups.{Made}
use msr.Plugin.RegisterRecorder.Operations.{replace_register_group_config}
use msr.Plugin.RegisterRecorder.Observations.{recent_records, record_observed_register_group_values}

-- What is read of the clocks while a message is handled
pub record Clocks (Stamp : Type 0) : Type 0 where
  pub now : ℕ → SystemInstant
  pub stamp : ℕ → Stamp

-- The floating-point numbers of the test: 0.0, -1.125 and 1.125
pub record SmokeNumbers (F64 : Type 0) : Type 0 where
  pub nought : F64
  pub minus : F64
  pub plus : F64

abbrev pub smoke_group_id : String
smoke_group_id = "smoke-test-register-group"

unfoldable pub smoke_group_config : Config → RegisterGroupConfig
smoke_group_config config = record {
  registers =
      (1, ValueType.scalar ScalarType.bool)
      ∷ (2, ValueType.scalar ScalarType.i64)
      ∷ (3, ValueType.scalar ScalarType.u64)
      ∷ (4, ValueType.scalar ScalarType.f64)
      ∷ (5, ValueType.string)
      ∷ [];
  storage = config.default_storage;
}

unfoldable pub smoke_observations :
    {Stamp F32 F64 : Type 0}
    → SmokeNumbers F64
    → (ℕ → Stamp)
    → List (ObservedRegisterValues Stamp (Value F32 F64))
smoke_observations numbers stamp =
    record {
      observed_at = stamp 0;
      register_values =
          none
          ∷ some (Value.scalar (ScalarValue.i64 (pos 0)))
          ∷ some (Value.scalar (ScalarValue.u64 0))
          ∷ some (Value.scalar (ScalarValue.f64 numbers.nought))
          ∷ none
          ∷ [];
    }
    ∷ record {
      observed_at = stamp 1;
      register_values =
          some (Value.scalar (ScalarValue.bool false))
          ∷ some (Value.scalar (ScalarValue.i64 (negsuc 0)))
          ∷ some (Value.scalar (ScalarValue.u64 1))
          ∷ some (Value.scalar (ScalarValue.f64 numbers.minus))
          ∷ some (Value.string "Hello")
          ∷ [];
    }
    ∷ record {
      observed_at = stamp 2;
      register_values =
          some (Value.scalar (ScalarValue.bool true))
          ∷ some (Value.scalar (ScalarValue.i64 (pos 1)))
          ∷ none
          ∷ some (Value.scalar (ScalarValue.f64 numbers.plus))
          ∷ some (Value.string ", world!")
          ∷ [];
    }
    ∷ record { observed_at = stamp 3; register_values = none ∷ none ∷ none ∷ none ∷ none ∷ [] }
    ∷ []

module _ {Stamp V World St : Type 0} (recorders : Recorders Stamp V World St) where
  unfoldable pub and_record :
      (Context St → World → Option (Context St × World × Result {0, 0} Unit Error))
      → Option (Context St × World × Result (Option ℕ) Error)
      → Option (Context St × World × Result {0, 0} Unit Error)
  and_record rest none = none
  and_record rest (some (c, world, err e)) = some (c, world, err e)
  and_record rest (some (c, world, ok _)) = rest c world

  -- The loop over the observations, with the number of those before
  unfoldable pub record_each :
      (ℕ → SystemInstant)
      → ℕ
      → List (ObservedRegisterValues Stamp V)
      → Context St
      → World
      → Option (Context St × World × Result {0, 0} Unit Error)
  unfolding and_record record_observed_register_group_values
  record_each now k [] c world = some (c, world, ok tt)
  record_each now k (observation ∷ observations) c world =
      and_record (record_each now (suc k) observations)
        (record_observed_register_group_values recorders smoke_group_id observation (now k) c world)

  unfoldable pub restored :
      List Created
      → Context St × Made World (Option RegisterGroupConfig)
      → Context St × Made World Unit
  restored created (c, (world, created', err e)) = (c, (world, created ++ created', err e))
  restored created (c, (world, created', ok _)) = (c, (world, created ++ created', ok tt))

  unfoldable pub restore_config :
      Option RegisterGroupConfig → World → List Created → Context St → Context St × Made World Unit
  unfolding restored replace_register_group_config
  restore_config none world created c = (c, (world, created, ok tt))
  restore_config (some orig_config) world created c =
      restored created (replace_register_group_config recorders smoke_group_id orig_config c world)

  -- The assertion panics if there are more or fewer records than observations.
  unfoldable pub smoke_read :
      Option RegisterGroupConfig
      → ℕ
      → World
      → List Created
      → Context St × Option (Result (List (StoredRegisterRecord Stamp V)) Error)
      → Option (Context St × Made World Unit)
  unfolding restore_config
  smoke_read orig_config n world created (c, none) = none
  smoke_read orig_config n world created (c, some (err e)) = some (c, (world, created, err e))
  smoke_read orig_config n world created (c, some (ok records)) =
      if length records == n then some (restore_config orig_config world created c) else none

  unfoldable pub smoke_recorded :
      Option RegisterGroupConfig
      → ℕ
      → List Created
      → Option (Context St × World × Result {0, 0} Unit Error)
      → Option (Context St × Made World Unit)
  unfolding smoke_read recent_records
  smoke_recorded orig_config n created none = none
  smoke_recorded orig_config n created (some (c, world, err e)) = some (c, (world, created, err e))
  smoke_recorded orig_config n created (some (c, world, ok _)) =
      smoke_read orig_config n world created (recent_records recorders smoke_group_id n world c)

  unfoldable pub smoke_configured :
      (ℕ → SystemInstant)
      → List (ObservedRegisterValues Stamp V)
      → Context St × Made World (Option RegisterGroupConfig)
      → Option (Context St × Made World Unit)
  unfolding smoke_recorded record_each
  smoke_configured now observations (c, (world, created, err e)) = some (c, (world, created, err e))
  smoke_configured now observations (c, (world, created, ok orig_config)) =
      smoke_recorded orig_config (length observations) created
        (record_each now 0 observations c world)

module _ {Stamp F32 F64 World St : Type 0} (recorders : Recorders Stamp (Value F32 F64) World St)
    (numbers : SmokeNumbers F64) where
  -- `none` is a panic.
  unfoldable pub smoke_test :
      Clocks Stamp → Context St → World → Option (Context St × Made World Unit)
  unfolding smoke_configured smoke_observations smoke_group_config replace_register_group_config
  smoke_test clocks c world =
      smoke_configured recorders clocks.now (smoke_observations numbers clocks.stamp) (
        replace_register_group_config recorders smoke_group_id (smoke_group_config c.config) c
          world)
