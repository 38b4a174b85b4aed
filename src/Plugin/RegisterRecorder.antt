-- ===== src/Plugin/RegisterRecorder.antt =====
-- The plugin that records registers: the data of plugins/csv-register-recorder/src/internal/context.rs
-- and src/api, and the equality of configurations. A configuration has the entries of its map in
-- the order in which they are iterated.
pub mod Equality
pub mod Groups
pub mod Operations
pub mod Observations
pub mod Smoke
pub mod Api
pub mod Invocations
pub mod MessageLoop
use msr.Prelude.{
  ℕ, String, Bool, true, false, ◌&&◌, Option, none, some, List, [], ◌∷◌, ◌==◌, Result, length,
  HashMap, get,
}
use msr.Fs.System.{IoError}
use msr.Time.{SystemInstant}
use msr.Value.{ValueType, type_eq}
use msr.Storage.{
  Error as StorageError, StorageConfig, StorageDescriptor, StorageStatistics, RecordPreludeFilter,
}
use msr.Register.Recorder.{RecorderError, RegisterRecord, StoredRegisterRecord}

pub record RegisterGroupConfig : Type 0 where
  pub registers : List (ℕ × ValueType)
  pub storage : StorageConfig

pub data State : Type 0 where
  inactive active : State

pub record StorageStatus : Type 0 where
  pub descriptor : StorageDescriptor
  pub statistics : Option StorageStatistics

-- `Status`; that of a group is that of its storage.
pub record Status : Type 0 where
  pub state : State
  pub register_groups : Option (HashMap StorageStatus)

pub record Config : Type 0 where
  pub default_storage : StorageConfig
  pub register_groups : HashMap RegisterGroupConfig

-- `Error`; `other` is for the error of a storage that is not made.
pub data Error : Type 0 where
  register_group_unknown data_format_invalid : Error
  io : IoError → Error
  msr_record : RecorderError → Error
  msr_storage : StorageError → Error
  other : RecorderError → Error

-- Default of `PluginSetup`
unfoldable pub default_storage_config : StorageConfig
default_storage_config = record {
  retention_time = record { number_of_days = 180 };
  segmentation = record {
    time_interval = record { number_of_days = 1 };
    size_limit = record { bytes = 1048576 };
  };
}

unfoldable pub default_config : Config
unfolding default_storage_config
default_config = record { default_storage = default_storage_config; register_groups = [] }

-- The derived equalities
unfoldable pub storage_config_eq : StorageConfig → StorageConfig → Bool
storage_config_eq a b =
    a.retention_time.number_of_days == b.retention_time.number_of_days
    && a.segmentation.time_interval.number_of_days == b.segmentation.time_interval.number_of_days
    && a.segmentation.size_limit.bytes == b.segmentation.size_limit.bytes

unfoldable pub registers_eq : List (ℕ × ValueType) → List (ℕ × ValueType) → Bool
unfolding type_eq
registers_eq [] [] = true
registers_eq [] (r ∷ rs) = false
registers_eq (r ∷ rs) [] = false
registers_eq ((i, t) ∷ rs) ((j, u) ∷ qs) = i == j && type_eq t u && registers_eq rs qs

unfoldable pub group_config_eq : RegisterGroupConfig → RegisterGroupConfig → Bool
unfolding registers_eq storage_config_eq
group_config_eq a b = registers_eq a.registers b.registers && storage_config_eq a.storage b.storage

unfoldable pub equal_to : RegisterGroupConfig → Option RegisterGroupConfig → Bool
unfolding group_config_eq
equal_to c none = false
equal_to c (some d) = group_config_eq c d

-- An entry of one map is one of the other.
unfoldable pub has_equal : HashMap RegisterGroupConfig → String × RegisterGroupConfig → Bool
unfolding equal_to get
has_equal m (id, c) = equal_to c (get id m)

unfoldable pub every_has_equal : HashMap RegisterGroupConfig → HashMap RegisterGroupConfig → Bool
unfolding has_equal
every_has_equal [] m = true
every_has_equal (e ∷ es) m = has_equal m e && every_has_equal es m

unfoldable pub config_eq : Config → Config → Bool
unfolding storage_config_eq every_has_equal
config_eq a b =
    storage_config_eq a.default_storage b.default_storage
    && length a.register_groups == length b.register_groups
    && every_has_equal a.register_groups b.register_groups

-- `State` is compared as it is matched.
unfoldable pub state_eq : State → State → Bool
state_eq inactive inactive = true
state_eq inactive active = false
state_eq active inactive = false
state_eq active active = true

-- The storage of a group, which the core library provides, and the file system around it; `none` is
-- a panic.
pub record Recorders (Stamp V World St : Type 0) : Type 0 where
  pub try_new : StorageConfig → List ℕ → List ℕ → List (ℕ × ValueType) → Result St RecorderError
  pub append_record :
      SystemInstant
      → RegisterRecord Stamp V
      → World
      → St
      → Option (St × World × Result ℕ RecorderError)
  pub recent_records :
      ℕ → World → St → St × Option (Result (List (StoredRegisterRecord Stamp V)) RecorderError)
  pub filter_records :
      ℕ
      → RecordPreludeFilter
      → World
      → St
      → St × Option (Result (List (StoredRegisterRecord Stamp V)) RecorderError)
  pub report_statistics : World → St → St × Result StorageStatistics StorageError
  pub descriptor : St → StorageDescriptor
  pub is_dir : List ℕ → World → Bool
  pub create_dir_all : List ℕ → World → World × Result {0, 0} Unit IoError
  pub push : List ℕ → List ℕ → List ℕ
  -- `bs58::encode` of the identifier of a group
  pub encode : String → List ℕ

pub record Context (St : Type 0) : Type 0 where
  pub data_path : List ℕ
  pub file_name_prefix : List ℕ
  pub config : Config
  pub state : State
  pub register_groups : HashMap St

-- What the callback of a context is called with: the identifier of a group and its new directory
abbrev pub Created : Type 0
Created = String × List ℕ
