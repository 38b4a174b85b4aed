-- ===== src/Plugin/EventJournal.antt =====
-- The plugin of the event journal: plugins/csv-event-journal/src/internal/context.rs. The storage is an
-- interface; messages in the log are left out.
pub mod Recording
use msr.Prelude.{
  ℕ, String, Bool, true, false, ◌&&◌, Option, none, some, List, ltb, if◌then◌else◌, Result, ok, err,
}
use msr.Time.{SystemInstant}
use msr.Fs.Csv.{WriteResult}
use msr.Storage.{
  Error as StorageError, StorageConfig, BinaryDataFormat, StorageDescriptor, StorageStatistics,
}
use msr.EventJournal.{Severity, severity_value, severity_eq, Entry, JournalRecord, StoredRecord}
use msr.EventJournal.Csv.{JournalError, storage, RecordFilter}
use msr.Plugin.RegisterRecorder.{
  storage_config_eq, StorageStatus, State, inactive, active, state_eq,
}

-- `Status`; the states are those of the other plugin.
pub record JournalStatus : Type 0 where
  pub state : State
  pub storage_status : StorageStatus

pub record JournalConfig : Type 0 where
  pub severity_threshold : Severity
  pub storage : StorageConfig

-- The derived equality
unfoldable pub journal_config_eq : JournalConfig → JournalConfig → Bool
unfolding severity_eq storage_config_eq
journal_config_eq a b =
    severity_eq a.severity_threshold b.severity_threshold && storage_config_eq a.storage b.storage

-- The storage, which the core library provides; `none` is a panic.
pub record Journals (Stamp World St : Type 0) : Type 0 where
  pub try_new : List ℕ → List ℕ → BinaryDataFormat → StorageConfig → Result St JournalError
  pub append_record :
      SystemInstant
      → JournalRecord Stamp
      → World
      → St
      → Option (St × World × Result (WriteResult × ℕ) StorageError)
  pub recent_records : ℕ → World → St → St × Result (List (StoredRecord Stamp)) JournalError
  pub filter_records :
      ℕ → RecordFilter → World → St → St × Result (List (StoredRecord Stamp)) JournalError
  pub report_statistics : World → St → St × Result StorageStatistics StorageError
  pub descriptor : St → StorageDescriptor
  pub replace_config : StorageConfig → St → St × StorageConfig

pub record JournalContext (St : Type 0) : Type 0 where
  pub config : JournalConfig
  pub state : State
  pub storage : St

-- `EntryRecorded`, with its prelude
pub record EntryRecorded : Type 0 where
  pub id : String
  pub created_at : ℕ

pub data EntryNotRecorded : Type 0 where
  not_active severity_below_threshold : EntryNotRecorded

unfoldable pub switch_state :
    {St : Type 0} → State → JournalContext St → JournalContext St × Result State JournalError
unfolding state_eq
switch_state new_state c =
    if state_eq c.state new_state
    then (c, ok new_state)
    else (record c { state = new_state }, ok c.state)

module _ {Stamp World St : Type 0} (journals : Journals Stamp World St) where
  unfoldable pub new_context :
      JournalConfig → State → Result St JournalError → Result (JournalContext St) JournalError
  new_context config state (err e) = err e
  new_context config state (ok s) = ok (record { config = config; state = state; storage = s })

  unfoldable pub try_new_context :
      List ℕ
      → List ℕ
      → BinaryDataFormat
      → JournalConfig
      → State
      → Result (JournalContext St) JournalError
  unfolding new_context
  try_new_context data_dir file_name_prefix binary_data_format initial_config initial_state =
      new_context initial_config initial_state
        (journals.try_new data_dir file_name_prefix binary_data_format initial_config.storage)

  unfoldable pub status_of :
      JournalContext St
      → St × Result StorageStatistics StorageError
      → JournalContext St × Result JournalStatus JournalError
  status_of c (s, err e) = (record c { storage = s }, err (storage e))
  status_of c (s, ok statistics) = (
    record c { storage = s },
    ok (record {
      state = c.state;
      storage_status = record { descriptor = journals.descriptor s; statistics = some statistics };
    }),
  )

  unfoldable pub status :
      Bool → World → JournalContext St → JournalContext St × Result JournalStatus JournalError
  unfolding status_of
  status true world c = status_of c (journals.report_statistics world c.storage)
  status false world c = (
    c,
    ok (record {
      state = c.state;
      storage_status = record { descriptor = journals.descriptor c.storage; statistics = none };
    }),
  )

  unfoldable pub recent_records :
      ℕ
      → World
      → JournalContext St
      → JournalContext St × Result (List (StoredRecord Stamp)) JournalError
  recent_records limit world c =
      let (s, res) = journals.recent_records limit world c.storage in
      (record c { storage = s }, res)

  unfoldable pub filter_records :
      ℕ
      → RecordFilter
      → World
      → JournalContext St
      → JournalContext St × Result (List (StoredRecord Stamp)) JournalError
  filter_records limit filter world c =
      let (s, res) = journals.filter_records limit filter world c.storage in
      (record c { storage = s }, res)

  -- `replace_config` returns the previous configuration.
  unfoldable pub replace_config :
      JournalConfig → JournalContext St → JournalContext St × Result JournalConfig JournalError
  unfolding journal_config_eq
  replace_config new_config c =
      if journal_config_eq c.config new_config then (c, ok new_config) else (
        record c {
          config = new_config;
          storage = (journals.replace_config new_config.storage c.storage).0;
        },
        ok c.config,
      )

  -- What was written or not is ignored.
  unfoldable pub entry_appended :
      EntryRecorded
      → JournalContext St
      → Option (St × World × Result (WriteResult × ℕ) StorageError)
      → Option
          (JournalContext St × World × Result (Result EntryRecorded EntryNotRecorded) JournalError)
  entry_appended prelude c none = none
  entry_appended prelude c (some (s, world, err e)) =
      some (record c { storage = s }, world, err (storage e))
  entry_appended prelude c (some (s, world, ok _)) =
      some (record c { storage = s }, world, ok (ok prelude))

  unfoldable pub record_in_state :
      State
      → Entry Stamp
      → SystemInstant
      → String
      → JournalContext St
      → World
      → Option
          (JournalContext St × World × Result (Result EntryRecorded EntryNotRecorded) JournalError)
  unfolding entry_appended severity_value
  record_in_state inactive new_entry now id c world = some (c, world, ok (err not_active))
  record_in_state active new_entry now id c world =
      if ltb (severity_value new_entry.severity) (severity_value c.config.severity_threshold)
      then some (c, world, ok (err severity_below_threshold))
      else entry_appended (record { id = id; created_at = now.system_time }) c
          (journals.append_record now (record { id = id; created_at_offset = 0; entry = new_entry })
            world c.storage)

  -- `record_entry`; the generator reads the clock, and makes an identifier.
  unfoldable pub record_entry :
      Entry Stamp
      → SystemInstant
      → String
      → JournalContext St
      → World
      → Option
          (JournalContext St × World × Result (Result EntryRecorded EntryNotRecorded) JournalError)
  unfolding record_in_state
  record_entry new_entry now id c world = record_in_state c.state new_entry now id c world
