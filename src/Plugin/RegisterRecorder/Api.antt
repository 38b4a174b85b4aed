-- ===== src/Plugin/RegisterRecorder/Api.antt =====
-- The messages, events and replies of the plugin: plugins/csv-register-recorder/src/api. A sender of a
-- reply is a number.
use msr.Prelude.{ℕ, String, Bool, Option, List, Result}
use msr.Storage.{RecordPreludeFilter}
use msr.Register.Recorder.{ObservedRegisterValues, StoredRegisterRecord}
use msr.Plugin.RegisterRecorder.{RegisterGroupConfig, State, Status, Config, Error}

-- The events of event.rs that are published
pub data Event : Type 0 where
  started stopped : Event
  config_changed : Config → Event
  state_changed : State → Event
  data_directory_created : String → List ℕ → Event

pub data Command (Stamp V : Type 0) : Type 0 where
  replace_config : ℕ → Config → Command Stamp V
  replace_register_group_config : ℕ → String → RegisterGroupConfig → Command Stamp V
  switch_state : ℕ → State → Command Stamp V
  record_observed : ℕ → String → ObservedRegisterValues Stamp V → Command Stamp V
  shutdown : ℕ → Command Stamp V
  smoke_test : ℕ → Command Stamp V

pub data Query : Type 0 where
  config : ℕ → Query
  register_group_config : ℕ → String → Query
  status : ℕ → Bool → Bool → Query
  recent_records : ℕ → String → ℕ → Query
  filter_records : ℕ → String → ℕ → RecordPreludeFilter → Query

pub data Message (Stamp V : Type 0) : Type 0 where
  command : Command Stamp V → Message Stamp V
  query : Query → Message Stamp V

-- What is sent as a reply
pub data Reply (Stamp V : Type 0) : Type 0 where
  replied : Result {0, 0} Unit Error → Reply Stamp V
  replied_config : Result Config Error → Reply Stamp V
  replied_group_config : Result (Option RegisterGroupConfig) Error → Reply Stamp V
  replied_status : Result Status Error → Reply Stamp V
  replied_records : Result (List (StoredRegisterRecord Stamp V)) Error → Reply Stamp V

pub data Output (Stamp V : Type 0) : Type 0 where
  event : Event → Output Stamp V
  reply : ℕ → Reply Stamp V → Output Stamp V
