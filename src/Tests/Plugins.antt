-- ===== src/Tests/Plugins.antt =====
-- The plugins plugins/csv-register-recorder and plugins/csv-event-journal on concrete inputs.
use msr.Prelude.{
  ℕ, String, false, none, some, List, [], ◌∷◌, ◌++◌, reverse, arith, eq_iff, ok, length, take, get,
  pos,
}
use msr.Time.{SystemInstant}
use msr.Storage.{bytes_format}
use msr.Value.Scalar.{ScalarType, ScalarValue}
use msr.Value.{ValueType, Value}
use msr.EventJournal.{warning, information, Entry}
use msr.Register.Recorder.{ObservedRegisterValues, StoredRegisterRecord}
use msr.Plugin.RegisterRecorder.{RegisterGroupConfig, active, inactive, Config, Recorders, Context}
use msr.Plugin.RegisterRecorder.Operations.{replace_config, replace_register_group_config}
use msr.Plugin.RegisterRecorder.Operations.Configured.{
  IsConfigured, ReplacesConfig, replace_config-Replaces,
}
use msr.Plugin.RegisterRecorder.Operations.Replacing.{ReplacesGroup, replace_group-Replaces}
use msr.Plugin.RegisterRecorder.Observations.{record_observed_register_group_values}
use msr.Plugin.RegisterRecorder.Operations.Recording.{Records, record_observed-Records}
use msr.Plugin.RegisterRecorder.Smoke.{Clocks, SmokeNumbers}
use msr.Plugin.RegisterRecorder.Api.{Command, Query, Message, command, query}
use msr.Plugin.RegisterRecorder.MessageLoop.{message_loop}
use msr.Plugin.RegisterRecorder.MessageLoop.Answers.{senders}
use msr.Plugin.RegisterRecorder.MessageLoop.Replies.{LoopAnswers, message_loop-LoopAnswers}
use msr.Plugin.RegisterRecorder.MessageLoop.Kept.{EndsConfigured, message_loop-EndsConfigured}
use msr.Plugin.EventJournal.{Journals, JournalContext, record_entry}
use msr.Plugin.EventJournal.Recording.{RecordsEntry, record_entry-RecordsEntry}
use msr.Tests.Records.{storage_config_example}

abbrev Row : Type 0
Row = StoredRegisterRecord ℕ (Value ℕ ℕ)

-- A storage is the list of its records, and the file system the list of its directories.
abbrev recorders_example : Recorders ℕ (Value ℕ ℕ) (List (List ℕ)) (List Row)
recorders_example = record {
  try_new = λ config path prefix registers. ok [];
  append_record = λ now r world rows. some (
    rows ++ record { created_at = now.system_time; observation = r.observation } ∷ [],
    world,
    ok now.system_time,
  );
  recent_records = λ limit world rows. (rows, some (ok (take limit (reverse rows))));
  filter_records = λ limit filter world rows. (rows, some (ok (take limit rows)));
  report_statistics = λ world rows. (
    rows,
    ok (record { total_records = some (length rows); total_bytes = none; segments = none }),
  );
  descriptor =
      λ rows. record { kind = "list"; base_path = none; binary_data_format = bytes_format };
  is_dir = λ path world. false;
  create_dir_all = λ path world. (path ∷ world, ok tt);
  push = λ base path. base ++ path;
  encode = λ id. 58 ∷ [];
}

abbrev group_example : RegisterGroupConfig
group_example = record {
  registers = (1, ValueType.scalar ScalarType.i64) ∷ [];
  storage = storage_config_example;
}

-- The group "pump" is configured, and has a context.
abbrev context_example : Context (List Row)
context_example = record {
  data_path = 47 ∷ [];
  file_name_prefix = 65 ∷ [];
  config = record {
    default_storage = storage_config_example;
    register_groups = ("pump", group_example) ∷ [];
  };
  state = active;
  register_groups = ("pump", []) ∷ [];
}

context_example-IsConfigured : IsConfigured context_example
unfolding IsConfigured get
context_example-IsConfigured id = ground (arith, eq_iff "pump" id)

abbrev instant_example : SystemInstant
instant_example = record { system_time = 9; instant = 4 }

abbrev clocks_example : Clocks ℕ
clocks_example = record { now = λ k. instant_example; stamp = λ k. 7 }

abbrev numbers_example : SmokeNumbers ℕ
numbers_example = record { nought = 0; minus = 1; plus = 2 }

abbrev observation_example : ObservedRegisterValues ℕ (Value ℕ ℕ)
observation_example = record {
  observed_at = 7;
  register_values = some (Value.scalar (ScalarValue.i64 (pos 3))) ∷ [];
}

-- A group is added, an observation recorded, records are read; the message behind the shutdown is
-- not received.
abbrev messages_example : List (Message ℕ (Value ℕ ℕ) × Clocks ℕ)
messages_example =
    (command (Command.replace_register_group_config 1 "valve" group_example), clocks_example)
    ∷ (command (Command.record_observed 2 "valve" observation_example), clocks_example)
    ∷ (command (Command.smoke_test 3), clocks_example)
    ∷ (query (Query.recent_records 4 "valve" 10), clocks_example)
    ∷ (command (Command.shutdown 5), clocks_example)
    ∷ (command (Command.switch_state 6 inactive), clocks_example)
    ∷ []

message_loop-LoopAnswers_example :
    LoopAnswers recorders_example numbers_example
      (1 ∷ 2 ∷ 3 ∷ 4 ∷ 5 ∷ [])
      (message_loop recorders_example numbers_example messages_example context_example [])
unfolding senders
message_loop-LoopAnswers_example =
    message_loop-LoopAnswers recorders_example numbers_example messages_example context_example []

message_loop-EndsConfigured_example :
    EndsConfigured recorders_example numbers_example
      (message_loop recorders_example numbers_example messages_example context_example [])
message_loop-EndsConfigured_example =
    message_loop-EndsConfigured recorders_example numbers_example messages_example context_example
      [] context_example-IsConfigured

replace_config-Replaces_example :
    let new_config : Config = record context_example.config { register_groups = [] } in
    ReplacesConfig recorders_example new_config context_example []
      (replace_config recorders_example new_config context_example [])
replace_config-Replaces_example =
    replace_config-Replaces recorders_example
      (record context_example.config { register_groups = [] }) context_example []

replace_group-Replaces_example :
    ReplacesGroup recorders_example "valve" group_example context_example
      (replace_register_group_config recorders_example "valve" group_example context_example [])
replace_group-Replaces_example =
    replace_group-Replaces recorders_example "valve" group_example context_example []

record_observed-Records_example :
    Records recorders_example "pump" observation_example instant_example context_example [] (
      record_observed_register_group_values recorders_example "pump" observation_example
        instant_example context_example [])
record_observed-Records_example =
    record_observed-Records recorders_example "pump" observation_example instant_example
      context_example []

-- A journal is the list of the identifiers of its records.
abbrev journals_example : Journals ℕ Unit (List String)
journals_example = record {
  try_new = λ path prefix format config. ok [];
  append_record = λ now r world ids. some (ids ++ r.id ∷ [], world, ok (ok tt, 0));
  recent_records = λ limit world ids. (ids, ok []);
  filter_records = λ limit filter world ids. (ids, ok []);
  report_statistics = λ world ids.
      (ids, ok (record { total_records = some (length ids); total_bytes = none; segments = none }));
  descriptor = λ ids. record { kind = "list"; base_path = none; binary_data_format = bytes_format };
  replace_config = λ config ids. (ids, storage_config_example);
}

abbrev journal_context_example : JournalContext (List String)
journal_context_example = record {
  config = record { severity_threshold = information; storage = storage_config_example };
  state = active;
  storage = [];
}

abbrev entry_example : Entry ℕ
entry_example = record {
  occurred_at = 7;
  severity = warning;
  scope = "pump";
  code = pos 1;
  text = none;
  data_ = none;
}

record_entry-RecordsEntry_example :
    RecordsEntry journals_example entry_example instant_example "01" journal_context_example tt
      (record_entry journals_example entry_example instant_example "01" journal_context_example tt)
record_entry-RecordsEntry_example =
    record_entry-RecordsEntry journals_example entry_example instant_example "01"
      journal_context_example tt
