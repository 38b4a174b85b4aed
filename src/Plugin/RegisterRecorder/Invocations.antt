-- ===== src/Plugin/RegisterRecorder/Invocations.antt =====
-- What the plugin does of each message: plugins/csv-register-recorder/src/internal,
-- invoke_context_from_message_loop.rs, and the callback of message_loop.rs. What is published and
-- replied is a list in order.
-- `Result::map` for the events and the value of a successful operation
use msr.Prelude.{ℕ, String, Bool, Option, none, some, List, [], ◌∷◌, ◌++◌, Result, ok, err}
use msr.Plugin.RegisterRecorder.Api.{
  config_changed, state_changed, data_directory_created, replied, replied_config,
  replied_group_config, replied_status, replied_records, Output, event, reply,
}
use msr.Time.{SystemInstant}
use msr.Storage.{RecordPreludeFilter}
use msr.Register.Recorder.{ObservedRegisterValues, StoredRegisterRecord}
use msr.Plugin.RegisterRecorder.{
  RegisterGroupConfig, State, Status, Config, Error, Recorders, Context, Created,
}
use msr.Plugin.RegisterRecorder.Groups.{Made}
use msr.Plugin.RegisterRecorder.Operations.{
  register_group_config, switch_state, replace_config, replace_register_group_config,
}
use msr.Plugin.RegisterRecorder.Observations.{
  status, recent_records, filter_records, record_observed_register_group_values,
}

unfoldable pub outputs_if_ok :
    {Stamp V A : Type 0} → Result A Error → List (Output Stamp V) → List (Output Stamp V)
outputs_if_ok (ok a) outputs = outputs
outputs_if_ok (err e) outputs = []

-- The callback of the context publishes an event.
unfoldable pub created_events : {Stamp V : Type 0} → List Created → List (Output Stamp V)
created_events [] = []
created_events ((id, path) ∷ created) =
    event (data_directory_created id path) ∷ created_events created

unfoldable pub ignore : {A E : Type 0} → Result A E → Result {0, 0} Unit E
ignore (ok a) = ok tt
ignore (err e) = err e

-- What is left when a message was handled: the context, the file system, and the outputs
abbrev pub Handled : Type 0 → Type 0 → Type 0 → Type 0 → Type 0
Handled Stamp V World St = Context St × World × List (Output Stamp V)

module _ {Stamp V World St : Type 0} (recorders : Recorders Stamp V World St) where
  unfoldable pub config_replaced_reply :
      ℕ → Config → Context St × Made World Config → Handled Stamp V World St
  unfolding outputs_if_ok created_events
  config_replaced_reply reply_tx new_config (c, (world, created, res)) = (
    c,
    world,
    created_events created
        ++ outputs_if_ok res (event (config_changed new_config) ∷ [])
        ++ reply reply_tx (replied_config res) ∷ [],
  )

  unfoldable pub command_replace_config : ℕ → Config → Context St → World → Handled Stamp V World St
  unfolding replace_config config_replaced_reply
  command_replace_config reply_tx new_config c world =
      config_replaced_reply reply_tx new_config (replace_config recorders new_config c world)

  unfoldable pub group_replaced_reply :
      ℕ → Context St × Made World (Option RegisterGroupConfig) → Handled Stamp V World St
  unfolding outputs_if_ok created_events
  group_replaced_reply reply_tx (c, (world, created, res)) = (
    c,
    world,
    created_events created
        ++ outputs_if_ok res (event (config_changed c.config) ∷ [])
        ++ reply reply_tx (replied_group_config res) ∷ [],
  )

  unfoldable pub command_replace_register_group_config :
      ℕ → String → RegisterGroupConfig → Context St → World → Handled Stamp V World St
  unfolding replace_register_group_config group_replaced_reply
  command_replace_register_group_config reply_tx id new_config c world =
      group_replaced_reply reply_tx (replace_register_group_config recorders id new_config c world)

  unfoldable pub state_switched_reply :
      ℕ → State → World → Context St × Result State Error → Handled Stamp V World St
  unfolding outputs_if_ok ignore
  state_switched_reply reply_tx new_state world (c, res) = (
    c,
    world,
    outputs_if_ok res (event (state_changed new_state) ∷ [])
        ++ reply reply_tx (replied (ignore res)) ∷ [],
  )

  unfoldable pub command_switch_state : ℕ → State → Context St → World → Handled Stamp V World St
  unfolding switch_state state_switched_reply
  command_switch_state reply_tx new_state c world =
      state_switched_reply reply_tx new_state world (switch_state new_state c)

  unfoldable pub observation_reply :
      ℕ → Option (Context St × World × Result (Option ℕ) Error) → Option (Handled Stamp V World St)
  unfolding ignore
  observation_reply reply_tx none = none
  observation_reply reply_tx (some (c, world, res)) =
      some (c, world, reply reply_tx (replied (ignore res)) ∷ [])

  unfoldable pub status_reply :
      ℕ → World → Context St × Result Status Error → Handled Stamp V World St
  status_reply reply_tx world (c, res) = (c, world, reply reply_tx (replied_status res) ∷ [])

  unfoldable pub records_reply :
      ℕ
      → World
      → Context St × Option (Result (List (StoredRegisterRecord Stamp V)) Error)
      → Option (Handled Stamp V World St)
  records_reply reply_tx world (c, none) = none
  records_reply reply_tx world (c, some res) =
      some (c, world, reply reply_tx (replied_records res) ∷ [])

  unfoldable pub smoke_reply :
      ℕ → Option (Context St × Made World Unit) → Option (Handled Stamp V World St)
  unfolding created_events
  smoke_reply reply_tx none = none
  smoke_reply reply_tx (some (c, (world, created, res))) =
      some (c, world, created_events created ++ reply reply_tx (replied res) ∷ [])

  unfoldable pub query_config : ℕ → Context St → World → Handled Stamp V World St
  query_config reply_tx c world = (c, world, reply reply_tx (replied_config (ok c.config)) ∷ [])

  unfoldable pub query_register_group_config :
      ℕ → String → Context St → World → Handled Stamp V World St
  unfolding register_group_config
  query_register_group_config reply_tx id c world =
      (c, world, reply reply_tx (replied_group_config (ok (register_group_config c id))) ∷ [])

  unfoldable pub query_status : ℕ → Bool → Bool → Context St → World → Handled Stamp V World St
  unfolding status_reply status
  query_status reply_tx with_groups with_statistics c world =
      status_reply reply_tx world (status recorders with_groups with_statistics world c)

  unfoldable pub query_recent_records :
      ℕ → String → ℕ → Context St → World → Option (Handled Stamp V World St)
  unfolding records_reply recent_records
  query_recent_records reply_tx id limit c world =
      records_reply reply_tx world (recent_records recorders id limit world c)

  unfoldable pub query_filter_records :
      ℕ → String → ℕ → RecordPreludeFilter → Context St → World → Option (Handled Stamp V World St)
  unfolding records_reply filter_records
  query_filter_records reply_tx id limit filter c world =
      records_reply reply_tx world (filter_records recorders id limit filter world c)

  unfoldable pub command_record_observed_register_group_values :
      ℕ
      → String
      → ObservedRegisterValues Stamp V
      → SystemInstant
      → Context St
      → World
      → Option (Handled Stamp V World St)
  unfolding observation_reply record_observed_register_group_values
  command_record_observed_register_group_values reply_tx id values now c world =
      observation_reply reply_tx
        (record_observed_register_group_values recorders id values now c world)

  unfoldable pub command_shutdown : ℕ → Context St → World → Handled Stamp V World St
  command_shutdown reply_tx c world = (c, world, reply reply_tx (replied (ok tt)) ∷ [])
