-- ===== src/Plugin/RegisterRecorder/MessageLoop.antt =====
-- The message loop: plugins/csv-register-recorder/src/internal/message_loop.rs, with what
-- invoke_context_from_message_loop.rs does of each message. The channel is the list of the messages
-- that are received until it is closed, each with the clocks as it is handled; a sender of a reply
-- is a number, and what the loop publishes and replies is a list in order.
pub mod Answers
pub mod Replies
pub mod Kept
use msr.Prelude.{ℕ, Bool, true, false, Option, none, some, List, [], ◌∷◌, ◌++◌, Result}
use msr.Plugin.RegisterRecorder.Api.{
  started, stopped, Command, Query, Message, command, query, Output, event,
}
use msr.Value.{Value}
use msr.Plugin.RegisterRecorder.{State, Config, Error, Recorders, Context}
use msr.Plugin.RegisterRecorder.Operations.{
  register_group_config, switch_state, try_new, replace_config, replace_register_group_config,
}
use msr.Plugin.RegisterRecorder.Observations.{status, recent_records, filter_records}
use msr.Plugin.RegisterRecorder.Smoke.{Clocks, SmokeNumbers, smoke_test}
use msr.Plugin.RegisterRecorder.Invocations.{
  created_events, Handled, command_replace_config, command_replace_register_group_config,
  command_switch_state, smoke_reply, query_config, query_register_group_config, query_status,
  query_recent_records, query_filter_records, command_record_observed_register_group_values,
  command_shutdown,
}

module _ {Stamp V World St : Type 0} (recorders : Recorders Stamp V World St) where
  unfoldable pub handle_query : Query → Context St → World → Option (Handled Stamp V World St)
  unfolding query_config query_register_group_config query_status query_recent_records
      query_filter_records
  handle_query (Query.config reply_tx) c world = some (query_config recorders reply_tx c world)
  handle_query (Query.register_group_config reply_tx id) c world =
      some (query_register_group_config recorders reply_tx id c world)
  handle_query (Query.status reply_tx with_groups with_statistics) c world =
      some (query_status recorders reply_tx with_groups with_statistics c world)
  handle_query (Query.recent_records reply_tx id limit) c world =
      query_recent_records recorders reply_tx id limit c world
  handle_query (Query.filter_records reply_tx id limit filter) c world =
      query_filter_records recorders reply_tx id limit filter c world

unfoldable pub is_shutdown : {Stamp V : Type 0} → Message Stamp V → Bool
is_shutdown (command (Command.shutdown reply_tx)) = true
is_shutdown (command (Command.replace_config reply_tx new_config)) = false
is_shutdown (command (Command.replace_register_group_config reply_tx id new_config)) = false
is_shutdown (command (Command.switch_state reply_tx new_state)) = false
is_shutdown (command (Command.record_observed reply_tx id values)) = false
is_shutdown (command (Command.smoke_test reply_tx)) = false
is_shutdown (query q) = false

module _ {Stamp F32 F64 World St : Type 0} (recorders : Recorders Stamp (Value F32 F64) World St)
    (numbers : SmokeNumbers F64) where
  unfoldable pub handle_command :
      Command Stamp (Value F32 F64)
      → Clocks Stamp
      → Context St
      → World
      → Option (Handled Stamp (Value F32 F64) World St)
  unfolding command_replace_config command_replace_register_group_config command_switch_state
      command_record_observed_register_group_values command_shutdown smoke_reply smoke_test
  handle_command (Command.replace_config reply_tx new_config) clocks c world =
      some (command_replace_config recorders reply_tx new_config c world)
  handle_command (Command.replace_register_group_config reply_tx id new_config) clocks c world =
      some (command_replace_register_group_config recorders reply_tx id new_config c world)
  handle_command (Command.switch_state reply_tx new_state) clocks c world =
      some (command_switch_state recorders reply_tx new_state c world)
  handle_command (Command.record_observed reply_tx id values) clocks c world =
      command_record_observed_register_group_values recorders reply_tx id values (clocks.now 0) c
        world
  handle_command (Command.shutdown reply_tx) clocks c world =
      some (command_shutdown recorders reply_tx c world)
  handle_command (Command.smoke_test reply_tx) clocks c world =
      smoke_reply recorders reply_tx (smoke_test recorders numbers clocks c world)

  unfoldable pub handle :
      Message Stamp (Value F32 F64)
      → Clocks Stamp
      → Context St
      → World
      → Option (Handled Stamp (Value F32 F64) World St)
  unfolding handle_command handle_query
  handle (command m) clocks c world = handle_command m clocks c world
  handle (query q) clocks c world = handle_query recorders q c world

  unfoldable pub outputs_before :
      List (Output Stamp (Value F32 F64))
      → Option (Handled Stamp (Value F32 F64) World St)
      → Option (Handled Stamp (Value F32 F64) World St)
  outputs_before outputs none = none
  outputs_before outputs (some (c, world, outputs')) = some (c, world, outputs ++ outputs')

  -- The rest of the loop, unless it is left
  unfoldable pub and_loop :
      Bool
      → (Context St → World → Option (Handled Stamp (Value F32 F64) World St))
      → Option (Handled Stamp (Value F32 F64) World St)
      → Option (Handled Stamp (Value F32 F64) World St)
  unfolding outputs_before
  and_loop exit rest none = none
  and_loop true rest (some (c, world, outputs)) = some (c, world, outputs)
  and_loop false rest (some (c, world, outputs)) = outputs_before outputs (rest c world)

  -- `while let Some(msg) = message_rx.recv().await`
  unfoldable pub receive :
      List (Message Stamp (Value F32 F64) × Clocks Stamp)
      → Context St
      → World
      → Option (Handled Stamp (Value F32 F64) World St)
  unfolding handle and_loop is_shutdown
  receive [] c world = some (c, world, [])
  receive ((m, clocks) ∷ messages) c world =
      and_loop (is_shutdown m) (receive messages) (handle m clocks c world)

  -- `create_message_loop`: the context, and the events that are published as it is made
  unfoldable pub create_message_loop :
      List ℕ
      → List ℕ
      → Config
      → State
      → World
      → World × List (Output Stamp (Value F32 F64)) × Result (Context St) Error
  unfolding try_new created_events
  create_message_loop data_dir file_name_prefix initial_config initial_state world =
      let (world', created, res) =
        try_new recorders data_dir file_name_prefix initial_config initial_state world in
      (world', created_events created, res)

  unfoldable pub ended :
      Option (Handled Stamp (Value F32 F64) World St)
      → Option (Handled Stamp (Value F32 F64) World St)
  ended none = none
  ended (some (c, world, outputs)) = some (c, world, event started ∷ outputs ++ event stopped ∷ [])

  -- The future that `create_message_loop` returns
  unfoldable pub message_loop :
      List (Message Stamp (Value F32 F64) × Clocks Stamp)
      → Context St
      → World
      → Option (Handled Stamp (Value F32 F64) World St)
  unfolding receive ended
  message_loop messages c world = ended (receive messages c world)
