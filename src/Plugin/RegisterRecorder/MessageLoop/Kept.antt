-- ===== src/Plugin/RegisterRecorder/MessageLoop/Kept.antt =====
-- While the message loop in plugins/csv-register-recorder/src/internal/message_loop.rs runs, exactly the
-- configured groups have a context.
use msr.Prelude.{ℕ, Bool, true, false, Option, none, some, List, [], ◌∷◌, Result}
use msr.Value.{Value}
use msr.Register.Recorder.{StoredRegisterRecord}
use msr.Plugin.RegisterRecorder.{Error, Recorders, Context}
use msr.Plugin.RegisterRecorder.Groups.{Made}
use msr.Plugin.RegisterRecorder.Operations.{replace_config, replace_register_group_config}
use msr.Plugin.RegisterRecorder.Observations.{
  recent_records, filter_records, record_observed_register_group_values,
}
use msr.Plugin.RegisterRecorder.Operations.Configured.{IsConfigured, replace_config-Replaces}
use msr.Plugin.RegisterRecorder.Operations.Replacing.{replace_group-Replaces}
use msr.Plugin.RegisterRecorder.Operations.Keeping.{
  Keeps, status-Keeps, recent_records-Keeps, filter_records-Keeps,
}
use msr.Plugin.RegisterRecorder.Smoke.{Clocks, SmokeNumbers, smoke_test}
use msr.Plugin.RegisterRecorder.Api.{Command, Query, Message, command, query, Output}
use msr.Plugin.RegisterRecorder.MessageLoop.{
  handle_query, is_shutdown, handle_command, handle, outputs_before, and_loop, receive, ended,
  message_loop,
}
use msr.Plugin.RegisterRecorder.Invocations.{
  command_record_observed_register_group_values, command_shutdown, query_config,
  query_register_group_config, query_status, query_recent_records, query_filter_records, Handled,
  config_replaced_reply, command_replace_config, group_replaced_reply,
  command_replace_register_group_config, state_switched_reply, command_switch_state,
  observation_reply, status_reply, records_reply, smoke_reply,
}
use msr.Plugin.RegisterRecorder.Smoke.Kept.{
  StaysConfigured, StaysAfter, StaysMade, config-StaysConfigured, group-StaysConfigured,
  switch_state-StaysConfigured, record-StaysAfter, after-StaysAfter, smoke_test-StaysMade,
}

module _ {Stamp V World St : Type 0} (recorders : Recorders Stamp V World St) where
  -- Replies leave the context as it is.
  smoke_reply-StaysAfter :
      (reply_tx : ℕ) (c : Context St) (o : Option (Context St × Made World Unit))
      → StaysMade recorders c o
      → StaysAfter recorders c (smoke_reply recorders reply_tx o)
  unfolding smoke_reply StaysAfter StaysMade
  smoke_reply-StaysAfter reply_tx c none h = tt
  smoke_reply-StaysAfter reply_tx c (some (c', (world, created, res))) h = h

  observation_reply-StaysAfter :
      (reply_tx : ℕ) (c : Context St) (o : Option (Context St × World × Result (Option ℕ) Error))
      → StaysAfter recorders c o
      → StaysAfter recorders c (observation_reply recorders reply_tx o)
  unfolding observation_reply StaysAfter
  observation_reply-StaysAfter reply_tx c none h = tt
  observation_reply-StaysAfter reply_tx c (some (c', world, res)) h = h

  records_reply-StaysAfter :
      (reply_tx : ℕ) (world : World) (c : Context St)
      (read : Context St × Option (Result (List (StoredRegisterRecord Stamp V)) Error))
      → StaysConfigured c read.0
      → StaysAfter recorders c (records_reply recorders reply_tx world read)
  unfolding records_reply StaysAfter
  records_reply-StaysAfter reply_tx world c (c', none) h = tt
  records_reply-StaysAfter reply_tx world c (c', some res) h = h

  query-StaysAfter :
      (q : Query) (c : Context St) (world : World)
      → StaysAfter recorders c (handle_query recorders q c world)
  unfolding query_config query_register_group_config query_status query_recent_records
      query_filter_records handle_query StaysAfter StaysConfigured status_reply Keeps
  query-StaysAfter (Query.config reply_tx) c world = λ h. h
  query-StaysAfter (Query.register_group_config reply_tx id) c world = λ h. h
  query-StaysAfter (Query.status reply_tx with_groups with_statistics) c world =
      (status-Keeps recorders with_groups with_statistics world c).2
  query-StaysAfter (Query.recent_records reply_tx id limit) c world =
      records_reply-StaysAfter reply_tx world c (recent_records recorders id limit world c)
        (recent_records-Keeps recorders id limit world c).2
  query-StaysAfter (Query.filter_records reply_tx id limit filter) c world =
      records_reply-StaysAfter reply_tx world c (filter_records recorders id limit filter world c)
        (filter_records-Keeps recorders id limit filter world c).2

module _ {Stamp F32 F64 World St : Type 0} (recorders : Recorders Stamp (Value F32 F64) World St)
    (numbers : SmokeNumbers F64) where
  command-StaysAfter :
      (m : Command Stamp (Value F32 F64)) (clocks : Clocks Stamp) (c : Context St) (world : World)
      → StaysAfter recorders c (handle_command recorders numbers m clocks c world)
  unfolding command_record_observed_register_group_values command_shutdown handle_command StaysAfter
      StaysConfigured command_replace_config command_replace_register_group_config
      command_switch_state config_replaced_reply group_replaced_reply state_switched_reply
  command-StaysAfter (Command.replace_config reply_tx new_config) clocks c world =
      config-StaysConfigured recorders new_config c world
        (replace_config recorders new_config c world)
        (replace_config-Replaces recorders new_config c world)
  command-StaysAfter (Command.replace_register_group_config reply_tx id new_config) clocks c world =
      group-StaysConfigured recorders id new_config c
        (replace_register_group_config recorders id new_config c world)
        (replace_group-Replaces recorders id new_config c world)
  command-StaysAfter (Command.switch_state reply_tx new_state) clocks c world =
      switch_state-StaysConfigured recorders new_state c
  command-StaysAfter (Command.record_observed reply_tx id values) clocks c world =
      observation_reply-StaysAfter recorders reply_tx c
        (record_observed_register_group_values recorders id values (clocks.now 0) c world)
        (record-StaysAfter recorders id values (clocks.now 0) c world)
  command-StaysAfter (Command.shutdown reply_tx) clocks c world = λ h. h
  command-StaysAfter (Command.smoke_test reply_tx) clocks c world =
      smoke_reply-StaysAfter recorders reply_tx c (smoke_test recorders numbers clocks c world)
        (smoke_test-StaysMade recorders numbers clocks c world)

  handle-StaysAfter :
      (m : Message Stamp (Value F32 F64)) (clocks : Clocks Stamp) (c : Context St) (world : World)
      → StaysAfter recorders c (handle recorders numbers m clocks c world)
  unfolding handle
  handle-StaysAfter (command m) clocks c world = command-StaysAfter m clocks c world
  handle-StaysAfter (query q) clocks c world = query-StaysAfter recorders q c world

  before-StaysAfter :
      (c : Context St) (outputs : List (Output Stamp (Value F32 F64)))
      (o : Option (Handled Stamp (Value F32 F64) World St))
      → StaysAfter recorders c o
      → StaysAfter recorders c (outputs_before recorders numbers outputs o)
  unfolding outputs_before StaysAfter
  before-StaysAfter c outputs none h = tt
  before-StaysAfter c outputs (some (c', world, rest)) h = h

  and_loop-StaysAfter :
      (exit : Bool) (c : Context St)
      (rest : Context St → World → Option (Handled Stamp (Value F32 F64) World St))
      (o : Option (Handled Stamp (Value F32 F64) World St))
      → ((c : Context St) (world : World) → StaysAfter recorders c (rest c world))
      → StaysAfter recorders c o
      → StaysAfter recorders c (and_loop recorders numbers exit rest o)
  unfolding and_loop StaysAfter
  and_loop-StaysAfter true c rest none h k = tt
  and_loop-StaysAfter false c rest none h k = tt
  and_loop-StaysAfter true c rest (some (c', world, outputs)) h k = k
  and_loop-StaysAfter false c rest (some (c', world, outputs)) h k =
      before-StaysAfter c outputs (rest c' world)
        (after-StaysAfter recorders c c' (rest c' world) k (h c' world))

  receive-StaysAfter :
      (messages : List (Message Stamp (Value F32 F64) × Clocks Stamp)) (c : Context St)
      (world : World)
      → StaysAfter recorders c (receive recorders numbers messages c world)
  unfolding receive StaysAfter StaysConfigured
  receive-StaysAfter [] c world = λ h. h
  receive-StaysAfter ((m, clocks) ∷ messages) c world =
      and_loop-StaysAfter (is_shutdown m) c (receive recorders numbers messages)
        (handle recorders numbers m clocks c world) (receive-StaysAfter messages)
        (handle-StaysAfter m clocks c world)

  -- The context in which a loop ends
  unfoldable pub EndsConfigured : Option (Handled Stamp (Value F32 F64) World St) → Type 0
  unfolding IsConfigured
  EndsConfigured none = Unit
  EndsConfigured (some (c, world, outputs)) = IsConfigured c

  ended-EndsConfigured :
      (c : Context St) (o : Option (Handled Stamp (Value F32 F64) World St))
      → StaysAfter recorders c o
      → IsConfigured c
      → EndsConfigured (ended recorders numbers o)
  unfolding ended EndsConfigured StaysAfter StaysConfigured
  ended-EndsConfigured c none h k = tt
  ended-EndsConfigured c (some (c', world, outputs)) h k = h k

  -- If exactly the configured groups have a context as the message loop starts, and no operation
  -- panics, then the same holds as it ends, whatever messages it has handled.
  pub message_loop-EndsConfigured :
      (messages : List (Message Stamp (Value F32 F64) × Clocks Stamp)) (c : Context St)
      (world : World)
      → IsConfigured c
      → EndsConfigured (message_loop recorders numbers messages c world)
  unfolding message_loop
  message_loop-EndsConfigured messages c world h =
      ended-EndsConfigured c (receive recorders numbers messages c world)
        (receive-StaysAfter messages c world) h
