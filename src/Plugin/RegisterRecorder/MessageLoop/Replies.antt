-- ===== src/Plugin/RegisterRecorder/MessageLoop/Replies.antt =====
-- What the message loop in plugins/csv-register-recorder/src/internal/message_loop.rs replies and
-- publishes.
use msr.Prelude.{
  ℕ, ◌≡◌, refl, Bool, true, false, Option, none, some, List, [], ◌∷◌, ◌++◌, if◌then◌else◌,
}
use msr.Value.{Value}
use msr.Plugin.RegisterRecorder.{Recorders, Context}
use msr.Plugin.RegisterRecorder.Operations.{
  replace_config, replace_register_group_config, switch_state,
}
use msr.Plugin.RegisterRecorder.Observations.{record_observed_register_group_values}
use msr.Plugin.RegisterRecorder.Smoke.{Clocks, SmokeNumbers, smoke_test}
use msr.Plugin.RegisterRecorder.Api.{
  started, stopped, Command, Message, command, query, Output, event,
}
use msr.Plugin.RegisterRecorder.MessageLoop.{
  is_shutdown, handle_command, handle, outputs_before, and_loop, receive, ended, message_loop,
}
use msr.Plugin.RegisterRecorder.Invocations.{
  command_record_observed_register_group_values, command_shutdown, Handled, command_replace_config,
  command_replace_register_group_config, command_switch_state,
}
use msr.Plugin.RegisterRecorder.MessageLoop.Answers.{
  command_sender, sender, senders, replies, IsInner, Answers, Answers-append, IsAnswered,
  config-IsAnswered, group-IsAnswered, state-IsAnswered, observation-IsAnswered, smoke-IsAnswered,
  query-IsAnswered,
}

module _ {Stamp F32 F64 World St : Type 0} (recorders : Recorders Stamp (Value F32 F64) World St)
    (numbers : SmokeNumbers F64) where
  command-IsAnswered :
      (m : Command Stamp (Value F32 F64)) (clocks : Clocks Stamp) (c : Context St) (world : World)
      → IsAnswered (command_sender m ∷ []) (handle_command recorders numbers m clocks c world)
  unfolding command_record_observed_register_group_values command_shutdown handle_command
      command_sender command_replace_config command_replace_register_group_config
      command_switch_state IsAnswered Answers replies IsInner
  command-IsAnswered (Command.replace_config reply_tx new_config) clocks c world =
      config-IsAnswered recorders reply_tx new_config (replace_config recorders new_config c world)
  command-IsAnswered (Command.replace_register_group_config reply_tx id new_config) clocks c world =
      group-IsAnswered recorders reply_tx
        (replace_register_group_config recorders id new_config c world)
  command-IsAnswered (Command.switch_state reply_tx new_state) clocks c world =
      state-IsAnswered recorders reply_tx new_state world (switch_state new_state c)
  command-IsAnswered (Command.record_observed reply_tx id values) clocks c world =
      observation-IsAnswered recorders reply_tx
        (record_observed_register_group_values recorders id values (clocks.now 0) c world)
  command-IsAnswered (Command.shutdown reply_tx) clocks c world = (refl, (tt, tt))
  command-IsAnswered (Command.smoke_test reply_tx) clocks c world =
      smoke-IsAnswered recorders reply_tx (smoke_test recorders numbers clocks c world)

  handle-IsAnswered :
      (m : Message Stamp (Value F32 F64)) (clocks : Clocks Stamp) (c : Context St) (world : World)
      → IsAnswered (sender m ∷ []) (handle recorders numbers m clocks c world)
  unfolding handle sender
  handle-IsAnswered (command m) clocks c world = command-IsAnswered m clocks c world
  handle-IsAnswered (query q) clocks c world = query-IsAnswered recorders q c world

  before-IsAnswered :
      (id : ℕ) (ids : List ℕ) (outputs : List (Output Stamp (Value F32 F64)))
      (o : Option (Handled Stamp (Value F32 F64) World St))
      → Answers (id ∷ []) outputs
      → IsAnswered ids o
      → IsAnswered (id ∷ ids) (outputs_before recorders numbers outputs o)
  unfolding IsAnswered outputs_before
  before-IsAnswered id ids outputs none h k = tt
  before-IsAnswered id ids outputs (some (c, world, rest)) h k =
      Answers-append (id ∷ []) ids outputs rest h k

  and_loop-IsAnswered :
      (exit : Bool) (id : ℕ) (ids : List ℕ)
      (rest : Context St → World → Option (Handled Stamp (Value F32 F64) World St))
      (o : Option (Handled Stamp (Value F32 F64) World St))
      → ((c : Context St) (world : World) → IsAnswered ids (rest c world))
      → IsAnswered (id ∷ []) o
      → IsAnswered (id ∷ (if exit then [] else ids)) (and_loop recorders numbers exit rest o)
  unfolding and_loop IsAnswered
  and_loop-IsAnswered true id ids rest none h k = tt
  and_loop-IsAnswered false id ids rest none h k = tt
  and_loop-IsAnswered true id ids rest (some (c, world, outputs)) h k = k
  and_loop-IsAnswered false id ids rest (some (c, world, outputs)) h k =
      before-IsAnswered id ids outputs (rest c world) k (h c world)

  receive-IsAnswered :
      (messages : List (Message Stamp (Value F32 F64) × Clocks Stamp)) (c : Context St)
      (world : World)
      → IsAnswered (senders messages) (receive recorders numbers messages c world)
  unfolding receive senders IsAnswered Answers replies
  receive-IsAnswered [] c world = (refl, tt)
  receive-IsAnswered ((m, clocks) ∷ messages) c world =
      and_loop-IsAnswered (is_shutdown m) (sender m) (senders messages)
        (receive recorders numbers messages) (handle recorders numbers m clocks c world)
        (receive-IsAnswered messages) (handle-IsAnswered m clocks c world)

  -- What the whole loop has published and replied
  unfoldable pub LoopAnswers : List ℕ → Option (Handled Stamp (Value F32 F64) World St) → Type 0
  unfolding Answers
  LoopAnswers ids none = Unit
  LoopAnswers ids (some (c, world, outputs)) =
      (inner : List (Output Stamp (Value F32 F64))) × (outputs
        ≡ event started ∷ inner ++ event stopped ∷ [])
      × Answers ids inner

  ended-LoopAnswers :
      (ids : List ℕ) (o : Option (Handled Stamp (Value F32 F64) World St))
      → IsAnswered ids o
      → LoopAnswers ids (ended recorders numbers o)
  unfolding LoopAnswers ended IsAnswered
  ended-LoopAnswers ids none h = tt
  ended-LoopAnswers ids (some (c, world, outputs)) h = (outputs, refl, h)

  -- Unless an operation panics, the message loop answers each message up to the first shutdown, and
  -- no other, exactly once and in order; it publishes that it has started before anything else, and
  -- that it has stopped as the last, and neither in between.
  pub message_loop-LoopAnswers :
      (messages : List (Message Stamp (Value F32 F64) × Clocks Stamp)) (c : Context St)
      (world : World)
      → LoopAnswers (senders messages) (message_loop recorders numbers messages c world)
  unfolding message_loop
  message_loop-LoopAnswers messages c world =
      ended-LoopAnswers (senders messages) (receive recorders numbers messages c world)
        (receive-IsAnswered messages c world)
