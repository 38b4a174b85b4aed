-- ===== src/Plugin/RegisterRecorder/MessageLoop/Answers.antt =====
-- What the message loop in plugins/csv-register-recorder/src/internal/message_loop.rs replies to a
-- message, and publishes.
use msr.Prelude.{
  ℕ, ◌≡◌, refl, ap, ◌∙◌, Option, none, some, List, [], ◌∷◌, ◌++◌, if◌then◌else◌, Result, ok, err,
  All, All-append,
}
use msr.Register.Recorder.{StoredRegisterRecord}
use msr.Plugin.RegisterRecorder.{
  RegisterGroupConfig, State, Config, Error, Recorders, Context, Created,
}
use msr.Plugin.RegisterRecorder.Groups.{Made}
use msr.Plugin.RegisterRecorder.Observations.{recent_records, filter_records}
use msr.Plugin.RegisterRecorder.Smoke.{Clocks}
use msr.Plugin.RegisterRecorder.Api.{
  Event, started, stopped, config_changed, state_changed, data_directory_created, Command, Query,
  Message, command, query, Reply, replied, replied_config, replied_group_config, Output, event,
  reply,
}
use msr.Plugin.RegisterRecorder.MessageLoop.{handle_query, is_shutdown}
use msr.Plugin.RegisterRecorder.Invocations.{
  query_config, query_register_group_config, query_status, query_recent_records,
  query_filter_records, ignore, outputs_if_ok, created_events, Handled, config_replaced_reply,
  group_replaced_reply, state_switched_reply, observation_reply, status_reply, records_reply,
  smoke_reply,
}

-- The sender of the reply to a message
unfoldable pub command_sender : {Stamp V : Type 0} → Command Stamp V → ℕ
command_sender (Command.replace_config reply_tx new_config) = reply_tx
command_sender (Command.replace_register_group_config reply_tx id new_config) = reply_tx
command_sender (Command.switch_state reply_tx new_state) = reply_tx
command_sender (Command.record_observed reply_tx id values) = reply_tx
command_sender (Command.shutdown reply_tx) = reply_tx
command_sender (Command.smoke_test reply_tx) = reply_tx

unfoldable pub query_sender : Query → ℕ
query_sender (Query.config reply_tx) = reply_tx
query_sender (Query.register_group_config reply_tx id) = reply_tx
query_sender (Query.status reply_tx with_groups with_statistics) = reply_tx
query_sender (Query.recent_records reply_tx id limit) = reply_tx
query_sender (Query.filter_records reply_tx id limit filter) = reply_tx

unfoldable pub sender : {Stamp V : Type 0} → Message Stamp V → ℕ
unfolding command_sender query_sender
sender (command m) = command_sender m
sender (query q) = query_sender q

-- The senders of the messages up to the first shutdown
unfoldable pub senders : {Stamp V : Type 0} → List (Message Stamp V × Clocks Stamp) → List ℕ
unfolding sender is_shutdown
senders [] = []
senders ((m, clocks) ∷ messages) =
    let rest = senders messages in sender m ∷ (if is_shutdown m then [] else rest)

-- The senders of the replies among the outputs
unfoldable pub replies : {Stamp V : Type 0} → List (Output Stamp V) → List ℕ
replies [] = []
replies (event e ∷ outputs) = replies outputs
replies (reply reply_tx r ∷ outputs) = reply_tx ∷ replies outputs

-- Not the start and the end of the loop
unfoldable pub IsInner : {Stamp V : Type 0} → Output Stamp V → Type 0
IsInner (event started) = ⊥
IsInner (event stopped) = ⊥
IsInner (event (config_changed config)) = Unit
IsInner (event (state_changed state)) = Unit
IsInner (event (data_directory_created id path)) = Unit
IsInner (reply reply_tx r) = Unit

module _ {Stamp V : Type 0} where
  unfoldable pub Answers : List ℕ → List (Output Stamp V) → Type 0
  unfolding replies IsInner
  Answers ids outputs = (replies outputs ≡ ids) × All IsInner outputs

  replies-append : (xs ys : List (Output Stamp V)) → replies (xs ++ ys) ≡ replies xs ++ replies ys
  unfolding replies
  replies-append [] ys = refl
  replies-append (event e ∷ xs) ys = replies-append xs ys
  replies-append (reply reply_tx r ∷ xs) ys = ap (λ ids. reply_tx ∷ ids) (replies-append xs ys)

  pub Answers-append :
      (is js : List ℕ) (xs ys : List (Output Stamp V))
      → Answers is xs
      → Answers js ys
      → Answers (is ++ js) (xs ++ ys)
  unfolding Answers
  Answers-append is js xs ys h k = (
    replies-append xs ys ∙ ap (λ ids. ids ++ replies ys) h.0 ∙ ap (λ ids. is ++ ids) k.0,
    All-append IsInner xs ys h.1 k.1,
  )

  reply-Answers :
      (reply_tx : ℕ) (r : Reply Stamp V) → Answers (reply_tx ∷ []) (reply reply_tx r ∷ [])
  unfolding Answers replies IsInner
  reply-Answers reply_tx r = (refl, (tt, tt))

module _ (Stamp V : Type 0) where
  created_events-Answers :
      (created : List Created) → Answers {Stamp = Stamp} {V = V} [] (created_events created)
  unfolding Answers created_events replies IsInner
  created_events-Answers [] = (refl, tt)
  created_events-Answers ((id, path) ∷ created) =
      let (h, k) = created_events-Answers created in (h, (tt, k))

  if_ok-Answers :
      {A : Type 0} (res : Result A Error) (e : Event)
      → IsInner {Stamp = Stamp} {V = V} (event e)
      → Answers {Stamp = Stamp} {V = V} [] (outputs_if_ok res (event e ∷ []))
  unfolding Answers outputs_if_ok replies
  if_ok-Answers (ok a) e h = (refl, (h, tt))
  if_ok-Answers (err x) e h = (refl, tt)

module _ {Stamp V : Type 0} where
  -- The outputs of a command that may publish events
  events_reply-Answers :
      {A : Type 0} (created : List Created) (res : Result A Error) (e : Event) (reply_tx : ℕ)
      (r : Reply Stamp V)
      → IsInner {Stamp = Stamp} {V = V} (event e)
      → Answers
          (reply_tx ∷ [])
          (created_events created ++ outputs_if_ok res (event e ∷ []) ++ reply reply_tx r ∷ [])
  events_reply-Answers created res e reply_tx r h =
      Answers-append ([] ++ []) (reply_tx ∷ [])
        (created_events created ++ outputs_if_ok res (event e ∷ [])) (reply reply_tx r ∷ [])
        (Answers-append [] [] (created_events created) (outputs_if_ok res (event e ∷ []))
          (created_events-Answers Stamp V created) (if_ok-Answers Stamp V res e h))
        (reply-Answers reply_tx r)

module _ {Stamp V World St : Type 0} where
  -- A message that is handled is answered once.
  unfoldable pub IsAnswered : List ℕ → Option (Handled Stamp V World St) → Type 0
  unfolding Answers
  IsAnswered ids none = Unit
  IsAnswered ids (some (c, world, outputs)) = Answers ids outputs

module _ {Stamp V World St : Type 0} (recorders : Recorders Stamp V World St) where
  pub config-IsAnswered :
      (reply_tx : ℕ) (new_config : Config) (made : Context St × Made World Config)
      → IsAnswered (reply_tx ∷ []) (some (config_replaced_reply recorders reply_tx new_config made))
  unfolding IsAnswered config_replaced_reply IsInner
  config-IsAnswered reply_tx new_config (c, (world, created, res)) =
      events_reply-Answers created res (config_changed new_config) reply_tx (replied_config res) tt

  pub group-IsAnswered :
      (reply_tx : ℕ) (made : Context St × Made World (Option RegisterGroupConfig))
      → IsAnswered (reply_tx ∷ []) (some (group_replaced_reply recorders reply_tx made))
  unfolding IsAnswered group_replaced_reply IsInner
  group-IsAnswered reply_tx (c, (world, created, res)) =
      events_reply-Answers created res (config_changed c.config) reply_tx (replied_group_config res)
        tt

  pub state-IsAnswered :
      (reply_tx : ℕ) (new_state : State) (world : World)
      (switched : Context St × Result State Error)
      → IsAnswered
          (reply_tx ∷ [])
          (some (state_switched_reply recorders reply_tx new_state world switched))
  unfolding IsAnswered state_switched_reply IsInner created_events
  state-IsAnswered reply_tx new_state world (c, res) =
      events_reply-Answers [] res (state_changed new_state) reply_tx (replied (ignore res)) tt

  pub observation-IsAnswered :
      (reply_tx : ℕ) (o : Option (Context St × World × Result (Option ℕ) Error))
      → IsAnswered (reply_tx ∷ []) (observation_reply recorders reply_tx o)
  unfolding IsAnswered observation_reply Answers replies IsInner
  observation-IsAnswered reply_tx none = tt
  observation-IsAnswered reply_tx (some (c, world, res)) = (refl, (tt, tt))

  pub smoke-IsAnswered :
      (reply_tx : ℕ) (o : Option (Context St × Made World Unit))
      → IsAnswered (reply_tx ∷ []) (smoke_reply recorders reply_tx o)
  unfolding IsAnswered smoke_reply Answers replies IsInner
  smoke-IsAnswered reply_tx none = tt
  smoke-IsAnswered reply_tx (some (c, (world, created, res))) =
      Answers-append [] (reply_tx ∷ []) (created_events created) (reply reply_tx (replied res) ∷ [])
        (created_events-Answers Stamp V created) (refl, (tt, tt))

  records-IsAnswered :
      (reply_tx : ℕ) (world : World)
      (read : Context St × Option (Result (List (StoredRegisterRecord Stamp V)) Error))
      → IsAnswered (reply_tx ∷ []) (records_reply recorders reply_tx world read)
  unfolding IsAnswered records_reply Answers replies IsInner
  records-IsAnswered reply_tx world (c, none) = tt
  records-IsAnswered reply_tx world (c, some res) = (refl, (tt, tt))

  pub query-IsAnswered :
      (q : Query) (c : Context St) (world : World)
      → IsAnswered (query_sender q ∷ []) (handle_query recorders q c world)
  unfolding query_config query_register_group_config query_status query_recent_records
      query_filter_records IsAnswered handle_query query_sender status_reply Answers replies IsInner
  query-IsAnswered (Query.config reply_tx) c world = (refl, (tt, tt))
  query-IsAnswered (Query.register_group_config reply_tx id) c world = (refl, (tt, tt))
  query-IsAnswered (Query.status reply_tx with_groups with_statistics) c world = (refl, (tt, tt))
  query-IsAnswered (Query.recent_records reply_tx id limit) c world =
      records-IsAnswered reply_tx world (recent_records recorders id limit world c)
  query-IsAnswered (Query.filter_records reply_tx id limit filter) c world =
      records-IsAnswered reply_tx world (filter_records recorders id limit filter world c)
