-- ===== src/Plugin/RegisterRecorder/Operations/Recording.antt =====
-- When an observation is recorded in
-- plugins/csv-register-recorder/src/internal/context.rs.
use msr.Prelude.{
  ℕ, String, ◌≡◌, refl, ap, ◌≢◌, ◌⊎◌, inl, inr, true, Option, none, some, arith, ◌==◌, ==_iff,
  Bool-cases, Result, ok, err, length, get, insert,
}
use msr.Time.{SystemInstant}
use msr.Register.Recorder.{RecorderError, ObservedRegisterValues}
use msr.Plugin.RegisterRecorder.{
  RegisterGroupConfig, State, inactive, active, Error, register_group_unknown, data_format_invalid,
  io, msr_record, msr_storage, other, Recorders, Context,
}
use msr.Register.Recorder.Csv.{map_ok}
use msr.Plugin.RegisterRecorder.Observations.{
  with_error, set_group, observation_appended, record_in, record_configured, record_in_state,
  record_observed_register_group_values,
}
use msr.Plugin.RegisterRecorder.Operations.Configured.{is_some}
use msr.Plugin.RegisterRecorder.Operations.Keeping.{Keeps, set_group-Keeps}

module _ {Stamp V World St : Type 0} (recorders : Recorders Stamp V World St) where
  -- The group is configured, with as many registers as there are values, and has a context.
  unfoldable pub IsAccepted : String → ObservedRegisterValues Stamp V → Context St → Type 0
  unfolding get
  IsAccepted id observation c =
      (c.state ≡ active)
      × ((config : RegisterGroupConfig) × (get id c.config.register_groups ≡ some config)
          × (length config.registers ≡ length observation.register_values))
      × (is_some (get id c.register_groups) ≡ true)

  -- The storage of the group has appended the observation: it is replaced by what that leaves, and
  -- nothing else of the context changes.
  abbrev pub Appends :
      String
      → ObservedRegisterValues Stamp V
      → SystemInstant
      → Context St
      → World
      → Context St
      → World
      → Result ℕ RecorderError
      → Type 0
  Appends id observation now c world c' world' res =
      (context : St) × (context' : St) × (get id c.register_groups ≡ some context)
      × (recorders.append_record now (record { created_at_offset = 0; observation = observation })
            world context
          ≡ some (context', world', res))
      × (c' ≡ record c { register_groups = insert id context' c.register_groups })

  -- What recording an observation has done
  unfoldable pub Records :
      String
      → ObservedRegisterValues Stamp V
      → SystemInstant
      → Context St
      → World
      → Option (Context St × World × Result (Option ℕ) Error)
      → Type 0
  unfolding Keeps IsAccepted get
  Records id observation now c world none =
      IsAccepted id observation c
      × ((context : St) × (get id c.register_groups ≡ some context)
          × (recorders.append_record now
                (record { created_at_offset = 0; observation = observation }) world context
              ≡ none))
  Records id observation now c world (some (c', world', ok none)) =
      (c.state ≡ inactive) × (c' ≡ c) × (world' ≡ world)
  Records id observation now c world (some (c', world', ok (some created_at))) =
      IsAccepted id observation c
      × Appends id observation now c world c' world' (ok created_at)
      × Keeps c c'
  Records id observation now c world (some (c', world', err register_group_unknown)) =
      (c.state ≡ active)
      × (c' ≡ c)
      × (world' ≡ world)
      × ((get id c.config.register_groups ≡ none) ⊎ (get id c.register_groups ≡ none))
  Records id observation now c world (some (c', world', err data_format_invalid)) =
      (c.state ≡ active)
      × (c' ≡ c)
      × (world' ≡ world)
      × ((config : RegisterGroupConfig) × (get id c.config.register_groups ≡ some config)
          × (length config.registers ≢ length observation.register_values))
  Records id observation now c world (some (c', world', err (msr_record e))) =
      IsAccepted id observation c
      × Appends id observation now c world c' world' (err e)
      × Keeps c c'
  Records id observation now c world (some (c', world', err (io e))) = ⊥
  Records id observation now c world (some (c', world', err (msr_storage e))) = ⊥
  Records id observation now c world (some (c', world', err (other e))) = ⊥

  appended-Records :
      (id : String) (observation : ObservedRegisterValues Stamp V) (now : SystemInstant)
      (c : Context St) (world : World) (context : St)
      → get id c.register_groups ≡ some context
      → IsAccepted id observation c
      → (o : Option (St × World × Result ℕ RecorderError))
      → recorders.append_record now
          (record { created_at_offset = 0; observation = observation })
          world
          context
        ≡ o
      → Records id observation now c world (observation_appended recorders id c o)
  unfolding Records observation_appended with_error map_ok set_group
  appended-Records id observation now c world context h accepted none e =
      (accepted, (context, h, e))
  appended-Records id observation now c world context h accepted (some (context', world', ok t)) e =
      (accepted, (context, context', h, e, refl), set_group-Keeps id c context context' h)
  appended-Records id observation now c world context h accepted (some (context', world', err x))
        e =
      (accepted, (context, context', h, e, refl), set_group-Keeps id c context context' h)

  record_in-Records :
      (id : String) (observation : ObservedRegisterValues Stamp V) (now : SystemInstant)
      (c : Context St) (world : World) (config : RegisterGroupConfig)
      → c.state ≡ active
      → get id c.config.register_groups ≡ some config
      → length config.registers ≡ length observation.register_values
      → (o : Option St) → get id c.register_groups ≡ o
      → Records id observation now c world (record_in recorders id observation now c world o)
  unfolding record_in Records IsAccepted
  record_in-Records id observation now c world config is h count none missing =
      (is, refl, refl, inr missing)
  record_in-Records id observation now c world config is h count (some context) present =
      appended-Records id observation now c world context present
        (is, (config, h, count), ap is_some present)
        (recorders.append_record now (record { created_at_offset = 0; observation = observation })
          world context)
        refl

  configured-Records :
      (id : String) (observation : ObservedRegisterValues Stamp V) (now : SystemInstant)
      (c : Context St) (world : World)
      → c.state ≡ active
      → (o : Option RegisterGroupConfig) → get id c.config.register_groups ≡ o
      → Records id observation now c world
          (record_configured recorders id observation now c world o)
  unfolding record_configured Records
  configured-Records id observation now c world is none missing = (is, refl, refl, inl missing)
  configured-Records id observation now c world is (some config) h =
      elim (Bool-cases (length config.registers == length observation.register_values)) [
        | inl e ↦ rw e (
            record_in-Records id observation now c world config is h
              ((==_iff (length config.registers) (length observation.register_values)).0 e)
              (get id c.register_groups) refl)
        | inr e ↦ rw e (is, refl, refl, (config, h, λ same. ground (arith, e, same)))
      ]

  state-Records :
      (id : String) (observation : ObservedRegisterValues Stamp V) (now : SystemInstant)
      (c : Context St) (world : World) (state : State)
      → c.state ≡ state
      → Records id observation now c world
          (record_in_state recorders state id observation now c world)
  unfolding record_in_state Records
  state-Records id observation now c world inactive is = (is, refl, refl)
  state-Records id observation now c world active is =
      configured-Records id observation now c world is (get id c.config.register_groups) refl

  -- While inactive, an observation is discarded, and nothing changes. While active, it is rejected,
  -- and nothing changes, if the group is not configured or has no context, and with another error if
  -- the numbers of registers and values differ. Otherwise the storage of the group appends it, the
  -- result is that of appending, time stamp or error, and of the context only that storage changes; it
  -- panics only if appending does.
  pub record_observed-Records :
      (id : String) (observation : ObservedRegisterValues Stamp V) (now : SystemInstant)
      (c : Context St) (world : World)
      → Records id observation now c world
          (record_observed_register_group_values recorders id observation now c world)
  unfolding record_observed_register_group_values
  record_observed-Records id observation now c world =
      state-Records id observation now c world c.state refl
