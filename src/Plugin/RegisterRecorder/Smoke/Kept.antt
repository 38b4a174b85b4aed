-- ===== src/Plugin/RegisterRecorder/Smoke/Kept.antt =====
-- The smoke test and recording in plugins/csv-register-recorder/src/internal/context.rs: exactly the
-- configured groups have a context.
use mathlib.Core.Path.{subst}
use msr.Prelude.{
  ℕ, suc, String, ◌≡◌, sym, inl, inr, Option, none, some, List, [], ◌∷◌, ◌==◌, Bool-cases, Result,
  ok, err, length,
}
use msr.Time.{SystemInstant}
use msr.Value.{Value}
use msr.Register.Recorder.{ObservedRegisterValues, StoredRegisterRecord}
use msr.Plugin.RegisterRecorder.{
  RegisterGroupConfig, State, Config, Error, register_group_unknown, data_format_invalid, io,
  msr_record, msr_storage, other, state_eq, Recorders, Context, Created,
}
use msr.Plugin.RegisterRecorder.Groups.{Made}
use msr.Plugin.RegisterRecorder.Operations.{replace_register_group_config, switch_state}
use msr.Plugin.RegisterRecorder.Observations.{recent_records, record_observed_register_group_values}
use msr.Plugin.RegisterRecorder.Operations.Configured.{IsConfigured, ReplacesConfig}
use msr.Plugin.RegisterRecorder.Operations.Replacing.{ReplacesGroup, replace_group-Replaces}
use msr.Plugin.RegisterRecorder.Operations.Keeping.{Keeps, recent_records-Keeps}
use msr.Plugin.RegisterRecorder.Operations.Recording.{Records, record_observed-Records}
use msr.Plugin.RegisterRecorder.Smoke.{
  Clocks, SmokeNumbers, smoke_group_id, smoke_group_config, smoke_observations, and_record,
  record_each, restored, restore_config, smoke_read, smoke_recorded, smoke_configured, smoke_test,
}

-- If exactly the configured groups have a context, they still do.
unfoldable pub StaysConfigured : {St : Type 0} → Context St → Context St → Type 0
unfolding IsConfigured
StaysConfigured c c' = IsConfigured c → IsConfigured c'

module _ {Stamp V World St : Type 0} (recorders : Recorders Stamp V World St) where
  same-StaysConfigured : (c c' : Context St) → c' ≡ c → StaysConfigured c c'
  unfolding StaysConfigured
  same-StaysConfigured c c' e h = subst (λ x. IsConfigured x) (sym e) h

  pub config-StaysConfigured :
      (new_config : Config) (c : Context St) (world : World) (out : Context St × Made World Config)
      → ReplacesConfig recorders new_config c world out
      → StaysConfigured c out.0
  unfolding ReplacesConfig StaysConfigured
  config-StaysConfigured new_config c world (c', (world', created, err e)) h =
      same-StaysConfigured c c' h.0
  config-StaysConfigured new_config c world (c', (world', created, ok old)) (inl h) =
      same-StaysConfigured c c' h.1
  config-StaysConfigured new_config c world (c', (world', created, ok old)) (inr h) = λ k. h.1

  pub group-StaysConfigured :
      (id : String) (new_config : RegisterGroupConfig) (c : Context St)
      (out : Context St × Made World (Option RegisterGroupConfig))
      → ReplacesGroup recorders id new_config c out
      → StaysConfigured c out.0
  unfolding ReplacesGroup StaysConfigured
  group-StaysConfigured id new_config c (c', (world, created, err e)) h =
      same-StaysConfigured c c' h
  group-StaysConfigured id new_config c (c', (world, created, ok old)) h = h.3

  pub switch_state-StaysConfigured :
      (new_state : State) (c : Context St) → StaysConfigured c (switch_state new_state c).0
  unfolding switch_state StaysConfigured IsConfigured
  switch_state-StaysConfigured new_state c = elim (Bool-cases (state_eq c.state new_state)) [
    | inl e ↦ rw e (λ h. h)
    | inr e ↦ rw e (λ h. h)
  ]

  -- The same for what may panic
  unfoldable pub StaysAfter : {A : Type 0} → Context St → Option (Context St × World × A) → Type 0
  unfolding StaysConfigured
  StaysAfter c none = Unit
  StaysAfter c (some (c', world, a)) = StaysConfigured c c'

  unfoldable pub StaysMade : Context St → Option (Context St × Made World Unit) → Type 0
  unfolding StaysConfigured
  StaysMade c none = Unit
  StaysMade c (some (c', made)) = StaysConfigured c c'

  recorded-StaysAfter :
      (id : String) (observation : ObservedRegisterValues Stamp V) (now : SystemInstant)
      (c : Context St) (world : World) (o : Option (Context St × World × Result (Option ℕ) Error))
      → Records recorders id observation now c world o
      → StaysAfter c o
  unfolding Records StaysAfter StaysConfigured Keeps
  recorded-StaysAfter id observation now c world none h = tt
  recorded-StaysAfter id observation now c world (some (c', world', ok none)) h =
      same-StaysConfigured c c' h.1
  recorded-StaysAfter id observation now c world (some (c', world', ok (some t))) h = h.2.2
  recorded-StaysAfter id observation now c world (some (c', world', err register_group_unknown)) h =
      same-StaysConfigured c c' h.1
  recorded-StaysAfter id observation now c world (some (c', world', err data_format_invalid)) h =
      same-StaysConfigured c c' h.1
  recorded-StaysAfter id observation now c world (some (c', world', err (msr_record e))) h = h.2.2
  recorded-StaysAfter id observation now c world (some (c', world', err (io e))) h = absurd h
  recorded-StaysAfter id observation now c world (some (c', world', err (msr_storage e))) h =
      absurd h
  recorded-StaysAfter id observation now c world (some (c', world', err (other e))) h = absurd h

  pub record-StaysAfter :
      (id : String) (observation : ObservedRegisterValues Stamp V) (now : SystemInstant)
      (c : Context St) (world : World)
      → StaysAfter c (record_observed_register_group_values recorders id observation now c world)
  record-StaysAfter id observation now c world =
      recorded-StaysAfter id observation now c world
        (record_observed_register_group_values recorders id observation now c world)
        (record_observed-Records recorders id observation now c world)

  -- What follows on what keeps the contexts, keeps them too.
  pub after-StaysAfter :
      {A : Type 0} (c c' : Context St) (o : Option (Context St × World × A))
      → StaysConfigured c c'
      → StaysAfter c' o
      → StaysAfter c o
  unfolding StaysAfter StaysConfigured
  after-StaysAfter c c' none h k = tt
  after-StaysAfter c c' (some (c'', world, a)) h k = λ x. k (h x)

  after-StaysMade :
      (c c' : Context St) (o : Option (Context St × Made World Unit))
      → StaysConfigured c c'
      → StaysMade c' o
      → StaysMade c o
  unfolding StaysMade StaysConfigured
  after-StaysMade c c' none h k = tt
  after-StaysMade c c' (some (c'', made)) h k = λ x. k (h x)

  and_record-StaysAfter :
      (c : Context St)
      (rest : Context St → World → Option (Context St × World × Result {0, 0} Unit Error))
      → ((c : Context St) (world : World) → StaysAfter c (rest c world))
      → (o : Option (Context St × World × Result (Option ℕ) Error)) → StaysAfter c o
      → StaysAfter c (and_record recorders rest o)
  unfolding and_record StaysAfter
  and_record-StaysAfter c rest h none k = tt
  and_record-StaysAfter c rest h (some (c', world, err e)) k = k
  and_record-StaysAfter c rest h (some (c', world, ok t)) k =
      after-StaysAfter c c' (rest c' world) k (h c' world)

  record_each-StaysAfter :
      (now : ℕ → SystemInstant) (k : ℕ) (observations : List (ObservedRegisterValues Stamp V))
      (c : Context St) (world : World)
      → StaysAfter c (record_each recorders now k observations c world)
  unfolding record_each StaysAfter StaysConfigured
  record_each-StaysAfter now k [] c world = λ h. h
  record_each-StaysAfter now k (observation ∷ observations) c world =
      and_record-StaysAfter c (record_each recorders now (suc k) observations)
        (record_each-StaysAfter now (suc k) observations)
        (record_observed_register_group_values recorders smoke_group_id observation (now k) c world)
        (record-StaysAfter smoke_group_id observation (now k) c world)

  restored-StaysConfigured :
      (c : Context St) (created : List Created)
      (out : Context St × Made World (Option RegisterGroupConfig))
      → StaysConfigured c out.0
      → StaysConfigured c (restored recorders created out).0
  unfolding restored
  restored-StaysConfigured c created (c', (world, created', err e)) h = h
  restored-StaysConfigured c created (c', (world, created', ok old)) h = h

  restore-StaysConfigured :
      (orig_config : Option RegisterGroupConfig) (world : World) (created : List Created)
      (c : Context St)
      → StaysConfigured c (restore_config recorders orig_config world created c).0
  unfolding restore_config StaysConfigured
  restore-StaysConfigured none world created c = λ h. h
  restore-StaysConfigured (some config) world created c =
      restored-StaysConfigured c created
        (replace_register_group_config recorders smoke_group_id config c world)
        (group-StaysConfigured smoke_group_id config c
          (replace_register_group_config recorders smoke_group_id config c world)
          (replace_group-Replaces recorders smoke_group_id config c world))

  recent-StaysConfigured :
      (id : String) (limit : ℕ) (world : World) (c : Context St)
      → StaysConfigured c (recent_records recorders id limit world c).0
  unfolding StaysConfigured Keeps
  recent-StaysConfigured id limit world c = (recent_records-Keeps recorders id limit world c).2

  read-StaysMade :
      (orig_config : Option RegisterGroupConfig) (n : ℕ) (world : World) (created : List Created)
      (c : Context St)
      (read : Context St × Option (Result (List (StoredRegisterRecord Stamp V)) Error))
      → StaysConfigured c read.0
      → StaysMade c (smoke_read recorders orig_config n world created read)
  unfolding smoke_read StaysMade
  read-StaysMade orig_config n world created c (c', none) h = tt
  read-StaysMade orig_config n world created c (c', some (err e)) h = h
  read-StaysMade orig_config n world created c (c', some (ok records)) h =
      elim (Bool-cases (length records == n)) [
        | inl e ↦ rw e (
            after-StaysMade c c' (some (restore_config recorders orig_config world created c')) h
              (restore-StaysConfigured orig_config world created c'))
        | inr e ↦ rw e tt
      ]

  recorded_all-StaysMade :
      (orig_config : Option RegisterGroupConfig) (n : ℕ) (created : List Created) (c : Context St)
      (o : Option (Context St × World × Result {0, 0} Unit Error))
      → StaysAfter c o
      → StaysMade c (smoke_recorded recorders orig_config n created o)
  unfolding smoke_recorded StaysAfter StaysMade
  recorded_all-StaysMade orig_config n created c none h = tt
  recorded_all-StaysMade orig_config n created c (some (c', world, err e)) h = h
  recorded_all-StaysMade orig_config n created c (some (c', world, ok t)) h =
      after-StaysMade c c'
        (smoke_read recorders orig_config n world created
          (recent_records recorders smoke_group_id n world c'))
        h
        (read-StaysMade orig_config n world created c'
          (recent_records recorders smoke_group_id n world c')
          (recent-StaysConfigured smoke_group_id n world c'))

  configured-StaysMade :
      (now : ℕ → SystemInstant) (observations : List (ObservedRegisterValues Stamp V))
      (c : Context St) (out : Context St × Made World (Option RegisterGroupConfig))
      → StaysConfigured c out.0
      → StaysMade c (smoke_configured recorders now observations out)
  unfolding smoke_configured StaysMade
  configured-StaysMade now observations c (c', (world, created, err e)) h = h
  configured-StaysMade now observations c (c', (world, created, ok orig_config)) h =
      after-StaysMade c c'
        (smoke_recorded recorders orig_config (length observations) created
          (record_each recorders now 0 observations c' world))
        h
        (recorded_all-StaysMade orig_config (length observations) created c'
          (record_each recorders now 0 observations c' world)
          (record_each-StaysAfter now 0 observations c' world))

module _ {Stamp F32 F64 World St : Type 0} (recorders : Recorders Stamp (Value F32 F64) World St)
    (numbers : SmokeNumbers F64) where
  pub smoke_test-StaysMade :
      (clocks : Clocks Stamp) (c : Context St) (world : World)
      → StaysMade recorders c (smoke_test recorders numbers clocks c world)
  unfolding smoke_test
  smoke_test-StaysMade clocks c world =
      configured-StaysMade recorders clocks.now (smoke_observations numbers clocks.stamp) c
        (replace_register_group_config recorders smoke_group_id (smoke_group_config c.config) c
          world)
        (group-StaysConfigured recorders smoke_group_id (smoke_group_config c.config) c
          (replace_register_group_config recorders smoke_group_id (smoke_group_config c.config) c
            world)
          (replace_group-Replaces recorders smoke_group_id (smoke_group_config c.config) c world))
