-- ===== src/Legacy/Runtime/Timeouts.antt =====
-- The timeouts in a cycle of crates/msr-legacy/src/runtime.rs.
use msr.Prelude.{
  ℕ, ◌-◌, String, ◌≡◌, refl, ap, ◌∙◌, Bool, true, false, Option, none, some, List, [], ◌∷◌, arith,
  str_eq, eq_iff, if◌then◌else◌, All, for_each, for_each_eq, All-find, for_each_All, HashMap, get,
  get-insert, get-remove,
}
use msr.Legacy.Float.{Float}
use msr.Legacy.Value.{Value, decimal, timeout}
use msr.Legacy.State.{ErrorKind, SystemState}
use msr.Legacy.Entities.{Loop, Action, initialize_controller_state}
use msr.Legacy.Fsm.{StateMachine}
use msr.Legacy.Runtime.{
  next, outcome, outcome-finish, measured, action_phase, run_machine, after_machine,
}
use msr.Legacy.Runtime.Loops.{
  SyncRuntime, apply_setpoint, ensure_controller, after_loop, run_loop, control_phase, count_down,
}
use msr.Legacy.Runtime.Actions.{
  apply_output, apply_new_setpoint, apply_memory, apply_reset, apply_controller, apply_timeout,
  apply_action, apply_named, apply_actions,
}

-- A hash map holds no key twice.
abbrev pub IsMap {ℓ} : {V : Type ℓ} → HashMap V → Type ℓ
IsMap [] = Unit
IsMap ((k, v) ∷ m) = (get k m ≡ none) × IsMap m

abbrev pub timeouts_of : {F : Type 0} → SystemState F → HashMap (Value F)
timeouts_of s = s.timeouts

-- A timeout that has run for `dt`, stopping at zero; other values do not change.
abbrev pub lowered : {F : Type 0} → ℕ → Value F → Value F
lowered dt (timeout t) = timeout (t - dt)
lowered dt v = v

abbrev pub lowered_entry : {F : Type 0} → ℕ → Option (Value F) → Option (Value F)
lowered_entry dt none = none
lowered_entry dt (some v) = some (lowered dt v)

-- What a turn for an entry leaves where `old` stood.
abbrev turned : {F : Type 0} → ℕ → Option (Value F) → Option (Value F) → Option (Value F)
turned dt (some (timeout t)) old = some (timeout (t - dt))
turned dt _ old = old

module _ {F : Type 0} ⦃f : Float F⦄ where
  get-count_down :
      (dt : ℕ) (k id : String) (v : Value F) (s : SystemState F)
      → get id (count_down dt (k, v) s).timeouts
        ≡ (if str_eq k id then turned dt (some v) (get id s.timeouts) else get id s.timeouts)
  unfolding count_down
  get-count_down dt k id (timeout t) s =
      ground (
        arith,
        get-insert id k (timeout (t - dt)) s.timeouts,
        get-insert id k (timeout 0) s.timeouts,
      )
  get-count_down dt k id v s = ground arith

  get-for_each :
      (dt : ℕ) (id : String) (m : HashMap (Value F)) (s : SystemState F)
      → IsMap m
      → get id (for_each (count_down dt) m s).timeouts ≡ turned dt (get id m) (get id s.timeouts)
  unfolding for_each get
  get-for_each dt id [] s u = refl
  get-for_each dt id ((k, v) ∷ m) s u = ground (
    arith,
    get-for_each dt id m (count_down dt (k, v) s) u.1,
    get-count_down dt k id v s,
    eq_iff k id,
  )

  turned_self : (dt : ℕ) (o : Option (Value F)) → turned dt o o ≡ lowered_entry dt o
  turned_self dt none = refl
  turned_self dt (some (timeout t)) = refl
  turned_self dt (some v) = refl

  timeouts-apply_setpoint :
      (rt : SyncRuntime F) (orig : SystemState F) (x : String × Value F) (s : SystemState F)
      → timeouts_of (apply_setpoint rt orig x s) ≡ timeouts_of s
  unfolding apply_setpoint
  timeouts-apply_setpoint rt orig (id, decimal v) s = ground arith
  timeouts-apply_setpoint rt orig (id, _) s = refl

  timeouts-run_loop :
      (dt : ℕ) (l : Loop F) (acc : SystemState F × List ErrorKind)
      → timeouts_of (run_loop dt l acc).0 ≡ timeouts_of acc.0
  unfolding run_loop after_loop ensure_controller initialize_controller_state
  timeouts-run_loop dt l (s, es) = ground arith

  timeouts-control_phase :
      (rt : SyncRuntime F) (s : SystemState F) (dt : ℕ)
      → timeouts_of (control_phase rt s dt).0 ≡ timeouts_of s
  unfolding control_phase
  timeouts-control_phase rt s dt =
      for_each_eq (λ acc. timeouts_of acc.0) _ (timeouts-run_loop dt) _ _
      ∙ for_each_eq timeouts_of _ (timeouts-apply_setpoint rt s) s.setpoints s

  get-measured :
      (rt : SyncRuntime F) (s : SystemState F) (dt : ℕ) (id : String)
      → IsMap s.timeouts
      → get id (measured rt s dt).timeouts ≡ lowered_entry dt (get id s.timeouts)
  unfolding measured
  get-measured rt s dt id u =
      get-for_each dt id s.timeouts (control_phase rt s dt).0 u
      ∙ ap (λ m. turned dt (get id s.timeouts) (get id m)) (timeouts-control_phase rt s dt)
      ∙ turned_self dt (get id s.timeouts)

  -- No action names the timeout, to set or to clear it.
  abbrev pub IsUnnamed : String → SyncRuntime F → Type 0
  IsUnnamed id rt = All (λ a. All (λ x. str_eq x.0 id ≡ false) a.timeouts) rt.actions

  get-apply_timeout :
      (id : String) (x : String × Option ℕ) (s : SystemState F)
      → str_eq x.0 id ≡ false
      → get id (apply_timeout x s).timeouts ≡ get id s.timeouts
  unfolding apply_timeout
  get-apply_timeout id (j, some t) s n = ground (arith, n, get-insert id j (timeout t) s.timeouts)
  get-apply_timeout id (j, none) s n = ground (arith, n, get-remove id j s.timeouts)

  timeouts-apply_reset :
      (rt : SyncRuntime F) (id : String) (b : Bool) (s : SystemState F)
      → timeouts_of (apply_reset rt id b s) ≡ timeouts_of s
  unfolding apply_reset initialize_controller_state
  timeouts-apply_reset rt id true s = ground arith
  timeouts-apply_reset rt id false s = refl

  timeouts-apply_action :
      (id : String) (rt : SyncRuntime F) (orig : SystemState F) (a : Action F) (s : SystemState F)
      → All (λ x. str_eq x.0 id ≡ false) a.timeouts
      → get id (timeouts_of (apply_action rt orig a s)) ≡ get id (timeouts_of s)
  unfolding apply_action apply_output apply_new_setpoint apply_memory apply_controller for_each
  timeouts-apply_action id rt orig a s unnamed =
      for_each_All _ (λ t. get id (timeouts_of t) ≡ get id (timeouts_of s)) _
        (λ x t n h. get-apply_timeout id x t n ∙ h) a.timeouts _ unnamed
        (ap (get id) (
          for_each_eq timeouts_of _ (λ x. timeouts-apply_reset rt x.0 x.1.reset) a.controllers _
          ∙ for_each_eq timeouts_of _ (λ x t. ground arith) a.memory _
          ∙ for_each_eq timeouts_of _ (λ x t. ground arith) a.setpoints _
          ∙ for_each_eq timeouts_of _ (λ x t. ground arith) a.outputs s))

  timeouts-found :
      (id : String) (rt : SyncRuntime F) (orig : SystemState F) (s : SystemState F)
      (found : Option (Action F))
      → ((a : Action F) → found ≡ some a → All (λ x. str_eq x.0 id ≡ false) a.timeouts)
      → get id (timeouts_of (elim found [ some a ↦ apply_action rt orig a s | none ↦ s ]))
        ≡ get id (timeouts_of s)
  timeouts-found id rt orig s none h = refl
  timeouts-found id rt orig s (some a) h = timeouts-apply_action id rt orig a s (h a refl)

  timeouts-apply_actions :
      (id : String) (rt : SyncRuntime F) (orig : SystemState F)
      → IsUnnamed id rt
      → (ids : List String) (s : SystemState F)
      → get id (timeouts_of (apply_actions rt orig ids s)) ≡ get id (timeouts_of s)
  unfolding apply_actions apply_named
  timeouts-apply_actions id rt orig h =
      for_each_eq (λ s. get id (timeouts_of s)) _
        λ a_id s. timeouts-found id rt orig s _ (λ a e. All-find _ _ rt.actions h e)

  timeouts-run_machine :
      (x : String × StateMachine F) (acc : SystemState F × List (List String))
      → timeouts_of (run_machine x acc).0 ≡ timeouts_of acc.0
  unfolding run_machine after_machine
  timeouts-run_machine (id, m) (s, actions) = ground arith

  timeouts-action_phase :
      (id : String) (order : HashMap Bool → HashMap Bool) (rt : SyncRuntime F)
      (orig s : SystemState F)
      → IsUnnamed id rt
      → get id (timeouts_of (action_phase order rt orig s)) ≡ get id (timeouts_of s)
  unfolding action_phase
  timeouts-action_phase id order rt orig s h =
      for_each_eq (λ t. get id (timeouts_of t)) _ (timeouts-apply_actions id rt orig h) _ _
      ∙ ap (get id)
          (for_each_eq (λ acc. timeouts_of acc.0) _ timeouts-run_machine rt.state_machines _)
      ∙ for_each_eq (λ t. get id (timeouts_of t)) _ (timeouts-apply_actions id rt orig h) _ s

  -- Where the timeouts are a map, a cycle lowers each timeout that no action names, to set or to clear
  -- it, by the duration of the cycle, stopping at zero; an entry of that name that is no timeout does
  -- not change, and where there is none there is none afterwards.
  pub next_timeouts :
      (order : HashMap Bool → HashMap Bool) (rt : SyncRuntime F) (s : SystemState F) (dt : ℕ)
      (id : String)
      → IsUnnamed id rt
      → IsMap s.timeouts
      → get id (outcome (next order rt s dt)).timeouts ≡ lowered_entry dt (get id s.timeouts)
  unfolding next
  next_timeouts order rt s dt id h u =
      ap (λ t. get id (timeouts_of t)) (outcome-finish _ _)
      ∙ timeouts-action_phase id order rt s _ h
      ∙ get-measured rt s dt id u
