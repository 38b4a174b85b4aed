-- ===== src/Legacy/Runtime/Actions.antt =====
-- `apply_actions` of crates/msr-legacy/src/runtime.rs
use msr.Prelude.{
  ℕ, String, Bool, true, false, Option, none, some, List, [], ◌∷◌, ◌++◌, str_eq, if◌then◌else◌, any,
  find, for_each, get, insert, remove,
}
use msr.Legacy.Float.{Float}
use msr.Legacy.Value.{timeout}
use msr.Legacy.State.{SystemState, Source, value_of}
use msr.Legacy.Entities.{Action, ControllerAction, initialize_controller_state}
use msr.Legacy.Runtime.Loops.{SyncRuntime}

-- The first occurrence is removed, as `position` and `remove` do.
unfoldable pub remove_first : String → List String → List String
remove_first id [] = []
remove_first id (x ∷ xs) = let rest = remove_first id xs in if str_eq x id then xs else x ∷ rest

-- `ctl.active`
unfoldable pub apply_active : String → Option Bool → List String → List String
apply_active id none inactive = inactive
apply_active id (some true) inactive = remove_first id inactive
apply_active id (some false) inactive =
    if any (λ l. str_eq l id) inactive then inactive else inactive ++ id ∷ []

module _ {F : Type 0} ⦃f : Float F⦄ where
  unfoldable pub apply_output : SystemState F → String × Source F → SystemState F → SystemState F
  apply_output orig (k, src) s = elim (value_of orig src) [
    | some v ↦ record s { io = record s.io { outputs = insert k v s.io.outputs } }
    | none ↦ s
  ]

  unfoldable pub apply_new_setpoint :
      SystemState F → String × Source F → SystemState F → SystemState F
  apply_new_setpoint orig (k, src) s = elim (value_of orig src) [
    | some v ↦ record s { setpoints = insert k v s.setpoints }
    | none ↦ s
  ]

  unfoldable pub apply_memory : SystemState F → String × Source F → SystemState F → SystemState F
  apply_memory orig (k, src) s = elim (value_of orig src) [
    | some v ↦ record s { io = record s.io { mem = insert k v s.io.mem } }
    | none ↦ s
  ]

  -- `ctl.reset`
  unfoldable pub apply_reset : SyncRuntime F → String → Bool → SystemState F → SystemState F
  apply_reset rt id false s = s
  apply_reset rt id true s =
      let s' = record s { controllers = remove id s.controllers } in
      elim (find (λ l. str_eq l.id id) rt.loops) [
        | some l ↦ initialize_controller_state l s'
        | none ↦ s'
      ]

  unfoldable pub apply_controller :
      SyncRuntime F → String × ControllerAction → SystemState F → SystemState F
  apply_controller rt (id, ctl) s =
      let s' = apply_reset rt id ctl.reset s in
      record s' { inactive_loops = apply_active id ctl.active s'.inactive_loops }

  unfoldable pub apply_timeout : String × Option ℕ → SystemState F → SystemState F
  apply_timeout (id, some t) s = elim (get id s.timeouts) [
    | some _ ↦ s
    | none ↦ record s { timeouts = insert id (timeout t) s.timeouts }
  ]
  apply_timeout (id, none) s = record s { timeouts = remove id s.timeouts }

  -- The body of `apply_actions` for an action that is found.
  unfoldable pub apply_action :
      SyncRuntime F → SystemState F → Action F → SystemState F → SystemState F
  apply_action rt orig a s =
      let s1 = for_each (apply_output orig) a.outputs s in
      let s2 = for_each (apply_new_setpoint orig) a.setpoints s1 in
      let s3 = for_each (apply_memory orig) a.memory s2 in
      let s4 = for_each (apply_controller rt) a.controllers s3 in
      for_each apply_timeout a.timeouts s4

  -- One turn of `apply_actions`: an unknown action is skipped.
  unfoldable pub apply_named :
      SyncRuntime F → SystemState F → String → SystemState F → SystemState F
  apply_named rt orig a_id s = elim (find (λ a. str_eq a.id a_id) rt.actions) [
    | some a ↦ apply_action rt orig a s
    | none ↦ s
  ]

  unfoldable pub apply_actions :
      SyncRuntime F → SystemState F → List String → SystemState F → SystemState F
  apply_actions rt orig actions s = for_each (apply_named rt orig) actions s
