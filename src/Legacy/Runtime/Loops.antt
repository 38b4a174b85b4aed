-- ===== src/Legacy/Runtime/Loops.antt =====
-- The loops of crates/msr-legacy/src/runtime.rs over setpoints, control loops and timeouts.
use msr.Prelude.{
  ℕ, ◌-◌, String, Bool, not, none, some, List, [], ◌∷◌, ◌++◌, str_eq, leb, if◌then◌else◌, Result,
  ok, err, any, keep, for_each, HashMap, get, insert,
}
use msr.Legacy.Float.{Float}
use msr.Legacy.Value.{Value, decimal, timeout}
use msr.Legacy.State.{ErrorKind, ControllerState, IoState, SystemState}
use msr.Legacy.Entities.{
  Loop, Rule, Action, loop_next, initial_controller, initialize_controller_state,
}
use msr.Legacy.Fsm.{StateMachine}

pub record SyncRuntime (F : Type 0) : Type 0 where
  pub loops : List (Loop F)
  pub rules : List (Rule F)
  pub actions : List (Action F)
  pub state_machines : HashMap (StateMachine F)

module _ {F : Type 0} ⦃f : Float F⦄ where
  -- The state of a controller with its target or threshold replaced.
  unfoldable pub retarget : F → ControllerState F → ControllerState F
  retarget v (ControllerState.pid pid) = ControllerState.pid (record pid { target = v })
  retarget v (ControllerState.bang_bang bb) =
      ControllerState.bang_bang (record bb { threshold = v })

  -- One turn of the loop over the setpoints.
  unfoldable pub apply_setpoint :
      SyncRuntime F → SystemState F → String × Value F → SystemState F → SystemState F
  apply_setpoint rt orig (id, decimal v) s =
      if any (λ l. str_eq l.id id) rt.loops
      then elim (get id orig.controllers) [
        | some c ↦ record s { controllers = insert id (retarget v c) s.controllers }
        | none ↦ s
      ]
      else s
  apply_setpoint rt orig (id, _) s = s

  -- The controller state of a loop, initialized if there is none, and the state that holds it.
  unfoldable pub ensure_controller : Loop F → SystemState F → ControllerState F × SystemState F
  ensure_controller l s = elim (get l.id s.controllers) [
    | some c ↦ (c, s)
    | none ↦ (initial_controller l.controller, initialize_controller_state l s)
  ]

  -- `match res`: a loop that fails leaves the state, and adds its error.
  unfoldable pub after_loop :
      String
      → Result (ControllerState F × IoState F) ErrorKind
      → SystemState F × List ErrorKind
      → SystemState F × List ErrorKind
  after_loop id (ok (c, io)) (s, errors) =
      (record s { io = io; controllers = insert id c s.controllers }, errors)
  after_loop id (err e) (s, errors) = (s, errors ++ e ∷ [])

  -- One turn of the loop over the loops, on the state and the collected errors.
  unfoldable pub run_loop :
      ℕ → Loop F → SystemState F × List ErrorKind → SystemState F × List ErrorKind
  run_loop dt l (s, errors) =
      let (c, s') = ensure_controller l s in after_loop l.id (loop_next l c s'.io dt) (s', errors)

  unfoldable pub is_active : SystemState F → Loop F → Bool
  is_active s l = not (any (λ x. str_eq x l.id) s.inactive_loops)

  -- The setpoints and the active loops: the state before the timeouts, and the errors.
  unfoldable pub control_phase : SyncRuntime F → SystemState F → ℕ → SystemState F × List ErrorKind
  control_phase rt orig dt =
      let s = for_each (apply_setpoint rt orig) orig.setpoints orig in
      for_each (run_loop dt) (keep (is_active s) rt.loops) (s, [])

  -- One turn of the loop over the timeouts.
  unfoldable pub count_down : ℕ → String × Value F → SystemState F → SystemState F
  count_down dt (id, timeout t) s =
      if leb dt t
      then record s { timeouts = insert id (timeout (t - dt)) s.timeouts }
      else record s { timeouts = insert id (timeout 0) s.timeouts }
  count_down dt (id, _) s = s
