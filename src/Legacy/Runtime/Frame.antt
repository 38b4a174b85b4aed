-- ===== src/Legacy/Runtime/Frame.antt =====
-- What no part of a cycle of crates/msr-legacy/src/runtime.rs writes.
use msr.Prelude.{
  ℕ, String, ◌≡◌, refl, ap, ◌∙◌, Bool, true, false, Option, none, some, List, [], ◌∷◌, arith,
  str_eq, Result, ok, err, find, for_each_eq, HashMap,
}
use msr.Legacy.Float.{Float}
use msr.Legacy.Value.{Value, decimal, timeout}
use msr.Legacy.State.{ErrorKind, SystemState, IoState, ControllerState}
use msr.Legacy.Entities.{Loop, Action, loop_next, initialize_controller_state}
use msr.Legacy.Fsm.{StateMachine}
use msr.Legacy.Runtime.{
  next, outcome, outcome-finish, measured, action_phase, run_machine, after_machine,
}
use msr.Legacy.Runtime.Loops.{
  SyncRuntime, apply_setpoint, ensure_controller, after_loop, run_loop, control_phase, count_down,
}
use msr.Legacy.Runtime.Actions.{
  apply_output, apply_new_setpoint, apply_memory, apply_reset, apply_controller, apply_timeout,
  apply_action, apply_named, apply_actions,
}

abbrev pub inputs_of : {F : Type 0} → SystemState F → HashMap (Value F)
inputs_of s = s.io.inputs

module _ {F : Type 0} ⦃f : Float F⦄ where
  inputs-apply_setpoint :
      (rt : SyncRuntime F) (orig : SystemState F) (x : String × Value F) (s : SystemState F)
      → inputs_of (apply_setpoint rt orig x s) ≡ inputs_of s
  unfolding apply_setpoint
  inputs-apply_setpoint rt orig (id, decimal v) s = ground arith
  inputs-apply_setpoint rt orig (id, _) s = refl

  inputs-ensure_controller :
      (l : Loop F) (s : SystemState F) → inputs_of (ensure_controller l s).1 ≡ inputs_of s
  unfolding ensure_controller initialize_controller_state
  inputs-ensure_controller l s = ground arith

  inputs-loop_next :
      (l : Loop F) (c c' : ControllerState F) (io io' : IoState F) (dt : ℕ)
      → loop_next l c io dt ≡ ok (c', io')
      → io'.inputs ≡ io.inputs
  unfolding loop_next
  inputs-loop_next l c c' io io' dt h = ground arith

  inputs-after_loop :
      (id : String) (r : Result (ControllerState F × IoState F) ErrorKind)
      (acc : SystemState F × List ErrorKind)
      → ((c : ControllerState F) (io : IoState F) → r ≡ ok (c, io) → io.inputs ≡ inputs_of acc.0)
      → inputs_of (after_loop id r acc).0 ≡ inputs_of acc.0
  unfolding after_loop
  inputs-after_loop id (ok (c, io)) acc h = h c io refl
  inputs-after_loop id (err e) acc h = refl

  inputs-run_loop :
      (dt : ℕ) (l : Loop F) (acc : SystemState F × List ErrorKind)
      → inputs_of (run_loop dt l acc).0 ≡ inputs_of acc.0
  unfolding run_loop
  inputs-run_loop dt l (s, es) =
      inputs-after_loop l.id _ _ (λ c io h. inputs-loop_next l _ c _ io dt h)
      ∙ inputs-ensure_controller l s

  inputs-count_down :
      (dt : ℕ) (x : String × Value F) (s : SystemState F)
      → inputs_of (count_down dt x s) ≡ inputs_of s
  unfolding count_down
  inputs-count_down dt (id, timeout t) s = ground arith
  inputs-count_down dt (id, _) s = refl

  inputs-measured :
      (rt : SyncRuntime F) (s : SystemState F) (dt : ℕ) → inputs_of (measured rt s dt) ≡ inputs_of s
  unfolding measured control_phase
  inputs-measured rt s dt =
      for_each_eq inputs_of _ (inputs-count_down dt) s.timeouts _
      ∙ for_each_eq (λ acc. inputs_of acc.0) _ (inputs-run_loop dt) _ _
      ∙ for_each_eq inputs_of _ (inputs-apply_setpoint rt s) s.setpoints s

  inputs-apply_timeout :
      (x : String × Option ℕ) (s : SystemState F) → inputs_of (apply_timeout x s) ≡ inputs_of s
  unfolding apply_timeout
  inputs-apply_timeout (id, some t) s = ground arith
  inputs-apply_timeout (id, none) s = refl

  inputs-apply_reset :
      (rt : SyncRuntime F) (id : String) (b : Bool) (s : SystemState F)
      → inputs_of (apply_reset rt id b s) ≡ inputs_of s
  unfolding apply_reset initialize_controller_state
  inputs-apply_reset rt id true s = ground arith
  inputs-apply_reset rt id false s = refl

  inputs-apply_action :
      (rt : SyncRuntime F) (orig : SystemState F) (a : Action F) (s : SystemState F)
      → inputs_of (apply_action rt orig a s) ≡ inputs_of s
  unfolding apply_action apply_output apply_new_setpoint apply_memory apply_controller
  inputs-apply_action rt orig a s =
      for_each_eq inputs_of _ inputs-apply_timeout a.timeouts _
      ∙ for_each_eq inputs_of _ (λ x. inputs-apply_reset rt x.0 x.1.reset) a.controllers _
      ∙ for_each_eq inputs_of _ (λ x t. ground arith) a.memory _
      ∙ for_each_eq inputs_of _ (λ x t. ground arith) a.setpoints _
      ∙ for_each_eq inputs_of _ (λ x t. ground arith) a.outputs s

  inputs-apply_named :
      (rt : SyncRuntime F) (orig : SystemState F) (id : String) (s : SystemState F)
      → inputs_of (apply_named rt orig id s) ≡ inputs_of s
  unfolding apply_named
  inputs-apply_named rt orig id s =
      elim (find (λ a. str_eq a.id id) rt.actions)
        as (λ found.
          inputs_of (elim found [ some a ↦ apply_action rt orig a s | none ↦ s ]) ≡ inputs_of s) [
            | some a ↦ inputs-apply_action rt orig a s
            | none ↦ refl
          ]

  inputs-apply_actions :
      (rt : SyncRuntime F) (orig : SystemState F) (ids : List String) (s : SystemState F)
      → inputs_of (apply_actions rt orig ids s) ≡ inputs_of s
  unfolding apply_actions
  inputs-apply_actions rt orig = for_each_eq inputs_of _ (inputs-apply_named rt orig)

  inputs-after_machine :
      (id : String) (move : Option (String × List String))
      (acc : SystemState F × List (List String))
      → inputs_of (after_machine id move acc).0 ≡ inputs_of acc.0
  unfolding after_machine
  inputs-after_machine id none acc = refl
  inputs-after_machine id (some (to, [])) acc = refl
  inputs-after_machine id (some (to, a ∷ rest)) acc = refl

  inputs-run_machine :
      (x : String × StateMachine F) (acc : SystemState F × List (List String))
      → inputs_of (run_machine x acc).0 ≡ inputs_of acc.0
  unfolding run_machine
  inputs-run_machine (id, m) (s, actions) = inputs-after_machine id _ (s, actions)

  inputs-action_phase :
      (order : HashMap Bool → HashMap Bool) (rt : SyncRuntime F) (orig s : SystemState F)
      → inputs_of (action_phase order rt orig s) ≡ inputs_of s
  unfolding action_phase
  inputs-action_phase order rt orig s =
      for_each_eq inputs_of _ (inputs-apply_actions rt orig) _ _
      ∙ for_each_eq (λ acc. inputs_of acc.0) _ inputs-run_machine rt.state_machines _
      ∙ for_each_eq inputs_of _ (inputs-apply_actions rt orig) _ s

  -- A cycle, whether it succeeds or reports errors, never writes an input.
  next-inputs :
      (order : HashMap Bool → HashMap Bool) (rt : SyncRuntime F) (s : SystemState F) (dt : ℕ)
      → (outcome (next order rt s dt)).io.inputs ≡ s.io.inputs
  unfolding next
  next-inputs order rt s dt =
      ap inputs_of (outcome-finish _ _) ∙ inputs-action_phase order rt s _ ∙ inputs-measured rt s dt
