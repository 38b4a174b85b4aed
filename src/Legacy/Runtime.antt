-- ===== src/Legacy/Runtime.antt =====
-- crates/msr-legacy/src/runtime.rs: one cycle of the closed-loop runtime. Iteration over a map goes
-- through its entries in their order.
pub mod Loops
pub mod Rules
pub mod Actions
pub mod Frame
pub mod Errors
pub mod Timeouts
pub mod Inactive
use msr.Prelude.{
  ℕ, String, ◌≡◌, refl, Bool, Option, none, some, List, [], ◌∷◌, ◌++◌, Result, ok, err, for_each,
  HashMap, get, insert,
}
use msr.Legacy.Float.{Float}
use msr.Legacy.State.{ErrorKind, SystemState}
use msr.Legacy.Fsm.{StateMachine}
use msr.Legacy.Fsm
use msr.Legacy.Runtime.Loops.{SyncRuntime, control_phase, count_down}
use msr.Legacy.Runtime.Rules.{RuntimeError, rules_of, causes_of, rules_state, rule_actions}
use msr.Legacy.Runtime.Actions.{apply_actions}

module _ {F : Type 0} ⦃f : Float F⦄ where
  -- What a machine's move adds to the state and the collected actions.
  unfoldable pub after_machine :
      String
      → Option (String × List String)
      → SystemState F × List (List String)
      → SystemState F × List (List String)
  after_machine m_id none acc = acc
  after_machine m_id (some (to, [])) (s, actions) =
      (record s { state_machines = insert m_id to s.state_machines }, actions)
  after_machine m_id (some (to, a ∷ rest)) (s, actions) =
      (record s { state_machines = insert m_id to s.state_machines }, actions ++ (a ∷ rest) ∷ [])

  -- One turn of the loop over the state machines, on the state and the collected actions.
  unfoldable pub run_machine :
      String × StateMachine F
      → SystemState F × List (List String)
      → SystemState F × List (List String)
  run_machine (m_id, machine) (s, actions) =
      after_machine m_id (Fsm.next machine (get m_id s.state_machines) s) (s, actions)

  -- The rule actions, and the state machines with theirs. `order` is the order in which the map of the
  -- rule states is iterated, which the standard library leaves open.
  unfoldable pub action_phase :
      (HashMap Bool → HashMap Bool) → SyncRuntime F → SystemState F → SystemState F → SystemState F
  action_phase order rt orig s =
      let s1 = for_each (apply_actions rt orig) (rule_actions rt (order s.rules)) s in
      let moved = for_each run_machine rt.state_machines (s1, []) in
      for_each (apply_actions rt orig) moved.1 moved.0

  -- The state in which the rules are checked: after the loops and the timeouts.
  unfoldable pub measured : SyncRuntime F → SystemState F → ℕ → SystemState F
  measured rt orig dt = for_each (count_down dt) orig.timeouts (control_phase rt orig dt).0

  -- `if !errors.is_empty()`
  unfoldable pub finish :
      List ErrorKind → SystemState F → Result (SystemState F) (RuntimeError (SystemState F))
  finish [] s = ok s
  finish (e ∷ es) s = err (record { state = s; causes = e ∷ es })

  -- `next` of the `SyncRuntime`
  unfoldable pub next :
      (HashMap Bool → HashMap Bool)
      → SyncRuntime F
      → SystemState F
      → ℕ
      → Result (SystemState F) (RuntimeError (SystemState F))
  next order rt orig dt =
      let s = measured rt orig dt in
      let checked = rules_state rt s in
      finish ((control_phase rt orig dt).1 ++ causes_of checked)
        (action_phase order rt orig (record s { rules = rules_of checked }))

  -- The state that a cycle leaves, with or without errors.
  abbrev pub outcome : Result (SystemState F) (RuntimeError (SystemState F)) → SystemState F
  outcome (ok s) = s
  outcome (err e) = e.state

  pub outcome-finish : (es : List ErrorKind) (s : SystemState F) → outcome (finish es s) ≡ s
  unfolding finish
  outcome-finish [] s = refl
  outcome-finish (e ∷ es) s = refl
