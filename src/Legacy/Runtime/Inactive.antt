-- ===== src/Legacy/Runtime/Inactive.antt =====
-- The list of inactive loops in crates/msr-legacy/src/runtime.rs.
use mathlib.Core.Path.{subst}
use msr.Prelude.{
  ℕ, String, ◌≡◌, refl, sym, ap, ◌∙◌, inl, inr, Bool, true, false, not, ◌||◌, Option, none, some,
  List, [], ◌∷◌, ◌++◌, arith, str_eq, eq_iff, if◌then◌else◌, Bool-cases, any, find, for_each,
  for_each_inv, for_each_eq, HashMap,
}
use msr.Legacy.Float.{Float}
use msr.Legacy.Value.{Value, decimal, timeout}
use msr.Legacy.State.{ErrorKind, SystemState}
use msr.Legacy.Entities.{Loop, Action, ControllerAction, initialize_controller_state}
use msr.Legacy.Fsm.{StateMachine}
use msr.Legacy.Runtime.{
  next, outcome, outcome-finish, measured, action_phase, run_machine, after_machine,
}
use msr.Legacy.Runtime.Loops.{
  SyncRuntime, apply_setpoint, ensure_controller, after_loop, run_loop, control_phase, count_down,
}
use msr.Legacy.Runtime.Actions.{
  remove_first, apply_active, apply_output, apply_new_setpoint, apply_memory, apply_reset,
  apply_controller, apply_timeout, apply_action, apply_named, apply_actions,
}

-- `any(|x| x == id)`
abbrev pub contains : String → List String → Bool
contains id xs = any (λ x. str_eq x id) xs

abbrev pub IsUnrepeated : List String → Type 0
IsUnrepeated [] = Unit
IsUnrepeated (x ∷ xs) = (contains x xs ≡ false) × IsUnrepeated xs

contains-append :
    (id : String) (xs ys : List String)
    → contains id (xs ++ ys) ≡ (contains id xs || contains id ys)
contains-append id [] ys = refl
contains-append id (x ∷ xs) ys = ground (arith, contains-append id xs ys)

contains-remove_first :
    (id j : String) (xs : List String)
    → IsUnrepeated xs
    → contains j (remove_first id xs) ≡ (if str_eq id j then false else contains j xs)
unfolding remove_first
contains-remove_first id j [] u = ground arith
contains-remove_first id j (x ∷ xs) u =
    ground (arith, contains-remove_first id j xs u.1, eq_iff x id, eq_iff x j, eq_iff id j)

remove_first-IsUnrepeated :
    (id : String) (xs : List String) → IsUnrepeated xs → IsUnrepeated (remove_first id xs)
unfolding remove_first
remove_first-IsUnrepeated id [] u = tt
remove_first-IsUnrepeated id (x ∷ xs) u =
    ground (arith, remove_first-IsUnrepeated id xs u.1, contains-remove_first id x xs u.1)

append-IsUnrepeated :
    (id : String) (xs : List String)
    → contains id xs ≡ false
    → IsUnrepeated xs
    → IsUnrepeated (xs ++ id ∷ [])
append-IsUnrepeated id [] h u = (refl, tt)
append-IsUnrepeated id (x ∷ xs) h u = ground (
  arith,
  append-IsUnrepeated id xs (ground arith) u.1,
  contains-append x xs (id ∷ []),
  eq_iff x id,
  eq_iff id x,
)

-- Activating a loop takes it off a list without repetitions, deactivating it puts it on, and
-- neither touches another loop; the list stays without repetitions.
apply_active-contains :
    (id j : String) (active : Bool) (xs : List String)
    → IsUnrepeated xs
    → (contains j (apply_active id (some active) xs)
        ≡ (if str_eq id j then not active else contains j xs))
      × IsUnrepeated (apply_active id (some active) xs)
unfolding apply_active
apply_active-contains id j true xs u =
    (contains-remove_first id j xs u, remove_first-IsUnrepeated id xs u)
apply_active-contains id j false xs u = elim (Bool-cases (contains id xs)) [
  | inl old ↦ rw old (ground (arith, eq_iff id j), u)
  | inr new ↦
      rw new (contains-append j xs (id ∷ []) ∙ ground arith, append-IsUnrepeated id xs new u)
]

abbrev pub inactive_of : {F : Type 0} → SystemState F → List String
inactive_of s = s.inactive_loops

module _ {F : Type 0} ⦃f : Float F⦄ where
  inactive-apply_setpoint :
      (rt : SyncRuntime F) (orig : SystemState F) (x : String × Value F) (s : SystemState F)
      → inactive_of (apply_setpoint rt orig x s) ≡ inactive_of s
  unfolding apply_setpoint
  inactive-apply_setpoint rt orig (id, decimal v) s = ground arith
  inactive-apply_setpoint rt orig (id, _) s = refl

  inactive-run_loop :
      (dt : ℕ) (l : Loop F) (acc : SystemState F × List ErrorKind)
      → inactive_of (run_loop dt l acc).0 ≡ inactive_of acc.0
  unfolding run_loop after_loop ensure_controller initialize_controller_state
  inactive-run_loop dt l (s, es) = ground arith

  inactive-count_down :
      (dt : ℕ) (x : String × Value F) (s : SystemState F)
      → inactive_of (count_down dt x s) ≡ inactive_of s
  unfolding count_down
  inactive-count_down dt (id, timeout t) s = ground arith
  inactive-count_down dt (id, _) s = refl

  inactive-measured :
      (rt : SyncRuntime F) (s : SystemState F) (dt : ℕ)
      → inactive_of (measured rt s dt) ≡ inactive_of s
  unfolding measured control_phase
  inactive-measured rt s dt =
      for_each_eq inactive_of _ (inactive-count_down dt) s.timeouts _
      ∙ for_each_eq (λ acc. inactive_of acc.0) _ (inactive-run_loop dt) _ _
      ∙ for_each_eq inactive_of _ (inactive-apply_setpoint rt s) s.setpoints s

  inactive-apply_reset :
      (rt : SyncRuntime F) (id : String) (b : Bool) (s : SystemState F)
      → inactive_of (apply_reset rt id b s) ≡ inactive_of s
  unfolding apply_reset initialize_controller_state
  inactive-apply_reset rt id true s = ground arith
  inactive-apply_reset rt id false s = refl

  inactive-apply_timeout :
      (x : String × Option ℕ) (s : SystemState F) → inactive_of (apply_timeout x s) ≡ inactive_of s
  unfolding apply_timeout
  inactive-apply_timeout (id, some t) s = ground arith
  inactive-apply_timeout (id, none) s = refl

  -- A list of inactive loops without repetitions.
  abbrev pub IsTidy : SystemState F → Type 0
  IsTidy s = IsUnrepeated s.inactive_loops

  apply_controller-IsTidy :
      (rt : SyncRuntime F) (x : String × ControllerAction) (s : SystemState F)
      → IsTidy s
      → IsTidy (apply_controller rt x s)
  unfolding apply_controller apply_active
  apply_controller-IsTidy rt (id, ctl) s u =
      switched ctl.active _ (rw (inactive-apply_reset rt id ctl.reset s) u)
    where
      switched :
          (active : Option Bool) (xs : List String)
          → IsUnrepeated xs
          → IsUnrepeated (apply_active id active xs)
      switched none xs v = v
      switched (some b) xs v = (apply_active-contains id id b xs v).1

  inactive-writes :
      (rt : SyncRuntime F) (orig : SystemState F) (a : Action F) (s : SystemState F)
      → inactive_of (
          for_each (apply_memory orig) a.memory (
            for_each
              (apply_new_setpoint orig)
              a.setpoints
              (for_each (apply_output orig) a.outputs s)))
        ≡ inactive_of s
  unfolding apply_output apply_new_setpoint apply_memory
  inactive-writes rt orig a s =
      for_each_eq inactive_of _ (λ x t. ground arith) a.memory _
      ∙ for_each_eq inactive_of _ (λ x t. ground arith) a.setpoints _
      ∙ for_each_eq inactive_of _ (λ x t. ground arith) a.outputs s

  apply_action-IsTidy :
      (rt : SyncRuntime F) (orig : SystemState F) (a : Action F) (s : SystemState F)
      → IsTidy s
      → IsTidy (apply_action rt orig a s)
  unfolding apply_action
  apply_action-IsTidy rt orig a s u =
      subst IsUnrepeated (sym (for_each_eq inactive_of _ inactive-apply_timeout a.timeouts _)) (
        for_each_inv IsTidy _ (apply_controller-IsTidy rt) a.controllers _
          (subst IsUnrepeated (sym (inactive-writes rt orig a s)) u))

  apply_actions-IsTidy :
      (rt : SyncRuntime F) (orig : SystemState F) (ids : List String) (s : SystemState F)
      → IsTidy s
      → IsTidy (apply_actions rt orig ids s)
  unfolding apply_actions apply_named
  apply_actions-IsTidy rt orig =
      for_each_inv IsTidy _ λ id s u. found (find (λ a. str_eq a.id id) rt.actions) s u
    where
      found :
          (o : Option (Action F)) (s : SystemState F)
          → IsTidy s
          → IsTidy (elim o [ some a ↦ apply_action rt orig a s | none ↦ s ])
      found none s u = u
      found (some a) s u = apply_action-IsTidy rt orig a s u

  inactive-run_machine :
      (x : String × StateMachine F) (acc : SystemState F × List (List String))
      → inactive_of (run_machine x acc).0 ≡ inactive_of acc.0
  unfolding run_machine after_machine
  inactive-run_machine (id, m) (s, actions) = ground arith

  action_phase-IsTidy :
      (order : HashMap Bool → HashMap Bool) (rt : SyncRuntime F) (orig s : SystemState F)
      → IsTidy s
      → IsTidy (action_phase order rt orig s)
  unfolding action_phase
  action_phase-IsTidy order rt orig s u = for_each_inv IsTidy _ (apply_actions-IsTidy rt orig) _ _ (
      subst IsUnrepeated
        (sym (for_each_eq (λ acc. inactive_of acc.0) _ inactive-run_machine rt.state_machines _))
        (for_each_inv IsTidy _ (apply_actions-IsTidy rt orig) _ s u))

  kept :
      (order : HashMap Bool → HashMap Bool) (rt : SyncRuntime F) (s : SystemState F) (dt : ℕ)
      → IsTidy s
      → IsTidy (outcome (next order rt s dt))
  unfolding next
  kept order rt s dt u =
      subst IsUnrepeated (sym (ap inactive_of (outcome-finish _ _)))
        (action_phase-IsTidy order rt s _ (subst IsUnrepeated (sym (inactive-measured rt s dt)) u))

  -- An activation takes a loop off the list.
  activated :
      (rt : SyncRuntime F) (s : SystemState F) (id : String) (reset : Bool)
      → IsTidy s
      → contains id
          (apply_controller rt (id, record { reset = reset; active = some true }) s).inactive_loops
        ≡ false
  unfolding apply_controller
  activated rt s id reset u =
      rw (inactive-apply_reset rt id reset s)
        ((apply_active-contains id id true s.inactive_loops u).0 ∙ ground (arith, eq_iff id id))

  -- A cycle keeps the list of inactive loops without repetitions, so that one activation of a loop
  -- afterwards suffices: the loop is not in the list then.
  pub next-IsTidy :
      (order : HashMap Bool → HashMap Bool) (rt : SyncRuntime F) (s : SystemState F) (dt : ℕ)
      → IsUnrepeated s.inactive_loops
      → IsUnrepeated (outcome (next order rt s dt)).inactive_loops
        × ((id : String) (reset : Bool)
            → contains id
                (apply_controller rt
                  (id, record { reset = reset; active = some true })
                  (outcome (next order rt s dt))).inactive_loops
              ≡ false)
  next-IsTidy order rt s dt u =
      let tidy = kept order rt s dt u in
      (tidy, λ id reset. activated rt (outcome (next order rt s dt)) id reset tidy)
