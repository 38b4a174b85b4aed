-- ===== src/Legacy/Runtime/Errors.antt =====
-- Which errors a cycle of crates/msr-legacy/src/runtime.rs reports.
use msr.Prelude.{
  ℕ, String, ◌≡◌, refl, sym, ap, ◌∙◌, Bool, true, false, List, [], ◌∷◌, ◌++◌, append-nil,
  append_assoc, arith, str_eq, if◌then◌else◌, any, keep, Result, ok, err, is_ok, for_each, HashMap,
}
use msr.Legacy.Float.{Float}
use msr.Legacy.State.{ErrorKind, ControllerState, IoState, SystemState}
use msr.Legacy.BoolExpr.{evaluate}
use msr.Legacy.Entities.{Loop, Rule, loop_next}
use msr.Legacy.Runtime.{next, finish, measured}
use msr.Legacy.Runtime.Loops.{
  SyncRuntime, apply_setpoint, ensure_controller, after_loop, run_loop, is_active, control_phase,
}
use msr.Legacy.Runtime.Rules.{
  RuntimeError, causes_of, check_rule, rules_state, record_outcome, with_causes,
}

abbrev pub errors_of : {A : Type 0} {T : Type 0} → Result A (RuntimeError T) → List ErrorKind
errors_of (ok a) = []
errors_of (err e) = e.causes

abbrev pub is_empty : {A : Type 0} → List A → Bool
is_empty [] = true
is_empty (x ∷ xs) = false

abbrev pub error_of : {A : Type 0} → Result A ErrorKind → List ErrorKind
error_of (ok a) = []
error_of (err e) = e ∷ []

record_outcome-errors :
    (id : String) (r : Result Bool ErrorKind) (acc : HashMap Bool × List ErrorKind)
    → (record_outcome id r acc).1 ≡ acc.1 ++ error_of r
unfolding record_outcome
record_outcome-errors id (ok b) (rules, es) = sym (append-nil es)
record_outcome-errors id (err e) (rules, es) = refl

causes-with_causes : (acc : HashMap Bool × List ErrorKind) → causes_of (with_causes acc) ≡ acc.1
unfolding causes_of with_causes
causes-with_causes (rules, []) = refl
causes-with_causes (rules, e ∷ es) = refl

module _ {F : Type 0} ⦃f : Float F⦄ where
  -- The errors of the conditions that cannot be evaluated, in the order of the rules.
  unfoldable pub rule_errors : SystemState F → List (Rule F) → List ErrorKind
  rule_errors s [] = []
  rule_errors s (r ∷ rs) = error_of (evaluate r.condition s) ++ rule_errors s rs

  check-errors :
      (s : SystemState F) (rs : List (Rule F)) (acc : HashMap Bool × List ErrorKind)
      → (for_each (check_rule s) rs acc).1 ≡ acc.1 ++ rule_errors s rs
  unfolding for_each check_rule rule_errors
  check-errors s [] acc = sym (append-nil acc.1)
  check-errors s (r ∷ rs) acc =
      check-errors s rs (check_rule s r acc)
      ∙ ap (λ es. es ++ rule_errors s rs) (record_outcome-errors r.id (evaluate r.condition s) acc)
      ∙ append_assoc acc.1 (error_of (evaluate r.condition s)) (rule_errors s rs)

  causes-rules_state :
      (rt : SyncRuntime F) (s : SystemState F)
      → causes_of (rules_state rt s) ≡ rule_errors s rt.rules
  unfolding rules_state
  causes-rules_state rt s = causes-with_causes _ ∙ check-errors s rt.rules ([], [])

  -- The loops that are not among the inactive ones
  unfoldable pub active_loops : SystemState F → List (Loop F) → List (Loop F)
  active_loops s [] = []
  active_loops s (l ∷ ls) =
      let rest = active_loops s ls in
      if any (λ x. str_eq x l.id) s.inactive_loops then rest else l ∷ rest

  -- The errors of the loops, each on the state that those before it leave, in their order.
  unfoldable pub loop_errors : ℕ → List (Loop F) → SystemState F → List ErrorKind
  unfolding ensure_controller run_loop
  loop_errors dt [] s = []
  loop_errors dt (l ∷ ls) s =
      let (c, s') = ensure_controller l s in
      error_of (loop_next l c s'.io dt) ++ loop_errors dt ls (run_loop dt l (s, [])).0

  after_loop-errors :
      (id : String) (r : Result (ControllerState F × IoState F) ErrorKind) (s : SystemState F)
      (es : List ErrorKind)
      → ((after_loop id r (s, es)).0 ≡ (after_loop id r (s, [])).0)
        × ((after_loop id r (s, es)).1 ≡ es ++ error_of r)
  unfolding after_loop
  after_loop-errors id (ok (c, io)) s es = (refl, sym (append-nil es))
  after_loop-errors id (err e) s es = (refl, refl)

  loops-errors :
      (dt : ℕ) (ls : List (Loop F)) (s : SystemState F) (es : List ErrorKind)
      → (for_each (run_loop dt) ls (s, es)).1 ≡ es ++ loop_errors dt ls s
  unfolding for_each run_loop loop_errors ensure_controller
  loops-errors dt [] s es = sym (append-nil es)
  loops-errors dt (l ∷ ls) s es =
      let (c, s') = ensure_controller l s in
      let r = loop_next l c s'.io dt in
      let (same, more) = after_loop-errors l.id r s' es in
      loops-errors dt ls (after_loop l.id r (s', es)).0 (after_loop l.id r (s', es)).1
      ∙ ap (λ t. (after_loop l.id r (s', es)).1 ++ loop_errors dt ls t) same
      ∙ ap (λ xs. xs ++ loop_errors dt ls (after_loop l.id r (s', [])).0) more
      ∙ append_assoc es (error_of r) (loop_errors dt ls (after_loop l.id r (s', [])).0)

  keep-active_loops :
      (s : SystemState F) (ls : List (Loop F)) → keep (is_active s) ls ≡ active_loops s ls
  unfolding is_active active_loops
  keep-active_loops s [] = refl
  keep-active_loops s (l ∷ ls) = ground (arith, keep-active_loops s ls)

  -- The errors of the active loops, which run once the setpoints are applied
  abbrev pub active_loop_errors : ℕ → SyncRuntime F → SystemState F → List ErrorKind
  active_loop_errors dt rt s =
      let t = for_each (apply_setpoint rt s) s.setpoints s in
      loop_errors dt (active_loops t rt.loops) t

  control_phase-errors :
      (rt : SyncRuntime F) (s : SystemState F) (dt : ℕ)
      → (control_phase rt s dt).1 ≡ active_loop_errors dt rt s
  unfolding control_phase
  control_phase-errors rt s dt =
      let t = for_each (apply_setpoint rt s) s.setpoints s in
      loops-errors dt (keep (is_active t) rt.loops) t []
      ∙ ap (λ ls. loop_errors dt ls t) (keep-active_loops t rt.loops)

  finish-errors :
      (es : List ErrorKind) (s : SystemState F)
      → (errors_of (finish es s) ≡ es) × (is_ok (finish es s) ≡ is_empty es)
  unfolding finish
  finish-errors [] s = (refl, refl)
  finish-errors (e ∷ es) s = (refl, refl)

  -- A cycle reports the errors of the active loops, each run on the state that those before it leave,
  -- and then those of the conditions of the rules, all in their order, and it succeeds exactly if there
  -- are none.
  pub next_errors :
      (order : HashMap Bool → HashMap Bool) (rt : SyncRuntime F) (s : SystemState F) (dt : ℕ)
      → (errors_of (next order rt s dt)
          ≡ active_loop_errors dt rt s ++ rule_errors (measured rt s dt) rt.rules)
        × (is_ok (next order rt s dt)
            ≡ is_empty (active_loop_errors dt rt s ++ rule_errors (measured rt s dt) rt.rules))
  unfolding next
  next_errors order rt s dt =
      rw (← causes-rules_state rt (measured rt s dt))
        (rw (← control_phase-errors rt s dt) (finish-errors _ _))
