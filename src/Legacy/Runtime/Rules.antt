-- ===== src/Legacy/Runtime/Rules.antt =====
-- `rules_state` of crates/msr-legacy/src/runtime.rs, and the actions that the active rules name.
use msr.Prelude.{
  String, Bool, true, false, none, some, List, [], ◌∷◌, ◌++◌, str_eq, Result, ok, err, find,
  for_each, HashMap, insert,
}
use msr.Legacy.Float.{Float}
use msr.Legacy.State.{ErrorKind, SystemState}
use msr.Legacy.BoolExpr.{evaluate}
use msr.Legacy.Entities.{Rule}
use msr.Legacy.Runtime.Loops.{SyncRuntime}

-- `Error<T>` of this module
pub record RuntimeError (T : Type 0) : Type 0 where
  pub state : T
  pub causes : List ErrorKind

-- The rule states of a result of `rules_state`, and its errors.
unfoldable pub rules_of : Result (HashMap Bool) (RuntimeError (HashMap Bool)) → HashMap Bool
rules_of (ok rules) = rules
rules_of (err e) = e.state

unfoldable pub causes_of : Result (HashMap Bool) (RuntimeError (HashMap Bool)) → List ErrorKind
causes_of (ok rules) = []
causes_of (err e) = e.causes

-- What a rule's evaluation adds to the rule states and the errors.
unfoldable pub record_outcome :
    String → Result Bool ErrorKind → HashMap Bool × List ErrorKind → HashMap Bool × List ErrorKind
record_outcome id (ok r_state) (rules, errors) = (insert id r_state rules, errors)
record_outcome id (err e) (rules, errors) = (rules, errors ++ e ∷ [])

-- `Err` if there are errors, and the rule states either way.
unfoldable pub with_causes :
    HashMap Bool × List ErrorKind → Result (HashMap Bool) (RuntimeError (HashMap Bool))
with_causes (rules, []) = ok rules
with_causes (rules, e ∷ es) = err (record { state = rules; causes = e ∷ es })

module _ {F : Type 0} ⦃f : Float F⦄ where
  -- One turn of `rules_state`, on the states of the rules and the errors.
  unfoldable pub check_rule :
      SystemState F → Rule F → HashMap Bool × List ErrorKind → HashMap Bool × List ErrorKind
  check_rule s r acc = record_outcome r.id (evaluate r.condition s) acc

  unfoldable pub rules_state :
      SyncRuntime F → SystemState F → Result (HashMap Bool) (RuntimeError (HashMap Bool))
  rules_state rt s = with_causes (for_each (check_rule s) rt.rules ([], []))

  -- The actions of the active rules that are found, in the order of the rule states.
  unfoldable pub rule_actions : SyncRuntime F → HashMap Bool → List (List String)
  rule_actions rt [] = []
  rule_actions rt ((r_id, false) ∷ rules) = rule_actions rt rules
  rule_actions rt ((r_id, true) ∷ rules) =
      let rest = rule_actions rt rules in
      elim (find (λ r. str_eq r.id r_id) rt.rules) [ some r ↦ r.actions ∷ rest | none ↦ rest ]
