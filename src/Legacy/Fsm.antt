-- ===== src/Legacy/Fsm.antt =====
-- crates/msr-legacy/src/fsm.rs
use msr.Prelude.{
  String, ◌≡◌, refl, ap, ◌↔◌, inl, inr, Bool, true, false, Option, none, some, List, [], ◌∷◌, ◌++◌,
  arith, str_eq, eq_iff, if◌then◌else◌, Bool-cases, ok, err, All,
}
use msr.Legacy.Float.{Float}
use msr.Legacy.State.{SystemState}
use msr.Legacy.Comparison.{Comparison}
use msr.Legacy.BoolExpr.{BoolExpr, evaluate}

pub record Transition (F : Type 0) : Type 0 where
  pub condition : BoolExpr (Comparison F)
  pub from : String
  pub to : String
  pub actions : List String

pub record StateMachine (F : Type 0) : Type 0 where
  pub initial : String
  pub transitions : List (Transition F)

abbrev pub or_initial : Option String → String → String
or_initial none initial = initial
or_initial (some s) initial = s

module _ {F : Type 0} ⦃f : Float F⦄ where
  -- The two tests on a transition; a condition that cannot be evaluated does not fire.
  unfoldable pub fires : String → SystemState F → Transition F → Bool
  fires current s t =
      if str_eq t.from current
      then elim (evaluate t.condition s) [ ok active ↦ active | err _ ↦ false ]
      else false

  -- The loop over the transitions.
  unfoldable pub first_enabled :
      String → SystemState F → List (Transition F) → Option (String × List String)
  first_enabled current s [] = none
  first_enabled current s (t ∷ ts) =
      let rest = first_enabled current s ts in
      if fires current s t then some (t.to, t.actions) else rest

  -- `next` of a `StateMachine`
  unfoldable pub next :
      StateMachine F → Option String → SystemState F → Option (String × List String)
  unfolding first_enabled
  next m fsm_state s = first_enabled (or_initial fsm_state m.initial) s m.transitions

module _ {F : Type 0} ⦃f : Float F⦄ (current : String) (s : SystemState F) where
  -- The transition leaves the current state, and its condition evaluates to true.
  abbrev pub Fires : Transition F → Type 0
  Fires t = (t.from ≡ current) × (evaluate t.condition s ≡ ok true)

  -- `r` is the target and the actions of a transition that fires, and none before it does.
  abbrev pub Selected : List (Transition F) → String × List String → Type 0
  Selected ts r =
      (t : Transition F) × (before : List (Transition F)) × (after : List (Transition F)) × (ts
        ≡ before ++ t ∷ after)
      × All (λ u. fires current s u ≡ false) before
      × Fires t
      × (r ≡ (t.to, t.actions))

  fires_iff : (t : Transition F) → (fires current s t ≡ true) ↔ Fires t
  unfolding fires
  fires_iff t = ground (arith, eq_iff t.from current)

  Selected-later :
      (t : Transition F) (ts : List (Transition F)) (r : String × List String)
      → fires current s t ≡ false
      → Selected ts r
      → Selected (t ∷ ts) r
  Selected-later t ts r quiet (u, before, after, e, q, fs, er) =
      (u, t ∷ before, after, ap (λ us. t ∷ us) e, (quiet, q), fs, er)

  Selected-of_enabled :
      (ts : List (Transition F)) (r : String × List String)
      → first_enabled current s ts ≡ some r
      → Selected ts r
  unfolding first_enabled
  Selected-of_enabled [] r h = cc
  Selected-of_enabled (t ∷ ts) r h = elim (Bool-cases (fires current s t)) [
    | inl active ↦ (t, [], ts, refl, tt, (fires_iff t).0 active, ground arith)
    | inr quiet ↦ Selected-later t ts r quiet (Selected-of_enabled ts r (ground arith))
  ]

  enabled_behind :
      (before after : List (Transition F)) (t : Transition F)
      → All (λ u. fires current s u ≡ false) before
      → fires current s t ≡ true
      → first_enabled current s (before ++ t ∷ after) ≡ some (t.to, t.actions)
  unfolding first_enabled
  enabled_behind [] after t q h = rw h
  enabled_behind (u ∷ before) after t q h = rw q.0 (enabled_behind before after t q.1 h)

module _ {F : Type 0} ⦃f : Float F⦄ where
  -- A machine moves exactly if a transition from its current state (its initial one, if none is
  -- recorded) has a condition that evaluates to true, and it takes the first such.
  pub next_iff :
      (m : StateMachine F) (fsm_state : Option String) (s : SystemState F)
      (r : String × List String)
      → (next m fsm_state s ≡ some r) ↔ Selected (or_initial fsm_state m.initial) s m.transitions r
  unfolding next
  next_iff m fsm_state s r =
      let current = or_initial fsm_state m.initial in
      (
        Selected-of_enabled current s m.transitions r,
        λ (t, before, after, e, q, fs, er).
            rw (e, er) (enabled_behind current s before after t q ((fires_iff current s t).1 fs)),
      )
