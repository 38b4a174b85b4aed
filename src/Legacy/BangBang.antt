-- ===== src/Legacy/BangBang.antt =====
-- crates/msr-legacy/src/bang_bang.rs
use msr.Prelude.{
  ◌≡◌, refl, Bool, true, false, Option, none, some, List, [], ◌∷◌, arith, if◌then◌else◌,
}
use msr.Legacy.Float.{Float}

pub record BangBangConfig (F : Type 0) : Type 0 where
  pub default_threshold : F
  pub hysteresis : F

pub record BangBangState (F : Type 0) : Type 0 where
  pub current : Bool
  pub threshold : F

pub record BangBang (F : Type 0) : Type 0 where
  pub cfg : BangBangConfig F
  pub state : BangBangState F

-- A demand, or what holds without one.
abbrev pub or_else : Option Bool → Bool → Bool
or_else none b = b
or_else (some a) b = a

module _ {F : Type 0} ⦃f : Float F⦄ where
  -- `BangBangState::default`
  unfoldable pub default_state : BangBangState F
  default_state = record { current = false; threshold = f.nought }

  -- `BangBangConfig::default`
  unfoldable pub default_config : BangBangConfig F
  default_config = record { default_threshold = f.nought; hysteresis = f.nought }

  -- `BangBang::new`
  unfoldable pub new : BangBangConfig F → BangBang F
  unfolding default_state
  new cfg = record {
    cfg = cfg;
    state = record (default_state) { threshold = cfg.default_threshold };
  }

  -- `next` of the pure controller `BangBangConfig`
  unfoldable pub next_state : BangBangConfig F → BangBangState F → F → BangBangState F
  next_state cfg state actual =
      if f.lt (f.add state.threshold cfg.hysteresis) actual
      then record state { current = true }
      else if f.lt actual (f.sub state.threshold cfg.hysteresis)
      then record state { current = false }
      else state

  -- `next` of the stateful controller `BangBang`
  unfoldable pub next : BangBang F → F → BangBang F × Bool
  unfolding next_state
  next c actual =
      let state = next_state c.cfg c.state actual in (record c { state = state }, state.current)

  -- The controller fed with a sequence of values.
  unfoldable pub run : BangBang F → List F → BangBang F
  unfolding next
  run c [] = c
  run c (x ∷ xs) = run (next c x).0 xs

  -- What a value outside the band around the threshold asks for.
  unfoldable pub demand : BangBangConfig F → F → F → Option Bool
  demand cfg threshold actual =
      if f.lt (f.add threshold cfg.hysteresis) actual
      then some true
      else if f.lt actual (f.sub threshold cfg.hysteresis)
      then some false
      else none

  -- The demand of the last value outside the band, if there is one.
  unfoldable pub last_demand : BangBangConfig F → F → List F → Option Bool
  unfolding demand
  last_demand cfg threshold [] = none
  last_demand cfg threshold (x ∷ xs) = elim (last_demand cfg threshold xs) [
    | some b ↦ some b
    | none ↦ demand cfg threshold x
  ]

  next-threshold : (c : BangBang F) (x : F) → (next c x).0.state.threshold ≡ c.state.threshold
  unfolding next
  next-threshold c x = ground arith

  next-demand :
      (c : BangBang F) (x : F)
      → (next c x).1 ≡ or_else (demand c.cfg c.state.threshold x) c.state.current
  unfolding next demand
  next-demand c x = ground arith

  -- After any sequence of values the output is what the last value outside the hysteresis band
  -- asked for, and the initial output if no value left the band; the threshold and the
  -- configuration stay.
  run-last_demand :
      (c : BangBang F) (xs : List F)
      → ((run c xs).state.current
          ≡ or_else (last_demand c.cfg c.state.threshold xs) c.state.current)
        × ((run c xs).state.threshold ≡ c.state.threshold)
        × ((run c xs).cfg ≡ c.cfg)
  unfolding run last_demand
  run-last_demand c [] = (refl, refl, refl)
  run-last_demand c (x ∷ xs) =
      ground (arith, run-last_demand (next c x).0 xs, next-threshold c x, next-demand c x)
