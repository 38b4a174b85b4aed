-- ===== src/Legacy/Pid.antt =====
-- crates/msr-legacy/src/pid.rs, without the `debug_assert!` on the step time, which no duration fails.
pub mod Bounds
use msr.Prelude.{ℕ, ◌/◌, ◌%◌, min, Bool, Option, none, some, List, [], ◌∷◌, if◌then◌else◌}
use msr.Legacy.Float.{Float}
use msr.Legacy.Util.{limit}

pub record PidState (F : Type 0) : Type 0 where
  pub target : F
  pub prev_value : Option F
  pub p : F
  pub i : F
  pub d : F

pub record PidConfig (F : Type 0) : Type 0 where
  pub k_p : F
  pub k_i : F
  pub k_d : F
  pub default_target : F
  pub min : Option F
  pub max : Option F
  pub p_min : Option F
  pub p_max : Option F
  pub i_min : Option F
  pub i_max : Option F

pub record Pid (F : Type 0) : Type 0 where
  pub cfg : PidConfig F
  pub state : PidState F

module _ {F : Type 0} ⦃f : Float F⦄ where
  -- `PidState::default`
  unfoldable pub default_state : PidState F
  default_state = record {
    target = f.nought;
    prev_value = none;
    p = f.nought;
    i = f.nought;
    d = f.nought;
  }

  -- `PidConfig::default`
  unfoldable pub default_config : PidConfig F
  default_config = record {
    k_p = f.one;
    k_i = f.nought;
    k_d = f.nought;
    default_target = f.nought;
    min = none;
    max = none;
    p_min = none;
    p_max = none;
    i_min = none;
    i_max = none;
  }

  -- `Pid::new`
  unfoldable pub new : PidConfig F → Pid F
  unfolding default_state
  new cfg = record { cfg = cfg; state = record (default_state) { target = cfg.default_target } }

  unfoldable pub set_target : F → Pid F → Pid F
  set_target target c = record c { state = record c.state { target = target } }

  unfoldable pub reset : Pid F → Pid F
  unfolding default_state
  reset c = record c { state = record (default_state) { target = c.cfg.default_target } }

  -- `DurationInSeconds::from`, of a duration in nanoseconds
  unfoldable pub seconds : ℕ → F
  seconds nanos =
      f.add (f.of_nat (nanos / 1_000_000_000))
        (f.div (f.of_nat (nanos % 1_000_000_000)) (f.of_nat 1_000_000_000))

  -- `DurationInSeconds::is_empty`
  unfoldable pub is_empty : F → Bool
  is_empty delta_t = f.eq delta_t f.nought

  -- The derivative portion: none in the first step and in a step of no duration.
  unfoldable pub derivative : PidConfig F → F → F → Option F → F
  unfolding is_empty
  derivative cfg delta_t actual previous = if is_empty delta_t then f.nought else elim previous [
    | some prev_value ↦ f.mul cfg.k_d (f.div (f.sub prev_value actual) delta_t)
    | none ↦ f.nought
  ]

  -- `next` of the pure controller `PidConfig`
  unfoldable pub next_state : PidConfig F → PidState F → F → ℕ → PidState F × F
  next_state cfg state actual duration =
      let delta_t = seconds duration in
      let err_p = f.sub state.target actual in
      let p = limit cfg.p_min cfg.p_max (f.mul cfg.k_p err_p) in
      let err_i = f.mul err_p delta_t in
      let i = limit cfg.i_min cfg.i_max (f.add state.i (f.mul cfg.k_i err_i)) in
      let d = derivative cfg delta_t actual state.prev_value in
      (
        record { target = state.target; prev_value = some actual; p = p; i = i; d = d },
        limit cfg.min cfg.max (f.add (f.add p i) d),
      )

  -- `next` of the stateful controller `Pid`
  unfoldable pub next : Pid F → F → ℕ → Pid F × F
  unfolding next_state
  next c actual duration =
      let (state, result) = next_state c.cfg c.state actual duration in
      (record c { state = state }, result)

  -- The controller fed with values and step times; the outputs in order.
  unfoldable pub run : Pid F → List (F × ℕ) → Pid F × List F
  run c [] = (c, [])
  run c ((actual, duration) ∷ steps) =
      let (c', y) = next c actual duration in let (c'', ys) = run c' steps in (c'', y ∷ ys)
