-- ===== src/Legacy/Entities.antt =====
-- crates/msr-legacy/src/entities.rs and the initial and next state of a loop's controller
-- (crates/msr-legacy/src/lib.rs, runtime.rs).
pub mod Laws
use msr.Prelude.{
  ◌>>=◌, ℕ, String, Bool, Option, some, List, [], ◌∷◌, Result, ok, err, HashMap, get, insert,
}
use msr.Legacy.Float.{Float}
use msr.Legacy.Util.{map_value, limit}
use msr.Legacy.BangBang
use msr.Legacy.Pid
use msr.Legacy.Value.{Value, bit, decimal}
use msr.Legacy.State.{
  ErrorKind, invalid_data, other, ControllerConfig, ControllerState, IoState, SystemState, Source,
}
use msr.Legacy.Comparison.{Comparison}
use msr.Legacy.BoolExpr.{BoolExpr}

pub record ValueBounds (F : Type 0) : Type 0 where
  pub low : F
  pub high : F

pub record ValueMapping (F : Type 0) : Type 0 where
  pub from : ValueBounds F
  pub to : ValueBounds F

pub record Cropping (F : Type 0) : Type 0 where
  pub low : Option F
  pub high : Option F

pub record Loop (F : Type 0) : Type 0 where
  pub id : String
  pub inputs : List String
  pub outputs : List String
  pub controller : ControllerConfig F

pub record Rule (F : Type 0) : Type 0 where
  pub id : String
  pub condition : BoolExpr (Comparison F)
  pub actions : List String

pub record ControllerAction : Type 0 where
  pub reset : Bool
  pub active : Option Bool

pub record Action (F : Type 0) : Type 0 where
  pub id : String
  pub outputs : HashMap (Source F)
  pub memory : HashMap (Source F)
  pub setpoints : HashMap (Source F)
  pub controllers : HashMap ControllerAction
  pub timeouts : HashMap (Option ℕ)

-- `self.inputs[0]` and `self.outputs[0]`, where each list has one element.
unfoldable pub single_ids : List String → List String → Result (String × String) ErrorKind
single_ids (i ∷ []) (o ∷ []) = ok (i, o)
single_ids _ _ = err other

module _ {F : Type 0} ⦃f : Float F⦄ where
  -- `ValueMapping::map`
  unfoldable pub map_to : ValueMapping F → F → F
  map_to m x = map_value x m.from.low m.from.high m.to.low m.to.high

  -- `Cropping::crop`
  unfoldable pub crop : Cropping F → F → F
  crop c x = limit c.low c.high x

  -- The controller on one value: its new state, and the output that is written.
  unfoldable pub control :
      ControllerConfig F
      → ControllerState F
      → F
      → ℕ
      → Result (ControllerState F × Value F) ErrorKind
  control (ControllerConfig.pid cfg) (ControllerState.pid s) v dt =
      let (pid_state, y) = Pid.next_state cfg s v dt in
      ok (ControllerState.pid pid_state, decimal y)
  control (ControllerConfig.bang_bang cfg) (ControllerState.bang_bang s) v dt =
      let bb_state = BangBang.next_state cfg s v in
      ok (ControllerState.bang_bang bb_state, bit bb_state.current)
  control _ _ v dt = err invalid_data

  -- `if let Some(Value::Decimal(v))`
  unfoldable pub decimal_input : Option (Value F) → Result F ErrorKind
  decimal_input (some (decimal v)) = ok v
  decimal_input _ = err invalid_data

  -- `next` of a `Loop`
  unfoldable pub loop_next :
      Loop F → ControllerState F → IoState F → ℕ → Result (ControllerState F × IoState F) ErrorKind
  unfolding single_ids decimal_input
  loop_next l controller io dt = do
    ids ← single_ids l.inputs l.outputs
    v ← decimal_input (get ids.0 io.inputs)
    step ← control l.controller controller v dt
    ok (step.0, record io { outputs = insert ids.1 step.1 io.outputs })

  -- The state that `initialize_controller_state` inserts.
  unfoldable pub initial_controller : ControllerConfig F → ControllerState F
  unfolding Pid.default_state BangBang.default_state
  initial_controller (ControllerConfig.pid cfg) =
      ControllerState.pid (record (Pid.default_state) { target = cfg.default_target })
  initial_controller (ControllerConfig.bang_bang cfg) =
      ControllerState.bang_bang
        (record (BangBang.default_state) { threshold = cfg.default_threshold })

  -- `initialize_controller_state`
  unfoldable pub initialize_controller_state : Loop F → SystemState F → SystemState F
  unfolding initial_controller
  initialize_controller_state l s = record s {
    controllers = insert l.id (initial_controller l.controller) s.controllers;
  }
