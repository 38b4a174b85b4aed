-- ===== src/Tests/Cycle.antt =====
-- One loop, one rule, one machine and one cycle of crates/msr-legacy on concrete inputs.
use msr.Legacy.Float.{nat_float}
use msr.Prelude.{
  String, Bool, ℕ, ◌≡◌, refl, ◌↔◌, true, false, some, [], ◌∷◌, ◌++◌, reverse, is_ok, get,
}
use msr.Legacy.Value.{bit, decimal, timeout}
use msr.Legacy.State.{ControllerConfig, ControllerState, IoState, SystemState, Source}
use msr.Legacy.Comparison.{greater, Comparison}
use msr.Legacy.BoolExpr.{BoolExpr}
use msr.Legacy.Entities.{Loop}
use msr.Legacy.Fsm
use msr.Legacy.Fsm.{StateMachine, Selected, next_iff}
use msr.Legacy.Runtime
use msr.Legacy.Runtime.{outcome, measured}
use msr.Legacy.Runtime.Actions.{apply_controller}
use msr.Legacy.Runtime.Loops.{SyncRuntime}
use msr.Legacy.Runtime.Errors.{errors_of, active_loop_errors, rule_errors, is_empty, next_errors}
use msr.Legacy.Runtime.Timeouts.{lowered_entry, next_timeouts}
use msr.Legacy.Runtime.Inactive.{contains, IsUnrepeated, next-IsTidy}

abbrev hot_example : BoolExpr (Comparison ℕ)
hot_example =
    BoolExpr.eval
      (record { left = Source.in_ "temperature"; cmp = greater; right = Source.const (decimal 25) })

abbrev loop_example : Loop ℕ
loop_example = record {
  id = "cooling";
  inputs = "temperature" ∷ [];
  outputs = "fan" ∷ [];
  controller = ControllerConfig.bang_bang (record { default_threshold = 20; hysteresis = 1 });
}

abbrev controller_example : ControllerState ℕ
controller_example = ControllerState.bang_bang (record { current = false; threshold = 20 })

abbrev io_example : IoState ℕ
io_example = record {
  inputs = ("temperature", decimal 30) ∷ [];
  outputs = ("lamp", bit true) ∷ [];
  mem = [];
}

abbrev machine_example : StateMachine ℕ
machine_example = record {
  initial = "idle";
  transitions =
      record { condition = hot_example; from = "alarm"; to = "idle"; actions = [] }
      ∷ record { condition = hot_example; from = "idle"; to = "alarm"; actions = "stop" ∷ [] }
      ∷ [];
}

abbrev runtime_example : SyncRuntime ℕ
runtime_example = record {
  loops = loop_example ∷ [];
  rules = record { id = "hot"; condition = hot_example; actions = "stop" ∷ [] } ∷ [];
  actions =
      record {
        id = "stop";
        outputs = ("lamp", Source.const (bit false)) ∷ [];
        memory = [];
        setpoints = [];
        controllers = ("cooling", record { reset = true; active = some false }) ∷ [];
        timeouts = ("pause", some 300) ∷ [];
      }
      ∷ [];
  state_machines = ("main", machine_example) ∷ [];
}

abbrev state_example : SystemState ℕ
state_example = record {
  io = io_example;
  setpoints = ("cooling", decimal 20) ∷ [];
  controllers = ("cooling", controller_example) ∷ [];
  inactive_loops = "heating" ∷ [];
  state_machines = [];
  rules = [];
  timeouts = ("delay", timeout 500) ∷ [];
}

next_iff_example :
    (Fsm.next machine_example (some "alarm") state_example ≡ some ("idle", []))
    ↔ Selected "alarm" state_example machine_example.transitions ("idle", [])
next_iff_example = next_iff machine_example (some "alarm") state_example ("idle", [])

next_errors_example :
    (errors_of (Runtime.next reverse runtime_example state_example 100)
      ≡ active_loop_errors 100 runtime_example state_example
        ++ rule_errors (measured runtime_example state_example 100) runtime_example.rules)
    × (is_ok (Runtime.next reverse runtime_example state_example 100)
        ≡ is_empty (
            active_loop_errors 100 runtime_example state_example
            ++ rule_errors (measured runtime_example state_example 100) runtime_example.rules))
next_errors_example = next_errors reverse runtime_example state_example 100

next_timeouts_example :
    get "delay" (outcome (Runtime.next reverse runtime_example state_example 100)).timeouts
    ≡ lowered_entry 100 (get "delay" state_example.timeouts)
unfolding get
next_timeouts_example =
    next_timeouts reverse runtime_example state_example 100 "delay" ((refl, tt), tt) (refl, tt)

next-IsTidy_example :
    IsUnrepeated (outcome (Runtime.next reverse runtime_example state_example 100)).inactive_loops
    × ((id : String) (reset : Bool)
        → contains id
            (apply_controller runtime_example
              (id, record { reset = reset; active = some true })
              (outcome (Runtime.next reverse runtime_example state_example 100))).inactive_loops
          ≡ false)
next-IsTidy_example = next-IsTidy reverse runtime_example state_example 100 (refl, tt)
