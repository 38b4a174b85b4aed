-- ===== src/Legacy/State.antt =====
-- The state of a control system: the types of crates/msr-legacy/src/lib.rs, with the kinds of the I/O
-- errors that the crate raises (their messages are not modelled).
use msr.Prelude.{
  String, ◌≡◌, refl, Bool, Option, none, some, List, arith, str_eq, if◌then◌else◌, Result, ok, err,
  HashMap, get, insert, get-insert,
}
use msr.Legacy.BangBang.{BangBangConfig, BangBangState}
use msr.Legacy.Pid.{PidConfig, PidState}
use msr.Legacy.Value.{Value}

pub data ErrorKind : Type 0 where
  not_found invalid_input invalid_data other : ErrorKind

pub data ControllerConfig (F : Type 0) : Type 0 where
  pid : PidConfig F → ControllerConfig F
  bang_bang : BangBangConfig F → ControllerConfig F

pub data ControllerState (F : Type 0) : Type 0 where
  pid : PidState F → ControllerState F
  bang_bang : BangBangState F → ControllerState F

pub record IoState (F : Type 0) : Type 0 where
  pub inputs : HashMap (Value F)
  pub outputs : HashMap (Value F)
  pub mem : HashMap (Value F)

pub record SystemState (F : Type 0) : Type 0 where
  pub io : IoState F
  pub setpoints : HashMap (Value F)
  pub controllers : HashMap (ControllerState F)
  pub inactive_loops : List String
  pub state_machines : HashMap String
  pub rules : HashMap Bool
  pub timeouts : HashMap (Value F)

pub data Source (F : Type 0) : Type 0 where
  in_ : String → Source F
  out : String → Source F
  mem : String → Source F
  setpoint : String → Source F
  timeout : String → Source F
  const : Value F → Source F

module _ {F : Type 0} where
  -- `SystemState::get`
  unfoldable pub value_of : SystemState F → Source F → Option (Value F)
  value_of s (in_ id) = get id s.io.inputs
  value_of s (out id) = get id s.io.outputs
  value_of s (mem id) = get id s.io.mem
  value_of s (timeout id) = get id s.timeouts
  value_of s (const v) = some v
  value_of s (setpoint id) = get id s.setpoints

  -- `SyncIoSystem for IoState`
  unfoldable pub read : IoState F → String → Result (Value F) ErrorKind
  read io id = elim (get id io.inputs) [ some v ↦ ok v | none ↦ err not_found ]

  unfoldable pub read_output : IoState F → String → Result (Option (Value F)) ErrorKind
  read_output io id = ok (get id io.outputs)

  unfoldable pub write : IoState F → String → Value F → Result (Unit {0}) ErrorKind × IoState F
  write io id v = (ok tt, record io { outputs = insert id v io.outputs })

  -- A written output reads back, every other output and every input reads as before.
  read-write :
      (io : IoState F) (id j : String) (v : Value F)
      → (read_output (write io id v).1 j ≡ (if str_eq id j then ok (some v) else read_output io j))
        × (read (write io id v).1 j ≡ read io j)
  unfolding read read_output write
  read-write io id j v = (ground (arith, get-insert j id v io.outputs), refl)
