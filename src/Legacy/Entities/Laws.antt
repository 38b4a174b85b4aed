-- ===== src/Legacy/Entities/Laws.antt =====
-- When a loop of crates/msr-legacy/src/lib.rs succeeds, and what it then writes.
use msr.Prelude.{
  ℕ, String, ◌≡◌, refl, ap, Bool, true, false, Option, none, some, List, [], ◌∷◌, arith, str_eq,
  if◌then◌else◌, ok, is_ok, is_ok-bind, get, insert, get-insert,
}
use msr.Legacy.Float.{Float}
use msr.Legacy.Value.{Value, decimal}
use msr.Legacy.State.{ControllerConfig, ControllerState, IoState}
use msr.Legacy.Entities.{Loop, single_ids, decimal_input, control, loop_next}

-- The state of a controller is of the kind of its configuration.
abbrev pub same_kind : {F : Type 0} → ControllerConfig F → ControllerState F → Bool
same_kind (ControllerConfig.pid _) (ControllerState.pid _) = true
same_kind (ControllerConfig.bang_bang _) (ControllerState.bang_bang _) = true
same_kind _ _ = false

single_ids_inv :
    (is os : List String) (ids : String × String)
    → single_ids is os ≡ ok ids
    → (is ≡ ids.0 ∷ []) × (os ≡ ids.1 ∷ [])
unfolding single_ids
single_ids_inv (i ∷ []) (o ∷ []) ids h = ground arith
single_ids_inv is os ids h = cc

module _ {F : Type 0} ⦃f : Float F⦄ where
  -- What a loop needs: one input and one output, a decimal at the input, and a controller state of
  -- the kind of its configuration.
  pub record IsReady (l : Loop F) (c : ControllerState F) (io : IoState F) (i o : String) (v : F)
      : Type 0 where
    pub one_input : l.inputs ≡ i ∷ []
    pub one_output : l.outputs ≡ o ∷ []
    pub value : get i io.inputs ≡ some (decimal v)
    pub kinds : same_kind l.controller c ≡ true

  control_kind :
      (cfg : ControllerConfig F) (c : ControllerState F) (v : F) (dt : ℕ)
      → same_kind cfg c ≡ true
      → (c' : ControllerState F) × (y : Value F) × (control cfg c v dt ≡ ok (c', y))
        × (same_kind cfg c' ≡ true)
  unfolding control
  control_kind (ControllerConfig.pid cfg) (ControllerState.pid s) v dt h = (_, _, refl, refl)
  control_kind (ControllerConfig.bang_bang cfg) (ControllerState.bang_bang s) v dt h =
      (_, _, refl, refl)
  control_kind (ControllerConfig.pid cfg) (ControllerState.bang_bang s) v dt h = cc
  control_kind (ControllerConfig.bang_bang cfg) (ControllerState.pid s) v dt h = cc

  -- A loop that is ready succeeds: its controller keeps its kind, its output is written, and every
  -- other output, the inputs and the memory stay.
  loop_next-IsReady :
      (l : Loop F) (c : ControllerState F) (io : IoState F) (dt : ℕ) {i o : String} {v : F}
      → IsReady l c io i o v
      → (c' : ControllerState F) × (y : Value F) × (io' : IoState F) × (loop_next l c io dt
          ≡ ok (c', io'))
        × (same_kind l.controller c' ≡ true)
        × (control l.controller c v dt ≡ ok (c', y))
        × ((k : String) → get k io'.outputs ≡ (if str_eq o k then some y else get k io.outputs))
        × (io'.inputs ≡ io.inputs)
        × (io'.mem ≡ io.mem)
  unfolding loop_next
  loop_next-IsReady l c io dt {i} {o} {v} r =
      let (c', y, e, k) = control_kind l.controller c v dt r.kinds in
      (
        c',
        y,
        record io { outputs = insert o y io.outputs },
        ground arith,
        k,
        e,
        λ j. get-insert j o y io.outputs,
        refl,
        refl,
      )

  control_inv :
      (cfg : ControllerConfig F) (c : ControllerState F) (v : F) (dt : ℕ)
      → is_ok (control cfg c v dt) ≡ true
      → same_kind cfg c ≡ true
  unfolding control
  control_inv (ControllerConfig.pid cfg) (ControllerState.pid s) v dt h = refl
  control_inv (ControllerConfig.bang_bang cfg) (ControllerState.bang_bang s) v dt h = refl
  control_inv (ControllerConfig.pid cfg) (ControllerState.bang_bang s) v dt h = cc
  control_inv (ControllerConfig.bang_bang cfg) (ControllerState.pid s) v dt h = cc

  decimal_inv : (o : Option (Value F)) (v : F) → decimal_input o ≡ ok v → o ≡ some (decimal v)
  unfolding decimal_input
  decimal_inv none v h = cc
  decimal_inv (some (decimal w)) v h = ground arith
  decimal_inv (some w) v h = cc

  -- Only a loop that is ready succeeds.
  IsReady-of_ok :
      (l : Loop F) (c : ControllerState F) (io : IoState F) (dt : ℕ)
      → is_ok (loop_next l c io dt) ≡ true
      → (i : String) × (o : String) × (v : F) × IsReady l c io i o v
  unfolding loop_next
  IsReady-of_ok l c io dt h =
      let (ids, e1, h1) = is_ok-bind _ _ h in
      let (v, e2, h2) = is_ok-bind _ _ h1 in
      let (step, e3, h3) = is_ok-bind _ _ h2 in
      let (one_in, one_out) = single_ids_inv l.inputs l.outputs ids e1 in
      (
        ids.0,
        ids.1,
        v,
        record {
          one_input = one_in;
          one_output = one_out;
          value = decimal_inv _ v e2;
          kinds = control_inv l.controller c v dt (ap is_ok e3);
        },
      )
