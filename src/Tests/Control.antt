-- ===== src/Tests/Control.antt =====
-- The controllers of crates/msr-legacy on concrete inputs, with natural numbers in
-- the place of `f64`.
use msr.Prelude.{ℕ, inr, ◌≡◌, refl, none, some, List, [], ◌∷◌, All}
use msr.Legacy.Float.{nat_float, ℕ-IsOrdered}
use msr.Legacy.Util.{Within}
use msr.Legacy.Pid
use msr.Legacy.Pid.{Pid}
use msr.Legacy.Pid.Bounds.{run_bounds}

abbrev pid_example : Pid ℕ
pid_example = record {
  cfg = record {
    k_p = 2;
    k_i = 1;
    k_d = 0;
    default_target = 10;
    min = some 0;
    max = some 20;
    p_min = none;
    p_max = some 15;
    i_min = some 0;
    i_max = some 4;
  };
  state = record { target = 10; prev_value = none; p = 0; i = 0; d = 0 };
}

abbrev steps_example : List (ℕ × ℕ)
steps_example = (3, 1000) ∷ (25, 2000) ∷ []

run_bounds_example :
    All (Within (some 0) (some 20)) (Pid.run pid_example steps_example).1
    × Within (some 0) (some 4) (Pid.run pid_example steps_example).0.state.i
    × ((Pid.run pid_example steps_example).0.cfg ≡ pid_example.cfg)
    × ((Pid.run pid_example steps_example).0.state.target ≡ 10)
run_bounds_example =
    run_bounds ℕ-IsOrdered pid_example steps_example
      (record { output = (refl, refl, refl); proportional = refl; integral = (refl, refl, refl) })
      (inr (refl, refl))
