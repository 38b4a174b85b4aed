-- ===== src/Legacy/Pid/Bounds.antt =====
-- The limits of crates/msr-legacy/src/pid.rs hold along every run.
use msr.Prelude.{ℕ, ◌≡◌, refl, ◌∙◌, List, [], ◌∷◌, All}
use msr.Legacy.Float.{Float, IsOrdered}
use msr.Legacy.Util.{limit-Within, IsRange, Within}
use msr.Legacy.Pid.{PidConfig, Pid, next, run}

-- The limits of a configuration are numbers, and those of the three pairs do not cross.
pub record IsSound {F : Type 0} ⦃f : Float F⦄ (cfg : PidConfig F) : Type 0 where
  pub output : IsRange cfg.min cfg.max
  pub proportional : IsRange cfg.p_min cfg.p_max
  pub integral : IsRange cfg.i_min cfg.i_max

module _ {F : Type 0} ⦃f : Float F⦄ (laws : IsOrdered F) where
  next_bounds :
      (c : Pid F) (x : F) (t : ℕ)
      → IsSound c.cfg
      → Within c.cfg.min c.cfg.max (next c x t).1
        × Within c.cfg.p_min c.cfg.p_max (next c x t).0.state.p
        × Within c.cfg.i_min c.cfg.i_max (next c x t).0.state.i
        × ((next c x t).0.cfg ≡ c.cfg)
        × ((next c x t).0.state.target ≡ c.state.target)
  unfolding next
  next_bounds c x t s = (
    limit-Within laws _ _ _ s.output,
    limit-Within laws _ _ _ s.proportional,
    limit-Within laws _ _ _ s.integral,
    refl,
    refl,
  )

  -- If the limits are numbers and do not cross, then along every run each output is at least the
  -- minimum and at most the maximum of the outputs, or NaN. If the integral portion is within its
  -- limits or NaN at the start, it is so at the end; the configuration and the target stay.
  pub run_bounds :
      (c : Pid F) (steps : List (F × ℕ))
      → IsSound c.cfg
      → Within c.cfg.i_min c.cfg.i_max c.state.i
      → All (Within c.cfg.min c.cfg.max) (run c steps).1
        × Within c.cfg.i_min c.cfg.i_max (run c steps).0.state.i
        × ((run c steps).0.cfg ≡ c.cfg)
        × ((run c steps).0.state.target ≡ c.state.target)
  unfolding run
  run_bounds c [] s w = (tt, w, refl, refl)
  run_bounds c ((x, t) ∷ steps) s w =
      let (out, _, int, same_cfg, same_target) = next_bounds c x t s in
      let (outs, ints, cfgs, targets) =
        run_bounds (next c x t).0 steps (rw same_cfg s) (rw same_cfg int) in
      ((out, rw same_cfg at outs), rw same_cfg at ints, cfgs ∙ same_cfg, targets ∙ same_target)
