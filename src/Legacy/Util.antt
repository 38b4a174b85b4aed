-- ===== src/Legacy/Util.antt =====
-- crates/msr-legacy/src/util.rs
use msr.Prelude.{◌≡◌, ◌⊎◌, inl, inr, true, false, Option, none, some, if◌then◌else◌, Bool-cases}
use msr.Legacy.Float.{Float, IsOrdered}

module _ {F : Type 0} ⦃f : Float F⦄ where
  -- Re-maps a number from one range to another.
  unfoldable pub map_value : F → F → F → F → F → F
  map_value x x_min x_max y_min y_max =
      let s = f.div (f.sub y_max y_min) (f.sub x_max x_min) in f.add (f.mul (f.sub x x_min) s) y_min

  unfoldable pub limit_above : Option F → F → F
  limit_above none value = value
  limit_above (some max) value = if f.lt max value then max else value

  unfoldable pub limit_below : Option F → F → F
  limit_below none value = value
  limit_below (some min) value = if f.lt value min then min else value

  -- Limit a value by minimum and maximum values; the minimum is applied last.
  unfoldable pub limit : Option F → Option F → F → F
  unfolding limit_above limit_below
  limit min max value = limit_below min (limit_above max value)

  -- Equal to itself, as all values but NaN are.
  abbrev pub IsNumber : F → Type 0
  IsNumber v = f.eq v v ≡ true

  abbrev pub AtMost : Option F → F → Type 0
  AtMost none v = Unit
  AtMost (some max) v = f.le v max ≡ true

  abbrev pub AtLeast : Option F → F → Type 0
  AtLeast none v = Unit
  AtLeast (some min) v = f.le min v ≡ true

  -- The bounds of a range are numbers and do not cross.
  abbrev pub IsRange : Option F → Option F → Type 0
  IsRange none none = Unit
  IsRange none (some max) = IsNumber max
  IsRange (some min) none = IsNumber min
  IsRange (some min) (some max) = IsNumber min × IsNumber max × (f.le min max ≡ true)

  -- A NaN, or at least the minimum and at most the maximum
  abbrev pub Within : Option F → Option F → F → Type 0
  Within min max v = (f.eq v v ≡ false) ⊎ (AtLeast min v × AtMost max v)

  module _ (laws : IsOrdered F) where
    above_lem : (max : Option F) (v : F) → IsRange none max → Within none max (limit_above max v)
    unfolding limit_above
    above_lem none v h = inr (tt, tt)
    above_lem (some max) v num = elim (Bool-cases (f.lt max v)) [
      | inl y ↦ rw y (inr (tt, laws.le_refl max num))
      | inr n ↦ elim (Bool-cases (f.eq v v)) [
        | inl e ↦ rw n (inr (tt, laws.le_of_not_lt max v num e n))
        | inr e ↦ rw n (inl e)
      ]
    ]

    below_lem :
        (min : F) (max : Option F) (v : F)
        → IsNumber min
        → AtMost max min
        → Within none max v
        → Within (some min) max (limit_below (some min) v)
    unfolding limit_below
    below_lem min max v num range within = elim (Bool-cases (f.lt v min)) [
      | inl y ↦ rw y (inr (laws.le_refl min num, range))
      | inr n ↦ elim within [
        | inl nan ↦ rw n (inl nan)
        | inr (_, most) ↦ elim (Bool-cases (f.eq v v)) [
          | inl e ↦ rw n (inr (laws.le_of_not_lt v min e num n, most))
          | inr e ↦ rw n (inl e)
        ]
      ]
    ]

    -- Where the bounds are numbers and do not cross, the limited value is within them.
    pub limit-Within :
        (min max : Option F) (v : F) → IsRange min max → Within min max (limit min max v)
    unfolding limit
    limit-Within none none v h = above_lem none v h
    limit-Within none (some max) v h = above_lem (some max) v h
    limit-Within (some min) none v h = below_lem min none _ h tt (above_lem none v tt)
    limit-Within (some min) (some max) v (num, num', le) =
        below_lem min (some max) _ num le (above_lem (some max) v num')
