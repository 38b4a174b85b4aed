-- ===== src/Value/Scalar/Conversions.antt =====
-- The conversions of integers in crates/msr-core/src/value/scalar/mod.rs lose nothing.
use mathlib.Core.Path.{subst}
use msr.Prelude.{
  ℕ, ◌-◌, ◌^◌, ◌≡◌, refl, sym, inl, inr, Bool, true, false, ◌&&◌, Option, none, some, arith,
  if◌then◌else◌, Bool-cases, ℤ, pos, negsuc, leb_ℤ,
}
use msr.Value.Scalar.{
  ScalarType, ScalarValue, bool, i8, u8, i16, u16, i32, u32, f32, i64, u64, f64, to_type,
}
use msr.Value.Scalar.Casts.{to_i8, to_u8, to_i16, to_u16, to_i32, to_u32, to_i64, to_u64}

-- The number that is an integer value
unfoldable pub number : {F32 F64 : Type 0} → ScalarValue F32 F64 → Option ℤ
number (bool _) = none
number (i8 n) = some n
number (u8 n) = some (pos n)
number (i16 n) = some n
number (u16 n) = some (pos n)
number (i32 n) = some n
number (u32 n) = some (pos n)
number (f32 _) = none
number (i64 n) = some n
number (u64 n) = some (pos n)
number (f64 _) = none

-- The least and the greatest number of an integer type
unfoldable pub bounds : ScalarType → Option (ℤ × ℤ)
bounds bool = none
bounds i8 = some (negsuc (2 ^ 7 - 1), pos (2 ^ 7 - 1))
bounds u8 = some (pos 0, pos (2 ^ 8 - 1))
bounds i16 = some (negsuc (2 ^ 15 - 1), pos (2 ^ 15 - 1))
bounds u16 = some (pos 0, pos (2 ^ 16 - 1))
bounds i32 = some (negsuc (2 ^ 31 - 1), pos (2 ^ 31 - 1))
bounds u32 = some (pos 0, pos (2 ^ 32 - 1))
bounds f32 = none
bounds i64 = some (negsuc (2 ^ 63 - 1), pos (2 ^ 63 - 1))
bounds u64 = some (pos 0, pos (2 ^ 64 - 1))
bounds f64 = none

-- Every number of the second type is one of the first.
unfoldable pub within : Option (ℤ × ℤ) → Option (ℤ × ℤ) → Bool
within none none = false
within none (some b) = false
within (some a) none = false
within (some (lo, hi)) (some (lo', hi')) = leb_ℤ lo lo' && leb_ℤ hi' hi

unfoldable pub includes : ScalarType → ScalarType → Bool
unfolding bounds within
includes t u = within (bounds t) (bounds u)

-- A conversion to a type gives a value's number exactly if that type has all the numbers of the
-- value's type.
unfoldable pub IsLossless :
    {F32 F64 : Type 0} → ScalarType → Option ℤ → ScalarValue F32 F64 → Type 0
unfolding number includes to_type
IsLossless t converted v = converted ≡ (if includes t (to_type v) then number v else none)

unfoldable pub natural : Option ℕ → Option ℤ
natural none = none
natural (some n) = some (pos n)

module _ {F32 F64 : Type 0} where
  pub conversions-AreLossless :
      (v : ScalarValue F32 F64)
      → IsLossless i8 (to_i8 v) v
        × IsLossless u8 (natural (to_u8 v)) v
        × IsLossless i16 (to_i16 v) v
        × IsLossless u16 (natural (to_u16 v)) v
        × IsLossless i32 (to_i32 v) v
        × IsLossless u32 (natural (to_u32 v)) v
        × IsLossless i64 (to_i64 v) v
        × IsLossless u64 (natural (to_u64 v)) v
  unfolding IsLossless natural to_i8 to_u8 to_i16 to_u16 to_i32 to_u32 to_i64 to_u64
  conversions-AreLossless (bool n) = (refl, refl, refl, refl, refl, refl, refl, refl)
  conversions-AreLossless (i8 n) = (refl, refl, refl, refl, refl, refl, refl, refl)
  conversions-AreLossless (u8 n) = (refl, refl, refl, refl, refl, refl, refl, refl)
  conversions-AreLossless (i16 n) = (refl, refl, refl, refl, refl, refl, refl, refl)
  conversions-AreLossless (u16 n) = (refl, refl, refl, refl, refl, refl, refl, refl)
  conversions-AreLossless (i32 n) = (refl, refl, refl, refl, refl, refl, refl, refl)
  conversions-AreLossless (u32 n) = (refl, refl, refl, refl, refl, refl, refl, refl)
  conversions-AreLossless (f32 n) = (refl, refl, refl, refl, refl, refl, refl, refl)
  conversions-AreLossless (i64 n) = (refl, refl, refl, refl, refl, refl, refl, refl)
  conversions-AreLossless (u64 n) = (refl, refl, refl, refl, refl, refl, refl, refl)
  conversions-AreLossless (f64 n) = (refl, refl, refl, refl, refl, refl, refl, refl)

-- A value within the bounds of its type
unfoldable pub InBounds : Option (ℤ × ℤ) → Option ℤ → Type 0
InBounds none n = Unit
InBounds (some b) none = Unit
InBounds (some (lo, hi)) (some n) = (leb_ℤ lo n ≡ true) × (leb_ℤ n hi ≡ true)

InBounds-within :
    (a b : Option (ℤ × ℤ)) (n : Option ℤ)
    → InBounds b n
    → InBounds a (if within a b then n else none)
unfolding InBounds within
InBounds-within none none n h = tt
InBounds-within none (some b) n h = tt
InBounds-within (some a) none n h = tt
InBounds-within (some (lo, hi)) (some (lo', hi')) none h =
    elim (Bool-cases (leb_ℤ lo lo' && leb_ℤ hi' hi)) [ inl e ↦ rw e tt | inr e ↦ rw e tt ]
InBounds-within (some (lo, hi)) (some (lo', hi')) (some n) h =
    elim (Bool-cases (leb_ℤ lo lo' && leb_ℤ hi' hi)) [
      | inl e ↦ rw e (ground (arith, h, e), ground (arith, h, e))
      | inr e ↦ rw e tt
    ]

module _ {F32 F64 : Type 0} where
  unfoldable pub IsValid : ScalarValue F32 F64 → Type 0
  unfolding InBounds number bounds to_type
  IsValid v = InBounds (bounds (to_type v)) (number v)

  -- A conversion that loses nothing stays within the bounds of its type.
  IsLossless-InBounds :
      (t : ScalarType) (v : ScalarValue F32 F64) (converted : Option ℤ)
      → IsLossless t converted v
      → IsValid v
      → InBounds (bounds t) converted
  unfolding IsValid IsLossless includes
  IsLossless-InBounds t v converted e h =
      subst (InBounds (bounds t)) (sym e)
        (InBounds-within (bounds t) (bounds (to_type v)) (number v) h)

  -- The conversions of a value within the bounds of its type are within those of theirs.
  conversions-InBounds :
      (v : ScalarValue F32 F64)
      → IsValid v
      → InBounds (bounds i8) (to_i8 v)
        × InBounds (bounds u8) (natural (to_u8 v))
        × InBounds (bounds i16) (to_i16 v)
        × InBounds (bounds u16) (natural (to_u16 v))
        × InBounds (bounds i32) (to_i32 v)
        × InBounds (bounds u32) (natural (to_u32 v))
        × InBounds (bounds i64) (to_i64 v)
        × InBounds (bounds u64) (natural (to_u64 v))
  conversions-InBounds v h =
      let (a, b, c, d, e, f, g, i) = conversions-AreLossless v in
      (
        IsLossless-InBounds i8 v _ a h,
        IsLossless-InBounds u8 v _ b h,
        IsLossless-InBounds i16 v _ c h,
        IsLossless-InBounds u16 v _ d h,
        IsLossless-InBounds i32 v _ e h,
        IsLossless-InBounds u32 v _ f h,
        IsLossless-InBounds i64 v _ g h,
        IsLossless-InBounds u64 v _ i h,
      )
