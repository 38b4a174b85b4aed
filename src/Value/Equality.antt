-- ===== src/Value/Equality.antt =====
-- The derived equality of the types in crates/msr-core/src/value/mod.rs.
use msr.Prelude.{ℕ, ◌≡◌, refl, sym, ap, ◌∙◌, ◌↔◌, true, ◌==◌, if◌then◌else◌, ==_iff}
use msr.Value.Scalar.{bool, i8, u8, i16, u16, i32, u32, f32, i64, u64, f64}
use msr.Value.{ValueType, scalar, duration, string, bytes, type_discriminant, type_eq}

type_at : ℕ → ValueType
type_at n =
    if n == 0
    then scalar bool
    else if n == 1
    then scalar i8
    else if n == 2
    then scalar u8
    else if n == 3
    then scalar i16
    else if n == 4
    then scalar u16
    else if n == 5
    then scalar i32
    else if n == 6
    then scalar u32
    else if n == 7
    then scalar f32
    else if n == 8
    then scalar i64
    else if n == 9
    then scalar u64
    else if n == 10
    then scalar f64
    else if n == 11
    then duration
    else if n == 12
    then string
    else bytes

type_at-type_discriminant : (t : ValueType) → type_at (type_discriminant t) ≡ t
unfolding type_at type_discriminant
type_at-type_discriminant (scalar bool) = refl
type_at-type_discriminant (scalar i8) = refl
type_at-type_discriminant (scalar u8) = refl
type_at-type_discriminant (scalar i16) = refl
type_at-type_discriminant (scalar u16) = refl
type_at-type_discriminant (scalar i32) = refl
type_at-type_discriminant (scalar u32) = refl
type_at-type_discriminant (scalar f32) = refl
type_at-type_discriminant (scalar i64) = refl
type_at-type_discriminant (scalar u64) = refl
type_at-type_discriminant (scalar f64) = refl
type_at-type_discriminant duration = refl
type_at-type_discriminant string = refl
type_at-type_discriminant bytes = refl

-- Types are equal exactly if they compare as equal.
pub type_eq_iff : (t u : ValueType) → (type_eq t u ≡ true) ↔ (t ≡ u)
unfolding type_eq
type_eq_iff t u = (
  λ h.
      sym (type_at-type_discriminant t)
      ∙ ap type_at ((==_iff (type_discriminant t) (type_discriminant u)).0 h)
      ∙ type_at-type_discriminant u,
  λ h. (==_iff (type_discriminant t) (type_discriminant u)).1 (ap type_discriminant h),
)
