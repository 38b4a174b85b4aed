-- ===== src/Value.antt =====
-- Values and their types: crates/msr-core/src/value/mod.rs. Durations are numbers of nanoseconds,
-- bytes are numbers.
pub mod Scalar
pub mod Names
pub mod Equality
use msr.Prelude.{
  ℕ, String, Bool, true, false, Option, none, some, List, str_eq, ◌==◌, if◌then◌else◌, ℤ,
}
use msr.Value.Scalar.{ScalarType, ScalarValue, as_str, try_from_str, discriminant, to_type}
use msr.Value.Scalar.Casts.{Floats, to_i32, to_u32, to_i64, to_u64, to_f32, to_f64}

pub data ValueType : Type 0 where
  scalar : ScalarType → ValueType
  duration string bytes : ValueType

-- The derived equality of types
unfoldable pub type_discriminant : ValueType → ℕ
unfolding discriminant
type_discriminant (scalar s) = discriminant s
type_discriminant duration = 11
type_discriminant string = 12
type_discriminant bytes = 13

unfoldable pub type_eq : ValueType → ValueType → Bool
unfolding type_discriminant
type_eq t u = type_discriminant t == type_discriminant u

-- `ValueType::to_scalar`
unfoldable pub scalar_type : ValueType → Option ScalarType
scalar_type (scalar s) = some s
scalar_type duration = none
scalar_type string = none
scalar_type bytes = none

unfoldable pub is_scalar : ValueType → Bool
unfolding scalar_type
is_scalar t = elim (scalar_type t) [ some _ ↦ true | none ↦ false ]

-- `ValueType::as_str`
unfoldable pub type_str : ValueType → String
unfolding as_str
type_str (scalar s) = as_str s
type_str duration = "duration"
type_str string = "string"
type_str bytes = "bytes"

-- The second argument of `or`
unfoldable pub other_type : String → Option ValueType
other_type s =
    if str_eq s "duration"
    then some duration
    else if str_eq s "string"
    then some string
    else if str_eq s "bytes"
    then some bytes
    else none

unfoldable pub or_other : Option ValueType → Option ScalarType → Option ValueType
or_other other none = other
or_other other (some s) = some (scalar s)

-- `ValueType::try_from_str`
unfoldable pub type_from_str : String → Option ValueType
unfolding try_from_str other_type or_other
type_from_str s = or_other (other_type s) (try_from_str s)

pub data Value (F32 F64 : Type 0) : Type 0 where
  scalar : ScalarValue F32 F64 → Value F32 F64
  duration : ℕ → Value F32 F64
  string : String → Value F32 F64
  bytes : List ℕ → Value F32 F64

module _ {F32 F64 : Type 0} where
  -- `Value::to_type`, and `ToValueType`
  unfoldable pub to_value_type : Value F32 F64 → ValueType
  unfolding to_type
  to_value_type (scalar v) = scalar (to_type v)
  to_value_type (duration _) = duration
  to_value_type (string _) = string
  to_value_type (bytes _) = bytes

  unfoldable pub to_scalar : Value F32 F64 → Option (ScalarValue F32 F64)
  to_scalar (scalar v) = some v
  to_scalar (duration _) = none
  to_scalar (string _) = none
  to_scalar (bytes _) = none

-- `Option::and_then`
unfoldable pub and_then : {A B : Type 0} → (A → Option B) → Option A → Option B
and_then f none = none
and_then f (some a) = f a

module _ {F32 F64 : Type 0} where
  unfoldable pub value_to_i32 : Value F32 F64 → Option ℤ
  unfolding to_scalar to_i32 and_then
  value_to_i32 v = and_then to_i32 (to_scalar v)

  unfoldable pub value_to_u32 : Value F32 F64 → Option ℕ
  unfolding to_scalar to_u32 and_then
  value_to_u32 v = and_then to_u32 (to_scalar v)

  unfoldable pub value_to_i64 : Value F32 F64 → Option ℤ
  unfolding to_scalar to_i64 and_then
  value_to_i64 v = and_then to_i64 (to_scalar v)

  unfoldable pub value_to_u64 : Value F32 F64 → Option ℕ
  unfolding to_scalar to_u64 and_then
  value_to_u64 v = and_then to_u64 (to_scalar v)

  unfoldable pub value_to_f32 : Floats F32 F64 → Value F32 F64 → Option F32
  unfolding to_scalar to_f32 and_then
  value_to_f32 floats v = and_then (to_f32 floats) (to_scalar v)

  unfoldable pub value_to_f64 : Floats F32 F64 → Value F32 F64 → Option F64
  unfolding to_scalar to_f64 and_then
  value_to_f64 floats v = and_then (to_f64 floats) (to_scalar v)
