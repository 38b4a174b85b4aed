-- ===== src/Value/Scalar.antt =====
-- Scalar values and their types: crates/msr-core/src/value/scalar/mod.rs. A signed integer is an
-- integer and an unsigned one a natural number, each within the bounds of its type; the two types
-- of floating-point numbers and the conversions to them are parameters.
pub mod Casts
pub mod Conversions
pub mod Names
use msr.Prelude.{ℕ, String, Bool, Option, none, some, str_eq, if◌then◌else◌, ℤ, pos}

-- `Type`
pub data ScalarType : Type 0 where
  bool i8 u8 i16 u16 i32 u32 f32 i64 u64 f64 : ScalarType

unfoldable pub as_str : ScalarType → String
as_str bool = "bool"
as_str i8 = "i8"
as_str u8 = "u8"
as_str i16 = "i16"
as_str u16 = "u16"
as_str i32 = "i32"
as_str u32 = "u32"
as_str f32 = "f32"
as_str i64 = "i64"
as_str u64 = "u64"
as_str f64 = "f64"

unfoldable pub try_from_str : String → Option ScalarType
try_from_str s =
    if str_eq s "bool"
    then some bool
    else if str_eq s "i8"
    then some i8
    else if str_eq s "u8"
    then some u8
    else if str_eq s "i16"
    then some i16
    else if str_eq s "u16"
    then some u16
    else if str_eq s "i32"
    then some i32
    else if str_eq s "u32"
    then some u32
    else if str_eq s "f32"
    then some f32
    else if str_eq s "i64"
    then some i64
    else if str_eq s "u64"
    then some u64
    else if str_eq s "f64"
    then some f64
    else none

-- The derived equality compares these.
unfoldable pub discriminant : ScalarType → ℕ
discriminant bool = 0
discriminant i8 = 1
discriminant u8 = 2
discriminant i16 = 3
discriminant u16 = 4
discriminant i32 = 5
discriminant u32 = 6
discriminant f32 = 7
discriminant i64 = 8
discriminant u64 = 9
discriminant f64 = 10

-- `Value`
pub data ScalarValue (F32 F64 : Type 0) : Type 0 where
  bool : Bool → ScalarValue F32 F64
  i8 : ℤ → ScalarValue F32 F64
  u8 : ℕ → ScalarValue F32 F64
  i16 : ℤ → ScalarValue F32 F64
  u16 : ℕ → ScalarValue F32 F64
  i32 : ℤ → ScalarValue F32 F64
  u32 : ℕ → ScalarValue F32 F64
  f32 : F32 → ScalarValue F32 F64
  i64 : ℤ → ScalarValue F32 F64
  u64 : ℕ → ScalarValue F32 F64
  f64 : F64 → ScalarValue F32 F64

-- `Value::to_type`, and the constructors `Value::from_bool` up to `Value::from_f64`
module _ {F32 F64 : Type 0} where
  unfoldable pub to_type : ScalarValue F32 F64 → ScalarType
  to_type (bool val) = bool
  to_type (i8 val) = i8
  to_type (u8 val) = u8
  to_type (i16 val) = i16
  to_type (u16 val) = u16
  to_type (i32 val) = i32
  to_type (u32 val) = u32
  to_type (f32 val) = f32
  to_type (i64 val) = i64
  to_type (u64 val) = u64
  to_type (f64 val) = f64

  unfoldable pub from_bool : Bool → ScalarValue F32 F64
  from_bool val = bool val

  unfoldable pub from_i8 : ℤ → ScalarValue F32 F64
  from_i8 val = i8 val

  unfoldable pub from_u8 : ℕ → ScalarValue F32 F64
  from_u8 val = u8 val

  unfoldable pub from_i16 : ℤ → ScalarValue F32 F64
  from_i16 val = i16 val

  unfoldable pub from_u16 : ℕ → ScalarValue F32 F64
  from_u16 val = u16 val

  unfoldable pub from_i32 : ℤ → ScalarValue F32 F64
  from_i32 val = i32 val

  unfoldable pub from_u32 : ℕ → ScalarValue F32 F64
  from_u32 val = u32 val

  unfoldable pub from_f32 : F32 → ScalarValue F32 F64
  from_f32 val = f32 val

  unfoldable pub from_i64 : ℤ → ScalarValue F32 F64
  from_i64 val = i64 val

  unfoldable pub from_u64 : ℕ → ScalarValue F32 F64
  from_u64 val = u64 val

  unfoldable pub from_f64 : F64 → ScalarValue F32 F64
  from_f64 val = f64 val

-- `Display` for values: numbers as text are parameters.
module _ {F32 F64 : Type 0} (show_bool : Bool → String) (show_integer : ℤ → String)
    (show_f32 : F32 → String) (show_f64 : F64 → String) where
  unfoldable pub fmt : ScalarValue F32 F64 → String
  fmt (bool val) = show_bool val
  fmt (i8 val) = show_integer val
  fmt (u8 val) = show_integer (pos val)
  fmt (i16 val) = show_integer val
  fmt (u16 val) = show_integer (pos val)
  fmt (i32 val) = show_integer val
  fmt (u32 val) = show_integer (pos val)
  fmt (f32 val) = show_f32 val
  fmt (i64 val) = show_integer val
  fmt (u64 val) = show_integer (pos val)
  fmt (f64 val) = show_f64 val
