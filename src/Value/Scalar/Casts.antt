-- ===== src/Value/Scalar/Casts.antt =====
-- What a scalar value is as a value of each type of Rust, unless that could lose something, `to_bool`
-- up to `to_f64`: crates/msr-core/src/value/scalar/mod.rs. What becomes of integers as floating-point
-- numbers is a parameter.
use msr.Prelude.{ℕ, Bool, Option, none, some, ℤ, pos}
use msr.Value.Scalar.{ScalarValue, bool, i8, u8, i16, u16, i32, u32, f32, i64, u64, f64}

module _ {F32 F64 : Type 0} where
  unfoldable pub to_bool : ScalarValue F32 F64 → Option Bool
  to_bool (bool val) = some val
  to_bool (i8 _) = none
  to_bool (u8 _) = none
  to_bool (i16 _) = none
  to_bool (u16 _) = none
  to_bool (i32 _) = none
  to_bool (u32 _) = none
  to_bool (f32 _) = none
  to_bool (i64 _) = none
  to_bool (u64 _) = none
  to_bool (f64 _) = none

  unfoldable pub to_i8 : ScalarValue F32 F64 → Option ℤ
  to_i8 (bool _) = none
  to_i8 (i8 val) = some val
  to_i8 (u8 _) = none
  to_i8 (i16 _) = none
  to_i8 (u16 _) = none
  to_i8 (i32 _) = none
  to_i8 (u32 _) = none
  to_i8 (f32 _) = none
  to_i8 (i64 _) = none
  to_i8 (u64 _) = none
  to_i8 (f64 _) = none

  unfoldable pub to_u8 : ScalarValue F32 F64 → Option ℕ
  to_u8 (bool _) = none
  to_u8 (i8 _) = none
  to_u8 (u8 val) = some val
  to_u8 (i16 _) = none
  to_u8 (u16 _) = none
  to_u8 (i32 _) = none
  to_u8 (u32 _) = none
  to_u8 (f32 _) = none
  to_u8 (i64 _) = none
  to_u8 (u64 _) = none
  to_u8 (f64 _) = none

  unfoldable pub to_i16 : ScalarValue F32 F64 → Option ℤ
  to_i16 (bool _) = none
  to_i16 (i8 val) = some val
  to_i16 (u8 val) = some (pos val)
  to_i16 (i16 val) = some val
  to_i16 (u16 _) = none
  to_i16 (i32 _) = none
  to_i16 (u32 _) = none
  to_i16 (f32 _) = none
  to_i16 (i64 _) = none
  to_i16 (u64 _) = none
  to_i16 (f64 _) = none

  unfoldable pub to_u16 : ScalarValue F32 F64 → Option ℕ
  to_u16 (bool _) = none
  to_u16 (i8 _) = none
  to_u16 (u8 val) = some val
  to_u16 (i16 _) = none
  to_u16 (u16 val) = some val
  to_u16 (i32 _) = none
  to_u16 (u32 _) = none
  to_u16 (f32 _) = none
  to_u16 (i64 _) = none
  to_u16 (u64 _) = none
  to_u16 (f64 _) = none

  unfoldable pub to_i32 : ScalarValue F32 F64 → Option ℤ
  to_i32 (bool _) = none
  to_i32 (i8 val) = some val
  to_i32 (u8 val) = some (pos val)
  to_i32 (i16 val) = some val
  to_i32 (u16 val) = some (pos val)
  to_i32 (i32 val) = some val
  to_i32 (u32 _) = none
  to_i32 (f32 _) = none
  to_i32 (i64 _) = none
  to_i32 (u64 _) = none
  to_i32 (f64 _) = none

  unfoldable pub to_u32 : ScalarValue F32 F64 → Option ℕ
  to_u32 (bool _) = none
  to_u32 (i8 _) = none
  to_u32 (u8 val) = some val
  to_u32 (i16 _) = none
  to_u32 (u16 val) = some val
  to_u32 (i32 _) = none
  to_u32 (u32 val) = some val
  to_u32 (f32 _) = none
  to_u32 (i64 _) = none
  to_u32 (u64 _) = none
  to_u32 (f64 _) = none

  unfoldable pub to_i64 : ScalarValue F32 F64 → Option ℤ
  to_i64 (bool _) = none
  to_i64 (i8 val) = some val
  to_i64 (u8 val) = some (pos val)
  to_i64 (i16 val) = some val
  to_i64 (u16 val) = some (pos val)
  to_i64 (i32 val) = some val
  to_i64 (u32 val) = some (pos val)
  to_i64 (f32 _) = none
  to_i64 (i64 val) = some val
  to_i64 (u64 _) = none
  to_i64 (f64 _) = none

  unfoldable pub to_u64 : ScalarValue F32 F64 → Option ℕ
  to_u64 (bool _) = none
  to_u64 (i8 _) = none
  to_u64 (u8 val) = some val
  to_u64 (i16 _) = none
  to_u64 (u16 val) = some val
  to_u64 (i32 _) = none
  to_u64 (u32 val) = some val
  to_u64 (f32 _) = none
  to_u64 (i64 _) = none
  to_u64 (u64 val) = some val
  to_u64 (f64 _) = none

-- What `into` and `from` make of integers as floating-point numbers, and of the smaller of those.
pub record Floats (F32 F64 : Type 0) : Type 0 where
  pub f32_from : ℤ → F32
  pub f64_from : ℤ → F64
  pub widened : F32 → F64

module _ {F32 F64 : Type 0} (floats : Floats F32 F64) where
  unfoldable pub to_f32 : ScalarValue F32 F64 → Option F32
  to_f32 (bool _) = none
  to_f32 (i8 val) = some (floats.f32_from val)
  to_f32 (u8 val) = some (floats.f32_from (pos val))
  to_f32 (i16 val) = some (floats.f32_from val)
  to_f32 (u16 val) = some (floats.f32_from (pos val))
  to_f32 (i32 _) = none
  to_f32 (u32 _) = none
  to_f32 (f32 val) = some val
  to_f32 (i64 _) = none
  to_f32 (u64 _) = none
  to_f32 (f64 _) = none

  unfoldable pub to_f64 : ScalarValue F32 F64 → Option F64
  to_f64 (bool _) = none
  to_f64 (i8 val) = some (floats.f64_from val)
  to_f64 (u8 val) = some (floats.f64_from (pos val))
  to_f64 (i16 val) = some (floats.f64_from val)
  to_f64 (u16 val) = some (floats.f64_from (pos val))
  to_f64 (i32 val) = some (floats.f64_from val)
  to_f64 (u32 val) = some (floats.f64_from (pos val))
  to_f64 (f32 val) = some (floats.widened val)
  to_f64 (i64 _) = none
  to_f64 (u64 _) = none
  to_f64 (f64 val) = some val
