-- ===== src/Value/Scalar/Names.antt =====
-- The names of types in crates/msr-core/src/value/scalar/mod.rs are read back.
use mathlib.Core.Path.{subst}
use msr.Prelude.{
  String, ◌≡◌, refl, sym, ◌↔◌, inl, inr, Option, none, some, str_eq, eq_iff, if◌then◌else◌,
  Bool-cases,
}
use msr.Value.Scalar.{
  ScalarType, bool, i8, u8, i16, u16, i32, u32, f32, i64, u64, f64, as_str, try_from_str,
}

name_read : (t : ScalarType) → try_from_str (as_str t) ≡ some t
unfolding as_str try_from_str
name_read bool = refl
name_read i8 = refl
name_read u8 = refl
name_read i16 = refl
name_read u16 = refl
name_read i32 = refl
name_read u32 = refl
name_read f32 = refl
name_read i64 = refl
name_read u64 = refl
name_read f64 = refl

-- A type that is read has the name that was read.
unfoldable pub IsNamed : String → Option ScalarType → Type 0
unfolding as_str
IsNamed s none = Unit
IsNamed s (some t) = as_str t ≡ s

one_more :
    (s : String) (t : ScalarType) (rest : Option ScalarType)
    → IsNamed s rest
    → IsNamed s (if str_eq s (as_str t) then some t else rest)
unfolding as_str IsNamed
one_more s t rest h = elim (Bool-cases (str_eq s (as_str t))) [
  | inl e ↦ rw e (sym ((eq_iff s (as_str t)).0 e))
  | inr e ↦ rw e h
]

pub try_from_str-IsNamed : (s : String) → IsNamed s (try_from_str s)
unfolding as_str try_from_str IsNamed
try_from_str-IsNamed s = one_more s bool _ (
    one_more s i8 _ (
      one_more s u8 _ (
        one_more s i16 _ (
          one_more s u16 _ (
            one_more s i32 _ (
              one_more s u32 _ (
                one_more s f32 _
                  (one_more s i64 _ (one_more s u64 _ (one_more s f64 _ (tt)))))))))))

pub try_from_str_iff : (s : String) (t : ScalarType) → (try_from_str s ≡ some t) ↔ (as_str t ≡ s)
unfolding IsNamed
try_from_str_iff s t = (
  λ h. subst (IsNamed s) h (try_from_str-IsNamed s),
  λ h. subst (λ n. try_from_str n ≡ some t) h (name_read t),
)
