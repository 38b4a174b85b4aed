-- ===== src/Value/Names.antt =====
-- The names of types in crates/msr-core/src/value/mod.rs are read back, and nothing else is.
use mathlib.Core.Path.{subst}
use msr.Prelude.{
  String, ◌≡◌, refl, sym, ap, ◌↔◌, inl, inr, Option, none, some, str_eq, eq_iff, Bool-cases,
}
use msr.Value.Scalar.{ScalarType, as_str, try_from_str}
use msr.Value.Scalar.Names.{try_from_str_iff}
use msr.Value.{
  ValueType, scalar, duration, string, bytes, type_str, other_type, or_other, type_from_str,
}

-- A type that is read has the name that was read.
unfoldable IsNamed : String → Option ValueType → Type 0
unfolding type_str
IsNamed s none = Unit
IsNamed s (some t) = type_str t ≡ s

other_type-IsNamed : (s : String) → IsNamed s (other_type s)
unfolding type_str other_type IsNamed
other_type-IsNamed s = elim (Bool-cases (str_eq s "duration")) [
  | inl e ↦ rw e (sym ((eq_iff s "duration").0 e))
  | inr e ↦ rw e (elim (Bool-cases (str_eq s "string")) [
    | inl d ↦ rw d (sym ((eq_iff s "string").0 d))
    | inr d ↦ rw d (elim (Bool-cases (str_eq s "bytes")) [
      | inl c ↦ rw c (sym ((eq_iff s "bytes").0 c))
      | inr c ↦ rw c tt
    ])
  ])
]

or_other-IsNamed :
    (s : String) (o : Option ScalarType)
    → try_from_str s ≡ o
    → IsNamed s (or_other (other_type s) o)
unfolding type_str or_other IsNamed
or_other-IsNamed s none e = other_type-IsNamed s
or_other-IsNamed s (some t) e = (try_from_str_iff s t).0 e

name_read : (t : ValueType) → type_from_str (type_str t) ≡ some t
unfolding type_str type_from_str or_other
name_read (scalar t) =
    ap (or_other (other_type (as_str t))) ((try_from_str_iff (as_str t) t).1 refl)
name_read duration = refl
name_read string = refl
name_read bytes = refl

-- A text is read as a type exactly if it is the name of that type.
type_from_str_iff : (s : String) (t : ValueType) → (type_from_str s ≡ some t) ↔ (type_str t ≡ s)
unfolding IsNamed type_from_str
type_from_str_iff s t = (
  λ h. subst (IsNamed s) h (or_other-IsNamed s (try_from_str s) refl),
  λ h. subst (λ n. type_from_str n ≡ some t) h (name_read t),
)
