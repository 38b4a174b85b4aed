-- ===== src/Legacy/Comparison.antt =====
-- crates/msr-legacy/src/comparison.rs
pub mod Laws
use msr.Prelude.{
  ◌>>=◌, ℕ, Bool, not, Option, none, some, str_eq, ltb, leb, ◌==◌, bool_eq, Result, ok, err, get, ℤ,
  ltb_ℤ, leb_ℤ, eqb_ℤ,
}
use msr.Fs.Bytes.{bytes_eq}
use msr.Legacy.Float.{Float}
use msr.Legacy.Value.{Value, bit, decimal, integer, text, bin, timeout}
use msr.Legacy.State.{ErrorKind, not_found, invalid_input, SystemState, Source}

pub data Comparator : Type 0 where
  less less_or_equal greater greater_or_equal equal not_equal : Comparator

pub record Comparison (F : Type 0) : Type 0 where
  pub left : Source F
  pub cmp : Comparator
  pub right : Source F

-- `ok_or_else` with an error of the kind `NotFound`
abbrev pub ok_or_not_found : {A : Type 0} → Option A → Result A ErrorKind
ok_or_not_found (some a) = ok a
ok_or_not_found none = err not_found

-- The comparators that the source accepts where only equality is defined.
unfoldable pub equality : Comparator → Bool → Result Bool ErrorKind
equality equal same = ok same
equality not_equal same = ok (not same)
equality _ same = err invalid_input

unfoldable pub compare_numbers : Comparator → ℕ → ℕ → Bool
compare_numbers less a b = ltb a b
compare_numbers less_or_equal a b = leb a b
compare_numbers greater a b = ltb b a
compare_numbers greater_or_equal a b = leb b a
compare_numbers equal a b = a == b
compare_numbers not_equal a b = not (a == b)

unfoldable pub compare_integers : Comparator → ℤ → ℤ → Bool
compare_integers less a b = ltb_ℤ a b
compare_integers less_or_equal a b = leb_ℤ a b
compare_integers greater a b = ltb_ℤ b a
compare_integers greater_or_equal a b = leb_ℤ b a
compare_integers equal a b = eqb_ℤ a b
compare_integers not_equal a b = not (eqb_ℤ a b)

module _ {F : Type 0} ⦃f : Float F⦄ where
  unfoldable pub compare_decimals : Comparator → F → F → Bool
  compare_decimals less a b = f.lt a b
  compare_decimals less_or_equal a b = f.le a b
  compare_decimals greater a b = f.lt b a
  compare_decimals greater_or_equal a b = f.le b a
  compare_decimals equal a b = f.lt (f.abs (f.sub a b)) f.epsilon
  compare_decimals not_equal a b = f.lt f.epsilon (f.abs (f.sub a b))

  -- The two nested `match`es of `eval`, on both values.
  unfoldable pub compare_values : Comparator → Value F → Value F → Result Bool ErrorKind
  unfolding equality bytes_eq compare_numbers compare_integers compare_decimals
  compare_values cmp (bit a) (bit b) = equality cmp (bool_eq a b)
  compare_values cmp (bit a) (timeout t) = equality cmp (bool_eq a (t == 0))
  compare_values cmp (decimal a) (decimal b) = ok (compare_decimals cmp a b)
  compare_values cmp (integer a) (integer b) = ok (compare_integers cmp a b)
  compare_values cmp (text a) (text b) = equality cmp (str_eq a b)
  compare_values cmp (bin a) (bin b) = equality cmp (bytes_eq a b)
  compare_values cmp (timeout a) (timeout b) = ok (compare_numbers cmp a b)
  compare_values cmp (timeout a) (bit b) = equality cmp (bool_eq (a == 0) b)
  compare_values cmp _ _ = err invalid_input

  unfoldable pub get_val : Source F → SystemState F → Result (Value F) ErrorKind
  get_val (Source.in_ id) state = ok_or_not_found (get id state.io.inputs)
  get_val (Source.out id) state = ok_or_not_found (get id state.io.outputs)
  get_val (Source.mem id) state = ok_or_not_found (get id state.io.mem)
  get_val (Source.setpoint id) state = ok_or_not_found (get id state.setpoints)
  get_val (Source.timeout id) state = ok_or_not_found (get id state.timeouts)
  get_val (Source.const v) state = ok v

  unfoldable pub eval : Comparison F → SystemState F → Result Bool ErrorKind
  eval c state = do
    left ← get_val c.left state
    right ← get_val c.right state
    compare_values c.cmp left right

-- `Source::cmp` and its six wrappers
module _ {F : Type 0} where
  unfoldable pub cmp : Source F → Source F → Comparator → Comparison F
  cmp left right c = record { left = left; cmp = c; right = right }

  unfoldable pub cmp_eq : Source F → Source F → Comparison F
  unfolding cmp
  cmp_eq left right = cmp left right equal

  unfoldable pub cmp_le : Source F → Source F → Comparison F
  unfolding cmp
  cmp_le left right = cmp left right less_or_equal

  unfoldable pub cmp_ge : Source F → Source F → Comparison F
  unfolding cmp
  cmp_ge left right = cmp left right greater_or_equal

  unfoldable pub cmp_ne : Source F → Source F → Comparison F
  unfolding cmp
  cmp_ne left right = cmp left right not_equal

  unfoldable pub cmp_lt : Source F → Source F → Comparison F
  unfolding cmp
  cmp_lt left right = cmp left right less

  unfoldable pub cmp_gt : Source F → Source F → Comparison F
  unfolding cmp
  cmp_gt left right = cmp left right greater
