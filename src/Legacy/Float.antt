-- ===== src/Legacy/Float.antt =====
-- `f64` as far as crates/msr-legacy uses it: the arithmetic of the processor is a parameter.
use msr.Prelude.{ℕ, ◌+◌, ◌-◌, ◌*◌, ◌/◌, ◌≡◌, Bool, true, false, arith, ltb, leb, ◌==◌}

pub record Float (F : Type 0) : Type 0 where
  pub nought : F  -- 0.0
  pub one : F  -- 1.0
  pub epsilon : F  -- f64::EPSILON
  pub lt : F → F → Bool
  pub le : F → F → Bool
  pub eq : F → F → Bool
  pub add : F → F → F
  pub sub : F → F → F
  pub mul : F → F → F
  pub div : F → F → F
  pub abs : F → F
  pub of_nat : ℕ → F  -- conversion of an unsigned integer

-- No value is below itself; of a NaN every comparison is false.
pub record IsIrreflexive (F : Type 0) ⦃f : Float F⦄ : Type 0 where
  pub lt_irrefl : (a : F) → f.lt a a ≡ false

-- The values that are equal to themselves are the numbers, all but NaN. A number is at most itself, and of
-- two numbers one is below the other, or the other at most as great.
pub record IsOrdered (F : Type 0) ⦃f : Float F⦄ : Type 0 where
  pub le_refl : (a : F) → f.eq a a ≡ true → f.le a a ≡ true
  pub le_of_not_lt :
      (a b : F) → f.eq a a ≡ true → f.eq b b ≡ true → f.lt a b ≡ false → f.le b a ≡ true

-- The distance of two values does not depend on their order.
pub record IsSymmetric (F : Type 0) ⦃f : Float F⦄ : Type 0 where
  pub abs-sub_comm : (a b : F) → f.abs (f.sub a b) ≡ f.abs (f.sub b a)

-- Natural numbers, with the distance for subtraction, show that the laws can hold and let tests run.
instance abbrev pub nat_float : Float ℕ
nat_float = record {
  nought = 0;
  one = 1;
  epsilon = 1;
  lt = ltb;
  le = leb;
  eq = ◌==◌;
  add = ◌+◌;
  sub = λ a b. (a - b) + (b - a);
  mul = ◌*◌;
  div = ◌/◌;
  abs = λ a. a;
  of_nat = λ n. n;
}

pub ℕ-IsOrdered : IsOrdered ℕ
ℕ-IsOrdered = record {
  le_refl = λ a e. ground arith;
  le_of_not_lt = λ a b e g h. ground (arith, h);
}

pub ℕ-IsSymmetric : IsSymmetric ℕ
ℕ-IsSymmetric = record { abs-sub_comm = λ a b. omega arith }
