-- ===== src/Legacy/Comparison/Laws.antt =====
-- What `eval` of crates/msr-legacy/src/comparison.rs returns, by the kinds of the two values.
use msr.Prelude.{
  ℕ, String, ◌≡◌, refl, ap, ◌≢◌, ◌↔◌, ◌⊎◌, inl, inr, Bool, true, false, not, Option, none, some,
  List, [], ◌∷◌, arith, str_eq, eq_iff, Result, ok, err, ◌>>=◌, is_ok,
}
use msr.Fs.Bytes.{bytes_eq}
use msr.Legacy.Float.{Float, IsIrreflexive, IsSymmetric}
use msr.Legacy.Value.{Value, bit, decimal, integer, text, bin, timeout}
use msr.Legacy.State.{ErrorKind, not_found, invalid_input, SystemState, Source, value_of}
use msr.Legacy.Comparison.{
  Comparator, less, less_or_equal, greater, greater_or_equal, equal, not_equal, Comparison,
  equality, compare_decimals, compare_values, get_val, eval, ok_or_not_found,
}

pub data Kind : Type 0 where
  bits decimals integers texts bins timeouts : Kind

abbrev pub kind : {F : Type 0} → Value F → Kind
kind (bit _) = bits
kind (decimal _) = decimals
kind (integer _) = integers
kind (text _) = texts
kind (bin _) = bins
kind (timeout _) = timeouts

abbrev pub is_equality : Comparator → Bool
is_equality equal = true
is_equality not_equal = true
is_equality _ = false

-- Which kinds can be compared, and by which comparators.
abbrev pub comparable : Comparator → Kind → Kind → Bool
comparable c decimals decimals = true
comparable c integers integers = true
comparable c timeouts timeouts = true
comparable c bits bits = is_equality c
comparable c texts texts = is_equality c
comparable c bins bins = is_equality c
comparable c bits timeouts = is_equality c
comparable c timeouts bits = is_equality c
comparable c _ _ = false

-- The comparator that says the same with the sides exchanged.
abbrev pub flip : Comparator → Comparator
flip less = greater
flip less_or_equal = greater_or_equal
flip greater = less
flip greater_or_equal = less_or_equal
flip equal = equal
flip not_equal = not_equal

abbrev pub flipped : {F : Type 0} → Comparison F → Comparison F
flipped c = record { left = c.right; cmp = flip c.cmp; right = c.left }

abbrev pub negate : Result Bool ErrorKind → Result Bool ErrorKind
negate (ok b) = ok (not b)
negate (err e) = err e

equality-outcome :
    (c : Comparator) (b : Bool)
    → (is_ok (equality c b) ≡ is_equality c) × (equality c b ≢ err not_found)
unfolding equality
equality-outcome less b = ground arith
equality-outcome _ b = ground arith

str_eq_comm : (a b : String) → str_eq a b ≡ str_eq b a
str_eq_comm a b = ground (arith, eq_iff a b, eq_iff b a)

bytes_eq_comm : (a b : List ℕ) → bytes_eq a b ≡ bytes_eq b a
unfolding bytes_eq
bytes_eq_comm [] [] = refl
bytes_eq_comm [] (b ∷ bs) = refl
bytes_eq_comm (a ∷ xs) [] = refl
bytes_eq_comm (a ∷ xs) (b ∷ bs) = ground (arith, bytes_eq_comm xs bs)

equality-flip : (c : Comparator) {a b : Bool} → a ≡ b → equality (flip c) a ≡ equality c b
unfolding equality
equality-flip less e = refl
equality-flip _ e = ground arith

module _ {F : Type 0} ⦃f : Float F⦄ where
  pub get_val-value_of :
      (src : Source F) (s : SystemState F) → get_val src s ≡ ok_or_not_found (value_of s src)
  unfolding get_val value_of
  get_val-value_of (Source.in_ id) s = refl
  get_val-value_of (Source.out id) s = refl
  get_val-value_of (Source.mem id) s = refl
  get_val-value_of (Source.setpoint id) s = refl
  get_val-value_of (Source.timeout id) s = refl
  get_val-value_of (Source.const v) s = refl

  values_outcome :
      (c : Comparator) (l r : Value F)
      → (is_ok (compare_values c l r) ≡ comparable c (kind l) (kind r))
        × (compare_values c l r ≢ err not_found)
  unfolding compare_values
  values_outcome c (bit a) (bit b) = equality-outcome c _
  values_outcome c (bit a) (timeout t) = equality-outcome c _
  values_outcome c (timeout a) (bit b) = equality-outcome c _
  values_outcome c (text a) (text b) = equality-outcome c _
  values_outcome c (bin a) (bin b) = equality-outcome c _
  values_outcome c _ _ = ground arith

  comparable_lem :
      (c : Comparator) (l r : Value F)
      → (is_ok (compare_values c l r) ≡ comparable c (kind l) (kind r))
        × (comparable c (kind l) (kind r) ≡ false → compare_values c l r ≡ err invalid_input)
  unfolding compare_values equality
  comparable_lem c (bit a) (bit b) = ground arith
  comparable_lem c _ _ = ground arith

  not_found_lem :
      (c : Comparator) (o p : Option (Value F))
      → ((ok_or_not_found o >>= λ l. ok_or_not_found p >>= λ r. compare_values c l r)
          ≡ err not_found)
        ↔ ((o ≡ none) ⊎ (p ≡ none))
  not_found_lem c none p = (λ _. inl refl, λ _. refl)
  not_found_lem c (some l) none = (λ _. inr refl, λ _. refl)
  not_found_lem c (some l) (some r) = (λ e. absurd ((values_outcome c l r).1 e), λ o. ground arith)

  -- A comparison reports a missing value exactly if one of its sources has none.
  eval-not_found :
      (c : Comparison F) (s : SystemState F)
      → (eval c s ≡ err not_found) ↔ ((value_of s c.left ≡ none) ⊎ (value_of s c.right ≡ none))
  unfolding eval
  eval-not_found c s =
      rw (get_val-value_of c.left s, get_val-value_of c.right s)
        (not_found_lem c.cmp (value_of s c.left) (value_of s c.right))

  -- Where both sources have a value the comparison succeeds exactly if their kinds can be compared
  -- by its comparator, and fails with `invalid_input` otherwise.
  eval-comparable :
      (c : Comparison F) (s : SystemState F) (l r : Value F)
      → value_of s c.left ≡ some l
      → value_of s c.right ≡ some r
      → (is_ok (eval c s) ≡ comparable c.cmp (kind l) (kind r))
        × (comparable c.cmp (kind l) (kind r) ≡ false → eval c s ≡ err invalid_input)
  unfolding eval
  eval-comparable c s l r hl hr =
      rw (get_val-value_of c.left s, hl, get_val-value_of c.right s, hr) (comparable_lem c.cmp l r)

  decimals-flip :
      (laws : IsSymmetric F) (c : Comparator) (a b : F)
      → compare_decimals (flip c) b a ≡ compare_decimals c a b
  unfolding compare_decimals
  decimals-flip laws equal a b = rw (laws.abs-sub_comm b a)
  decimals-flip laws not_equal a b = rw (laws.abs-sub_comm b a)
  decimals-flip laws _ a b = refl

  values-flip :
      (laws : IsSymmetric F) (c : Comparator) (l r : Value F)
      → compare_values (flip c) r l ≡ compare_values c l r
  unfolding compare_values
  values-flip laws c (decimal a) (decimal b) = ap ok (decimals-flip laws c a b)
  values-flip laws c (text a) (text b) = equality-flip c (str_eq_comm b a)
  values-flip laws c (bin a) (bin b) = equality-flip c (bytes_eq_comm b a)
  values-flip laws c _ _ = ground arith

  flip_lem :
      (laws : IsSymmetric F) (c : Comparator) (o p : Option (Value F))
      → (ok_or_not_found p >>= λ r. ok_or_not_found o >>= λ l. compare_values (flip c) r l)
        ≡ (ok_or_not_found o >>= λ l. ok_or_not_found p >>= λ r. compare_values c l r)
  flip_lem laws c none none = refl
  flip_lem laws c none (some r) = refl
  flip_lem laws c (some l) none = refl
  flip_lem laws c (some l) (some r) = values-flip laws c l r

  -- A comparison and the one with its sides exchanged and its comparator turned round have the same
  -- result, errors included.
  eval-flipped :
      (laws : IsSymmetric F) (c : Comparison F) (s : SystemState F) → eval (flipped c) s ≡ eval c s
  unfolding eval
  eval-flipped laws c s =
      rw (get_val-value_of c.left s, get_val-value_of c.right s)
        (flip_lem laws c.cmp (value_of s c.left) (value_of s c.right))

  -- On values that are not both decimals, `not_equal` is the negation of `equal`.
  not_equal-negate :
      (l r : Value F)
      → (kind l ≢ decimals)
      → compare_values not_equal l r ≡ negate (compare_values equal l r)
  unfolding compare_values equality
  not_equal-negate (decimal a) r h = absurd (h refl)
  not_equal-negate _ r h = ground arith

  -- Two decimals whose distance is exactly `f64::EPSILON` are neither equal nor not equal.
  decimals_neither :
      (laws : IsIrreflexive F) (a b : F)
      → f.abs (f.sub a b) ≡ f.epsilon
      → (compare_values equal (decimal a) (decimal b) ≡ ok false)
        × (compare_values not_equal (decimal a) (decimal b) ≡ ok false)
  unfolding compare_values
  decimals_neither laws a b h = ground (arith, laws.lt_irrefl f.epsilon)
