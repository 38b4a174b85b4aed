-- ===== src/Prelude/Lists.antt =====
-- Lists measured by native numbers, predicates over lists, and the iterator methods of the program.
use Prim.Native.Nat.{ℕ, zero, suc, ◌+◌, ◌-◌, ◌≤◌}
use mathlib.Core.Path.{refl, ◌∙◌, ◌≡◌}
use mathlib.Core.Bool.{Bool, true, false, false, ◌||◌}
use mathlib.Core.List.{List, [], ◌∷◌, ◌++◌, map}
use mathlib.Core.Option.{Option, none, some}
use native.Mathlib.Omega.{arith}
use mathlib.Core.Path.{refl, ◌∙◌, subst}
use mathlib.Core.Logic.{inl, inr}
use msr.Prelude.Tests.{if◌then◌else◌, Bool-cases}

module _ {ℓ} {A : Type ℓ} where
  abbrev pub length : List A → ℕ
  length [] = 0
  length (x ∷ xs) = suc (length xs)

  abbrev pub drop : ℕ → List A → List A
  drop zero xs = xs
  drop (suc n) [] = []
  drop (suc n) (x ∷ xs) = drop n xs

  -- `iter().take(n)`
  abbrev pub take : ℕ → List A → List A
  take zero xs = []
  take (suc n) [] = []
  take (suc n) (x ∷ xs) = x ∷ take n xs

  -- `iter().any(p)`
  abbrev pub any : (A → Bool) → List A → Bool
  any p [] = false
  any p (x ∷ xs) = p x || any p xs

  -- `iter().find(p)`
  abbrev pub find : (A → Bool) → List A → Option A
  find p [] = none
  find p (x ∷ xs) = let rest = find p xs in if p x then some x else rest

  -- Elements that satisfy a test, in order: `iter().filter(p)` and `retain(p)`.
  abbrev pub keep : (A → Bool) → List A → List A
  keep p [] = []
  keep p (x ∷ xs) = let rest = keep p xs in if p x then x ∷ rest else rest

  -- Holds at each element of a list.
  abbrev pub All {κ} : (A → Type κ) → List A → Type κ
  All P [] = Unit
  All P (x ∷ xs) = P x × All P xs

module _ {ℓ} {A : Type ℓ} where
  pub length-append : (xs ys : List A) → length (xs ++ ys) ≡ length xs + length ys
  length-append [] ys = omega arith
  length-append (x ∷ xs) ys = omega (arith, length-append xs ys)

  pub length-drop : (n : ℕ) (xs : List A) → length (drop n xs) ≡ length xs - n
  length-drop zero xs = omega arith
  length-drop (suc n) [] = omega arith
  length-drop (suc n) (x ∷ xs) = omega (arith, length-drop n xs)

  pub length-take : (n : ℕ) (xs : List A) → length (take n xs) ≤ n
  length-take zero xs = omega arith
  length-take (suc n) [] = omega arith
  length-take (suc n) (x ∷ xs) = omega (arith, length-take n xs)

  pub All-take {κ} : (P : A → Type κ) (n : ℕ) (xs : List A) → All P xs → All P (take n xs)
  All-take P zero xs h = tt
  All-take P (suc n) [] h = tt
  All-take P (suc n) (x ∷ xs) h = (h.0, All-take P n xs h.1)

  pub All-append {κ} : (P : A → Type κ) (xs ys : List A) → All P xs → All P ys → All P (xs ++ ys)
  All-append P [] ys hx hy = hy
  All-append P (x ∷ xs) ys hx hy = (hx.0, All-append P xs ys hx.1 hy)

module _ {ℓ κ} {A : Type ℓ} {B : Type κ} where
  -- `for x in xs` over a mutable state
  unfoldable pub for_each : (A → B → B) → List A → B → B
  for_each body [] b = b
  for_each body (x ∷ xs) b = for_each body xs (body x b)

  -- What each turn keeps, the loop keeps.
  pub for_each_inv {ι} :
      (P : B → Type ι) (body : A → B → B)
      → ((x : A) (b : B) → P b → P (body x b))
      → (xs : List A) (b : B) → P b
      → P (for_each body xs b)
  unfolding for_each
  for_each_inv P body step [] b h = h
  for_each_inv P body step (x ∷ xs) b h = for_each_inv P body step xs (body x b) (step x b h)

  -- What no turn changes, the loop does not change.
  pub for_each_eq {ι} :
      {C : Type ι} (g : B → C) (body : A → B → B)
      → ((x : A) (b : B) → g (body x b) ≡ g b)
      → (xs : List A) (b : B) → g (for_each body xs b) ≡ g b
  for_each_eq g body same xs b =
      for_each_inv (λ c. g c ≡ g b) body (λ x c h. same x c ∙ h) xs b refl

  -- The same where each element satisfies a condition.
  pub for_each_All {ι μ} :
      (Q : A → Type μ) (P : B → Type ι) (body : A → B → B)
      → ((x : A) (b : B) → Q x → P b → P (body x b))
      → (xs : List A) (b : B) → All Q xs
      → P b
      → P (for_each body xs b)
  unfolding for_each
  for_each_All Q P body step [] b q h = h
  for_each_All Q P body step (x ∷ xs) b q h =
      for_each_All Q P body step xs (body x b) q.1 (step x b q.0 h)

module _ {ℓ} {A : Type ℓ} where
  pub All-keep {κ} :
      (P : A → Type κ) (p : A → Bool)
      → ((x : A) → p x ≡ true → P x)
      → (xs : List A) → All P (keep p xs)
  All-keep P p h [] = tt
  All-keep P p h (x ∷ xs) = elim (Bool-cases (p x)) [
    | inl e ↦ rw e (h x e, All-keep P p h xs)
    | inr e ↦ rw e (All-keep P p h xs)
  ]

  pub All-find {κ} :
      (P : A → Type κ) (p : A → Bool) (xs : List A) {a : A} → All P xs → find p xs ≡ some a → P a
  All-find P p [] h e = cc
  All-find P p (x ∷ xs) {a} h e = elim (Bool-cases (p x)) [
    | inl t ↦ let q : x ≡ a = ground arith in subst P q h.0
    | inr t ↦ All-find P p xs h.1 (ground arith)
  ]

module _ {ℓ κ} {A : Type ℓ} {B : Type κ} where
  pub length-map : (f : A → B) (xs : List A) → length (map f xs) ≡ length xs
  length-map f [] = refl
  length-map f (x ∷ xs) = omega (arith, length-map f xs)
