-- ===== src/Storage/Csv/Reading/Ends.antt =====
-- The last elements of a list, as the loop over a file in crates/msr-core/src/storage/csv.rs keeps
-- them.
use msr.Prelude.{
  ℕ, ◌≤◌, min, ◌≡◌, refl, sym, ap, ◌∙◌, ◌≢◌, inl, inr, Bool, true, false, List, [], ◌∷◌, ◌++◌, map,
  reverse, append-nil, append_assoc, arith, ◌==◌, Bool-cases, length, drop, length-append, for_each,
}
use mathlib.Core.Path.{subst}
use mathlib.Core.List.{reverse-cons}
use msr.Storage.Csv.Reading.{skip_while, take_while, push_back}

pub length-reverse : {A : Type 0} (xs : List A) → length (reverse xs) ≡ length xs
length-reverse [] = refl
length-reverse (x ∷ xs) =
    rw (reverse-cons x xs) (omega (arith, length-append (reverse xs) (x ∷ []), length-reverse xs))

pub skip_none :
    {A : Type 0} (p : A → Bool) (xs : List A) → ((x : A) → p x ≡ false) → skip_while p xs ≡ xs
unfolding skip_while
skip_none p [] h = refl
skip_none p (x ∷ xs) h = rw (h x) refl

pub take_all :
    {A : Type 0} (p : A → Bool) (xs : List A) → ((x : A) → p x ≡ true) → take_while p xs ≡ xs
unfolding take_while
take_all p [] h = refl
take_all p (x ∷ xs) h = rw (h x) (ap (λ ys. x ∷ ys) (take_all p xs h))

-- The last elements of a list, as many as a limit allows
abbrev pub IsEnd : {A : Type 0} → ℕ → List A → List A → Type 0
IsEnd {A} limit all recent =
    (older : List A) × (all ≡ older ++ recent) × (length recent ≡ min limit (length all))

push_full :
    {A : Type 0} (limit : ℕ) (x : A) (older recent : List A)
    → 1 ≤ limit
    → length recent ≡ limit
    → IsEnd limit ((older ++ recent) ++ x ∷ []) (drop 1 recent ++ x ∷ [])
push_full limit x older [] h l = let no : ⊥ = omega (arith, h, l) in absurd no
push_full limit x older (r ∷ rs) h l = (
  older ++ r ∷ [],
  append_assoc older (r ∷ rs) (x ∷ []) ∙ sym (append_assoc older (r ∷ []) (rs ++ x ∷ [])),
  omega (
    arith,
    h,
    l,
    length-append rs (x ∷ []),
    length-append (older ++ r ∷ rs) (x ∷ []),
    length-append older (r ∷ rs),
  ),
)

push_back-IsEnd :
    {A : Type 0} (limit : ℕ) (x : A) (all recent : List A)
    → 1 ≤ limit
    → IsEnd limit all recent
    → IsEnd limit (all ++ x ∷ []) (push_back limit x recent)
unfolding push_back
push_back-IsEnd limit x all recent h (older, e, n) = elim (Bool-cases (length recent == limit)) [
  | inl y ↦ rw y (rw e (push_full limit x older recent h (ground arith)))
  | inr f ↦ rw f (
    older,
    ap (λ ys. ys ++ x ∷ []) e ∙ append_assoc older recent (x ∷ []),
    omega (
      arith,
      n,
      other limit (length recent) f,
      length-append recent (x ∷ []),
      length-append all (x ∷ []),
    ),
  )
]
  where
    other : (limit n : ℕ) → (n == limit) ≡ false → n ≢ limit
    other limit n f = ground arith

-- Pushing the elements of a list one after another keeps its end.
pub push_all-IsEnd :
    {A : Type 0} (limit : ℕ) (xs all recent : List A)
    → 1 ≤ limit
    → IsEnd limit all recent
    → IsEnd limit (all ++ xs) (for_each (push_back limit) xs recent)
unfolding for_each
push_all-IsEnd limit [] all recent h end = rw (append-nil all) end
push_all-IsEnd limit (x ∷ xs) all recent h end =
    subst (λ ys. IsEnd limit ys (for_each (push_back limit) xs (push_back limit x recent)))
      (append_assoc all (x ∷ []) xs)
      (push_all-IsEnd limit xs (all ++ x ∷ []) (push_back limit x recent) h
        (push_back-IsEnd limit x all recent h end))

pub for_each-map :
    {A B C : Type 0} (f : B → C → C) (g : A → B) (xs : List A) (c : C)
    → for_each (λ x. f (g x)) xs c ≡ for_each f (map g xs) c
unfolding for_each
for_each-map f g [] c = refl
for_each-map f g (x ∷ xs) c = for_each-map f g xs (f (g x) c)
