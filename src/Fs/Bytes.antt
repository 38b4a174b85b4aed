-- ===== src/Fs/Bytes.antt =====
-- Byte strings: equality of `Vec<u8>`, and the tests and the splits of `str`.
use msr.Prelude.{
  ℕ, zero, suc, ◌≤◌, ◌≡◌, refl, ap, ◌↔◌, ◌⊎◌, inl, inr, Bool, true, false, ◌&&◌, ◌||◌, List, [],
  ◌∷◌, ◌++◌, arith, ◌==◌, ==_iff, Bool-cases, length, length-append,
}

unfoldable pub bytes_eq : List ℕ → List ℕ → Bool
bytes_eq [] [] = true
bytes_eq (a ∷ xs) (b ∷ ys) = (a == b) && bytes_eq xs ys
bytes_eq _ _ = false

unfoldable pub starts_with : List ℕ → List ℕ → Bool
starts_with xs [] = true
starts_with [] (b ∷ ys) = false
starts_with (a ∷ xs) (b ∷ ys) = (a == b) && starts_with xs ys

unfoldable pub ends_with : List ℕ → List ℕ → Bool
ends_with [] ys = bytes_eq [] ys
ends_with (a ∷ xs) ys = bytes_eq (a ∷ xs) ys || ends_with xs ys

-- `split_at`
unfoldable pub split_at : ℕ → List ℕ → List ℕ × List ℕ
split_at zero xs = ([], xs)
split_at (suc n) [] = ([], [])
split_at (suc n) (x ∷ xs) = let (ys, zs) = split_at n xs in (x ∷ ys, zs)

and_lem : (a b : Bool) → a && b ≡ true → (a ≡ true) × (b ≡ true)
and_lem true b h = (refl, h)
and_lem false b h = cc

bytes_eq_iff : (xs ys : List ℕ) → (bytes_eq xs ys ≡ true) ↔ (xs ≡ ys)
unfolding bytes_eq
bytes_eq_iff [] [] = (λ h. refl, λ h. refl)
bytes_eq_iff [] (b ∷ ys) = (λ h. cc, λ h. cc)
bytes_eq_iff (a ∷ xs) [] = (λ h. cc, λ h. cc)
bytes_eq_iff (a ∷ xs) (b ∷ ys) = (
  λ h.
      let (x, y) = and_lem (a == b) (bytes_eq xs ys) h in
      let e = (==_iff a b).0 x in let es = (bytes_eq_iff xs ys).0 y in rw (e, es) refl,
  λ h.
      let e : a ≡ b = cc in
      let es : xs ≡ ys = cc in rw ((==_iff a b).1 e, (bytes_eq_iff xs ys).1 es) refl,
)

pub starts_with_iff :
    (xs ys : List ℕ) → (starts_with xs ys ≡ true) ↔ ((r : List ℕ) × (xs ≡ ys ++ r))
unfolding starts_with
starts_with_iff xs [] = (λ h. (xs, refl), λ h. refl)
starts_with_iff [] (b ∷ ys) = (λ h. cc, λ (r, e). cc)
starts_with_iff (a ∷ xs) (b ∷ ys) = (
  λ h.
      let (x, y) = and_lem (a == b) (starts_with xs ys) h in
      let e = (==_iff a b).0 x in let (r, es) = (starts_with_iff xs ys).0 y in (r, rw (e, es) refl),
  λ (r, h).
      let e : a ≡ b = cc in
      let es : xs ≡ ys ++ r = cc in rw ((==_iff a b).1 e, (starts_with_iff xs ys).1 (r, es)) refl,
)

empty_behind : (q ys : List ℕ) → [] ≡ q ++ ys → [] ≡ ys
empty_behind [] ys e = e
empty_behind (a ∷ q) ys e = cc

split_front :
    (a : ℕ) (xs q ys : List ℕ)
    → a ∷ xs ≡ q ++ ys
    → (a ∷ xs ≡ ys) ⊎ ((q' : List ℕ) × (xs ≡ q' ++ ys))
split_front a xs [] ys e = inl e
split_front a xs (b ∷ q) ys e = let es : xs ≡ q ++ ys = cc in inr (q, es)

or_lem : {a b : Bool} → a ≡ false → a || b ≡ true → b ≡ true
or_lem {a} {b} e h = rw e at h

or_right : (a : Bool) {b : Bool} → b ≡ true → a || b ≡ true
or_right true h = refl
or_right false h = h

pub ends_with_iff : (xs ys : List ℕ) → (ends_with xs ys ≡ true) ↔ ((q : List ℕ) × (xs ≡ q ++ ys))
unfolding ends_with
ends_with_iff [] ys =
    (λ h. ([], (bytes_eq_iff [] ys).0 h), λ (q, e). (bytes_eq_iff [] ys).1 (empty_behind q ys e))
ends_with_iff (a ∷ xs) ys = (
  λ h. elim (Bool-cases (bytes_eq (a ∷ xs) ys)) [
    | inl y ↦ ([], (bytes_eq_iff (a ∷ xs) ys).0 y)
    | inr n ↦ let (q, e) = (ends_with_iff xs ys).0 (or_lem n h) in (a ∷ q, ap (λ zs. a ∷ zs) e)
  ],
  λ (q, e). elim (split_front a xs q ys e) [
    | inl all ↦ rw ((bytes_eq_iff (a ∷ xs) ys).1 all) refl
    | inr (q', later) ↦ or_right (bytes_eq (a ∷ xs) ys) ((ends_with_iff xs ys).1 (q', later))
  ],
)

pub split_at-append : (xs ys : List ℕ) → split_at (length xs) (xs ++ ys) ≡ (xs, ys)
unfolding split_at
split_at-append [] ys = refl
split_at-append (x ∷ xs) ys = rw (split_at-append xs ys) refl

-- Where a suffix fits behind a prefix, it ends what follows the prefix.
pub fitting :
    (p q r s : List ℕ) → p ++ r ≡ q ++ s → length s ≤ length r → (m : List ℕ) × (r ≡ m ++ s)
fitting [] q r s e h = (q, e)
fitting (a ∷ p) [] r s e h = absurd (omega (arith, ap length e, length-append p r))
fitting (a ∷ p) (b ∷ q) r s e h = let es : p ++ r ≡ q ++ s = cc in fitting p q r s es h
