-- ===== src/Storage/InMemory/Recent.antt =====
-- Which records crates/msr-core/src/storage/mod.rs returns as the recent ones.
use msr.Prelude.{
  ℕ, zero, suc, ◌-◌, min, ◌≡◌, refl, ap, List, [], ◌∷◌, ◌++◌, arith, ok, length, drop, length-drop,
}
use msr.Storage.InMemory.{InMemoryRecordStorage, recent_records}

drop-split : {A : Type 0} (n : ℕ) (xs : List A) → (older : List A) × (xs ≡ older ++ drop n xs)
drop-split zero xs = ([], refl)
drop-split (suc n) [] = ([], refl)
drop-split (suc n) (x ∷ xs) = let (older, e) = drop-split n xs in (x ∷ older, ap (λ ys. x ∷ ys) e)

-- The recent records are the last ones that were appended, in their order, as many as the limit
-- allows, and all if there are no more.
recent_records_last :
    {R : Type 0} (limit : ℕ) (s : InMemoryRecordStorage R)
    → (older recent : List R) × (recent_records limit s ≡ ok recent)
      × (s.records ≡ older ++ recent)
      × (length recent ≡ min limit (length s.records))
unfolding recent_records
recent_records_last limit s =
    let n = length s.records - min limit (length s.records) in
    let (older, e) = drop-split n s.records in
    (older, drop n s.records, refl, e, omega (arith, length-drop n s.records))
