-- ===== src/Storage/InMemory/Retention.antt =====
-- The order of the records of crates/msr-core/src/storage/mod.rs, and which of them are retained.
use msr.Prelude.{
  ℕ, ◌+◌, ◌-◌, ◌%◌, ◌^◌, ◌≤◌, ◌<◌, ◌≡◌, refl, sym, ap, ◌∙◌, inl, inr, Bool, List, [], ◌∷◌, ◌++◌,
  arith, leb, leb→le, Bool-cases, keep, All, All-append,
}
use msr.Time.{SystemInstant, checked_duration_since}
use msr.Storage.{RecordPrelude, offset_from_duration}
use msr.Storage.InMemory.{
  InMemoryRecordStorage, pop_before, created_since_offset, retain_all_records_created_since,
  append_record,
}

module _ {R : Type 0} (prelude : RecordPrelude R) where
  -- The offsets of the records never descend.
  abbrev pub Ascending : List R → Type 0
  Ascending [] = Unit
  Ascending (r ∷ rs) =
      All (λ q. prelude.created_at_offset r ≤ prelude.created_at_offset q) rs × Ascending rs

  -- Its records ascend, and none is later than an offset.
  abbrev pub IsOrdered : ℕ → InMemoryRecordStorage R → Type 0
  IsOrdered bound s = Ascending s.records × All (λ r. prelude.created_at_offset r ≤ bound) s.records

  All-weaken :
      (a b : ℕ)
      → a ≤ b
      → (rs : List R) → All (λ r. prelude.created_at_offset r ≤ a) rs
      → All (λ r. prelude.created_at_offset r ≤ b) rs
  All-weaken a b h [] _ = tt
  All-weaken a b h (r ∷ rs) (p, ps) = (omega (arith, h, p), All-weaken a b h rs ps)

  Ascending-append :
      (rs : List R) (r : R)
      → Ascending rs
      → All (λ q. prelude.created_at_offset q ≤ prelude.created_at_offset r) rs
      → Ascending (rs ++ r ∷ [])
  Ascending-append [] r _ _ = (tt, tt)
  Ascending-append (q ∷ rs) r (a, rest) (b, bs) = (
    All-append (λ p. prelude.created_at_offset q ≤ prelude.created_at_offset p) rs (r ∷ []) a
        (b, tt),
    Ascending-append rs r rest bs,
  )

  -- Appending a record keeps the order, if the instant is not before the ones of the records in the
  -- storage and within 584 years of the origin, and the record gets the offset that is returned.
  pub append_record-IsOrdered :
      (created_at : SystemInstant) (r : R) (bound : ℕ) (s : InMemoryRecordStorage R)
      → IsOrdered bound s
      → s.created_at_origin.instant + bound ≤ created_at.instant
      → created_at.instant < s.created_at_origin.instant + 2 ^ 64
      → IsOrdered
          (created_at.instant - s.created_at_origin.instant)
          (append_record prelude created_at r s).0
  unfolding append_record offset_from_duration
  append_record-IsOrdered created_at r bound s (asc, all) lo hi =
      let o = created_at.instant - s.created_at_origin.instant in
      let e : prelude.created_at_offset (prelude.set_created_at_offset (o % 2 ^ 64) r) ≡ o =
        prelude.set_law (o % 2 ^ 64) r ∙ omega (arith, hi) in
      (
        Ascending-append s.records (prelude.set_created_at_offset (o % 2 ^ 64) r) asc
            (rw e (All-weaken bound o (omega (arith, lo)) s.records all)),
        All-append (λ q. prelude.created_at_offset q ≤ o) s.records
            (prelude.set_created_at_offset (o % 2 ^ 64) r ∷ [])
            (All-weaken bound o (omega (arith, lo)) s.records all) (omega (arith, e), tt),
      )

  keep_same :
      (since : ℕ) (rs : List R)
      → All (λ r. since ≤ prelude.created_at_offset r) rs
      → keep (λ r. leb since (prelude.created_at_offset r)) rs ≡ rs
  keep_same since [] _ = refl
  keep_same since (r ∷ rs) (h, hs) = ground (arith, h, keep_same since rs hs)

  All-later :
      (since o : ℕ)
      → since ≤ o
      → (rs : List R) → All (λ r. o ≤ prelude.created_at_offset r) rs
      → All (λ r. since ≤ prelude.created_at_offset r) rs
  All-later since o h [] _ = tt
  All-later since o h (r ∷ rs) (p, ps) = (omega (arith, h, p), All-later since o h rs ps)

  pop_before-keep :
      (since : ℕ) (rs : List R)
      → Ascending rs
      → pop_before prelude since rs ≡ keep (λ r. leb since (prelude.created_at_offset r)) rs
  unfolding pop_before
  pop_before-keep since [] _ = refl
  pop_before-keep since (r ∷ rs) (a, rest) =
      elim (Bool-cases (leb since (prelude.created_at_offset r))) [
        | inl y ↦ rw y (
            ap (λ qs. r ∷ qs)
              (sym (
                keep_same since rs (
                  All-later since (prelude.created_at_offset r)
                    (leb→le since (prelude.created_at_offset r) y) rs a))))
        | inr n ↦ rw n (pop_before-keep since rs rest)
      ]

  All-keep_any : (P : R → Type 0) (p : R → Bool) (rs : List R) → All P rs → All P (keep p rs)
  All-keep_any P p [] _ = tt
  All-keep_any P p (r ∷ rs) (h, hs) = elim (Bool-cases (p r)) [
    | inl y ↦ rw y (h, All-keep_any P p rs hs)
    | inr n ↦ rw n (All-keep_any P p rs hs)
  ]

  Ascending-keep : (p : R → Bool) (rs : List R) → Ascending rs → Ascending (keep p rs)
  Ascending-keep p [] _ = tt
  Ascending-keep p (r ∷ rs) (a, rest) = elim (Bool-cases (p r)) [
    | inl y ↦ rw y (
      All-keep_any (λ q. prelude.created_at_offset r ≤ prelude.created_at_offset q) p rs a,
      Ascending-keep p rs rest,
    )
    | inr n ↦ rw n (Ascending-keep p rs rest)
  ]

  created_since_offset_exact :
      (origin : SystemInstant) (created_since : ℕ)
      → created_since < origin.system_time + 2 ^ 64
      → created_since_offset origin created_since ≡ created_since - origin.system_time
  unfolding created_since_offset checked_duration_since offset_from_duration
  created_since_offset_exact origin created_since h = ground (arith, h)

  since_iff :
      (origin : SystemInstant) (created_since offset : ℕ)
      → created_since < origin.system_time + 2 ^ 64
      → leb (created_since_offset origin created_since) offset
        ≡ leb created_since (origin.system_time + offset)
  since_iff origin created_since offset h =
      rw (created_since_offset_exact origin created_since h) (ground arith)

  keep_ext : (p q : R → Bool) → ((r : R) → p r ≡ q r) → (rs : List R) → keep p rs ≡ keep q rs
  keep_ext p q h [] = refl
  keep_ext p q h (r ∷ rs) = rw (h r) (rw (keep_ext p q h rs) refl)

  -- On a storage whose records ascend, exactly the records that were created before the given time
  -- are dropped, although the loop stops at the first one that was not; the others stay in order. The
  -- time is within 584 years of the origin; one before the origin drops no record.
  pub retain-keep :
      (created_since bound : ℕ) (s : InMemoryRecordStorage R)
      → IsOrdered bound s
      → created_since < s.created_at_origin.system_time + 2 ^ 64
      → let s' = (retain_all_records_created_since prelude created_since s).0 in
        (s'.records
          ≡ keep
              (λ r.
                leb created_since (s.created_at_origin.system_time + prelude.created_at_offset r))
              s.records)
        × IsOrdered bound s'
  unfolding retain_all_records_created_since
  retain-keep created_since bound s (asc, all) h =
      let since = created_since_offset s.created_at_origin created_since in
      let p : R → Bool = λ r. leb since (prelude.created_at_offset r) in
      let kept = pop_before-keep since s.records asc in
      (
        kept
            ∙ keep_ext p
                (λ r.
                  leb created_since (s.created_at_origin.system_time + prelude.created_at_offset r))
                (λ r. since_iff s.created_at_origin created_since (prelude.created_at_offset r) h)
                s.records,
        rw kept (
          Ascending-keep p s.records asc,
          All-keep_any (λ r. prelude.created_at_offset r ≤ bound) p s.records all,
        ),
      )
