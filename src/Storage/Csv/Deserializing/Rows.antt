-- ===== src/Storage/Csv/Deserializing/Rows.antt =====
-- What `read_next_from_string_record_filtered` of crates/msr-core/src/storage/csv.rs lets through.
use msr.Prelude.{
  ℕ, suc, ◌+◌, ◌≤◌, ◌<◌, ◌≡◌, refl, inl, inr, true, Option, none, some, List, [], ◌∷◌, arith,
  leb→le, Bool-cases, Result, ok, err, length,
}
use mathlib.Core.Path.{subst}
use msr.Fs.Csv.{CsvError}
use msr.Storage.{Error, RecordPreludeFilter}
use msr.Storage.Csv.Reading.{created_before, created_until}
use msr.Storage.Csv.Deserializing.{
  FilteredRecord, matched, mismatch_created_after, filtered_since, filtered, found_or, read_row,
  read_next_from_string_record_filtered,
}

module _ {Row T : Type 0} (created_at_offset : T → ℕ) (deserialize : Row → Result T Error) where
  -- A record of a file that a filter with a start lets through was created between its start and its
  -- end; without a start every record is let through.
  abbrev pub InRange : RecordPreludeFilter → ℕ × T → Type 0
  InRange filter (origin, r) =
      (since : ℕ)
      → filter.since_created_at ≡ some since
      → (since ≤ origin + created_at_offset r)
        × ((until : ℕ)
            → filter.until_created_at ≡ some until
            → origin + created_at_offset r ≤ until)

  -- A record that is returned is let through, and fewer rows are left.
  abbrev pub Reads :
      ℕ
      → RecordPreludeFilter
      → ℕ
      → Result (Option (FilteredRecord T × List (Result Row CsvError))) Error
      → Type 0
  Reads origin filter n (err e) = Unit
  Reads origin filter n (ok none) = Unit
  Reads origin filter n (ok (some (matched r, rest))) =
      (length rest < n) × InRange filter (origin, r)
  Reads origin filter n (ok (some (mismatch_created_after, rest))) = length rest < n

  since_lem :
      (origin : ℕ) (until : Option ℕ) (r : T) (since : ℕ)
      → filtered_since created_at_offset deserialize origin until r (some since) ≡ some (matched r)
      → (since ≤ origin + created_at_offset r)
        × (created_until created_at_offset origin until r ≡ true)
  unfolding filtered_since created_before
  since_lem origin until r since e =
      elim (Bool-cases (created_until created_at_offset origin until r)) [
        | inl y ↦ (ground arith, y)
        | inr n ↦ ground arith
      ]

  filtered-InRange :
      (origin : ℕ) (filter : RecordPreludeFilter) (r : T)
      → filtered created_at_offset deserialize origin filter r ≡ some (matched r)
      → InRange filter (origin, r)
  unfolding filtered created_until
  filtered-InRange origin filter r e since h =
      let (lo, hi) = since_lem origin filter.until_created_at r since (
        subst
          (λ o.
            filtered_since created_at_offset deserialize origin filter.until_created_at r o
            ≡ some (matched r))
          h e) in
      (
        lo,
        λ until u.
            leb→le (origin + created_at_offset r) until
              (subst (λ o. created_until created_at_offset origin o r ≡ true) u hi),
      )

  Reads-weaken :
      (origin : ℕ) (filter : RecordPreludeFilter) (m n : ℕ)
      (res : Result (Option (FilteredRecord T × List (Result Row CsvError))) Error)
      → m ≤ n
      → Reads origin filter m res
      → Reads origin filter n res
  Reads-weaken origin filter m n (err e) h _ = tt
  Reads-weaken origin filter m n (ok none) h _ = tt
  Reads-weaken origin filter m n (ok (some (matched r, rest))) h (l, range) =
      (omega (arith, h, l), range)
  Reads-weaken origin filter m n (ok (some (mismatch_created_after, rest))) h l =
      omega (arith, h, l)

  matched_same :
      (origin : ℕ) (until : Option ℕ) (r q : T) (o : Option ℕ)
      → filtered_since created_at_offset deserialize origin until r o ≡ some (matched q)
      → r ≡ q
  unfolding filtered_since
  matched_same origin until r q none e = cc
  matched_same origin until r q (some since) e = ground arith

  Reads-found :
      (origin : ℕ) (filter : RecordPreludeFilter) (r : T) (rows : List (Result Row CsvError))
      (found : FilteredRecord T)
      → filtered created_at_offset deserialize origin filter r ≡ some found
      → Reads origin filter (suc (length rows)) (ok (some (found, rows)))
  unfolding filtered
  Reads-found origin filter r rows (matched q) e =
      let same : r ≡ q =
        matched_same origin filter.until_created_at r q filter.since_created_at e in
      (
        omega arith,
        filtered-InRange origin filter q (
            subst (λ x. filtered created_at_offset deserialize origin filter x ≡ some (matched q))
              same e),
      )
  Reads-found origin filter r rows mismatch_created_after e = omega arith

  Reads-found_or :
      (origin : ℕ) (filter : RecordPreludeFilter) (r : T) (rows : List (Result Row CsvError))
      (rest : Result (Option (FilteredRecord T × List (Result Row CsvError))) Error)
      → Reads origin filter (length rows) rest
      → (o : Option (FilteredRecord T)) → filtered created_at_offset deserialize origin filter r ≡ o
      → Reads origin filter (suc (length rows)) (found_or created_at_offset deserialize rest rows o)
  unfolding found_or
  Reads-found_or origin filter r rows rest h none e =
      Reads-weaken origin filter (length rows) (suc (length rows)) rest (omega arith) h
  Reads-found_or origin filter r rows rest h (some found) e =
      Reads-found origin filter r rows found e

  Reads-read_row :
      (origin : ℕ) (filter : RecordPreludeFilter) (rows : List (Result Row CsvError))
      (rest : Result (Option (FilteredRecord T × List (Result Row CsvError))) Error)
      → Reads origin filter (length rows) rest
      → (res : Result T Error)
      → Reads origin filter
          (suc (length rows))
          (read_row created_at_offset deserialize rest rows origin filter res)
  unfolding read_row
  Reads-read_row origin filter rows rest h (err e) = tt
  Reads-read_row origin filter rows rest h (ok r) =
      Reads-found_or origin filter r rows rest h
        (filtered created_at_offset deserialize origin filter r) refl

  pub read_next-Reads :
      (origin : ℕ) (filter : RecordPreludeFilter) (rows : List (Result Row CsvError))
      → Reads origin filter
          (length rows)
          (read_next_from_string_record_filtered created_at_offset deserialize origin filter rows)
  unfolding read_next_from_string_record_filtered
  read_next-Reads origin filter [] = tt
  read_next-Reads origin filter (err e ∷ rows) = tt
  read_next-Reads origin filter (ok row ∷ rows) =
      Reads-read_row origin filter rows
        (read_next_from_string_record_filtered created_at_offset deserialize origin filter rows)
        (read_next-Reads origin filter rows) (deserialize row)
