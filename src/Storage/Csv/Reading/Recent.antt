-- ===== src/Storage/Csv/Reading/Recent.antt =====
-- Which records `recent_records` of crates/msr-core/src/storage/csv.rs returns, and how many.
use msr.Prelude.{
  ℕ, ◌*◌, ◌≤◌, ◌<◌, min, ◌≡◌, refl, sym, ap, ◌∙◌, ◌⊎◌, inl, inr, true, none, List, [], ◌∷◌, ◌++◌,
  map, reverse, append-nil, append_assoc, arith, leb, leb→le, Bool-cases, Result, ok, length,
  length-append, for_each,
}
use mathlib.Core.Path.{subst}
use mathlib.Core.List.{reverse-append}
use msr.Fs.Directory.{RollingFileInfoWithSize}
use msr.Fs.System.{chronologically}
use msr.Fs.Csv.{CsvError, CsvWriter}
use msr.Storage.{Error}
use msr.Storage.Csv.{FileRecordStorage, flush_before_reading}
use msr.Storage.Csv.Files.{Disk, files_chronologically}
use msr.Storage.Csv.Reading.{
  oks, skip_while, push_back, created_before, created_until, reader_into_filtered_record_iter,
  last_records_of, recent_of_files, recent_flushed, recent_records,
}
use msr.Storage.Csv.Reading.Ends.{
  length-reverse, skip_none, take_all, IsEnd, push_all-IsEnd, for_each-map,
}

-- All records of a file that can be read, each with the time stamp of the file
abbrev pub records_of : {R : Type 0} → ℕ → List (Result R CsvError) → List (ℕ × R)
records_of created_at rows = map (λ r. (created_at, r)) (oks rows)

module _ {R : Type 0} (created_at_offset : R → ℕ) where
  pub read_unfiltered :
      (created_at : ℕ) (rows : List (Result R CsvError))
      → reader_into_filtered_record_iter created_at_offset rows created_at
          (record { since_created_at = none; until_created_at = none })
        ≡ oks rows
  unfolding reader_into_filtered_record_iter created_before created_until
  read_unfiltered created_at rows =
      take_all (created_until created_at_offset created_at none)
        (skip_while (created_before created_at_offset created_at none) (oks rows)) (λ r. refl)
      ∙ skip_none (created_before created_at_offset created_at none) (oks rows) (λ r. refl)

  last_records_of-IsEnd :
      (limit created_at : ℕ) (rows : List (Result R CsvError))
      → 1 ≤ limit
      → IsEnd limit
          (records_of created_at rows)
          (last_records_of created_at_offset limit created_at rows)
  unfolding last_records_of
  last_records_of-IsEnd limit created_at rows h =
      subst (IsEnd limit (records_of created_at rows))
        (sym (
          ap (λ rs. for_each (λ r records. push_back limit (created_at, r) records) rs [])
            (read_unfiltered created_at rows)
          ∙ for_each-map (push_back limit) (λ r. (created_at, r)) (oks rows) []))
        (push_all-IsEnd limit (records_of created_at rows) [] [] h ([], refl, omega arith))

  -- All records of the files, the newest one first.
  abbrev pub newest_first :
      (List ℕ → List (Result R CsvError)) → List RollingFileInfoWithSize → List (ℕ × R)
  newest_first rows [] = []
  newest_first rows (i ∷ is) =
      reverse (records_of i.created_at (rows i.path)) ++ newest_first rows is

  -- What is returned behind the records before: the first records of the files, more than the limit
  -- or all, and never twice the limit.
  abbrev pub IsRecent : ℕ → List (ℕ × R) → List (ℕ × R) → Result (List (ℕ × R)) Error → Type 0
  IsRecent limit before all res =
      (result rest : List (ℕ × R)) × (res ≡ ok (before ++ result))
      × (all ≡ result ++ rest)
      × ((limit ≤ length (before ++ result)) ⊎ (rest ≡ []))
      × (length (before ++ result) < 2 * limit)

  stops :
      (limit : ℕ) (disk : Disk R) (is : List RollingFileInfoWithSize) (before : List (ℕ × R))
      → leb limit (length before) ≡ true
      → recent_of_files created_at_offset limit disk is before ≡ ok before
  unfolding recent_of_files
  stops limit disk [] before y = refl
  stops limit disk (i ∷ is) before y = rw y refl

  enough :
      (limit : ℕ) (before found left all : List (ℕ × R)) (res : Result (List (ℕ × R)) Error)
      → res ≡ ok (before ++ found)
      → limit ≤ length (before ++ found)
      → length (before ++ found) < 2 * limit
      → all ≡ found ++ left
      → IsRecent limit before all res
  enough limit before found left all res q h g e = (found, left, q, e, inl h, g)

  continued :
      (limit : ℕ) (before found all : List (ℕ × R)) (res : Result (List (ℕ × R)) Error)
      → IsRecent limit (before ++ found) all res
      → IsRecent limit before (found ++ all) res
  continued limit before found all res (result, rest, q, e, c, g) =
      let assoc = append_assoc before found result in
      (
        found ++ result,
        rest,
        q ∙ ap ok assoc,
        ap (λ xs. found ++ xs) e ∙ sym (append_assoc found result rest),
        rw⁻¹ assoc c,
        rw⁻¹ assoc g,
      )

  empty_of : {A : Type 0} (xs : List A) → length xs ≡ 0 → xs ≡ []
  empty_of [] h = refl
  empty_of (x ∷ xs) h = let no : ⊥ = omega (arith, h) in absurd no

  -- The step over one file, of which the last records are read.
  over_file :
      (limit : ℕ) (before all older recent newer : List (ℕ × R)) (res : Result (List (ℕ × R)) Error)
      → length before < limit
      → all ≡ older ++ recent
      → length recent ≡ min limit (length all)
      → (leb limit (length (before ++ reverse recent)) ≡ true → res ≡ ok (before ++ reverse recent))
      → (length (before ++ reverse recent) < 2 * limit
          → IsRecent limit (before ++ reverse recent) newer res)
      → IsRecent limit before (reverse all ++ newer) res
  over_file limit before all older recent newer res h e n stop go =
      let counts = length-append before (reverse recent) in
      let count = length-reverse recent in
      let g : length (before ++ reverse recent) < 2 * limit = omega (arith, h, n, counts, count) in
      let split : reverse all ≡ reverse recent ++ reverse older =
        ap reverse e ∙ reverse-append older recent in
      elim (Bool-cases (leb limit (length (before ++ reverse recent)))) [
        | inl y ↦
            enough limit before (reverse recent) (reverse older ++ newer) (reverse all ++ newer) res
              (stop y) (leb→le limit (length (before ++ reverse recent)) y) g
              (ap (λ xs. xs ++ newer) split ∙ append_assoc (reverse recent) (reverse older) newer)
        | inr f ↦
            let short : length (before ++ reverse recent) < limit = ground arith in
            let none_older : older ≡ [] =
              empty_of older
                (omega (arith, short, n, counts, count, ap length e, length-append older recent)) in
            let whole : all ≡ recent = e ∙ ap (λ xs. xs ++ recent) none_older in
            let same : reverse recent ≡ reverse all = sym (ap reverse whole) in
            subst (λ xs. IsRecent limit before (xs ++ newer) res) same
              (continued limit before (reverse recent) newer res (go g))
      ]

  -- Where every file can be read, `recent_records` returns the newest records, the newest one first,
  -- of all that can be read: as many as the limit or all, and less than twice the limit, each with the
  -- time stamp of its file.
  recent_of_files-IsRecent :
      (limit : ℕ) (disk : Disk R) (rows : List ℕ → List (Result R CsvError))
      → 1 ≤ limit
      → ((path : List ℕ) → disk.rows path ≡ ok (rows path))
      → (is : List RollingFileInfoWithSize) (before : List (ℕ × R)) → length before < 2 * limit
      → IsRecent limit before
          (newest_first rows is)
          (recent_of_files created_at_offset limit disk is before)
  unfolding recent_of_files
  recent_of_files-IsRecent limit disk rows positive reads [] before g =
      ([], [], ap ok (sym (append-nil before)), refl, inr refl, rw (append-nil before) g)
  recent_of_files-IsRecent limit disk rows positive reads (i ∷ is) before g =
      elim (Bool-cases (leb limit (length before))) [
        | inl y ↦
            enough limit before [] (newest_first rows (i ∷ is)) (newest_first rows (i ∷ is))
              (recent_of_files created_at_offset limit disk (i ∷ is) before)
              (stops limit disk (i ∷ is) before y ∙ ap ok (sym (append-nil before)))
              (rw (append-nil before) (leb→le limit (length before) y)) (rw (append-nil before) g)
              refl
        | inr f ↦
            let recent = last_records_of created_at_offset limit i.created_at (rows i.path) in
            let (older, e, n) = last_records_of-IsEnd limit i.created_at (rows i.path) positive in
            rw f (
              rw (reads i.path) (
                over_file limit before (records_of i.created_at (rows i.path)) older recent
                  (newest_first rows is)
                  (recent_of_files created_at_offset limit disk is (before ++ reverse recent))
                  (ground arith) e n (λ y. stops limit disk is (before ++ reverse recent) y)
                  (λ h.
                    recent_of_files-IsRecent limit disk rows positive reads is
                      (before ++ reverse recent) h)))
      ]

  -- The whole of `recent_records`, where the writer can be flushed and the directory and every file
  -- of it can be read: the newest records first, in the reverse of the chronological order of files, as
  -- many as the limit (at most 16384) or all, and less than twice the limit.
  pub recent_records-IsRecent :
      {W Row S : Type 0} (csv : CsvWriter W Row S) (limit : ℕ) (s s' : FileRecordStorage W Row)
      (disk : Disk R) (infos : List RollingFileInfoWithSize)
      (rows : List ℕ → List (Result R CsvError))
      → 1 ≤ limit
      → flush_before_reading csv s ≡ (s', ok tt)
      → disk.files ≡ ok infos
      → ((path : List ℕ) → disk.rows path ≡ ok (rows path))
      → ((recent_records created_at_offset csv limit s disk).0 ≡ s')
        × IsRecent
            (min limit 16384)
            []
            (newest_first rows (reverse (chronologically none infos)))
            (recent_records created_at_offset csv limit s disk).1
  unfolding recent_records recent_flushed files_chronologically
  recent_records-IsRecent csv limit s s' disk infos rows positive flushes found reads = rw flushes (
    refl,
    rw found (
        recent_of_files-IsRecent (min limit 16384) disk rows (omega (arith, positive)) reads
          (reverse (chronologically none infos)) [] (omega (arith, positive))),
  )
