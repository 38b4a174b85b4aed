-- ===== src/Fs/System/Chronology.antt =====
-- The chronological order of files in crates/msr-core/src/fs/policy/mod.rs.
use msr.Prelude.{
  ℕ, ◌≤◌, ◌≡◌, ap, ◌⊎◌, ◌↔◌, true, inl, inr, some, List, [], ◌∷◌, arith, leb, leb→le, Bool-cases,
  Result, All,
}
use msr.Fs.Policy.{RollingFileNameTemplate}
use msr.Fs.Directory.{only_most_recent, RollingFileInfoWithSize, DirEntry, infos_of, debug_asserted}
use msr.Fs.Directory.MostRecent.{Member, IsLatest, IsListedInOrder, read_all-only_most_recent}
use msr.Fs.System.{
  insert_by_created_at, sort_by_created_at, last_of, entries_sorted, last_entry,
  read_all_dir_entries_filtered_chronologically, read_most_recent_dir_entry,
}

-- No file is older than one before it.
abbrev pub IsChronological : List RollingFileInfoWithSize → Type 0
IsChronological [] = Unit
IsChronological (i ∷ is) = All (λ j. i.created_at ≤ j.created_at) is × IsChronological is

All-insert :
    (P : RollingFileInfoWithSize → Type 0) (i : RollingFileInfoWithSize)
    (js : List RollingFileInfoWithSize)
    → P i
    → All P js
    → All P (insert_by_created_at i js)
unfolding insert_by_created_at
All-insert P i [] h hs = (h, tt)
All-insert P i (j ∷ js) h (g, gs) = elim (Bool-cases (leb i.created_at j.created_at)) [
  | inl y ↦ rw y (h, (g, gs))
  | inr n ↦ rw n (g, All-insert P i js h gs)
]

pub All-sort :
    (P : RollingFileInfoWithSize → Type 0) (is : List RollingFileInfoWithSize)
    → All P is
    → All P (sort_by_created_at is)
unfolding sort_by_created_at
All-sort P [] h = tt
All-sort P (i ∷ is) (h, hs) = All-insert P i (sort_by_created_at is) h (All-sort P is hs)

All-later :
    (a b : ℕ) (is : List RollingFileInfoWithSize)
    → a ≤ b
    → All (λ i. b ≤ i.created_at) is
    → All (λ i. a ≤ i.created_at) is
All-later a b [] h _ = tt
All-later a b (i ∷ is) h (g, gs) = (omega (arith, h, g), All-later a b is h gs)

IsChronological-insert :
    (i : RollingFileInfoWithSize) (js : List RollingFileInfoWithSize)
    → IsChronological js
    → IsChronological (insert_by_created_at i js)
unfolding insert_by_created_at
IsChronological-insert i [] h = (tt, tt)
IsChronological-insert i (j ∷ js) (g, h) = elim (Bool-cases (leb i.created_at j.created_at)) [
  | inl y ↦
      let le = leb→le i.created_at j.created_at y in
      rw y ((le, All-later i.created_at j.created_at js le g), (g, h))
  | inr n ↦
      let ge : j.created_at ≤ i.created_at = ground arith in
      rw n (All-insert (λ k. j.created_at ≤ k.created_at) i js ge g, IsChronological-insert i js h)
]

pub IsChronological-sort :
    (is : List RollingFileInfoWithSize) → IsChronological (sort_by_created_at is)
unfolding sort_by_created_at
IsChronological-sort [] = tt
IsChronological-sort (i ∷ is) =
    IsChronological-insert i (sort_by_created_at is) (IsChronological-sort is)

Member-behind :
    (m i j : RollingFileInfoWithSize) (js rest : List RollingFileInfoWithSize)
    → (Member m (i ∷ js) → Member m rest)
    → Member m (i ∷ j ∷ js)
    → (m ≡ j) ⊎ Member m rest
Member-behind m i j js rest f (inl e) = inr (f (inl e))
Member-behind m i j js rest f (inr (inl e)) = inl e
Member-behind m i j js rest f (inr (inr h)) = inr (f (inr h))

Member-insert :
    (m i : RollingFileInfoWithSize) (js : List RollingFileInfoWithSize)
    → Member m (i ∷ js)
    → Member m (insert_by_created_at i js)
unfolding insert_by_created_at
Member-insert m i [] h = h
Member-insert m i (j ∷ js) h = elim (Bool-cases (leb i.created_at j.created_at)) [
  | inl y ↦ rw y h
  | inr n ↦
      rw n (Member-behind m i j js (insert_by_created_at i js) (λ g. Member-insert m i js g) h)
]

-- Sorting loses no file.
pub Member-sort :
    (m : RollingFileInfoWithSize) (is : List RollingFileInfoWithSize)
    → Member m is
    → Member m (sort_by_created_at is)
unfolding sort_by_created_at
Member-sort m [] h = h
Member-sort m (i ∷ is) (inl e) = Member-insert m i (sort_by_created_at is) (inl e)
Member-sort m (i ∷ is) (inr h) =
    Member-insert m i (sort_by_created_at is) (inr (Member-sort m is h))

-- The most recent entry of a directory whose names do not make the parser panic is a file such that
-- no other was created after it. That is so without debug assertions; with them the call panics, unless
-- no file is listed behind a newer one.
pub read_most_recent_dir_entry-IsLatest :
    {X : Type 0} (parse_ts : List ℕ → Result ℕ X) (template : RollingFileNameTemplate)
    (es : List DirEntry) (i : RollingFileInfoWithSize) (infos : List RollingFileInfoWithSize)
    → infos_of parse_ts template es ≡ some (i ∷ infos)
    → (m : RollingFileInfoWithSize) × (read_most_recent_dir_entry parse_ts template es
        ≡ some (some m))
      × IsLatest m (i ∷ infos)
      × ((debug_asserted parse_ts template (some only_most_recent) es ≡ some true)
          ↔ IsListedInOrder (i ∷ infos))
unfolding read_most_recent_dir_entry read_all_dir_entries_filtered_chronologically entries_sorted
    last_entry sort_by_created_at insert_by_created_at last_of
read_most_recent_dir_entry-IsLatest parse_ts template es i infos e =
    let (m, f, latest, iff) = read_all-only_most_recent parse_ts template es i infos e in
    (m, ap (λ o. last_entry (entries_sorted o)) f, latest, iff)
