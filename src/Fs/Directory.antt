-- ===== src/Fs/Directory.antt =====
-- The files of a directory and their filter: `RollingFileSystem` of
-- crates/msr-core/src/fs/policy/mod.rs, on a directory that can be read. The debug assertion on the
-- start of the filter does not end the loop, as in a release build; whether it has held is recorded.
pub mod MostRecent
pub mod Ranges
use msr.Prelude.{
  ℕ, Bool, true, false, ◌&&◌, Option, none, some, List, [], ◌∷◌, ◌++◌, ltb, leb, if◌then◌else◌,
  Result, ok, err, keep, for_each,
}
use msr.Fs.Policy.{RollingFileNameTemplate, parse_time_stamp_from_file_name}

pub data SystemTimeRange : Type 0 where
  only_most_recent : SystemTimeRange
  exclusive_upper_bound inclusive_upper_bound : ℕ → ℕ → SystemTimeRange

pub record RollingFileInfoWithSize : Type 0 where
  pub path : List ℕ
  pub created_at : ℕ
  pub size_in_bytes : ℕ

-- An entry of the directory, with the name of its path as far as `to_str` gives it.
pub record DirEntry : Type 0 where
  pub path : List ℕ
  pub is_file : Bool
  pub file_name : Option (List ℕ)
  pub len : ℕ

-- `entries` and `first_created_at_filtered`, and whether each `debug_assert!` has held so far
pub record Filtered : Type 0 where
  pub entries : List RollingFileInfoWithSize
  pub first : Option ℕ
  pub asserted : Bool

-- `filter_created_at_start`; `none` where the upper bound excludes the file.
unfoldable pub filter_start : SystemTimeRange → ℕ → Option ℕ
filter_start only_most_recent created_at = some created_at
filter_start (exclusive_upper_bound start end) created_at =
    if leb end created_at then none else some start
filter_start (inclusive_upper_bound start end) created_at =
    if ltb end created_at then none else some start

-- `created_at < first`, if there is a first
unfoldable pub precedes : ℕ → Option ℕ → Bool
precedes created_at none = false
precedes created_at (some first) = ltb created_at first

-- `debug_assert!(first <= start)`, if there is a first
unfoldable pub asserts : Option ℕ → ℕ → Bool
asserts none start = true
asserts (some first) start = leb first start

-- `entries.clear()`
unfoldable pub cleared :
    SystemTimeRange → ℕ → Option ℕ → List RollingFileInfoWithSize → List RollingFileInfoWithSize
cleared only_most_recent created_at first entries =
    if precedes created_at first then entries else []
cleared _ created_at first entries = entries

-- The body of the loop behind the start of the range.
unfoldable pub admitted : SystemTimeRange → RollingFileInfoWithSize → Filtered → Option ℕ → Filtered
unfolding precedes cleared asserts
admitted range info acc none = acc
admitted range info acc (some start) =
    let kept = cleared range info.created_at acc.first acc.entries in
    let held = acc.asserted && asserts acc.first start in
    if precedes info.created_at acc.first
    then record acc { entries = kept; asserted = held }
    else record {
      entries = kept ++ info ∷ [];
      first = if leb info.created_at start then some info.created_at else acc.first;
      asserted = held;
    }

-- The body of the loop for a file whose name is parsed.
unfoldable pub admit : Option SystemTimeRange → RollingFileInfoWithSize → Filtered → Filtered
unfolding filter_start admitted
admit none info acc = record acc { entries = acc.entries ++ info ∷ [] }
admit (some range) info acc = admitted range info acc (filter_start range info.created_at)

-- The filter behind the loop.
unfoldable pub retain : Filtered → List RollingFileInfoWithSize
retain acc = elim acc.first [
  | none ↦ acc.entries
  | some first ↦ keep (λ info. leb first info.created_at) acc.entries
]

-- The state of the loop behind the last entry
unfoldable pub looped : Option SystemTimeRange → List RollingFileInfoWithSize → Filtered
unfolding admit
looped filter infos =
    for_each (admit filter) infos (record { entries = []; first = none; asserted = true })

unfoldable pub select :
    Option SystemTimeRange → List RollingFileInfoWithSize → List RollingFileInfoWithSize
unfolding retain looped
select filter infos = retain (looped filter infos)

unfoldable pub selected :
    Option SystemTimeRange
    → Option (List RollingFileInfoWithSize)
    → Option (List RollingFileInfoWithSize)
unfolding select
selected filter none = none
selected filter (some infos) = some (select filter infos)

unfoldable pub asserted_in :
    Option SystemTimeRange → Option (List RollingFileInfoWithSize) → Option Bool
unfolding looped
asserted_in filter none = none
asserted_in filter (some infos) = some ((looped filter infos).asserted)

module _ {X : Type 0} (parse_ts : List ℕ → Result ℕ X) (template : RollingFileNameTemplate) where
  -- The file of an entry, if its name is parsed; the outer `none` where the parser panics.
  unfoldable pub info_of : DirEntry → Option (Option RollingFileInfoWithSize)
  info_of e =
      if e.is_file
      then elim (parse_time_stamp_from_file_name parse_ts template e.file_name) [
        | none ↦ none
        | some (err _) ↦ some none
        | some (ok created_at) ↦
            some (some (record { path = e.path; created_at = created_at; size_in_bytes = e.len }))
      ]
      else some none

  unfoldable pub infos_of : List DirEntry → Option (List RollingFileInfoWithSize)
  infos_of [] = some []
  infos_of (e ∷ es) =
      let rest = infos_of es in
      elim (info_of e) [
        | none ↦ none
        | some none ↦ rest
        | some (some info) ↦ elim rest [ none ↦ none | some infos ↦ some (info ∷ infos) ]
      ]

  -- `read_all_dir_entries_filtered`; `none` where the parser panics.
  unfoldable pub read_all_dir_entries_filtered :
      Option SystemTimeRange → List DirEntry → Option (List RollingFileInfoWithSize)
  unfolding selected
  read_all_dir_entries_filtered filter es = selected filter (infos_of es)

  -- Whether a build with debug assertions passes those of the loop; `none` where the parser panics.
  unfoldable pub debug_asserted : Option SystemTimeRange → List DirEntry → Option Bool
  unfolding asserted_in
  debug_asserted filter es = asserted_in filter (infos_of es)
