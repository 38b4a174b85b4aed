-- ===== src/Fs/System.antt =====
-- Files of a `RollingFileSystem` in crates/msr-core/src/fs/policy/mod.rs: new ones, and those of the
-- directory in chronological order. The format of time stamps, `PathBuf::push`, and whether a file can
-- be created are parameters. The library leaves the order of files with the same time stamp open; a
-- directory has one file of a name.
pub mod Chronology
use msr.Prelude.{ℕ, Option, none, some, List, [], ◌∷◌, leb, if◌then◌else◌, Result, ok, err, ℤ}
use msr.Fs.Policy.{RollingFileNameTemplate, format_os_string_with_time_stamp}
use msr.Fs.Directory.{
  SystemTimeRange, only_most_recent, RollingFileInfoWithSize, DirEntry, select,
  read_all_dir_entries_filtered,
}

-- The kinds of `std::io::Error` that the code tells apart.
pub data IoErrorKind : Type 0 where
  kind_already_exists kind_not_found kind_other : IoErrorKind

pub record IoError : Type 0 where
  pub kind : IoErrorKind
  pub raw_os_error : Option ℤ

pub record RollingFileSystem : Type 0 where
  pub base_path : List ℕ
  pub file_name_template : RollingFileNameTemplate

pub record RollingFileInfo : Type 0 where
  pub path : List ℕ
  pub created_at : ℕ

pub data OpenRollingFile : Type 0 where
  opened : RollingFileInfo → OpenRollingFile
  already_exists : List ℕ → OpenRollingFile

module _ (show : ℕ → List ℕ) (push : List ℕ → List ℕ → List ℕ) (system : RollingFileSystem) where
  unfoldable pub new_file_path : ℕ → List ℕ
  unfolding format_os_string_with_time_stamp
  new_file_path created_at =
      push system.base_path
        (format_os_string_with_time_stamp show system.file_name_template created_at)

  -- The two arms of the error
  unfoldable pub not_opened : List ℕ → IoError → Result OpenRollingFile IoError
  not_opened path e = elim e.kind [
    | kind_already_exists ↦ ok (already_exists path)
    | kind_not_found ↦ err e
    | kind_other ↦ err e
  ]

  unfoldable pub opened_at :
      List ℕ → ℕ → Result {0, 0} Unit IoError → Result OpenRollingFile IoError
  unfolding not_opened
  opened_at path created_at (ok _) = ok (opened (record { path = path; created_at = created_at }))
  opened_at path created_at (err e) = not_opened path e

  unfoldable pub open_new_file_for_writing :
      (List ℕ → Result {0, 0} Unit IoError) → ℕ → Result OpenRollingFile IoError
  unfolding new_file_path opened_at
  open_new_file_for_writing create_new created_at =
      let path = new_file_path created_at in opened_at path created_at (create_new path)

unfoldable pub insert_by_created_at :
    RollingFileInfoWithSize → List RollingFileInfoWithSize → List RollingFileInfoWithSize
insert_by_created_at i [] = i ∷ []
insert_by_created_at i (j ∷ js) =
    let rest = insert_by_created_at i js in
    if leb i.created_at j.created_at then i ∷ j ∷ js else j ∷ rest

-- `sort_unstable_by(cmp_created_at)`
unfoldable pub sort_by_created_at : List RollingFileInfoWithSize → List RollingFileInfoWithSize
unfolding insert_by_created_at
sort_by_created_at [] = []
sort_by_created_at (i ∷ is) = insert_by_created_at i (sort_by_created_at is)

-- What is selected of the files of a directory, in chronological order.
unfoldable pub chronologically :
    Option SystemTimeRange → List RollingFileInfoWithSize → List RollingFileInfoWithSize
unfolding select sort_by_created_at
chronologically filter infos = sort_by_created_at (select filter infos)

unfoldable pub last_of : {A : Type 0} → List A → Option A
last_of [] = none
last_of (x ∷ xs) = let rest = last_of xs in elim rest [ none ↦ some x | some y ↦ some y ]

unfoldable pub entries_sorted :
    Option (List RollingFileInfoWithSize) → Option (List RollingFileInfoWithSize)
unfolding sort_by_created_at
entries_sorted none = none
entries_sorted (some entries) = some (sort_by_created_at entries)

unfoldable pub last_entry :
    Option (List RollingFileInfoWithSize) → Option (Option RollingFileInfoWithSize)
unfolding last_of
last_entry none = none
last_entry (some entries) = some (last_of entries)

module _ {X : Type 0} (parse_ts : List ℕ → Result ℕ X) (template : RollingFileNameTemplate) where
  -- `none` where the parser panics, as below.
  unfoldable pub read_all_dir_entries_filtered_chronologically :
      Option SystemTimeRange → List DirEntry → Option (List RollingFileInfoWithSize)
  unfolding read_all_dir_entries_filtered entries_sorted
  read_all_dir_entries_filtered_chronologically filter es =
      entries_sorted (read_all_dir_entries_filtered parse_ts template filter es)

  unfoldable pub read_most_recent_dir_entry :
      List DirEntry → Option (Option RollingFileInfoWithSize)
  unfolding read_all_dir_entries_filtered_chronologically last_entry
  read_most_recent_dir_entry es =
      last_entry (read_all_dir_entries_filtered_chronologically (some only_most_recent) es)
