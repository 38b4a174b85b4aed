-- ===== src/Tests/Files.antt =====
-- Time and rolling files of crates/msr-core on concrete inputs.
use msr.Prelude.{
  ℕ, zero, suc, ◌+◌, ◌-◌, ◌<◌, ◌≡◌, refl, ◌↔◌, ◌⊎◌, true, none, some, List, [], ◌∷◌, ◌++◌, Result,
  ok, err, length,
}
use msr.Time.{days}
use msr.Fs.Policy.{
  RollingFileLimits, RollingFileStatus, should_roll, RollingFileNameTemplate,
  parse_time_stamp_from_file_name, parse_behind, parsed,
}
use msr.Fs.Bytes.{starts_with, ends_with, split_at, bytes_eq}
use msr.Fs.Directory.{
  only_most_recent, RollingFileInfoWithSize, DirEntry, info_of, infos_of, debug_asserted,
}
use msr.Fs.Directory.MostRecent.{IsLatest, IsListedInOrder}
use msr.Fs.System.{read_most_recent_dir_entry}
use msr.Fs.System.Chronology.{read_most_recent_dir_entry-IsLatest}
use msr.Fs.Policy.Roll.{Reached, Due, should_roll_iff}
use msr.Fs.Policy.FileName.{parse_iff, parse_panics_iff}

abbrev limits_example : RollingFileLimits
limits_example = record {
  max_bytes_written = some 4096;
  max_records_written = none;
  max_nanoseconds_offset = none;
  interval = some (days 1);
}

abbrev status_example : RollingFileStatus
status_example = record { created_at = 7; bytes_written = some 5000; records_written = some 3 }

should_roll_iff_example : (should_roll 90000 status_example 9 2 limits_example ≡ some true) ↔ (
    Reached (some 5000) (some 4096)
    ⊎ Reached (some 3) none
    ⊎ Reached (some 2) none
    ⊎ Due 90000 (some (days 1)) 7 9)
should_roll_iff_example = should_roll_iff 90000 status_example 9 2 limits_example

abbrev template_example : RollingFileNameTemplate
template_example = record { prefix = 97 ∷ 98 ∷ []; suffix = 98 ∷ 99 ∷ [] }

-- Time stamps are numbers below ten here, shown with leading zeros.
abbrev digits_of : ℕ → ℕ → List ℕ
digits_of zero n = (48 + n) ∷ []
digits_of (suc k) n = 48 ∷ digits_of k n

abbrev show_example : ℕ → List ℕ
show_example n = digits_of 25 n

abbrev last_digit : List ℕ → Result ℕ (Unit {0})
last_digit [] = err tt
last_digit (c ∷ []) = ok (c - 48)
last_digit (c ∷ cs) = last_digit cs

parse_iff_example :
    (parse_time_stamp_from_file_name last_digit template_example (some (97 ∷ 98 ∷ 99 ∷ []))
      ≡ some (ok 7))
    ↔ ((stamp : List ℕ) × (97 ∷ 98 ∷ 99 ∷ []
          ≡ template_example.prefix ++ stamp ++ template_example.suffix)
        × (length stamp ≡ 26)
        × (last_digit stamp ≡ ok 7))
parse_iff_example = parse_iff last_digit template_example (97 ∷ 98 ∷ 99 ∷ []) 7

-- The name `abc` with the prefix `ab` and the suffix `bc`.
parse_panics_iff_example :
    (parse_time_stamp_from_file_name last_digit template_example (some (97 ∷ 98 ∷ 99 ∷ [])) ≡ none)
    ↔ (((r : List ℕ) × (97 ∷ 98 ∷ 99 ∷ [] ≡ template_example.prefix ++ r))
        × ((q : List ℕ) × (97 ∷ 98 ∷ 99 ∷ [] ≡ q ++ template_example.suffix))
        × (3 < 4))
parse_panics_iff_example = parse_panics_iff last_digit template_example (97 ∷ 98 ∷ 99 ∷ [])

-- A directory with the files of the time stamps 7 and 9.
abbrev name_of : ℕ → List ℕ
name_of n = 97 ∷ 98 ∷ (show_example n ++ 98 ∷ 99 ∷ [])

abbrev directory_example : List DirEntry
directory_example =
    record { path = name_of 7; is_file = true; file_name = some (name_of 7); len = 10 }
    ∷ record { path = name_of 9; is_file = true; file_name = some (name_of 9); len = 20 }
    ∷ []

abbrev info_example : ℕ → ℕ → RollingFileInfoWithSize
info_example n size = record { path = name_of n; created_at = n; size_in_bytes = size }

directory_example-infos :
    infos_of last_digit template_example directory_example
    ≡ some (info_example 7 10 ∷ info_example 9 20 ∷ [])
unfolding infos_of info_of parse_time_stamp_from_file_name parse_behind parsed starts_with ends_with
    split_at bytes_eq
directory_example-infos = refl

read_most_recent_dir_entry-IsLatest_example :
    (m : RollingFileInfoWithSize) × (read_most_recent_dir_entry last_digit template_example
        directory_example
      ≡ some (some m))
    × IsLatest m (info_example 7 10 ∷ info_example 9 20 ∷ [])
    × ((debug_asserted last_digit template_example (some only_most_recent) directory_example
          ≡ some true)
        ↔ IsListedInOrder (info_example 7 10 ∷ info_example 9 20 ∷ []))
read_most_recent_dir_entry-IsLatest_example =
    read_most_recent_dir_entry-IsLatest last_digit template_example directory_example
      (info_example 7 10) (info_example 9 20 ∷ []) directory_example-infos
