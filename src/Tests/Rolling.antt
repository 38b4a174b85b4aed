-- ===== src/Tests/Rolling.antt =====
-- The rolling writer of crates/msr-core/src/fs/csv/mod.rs and the files of its directory on concrete
-- inputs.
use msr.Prelude.{ℕ, ◌≡◌, refl, none, some, List, [], ◌∷◌, ◌++◌, arith, Result, ok, err, length, pos}
use msr.Time.{SystemInstant}
use msr.Fs.Policy.{reached, should_roll}
use msr.Fs.System.{IoError, kind_other}
use msr.Fs.Csv.{
  io_kind, io_error, repeated_os_error, RollingFileConfig, CsvWriter, RollingFile,
  RollingFileWriter,
}
use msr.Fs.Csv.Suppression.{after_records_written, repeat, same_error_once}
use msr.Fs.Csv.Writing.{before_writing, write_with}
use msr.Fs.Csv.Writing.NewFile.{IsReady}
use msr.Fs.Csv.Writing.OpenFile.{before_writing-IsReady}
use msr.Fs.Csv.Writing.Limit.{IsWithin, write_with-IsWithin}

-- A writer that keeps its rows, which are numbers.
abbrev pub rows_writer : CsvWriter (List ℕ) ℕ ℕ
rows_writer = record {
  from_writer = λ has_headers. [];
  write_record = λ row rows. (rows ++ row ∷ [], ok tt);
  serialize = λ row rows. (rows ++ row ∷ [], ok tt);
  flush = λ rows. (rows, ok tt);
  bytes_written = λ rows. length rows;
}

abbrev pub show_example : ℕ → List ℕ
show_example t = t ∷ []

abbrev pub push_example : List ℕ → List ℕ → List ℕ
push_example base name = base ++ name

abbrev pub creates_example : List ℕ → Result {0, 0} Unit IoError
creates_example path = ok tt

abbrev at : ℕ → SystemInstant
at t = record { system_time = t; instant = t }

abbrev config_example : RollingFileConfig
config_example = record {
  system = record {
    base_path = 47 ∷ [];
    file_name_template = record { prefix = 65 ∷ []; suffix = 66 ∷ [] };
  };
  limits = record {
    max_bytes_written = none;
    max_records_written = some 1;
    max_nanoseconds_offset = none;
    interval = none;
  };
}

-- A file that is full.
abbrev full_file : RollingFile (List ℕ)
full_file = record {
  info = record { path = 47 ∷ 65 ∷ 5 ∷ 66 ∷ []; created_at = 5 };
  created_at = 5;
  records_written = 1;
  writer = 7 ∷ 100 ∷ [];
  last_os_error_code = none;
}

abbrev full_writer : RollingFileWriter (List ℕ) ℕ
full_writer = record {
  config = config_example;
  custom_header = some 7;
  current_file = some full_file;
}

-- The next file, with its header and with a number of records behind it.
abbrev next_file_with : ℕ → List ℕ → RollingFileWriter (List ℕ) ℕ
next_file_with n rows = record full_writer {
  current_file = some (record {
    info = record { path = 47 ∷ 65 ∷ 9 ∷ 66 ∷ []; created_at = 9 };
    created_at = 9;
    records_written = n;
    writer = 7 ∷ rows;
    last_os_error_code = none;
  });
}

before_writing-IsReady_example :
    IsReady rows_writer show_example push_example creates_example full_writer
      (next_file_with 0 [], ok (some full_file.info))
unfolding before_writing should_roll reached
before_writing-IsReady_example =
    before_writing-IsReady rows_writer show_example push_example creates_example 1000 (at 9) 4
      full_writer (next_file_with 0 [], ok (some full_file.info)) refl

write_with-IsWithin_example :
    IsWithin rows_writer show_example push_example creates_example 1 (next_file_with 1 (101 ∷ []))
unfolding write_with should_roll reached
write_with-IsWithin_example =
    write_with-IsWithin rows_writer show_example push_example creates_example (λ path. refl)
      (rows_writer.write_record 101) 1000 (at 9) 4 0 full_writer
      (next_file_with 1 (101 ∷ []), ok (ok tt, some full_file.info)) (refl, omega arith) refl

abbrev full_disk : IoError
full_disk = record { kind = kind_other; raw_os_error = some (pos 28) }

same_error_once_example : after_records_written (repeat 3 (err (io_kind full_disk))) full_file ≡ (
  record full_file { last_os_error_code = some (pos 28) },
  err (io_error full_disk) ∷ repeat 2 (ok (err (repeated_os_error (pos 28)))),
)
same_error_once_example = same_error_once full_disk (pos 28) 2 full_file refl (λ e. cc)
