-- ===== src/Tests/Records.antt =====
-- The storages of crates/msr-core/src/storage on concrete inputs.
use msr.Prelude.{
  ℕ, ◌+◌, ◌*◌, ◌≡◌, refl, true, false, none, some, List, [], ◌∷◌, map, arith, Result, ok, err,
  for_each,
}
use msr.Fs.Policy.{unlimited}
use msr.Fs.Directory.{RollingFileInfoWithSize, admit}
use msr.Fs.System.{IoError, chronologically}
use msr.Fs.Csv.{CsvError, format_kind}
use msr.Storage.{StorageConfig, bytes_format, RecordPreludeFilter, RecordPrelude}
use msr.Storage.InMemory.{InMemoryRecordStorage, retain_all_records_created_since, append_record}
use msr.Storage.InMemory.Retention.{IsOrdered, append_record-IsOrdered, retain-keep}
use msr.Storage.Csv.{WritingStatus, FileRecordStorage, flush_before_reading}
use msr.Storage.Csv.Files.{Disk, retain_all_records_created_since as retain_files}
use msr.Storage.Csv.Files.Retention.{Retains, retain-Retains}
use msr.Storage.Csv.Appending.{append_record as append_row}
use msr.Storage.Csv.Appending.Offsets.{IsAppended, append_record-IsAppended}
use msr.Storage.Csv.Reading.{oks, recent_records}
use msr.Storage.Csv.Reading.Recent.{IsRecent, newest_first, recent_records-IsRecent}
use msr.Storage.Csv.Deserializing.Recent.{recent_records_read}
use msr.Storage.Csv.Deserializing.Filter.{filter_records_by_prelude}
use msr.Storage.Csv.Deserializing.Filtering.{IsFiltered, filter_records-IsFiltered}
use msr.Storage.Csv.Deserializing.Agreement.{recent_records-agree}
use msr.Tests.Rolling.{rows_writer, show_example, push_example, creates_example}

-- A record that is its offset.
abbrev offset_prelude : RecordPrelude ℕ
offset_prelude = record {
  created_at_offset = λ r. r;
  set_created_at_offset = λ offset r. offset;
  set_law = λ offset r. refl;
}

abbrev pub storage_config_example : StorageConfig
storage_config_example = record {
  retention_time = record { number_of_days = 7 };
  segmentation = record {
    time_interval = record { number_of_days = 1 };
    size_limit = record { bytes = 1000 };
  };
}

-- Three records in memory, the last one 30 nanoseconds behind the origin.
abbrev memory_example : InMemoryRecordStorage ℕ
memory_example = record {
  config = storage_config_example;
  descriptor = record { kind = "in-memory"; base_path = none; binary_data_format = bytes_format };
  created_at_origin = record { system_time = 100; instant = 5 };
  records = 10 ∷ 20 ∷ 30 ∷ [];
}

memory_example-IsOrdered : IsOrdered offset_prelude 30 memory_example
memory_example-IsOrdered = (
  ((omega arith, (omega arith, tt)), ((omega arith, tt), (tt, tt))),
  (omega arith, (omega arith, (omega arith, tt))),
)

append_record-IsOrdered_example :
    IsOrdered offset_prelude 35
      (append_record offset_prelude (record { system_time = 140; instant = 40 }) 0 memory_example).0
append_record-IsOrdered_example =
    append_record-IsOrdered offset_prelude (record { system_time = 140; instant = 40 }) 0 30
      memory_example memory_example-IsOrdered (omega arith) (omega arith)

retain-keep_example :
    let s' = (retain_all_records_created_since offset_prelude 120 memory_example).0 in
    (s'.records ≡ 20 ∷ 30 ∷ []) × IsOrdered offset_prelude 30 s'
retain-keep_example =
    retain-keep offset_prelude 120 30 memory_example memory_example-IsOrdered (omega arith)

-- Three files, not in chronological order, the path of each of which is its time stamp.
abbrev file_at : ℕ → RollingFileInfoWithSize
file_at t = record { path = t ∷ []; created_at = t; size_in_bytes = 50 }

abbrev rows_at : List ℕ → List (Result ℕ CsvError)
rows_at [] = []
rows_at (t ∷ _) = ok t ∷ err (format_kind "quotes") ∷ ok (t + 1) ∷ []

abbrev disk_example : Disk ℕ
disk_example = record {
  files = ok (file_at 20 ∷ file_at 10 ∷ file_at 30 ∷ []);
  rows = λ path. ok (rows_at path);
  remove_file = λ path. ok tt;
  removed = [];
}

abbrev files_storage : FileRecordStorage (List ℕ) ℕ
files_storage = record {
  config = storage_config_example;
  descriptor = record {
    kind = "csv-file";
    base_path = some (47 ∷ []);
    binary_data_format = bytes_format;
  };
  custom_header = some 7;
  rolling_file_config = record {
    system = record {
      base_path = 47 ∷ [];
      file_name_template = record { prefix = 65 ∷ []; suffix = 66 ∷ [] };
    };
    limits = unlimited;
  };
  writing_status = none;
}

recent_records-IsRecent_example :
    ((recent_records (λ r. r) rows_writer 3 files_storage disk_example).0 ≡ files_storage)
    × IsRecent
        (λ r. r)
        3
        []
        (newest_first (λ r. r) rows_at (file_at 30 ∷ file_at 20 ∷ file_at 10 ∷ []))
        (recent_records (λ r. r) rows_writer 3 files_storage disk_example).1
unfolding flush_before_reading chronologically oks for_each admit
recent_records-IsRecent_example =
    recent_records-IsRecent (λ r. r) rows_writer 3 files_storage files_storage disk_example
      (file_at 20 ∷ file_at 10 ∷ file_at 30 ∷ []) rows_at (omega arith) refl refl (λ path. refl)

retain-Retains_example :
    (old : List RollingFileInfoWithSize) × (retain_files rows_writer 0 25 files_storage disk_example
      ≡ (files_storage, record disk_example { removed = map (λ i. i.path) old }, ok tt))
    × Retains 25 (file_at 20 ∷ file_at 10 ∷ file_at 30 ∷ []) old
unfolding flush_before_reading
retain-Retains_example =
    retain-Retains rows_writer 0 25 files_storage files_storage disk_example
      (file_at 20 ∷ file_at 10 ∷ file_at 30 ∷ []) refl refl (λ path. refl)
      (omega arith, (omega arith, (omega arith, tt)))

-- The records from 11 to 30.
abbrev filter_example : RecordPreludeFilter
filter_example = record { since_created_at = some 11; until_created_at = some 30 }

filter_records-IsFiltered_example :
    IsFiltered
      (λ r. r)
      (λ row. ok row)
      2
      filter_example
      (filter_records_by_prelude
        (λ r. r)
        (λ row. ok row)
        rows_writer
        0
        100
        2
        filter_example
        files_storage
        disk_example).1
filter_records-IsFiltered_example =
    filter_records-IsFiltered (λ r. r) (λ row. ok row) rows_writer 0 100 2 filter_example
      files_storage disk_example

abbrev raw_rows : List ℕ → Result (List ℕ) IoError
raw_rows path = ok path

abbrev raw_disk : Disk ℕ
raw_disk = record disk_example { rows = λ path. ok (map ok path) }

abbrev value_disk : Disk ℕ
value_disk = record disk_example { rows = λ path. ok (map (λ row. ok (row * 2)) path) }

recent_records-agree_example :
    recent_records_read (λ r. r) (λ row. ok (row * 2)) rows_writer 2 files_storage raw_disk ≡ (
      (recent_records (λ r. r) rows_writer 2 files_storage value_disk).0,
      some (recent_records (λ r. r) rows_writer 2 files_storage value_disk).1,
    )
recent_records-agree_example =
    recent_records-agree (λ r. r) (λ row. ok (row * 2)) (λ row. row * 2) (λ row. refl) 2 raw_disk
      value_disk raw_rows (λ path. refl) (λ path. refl) rows_writer files_storage refl

-- Records have been appended since the instant 100, but no file is open.
abbrev status_example : WritingStatus (List ℕ) ℕ
status_example = record {
  rolling_file = record { created_at = 1000; bytes_written = none; records_written = none };
  writer = record {
    config = files_storage.rolling_file_config;
    custom_header = some 7;
    current_file = none;
  };
  first_record_created_at = record { system_time = 1000; instant = 100 };
  last_record_created_at = 1000;
  flush_pending = false;
}

abbrev started_storage : FileRecordStorage (List ℕ) ℕ
started_storage = record files_storage { writing_status = some status_example }

abbrev appended_storage : FileRecordStorage (List ℕ) ℕ
appended_storage = record files_storage {
  writing_status = some (record status_example {
    writer = record status_example.writer {
      current_file = some (record {
        info = record { path = 47 ∷ 65 ∷ 1040 ∷ 66 ∷ []; created_at = 1040 };
        created_at = 1040;
        records_written = 1;
        writer = 7 ∷ 40 ∷ [];
        last_os_error_code = none;
      });
    };
    last_record_created_at = 1040;
    flush_pending = true;
  });
}

append_record-IsAppended_example :
    IsAppended rows_writer
      (record { system_time = 1000; instant = 100 })
      (record { system_time = 1040; instant = 140 })
      (appended_storage, disk_example, ok (ok tt, 40))
unfolding append_row
append_record-IsAppended_example =
    append_record-IsAppended rows_writer (λ offset r. offset) show_example push_example
      creates_example 100000 0 2000 (record { system_time = 1040; instant = 140 }) 0 started_storage
      disk_example (appended_storage, disk_example, ok (ok tt, 40)) refl
