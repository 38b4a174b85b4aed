-- ===== src/Tests/Journal.antt =====
-- Journal records of crates/msr-core/src/event_journal on a concrete input.
use msr.Prelude.{ℕ, String, ◌≡◌, refl, some, List, [], ◌∷◌, Result, ok, err, pos}
use msr.Storage.{bytes_format}
use msr.EventJournal.{warning_unexpected, JournalRecord, StorageRecord, try_new, try_restore}
use msr.Prelude.{none, length}
use msr.Fs.Csv.{CsvWriter}
use msr.Storage.Csv.{FileRecordStorage}
use msr.Storage.Csv.Files.{Disk}
use msr.EventJournal.Csv.{RecordFilter, journal_try_new, journal_filter_records}
use msr.EventJournal.Csv.Filtered.{ArePassed, filter_records-ArePassed}
use msr.Tests.Records.{storage_config_example}
use msr.EventJournal.{warning}
use msr.EventJournal.Restore.{try_restore-try_new}

-- A text begins with a mark.
abbrev marked : List ℕ → List ℕ
marked input = 64 ∷ input

abbrev unmarked : List ℕ → Result (List ℕ) String
unmarked [] = err "empty"
unmarked (_ ∷ input) = ok input

abbrev whole : List ℕ → Result (List ℕ) String
whole input = ok input

abbrev itself : List ℕ → List ℕ
itself input = input

abbrev journal_example : JournalRecord ℕ
journal_example = record {
  id = "01";
  created_at_offset = 30;
  entry = record {
    occurred_at = 95;
    severity = warning_unexpected;
    scope = "pump";
    code = pos 7;
    text = some "too hot";
    data_ = some (1 ∷ 2 ∷ []);
  };
}

abbrev stored_example : StorageRecord ℕ (List ℕ)
stored_example = record {
  created_at_offset_ns = 30;
  occurred_at = 95;
  severity = 6;
  scope = "pump";
  code = pos 7;
  id = "01";
  text = some "too hot";
  data_ = some (64 ∷ 1 ∷ 2 ∷ []);
}

try_restore-try_new_example :
    try_restore marked unmarked whole itself 100 stored_example bytes_format
    ≡ ok (record { id = "01"; created_at = 130; entry = journal_example.entry })
unfolding try_new
try_restore-try_new_example =
    try_restore-try_new marked unmarked whole itself (λ input. refl) (λ input text e. cc) 100
      journal_example bytes_format stored_example refl

abbrev journal_writer : CsvWriter (List (List String)) (List String) (StorageRecord ℕ (List ℕ))
journal_writer = record {
  from_writer = λ has_headers. [];
  write_record = λ row rows. (row ∷ rows, ok tt);
  serialize = λ r rows. ((r.id ∷ []) ∷ rows, ok tt);
  flush = λ rows. (rows, ok tt);
  bytes_written = λ rows. length rows;
}

-- One file with the record from above.
abbrev journal_disk : Disk (StorageRecord ℕ (List ℕ))
journal_disk = record {
  files = ok (record { path = 47 ∷ []; created_at = 100; size_in_bytes = 50 } ∷ []);
  rows = λ path. ok (ok stored_example ∷ []);
  remove_file = λ path. ok tt;
  removed = [];
}

abbrev journal_storage : FileRecordStorage (List (List String)) (List String)
journal_storage = journal_try_new (47 ∷ []) (65 ∷ []) bytes_format storage_config_example

abbrev journal_filter : RecordFilter
journal_filter = record {
  prelude = record { since_created_at = none; until_created_at = some 200 };
  min_severity = some warning;
  any_scopes = some ("pump" ∷ []);
  any_codes = none;
}

filter_records-ArePassed_example :
    ArePassed marked unmarked whole itself 2 journal_filter
      (journal_filter_records marked unmarked whole itself journal_writer 0 300 2 journal_filter
        journal_storage journal_disk).1
filter_records-ArePassed_example =
    filter_records-ArePassed marked unmarked whole itself journal_writer 0 300 2 journal_filter
      journal_storage journal_disk
