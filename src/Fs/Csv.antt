-- ===== src/Fs/Csv.antt =====
-- The rolling writer of crates/msr-core/src/fs/csv/mod.rs, with the errors of fs/mod.rs. The writer of
-- the crate `csv` over a file that counts its bytes is an interface, of which nothing is assumed; the
-- counter, which the status of the file shares with the writer, is read from the writer.
pub mod Writing
pub mod Suppression
use msr.Prelude.{
  ℕ, ◌+◌, ◌%◌, ◌^◌, String, Bool, true, false, Option, none, some, List, reverse, if◌then◌else◌,
  Result, ok, err, ℤ, eqb_ℤ,
}
use msr.Fs.Policy.{RollingFileLimits, RollingFileStatus, should_roll}
use msr.Fs.Directory.{RollingFileInfoWithSize}
use msr.Fs.System.{IoError, RollingFileSystem, RollingFileInfo, chronologically}

-- An error of the crate `csv`; one that is none of I/O by its text.
pub data CsvError : Type 0 where
  io_kind : IoError → CsvError
  format_kind : String → CsvError

-- `Error` of fs/csv
pub data FileError : Type 0 where
  io_error : IoError → FileError
  csv_error : CsvError → FileError

pub data WriteError : Type 0 where
  no_file : WriteError
  repeated_os_error : ℤ → WriteError

-- `WriteResult`
abbrev pub WriteResult : Type 0
WriteResult = Result {0, 0} Unit WriteError

pub record RollingFileConfig : Type 0 where
  pub system : RollingFileSystem
  pub limits : RollingFileLimits

-- A writer over a new file, with or without automatic headers.
pub record CsvWriter (W Row S : Type 0) : Type 0 where
  pub from_writer : Bool → W
  pub write_record : Row → W → W × Result {0, 0} Unit CsvError
  pub serialize : S → W → W × Result {0, 0} Unit CsvError
  pub flush : W → W × Result {0, 0} Unit IoError
  pub bytes_written : W → ℕ

-- A file with its status, whose fields are its own.
pub record RollingFile (W : Type 0) : Type 0 where
  pub info : RollingFileInfo
  pub created_at : ℕ
  pub records_written : ℕ
  pub writer : W
  pub last_os_error_code : Option ℤ

pub record RollingFileWriter (W Row : Type 0) : Type 0 where
  pub config : RollingFileConfig
  pub custom_header : Option Row
  pub current_file : Option (RollingFile W)

unfoldable pub same_code : Option ℤ → ℤ → Bool
same_code none code = false
same_code (some last) code = eqb_ℤ last code

unfoldable pub is_some : {A : Type 0} → Option A → Bool
is_some none = false
is_some (some _) = true

-- The files of the directory, the most recent one first.
unfoldable pub recent_files : List RollingFileInfoWithSize → List RollingFileInfoWithSize
unfolding chronologically
recent_files infos = reverse (chronologically none infos)

module _ {W : Type 0} where
  -- The branch of an I/O error, by its code.
  unfoldable pub after_io_error :
      IoError → Option ℤ → RollingFile W → RollingFile W × Result WriteResult FileError
  unfolding same_code
  after_io_error e none f = (record f { last_os_error_code = none }, err (io_error e))
  after_io_error e (some code) f =
      if same_code f.last_os_error_code code
      then (f, ok (err (repeated_os_error code)))
      else (record f { last_os_error_code = some code }, err (io_error e))

  unfoldable pub after_record_written :
      Result {0, 0} Unit CsvError → RollingFile W → RollingFile W × Result WriteResult FileError
  unfolding after_io_error
  after_record_written (ok _) f = (
    record f { records_written = (f.records_written + 1) % 2 ^ 64; last_os_error_code = none },
    ok (ok tt),
  )
  after_record_written (err (io_kind e)) f = after_io_error e e.raw_os_error f
  after_record_written (err (format_kind text)) f = (f, err (csv_error (format_kind text)))

module _ {W Row S : Type 0} (csv : CsvWriter W Row S) where
  -- `From<&RollingFileStatus> for PolicyRollingFileStatus`
  unfoldable pub policy_status : RollingFile W → RollingFileStatus
  policy_status f = record {
    created_at = f.created_at;
    bytes_written = some (csv.bytes_written f.writer);
    records_written = some f.records_written;
  }

  unfoldable pub file_should_roll : ℕ → RollingFile W → ℕ → ℕ → RollingFileLimits → Option Bool
  unfolding policy_status
  file_should_roll last f now offset limits = should_roll last (policy_status f) now offset limits

module _ {W Row : Type 0} where
  -- `RollingFileWriter::new`
  unfoldable pub new_writer : RollingFileConfig → Option Row → RollingFileWriter W Row
  new_writer config custom_header = record {
    config = config;
    custom_header = custom_header;
    current_file = none;
  }

  unfoldable pub current_file_info : RollingFileWriter W Row → Option RollingFileInfo
  current_file_info w = elim w.current_file [ none ↦ none | some f ↦ some f.info ]

module _ {W Row S : Type 0} (csv : CsvWriter W Row S) where
  unfoldable pub current_file_info_with_size :
      RollingFileWriter W Row → Option RollingFileInfoWithSize
  current_file_info_with_size w = elim w.current_file [
    | none ↦ none
    | some f ↦ some (record {
      path = f.info.path;
      created_at = f.info.created_at;
      size_in_bytes = csv.bytes_written f.writer;
    })
  ]

  unfoldable pub flushed :
      RollingFileWriter W Row
      → RollingFile W
      → W × Result {0, 0} Unit IoError
      → RollingFileWriter W Row × Result {0, 0} Unit FileError
  flushed w f (writer, ok _) =
      (record w { current_file = some (record f { writer = writer }) }, ok tt)
  flushed w f (writer, err e) =
      (record w { current_file = some (record f { writer = writer }) }, err (io_error e))

  unfoldable pub flush_file :
      RollingFileWriter W Row
      → Option (RollingFile W)
      → RollingFileWriter W Row × Result {0, 0} Unit FileError
  unfolding flushed
  flush_file w none = (w, ok tt)
  flush_file w (some f) = flushed w f (csv.flush f.writer)

  unfoldable pub flush :
      RollingFileWriter W Row → RollingFileWriter W Row × Result {0, 0} Unit FileError
  unfolding flush_file
  flush w = flush_file w w.current_file
