-- ===== src/Fs/Csv/Writing.antt =====
-- How the rolling writer of crates/msr-core/src/fs/csv/mod.rs starts files and writes to them. The
-- parameters beside the CSV writer are those of Fs/System: the format of time stamps, `PathBuf::push`,
-- and the operating system's answer to the creation of a file.
pub mod NewFile
pub mod OpenFile
pub mod Limit
pub mod NoFile
use msr.Prelude.{ℕ, Bool, true, false, not, Option, none, some, List, Result, ok, err}
use msr.Time.{SystemInstant}
use msr.Fs.System.{
  kind_not_found, IoError, RollingFileInfo, OpenRollingFile, opened, already_exists,
  open_new_file_for_writing,
}
use msr.Fs.Csv.{
  CsvError, FileError, io_error, csv_error, no_file, WriteResult, CsvWriter, RollingFile,
  RollingFileWriter, is_some, after_record_written, file_should_roll, current_file_info, flush,
}

module _ {W Row S : Type 0} (csv : CsvWriter W Row S) (show : ℕ → List ℕ)
    (push : List ℕ → List ℕ → List ℕ) (create_new : List ℕ → Result {0, 0} Unit IoError) where
  -- A file that has been opened.
  unfoldable pub started : Bool → RollingFileInfo → RollingFile W
  started has_headers info = record {
    info = info;
    created_at = info.created_at;
    records_written = 0;
    writer = csv.from_writer has_headers;
    last_os_error_code = none;
  }

  unfoldable pub started_as :
      RollingFileWriter W Row
      → Result OpenRollingFile IoError
      → Result (Option (RollingFile W)) FileError
  unfolding started is_some
  started_as w (err e) = err (io_error e)
  started_as w (ok (already_exists path)) = ok none
  started_as w (ok (opened info)) = ok (some (started (not (is_some w.custom_header)) info))

  unfoldable pub start_new_file :
      SystemInstant → RollingFileWriter W Row → Result (Option (RollingFile W)) FileError
  unfolding open_new_file_for_writing started_as
  start_new_file starting_at w =
      started_as w
        (open_new_file_for_writing show push w.config.system create_new starting_at.system_time)

  -- The new file replaces the current one.
  unfoldable pub replaced :
      RollingFileWriter W Row
      → Result (Option (RollingFile W)) FileError
      → RollingFileWriter W Row × Result (Option RollingFileInfo) FileError
  unfolding current_file_info
  replaced w (err e) = (w, err e)
  replaced w (ok none) = (w, ok none)
  replaced w (ok (some f)) = (record w { current_file = some f }, ok (current_file_info w))

  unfoldable pub roll_file_now :
      SystemInstant
      → RollingFileWriter W Row
      → RollingFileWriter W Row × Result (Option RollingFileInfo) FileError
  unfolding start_new_file replaced
  roll_file_now now w = replaced w (start_new_file now w)

  unfoldable pub header_written :
      RollingFile W → W × Result {0, 0} Unit CsvError → RollingFile W × Result {0, 0} Unit FileError
  header_written f (writer, ok _) = (record f { writer = writer }, ok tt)
  header_written f (writer, err e) = (record f { writer = writer }, err (csv_error e))

  -- The custom header of a new file; the file stays if it cannot be written.
  unfoldable pub write_header :
      Option Row → RollingFile W → RollingFile W × Result {0, 0} Unit FileError
  unfolding header_written
  write_header none f = (f, ok tt)
  write_header (some header) f = header_written f (csv.write_record header f.writer)

  unfoldable pub behind_header :
      Option RollingFileInfo
      → RollingFileWriter W Row
      → RollingFile W × Result {0, 0} Unit FileError
      → RollingFileWriter W Row × Result (Option RollingFileInfo) FileError
  behind_header closed w (f, ok _) = (record w { current_file = some f }, ok closed)
  behind_header closed w (f, err e) = (record w { current_file = some f }, err e)

  -- The header of the file that is now open, if it is new.
  unfoldable pub headed :
      Bool
      → Option RollingFileInfo
      → RollingFileWriter W Row
      → Option (RollingFile W)
      → RollingFileWriter W Row × Result (Option RollingFileInfo) FileError
  unfolding write_header behind_header
  headed created_new_file closed w none =
      (w, err (io_error (record { kind = kind_not_found; raw_os_error = none })))
  headed false closed w (some f) = (w, ok closed)
  headed true closed w (some f) = behind_header closed w (write_header w.custom_header f)

  -- What `before_writing` does once the file has been rolled or not.
  unfoldable pub with_header :
      Bool
      → Option RollingFileInfo
      → RollingFileWriter W Row
      → RollingFileWriter W Row × Result (Option RollingFileInfo) FileError
  unfolding headed
  with_header created_new_file closed w = headed created_new_file closed w w.current_file

  -- No file was open: a file that is now counts as new.
  unfoldable pub first_roll :
      RollingFileWriter W Row × Result (Option RollingFileInfo) FileError
      → RollingFileWriter W Row × Result (Option RollingFileInfo) FileError
  unfolding with_header
  first_roll (w, err e) = (w, err e)
  first_roll (w, ok closed) = with_header true closed w

  -- A file was open: there is a new one if it has been closed.
  unfoldable pub next_roll :
      RollingFileWriter W Row × Result (Option RollingFileInfo) FileError
      → RollingFileWriter W Row × Result (Option RollingFileInfo) FileError
  unfolding with_header is_some
  next_roll (w, err e) = (w, err e)
  next_roll (w, ok closed) = with_header (is_some closed) closed w

  unfoldable pub roll_flushed :
      SystemInstant
      → RollingFileWriter W Row × Result {0, 0} Unit FileError
      → RollingFileWriter W Row × Result (Option RollingFileInfo) FileError
  unfolding next_roll roll_file_now
  roll_flushed now (w, err e) = (w, err e)
  roll_flushed now (w, ok _) = next_roll (roll_file_now now w)

  -- Whether the current file is to be rolled; `none` where the test panics, as below.
  unfoldable pub roll_if :
      SystemInstant
      → RollingFileWriter W Row
      → Option Bool
      → Option (RollingFileWriter W Row × Result (Option RollingFileInfo) FileError)
  unfolding roll_flushed flush with_header
  roll_if now w none = none
  roll_if now w (some false) = some (with_header false none w)
  roll_if now w (some true) = some (roll_flushed now (flush csv w))

  -- By the file that is open.
  unfoldable pub before_writing_to :
      ℕ
      → SystemInstant
      → ℕ
      → RollingFileWriter W Row
      → Option (RollingFile W)
      → Option (RollingFileWriter W Row × Result (Option RollingFileInfo) FileError)
  unfolding first_roll roll_file_now file_should_roll roll_if
  before_writing_to last now offset w none = some (first_roll (roll_file_now now w))
  before_writing_to last now offset w (some f) =
      roll_if now w (file_should_roll csv last f now.system_time offset w.config.limits)

  unfoldable pub before_writing :
      ℕ
      → SystemInstant
      → ℕ
      → RollingFileWriter W Row
      → Option (RollingFileWriter W Row × Result (Option RollingFileInfo) FileError)
  unfolding before_writing_to
  before_writing last now offset w = before_writing_to last now offset w w.current_file

  unfoldable pub recorded :
      Option RollingFileInfo
      → RollingFileWriter W Row
      → RollingFile W × Result WriteResult FileError
      → RollingFileWriter W Row × Result (WriteResult × Option RollingFileInfo) FileError
  recorded closed w (f, ok result) = (record w { current_file = some f }, ok (result, closed))
  recorded closed w (f, err e) = (record w { current_file = some f }, err e)

  -- A record is written to the file that is open, by a method of the CSV writer.
  unfoldable pub written_to :
      (W → W × Result {0, 0} Unit CsvError)
      → Option RollingFileInfo
      → RollingFileWriter W Row
      → Option (RollingFile W)
      → RollingFileWriter W Row × Result (WriteResult × Option RollingFileInfo) FileError
  unfolding after_record_written recorded
  written_to method closed w none = (w, ok (err no_file, closed))
  written_to method closed w (some f) =
      let (writer, res) = method f.writer in
      recorded closed w (after_record_written res (record f { writer = writer }))

  unfoldable pub written :
      (W → W × Result {0, 0} Unit CsvError)
      → RollingFileWriter W Row × Result (Option RollingFileInfo) FileError
      → RollingFileWriter W Row × Result (WriteResult × Option RollingFileInfo) FileError
  unfolding written_to
  written method (w, err e) = (w, err e)
  written method (w, ok closed) = written_to method closed w w.current_file

  unfoldable pub written_after :
      (W → W × Result {0, 0} Unit CsvError)
      → Option (RollingFileWriter W Row × Result (Option RollingFileInfo) FileError)
      → Option (RollingFileWriter W Row × Result (WriteResult × Option RollingFileInfo) FileError)
  unfolding written
  written_after method none = none
  written_after method (some before) = some (written method before)

  unfoldable pub write_with :
      (W → W × Result {0, 0} Unit CsvError)
      → ℕ
      → SystemInstant
      → ℕ
      → RollingFileWriter W Row
      → Option (RollingFileWriter W Row × Result (WriteResult × Option RollingFileInfo) FileError)
  unfolding written_after before_writing
  write_with method last now offset w = written_after method (before_writing last now offset w)

  -- `write_record`
  unfoldable pub write_record :
      Row
      → ℕ
      → SystemInstant
      → ℕ
      → RollingFileWriter W Row
      → Option (RollingFileWriter W Row × Result (WriteResult × Option RollingFileInfo) FileError)
  unfolding write_with
  write_record row last now offset w = write_with (csv.write_record row) last now offset w

  unfoldable pub serialize :
      S
      → ℕ
      → SystemInstant
      → ℕ
      → RollingFileWriter W Row
      → Option (RollingFileWriter W Row × Result (WriteResult × Option RollingFileInfo) FileError)
  unfolding write_with
  serialize record_ last now offset w = write_with (csv.serialize record_) last now offset w
