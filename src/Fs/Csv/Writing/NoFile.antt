-- ===== src/Fs/Csv/Writing/NoFile.antt =====
-- The error NoFile of crates/msr-core/src/fs/mod.rs and the writer of fs/csv/mod.rs.
use msr.Prelude.{
  ℕ, ◌≡◌, refl, ◌≢◌, inl, inr, Option, none, some, List, Bool-cases, Result, ok, err, ℤ,
}
use mathlib.Core.Path.{subst}
use msr.Time.{SystemInstant}
use msr.Fs.System.{IoError, RollingFileInfo}
use msr.Fs.Csv.{
  CsvError, io_kind, format_kind, FileError, no_file, WriteResult, CsvWriter, RollingFile,
  RollingFileWriter, same_code, after_io_error, after_record_written,
}
use msr.Fs.Csv.Writing.{before_writing, recorded, written_to, written, written_after, write_with}
use msr.Fs.Csv.Writing.NewFile.{IsReady}
use msr.Fs.Csv.Writing.OpenFile.{before_writing-IsReady}

module _ {W : Type 0} where
  abbrev HasFile : RollingFile W × Result WriteResult FileError → Type 0
  HasFile (f, err e) = Unit
  HasFile (f, ok result) = result ≢ err no_file

  after_io_error-HasFile :
      (e : IoError) (code : Option ℤ) (f : RollingFile W) → HasFile (after_io_error e code f)
  unfolding after_io_error
  after_io_error-HasFile e none f = tt
  after_io_error-HasFile e (some code) f = elim (Bool-cases (same_code f.last_os_error_code code)) [
    | inl y ↦ rw y (λ q. cc)
    | inr n ↦ rw n tt
  ]

  after_record_written-HasFile :
      (res : Result {0, 0} Unit CsvError) (f : RollingFile W) → HasFile (after_record_written res f)
  unfolding after_record_written
  after_record_written-HasFile (ok _) f = λ q. cc
  after_record_written-HasFile (err (io_kind e)) f = after_io_error-HasFile e e.raw_os_error f
  after_record_written-HasFile (err (format_kind _)) f = tt

module _ {W Row S : Type 0} (csv : CsvWriter W Row S) (show : ℕ → List ℕ)
    (push : List ℕ → List ℕ → List ℕ) (create_new : List ℕ → Result {0, 0} Unit IoError) where
  abbrev pub HasOutcome :
      RollingFileWriter W Row × Result (WriteResult × Option RollingFileInfo) FileError → Type 0
  HasOutcome (w, err e) = Unit
  HasOutcome (w, ok (result, closed)) =
      (result ≢ err no_file) × ((f : RollingFile W) × (w.current_file ≡ some f))

  recorded-HasOutcome :
      (closed : Option RollingFileInfo) (w : RollingFileWriter W Row)
      (p : RollingFile W × Result WriteResult FileError)
      → HasFile p
      → HasOutcome (recorded csv show push create_new closed w p)
  unfolding recorded
  recorded-HasOutcome closed w (f, err e) h = tt
  recorded-HasOutcome closed w (f, ok result) h = (h, (f, refl))

  written-HasOutcome :
      (method : W → W × Result {0, 0} Unit CsvError) (w : RollingFileWriter W Row)
      (p : RollingFileWriter W Row × Result (Option RollingFileInfo) FileError)
      → IsReady csv show push create_new w p
      → HasOutcome (written csv show push create_new method p)
  unfolding written written_to
  written-HasOutcome method w (w', err e) h = tt
  written-HasOutcome method w (w', ok closed) (f, e, _) =
      let res = method f.writer in
      rw e (
        recorded-HasOutcome closed w' (after_record_written res.1 (record f { writer = res.0 }))
          (after_record_written-HasFile res.1 (record f { writer = res.0 })))

  written_after-HasOutcome :
      (method : W → W × Result {0, 0} Unit CsvError) (w : RollingFileWriter W Row)
      (o : Option (RollingFileWriter W Row × Result (Option RollingFileInfo) FileError))
      → ((p : RollingFileWriter W Row × Result (Option RollingFileInfo) FileError)
          → o ≡ some p
          → IsReady csv show push create_new w p)
      → (r : RollingFileWriter W Row × Result (WriteResult × Option RollingFileInfo) FileError)
      → written_after csv show push create_new method o ≡ some r
      → HasOutcome r
  unfolding written_after
  written_after-HasOutcome method w none h r q = cc
  written_after-HasOutcome method w (some p) h r q =
      let same : written csv show push create_new method p ≡ r = cc in
      subst HasOutcome same (written-HasOutcome method w p (h p refl))

  -- A write that returns a result, by whatever method of the CSV writer, leaves a file open, and the
  -- result is never NoFile, the arm for which is not reached.
  write_with-HasOutcome :
      (method : W → W × Result {0, 0} Unit CsvError) (last : ℕ) (now : SystemInstant) (offset : ℕ)
      (w : RollingFileWriter W Row)
      (r : RollingFileWriter W Row × Result (WriteResult × Option RollingFileInfo) FileError)
      → write_with csv show push create_new method last now offset w ≡ some r
      → HasOutcome r
  unfolding write_with
  write_with-HasOutcome method last now offset w r q =
      written_after-HasOutcome method w (before_writing csv show push create_new last now offset w)
        (λ p e. before_writing-IsReady csv show push create_new last now offset w p e) r q
