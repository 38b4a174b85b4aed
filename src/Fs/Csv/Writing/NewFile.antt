-- ===== src/Fs/Csv/Writing/NewFile.antt =====
-- The file that the rolling writer of crates/msr-core/src/fs/csv/mod.rs has open once it has been rolled or
-- not.
use msr.Prelude.{
  ℕ, ◌≡◌, refl, sym, ◌⊎◌, inl, inr, true, false, not, Option, none, some, List, Result, ok, err,
}
use mathlib.Core.Path.{subst}
use msr.Time.{SystemInstant}
use msr.Fs.System.{
  IoError, RollingFileInfo, OpenRollingFile, opened, already_exists, open_new_file_for_writing,
}
use msr.Fs.Csv.{
  CsvError, FileError, CsvWriter, RollingFile, RollingFileWriter, is_some, current_file_info,
}
use msr.Fs.Csv.Writing.{
  started, started_as, replaced, start_new_file, roll_file_now, header_written, write_header,
  behind_header, headed,
}

module _ {W Row S : Type 0} (csv : CsvWriter W Row S) (show : ℕ → List ℕ)
    (push : List ℕ → List ℕ → List ℕ) (create_new : List ℕ → Result {0, 0} Unit IoError) where
  -- The CSV writer of a new file: behind the custom header, or with automatic ones.
  abbrev pub first_writer : Option Row → W
  first_writer none = csv.from_writer true
  first_writer (some header) = (csv.write_record header (csv.from_writer false)).0

  -- The same file with the same records and the same last error as before, and its CSV writer with
  -- nothing written to it, but perhaps flushed.
  abbrev pub Continues : Option (RollingFile W) → RollingFile W → Type 0
  Continues none f = ⊥
  Continues (some old) f =
      (f.info ≡ old.info)
      × (f.records_written ≡ old.records_written)
      × (f.last_os_error_code ≡ old.last_os_error_code)
      × ((f.writer ≡ old.writer) ⊎ (f.writer ≡ (csv.flush old.writer).0))

  -- A file without records, which begins with the header.
  abbrev pub IsFresh : Option Row → RollingFile W → Type 0
  IsFresh header f =
      (f.records_written ≡ 0) × (f.writer ≡ first_writer header) × (f.last_os_error_code ≡ none)

  -- After success a file is open: the one that was, and none is closed, or a fresh one, and the one
  -- that was is closed.
  abbrev pub IsReady :
      RollingFileWriter W Row
      → RollingFileWriter W Row × Result (Option RollingFileInfo) FileError
      → Type 0
  IsReady w (w', err e) = Unit
  IsReady w (w', ok closed) =
      (f : RollingFile W) × (w'.current_file ≡ some f)
      × ((closed ≡ none) × Continues w.current_file f
          ⊎ (closed ≡ current_file_info w) × IsFresh w.custom_header f)

  -- A file has been rolled or not: it is fresh but for its header, if one is to be written.
  abbrev pub Rolled :
      RollingFileWriter W Row
      → RollingFileWriter W Row × Result (Option RollingFileInfo) FileError
      → Type 0
  Rolled w (w', err e) = Unit
  Rolled w (w', ok closed) =
      (w'.custom_header ≡ w.custom_header)
      × ((closed ≡ none) × (w'.current_file ≡ w.current_file)
          ⊎ (closed ≡ current_file_info w)
            × ((info : RollingFileInfo) × (w'.current_file
                  ≡ some (started csv show push create_new (not (is_some w.custom_header)) info))))

  replaced-Rolled :
      (w : RollingFileWriter W Row) (res : Result OpenRollingFile IoError)
      → Rolled w (replaced csv show push create_new w (started_as csv show push create_new w res))
  unfolding replaced started_as
  replaced-Rolled w (err e) = tt
  replaced-Rolled w (ok (already_exists path)) = (refl, inl (refl, refl))
  replaced-Rolled w (ok (opened info)) = (refl, inr (refl, (info, refl)))

  pub roll_file_now-Rolled :
      (now : SystemInstant) (w : RollingFileWriter W Row)
      → Rolled w (roll_file_now csv show push create_new now w)
  unfolding roll_file_now start_new_file
  roll_file_now-Rolled now w =
      replaced-Rolled w
        (open_new_file_for_writing show push w.config.system create_new now.system_time)

  pub headed_kept :
      (w w' : RollingFileWriter W Row) (o : Option (RollingFile W))
      → w'.current_file ≡ o
      → ((f : RollingFile W) → o ≡ some f → Continues w.current_file f)
      → IsReady w (headed csv show push create_new false none w' o)
  unfolding headed
  headed_kept w w' none e h = tt
  headed_kept w w' (some f) e h = (f, e, inl (refl, h f refl))

  module _ (w w' : RollingFileWriter W Row) (closed : Option RollingFileInfo)
      (c : closed ≡ current_file_info w) (info : RollingFileInfo) where
    header-IsReady :
        (header : Row) (writer : W) (res : Result {0, 0} Unit CsvError)
        → writer ≡ first_writer (some header)
        → w.custom_header ≡ some header
        → IsReady w (
            behind_header csv show push create_new closed w' (
              header_written csv show push create_new
                (started csv show push create_new false info)
                (writer, res)))
    unfolding header_written started behind_header
    header-IsReady header writer (err _) _ _ = tt
    header-IsReady header writer (ok _) same e = (
      record (started csv show push create_new false info) { writer = writer },
      refl,
      inr (c, (refl, rw e same, refl)),
    )

    -- Behind the header of a fresh file
    fresh-IsReady :
        (header : Option Row)
        → w.custom_header ≡ header
        → IsReady w (
            behind_header csv show push create_new closed w' (
              write_header csv show push create_new header
                (started csv show push create_new (not (is_some header)) info)))
    unfolding write_header started is_some behind_header
    fresh-IsReady none e =
        (started csv show push create_new true info, refl, inr (c, (refl, rw e refl, refl)))
    fresh-IsReady (some header) e =
        let p = csv.write_record header (csv.from_writer false) in
        header-IsReady header p.0 p.1 refl e

    pub headed_fresh :
        (o : Option (RollingFile W))
        → o ≡ some (started csv show push create_new (not (is_some w.custom_header)) info)
        → w'.custom_header ≡ w.custom_header
        → IsReady w (headed csv show push create_new true closed w' o)
    unfolding headed
    headed_fresh o e h =
        let f = started csv show push create_new (not (is_some w.custom_header)) info in
        rw e (
          subst
            (λ header. IsReady w (
              behind_header csv show push create_new closed w'
                (write_header csv show push create_new header f)))
            (sym h) (fresh-IsReady w.custom_header refl))
