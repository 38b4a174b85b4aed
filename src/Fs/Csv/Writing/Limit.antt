-- ===== src/Fs/Csv/Writing/Limit.antt =====
-- The limit on the records of a file in crates/msr-core/src/fs/csv/mod.rs.
use msr.Prelude.{
  ℕ, suc, ◌≤◌, ◌≡◌, refl, sym, ap, ◌∙◌, inl, inr, Bool, true, false, Option, none, some, List,
  arith, leb, leb→le, Bool-cases, Result, ok, err,
}
use mathlib.Core.Path.{subst}
use msr.Time.{SystemInstant}
use msr.Fs.Policy.{should_roll}
use msr.Fs.Policy.Roll.{Reached, should_roll_iff}
use msr.Fs.System.{
  IoError, RollingFileSystem, RollingFileInfo, new_file_path, opened_at, opened,
  open_new_file_for_writing,
}
use msr.Fs.Csv.{
  CsvError, io_kind, format_kind, FileError, WriteResult, CsvWriter, RollingFile, RollingFileWriter,
  is_some, after_record_written, policy_status, file_should_roll, flushed, flush_file, flush,
}
use msr.Fs.Csv.Suppression.{io_uncounted}
use msr.Fs.Csv.Writing.{
  started, started_as, replaced, start_new_file, roll_file_now, header_written, write_header,
  behind_header, headed, with_header, first_roll, next_roll, roll_flushed, roll_if,
  before_writing_to, before_writing, recorded, written_to, written, written_after, write_with,
}

module _ {W Row S : Type 0} (csv : CsvWriter W Row S) (show : ℕ → List ℕ)
    (push : List ℕ → List ℕ → List ℕ) (create_new : List ℕ → Result {0, 0} Unit IoError) where
  -- The records of a file that is open are at most a number.
  abbrev AtMost : ℕ → Option (RollingFile W) → Type 0
  AtMost n none = Unit
  AtMost n (some f) = f.records_written ≤ n

  -- There is a limit to the records of a file, and the file that is open keeps to it.
  abbrev pub IsWithin : ℕ → RollingFileWriter W Row → Type 0
  IsWithin max w = (w.config.limits.max_records_written ≡ some max) × AtMost max w.current_file

  -- After success there is room for one more record.
  abbrev HasRoom : {A : Type 0} → ℕ → RollingFileWriter W Row × Result A FileError → Type 0
  HasRoom max (w, err e) = IsWithin (suc max) w
  HasRoom max (w, ok _) =
      (w.config.limits.max_records_written ≡ some (suc max)) × AtMost max w.current_file

  AtMost-suc : (max : ℕ) (o : Option (RollingFile W)) → AtMost max o → AtMost (suc max) o
  AtMost-suc max none h = tt
  AtMost-suc max (some f) h = omega (arith, h)

  header_kept :
      (f : RollingFile W) (p : W × Result {0, 0} Unit CsvError)
      → (header_written csv show push create_new f p).0.records_written ≡ f.records_written
  unfolding header_written
  header_kept f (writer, ok _) = refl
  header_kept f (writer, err _) = refl

  write_header_kept :
      (header : Option Row) (f : RollingFile W)
      → (write_header csv show push create_new header f).0.records_written ≡ f.records_written
  unfolding write_header
  write_header_kept none f = refl
  write_header_kept (some header) f = header_kept f (csv.write_record header f.writer)

  behind_header-HasRoom :
      (closed : Option RollingFileInfo) (max : ℕ) (w : RollingFileWriter W Row)
      (p : RollingFile W × Result {0, 0} Unit FileError)
      → w.config.limits.max_records_written ≡ some (suc max)
      → p.0.records_written ≤ max
      → HasRoom max (behind_header csv show push create_new closed w p)
  unfolding behind_header
  behind_header-HasRoom closed max w (f, ok _) c h = (c, h)
  behind_header-HasRoom closed max w (f, err _) c h = (c, omega (arith, h))

  headed-HasRoom :
      (new : Bool) (closed : Option RollingFileInfo) (max : ℕ) (w : RollingFileWriter W Row)
      (o : Option (RollingFile W))
      → w.current_file ≡ o
      → w.config.limits.max_records_written ≡ some (suc max)
      → AtMost max o
      → HasRoom max (headed csv show push create_new new closed w o)
  unfolding headed
  headed-HasRoom new closed max w none e c h = (c, rw e tt)
  headed-HasRoom false closed max w (some f) e c h = (c, rw e h)
  headed-HasRoom true closed max w (some f) e c h =
      behind_header-HasRoom closed max w (write_header csv show push create_new w.custom_header f) c
        (omega (arith, h, write_header_kept w.custom_header f))

  first_roll-HasRoom :
      (max : ℕ) (r : RollingFileWriter W Row × Result (Option RollingFileInfo) FileError)
      → HasRoom max r
      → HasRoom max (first_roll csv show push create_new r)
  unfolding first_roll with_header
  first_roll-HasRoom max (w, err e) h = h
  first_roll-HasRoom max (w, ok closed) (c, h) =
      headed-HasRoom true closed max w w.current_file refl c h

  next_roll-HasRoom :
      (max : ℕ) (r : RollingFileWriter W Row × Result (Option RollingFileInfo) FileError)
      → HasRoom max r
      → HasRoom max (next_roll csv show push create_new r)
  unfolding next_roll with_header
  next_roll-HasRoom max (w, err e) h = h
  next_roll-HasRoom max (w, ok closed) (c, h) =
      headed-HasRoom (is_some closed) closed max w w.current_file refl c h

  not_reached :
      (last : ℕ) (f : RollingFile W) (now offset : ℕ) (w : RollingFileWriter W Row) (max : ℕ)
      → w.config.limits.max_records_written ≡ some (suc max)
      → file_should_roll csv last f now offset w.config.limits ≡ some false
      → f.records_written ≤ max
  unfolding file_should_roll
  not_reached last f now offset w max c h = elim (Bool-cases (leb (suc max) f.records_written)) [
    | inl y ↦
        let over : Reached (some f.records_written) w.config.limits.max_records_written =
          rw c (leb→le (suc max) f.records_written y) in
        let rolls : should_roll last (policy_status csv f) now offset w.config.limits ≡ some true =
          (should_roll_iff last (policy_status csv f) now offset w.config.limits).1
            (inr (inl over)) in
        cc
    | inr n ↦ ground arith
  ]

  module _ (creates : (path : List ℕ) → create_new path ≡ ok tt) where
    opens :
        (system : RollingFileSystem) (t : ℕ)
        → open_new_file_for_writing show push system create_new t
          ≡ ok (opened (record { path = new_file_path show push system t; created_at = t }))
    unfolding open_new_file_for_writing opened_at
    opens system t =
        let path = new_file_path show push system t in
        ap (λ o. opened_at show push system path t o) (creates path)

    roll_file_now-HasRoom :
        (now : SystemInstant) (max : ℕ) (w : RollingFileWriter W Row)
        → w.config.limits.max_records_written ≡ some (suc max)
        → HasRoom max (roll_file_now csv show push create_new now w)
    unfolding roll_file_now start_new_file replaced started_as started
    roll_file_now-HasRoom now max w c = rw (opens w.config.system now.system_time) (c, omega arith)

    roll_flushed-HasRoom :
        (now : SystemInstant) (max : ℕ) (w : RollingFileWriter W Row) (f : RollingFile W)
        → w.config.limits.max_records_written ≡ some (suc max)
        → f.records_written ≤ suc max
        → (p : W × Result {0, 0} Unit IoError)
        → HasRoom max (roll_flushed csv show push create_new now (flushed csv w f p))
    unfolding roll_flushed flushed
    roll_flushed-HasRoom now max w f c h (writer, err _) = (c, h)
    roll_flushed-HasRoom now max w f c h (writer, ok _) =
        let v = record w { current_file = some (record f { writer = writer }) } in
        next_roll-HasRoom max (roll_file_now csv show push create_new now v)
          (roll_file_now-HasRoom now max v c)

    roll_if-HasRoom :
        (now : SystemInstant) (max : ℕ) (w : RollingFileWriter W Row) (f : RollingFile W)
        → w.current_file ≡ some f
        → w.config.limits.max_records_written ≡ some (suc max)
        → f.records_written ≤ suc max
        → (rolls : Option Bool) → (rolls ≡ some false → f.records_written ≤ max)
        → (r : RollingFileWriter W Row × Result (Option RollingFileInfo) FileError)
        → roll_if csv show push create_new now w rolls ≡ some r
        → HasRoom max r
    unfolding roll_if flush flush_file with_header
    roll_if-HasRoom now max w f e c h none room r q = cc
    roll_if-HasRoom now max w f e c h (some false) room r q =
        let same : headed csv show push create_new false none w w.current_file ≡ r = cc in
        subst (HasRoom max) same
          (headed-HasRoom false none max w w.current_file refl c (rw e (room refl)))
    roll_if-HasRoom now max w f e c h (some true) room r q =
        let flushes : flush_file csv w w.current_file ≡ flushed csv w f (csv.flush f.writer) =
          rw e refl in
        let same : roll_flushed csv show push create_new now (flush_file csv w w.current_file) ≡ r =
          cc in
        subst (HasRoom max)
          (ap (λ x. roll_flushed csv show push create_new now x) (sym flushes) ∙ same)
          (roll_flushed-HasRoom now max w f c h (csv.flush f.writer))

    before_writing-HasRoom :
        (last : ℕ) (now : SystemInstant) (offset max : ℕ) (w : RollingFileWriter W Row)
        (o : Option (RollingFile W))
        → w.current_file ≡ o
        → w.config.limits.max_records_written ≡ some (suc max)
        → AtMost (suc max) o
        → (r : RollingFileWriter W Row × Result (Option RollingFileInfo) FileError)
        → before_writing_to csv show push create_new last now offset w o ≡ some r
        → HasRoom max r
    unfolding before_writing_to
    before_writing-HasRoom last now offset max w none e c h r q =
        let same : first_roll csv show push create_new
              (roll_file_now csv show push create_new now w)
            ≡ r =
          cc in
        subst (HasRoom max) same (
          first_roll-HasRoom max (roll_file_now csv show push create_new now w)
            (roll_file_now-HasRoom now max w c))
    before_writing-HasRoom last now offset max w (some f) e c h r q =
        roll_if-HasRoom now max w f e c h
          (file_should_roll csv last f now.system_time offset w.config.limits)
          (not_reached last f now.system_time offset w max c) r q

  counted :
      (res : Result {0, 0} Unit CsvError) (f : RollingFile W)
      → (after_record_written res f).0.records_written ≤ suc f.records_written
  unfolding after_record_written
  counted (ok _) f = omega arith
  counted (err (io_kind e)) f = omega (arith, io_uncounted e e.raw_os_error f)
  counted (err (format_kind _)) f = omega arith

  recorded-IsWithin :
      (closed : Option RollingFileInfo) (max : ℕ) (w : RollingFileWriter W Row)
      (p : RollingFile W × Result WriteResult FileError)
      → w.config.limits.max_records_written ≡ some (suc max)
      → p.0.records_written ≤ suc max
      → IsWithin (suc max) (recorded csv show push create_new closed w p).0
  unfolding recorded
  recorded-IsWithin closed max w (f, ok _) c h = (c, h)
  recorded-IsWithin closed max w (f, err _) c h = (c, h)

  written_to-IsWithin :
      (method : W → W × Result {0, 0} Unit CsvError) (closed : Option RollingFileInfo) (max : ℕ)
      (w : RollingFileWriter W Row) (o : Option (RollingFile W))
      → w.current_file ≡ o
      → w.config.limits.max_records_written ≡ some (suc max)
      → AtMost max o
      → IsWithin (suc max) (written_to csv show push create_new method closed w o).0
  unfolding written_to
  written_to-IsWithin method closed max w none e c h = (c, rw e tt)
  written_to-IsWithin method closed max w (some f) e c h =
      let p = method f.writer in
      recorded-IsWithin closed max w (after_record_written p.1 (record f { writer = p.0 })) c
        (omega (arith, h, counted p.1 (record f { writer = p.0 })))

  written-IsWithin :
      (method : W → W × Result {0, 0} Unit CsvError) (max : ℕ)
      (p : RollingFileWriter W Row × Result (Option RollingFileInfo) FileError)
      → HasRoom max p
      → IsWithin (suc max) (written csv show push create_new method p).0
  unfolding written
  written-IsWithin method max (w, err e) h = h
  written-IsWithin method max (w, ok closed) (c, h) =
      written_to-IsWithin method closed max w w.current_file refl c h

  written_after-IsWithin :
      (method : W → W × Result {0, 0} Unit CsvError) (max : ℕ)
      (o : Option (RollingFileWriter W Row × Result (Option RollingFileInfo) FileError))
      → ((p : RollingFileWriter W Row × Result (Option RollingFileInfo) FileError)
          → o ≡ some p
          → HasRoom max p)
      → (r : RollingFileWriter W Row × Result (WriteResult × Option RollingFileInfo) FileError)
      → written_after csv show push create_new method o ≡ some r
      → IsWithin (suc max) r.0
  unfolding written_after
  written_after-IsWithin method max none h r q = cc
  written_after-IsWithin method max (some p) h r q =
      let same : written csv show push create_new method p ≡ r = cc in
      subst (λ x. IsWithin (suc max) x.0) same (written-IsWithin method max p (h p refl))

  -- Where the system creates every new file, no write, whether it succeeds or returns an error, by
  -- whatever method of the CSV writer, takes a file beyond the limit of its records, if the limit is
  -- not zero.
  pub write_with-IsWithin :
      ((path : List ℕ) → create_new path ≡ ok tt)
      → (method : W → W × Result {0, 0} Unit CsvError) (last : ℕ) (now : SystemInstant)
        (offset max : ℕ) (w : RollingFileWriter W Row)
        (r : RollingFileWriter W Row × Result (WriteResult × Option RollingFileInfo) FileError)
      → IsWithin (suc max) w
      → write_with csv show push create_new method last now offset w ≡ some r
      → IsWithin (suc max) r.0
  unfolding write_with before_writing
  write_with-IsWithin creates method last now offset max w r (c, h) q =
      written_after-IsWithin method max (before_writing csv show push create_new last now offset w)
        (λ p e. before_writing-HasRoom creates last now offset max w w.current_file refl c h p e) r
        q
