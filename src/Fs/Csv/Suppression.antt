-- ===== src/Fs/Csv/Suppression.antt =====
-- How crates/msr-core/src/fs/csv/mod.rs reports the outcomes of writes to one file.
use msr.Prelude.{
  ℕ, zero, suc, ◌+◌, ◌%◌, ◌^◌, ◌<◌, ◌≡◌, refl, ap, ◌≢◌, inl, inr, true, false, Option, none, some,
  List, [], ◌∷◌, arith, Bool-cases, Result, ok, err, is_ok, length, keep, ℤ, eqb_ℤ, eqb_ℤ_iff,
}
use msr.Fs.System.{IoError}
use msr.Fs.Csv.{
  CsvError, io_kind, format_kind, FileError, io_error, repeated_os_error, WriteResult, RollingFile,
  same_code, after_io_error, after_record_written,
}

abbrev pub repeat : {A : Type 0} → ℕ → A → List A
repeat zero a = []
repeat (suc n) a = a ∷ repeat n a

same_code_refl : (code : ℤ) → same_code (some code) code ≡ true
unfolding same_code
same_code_refl code = (eqb_ℤ_iff code code).1 refl

other_code : (o : Option ℤ) (code : ℤ) → o ≢ some code → same_code o code ≡ false
unfolding same_code
other_code none code h = refl
other_code (some last) code h = elim (Bool-cases (eqb_ℤ last code)) [
  | inl y ↦ absurd (h (ap some ((eqb_ℤ_iff last code).0 y)))
  | inr n ↦ n
]

module _ {W : Type 0} where
  -- Writes one after another, and what they return.
  abbrev pub after_records_written :
      List (Result {0, 0} Unit CsvError)
      → RollingFile W
      → RollingFile W × List (Result WriteResult FileError)
  after_records_written [] f = (f, [])
  after_records_written (res ∷ results) f =
      let (f', outcome) = after_record_written res f in
      let (f'', outcomes) = after_records_written results f' in (f'', outcome ∷ outcomes)

  module _ (e : IoError) (code : ℤ) (h : e.raw_os_error ≡ some code) where
    once_more :
        (f : RollingFile W)
        → same_code f.last_os_error_code code ≡ true
        → after_record_written (err (io_kind e)) f ≡ (f, ok (err (repeated_os_error code)))
    unfolding after_record_written after_io_error
    once_more f l = rw h (rw l refl)

    first_time :
        (f : RollingFile W)
        → same_code f.last_os_error_code code ≡ false
        → after_record_written (err (io_kind e)) f
          ≡ (record f { last_os_error_code = some code }, err (io_error e))
    unfolding after_record_written after_io_error
    first_time f l = rw h (rw l refl)

    repeated :
        (n : ℕ) (f : RollingFile W)
        → same_code f.last_os_error_code code ≡ true
        → after_records_written (repeat n (err (io_kind e))) f
          ≡ (f, repeat n (ok (err (repeated_os_error code))))
    repeated zero f l = refl
    repeated (suc n) f l = rw (once_more f l) (rw (repeated n f l) refl)

  -- An OS error that comes up any number of times in a row, on a file whose last error had another
  -- code, is returned as an error once and then suppressed: each further write returns a result that
  -- says that the error is repeated. No record is counted.
  pub same_error_once :
      (e : IoError) (code : ℤ) (n : ℕ) (f : RollingFile W)
      → e.raw_os_error ≡ some code
      → f.last_os_error_code ≢ some code
      → after_records_written (repeat (suc n) (err (io_kind e))) f ≡ (
        record f { last_os_error_code = some code },
        err (io_error e) ∷ repeat n (ok (err (repeated_os_error code))),
      )
  same_error_once e code n f h other =
      rw (first_time e code h f (other_code f.last_os_error_code code other)) (
        rw (repeated e code h n (record f { last_os_error_code = some code }) (same_code_refl code))
          refl)

  pub io_uncounted :
      (e : IoError) (code : Option ℤ) (f : RollingFile W)
      → (after_io_error e code f).0.records_written ≡ f.records_written
  unfolding after_io_error
  io_uncounted e none f = refl
  io_uncounted e (some code) f = elim (Bool-cases (same_code f.last_os_error_code code)) [
    | inl y ↦ rw y refl
    | inr n ↦ rw n refl
  ]

  counted_once :
      (res : Result {0, 0} Unit CsvError) (f : RollingFile W)
      → f.records_written < 2 ^ 64
      → (after_record_written res f).0.records_written
        ≡ (f.records_written + length (keep is_ok (res ∷ []))) % 2 ^ 64
  unfolding after_record_written after_io_error
  counted_once (ok _) f h = refl
  counted_once (err (format_kind _)) f h = omega (arith, h)
  counted_once (err (io_kind e)) f h = omega (arith, h, io_uncounted e e.raw_os_error f)

  -- The number of records of a file counts the writes that have succeeded, in `u64`.
  records_written_count :
      (results : List (Result {0, 0} Unit CsvError)) (f : RollingFile W)
      → f.records_written < 2 ^ 64
      → (after_records_written results f).0.records_written
        ≡ (f.records_written + length (keep is_ok results)) % 2 ^ 64
  records_written_count [] f h = omega (arith, h)
  records_written_count (ok u ∷ results) f h =
      let once = counted_once (ok u) f h in
      let rest =
        records_written_count results (after_record_written (ok u) f).0 (omega (arith, once)) in
      omega (arith, once, rest)
  records_written_count (err e ∷ results) f h =
      let once = counted_once (err e) f h in
      let rest =
        records_written_count results (after_record_written (err e) f).0 (omega (arith, once)) in
      omega (arith, once, rest)
