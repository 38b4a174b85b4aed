-- ===== src/Fs/Policy/FileName.antt =====
-- Formatting and parsing the names of rolling files (crates/msr-core/src/fs/policy/mod.rs).
use msr.Prelude.{
  ℕ, ◌+◌, ◌-◌, ◌≤◌, ◌<◌, ◌≡◌, refl, sym, ap, ◌∙◌, ◌↔◌, inl, inr, true, none, some, List, ◌++◌,
  append_assoc, arith, leb, ◌==◌, if◌then◌else◌, ==_iff, Bool-cases, Result, ok, err, length,
  length-append,
}
use msr.Fs.Bytes.{
  starts_with, ends_with, split_at, starts_with_iff, ends_with_iff, split_at-append, fitting,
}
use msr.Fs.Policy.{
  RollingFileNameTemplate, FileNameError, pattern, time_stamp_string_len,
  format_os_string_with_time_stamp, parsed, parse_behind, parse_time_stamp_from_file_name,
}

some_inj : {A : Type 0} {a b : A} → some a ≡ some b → a ≡ b
some_inj e = cc

pattern_not_ok :
    {T X : Type 0} {ts : T} → Path (Result T (FileNameError X)) (err pattern) (ok ts) → ⊥
pattern_not_ok e = cc

module _ {T X : Type 0} (parse_ts : List ℕ → Result T X) where
  behind_lem :
      (stamp suffix : List ℕ)
      → parse_behind parse_ts suffix (stamp ++ suffix) ≡ (
          if length stamp == time_stamp_string_len
          then some (parsed parse_ts stamp)
          else some (err pattern))
  unfolding parse_behind
  behind_lem stamp suffix =
      let fits : length (stamp ++ suffix) - length suffix ≡ length stamp =
        omega (arith, length-append stamp suffix) in
      let order : leb (length suffix) (length (stamp ++ suffix)) ≡ true =
        ground (arith, length-append stamp suffix) in
      rw (order, fits, split_at-append stamp suffix) refl

  parsed_of : (xs : List ℕ) (ts : T) → parse_ts xs ≡ ok ts → parsed parse_ts xs ≡ ok ts
  unfolding parsed
  parsed_of xs ts h = ground arith

  parsed_inv : (xs : List ℕ) (ts : T) → parsed parse_ts xs ≡ ok ts → parse_ts xs ≡ ok ts
  unfolding parsed
  parsed_inv xs ts h = ground arith

  parse_front :
      (stamp : List ℕ) (t : RollingFileNameTemplate) (ts : T)
      → length stamp ≡ time_stamp_string_len
      → parse_ts stamp ≡ ok ts
      → parse_time_stamp_from_file_name parse_ts t (some (t.prefix ++ stamp ++ t.suffix))
        ≡ some (ok ts)
  unfolding parse_time_stamp_from_file_name
  parse_front stamp t ts len e =
      let assoc = append_assoc t.prefix stamp t.suffix in
      let starts =
        (starts_with_iff (t.prefix ++ stamp ++ t.suffix) t.prefix).1 (stamp ++ t.suffix, assoc) in
      let ends =
        (ends_with_iff (t.prefix ++ stamp ++ t.suffix) t.suffix).1 (t.prefix ++ stamp, refl) in
      rw
        (
          starts,
          ends,
          assoc,
          split_at-append t.prefix (stamp ++ t.suffix),
          behind_lem stamp t.suffix,
          len,
          parsed_of stamp ts e,
        )
        refl

  -- The name that is made for a time stamp is parsed as that time stamp, where the format gives strings
  -- of the assumed length that it parses.
  parse-format :
      (show : T → List ℕ) (t : RollingFileNameTemplate) (ts : T)
      → length (show ts) ≡ time_stamp_string_len
      → parse_ts (show ts) ≡ ok ts
      → parse_time_stamp_from_file_name parse_ts t
          (some (format_os_string_with_time_stamp show t ts))
        ≡ some (ok ts)
  unfolding parse_time_stamp_from_file_name format_os_string_with_time_stamp parsed
  parse-format show t ts len e = parse_front (show ts) t ts len e

  fits_of_ok :
      (suffix rest : List ℕ) (ts : T)
      → parse_behind parse_ts suffix rest ≡ some (ok ts)
      → length suffix ≤ length rest
  unfolding parse_behind
  fits_of_ok suffix rest ts h = elim (Bool-cases (leb (length suffix) (length rest))) [
    | inl y ↦ ground arith
    | inr n ↦ ground arith
  ]

  stamp_of_ok :
      (stamp suffix : List ℕ) (ts : T)
      → parse_behind parse_ts suffix (stamp ++ suffix) ≡ some (ok ts)
      → (length stamp ≡ time_stamp_string_len) × (parse_ts stamp ≡ ok ts)
  stamp_of_ok stamp suffix ts h = elim (Bool-cases (length stamp == time_stamp_string_len)) [
    | inl y ↦
        let ok_stamp : parsed parse_ts stamp ≡ ok ts =
          some_inj (rw (behind_lem stamp suffix, y) at h) in
        ((==_iff (length stamp) time_stamp_string_len).0 y, parsed_inv stamp ts ok_stamp)
    | inr n ↦ absurd (pattern_not_ok (some_inj (rw (behind_lem stamp suffix, n) at h)))
  ]

  front_of_ok :
      (t : RollingFileNameTemplate) (file_name : List ℕ) (ts : T)
      → parse_time_stamp_from_file_name parse_ts t (some file_name) ≡ some (ok ts)
      → (starts_with file_name t.prefix ≡ true)
        × (ends_with file_name t.suffix ≡ true)
        × (parse_behind parse_ts t.suffix (split_at (length t.prefix) file_name).1 ≡ some (ok ts))
  unfolding parse_time_stamp_from_file_name
  front_of_ok t file_name ts h = ground arith

  stamp_between :
      (p q r s : List ℕ) (ts : T)
      → p ++ r ≡ q ++ s
      → parse_behind parse_ts s (split_at (length p) (p ++ r)).1 ≡ some (ok ts)
      → (stamp : List ℕ) × (p ++ r ≡ p ++ stamp ++ s)
        × (length stamp ≡ time_stamp_string_len)
        × (parse_ts stamp ≡ ok ts)
  stamp_between p q r s ts e h =
      let behind : parse_behind parse_ts s r ≡ some (ok ts) = rw (split_at-append p r) at h in
      let (stamp, er) = fitting p q r s e (fits_of_ok s r ts behind) in
      let (len, found) = stamp_of_ok stamp s ts (rw er at behind) in
      (stamp, ap (λ zs. p ++ zs) er ∙ sym (append_assoc p stamp s), len, found)

  -- A file name is parsed as a time stamp exactly if it is the prefix, a string of the length of time
  -- stamps that is parsed as that time stamp, and the suffix.
  pub parse_iff :
      (t : RollingFileNameTemplate) (file_name : List ℕ) (ts : T)
      → (parse_time_stamp_from_file_name parse_ts t (some file_name) ≡ some (ok ts)) ↔ (
          (stamp : List ℕ) × (file_name ≡ t.prefix ++ stamp ++ t.suffix)
          × (length stamp ≡ time_stamp_string_len)
          × (parse_ts stamp ≡ ok ts))
  unfolding parse_time_stamp_from_file_name
  parse_iff t file_name ts = (
    λ h.
        let (starts, ends, behind) = front_of_ok t file_name ts h in
        let (r, er) = (starts_with_iff file_name t.prefix).0 starts in
        let (q, eq) = (ends_with_iff file_name t.suffix).0 ends in
        let (stamp, e, len, found) =
          stamp_between t.prefix q r t.suffix ts (sym er ∙ eq) (rw er at behind) in
        (stamp, er ∙ e, len, found),
    λ (stamp, e, len, found). rw e (parse_front stamp t ts len found),
  )

  behind_panics_iff :
      (suffix rest : List ℕ)
      → (parse_behind parse_ts suffix rest ≡ none) ↔ (length rest < length suffix)
  unfolding parse_behind
  behind_panics_iff suffix rest = (λ h. ground arith, λ h. ground arith)

  panics_front :
      (t : RollingFileNameTemplate) (file_name : List ℕ)
      → (parse_time_stamp_from_file_name parse_ts t (some file_name) ≡ none) ↔ (
          (starts_with file_name t.prefix ≡ true)
          × (ends_with file_name t.suffix ≡ true)
          × (parse_behind parse_ts t.suffix (split_at (length t.prefix) file_name).1 ≡ none))
  unfolding parse_time_stamp_from_file_name
  panics_front t file_name = (λ h. ground arith, λ (a, b, c). rw (a, b) c)

  -- The parser panics exactly on the file names that begin with the prefix and end with the suffix where
  -- these two overlap.
  pub parse_panics_iff :
      (t : RollingFileNameTemplate) (file_name : List ℕ)
      → (parse_time_stamp_from_file_name parse_ts t (some file_name) ≡ none) ↔ (
          ((r : List ℕ) × (file_name ≡ t.prefix ++ r))
          × ((q : List ℕ) × (file_name ≡ q ++ t.suffix))
          × (length file_name < length t.prefix + length t.suffix))
  parse_panics_iff t file_name = (
    λ h.
        let (starts, ends, behind) = (panics_front t file_name).0 h in
        let (r, er) = (starts_with_iff file_name t.prefix).0 starts in
        let short =
          (behind_panics_iff t.suffix r).0 (rw (split_at-append t.prefix r) at rw er at behind) in
        (
          (r, er),
          (ends_with_iff file_name t.suffix).0 ends,
          omega (arith, ap length er, length-append t.prefix r, short),
        ),
    λ ((r, er), (q, eq), short).
        let short' : length r < length t.suffix =
          omega (arith, ap length er, length-append t.prefix r, short) in
        (panics_front t file_name).1 (
          (starts_with_iff file_name t.prefix).1 (r, er),
          (ends_with_iff file_name t.suffix).1 (q, eq),
          rw (er, split_at-append t.prefix r) ((behind_panics_iff t.suffix r).1 short'),
        ),
  )
