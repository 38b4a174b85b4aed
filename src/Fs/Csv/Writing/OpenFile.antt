-- ===== src/Fs/Csv/Writing/OpenFile.antt =====
-- The file that the rolling writer of crates/msr-core/src/fs/csv/mod.rs writes to.
use msr.Prelude.{
  ℕ, ◌≡◌, refl, sym, ap, ◌∙◌, inl, inr, Bool, true, false, not, Option, none, some, List, Result,
  ok, err,
}
use mathlib.Core.Path.{subst}
use msr.Time.{SystemInstant}
use msr.Fs.System.{IoError, RollingFileInfo}
use msr.Fs.Csv.{
  FileError, CsvWriter, RollingFile, RollingFileWriter, is_some, file_should_roll,
  current_file_info, flush, flush_file, flushed,
}
use msr.Fs.Csv.Writing.{
  started, roll_file_now, headed, with_header, first_roll, next_roll, roll_flushed, roll_if,
  before_writing_to, before_writing,
}
use msr.Fs.Csv.Writing.NewFile.{
  IsReady, Continues, Rolled, roll_file_now-Rolled, headed_kept, headed_fresh,
}

module _ {W Row S : Type 0} (csv : CsvWriter W Row S) (show : ℕ → List ℕ)
    (push : List ℕ → List ℕ → List ℕ) (create_new : List ℕ → Result {0, 0} Unit IoError) where
  first_roll-IsReady :
      (w : RollingFileWriter W Row)
      → w.current_file ≡ none
      → (r : RollingFileWriter W Row × Result (Option RollingFileInfo) FileError)
      → Rolled csv show push create_new w r
      → IsReady csv show push create_new w (first_roll csv show push create_new r)
  unfolding first_roll with_header headed
  first_roll-IsReady w e (w', err _) _ = tt
  first_roll-IsReady w e (w', ok closed) (h, inl (c, same)) = rw same (rw e tt)
  first_roll-IsReady w e (w', ok closed) (h, inr (c, (info, new))) =
      headed_fresh csv show push create_new w w' closed c info w'.current_file new h

  Continues-as :
      (o : Option (RollingFile W)) (old kept f : RollingFile W)
      → o ≡ some old
      → some kept ≡ some f
      → Continues csv show push create_new (some old) kept
      → Continues csv show push create_new o f
  Continues-as o old kept f e q c =
      let same : kept ≡ f = cc in
      rw e (subst (λ x. Continues csv show push create_new (some old) x) same c)

  open_info :
      (w : RollingFileWriter W Row) (f : RollingFile W)
      → w.current_file ≡ some f
      → current_file_info w ≡ some f.info
  unfolding current_file_info
  open_info w f e = rw e refl

  next_roll-IsReady :
      (w v : RollingFileWriter W Row) (old kept : RollingFile W)
      → w.current_file ≡ some old
      → v.current_file ≡ some kept
      → v.custom_header ≡ w.custom_header
      → Continues csv show push create_new (some old) kept
      → (r : RollingFileWriter W Row × Result (Option RollingFileInfo) FileError)
      → Rolled csv show push create_new v r
      → IsReady csv show push create_new w (next_roll csv show push create_new r)
  unfolding next_roll with_header is_some
  next_roll-IsReady w v old kept e f g c (v', err _) _ = tt
  next_roll-IsReady w v old kept e f g c (v', ok closed) (h, inl (none_closed, same)) =
      subst
        (λ x.
          IsReady csv show push create_new w
            (headed csv show push create_new (is_some x) x v' v'.current_file))
        (sym none_closed)
        (headed_kept csv show push create_new w v' v'.current_file refl
          (λ x q. Continues-as w.current_file old kept x e (sym f ∙ sym same ∙ q) c))
  next_roll-IsReady w v old kept e f g c (v', ok closed) (h, inr (closes, (info, new))) =
      subst
        (λ x.
          IsReady csv show push create_new w
            (headed csv show push create_new (is_some x) x v' v'.current_file))
        (sym (closes ∙ open_info v kept f))
        (headed_fresh csv show push create_new w v' (some kept.info)
          (ap some c.0 ∙ sym (open_info w old e)) info v'.current_file
          (new ∙ ap (λ x. some (started csv show push create_new (not (is_some x)) info)) g)
          (h ∙ g))

  roll_flushed-IsReady :
      (now : SystemInstant) (w : RollingFileWriter W Row) (old : RollingFile W)
      → w.current_file ≡ some old
      → (writer : W) (res : Result {0, 0} Unit IoError) → writer ≡ (csv.flush old.writer).0
      → IsReady csv show push create_new w
          (roll_flushed csv show push create_new now (flushed csv w old (writer, res)))
  unfolding roll_flushed flushed
  roll_flushed-IsReady now w old e writer (err _) same = tt
  roll_flushed-IsReady now w old e writer (ok _) same =
      let kept = record old { writer = writer } in
      let v = record w { current_file = some kept } in
      next_roll-IsReady w v old kept e refl refl (refl, refl, refl, inr same)
        (roll_file_now csv show push create_new now v)
        (roll_file_now-Rolled csv show push create_new now v)

  roll_if-IsReady :
      (now : SystemInstant) (w : RollingFileWriter W Row) (old : RollingFile W)
      → w.current_file ≡ some old
      → (rolls : Option Bool)
      → (r : RollingFileWriter W Row × Result (Option RollingFileInfo) FileError)
      → roll_if csv show push create_new now w rolls ≡ some r
      → IsReady csv show push create_new w r
  unfolding roll_if flush flush_file with_header
  roll_if-IsReady now w old e none r q = cc
  roll_if-IsReady now w old e (some false) r q =
      let same : headed csv show push create_new false none w w.current_file ≡ r = cc in
      subst (λ x. IsReady csv show push create_new w x) same
        (headed_kept csv show push create_new w w w.current_file refl
          (λ x h. Continues-as w.current_file old old x e (sym e ∙ h) (refl, refl, refl, inl refl)))
  roll_if-IsReady now w old e (some true) r q =
      let p = csv.flush old.writer in
      let flushes : flush_file csv w w.current_file ≡ flushed csv w old p = rw e refl in
      let same : roll_flushed csv show push create_new now (flush_file csv w w.current_file) ≡ r =
        cc in
      subst (λ x. IsReady csv show push create_new w x)
        (ap (λ x. roll_flushed csv show push create_new now x) (sym flushes) ∙ same)
        (roll_flushed-IsReady now w old e p.0 p.1 refl)

  before_writing_to-IsReady :
      (last : ℕ) (now : SystemInstant) (offset : ℕ) (w : RollingFileWriter W Row)
      → (o : Option (RollingFile W)) → w.current_file ≡ o
      → (r : RollingFileWriter W Row × Result (Option RollingFileInfo) FileError)
      → before_writing_to csv show push create_new last now offset w o ≡ some r
      → IsReady csv show push create_new w r
  unfolding before_writing_to
  before_writing_to-IsReady last now offset w none e r q =
      let same : first_roll csv show push create_new (roll_file_now csv show push create_new now w)
          ≡ r =
        cc in
      subst (λ x. IsReady csv show push create_new w x) same
        (first_roll-IsReady w e (roll_file_now csv show push create_new now w)
          (roll_file_now-Rolled csv show push create_new now w))
  before_writing_to-IsReady last now offset w (some f) e r q =
      roll_if-IsReady now w f e (file_should_roll csv last f now.system_time offset w.config.limits)
        r q

  -- Where `before_writing` succeeds a file is open: the one that was, with its records and its last
  -- error and nothing written to it, and no file is reported as closed, or a new one without records,
  -- whose CSV writer begins with the custom header or writes automatic ones, and the file that was
  -- open, if any, is reported as closed.
  pub before_writing-IsReady :
      (last : ℕ) (now : SystemInstant) (offset : ℕ) (w : RollingFileWriter W Row)
      → (r : RollingFileWriter W Row × Result (Option RollingFileInfo) FileError)
      → before_writing csv show push create_new last now offset w ≡ some r
      → IsReady csv show push create_new w r
  unfolding before_writing
  before_writing-IsReady last now offset w r q =
      before_writing_to-IsReady last now offset w w.current_file refl r q
