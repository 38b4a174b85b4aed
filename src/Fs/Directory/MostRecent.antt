-- ===== src/Fs/Directory/MostRecent.antt =====
-- The filter for the most recent file in crates/msr-core/src/fs/policy/mod.rs.
use msr.Prelude.{
  ℕ, ◌≤◌, ◌<◌, ◌≡◌, refl, ap, ◌∙◌, ◌⊎◌, ◌↔◌, inl, inr, Bool, true, false, ◌&&◌, leb, Option, none,
  some, List, [], ◌∷◌, arith, ltb, Bool-cases, Result, All, for_each,
}
use msr.Fs.Policy.{RollingFileNameTemplate}
use msr.Fs.Directory.{
  only_most_recent, RollingFileInfoWithSize, DirEntry, Filtered, filter_start, precedes, cleared,
  asserts, admitted, admit, retain, looped, select, selected, infos_of,
  read_all_dir_entries_filtered, asserted_in, debug_asserted,
}

abbrev pub Member : RollingFileInfoWithSize → List RollingFileInfoWithSize → Type 0
Member i [] = ⊥
Member i (j ∷ js) = (i ≡ j) ⊎ Member i js

-- `m` is a file of the list, and none was created later.
abbrev pub IsLatest : RollingFileInfoWithSize → List RollingFileInfoWithSize → Type 0
IsLatest m infos = Member m infos × All (λ i. i.created_at ≤ m.created_at) infos

&&-false : (b : Bool) → (b && false) ≡ false
&&-false true = refl
&&-false false = refl

-- No file is listed behind a newer one.
abbrev pub IsListedInOrder : List RollingFileInfoWithSize → Type 0
IsListedInOrder [] = Unit
IsListedInOrder (i ∷ []) = Unit
IsListedInOrder (i ∷ j ∷ js) = (i.created_at ≤ j.created_at) × IsListedInOrder (j ∷ js)

abbrev only : Bool → RollingFileInfoWithSize → Filtered
only held i = record { entries = i ∷ []; first = some i.created_at; asserted = held }

admit-first :
    (i : RollingFileInfoWithSize)
    → admit (some only_most_recent) i (record { entries = []; first = none; asserted = true })
      ≡ only true i
unfolding admit admitted filter_start precedes cleared asserts
admit-first i = ground arith

-- The debug assertion fails on a file that is older than the newest so far.
admit-only :
    (held : Bool) (i j : RollingFileInfoWithSize)
    → (admit (some only_most_recent) j (only held i) ≡ only false i) × (j.created_at < i.created_at)
      ⊎ (admit (some only_most_recent) j (only held i) ≡ only held j)
        × (i.created_at ≤ j.created_at)
unfolding admit admitted filter_start precedes cleared asserts
admit-only held i j = elim (Bool-cases (ltb j.created_at i.created_at)) [
  | inl y ↦
      let late : leb i.created_at j.created_at ≡ false = ground arith in
      inl (rw y (rw late (ap (λ b. only b i) (&&-false held))), ground arith)
  | inr n ↦
      let soon : leb i.created_at j.created_at ≡ true = ground arith in
      inr (rw n (rw soon (ground arith)), ground arith)
]

behind :
    (m i j : RollingFileInfoWithSize) (js : List RollingFileInfoWithSize)
    → (m ≡ i) ⊎ Member m js
    → (m ≡ i) ⊎ (m ≡ j) ⊎ Member m js
behind m i j js (inl e) = inl e
behind m i j js (inr h) = inr (inr h)

keep_only : (held : Bool) (m : RollingFileInfoWithSize) → retain (only held m) ≡ m ∷ []
unfolding retain
keep_only held m = ground arith

-- What the loop makes of the files behind the first, and whether the debug assertion has held
abbrev Finds : Bool → RollingFileInfoWithSize → List RollingFileInfoWithSize → Type 0
Finds held i infos =
    (m : RollingFileInfoWithSize) × (b : Bool) × (for_each (admit (some only_most_recent)) infos
        (only held i)
      ≡ only b m)
    × IsLatest m (i ∷ infos)
    × ((b ≡ true) ↔ (held ≡ true) × IsListedInOrder (i ∷ infos))

Finds-all :
    (held : Bool) (i : RollingFileInfoWithSize) (infos : List RollingFileInfoWithSize)
    → Finds held i infos
unfolding for_each
Finds-all held i [] = (i, held, refl, (inl refl, (omega arith, tt)), (λ e. (e, tt), λ h. h.0))
Finds-all held i (j ∷ js) = elim (admit-only held i j) [
  | inl (e, older) ↦
      let (m, b, f, (mem, (le, all)), iff) = Finds-all false i js in
      (
        m,
        b,
        ap (for_each (admit (some only_most_recent)) js) e ∙ f,
        (behind m i j js mem, (le, (omega (arith, older, le), all))),
        (
          λ t. let no : ⊥ = (let (q, _) = iff.0 t in cc) in absurd no,
          λ (_, (g, _)). absurd (omega (arith, older, g)),
        ),
      )
  | inr (e, newer) ↦
      let (m, b, f, (mem, (le, all)), iff) = Finds-all held j js in
      (
        m,
        b,
        ap (for_each (admit (some only_most_recent)) js) e ∙ f,
        (inr mem, (omega (arith, newer, le), (le, all))),
        (λ t. ((iff.0 t).0, (newer, (iff.0 t).1)), λ (t, (_, g)). iff.1 (t, g)),
      )
]

looped-only_most_recent :
    (i : RollingFileInfoWithSize) (infos : List RollingFileInfoWithSize)
    → (m : RollingFileInfoWithSize) × (b : Bool) × (looped (some only_most_recent) (i ∷ infos)
        ≡ only b m)
      × IsLatest m (i ∷ infos)
      × ((b ≡ true) ↔ IsListedInOrder (i ∷ infos))
unfolding looped for_each
looped-only_most_recent i infos =
    let (m, b, e, latest, iff) = Finds-all true i infos in
    (
      m,
      b,
      ap (λ acc. for_each (admit (some only_most_recent)) infos acc) (admit-first i) ∙ e,
      latest,
      (λ t. (iff.0 t).1, λ h. iff.1 (refl, h)),
    )

some_true :
    {P : Type 0} (b : Bool) (o : Option Bool) → o ≡ some b → (b ≡ true) ↔ P → (o ≡ some true) ↔ P
some_true b o e iff = (λ h. iff.0 cc, λ p. e ∙ ap some (iff.1 p))

-- Where the names of a directory do not make the parser panic and some of them are names of rolling
-- files, the filter for the most recent file returns one file, and no other was created after it; with
-- debug assertions it does so exactly if no file is listed behind a newer one, and panics otherwise.
pub read_all-only_most_recent :
    {X : Type 0} (parse_ts : List ℕ → Result ℕ X) (template : RollingFileNameTemplate)
    (es : List DirEntry) (i : RollingFileInfoWithSize) (infos : List RollingFileInfoWithSize)
    → infos_of parse_ts template es ≡ some (i ∷ infos)
    → (m : RollingFileInfoWithSize) × (read_all_dir_entries_filtered parse_ts template
          (some only_most_recent)
          es
        ≡ some (m ∷ []))
      × IsLatest m (i ∷ infos)
      × ((debug_asserted parse_ts template (some only_most_recent) es ≡ some true)
          ↔ IsListedInOrder (i ∷ infos))
unfolding read_all_dir_entries_filtered selected select debug_asserted asserted_in
read_all-only_most_recent parse_ts template es i infos e =
    let (m, b, f, latest, iff) = looped-only_most_recent i infos in
    (
      m,
      ap (selected (some only_most_recent)) e
          ∙ ap (λ acc. some (retain acc)) f
          ∙ ap some (keep_only b m),
      latest,
      some_true b _ (ap (asserted_in (some only_most_recent)) e ∙ ap (λ acc. some acc.asserted) f)
          iff,
    )
