-- ===== src/Fs/Directory/Ranges.antt =====
-- What the time ranges of crates/msr-core/src/fs/policy/mod.rs select.
use msr.Prelude.{
  ℕ, ◌≤◌, ◌≡◌, refl, sym, ap, ◌∙◌, ◌⊎◌, inl, inr, Bool, true, false, Option, none, some, List, [],
  ◌∷◌, ◌++◌, append-nil, append_assoc, arith, ltb, leb, if◌then◌else◌, Bool-cases, keep, All,
  for_each,
}
use mathlib.Core.Path.{subst}
use msr.Fs.Directory.{
  SystemTimeRange, exclusive_upper_bound, inclusive_upper_bound, RollingFileInfoWithSize, Filtered,
  filter_start, precedes, cleared, admitted, admit, retain, select,
}

-- Files of which a range admits those that pass a test, none before its start
module _ (range : SystemTimeRange) (start : ℕ) (passes : ℕ → Bool)
    (starts : (t : ℕ) → filter_start range t ≡ (if passes t then some start else none))
    (uncleared : (t : ℕ) (first : Option ℕ) (entries : List RollingFileInfoWithSize)
      → cleared range t first entries ≡ entries) where
  -- Nothing has moved the start of the range.
  abbrev IsSteady : Option ℕ → Type 0
  IsSteady first = (first ≡ none) ⊎ (first ≡ some start)

  not_before : (t : ℕ) (first : Option ℕ) → start ≤ t → IsSteady first → precedes t first ≡ false
  unfolding precedes
  not_before t first h (inl e) = rw e refl
  not_before t first h (inr e) = rw e (ground (arith, h))

  first-IsSteady :
      (t : ℕ) (first : Option ℕ)
      → start ≤ t
      → IsSteady first
      → IsSteady (if leb t start then some t else first)
  first-IsSteady t first h steady = elim (Bool-cases (leb t start)) [
    | inl y ↦ let same : t ≡ start = ground arith in rw y (inr (ap some same))
    | inr n ↦ rw n steady
  ]

  admit_passes :
      (info : RollingFileInfoWithSize) (acc : Filtered)
      → start ≤ info.created_at
      → IsSteady acc.first
      → passes info.created_at ≡ true
      → ((admit (some range) info acc).entries ≡ acc.entries ++ info ∷ [])
        × IsSteady (admit (some range) info acc).first
  unfolding admit admitted
  admit_passes info acc h steady y =
      let e : filter_start range info.created_at ≡ some start =
        starts info.created_at ∙ rw y refl in
      subst
        (λ o.
          ((admitted range info acc o).entries ≡ acc.entries ++ info ∷ [])
          × IsSteady (admitted range info acc o).first)
        (sym e)
        (rw (not_before info.created_at acc.first h steady) (
          ap (λ es. es ++ info ∷ []) (uncleared info.created_at acc.first acc.entries),
          first-IsSteady info.created_at acc.first h steady,
        ))

  admit_fails :
      (info : RollingFileInfoWithSize) (acc : Filtered)
      → passes info.created_at ≡ false
      → admit (some range) info acc ≡ acc
  unfolding admit admitted
  admit_fails info acc n =
      let e : filter_start range info.created_at ≡ none = starts info.created_at ∙ rw n refl in
      ap (admitted range info acc) e

  for_each-IsSteady :
      (infos : List RollingFileInfoWithSize) (acc : Filtered)
      → All (λ i. start ≤ i.created_at) infos
      → IsSteady acc.first
      → ((for_each (admit (some range)) infos acc).entries
          ≡ acc.entries ++ keep (λ i. passes i.created_at) infos)
        × IsSteady (for_each (admit (some range)) infos acc).first
  unfolding for_each
  for_each-IsSteady [] acc _ steady = (sym (append-nil acc.entries), steady)
  for_each-IsSteady (i ∷ is) acc (h, hs) steady = elim (Bool-cases (passes i.created_at)) [
    | inl y ↦
        let (e, s) = admit_passes i acc h steady y in
        let (f, t) = for_each-IsSteady is (admit (some range) i acc) hs s in
        (
          rw y (
              f
              ∙ ap (λ es. es ++ keep (λ j. passes j.created_at) is) e
              ∙ append_assoc acc.entries (i ∷ []) (keep (λ j. passes j.created_at) is)),
          t,
        )
    | inr n ↦ rw n (
        subst
          (λ a.
            ((for_each (admit (some range)) is a).entries
              ≡ acc.entries ++ keep (λ j. passes j.created_at) is)
            × IsSteady (for_each (admit (some range)) is a).first)
          (sym (admit_fails i acc n)) (for_each-IsSteady is acc hs steady))
  ]

  keep_same :
      (infos : List RollingFileInfoWithSize)
      → All (λ i. start ≤ i.created_at) infos
      → keep (λ i. leb start i.created_at) infos ≡ infos
  keep_same [] _ = refl
  keep_same (i ∷ is) (h, hs) = ground (arith, h, keep_same is hs)

  All-kept :
      (infos : List RollingFileInfoWithSize)
      → All (λ i. start ≤ i.created_at) infos
      → All (λ i. start ≤ i.created_at) (keep (λ i. passes i.created_at) infos)
  All-kept [] _ = tt
  All-kept (i ∷ is) (h, hs) = elim (Bool-cases (passes i.created_at)) [
    | inl y ↦ rw y (h, All-kept is hs)
    | inr n ↦ rw n (All-kept is hs)
  ]

  retain_steady :
      (acc : Filtered)
      → IsSteady acc.first
      → All (λ i. start ≤ i.created_at) acc.entries
      → retain acc ≡ acc.entries
  unfolding retain
  retain_steady acc (inl e) h = rw e refl
  retain_steady acc (inr e) h = rw e (keep_same acc.entries h)

  select_steady :
      (infos : List RollingFileInfoWithSize)
      → All (λ i. start ≤ i.created_at) infos
      → select (some range) infos ≡ keep (λ i. passes i.created_at) infos
  unfolding select
  select_steady infos h =
      let (e, s) =
        for_each-IsSteady infos (record { entries = []; first = none; asserted = true }) h
          (inl refl) in
      retain_steady
        (for_each (admit (some range)) infos
          (record { entries = []; first = none; asserted = true }))
        s (rw e (All-kept infos h))
      ∙ e

-- Of files none of which was created before the start of a range, the filter selects exactly those
-- that were created before its end, the end included or not, in the order of the directory.
pub select-keep :
    (start end : ℕ) (infos : List RollingFileInfoWithSize)
    → All (λ i. start ≤ i.created_at) infos
    → (select (some (inclusive_upper_bound start end)) infos
        ≡ keep (λ i. leb i.created_at end) infos)
      × (select (some (exclusive_upper_bound start end)) infos
          ≡ keep (λ i. ltb i.created_at end) infos)
unfolding filter_start cleared
select-keep start end infos h = (
  select_steady (inclusive_upper_bound start end) start (λ t. leb t end) (λ t. ground arith)
      (λ t first entries. refl) infos h,
  select_steady (exclusive_upper_bound start end) start (λ t. ltb t end) (λ t. ground arith)
      (λ t first entries. refl) infos h,
)
