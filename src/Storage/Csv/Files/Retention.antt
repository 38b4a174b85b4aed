-- ===== src/Storage/Csv/Files/Retention.antt =====
-- Retention by whole files in crates/msr-core/src/storage/csv.rs.
use msr.Prelude.{
  ℕ, ◌≤◌, ◌<◌, ◌≡◌, refl, sym, ap, ◌∙◌, ◌⊎◌, inl, inr, Bool, true, some, List, [], ◌∷◌, ◌++◌, map,
  append-nil, append_assoc, arith, leb, leb→le, Bool-cases, ok, keep, All,
}
use mathlib.Core.Path.{subst}
use msr.Fs.Directory.{inclusive_upper_bound, RollingFileInfoWithSize}
use msr.Fs.Directory.MostRecent.{Member}
use msr.Fs.Directory.Ranges.{select-keep}
use msr.Fs.System.{sort_by_created_at, chronologically}
use msr.Fs.System.Chronology.{IsChronological, All-sort, IsChronological-sort, Member-sort}
use msr.Fs.Csv.{CsvWriter}
use msr.Storage.Csv.{FileRecordStorage, flush_before_reading}
use msr.Storage.Csv.Files.{
  Disk, files_chronologically, without_last, after_removal, go_on, remove_files, retain_flushed,
  retain_all_records_created_since, remove_all_but_last,
}

Member-keep :
    (m : RollingFileInfoWithSize) (p : RollingFileInfoWithSize → Bool)
    (is : List RollingFileInfoWithSize)
    → p m ≡ true
    → Member m is
    → Member m (keep p is)
Member-keep m p [] y h = absurd h
Member-keep m p (i ∷ is) y (inl e) =
    let same : p i ≡ true = subst (λ x. p x ≡ true) e y in rw same (inl e)
Member-keep m p (i ∷ is) y (inr h) = elim (Bool-cases (p i)) [
  | inl t ↦ rw t (inr (Member-keep m p is y h))
  | inr f ↦ rw f (Member-keep m p is y h)
]

All-Member :
    (is js : List RollingFileInfoWithSize)
    → ((i : RollingFileInfoWithSize) → Member i is → Member i js)
    → All (λ i. Member i js) is
All-Member [] js h = tt
All-Member (i ∷ is) js h = (h i (inl refl), All-Member is js (λ k g. h k (inr g)))

All-kept :
    (P : RollingFileInfoWithSize → Type 0) (p : RollingFileInfoWithSize → Bool)
    (is : List RollingFileInfoWithSize)
    → All (λ i. p i ≡ true → P i) is
    → All P (keep p is)
All-kept P p [] h = tt
All-kept P p (i ∷ is) (h, hs) = elim (Bool-cases (p i)) [
  | inl y ↦ rw y (h y, All-kept P p is hs)
  | inr n ↦ rw n (All-kept P p is hs)
]

All_last :
    (P : RollingFileInfoWithSize → Type 0) (is : List RollingFileInfoWithSize)
    (latest : RollingFileInfoWithSize)
    → All P (is ++ latest ∷ [])
    → P latest
All_last P [] latest (h, _) = h
All_last P (i ∷ is) latest (_, hs) = All_last P is latest hs

-- Of chronological files all but the last, and none of them is later than the last.
split_last :
    (i : RollingFileInfoWithSize) (is : List RollingFileInfoWithSize)
    → IsChronological (i ∷ is)
    → (latest : RollingFileInfoWithSize) × (i ∷ is ≡ without_last (i ∷ is) ++ latest ∷ [])
      × All (λ j. j.created_at ≤ latest.created_at) (without_last (i ∷ is))
unfolding without_last
split_last i [] _ = (i, refl, tt)
split_last i (j ∷ js) (first, rest) =
    let (latest, e, h) = split_last j js rest in
    (
      latest,
      ap (λ ks. i ∷ ks) e,
      (
        All_last (λ k. i.created_at ≤ k.created_at) (without_last (j ∷ js)) latest
            (subst (All (λ k. i.created_at ≤ k.created_at)) e first),
        h,
      ),
    )

-- Where every file can be removed, the files are removed one after another.
removed_lem :
    {R : Type 0} (is : List RollingFileInfoWithSize) (disk : Disk R)
    → ((path : List ℕ) → disk.remove_file path ≡ ok tt)
    → remove_files is disk ≡ (record disk { removed = disk.removed ++ map (λ i. i.path) is }, ok tt)
unfolding remove_files after_removal go_on
removed_lem [] disk h =
    ap (λ paths. (record disk { removed = paths }, ok tt)) (sym (append-nil disk.removed))
removed_lem (i ∷ is) disk h =
    ap (λ res. go_on (remove_files is) (after_removal i.path disk res)) (h i.path)
    ∙ removed_lem is (record disk { removed = disk.removed ++ i.path ∷ [] }) h
    ∙ ap (λ paths. (record disk { removed = paths }, ok tt))
        (append_assoc disk.removed (i.path ∷ []) (map (λ j. j.path) is))

-- Of the files that were created by a time all are old but the last of them, or there is none.
abbrev pub Retains : ℕ → List RollingFileInfoWithSize → List RollingFileInfoWithSize → Type 0
Retains since infos old =
    (old ≡ []) × All (λ i. since < i.created_at) infos
    ⊎ ((latest : RollingFileInfoWithSize) × Member latest infos
        × (latest.created_at ≤ since)
        × All (λ i. Member i infos × (i.created_at ≤ latest.created_at)) old
        × All (λ i. i.created_at ≤ since → Member i old ⊎ (i ≡ latest)) infos)

All-of :
    (P : RollingFileInfoWithSize → Type 0) (infos : List RollingFileInfoWithSize)
    → ((i : RollingFileInfoWithSize) → Member i infos → P i)
    → All P infos
All-of P [] h = tt
All-of P (i ∷ is) h = (h i (inl refl), All-of P is (λ k g. h k (inr g)))

All-init :
    (P : RollingFileInfoWithSize → Type 0) (is js : List RollingFileInfoWithSize)
    → All P (is ++ js)
    → All P is
All-init P [] js h = tt
All-init P (i ∷ is) js (h, hs) = (h, All-init P is js hs)

All-zip :
    (P Q R : RollingFileInfoWithSize → Type 0) (is : List RollingFileInfoWithSize)
    → ((i : RollingFileInfoWithSize) → P i → Q i → R i)
    → All P is
    → All Q is
    → All R is
All-zip P Q R [] f h g = tt
All-zip P Q R (i ∷ is) f (h, hs) (g, gs) = (f i h g, All-zip P Q R is f hs gs)

Member-append :
    (m : RollingFileInfoWithSize) (is : List RollingFileInfoWithSize)
    (latest : RollingFileInfoWithSize)
    → Member m (is ++ latest ∷ [])
    → Member m is ⊎ (m ≡ latest)
Member-append m [] latest (inl e) = inr e
Member-append m [] latest (inr h) = absurd h
Member-append m (i ∷ is) latest (inl e) = inl (inl e)
Member-append m (i ∷ is) latest (inr h) = elim (Member-append m is latest h) [
  | inl g ↦ inl (inr g)
  | inr e ↦ inr e
]

Retains-without_last :
    (since : ℕ) (infos ks : List RollingFileInfoWithSize)
    → IsChronological ks
    → All (λ i. Member i infos × (i.created_at ≤ since)) ks
    → ((i : RollingFileInfoWithSize) → Member i infos → i.created_at ≤ since → Member i ks)
    → Retains since infos (without_last ks)
unfolding without_last
Retains-without_last since infos [] _ _ found = inl (
  refl,
  All-of (λ i. since < i.created_at) infos
      (λ i h. elim (Bool-cases (leb i.created_at since)) [
        | inl y ↦ absurd (found i h (leb→le i.created_at since y))
        | inr n ↦ ground arith
      ]),
)
Retains-without_last since infos (k ∷ ks) chronological all found =
    let (latest, e, older) = split_last k ks chronological in
    let all' = subst (All (λ i. Member i infos × (i.created_at ≤ since))) e all in
    let (member, le) =
      All_last (λ i. Member i infos × (i.created_at ≤ since)) (without_last (k ∷ ks)) latest all' in
    inr (
      latest,
      member,
      le,
      All-zip (λ i. Member i infos × (i.created_at ≤ since)) (λ i. i.created_at ≤ latest.created_at)
          (λ i. Member i infos × (i.created_at ≤ latest.created_at)) (without_last (k ∷ ks))
          (λ i (h, _) g. (h, g))
          (All-init (λ i. Member i infos × (i.created_at ≤ since)) (without_last (k ∷ ks))
            (latest ∷ []) all')
          older,
      All-of (λ i. i.created_at ≤ since → Member i (without_last (k ∷ ks)) ⊎ (i ≡ latest)) infos
          (λ i h l.
            Member-append i (without_last (k ∷ ks)) latest (subst (Member i) e (found i h l))),
    )

Retains-chronologically :
    (epoch since : ℕ) (infos : List RollingFileInfoWithSize)
    → All (λ i. epoch ≤ i.created_at) infos
    → Retains since infos
        (without_last (chronologically (some (inclusive_upper_bound epoch since)) infos))
unfolding chronologically
Retains-chronologically epoch since infos h =
    let selected = (select-keep epoch since infos h).0 in
    let kept = keep (λ i. leb i.created_at since) infos in
    subst (λ ks. Retains since infos (without_last (sort_by_created_at ks))) (sym selected)
      (Retains-without_last since infos (sort_by_created_at kept) (IsChronological-sort kept)
        (All-sort (λ i. Member i infos × (i.created_at ≤ since)) kept
          (All-kept (λ i. Member i infos × (i.created_at ≤ since)) (λ i. leb i.created_at since)
            infos
            (All-of (λ i. leb i.created_at since ≡ true → Member i infos × (i.created_at ≤ since))
              infos (λ i m y. (m, leb→le i.created_at since y)))))
        (λ i m l.
          Member-sort i kept
            (Member-keep i (λ k. leb k.created_at since) infos (ground (arith, l)) m)))

-- Where the writer can be flushed, the directory can be read, and every file can be removed, exactly
-- these files are removed: of those that were created at the given time or before it, all but the
-- latest, in whose records the given time may lie. No file that was created later is removed, and no
-- file at all if every file was created later. No file was created before the epoch.
pub retain-Retains :
    {W Row S R : Type 0} (csv : CsvWriter W Row S) (epoch since : ℕ)
    (s s' : FileRecordStorage W Row) (disk : Disk R) (infos : List RollingFileInfoWithSize)
    → flush_before_reading csv s ≡ (s', ok tt)
    → disk.files ≡ ok infos
    → ((path : List ℕ) → disk.remove_file path ≡ ok tt)
    → All (λ i. epoch ≤ i.created_at) infos
    → (old : List RollingFileInfoWithSize) × (retain_all_records_created_since csv epoch since s
          disk
        ≡ (s', record disk { removed = disk.removed ++ map (λ i. i.path) old }, ok tt))
      × Retains since infos old
unfolding retain_all_records_created_since retain_flushed files_chronologically remove_all_but_last
retain-Retains csv epoch since s s' disk infos flushes found removes h =
    let range = some (inclusive_upper_bound epoch since) in
    let old = without_last (chronologically range infos) in
    (
      old,
      ap (retain_flushed csv epoch since disk) flushes
          ∙ ap
              (λ files.
                let r = remove_all_but_last disk (files_chronologically range files) in
                (s', r.0, r.1))
              found
          ∙ ap (λ r. (s', r.0, r.1)) (removed_lem old disk removes),
      Retains-chronologically epoch since infos h,
    )
