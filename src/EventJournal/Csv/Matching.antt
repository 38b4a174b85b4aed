-- ===== src/EventJournal/Csv/Matching.antt =====
-- What the entries of records have that a filter of crates/msr-core/src/event_journal/csv.rs lets
-- through.
use mathlib.Core.Path.{subst}
use msr.Prelude.{
  ℕ, ◌≤◌, String, ◌≡◌, refl, ◌∙◌, ◌⊎◌, inl, inr, Bool, true, false, ◌&&◌, ◌||◌, Option, none, some,
  List, [], ◌∷◌, arith, str_eq, eq_iff, Bool-cases, any, ℤ, eqb_ℤ, eqb_ℤ_iff,
}
use msr.EventJournal.{Severity, severity_value, StoredRecord}
use msr.EventJournal.Csv.{RecordFilter, severe_enough, one_of_codes, one_of_scopes, matches}

unfoldable pub Occurs : {A : Type 0} → A → List A → Type 0
Occurs x [] = ⊥
Occurs x (y ∷ ys) = (y ≡ x) ⊎ Occurs x ys

-- A record that a filter lets through, by its entry
unfoldable pub HasEntry : {Stamp : Type 0} → RecordFilter → StoredRecord Stamp → Type 0
unfolding severity_value Occurs
HasEntry filter r =
    ((severity : Severity)
      → filter.min_severity ≡ some severity
      → severity_value severity ≤ severity_value r.entry.severity)
    × ((codes : List ℤ) → filter.any_codes ≡ some codes → Occurs r.entry.code codes)
    × ((scopes : List String) → filter.any_scopes ≡ some scopes → Occurs r.entry.scope scopes)

-- The same, by its time stamp
unfoldable pub IsUntil : {Stamp : Type 0} → RecordFilter → StoredRecord Stamp → Type 0
IsUntil filter r = (until : ℕ) → filter.prelude.until_created_at ≡ some until → r.created_at ≤ until

any-Occurs :
    {A : Type 0} (p : A → Bool) (x : A)
    → ((y : A) → p y ≡ true → y ≡ x)
    → (ys : List A) → any p ys ≡ true
    → Occurs x ys
unfolding Occurs
any-Occurs p x h [] e = cc
any-Occurs p x h (y ∷ ys) e = elim (Bool-cases (p y)) [
  | inl t ↦ inl (h y t)
  | inr f ↦
      inr (any-Occurs p x h ys (let step : any p ys ≡ (p y || any p ys) = rw f refl in step ∙ e))
]

three : (a b c : Bool) → a && b && c ≡ true → (a ≡ true) × (b ≡ true) × (c ≡ true)
three true true c h = (refl, refl, h)
three true false c h = cc
three false b c h = cc

severe_lem :
    (o : Option Severity) (s severity : Severity)
    → severe_enough o s ≡ true
    → o ≡ some severity
    → severity_value severity ≤ severity_value s
unfolding severe_enough
severe_lem none s severity h e = cc
severe_lem (some m) s severity h e =
    let same : m ≡ severity = cc in
    subst (λ x. severity_value x ≤ severity_value s) same (ground (arith, h))

codes_lem :
    (o : Option (List ℤ)) (code : ℤ) (codes : List ℤ)
    → one_of_codes o code ≡ true
    → o ≡ some codes
    → Occurs code codes
unfolding one_of_codes
codes_lem none code codes h e = cc
codes_lem (some cs) code codes h e =
    let same : cs ≡ codes = cc in
    subst (Occurs code) same
      (any-Occurs (λ c. eqb_ℤ c code) code (λ c t. (eqb_ℤ_iff c code).0 t) cs h)

scopes_lem :
    (o : Option (List String)) (scope : String) (scopes : List String)
    → one_of_scopes o scope ≡ true
    → o ≡ some scopes
    → Occurs scope scopes
unfolding one_of_scopes
scopes_lem none scope scopes h e = cc
scopes_lem (some ss) scope scopes h e =
    let same : ss ≡ scopes = cc in
    subst (Occurs scope) same
      (any-Occurs (λ s. str_eq s scope) scope (λ s t. (eq_iff s scope).0 t) ss h)

pub matches-HasEntry :
    {Stamp : Type 0} (filter : RecordFilter) (r : StoredRecord Stamp)
    → matches filter r ≡ true
    → HasEntry filter r
unfolding matches HasEntry
matches-HasEntry filter r h =
    let (a, b, c) =
      three (severe_enough filter.min_severity r.entry.severity)
        (one_of_codes filter.any_codes r.entry.code) (one_of_scopes filter.any_scopes r.entry.scope)
        h in
    (
      λ severity e. severe_lem filter.min_severity r.entry.severity severity a e,
      λ codes e. codes_lem filter.any_codes r.entry.code codes b e,
      λ scopes e. scopes_lem filter.any_scopes r.entry.scope scopes c e,
    )
