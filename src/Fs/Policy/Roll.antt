-- ===== src/Fs/Policy/Roll.antt =====
-- When a file of crates/msr-core/src/fs/policy/mod.rs is rolled.
use msr.Prelude.{
  ℕ, ◌≤◌, ◌≡◌, refl, ◌↔◌, ◌⊎◌, inl, inr, Bool, true, false, Option, none, some, arith, leb,
  if◌then◌else◌,
}
use msr.Time.{Interval, system_time_after}
use msr.Fs.Policy.{RollingFileLimits, RollingFileStatus, reached, rollover, should_roll}

-- A limit that is set, and reached by a number that is known.
abbrev pub Reached : Option ℕ → Option ℕ → Type 0
Reached (some written) (some max) = max ≤ written
Reached _ _ = ⊥

-- The next rollover is not in the future.
abbrev pub Due : ℕ → Option Interval → ℕ → ℕ → Type 0
Due last none created_at now = ⊥
Due last (some interval) created_at now =
    (t : ℕ) × (system_time_after last interval created_at ≡ some t) × (t ≤ now)

reached_iff : (written max : Option ℕ) → (reached written max ≡ true) ↔ Reached written max
unfolding reached
reached_iff (some w) (some m) = (λ h. ground arith, λ h. ground arith)
reached_iff none m = (λ h. cc, λ h. absurd h)
reached_iff (some w) none = (λ h. cc, λ h. absurd h)

due_lem :
    (next : Option ℕ) (now : ℕ)
    → (elim next [ none ↦ none | some t ↦ some (leb t now) ] ≡ some true)
      ↔ ((t : ℕ) × (next ≡ some t) × (t ≤ now))
due_lem none now = (λ h. cc, λ (t, e, h). cc)
due_lem (some t) now = (λ h. (t, refl, ground arith), λ (u, e, h). ground arith)

rollover_iff :
    (last : ℕ) (interval : Option Interval) (created_at now : ℕ)
    → (rollover last interval created_at now ≡ some true) ↔ Due last interval created_at now
unfolding rollover
rollover_iff last none created_at now = (λ h. cc, λ h. absurd h)
rollover_iff last (some interval) created_at now =
    due_lem (system_time_after last interval created_at) now

first_true :
    (a b c : Bool) (o : Option Bool)
    → ((if a then some true else if b then some true else if c then some true else o) ≡ some true)
      ↔ ((a ≡ true) ⊎ (b ≡ true) ⊎ (c ≡ true) ⊎ (o ≡ some true))
first_true true b c o = (λ h. inl refl, λ h. refl)
first_true false true c o = (λ h. inr (inl refl), λ h. refl)
first_true false false true o = (λ h. inr (inr (inl refl)), λ h. refl)
first_true false false false o = (λ h. inr (inr (inr h)), λ h. last_of h)
  where
    last_of : (false ≡ true) ⊎ (false ≡ true) ⊎ (false ≡ true) ⊎ (o ≡ some true) → o ≡ some true
    last_of (inr (inr (inr h))) = h
    last_of (inr (inr (inl h))) = cc
    last_of (inr (inl h)) = cc
    last_of (inl h) = cc

sum4 :
    {A A' B B' C C' D D' : Type 0}
    → (A → A')
    → (B → B')
    → (C → C')
    → (D → D')
    → A ⊎ B ⊎ C ⊎ D
    → A' ⊎ B' ⊎ C' ⊎ D'
sum4 a b c d (inl x) = inl (a x)
sum4 a b c d (inr (inl x)) = inr (inl (b x))
sum4 a b c d (inr (inr (inl x))) = inr (inr (inl (c x)))
sum4 a b c d (inr (inr (inr x))) = inr (inr (inr (d x)))

each_iff :
    {A A' B B' C C' D D' : Type 0}
    → (A ↔ A')
    → (B ↔ B')
    → (C ↔ C')
    → (D ↔ D')
    → (A ⊎ B ⊎ C ⊎ D) ↔ (A' ⊎ B' ⊎ C' ⊎ D')
each_iff a b c d = (sum4 a.0 b.0 c.0 d.0, sum4 a.1 b.1 c.1 d.1)

-- A file is rolled exactly if one of its limits is set and reached: the bytes, the records, the
-- offset in time, or its interval; limits on what is not counted do not count.
pub should_roll_iff :
    (last : ℕ) (s : RollingFileStatus) (now offset : ℕ) (limits : RollingFileLimits)
    → (should_roll last s now offset limits ≡ some true) ↔ (
        Reached s.bytes_written limits.max_bytes_written
        ⊎ Reached s.records_written limits.max_records_written
        ⊎ Reached (some offset) limits.max_nanoseconds_offset
        ⊎ Due last limits.interval s.created_at now)
unfolding should_roll
should_roll_iff last s now offset limits =
    let first =
      first_true (reached s.bytes_written limits.max_bytes_written)
        (reached s.records_written limits.max_records_written)
        (reached (some offset) limits.max_nanoseconds_offset)
        (rollover last limits.interval s.created_at now) in
    let each =
      each_iff (reached_iff s.bytes_written limits.max_bytes_written)
        (reached_iff s.records_written limits.max_records_written)
        (reached_iff (some offset) limits.max_nanoseconds_offset)
        (rollover_iff last limits.interval s.created_at now) in
    (λ h. each.0 (first.0 h), λ h. first.1 (each.1 h))
