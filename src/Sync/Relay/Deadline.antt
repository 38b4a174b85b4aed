-- ===== src/Sync/Relay/Deadline.antt =====
-- `wait_until` and `wait_for` of crates/msr-core/src/sync/relay/mod.rs return, and leave the relay empty.
use msr.Prelude.{
  ℕ, ◌≡◌, inl, inr, Bool, true, ◌||◌, Option, none, some, List, [], ◌∷◌, arith, leb, Bool-cases,
  Option-cases, any,
}
use msr.Sync.Relay.{Relay, Turn, wait_until, new}

module _ {T : Type 0} where
  -- A turn after which `wait_until` does not go on waiting.
  abbrev pub ends : ℕ → Turn T → Bool
  ends deadline t = leb deadline t.now || t.timed_out

  -- Once the clock has reached the deadline or a wait has timed out, `wait_until` has returned, and
  -- the relay is empty.
  pub wait_until_returns :
      (deadline : ℕ) (ts : List (Turn T)) (r : Relay T)
      → any (ends deadline) ts ≡ true
      → (v : Option T) × (wait_until deadline ts r ≡ some (new, v))
  unfolding wait_until new
  wait_until_returns deadline [] r h = cc
  wait_until_returns deadline (t ∷ ts) r h = elim (Option-cases r.slot) [
    | inl empty ↦ elim (Bool-cases (leb deadline t.now)) [
      | inl late ↦ (none, ground arith)
      | inr early ↦ elim (Bool-cases t.timed_out) [
        | inl out ↦ (t.slot, ground arith)
        | inr woken ↦
            let (v, e) = wait_until_returns deadline ts (record { slot = t.slot }) (ground arith) in
            (v, ground arith)
      ]
    ]
    | inr (v, full) ↦ (some v, ground arith)
  ]
