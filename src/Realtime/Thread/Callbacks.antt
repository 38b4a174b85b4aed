-- ===== src/Realtime/Thread/Callbacks.antt =====
-- What the worker's thread calls the worker for, and when it leaves the scheduling scope
-- (crates/msr-core/src/realtime/worker/thread/mod.rs).
use mathlib.Core.Path.{subst}
use msr.Prelude.{
  ℕ, zero, suc, ◌≡◌, refl, ap, ◌⊎◌, inl, inr, Bool, true, false, Option, none, some, List, [], ◌∷◌,
  Result, ok, err,
}
use msr.Realtime.Progress.{ProgressHint}
use msr.Realtime.Handover.{ProgressHintHandover}
use msr.Realtime.Thread.{
  CompletionStatus, ThreadScheduling, default, realtime, realtime_or_default, Worker, Stage, ended,
  store_starting, start_working, enter_scope, store_running, perform_work, try_suspending,
  store_suspending, look, blocked, try_finishing, store_finishing, finish_working,
  store_terminating, panicked, Thread, Call, start, perform, finish, store_state, returns, proceed,
  schedule, after_work, panics, after_try_suspending, after_try_finishing, after_look, after_wait,
  advance, spawn,
}
use msr.Realtime.Thread.Steps.{Each, Reach, Reach-inv}

-- The calls up to a number of calls of `perform_work`, the last first.
abbrev pub performs : ℕ → List Call
performs zero = start ∷ []
performs (suc n) = perform ∷ performs n

abbrev pub Called : {X : Type 0} → Stage X → List Call → Type 0
Called store_starting cs = cs ≡ []
Called start_working cs = cs ≡ []
Called enter_scope cs = cs ≡ performs 0
Called store_running cs = (n : ℕ) × (cs ≡ performs n)
Called perform_work cs = (n : ℕ) × (cs ≡ performs n)
Called store_terminating cs = (n : ℕ) × (cs ≡ finish ∷ performs (suc n))
Called (ended (ok _)) cs = (n : ℕ) × (cs ≡ finish ∷ performs (suc n))
Called (ended (err _)) cs = (n : ℕ) × ((cs ≡ performs n) ⊎ (cs ≡ finish ∷ performs (suc n)))
Called _ cs = (n : ℕ) × (cs ≡ performs (suc n))

-- Where the thread is not in a scheduling scope.
abbrev pub Scoped : {X : Type 0} → Stage X → Bool → Type 0
Scoped store_starting b = b ≡ false
Scoped start_working b = b ≡ false
Scoped enter_scope b = b ≡ false
Scoped store_finishing b = b ≡ false
Scoped finish_working b = b ≡ false
Scoped store_terminating b = b ≡ false
Scoped (ended _) b = b ≡ false
Scoped panicked b = b ≡ false
Scoped _ b = Unit

module _ {W E X : Type 0} (w : Worker W E X) (scheduling : ThreadScheduling)
    (entered : Result (Unit {0}) X) where
  abbrev Ruled : Stage X → Thread W E X → Type 0
  Ruled st t = Called st t.calls × Scoped st t.in_scope

  proceed-Ruled :
      (r : Result (Unit {0}) X) (next : Stage X) (t : Thread W E X)
      → Ruled next t
      → ((e : X) → Called (ended (err e)) t.calls)
      → Ruled (proceed r next t).stage (proceed r next t)
  unfolding proceed returns
  proceed-Ruled (ok _) next t good bad = good
  proceed-Ruled (err e) next t good bad = (bad e, refl)

  schedule-Ruled :
      (k : ThreadScheduling) (r : Result (Unit {0}) X) (t : Thread W E X)
      → t.calls ≡ performs 0
      → Ruled (schedule k r t).stage (schedule k r t)
  unfolding schedule returns
  schedule-Ruled default r t c = ((0, c), tt)
  schedule-Ruled realtime (ok _) t c = ((0, c), tt)
  schedule-Ruled realtime (err e) t c = ((0, inl c), refl)
  schedule-Ruled realtime_or_default r t c = ((0, c), tt)

  work-Ruled :
      (r : Result CompletionStatus X) (n : ℕ) (t : Thread W E X)
      → t.calls ≡ performs (suc n)
      → Ruled (after_work r t).stage (after_work r t)
  unfolding after_work returns
  work-Ruled (ok CompletionStatus.suspending) n t c = ((n, c), tt)
  work-Ruled (ok CompletionStatus.finishing) n t c = ((n, c), tt)
  work-Ruled (err e) n t c = ((suc n, inl c), refl)

  try-Ruled :
      (r : Option (ProgressHintHandover × Bool)) (n : ℕ) (t : Thread W E X)
      → t.calls ≡ performs (suc n)
      → Ruled (after_try_suspending r t).stage (after_try_suspending r t)
        × Ruled (after_try_finishing r t).stage (after_try_finishing r t)
  unfolding after_try_suspending after_try_finishing panics
  try-Ruled none n t c = (((n, c), refl), ((n, c), refl))
  try-Ruled (some (h, true)) n t c = (((n, c), tt), ((n, c), refl))
  try-Ruled (some (h, false)) n t c = (((suc n, c), tt), ((suc n, c), tt))

  look-Ruled :
      (hint : Option ProgressHint) (n : ℕ) (t : Thread W E X)
      → t.calls ≡ performs (suc n)
      → Ruled (after_look hint t).stage (after_look hint t)
  unfolding after_look panics
  look-Ruled none n t c = ((n, c), refl)
  look-Ruled (some ProgressHint.suspend) n t c = ((n, c), tt)
  look-Ruled (some ProgressHint.continue) n t c = ((suc n, c), tt)
  look-Ruled (some ProgressHint.finish) n t c = ((suc n, c), tt)

  wait-Ruled :
      (slot : Option (Unit {0})) (n : ℕ) (t : Thread W E X)
      → t.calls ≡ performs (suc n)
      → Each (λ u. Ruled u.stage u) (after_wait slot t)
  unfolding after_wait
  wait-Ruled none n t c = tt
  wait-Ruled (some _) n t c = ((n, c), tt)

  advance-Ruled :
      (st : Stage X) (t : Thread W E X)
      → Ruled st t
      → Each (λ u. Ruled u.stage u) (advance w scheduling entered st t)
  unfolding advance store_state returns
  advance-Ruled store_starting t (c, b) = (c, b)
  advance-Ruled start_working t (c, b) =
      let called = ap (λ cs. start ∷ cs) c in
      proceed-Ruled _ enter_scope _ (called, b) (λ e. (0, inl called))
  advance-Ruled enter_scope t (c, b) = schedule-Ruled scheduling entered t c
  advance-Ruled store_running t (c, b) = (c, tt)
  advance-Ruled perform_work t ((n, c), b) = work-Ruled _ n _ (ap (λ cs. perform ∷ cs) c)
  advance-Ruled try_suspending t ((n, c), b) = (try-Ruled _ n t c).0
  advance-Ruled store_suspending t (c, b) = (c, tt)
  advance-Ruled look t ((n, c), b) = look-Ruled _ n t c
  advance-Ruled blocked t ((n, c), b) = wait-Ruled _ n t c
  advance-Ruled try_finishing t ((n, c), b) = (try-Ruled _ n t c).1
  advance-Ruled store_finishing t (c, b) = (c, b)
  advance-Ruled finish_working t ((n, c), b) =
      let called = ap (λ cs. finish ∷ cs) c in
      proceed-Ruled _ store_terminating _ ((n, called), b) (λ e. (n, inr called))
  advance-Ruled store_terminating t (c, b) = (c, refl)
  advance-Ruled (ended r) t h = tt
  advance-Ruled panicked t h = tt

  Reach-Ruled :
      (worker : W) (environment : E) (handover : ProgressHintHandover) {t : Thread W E X} {n : ℕ}
      → Reach w scheduling entered (spawn worker environment handover) t n
      → Ruled t.stage t
  unfolding spawn
  Reach-Ruled worker environment handover r =
      Reach-inv w scheduling entered (λ st t n. Ruled st t) (λ st t n h. advance-Ruled st t h)
        (λ op r t n e h. h) (λ t k h. h) r (λ n. (refl, refl))

  -- A thread function that has returned has called `start_working` once and first, then `perform_work`,
  -- and `finish_working` at most once, last, and not before `perform_work`, exactly once if it has
  -- succeeded; it has left the scheduling scope.
  pub ended-Called :
      (worker : W) (environment : E) (handover : ProgressHintHandover) {t : Thread W E X} {n : ℕ}
      (r : Result (Unit {0}) X)
      → Reach w scheduling entered (spawn worker environment handover) t n
      → t.stage ≡ ended r
      → Called (ended r) t.calls × (t.in_scope ≡ false)
  ended-Called worker environment handover {t} r reach e =
      subst (λ st. Ruled st t) e (Reach-Ruled worker environment handover reach)
