-- ===== src/Realtime/Progress/Laws.antt =====
-- The encoding of progress hints in crates/msr-core/src/realtime/worker/progress/mod.rs.
use msr.Prelude.{ℕ, ◌<◌, ◌≡◌, refl, ◌↔◌, none, some, arith}
use msr.Realtime.Progress.{
  ProgressHint, continue, suspend, finish, progress_hint_to_atomic_state,
  progress_hint_from_atomic_state,
}

from-to :
    (hint : ProgressHint)
    → progress_hint_from_atomic_state (progress_hint_to_atomic_state hint) ≡ some hint
unfolding progress_hint_from_atomic_state progress_hint_to_atomic_state
from-to continue = refl
from-to suspend = refl
from-to finish = refl

-- Every hint is restored from its code, a code that is restored is that of its hint, and the codes
-- that are not restored, at which the source panics, are those above 2.
hint_codes :
    (hint : ProgressHint) (value : ℕ)
    → (progress_hint_from_atomic_state (progress_hint_to_atomic_state hint) ≡ some hint)
      × (progress_hint_from_atomic_state value ≡ some hint
          → progress_hint_to_atomic_state hint ≡ value)
      × ((progress_hint_from_atomic_state value ≡ none) ↔ (2 < value))
unfolding progress_hint_from_atomic_state progress_hint_to_atomic_state
hint_codes hint value = (from-to hint, ground arith, ground arith)
