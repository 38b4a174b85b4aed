-- ===== src/Realtime/Thread/Places.antt =====
-- The states of a worker's thread in crates/msr-core/src/realtime/worker/thread/mod.rs, by the place
-- where the thread stands.
use msr.Prelude.{◌≡◌, refl, Bool, true, false, Option, none, some, List, [], ◌∷◌, ok, err}
use msr.Realtime.Thread.{
  State, initial, starting, running, suspending, finishing, terminating, Stage, ended,
  store_starting, start_working, enter_scope, store_running, perform_work, try_suspending,
  store_suspending, look, blocked, try_finishing, store_finishing, finish_working,
  store_terminating, panicked,
}
use msr.Realtime.Thread.Steps.{Each}

-- The last stored state.
abbrev pub latest : List State → State
latest [] = initial
latest (s ∷ _) = s

-- Which state may be stored after which.
abbrev pub follows : State → State → Bool
follows initial starting = true
follows starting running = true
follows running suspending = true
follows suspending running = true
follows running finishing = true
follows finishing terminating = true
follows _ _ = false

abbrev pub IsLifecycle : List State → Type 0
IsLifecycle [] = Unit
IsLifecycle (s ∷ rest) = (follows (latest rest) s ≡ true) × IsLifecycle rest

-- Where the thread stands in each state.
abbrev pub stands : {X : Type 0} → Stage X → State → Bool
stands store_starting initial = true
stands start_working starting = true
stands enter_scope starting = true
stands store_running starting = true
stands store_running suspending = true
stands perform_work running = true
stands try_suspending running = true
stands store_suspending running = true
stands look suspending = true
stands blocked suspending = true
stands try_finishing running = true
stands store_finishing running = true
stands finish_working finishing = true
stands store_terminating finishing = true
stands (ended (ok _)) terminating = true
stands (ended (err _)) starting = true
stands (ended (err _)) running = true
stands (ended (err _)) finishing = true
stands panicked running = true
stands panicked suspending = true
stands _ _ = false

-- The state that a stage stands in, if it stands in one only.
abbrev pub only : {X : Type 0} → Stage X → State → State
only start_working q = starting
only enter_scope q = starting
only perform_work q = running
only try_suspending q = running
only look q = suspending
only blocked q = suspending
only try_finishing q = running
only finish_working q = finishing
only _ q = q

-- The state that a stage stores.
abbrev pub storing : {X : Type 0} → Stage X → Option State
storing store_starting = some starting
storing store_running = some running
storing store_suspending = some suspending
storing store_finishing = some finishing
storing store_terminating = some terminating
storing _ = none

module _ {X : Type 0} where
  pub only_lem : (st : Stage X) (q : State) → stands st q ≡ true → q ≡ only st q
  only_lem start_working starting h = refl
  only_lem start_working _ h = cc
  only_lem enter_scope starting h = refl
  only_lem enter_scope _ h = cc
  only_lem perform_work running h = refl
  only_lem perform_work _ h = cc
  only_lem try_suspending running h = refl
  only_lem try_suspending _ h = cc
  only_lem look suspending h = refl
  only_lem look _ h = cc
  only_lem blocked suspending h = refl
  only_lem blocked _ h = cc
  only_lem try_finishing running h = refl
  only_lem try_finishing _ h = cc
  only_lem finish_working finishing h = refl
  only_lem finish_working _ h = cc
  only_lem _ q h = refl

  pub storing_lem :
      (st : Stage X) (q : State) → stands st q ≡ true → Each (λ s. follows q s ≡ true) (storing st)
  storing_lem store_starting initial h = refl
  storing_lem store_starting _ h = cc
  storing_lem store_running starting h = refl
  storing_lem store_running suspending h = refl
  storing_lem store_running _ h = cc
  storing_lem store_suspending running h = refl
  storing_lem store_suspending _ h = cc
  storing_lem store_finishing running h = refl
  storing_lem store_finishing _ h = cc
  storing_lem store_terminating finishing h = refl
  storing_lem store_terminating _ h = cc
  storing_lem _ q h = tt
