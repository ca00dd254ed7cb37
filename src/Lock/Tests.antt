-- ===== src/Lock/Tests.antt =====
-- The theorems on the lock of kern/thread/synch.c at a run: thread 3 takes the lock, thread 4 goes
-- to sleep on it, and thread 3 releases it.
use project_os.Prelude.{ℕ, ◌≡◌, ◌≢◌, refl, none, some, [], ◌∷◌}
use project_os.Outcome.{panic}
use project_os.Lock.{
  outside, asleep, inside, Lock, set_phase, lock_try, wchan_wakeone, lock_release, Step, arrives,
  lock_create, Reachable, starts, steps,
}
use project_os.Lock.Correct.{mutual_exclusion}

abbrev three_holds : Lock
three_holds = record (set_phase 3 inside lock_create) { holder = some 3 }

abbrev contended : Lock
contended = record (set_phase 4 asleep three_holds) { queue = 4 ∷ [] }

abbrev handed_over : Lock
handed_over = wchan_wakeone (4 ∷ []) (record (set_phase 3 outside contended) { holder = none })

first-Step : Step lock_create three_holds
unfolding lock_try
first-Step = arrives 3 refl

second-Step : Step three_holds contended
unfolding lock_try
second-Step = arrives 4 refl

contended-Reachable : Reachable contended
contended-Reachable = steps (steps starts first-Step) second-Step

mutual_exclusion_example :
    ((u : ℕ) → contended.phase u ≡ inside → 3 ≡ u) × (lock_release 3 contended ≢ panic)
mutual_exclusion_example = mutual_exclusion contended 3 contended-Reachable refl
