-- ===== src/Semaphore/Tests.antt =====
-- The theorems on the semaphore of kern/thread/synch.c at a run: of a semaphore that begins with 1,
-- thread 3 returns from P, threads 4 and 5 go to sleep in it, and V wakes thread 4.
use project_os.Prelude.{◌+◌, ◌-◌, ◌^◌, ◌≤◌, ◌≡◌, ◌↔◌, refl, arith, true, false, [], ◌∷◌, length}
use project_os.Outcome.{panic}
use project_os.Semaphore.{Semaphore, sem_create, p_test, sem_p, sem_v, Run, starts, arrives, gives}
use project_os.Semaphore.Correct.{sem_p_bound, sleepers_covered, sem_v_passes}

abbrev taken : Semaphore
taken = record { count = 0; sleepers = []; woken = [] }

abbrev waiting : Semaphore
waiting = record { count = 0; sleepers = 4 ∷ 5 ∷ []; woken = [] }

abbrev given : Semaphore
given = record { count = 1; sleepers = 5 ∷ []; woken = 4 ∷ [] }

given-Run : Run 1 1 1 given
unfolding sem_p p_test sem_v
given-Run =
    gives {s = waiting} given
      (arrives {s = record taken { sleepers = 4 ∷ [] }} false 5 false waiting
        (arrives {s = taken} false 4 false (record taken { sleepers = 4 ∷ [] })
          (arrives {s = sem_create 1} false 3 true taken starts refl) refl)
        refl)
      refl

sem_p_bound_example : (1 + given.count ≡ 1 + 1) × (◌≤◌ 1 (1 + 1))
sem_p_bound_example = sem_p_bound 1 1 1 given (omega arith) given-Run

sleepers_covered_example : given.count ≤ length given.woken
sleepers_covered_example = sleepers_covered 1 1 1 given (omega arith) given-Run (λ e. cc)

sem_v_passes_example : (sem_v given ≡ panic) ↔ (given.count ≡ 2 ^ 32 - 1)
sem_v_passes_example = sem_v_passes 1 1 1 given (omega arith) given-Run
