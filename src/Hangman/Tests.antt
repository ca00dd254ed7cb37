-- ===== src/Hangman/Tests.antt =====
-- The deadlock detector at two actors and two lockables: actor 1 holds lockable 10 and actor 2
-- lockable 20, and actor 1 waits for lockable 20.
use project_os.Prelude.{ℕ, ◌≤◌, ◌≡◌, ◌⊎◌, refl, arith, some, none}
use project_os.Hangman.{
  Graph, done, deadlock, update, check_loop, hangman_check, hangman_wait, hangman_acquire, empty,
  Reachable, starts, waits, acquires,
}
use project_os.Hangman.Walk.{Meets, NoCycle}
use project_os.Hangman.Correct.{waited, hangman_wait_lem}

abbrev taken : Graph → (a l : ℕ) → Graph
taken g a l = record { waiting = update g.waiting a none; holding = update g.holding l (some a) }

abbrev one_holds : Graph
one_holds = taken (waited (empty 0) 1 10) 1 10

abbrev both_hold : Graph
both_hold = taken (waited one_holds 2 20) 2 20

abbrev one_waits : Graph
one_waits = waited both_hold 1 20

one_waits-Reachable : Reachable 0 one_waits
unfolding hangman_wait hangman_acquire hangman_check check_loop
one_waits-Reachable =
    waits {g = both_hold} 5 1 20 one_waits
      (acquires {g = waited one_holds 2 20} 2 20 both_hold
        (waits {g = one_holds} 5 2 20 (waited one_holds 2 20)
          (acquires {g = waited (empty 0) 1 10} 1 10 one_holds
            (waits {g = empty 0} 5 1 10 (waited (empty 0) 1 10) starts refl) refl)
          refl)
        refl)
      refl

hangman_wait_lem_example :
    (k : ℕ) × ((fuel : ℕ)
      → k ≤ fuel
      → ((hangman_wait 0 fuel 2 10 one_waits ≡ deadlock) × Meets one_waits 2 (one_waits.holding 10))
        ⊎ ((hangman_wait 0 fuel 2 10 one_waits ≡ done (waited one_waits 2 10))
            × (Meets one_waits 2 (one_waits.holding 10) → ⊥)
            × NoCycle (waited one_waits 2 10)))
hangman_wait_lem_example = hangman_wait_lem 0 one_waits 2 10 one_waits-Reachable refl (omega arith)

-- The wait of actor 2 for lockable 10 is the deadlock.
cycle_found : hangman_wait 0 5 2 10 one_waits ≡ deadlock
unfolding hangman_wait hangman_check check_loop
cycle_found = refl
