-- ===== src/Semaphore.antt =====
-- The semaphore of kern/thread/synch.c, as steps of many threads. All code of P between
-- spinlock_acquire and spinlock_release, or the sleep in between, is one step, and so is all of V.
-- wchan_sleep puts a thread at the end of the queue of the wait channel, and wchan_wakeone takes
-- the first one from it, which tests the count again when it runs.
pub mod Correct
pub mod Tests
use project_os.Prelude.{
  ℕ, suc, ◌+◌, ◌-◌, ◌%◌, ◌^◌, ◌≡◌, Bool, true, false, not, List, [], ◌∷◌, ◌++◌, ltb, ◌==◌,
  if◌then◌else◌,
}
use project_os.Outcome.{Outcome, ok, kassert, ◌>>◌}

-- sem_count, the queue of sem_wchan, and the threads that have been woken from it and have not run
-- since.
pub record Semaphore : Type 0 where
  pub count : ℕ
  pub sleepers : List ℕ
  pub woken : List ℕ

-- sem_create, where memory is found
abbrev pub sem_create : ℕ → Semaphore
sem_create initial = record { count = initial; sleepers = []; woken = [] }

-- From the test of the loop in P to the end of P, or to the sleep; true if P returns.
unfoldable pub p_test : ℕ → Semaphore → Bool × Semaphore
p_test t s =
    if s.count == 0
    then (false, record s { sleepers = s.sleepers ++ t ∷ [] })
    else (true, record s { count = s.count - 1 })

-- P up to its first test, in the thread `t`.
unfoldable pub sem_p : (in_interrupt : Bool) → ℕ → Semaphore → Outcome (Bool × Semaphore)
sem_p in_interrupt t s = kassert (not in_interrupt) >> ok (p_test t s)

abbrev pub wake_first : List ℕ → Semaphore → Semaphore
wake_first [] s = s
wake_first (t ∷ rest) s = record s { sleepers = rest; woken = t ∷ s.woken }

unfoldable pub sem_v : Semaphore → Outcome Semaphore
sem_v s =
    let count = (s.count + 1) % 2 ^ 32 in
    kassert (ltb 0 count) >> ok (wake_first s.sleepers (record s { count = count }))

-- What has happened to a semaphore that began with `initial`: P has returned `ps` times, and V `vs`
-- times.
pub data Run (initial : ℕ) : (ps vs : ℕ) → Semaphore → Type 0 where
  starts : Run initial 0 0 (sem_create initial)
  arrives :
      {ps vs : ℕ} {s : Semaphore} (in_interrupt : Bool) (t : ℕ) (b : Bool) (s' : Semaphore)
      → Run initial ps vs s
      → sem_p in_interrupt t s ≡ ok (b, s')
      → Run initial (if b then suc ps else ps) vs s'
  resumes :
      {ps vs : ℕ} {s : Semaphore} (us : List ℕ) (t : ℕ) (ws : List ℕ)
      → Run initial ps vs s
      → s.woken ≡ us ++ t ∷ ws
      → Run initial
          (if (p_test t (record s { woken = us ++ ws })).0 then suc ps else ps)
          vs
          (p_test t (record s { woken = us ++ ws })).1
  gives :
      {ps vs : ℕ} {s : Semaphore} (s' : Semaphore)
      → Run initial ps vs s
      → sem_v s ≡ ok s'
      → Run initial ps (suc vs) s'
