-- ===== src/Lock.antt =====
-- The sleeping lock of kern/thread/synch.c, as steps of many threads. All code of lock_acquire and
-- lock_release between spinlock_acquire and spinlock_release, or the sleep in between, is one step.
-- wchan_sleep puts a thread at the end of the queue of the wait channel, and wchan_wakeone takes
-- the first one from it, which tests the lock again when it runs.
pub mod Correct
pub mod Tests
use project_os.Prelude.{
  ℕ, ◌≡◌, Bool, true, false, Option, none, some, List, [], ◌∷◌, ◌++◌, ◌==◌, if◌then◌else◌,
}
use project_os.Outcome.{Outcome, ok, panic, kassert, ◌>>◌}

-- Where a thread is: not in the lock's code, asleep on the wait channel, woken from it but not yet
-- running, or behind lock_acquire.
pub data Phase : Type 0 where
  outside asleep woken inside : Phase

-- lk_thread, the threads and the queue of lk_wchan
pub record Lock : Type 0 where
  pub holder : Option ℕ
  pub phase : ℕ → Phase
  pub queue : List ℕ

abbrev pub set_phase : ℕ → Phase → Lock → Lock
set_phase t p s = record s { phase = λ u. if t == u then p else s.phase u }

abbrev pub take_lock : Option ℕ → ℕ → Lock → Lock
take_lock none t s = record (set_phase t inside s) { holder = some t }
take_lock (some u) t s = record (set_phase t asleep s) { queue = s.queue ++ t ∷ [] }

-- From the test of the loop in lock_acquire to the end of it, or to the sleep.
unfoldable pub lock_try : ℕ → Lock → Lock
lock_try t s = take_lock s.holder t s

abbrev pub wchan_wakeone : List ℕ → Lock → Lock
wchan_wakeone [] s = s
wchan_wakeone (t ∷ rest) s = record (set_phase t woken s) { queue = rest }

abbrev pub holds : Option ℕ → ℕ → Bool
holds none t = false
holds (some u) t = u == t

-- lock_do_i_hold, in the thread `t`
abbrev pub lock_do_i_hold : ℕ → Lock → Bool
lock_do_i_hold t s = holds s.holder t

unfoldable pub lock_release : ℕ → Lock → Outcome Lock
lock_release t s =
    kassert (lock_do_i_hold t s)
    >> ok (wchan_wakeone s.queue (record (set_phase t outside s) { holder = none }))

-- A thread comes to lock_acquire, goes on after its sleep, or calls lock_release.
pub data Step (s : Lock) : Lock → Type 0 where
  arrives : (t : ℕ) → s.phase t ≡ outside → Step s (lock_try t s)
  resumes : (t : ℕ) → s.phase t ≡ woken → Step s (lock_try t s)
  leaves : (t : ℕ) (s' : Lock) → s.phase t ≡ inside → lock_release t s ≡ ok s' → Step s s'

-- What a new lock is, before any thread comes.
abbrev pub lock_create : Lock
lock_create = record { holder = none; phase = λ t. outside; queue = [] }

pub data Reachable : Lock → Type 0 where
  starts : Reachable lock_create
  steps : {s s' : Lock} → Reachable s → Step s s' → Reachable s'
