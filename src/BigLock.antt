-- ===== src/BigLock.antt =====
-- The recursive lock around all file system operations, vfs_biglock of kern/vfs/vfslist.c, as the
-- thread at hand sees it: whether lock_do_i_hold says that it holds the lock, and the depth.
-- A call of lock_acquire that returns has waited for the other threads. A thread that already
-- holds the lock would wait for itself, so lock_acquire of kern/thread/synch.c never returns.
use project_os.Prelude.{
  ℕ, ◌+◌, ◌-◌, ◌%◌, ◌^◌, ◌<◌, ◌≡◌, Bool, true, false, arith, ltb, ◌==◌, if◌then◌else◌,
}
use project_os.Outcome.{Outcome, ok, panic, ◌>>=◌, ◌>>◌, kassert}

pub record BigLock : Type 0 where
  pub held : Bool
  pub depth : ℕ

-- lock_acquire, for a thread that holds the lock or not
lock_acquire : Bool → Outcome Bool
lock_acquire false = ok true
lock_acquire true = panic

-- vfs_biglock_depth++, behind the acquisition
abbrev deeper : ℕ → Bool → BigLock
deeper depth held = record { held = held; depth = (depth + 1) % 2 ^ 32 }

unfoldable pub vfs_biglock_acquire : BigLock → Outcome BigLock
unfolding lock_acquire
vfs_biglock_acquire l =
    let taken = lock_acquire l.held >>= λ h. ok (deeper l.depth h) in
    if l.held then (if l.depth == 0 then taken else ok (deeper l.depth l.held)) else taken

unfoldable pub vfs_biglock_release : BigLock → Outcome BigLock
vfs_biglock_release l = do
  kassert l.held
  kassert (ltb 0 l.depth)
  ok (record { held = if l.depth - 1 == 0 then false else true; depth = l.depth - 1 })

-- The depth counts the acquisitions that are not released yet.
pub record IsBalanced (l : BigLock) : Type 0 where
  pub counted : l.held ≡ ltb 0 l.depth
  pub small : l.depth + 1 < 2 ^ 32

pub acquire_held :
    (l : BigLock)
    → IsBalanced l
    → vfs_biglock_acquire l ≡ ok (record { held = true; depth = l.depth + 1 })
unfolding vfs_biglock_acquire
acquire_held l b = ground arith

-- A release undoes the acquisition before it, at every depth, so a function that acquires the big
-- lock may be called with the lock held or not.
pub release-acquire :
    (l : BigLock) → IsBalanced l → (vfs_biglock_acquire l >>= vfs_biglock_release) ≡ ok l
unfolding vfs_biglock_release
release-acquire l b = rw (acquire_held l b) (ground arith)
