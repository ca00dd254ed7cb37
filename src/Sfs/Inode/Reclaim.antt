-- ===== src/Sfs/Inode/Reclaim.antt =====
-- What sfs_reclaim of sfs_inode.c promises.
use project_os.Prelude.{
  if◌then◌else◌, ℕ, suc, ◌+◌, ◌-◌, ◌≤◌, ◌<◌, ◌≡◌, ◌≢◌, inl, inr, refl, sym, ◌∙◌, ap, subst, arith,
  true, false, ltb, ◌==◌, Bool-cases, List, [], ◌∷◌, length, get_or, set, get_or-set_self, zero,
}
use project_os.Outcome.{Outcome, ok, err, Errno, ebusy}
use project_os.Outcome.Exec.{continue, modify}
use project_os.Outcome.Ends
use project_os.Outcome.Ends.{Ends, returns, fails}
use project_os.BigLock.{IsBalanced, acquire_held}
use project_os.Sfs.{Answer, Fs}
use project_os.Sfs.Io.{IsPolite, with_answers, sfs_writeblock-Ends}
use project_os.Sfs.Balloc.{IsSound}
use project_os.Sfs.Trunc.Correct.{release_locked}
use project_os.Sfs.Inode.{
  Loaded, Mount, no_vnode, vnode_at, with_lock, released, removed, sync, sfs_sync_inode, dinode_of,
  block_of, reclaim_last, reclaim_body, sfs_reclaim,
}
use project_os.Sfs.Inode.Encoding.{IsDinode, dinode_of-block_of}

-- The state while the big lock is held.
abbrev pub locked : Mount → Mount
locked s = with_lock s (record { held = true; depth = s.fs.lock.depth + 1 })

module _ (s : Mount) (balanced : IsBalanced s.fs.lock) (i : ℕ) where
  abbrev v : Loaded
  v = vnode_at s i

  -- Another reference has appeared: sfs_reclaim gives up its own and returns EBUSY.
  pub sfs_reclaim_busy :
      2 ≤ v.refcount
      → sfs_reclaim i s
        ≡ (err ebusy, record s { vnodes = set s.vnodes i (record v { refcount = v.refcount - 1 }) })
  unfolding sfs_reclaim reclaim_body
  sfs_reclaim_busy more =
      let t : (v.refcount == 1) ≡ false = ground arith in
      let u : ltb 1 v.refcount ≡ true = ground arith in
      rw (acquire_held s.fs.lock balanced, t, u, release_locked s.fs.lock balanced)

-- A dirty inode is on the disk as it was in memory, one that is not has not been touched, and no
-- other block and no bit has changed.
pub record Written (fs : Fs) (v : Loaded) (fs' : Fs) : Type 0 where
  pub inode :
      dinode_of (fs'.disk v.sv.ino)
      ≡ (if v.sv.dirty then v.sv.inode else dinode_of (fs.disk v.sv.ino))
  pub others : (k : ℕ) → k ≢ v.sv.ino → fs'.disk k ≡ fs.disk k
  pub freemap : fs'.freemap ≡ fs.freemap
  pub lock : fs'.lock ≡ fs.lock

abbrev pub cleaned : Loaded → Loaded
cleaned v = record v { sv = record v.sv { dirty = false } }

pub sync_clean : (fs : Fs) (v : Loaded) → v.sv.dirty ≡ false → sfs_sync_inode v fs ≡ (ok v, fs)
unfolding sfs_sync_inode
sync_clean fs v c = simp c

sync_inode-Ends :
    (fs : Fs) (v : Loaded)
    → fs.lock.held ≡ true
    → IsPolite fs.answers
    → IsDinode v.sv.inode
    → Ends
        (λ v' fs'. (v' ≡ cleaned v) × Written fs v fs')
        (λ e fs'. (rest : List Answer) × (fs' ≡ with_answers fs rest))
        (sfs_sync_inode v fs)
unfolding sfs_sync_inode
sync_inode-Ends fs v held polite fits = elim (Bool-cases v.sv.dirty) [
  | inl d ↦ rw d (
      Ends.bind (sfs_writeblock-Ends v.sv.ino (block_of v.sv.inode v.block) fs held polite)
        (λ _ fs' (rest, _, _, e).
          let self : (v.sv.ino == v.sv.ino) ≡ true = ground arith in
          returns (
            refl,
            rw e (record {
              inode = rw self (dinode_of-block_of v.sv.inode v.block fits);
              others = λ k ne. let o : (v.sv.ino == k) ≡ false = ground arith in rw o;
              freemap = refl;
              lock = refl;
            }),
          ))
        (λ e fs' (rest, _, e'). (rest, e')))
  | inr c ↦
      subst
        (Ends (λ v' fs'. (v' ≡ cleaned v) × Written fs v fs')
          (λ e fs'. (rest : List Answer) × (fs' ≡ with_answers fs rest)))
        (sym (sync_clean fs v c))
        (returns (
          ap (λ u. record v { sv = record v.sv { dirty = u } }) c,
          record { inode = rw c; others = λ k ne. refl; freemap = refl; lock = refl },
        ))
]

pub removed-set : (vs : List Loaded) (i : ℕ) (v : Loaded) → removed (set vs i v) i ≡ removed vs i
removed-set [] i v = refl
removed-set (x ∷ vs) zero v = refl
removed-set (x ∷ vs) (suc i) v = ap (λ ws. x ∷ ws) (removed-set vs i v)

module _ (s : Mount) (balanced : IsBalanced s.fs.lock) (i : ℕ) (low : i < length s.vnodes)
    (sound : IsSound (locked s).fs) (one : (vnode_at s i).refcount ≡ 1)
    (linked : (vnode_at s i).sv.inode.linkcount ≢ 0) (fits : IsDinode (vnode_at s i).sv.inode) where
  abbrev last : Loaded
  last = vnode_at s i

  abbrev Failed : Errno → Mount → Type 0
  Failed e s' =
      (rest : List Answer) × (s' ≡ record (locked s) { fs = with_answers (locked s).fs rest })

  sync-Ends :
      Ends
        (λ _ s'. (s'.vnodes ≡ set s.vnodes i (cleaned last)) × Written (locked s).fs last s'.fs)
        Failed
        (sync i (locked s))
  sync-Ends =
      stored (sfs_sync_inode last (locked s).fs)
        (sync_inode-Ends (locked s).fs last refl sound.polite fits)
    where
      stored :
          (r : Outcome Loaded × Fs)
          → Ends
              (λ v' fs'. (v' ≡ cleaned last) × Written (locked s).fs last fs')
              (λ e fs'. (rest : List Answer) × (fs' ≡ with_answers (locked s).fs rest))
              r
          → Ends
              (λ _ s'.
                (s'.vnodes ≡ set s.vnodes i (cleaned last)) × Written (locked s).fs last s'.fs)
              Failed
              (continue r.0
                (λ v. modify (λ s. record s { vnodes = set s.vnodes i v }))
                (record (locked s) { fs = r.1 }))
      stored _ (returns (e, w)) = returns (ap (set s.vnodes i) e, w)
      stored _ (fails (rest, e)) = fails (rest, ap (λ fs. record (locked s) { fs = fs }) e)

  reclaim_last-Ends :
      Ends
        (λ _ s'. (s'.vnodes ≡ removed s.vnodes i) × Written (locked s).fs last s'.fs)
        Failed
        (reclaim_last i (locked s))
  unfolding reclaim_last
  reclaim_last-Ends =
      let l : (last.sv.inode.linkcount == 0) ≡ false = ground arith in
      rw l (
        Ends.bind
          {P = λ _ s'.
            (s'.vnodes ≡ set s.vnodes i (cleaned last)) × Written (locked s).fs last s'.fs}
          (Ends.bind sync-Ends
            (λ _ s2 (e, w).
              let at : vnode_at s2 i ≡ cleaned last =
                ap (λ vs. get_or vs i no_vnode) e
                ∙ get_or-set_self s.vnodes i (cleaned last) no_vnode low in
              rw (at, l) (returns (e, w)))
            (λ e s' f. f))
          (λ _ s3 (e, w).
            returns (ap (λ vs. removed vs i) e ∙ removed-set s.vnodes i (cleaned last), w))
          (λ e s' f. f))

  -- For the last reference to a vnode of the table whose file has links and whose inode's fields fit
  -- their widths, with a lock whose depth counts its acquisitions, a file system that is sound under
  -- it, and a device that answers no write with an I/O error, sfs_reclaim does not panic and leaves
  -- the lock as it found it. If it returns 0, the vnode is no longer in the table, a dirty inode is
  -- on the disk as it was in memory, one that is not dirty has not been touched, and no other block
  -- and no bit of the freemap has changed. If it returns an error, the vnode is still in the table
  -- and nothing has changed.
  pub sfs_reclaim-Ends :
      Ends
        (λ _ s'. (s'.vnodes ≡ removed s.vnodes i) × Written s.fs last s'.fs)
        (λ e s'. (rest : List Answer) × (s' ≡ record s { fs = with_answers s.fs rest }))
        (sfs_reclaim i s)
  unfolding sfs_reclaim reclaim_body
  sfs_reclaim-Ends =
      let t : (last.refcount == 1) ≡ true = ground arith in
      rw (acquire_held s.fs.lock balanced, t) (unlock (reclaim_last i (locked s)) reclaim_last-Ends)
    where
      unlock :
          (r : Outcome (Unit {0}) × Mount)
          → Ends
              (λ _ s'. (s'.vnodes ≡ removed s.vnodes i) × Written (locked s).fs last s'.fs)
              Failed
              r
          → Ends
              (λ _ s'. (s'.vnodes ≡ removed s.vnodes i) × Written s.fs last s'.fs)
              (λ e s'. (rest : List Answer) × (s' ≡ record s { fs = with_answers s.fs rest }))
              (released r.0 r.1)
      unlock _ (returns {s = s'} (e, w)) =
          rw (w.lock, release_locked s.fs.lock balanced)
            (returns
              (e, record { inode = w.inode; others = w.others; freemap = w.freemap; lock = refl }))
      unlock _ (fails (rest, e)) = rw (e, release_locked s.fs.lock balanced) (fails (rest, refl))
