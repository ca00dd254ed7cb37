-- ===== src/Sfs/Inode/Erase.antt =====
-- What sfs_reclaim of sfs_inode.c promises for a file without links: the file is erased.
use project_os.Prelude.{
  ℕ, ◌+◌, ◌^◌, ◌<◌, ◌≡◌, ◌≢◌, inl, inr, refl, sym, ◌∙◌, ap, subst, arith, true, false, ◌==◌,
  Bool-cases, length, set, get_or, get_or-set_self, set-set,
}
use project_os.Outcome.{Outcome}
use project_os.Outcome.Exec.{continue, modify}
use project_os.Outcome.Ends
use project_os.Outcome.Ends.{Ends, returns, fails}
use project_os.Bitmap.{bitmap_isset}
use project_os.BigLock.{BigLock, IsBalanced, acquire_held}
use project_os.Sfs.{Fs, File}
use project_os.Sfs.Io.{sfs_writeblock-Ends}
use project_os.Sfs.Balloc.{IsSound, Freed, sfs_bfree, sfs_bfree-Ends}
use project_os.Sfs.Bmap.View.{max_blocks, entry, IsFile}
use project_os.Sfs.Trunc.{sfs_itrunc, block_length, with_size}
use project_os.Sfs.Trunc as Trunc
use project_os.Sfs.Trunc.Cut.{gone, Cut, HalfCut}
use project_os.Sfs.Trunc.Correct.{release_locked, sfs_itrunc-Ends}
use project_os.Sfs.Trunc.Correct as TruncCorrect
use project_os.Sfs.Inode.Load.{answered-IsSound}
use project_os.Sfs.Inode.{
  Loaded, Mount, no_vnode, on_disk, vnode_at, released, removed, sync, truncate, sfs_sync_inode,
  block_of, reclaim_last, reclaim_body, sfs_reclaim,
}
use project_os.Sfs.Inode.Table.{IsInode}
use project_os.Sfs.Inode.Reclaim.{locked, cleaned, sync_clean, removed-set}

-- A call has changed the block `b` at most, and used up answers of the device.
pub record Elsewhere (fs : Fs) (b : ℕ) (fs' : Fs) : Type 0 where
  pub sound : IsSound fs → IsSound fs'
  pub others : (k : ℕ) → k ≢ b → fs'.disk k ≡ fs.disk k
  pub freemap : fs'.freemap ≡ fs.freemap
  pub nblocks : fs'.nblocks ≡ fs.nblocks
  pub lock : fs'.lock ≡ fs.lock

-- Whatever the inode is, sfs_sync_inode touches no block but its own.
sync_inode-Elsewhere :
    (fs : Fs) (v : Loaded)
    → IsSound fs
    → Ends
        (λ v' fs'. (v' ≡ cleaned v) × Elsewhere fs v.sv.ino fs')
        (λ e. Elsewhere fs v.sv.ino)
        (sfs_sync_inode v fs)
unfolding sfs_sync_inode
sync_inode-Elsewhere fs v sound = elim (Bool-cases v.sv.dirty) [
  | inl d ↦ rw d (
      Ends.bind
        (sfs_writeblock-Ends v.sv.ino (block_of v.sv.inode v.block) fs sound.held sound.polite)
        (λ _ fs' (rest, polite, _, e). returns (
          refl,
          rw e (record {
            sound = λ h. record {
              map = h.map;
              covers = h.covers;
              past = h.past;
              super = h.super;
              polite = polite;
              held = h.held;
            };
            others = λ k ne. let o : (v.sv.ino == k) ≡ false = ground arith in rw o;
            freemap = refl;
            nblocks = refl;
            lock = refl;
          }),
        ))
        (λ e fs' (rest, polite, e'). rw e' (record {
          sound = λ h. answered-IsSound fs rest h polite;
          others = λ k ne. refl;
          freemap = refl;
          nblocks = refl;
          lock = refl;
        })))
  | inr c ↦
      subst
        (Ends (λ v' fs'. (v' ≡ cleaned v) × Elsewhere fs v.sv.ino fs') (λ e. Elsewhere fs v.sv.ino))
        (sym (sync_clean fs v c))
        (returns (
          ap (λ u. record v { sv = record v.sv { dirty = u } }) c,
          record {
            sound = λ h. h;
            others = λ k ne. refl;
            freemap = refl;
            nblocks = refl;
            lock = refl;
          },
        ))
]

module _ (s : Mount) (i : ℕ) where
  abbrev pub last : Loaded
  last = vnode_at s i

  -- The file of the vnode, as sfs_reclaim hands it to sfs_itrunc, and as that works on it.
  abbrev given : File
  given = record { fs = (locked s).fs; sv = last.sv }

  abbrev pub old : File
  old = TruncCorrect.locked given

  -- The vnode is no longer in the table, its inode block and the blocks that the file had are free,
  -- and but for these and the indirect block nothing has changed.
  pub record Erased (l : BigLock) (s' : Mount) : Type 0 where
    pub vnodes : s'.vnodes ≡ removed s.vnodes i
    pub inode : bitmap_isset s'.fs.freemap last.sv.ino ≡ false
    pub freed :
        (j : ℕ)
        → j < max_blocks
        → entry old j ≢ 0
        → bitmap_isset s'.fs.freemap (entry old j) ≡ false
    pub stays :
        (c : ℕ)
        → c ≢ 0
        → c ≢ last.sv.ino
        → c ≢ old.indirect
        → ((j : ℕ) → j < max_blocks → entry old j ≢ c)
        → bitmap_isset s'.fs.freemap c ≡ bitmap_isset s.fs.freemap c
    pub contents : (c : ℕ) → c ≢ last.sv.ino → c ≢ old.indirect → s'.fs.disk c ≡ s.fs.disk c
    pub lock : s'.fs.lock ≡ l

  -- The vnode is still in the table, for the same inode, with its reference; the contents of all
  -- blocks but the inode's and the indirect one are as before.
  pub record NotErased (l : BigLock) (s' : Mount) : Type 0 where
    pub v : Loaded
    pub vnodes : s'.vnodes ≡ set s.vnodes i v
    pub ino : v.sv.ino ≡ last.sv.ino
    pub counted : v.refcount ≡ last.refcount
    pub contents : (c : ℕ) → c ≢ last.sv.ino → c ≢ old.indirect → s'.fs.disk c ≡ s.fs.disk c
    pub lock : s'.fs.lock ≡ l

  -- The mount with the file put back.
  abbrev put : File → Mount
  put f = record (locked s) { fs = f.fs; vnodes = set s.vnodes i (record last { sv = f.sv }) }

  abbrev held_lock : BigLock
  held_lock = (locked s).fs.lock

  abbrev relocked : File → File
  relocked c = Trunc.with_lock c (locked s).fs.lock

  module _ (balanced : IsBalanced s.fs.lock) (deeper : s.fs.lock.depth + 2 < 2 ^ 32)
      (low : i < length s.vnodes) (file : IsFile old) where
    given-IsBalanced : IsBalanced given.lock
    given-IsBalanced = record { counted = ground arith; small = omega arith }

    truncate-Ends :
        Ends
          (λ _ s'. (c : File) × Cut old (block_length 0) c × (s' ≡ put (relocked (with_size 0 c))))
          (λ e s'. (c : File) × HalfCut old (block_length 0) c × (s' ≡ put (relocked c)))
          (truncate i (locked s))
    truncate-Ends = stored (sfs_itrunc 0 given) (sfs_itrunc-Ends given 0 given-IsBalanced file)
      where
        stored :
            (r : Outcome (Unit {0}) × File)
            → Ends
                (λ _ f. (c : File) × Cut old (block_length 0) c × (f ≡ relocked (with_size 0 c)))
                (λ e f. (c : File) × HalfCut old (block_length 0) c × (f ≡ relocked c))
                r
            → Ends
                (λ _ s'.
                  (c : File) × Cut old (block_length 0) c × (s' ≡ put (relocked (with_size 0 c))))
                (λ e s'. (c : File) × HalfCut old (block_length 0) c × (s' ≡ put (relocked c)))
                (r.0, put r.1)
        stored _ (returns (c, cut, e)) = returns (c, cut, ap put e)
        stored _ (fails (c, half, e)) = fails (c, half, ap put e)

    module _ (no_links : last.sv.inode.linkcount ≡ 0) (inode : IsInode s.fs last.sv.ino)
        (other : last.sv.ino ≢ 0) (no_table : last.sv.ino ≢ old.indirect)
        (apart : (j : ℕ) → j < max_blocks → entry old j ≢ last.sv.ino) where
      -- Behind sfs_itrunc.
      module _ (c : File) (cut : Cut old (block_length 0) c) where
        abbrev emptied : Loaded
        emptied = record last { sv = (relocked (with_size 0 c)).sv }

        abbrev start : Mount
        start = put (relocked (with_size 0 c))

        start-IsSound : IsSound start.fs
        start-IsSound =
            let h = cut.file.sound in
            record {
              map = h.map;
              covers = h.covers;
              past = h.past;
              super = h.super;
              polite = h.polite;
              held = refl;
            }

        here : vnode_at start i ≡ emptied
        here = get_or-set_self s.vnodes i emptied no_vnode low

        ino_marked : bitmap_isset start.fs.freemap last.sv.ino ≡ true
        ino_marked = cut.stays last.sv.ino other no_table (λ j p g. apart j p) ∙ inode.marked

        synced-Ends :
            Ends
              (λ _ s'.
                (s'.vnodes ≡ set s.vnodes i (cleaned emptied))
                × Elsewhere start.fs last.sv.ino s'.fs)
              (λ e. NotErased held_lock)
              (sync i start)
        synced-Ends = rw here (
            stored (sfs_sync_inode emptied start.fs)
              (sync_inode-Elsewhere start.fs emptied start-IsSound))
          where
            stored :
                (r : Outcome Loaded × Fs)
                → Ends
                    (λ v' fs'. (v' ≡ cleaned emptied) × Elsewhere start.fs emptied.sv.ino fs')
                    (λ e. Elsewhere start.fs emptied.sv.ino)
                    r
                → Ends
                    (λ _ s'.
                      (s'.vnodes ≡ set s.vnodes i (cleaned emptied))
                      × Elsewhere start.fs last.sv.ino s'.fs)
                    (λ e. NotErased held_lock)
                    (continue r.0
                      (λ v. modify (λ s. record s { vnodes = set s.vnodes i v }))
                      (record start { fs = r.1 }))
            stored _ (returns {s = fs'} (e, w)) = returns (
              set-set s.vnodes i emptied _ ∙ ap (set s.vnodes i) e,
              subst (λ b. Elsewhere start.fs b fs') cut.fields.1 w,
            )
            stored _ (fails w) = fails (record {
              v = emptied;
              vnodes = refl;
              ino = cut.fields.1;
              counted = refl;
              contents = λ k ne nt. w.others k (λ e. ne (e ∙ cut.fields.1)) ∙ cut.contents k nt;
              lock = w.lock;
            })

        -- Behind sfs_sync_inode.
        module _ (s2 : Mount) (vnodes : s2.vnodes ≡ set s.vnodes i (cleaned emptied))
            (w : Elsewhere start.fs last.sv.ino s2.fs) where
          there : vnode_at s2 i ≡ cleaned emptied
          there =
              ap (λ vs. get_or vs i no_vnode) vnodes
              ∙ get_or-set_self s.vnodes i (cleaned emptied) no_vnode low

          discarded-Ends :
              Ends
                (λ _ s'. (s'.vnodes ≡ s2.vnodes) × Freed s2.fs last.sv.ino s'.fs)
                (λ _ _. ⊥)
                (on_disk (sfs_bfree last.sv.ino) s2)
          discarded-Ends = stored (sfs_bfree last.sv.ino s2.fs) (
              sfs_bfree-Ends s2.fs last.sv.ino (w.sound start-IsSound)
                (omega (arith, inode.inside, w.nblocks, cut.nblocks)) other
                (ap (λ m. bitmap_isset m last.sv.ino) w.freemap ∙ ino_marked))
            where
              stored :
                  (r : Outcome (Unit {0}) × Fs)
                  → Ends (λ _. Freed s2.fs last.sv.ino) (λ _ _. ⊥) r
                  → Ends
                      (λ _ s'. (s'.vnodes ≡ s2.vnodes) × Freed s2.fs last.sv.ino s'.fs)
                      (λ _ _. ⊥)
                      (r.0, record s2 { fs = r.1 })
              stored _ (returns f) = returns (refl, f)
              stored _ (fails void) = absurd void

          all_gone : (j : ℕ) → gone (block_length 0) j ≡ true
          all_gone j = ground arith

          kept_bit :
              (fs3 : Fs)
              → Freed s2.fs last.sv.ino fs3
              → (k : ℕ) → k ≢ last.sv.ino
              → bitmap_isset fs3.freemap k ≡ bitmap_isset c.freemap k
          kept_bit fs3 f k ne =
              let o : (last.sv.ino == k) ≡ false = ground arith in
              rw o at (f.bits k) ∙ ap (λ m. bitmap_isset m k) w.freemap

          erased :
              (s3 : Mount)
              → s3.vnodes ≡ s2.vnodes
              → Freed s2.fs last.sv.ino s3.fs
              → Erased held_lock (record s3 { vnodes = removed s3.vnodes i })
          erased s3 same f = record {
            vnodes =
                ap (λ vs. removed vs i) (same ∙ vnodes) ∙ removed-set s.vnodes i (cleaned emptied);
            inode = f.bits last.sv.ino ∙ ground arith;
            freed = λ j p ne.
                kept_bit s3.fs f (entry old j) (apart j p) ∙ cut.freed j p (all_gone j) ne;
            stays = λ k z ne nt away. kept_bit s3.fs f k ne ∙ cut.stays k z nt (λ j p g. away j p);
            contents = λ k ne nt. f.disk k ∙ w.others k ne ∙ cut.contents k nt;
            lock = f.lock ∙ w.lock;
          }

      reclaim_last-Ends :
          Ends (λ _. Erased held_lock) (λ e. NotErased held_lock) (reclaim_last i (locked s))
      unfolding reclaim_last
      reclaim_last-Ends =
          let l : (last.sv.inode.linkcount == 0) ≡ true = ground arith in
          rw l (
            Ends.bind
              {P = λ _ s'.
                (c : File) × (cut : Cut old (block_length 0) c) × (s2 : Mount) × (vnodes : s2.vnodes
                  ≡ set s.vnodes i (cleaned (emptied c cut)))
                × (w : Elsewhere (start c cut).fs last.sv.ino s2.fs) × (s'.vnodes ≡ s2.vnodes)
                × Freed s2.fs last.sv.ino s'.fs}
              (Ends.bind
                {P = λ _ s2.
                  (c : File) × (cut : Cut old (block_length 0) c) × (s2.vnodes
                    ≡ set s.vnodes i (cleaned (emptied c cut)))
                  × Elsewhere (start c cut).fs last.sv.ino s2.fs}
                (Ends.bind truncate-Ends
                  (λ _ s1 (c, cut, e). rw e (
                    Ends.mono (synced-Ends c cut) (λ _ s2 (vnodes, w). (c, cut, vnodes, w))
                      (λ e s' n. n)))
                  (λ e s1 (c, half, e'). rw e' (record {
                    v = record last { sv = c.sv };
                    vnodes = refl;
                    ino = half.fields.1;
                    counted = refl;
                    contents = λ k ne nt. half.contents k;
                    lock = refl;
                  })))
                (λ _ s2 (c, cut, vnodes, w).
                  let at = there c cut s2 vnodes w in
                  let l2 : (c.linkcount == 0) ≡ true = ground (arith, cut.fields.2) in
                  rw (at, l2, cut.fields.1)
                    (Ends.mono (discarded-Ends c cut s2 vnodes w)
                      (λ _ s3 (same, f). (c, cut, s2, vnodes, w, same, f)) (λ e s' v. absurd v)))
                (λ e s' n. n))
              (λ _ s3 (c, cut, s2, vnodes, w, same, f).
                returns (erased c cut s2 vnodes w s3 same f))
              (λ e s' n. n))

      -- For the last reference to a vnode whose file has no links, with a lock whose depth counts
      -- its acquisitions and leaves room for two more, a file that is consistent under that lock,
      -- an inode in a block of its own that is in use, and a device that answers no write with an
      -- I/O error, sfs_reclaim does not panic and leaves the lock as it found it. If it returns 0,
      -- the vnode is no longer in the table, its inode block and every block of the file are free,
      -- and no other bit of the freemap has changed but for those of the superblock and the
      -- indirect block. If it returns an error, the vnode is still in the table with its reference.
      -- Either way all blocks but the inode's and the indirect one have their contents.
      pub sfs_reclaim-Erased :
          last.refcount ≡ 1
          → Ends (λ _. Erased s.fs.lock) (λ e. NotErased s.fs.lock) (sfs_reclaim i s)
      unfolding sfs_reclaim reclaim_body
      sfs_reclaim-Erased one =
          let t : (last.refcount == 1) ≡ true = ground arith in
          rw (acquire_held s.fs.lock balanced, t)
            (unlock (reclaim_last i (locked s)) reclaim_last-Ends)
        where
          unlock :
              (r : Outcome (Unit {0}) × Mount)
              → Ends (λ _. Erased held_lock) (λ e. NotErased held_lock) r
              → Ends (λ _. Erased s.fs.lock) (λ e. NotErased s.fs.lock) (released r.0 r.1)
          unlock _ (returns {s = s'} d) =
              rw (d.lock, release_locked s.fs.lock balanced)
                (returns (record {
                  vnodes = d.vnodes;
                  inode = d.inode;
                  freed = d.freed;
                  stays = d.stays;
                  contents = d.contents;
                  lock = refl;
                }))
          unlock _ (fails {s = s'} d) =
              rw (d.lock, release_locked s.fs.lock balanced)
                (fails (record {
                  v = d.v;
                  vnodes = d.vnodes;
                  ino = d.ino;
                  counted = d.counted;
                  contents = d.contents;
                  lock = refl;
                }))
