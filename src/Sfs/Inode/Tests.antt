-- ===== src/Sfs/Inode/Tests.antt =====
-- The theorems on sfs_inode.c at the disk of Sfs.Tests, where the inode in block 1, a directory, is
-- loaded and not yet written.
use project_os.Prelude.{
  if◌then◌else◌, get_or, all_below, of-all_below, Bool-cases, inl, inr, ltb, ◌==◌, ◌≤◌, ℕ, ◌<◌, ◌≡◌,
  ◌≢◌, refl, arith, true, false, List, [], ◌∷◌, replicate,
}
use project_os.Outcome.Ends.{Ends}
use project_os.Sfs.{Answer, Dinode, File, ndirect}
use project_os.Sfs.Block.{zeros, get_word}
use project_os.Sfs.Io.{with_answers}
use project_os.BigLock.{BigLock}
use project_os.Sfs.Tests.{
  small_disk, once, never, small_disk-IsSound, small_InUse, never-IsBalanced,
}
use project_os.Sfs.Inode.{Loaded, Mount, dinode_of, sfs_loadvnode, sfs_makeobj, sfs_reclaim}
use project_os.Sfs.Inode.Table.{IsInode, IsTable, FewReferences, Absent, Loadable}
use project_os.Sfs.Inode.Load.{LoadedAt, NotLoaded, sfs_loadvnode-Ends}
use project_os.Sfs.Inode.Make.{Made, NotMade, sfs_makeobj-Ends}
use project_os.Sfs.Inode.Encoding.{IsDinode}
use project_os.Sfs.Inode.Reclaim.{Written, sfs_reclaim-Ends}
use project_os.Sfs.Inode.Erase.{Erased, NotErased, sfs_reclaim-Erased}
use project_os.Sfs.Bmap.View.{entry, InUse, IsFile}
use project_os.Sfs.Balloc.{IsSound}

abbrev root_inode : Dinode
root_inode = record { size = 0; kind = 2; linkcount = 2; direct = replicate 15 0; indirect = 0 }

abbrev root : ℕ → Loaded
root refs = record {
  sv = record { inode = root_inode; ino = 1; dirty = true };
  block = zeros;
  refcount = refs;
}

abbrev mounted : BigLock → ℕ → Mount
mounted l refs = record { fs = small_disk l; vnodes = root refs ∷ [] }

block-IsInode : (b : ℕ) → b ≢ 0 → b < 3 → IsInode (small_disk once) b
block-IsInode b ne h =
    let u = small_InUse b (omega arith) in record { inside = u.inside ne; marked = u.marked ne }

only : (i : ℕ) → i < 1 → i ≡ 0
only i h = omega arith

mounted-IsTable : IsTable (mounted once 1)
mounted-IsTable = record {
  sound = small_disk-IsSound;
  blocks = λ i h. rw (only i h) (block-IsInode 1 (omega arith) (omega arith));
  counted = λ i h. rw (only i h) (omega arith);
  distinct = λ i j h k e. omega arith;
}

mounted-FewReferences : FewReferences (mounted once 1)
mounted-FewReferences i h = rw (only i h) (omega arith)

two-Absent : Absent (mounted once 1) 2
two-Absent i h = rw (only i h) (omega arith)

zeros-Loadable : Loadable 1 (dinode_of zeros)
unfolding dinode_of get_word
zeros-Loadable = (refl, λ h. refl)

sfs_loadvnode-Ends_example :
    Ends
      (LoadedAt (mounted once 1) 2 1)
      (λ e s'. NotLoaded (mounted once 1) 2 s')
      (sfs_loadvnode true true 2 1 (mounted once 1))
sfs_loadvnode-Ends_example =
    sfs_loadvnode-Ends (mounted once 1) mounted-IsTable true true 2 1
      (block-IsInode 2 (omega arith) (omega arith)) (λ _. two-Absent) mounted-FewReferences
      (λ _. zeros-Loadable)

sfs_makeobj-Ends_example :
    Ends
      (Made (mounted once 1) 2)
      (λ e s'. NotMade (mounted once 1) s')
      (sfs_makeobj true false 2 (mounted once 1))
sfs_makeobj-Ends_example =
    sfs_makeobj-Ends (mounted once 1) mounted-IsTable 2 (omega arith) refl true false
      mounted-FewReferences

root-IsDinode : IsDinode root_inode
root-IsDinode = record {
  size_fits = omega arith;
  kind_fits = omega arith;
  links_fit = omega arith;
  directs = refl;
  directs_fit = omega arith;
  indirect_fits = omega arith;
}

sfs_reclaim-Ends_example :
    Ends
      (λ _ s'. (s'.vnodes ≡ []) × Written (small_disk never) (root 1) s'.fs)
      (λ e s'.
        (rest : List Answer) × (s'
          ≡ record (mounted never 1) { fs = with_answers (small_disk never) rest }))
      (sfs_reclaim 0 (mounted never 1))
sfs_reclaim-Ends_example =
    sfs_reclaim-Ends (mounted never 1) never-IsBalanced 0 (omega arith) small_disk-IsSound refl
      (omega arith) root-IsDinode

-- A file without links that has one block, with its inode in block 1.
abbrev orphan : Loaded
orphan = record {
  sv = record {
    inode = record {
      size = 512;
      kind = 1;
      linkcount = 0;
      direct = 2 ∷ replicate 14 0;
      indirect = 0;
    };
    ino = 1;
    dirty = true;
  };
  block = zeros;
  refcount = 1;
}

abbrev with_orphan : Mount
with_orphan = record { fs = small_disk never; vnodes = orphan ∷ [] }

abbrev twice : BigLock
twice = record { held = true; depth = 2 }

abbrev orphan_file : File
orphan_file = record { fs = small_disk twice; sv = orphan.sv }

-- Position 0 has block 2, and no other position has a block.
entry_orphan : (k : ℕ) → entry orphan_file k ≡ (if k == 0 then 2 else 0)
unfolding entry all_below
entry_orphan k = elim (Bool-cases (ltb k ndirect)) [
  | inl low ↦ ground (arith, table)
  | inr high ↦ ground arith
]
  where
    table : k < 15 → (get_or (2 ∷ replicate 14 0) k 0 == (if k == 0 then 2 else 0)) ≡ true
    table =
        of-all_below 15 (λ k. get_or (2 ∷ replicate 14 0) k 0 == (if k == 0 then 2 else 0)) k refl

twice-IsSound : IsSound (small_disk twice)
twice-IsSound =
    let h = small_disk-IsSound in
    record {
      map = h.map;
      covers = h.covers;
      past = h.past;
      super = h.super;
      polite = h.polite;
      held = refl;
    }

twice-InUse : (b : ℕ) → b ≤ 2 → InUse (small_disk twice) b
twice-InUse b h = let u = small_InUse b h in record { inside = u.inside; marked = u.marked }

orphan_file-IsFile : IsFile orphan_file
orphan_file-IsFile = record {
  sound = twice-IsSound;
  directs = refl;
  blocks = λ k h. twice-InUse (entry orphan_file k) (ground (arith, entry_orphan k));
  table = twice-InUse 0 (omega arith);
  distinct = λ j k hj hk ne e. ground (arith, entry_orphan j, entry_orphan k);
  apart = λ k h ne. ground (arith, entry_orphan k);
}

orphan-IsInode : IsInode (small_disk never) 1
orphan-IsInode =
    let u = twice-InUse 1 (omega arith) in
    record { inside = omega arith; marked = u.marked (omega arith) }

sfs_reclaim-Erased_example :
    Ends
      (λ _. Erased with_orphan 0 never)
      (λ e. NotErased with_orphan 0 never)
      (sfs_reclaim 0 with_orphan)
sfs_reclaim-Erased_example =
    sfs_reclaim-Erased with_orphan 0 never-IsBalanced (omega arith) (omega arith) orphan_file-IsFile
      refl orphan-IsInode (omega arith) (omega arith) (λ j h. ground (arith, entry_orphan j)) refl
