-- ===== src/Sfs/Tests.antt =====
-- The theorems on kern/vfs/vfslist.c and kern/fs/sfs at a disk of sixteen blocks, all zero: the
-- superblock, a file with block 1 at its position 0, and its indirect block 2, which is empty.
use project_os.Prelude.{
  ◌⊎◌, ℕ, zero, suc, ◌-◌, ◌≤◌, ◌<◌, ◌≡◌, refl, true, false, arith, [], ◌∷◌, none, some, ltb, ◌==◌,
  if◌then◌else◌, get_or, replicate, all_below, of-all_below, Bool-cases, inl, inr,
}
use project_os.Outcome.{ok, eio}
use project_os.Outcome.Ends.{Ends}
use project_os.BigLock.{BigLock, IsBalanced}
use project_os.Bitmap.{Bitmap, test, bitmap_isset}
use project_os.Sfs.{File, Fs, ndirect}
use project_os.Sfs.Block.{zeros, get_word-zeros}
use project_os.Sfs.Io.{
  writing, sfs_rwblock, sfs_readblock, sfs_writeblock, with_answers, IsInRange, Transferred,
  Untouched, Lost, sfs_rwblock-Ends,
}
use project_os.Sfs.Balloc.{
  IsSound, NewBlock, Unchanged, Freed, sfs_balloc, sfs_bfree, sfs_balloc-Ends, sfs_bfree-Ends,
}
use project_os.Sfs.Bmap.{sfs_bmap}
use project_os.Sfs.Bmap.View.{entry, InUse, IsFile}
use project_os.Sfs.Bmap.Mapping.{Mapped, Failed}
use project_os.Sfs.Bmap.Correct.{sfs_bmap-Ends}
use project_os.Sfs.Trunc.{with_lock, with_size, block_length, sfs_itrunc}
use project_os.Sfs.Trunc.Cut.{Cut, HalfCut}
use project_os.Sfs.Trunc.Correct.{locked, sfs_itrunc-Ends}

abbrev pub sixteen : Bitmap
sixteen = record { nbits = 16; v = 0x07 ∷ 0x00 ∷ [] }

abbrev pub small_disk : BigLock → Fs
small_disk l = record {
  freemap = sixteen;
  freemapdirty = false;
  nblocks = 16;
  disk = λ b. zeros;
  answers = (none, none) ∷ (some eio, none) ∷ [];
  lock = l;
}

abbrev pub small_file : BigLock → File
small_file l = record {
  fs = small_disk l;
  sv = record {
    inode = record {
      size = 512;
      kind = 1;
      linkcount = 1;
      direct = 1 ∷ replicate 14 0;
      indirect = 2;
    };
    ino = 3;
    dirty = false;
  };
}

abbrev pub once : BigLock
once = record { held = true; depth = 1 }

abbrev pub never : BigLock
never = record { held = false; depth = 0 }

sixteen_bytes : (ix : ℕ) → get_or sixteen.v ix 0 < 256
sixteen_bytes zero = omega arith
sixteen_bytes (suc zero) = omega arith
sixteen_bytes (suc (suc ix)) = omega arith

pub small_disk-IsSound : IsSound (small_disk once)
unfolding bitmap_isset test
small_disk-IsSound = record {
  map = record {
    sized = refl;
    small = omega arith;
    bytes = sixteen_bytes;
    leftover = λ i p q. absurd (omega arith);
  };
  covers = omega arith;
  past = λ i p q. absurd (omega arith);
  super = refl;
  polite = (λ e. cc, λ e. cc, λ e. cc, (λ e. cc, λ e. cc, λ e. cc, tt));
  held = refl;
}

-- Position 0 has block 1, and no other position has a block.
pub entry_small : (l : BigLock) (k : ℕ) → entry (small_file l) k ≡ (if k == 0 then 1 else 0)
unfolding entry all_below
entry_small l k = elim (Bool-cases (ltb k ndirect)) [
  | inl low ↦ ground (arith, table)
  | inr high ↦ ground (arith, get_word-zeros (k - ndirect))
]
  where
    table : k < 15 → (get_or (1 ∷ replicate 14 0) k 0 == (if k == 0 then 1 else 0)) ≡ true
    table =
        of-all_below 15 (λ k. get_or (1 ∷ replicate 14 0) k 0 == (if k == 0 then 1 else 0)) k refl

pub small_InUse : (b : ℕ) → b ≤ 2 → InUse (small_disk once) b
unfolding bitmap_isset test
small_InUse zero h = record { inside = λ z. omega arith; marked = λ z. refl }
small_InUse (suc zero) h = record { inside = λ z. omega arith; marked = λ z. refl }
small_InUse (suc (suc zero)) h = record { inside = λ z. omega arith; marked = λ z. refl }
small_InUse (suc (suc (suc b))) h = absurd (omega arith)

pub small_file-IsFile : IsFile (small_file once)
small_file-IsFile = record {
  sound = small_disk-IsSound;
  directs = refl;
  blocks = λ k h. small_InUse (entry (small_file once) k) (ground (arith, entry_small once k));
  table = small_InUse 2 (omega arith);
  distinct = λ j k hj hk ne e. ground (arith, entry_small once j, entry_small once k);
  apart = λ k h ne. ground (arith, entry_small once k);
}

pub never-IsBalanced : IsBalanced never
never-IsBalanced = record { counted = refl; small = omega arith }

pub once-IsBalanced : IsBalanced once
once-IsBalanced = record { counted = refl; small = omega arith }

-- A disk that answers the first request with an I/O error.
abbrev bad_disk : Fs
bad_disk = record (small_disk once) { answers = (some eio, some eio) ∷ [] }

sfs_rwblock-Ends_example :
    Ends
      (λ a fs'.
        Transferred IsInRange (writing 5 zeros) bad_disk a fs'
        ⊎ Lost IsInRange (writing 5 zeros) bad_disk a fs')
      (Untouched IsInRange bad_disk)
      (sfs_rwblock (writing 5 zeros) bad_disk)
sfs_rwblock-Ends_example =
    sfs_rwblock-Ends (writing 5 zeros) bad_disk refl (omega arith) (λ e. cc, λ e. cc, tt)

-- The write is lost, and the read is retried.
write_lost : sfs_writeblock 5 zeros bad_disk ≡ (ok tt, with_answers bad_disk [])
unfolding sfs_writeblock sfs_rwblock
write_lost = refl

read_retried : sfs_readblock 5 bad_disk ≡ (ok (bad_disk.disk 5), with_answers bad_disk [])
unfolding sfs_readblock sfs_rwblock
read_retried = refl

sfs_balloc-Ends_example :
    Ends
      (NewBlock (small_disk once))
      (λ e fs'. Unchanged (small_disk once) fs')
      (sfs_balloc (small_disk once))
sfs_balloc-Ends_example = sfs_balloc-Ends (small_disk once) small_disk-IsSound

sfs_bfree-Ends_example :
    Ends (λ _ fs'. Freed (small_disk once) 2 fs') (λ e fs'. ⊥) (sfs_bfree 2 (small_disk once))
unfolding bitmap_isset test
sfs_bfree-Ends_example =
    sfs_bfree-Ends (small_disk once) 2 small_disk-IsSound (omega arith) (λ e. omega arith) refl

sfs_bmap-Ends_example :
    Ends
      (Mapped (small_file once) 20 true)
      (λ e s'. Failed (small_file once) s')
      (sfs_bmap 20 true (small_file once))
sfs_bmap-Ends_example = sfs_bmap-Ends (small_file once) 20 true small_file-IsFile (omega arith)

sfs_itrunc-Ends_example :
    Ends
      (λ _ s'.
        (c : File) × Cut (locked (small_file never)) (block_length 0) c
        × (s' ≡ with_lock (with_size 0 c) never))
      (λ e s'.
        (c : File) × HalfCut (locked (small_file never)) (block_length 0) c
        × (s' ≡ with_lock c never))
      (sfs_itrunc 0 (small_file never))
sfs_itrunc-Ends_example = sfs_itrunc-Ends (small_file never) 0 never-IsBalanced small_file-IsFile
