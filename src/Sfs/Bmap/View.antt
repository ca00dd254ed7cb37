-- ===== src/Sfs/Bmap/View.antt =====
-- What the block pointers of a file say: block number by position in the file, and when they are
-- consistent with each other and with the freemap.
use project_os.Prelude.{
  ℕ, ◌-◌, ◌<◌, ◌≡◌, ◌≢◌, true, false, arith, ltb, ◌==◌, if◌then◌else◌, length, get_or, Bool-cases,
  inl, inr,
}
use project_os.Bitmap.{bitmap_isset}
use project_os.Sfs.{File, Fs, ndirect}
use project_os.Sfs.Block.{get_word}
use project_os.Sfs.Balloc.{IsSound}

-- SFS_NDIRECT + SFS_NINDIRECT * SFS_DBPERIDB, the blocks that a file can have
abbrev pub max_blocks : ℕ
max_blocks = 143

-- The entry of the file's block map at `k`, 0 where the file has no block.
unfoldable pub entry : File → ℕ → ℕ
entry s k =
    if ltb k ndirect
    then get_or s.direct k 0
    else if s.indirect == 0
    then 0
    else get_word (s.disk s.indirect) (k - ndirect)

-- A block on the disk that is marked in the freemap; 0 stands for no block.
pub record InUse (fs : Fs) (b : ℕ) : Type 0 where
  pub inside : b ≢ 0 → b < fs.nblocks
  pub marked : b ≢ 0 → bitmap_isset fs.freemap b ≡ true

-- The file system is sound, every block of the file and the indirect block are in use, and no
-- block is used twice.
pub record IsFile (s : File) : Type 0 where
  pub sound : IsSound s.fs
  pub directs : length s.direct ≡ ndirect
  pub blocks : (k : ℕ) → k < max_blocks → InUse s.fs (entry s k)
  pub table : InUse s.fs s.indirect
  pub distinct :
      (j k : ℕ) → j < max_blocks → k < max_blocks → entry s j ≢ 0 → entry s j ≡ entry s k → j ≡ k
  pub apart : (k : ℕ) → k < max_blocks → entry s k ≢ 0 → entry s k ≢ s.indirect

-- `s'` has the block `b`, which was free in `s`, at position `k`, and is otherwise as `s`.
pub record Extends (s : File) (k b : ℕ) (s' : File) : Type 0 where
  pub sound : IsSound s'.fs
  pub directs : length s'.direct ≡ ndirect
  pub inside : b < s.nblocks
  pub free : bitmap_isset s.freemap b ≡ false
  pub bits :
      (j : ℕ) → bitmap_isset s'.freemap j ≡ (if b == j then true else bitmap_isset s.freemap j)
  pub nblocks : s'.nblocks ≡ s.nblocks
  pub indirect : s'.indirect ≡ s.indirect
  pub entries : (j : ℕ) → j < max_blocks → entry s' j ≡ (if k == j then b else entry s j)

module _ (s s' : File) (k b : ℕ) (file : IsFile s) (ext : Extends s k b s') where
  pub new_ne_zero : b ≢ 0
  new_ne_zero e =
      let f : bitmap_isset s.freemap 0 ≡ false = rw e at ext.free in
      ground (arith, file.sound.super)

  Extends-InUse : (c : ℕ) → InUse s.fs c → InUse s'.fs c
  Extends-InUse c u = record {
    inside = λ h. omega (arith, u.inside h, ext.nblocks);
    marked = λ h. ground (arith, u.marked h, ext.bits c);
  }

  pub new-InUse : InUse s'.fs b
  new-InUse = record {
    inside = λ h. omega (arith, ext.inside, ext.nblocks);
    marked = λ h. ground (arith, ext.bits b);
  }

  -- A block that was in use is not the new one.
  pub used_ne_new : (c : ℕ) → InUse s.fs c → c ≢ 0 → c ≢ b
  used_ne_new c u h e =
      let f : bitmap_isset s.freemap b ≡ true = rw e at (u.marked h) in ground (arith, ext.free)

  pub Extends-IsFile : IsFile s'
  Extends-IsFile = record {
    sound = ext.sound;
    directs = ext.directs;
    blocks = λ j h. rw (ext.entries j h) (elim (Bool-cases (k == j)) [
      | inl e ↦ rw e new-InUse
      | inr e ↦ rw e (Extends-InUse (entry s j) (file.blocks j h))
    ]);
    table = rw ext.indirect (Extends-InUse s.indirect file.table);
    distinct = λ i j hi hj ne e. ground (
      arith,
      ext.entries i hi,
      ext.entries j hj,
      file.distinct i j hi hj,
      used_ne_new (entry s i) (file.blocks i hi),
      used_ne_new (entry s j) (file.blocks j hj),
      new_ne_zero,
    );
    apart = λ j h ne. ground (
      arith,
      ext.entries j h,
      ext.indirect,
      file.apart j h,
      used_ne_new s.indirect file.table,
      new_ne_zero,
    );
  }
