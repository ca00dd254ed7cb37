-- ===== src/Sfs/Balloc.antt =====
-- Block allocation, kern/fs/sfs/sfs_balloc.c, over the bitmap of kern/lib/bitmap.c.
use project_os.Prelude.{
  ℕ, ◌≤◌, ◌<◌, ◌≡◌, ◌≢◌, refl, inl, inr, Bool, true, false, arith, leb, ◌==◌, if◌then◌else◌, List,
}
use project_os.Outcome.{Outcome, ok, err, panic}
use project_os.Outcome.Exec.{Exec, fail, modify, ◌>>=◌, ◌>>◌}
use project_os.Outcome.Ends.{Ends, returns, fails}
use project_os.Bitmap.{Bitmap, bitmap_alloc, bitmap_isset, bitmap_unmark}
use project_os.Bitmap.View.{IsValid}
use project_os.Bitmap.Mark.{Changes, bitmap_unmark_done}
use project_os.Bitmap.Alloc.{Allocated, bitmap_alloc_lem}
use project_os.Sfs.{Answer, Fs}
use project_os.Sfs.Block.{zeros}
use project_os.Sfs.Io.{
  sfs_writeblock-Ends, sfs_writeblock, writing, IsPolite, Moved, Unmoved, with_answers,
}

-- The calls of the bitmap, on the freemap.
taken : Outcome (Bitmap × ℕ) → Exec Fs ℕ
taken (ok (map, block)) fs = (ok block, record fs { freemap = map })
taken (err e) fs = (err e, fs)
taken panic fs = (panic, fs)

unmarked : Outcome Bitmap → Exec Fs (Unit {0})
unmarked (ok map) fs = (ok tt, record fs { freemap = map })
unmarked (err e) fs = (err e, fs)
unmarked panic fs = (panic, fs)

abbrev dirtied : Exec Fs (Unit {0})
dirtied = modify (λ fs. record fs { freemapdirty = true })

sfs_clearblock : ℕ → Exec Fs (Unit {0})
sfs_clearblock block = sfs_writeblock block zeros

-- The end of sfs_balloc, by the result of sfs_clearblock.
cleared : ℕ → Outcome (Unit {0}) → Exec Fs ℕ
unfolding unmarked
cleared block (ok _) fs = (ok block, fs)
cleared block (err e) fs = (unmarked (bitmap_unmark fs.freemap block) >> fail e) fs
cleared block panic fs = (panic, fs)

in_range : ℕ → Exec Fs (Unit {0})
in_range block fs = if leb fs.nblocks block then (panic, fs) else (ok tt, fs)

clear_new : ℕ → Exec Fs ℕ
unfolding cleared sfs_clearblock
clear_new block fs = let (result, fs') = sfs_clearblock block fs in cleared block result fs'

unfoldable pub sfs_balloc : Exec Fs ℕ
unfolding taken in_range clear_new
sfs_balloc = do
  block ← λ fs. taken (bitmap_alloc fs.freemap) fs
  dirtied
  in_range block
  clear_new block

unfoldable pub sfs_bfree : ℕ → Exec Fs (Unit {0})
unfolding unmarked
sfs_bfree block = (λ fs. unmarked (bitmap_unmark fs.freemap block) fs) >> dirtied

unfoldable pub sfs_bused : ℕ → Exec Fs Bool
unfolding in_range
sfs_bused block = in_range block >> λ fs. (ok (bitmap_isset fs.freemap block), fs)

-- What holds of a mounted file system between operations: the freemap is well formed and covers
-- the blocks, the superblock and the bits behind the last block are in use, the device is never
-- asked for a block that it does not have and answers no write with an I/O error, and the big lock
-- is held.
pub record IsSound (fs : Fs) : Type 0 where
  pub map : IsValid fs.freemap
  pub covers : fs.nblocks ≤ fs.freemap.nbits
  pub past : (i : ℕ) → fs.nblocks ≤ i → i < fs.freemap.nbits → bitmap_isset fs.freemap i ≡ true
  pub super : bitmap_isset fs.freemap 0 ≡ true
  pub polite : IsPolite fs.answers
  pub held : fs.lock.held ≡ true

-- A new block `b`: it was free and lies on the disk, it is now in use and holds zeros; the other
-- blocks, their bits, the size and the lock are as before.
pub record NewBlock (fs : Fs) (b : ℕ) (fs' : Fs) : Type 0 where
  pub sound : IsSound fs'
  pub inside : b < fs.nblocks
  pub free : bitmap_isset fs.freemap b ≡ false
  pub bits :
      (j : ℕ) → bitmap_isset fs'.freemap j ≡ (if b == j then true else bitmap_isset fs.freemap j)
  pub disk : (j : ℕ) → fs'.disk j ≡ (if b == j then zeros else fs.disk j)
  pub nblocks : fs'.nblocks ≡ fs.nblocks
  pub lock : fs'.lock ≡ fs.lock

-- An error: no bit of the freemap, no block, and neither the size nor the lock has changed.
pub record Unchanged (fs : Fs) (fs' : Fs) : Type 0 where
  pub sound : IsSound fs'
  pub bits : (j : ℕ) → bitmap_isset fs'.freemap j ≡ bitmap_isset fs.freemap j
  pub disk : (j : ℕ) → fs'.disk j ≡ fs.disk j
  pub nblocks : fs'.nblocks ≡ fs.nblocks
  pub lock : fs'.lock ≡ fs.lock

Unchanged-refl : (fs : Fs) → IsSound fs → Unchanged fs fs
Unchanged-refl fs sound = record {
  sound = sound;
  bits = λ j. refl;
  disk = λ j. refl;
  nblocks = refl;
  lock = refl;
}

module _ (fs : Fs) (sound : IsSound fs) (map' : Bitmap) (b : ℕ) (inside : b < fs.freemap.nbits)
    (free : bitmap_isset fs.freemap b ≡ false) (ch : Changes fs.freemap b true map') where
  -- The file system when the block is marked.
  abbrev grabbed : Fs
  grabbed = record fs { freemap = map'; freemapdirty = true }

  new_inside : b < fs.nblocks
  new_inside = ground (arith, sound.past b)

  new_block :
      (rest : List Answer)
      → IsPolite rest
      → NewBlock fs b ((writing b zeros).transfer (with_answers grabbed rest)).1
  new_block rest polite = record {
    sound = record {
      map = ch.valid;
      covers = omega (arith, sound.covers, ch.same_size);
      past = λ i p q. ground (arith, ch.bits i, sound.past i, ch.same_size);
      super = ground (arith, ch.bits 0, sound.super);
      polite = polite;
      held = sound.held;
    };
    inside = new_inside;
    free = free;
    bits = ch.bits;
    disk = λ j. refl;
    nblocks = refl;
    lock = refl;
  }

  restored :
      (map2 : Bitmap)
      → Changes map' b false map2
      → (rest : List Answer) → IsPolite rest
      → Unchanged fs (record grabbed { freemap = map2; answers = rest })
  restored map2 ch2 rest polite = record {
    sound = record {
      map = ch2.valid;
      covers = omega (arith, sound.covers, ch.same_size, ch2.same_size);
      past = λ i p q. ground (arith, same i, sound.past i, ch.same_size, ch2.same_size);
      super = ground (arith, same 0, sound.super);
      polite = polite;
      held = sound.held;
    };
    bits = same;
    disk = λ j. refl;
    nblocks = refl;
    lock = refl;
  }
    where
      same : (j : ℕ) → bitmap_isset map2 j ≡ bitmap_isset fs.freemap j
      same j = ground (arith, ch.bits j, ch2.bits j, free)

  cleared-Ends :
      {r : Outcome (Unit {0}) × Fs}
      → Ends (Moved (writing b zeros) grabbed) (Unmoved (writing b zeros) grabbed) r
      → Ends (NewBlock fs) (λ e fs'. Unchanged fs fs') (cleared b r.0 r.1)
  unfolding cleared
  cleared-Ends (returns (rest, polite, _, e)) = returns (rw e (new_block rest polite))
  cleared-Ends (fails (rest, polite, e)) =
      let (map2, r, ch2) =
        bitmap_unmark_done map' b ch.valid (omega (arith, ch.same_size))
          (ground (arith, ch.bits b)) in
      rw (e, r) (fails (restored map2 ch2 rest polite))

  clear_new-Ends : Ends (NewBlock fs) (λ e fs'. Unchanged fs fs') (clear_new b grabbed)
  unfolding clear_new
  clear_new-Ends = cleared-Ends (sfs_writeblock-Ends b zeros grabbed sound.held sound.polite)

-- On a sound file system, whose device answers no write with an I/O error, sfs_balloc does not
-- panic. If it returns 0, the block that it hands out was free, lies on the disk, is now in use and
-- holds zeros, and nothing else has changed. If it returns an error, no bit and no block has
-- changed.
pub sfs_balloc-Ends :
    (fs : Fs) → IsSound fs → Ends (NewBlock fs) (λ e fs'. Unchanged fs fs') (sfs_balloc fs)
unfolding sfs_balloc
sfs_balloc-Ends fs sound = start (bitmap_alloc_lem fs.freemap sound.map)
  where
    start : Allocated fs.freemap → Ends (NewBlock fs) (λ e fs'. Unchanged fs fs') (sfs_balloc fs)
    start (inl (r, full)) = rw r (fails (Unchanged-refl fs sound))
    start (inr (map', b, r, inside, free, lowest, ch)) =
        let in_disk : leb fs.nblocks b ≡ false =
          ground (arith, new_inside fs sound map' b inside free ch) in
        rw (r, in_disk) (clear_new-Ends fs sound map' b inside free ch)

-- A block that is given up: its bit is clear, and nothing else has changed.
pub record Freed (fs : Fs) (b : ℕ) (fs' : Fs) : Type 0 where
  pub sound : IsSound fs'
  pub bits :
      (j : ℕ) → bitmap_isset fs'.freemap j ≡ (if b == j then false else bitmap_isset fs.freemap j)
  pub disk : (j : ℕ) → fs'.disk j ≡ fs.disk j
  pub nblocks : fs'.nblocks ≡ fs.nblocks
  pub lock : fs'.lock ≡ fs.lock

-- On a sound file system sfs_bfree frees a block of the disk that is in use, other than the
-- superblock, and changes nothing else; it returns no error.
pub sfs_bfree-Ends :
    (fs : Fs) (b : ℕ)
    → IsSound fs
    → b < fs.nblocks
    → b ≢ 0
    → bitmap_isset fs.freemap b ≡ true
    → Ends (λ _ fs'. Freed fs b fs') (λ e fs'. ⊥) (sfs_bfree b fs)
unfolding sfs_bfree
sfs_bfree-Ends fs b sound inside other used =
    let (map', r, ch) =
      bitmap_unmark_done fs.freemap b sound.map (omega (arith, sound.covers)) used in
    rw r (
      returns (record {
        sound = record {
          map = ch.valid;
          covers = omega (arith, sound.covers, ch.same_size);
          past = λ i p q. ground (arith, ch.bits i, sound.past i, ch.same_size);
          super = ground (arith, ch.bits 0, sound.super);
          polite = sound.polite;
          held = sound.held;
        };
        bits = ch.bits;
        disk = λ j. refl;
        nblocks = refl;
        lock = refl;
      }))

-- sfs_bused reads the freemap at a block of the disk, and panics at any other.
pub sfs_bused_lem :
    (fs : Fs) (b : ℕ)
    → sfs_bused b fs
      ≡ (if leb fs.nblocks b then (panic, fs) else (ok (bitmap_isset fs.freemap b), fs))
unfolding sfs_bused
sfs_bused_lem fs b = ground arith
