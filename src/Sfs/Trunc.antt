-- ===== src/Sfs/Trunc.antt =====
-- Truncation of a file, sfs_itrunc of kern/fs/sfs/sfs_bmap.c. The loops over the direct blocks and
-- over the indirect block are functions with the iterations that are left and the index; all the
-- returns of the function release the big lock first, as `released` does.
pub mod Trimmed
pub mod Directs
pub mod Entries
pub mod Cut
pub mod Stored
pub mod Correct
use project_os.Prelude.{
  ℕ, zero, suc, ◌+◌, ◌-◌, ◌/◌, ◌%◌, ◌^◌, Bool, true, false, not, ◌&&◌, ltb, leb, ◌==◌,
  if◌then◌else◌, get_or,
}
use project_os.Outcome.{Outcome, ok, err, panic}
use project_os.Outcome.Exec.{Exec, pure, fail, modify, ◌>>=◌, ◌>>◌}
use project_os.BigLock.{BigLock, vfs_biglock_acquire, vfs_biglock_release}
use project_os.Sfs.{Block, File, Fs, Vnode, on_fs, ndirect, dbperidb, blocksize}
use project_os.Sfs.Block.{get_word, set_word}
use project_os.Sfs.Io.{sfs_readblock, sfs_writeblock}
use project_os.Sfs.Balloc.{sfs_bfree}
use project_os.Sfs.Bmap.{with_direct, with_indirect}

abbrev pub with_lock : File → BigLock → File
with_lock s l = record s { fs = record s.fs { lock = l } }

-- A call of the big lock's functions.
abbrev pub relock : Outcome BigLock → Exec File (Unit {0})
relock (ok l) s = (ok tt, with_lock s l)
relock (err e) s = (err e, s)
relock panic s = (panic, s)

-- DIVROUNDUP(len, SFS_BLOCKSIZE), kept in a uint32_t
abbrev pub block_length : ℕ → ℕ
block_length len = (len + (blocksize - 1)) / blocksize % 2 ^ 32

-- The body of the loop over the direct blocks.
unfoldable pub free_direct : (blocklen i : ℕ) → Exec File (Unit {0})
free_direct blocklen i s =
    let block = get_or s.direct i 0 in
    if leb blocklen i && not (block == 0)
    then (on_fs (sfs_bfree block) >> modify (λ s. with_direct s i 0)) s
    else (ok tt, s)

unfoldable pub trunc_directs : (blocklen n i : ℕ) → Exec File (Unit {0})
trunc_directs blocklen zero i = pure tt
trunc_directs blocklen (suc n) i = free_direct blocklen i >> trunc_directs blocklen n (i + 1)

-- The variables of the loop over the indirect block.
pub record Scan : Type 0 where
  pub idbuf : Block
  pub hasnonzero : Bool
  pub iddirty : Bool

-- if (idbuf[j] != 0) hasnonzero = 1
abbrev pub noticed : ℕ → Scan → Scan
noticed j sc = if get_word sc.idbuf j == 0 then sc else record sc { hasnonzero = true }

abbrev pub dropped : ℕ → Scan → Scan
dropped j sc = record sc { idbuf = set_word sc.idbuf j 0; iddirty = true }

-- The body of the loop over the indirect block.
unfoldable pub scan_entry : (blocklen j : ℕ) → Scan → Exec File Scan
scan_entry blocklen j sc s =
    let block = get_word sc.idbuf j in
    if ltb blocklen (ndirect + j) && not (block == 0)
    then (on_fs (sfs_bfree block) >> pure (noticed j (dropped j sc))) s
    else (ok (noticed j sc), s)

unfoldable pub scan_entries : (blocklen n j : ℕ) → Scan → Exec File Scan
scan_entries blocklen zero j sc = pure sc
scan_entries blocklen (suc n) j sc = scan_entry blocklen j sc >>= scan_entries blocklen n (j + 1)

-- Behind the loop over the indirect block.
unfoldable pub store_entries : (idblock : ℕ) → Scan → Exec File (Unit {0})
store_entries idblock sc s =
    if not sc.hasnonzero
    then (on_fs (sfs_bfree idblock) >> modify (λ s. with_indirect s 0)) s
    else if sc.iddirty
    then on_fs (sfs_writeblock idblock sc.idbuf) s
    else (ok tt, s)

-- The indirect block, where some of its blocks may have to go.
abbrev pub trunc_words : (blocklen idblock : ℕ) → Exec File (Unit {0})
trunc_words blocklen idblock = do
  buf ← on_fs (sfs_readblock idblock)
  sc ←
      scan_entries blocklen dbperidb 0 (record { idbuf = buf; hasnonzero = false; iddirty = false })
  store_entries idblock sc

unfoldable pub trunc_indirect : (blocklen : ℕ) → Exec File (Unit {0})
trunc_indirect blocklen s =
    let idblock = s.indirect in
    if ltb blocklen (ndirect + dbperidb - 1) && not (idblock == 0)
    then trunc_words blocklen idblock s
    else (ok tt, s)

abbrev pub with_size : ℕ → File → File
with_size len s = record s {
  sv = record s.sv { inode = record s.sv.inode { size = len % 2 ^ 32 }; dirty = true };
}

-- Between the acquisition and the release of the big lock.
unfoldable pub trunc_body : (len : ℕ) → Exec File (Unit {0})
trunc_body len = do
  trunc_directs (block_length len) ndirect 0
  trunc_indirect (block_length len)
  modify (with_size len)

abbrev pub released : Outcome (Unit {0}) → Exec File (Unit {0})
released (ok _) s = relock (vfs_biglock_release s.lock) s
released (err e) s = (relock (vfs_biglock_release s.lock) >> fail e) s
released panic s = (panic, s)

abbrev pub unlock_after : Exec File (Unit {0}) → Exec File (Unit {0})
unlock_after body s = released (body s).0 (body s).1

unfoldable pub sfs_itrunc : (len : ℕ) → Exec File (Unit {0})
sfs_itrunc len s = (relock (vfs_biglock_acquire s.lock) >> unlock_after (trunc_body len)) s
