-- ===== src/Sfs/Bmap.antt =====
-- The block map of a file, kern/fs/sfs/sfs_bmap.c: sfs_bmap. The bodies of its branches are
-- functions of their own.
pub mod View
pub mod Steps
pub mod Mapping
pub mod Buffer
pub mod Correct
use project_os.Prelude.{
  ℕ, ◌-◌, ◌/◌, ◌%◌, ◌≤◌, Bool, true, false, not, ◌&&◌, ltb, leb, ◌==◌, if◌then◌else◌, get_or, set,
}
use project_os.Outcome.{Outcome, ok, err, panic, efbig}
use project_os.Outcome.Exec.{Exec, pure, fail, kassert, ◌>>=◌, ◌>>◌}
use project_os.Sfs.{Block, File, Fs, Vnode, on_fs, ndirect, nindirect, dbperidb}
use project_os.Sfs.Block.{zeros, get_word, set_word}
use project_os.Sfs.Io.{sfs_readblock, sfs_writeblock}
use project_os.Sfs.Balloc.{sfs_balloc, sfs_bused}

-- `sv->sv_i.sfi_direct[k] = block; sv->sv_dirty = true`
abbrev pub with_direct : File → ℕ → ℕ → File
with_direct s k block = record s {
  sv = record s.sv {
    inode = record s.sv.inode { direct = set s.sv.inode.direct k block };
    dirty = true;
  };
}

-- `sv->sv_i.sfi_indirect = idblock; sv->sv_dirty = true`
abbrev pub with_indirect : File → ℕ → File
with_indirect s idblock = record s {
  sv = record s.sv { inode = record s.sv.inode { indirect = idblock }; dirty = true };
}

-- The block that is handed back must be marked in the freemap, or be 0.
unfoldable pub hand_back : ℕ → Exec File ℕ
hand_back block s =
    if block == 0
    then (ok 0, s)
    else (do used ← on_fs (sfs_bused block); kassert used; pure block) s

-- fileblock < SFS_NDIRECT
unfoldable pub bmap_direct : ℕ → Bool → Exec File ℕ
bmap_direct k doalloc s =
    let block = get_or s.direct k 0 in
    if (block == 0) && doalloc
    then (do new ← on_fs sfs_balloc; λ s. hand_back new (with_direct s k new)) s
    else hand_back block s

-- From `block = idbuf[idoff]` on.
unfoldable pub bmap_buffer : (idblock : ℕ) → (idbuf : Block) → (idoff : ℕ) → Bool → Exec File ℕ
bmap_buffer idblock idbuf idoff doalloc s =
    let block = get_word idbuf idoff in
    if (block == 0) && doalloc
    then (do
      new ← on_fs sfs_balloc
      on_fs (sfs_writeblock idblock (set_word idbuf idoff new))
      hand_back new)
        s
    else hand_back block s

-- Behind the test of `idnum`.
unfoldable pub bmap_indirect : (idoff : ℕ) → Bool → Exec File ℕ
bmap_indirect idoff doalloc s =
    let idblock = s.indirect in
    if (idblock == 0) && not doalloc
    then (ok 0, s)
    else if idblock == 0
    then (do new ← on_fs sfs_balloc; λ s. bmap_buffer new zeros idoff doalloc (with_indirect s new))
        s
    else (do idbuf ← on_fs (sfs_readblock idblock); bmap_buffer idblock idbuf idoff doalloc) s

-- Behind the assertion that the lock is held.
abbrev pub bmap_from : ℕ → Bool → Exec File ℕ
bmap_from fileblock doalloc s =
    if ltb fileblock ndirect
    then bmap_direct fileblock doalloc s
    else if leb nindirect ((fileblock - ndirect) / dbperidb)
    then (err efbig, s)
    else bmap_indirect ((fileblock - ndirect) % dbperidb) doalloc s

unfoldable pub sfs_bmap : (fileblock : ℕ) → (doalloc : Bool) → Exec File ℕ
sfs_bmap fileblock doalloc s = (kassert s.lock.held >> bmap_from fileblock doalloc) s
