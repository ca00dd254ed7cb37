-- ===== src/Sfs/FileIo.antt =====
-- File I/O of kern/fs/sfs/sfs_io.c: sfs_partialio, sfs_blockio and sfs_io, for a request of a file
-- and a uio. For a whole block the device moves the bytes itself: on a read to the uio's regions
-- when it has read the block, on a write out of them before it writes.
pub mod Step
pub mod Blocks
pub mod Partial
pub mod Whole
pub mod Correct
pub mod Read
pub mod Write
pub mod Tests
use project_os.Prelude.{
  ℕ, zero, suc, ◌+◌, ◌-◌, ◌*◌, ◌/◌, ◌%◌, ◌^◌, Bool, true, false, not, ◌&&◌, ltb, leb, ◌==◌,
  if◌then◌else◌,
}
use project_os.Outcome.{Outcome, ok, err, panic}
use project_os.Outcome.Exec.{Exec, pure, kassert, continue, ◌>>=◌, ◌>>◌}
use project_os.Libc.{Memory}
use project_os.Uio.{
  Uio, UioRw, uio_read, uio_write, is_write, is_read, UserCopy, uiomove, uiomovezeros,
}
use project_os.Sfs.{Block, File, Fs, Vnode, on_fs, blocksize}
use project_os.Sfs.Block.{zeros}
use project_os.Sfs.Io.{sfs_rwblock, reading, writing, sfs_readblock, sfs_writeblock}
use project_os.Sfs.Bmap.{sfs_bmap}

pub record Request : Type 0 where
  pub file : File
  pub uio : Uio

module _ {A : Type 0} where
  abbrev pub on_file : Exec File A → Exec Request A
  on_file m s = ((m s.file).0, record s { file = (m s.file).1 })

  abbrev pub on_uio : Exec Uio A → Exec Request A
  on_uio m s = ((m s.uio).0, record s { uio = (m s.uio).1 })

-- The block in the file at the uio's offset, kept in a uint32_t
abbrev pub file_block : Request → ℕ
file_block s = s.uio.offset / blocksize % 2 ^ 32

-- What the device finds in `diskoff = diskblock * SFS_BLOCKSIZE`: both factors have 32 bits, and so
-- has the product.
abbrev pub device_block : ℕ → ℕ
device_block diskblock = diskblock * blocksize % 2 ^ 32 / blocksize

-- Behind the label `out`.
unfoldable pub io_out : (origresid extraresid : ℕ) → Request → Request
io_out origresid extraresid s =
    let grows =
      not (s.uio.resid == origresid) && (is_write s.uio.rw && ltb s.file.size s.uio.offset) in
    let sv = s.file.sv in
    let inode = record sv.inode { size = s.uio.offset % 2 ^ 32 } in
    record {
      file =
          if grows
          then record s.file { sv = record sv { inode = inode; dirty = true } }
          else s.file;
      uio = record s.uio { resid = (s.uio.resid + extraresid) % 2 ^ 32 };
    }

abbrev pub less_resid : ℕ → Request → Request
less_resid extraresid s = record s { uio = record s.uio { resid = s.uio.resid - extraresid } }

module _ (user : UserCopy) where
  -- The buffer of sfs_partialio before the move.
  unfoldable pub partial_fill : (diskblock : ℕ) → Exec Request Block
  partial_fill diskblock s =
      if diskblock == 0
      then (kassert (is_read s.uio.rw) >> pure zeros) s
      else on_file (on_fs (sfs_readblock diskblock)) s

  -- If it was a write, the modified block is written back.
  unfoldable pub partial_store : (diskblock : ℕ) → Block → UioRw → Exec Request (Unit {0})
  partial_store diskblock iobuf uio_read = pure tt
  partial_store diskblock iobuf uio_write = on_file (on_fs (sfs_writeblock diskblock iobuf))

  unfoldable pub partial_move : (skipstart len diskblock : ℕ) → Exec Request (Unit {0})
  partial_move skipstart len diskblock = do
    iobuf ← partial_fill diskblock
    iobuf' ← on_uio (uiomove user iobuf skipstart len)
    λ s. partial_store diskblock iobuf' s.uio.rw s

  unfoldable pub sfs_partialio : (skipstart len : ℕ) → Exec Request (Unit {0})
  sfs_partialio skipstart len = do
    kassert (leb ((skipstart + len) % 2 ^ 32) blocksize)
    λ s. kassert s.file.lock.held s
    diskblock ← (λ s. on_file (sfs_bmap (file_block s) (is_write s.uio.rw)) s)
    partial_move skipstart len diskblock

  -- A whole block that was taken from the uio's regions, and the uio then: lhd_io takes the bytes
  -- before it knows how the write ends.
  unfoldable pub block_store : (diskblock : ℕ) → Outcome Block × Uio → Exec Request (Unit {0})
  block_store diskblock (ok block, u) s =
      on_file (on_fs (sfs_rwblock (writing (device_block diskblock) block))) (record s { uio = u })
  block_store diskblock (err e, u) s = (err e, record s { uio = u })
  block_store diskblock (panic, u) s = (panic, s)

  -- The call of sfs_rwblock in sfs_blockio.
  unfoldable pub block_transfer : (diskblock : ℕ) → UioRw → Exec Request (Unit {0})
  block_transfer diskblock uio_read s =
      (do
        block ← on_file (on_fs (sfs_rwblock (reading (device_block diskblock))))
        rest ← on_uio (uiomove user block 0 blocksize)
        pure tt)
        s
  block_transfer diskblock uio_write s =
      block_store diskblock (uiomove user zeros 0 blocksize s.uio) s

  unfoldable pub block_move : (diskblock : ℕ) → Exec Request (Unit {0})
  block_move diskblock s =
      if diskblock == 0
      then (kassert (is_read s.uio.rw) >> on_uio (uiomovezeros user blocksize)) s
      else (kassert (leb blocksize s.uio.resid) >> block_transfer diskblock s.uio.rw) s

  unfoldable pub sfs_blockio : Exec Request (Unit {0})
  sfs_blockio = do
    diskblock ← (λ s. on_file (sfs_bmap (file_block s) (is_write s.uio.rw)) s)
    block_move diskblock

  -- The loop over the whole blocks, with those that are left.
  unfoldable pub io_blocks : ℕ → Exec Request (Unit {0})
  io_blocks zero = pure tt
  io_blocks (suc n) = do sfs_blockio; io_blocks n

  -- The leading partial block.
  unfoldable pub io_lead : Exec Request (Unit {0})
  io_lead s =
      let blkoff = s.uio.offset % blocksize in
      let len = blocksize - blkoff in
      if blkoff == 0
      then (ok tt, s)
      else sfs_partialio blkoff (if ltb s.uio.resid len then s.uio.resid else len) s

  -- The partial block at the end.
  unfoldable pub io_tail : Exec Request (Unit {0})
  io_tail s =
      (kassert (ltb s.uio.resid blocksize)
          >> (if ltb 0 s.uio.resid then sfs_partialio 0 s.uio.resid else pure tt))
        s

  -- The rest, behind the leading partial block.
  unfoldable pub io_rest : Exec Request (Unit {0})
  io_rest s =
      if s.uio.resid == 0
      then (ok tt, s)
      else (do
        kassert (s.uio.offset % blocksize == 0)
        io_blocks (s.uio.resid / blocksize)
        io_tail)
          s

  unfoldable pub io_body : (origresid extraresid : ℕ) → Exec Request (Unit {0})
  io_body origresid extraresid s =
      let (r, s') = (io_lead >> io_rest) s in (r, io_out origresid extraresid s')

  -- A read that would pass the end of the file is cut there.
  unfoldable pub sfs_io : Exec Request (Unit {0})
  sfs_io s =
      let endpos = s.uio.offset + s.uio.resid in
      let extraresid = (endpos - s.file.size) % 2 ^ 32 in
      if is_read s.uio.rw && leb s.file.size s.uio.offset
      then (ok tt, s)
      else if is_read s.uio.rw && ltb s.file.size endpos
      then (kassert (ltb extraresid s.uio.resid) >> λ s.
            io_body (s.uio.resid) extraresid (less_resid extraresid s))
          s
      else io_body s.uio.resid 0 s
