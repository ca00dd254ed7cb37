-- ===== src/Sfs/Meta.antt =====
-- Metadata I/O of kern/fs/sfs/sfs_io.c: sfs_metaio. A buffer of the caller is a function from
-- offsets to bytes.
pub mod View
pub mod Correct
use project_os.Prelude.{
  ℕ, ◌+◌, ◌-◌, ◌/◌, ◌%◌, ◌^◌, Bool, true, false, ◌&&◌, ltb, leb, ◌==◌, if◌then◌else◌,
}
use project_os.Outcome.Exec.{Exec, pure, kassert, ◌>>=◌, ◌>>◌}
use project_os.Uio.{UioRw, uio_read, uio_write, is_write, is_read, copy_to, copy_from}
use project_os.Sfs.{Block, File, Fs, Vnode, on_fs, blocksize}
use project_os.Sfs.Block.{zeros}
use project_os.Sfs.Io.{sfs_readblock, sfs_writeblock}
use project_os.Sfs.Bmap.{sfs_bmap}

-- The size of the file after a transfer that ends at `endpos`.
unfoldable pub grow_to : ℕ → File → File
grow_to endpos s =
    if ltb s.size endpos
    then record s {
      sv = record s.sv { inode = record s.sv.inode { size = endpos % 2 ^ 32 }; dirty = true };
    }
    else s

-- From the test of `rw` on, with the block read into `metaiobuf`.
unfoldable pub meta_move :
    (pos : ℕ)
    → (buf : Block) → (len : ℕ) → UioRw
    → (block : ℕ) → (metaiobuf : Block) → Exec File Block
meta_move pos buf len uio_read block metaiobuf =
    pure (copy_from buf metaiobuf (pos % blocksize) len)
meta_move pos buf len uio_write block metaiobuf = do
  on_fs (sfs_writeblock block (copy_to metaiobuf (pos % blocksize) buf len))
  λ s. pure buf (grow_to (pos + len) s)

-- Behind the call of sfs_bmap.
unfoldable pub meta_block :
    (pos : ℕ) → (buf : Block) → (len : ℕ) → UioRw → (block : ℕ) → Exec File Block
meta_block pos buf len dir block s =
    if block == 0
    then (kassert (is_read dir) >> pure (copy_from buf zeros 0 len)) s
    else (do metaiobuf ← on_fs (sfs_readblock block); meta_move pos buf len dir block metaiobuf) s

-- Hands back what the caller's buffer then holds.
unfoldable pub sfs_metaio : (actualpos : ℕ) → (buf : Block) → (len : ℕ) → UioRw → Exec File Block
sfs_metaio actualpos buf len dir = do
  λ s. kassert s.lock.held s
  block ← sfs_bmap (actualpos / blocksize % 2 ^ 32) (is_write dir)
  meta_block actualpos buf len dir block
