-- ===== src/Sfs.antt =====
-- The file system SFS of kern/fs/sfs: its state in memory, on the disk and on the way to it.
-- A `Fs` is struct sfs_fs with the contents of the device under it; a `File` adds the struct
-- sfs_vnode that an operation works on.
pub mod Block
pub mod Io
pub mod Balloc
pub mod Bmap
pub mod Trunc
pub mod Content
pub mod Meta
pub mod Dir
pub mod FileIo
pub mod Inode
pub mod Tests
use project_os.Prelude.{ℕ, Bool, List, Option}
use project_os.Outcome.{Outcome, Errno}
use project_os.Outcome.Exec.{Exec}
use project_os.Bitmap.{Bitmap}
use project_os.BigLock.{BigLock}

-- A disk block: the byte at each offset below SFS_BLOCKSIZE.
abbrev pub Block : Type 0
Block = ℕ → ℕ

abbrev pub blocksize : ℕ
blocksize = 512

-- SFS_NDIRECT, SFS_NINDIRECT and SFS_DBPERIDB of kern/include/kern/sfs.h
abbrev pub ndirect : ℕ
ndirect = 15

abbrev pub nindirect : ℕ
nindirect = 1

abbrev pub dbperidb : ℕ
dbperidb = 128

-- What the device will say to a request, if it is to read, and if it is to write (`none`: it does
-- as asked).
abbrev pub Answer : Type 0
Answer = Option Errno × Option Errno

-- struct sfs_fs: the freemap, the number of blocks that the superblock states, the device's
-- contents, and what the device will answer to the requests to come.
-- When the list is used up it does as asked.
pub record Fs : Type 0 where
  pub freemap : Bitmap
  pub freemapdirty : Bool
  pub nblocks : ℕ
  pub disk : ℕ → Block
  pub answers : List Answer
  pub lock : BigLock

-- struct sfs_dinode, its fields sfi_size, sfi_type, sfi_linkcount, sfi_direct and sfi_indirect
pub record Dinode : Type 0 where
  pub size : ℕ
  pub kind : ℕ
  pub linkcount : ℕ
  pub direct : List ℕ
  pub indirect : ℕ

-- struct sfs_vnode
pub record Vnode : Type 0 where
  pub inode : Dinode
  pub open inode use *
  pub ino : ℕ
  pub dirty : Bool

pub record File : Type 0 where
  pub fs : Fs
  pub open fs use *
  pub sv : Vnode
  pub open sv use *

-- What an operation on the file system does to the state of an operation on a file.
abbrev pub on_fs : {A : Type 0} → Exec Fs A → Exec File A
on_fs m s = ((m s.fs).0, record s { fs = (m s.fs).1 })
