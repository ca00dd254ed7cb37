-- ===== src/Lib.antt =====
-- A verification of parts of OS/161, os161/os161-base-2.0.3: of its kernel, in kern, of the C
-- library that kernel and user programs share, in common/libc, and of malloc, in userland/lib/libc.
--
-- OS/161 is a teaching kernel for a simulated MIPS machine. Its file system SFS keeps files as
-- numbered blocks of 512 bytes; the freemap says which blocks are in use, the inode of a file names
-- fifteen blocks, and an indirect block 128 more. All file system operations run under one
-- recursive lock. System calls move data between user and kernel memory with copyin, copyout and
-- their string forms. Threads wait on doubly linked lists. A spinlock that would wait for itself is
-- found by hangman, a search of who holds what. User programs allocate memory with malloc, from a
-- heap of blocks with headers that sbrk makes longer.
--
-- The files, and the code that each is about (paths below os161/os161-base-2.0.3):
--   Prelude      names and lemmas that all modules share
--   Outcome      error numbers, results, and functions that change a state and may fail;
--                Outcome.Ends says how such a function ends, and that it does not panic
--   Bitmap       kern/lib/bitmap.c: Bitmap is struct bitmap, with the words as a list of bytes
--   BigLock      kern/vfs/vfslist.c: vfs_biglock_acquire and vfs_biglock_release
--   Sfs          kern/include/sfs.h: Fs is struct sfs_fs with the blocks of the device, Vnode is
--                struct sfs_vnode, and File is both
--   Sfs.Io       kern/fs/sfs/sfs_io.c: sfs_rwblock, sfs_readblock and sfs_writeblock
--   Sfs.Content  the bytes of a file, as its blocks hold them
--   Sfs.Meta     kern/fs/sfs/sfs_io.c: sfs_metaio
--   Sfs.FileIo   kern/fs/sfs/sfs_io.c: sfs_partialio, sfs_blockio and sfs_io, for a Request of a
--                file and a uio. Step has what a part of a transfer does, Blocks, Partial and Whole
--                one block, Correct the parts of sfs_io, Read and Write the theorems
--   Sfs.Dir      kern/fs/sfs/sfs_dir.c. Names has the names in entries, View the slots and the map
--                from names to inode numbers, Findname the search, Slots, Change and Link the
--                changes
--   Uio          kern/lib/uio.c: Uio is struct uio with the memory that its regions lie in. View
--                has the bytes of the regions in their order, Region one round, Move uiomove, Zeros
--                uiomovezeros
--   Libc         common/libc/string: Strings with the theorems in Correct, and Moves, for memory,
--                with those in Copying
--   Sfs.Block    the indirect block as an array of words
--   Sfs.Balloc   kern/fs/sfs/sfs_balloc.c: sfs_clearblock, sfs_balloc, sfs_bfree, sfs_bused
--   Sfs.Bmap     kern/fs/sfs/sfs_bmap.c: sfs_bmap. View has the block map of a file, Steps the
--                state changes, Mapping, Buffer and Correct the theorem
--   Sfs.Trunc    kern/fs/sfs/sfs_bmap.c: sfs_itrunc. Trimmed has the loss of blocks from a map,
--                Directs and Entries the two loops, Cut and Stored the rest, Correct the theorem
--   Sfs.Inode    kern/fs/sfs/sfs_inode.c: Mount is Fs with the table of loaded vnodes. Table has
--                its invariant, Load sfs_loadvnode, Make sfs_makeobj, Encoding struct sfs_dinode in
--                a block, Reclaim and Erase sfs_reclaim for a file with links and for one without
--   CopyInOut    kern/vm/copyinout.c. Check has copycheck, Bytes and Blocks copyin and copyout,
--                Loop and Strings copyinstr and copyoutstr
--   Vfs          kern/vfs/vfspath.c and kern/vfs/vnode.c, over the interface Ops of the vnode
--                operations and lookups. Refs has its laws, Counts vnode_decref, Paths and Open the
--                path operations
--   ThreadList   kern/thread/threadlist.c and kern/include/threadlist.h. Chain has the list that
--                the nodes form, Ends insertion and removal, Walk the loop over a list
--   Lock         kern/thread/synch.c: lock_acquire and lock_release as steps of many threads,
--                between which any other thread may run
--   Semaphore    kern/thread/synch.c: P and V as steps of many threads; Run has what has happened
--                to a semaphore
--   Hangman      kern/thread/hangman.c: Graph has a_waiting of the actors and l_holding of the
--                lockables, Walk the walk from holder to holder
--   Bswap        kern/lib/bswap.c
--   Malloc       userland/lib/libc/stdlib/malloc.c: Heap is the headers by their addresses, with
--                the ends of the heap; Allocate has malloc behind its search. View has the heap as
--                a sequence of blocks and the pieces in use, Split, Grant, Loop, Expand and Correct
--                are on malloc, Merge, Release and Free on free
--   Array        kern/lib/array.c and kern/include/array.h. Grow has the loop that finds the new
--                capacity, Correct the theorems
-- The modules called Tests apply the theorems to small concrete states.
--
-- An operation is a function from a state to an outcome and a state: 0 with a value, an error
-- number, or a panic (a failed KASSERT, a null pointer). Machine integers are natural numbers with
-- the wrap-around written out. A loop has the rounds that are left as its argument, counted from
-- the bound in the code, so no fuel is made up: eleven requests in sfs_rwblock, 15 and 128 entries
-- in sfs_itrunc, the shorter of the two lengths in copystr. THREADLIST_FORALL has no bound in the
-- code; its theorem gives the number of rounds that is enough. The loop of array_preallocate has 32
-- rounds, and Array.Grow shows that this is enough for 2^29 elements. The loop of uiomove has two
-- rounds for each region, that of uiomovezeros one for each byte, and a loop over a string as many
-- as the caller says, more than its length in every use here. The search of malloc has a round for
-- each 8 bytes of the heap and one more, which is enough since each header is 8 bytes. The search
-- of hangman has no bound in the code; its theorem says that there is a number of rounds that is
-- enough.
--
-- The disk driver is that of lhd_io, kern/dev/lamebus/lhd.c, for a uio of one block: it takes the data
-- of a write out of the uio before the disk has answered, so a write that meets an I/O error is lost,
-- and sfs_rwblock, which retries with what is left of the uio, returns 0. What the disk answers to a
-- read and to a write is an argument. A file system is called sound, and a file, a directory or a
-- table on it consistent, only if no answer is EINVAL, as for a block of the disk, and no write is
-- answered with EIO (IsPolite); reads may meet I/O errors.
--
-- What is assumed of code that is not modelled: the machine reaches every kernel address, and an
-- argument says which user addresses it reaches. A thread that acquires the big lock has waited for
-- the others, so the state in between is not shown. Reference counts are ints, and their overflow,
-- which is undefined, is taken for a panic. In file I/O an argument says at which user addresses
-- copyin and copyout fault. What sbrk returns is an argument, Sbrk, with the law that for less than
-- 2^31 bytes the break rises by what was asked for and stays in the address space; what kmalloc
-- answers in sfs_loadvnode is an argument. The bytes that free fills a piece with are an argument
-- too, as the header that they look like.
--
-- The laws of Ops are IsLawful: an operation returns 0 or an error, a lookup gives a vnode that is
-- not null, with a reference, and no other reference to a vnode in use is gained or lost.
--
-- Not modelled: the rest of SFS (vnode operations, mounting), the lookup of paths and devices, the
-- scheduler, the kernel heap, device drivers, system calls, and user space but malloc.
pub mod Prelude
pub mod Outcome
pub mod Bitmap
pub mod BigLock
pub mod Sfs
pub mod CopyInOut
pub mod Uio
pub mod ThreadList
pub mod Vfs
pub mod Array
pub mod Libc
pub mod Malloc
pub mod Semaphore
pub mod Hangman
pub mod Bswap
pub mod Lock
