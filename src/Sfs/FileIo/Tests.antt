-- ===== src/Sfs/FileIo/Tests.antt =====
-- The theorems on sfs_io and sfs_metaio of kern/fs/sfs/sfs_io.c and on kern/lib/uio.c, at a small
-- file and a region of kernel memory.
use project_os.Prelude.{refl, false, arith, ◌∷◌, []}
use project_os.Outcome.Ends.{Ends}
use project_os.Uio.{Uio, uio_sysspace, UioRw, uio_read, uio_write, UserCopy, uiomove}
use project_os.Uio.View.{total, HasRoom}
use project_os.Uio.Region.{Done, Faulted}
use project_os.Uio.Move.{uiomove-Ends}
use project_os.Sfs.Block.{zeros}
use project_os.Sfs.Meta.{sfs_metaio}
use project_os.Sfs.Meta.View.{Intact, Written}
use project_os.Sfs.Meta.Correct.{sfs_metaio_write}
use project_os.Sfs.FileIo.{Request, sfs_io}
use project_os.Sfs.FileIo.Step.{Did, Quit}
use project_os.Sfs.FileIo.Read.{CanRead, read_len, sfs_io_read}
use project_os.Sfs.FileIo.Write.{CanWrite, WroteAll, WroteSome, sfs_io_write}
use project_os.Sfs.Tests.{once, small_file, small_file-IsFile}

abbrev no_faults : UserCopy
no_faults = record { faults = λ base size. false; torn = λ dst at src size. dst }

-- Two regions of kernel memory, the first of them empty, for 600 bytes at offset 10.
abbrev regions : UioRw → Uio
regions dir = record {
  iov = record { base = 100; len = 0 } ∷ record { base = 200; len = 600 } ∷ [];
  offset = 10;
  resid = 600;
  segflg = uio_sysspace;
  rw = dir;
  mem = λ k. 7;
}

regions-HasRoom : (dir : UioRw) → HasRoom 600 (regions dir)
unfolding total
regions-HasRoom dir = record { asked = omega arith; regions = omega arith; small = omega arith }

abbrev request : UioRw → Request
request dir = record { file = small_file once; uio = regions dir }

uiomove-Ends_example :
    Ends
      (Done zeros 0 600 (regions uio_write))
      (Faulted (regions uio_write))
      (uiomove no_faults zeros 0 600 (regions uio_write))
uiomove-Ends_example =
    uiomove-Ends no_faults zeros 0 600 (regions uio_write) (regions-HasRoom uio_write)

sfs_metaio_write_example :
    Ends
      (λ out s'. Written 1024 zeros 64 (small_file once) s')
      (λ e s'. Intact (small_file once) s')
      (sfs_metaio 1024 zeros 64 uio_write (small_file once))
sfs_metaio_write_example =
    sfs_metaio_write 1024 zeros 64 (omega arith) (omega arith) (small_file once) small_file-IsFile

request-CanRead : CanRead (request uio_read)
unfolding total
request-CanRead = record {
  file = small_file-IsFile;
  sized = omega arith;
  regions = omega arith;
  small = omega arith;
  disk = omega arith;
  reads = refl;
  some_ = λ e. ground arith;
}

request-CanWrite : CanWrite (request uio_write)
request-CanWrite = record {
  ready = record {
    file = small_file-IsFile;
    room = regions-HasRoom uio_write;
    fits = omega arith;
    disk = omega arith;
  };
  writes = refl;
  some_ = λ e. ground arith;
}

sfs_io_read_example :
    Ends
      (λ _ s'. Did (read_len (request uio_read)) (request uio_read) s')
      (λ e s'. Quit (read_len (request uio_read)) (request uio_read) s')
      (sfs_io no_faults (request uio_read))
sfs_io_read_example = sfs_io_read no_faults (request uio_read) request-CanRead

sfs_io_write_example :
    Ends
      (λ _ s'. WroteAll (request uio_write) s')
      (λ e s'. WroteSome (request uio_write) s')
      (sfs_io no_faults (request uio_write))
sfs_io_write_example = sfs_io_write no_faults (request uio_write) request-CanWrite
