-- ===== src/Sfs/FileIo/Write.antt =====
-- The theorem on writes by sfs_io of kern/fs/sfs/sfs_io.c.
use project_os.Prelude.{
  ℕ, ◌+◌, ◌-◌, ◌%◌, ◌^◌, ◌<◌, ◌≡◌, ◌≢◌, refl, ◌∙◌, subst, Bool, true, false, not, ◌&&◌, ltb, ◌==◌,
  if◌then◌else◌, Bool-cases, inl, inr, arith,
}
use project_os.Outcome.Ends
use project_os.Outcome.Ends.{Ends, returns, fails}
use project_os.Uio.{uio_write, is_read, UserCopy}
use project_os.Uio.View.{addr, Advanced}
use project_os.Sfs.{File}
use project_os.Sfs.Bmap.View.{entry, IsFile}
use project_os.Sfs.Content.{max_size, content}
use project_os.Sfs.FileIo.{Request, io_out, io_body, sfs_io}
use project_os.Sfs.FileIo.Step.{covers, Bytes, Did, Quit, Ready}
use project_os.Sfs.FileIo.Correct.{body-Steps}
use project_os.Sfs.FileIo.Read.{after-Ends}

-- A write of a byte at least that can be made: the uio's regions have the bytes, and they end
-- within the size that a file can have.
pub record CanWrite (s : Request) : Type 0 where
  pub ready : Ready s.uio.resid s
  pub writes : s.uio.rw ≡ uio_write
  pub some_ : s.uio.resid ≢ 0

-- The file has the bytes of the uio's regions from the offset on, and reaches to their end.
pub record WroteAll (s s' : Request) : Type 0 where
  pub file : IsFile s'.file
  pub bytes :
      (o : ℕ)
      → o < max_size
      → content s'.file o ≡ (
          if covers s.uio.resid s o
          then s.uio.mem (addr s.uio.iov (o - s.uio.offset))
          else content s.file o)
  pub size : s'.file.size ≡ (
      if ltb s.file.size (s.uio.offset + s.uio.resid)
      then s.uio.offset + s.uio.resid
      else s.file.size)
  pub kind : s'.file.kind ≡ s.file.kind
  pub lock : s'.file.lock ≡ s.file.lock
  pub mem : s'.uio.mem ≡ s.uio.mem
  pub adv : Advanced s.uio.resid s.uio s'.uio

-- Outside of the bytes that were asked for the file is as before.
pub record WroteSome (s s' : Request) : Type 0 where
  pub file : IsFile s'.file
  pub outside :
      (o : ℕ) → o < max_size → covers s.uio.resid s o ≡ false → content s'.file o ≡ content s.file o
  pub kind : s'.file.kind ≡ s.file.kind
  pub lock : s'.file.lock ≡ s.file.lock

-- The new size is stored.
abbrev sized : ℕ → File → File
sized n f = record f { sv = record f.sv { inode = record f.sv.inode { size = n }; dirty = true } }

sized-IsFile : (f : File) (n : ℕ) → IsFile f → IsFile (sized n f)
unfolding entry
sized-IsFile f n file = record {
  sound = file.sound;
  directs = file.directs;
  blocks = file.blocks;
  table = file.table;
  distinct = file.distinct;
  apart = file.apart;
}

-- Only the size may differ.
abbrev SameButSize : File → File → Type 0
SameButSize f g =
    IsFile g × ((o : ℕ) → content g o ≡ content f o) × (g.kind ≡ f.kind) × (g.lock ≡ f.lock)

sized-Same : (b : Bool) (n : ℕ) (f : File) → IsFile f → SameButSize f (if b then sized n f else f)
unfolding content entry
sized-Same true n f file = (sized-IsFile f n file, λ o. refl, refl, refl)
sized-Same false n f file = (file, λ o. refl, refl, refl)

module _ (s : Request) (can : CanWrite s) where
  -- What `out` does to the size behind a write that got as far as `t`.
  out_file :
      (t : Request)
      → t.uio.rw ≡ uio_write
      → (io_out s.uio.resid 0 t).file ≡ (
          if not (t.uio.resid == s.uio.resid) && ltb t.file.size t.uio.offset
          then sized (t.uio.offset % 2 ^ 32) t.file
          else t.file)
  unfolding io_out
  out_file t e = rw e

  out_size :
      (t : Request)
      → t.uio.rw ≡ uio_write
      → (t.uio.resid == s.uio.resid) ≡ false
      → (io_out s.uio.resid 0 t).file.size
        ≡ (if ltb t.file.size t.uio.offset then t.uio.offset % 2 ^ 32 else t.file.size)
  unfolding io_out
  out_size t writes moved = elim (Bool-cases (ltb t.file.size t.uio.offset)) [
    | inl e ↦ rw (moved, writes, e)
    | inr e ↦ rw (moved, writes, e)
  ]

  out_Same :
      (t : Request)
      → t.uio.rw ≡ uio_write
      → IsFile t.file
      → SameButSize t.file (io_out s.uio.resid 0 t).file
  out_Same t writes file = rw (out_file t writes) (sized-Same _ (t.uio.offset % 2 ^ 32) t.file file)

  final_size :
      (t : Request)
      → Did s.uio.resid s t
      → (io_out s.uio.resid 0 t).file.size ≡ (
          if ltb s.file.size (s.uio.offset + s.uio.resid)
          then s.uio.offset + s.uio.resid
          else s.file.size)
  final_size t a =
      let moved : (t.uio.resid == s.uio.resid) ≡ false = ground (arith, can.some_, a.adv.resid) in
      let small : t.uio.offset % 2 ^ 32 ≡ t.uio.offset =
        omega (arith, a.adv.offset, can.ready.fits) in
      ground
        (arith, out_size t (a.keeps.rw_lem ∙ can.writes) moved, a.adv.offset, a.keeps.size, small)

  wrote_all : (t : Request) → Did s.uio.resid s t → WroteAll s (io_out s.uio.resid 0 t)
  unfolding io_out
  wrote_all t a =
      let writes = a.keeps.rw_lem ∙ can.writes in
      let (bytes, mem) = subst (λ d. Bytes d s.uio.resid s t) can.writes a.bytes in
      let none_ : t.uio.resid ≡ 0 = omega (arith, a.adv.resid) in
      let (file, same, kind, lock) = out_Same t writes a.keeps.file in
      record {
        file = file;
        bytes = λ o h. same o ∙ bytes o h;
        size = final_size t a;
        kind = kind ∙ a.keeps.kind;
        lock = lock ∙ a.keeps.lock;
        mem = mem;
        adv = record {
          offset = a.adv.offset;
          resid = omega (arith, none_, a.adv.resid);
          total_lem = a.adv.total_lem;
          addrs = a.adv.addrs;
          rw_lem = a.adv.rw_lem;
          segflg = a.adv.segflg;
        };
      }

  wrote_some : (t : Request) → Quit s.uio.resid s t → WroteSome s (io_out s.uio.resid 0 t)
  wrote_some t q =
      let writes = q.keeps.rw_lem ∙ can.writes in
      let (file, same, kind, lock) = out_Same t writes q.keeps.file in
      record {
        file = file;
        outside = λ o h out. same o ∙ q.outside o h (ground arith);
        kind = kind ∙ q.keeps.kind;
        lock = lock ∙ q.keeps.lock;
      }

-- A write by sfs_io to a consistent file, of at least one byte and within the size that a file can
-- have, from regions of the uio that have that many bytes, less than 2^32, to a disk of at most
-- 2^23 blocks that answers no write with an I/O error, does not panic. If it returns 0 the file has
-- the bytes of the uio's regions from the uio's offset on in place of what it held there, and every
-- other byte as before; its size grows to the end of the write if it was smaller. If it returns an
-- error no byte outside of those has changed. Either way the file stays consistent.
pub sfs_io_write :
    (user : UserCopy) (s : Request)
    → CanWrite s
    → Ends (λ _ s'. WroteAll s s') (λ e s'. WroteSome s s') (sfs_io user s)
unfolding sfs_io io_body
sfs_io_write user s can =
    let writes : is_read s.uio.rw ≡ false = rw can.writes in
    rw writes (
      Ends.mono (after-Ends (io_out s.uio.resid 0) (body-Steps user s can.ready can.some_))
        (λ _ s' (t, a, e). rw e (wrote_all s can t a))
        (λ _ s' (t, q, e). rw e (wrote_some s can t q)))
