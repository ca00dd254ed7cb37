-- ===== src/Sfs/FileIo/Read.antt =====
-- The theorem on reads by sfs_io of kern/fs/sfs/sfs_io.c.
use project_os.Prelude.{
  ℕ, ◌+◌, ◌-◌, ◌%◌, ◌^◌, ◌≤◌, ◌<◌, ◌≡◌, ◌≢◌, refl, sym, ◌∙◌, subst, true, ltb, leb, if◌then◌else◌,
  Bool-cases, inl, inr, arith,
}
use project_os.Outcome.{Errno, Outcome}
use project_os.Outcome.Ends
use project_os.Outcome.Ends.{Ends, returns, fails}
use project_os.Uio.{uio_read, is_read, UserCopy}
use project_os.Uio.View.{total}
use project_os.Sfs.Bmap.View.{IsFile}
use project_os.Sfs.Content.{max_size}
use project_os.Sfs.FileIo.{Request, io_out, io_body, sfs_io}
use project_os.Sfs.FileIo.Step.{Bytes, Did, Quit, Did-none}
use project_os.Sfs.FileIo.Correct.{Steps, body-Steps}

-- What is done with the state behind a run.
pub after-Ends :
    {A : Type 0} {P : A → Request → Type 0} {E : Errno → Request → Type 0} {r : Outcome A × Request}
    (g : Request → Request)
    → Ends P E r
    → Ends
        (λ a s'. (t : Request) × P a t × (s' ≡ g t))
        (λ e s'. (t : Request) × E e t × (s' ≡ g t))
        (r.0, g r.1)
after-Ends g (returns {s = t} p) = returns (t, p, refl)
after-Ends g (fails {s = t} p) = fails (t, p, refl)

-- The bytes that a read gets: those up to the end of the file.
abbrev pub read_len : Request → ℕ
read_len s =
    if leb s.file.size s.uio.offset
    then 0
    else if ltb s.file.size (s.uio.offset + s.uio.resid)
    then s.file.size - s.uio.offset
    else s.uio.resid

-- A read of a byte at least that can be made: the offsets of the uio do not overflow, and its regions have the bytes
-- that it asks for.
pub record CanRead (s : Request) : Type 0 where
  pub file : IsFile s.file
  pub sized : s.file.size ≤ max_size
  pub regions : s.uio.resid ≤ total s.uio.iov
  pub small : s.uio.offset + s.uio.resid < 2 ^ 32
  pub disk : s.file.nblocks ≤ 2 ^ 23
  pub reads : s.uio.rw ≡ uio_read
  pub some_ : s.uio.resid ≢ 0

module _ (s : Request) (can : CanRead s) where
  -- The read with `r` bytes to go, where `extra` bytes lie behind the end of the file.
  module _ (r extra : ℕ) (sum : r + extra ≡ s.uio.resid) where
    abbrev cut : Request
    cut = record s { uio = record s.uio { resid = r } }

    abbrev out : Request → Request
    out t = io_out s.uio.resid extra t

    same_file : (t : Request) → t.uio.rw ≡ uio_read → (out t).file ≡ t.file
    unfolding io_out
    same_file t e = rw e (ground arith)

    out-Did : (t : Request) → Did r cut t → Did r s (out t)
    unfolding io_out
    out-Did t a =
        let reads : t.uio.rw ≡ uio_read = a.keeps.rw_lem ∙ can.reads in
        let (same, moved) = subst (λ d. Bytes d r cut t) can.reads a.bytes in
        let f = same_file t reads in
        record {
          keeps = record {
            file = rw f a.keeps.file;
            size = rw f a.keeps.size;
            kind = rw f a.keeps.kind;
            nblocks = rw f a.keeps.nblocks;
            lock = rw f a.keeps.lock;
            rw_lem = a.keeps.rw_lem;
          };
          adv = record {
            offset = a.adv.offset;
            resid = omega (arith, a.adv.resid, can.small);
            total_lem = a.adv.total_lem;
            addrs = a.adv.addrs;
            rw_lem = a.adv.rw_lem;
            segflg = a.adv.segflg;
          };
          bytes = subst (λ d. Bytes d r s (out t)) (sym can.reads) (rw f same, moved);
        }

    out-Quit : (t : Request) → Quit r cut t → Quit r s (out t)
    unfolding io_out
    out-Quit t q =
        let reads : t.uio.rw ≡ uio_read = q.keeps.rw_lem ∙ can.reads in
        let f = same_file t reads in
        record {
          keeps = record {
            file = rw f q.keeps.file;
            size = rw f q.keeps.size;
            kind = rw f q.keeps.kind;
            nblocks = rw f q.keeps.nblocks;
            lock = rw f q.keeps.lock;
            rw_lem = q.keeps.rw_lem;
          };
          outside = rw f q.outside;
        }

    read-Steps :
        (user : UserCopy)
        → r ≢ 0
        → s.uio.offset + r ≤ max_size
        → Steps r s (io_body user s.uio.resid extra cut)
    unfolding io_body
    read-Steps user some_ fits =
        Ends.mono
          (after-Ends out (
            body-Steps user cut
              (record {
                file = can.file;
                room = record {
                  asked = omega arith;
                  regions = omega (arith, can.regions);
                  small = omega (arith, can.small);
                };
                fits = fits;
                disk = can.disk;
              })
              some_))
          (λ _ s' (t, a, e). rw e (out-Did t a)) (λ _ s' (t, q, e). rw e (out-Quit t q))

-- A read by sfs_io of a consistent file, which is not larger than its block map can hold, of at
-- least one byte, to regions of the uio that have room for all bytes asked for, with an end below
-- 2^32, from a disk of at most 2^23 blocks, does not panic. If it returns 0 it has stored the
-- file's bytes from the uio's offset on in the uio's regions, up to the end of the file; the offset
-- and the residue count exactly those bytes. The file, its size and its kind do not change, also
-- where it returns an error.
pub sfs_io_read :
    (user : UserCopy) (s : Request)
    → CanRead s
    → Ends (λ _ s'. Did (read_len s) s s') (λ e s'. Quit (read_len s) s s') (sfs_io user s)
unfolding sfs_io
sfs_io_read user s can =
    let reads : is_read s.uio.rw ≡ true = rw can.reads in
    elim (Bool-cases (leb s.file.size s.uio.offset)) [
      | inl e ↦ rw (reads, e) (returns (Did-none s can.file))
      | inr e ↦ elim (Bool-cases (ltb s.file.size (s.uio.offset + s.uio.resid))) [
        | inr fits ↦
            rw (reads, e, fits)
              (read-Steps s can s.uio.resid 0 (omega arith) user can.some_
                (ground (arith, can.sized)))
        | inl more ↦
            let extra = s.uio.offset + s.uio.resid - s.file.size in
            let small : extra % 2 ^ 32 ≡ extra = omega (arith, can.small) in
            let inside : ltb extra s.uio.resid ≡ true = ground arith in
            let len : s.uio.resid - extra ≡ s.file.size - s.uio.offset = ground arith in
            rw (reads, e, more, small, inside, ← len)
              (read-Steps s can (s.uio.resid - extra) extra (ground arith) user (ground arith)
                (ground (arith, can.sized)))
      ]
    ]
