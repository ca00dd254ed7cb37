-- ===== src/Sfs/FileIo/Blocks.antt =====
-- A part of a block of a file: where it lies, how its number is looked up, and what the file holds
-- once the bytes were moved. This is what sfs_partialio and sfs_blockio of kern/fs/sfs/sfs_io.c share.
use project_os.Prelude.{
  ℕ, ◌+◌, ◌-◌, ◌*◌, ◌/◌, ◌%◌, ◌≤◌, ◌<◌, ◌≡◌, ◌≢◌, refl, sym, ◌∙◌, ap, true, false, ◌&&◌, ltb, leb,
  ◌==◌, if◌then◌else◌, Bool-cases, inl, inr, arith, List,
}
use project_os.Outcome.{Errno, Outcome}
use project_os.Outcome.Ends
use project_os.Outcome.Ends.{Ends, returns, fails}
use project_os.Uio.{Uio, UioRw, uio_read, uio_write, is_write}
use project_os.Uio.View.{addr, scatter, scatter_same, Advanced}
use project_os.Sfs.{Answer, Block, File, blocksize}
use project_os.Sfs.Io.{with_answers, IsPolite}
use project_os.Sfs.Bmap.{sfs_bmap}
use project_os.Sfs.Bmap.View.{entry, max_blocks}
use project_os.Sfs.Bmap.Steps.{with_fs}
use project_os.Sfs.Bmap.Correct.{sfs_bmap-Ends}
use project_os.Sfs.Content.{
  max_size, content, block_byte, with_block, with_block-IsFile, content-with_block,
}
use project_os.Sfs.Meta.View.{
  Intact, Intact-trans, Intact-answers, Intact-Failed, Intact-Mapped, content_at,
}
use project_os.Sfs.FileIo.{Request, on_file, file_block, device_block}
use project_os.Sfs.FileIo.Step.{covers, Keeps-Intact, Did, Quit, Quit-Intact, Ready}

-- `n` bytes from `skip` on in block `k` of the file, where the uio's offset stands.
pub record InBlock (skip n k : ℕ) (s : Request) : Type 0 where
  pub ready : Ready n s
  pub begins : skip < blocksize
  pub within : skip + n ≤ blocksize
  pub low : k < max_blocks
  pub place : k * blocksize + skip ≡ s.uio.offset

-- The buffer has the bytes of block `k`, and `b` is its number.
pub record Loaded (k b : ℕ) (s : Request) (iobuf : Block) (s' : Request) : Type 0 where
  pub intact : Intact s.file s'.file
  pub same_uio : s'.uio ≡ s.uio
  pub bytes : (j : ℕ) → j < blocksize → iobuf j ≡ content s.file (k * blocksize + j)
  pub at : entry s'.file k ≡ b

-- The block's number was looked up.
pub record Looked (k b : ℕ) (s s' : Request) : Type 0 where
  pub intact : Intact s.file s'.file
  pub same_uio : s'.uio ≡ s.uio
  pub at : entry s'.file k ≡ b
  pub writes : is_write s.uio.rw ≡ true → b ≢ 0

module _ {A : Type 0} where
  pub on_file-Ends :
      {P : A → File → Type 0} {E : Errno → File → Type 0} {r : Outcome A × File} (s : Request)
      → Ends P E r
      → Ends
          (λ a s'. (f : File) × P a f × (s' ≡ record s { file = f }))
          (λ e s'. (f : File) × E e f × (s' ≡ record s { file = f }))
          (r.0, record s { file = r.1 })
  on_file-Ends s (returns {s = f} p) = returns (f, p, refl)
  on_file-Ends s (fails {s = f} p) = fails (f, p, refl)

  pub on_uio-Ends :
      {P : A → Uio → Type 0} {E : Errno → Uio → Type 0} {r : Outcome A × Uio} (s : Request)
      → Ends P E r
      → Ends
          (λ a s'. (u : Uio) × P a u × (s' ≡ record s { uio = u }))
          (λ e s'. (u : Uio) × E e u × (s' ≡ record s { uio = u }))
          (r.0, record s { uio = r.1 })
  on_uio-Ends s (returns {s = u} p) = returns (u, p, refl)
  on_uio-Ends s (fails {s = u} p) = fails (u, p, refl)

-- Only the device's answers are used up.
abbrev pub asked : Request → List Answer → Request
asked s rest = record s { file = with_fs s.file (with_answers s.file.fs rest) }

-- A block is read whole: the state behind it is that before, but for the device's answers.
pub read_bytes :
    (s : Request) (k : ℕ) (t : Request) (b : ℕ)
    → Intact s.file t.file
    → k < max_blocks
    → entry t.file k ≡ b
    → (j : ℕ) → j < blocksize
    → block_byte t.file.disk b j ≡ content s.file (k * blocksize + j)
read_bytes s k t b a low at j h =
    let place : (k * blocksize + j) / blocksize ≡ k = omega arith in
    let off : (k * blocksize + j) % blocksize ≡ j = omega arith in
    rw (← at) (
      sym (content_at t.file k (k * blocksize + j) place ∙ rw off)
      ∙ a.same (k * blocksize + j) (omega arith))

pub must_read : (dir : UioRw) → (is_write dir ≢ true) → dir ≡ uio_read
must_read uio_read h = refl
must_read uio_write h = absurd (h refl)

module _ (skip n k : ℕ) (s : Request) (inb : InBlock skip n k s) where
  pub lookup-Ends :
      Ends
        (λ b s'. Looked k b s s')
        (λ e s'. Quit n s s')
        (on_file (sfs_bmap (file_block s) (is_write s.uio.rw)) s)
  lookup-Ends =
      let at : file_block s ≡ k = omega (arith, inb.place, inb.begins, inb.within, inb.low) in
      rw at (
        Ends.mono
          (on_file-Ends s (sfs_bmap-Ends s.file k (is_write s.uio.rw) inb.ready.file inb.low))
          (λ b s' (f, m, e). rw e (record {
            intact = Intact-Mapped s.file k (is_write s.uio.rw) b f inb.ready.file inb.low m;
            same_uio = refl;
            at = ground (arith, m.entries k inb.low);
            writes = m.allocates;
          }))
          (λ e s' (f, fl, e'). rw e' (
            Quit-Intact n s (record s { file = f }) (Intact-Failed s.file f inb.ready.file fl)
              refl)))

  -- The number of a block of the file does not overflow.
  pub device_lem : (b : ℕ) (t : Request) → Looked k b s t → b ≢ 0 → device_block b ≡ b
  device_lem b t l some_ =
      let inside : b < t.file.nblocks =
        rw (← l.at) ((l.intact.file.blocks k inb.low).inside (λ z. some_ (sym l.at ∙ z))) in
      omega (arith, inside, l.intact.nblocks, inb.ready.disk)

  -- The read of the whole block.
  pub loaded :
      (b : ℕ) (t : Request) (rest : List Answer)
      → Looked k b s t
      → b ≢ 0
      → IsPolite rest
      → Loaded k b s (t.file.disk b) (asked t rest)
  unfolding entry
  loaded b t rest l some_ polite = record {
    intact =
        Intact-trans s.file t.file _ l.intact (Intact-answers t.file rest l.intact.file polite);
    same_uio = l.same_uio;
    bytes = λ j h.
        let e : (b == 0) ≡ false = ground arith in
        rw e at (read_bytes s k t b l.intact inb.low l.at j h);
    at = l.at;
  }

  pub Quit-asked :
      (b : ℕ) (t : Request) (rest : List Answer)
      → Looked k b s t
      → IsPolite rest
      → Quit n s (asked t rest)
  Quit-asked b t rest l polite =
      Quit-Intact n s (asked t rest)
        (Intact-trans s.file t.file _ l.intact (Intact-answers t.file rest l.intact.file polite))
        (ap (λ (u : Uio). u.rw) l.same_uio)

  -- What the buffer holds that is written back.
  abbrev pub Merged : Block → Type 0
  Merged buf =
      (j : ℕ)
      → j < blocksize
      → buf j ≡ (
          if leb skip j && ltb j (skip + n)
          then s.uio.mem (addr s.uio.iov (j - skip))
          else content s.file (k * blocksize + j))

  -- The block is written.
  module _ (u : Request) (v : Uio) (a : Intact s.file u.file) (some_ : entry u.file k ≢ 0)
      (buf : Block) (merged : Merged buf) (rest : List Answer) (polite : IsPolite rest)
      (adv : Advanced n s.uio v) (same : v.mem ≡ s.uio.mem) (writes : s.uio.rw ≡ uio_write) where
    abbrev pub after : Request
    after = record { file = with_block u.file (entry u.file k) buf rest; uio = v }

    merged_byte :
        (o : ℕ)
        → o < max_size
        → (if k == o / blocksize then buf (o % blocksize) else content u.file o) ≡ (
            if covers n s o
            then s.uio.mem (addr s.uio.iov (o - s.uio.offset))
            else content s.file o)
    merged_byte o h = elim (Bool-cases (k == o / blocksize)) [
      | inr e ↦
          let out : covers n s o ≡ false = ground (arith, inb.place, inb.within) in
          rw (e, out) (a.same o h)
      | inl e ↦
          let at : k * blocksize + o % blocksize ≡ o = ground arith in
          let alike : (leb skip (o % blocksize) && ltb (o % blocksize) (skip + n)) ≡ covers n s o =
            ground (arith, inb.place) in
          let off : o % blocksize - skip ≡ o - s.uio.offset = omega (arith, inb.place, at) in
          rw e (merged (o % blocksize) (omega arith) ∙ rw (alike, off, at))
    ]

    pub stored : Did n s after
    stored = record {
      keeps = record {
        file = with_block-IsFile u.file a.file k inb.low some_ buf rest polite;
        size = a.size;
        kind = a.kind;
        nblocks = a.nblocks;
        lock = a.lock;
        rw_lem = adv.rw_lem;
      };
      adv = adv;
      bytes = rw writes (
        λ o h. content-with_block u.file a.file k inb.low some_ buf rest o h ∙ merged_byte o h,
        same,
      );
    }

  -- The bytes that a read moves out of the buffer are those of the file.
  pub fetched :
      (u : Request) (v : Uio) (iobuf : Block)
      → Intact s.file u.file
      → ((j : ℕ) → j < blocksize → iobuf j ≡ content s.file (k * blocksize + j))
      → s.uio.rw ≡ uio_read
      → v.mem ≡ scatter n (addr s.uio.iov) (λ i. iobuf (skip + i)) s.uio.mem
      → Advanced n s.uio v
      → Did n s (record { file = u.file; uio = v })
  fetched u v iobuf a bytes reads moved adv = record {
    keeps = Keeps-Intact s (record { file = u.file; uio = v }) a adv.rw_lem;
    adv = adv;
    bytes = rw reads (
      a.same,
      moved
          ∙ scatter_same n (addr s.uio.iov) (addr s.uio.iov) (λ i. iobuf (skip + i))
              (λ i. content s.file (s.uio.offset + i)) s.uio.mem
              (λ i h.
                let e : k * blocksize + (skip + i) ≡ s.uio.offset + i = omega (arith, inb.place) in
                (refl, rw (← e) (bytes (skip + i) (omega (arith, inb.within))))),
    );
  }

  pub merged :
      (iobuf buf : Block)
      → ((j : ℕ) → j < blocksize → iobuf j ≡ content s.file (k * blocksize + j))
      → ((j : ℕ)
          → buf j ≡ (
              if leb skip j && ltb j (skip + n)
              then s.uio.mem (addr s.uio.iov (j - skip))
              else iobuf j))
      → Merged buf
  merged iobuf buf bytes filled j h = ground (arith, filled j, bytes j h)
