-- ===== src/Sfs/Meta/View.antt =====
-- What metadata I/O of kern/fs/sfs/sfs_io.c leaves of the bytes of a file, and what it puts there.
use project_os.Prelude.{
  ℕ, ◌+◌, ◌-◌, ◌/◌, ◌%◌, ◌^◌, ◌≤◌, ◌<◌, ◌≡◌, ◌≢◌, refl, ◌∙◌, Bool, false, arith, ltb, leb, ◌&&◌,
  ◌==◌, if◌then◌else◌, Bool-cases, inl, inr, List,
}
use project_os.Uio.{copy_to, copy_from}
use project_os.Sfs.{Answer, Block, File, blocksize}
use project_os.Sfs.Block.{zeros}
use project_os.Sfs.Io.{with_answers, IsPolite}
use project_os.Sfs.Bmap.View.{entry, max_blocks, IsFile}
use project_os.Sfs.Bmap.Steps.{with_fs, IsFile-answers}
use project_os.Sfs.Bmap.Mapping.{Mapped, Failed}
use project_os.Sfs.Content.{
  max_size, block_byte, content, SameContent, Mapped-SameContent, Failed-SameContent, with_block,
  with_block-IsFile, content-with_block,
}
use project_os.Sfs.Meta.{grow_to}

-- The file is consistent and holds the same bytes.
pub record Intact (s s' : File) : Type 0 where
  pub file : IsFile s'
  pub same : SameContent s s'
  pub size : s'.size ≡ s.size
  pub kind : s'.kind ≡ s.kind
  pub nblocks : s'.nblocks ≡ s.nblocks
  pub lock : s'.lock ≡ s.lock

-- The file holds `len` bytes of `buf` from `pos` on in place of what it held there, and reaches
-- at least to their end.
pub record Written (pos : ℕ) (buf : Block) (len : ℕ) (s s' : File) : Type 0 where
  pub file : IsFile s'
  pub bytes :
      (o : ℕ)
      → o < max_size
      → content s' o ≡ (if leb pos o && ltb o (pos + len) then buf (o - pos) else content s o)
  pub size : s'.size ≡ (if ltb s.size (pos + len) then pos + len else s.size)
  pub kind : s'.kind ≡ s.kind
  pub lock : s'.lock ≡ s.lock

pub Intact-trans : (s t u : File) → Intact s t → Intact t u → Intact s u
Intact-trans s t u a b = record {
  file = b.file;
  same = λ o h. b.same o h ∙ a.same o h;
  size = b.size ∙ a.size;
  kind = b.kind ∙ a.kind;
  nblocks = b.nblocks ∙ a.nblocks;
  lock = b.lock ∙ a.lock;
}

pub Written-trans :
    (pos : ℕ) (buf : Block) (len : ℕ) (s t u : File)
    → Intact s t
    → Written pos buf len t u
    → Written pos buf len s u
Written-trans pos buf len s t u a w = record {
  file = w.file;
  bytes = λ o h. ground (arith, w.bytes o h, a.same o h);
  size = ground (arith, w.size, a.size);
  kind = w.kind ∙ a.kind;
  lock = w.lock ∙ a.lock;
}

pub Intact-answers :
    (s : File) (rest : List Answer)
    → IsFile s
    → IsPolite rest
    → Intact s (with_fs s (with_answers s.fs rest))
unfolding content entry
Intact-answers s rest file polite = record {
  file = IsFile-answers s rest file polite;
  same = λ o h. refl;
  size = refl;
  kind = refl;
  nblocks = refl;
  lock = refl;
}

pub Intact-Failed : (s s' : File) → IsFile s → Failed s s' → Intact s s'
Intact-Failed s s' file f = record {
  file = f.file;
  same = Failed-SameContent s s' file f;
  size = f.size;
  kind = f.kind;
  nblocks = f.nblocks;
  lock = f.lock;
}

pub Intact-Mapped :
    (s : File) (k : ℕ) (doalloc : Bool) (b : ℕ) (s' : File)
    → IsFile s
    → k < max_blocks
    → Mapped s k doalloc b s'
    → Intact s s'
Intact-Mapped s k doalloc b s' file low m = record {
  file = m.file;
  same = Mapped-SameContent s k doalloc b s' file low m;
  size = m.size;
  kind = m.kind;
  nblocks = m.nblocks;
  lock = m.lock;
}

-- The new size is stored.
pub grow_to-Written :
    (pos : ℕ) (buf : Block) (len : ℕ) (s t : File)
    → pos + len < 2 ^ 32
    → IsFile t
    → ((o : ℕ)
        → o < max_size
        → content t o ≡ (if leb pos o && ltb o (pos + len) then buf (o - pos) else content s o))
    → t.size ≡ s.size
    → t.kind ≡ s.kind
    → t.lock ≡ s.lock
    → Written pos buf len s (grow_to (pos + len) t)
unfolding grow_to content entry
grow_to-Written pos buf len s t small file bytes size kind lock =
    elim (Bool-cases (ltb t.size (pos + len))) [
      | inr e ↦
          rw e
            (record { file = file; bytes = bytes; size = ground arith; kind = kind; lock = lock })
      | inl e ↦ rw e (record {
        file = record {
          sound = file.sound;
          directs = file.directs;
          blocks = file.blocks;
          table = file.table;
          distinct = file.distinct;
          apart = file.apart;
        };
        bytes = bytes;
        size = ground arith;
        kind = kind;
        lock = lock;
      })
    ]

pub content_at :
    (s : File) (k o : ℕ)
    → o / blocksize ≡ k
    → content s o ≡ block_byte s.disk (entry s k) (o % blocksize)
unfolding content
content_at s k o e = rw e

-- What the caller's buffer holds after a read of `len` bytes from `pos` on.
abbrev pub Filled : ℕ → Block → ℕ → File → Block → Type 0
Filled pos buf len s out = (i : ℕ) → out i ≡ (if ltb i len then content s (pos + i) else buf i)

module _ (pos : ℕ) (buf : Block) (len : ℕ) (within : pos % blocksize + len ≤ blocksize)
    (low : pos / blocksize < max_blocks) where
  pub block_of : (i : ℕ) → i < len → (pos + i) / blocksize ≡ pos / blocksize
  block_of i h = omega arith

  pub offset_of : (i : ℕ) → i < len → (pos + i) % blocksize ≡ pos % blocksize + i
  offset_of i h = omega arith

  module _ (s : File) (file : IsFile s) (b : ℕ) (at : entry s (pos / blocksize) ≡ b) where
    pub read_hole : b ≡ 0 → Filled pos buf len s (copy_from buf zeros 0 len)
    read_hole hole i = elim (Bool-cases (ltb i len)) [
      | inr e ↦ rw e
      | inl e ↦
          rw (e, content_at s (pos / blocksize) (pos + i) (block_of i (ground arith)), at, hole)
    ]

    pub read_block : b ≢ 0 → Filled pos buf len s (copy_from buf (s.disk b) (pos % blocksize) len)
    read_block some_ i = elim (Bool-cases (ltb i len)) [
      | inr e ↦ rw e
      | inl e ↦
          let h : i < len = ground arith in
          let ne : (b == 0) ≡ false = ground arith in
          rw (e, content_at s (pos / blocksize) (pos + i) (block_of i h), at, ne, offset_of i h)
    ]

  module _ (s : File) (file : IsFile s) (some_ : entry s (pos / blocksize) ≢ 0) where
    abbrev pub region : Block
    region = copy_to (s.disk (entry s (pos / blocksize))) (pos % blocksize) buf len

    region_byte :
        (o : ℕ)
        → o < max_size
        → (if pos / blocksize == o / blocksize then region (o % blocksize) else content s o)
          ≡ (if leb pos o && ltb o (pos + len) then buf (o - pos) else content s o)
    region_byte o h = elim (Bool-cases (pos / blocksize == o / blocksize)) [
      | inr e ↦ rw e (ground arith)
      | inl e ↦
          let at : o / blocksize ≡ pos / blocksize = ground arith in
          let ne : (entry s (pos / blocksize) == 0) ≡ false = ground arith in
          let off : o % blocksize - pos % blocksize ≡ o - pos = omega arith in
          rw (e, content_at s (pos / blocksize) o at, ne, off) (ground arith)
    ]

    pub write_block :
        (rest : List Answer)
        → IsPolite rest
        → Written pos buf len s
            (grow_to (pos + len) (with_block s (entry s (pos / blocksize)) region rest))
    write_block rest polite =
        grow_to-Written pos buf len s (with_block s (entry s (pos / blocksize)) region rest)
          (omega (arith, within, low))
          (with_block-IsFile s file (pos / blocksize) low some_ region rest polite)
          (λ o h.
            content-with_block s file (pos / blocksize) low some_ region rest o h ∙ region_byte o h)
          refl refl refl
