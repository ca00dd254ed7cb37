-- ===== src/Sfs/Content.antt =====
-- The bytes of a file, as kern/fs/sfs keeps them in its blocks, and what the changes of the block
-- map and of one block do to them.
use project_os.Prelude.{
  ℕ, ◌/◌, ◌%◌, ◌<◌, ◌≡◌, ◌≢◌, ap, Bool, true, false, arith, ◌==◌, if◌then◌else◌, Bool-cases, inl,
  inr, List,
}
use project_os.Bitmap.{bitmap_isset}
use project_os.Sfs.{Answer, Block, File, blocksize}
use project_os.Sfs.Io.{IsPolite, put_block}
use project_os.Sfs.Bmap.View.{entry, max_blocks, IsFile}
use project_os.Sfs.Bmap.Steps.{with_fs}
use project_os.Sfs.Bmap.Mapping.{Mapped, Failed}

-- SFS_BLOCKSIZE times the blocks that a file can have
abbrev pub max_size : ℕ
max_size = 73216

-- A byte of a block, where block 0 stands for a hole.
abbrev pub block_byte : (ℕ → Block) → ℕ → ℕ → ℕ
block_byte disk b k = if b == 0 then 0 else disk b k

-- The byte at an offset of the file, 0 where the file has no block.
unfoldable pub content : File → ℕ → ℕ
content s o = block_byte s.disk (entry s (o / blocksize)) (o % blocksize)

-- The contents of two states agree.
abbrev pub SameContent : File → File → Type 0
SameContent s s' = (o : ℕ) → o < max_size → content s' o ≡ content s o

-- The blocks that the file has keep what they hold.
kept_byte :
    (s s' : File) (j k : ℕ)
    → IsFile s
    → j < max_blocks
    → ((c : ℕ) → bitmap_isset s.freemap c ≡ true → c ≢ s.indirect → s'.disk c ≡ s.disk c)
    → block_byte s'.disk (entry s j) k ≡ block_byte s.disk (entry s j) k
kept_byte s s' j k file h keeps = elim (Bool-cases (entry s j == 0)) [
  | inl e ↦ rw e
  | inr e ↦
      let ne : entry s j ≢ 0 = ground arith in
      rw (e, keeps (entry s j) ((file.blocks j h).marked ne) (file.apart j h ne))
]

-- sfs_bmap does not change what the file holds, also where it adds a block.
pub Mapped-SameContent :
    (s : File) (k : ℕ) (doalloc : Bool) (b : ℕ) (s' : File)
    → IsFile s
    → k < max_blocks
    → Mapped s k doalloc b s'
    → SameContent s s'
unfolding content
Mapped-SameContent s k doalloc b s' file low m o h =
    let j = o / blocksize in
    let jlow : j < max_blocks = omega (arith, h) in
    elim (Bool-cases (k == j)) [
      | inr other ↦
          rw (m.entries j jlow, other) (kept_byte s s' j (o % blocksize) file jlow m.contents)
      | inl at ↦
          let e : j ≡ k = ground arith in
          rw (m.entries j jlow, at, e)
            (elim (Bool-cases (entry s k == 0)) [
              | inr some_ ↦
                  rw (m.kept (ground arith)) (kept_byte s s' k (o % blocksize) file low m.contents)
              | inl none_ ↦
                  let none' : entry s k ≡ 0 = ground arith in
                  rw none_ (elim (Bool-cases (b == 0)) [
                    | inl hole ↦ rw hole
                    | inr new ↦ rw (new, m.blank none' (ground arith))
                  ])
            ])
    ]

pub Failed-SameContent : (s s' : File) → IsFile s → Failed s s' → SameContent s s'
unfolding content
Failed-SameContent s s' file f o h =
    let jlow : o / blocksize < max_blocks = omega (arith, h) in
    rw (f.entries (o / blocksize) jlow)
      (kept_byte s s' (o / blocksize) (o % blocksize) file jlow f.contents)

-- A block of the file is written on the disk.
abbrev pub with_block : File → ℕ → Block → List Answer → File
with_block s b buf rest = with_fs s (record s.fs { disk = put_block s.disk b buf; answers = rest })

module _ (s : File) (file : IsFile s) (k : ℕ) (low : k < max_blocks) (some_ : entry s k ≢ 0)
    (buf : Block) (rest : List Answer) where
  abbrev written : File
  written = with_block s (entry s k) buf rest

  table_apart : (entry s k == s.indirect) ≡ false
  table_apart = ground (arith, file.apart k low some_)

  entry-with_block : (j : ℕ) → entry written j ≡ entry s j
  unfolding entry
  entry-with_block j = rw table_apart

  pub with_block-IsFile : IsPolite rest → IsFile written
  with_block-IsFile polite = record {
    sound = record {
      map = file.sound.map;
      covers = file.sound.covers;
      past = file.sound.past;
      super = file.sound.super;
      polite = polite;
      held = file.sound.held;
    };
    directs = file.directs;
    blocks = λ j h.
        rw (entry-with_block j)
          (record { inside = (file.blocks j h).inside; marked = (file.blocks j h).marked });
    table = record { inside = file.table.inside; marked = file.table.marked };
    distinct = λ i j hi hj. rw (entry-with_block i, entry-with_block j) (file.distinct i j hi hj);
    apart = λ j h. rw (entry-with_block j) (file.apart j h);
  }

  -- The file holds the block in place of what it held there.
  pub content-with_block :
      (o : ℕ)
      → o < max_size
      → content written o ≡ (if k == o / blocksize then buf (o % blocksize) else content s o)
  unfolding content
  content-with_block o h =
      rw (entry-with_block (o / blocksize))
        (ground (arith, file.distinct k (o / blocksize) low (omega (arith, h)) some_, ap (entry s)))
