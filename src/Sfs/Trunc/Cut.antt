-- ===== src/Sfs/Trunc/Cut.antt =====
-- What sfs_itrunc of kern/fs/sfs/sfs_bmap.c does to a file under the big lock.
use project_os.Prelude.{
  ℕ, ◌-◌, ◌<◌, ◌≡◌, ◌≢◌, refl, Bool, true, false, ◌&&◌, arith, ltb, leb, ◌==◌, if◌then◌else◌,
  length, List, ◌∙◌, fun_ext,
}
use project_os.Bitmap.{bitmap_isset}
use project_os.Sfs.{Answer, Block, File, Fs, ndirect}
use project_os.Sfs.Block.{zeros, get_word-zeros}
use project_os.Sfs.Io.{with_answers, IsPolite}
use project_os.Sfs.Balloc.{Freed}
use project_os.Sfs.Bmap.View.{entry, max_blocks, IsFile}
use project_os.Sfs.Trunc.Trimmed.{SameFields, view, Holds, Trimmed}

-- The positions whose blocks a truncation to `blocklen` blocks frees.
abbrev pub gone : ℕ → ℕ → Bool
gone blocklen j = if ltb j ndirect then leb blocklen j else ltb blocklen j

pub record Cut (s : File) (blocklen : ℕ) (s' : File) : Type 0 where
  pub file : IsFile s'
  pub entries : (j : ℕ) → j < max_blocks → entry s' j ≡ (if gone blocklen j then 0 else entry s j)
  pub freed :
      (j : ℕ)
      → j < max_blocks
      → gone blocklen j ≡ true
      → entry s j ≢ 0
      → bitmap_isset s'.freemap (entry s j) ≡ false
  pub stays :
      (c : ℕ)
      → c ≢ 0
      → c ≢ s.indirect
      → ((j : ℕ) → j < max_blocks → gone blocklen j ≡ true → entry s j ≢ c)
      → bitmap_isset s'.freemap c ≡ bitmap_isset s.freemap c
  pub contents : (c : ℕ) → c ≢ s.indirect → s'.disk c ≡ s.disk c
  pub fields : SameFields s s'
  pub nblocks : s'.nblocks ≡ s.nblocks
  pub lock : s'.lock ≡ s.lock

-- The indirect block could not be read or not be written back: only the direct blocks are cut.
pub record HalfCut (s : File) (blocklen : ℕ) (s' : File) : Type 0 where
  pub entries :
      (j : ℕ)
      → j < max_blocks
      → entry s' j ≡ (if ltb j ndirect && leb blocklen j then 0 else entry s j)
  pub contents : (c : ℕ) → s'.disk c ≡ s.disk c
  pub fields : SameFields s s'
  pub lock : s'.lock ≡ s.lock

-- The words of the indirect block, none where there is no such block.
abbrev pub id_words : File → Block
id_words s = if s.indirect == 0 then zeros else s.disk s.indirect

pub entry-view : (s : File) → entry s ≡ view s.direct (id_words s)
unfolding entry
entry-view s = fun_ext (λ j. ground (arith, get_word-zeros (j - ndirect)))

pub IsFile-Holds : (s : File) → IsFile s → Holds s.fs (entry s) s.indirect
IsFile-Holds s file = record {
  sound = file.sound;
  blocks = file.blocks;
  id_used = file.table;
  distinct = file.distinct;
  apart = file.apart;
}

pub Holds-IsFile :
    (s : File) (m : ℕ → ℕ)
    → Holds s.fs m s.indirect
    → length s.direct ≡ ndirect
    → ((j : ℕ) → j < max_blocks → entry s j ≡ m j)
    → IsFile s
Holds-IsFile s m h directs same = record {
  sound = h.sound;
  directs = directs;
  blocks = λ k p. rw (same k p) (h.blocks k p);
  table = h.id_used;
  distinct = λ j k hj hk. rw (same j hj, same k hk) (h.distinct j k hj hk);
  apart = λ k p. rw (same k p) (h.apart k p);
}

-- Blocks were written, or answers used up.
pub Holds-disk :
    (fs : Fs) (m : ℕ → ℕ) (table : ℕ) (disk : ℕ → Block) (rest : List Answer)
    → Holds fs m table
    → IsPolite rest
    → Holds (record fs { disk = disk; answers = rest }) m table
Holds-disk fs m table disk rest h polite = record {
  sound = record {
    map = h.sound.map;
    covers = h.sound.covers;
    past = h.sound.past;
    super = h.sound.super;
    polite = polite;
    held = h.sound.held;
  };
  blocks = λ k p. record { inside = (h.blocks k p).inside; marked = (h.blocks k p).marked };
  id_used = record { inside = h.id_used.inside; marked = h.id_used.marked };
  distinct = h.distinct;
  apart = h.apart;
}

-- The indirect block was freed.
pub Holds-untabled :
    (fs fs' : Fs) (m : ℕ → ℕ) (table : ℕ)
    → Holds fs m table
    → Freed fs table fs'
    → table ≢ 0
    → Holds fs' m 0
Holds-untabled fs fs' m table h fr ne = record {
  sound = fr.sound;
  blocks = λ k p. record {
    inside = λ z. omega (arith, (h.blocks k p).inside z, fr.nblocks);
    marked = λ z. ground (arith, fr.bits (m k), (h.blocks k p).marked z, h.apart k p z);
  };
  id_used = record { inside = λ z. absurd (z refl); marked = λ z. absurd (z refl) };
  distinct = h.distinct;
  apart = λ k p ne e. ne e;
}

pub Trimmed-answers :
    (fs fs' : Fs) (m m' : ℕ → ℕ) (table : ℕ) (g : ℕ → Bool) (rest : List Answer)
    → Trimmed fs m table g fs' m'
    → IsPolite rest
    → Trimmed fs m table g (with_answers fs' rest) m'
Trimmed-answers fs fs' m m' table g rest t polite = record {
  holds = Holds-disk fs' m' table fs'.disk rest t.holds polite;
  entries = t.entries;
  freed = t.freed;
  stays = t.stays;
  disk = t.disk;
  nblocks = t.nblocks;
  lock = t.lock;
}

-- The blocks are freed, and the state agrees with the map.
pub Cut-made :
    (s : File) (blocklen : ℕ) (fs2 : Fs) (m2 : ℕ → ℕ) (s3 : File)
    → IsFile s
    → Trimmed s.fs (entry s) s.indirect (gone blocklen) fs2 m2
    → IsFile s3
    → ((j : ℕ) → j < max_blocks → entry s3 j ≡ m2 j)
    → ((c : ℕ)
        → c ≢ s.indirect
        → (bitmap_isset s3.freemap c ≡ bitmap_isset fs2.freemap c) × (s3.disk c ≡ fs2.disk c))
    → SameFields s s3
    → s3.nblocks ≡ fs2.nblocks
    → s3.lock ≡ fs2.lock
    → Cut s blocklen s3
Cut-made s blocklen fs2 m2 s3 file t file3 same other fields nblocks lock = record {
  file = file3;
  entries = λ j p. same j p ∙ t.entries j p;
  freed = λ j p g ne. (other (entry s j) (file.apart j p ne)).0 ∙ t.freed j p g ne;
  stays = λ c ne ni away. (other c ni).0 ∙ t.stays c ne away;
  contents = λ c ni. (other c ni).1 ∙ t.disk c;
  fields = fields;
  nblocks = nblocks ∙ t.nblocks;
  lock = lock ∙ t.lock;
}
