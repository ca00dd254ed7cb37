-- ===== src/Sfs/Bmap/Steps.antt =====
-- The state changes of sfs_bmap, and what they do to the block map of the file.
use project_os.Prelude.{
  ℕ, ◌+◌, ◌-◌, ◌^◌, ◌<◌, ◌≡◌, ◌≢◌, refl, true, false, arith, ◌==◌, if◌then◌else◌, length-set,
  get_or-set, List, ◌∙◌,
}
use project_os.Bitmap.{bitmap_isset}
use project_os.Sfs.{Answer, Block, File, Fs, ndirect, dbperidb}
use project_os.Sfs.Block.{zeros, get_word, set_word, get_word-zeros, get_word-set_word}
use project_os.Sfs.Io.{with_answers, IsPolite, put_block}
use project_os.Sfs.Balloc.{NewBlock, Unchanged}
use project_os.Sfs.Bmap.{with_direct, with_indirect}
use project_os.Sfs.Bmap.View.{entry, InUse, IsFile, Extends}

abbrev pub with_fs : File → Fs → File
with_fs s fs' = record s { fs = fs' }

-- Only the device's answers are used up.
pub IsFile-answers :
    (s : File) (rest : List Answer)
    → IsFile s
    → IsPolite rest
    → IsFile (with_fs s (with_answers s.fs rest))
unfolding entry
IsFile-answers s rest file polite = record {
  sound = record {
    map = file.sound.map;
    covers = file.sound.covers;
    past = file.sound.past;
    super = file.sound.super;
    polite = polite;
    held = file.sound.held;
  };
  directs = file.directs;
  blocks = λ k h. record { inside = (file.blocks k h).inside; marked = (file.blocks k h).marked };
  table = record { inside = file.table.inside; marked = file.table.marked };
  distinct = file.distinct;
  apart = file.apart;
}

-- The file system failed to allocate, and the file is as before.
module _ (s : File) (fs' : Fs) (file : IsFile s) (un : Unchanged s.fs fs') where
  pub entry-unchanged : (k : ℕ) → entry (with_fs s fs') k ≡ entry s k
  unfolding entry
  entry-unchanged k = rw (un.disk s.indirect)

  Unchanged-InUse : (b : ℕ) → InUse s.fs b → InUse fs' b
  Unchanged-InUse b u = record {
    inside = λ h. omega (arith, u.inside h, un.nblocks);
    marked = λ h. ground (arith, u.marked h, un.bits b);
  }

  pub Unchanged-IsFile : IsFile (with_fs s fs')
  Unchanged-IsFile = record {
    sound = un.sound;
    directs = file.directs;
    blocks = λ k h. rw (entry-unchanged k) (Unchanged-InUse (entry s k) (file.blocks k h));
    table = Unchanged-InUse s.indirect file.table;
    distinct = λ j k hj hk. rw (entry-unchanged j, entry-unchanged k) (file.distinct j k hj hk);
    apart = λ k h. rw (entry-unchanged k) (file.apart k h);
  }

module _ (s : File) (b : ℕ) (fs' : Fs) (file : IsFile s) (new : NewBlock s.fs b fs') where
  -- The indirect block does not change when a new block is cleared.
  word_kept :
      (i : ℕ) → s.indirect ≢ 0 → get_word (fs'.disk s.indirect) i ≡ get_word (s.disk s.indirect) i
  word_kept i h =
      let other : (b == s.indirect) ≡ false = ground (arith, file.table.marked h, new.free) in
      rw (new.disk s.indirect, other)

  pub new_ne_table : s.indirect ≢ b
  new_ne_table e = ground (arith, file.table.marked, new.free, file.sound.super)

  pub new_small : b < 2 ^ 32
  new_small = omega (arith, new.inside, file.sound.covers, file.sound.map.small)

  pub contents_kept : (c : ℕ) → bitmap_isset s.freemap c ≡ true → fs'.disk c ≡ s.disk c
  contents_kept c u =
      let other : (b == c) ≡ false = ground (arith, new.free) in rw (new.disk c, other)

  pub new_blank : fs'.disk b ≡ zeros
  new_blank = let self : (b == b) ≡ true = ground arith in rw (new.disk b, self)

  -- A new block at a direct position.
  pub direct-Extends : (k : ℕ) → k < ndirect → Extends s k b (with_direct (with_fs s fs') k b)
  unfolding entry
  direct-Extends k h = record {
    sound = new.sound;
    directs = length-set s.direct k b ∙ file.directs;
    inside = new.inside;
    free = new.free;
    bits = new.bits;
    nblocks = new.nblocks;
    indirect = refl;
    entries = λ j hj.
        ground (
          arith,
          get_or-set s.direct k b j 0 (omega (arith, file.directs)),
          word_kept (j - ndirect),
        );
  }

  -- A new, empty indirect block.
  abbrev pub with_table : File
  with_table = with_indirect (with_fs s fs') b

  pub entry-with_table : s.indirect ≡ 0 → (k : ℕ) → entry with_table k ≡ entry s k
  unfolding entry
  entry-with_table none_ k =
      let self : (b == b) ≡ true = ground arith in
      let empty : get_word (fs'.disk b) (k - ndirect) ≡ 0 =
        rw (new.disk b, self) (get_word-zeros (k - ndirect)) in
      ground (arith, empty)

  new-InUse : InUse fs' b
  new-InUse = record {
    inside = λ h. omega (arith, new.inside, new.nblocks);
    marked = λ h. ground (arith, new.bits b);
  }

  pub used_kept : (c : ℕ) → bitmap_isset s.freemap c ≡ true → bitmap_isset fs'.freemap c ≡ true
  used_kept c u = ground (arith, new.bits c)

  old-InUse : (c : ℕ) → InUse s.fs c → InUse fs' c
  old-InUse c u = record {
    inside = λ h. omega (arith, u.inside h, new.nblocks);
    marked = λ h. ground (arith, u.marked h, new.bits c);
  }

  pub with_table-IsFile : s.indirect ≡ 0 → IsFile with_table
  with_table-IsFile none_ = record {
    sound = new.sound;
    directs = file.directs;
    blocks = λ k h. rw (entry-with_table none_ k) (old-InUse (entry s k) (file.blocks k h));
    table = new-InUse;
    distinct = λ j k hj hk.
        rw (entry-with_table none_ j, entry-with_table none_ k) (file.distinct j k hj hk);
    apart =
        λ k h ne e. ground (arith, entry-with_table none_ k, (file.blocks k h).marked, new.free);
  }

  -- A new block whose number is written into the indirect block.
  abbrev pub with_entry : Block → ℕ → List Answer → File
  with_entry idbuf i rest =
      with_fs s
        (record fs' { disk = put_block fs'.disk s.indirect (set_word idbuf i b); answers = rest })

  pub buffer-Extends :
      (idbuf : Block) (i : ℕ) (rest : List Answer)
      → s.indirect ≢ 0
      → ((j : ℕ) → get_word idbuf j ≡ get_word (s.disk s.indirect) j)
      → i < dbperidb
      → IsPolite rest
      → Extends s (i + ndirect) b (with_entry idbuf i rest)
  unfolding entry
  buffer-Extends idbuf i rest some_ same h polite = record {
    sound = record {
      map = new.sound.map;
      covers = new.sound.covers;
      past = new.sound.past;
      super = new.sound.super;
      polite = polite;
      held = new.sound.held;
    };
    directs = file.directs;
    inside = new.inside;
    free = new.free;
    bits = new.bits;
    nblocks = new.nblocks;
    indirect = refl;
    entries = λ j hj.
        let self : (s.indirect == s.indirect) ≡ true = ground arith in
        let written : get_word (put_block fs'.disk s.indirect (set_word idbuf i b) s.indirect)
              (j - ndirect)
            ≡ (if i == j - ndirect then b else get_word (s.disk s.indirect) (j - ndirect)) =
          rw (self, get_word-set_word idbuf i b (j - ndirect) new_small, same (j - ndirect)) in
        ground (arith, written);
  }

  -- A block that was allocated and is not referred to.
  abbrev pub with_lost : List Answer → File
  with_lost rest = with_fs s (with_answers fs' rest)

  pub entry-with_lost : (rest : List Answer) (k : ℕ) → entry (with_lost rest) k ≡ entry s k
  unfolding entry
  entry-with_lost rest k = ground (arith, word_kept (k - ndirect))

  pub with_lost-IsFile : (rest : List Answer) → IsPolite rest → IsFile (with_lost rest)
  with_lost-IsFile rest polite = record {
    sound = record {
      map = new.sound.map;
      covers = new.sound.covers;
      past = new.sound.past;
      super = new.sound.super;
      polite = polite;
      held = new.sound.held;
    };
    directs = file.directs;
    blocks = λ k h. rw (entry-with_lost rest k) (lost-InUse (entry s k) (file.blocks k h));
    table = lost-InUse s.indirect file.table;
    distinct =
        λ j k hj hk. rw (entry-with_lost rest j, entry-with_lost rest k) (file.distinct j k hj hk);
    apart = λ k h. rw (entry-with_lost rest k) (file.apart k h);
  }
    where
      lost-InUse : (c : ℕ) → InUse s.fs c → InUse (with_answers fs' rest) c
      lost-InUse c u = record {
        inside = λ h. omega (arith, u.inside h, new.nblocks);
        marked = λ h. used_kept c (u.marked h);
      }
