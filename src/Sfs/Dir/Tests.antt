-- ===== src/Sfs/Dir/Tests.antt =====
-- The theorems on kern/fs/sfs/sfs_dir.c at a directory of eight slots, of which the first is in
-- use, by inode 5 under the empty name.
use project_os.Prelude.{ℕ, ◌+◌, ◌*◌, ◌/◌, ◌≤◌, ◌≡◌, ◌≢◌, refl, arith, ◌∷◌, [], ◌==◌, if◌then◌else◌}
use project_os.Outcome.Ends.{Ends}
use project_os.Sfs.{File, blocksize}
use project_os.Sfs.Block.{get_word}
use project_os.Sfs.Bmap.View.{entry, IsFile}
use project_os.Sfs.Content.{content}
use project_os.Sfs.Meta.View.{Intact}
use project_os.Sfs.Dir.{sfs_dir_findname, sfs_dir_link, sfs_dir_unlink}
use project_os.Sfs.Dir.View.{slot_ino, slots, IsDir}
use project_os.Sfs.Dir.Findname.{Searched, sfs_dir_findname-Ends}
use project_os.Sfs.Dir.Change.{Linked, Unlinked}
use project_os.Sfs.Dir.Link.{sfs_dir_link-Ends, sfs_dir_unlink-Ends}
use project_os.Sfs.Tests.{once, small_file, small_file-IsFile, entry_small}

abbrev small_dir : File
small_dir =
    let f = small_file once in
    record f {
      fs = record f.fs { disk = λ b k. if b == 1 then (if k == 3 then 5 else 0) else 0 };
      sv = record f.sv { inode = record f.sv.inode { kind = 2 } };
    }

small_dir-IsFile : IsFile small_dir
unfolding entry
small_dir-IsFile =
    let f = small_file-IsFile in
    record {
      sound = record {
        map = f.sound.map;
        covers = f.sound.covers;
        past = f.sound.past;
        super = f.sound.super;
        polite = f.sound.polite;
        held = f.sound.held;
      };
      directs = f.directs;
      blocks = λ k h. record { inside = (f.blocks k h).inside; marked = (f.blocks k h).marked };
      table = record { inside = f.table.inside; marked = f.table.marked };
      distinct = f.distinct;
      apart = f.apart;
    }

entry_dir : (k : ℕ) → entry small_dir k ≡ (if k == 0 then 1 else 0)
unfolding entry
entry_dir k = entry_small once k

-- Only the fourth byte is not zero.
byte_zero : (o : ℕ) → 4 ≤ o → content small_dir o ≡ 0
unfolding content
byte_zero o h = ground (arith, entry_dir (o / blocksize))

ino_zero : (i : ℕ) → i ≢ 0 → slot_ino small_dir i ≡ 0
unfolding slot_ino get_word
ino_zero i h = rw (
  byte_zero (i * 64 + 0) (omega arith),
  byte_zero (i * 64 + 1) (omega arith),
  byte_zero (i * 64 + 2) (omega arith),
  byte_zero (i * 64 + 3) (omega arith),
)

small_dir-IsDir : IsDir small_dir
small_dir-IsDir = record {
  file = small_dir-IsFile;
  kind = refl;
  whole = omega arith;
  fits = omega arith;
  unique = λ i j hi hj ui uj e. ground (arith, ino_zero i, ino_zero j);
}

sfs_dir_findname-Ends_example :
    Ends
      (λ f s'. Searched small_dir (b'a' ∷ []) (slots small_dir) f × Intact small_dir s')
      (λ e s'. Intact small_dir s')
      (sfs_dir_findname (b'a' ∷ []) small_dir)
sfs_dir_findname-Ends_example =
    sfs_dir_findname-Ends small_dir small_dir-IsDir (b'a' ∷ []) (λ e. ground arith, tt)

sfs_dir_link-Ends_example :
    Ends
      (λ slot s'. Linked small_dir (b'a' ∷ []) 9 slot s')
      (λ e s'. Intact small_dir s')
      (sfs_dir_link (b'a' ∷ []) 9 small_dir)
sfs_dir_link-Ends_example =
    sfs_dir_link-Ends small_dir (b'a' ∷ []) 9 small_dir-IsDir (λ e. ground arith, tt)
      (λ e. ground arith) (omega arith)

sfs_dir_unlink-Ends_example :
    Ends
      (λ _ s'. Unlinked small_dir 0 s')
      (λ e s'. Intact small_dir s')
      (sfs_dir_unlink 0 small_dir)
unfolding slot_ino get_word content entry
sfs_dir_unlink-Ends_example =
    sfs_dir_unlink-Ends small_dir 0 small_dir-IsDir (omega arith) (λ e. ground arith)
