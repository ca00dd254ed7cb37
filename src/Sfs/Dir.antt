-- ===== src/Sfs/Dir.antt =====
-- Directories, kern/fs/sfs/sfs_dir.c. A struct sfs_direntry is its 64 bytes: the inode number in
-- the first four and the name from the fourth on. A name that a caller passes is the list of its
-- bytes before the NUL.
pub mod Names
pub mod View
pub mod Findname
pub mod Slots
pub mod Change
pub mod Link
pub mod Tests
use project_os.Prelude.{
  ℕ, zero, suc, ◌+◌, ◌-◌, ◌*◌, ◌/◌, ◌%◌, ◌^◌, Bool, true, false, not, ltb, ◌==◌, if◌then◌else◌,
  List, length, Option, none, some,
}
use project_os.Outcome.{Outcome, err, panic, eexist, enametoolong}
use project_os.Outcome.Exec.{Exec, pure, fail, lift, panics, kassert, ◌>>=◌, ◌>>◌}
use project_os.Libc.{put, chars}
use project_os.Libc.Strings.{Sign, above, same, below, strlen, strcmp, strcpy}
use project_os.Uio.{UioRw, uio_read, uio_write, is_write, copy_to, copy_from}
use project_os.Sfs.{Block, File, Fs, Vnode}
use project_os.Sfs.Block.{zeros, get_word, set_word}
use project_os.Sfs.Meta.{sfs_metaio}

-- sizeof(struct sfs_direntry), SFS_NAMELEN, SFS_TYPE_DIR
abbrev pub direntry_size : ℕ
direntry_size = 64

abbrev pub name_len : ℕ
name_len = 60

abbrev pub type_dir : ℕ
type_dir = 2

-- The structure on the caller's stack is filled whole, whatever it held.
unfoldable pub sfs_readdir : (slot : ℕ) → Exec File Block
sfs_readdir slot = sfs_metaio (slot * direntry_size % 2 ^ 32) zeros direntry_size uio_read

-- A slot is a number, so that `slot>=0` holds.
unfoldable pub sfs_writedir : (slot : ℕ) → (sd : Block) → Exec File Block
sfs_writedir slot sd = sfs_metaio (slot * direntry_size % 2 ^ 32) sd direntry_size uio_write

unfoldable pub sfs_dir_nentries : Exec File ℕ
sfs_dir_nentries s =
    (kassert (s.kind == type_dir)
        >> (if s.size % direntry_size == 0 then pure (s.size / direntry_size) else panics))
      s

-- What the search has found: `found`, `*ino`, `*slot` and `*emptyslot`.
pub record Search : Type 0 where
  pub found : Bool
  pub ino : ℕ
  pub slot : ℕ
  pub emptyslot : Option ℕ

-- !strcmp(...)
abbrev pub is_zero : Sign → Bool
is_zero above = false
is_zero same = true
is_zero below = false

-- tsd.sfd_name, with its last byte cleared
abbrev pub entry_name : Block → ℕ → ℕ
entry_name tsd k = put tsd (4 + (name_len - 1)) 0 (4 + k)

-- The slot holds the name, or another one.
abbrev pub note_name : (tsd : Block) → (i : ℕ) → Bool → Search → Exec File Search
note_name tsd i true f =
    kassert (not f.found) >> pure (record f { found = true; ino = get_word tsd 0; slot = i })
note_name tsd i false f = pure f

-- The body of the loop, behind the call of sfs_readdir.
unfoldable pub note_slot : (name : List ℕ) → (i : ℕ) → (tsd : Block) → Search → Exec File Search
note_slot name i tsd f s =
    if get_word tsd 0 == 0
    then (pure (record f { emptyslot = some i })) s
    else (do
      c ← lift (strcmp name_len (entry_name tsd) (chars name))
      note_name tsd i (is_zero c) f)
        s

-- The loop, with the slots that are left.
unfoldable pub scan_slots : (name : List ℕ) → (n i : ℕ) → Search → Exec File Search
scan_slots name zero i f = pure f
scan_slots name (suc n) i f = do
  tsd ← sfs_readdir i
  f' ← note_slot name i tsd f
  scan_slots name n (i + 1) f'

abbrev pub nothing_yet : Search
nothing_yet = record { found = false; ino = 0; slot = 0; emptyslot = none }

-- `found` false is the return of ENOENT; the caller has the other results then too.
unfoldable pub sfs_dir_findname : (name : List ℕ) → Exec File Search
sfs_dir_findname name = do nentries ← sfs_dir_nentries; scan_slots name nentries 0 nothing_yet

abbrev pub choose_slot : Option ℕ → Exec File ℕ
choose_slot (some i) = pure i
choose_slot none = sfs_dir_nentries

-- Behind the two calls and the tests of the name.
unfoldable pub link_entry : (name : List ℕ) → (ino : ℕ) → Option ℕ → Exec File ℕ
link_entry name ino emptyslot = do
  slot ← choose_slot emptyslot
  sd ← lift (strcpy (suc (length name)) (set_word zeros 0 ino) 4 (chars name))
  sfs_writedir slot sd
  pure slot

unfoldable pub link_named : (name : List ℕ) → (ino : ℕ) → Search → Exec File ℕ
link_named name ino f s =
    if f.found
    then (err eexist, s)
    else (do
      len ← lift (strlen (suc (length name)) (chars name))
      (λ s.
          if ltb name_len (len + 1)
          then (err enametoolong, s)
          else link_entry name ino f.emptyslot s))
        s

-- Hands back the slot.
unfoldable pub sfs_dir_link : (name : List ℕ) → (ino : ℕ) → Exec File ℕ
sfs_dir_link name ino = do f ← sfs_dir_findname name; link_named name ino f

unfoldable pub sfs_dir_unlink : (slot : ℕ) → Exec File Block
sfs_dir_unlink slot = sfs_writedir slot (set_word zeros 0 0)
