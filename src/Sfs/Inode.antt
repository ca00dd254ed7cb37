-- ===== src/Sfs/Inode.antt =====
-- Inodes in memory, kern/fs/sfs/sfs_inode.c. A `Mount` is a mounted file system with the table of
-- its loaded vnodes, sfs_vnodes; a pointer to a vnode is its place in the table. Whether kmalloc
-- finds memory for a vnode, and vnodearray_add for the table, are arguments.
pub mod Table
pub mod Load
pub mod Make
pub mod Encoding
pub mod Reclaim
pub mod Erase
pub mod Tests
use project_os.Prelude.{
  ℕ, zero, suc, ◌+◌, ◌-◌, ◌*◌, ◌/◌, ◌%◌, ◌^◌, ◌≡◌, Bool, true, false, not, ◌||◌, ltb, leb, ◌==◌,
  if◌then◌else◌, Option, none, some, List, [], ◌∷◌, ◌++◌, length, get_or, set,
}
use project_os.Outcome.{Outcome, ok, err, panic, enomem, ebusy, einval}
use project_os.Outcome.Exec.{Exec, pure, fail, panics, kassert, modify, ◌>>=◌, ◌>>◌}
use project_os.BigLock.{BigLock, vfs_biglock_acquire, vfs_biglock_release}
use project_os.Sfs.{Block, Fs, File, Dinode, Vnode, ndirect}
use project_os.Sfs.Block.{get_word, set_word, zeros}
use project_os.Sfs.Io.{sfs_readblock, sfs_writeblock}
use project_os.Sfs.Balloc.{sfs_balloc, sfs_bfree, sfs_bused}
use project_os.Sfs.Trunc.{sfs_itrunc}

-- A struct sfs_vnode in the table, with the reference count of its abstract vnode; `block` is the
-- inode as it was read, where sfi_waste comes from.
pub record Loaded : Type 0 where
  pub sv : Vnode
  pub block : Block
  pub refcount : ℕ

pub record Mount : Type 0 where
  pub fs : Fs
  pub vnodes : List Loaded

-- What stands past the end of the table; no code looks there.
abbrev pub no_inode : Dinode
no_inode = record { size = 0; kind = 0; linkcount = 0; direct = []; indirect = 0 }

abbrev pub no_vnode : Loaded
no_vnode = record {
  sv = record { inode = no_inode; ino = 0; dirty = false };
  block = zeros;
  refcount = 0;
}

abbrev pub vnode_at : Mount → ℕ → Loaded
vnode_at s i = get_or s.vnodes i no_vnode

abbrev pub on_disk : {A : Type 0} → Exec Fs A → Exec Mount A
on_disk m s = ((m s.fs).0, record s { fs = (m s.fs).1 })

-- The words of an array in a block, from the word `i` on.
unfoldable pub get_words : (n i : ℕ) → Block → List ℕ
get_words zero i b = []
get_words (suc n) i b = get_word b i ∷ get_words n (i + 1) b

unfoldable pub set_words : List ℕ → ℕ → Block → Block
set_words [] i b = b
set_words (v ∷ vs) i b = set_words vs (i + 1) (set_word b i v)

-- struct sfs_dinode as its fields lie in the words of a block, which sfs_readblock copies into the
-- struct and sfs_writeblock out of it as they are: sfi_type and sfi_linkcount share the second word.
unfoldable pub dinode_of : Block → Dinode
dinode_of b = record {
  size = get_word b 0;
  kind = get_word b 1 / 2 ^ 16;
  linkcount = get_word b 1 % 2 ^ 16;
  direct = get_words ndirect 2 b;
  indirect = get_word b 17;
}

unfoldable pub block_of : Dinode → Block → Block
block_of d b =
    set_word
      (set_words d.direct 2 (set_word (set_word b 0 d.size) 1 (d.kind * 2 ^ 16 + d.linkcount))) 17
      d.indirect

-- The inode is written out, and `Loaded` is the vnode behind the call.
unfoldable pub sfs_sync_inode : Loaded → Exec Fs Loaded
sfs_sync_inode v =
    if v.sv.dirty
    then sfs_writeblock v.sv.ino (block_of v.sv.inode v.block)
      >> pure (record v { sv = record v.sv { dirty = false } })
    else pure v

-- VOP_INCREF, where the count is no overflow
abbrev pub incref : ℕ → Mount → Mount
incref i s = record s {
  vnodes = set s.vnodes i (record (vnode_at s i) { refcount = (vnode_at s i).refcount + 1 });
}

-- The linear search of sfs_loadvnode, at the place `i` of the table. vn_refcount is an int; its
-- overflow is undefined, and taken for a panic.
unfoldable pub load_scan : List Loaded → (i ino forcetype : ℕ) → Exec Mount (Option ℕ)
load_scan [] i ino forcetype = pure none
load_scan (v ∷ rest) i ino forcetype =
    let next = load_scan rest (i + 1) ino forcetype in
    on_disk (sfs_bused v.sv.ino) >>= λ used.
    if not used
    then panics
    else if v.sv.ino == ino
    then kassert (forcetype == 0)
      >> kassert (ltb (v.refcount + 1) (2 ^ 31))
      >> modify (incref i)
      >> pure (some i)
    else next

-- FORCETYPE, for an inode that has been read into `v`.
unfoldable pub force_type : (forcetype : ℕ) → Loaded → Exec Mount Loaded
force_type forcetype v =
    if forcetype == 0
    then pure v
    else kassert (v.sv.inode.kind == 0)
      >> pure (record v {
        sv = record v.sv { inode = record v.sv.inode { kind = forcetype }; dirty = true };
      })

-- SFS_TYPE_FILE and SFS_TYPE_DIR have function tables.
abbrev pub known_type : ℕ → Bool
known_type kind = (kind == 1) || (kind == 2)

-- vnodearray_add, which puts the vnode at the end.
abbrev pub add_vnode : (table_room : Bool) → Loaded → Exec Mount ℕ
add_vnode false v s = (err enomem, s)
add_vnode true v s = (ok (length s.vnodes), record s { vnodes = s.vnodes ++ v ∷ [] })

-- "Didn't have it loaded; load it"
unfoldable pub load_new : (memory table_room : Bool) → (ino forcetype : ℕ) → Exec Mount ℕ
load_new memory table_room ino forcetype = if not memory then fail enomem else do
  used ← on_disk (sfs_bused ino)
  kassert used
  b ← on_disk (sfs_readblock ino)
  v ← force_type forcetype (record {
    sv = record { inode = dinode_of b; ino = ino; dirty = false };
    block = b;
    refcount = 1;
  })
  kassert (known_type v.sv.inode.kind)
  add_vnode table_room v

abbrev pub load_rest : (memory table_room : Bool) → (ino forcetype : ℕ) → Option ℕ → Exec Mount ℕ
load_rest memory table_room ino forcetype none = load_new memory table_room ino forcetype
load_rest memory table_room ino forcetype (some i) = pure i

unfoldable pub sfs_loadvnode : (memory table_room : Bool) → (ino forcetype : ℕ) → Exec Mount ℕ
sfs_loadvnode memory table_room ino forcetype s =
    (load_scan s.vnodes 0 ino forcetype >>= load_rest memory table_room ino forcetype) s

-- The end of sfs_makeobj, by the result of sfs_loadvnode.
abbrev pub makeobj_end : ℕ → Outcome ℕ → Exec Mount ℕ
makeobj_end ino (ok i) s = (ok i, s)
makeobj_end ino (err e) s = (on_disk (sfs_bfree ino) >> fail e) s
makeobj_end ino panic s = (panic, s)

abbrev pub load_object : (memory table_room : Bool) → (type_ ino : ℕ) → Exec Mount ℕ
load_object memory table_room type_ ino s =
    let (r, s') = sfs_loadvnode memory table_room ino type_ s in makeobj_end ino r s'

unfoldable pub sfs_makeobj : (memory table_room : Bool) → (type_ : ℕ) → Exec Mount ℕ
sfs_makeobj memory table_room type_ = on_disk sfs_balloc >>= load_object memory table_room type_

abbrev pub with_lock : Mount → BigLock → Mount
with_lock s l = record s { fs = record s.fs { lock = l } }

-- A call of the big lock's functions, and a function that runs under the lock.
abbrev pub relock : Outcome BigLock → Exec Mount (Unit {0})
relock (ok l) s = (ok tt, with_lock s l)
relock (err e) s = (err e, s)
relock panic s = (panic, s)

abbrev pub released : {A : Type 0} → Outcome A → Exec Mount A
released (ok a) s = (relock (vfs_biglock_release s.fs.lock) >> pure a) s
released (err e) s = (relock (vfs_biglock_release s.fs.lock) >> fail e) s
released panic s = (panic, s)

abbrev pub under_lock : {A : Type 0} → Exec Mount A → Exec Mount A
under_lock body s =
    (relock (vfs_biglock_acquire s.fs.lock) >> λ s'. released (body s').0 (body s').1) s

-- SFS_ROOTDIR_INO is 1.
unfoldable pub root_body : (memory table_room : Bool) → Exec Mount ℕ
root_body memory table_room = sfs_loadvnode memory table_room 1 0 >>= λ i s.
    if (vnode_at s i).sv.inode.kind == 2 then (ok i, s) else (err einval, s)

unfoldable pub sfs_getroot : (memory table_room : Bool) → Exec Mount ℕ
sfs_getroot memory table_room = under_lock (root_body memory table_room)

-- sfs_itrunc on the vnode at a place of the table.
abbrev pub truncate : ℕ → Exec Mount (Unit {0})
truncate i s =
    let v = vnode_at s i in
    let (r, f) = sfs_itrunc 0 (record { fs = s.fs; sv = v.sv }) in
    (r, record s { fs = f.fs; vnodes = set s.vnodes i (record v { sv = f.sv }) })

abbrev pub sync : ℕ → Exec Mount (Unit {0})
sync i s =
    (on_disk (sfs_sync_inode (vnode_at s i)) >>= λ v.
    modify (λ s. record s { vnodes = set s.vnodes i v }))
      s

abbrev pub removed : List Loaded → ℕ → List Loaded
removed [] i = []
removed (v ∷ vs) zero = vs
removed (v ∷ vs) (suc i) = v ∷ removed vs i

abbrev pub unlinked : Mount → ℕ → Bool
unlinked s i = (vnode_at s i).sv.inode.linkcount == 0

-- sfs_reclaim where the reference is the last one. A vnode is its place in the table, so the search
-- for it finds it; vnode_cleanup asserts that the count is 1, which has been tested.
unfoldable pub reclaim_last : ℕ → Exec Mount (Unit {0})
reclaim_last i =
    (λ s. if unlinked s i then truncate i s else (ok tt, s))
    >> sync i
    >> (λ s. if unlinked s i then on_disk (sfs_bfree (vnode_at s i).sv.ino) s else (ok tt, s))
    >> modify (λ s. record s { vnodes = removed s.vnodes i })

unfoldable pub reclaim_body : ℕ → Exec Mount (Unit {0})
reclaim_body i s =
    let v = vnode_at s i in
    if not (v.refcount == 1)
    then (kassert (ltb 1 v.refcount)
          >> modify
              (λ s. record s { vnodes = set s.vnodes i (record v { refcount = v.refcount - 1 }) })
          >> fail ebusy)
        s
    else reclaim_last i s

unfoldable pub sfs_reclaim : ℕ → Exec Mount (Unit {0})
sfs_reclaim i = under_lock (reclaim_body i)
