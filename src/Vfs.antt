-- ===== src/Vfs.antt =====
-- The operations on paths, kern/vfs/vfspath.c, and the reference counts of vnodes, kern/vfs/vnode.c.
-- The operations of a file system, which are called through vn_ops, and the two lookups are an
-- interface. A pointer to a vnode is a number, 0 for NULL, and a path or a name is a list of characters.
pub mod Refs
pub mod Counts
pub mod Paths
pub mod Open
pub mod Tests
use project_os.Prelude.{
  ℕ, ◌+◌, ◌-◌, ◌^◌, Bool, true, false, not, Option, none, some, List, bit_and, ltb, ◌==◌,
  if◌then◌else◌,
}
use project_os.Outcome.{Outcome, ok, err, panic, einval, exdev}
use project_os.Outcome.Exec.{Exec, pure, fail, kassert, ◌>>=◌, ◌>>◌}

-- The vnodes' vn_refcount and vn_fs, and what else the operations work on.
pub record Vfs (W : Type 0) : Type 0 where
  pub refcount : ℕ → ℕ
  pub fs_of : ℕ → Option ℕ
  pub world : W

abbrev pub Text : Type 0
Text = List ℕ

-- VOP_CREAT and the others, vfs_lookup and vfs_lookparent.
pub record Ops (W : Type 0) : Type 0 where
  pub lookup : Text → Exec (Vfs W) ℕ
  pub lookparent : Text → Exec (Vfs W) (ℕ × Text)
  pub creat : ℕ → Text → (excl : Bool) → (mode : ℕ) → Exec (Vfs W) ℕ
  pub eachopen : ℕ → (openflags : ℕ) → Exec (Vfs W) (Unit {0})
  pub truncate : ℕ → (len : ℕ) → Exec (Vfs W) (Unit {0})
  pub remove : ℕ → Text → Exec (Vfs W) (Unit {0})
  pub rename : ℕ → Text → ℕ → Text → Exec (Vfs W) (Unit {0})
  pub link : ℕ → Text → ℕ → Exec (Vfs W) (Unit {0})
  pub symlink : ℕ → Text → (contents : Text) → Exec (Vfs W) (Unit {0})
  pub readlink : ℕ → Exec (Vfs W) (Unit {0})
  pub mkdir : ℕ → Text → (mode : ℕ) → Exec (Vfs W) (Unit {0})
  pub rmdir : ℕ → Text → Exec (Vfs W) (Unit {0})
  pub reclaim : ℕ → Exec (Vfs W) (Unit {0})

abbrev pub set_refs : {W : Type 0} → ℕ → ℕ → Vfs W → Vfs W
set_refs vn n s = record s { refcount = λ k. if vn == k then n else s.refcount k }

-- The end of vnode_decref: an error of VOP_RECLAIM is printed and dropped.
abbrev pub warned : {W : Type 0} → Outcome (Unit {0}) → Exec (Vfs W) (Unit {0})
warned (ok _) s = (ok tt, s)
warned (err e) s = (ok tt, s)
warned panic s = (panic, s)

-- `result = ...; VOP_DECREF(...); return result;`
abbrev pub finish : {W A : Type 0} → Outcome A → Exec (Vfs W) (Unit {0}) → Exec (Vfs W) A
finish (ok a) release s = (release >> pure a) s
finish (err e) release s = (release >> fail e) s
finish panic release s = (panic, s)

abbrev pub finally : {W A : Type 0} → Exec (Vfs W) A → Exec (Vfs W) (Unit {0}) → Exec (Vfs W) A
finally m release s = finish (m s).0 release (m s).1

-- `if (result) { VOP_DECREF(...); return result; }`
abbrev pub give_back : {W A : Type 0} → Outcome A → Exec (Vfs W) (Unit {0}) → Exec (Vfs W) A
give_back (ok a) release s = (ok a, s)
give_back (err e) release s = (release >> fail e) s
give_back panic release s = (panic, s)

abbrev pub on_error : {W A : Type 0} → Exec (Vfs W) A → Exec (Vfs W) (Unit {0}) → Exec (Vfs W) A
on_error m release s = give_back (m s).0 release (m s).1

-- `a->vn_fs==NULL || b->vn_fs==NULL || a->vn_fs != b->vn_fs`
abbrev pub fs_differ : Option ℕ → Option ℕ → Bool
fs_differ none b = true
fs_differ (some a) none = true
fs_differ (some a) (some b) = not (a == b)

abbrev pub one_fs : {W : Type 0} → ℕ → ℕ → Exec (Vfs W) (Unit {0})
one_fs a b s = if fs_differ (s.fs_of a) (s.fs_of b) then (err exdev, s) else (ok tt, s)

-- O_ACCMODE, O_CREAT, O_EXCL and O_TRUNC of kern/include/kern/fcntl.h
abbrev pub flag : ℕ → ℕ → Bool
flag openflags bit = not (bit_and openflags bit == 0)

module _ {W : Type 0} where
  unfoldable pub vnode_init : (vn : ℕ) → (fs : Option ℕ) → Exec (Vfs W) (Unit {0})
  vnode_init vn fs s =
      (ok tt, record (set_refs vn 1 s) { fs_of = λ k. if vn == k then fs else s.fs_of k })

  unfoldable pub vnode_cleanup : ℕ → Exec (Vfs W) (Unit {0})
  vnode_cleanup vn s =
      (kassert (s.refcount vn == 1) >> λ s.
      (ok tt, record (set_refs vn 0 s) { fs_of = λ k. if vn == k then none else s.fs_of k }))
        s

  -- vn_refcount is an int; its overflow is undefined, and taken for a panic.
  unfoldable pub vnode_incref : ℕ → Exec (Vfs W) (Unit {0})
  vnode_incref vn s =
      if not (ltb (s.refcount vn + 1) (2 ^ 31))
      then (panic, s)
      else (ok tt, set_refs vn (s.refcount vn + 1) s)

module _ {W : Type 0} (ops : Ops W) where
  abbrev pub reclaimed : ℕ → Exec (Vfs W) (Unit {0})
  reclaimed vn s = warned (ops.reclaim vn s).0 (ops.reclaim vn s).1

  unfoldable pub vnode_decref : ℕ → Exec (Vfs W) (Unit {0})
  vnode_decref vn s =
      (kassert (ltb 0 (s.refcount vn)) >> λ s.
      if ltb 1 (s.refcount vn) then (ok tt, set_refs vn (s.refcount vn - 1) s) else reclaimed vn s)
        s

  -- The vnode that vfs_open opens, with a reference.
  unfoldable pub open_vnode : Text → (openflags mode : ℕ) → Exec (Vfs W) ℕ
  open_vnode path openflags mode s =
      if flag openflags 4
      then (do
        (dir, name) ← ops.lookparent path
        finally (ops.creat dir name (flag openflags 8) mode) (vnode_decref dir))
          s
      else ops.lookup path s

  -- O_TRUNC: on a file that is open for reading only it is EINVAL.
  unfoldable pub open_truncate : (canwrite : Bool) → (openflags vn : ℕ) → Exec (Vfs W) (Unit {0})
  open_truncate canwrite openflags vn s =
      if flag openflags 16
      then (if canwrite then ops.truncate vn 0 s else (err einval, s))
      else (ok tt, s)

  unfoldable pub open_with : Bool → Text → (openflags mode : ℕ) → Exec (Vfs W) ℕ
  open_with canwrite path openflags mode = do
    vn ← open_vnode path openflags mode
    kassert (not (vn == 0))
    on_error (ops.eachopen vn openflags) (vnode_decref vn)
    on_error (open_truncate canwrite openflags vn) (vnode_decref vn)
    pure vn

  unfoldable pub vfs_open : Text → (openflags mode : ℕ) → Exec (Vfs W) ℕ
  vfs_open path openflags mode s =
      let how = bit_and openflags 3 in
      if how == 0
      then open_with false path openflags mode s
      else if how == 1
      then open_with true path openflags mode s
      else if how == 2
      then open_with true path openflags mode s
      else (err einval, s)

  unfoldable pub vfs_close : ℕ → Exec (Vfs W) (Unit {0})
  vfs_close vn = vnode_decref vn

  unfoldable pub vfs_remove : Text → Exec (Vfs W) (Unit {0})
  vfs_remove path = do
    (dir, name) ← ops.lookparent path
    finally (ops.remove dir name) (vnode_decref dir)

  unfoldable pub vfs_rename : Text → Text → Exec (Vfs W) (Unit {0})
  vfs_rename oldpath newpath = do
    (olddir, oldname) ← ops.lookparent oldpath
    finally
        (do
          (newdir, newname) ← ops.lookparent newpath
          finally (one_fs olddir newdir >> ops.rename olddir oldname newdir newname)
              (vnode_decref newdir))
        (vnode_decref olddir)

  unfoldable pub vfs_link : Text → Text → Exec (Vfs W) (Unit {0})
  vfs_link oldpath newpath = do
    oldfile ← ops.lookup oldpath
    finally
        (do
          (newdir, newname) ← ops.lookparent newpath
          finally (one_fs oldfile newdir >> ops.link newdir newname oldfile) (vnode_decref newdir))
        (vnode_decref oldfile)

  unfoldable pub vfs_symlink : (contents : Text) → Text → Exec (Vfs W) (Unit {0})
  vfs_symlink contents path = do
    (newdir, newname) ← ops.lookparent path
    finally (ops.symlink newdir newname contents) (vnode_decref newdir)

  unfoldable pub vfs_readlink : Text → Exec (Vfs W) (Unit {0})
  vfs_readlink path = do vn ← ops.lookup path; finally (ops.readlink vn) (vnode_decref vn)

  unfoldable pub vfs_mkdir : Text → (mode : ℕ) → Exec (Vfs W) (Unit {0})
  vfs_mkdir path mode = do
    (parent, name) ← ops.lookparent path
    finally (ops.mkdir parent name mode) (vnode_decref parent)

  unfoldable pub vfs_rmdir : Text → Exec (Vfs W) (Unit {0})
  vfs_rmdir path = do
    (parent, name) ← ops.lookparent path
    finally (ops.rmdir parent name) (vnode_decref parent)
