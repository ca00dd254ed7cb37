-- ===== src/Vfs/Paths.antt =====
-- The theorems on kern/vfs/vfspath.c: no operation leaks a reference or drops one that it does not
-- hold.
use project_os.Prelude.{ℕ, Bool-cases, inl, inr}
use project_os.Outcome.Exec.{Exec, ◌>>=◌, ◌>>◌}
use project_os.Outcome.Ends
use project_os.Outcome.Ends.{Ends, fails}
use project_os.Vfs.{
  Vfs, Ops, Text, finally, fs_differ, one_fs, vnode_decref, vfs_remove, vfs_rename, vfs_link,
  vfs_symlink, vfs_readlink, vfs_mkdir, vfs_rmdir,
}
use project_os.Vfs.Refs.{Extra, nothing, also, Extra-refl, IsLawful}
use project_os.Vfs.Counts.{quiet, looked, released}

module _ {W : Type 0} (ops : Ops W) (law : IsLawful ops) where
  -- A lookup gives a reference.
  found :
      (path : Text) (s : Vfs W)
      → Ends (λ vn. Extra s (also vn nothing)) (λ e. Extra s nothing) (ops.lookup path s)
  found path s = Ends.mono (law.lookup path s) (λ _ s' (e, _). e) (λ _ s' e. e)

  -- The operations on one directory or file.
  on_parent :
      (path : Text) (m : ℕ → Text → Exec (Vfs W) (Unit {0}))
      → ((dir : ℕ) (name : Text) (s : Vfs W)
          → Ends (λ _. Extra s nothing) (λ e. Extra s nothing) (m dir name s))
      → (s : Vfs W)
      → Ends
          (λ _. Extra s nothing)
          (λ e. Extra s nothing)
          ((do (dir, name) ← ops.lookparent path; finally (m dir name) (vnode_decref ops dir)) s)
  on_parent path m calm s =
      looked ops law s s nothing (λ r. r.0) (Extra-refl s) (law.lookparent path s)
        (λ (dir, name) s2 e.
          released ops law s s2 nothing dir (m dir name)
            (quiet ops law s s2 (also dir nothing) e (calm dir name s2)))

  -- On a lawful file system vfs_remove, vfs_symlink, vfs_mkdir and vfs_rmdir end without a panic, and whether they return
  -- 0 or an error, every vnode that was in use has as many references as before.
  pub vfs_parents-Ends :
      (path contents : Text) (mode : ℕ) (s : Vfs W)
      → Ends (λ _. Extra s nothing) (λ e. Extra s nothing) (vfs_remove ops path s)
        × Ends (λ _. Extra s nothing) (λ e. Extra s nothing) (vfs_symlink ops contents path s)
        × Ends (λ _. Extra s nothing) (λ e. Extra s nothing) (vfs_mkdir ops path mode s)
        × Ends (λ _. Extra s nothing) (λ e. Extra s nothing) (vfs_rmdir ops path s)
  unfolding vfs_remove vfs_symlink vfs_mkdir vfs_rmdir
  vfs_parents-Ends path contents mode s = (
    on_parent path ops.remove (λ dir name s. law.remove dir name s) s,
    on_parent path (λ dir name. ops.symlink dir name contents)
        (λ dir name s. law.symlink dir name contents s) s,
    on_parent path (λ dir name. ops.mkdir dir name mode) (λ dir name s. law.mkdir dir name mode s)
        s,
    on_parent path ops.rmdir (λ dir name s. law.rmdir dir name s) s,
  )

  -- On a lawful file system vfs_readlink ends without a panic, and whether it returns 0 or an
  -- error, every vnode that was in use has as many references as before.
  pub vfs_readlink-Ends :
      (path : Text) (s : Vfs W)
      → Ends (λ _. Extra s nothing) (λ e. Extra s nothing) (vfs_readlink ops path s)
  unfolding vfs_readlink
  vfs_readlink-Ends path s =
      looked ops law s s nothing (λ vn. vn) (Extra-refl s) (found path s)
        (λ vn s2 e.
          released ops law s s2 nothing vn (ops.readlink vn)
            (quiet ops law s s2 (also vn nothing) e (law.readlink vn s2)))

  -- An operation behind the test that two vnodes are on the same file system.
  same_fs :
      (a b : ℕ) (m : Exec (Vfs W) (Unit {0})) (s s1 : Vfs W) (g : ℕ → ℕ)
      → Extra s g s1
      → Ends (λ _. Extra s1 nothing) (λ e. Extra s1 nothing) (m s1)
      → Ends (λ _. Extra s g) (λ e. Extra s g) ((one_fs a b >> m) s1)
  same_fs a b m s s1 g e calm = elim (Bool-cases (fs_differ (s1.fs_of a) (s1.fs_of b))) [
    | inl apart ↦ rw apart (fails e)
    | inr same ↦ rw same (quiet ops law s s1 g e calm)
  ]

  abbrev second : ℕ → Text → (ℕ → Text → Exec (Vfs W) (Unit {0})) → Exec (Vfs W) (Unit {0})
  second a path m = do
    (dir, name) ← ops.lookparent path
    finally (one_fs a dir >> m dir name) (vnode_decref ops dir)

  -- An operation on a vnode `a` that is held and the parent directory of a second path.
  on_second :
      (a : ℕ) (path : Text) (m : ℕ → Text → Exec (Vfs W) (Unit {0})) (s s1 : Vfs W)
      → ((dir : ℕ) (name : Text) (s : Vfs W)
          → Ends (λ _. Extra s nothing) (λ e. Extra s nothing) (m dir name s))
      → Extra s (also a nothing) s1
      → Ends
          (λ _. Extra s nothing)
          (λ e. Extra s nothing)
          (finally (second a path m) (vnode_decref ops a) s1)
  on_second a path m s s1 calm e = released ops law s s1 nothing a (second a path m) (
      looked ops law s s1 (also a nothing) (λ r. r.0) e (law.lookparent path s1)
        (λ (dir, name) s2 f.
          released ops law s s2 (also a nothing) dir (one_fs a dir >> m dir name)
            (same_fs a dir (m dir name) s s2 (also dir (also a nothing)) f (calm dir name s2))))

  -- On a lawful file system vfs_rename and vfs_link end without a panic, and whether they return 0 or an error, EXDEV
  -- included, every vnode that was in use has as many references as before.
  pub vfs_pairs-Ends :
      (oldpath newpath : Text) (s : Vfs W)
      → Ends (λ _. Extra s nothing) (λ e. Extra s nothing) (vfs_rename ops oldpath newpath s)
        × Ends (λ _. Extra s nothing) (λ e. Extra s nothing) (vfs_link ops oldpath newpath s)
  unfolding vfs_rename vfs_link
  vfs_pairs-Ends oldpath newpath s = (
    looked ops law s s nothing (λ r. r.0) (Extra-refl s) (law.lookparent oldpath s)
        (λ (dir, name) s1 e.
          on_second dir newpath (λ newdir newname. ops.rename dir name newdir newname) s s1
            (λ newdir newname s2. law.rename dir name newdir newname s2) e),
    looked ops law s s nothing (λ vn. vn) (Extra-refl s) (found oldpath s)
        (λ vn s1 e.
          on_second vn newpath (λ newdir newname. ops.link newdir newname vn) s s1
            (λ newdir newname s2. law.link newdir newname vn s2) e),
  )
