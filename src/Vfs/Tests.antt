-- ===== src/Vfs/Tests.antt =====
-- The theorems on kern/vfs/vfspath.c at a file system that has the root directory, vnode 1, for
-- every parent, and finds vnode 2 for every path; every other operation works and does nothing.
use project_os.Prelude.{ℕ, ◌+◌, arith, ◌==◌, if◌then◌else◌, [], ◌∷◌, some}
use project_os.Outcome.{ok}
use project_os.Outcome.Exec.{Exec, ◌>>=◌}
use project_os.Outcome.Ends.{Ends, returns}
use project_os.Vfs.{
  Vfs, Ops, set_refs, vnode_decref, vfs_open, vfs_close, vfs_remove, vfs_rename, vfs_link,
  vfs_symlink, vfs_mkdir, vfs_rmdir,
}
use project_os.Vfs.Refs.{Extra, nothing, also, Extra-refl, Quiet, IsLawful}
use project_os.Vfs.Counts.{Given, vnode_decref_lem}
use project_os.Vfs.Paths.{vfs_parents-Ends, vfs_pairs-Ends}
use project_os.Vfs.Open.{vfs_open-Ends, close-open-Ends}

abbrev State : Type 0
State = Vfs (Unit {0})

abbrev done : Exec State (Unit {0})
done s = (ok tt, s)

abbrev finds : {A : Type 0} → ℕ → A → Exec State A
finds vn a s = (ok a, set_refs vn (s.refcount vn + 1) s)

abbrev tiny : Ops (Unit {0})
tiny = record {
  lookup = λ path. finds 2 2;
  lookparent = λ path. finds 1 (1, path);
  creat = λ dir name excl mode. finds 2 2;
  eachopen = λ vn openflags. done;
  truncate = λ vn len. done;
  remove = λ vn name. done;
  rename = λ a m b n. done;
  link = λ vn name file. done;
  symlink = λ vn name contents. done;
  readlink = λ vn. done;
  mkdir = λ vn name mode. done;
  rmdir = λ vn name. done;
  reclaim = λ vn s. (ok tt, set_refs vn 0 s);
}

done-Quiet : Quiet done
done-Quiet s = returns (Extra-refl s)

finds-Extra : (vn : ℕ) (s : State) → Extra s (also vn nothing) (set_refs vn (s.refcount vn + 1) s)
finds-Extra vn s = record { counts = λ v h. ground arith; held = λ v h. ground arith }

tiny-IsLawful : IsLawful tiny
tiny-IsLawful = record {
  lookup = λ path s. returns (finds-Extra 2 s, λ e. omega arith);
  lookparent = λ path s. returns (finds-Extra 1 s);
  creat = λ dir name excl mode s. returns (finds-Extra 2 s, λ e. omega arith);
  eachopen = λ vn openflags. done-Quiet;
  truncate = λ vn len. done-Quiet;
  remove = λ vn name. done-Quiet;
  rename = λ a m b n. done-Quiet;
  link = λ vn name file. done-Quiet;
  symlink = λ vn name contents. done-Quiet;
  readlink = λ vn. done-Quiet;
  mkdir = λ vn name mode. done-Quiet;
  rmdir = λ vn name. done-Quiet;
  reclaim = λ vn s. returns (λ v ne h. ground arith);
}

-- The root directory is in use, with one reference.
abbrev root_only : State
root_only = record { refcount = λ v. if v == 1 then 1 else 0; fs_of = λ v. some 7; world = tt }

vnode_decref_lem_example :
    Ends
      (λ _ s'.
        Extra root_only nothing s'
        × Given tiny 2 (set_refs 2 (root_only.refcount 2 + 1) root_only) s')
      (λ e s'. ⊥)
      (vnode_decref tiny 2 (set_refs 2 (root_only.refcount 2 + 1) root_only))
vnode_decref_lem_example =
    vnode_decref_lem tiny tiny-IsLawful root_only (set_refs 2 (root_only.refcount 2 + 1) root_only)
      nothing 2 (finds-Extra 2 root_only)

vfs_open-Ends_example :
    Ends
      (λ vn. Extra root_only (also vn nothing))
      (λ e. Extra root_only nothing)
      (vfs_open tiny (97 ∷ []) 21 0 root_only)
vfs_open-Ends_example = vfs_open-Ends tiny tiny-IsLawful (97 ∷ []) 21 0 root_only

close-open-Ends_example :
    Ends
      (λ _. Extra root_only nothing)
      (λ e. Extra root_only nothing)
      ((vfs_open tiny (97 ∷ []) 0 0 >>= vfs_close tiny) root_only)
close-open-Ends_example = close-open-Ends tiny tiny-IsLawful (97 ∷ []) 0 0 root_only

vfs_parents-Ends_example :
    Ends
      (λ _. Extra root_only nothing)
      (λ e. Extra root_only nothing)
      (vfs_remove tiny (97 ∷ []) root_only)
    × Ends
        (λ _. Extra root_only nothing)
        (λ e. Extra root_only nothing)
        (vfs_symlink tiny (98 ∷ []) (97 ∷ []) root_only)
    × Ends
        (λ _. Extra root_only nothing)
        (λ e. Extra root_only nothing)
        (vfs_mkdir tiny (97 ∷ []) 0 root_only)
    × Ends
        (λ _. Extra root_only nothing)
        (λ e. Extra root_only nothing)
        (vfs_rmdir tiny (97 ∷ []) root_only)
vfs_parents-Ends_example = vfs_parents-Ends tiny tiny-IsLawful (97 ∷ []) (98 ∷ []) 0 root_only

vfs_pairs-Ends_example :
    Ends
      (λ _. Extra root_only nothing)
      (λ e. Extra root_only nothing)
      (vfs_rename tiny (97 ∷ []) (98 ∷ []) root_only)
    × Ends
        (λ _. Extra root_only nothing)
        (λ e. Extra root_only nothing)
        (vfs_link tiny (97 ∷ []) (98 ∷ []) root_only)
vfs_pairs-Ends_example = vfs_pairs-Ends tiny tiny-IsLawful (97 ∷ []) (98 ∷ []) root_only
