-- ===== src/Vfs/Refs.antt =====
-- The references to vnodes that an operation holds, over kern/vfs/vnode.c.
use project_os.Prelude.{ℕ, ◌+◌, ◌≤◌, ◌<◌, ◌≡◌, ◌≢◌, Bool, arith, ◌==◌, if◌then◌else◌}
use project_os.Outcome.Exec.{Exec}
use project_os.Outcome.Ends.{Ends}
use project_os.Vfs.{Vfs, Ops, Text}

-- Between `s` and `s'` the operation has gained `g v` references to each vnode `v`: the counts of
-- the vnodes that were in use have grown by these, and the vnodes it refers to are in use.
pub record Extra {W : Type 0} (s : Vfs W) (g : ℕ → ℕ) (s' : Vfs W) : Type 0 where
  pub counts : (v : ℕ) → 0 < s.refcount v → s'.refcount v ≡ s.refcount v + g v
  pub held : (v : ℕ) → 0 < g v → g v ≤ s'.refcount v

abbrev pub nothing : ℕ → ℕ
nothing v = 0

abbrev pub also : ℕ → (ℕ → ℕ) → ℕ → ℕ
also vn g v = g v + (if vn == v then 1 else 0)

module _ {W : Type 0} where
  pub Extra-refl : (s : Vfs W) → Extra s nothing s
  Extra-refl s = record { counts = λ v h. omega arith; held = λ v h. omega arith }

  pub Extra-trans :
      {s s1 s2 : Vfs W} (g : ℕ → ℕ) → Extra s g s1 → Extra s1 nothing s2 → Extra s g s2
  Extra-trans g e f = record {
    counts = λ v h. omega (arith, e.counts v h, f.counts v (omega (arith, e.counts v h)));
    held = λ v h. omega (arith, e.held v h, f.counts v (omega (arith, e.held v h)));
  }

  pub Extra-gain :
      {s s1 s2 : Vfs W} (g : ℕ → ℕ) (vn : ℕ)
      → Extra s g s1
      → Extra s1 (also vn nothing) s2
      → Extra s (also vn g) s2
  Extra-gain g vn e f = record {
    counts = λ v h. ground (arith, e.counts v h, f.counts v);
    held = λ v h. ground (arith, e.held v, f.counts v, f.held v);
  }

-- What the file system and the lookups promise: they return 0 or an error, a lookup and VOP_CREAT
-- return a vnode with a reference, not NULL, and otherwise the counts of the vnodes in use stay, but for the
-- vnode that is reclaimed.
abbrev pub Quiet : {W A : Type 0} → Exec (Vfs W) A → Type 0
Quiet m = (s : _) → Ends (λ _. Extra s nothing) (λ e. Extra s nothing) (m s)

pub record IsLawful {W : Type 0} (ops : Ops W) : Type 0 where
  pub lookup :
      (path : Text) (s : Vfs W)
      → Ends
          (λ vn s'. Extra s (also vn nothing) s' × (vn ≢ 0))
          (λ e. Extra s nothing)
          (ops.lookup path s)
  pub lookparent :
      (path : Text) (s : Vfs W)
      → Ends (λ r. Extra s (also r.0 nothing)) (λ e. Extra s nothing) (ops.lookparent path s)
  pub creat :
      (dir : ℕ) (name : Text) (excl : Bool) (mode : ℕ) (s : Vfs W)
      → Ends
          (λ vn s'. Extra s (also vn nothing) s' × (vn ≢ 0))
          (λ e. Extra s nothing)
          (ops.creat dir name excl mode s)
  pub eachopen : (vn openflags : ℕ) → Quiet (ops.eachopen vn openflags)
  pub truncate : (vn len : ℕ) → Quiet (ops.truncate vn len)
  pub remove : (vn : ℕ) (name : Text) → Quiet (ops.remove vn name)
  pub rename : (a : ℕ) (m : Text) (b : ℕ) (n : Text) → Quiet (ops.rename a m b n)
  pub link : (vn : ℕ) (name : Text) (file : ℕ) → Quiet (ops.link vn name file)
  pub symlink : (vn : ℕ) (name contents : Text) → Quiet (ops.symlink vn name contents)
  pub readlink : (vn : ℕ) → Quiet (ops.readlink vn)
  pub mkdir : (vn : ℕ) (name : Text) (mode : ℕ) → Quiet (ops.mkdir vn name mode)
  pub rmdir : (vn : ℕ) (name : Text) → Quiet (ops.rmdir vn name)
  pub reclaim :
      (vn : ℕ) (s : Vfs W)
      → Ends
          (λ _ s'. (v : ℕ) → vn ≢ v → 0 < s.refcount v → s'.refcount v ≡ s.refcount v)
          (λ e s'. (v : ℕ) → vn ≢ v → 0 < s.refcount v → s'.refcount v ≡ s.refcount v)
          (ops.reclaim vn s)
