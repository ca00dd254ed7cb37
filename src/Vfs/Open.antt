-- ===== src/Vfs/Open.antt =====
-- The theorems on vfs_open and vfs_close of kern/vfs/vfspath.c.
use project_os.Prelude.{
  ℕ, ◌≡◌, ◌≢◌, not, Bool, true, false, arith, bit_and, ◌==◌, Bool-cases, inl, inr,
}
use project_os.Outcome.{Outcome}
use project_os.Outcome.Exec.{Exec, ◌>>=◌}
use project_os.Outcome.Ends
use project_os.Outcome.Ends.{Ends, returns, fails}
use project_os.Vfs.{
  Vfs, Ops, Text, give_back, on_error, flag, vnode_decref, open_vnode, open_truncate, open_with,
  vfs_open, vfs_close,
}
use project_os.Vfs.Refs.{Extra, nothing, also, Extra-refl, Extra-trans, Extra-gain, IsLawful}
use project_os.Vfs.Counts.{vnode_decref-Ends, finish-With, quiet}

module _ {W : Type 0} (ops : Ops W) (law : IsLawful ops) where
  swapped :
      {s s' : Vfs W} (a b : ℕ)
      → Extra s (also a (also b nothing)) s'
      → Extra s (also b (also a nothing)) s'
  swapped a b e = record {
    counts = λ v h. omega (arith, e.counts v h);
    held = λ v h. omega (arith, e.held v (omega (arith, h)));
  }

  open_vnode-Ends :
      (path : Text) (openflags mode : ℕ) (s : Vfs W)
      → Ends
          (λ vn s'. Extra s (also vn nothing) s' × (vn ≢ 0))
          (λ e. Extra s nothing)
          (open_vnode ops path openflags mode s)
  unfolding open_vnode
  open_vnode-Ends path openflags mode s = elim (Bool-cases (flag openflags 4)) [
    | inr existing ↦ rw existing (law.lookup path s)
    | inl creating ↦ rw creating (
        Ends.bind (law.lookparent path s)
          (λ (dir, name) s1 e.
            finish-With ops law (λ vn. vn ≢ 0) s dir (λ vn. also vn nothing) nothing
              (Ends.mono (law.creat dir name (flag openflags 8) mode s1)
                (λ vn s2 (f, k). (swapped vn dir (Extra-gain (also dir nothing) vn e f), k))
                (λ _ s2 f. Extra-trans (also dir nothing) e f)))
          (λ _ s1 e. e))
  ]

  open_truncate-Ends :
      (canwrite : Bool) (openflags vn : ℕ) (s : Vfs W)
      → Ends
          (λ _. Extra s nothing)
          (λ e. Extra s nothing)
          (open_truncate ops canwrite openflags vn s)
  unfolding open_truncate
  open_truncate-Ends canwrite openflags vn s = elim (Bool-cases (flag openflags 16)) [
    | inr keeps ↦ rw keeps (returns (Extra-refl s))
    | inl truncates ↦ elim (Bool-cases canwrite) [
      | inl writes ↦ rw (truncates, writes) (law.truncate vn 0 s)
      | inr reads ↦ rw (truncates, reads) (fails (Extra-refl s))
    ]
  ]

  -- The reference that is held is given back if the operation fails.
  kept :
      (s s1 : Vfs W) (vn : ℕ) (m : Exec (Vfs W) (Unit {0}))
      → Extra s (also vn nothing) s1
      → Ends (λ _. Extra s1 nothing) (λ e. Extra s1 nothing) (m s1)
      → Ends
          (λ _. Extra s (also vn nothing))
          (λ e. Extra s nothing)
          (on_error m (vnode_decref ops vn) s1)
  kept s s1 vn m e calm = settle (quiet ops law s s1 (also vn nothing) e calm)
    where
      settle :
          {r : Outcome (Unit {0}) × Vfs W}
          → Ends (λ _. Extra s (also vn nothing)) (λ e. Extra s (also vn nothing)) r
          → Ends
              (λ _. Extra s (also vn nothing))
              (λ e. Extra s nothing)
              (give_back r.0 (vnode_decref ops vn) r.1)
      settle (returns x) = returns x
      settle (fails {s = s2} x) =
          Ends.bind (vnode_decref-Ends ops law s s2 nothing vn x) (λ _ s3 f. fails f)
            (λ _ _ void. absurd void)

  open_with-Ends :
      (canwrite : Bool) (path : Text) (openflags mode : ℕ) (s : Vfs W)
      → Ends
          (λ vn. Extra s (also vn nothing))
          (λ e. Extra s nothing)
          (open_with ops canwrite path openflags mode s)
  unfolding open_with
  open_with-Ends canwrite path openflags mode s =
      Ends.bind (open_vnode-Ends path openflags mode s)
        (λ vn s1 (e, k).
          let some_ : not (vn == 0) ≡ true = ground arith in
          rw some_ (
            Ends.bind (kept s s1 vn (ops.eachopen vn openflags) e (law.eachopen vn openflags s1))
              (λ _ s2 f.
                Ends.bind
                  (kept s s2 vn (open_truncate ops canwrite openflags vn) f
                    (open_truncate-Ends canwrite openflags vn s2))
                  (λ _ s3 x. returns x) (λ _ s3 x. x))
              (λ _ s2 f. f)))
        (λ _ s1 e. e)

  -- On a lawful file system vfs_open ends without a panic. If it returns 0, the vnode that it opens
  -- is in use, with one reference more than before if it was in use, and no other count of a vnode
  -- in use has changed; if it returns an error, none has.
  pub vfs_open-Ends :
      (path : Text) (openflags mode : ℕ) (s : Vfs W)
      → Ends
          (λ vn. Extra s (also vn nothing))
          (λ e. Extra s nothing)
          (vfs_open ops path openflags mode s)
  unfolding vfs_open
  vfs_open-Ends path openflags mode s = elim (Bool-cases (bit_and openflags 3 == 0)) [
    | inl reads ↦ rw reads (open_with-Ends false path openflags mode s)
    | inr other ↦ elim (Bool-cases (bit_and openflags 3 == 1)) [
      | inl writes ↦ rw (other, writes) (open_with-Ends true path openflags mode s)
      | inr third ↦ elim (Bool-cases (bit_and openflags 3 == 2)) [
        | inl both ↦ rw (other, third, both) (open_with-Ends true path openflags mode s)
        | inr bad ↦ rw (other, third, bad) (fails (Extra-refl s))
      ]
    ]
  ]

  -- On a lawful file system vfs_open and then vfs_close end without a panic, and every vnode that
  -- was in use has as many references as before.
  pub close-open-Ends :
      (path : Text) (openflags mode : ℕ) (s : Vfs W)
      → Ends
          (λ _. Extra s nothing)
          (λ e. Extra s nothing)
          ((vfs_open ops path openflags mode >>= vfs_close ops) s)
  unfolding vfs_close
  close-open-Ends path openflags mode s =
      Ends.bind (vfs_open-Ends path openflags mode s)
        (λ vn s1 e.
          Ends.mono (vnode_decref-Ends ops law s s1 nothing vn e) (λ _ s2 f. f)
            (λ _ _ void. absurd void))
        (λ _ s1 e. e)
