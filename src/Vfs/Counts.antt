-- ===== src/Vfs/Counts.antt =====
-- How the operations of kern/vfs/vfspath.c hold and give back references.
use project_os.Prelude.{
  ℕ, ◌-◌, ◌≤◌, ◌<◌, ◌≡◌, ◌≢◌, ◌⊎◌, refl, true, arith, ltb, Bool-cases, inl, inr,
}
use project_os.Outcome.{Outcome}
use project_os.Outcome.Exec.{Exec, continue}
use project_os.Outcome.Ends
use project_os.Outcome.Ends.{Ends, returns, fails}
use project_os.Vfs.{Vfs, Ops, set_refs, warned, finish, finally, vnode_decref}
use project_os.Vfs.Refs.{Extra, nothing, also, Extra-trans, Extra-gain, IsLawful}

module _ {W : Type 0} (ops : Ops W) where
  -- What vnode_decref makes of the state: above one the count goes down by one, and at one the
  -- reference is passed to VOP_RECLAIM, whose state is the result.
  abbrev pub Given : (vn : ℕ) → Vfs W → Vfs W → Type 0
  Given vn s s' =
      ((1 < s.refcount vn) × (s' ≡ set_refs vn (s.refcount vn - 1) s))
      ⊎ ((s.refcount vn ≡ 1) × (s' ≡ (ops.reclaim vn s).1))

module _ {W : Type 0} (ops : Ops W) (law : IsLawful ops) where
  -- the vnode's count is above one, or there is no other reference
  dropped :
      (s s1 : Vfs W) (g : ℕ → ℕ) (vn : ℕ)
      → Extra s (also vn g) s1
      → 1 < s1.refcount vn
      → Extra s g (set_refs vn (s1.refcount vn - 1) s1)
  dropped s s1 g vn e many = record {
    counts = λ v h. ground (arith, e.counts v h);
    held = λ v h. ground (arith, e.held v, e.held vn);
  }

  last_dropped :
      (s s1 s2 : Vfs W) (g : ℕ → ℕ) (vn : ℕ)
      → Extra s (also vn g) s1
      → s1.refcount vn ≤ 1
      → ((v : ℕ) → vn ≢ v → 0 < s1.refcount v → s2.refcount v ≡ s1.refcount v)
      → Extra s g s2
  last_dropped s s1 s2 g vn e one others = record {
    counts = λ v h. ground (arith, e.counts v h, e.held vn, others v);
    held = λ v h. ground (arith, e.held v, e.held vn, others v);
  }

  -- On a lawful file system vnode_decref gives back a reference that is held, without an error or
  -- a panic; the other references stay.
  pub vnode_decref-Ends :
      (s s1 : Vfs W) (g : ℕ → ℕ) (vn : ℕ)
      → Extra s (also vn g) s1
      → Ends (λ _. Extra s g) (λ e s'. ⊥) (vnode_decref ops vn s1)
  unfolding vnode_decref
  vnode_decref-Ends s s1 g vn e =
      let some_ : ltb 0 (s1.refcount vn) ≡ true = ground (arith, e.held vn) in
      rw some_ (elim (Bool-cases (ltb 1 (s1.refcount vn))) [
        | inl many ↦ rw many (returns (dropped s s1 g vn e (ground arith)))
        | inr one ↦ rw one (warn (law.reclaim vn s1) (ground arith))
      ])
    where
      warn :
          {r : Outcome (Unit {0}) × Vfs W}
          → Ends
              (λ _ s'. (v : ℕ) → vn ≢ v → 0 < s1.refcount v → s'.refcount v ≡ s1.refcount v)
              (λ e s'. (v : ℕ) → vn ≢ v → 0 < s1.refcount v → s'.refcount v ≡ s1.refcount v)
              r
          → s1.refcount vn ≤ 1
          → Ends (λ _. Extra s g) (λ e s'. ⊥) (warned r.0 r.1)
      warn (returns {s = s2} o) one = returns (last_dropped s s1 s2 g vn e one o)
      warn (fails {s = s2} o) one = returns (last_dropped s s1 s2 g vn e one o)

  -- On a lawful file system vnode_decref gives back a reference that is held, without an error or
  -- a panic; the other references stay. A count above one goes down by one. The last reference is
  -- passed to VOP_RECLAIM, once, and the count is left to it; its error is dropped.
  pub vnode_decref_lem :
      (s s1 : Vfs W) (g : ℕ → ℕ) (vn : ℕ)
      → Extra s (also vn g) s1
      → Ends (λ _ s'. Extra s g s' × Given ops vn s1 s') (λ e s'. ⊥) (vnode_decref ops vn s1)
  unfolding vnode_decref
  vnode_decref_lem s s1 g vn e =
      let some_ : ltb 0 (s1.refcount vn) ≡ true = ground (arith, e.held vn) in
      rw some_ (elim (Bool-cases (ltb 1 (s1.refcount vn))) [
        | inl many ↦
            rw many (returns (dropped s s1 g vn e (ground arith), inl (ground arith, refl)))
        | inr one ↦ rw one (warn (law.reclaim vn s1) refl (ground arith))
      ])
    where
      warn :
          {r : Outcome (Unit {0}) × Vfs W}
          → Ends
              (λ _ s'. (v : ℕ) → vn ≢ v → 0 < s1.refcount v → s'.refcount v ≡ s1.refcount v)
              (λ e s'. (v : ℕ) → vn ≢ v → 0 < s1.refcount v → s'.refcount v ≡ s1.refcount v)
              r
          → r.1 ≡ (ops.reclaim vn s1).1
          → s1.refcount vn ≡ 1
          → Ends (λ _ s'. Extra s g s' × Given ops vn s1 s') (λ e s'. ⊥) (warned r.0 r.1)
      warn (returns {s = s2} o) same one =
          returns (last_dropped s s1 s2 g vn e (omega arith) o, inr (one, same))
      warn (fails {s = s2} o) same one =
          returns (last_dropped s s1 s2 g vn e (omega arith) o, inr (one, same))

  pub finish-Ends :
      {A : Type 0} (s : Vfs W) (vn : ℕ) (g : A → ℕ → ℕ) (h : ℕ → ℕ) {r : Outcome A × Vfs W}
      → Ends (λ a. Extra s (also vn (g a))) (λ e. Extra s (also vn h)) r
      → Ends (λ a. Extra s (g a)) (λ e. Extra s h) (finish r.0 (vnode_decref ops vn) r.1)
  finish-Ends s vn g h (returns {a} {s = s1} e) =
      Ends.bind (vnode_decref-Ends s s1 (g a) vn e) (λ _ s2 f. returns f) (λ _ _ void. absurd void)
  finish-Ends s vn g h (fails {s = s1} e) =
      Ends.bind (vnode_decref-Ends s s1 h vn e) (λ _ s2 f. fails f) (λ _ _ void. absurd void)

  -- The same, for a result of which more is known.
  pub finish-With :
      {A : Type 0} (R : A → Type 0) (s : Vfs W) (vn : ℕ) (g : A → ℕ → ℕ) (h : ℕ → ℕ)
      {r : Outcome A × Vfs W}
      → Ends (λ a s'. Extra s (also vn (g a)) s' × R a) (λ e. Extra s (also vn h)) r
      → Ends
          (λ a s'. Extra s (g a) s' × R a)
          (λ e. Extra s h)
          (finish r.0 (vnode_decref ops vn) r.1)
  finish-With R s vn g h (returns {a} {s = s1} (e, k)) =
      Ends.bind (vnode_decref-Ends s s1 (g a) vn e) (λ _ s2 f. returns (f, k))
        (λ _ _ void. absurd void)
  finish-With R s vn g h (fails {s = s1} e) =
      Ends.bind (vnode_decref-Ends s s1 h vn e) (λ _ s2 f. fails f) (λ _ _ void. absurd void)

  -- An operation that takes no reference.
  pub quiet :
      {A : Type 0} (s s1 : Vfs W) (g : ℕ → ℕ) {r : Outcome A × Vfs W}
      → Extra s g s1
      → Ends (λ _. Extra s1 nothing) (λ e. Extra s1 nothing) r
      → Ends (λ _. Extra s g) (λ e. Extra s g) r
  quiet s s1 g e m = Ends.mono m (λ _ s2. Extra-trans g e) (λ _ s2. Extra-trans g e)

  -- Lookups in the middle of an operation.
  pub looked :
      {A B : Type 0} (s s1 : Vfs W) (g : ℕ → ℕ) (vnode : A → ℕ) {r : Outcome A × Vfs W}
      {f : A → Exec (Vfs W) B}
      → Extra s g s1
      → Ends (λ a. Extra s1 (also (vnode a) nothing)) (λ e. Extra s1 nothing) r
      → ((a : A) (s2 : Vfs W)
          → Extra s (also (vnode a) g) s2
          → Ends (λ _. Extra s g) (λ e. Extra s g) (f a s2))
      → Ends (λ _. Extra s g) (λ e. Extra s g) (continue r.0 f r.1)
  looked s s1 g vnode e m next =
      Ends.bind m (λ a s2 x. next a s2 (Extra-gain g (vnode a) e x)) (λ _ s2. Extra-trans g e)

  pub released :
      {A : Type 0} (s s1 : Vfs W) (g : ℕ → ℕ) (vn : ℕ) (m : Exec (Vfs W) A)
      → Ends (λ _. Extra s (also vn g)) (λ e. Extra s (also vn g)) (m s1)
      → Ends (λ _. Extra s g) (λ e. Extra s g) (finally m (vnode_decref ops vn) s1)
  released s s1 g vn m h = finish-Ends s vn (λ _. g) g h
