-- ===== src/Lock/Correct.antt =====
-- The theorems on the lock of kern/thread/synch.c.
use project_os.Prelude.{
  Bool, false, ◌||◌, ◌++◌, ℕ, ◌≡◌, ◌≢◌, ◌⊎◌, inl, inr, refl, sym, ◌∙◌, arith, true, Option, none,
  some, List, [], ◌∷◌, ◌==◌, if◌then◌else◌,
}
use project_os.Outcome.{ok, panic}
use project_os.Lock.{
  outside, asleep, woken, inside, Lock, take_lock, lock_try, wchan_wakeone, lock_release, Step,
  arrives, resumes, leaves, Reachable, starts, steps,
}

unfoldable pub is_in : ℕ → List ℕ → Bool
is_in t [] = false
is_in t (u ∷ us) = (u == t) || is_in t us

is_in-append : (t u : ℕ) (us : List ℕ) → is_in t (us ++ u ∷ []) ≡ (is_in t us || (u == t))
unfolding is_in
is_in-append t u [] = ground arith
is_in-append t u (v ∷ us) = let ih = is_in-append t u us in ground (arith, ih)

pub record IsLock (s : Lock) : Type 0 where
  pub owner : (t : ℕ) → s.phase t ≡ inside → s.holder ≡ some t
  pub owned : (t : ℕ) → s.holder ≡ some t → s.phase t ≡ inside
  -- while the lock is free, no thread sleeps unless one is about to test the lock
  pub awake : s.holder ≡ none → (s.queue ≡ []) ⊎ ((t : ℕ) × (s.phase t ≡ woken))
  pub queued : (t : ℕ) → s.phase t ≡ asleep → is_in t s.queue ≡ true

try-IsLock :
    (s : Lock) (t : ℕ) (h : Option ℕ)
    → s.holder ≡ h
    → IsLock s
    → s.phase t ≢ inside
    → IsLock (take_lock h t s)
try-IsLock s t none e inv out = record {
  owner = λ u h. ground (arith, inv.owner u);
  owned = λ u h. ground arith;
  awake = λ h. cc;
  queued = λ u h. ground (arith, inv.queued u);
}
try-IsLock s t (some v) e inv out = record {
  owner = λ u h. ground (arith, inv.owner u);
  owned = λ u h. ground (arith, inv.owned u);
  awake = λ h. cc;
  queued = λ u h. is_in-append u t s.queue ∙ ground (arith, inv.queued u);
}

-- The state in lock_release before the wakeup, with the queue as it then is.
abbrev freed : Lock → ℕ → List ℕ → Lock
freed s t q = record s {
  holder = none;
  phase = λ u. if t == u then outside else s.phase u;
  queue = q;
}

no_owner : (s : Lock) (t u : ℕ) → IsLock s → s.phase t ≡ inside → s.phase u ≡ inside → t ≡ u
no_owner s t u inv p q =
    let e : ◌≡◌ {A = Option ℕ} (some t) (some u) = sym (inv.owner t p) ∙ inv.owner u q in
    ground arith

release-IsLock :
    (s : Lock) (t : ℕ)
    → IsLock s
    → s.phase t ≡ inside
    → (q : List ℕ) → s.queue ≡ q
    → IsLock (wchan_wakeone q (freed s t q))
unfolding is_in
release-IsLock s t inv p [] e = record {
  owner = λ u h. absurd (ground (arith, no_owner s t u inv p));
  owned = λ u h. cc;
  awake = λ h. inl refl;
  queued = λ u h. rw e at (inv.queued u (ground arith));
}
release-IsLock s t inv p (v ∷ rest) e = record {
  owner = λ u h. absurd (ground (arith, no_owner s t u inv p));
  owned = λ u h. cc;
  awake = λ h. inr (v, ground arith);
  queued = λ u h.
      let old : is_in u (v ∷ rest) ≡ true = rw e at (inv.queued u (ground arith)) in ground arith;
}

release_eq :
    (s : Lock) (t : ℕ)
    → IsLock s
    → s.phase t ≡ inside
    → lock_release t s ≡ ok (wchan_wakeone s.queue (freed s t s.queue))
unfolding lock_release
release_eq s t inv p = let self : (t == t) ≡ true = ground arith in rw (inv.owner t p, self)

Step-IsLock : (s s' : Lock) → IsLock s → Step s s' → IsLock s'
unfolding lock_try
Step-IsLock s s' inv (arrives t p) = try-IsLock s t s.holder refl inv (λ e. cc)
Step-IsLock s s' inv (resumes t p) = try-IsLock s t s.holder refl inv (λ e. cc)
Step-IsLock s s' inv (leaves t _ p r) =
    let same : ok (wchan_wakeone s.queue (freed s t s.queue)) ≡ ok s' =
      sym (release_eq s t inv p) ∙ r in
    let same' : wchan_wakeone s.queue (freed s t s.queue) ≡ s' = cc in
    rw⁻¹ same' (release-IsLock s t inv p s.queue refl)

pub Reachable-IsLock : (s : Lock) → Reachable s → IsLock s
Reachable-IsLock s starts = record {
  owner = λ t h. cc;
  owned = λ t h. cc;
  awake = λ h. inl refl;
  queued = λ t h. cc;
}
Reachable-IsLock s (steps {s = s0} r st) = Step-IsLock s0 s (Reachable-IsLock s0 r) st

-- In every state that the threads can reach, at most one thread is behind lock_acquire, and its
-- lock_release does not panic.
pub mutual_exclusion :
    (s : Lock) (t : ℕ)
    → Reachable s
    → s.phase t ≡ inside
    → ((u : ℕ) → s.phase u ≡ inside → t ≡ u) × (lock_release t s ≢ panic)
mutual_exclusion s t r p =
    let inv = Reachable-IsLock s r in
    (
      λ u q. no_owner s t u inv p q,
      λ e.
          let e' : ok (wchan_wakeone s.queue (freed s t s.queue)) ≡ panic =
            sym (release_eq s t inv p) ∙ e in
          cc,
    )
