-- ===== src/Semaphore/Correct.antt =====
-- The theorems on the semaphore of kern/thread/synch.c.
use project_os.Prelude.{
  ℕ, suc, ◌+◌, ◌-◌, ◌%◌, ◌^◌, ◌≤◌, ◌<◌, ◌≡◌, ◌≢◌, ◌⊎◌, ◌↔◌, ◌∙◌, inl, inr, refl, subst, sym, arith,
  Bool, true, false, Bool-cases, List, [], ◌∷◌, ◌++◌, length, length-append, ltb, ◌==◌,
  if◌then◌else◌,
}
use project_os.Outcome.{ok, panic}
use project_os.Semaphore.{
  Semaphore, p_test, sem_p, wake_first, sem_v, Run, starts, arrives, resumes, gives,
}

-- The count balances the calls, and while threads sleep it is covered by woken threads.
record IsCounted (initial ps vs : ℕ) (s : Semaphore) : Type 0 where
  balance : ps + s.count ≡ initial + vs
  small : s.count < 2 ^ 32
  covered : (s.sleepers ≡ []) ⊎ (s.count ≤ length s.woken)

-- The test in P of a thread that is no longer in the list of woken ones.
test-IsCounted :
    (initial ps vs t : ℕ) (s : Semaphore)
    → ps + s.count ≡ initial + vs
    → s.count < 2 ^ 32
    → (s.sleepers ≡ []) ⊎ (s.count ≤ suc (length s.woken))
    → IsCounted initial (if (p_test t s).0 then suc ps else ps) vs (p_test t s).1
unfolding p_test
test-IsCounted initial ps vs t s bal small cov = elim (Bool-cases (s.count == 0)) [
  | inl z ↦ rw z (record { balance = bal; small = small; covered = inr (ground arith) })
  | inr n ↦ rw n (record {
    balance = ground arith;
    small = omega arith;
    covered = elim cov [ inl none_ ↦ inl none_ | inr le ↦ inr (omega arith) ];
  })
]

wake-IsCounted :
    (initial ps vs : ℕ) (s : Semaphore) (l : List ℕ)
    → s.sleepers ≡ l
    → s.count + 1 < 2 ^ 32
    → IsCounted initial ps vs s
    → IsCounted initial ps (suc vs) (wake_first l (record s { count = s.count + 1 }))
wake-IsCounted initial ps vs s [] e small inv = record {
  balance = omega (arith, inv.balance);
  small = small;
  covered = inl e;
}
wake-IsCounted initial ps vs s (t ∷ l) e small inv = record {
  balance = omega (arith, inv.balance);
  small = small;
  covered = elim inv.covered [ inl none_ ↦ absurd (cc) | inr le ↦ inr (omega arith) ];
}

-- V passes its assertion where the count does not wrap around.
v_lem :
    (s : Semaphore)
    → s.count + 1 < 2 ^ 32
    → sem_v s ≡ ok (wake_first s.sleepers (record s { count = s.count + 1 }))
unfolding sem_v
v_lem s small =
    let e : (s.count + 1) % 2 ^ 32 ≡ s.count + 1 = omega arith in
    let t : ltb 0 (s.count + 1) ≡ true = ground arith in rw (e, t)

v_wraps : (s : Semaphore) → s.count < 2 ^ 32 → 2 ^ 32 ≤ s.count + 1 → sem_v s ≡ panic
unfolding sem_v
v_wraps s small wraps = let e : (s.count + 1) % 2 ^ 32 ≡ 0 = omega arith in rw e

p_lem : (i b : Bool) (t : ℕ) (s s' : Semaphore) → sem_p i t s ≡ ok (b, s') → p_test t s ≡ (b, s')
unfolding sem_p
p_lem true b t s s' e = absurd (cc)
p_lem false b t s s' e = cc

count_small : (s s' : Semaphore) → sem_v s ≡ ok s' → s.count < 2 ^ 32 → s.count + 1 < 2 ^ 32
count_small s s' e small = elim (Bool-cases (ltb (s.count + 1) (2 ^ 32))) [
  | inl l ↦ ground arith
  | inr g ↦ let p = v_wraps s small (ground arith) in absurd (cc)
]

Run-IsCounted :
    (initial ps vs : ℕ) (s : Semaphore)
    → initial < 2 ^ 32
    → Run initial ps vs s
    → IsCounted initial ps vs s
Run-IsCounted initial ps vs s small starts = record {
  balance = omega arith;
  small = small;
  covered = inl refl;
}
Run-IsCounted initial ps vs s small (arrives {ps = ps0} {s = s0} in_interrupt t b _ r e) =
    let inv = Run-IsCounted initial ps0 vs s0 small r in
    subst (λ (x : Bool × Semaphore). IsCounted initial (if x.0 then suc ps0 else ps0) vs x.1)
      (p_lem in_interrupt b t s0 s e)
      (test-IsCounted initial ps0 vs t s0 inv.balance inv.small
        (elim inv.covered [ inl none_ ↦ inl none_ | inr le ↦ inr (omega arith) ]))
Run-IsCounted initial ps vs s small (resumes {ps = ps0} {s = s0} us t ws r e) =
    let inv = Run-IsCounted initial ps0 vs s0 small r in
    let len : length s0.woken ≡ suc (length (us ++ ws)) =
      rw e (omega (arith, length-append us (t ∷ ws), length-append us ws)) in
    test-IsCounted initial ps0 vs t (record s0 { woken = us ++ ws }) inv.balance inv.small
      (elim inv.covered [ inl none_ ↦ inl none_ | inr le ↦ inr (omega (arith, len)) ])
Run-IsCounted initial ps vs s small (gives {vs = vs0} {s = s0} _ r e) =
    let inv = Run-IsCounted initial ps vs0 s0 small r in
    let bound = count_small s0 s e inv.small in
    let same : ok (wake_first s0.sleepers (record s0 { count = s0.count + 1 })) ≡ ok s =
      sym (v_lem s0 bound) ∙ e in
    let same' : wake_first s0.sleepers (record s0 { count = s0.count + 1 }) ≡ s = cc in
    subst (IsCounted initial ps (suc vs0)) same'
      (wake-IsCounted initial ps vs0 s0 s0.sleepers refl bound inv)

-- However the threads interleave, P has returned at most as often as V has, and `initial` times
-- more; the count is the difference.
pub sem_p_bound :
    (initial ps vs : ℕ) (s : Semaphore)
    → initial < 2 ^ 32
    → Run initial ps vs s
    → (ps + s.count ≡ initial + vs) × (ps ≤ initial + vs)
sem_p_bound initial ps vs s small r =
    let inv = Run-IsCounted initial ps vs s small r in (inv.balance, omega (arith, inv.balance))

-- However the threads interleave, while a thread sleeps in P, as many threads as the count says, or
-- more, have been woken and are about to test it.
pub sleepers_covered :
    (initial ps vs : ℕ) (s : Semaphore)
    → initial < 2 ^ 32
    → Run initial ps vs s
    → s.sleepers ≢ []
    → s.count ≤ length s.woken
sleepers_covered initial ps vs s small r some_ =
    elim (Run-IsCounted initial ps vs s small r).covered [
      | inl none_ ↦ absurd (some_ none_)
      | inr le ↦ le
    ]

-- However the threads interleave, V does not fail its assertion unless the count is at its maximum,
-- 2 ^ 32 - 1.
pub sem_v_passes :
    (initial ps vs : ℕ) (s : Semaphore)
    → initial < 2 ^ 32
    → Run initial ps vs s
    → (sem_v s ≡ panic) ↔ (s.count ≡ 2 ^ 32 - 1)
sem_v_passes initial ps vs s small r =
    let inv = Run-IsCounted initial ps vs s small r in
    (
      λ e. elim (Bool-cases (ltb (s.count + 1) (2 ^ 32))) [
        | inl l ↦ let p = v_lem s (ground arith) in absurd (cc)
        | inr g ↦ let bound = inv.small in ground arith
      ],
      λ e. v_wraps s inv.small (omega arith),
    )
