-- ===== src/CopyInOut/Loop.antt =====
-- The loop of copystr, for copyinstr and copyoutstr of kern/vm/copyinout.c.
use project_os.Prelude.{
  ℕ, zero, suc, ◌+◌, ◌-◌, ◌≤◌, ◌<◌, ◌≡◌, ◌≢◌, ◌⊎◌, inl, inr, refl, Bool, true, false, arith, ltb,
  ◌==◌, if◌then◌else◌, Bool-cases, sym, ◌∙◌,
}
use project_os.Outcome.{Errno, efault, enametoolong}
use project_os.Outcome.Ends
use project_os.Outcome.Ends.{Ends, returns, fails}
use project_os.CopyInOut.{Machine, copystr_loop}
use project_os.CopyInOut.Bytes.{within, Copied, Faulted, copy_byte-Ends}

module _ (user : ℕ → Bool) (dest src : ℕ) where
  -- The string in `s` at `src + i` ends within the next `n` bytes, before the offset `got`, and it
  -- is at `dest + i` in `s'`.
  pub record Found (s : Machine) (i n got : ℕ) (s' : Machine) : Type 0 where
    pub more : i < got
    pub bound : got ≤ i + n
    pub ending : s.memory (src + (got - 1)) ≡ 0
    pub body : (j : ℕ) → i ≤ j → j + 1 < got → s.memory (src + j) ≢ 0
    pub memory :
        (a : ℕ)
        → s'.memory a
          ≡ (if within (dest + i) (got - i) a then s.memory (src + (a - dest)) else s.memory a)

  -- The string does not end within the next `n` bytes.
  pub record Endless (s : Machine) (i n : ℕ) (s' : Machine) : Type 0 where
    pub body : (j : ℕ) → i ≤ j → j < i + n → s.memory (src + j) ≢ 0
    pub memory : (a : ℕ) → within (dest + i) n a ≡ false → s'.memory a ≡ s.memory a
    pub guarded : s'.guarded ≡ true

  module _ (maxlen stoplen : ℕ) where
    -- the error behind the loop
    abbrev pub short_errno : Errno
    short_errno = if ltb stoplen maxlen then efault else enametoolong

    abbrev pub LoopFailed : Machine → ℕ → ℕ → Errno → Machine → Type 0
    LoopFailed s i n e s' =
        (e ≡ efault) × Faulted user dest src s i n s' ⊎ (e ≡ short_errno) × Endless s i n s'

    module _ (len : ℕ) (apart : (j k : ℕ) → j < len → k < len → src + j ≢ dest + k) where
      ends_here :
          (s s1 : Machine) (n i : ℕ)
          → i < len
          → Copied user dest src s i 1 s1
          → (s1.memory (src + i) == 0) ≡ true
          → Found s i (suc n) (i + 1) s1
      ends_here s s1 n i low c z = record {
        more = omega arith;
        bound = omega arith;
        ending =
            let e : i + 1 - 1 ≡ i = omega arith in
            rw e (ground (arith, c.memory (src + i), apart i i low low));
        body = λ j p q. absurd (omega arith);
        memory = λ a. let e : i + 1 - i ≡ 1 = omega arith in rw e (c.memory a);
      }

      module _ (s s1 : Machine) (n i : ℕ) (fits : i + suc n ≤ len)
          (c : Copied user dest src s i 1 s1) (z : (s1.memory (src + i) == 0) ≡ false) where
        same_source : (j : ℕ) → j < len → s1.memory (src + j) ≡ s.memory (src + j)
        same_source j h = ground (arith, c.memory (src + j), apart j i h)

        body_here :
            (j : ℕ)
            → j < len
            → i ≤ j
            → (i + 1 ≤ j → s1.memory (src + j) ≢ 0)
            → s.memory (src + j) ≢ 0
        body_here j h p later = elim (Bool-cases (i == j)) [
          | inl e ↦
              let e' : j ≡ i = ground arith in
              rw (e', sym (same_source i (omega arith))) (λ zero_. ground arith)
          | inr e ↦ rw⁻¹ (same_source j h) (later (ground arith))
        ]

        ends_later : (got : ℕ) (s2 : Machine) → Found s1 (i + 1) n got s2 → Found s i (suc n) got s2
        ends_later got s2 f = record {
          more = omega (arith, f.more);
          bound = omega (arith, f.bound);
          ending = sym (same_source (got - 1) (omega (arith, f.more, f.bound))) ∙ f.ending;
          body = λ j p q. body_here j (omega (arith, f.bound)) p (λ r. f.body j r q);
          memory =
              λ a. ground (arith, f.more, f.bound, f.memory a, c.memory a, same_source (a - dest));
        }

        fails_later :
            (e : Errno) (s2 : Machine) → LoopFailed s1 (i + 1) n e s2 → LoopFailed s i (suc n) e s2
        fails_later e s2 (inl (r, f)) = inl (
          r,
          record {
            unreached = let (j, p, q, out) = f.unreached in (j, omega arith, omega arith, out);
            memory = λ a h. ground (arith, f.memory a, c.memory a);
            guarded = f.guarded;
          },
        )
        fails_later e s2 (inr (r, f)) = inr (
          r,
          record {
            body = λ j p q. body_here j (omega arith) p (λ h. f.body j h (omega arith));
            memory = λ a h. ground (arith, f.memory a, c.memory a);
            guarded = f.guarded;
          },
        )

      fails_first :
          (s : Machine) (n i : ℕ) (e : Errno) (s1 : Machine)
          → (e ≡ efault) × Faulted user dest src s i 1 s1
          → LoopFailed s i (suc n) e s1
      fails_first s n i e s1 (r, f) = inl (
        r,
        record {
          unreached = let (j, p, q, out) = f.unreached in (j, omega arith, omega arith, out);
          memory = λ a h. f.memory a (ground arith);
          guarded = f.guarded;
        },
      )

      pub loop-Ends :
          (n i : ℕ) (s : Machine)
          → i + n ≤ len
          → s.guarded ≡ true
          → Ends (Found s i n) (LoopFailed s i n) (copystr_loop user dest src maxlen stoplen n i s)
      unfolding copystr_loop
      loop-Ends zero i s fits on = fails (
          inr (
            refl,
            record { body = λ j p q. absurd (omega arith); memory = λ a h. refl; guarded = on },
          ))
      loop-Ends (suc n) i s fits on =
          Ends.bind (copy_byte-Ends user dest src len apart s i (omega arith) on)
            (λ _ s1 c. elim (Bool-cases (s1.memory (src + i) == 0)) [
              | inl z ↦ rw z (returns (ends_here s s1 n i (omega arith) c z))
              | inr z ↦ rw z (
                  Ends.mono (loop-Ends n (i + 1) s1 (omega arith) c.guarded)
                    (λ got s2 f. ends_later s s1 n i fits c z got s2 f)
                    (λ e s2 f. fails_later s s1 n i fits c z e s2 f))
            ])
            (λ e s1 f. fails_first s n i e s1 f)
