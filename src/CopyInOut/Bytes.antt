-- ===== src/CopyInOut/Bytes.antt =====
-- The copying of bytes in copyin and copyout of kern/vm/copyinout.c, and how it stops at a fault.
use project_os.Prelude.{
  ℕ, zero, suc, ◌+◌, ◌-◌, ◌≤◌, ◌<◌, ◌≡◌, ◌≢◌, ◌⊎◌, inl, inr, refl, Bool, true, false, ◌&&◌, arith,
  ltb, leb, ◌==◌, if◌then◌else◌, Bool-cases,
}
use project_os.Outcome.{efault}
use project_os.Outcome.Ends
use project_os.Outcome.Ends.{Ends, returns, fails}
use project_os.CopyInOut.{Machine, put_byte, reaches, copy_byte, memcpy}

-- The bytes from `a` on, `n` of them.
abbrev pub within : ℕ → ℕ → ℕ → Bool
within a n k = leb a k && ltb k (a + n)

module _ (user : ℕ → Bool) (dest src : ℕ) where
  -- The bytes from `i` on, `n` of them, are copied; all could be reached.
  pub record Copied (s : Machine) (i n : ℕ) (s' : Machine) : Type 0 where
    pub reached :
        (j : ℕ)
        → i ≤ j
        → j < i + n
        → (reaches user (src + j) ≡ true) × (reaches user (dest + j) ≡ true)
    pub memory :
        (a : ℕ)
        → s'.memory a ≡ (if within (dest + i) n a then s.memory (src + (a - dest)) else s.memory a)
    pub guarded : s'.guarded ≡ true

  -- A byte could not be reached, and nothing but the bytes at the destination may have changed.
  pub record Faulted (s : Machine) (i n : ℕ) (s' : Machine) : Type 0 where
    pub unreached :
        (j : ℕ) × (i ≤ j)
        × (j < i + n)
        × ((reaches user (src + j) ≡ false) ⊎ (reaches user (dest + j) ≡ false))
    pub memory : (a : ℕ) → within (dest + i) n a ≡ false → s'.memory a ≡ s.memory a
    pub guarded : s'.guarded ≡ false

  module _ (len : ℕ) (apart : (j k : ℕ) → j < len → k < len → src + j ≢ dest + k) where
    byte_at :
        (s : Machine) (i a : ℕ)
        → put_byte s.memory (dest + i) (s.memory (src + i)) a
          ≡ (if within (dest + i) 1 a then s.memory (src + (a - dest)) else s.memory a)
    byte_at s i a = elim (Bool-cases (dest + i == a)) [
      | inl e ↦
          let e' : src + (a - dest) ≡ src + i = ground arith in
          let w : within (dest + i) 1 a ≡ true = ground arith in rw (e, w, e')
      | inr e ↦ let w : within (dest + i) 1 a ≡ false = ground arith in rw (e, w)
    ]

    pub copy_byte-Ends :
        (s : Machine) (i : ℕ)
        → i < len
        → s.guarded ≡ true
        → Ends
            (λ _. Copied s i 1)
            (λ e s'. (e ≡ efault) × Faulted s i 1 s')
            (copy_byte user dest src i s)
    unfolding copy_byte
    copy_byte-Ends s i low on = elim (Bool-cases (reaches user (src + i))) [
      | inr out ↦
          rw (out, on)
            (fails (
              refl,
              record {
                unreached = (i, omega arith, omega arith, inl out);
                memory = λ a h. refl;
                guarded = refl;
              },
            ))
      | inl in_ ↦ elim (Bool-cases (reaches user (dest + i))) [
        | inr out ↦
            rw (in_, out, on)
              (fails (
                refl,
                record {
                  unreached = (i, omega arith, omega arith, inr out);
                  memory = λ a h. refl;
                  guarded = refl;
                },
              ))
        | inl in_d ↦
            rw (in_, in_d)
              (returns (record {
                reached = λ j p q. let e : j ≡ i = omega arith in rw e (in_, in_d);
                memory = byte_at s i;
                guarded = on;
              }))
      ]
    ]

    pub memcpy-Ends :
        (n i : ℕ) (s : Machine)
        → i + n ≤ len
        → s.guarded ≡ true
        → Ends
            (λ _. Copied s i n)
            (λ e s'. (e ≡ efault) × Faulted s i n s')
            (memcpy user dest src n i s)
    unfolding memcpy
    memcpy-Ends zero i s fits on = returns (record {
      reached = λ j p q. absurd (omega arith);
      memory = λ a. ground arith;
      guarded = on;
    })
    memcpy-Ends (suc n) i s fits on =
        Ends.bind (copy_byte-Ends s i (omega arith) on)
          (λ _ s1 c.
            Ends.mono (memcpy-Ends n (i + 1) s1 (omega arith) c.guarded)
              (λ _ s2 d. record {
                reached = λ j p q. elim (Bool-cases (i == j)) [
                  | inl e ↦ c.reached j p (ground arith)
                  | inr e ↦ d.reached j (ground arith) (omega arith)
                ];
                memory = λ a. ground (
                  arith,
                  d.memory a,
                  c.memory a,
                  c.memory (src + (a - dest)),
                  apart (a - dest) i,
                );
                guarded = d.guarded;
              })
              (λ e s2 (r, f). (
                r,
                record {
                  unreached =
                      let (j, p, q, out) = f.unreached in (j, omega arith, omega arith, out);
                  memory = λ a h. ground (arith, f.memory a, c.memory a);
                  guarded = f.guarded;
                },
              )))
          (λ e s1 (r, f). (
            r,
            record {
              unreached = let (j, p, q, out) = f.unreached in (j, omega arith, omega arith, out);
              memory = λ a h. f.memory a (ground arith);
              guarded = f.guarded;
            },
          ))
