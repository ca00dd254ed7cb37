-- ===== src/CopyInOut/Blocks.antt =====
-- The theorems on copyin and copyout of kern/vm/copyinout.c.
use project_os.Prelude.{
  ℕ, ◌+◌, ◌-◌, ◌^◌, ◌≤◌, ◌<◌, ◌≡◌, ◌≢◌, ◌⊎◌, inl, inr, refl, Bool, true, false, ◌||◌, arith, ltb,
  leb, ◌==◌, if◌then◌else◌, Bool-cases,
}
use project_os.Outcome.{Errno, ok, err, efault}
use project_os.Outcome.Exec.{Exec, ◌>>=◌}
use project_os.Outcome.Ends
use project_os.Outcome.Ends.{Ends, returns, fails}
use project_os.CopyInOut.{
  Machine, userspacetop, copycheck, checked, reaches, copy_block, copyin, copyout,
}
use project_os.CopyInOut.Check.{copycheck_lem}
use project_os.CopyInOut.Bytes.{within, memcpy-Ends}

-- The user region is within user space, not empty, and every byte of it and of the kernel region
-- can be reached; the destination has the bytes and nothing else has changed.
module _ (user : ℕ → Bool) (dest src ptr len : ℕ) where
  pub record BlockDone (s s' : Machine) : Type 0 where
    pub some_ : 0 < len
    pub fits : ptr + len ≤ userspacetop
    pub reached :
        (j : ℕ) → j < len → (reaches user (src + j) ≡ true) × (reaches user (dest + j) ≡ true)
    pub memory :
        (a : ℕ)
        → s'.memory a ≡ (if within dest len a then s.memory (src + (a - dest)) else s.memory a)
    pub guarded : s'.guarded ≡ false

  -- The user region is not as `BlockDone` has it, and nothing outside the destination has changed.
  pub record BlockRefused (s : Machine) (e : Errno) (s' : Machine) : Type 0 where
    pub errno : e ≡ efault
    pub reason :
        (len ≡ 0)
        ⊎ (userspacetop < ptr + len)
        ⊎ ((j : ℕ) × (j < len)
            × ((reaches user (src + j) ≡ false) ⊎ (reaches user (dest + j) ≡ false)))
    pub memory : (a : ℕ) → within dest len a ≡ false → s'.memory a ≡ s.memory a
    pub guarded : s'.guarded ≡ false

  module _
      (apart : ptr + len ≤ userspacetop → (j k : ℕ) → j < len → k < len → src + j ≢ dest + k) where
    abbrev checked_copy : Exec Machine (Unit {0})
    checked_copy = checked ptr len >>= copy_block user dest src len

    refused :
        (s : Machine)
        → s.guarded ≡ false
        → (len ≡ 0) ⊎ (userspacetop < ptr + len)
        → BlockRefused s efault s
    refused s off why = record {
      errno = refl;
      reason = elim why [ inl e ↦ inl e | inr e ↦ inr (inl e) ];
      memory = λ a h. refl;
      guarded = off;
    }

    copied :
        (s : Machine)
        → 0 < len
        → ptr + len ≤ userspacetop
        → Ends (λ _. BlockDone s) (BlockRefused s) (copy_block user dest src len len s)
    unfolding copy_block
    copied s some_ fits =
        let self : (len == len) ≡ true = ground arith in
        rw self (
          Ends.bind
            (memcpy-Ends user dest src len (apart fits) len 0 (record s { guarded = true })
              (omega arith) refl)
            (λ _ s1 c. returns (record {
              some_ = some_;
              fits = fits;
              reached = λ j p. c.reached j (omega arith) (omega arith);
              memory = λ a. ground (arith, c.memory a);
              guarded = refl;
            }))
            (λ e s1 (r, f). record {
              errno = r;
              reason = let (j, p, q, out) = f.unreached in inr (inr (j, omega arith, out));
              memory = λ a h. f.memory a (ground arith);
              guarded = f.guarded;
            }))

    stopped :
        (s : Machine)
        → s.guarded ≡ false
        → copycheck ptr len ≡ err efault
        → (len ≡ 0) ⊎ (userspacetop < ptr + len)
        → Ends (λ _. BlockDone s) (BlockRefused s) (checked_copy s)
    stopped s off r why = rw r (fails (refused s off why))

    wrong_size :
        (s : Machine)
        → s.guarded ≡ false
        → (stoplen : ℕ) → copycheck ptr len ≡ ok stoplen
        → (stoplen == len) ≡ false
        → (len ≡ 0) ⊎ (userspacetop < ptr + len)
        → Ends (λ _. BlockDone s) (BlockRefused s) (checked_copy s)
    unfolding copy_block
    wrong_size s off stoplen r other why = rw (r, other) (fails (refused s off why))

    right_size :
        (s : Machine)
        → copycheck ptr len ≡ ok len
        → 0 < len
        → ptr + len ≤ userspacetop
        → Ends (λ _. BlockDone s) (BlockRefused s) (checked_copy s)
    right_size s r some_ fits = rw r (copied s some_ fits)

    pub checked_copy-Ends :
        (s : Machine)
        → s.guarded ≡ false
        → ptr < 2 ^ 32
        → len < 2 ^ 32
        → Ends (λ _. BlockDone s) (BlockRefused s) (checked_copy s)
    checked_copy-Ends s off p q = elim (Bool-cases (len == 0)) [
      | inl none_ ↦
          let e : len ≡ 0 = ground arith in
          elim (Bool-cases (ptr == 0)) [
            | inl null ↦
                let e' : ptr ≡ 0 = ground arith in
                wrong_size s off userspacetop
                  (rw (e, e') (copycheck_lem 0 0 (omega arith) (omega arith)).2) (ground arith)
                  (inl e)
            | inr some_ ↦
                stopped s off ((copycheck_lem ptr len p q).1 (inl (e, ground arith))) (inl e)
          ]
      | inr some_ ↦ elim (Bool-cases (leb userspacetop ptr || ltb (2 ^ 32) (ptr + len))) [
        | inl out ↦ elim (Bool-cases (leb userspacetop ptr)) [
          | inl high ↦
              stopped s off ((copycheck_lem ptr len p q).1 (inr (inr (ground arith))))
                (inr (ground arith))
          | inr low ↦
              stopped s off ((copycheck_lem ptr len p q).1 (inr (inl (ground arith))))
                (inr (ground arith))
        ]
        | inr in_ ↦
            let r = (copycheck_lem ptr len p q).0 (ground arith) (ground arith) (ground arith) in
            elim (Bool-cases (leb (ptr + len) userspacetop)) [
              | inl fits ↦ right_size s (rw fits at r) (ground arith) (ground arith)
              | inr long ↦
                  wrong_size s off (userspacetop - ptr) (rw long at r) (ground arith)
                    (inr (ground arith))
            ]
      ]
    ]

-- With a kernel buffer of `len` bytes, copyin ends: with 0 and the bytes of the user region in the
-- buffer if the region is not empty, lies below USERSPACETOP and can be read as a whole, and
-- otherwise with EFAULT. No other memory has changed and the fault handler is off again.
pub copyin-Ends :
    (user : ℕ → Bool) (usersrc dest len : ℕ) (s : Machine)
    → s.guarded ≡ false
    → usersrc < 2 ^ 32
    → len < 2 ^ 32
    → userspacetop ≤ dest
    → Ends
        (λ _. BlockDone user dest usersrc usersrc len s)
        (BlockRefused user dest usersrc usersrc len s)
        (copyin user usersrc dest len s)
unfolding copyin
copyin-Ends user usersrc dest len s off p q kernel =
    checked_copy-Ends user dest usersrc usersrc len (λ fits j k hj hk e. omega arith) s off p q

-- With a kernel buffer of `len` bytes, copyout ends: with 0 and the bytes of the buffer in the user
-- region if the region is not empty, lies below USERSPACETOP and can be written as a whole, and
-- otherwise with EFAULT. No memory outside the region has changed and the fault handler is off
-- again.
pub copyout-Ends :
    (user : ℕ → Bool) (src userdest len : ℕ) (s : Machine)
    → s.guarded ≡ false
    → userdest < 2 ^ 32
    → len < 2 ^ 32
    → userspacetop ≤ src
    → Ends
        (λ _. BlockDone user userdest src userdest len s)
        (BlockRefused user userdest src userdest len s)
        (copyout user src userdest len s)
unfolding copyout
copyout-Ends user src userdest len s off p q kernel =
    checked_copy-Ends user userdest src userdest len (λ fits j k hj hk e. omega arith) s off p q
