-- ===== src/CopyInOut/Strings.antt =====
-- The theorems on copyinstr and copyoutstr of kern/vm/copyinout.c.
use project_os.Prelude.{
  ℕ, ◌+◌, ◌-◌, ◌^◌, ◌≤◌, ◌<◌, ◌≡◌, ◌≢◌, ◌⊎◌, inl, inr, refl, Bool, true, false, arith, ltb, leb,
  ◌==◌, if◌then◌else◌, Bool-cases,
}
use project_os.Outcome.{Errno, Outcome, ok, err, efault, enametoolong}
use project_os.Outcome.Exec.{Exec, ◌>>=◌}
use project_os.Outcome.Ends.{Ends, returns, fails}
use project_os.CopyInOut.{
  Machine, userspacetop, copycheck, checked, reaches, copystr, copy_string, unguarded, copyoutstr,
}
use project_os.CopyInOut.Check.{copycheck_lem}
use project_os.CopyInOut.Bytes.{within}
use project_os.CopyInOut.Loop.{Found, LoopFailed, loop-Ends}

module _ (user : ℕ → Bool) (dest src ptr len : ℕ) where
  -- A string of `got` bytes, its end included, is copied; it lies within user space and all its
  -- bytes could be reached.
  pub record StringDone (s : Machine) (got : ℕ) (s' : Machine) : Type 0 where
    pub found : Found user dest src s 0 len got s'
    pub in_user : ptr + got ≤ userspacetop
    pub guarded : s'.guarded ≡ false

  -- No such string: a bad region or a byte that cannot be reached, or the string does not end
  -- before the end of user space; or it is too long.
  pub record StringRefused (s : Machine) (e : Errno) (s' : Machine) : Type 0 where
    pub reason :
        (e ≡ efault)
          × ((len ≡ 0)
              ⊎ (2 ^ 32 < ptr + len)
              ⊎ (userspacetop ≤ ptr)
              ⊎ ((j : ℕ) × (j < len)
                  × ((reaches user (src + j) ≡ false) ⊎ (reaches user (dest + j) ≡ false)))
              ⊎ (userspacetop < ptr + len)
                × ((j : ℕ) → j < userspacetop - ptr → s.memory (src + j) ≢ 0))
        ⊎ (e ≡ enametoolong)
          × (ptr + len ≤ userspacetop)
          × ((j : ℕ) → j < len → s.memory (src + j) ≢ 0)
    pub memory : (a : ℕ) → within dest len a ≡ false → s'.memory a ≡ s.memory a
    pub guarded : s'.guarded ≡ false

  module _
      (apart : (j k : ℕ)
        → j < len
        → ptr + j < userspacetop
        → k < len
        → ptr + k < userspacetop
        → src + j ≢ dest + k) where
    -- the length that copycheck has found
    module _ (stoplen m : ℕ) (small : m ≤ len) (user_end : ptr + m ≤ userspacetop)
        (bound : (if ltb len stoplen then len else stoplen) ≡ m)
        (stops : (stoplen < len) × (userspacetop < ptr + len) × (m ≡ userspacetop - ptr)
          ⊎ (len ≤ stoplen) × (ptr + len ≤ userspacetop) × (m ≡ len)) where
      refused :
          (s : Machine) (e : Errno) (s1 : Machine)
          → LoopFailed user dest src len stoplen (record s { guarded = true }) 0 m e s1
          → StringRefused s e (record s1 { guarded = false })
      refused s e s1 (inl (r, f)) = record {
        reason =
            let (j, p, q, out) = f.unreached in
            inl (r, inr (inr (inr (inl (j, omega arith, out)))));
        memory = λ a h. f.memory a (ground arith);
        guarded = refl;
      }
      refused s e s1 (inr (r, f)) = record {
        reason = elim stops [
          | inl (short, past, e1) ↦
              let t : ltb stoplen len ≡ true = ground arith in
              inl (
                rw t at r,
                inr (inr (inr (inr (past, λ j p. f.body j (omega arith) (omega arith))))),
              )
          | inr (long, within_, e1) ↦
              let t : ltb stoplen len ≡ false = ground arith in
              inr (rw t at r, within_, λ j p. f.body j (omega arith) (omega arith))
        ];
        memory = λ a h. f.memory a (ground arith);
        guarded = refl;
      }

      copied :
          (s : Machine)
          → Ends (StringDone s) (StringRefused s) (copy_string user dest src len stoplen s)
      unfolding copy_string copystr
      copied s = rw bound (
          unguard (
            loop-Ends user dest src len stoplen m
              (λ j k p q. apart j k (omega arith) (omega arith) (omega arith) (omega arith)) m 0
              (record s { guarded = true }) (omega arith) refl))
        where
          unguard :
              {r : Outcome ℕ × Machine}
              → Ends
                  (Found user dest src (record s { guarded = true }) 0 m)
                  (LoopFailed user dest src len stoplen (record s { guarded = true }) 0 m)
                  r
              → Ends (StringDone s) (StringRefused s) (unguarded user r.0 r.1)
          unguard (returns {a = got} {s = s1} f) = returns (record {
            found = record {
              more = f.more;
              bound = omega (arith, f.bound);
              ending = f.ending;
              body = f.body;
              memory = f.memory;
            };
            in_user = omega (arith, f.bound);
            guarded = refl;
          })
          unguard (fails {e} {s = s1} f) = fails (refused s e s1 f)

    abbrev checked_string : Exec Machine ℕ
    checked_string = checked ptr len >>= copy_string user dest src len

    bad_region :
        (s : Machine)
        → s.guarded ≡ false
        → copycheck ptr len ≡ err efault
        → (len ≡ 0) ⊎ (2 ^ 32 < ptr + len) ⊎ (userspacetop ≤ ptr)
        → Ends (StringDone s) (StringRefused s) (checked_string s)
    bad_region s off r why = rw r (
        fails (record {
          reason = inl (
            refl,
            elim why [
              | inl e ↦ inl e
              | inr (inl e) ↦ inr (inl e)
              | inr (inr e) ↦ inr (inr (inl e))
            ],
          );
          memory = λ a h. refl;
          guarded = off;
        }))

    good_region :
        (s : Machine)
        → ptr < userspacetop
        → (stoplen : ℕ) → copycheck ptr len ≡ ok stoplen
        → (stoplen < len) × (userspacetop < ptr + len) × (stoplen ≡ userspacetop - ptr)
          ⊎ (len ≤ stoplen) × (ptr + len ≤ userspacetop)
        → Ends (StringDone s) (StringRefused s) (checked_string s)
    good_region s user_ stoplen r (inl (short, past, e)) = rw r (
        copied stoplen (userspacetop - ptr) (omega arith) (omega arith) (ground arith)
          (inl (short, past, refl)) s)
    good_region s user_ stoplen r (inr (long, fits)) =
        rw r
          (copied stoplen len (omega arith) (omega arith) (ground arith) (inr (long, fits, refl)) s)

    pub checked_string-Ends :
        (s : Machine)
        → s.guarded ≡ false
        → ptr < 2 ^ 32
        → len < 2 ^ 32
        → Ends (StringDone s) (StringRefused s) (checked_string s)
    checked_string-Ends s off p q = elim (Bool-cases (leb userspacetop ptr)) [
      | inl high ↦
          bad_region s off ((copycheck_lem ptr len p q).1 (inr (inr (ground arith))))
            (inr (inr (ground arith)))
      | inr low ↦ elim (Bool-cases (len == 0)) [
        | inl none_ ↦
            let e : len ≡ 0 = ground arith in
            elim (Bool-cases (ptr == 0)) [
              | inl null ↦
                  let e' : ptr ≡ 0 = ground arith in
                  good_region s (ground arith) userspacetop
                    (rw (e, e') (copycheck_lem 0 0 (omega arith) (omega arith)).2)
                    (inr (omega arith, omega arith))
              | inr some_ ↦
                  bad_region s off ((copycheck_lem ptr len p q).1 (inl (e, ground arith))) (inl e)
            ]
        | inr some_ ↦ elim (Bool-cases (ltb (2 ^ 32) (ptr + len))) [
          | inl past ↦
              bad_region s off ((copycheck_lem ptr len p q).1 (inr (inl (ground arith))))
                (inr (inl (ground arith)))
          | inr fits ↦
              let r = (copycheck_lem ptr len p q).0 (ground arith) (ground arith) (ground arith) in
              elim (Bool-cases (leb (ptr + len) userspacetop)) [
                | inl in_ ↦
                    good_region s (ground arith) len (rw in_ at r) (inr (omega arith, ground arith))
                | inr out ↦
                    good_region s (ground arith) (userspacetop - ptr) (rw out at r)
                      (inl (ground arith, ground arith, refl))
              ]
        ]
      ]
    ]

-- With a string in kernel memory, copyoutstr ends, with the fault handler off and no memory outside
-- the user region changed. It returns 0 with the length of the string and the string in the region
-- if the string ends within `len` bytes and fits in user space, and every byte can be written.
-- Otherwise it returns ENAMETOOLONG, if the region is within user space and none of the `len` bytes
-- is 0, or EFAULT.
pub copyoutstr-Ends :
    (user : ℕ → Bool) (src userdest len : ℕ) (s : Machine)
    → s.guarded ≡ false
    → userdest < 2 ^ 32
    → len < 2 ^ 32
    → userspacetop ≤ src
    → Ends
        (StringDone user userdest src userdest len s)
        (StringRefused user userdest src userdest len s)
        (copyoutstr user src userdest len s)
unfolding copyoutstr
copyoutstr-Ends user src userdest len s off p q kernel =
    checked_string-Ends user userdest src userdest len (λ j k _ _ _ hk e. omega arith) s off p q
