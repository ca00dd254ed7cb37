-- ===== src/CopyInOut/Check.antt =====
-- The check of a user address, copycheck of kern/vm/copyinout.c.
use project_os.Prelude.{
  ℕ, ◌+◌, ◌-◌, ◌%◌, ◌^◌, ◌≤◌, ◌<◌, ◌≡◌, ◌⊎◌, inl, inr, refl, arith, ltb, leb, if◌then◌else◌, true,
}
use project_os.Outcome.{ok, err, efault}
use project_os.CopyInOut.{userspacetop, copycheck}

module _ (userptr len : ℕ) (p : userptr < 2 ^ 32) (q : len < 2 ^ 32) where
  passes :
      0 < len
      → userptr + len ≤ 2 ^ 32
      → userptr < userspacetop
      → copycheck userptr len
        ≡ ok (if leb (userptr + len) userspacetop then len else userspacetop - userptr)
  unfolding copycheck
  passes some_ fits user =
      let top : (userptr + len + (2 ^ 32 - 1)) % 2 ^ 32 ≡ userptr + len - 1 = omega arith in
      rw top (ground arith)

  wraps :
      ltb ((userptr + len + (2 ^ 32 - 1)) % 2 ^ 32) userptr ≡ true
      → copycheck userptr len ≡ err efault
  unfolding copycheck
  wraps top = rw top

  refuses :
      (len ≡ 0) × (0 < userptr) ⊎ (2 ^ 32 < userptr + len) ⊎ (userspacetop ≤ userptr)
      → copycheck userptr len ≡ err efault
  unfolding copycheck
  refuses (inl (e, some_)) = wraps (ground arith)
  refuses (inr (inl past)) = wraps (ground arith)
  refuses (inr (inr high)) =
      let h : leb userspacetop userptr ≡ true = ground arith in rw h (ground arith)

passes_null : copycheck 0 0 ≡ ok userspacetop
unfolding copycheck
passes_null = refl

pub copycheck_lem :
    (userptr len : ℕ)
    → userptr < 2 ^ 32
    → len < 2 ^ 32
    → (0 < len
        → userptr + len ≤ 2 ^ 32
        → userptr < userspacetop
        → copycheck userptr len
          ≡ ok (if leb (userptr + len) userspacetop then len else userspacetop - userptr))
      × ((len ≡ 0) × (0 < userptr) ⊎ (2 ^ 32 < userptr + len) ⊎ (userspacetop ≤ userptr)
          → copycheck userptr len ≡ err efault)
      × (copycheck 0 0 ≡ ok userspacetop)
copycheck_lem userptr len p q = (passes userptr len p q, refuses userptr len p q, passes_null)
