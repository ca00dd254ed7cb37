-- ===== src/Outcome.antt =====
-- How a kernel function ends: the code returns 0 and its results, returns an error number of
-- kern/include/kern/errno.h, or does not return.
pub mod Exec
pub mod Ends
use project_os.Prelude.{ℕ, ◌≡◌, refl, Bool, true, false}

-- The error numbers that the modelled functions return.
pub data Errno : Type 0 where
  enosys enomem enoent eexist enotdir einval enametoolong : Errno
  enodev enxio ebusy exdev enospc efbig eio efault : Errno

-- `panic` stands for a call of `panic`, a failed KASSERT, and a wait that never ends.
pub data Outcome {ℓ} (A : Type ℓ) : Type ℓ where
  ok : A → Outcome A
  err : Errno → Outcome A
  panic : Outcome A

module _ {ℓ κ} {A : Type ℓ} {B : Type κ} where
  infixl 5 ◌>>=◌
  abbrev pub ◌>>=◌ : Outcome A → (A → Outcome B) → Outcome B
  ok a >>= f = f a
  err e >>= f = err e
  panic >>= f = panic

infixl 5 ◌>>◌
abbrev pub ◌>>◌ {ℓ} : {B : Type ℓ} → Outcome (Unit {0}) → Outcome B → Outcome B
m >> k = m >>= λ _. k

-- KASSERT(b)
abbrev pub kassert : Bool → Outcome (Unit {0})
kassert true = ok tt
kassert false = panic
