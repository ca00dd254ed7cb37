-- ===== src/Uio.antt =====
-- kern/lib/uio.c: moving data between a buffer of the kernel and the regions that a struct uio
-- names. What the regions lie in is one memory, `mem`; the buffer of the kernel is apart from it.
-- copyin and copyout of kern/vm/copyinout.c are parameters: they copy a region of user memory, as
-- the development on CopyInOut shows, or return EFAULT.
pub mod View
pub mod Region
pub mod Move
pub mod Zeros
use project_os.Prelude.{
  ℕ, zero, suc, ◌+◌, ◌-◌, ◌*◌, ◌%◌, ◌^◌, Bool, true, false, ◌||◌, ltb, leb, ◌==◌, ◌&&◌,
  if◌then◌else◌, List, [], ◌∷◌, length,
}
use project_os.Outcome.{Outcome, ok, err, panic, efault}
use project_os.Outcome.Exec.{Exec, pure, fail, panics, kassert, ◌>>=◌, ◌>>◌}
use project_os.Libc.{Memory}

-- enum uio_rw and enum uio_seg of kern/include/uio.h; UIO_USERISPACE is treated as UIO_USERSPACE.
pub data UioRw : Type 0 where
  uio_read uio_write : UioRw

pub data UioSeg : Type 0 where
  uio_userspace uio_sysspace : UioSeg

-- struct iovec
pub record Iovec : Type 0 where
  pub base : ℕ
  pub len : ℕ

-- struct uio, with the memory that its regions lie in; uio_iovcnt is the length of `iov`.
pub record Uio : Type 0 where
  pub iov : List Iovec
  pub offset : ℕ
  pub resid : ℕ
  pub segflg : UioSeg
  pub rw : UioRw
  pub mem : Memory

abbrev pub is_write : UioRw → Bool
is_write uio_read = false
is_write uio_write = true

abbrev pub is_read : UioRw → Bool
is_read uio_read = true
is_read uio_write = false

-- memcpy(dst + at, src, len)
abbrev pub copy_to : Memory → ℕ → Memory → ℕ → Memory
copy_to dst at src len k = if leb at k && ltb k (at + len) then src (k - at) else dst k

-- memcpy(dst, src + at, len)
abbrev pub copy_from : Memory → Memory → ℕ → ℕ → Memory
copy_from dst src at len k = if ltb k len then src (at + k) else dst k

-- copyin and copyout: whether the region at `base` of `size` bytes gives EFAULT, and what they
-- leave of the destination then.
pub record UserCopy : Type 0 where
  pub faults : (base size : ℕ) → Bool
  pub torn : (dst : Memory) → (at : ℕ) → (src : Memory) → (size : ℕ) → Memory

abbrev pub is_user : UioSeg → Bool
is_user uio_userspace = true
is_user uio_sysspace = false

module _ (user : UserCopy) where
  -- One region: memmove, copyout or copyin. Hands back the kernel's buffer.
  unfoldable pub move_region : UioRw → (ptr : Memory) → (at base size : ℕ) → Exec Uio Memory
  move_region uio_read ptr at base size s =
      if is_user s.segflg && user.faults base size
      then (err efault, record s { mem = user.torn s.mem base (λ i. ptr (at + i)) size })
      else (ok ptr, record s { mem = copy_to s.mem base (λ i. ptr (at + i)) size })
  move_region uio_write ptr at base size s =
      if is_user s.segflg && user.faults base size
      then (err efault, s)
      else (ok (copy_to ptr at (λ i. s.mem (base + i)) size), s)

  -- What a round adds to the uio, with the regions behind the first.
  abbrev pub advance : Iovec → List Iovec → (size : ℕ) → Uio → Uio
  advance v rest size s = record s {
    iov = record v { base = v.base + size; len = v.len - size } ∷ rest;
    resid = (s.resid + 2 ^ 32 - size) % 2 ^ 32;
    offset = s.offset + size;
  }

  abbrev pub Loop : Type 0
  Loop = (ptr : Memory) → (at n : ℕ) → Exec Uio Memory

  -- The first region is used up: uio_iov++.
  unfoldable pub next_region : Loop → (ptr : Memory) → (at n : ℕ) → List Iovec → Exec Uio Memory
  next_region next ptr at n [] s = panics s
  next_region next ptr at n (w ∷ rest) s = next ptr at n (record s { iov = w ∷ rest })

  -- The body of the loop, with the rounds that follow. A uio without regions has no first one.
  unfoldable pub uiomove_round : Loop → (ptr : Memory) → (at n : ℕ) → List Iovec → Exec Uio Memory
  uiomove_round next ptr at n [] s = panics s
  uiomove_round next ptr at n (v ∷ rest) s =
      let size = if ltb n v.len then n else v.len in
      if size == 0
      then next_region next ptr at n rest s
      else (do
        ptr' ← move_region s.rw ptr at v.base size
        λ s. next ptr' (at + size) (n - size) (advance v rest size s))
          s

  unfoldable pub uiomove_loop : (fuel : ℕ) → Loop
  uiomove_loop zero ptr at n s = panics s
  uiomove_loop (suc fuel) ptr at n s =
      let round = uiomove_round (uiomove_loop fuel) ptr at n s.iov s in
      if (n == 0) || (s.resid == 0) then (ok ptr, s) else round

  -- Each region takes at most two rounds.
  unfoldable pub uiomove : Loop
  uiomove ptr at n s = uiomove_loop (2 * length s.iov + 1) ptr at n s

  -- The loop of uiomovezeros, where each round moves a byte at least.
  unfoldable pub zeros_loop : (fuel : ℕ) → (n : ℕ) → Exec Uio (Unit {0})
  zeros_loop zero n s = panics s
  zeros_loop (suc fuel) n s =
      let amt = if ltb n 16 then n else 16 in
      let more = (do ptr ← uiomove (λ k. 0) 0 amt; zeros_loop fuel (n - amt)) s in
      if n == 0 then (ok tt, s) else more

  unfoldable pub uiomovezeros : (n : ℕ) → Exec Uio (Unit {0})
  uiomovezeros n s = (kassert (is_read s.rw) >> zeros_loop (n + 1) n) s

unfoldable pub uio_kinit : (kbuf len pos : ℕ) → UioRw → Memory → Uio
uio_kinit kbuf len pos rw mem = record {
  iov = record { base = kbuf; len = len } ∷ [];
  offset = pos;
  resid = len;
  segflg = uio_sysspace;
  rw = rw;
  mem = mem;
}
