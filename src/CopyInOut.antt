-- ===== src/CopyInOut.antt =====
-- Copying between user and kernel memory, kern/vm/copyinout.c. The memory is the byte at each
-- address, and an argument `user` says at which user addresses the machine can load and store.
-- memcpy is taken a byte at a time, from low to high: a fault stops it between two pages, and no
-- aligned word crosses pages. A fault runs the handler of the thread, so it ends the copying the
-- way the branch behind setjmp does. The length found by a string copy is its result.
pub mod Check
pub mod Bytes
pub mod Blocks
pub mod Loop
pub mod Strings
pub mod Tests
use project_os.Prelude.{
  ℕ, zero, suc, ◌+◌, ◌-◌, ◌%◌, ◌^◌, Bool, true, false, not, ltb, leb, ◌==◌, if◌then◌else◌,
}
use project_os.Outcome.{Outcome, ok, err, panic, efault, enametoolong}
use project_os.Outcome.Exec.{Exec, pure, fail, modify, ◌>>=◌, ◌>>◌}

pub record Machine : Type 0 where
  pub memory : ℕ → ℕ
  -- whether t_machdep.tm_badfaultfunc is set, to copyfail
  pub guarded : Bool

-- USERSPACETOP of kern/arch/mips/include/vm.h
abbrev pub userspacetop : ℕ
userspacetop = 0x80000000

-- The result is stoplen.
unfoldable pub copycheck : (userptr len : ℕ) → Outcome ℕ
copycheck userptr len =
    let top = (userptr + len + (2 ^ 32 - 1)) % 2 ^ 32 in
    if ltb top userptr
    then err efault
    else if leb userspacetop userptr
    then err efault
    else if leb userspacetop top
    then ok (userspacetop - userptr)
    else ok len

abbrev pub checked : (userptr len : ℕ) → Exec Machine ℕ
checked userptr len s = (copycheck userptr len, s)

-- tm_badfaultfunc = copyfail, or NULL
abbrev pub guard : Bool → Exec Machine (Unit {0})
guard b = modify (λ s. record s { guarded = b })

-- A fault: copyfail jumps to the setjmp, where the branch behind it clears the handler and returns
-- EFAULT. Without the handler the kernel panics.
abbrev pub fault : {A : Type 0} → Exec Machine A
fault s = if s.guarded then (err efault, record s { guarded = false }) else (panic, s)

abbrev pub put_byte : (ℕ → ℕ) → ℕ → ℕ → ℕ → ℕ
put_byte memory a v k = if a == k then v else memory k

module _ (user : ℕ → Bool) where
  -- The machine reaches every kernel address.
  abbrev pub reaches : ℕ → Bool
  reaches a = if ltb a userspacetop then user a else true

  -- `dest[i] = src[i]`
  unfoldable pub copy_byte : (dest src i : ℕ) → Exec Machine (Unit {0})
  copy_byte dest src i s =
      if not (reaches (src + i))
      then fault s
      else if not (reaches (dest + i))
      then fault s
      else (ok tt, record s { memory = put_byte s.memory (dest + i) (s.memory (src + i)) })

  -- The bytes from `i` on, `n` of them.
  unfoldable pub memcpy : (dest src n i : ℕ) → Exec Machine (Unit {0})
  memcpy dest src zero i = pure tt
  memcpy dest src (suc n) i = copy_byte dest src i >> memcpy dest src n (i + 1)

  -- Behind the check of the user address, in copyin and in copyout.
  unfoldable pub copy_block : (dest src len stoplen : ℕ) → Exec Machine (Unit {0})
  copy_block dest src len stoplen =
      if not (stoplen == len)
      then fail efault
      else guard true >> memcpy dest src len 0 >> guard false

  unfoldable pub copyin : (usersrc dest len : ℕ) → Exec Machine (Unit {0})
  copyin usersrc dest len = checked usersrc len >>= copy_block dest usersrc len

  unfoldable pub copyout : (src userdest len : ℕ) → Exec Machine (Unit {0})
  copyout src userdest len = checked userdest len >>= copy_block userdest src len

  -- copystr behind the loop
  abbrev pub ran_out : (maxlen stoplen : ℕ) → Exec Machine ℕ
  ran_out maxlen stoplen = fail (if ltb stoplen maxlen then efault else enametoolong)

  -- The loop of copystr from `i` on, with the rounds that are left: min(maxlen, stoplen) - i.
  unfoldable pub copystr_loop : (dest src maxlen stoplen n i : ℕ) → Exec Machine ℕ
  copystr_loop dest src maxlen stoplen zero i = ran_out maxlen stoplen
  copystr_loop dest src maxlen stoplen (suc n) i =
      let next = copystr_loop dest src maxlen stoplen n (i + 1) in
      copy_byte dest src i >> λ s. if s.memory (src + i) == 0 then (ok (i + 1), s) else next s

  unfoldable pub copystr : (dest src maxlen stoplen : ℕ) → Exec Machine ℕ
  copystr dest src maxlen stoplen =
      copystr_loop dest src maxlen stoplen (if ltb maxlen stoplen then maxlen else stoplen) 0

  -- `tm_badfaultfunc = NULL; return result`
  abbrev pub unguarded : Outcome ℕ → Exec Machine ℕ
  unguarded (ok n) s = (guard false >> pure n) s
  unguarded (err e) s = (guard false >> fail e) s
  unguarded panic s = (panic, s)

  -- Behind the check of the user address, in copyinstr and in copyoutstr.
  unfoldable pub copy_string : (dest src len stoplen : ℕ) → Exec Machine ℕ
  copy_string dest src len stoplen =
      guard true >> λ s. let (result, s') = copystr dest src len stoplen s in unguarded result s'

  unfoldable pub copyinstr : (usersrc dest len : ℕ) → Exec Machine ℕ
  copyinstr usersrc dest len = checked usersrc len >>= copy_string dest usersrc len

  unfoldable pub copyoutstr : (src userdest len : ℕ) → Exec Machine ℕ
  copyoutstr src userdest len = checked userdest len >>= copy_string userdest src len
