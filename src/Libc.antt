-- ===== src/Libc.antt =====
-- The string and memory functions of common/libc/string, which the kernel and the user programs
-- share. Memory is a function from addresses to bytes. A loop that follows a string takes fuel;
-- where it runs out, as over a string that has no end, the function does not return.
pub mod Strings
pub mod Correct
pub mod Moves
pub mod Copying
pub mod Tests
use project_os.Prelude.{ℕ, ◌<◌, ◌≡◌, ◌≢◌, List, ◌==◌, if◌then◌else◌, get_or}

abbrev pub Memory : Type 0
Memory = ℕ → ℕ

-- The string that starts at 0 has `k` bytes before its NUL.
pub record IsLength (m : Memory) (k : ℕ) : Type 0 where
  pub before : (i : ℕ) → i < k → m i ≢ 0
  pub stop : m k ≡ 0

-- m[i] = v
abbrev pub put : Memory → ℕ → ℕ → Memory
put m i v k = if i == k then v else m k

-- The string whose bytes are a list, in a memory of its own.
abbrev pub chars : List ℕ → Memory
chars l i = get_or l i 0
