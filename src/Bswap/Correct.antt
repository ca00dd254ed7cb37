-- ===== src/Bswap/Correct.antt =====
-- The theorems on kern/lib/bswap.c.
use project_os.Prelude.{ℕ, zero, suc, ◌+◌, ◌-◌, ◌*◌, ◌/◌, ◌%◌, ◌^◌, ◌<◌, ◌≡◌, arith}
use project_os.Bswap.{byte, bswap16, bswap32, join32to64, split64to32}

-- bswap32 puts the byte at each place to the place opposite, and stays in 32 bits.
pub bswap32_lem :
    (val k : ℕ) → k < 4 → (byte (bswap32 val) k ≡ byte val (3 - k)) × (bswap32 val < 2 ^ 32)
unfolding bswap32
bswap32_lem val zero h = (omega arith, omega arith)
bswap32_lem val (suc zero) h = (omega arith, omega arith)
bswap32_lem val (suc (suc zero)) h = (omega arith, omega arith)
bswap32_lem val (suc (suc (suc zero))) h = (omega arith, omega arith)
bswap32_lem val (suc (suc (suc (suc k)))) h = absurd (omega arith)

-- bswap16 and bswap32 undo themselves on values of their width.
pub bswap-bswap :
    (v w : ℕ) → v < 2 ^ 16 → w < 2 ^ 32 → (bswap16 (bswap16 v) ≡ v) × (bswap32 (bswap32 w) ≡ w)
unfolding bswap16 bswap32
bswap-bswap v w h k = (omega arith, omega arith)

-- join32to64 and split64to32 undo each other, in both directions, on values of their width.
pub split-join :
    (x1 x2 y : ℕ)
    → x1 < 2 ^ 32
    → x2 < 2 ^ 32
    → y < 2 ^ 64
    → (split64to32 (join32to64 x1 x2) ≡ (x1, x2))
      × (join32to64 (split64to32 y).0 (split64to32 y).1 ≡ y)
unfolding join32to64 split64to32
split-join x1 x2 y h k l =
    let high : (x1 * 2 ^ 32 + x2) / 2 ^ 32 % 2 ^ 32 ≡ x1 = omega arith in
    let low : (x1 * 2 ^ 32 + x2) % 2 ^ 32 ≡ x2 = omega arith in (rw (high, low), omega arith)
