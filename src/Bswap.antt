-- ===== src/Bswap.antt =====
-- kern/lib/bswap.c, as it is built for the MIPS processor, which is big-endian. A masked byte that
-- is shifted is the byte times a power of two; `|` is a sum where the bytes do not overlap, which is
-- everywhere but in bswap64.
pub mod Correct
pub mod Tests
use project_os.Prelude.{ℕ, ◌+◌, ◌*◌, ◌/◌, ◌%◌, ◌^◌, bit_or}

-- The byte of a value at a place, counted from the lowest.
abbrev pub byte : ℕ → ℕ → ℕ
byte val k = val / 2 ^ (8 * k) % 256

unfoldable pub bswap16 : ℕ → ℕ
bswap16 val = byte val 0 * 2 ^ 8 + byte val 1

unfoldable pub bswap32 : ℕ → ℕ
bswap32 val = byte val 0 * 2 ^ 24 + byte val 1 * 2 ^ 16 + byte val 2 * 2 ^ 8 + byte val 3

-- The terms for the bytes 4 and 5 are shifted to the left, in 64 bits.
unfoldable pub bswap64 : ℕ → ℕ
bswap64 val = bit_or (byte val 0 * 2 ^ 56) (
    bit_or (byte val 1 * 2 ^ 48) (
      bit_or (byte val 2 * 2 ^ 40) (
        bit_or (byte val 3 * 2 ^ 32) (
          bit_or (byte val 4 * 2 ^ 40)
            (bit_or (byte val 5 * 2 ^ 64 % 2 ^ 64) (bit_or (byte val 6 * 2 ^ 8) (byte val 7)))))))

-- ntohs, htons, ntohl, htonl, ntohll and htonll
unfoldable pub ntoh : ℕ → ℕ
ntoh val = val

unfoldable pub hton : ℕ → ℕ
hton val = val

-- *y2 of join32to64
unfoldable pub join32to64 : ℕ → ℕ → ℕ
join32to64 x1 x2 = x1 * 2 ^ 32 + x2

-- *y1 and *y2 of split64to32
unfoldable pub split64to32 : ℕ → ℕ × ℕ
split64to32 x = (x / 2 ^ 32 % 2 ^ 32, x % 2 ^ 32)
