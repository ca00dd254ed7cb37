-- ===== src/Bswap/Tests.antt =====
-- The theorems on kern/lib/bswap.c at some values.
use project_os.Prelude.{◌≡◌, refl}
use project_os.Bswap.{bswap32, bswap64}

swapped : bswap32 0x12345678 ≡ 0x78563412
unfolding bswap32
swapped = refl

-- bswap64 is no byte swap: byte 4 lands where byte 2 goes, and byte 5 is lost.
not_swapped : bswap64 0x1122334455667788 ≡ 0x8877665500002211
unfolding bswap64
not_swapped = refl
