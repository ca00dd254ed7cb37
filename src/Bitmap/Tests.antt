-- ===== src/Bitmap/Tests.antt =====
-- The theorems on kern/lib/bitmap.c at a bitmap of twelve bits in two words, of which the bits 0,
-- 1 and 2 are set, and those behind the last one.
use project_os.Prelude.{
  some, ℕ, zero, suc, ◌*◌, ◌≤◌, ◌<◌, ◌≡◌, refl, true, arith, [], ◌∷◌, leb, not, ◌||◌, length,
  get_or, all_below, of-all_below,
}
use project_os.Outcome.{ok}
use project_os.Bitmap.{Bitmap, test, bitmap_isset, bitmap_create}
use project_os.Bitmap.View.{IsValid}
use project_os.Bitmap.Alloc.{Allocated, bitmap_alloc_lem}
use project_os.Bitmap.Create.{IsFresh, bitmap_create_lem}

abbrev twelve : Bitmap
twelve = record { nbits = 12; v = 0x07 ∷ 0xf0 ∷ [] }

twelve_bytes : (ix : ℕ) → get_or twelve.v ix 0 < 256
twelve_bytes zero = omega arith
twelve_bytes (suc zero) = omega arith
twelve_bytes (suc (suc ix)) = omega arith

twelve_leftover :
    (i : ℕ) → twelve.nbits ≤ i → i < 8 * length twelve.v → bitmap_isset twelve i ≡ true
unfolding bitmap_isset all_below test
twelve_leftover i p q =
    ground (arith, of-all_below 16 (λ i. not (leb 12 i) || bitmap_isset twelve i) i refl q)

twelve-IsValid : IsValid twelve
twelve-IsValid = record {
  sized = refl;
  small = omega arith;
  bytes = twelve_bytes;
  leftover = twelve_leftover;
}

bitmap_alloc_lem_example : Allocated twelve
bitmap_alloc_lem_example = bitmap_alloc_lem twelve twelve-IsValid

bitmap_create_lem_example : (b : Bitmap) × (bitmap_create true true 12 ≡ ok (some b)) × IsFresh 12 b
bitmap_create_lem_example = bitmap_create_lem 12 (omega arith)
