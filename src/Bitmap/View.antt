-- ===== src/Bitmap/View.antt =====
-- When a bitmap of kern/lib/bitmap.c is well formed, and what a write to one of its bits does to
-- the bits that bitmap_isset shows.
use project_os.Prelude.{
  ℕ, ◌+◌, ◌*◌, ◌/◌, ◌%◌, ◌^◌, ◌≤◌, ◌<◌, ◌≡◌, true, false, arith, ◌==◌, if◌then◌else◌, length,
  get_or, set, length-set, get_or-set,
}
use project_os.Bitmap.{Bitmap, set_bit, clear_bit, bitmap_isset}
use project_os.Bitmap.Words.{test-set_bit, test-clear_bit, set_bit-lt, clear_bit-lt}

pub record IsValid (b : Bitmap) : Type 0 where
  pub sized : length b.v ≡ (b.nbits + 7) / 8
  pub small : b.nbits + 7 < 2 ^ 32
  pub bytes : (ix : ℕ) → get_or b.v ix 0 < 256
  -- the bits behind the last one are in use
  pub leftover : (i : ℕ) → b.nbits ≤ i → i < 8 * length b.v → bitmap_isset b i ≡ true

abbrev pub with_word : Bitmap → ℕ → ℕ → Bitmap
with_word b ix w = record b { v = set b.v ix w }

module _ (b : Bitmap) (val : IsValid b) (i : ℕ) (inside : i < b.nbits) where
  open val use {sized, small, bytes, leftover}

  abbrev word : ℕ
  word = get_or b.v (i / 8) 0

  in_words : i / 8 < length b.v
  in_words = omega (arith, sized)

  abbrev pub marked : Bitmap
  marked = with_word b (i / 8) (set_bit word (i % 8))

  abbrev pub unmarked : Bitmap
  unmarked = with_word b (i / 8) (clear_bit word (i % 8))

  pub isset-marked : (j : ℕ) → bitmap_isset marked j ≡ (if i == j then true else bitmap_isset b j)
  unfolding bitmap_isset
  isset-marked j = ground (
    arith,
    get_or-set b.v (i / 8) (set_bit word (i % 8)) (j / 8) 0 in_words,
    test-set_bit word (i % 8) (bytes (i / 8)) (omega arith) (j % 8) (omega arith),
  )

  pub isset-unmarked :
      (j : ℕ) → bitmap_isset unmarked j ≡ (if i == j then false else bitmap_isset b j)
  unfolding bitmap_isset
  isset-unmarked j = ground (
    arith,
    get_or-set b.v (i / 8) (clear_bit word (i % 8)) (j / 8) 0 in_words,
    test-clear_bit word (i % 8) (bytes (i / 8)) (omega arith) (j % 8) (omega arith),
  )

  with_word-bytes : (w ix : ℕ) → w < 256 → get_or (set b.v (i / 8) w) ix 0 < 256
  with_word-bytes w ix h = ground (arith, get_or-set b.v (i / 8) w ix 0 in_words, bytes ix)

  pub marked-IsValid : IsValid marked
  marked-IsValid = record {
    sized = omega (arith, sized, length-set b.v (i / 8) (set_bit word (i % 8)));
    small = small;
    bytes = λ ix. with_word-bytes _ ix (set_bit-lt word (i % 8) (bytes (i / 8)) (omega arith));
    leftover = λ j p q.
        ground (arith, isset-marked j, leftover j p, length-set b.v (i / 8) (set_bit word (i % 8)));
  }

  pub unmarked-IsValid : IsValid unmarked
  unmarked-IsValid = record {
    sized = omega (arith, sized, length-set b.v (i / 8) (clear_bit word (i % 8)));
    small = small;
    bytes = λ ix. with_word-bytes _ ix (clear_bit-lt word (i % 8) (bytes (i / 8)) (omega arith));
    leftover = λ j p q.
        ground
          (arith, isset-unmarked j, leftover j p, length-set b.v (i / 8) (clear_bit word (i % 8)));
  }
