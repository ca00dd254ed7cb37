-- ===== src/Bitmap.antt =====
-- The fixed-size array of bits of kern/lib/bitmap.c. The words of the array are bytes; `v` lists
-- them. Whether the two calls of kmalloc in bitmap_create succeed is an argument.
pub mod Words
pub mod View
pub mod Alloc
pub mod Mark
pub mod Create
pub mod Tests
use project_os.Prelude.{
  ℕ, zero, suc, ◌+◌, ◌-◌, ◌*◌, ◌/◌, ◌%◌, ◌^◌, Bool, true, false, not, ◌&&◌, Option, none, some,
  List, bit_and, bit_or, ltb, ◌==◌, if◌then◌else◌, get_or, set, replicate,
}
use project_os.Outcome.{Outcome, ok, err, panic, enospc, ◌>>=◌, ◌>>◌, kassert}

-- BITS_PER_WORD and WORD_ALLBITS
abbrev pub bits_per_word : ℕ
bits_per_word = 8

abbrev pub word_allbits : ℕ
word_allbits = 0xff

-- DIVROUNDUP of kern/include/types.h, on a 32-bit `unsigned`
abbrev pub divroundup : ℕ → ℕ → ℕ
divroundup a b = (a + (b - 1)) % 2 ^ 32 / b

pub record Bitmap : Type 0 where
  pub nbits : ℕ
  pub v : List ℕ

-- `w & ((WORD_TYPE)1 << offset)`, as a truth value
unfoldable pub test : ℕ → ℕ → Bool
test w offset = not (bit_and w (2 ^ offset) == 0)

-- `w |= mask`
unfoldable pub set_bit : ℕ → ℕ → ℕ
set_bit w offset = bit_or w (2 ^ offset)

-- `w &= ~mask`, on a byte
unfoldable pub clear_bit : ℕ → ℕ → ℕ
clear_bit w offset = bit_and w (0xff - 2 ^ offset)

-- The inner loop of bitmap_alloc from `offset` on, with the rounds that are left; KASSERT(0)
-- behind it.
unfoldable pub free_offset : ℕ → ℕ → ℕ → Outcome ℕ
free_offset zero offset w = panic
free_offset (suc n) offset w =
    let rest = free_offset n (offset + 1) w in if test w offset then rest else ok offset

-- The outer loop from `ix` on, with the rounds that are left.
unfoldable pub alloc_scan : ℕ → ℕ → List ℕ → Outcome (List ℕ × ℕ)
alloc_scan zero ix v = err enospc
alloc_scan (suc n) ix v =
    let w = get_or v ix 0 in
    let rest = alloc_scan n (ix + 1) v in
    let here = free_offset bits_per_word 0 w >>= λ offset.
    ok (set v ix (set_bit w offset), ix * bits_per_word + offset) in
    if w == word_allbits then rest else here

unfoldable pub bitmap_alloc : Bitmap → Outcome (Bitmap × ℕ)
unfolding alloc_scan
bitmap_alloc b = do
  (v', index) ← alloc_scan (divroundup b.nbits bits_per_word) 0 b.v
  kassert (ltb index b.nbits)
  ok (record b { v = v' }, index)

-- bitmap_translate: the word and the offset in it
abbrev pub bitmap_translate : ℕ → ℕ × ℕ
bitmap_translate bitno = (bitno / bits_per_word, bitno % bits_per_word)

unfoldable pub bitmap_isset : Bitmap → ℕ → Bool
bitmap_isset b index = let (ix, offset) = bitmap_translate index in test (get_or b.v ix 0) offset

unfoldable pub bitmap_mark : Bitmap → ℕ → Outcome Bitmap
bitmap_mark b index = do
  kassert (ltb index b.nbits)
  let (ix, offset) = bitmap_translate index
  kassert (not (test (get_or b.v ix 0) offset))
  ok (record b { v = set b.v ix (set_bit (get_or b.v ix 0) offset) })

unfoldable pub bitmap_unmark : Bitmap → ℕ → Outcome Bitmap
bitmap_unmark b index = do
  kassert (ltb index b.nbits)
  let (ix, offset) = bitmap_translate index
  kassert (test (get_or b.v ix 0) offset)
  ok (record b { v = set b.v ix (clear_bit (get_or b.v ix 0) offset) })

-- The loop that marks the leftover bits of the last word, from `j` on.
unfoldable pub mark_rest : ℕ → ℕ → ℕ → ℕ
mark_rest zero j w = w
mark_rest (suc n) j w = mark_rest n (j + 1) (set_bit w j)

-- The marking of the leftover bits, with the two assertions before the loop.
unfoldable pub mark_leftover : ℕ → ℕ → List ℕ → Outcome (List ℕ)
unfolding mark_rest
mark_leftover nbits words v =
    let ix = words - 1 in
    let overbits = nbits - ix * bits_per_word in
    let marked = mark_rest (bits_per_word - overbits) overbits (get_or v ix 0) in
    kassert (nbits / bits_per_word == ix)
    >> kassert (ltb 0 overbits && ltb overbits bits_per_word)
    >> ok (set v ix marked)

-- `none` is a null pointer.
unfoldable pub bitmap_create : (struct_ok vector_ok : Bool) → ℕ → Outcome (Option Bitmap)
unfolding mark_leftover
bitmap_create false vector_ok nbits = ok none
bitmap_create true false nbits = ok none
bitmap_create true true nbits =
    let words = divroundup nbits bits_per_word in
    let v = replicate words 0 in
    let leftover = mark_leftover nbits words v in
    (if ltb (nbits / bits_per_word) words then leftover else ok v) >>= λ v'.
    ok (some (record { nbits = nbits; v = v' }))
