-- ===== src/Bitmap/Mark.antt =====
-- bitmap_mark and bitmap_unmark of kern/lib/bitmap.c.
use project_os.Prelude.{
  ◌↔◌, not, ltb, ◌||◌, ◌&&◌, ℕ, ◌/◌, ◌%◌, ◌<◌, ◌≡◌, refl, Bool, true, false, List, arith, ◌==◌,
  if◌then◌else◌, get_or, set, set-set, set-get_or, get_or-set_self, ap, ◌∙◌,
}
use project_os.Outcome.{ok, panic}
use project_os.Bitmap.{Bitmap, set_bit, clear_bit, bitmap_isset, bitmap_mark, bitmap_unmark}
use project_os.Outcome.{◌>>=◌}
use project_os.Bitmap.Words.{clear_bit-set_bit}
use project_os.Bitmap.View.{
  IsValid, marked, unmarked, isset-marked, isset-unmarked, marked-IsValid, unmarked-IsValid,
}

abbrev with_v : Bitmap → List ℕ → Bitmap
with_v b v = record b { v = v }

-- What bitmap_mark and bitmap_unmark promise: bit `i` becomes `x`, the others stay, and the
-- bitmap stays well formed.
pub record Changes (b : Bitmap) (i : ℕ) (x : Bool) (b' : Bitmap) : Type 0 where
  pub valid : IsValid b'
  pub same_size : b'.nbits ≡ b.nbits
  pub bits : (j : ℕ) → bitmap_isset b' j ≡ (if i == j then x else bitmap_isset b j)

module _ (b : Bitmap) (val : IsValid b) (i : ℕ) where
  pub marked-Changes : (h : i < b.nbits) → Changes b i true (marked b val i h)
  marked-Changes h = record {
    valid = marked-IsValid b val i h;
    same_size = refl;
    bits = isset-marked b val i h;
  }

  pub unmarked-Changes : (h : i < b.nbits) → Changes b i false (unmarked b val i h)
  unmarked-Changes h = record {
    valid = unmarked-IsValid b val i h;
    same_size = refl;
    bits = isset-unmarked b val i h;
  }

  pub mark-eq :
      (h : i < b.nbits) → bitmap_isset b i ≡ false → bitmap_mark b i ≡ ok (marked b val i h)
  unfolding bitmap_mark bitmap_isset
  mark-eq h clear = ground arith

  pub unmark-eq :
      (h : i < b.nbits) → bitmap_isset b i ≡ true → bitmap_unmark b i ≡ ok (unmarked b val i h)
  unfolding bitmap_unmark bitmap_isset
  unmark-eq h clear = ground arith

-- On a well-formed bitmap bitmap_mark sets a bit that is in range and clear; no other bit changes
-- and the result is well formed.
pub bitmap_mark_done :
    (b : Bitmap) (i : ℕ)
    → IsValid b
    → i < b.nbits
    → bitmap_isset b i ≡ false
    → (b' : Bitmap) × (bitmap_mark b i ≡ ok b') × Changes b i true b'
bitmap_mark_done b i val h c = (marked b val i h, mark-eq b val i h c, marked-Changes b val i h)

-- On a well-formed bitmap bitmap_unmark clears a bit that is in range and set; no other bit changes
-- and the result is well formed.
pub bitmap_unmark_done :
    (b : Bitmap) (i : ℕ)
    → IsValid b
    → i < b.nbits
    → bitmap_isset b i ≡ true
    → (b' : Bitmap) × (bitmap_unmark b i ≡ ok b') × Changes b i false b'
bitmap_unmark_done b i val h c =
    (unmarked b val i h, unmark-eq b val i h c, unmarked-Changes b val i h)

-- bitmap_mark panics exactly at a bit out of range or one that is set, and bitmap_unmark exactly
-- at one out of range or one that is clear.
pub bitmap_panics :
    (b : Bitmap) (i : ℕ)
    → ((bitmap_mark b i ≡ panic) ↔ (not (ltb i b.nbits) || bitmap_isset b i) ≡ true)
      × ((bitmap_unmark b i ≡ panic) ↔ (not (ltb i b.nbits && bitmap_isset b i)) ≡ true)
unfolding bitmap_mark bitmap_unmark bitmap_isset
bitmap_panics b i = ((λ h. ground arith, λ h. ground arith), (λ h. ground arith, λ h. ground arith))

unmarked-marked :
    (b : Bitmap) (val : IsValid b) (i : ℕ) (h : i < b.nbits)
    → bitmap_isset b i ≡ false
    → unmarked (marked b val i h) (marked-IsValid b val i h) i h ≡ b
unfolding bitmap_isset
unmarked-marked b val i h clear =
    let w = get_or b.v (i / 8) 0 in
    let word : get_or (set b.v (i / 8) (set_bit w (i % 8))) (i / 8) 0 ≡ set_bit w (i % 8) =
      get_or-set_self b.v (i / 8) _ 0 (omega (arith, val.sized)) in
    let same : clear_bit (set_bit w (i % 8)) (i % 8) ≡ w =
      clear_bit-set_bit w (i % 8) (val.bytes (i / 8)) (omega arith) clear in
    let words : set (set b.v (i / 8) (set_bit w (i % 8))) (i / 8) w ≡ b.v =
      set-set b.v (i / 8) _ w ∙ set-get_or b.v (i / 8) 0 in
    rw (word, same) (ap (with_v b) words)

-- Freeing a bit that was just set gives back the bitmap, word for word.
pub unmark-mark :
    (b : Bitmap) (i : ℕ)
    → IsValid b
    → i < b.nbits
    → bitmap_isset b i ≡ false
    → (bitmap_mark b i >>= λ b'. bitmap_unmark b' i) ≡ ok b
unmark-mark b i val h clear =
    rw
      (
        mark-eq b val i h clear,
        unmark-eq (marked b val i h) (marked-IsValid b val i h) i h
            (ground (arith, isset-marked b val i h i)),
      )
      (ap ok (unmarked-marked b val i h clear))
