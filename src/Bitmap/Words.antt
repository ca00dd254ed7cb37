-- ===== src/Bitmap/Words.antt =====
-- The bit operations on one byte of kern/lib/bitmap.c, checked at every byte and offset.
use project_os.Prelude.{
  ℕ, ◌≡◌, ◌<◌, ◌≢◌, refl, sym, Bool, true, false, not, ◌&&◌, ◌||◌, arith, ltb, ◌==◌, if◌then◌else◌,
  all_below, of-all_below, of-all_below₂,
}
use project_os.Outcome.{Outcome, ok, err, panic}
use project_os.Bitmap.{bits_per_word, word_allbits, test, set_bit, clear_bit, free_offset}

agree : Bool → Bool → Bool
agree true b = b
agree false b = not b

eq_of-agree : (a b : Bool) → agree a b ≡ true → a ≡ b
unfolding agree
eq_of-agree true true h = refl
eq_of-agree true false h = sym h
eq_of-agree false true h = h
eq_of-agree false false h = refl

set_table :
    all_below 256
      (λ w. all_below 8 λ o. all_below 8 λ p. agree (test (set_bit w o) p) ((o == p) || test w p))
    ≡ true
unfolding all_below agree test set_bit
set_table = refl

clear_table :
    all_below 256 (λ w.
      all_below 8 λ o. all_below 8 λ p. agree (test (clear_bit w o) p) (not (o == p) && test w p))
    ≡ true
unfolding all_below agree test clear_bit
clear_table = refl

byte_table :
    all_below 256 (λ w. all_below 8 λ o.
      ltb (set_bit w o) 256
      && ltb (clear_bit w o) 256
      && (test w o || (clear_bit (set_bit w o) o == w))
      && (not (test w o) || (set_bit (clear_bit w o) o == w)))
    ≡ true
unfolding all_below test set_bit clear_bit
byte_table = refl

-- What the inner loop finds in a byte that is not full.
found : ℕ → Outcome ℕ → Bool
found w (ok o) = ltb o 8 && not (test w o) && all_below o (test w)
found w (err e) = false
found w panic = false

found_table :
    all_below 256 (λ w. (w == word_allbits) || found w (free_offset bits_per_word 0 w)) ≡ true
unfolding all_below test free_offset found
found_table = refl

full_table : all_below 8 (test word_allbits) ≡ true
unfolding all_below test
full_table = refl

module _ (w o : ℕ) (byte : w < 256) (low : o < 8) where
  pub test-set_bit : (p : ℕ) → p < 8 → test (set_bit w o) p ≡ (if o == p then true else test w p)
  test-set_bit p hp = ground (
    arith,
    eq_of-agree (test (set_bit w o) p) ((o == p) || test w p) (
        of-all_below₂ 8 8 (λ o p. agree (test (set_bit w o) p) ((o == p) || test w p)) o p
          (of-all_below 256 _ w set_table byte) low hp),
  )

  pub test-clear_bit :
      (p : ℕ) → p < 8 → test (clear_bit w o) p ≡ (if o == p then false else test w p)
  test-clear_bit p hp = ground (
    arith,
    eq_of-agree (test (clear_bit w o) p) (not (o == p) && test w p) (
        of-all_below₂ 8 8 (λ o p. agree (test (clear_bit w o) p) (not (o == p) && test w p)) o p
          (of-all_below 256 _ w clear_table byte) low hp),
  )

  byte_facts :
      (set_bit w o < 256)
      × (clear_bit w o < 256)
      × (test w o ≡ false → clear_bit (set_bit w o) o ≡ w)
      × (test w o ≡ true → set_bit (clear_bit w o) o ≡ w)
  byte_facts =
      let row = of-all_below₂ 256 8 _ w o byte_table byte low in
      (ground arith, ground arith, ground arith, ground arith)

  pub set_bit-lt : set_bit w o < 256
  set_bit-lt = byte_facts.0

  pub clear_bit-lt : clear_bit w o < 256
  clear_bit-lt = byte_facts.1

  pub clear_bit-set_bit : test w o ≡ false → clear_bit (set_bit w o) o ≡ w
  clear_bit-set_bit = byte_facts.2

  pub set_bit-clear_bit : test w o ≡ true → set_bit (clear_bit w o) o ≡ w
  set_bit-clear_bit = byte_facts.3

-- The inner loop finds the lowest clear bit of a byte that is not full.
pub free_offset_found :
    (w : ℕ)
    → w < 256
    → w ≢ word_allbits
    → (o : ℕ) × (free_offset bits_per_word 0 w ≡ ok o)
      × (o < 8)
      × (test w o ≡ false)
      × ((p : ℕ) → p < o → test w p ≡ true)
unfolding found
free_offset_found w byte open_ = read (free_offset bits_per_word 0 w) refl row
  where
    row : found w (free_offset bits_per_word 0 w) ≡ true
    row = ground (arith, of-all_below 256 _ w found_table byte)

    read :
        (r : Outcome ℕ)
        → free_offset bits_per_word 0 w ≡ r
        → found w r ≡ true
        → (o : ℕ) × (free_offset bits_per_word 0 w ≡ ok o)
          × (o < 8)
          × (test w o ≡ false)
          × ((p : ℕ) → p < o → test w p ≡ true)
    read (ok o) e h =
        (o, e, ground arith, ground arith, λ p hp. of-all_below o (test w) p (ground arith) hp)
    read (err x) e h = cc
    read panic e h = cc

pub test_full : (p : ℕ) → p < 8 → test word_allbits p ≡ true
test_full p h = of-all_below 8 _ p full_table h

zero_table : all_below 8 (λ p. not (test 0 p)) ≡ true
unfolding all_below test
zero_table = refl

pub test_zero : (p : ℕ) → p < 8 → test 0 p ≡ false
test_zero p h = ground (arith, of-all_below 8 (λ p. not (test 0 p)) p zero_table h)
