-- ===== src/Bitmap/Create.antt =====
-- bitmap_create of kern/lib/bitmap.c.
use project_os.Prelude.{
  ℕ, zero, suc, ◌+◌, ◌-◌, ◌*◌, ◌/◌, ◌%◌, ◌^◌, ◌<◌, ◌≡◌, refl, inl, inr, true, false, some, List,
  arith, ◌==◌, ltb, Bool-cases, if◌then◌else◌, length, get_or, set, replicate, length-set,
  get_or-set, length-replicate, ◌∙◌,
}
use project_os.Outcome.{ok}
use project_os.Bitmap.{Bitmap, test, set_bit, mark_rest, mark_leftover, bitmap_create, bitmap_isset}
use project_os.Bitmap.Words.{test-set_bit, set_bit-lt, test_zero}
use project_os.Bitmap.View.{IsValid}

-- The loop sets the bits from `j` to 7 and no other.
mark_rest-lt : (n j w : ℕ) → j + n ≡ 8 → w < 256 → mark_rest n j w < 256
unfolding mark_rest
mark_rest-lt zero j w e h = h
mark_rest-lt (suc n) j w e h =
    mark_rest-lt n (j + 1) (set_bit w j) (omega arith) (set_bit-lt w j h (omega arith))

test-mark_rest :
    (n j w p : ℕ)
    → j + n ≡ 8
    → w < 256
    → p < 8
    → test (mark_rest n j w) p ≡ (if ltb p j then test w p else true)
unfolding mark_rest
test-mark_rest zero j w p e h hp = ground arith
test-mark_rest (suc n) j w p e h hp = ground (
  arith,
  test-mark_rest n (j + 1) (set_bit w j) p (omega arith) (set_bit-lt w j h (omega arith)) hp,
  test-set_bit w j h (omega arith) p hp,
)

-- Every bit of the bitmap that bitmap_create makes is clear, up to `nbits`.
pub record IsFresh (nbits : ℕ) (b : Bitmap) : Type 0 where
  pub valid : IsValid b
  pub sized : b.nbits ≡ nbits
  pub clear : (i : ℕ) → i < nbits → bitmap_isset b i ≡ false

zeros : (n i : ℕ) → get_or {A = ℕ} (replicate n 0) i 0 ≡ 0
zeros zero i = refl
zeros (suc n) zero = refl
zeros (suc n) (suc i) = zeros n i

mark_leftover_lem :
    (nbits words : ℕ) (v : List ℕ)
    → words - 1 ≡ nbits / 8
    → 0 < nbits % 8
    → mark_leftover nbits words v
      ≡ ok (set v (nbits / 8) (mark_rest (8 - nbits % 8) (nbits % 8) (get_or v (nbits / 8) 0)))
unfolding mark_leftover
mark_leftover_lem nbits words v e part =
    let over : nbits - nbits / 8 * 8 ≡ nbits % 8 = omega arith in
    let same : (nbits / 8 == nbits / 8) ≡ true = ground arith in
    let pos : ltb 0 (nbits % 8) ≡ true = ground arith in
    let low : ltb (nbits % 8) 8 ≡ true = ground arith in rw (e, over, same, pos, low)

module _ (nbits : ℕ) (small : nbits + 7 < 2 ^ 32) where
  abbrev words : ℕ
  words = (nbits + 7) / 8

  abbrev aligned : Bitmap
  aligned = record { nbits = nbits; v = replicate words 0 }

  aligned-IsFresh : nbits % 8 ≡ 0 → IsFresh nbits aligned
  unfolding bitmap_isset
  aligned-IsFresh e = record {
    valid = record {
      sized = length-replicate {A = ℕ} words 0;
      small = small;
      bytes = λ ix. omega (arith, zeros words ix);
      leftover = λ i p q. absurd (omega (arith, length-replicate {A = ℕ} words 0));
    };
    sized = refl;
    clear = λ i h. rw (zeros words (i / 8)) (test_zero (i % 8) (omega arith));
  }

  abbrev last_word : ℕ
  last_word = mark_rest (8 - nbits % 8) (nbits % 8) 0

  abbrev odd : Bitmap
  odd = record { nbits = nbits; v = set (replicate words 0) (nbits / 8) last_word }

  module _ (part : 0 < nbits % 8) where
    odd_word : (ix : ℕ) → get_or odd.v ix 0 ≡ (if nbits / 8 == ix then last_word else 0)
    odd_word ix = ground (
      arith,
      get_or-set (replicate words 0) (nbits / 8) last_word ix 0
          (omega (arith, length-replicate {A = ℕ} words 0)),
      zeros words ix,
    )

    odd_length : length odd.v ≡ words
    odd_length =
        length-set (replicate words 0) (nbits / 8) last_word ∙ length-replicate {A = ℕ} words 0

    odd-isset : (i : ℕ) → i < 8 * words → bitmap_isset odd i ≡ (if ltb i nbits then false else true)
    unfolding bitmap_isset
    odd-isset i h = ground (
      arith,
      odd_word (i / 8),
      test-mark_rest (8 - nbits % 8) (nbits % 8) 0 (i % 8) (omega arith) (omega arith)
          (omega arith),
      test_zero (i % 8) (omega arith),
    )

    odd-IsFresh : IsFresh nbits odd
    odd-IsFresh = record {
      valid = record {
        sized = odd_length;
        small = small;
        bytes = λ ix. ground (
          arith,
          odd_word ix,
          mark_rest-lt (8 - nbits % 8) (nbits % 8) 0 (omega arith) (omega arith),
        );
        leftover = λ i p q. ground (arith, odd-isset i (omega (arith, odd_length)));
      };
      sized = refl;
      clear = λ i h. ground (arith, odd-isset i (omega arith));
    }

    odd_create : bitmap_create true true nbits ≡ ok (some odd)
    unfolding bitmap_create
    odd_create =
        let more : ltb (nbits / 8) ((nbits + 7) % 2 ^ 32 / 8) ≡ true = ground arith in
        rw (
          more,
          mark_leftover_lem nbits ((nbits + 7) % 2 ^ 32 / 8)
              (replicate ((nbits + 7) % 2 ^ 32 / 8) 0) (omega arith) part,
          zeros ((nbits + 7) % 2 ^ 32 / 8) (nbits / 8),
          no_carry,
        )
      where
        no_carry : (nbits + 7) % 2 ^ 32 ≡ nbits + 7
        no_carry = omega arith

  aligned_create : nbits % 8 ≡ 0 → bitmap_create true true nbits ≡ ok (some aligned)
  unfolding bitmap_create
  aligned_create e = ground arith

-- With the memory at hand, bitmap_create returns a well-formed bitmap of `nbits` bits that are all
-- clear, and neither assertion about the leftover bits fails, if `nbits` does not overflow when it
-- is rounded up.
pub bitmap_create_lem :
    (nbits : ℕ)
    → nbits + 7 < 2 ^ 32
    → (b : Bitmap) × (bitmap_create true true nbits ≡ ok (some b)) × IsFresh nbits b
bitmap_create_lem nbits small = elim (Bool-cases (nbits % 8 == 0)) [
  | inl e ↦ (
    aligned nbits small,
    aligned_create nbits small (ground arith),
    aligned-IsFresh nbits small (ground arith),
  )
  | inr e ↦ (
    odd nbits small,
    odd_create nbits small (ground arith),
    odd-IsFresh nbits small (ground arith),
  )
]
