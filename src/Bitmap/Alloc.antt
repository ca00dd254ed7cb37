-- ===== src/Bitmap/Alloc.antt =====
-- bitmap_alloc of kern/lib/bitmap.c.
use project_os.Prelude.{
  ℕ, zero, suc, ◌+◌, ◌*◌, ◌/◌, ◌%◌, ◌≤◌, ◌<◌, ◌≡◌, ◌⊎◌, refl, inl, inr, true, false, List, arith,
  ◌==◌, Bool-cases, length, get_or, set,
}
use project_os.Outcome.{ok, err, enospc}
use project_os.Bitmap.{
  Bitmap, bits_per_word, word_allbits, divroundup, test, set_bit, free_offset, alloc_scan,
  bitmap_alloc, bitmap_isset,
}
use project_os.Bitmap.Words.{free_offset_found, test_full}
use project_os.Bitmap.View.{IsValid, marked}
use project_os.Bitmap.Mark.{Changes, marked-Changes}

-- The words from `ix` on are full up to word `k`, and bit `o` is the lowest clear one of that.
record Hit (v : List ℕ) (ix k o : ℕ) : Type 0 where
  from : ix ≤ k
  inside : k < length v
  low : o < 8
  clear : test (get_or v k 0) o ≡ false
  lower : (p : ℕ) → p < o → test (get_or v k 0) p ≡ true
  full : (j : ℕ) → ix ≤ j → j < k → get_or v j 0 ≡ word_allbits

abbrev Scanned : ℕ → ℕ → List ℕ → Type 0
Scanned n ix v =
    ((alloc_scan n ix v ≡ err enospc)
      × ((j : ℕ) → ix ≤ j → j < length v → get_or v j 0 ≡ word_allbits))
    ⊎ ((k : ℕ) × (o : ℕ) × (alloc_scan n ix v ≡ ok (set v k (set_bit (get_or v k 0) o), k * 8 + o))
        × Hit v ix k o)

full_from :
    (v : List ℕ) (ix j : ℕ)
    → get_or v ix 0 ≡ word_allbits
    → (ix + 1 ≤ j → get_or v j 0 ≡ word_allbits)
    → ix ≤ j
    → get_or v j 0 ≡ word_allbits
full_from v ix j here later h = elim (Bool-cases (ix == j)) [
  | inl e ↦ ground arith
  | inr e ↦ later (ground arith)
]

alloc_scan_lem :
    (n ix : ℕ) (v : List ℕ) → ix + n ≡ length v → ((j : ℕ) → get_or v j 0 < 256) → Scanned n ix v
unfolding alloc_scan
alloc_scan_lem zero ix v e bytes = inl (refl, λ j p q. absurd (omega arith))
alloc_scan_lem (suc n) ix v e bytes = elim (Bool-cases (get_or v ix 0 == word_allbits)) [
  | inl full ↦ pass full (alloc_scan_lem n (ix + 1) v (omega arith) bytes)
  | inr open_ ↦ stop open_ (free_offset_found (get_or v ix 0) (bytes ix) (ground arith))
]
  where
    pass : (get_or v ix 0 == word_allbits) ≡ true → Scanned n (ix + 1) v → Scanned (suc n) ix v
    pass full (inl (r, all)) =
        inl (rw full r, λ j p q. full_from v ix j (ground arith) (λ p'. all j p' q) p)
    pass full (inr (k, o, r, hit)) = inr (
      k,
      o,
      rw full r,
      record {
        from = omega (arith, hit.from);
        inside = hit.inside;
        low = hit.low;
        clear = hit.clear;
        lower = hit.lower;
        full = λ j p q. full_from v ix j (ground arith) (λ p'. hit.full j p' q) p;
      },
    )

    stop :
        (get_or v ix 0 == word_allbits) ≡ false
        → (o : ℕ) × (free_offset bits_per_word 0 (get_or v ix 0) ≡ ok o)
          × (o < 8)
          × (test (get_or v ix 0) o ≡ false)
          × ((p : ℕ) → p < o → test (get_or v ix 0) p ≡ true)
        → Scanned (suc n) ix v
    stop open_ (o, r, low, clear, lower) = inr (
      ix,
      o,
      rw (open_, r),
      record {
        from = omega arith;
        inside = omega arith;
        low = low;
        clear = clear;
        lower = lower;
        full = λ j p q. absurd (omega arith);
      },
    )

full-isset : (b : Bitmap) (j : ℕ) → get_or b.v (j / 8) 0 ≡ word_allbits → bitmap_isset b j ≡ true
unfolding bitmap_isset
full-isset b j e = rw e (test_full (j % 8) (omega arith))

module _ (b : Bitmap) (val : IsValid b) {k o : ℕ} (hit : Hit b.v 0 k o) where
  open val use {sized, leftover}

  hit_word : (k * 8 + o) / 8 ≡ k
  hit_word = omega (arith, hit.low)

  hit_offset : (k * 8 + o) % 8 ≡ o
  hit_offset = omega (arith, hit.low)

  hit_clear : bitmap_isset b (k * 8 + o) ≡ false
  unfolding bitmap_isset
  hit_clear = rw (hit_word, hit_offset) hit.clear

  hit_inside : k * 8 + o < b.nbits
  hit_inside = ground (arith, leftover (k * 8 + o), hit_clear, hit.inside, hit.low)

  hit_lowest : (j : ℕ) → j < k * 8 + o → bitmap_isset b j ≡ true
  unfolding bitmap_isset
  hit_lowest j h = elim (Bool-cases (j / 8 == k)) [
    | inl e ↦
        let e' : j / 8 ≡ k = ground arith in rw e' (hit.lower (j % 8) (omega (arith, hit.low)))
    | inr e ↦
        let below : j / 8 < k = ground (arith, hit.low) in
        full-isset b j (hit.full (j / 8) (omega arith) below)
  ]

  hit_alloc :
      alloc_scan (divroundup b.nbits 8) 0 b.v
        ≡ ok (set b.v k (set_bit (get_or b.v k 0) o), k * 8 + o)
      → bitmap_alloc b ≡ ok (marked b val (k * 8 + o) hit_inside, k * 8 + o)
  unfolding bitmap_alloc
  hit_alloc r = rw (hit_word, hit_offset, r) (ground (arith, hit_inside))

-- The two ways in which bitmap_alloc ends.
abbrev pub Allocated : Bitmap → Type 0
Allocated b =
    ((bitmap_alloc b ≡ err enospc) × ((i : ℕ) → i < b.nbits → bitmap_isset b i ≡ true))
    ⊎ ((b' : Bitmap) × (i : ℕ) × (bitmap_alloc b ≡ ok (b', i))
        × (i < b.nbits)
        × (bitmap_isset b i ≡ false)
        × ((j : ℕ) → j < i → bitmap_isset b j ≡ true)
        × Changes b i true b')

-- On a well-formed bitmap bitmap_alloc never panics: either every bit is set and it returns
-- ENOSPC, or it returns the lowest clear bit, which lies in range, sets that bit and no other, and
-- leaves a well-formed bitmap.
pub bitmap_alloc_lem : (b : Bitmap) → IsValid b → Allocated b
unfolding bitmap_alloc
bitmap_alloc_lem b val =
    finish (alloc_scan_lem (divroundup b.nbits 8) 0 b.v (omega (arith, sized, small)) bytes)
  where
    open val use {sized, small, bytes, leftover}

    finish : Scanned (divroundup b.nbits 8) 0 b.v → Allocated b
    finish (inl (r, all)) =
        inl (rw r, λ i h. full-isset b i (all (i / 8) (omega arith) (omega (arith, sized))))
    finish (inr (k, o, r, hit)) = inr (
      marked b val (k * 8 + o) (hit_inside b val hit),
      k * 8 + o,
      hit_alloc b val hit r,
      hit_inside b val hit,
      hit_clear b val hit,
      hit_lowest b val hit,
      marked-Changes b val (k * 8 + o) (hit_inside b val hit),
    )
