-- ===== src/Malloc/Loop.antt =====
-- The search of malloc for a free block that is large enough.
use project_os.Prelude.{
  ℕ, zero, suc, ◌+◌, ◌-◌, ◌*◌, ◌%◌, ◌^◌, ◌≤◌, ◌<◌, ◌≡◌, inl, inr, refl, ◌∙◌, subst, arith, true,
  false, ◌||◌, Bool-cases, ltb, leb, Option, some, List, [], ◌∷◌, ◌++◌, length, append_assoc, ◌==◌,
}
use project_os.Outcome.Ends
use project_os.Outcome.Ends.{Ends, returns}
use project_os.Outcome.Exec.{◌>>◌, modify, pure}
use project_os.Malloc.{
  Heap, m_size, m_nextoff, Search, found, missed, allot, malloc_split, malloc_search,
}
use project_os.Malloc.View.{Block, header, Chain, last_len, Chain-le, Chain-append, last_len-append}
use project_os.Malloc.Split.{Around, size_lem, malloc_split-Ends}
use project_os.Malloc.Grant.{IsHeap, Granted, take-Granted}

-- The address of the last of the blocks that begin at `i`.
abbrev pub last_at : Option ℕ → ℕ → List Block → Option ℕ
last_at d i [] = d
last_at d i (b ∷ bs) = last_at (some i) (i + 8 * b.len) bs

-- No free block is large enough.
abbrev pub AllSmall : ℕ → List Block → Type 0
AllSmall size [] = Unit {0}
AllSmall size (b ∷ bs) = (b.used ≡ false → 8 * b.len - 8 < size) × AllSmall size bs

-- A piece is granted, or the search has come to the end and has changed nothing.
abbrev pub SearchDone :
    Heap → List Block → ℕ → Option ℕ → ℕ → ℕ → List Block → Search → Heap → Type 0
SearchDone s bs size mh right i ys (found p) s' = Granted s bs size s' p
SearchDone s bs size mh right i ys (missed mh' right' i') s' =
    (s' ≡ s)
    × (i' ≡ s.heaptop)
    × (right' ≡ last_len right ys)
    × (mh' ≡ last_at mh i ys)
    × AllSmall size ys

module _ (s : Heap) (bs : List Block) (size : ℕ) (whole : size % 8 ≡ 0) (heap : IsHeap s bs) where
  -- The block at `i` is free and large enough.
  found-Ends :
      (xs : List Block) (b : Block) (i : ℕ) (ys : List Block) (mh : Option ℕ) (right : ℕ)
      → xs ++ b ∷ ys ≡ bs
      → Around s xs b i ys
      → b.used ≡ false
      → size + 8 ≤ 8 * b.len
      → Ends
          (SearchDone s bs size mh right i (b ∷ ys))
          (λ _ _. ⊥)
          ((malloc_split i size >> modify (allot i) >> pure (found ((i + 8) % 2 ^ 32))) s)
  found-Ends xs b i ys mh right e at free room =
      let top = Chain-le s.mem _ b.len ys s.heaptop at.above in
      let at8 : (i + 8) % 2 ^ 32 ≡ i + 8 = omega (arith, heap.small) in
      let taken : Ends (λ _ s'. Granted s bs size s' (i + 8)) (λ _ _. ⊥)
          ((malloc_split i size >> modify (allot i)) s) =
        Ends.bind (malloc_split-Ends s xs b i ys size at whole room heap.small)
          (λ a s1 r. returns (take-Granted s bs size heap xs b i ys e at free s1 r))
          (λ e s' f. f) in
      rw at8 (Ends.bind taken (λ a s2 g. returns g) (λ e s' f. f))

  -- What the search does behind a block that it passes over.
  passed :
      (b : Block) (i : ℕ) (ys : List Block) (mh : Option ℕ) (right : ℕ) (r : Search) (s' : Heap)
      → (b.used ≡ false → 8 * b.len - 8 < size)
      → SearchDone s bs size (some i) b.len (i + 8 * b.len) ys r s'
      → SearchDone s bs size mh right i (b ∷ ys) r s'
  passed b i ys mh right (found p) s' f g = g
  passed b i ys mh right (missed mh' right' i') s' f (a, b', c, d, e) = (a, b', c, d, (f, e))

  pub malloc_search-Ends :
      (fuel : ℕ) (xs ys : List Block) (i : ℕ) (mh : Option ℕ)
      → xs ++ ys ≡ bs
      → length ys < fuel
      → Chain s.mem s.heapbase 0 xs i
      → Chain s.mem i (last_len 0 xs) ys s.heaptop
      → Ends
          (SearchDone s bs size mh (last_len 0 xs) i ys)
          (λ _ _. ⊥)
          (malloc_search fuel size i mh (last_len 0 xs) s)
  unfolding malloc_search
  malloc_search-Ends zero xs ys i mh e l c d = absurd (omega arith)
  malloc_search-Ends (suc fuel) xs [] i mh e l c d =
      let t : leb s.heaptop i ≡ true = ground arith in rw t (returns (refl, d, refl, refl, tt))
  malloc_search-Ends (suc fuel) xs (b ∷ ys) i mh e l c (h, pos, d) =
      let top = Chain-le s.mem _ b.len ys s.heaptop d in
      let small = heap.small in
      let at : Around s xs b i ys = record { below = c; head = h; filled = pos; above = d } in
      let inside : leb s.heaptop i ≡ false = ground arith in
      let self : (last_len 0 xs == last_len 0 xs) ≡ true = ground arith in
      let o : m_size (header (last_len 0 xs) b) ≡ 8 * b.len - 8 =
        size_lem (last_len 0 xs) b (omega arith) pos in
      let n : (i + m_nextoff (header (last_len 0 xs) b)) % 2 ^ 32 ≡ i + 8 * b.len = omega arith in
      rw (inside, h, self, o, n)
        (elim (Bool-cases (b.used || ltb (8 * b.len - 8) size)) [
          | inl t ↦
              let next =
                malloc_search-Ends fuel (xs ++ b ∷ []) ys (i + 8 * b.len) (some i)
                  (append_assoc xs (b ∷ []) ys ∙ e) (omega arith)
                  (Chain-append s.mem s.heapbase 0 xs (b ∷ []) i (i + 8 * b.len) c (h, pos, refl))
                  (rw (last_len-append 0 xs b) d) in
              rw t (
                Ends.mono
                  (subst
                    (λ r.
                      Ends (SearchDone s bs size (some i) r (i + 8 * b.len) ys) (λ _ _. ⊥)
                        (malloc_search fuel size (i + 8 * b.len) (some i) r s))
                    (last_len-append 0 xs b) next)
                  (λ r s' m. passed b i ys mh (last_len 0 xs) r s' (λ f. ground arith) m)
                  (λ e s' f. f))
          | inr f ↦
              rw f (found-Ends xs b i ys mh (last_len 0 xs) e at (ground arith) (ground arith))
        ])
