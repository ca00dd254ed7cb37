-- ===== src/Malloc/Expand.antt =====
-- The expansion of the heap by malloc, through __malloc_sbrk.
use project_os.Prelude.{
  ℕ, ◌+◌, ◌-◌, ◌*◌, ◌/◌, ◌%◌, ◌^◌, ◌≤◌, ◌<◌, ◌≡◌, inl, inr, refl, sym, ◌∙◌, subst, arith, true,
  false, Option-cases, ltb, Option, none, some, List, [], ◌∷◌, ◌++◌, append-nil, ◌==◌,
}
use project_os.Outcome.Ends
use project_os.Outcome.Ends.{Ends, returns}
use project_os.Outcome.Exec.{◌>>◌, pure}
use project_os.Malloc.{Header, Heap, Sbrk, m_size, m_nextoff, m_mkfield, set_header, malloc_split}
use project_os.Malloc.Allocate.{whole_pages, malloc_sbrk, use_new, use_top, expand_new, expand_top}
use project_os.Malloc.View.{
  Block, header, Chain, last_len, pieces, Chain-le, Chain-frame, Chain-Kept,
}
use project_os.Malloc.Split.{Around, nextoff_lem, size_lem, malloc_split-Ends}
use project_os.Malloc.Grant.{IsHeap, Granted, grant, free_pieces}

-- Null is returned and nothing has changed, or the piece is granted.
abbrev pub MallocDone : Heap → List Block → ℕ → Option ℕ → Heap → Type 0
MallocDone s bs size none s' = s' ≡ s
MallocDone s bs size (some p) s' = Granted s bs size s' p

-- The heap with `n` bytes more.
abbrev pub raised : Heap → ℕ → Heap
raised s n = record s { heaptop = s.heaptop + n; brk = s.heaptop + n }

abbrev Raised : Heap → ℕ → Option ℕ → Heap → Type 0
Raised s n none s' = s' ≡ s
Raised s n (some x) s' = (x ≡ s.heaptop) × (s' ≡ raised s n) × (s.heaptop + n < 2 ^ 32)

pages_lem :
    (n : ℕ)
    → n < 2 ^ 31
    → (n ≤ whole_pages n) × (whole_pages n < n + 4096) × (whole_pages n % 8 ≡ 0)
pages_lem n small = (omega arith, omega arith, omega arith)

module _ (os : Sbrk) (s : Heap) (bs : List Block) (size : ℕ) (whole : size % 8 ≡ 0)
    (limit : size + 2 ^ 13 ≤ 2 ^ 31) (heap : IsHeap s bs) where
  malloc_sbrk-Ends : (n : ℕ) → n < 2 ^ 31 → Ends (Raised s n) (λ _ _. ⊥) (malloc_sbrk os n s)
  unfolding malloc_sbrk
  malloc_sbrk-Ends n small = elim (Option-cases (os.sbrk s.brk n)) [
    | inl e ↦ rw e (returns refl)
    | inr ((x, b), e) ↦
        let (p, q, r) = os.raises s.brk n x b small e in
        let same : (x == s.heaptop) ≡ true = ground (arith, heap.ended) in
        let top : (s.heaptop + n) % 2 ^ 32 ≡ s.heaptop + n = omega (arith, heap.ended) in
        let brk : b ≡ s.heaptop + n = omega (arith, heap.ended) in
        rw (e, same, top, brk) (returns (p ∙ heap.ended, refl, omega (arith, brk)))
  ]

  -- What is left when the new space of `n` bytes is in the block `b` at `mid`, which is the top.
  granted-Ends :
      (n : ℕ) (t : Heap) (xs : List Block) (b : Block) (mid : ℕ)
      → Around t xs b mid []
      → b.used ≡ true
      → size + 8 ≤ 8 * b.len
      → (t.heapbase ≡ s.heapbase) × (t.brk ≡ t.heaptop) × (t.heaptop < 2 ^ 32)
      → pieces s.heapbase bs ≡ pieces s.heapbase xs ++ []
      → Chain s.mem s.heapbase 0 xs mid
      → ((a : ℕ) → a < mid → t.mem a ≡ s.mem a)
      → Ends
          (MallocDone s bs size)
          (λ _ _. ⊥)
          ((malloc_split mid size >> pure (some ((mid + 8) % 2 ^ 32))) t)
  granted-Ends n t xs b mid at used room (base, brk, small) before low same =
      let pos = at.filled in
      let mid8 : (mid + 8) % 2 ^ 32 ≡ mid + 8 = omega (arith, at.above) in
      rw mid8 (
        Ends.bind (malloc_split-Ends t xs b mid [] size at whole room small)
          (λ _ s2 r. returns (
            grant s bs size heap t s2 xs b mid [] r s2
              (subst (λ u. Around s2 xs (record r.block { used = u }) mid r.rest) (r.used ∙ used)
                r.around)
              (r.base_same ∙ base, r.brk_same ∙ brk ∙ sym r.top_same, omega (arith, r.top_same))
              before
              (rw before (
                rw append-nil (
                  Chain-Kept s.mem s2.mem s.heapbase 0 xs mid low
                    (λ a p q. r.below_same a q ∙ same a q))))))
          (λ e s' f. f))

  -- The cell at the old top is no part of the heap yet.
  abbrev topped : Header → ℕ → Heap
  topped h n = set_header s.heaptop h (raised s n)

  use_new-Ends :
      (n : ℕ)
      → n % 8 ≡ 0
      → 8 + size ≤ n
      → (r : Option ℕ) (s' : Heap) → Raised s n r s'
      → Ends (MallocDone s bs size) (λ _ _. ⊥) (use_new os size (last_len 0 bs) n r s')
  use_new-Ends n al lo none s' e = rw e (returns refl)
  use_new-Ends n al lo (some x) s' (p, e, small) =
      let fit : m_mkfield n ≡ n / 8 = omega arith in
      let b : Block = record { len = n / 8; used = true } in
      let t = topped (header (last_len 0 bs) b) n in
      let same : (a : ℕ) → a < s.heaptop → t.mem a ≡ s.mem a = λ a q. ground arith in
      let self : (s.heaptop == s.heaptop) ≡ true = ground arith in
      rw (p, e, fit)
        (granted-Ends n t bs b s.heaptop
          (record {
            below =
                Chain-frame s.mem t.mem s.heapbase 0 bs s.heaptop heap.chain (λ a p q. same a q);
            head = rw self;
            filled = omega arith;
            above = omega arith;
          })
          refl (omega arith) (refl, refl, small) (sym (append-nil _)) heap.chain same)

  -- The top block is in use, or there is none: the new space is a block of its own.
  pub expand_new-Ends :
      Ends (MallocDone s bs size) (λ _ _. ⊥) (expand_new os size (last_len 0 bs) s)
  unfolding expand_new
  expand_new-Ends =
      let n8 : (8 + size) % 2 ^ 32 ≡ 8 + size = omega arith in
      let (lo, hi, al) = pages_lem (8 + size) (omega arith) in
      rw n8 (
        Ends.bind (malloc_sbrk-Ends (whole_pages (8 + size)) (omega (arith, hi)))
          (use_new-Ends (whole_pages (8 + size)) al lo) (λ e s' f. f))

  -- The top block is free: it takes in the new space.
  module _ (xs : List Block) (b : Block) (mid : ℕ) (all : xs ++ b ∷ [] ≡ bs)
      (at : Around s xs b mid []) (free : b.used ≡ false) (short : 8 * b.len - 8 < size) where
    use_top-Ends :
        (n : ℕ)
        → n % 8 ≡ 0
        → size + 8 ≤ 8 * b.len + n
        → (r : Option ℕ) (s' : Heap) → Raised s n r s'
        → Ends (MallocDone s bs size) (λ _ _. ⊥) (use_top os size mid n r s')
    use_top-Ends n al lo none s' e = rw e (returns refl)
    use_top-Ends n al lo (some x) s' (p, e, small) =
        let pos = at.filled in
        let low = Chain-le s.mem s.heapbase 0 xs mid at.below in
        let old : m_nextoff (header (last_len 0 xs) b) ≡ 8 * b.len =
          nextoff_lem (last_len 0 xs) b (omega (arith, at.above)) in
        let fit : m_mkfield ((8 * b.len + n) % 2 ^ 32) ≡ b.len + n / 8 = omega (arith, at.above) in
        let b' : Block = record { len = b.len + n / 8; used = true } in
        let t = set_header mid (header (last_len 0 xs) b') (raised s n) in
        let same : (a : ℕ) → a < mid → t.mem a ≡ s.mem a = λ a q. ground arith in
        let self : (mid == mid) ≡ true = ground arith in
        rw (e, at.head, old, fit)
          (granted-Ends n t xs b' mid
            (record {
              below = Chain-frame s.mem t.mem s.heapbase 0 xs mid at.below (λ a p q. same a q);
              head = rw self;
              filled = omega arith;
              above = omega (arith, at.above);
            })
            refl (omega arith) (refl, refl, small)
            (rw (← all) (free_pieces s s xs b mid [] at free)) at.below same)

    pub expand_top-Ends : Ends (MallocDone s bs size) (λ _ _. ⊥) (expand_top os size mid s)
    unfolding expand_top
    expand_top-Ends =
        let pos = at.filled in
        let old : m_size (header (last_len 0 xs) b) ≡ 8 * b.len - 8 =
          size_lem (last_len 0 xs) b (omega (arith, at.above, heap.small)) pos in
        let more : (size + 2 ^ 32 - (8 * b.len - 8)) % 2 ^ 32 ≡ size - (8 * b.len - 8) =
          omega arith in
        let t : ltb (8 * b.len - 8) size ≡ true = ground arith in
        let (lo, hi, al) = pages_lem (size - (8 * b.len - 8)) (omega arith) in
        rw (at.head, old, more, t)
          (Ends.bind (malloc_sbrk-Ends (whole_pages (size - (8 * b.len - 8))) (omega (arith, hi)))
            (use_top-Ends (whole_pages (size - (8 * b.len - 8))) al (omega (arith, lo)))
            (λ e s' f. f))
