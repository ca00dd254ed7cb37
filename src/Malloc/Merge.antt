-- ===== src/Malloc/Merge.antt =====
-- __malloc_trymerge and __malloc_deadbeef of malloc.c.
use project_os.Prelude.{
  ℕ, zero, suc, ◌+◌, ◌-◌, ◌*◌, ◌%◌, ◌^◌, ◌≤◌, ◌<◌, ◌≡◌, ◌≢◌, ◌⊎◌, inl, inr, refl, sym, ◌∙◌, subst,
  arith, true, false, ◌||◌, Bool-cases, List, [], ◌∷◌, ◌++◌, ◌==◌,
}
use project_os.Outcome.{ok}
use project_os.Outcome.Ends.{Ends, returns}
use project_os.Malloc.{
  Header, Heap, m_size, m_nextoff, m_mkfield, set_header, relink, malloc_deadbeef, malloc_trymerge,
}
use project_os.Malloc.View.{
  Block, header, last_len, end_of, pieces, Kept, Chain-le, Chain-frame, Chain-relink, Chain-Kept,
  Chain-parts, Kept-append,
}
use project_os.Malloc.Split.{Around, size_lem}
use project_os.Malloc.Grant.{IsHeap, Around-Chain, free_pieces}

-- The block that ends `xs` may have grown; the pieces in use are the same, and their contents.
pub record Merged (s : Heap) (xs : List Block) (b : Block) (ys : List Block) (s' : Heap)
    : Type 0 where
  pub block : Block
  pub rest : List Block
  pub heap : IsHeap s' (xs ++ block ∷ rest)
  pub base_same : s'.heapbase ≡ s.heapbase
  pub pieces_lem : pieces s.heapbase (xs ++ block ∷ rest) ≡ pieces s.heapbase (xs ++ b ∷ ys)
  pub kept : Kept s.mem s'.mem (pieces s.heapbase (xs ++ b ∷ ys))

-- The contents of pieces that a memory shares with itself.
pub Kept-refl : (m : ℕ → Header) (rs : List (ℕ × ℕ)) → Kept m m rs
Kept-refl m [] = tt
Kept-refl m (r ∷ rs) = (λ a p q. refl, Kept-refl m rs)

pub Kept-trans :
    (m m' m'' : ℕ → Header) (rs : List (ℕ × ℕ)) → Kept m m' rs → Kept m' m'' rs → Kept m m'' rs
Kept-trans m m' m'' [] k l = tt
Kept-trans m m' m'' (r ∷ rs) k l = (λ a p q. l.0 a p q ∙ k.0 a p q, Kept-trans m m' m'' rs k.1 l.1)

module _ {s : Heap} {bs : List Block} (heap : IsHeap s bs) where
  -- A block of the heap and what is around it.
  pub IsHeap-Around :
      (xs : List Block) (b : Block) (ys : List Block)
      → xs ++ b ∷ ys ≡ bs
      → Around s xs b (end_of s.heapbase xs) ys
  IsHeap-Around xs b ys e =
      let (c, (h, pos, d)) =
        Chain-parts s.mem s.heapbase 0 xs (b ∷ ys) s.heaptop (rw e heap.chain) in
      record { below = c; head = h; filled = pos; above = d }

module _ (wiped : Header) where
  pub deadbeef_lem :
      (n ptr : ℕ) (s : Heap)
      → ((a : ℕ) → (a < ptr) ⊎ (ptr + 8 * n ≤ a) → (malloc_deadbeef wiped n ptr s).mem a ≡ s.mem a)
        × ((malloc_deadbeef wiped n ptr s).heapbase ≡ s.heapbase)
        × ((malloc_deadbeef wiped n ptr s).heaptop ≡ s.heaptop)
        × ((malloc_deadbeef wiped n ptr s).brk ≡ s.brk)
  unfolding malloc_deadbeef
  deadbeef_lem zero ptr s = (λ a o. refl, refl, refl, refl)
  deadbeef_lem (suc n) ptr s =
      let (m, b, t, k) = deadbeef_lem n (ptr + 8) (set_header ptr wiped s) in
      (
        λ a o.
            let o' : (a < ptr + 8) ⊎ (ptr + 8 + 8 * n ≤ a) = ground arith in
            let e : (a == ptr) ≡ false = ground arith in m a o' ∙ rw e,
        b,
        t,
        k,
      )

  module _ (s : Heap) (xs : List Block) (b c : Block) (ys : List Block)
      (heap : IsHeap s (xs ++ b ∷ c ∷ ys)) where
    abbrev mid : ℕ
    mid = end_of s.heapbase xs

    abbrev next : ℕ
    next = mid + 8 * b.len

    abbrev above_next : ℕ
    above_next = next + 8 * c.len

    at : Around s xs b mid (c ∷ ys)
    at = IsHeap-Around heap xs b (c ∷ ys) refl

    top_le : above_next ≤ s.heaptop
    top_le = Chain-le s.mem above_next c.len ys s.heaptop at.above.2

    abbrev both : Block
    both = record { len = b.len + c.len; used = false }

    abbrev merged : Heap
    merged =
        malloc_deadbeef wiped 1 next
          (relink above_next (b.len + c.len) (set_header mid (header (last_len 0 xs) both) s))

    merge_lem : b.used ≡ false → c.used ≡ false → malloc_trymerge wiped mid next s ≡ (ok tt, merged)
    unfolding malloc_trymerge
    merge_lem fb fc =
        let small = heap.small in
        let top = top_le in
        let pb = at.filled in
        let pc = at.above.1 in
        let sb : m_size (header (last_len 0 xs) b) ≡ 8 * b.len - 8 =
          size_lem (last_len 0 xs) b (omega arith) pb in
        let sc : m_size (header b.len c) ≡ 8 * c.len - 8 = size_lem b.len c (omega arith) pc in
        let f : m_mkfield ((8 + (8 * b.len - 8) + 8 + (8 * c.len - 8)) % 2 ^ 32) ≡ b.len + c.len =
          omega arith in
        let n : (next + m_nextoff (header b.len c)) % 2 ^ 32 ≡ above_next = omega arith in
        let self : (b.len == b.len) ≡ true = ground arith in
        rw (at.head, at.above.0, sb, sc, f, n, self, fb, fc)

    -- The memory behind the merge.
    merged_other : (a : ℕ) → a ≢ mid → a ≢ next → a ≢ above_next → merged.mem a ≡ s.mem a
    unfolding malloc_deadbeef
    merged_other a p q r = ground arith

    merged_mid : merged.mem mid ≡ header (last_len 0 xs) both
    unfolding malloc_deadbeef
    merged_mid = let pb = at.filled in let pc = at.above.1 in ground arith

    merged_above :
        above_next ≢ s.heaptop
        → merged.mem above_next ≡ record (s.mem above_next) { prevblock = b.len + c.len }
    unfolding malloc_deadbeef
    merged_above inner = let pb = at.filled in let pc = at.above.1 in ground arith

    merged_fields :
        (merged.heapbase ≡ s.heapbase) × (merged.heaptop ≡ s.heaptop) × (merged.brk ≡ s.brk)
    unfolding malloc_deadbeef
    merged_fields = (ground arith, ground arith, ground arith)

    merged-Around : Around merged xs both mid ys
    merged-Around =
        let (be, te, ke) = merged_fields in
        let pb = at.filled in
        let pc = at.above.1 in
        let e : mid + 8 * (b.len + c.len) ≡ above_next = omega arith in
        record {
          below = rw be (
              Chain-frame s.mem merged.mem s.heapbase 0 xs mid at.below
                (λ a p q. merged_other a (omega arith) (omega arith) (omega arith)));
          head = merged_mid;
          filled = omega arith;
          above =
              rw (te, e)
                (Chain-relink s.mem merged.mem above_next c.len (b.len + c.len) ys s.heaptop
                  at.above.2 merged_above
                  (λ a p q. merged_other a (omega arith) (omega arith) (omega arith)));
        }

    merged-Merged : b.used ≡ false → c.used ≡ false → Merged s xs b (c ∷ ys) merged
    merged-Merged fb fc =
        let (be, te, ke) = merged_fields in
        let pb = at.filled in
        let pc = at.above.1 in
        let e : mid + 8 * (b.len + c.len) ≡ above_next = omega arith in
        let old : pieces s.heapbase (xs ++ b ∷ c ∷ ys)
            ≡ pieces s.heapbase xs ++ pieces above_next ys =
          free_pieces s s xs b mid (c ∷ ys) at fb ∙ rw fc in
        let new : pieces merged.heapbase (xs ++ both ∷ ys)
            ≡ pieces merged.heapbase xs ++ pieces (mid + 8 * (b.len + c.len)) ys =
          free_pieces s merged xs both mid ys merged-Around refl in
        record {
          block = both;
          rest = ys;
          heap = record {
            start = omega (arith, be, heap.start);
            aligned = rw be heap.aligned;
            ended = ke ∙ heap.ended ∙ sym te;
            small = omega (arith, te, heap.small);
            chain = Around-Chain s merged xs both mid ys merged-Around;
          };
          base_same = be;
          pieces_lem =
              subst
                (λ h.
                  pieces h (xs ++ both ∷ ys) ≡ pieces h xs ++ pieces (mid + 8 * (b.len + c.len)) ys)
                be new
              ∙ rw e (sym old);
          kept = rw old (
              Kept-append s.mem merged.mem _ _
                (Chain-Kept s.mem merged.mem s.heapbase 0 xs mid at.below
                  (λ a p q. merged_other a (omega arith) (omega arith) (omega arith)))
                (Chain-Kept s.mem merged.mem above_next c.len ys s.heaptop at.above.2
                  (λ a p q. merged_other a (omega arith) (omega arith) (omega arith))));
        }

    not_merged : (b.used || c.used) ≡ true → malloc_trymerge wiped mid next s ≡ (ok tt, s)
    unfolding malloc_trymerge
    not_merged u =
        let self : (b.len == b.len) ≡ true = ground arith in rw (at.head, at.above.0, self, u)

    pub malloc_trymerge-Ends :
        Ends (λ _ s'. Merged s xs b (c ∷ ys) s') (λ _ _. ⊥) (malloc_trymerge wiped mid next s)
    malloc_trymerge-Ends = elim (Bool-cases (b.used || c.used)) [
      | inl u ↦ rw (not_merged u) (
          returns (record {
            block = b;
            rest = c ∷ ys;
            heap = heap;
            base_same = refl;
            pieces_lem = refl;
            kept = Kept-refl s.mem _;
          }))
      | inr f ↦
          rw (merge_lem (ground arith) (ground arith))
            (returns (merged-Merged (ground arith) (ground arith)))
    ]
