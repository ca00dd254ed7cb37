-- ===== src/Malloc/Grant.antt =====
-- What malloc promises, and the taking of a free block.
use project_os.Prelude.{
  ℕ, ◌+◌, ◌-◌, ◌*◌, ◌%◌, ◌^◌, ◌≤◌, ◌<◌, ◌≡◌, refl, sym, ◌∙◌, arith, true, false, List, ◌∷◌, ◌++◌,
  ◌==◌,
}
use project_os.Malloc.{Heap, allot}
use project_os.Malloc.View.{
  Block, Chain, pieces, Kept, Chain-end, Chain-le, Chain-frame, Chain-append, Chain-Kept,
  pieces-append, Kept-append,
}
use project_os.Malloc.Split.{Around, Resized}

-- The heap is the sequence of blocks `bs`.
pub record IsHeap (s : Heap) (bs : List Block) : Type 0 where
  pub start : 0 < s.heapbase
  pub aligned : s.heapbase % 8 ≡ 0
  pub ended : s.brk ≡ s.heaptop
  pub small : s.heaptop < 2 ^ 32
  pub chain : Chain s.mem s.heapbase 0 bs s.heaptop

-- A piece of `size` bytes or more at `p` has come into use, and the pieces that were in use before
-- are as they were.
pub record Granted (s : Heap) (bs : List Block) (size : ℕ) (s' : Heap) (p : ℕ) : Type 0 where
  pub blocks : List Block
  pub heap : IsHeap s' blocks
  pub base_same : s'.heapbase ≡ s.heapbase
  pub lower : List (ℕ × ℕ)
  pub upper : List (ℕ × ℕ)
  pub bytes : ℕ
  pub before : pieces s.heapbase bs ≡ lower ++ upper
  pub after : pieces s'.heapbase blocks ≡ lower ++ (p, bytes) ∷ upper
  pub room : size ≤ bytes
  pub kept : Kept s.mem s'.mem (pieces s.heapbase bs)

module _ (s s' : Heap) (xs : List Block) (b : Block) (mid : ℕ) (ys : List Block)
    (at : Around s' xs b mid ys) where
  pub Around-Chain : Chain s'.mem s'.heapbase 0 (xs ++ b ∷ ys) s'.heaptop
  Around-Chain =
      Chain-append s'.mem s'.heapbase 0 xs (b ∷ ys) mid s'.heaptop at.below
        (at.head, at.filled, at.above)

  pub Around-pieces :
      b.used ≡ true
      → pieces s'.heapbase (xs ++ b ∷ ys)
        ≡ pieces s'.heapbase xs ++ (mid + 8, 8 * b.len - 8) ∷ pieces (mid + 8 * b.len) ys
  Around-pieces u =
      pieces-append s'.heapbase xs (b ∷ ys) ∙ rw (Chain-end s'.mem s'.heapbase 0 xs mid at.below, u)

  pub free_pieces :
      b.used ≡ false
      → pieces s'.heapbase (xs ++ b ∷ ys) ≡ pieces s'.heapbase xs ++ pieces (mid + 8 * b.len) ys
  free_pieces u =
      pieces-append s'.heapbase xs (b ∷ ys) ∙ rw (Chain-end s'.mem s'.heapbase 0 xs mid at.below, u)

allot-Around :
    (s : Heap) (xs : List Block) (b : Block) (mid : ℕ) (ys : List Block)
    → Around s xs b mid ys
    → Around (allot mid s) xs (record b { used = true }) mid ys
allot-Around s xs b mid ys at = record {
  below = Chain-frame s.mem (allot mid s).mem s.heapbase 0 xs mid at.below (λ a p q. ground arith);
  head = let self : (mid == mid) ≡ true = ground arith in rw (self, at.head);
  filled = at.filled;
  above =
      let pos = at.filled in
      Chain-frame s.mem (allot mid s).mem (mid + 8 * b.len) b.len ys s.heaptop at.above
        (λ a p q. ground arith);
}

module _ (s : Heap) (bs : List Block) (size : ℕ) (heap : IsHeap s bs) where
  -- In `t` the block at `mid` is in use; it has been cut to size.
  pub grant :
      (t s' : Heap) (xs : List Block) (b : Block) (mid : ℕ) (ys : List Block)
      → (r : Resized t xs b mid ys size s') → (s2 : Heap)
      → Around s2 xs (record r.block { used = true }) mid r.rest
      → (s2.heapbase ≡ s.heapbase) × (s2.brk ≡ s2.heaptop) × (s2.heaptop < 2 ^ 32)
      → pieces s.heapbase bs ≡ pieces s.heapbase xs ++ pieces (mid + 8 * b.len) ys
      → Kept s.mem s2.mem (pieces s.heapbase bs)
      → Granted s bs size s2 (mid + 8)
  grant t s' xs b mid ys r s2 at (base, brk, small) before kept = record {
    blocks = xs ++ record r.block { used = true } ∷ r.rest;
    heap = record {
      start = omega (arith, base, heap.start);
      aligned = rw base heap.aligned;
      ended = brk;
      small = small;
      chain = Around-Chain s s2 xs (record r.block { used = true }) mid r.rest at;
    };
    base_same = base;
    lower = pieces s.heapbase xs;
    upper = pieces (mid + 8 * b.len) ys;
    bytes = 8 * r.block.len - 8;
    before = before;
    after =
        Around-pieces s s2 xs (record r.block { used = true }) mid r.rest at refl
        ∙ rw (base, r.pieces_lem);
    room = omega (arith, r.room);
    kept = kept;
  }

  -- The free block at `mid` is taken.
  pub take-Granted :
      (xs : List Block) (b : Block) (mid : ℕ) (ys : List Block)
      → xs ++ b ∷ ys ≡ bs
      → Around s xs b mid ys
      → b.used ≡ false
      → (s1 : Heap) → Resized s xs b mid ys size s1
      → Granted s bs size (allot mid s1) (mid + 8)
  take-Granted xs b mid ys e at free s1 r =
      let at' = allot-Around s1 xs r.block mid r.rest r.around in
      let low = Chain-le s.mem s.heapbase 0 xs mid at.below in
      let old : pieces s.heapbase bs ≡ pieces s.heapbase xs ++ pieces (mid + 8 * b.len) ys =
        rw (← e) (free_pieces s s xs b mid ys at free) in
      grant s s1 xs b mid ys r (allot mid s1) at'
        (
          r.base_same,
          r.brk_same ∙ heap.ended ∙ sym r.top_same,
          omega (arith, r.top_same, heap.small),
        )
        old
        (rw old (
          Kept-append s.mem (allot mid s1).mem _ _
            (Chain-Kept s.mem (allot mid s1).mem s.heapbase 0 xs mid at.below
              (λ a p q. ground (arith, r.below_same a)))
            (let pos = at.filled in
              Chain-Kept s.mem (allot mid s1).mem (mid + 8 * b.len) b.len ys s.heaptop at.above
                (λ a p q. ground (arith, r.above_same a)))))
