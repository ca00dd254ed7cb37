-- ===== src/Malloc/Release.antt =====
-- What free of malloc.c promises.
use project_os.Prelude.{
  ℕ, ◌+◌, ◌-◌, ◌*◌, ◌/◌, ◌%◌, ◌^◌, ◌≤◌, ◌<◌, ◌≡◌, ◌⊎◌, inl, inr, refl, sym, ◌∙◌, ap, subst, arith,
  true, false, ◌||◌, ltb, leb, List, [], ◌∷◌, ◌++◌, ◌==◌, if◌then◌else◌, append_assoc,
}
use project_os.Outcome.{ok, Outcome}
use project_os.Outcome.Exec.{◌>>◌}
use project_os.Outcome.Ends
use project_os.Outcome.Ends.{Ends, returns}
use project_os.Malloc.{
  Header, Heap, m_size, m_nextoff, m_prevoff, m_next, m_prev, set_header, malloc_deadbeef,
  malloc_trymerge, release, free,
}
use project_os.Malloc.View.{
  Block, header, last_len, end_of, pieces, Kept, Chain-le, Chain-frame, Chain-Kept, Kept-append,
  end_of-ge,
}
use project_os.Malloc.Split.{Around, size_lem}
use project_os.Malloc.Grant.{IsHeap, Around-Chain, free_pieces}
use project_os.Malloc.Merge.{
  Merged, Kept-refl, Kept-trans, IsHeap-Around, deadbeef_lem, malloc_trymerge-Ends,
}
use project_os.Malloc.Correct.{snoc-cases}

-- The heap is a sequence of blocks again; the pieces `rs` are those in use, with their contents.
pub record Preserved (s : Heap) (rs : List (ℕ × ℕ)) (s' : Heap) : Type 0 where
  pub blocks : List Block
  pub heap : IsHeap s' blocks
  pub base_same : s'.heapbase ≡ s.heapbase
  pub pieces_lem : pieces s.heapbase blocks ≡ rs
  pub kept : Kept s.mem s'.mem rs

end_of-append :
    (i : ℕ) (xs : List Block) (d : Block) → end_of i (xs ++ d ∷ []) ≡ end_of i xs + 8 * d.len
end_of-append i [] d = refl
end_of-append i (x ∷ xs) d = end_of-append (i + 8 * x.len) xs d

module _ (wiped : Header) where
  -- The attempt to merge with the block above.
  abbrev up : ℕ → Heap → Outcome (Unit {0}) × Heap
  up mid s =
      if m_next s mid == s.heaptop then (ok tt, s) else malloc_trymerge wiped mid (m_next s mid) s

  up-Ends :
      (s : Heap) (xs : List Block) (b : Block) (ys : List Block)
      → IsHeap s (xs ++ b ∷ ys)
      → Ends (λ _ s'. Merged s xs b ys s') (λ _ _. ⊥) (up (end_of s.heapbase xs) s)
  up-Ends s xs b [] heap =
      let at = IsHeap-Around heap xs b [] refl in
      let pos = at.filled in
      let n : (end_of s.heapbase xs + m_nextoff (header (last_len 0 xs) b)) % 2 ^ 32 ≡ s.heaptop =
        omega (arith, at.above, heap.small) in
      let self : (s.heaptop == s.heaptop) ≡ true = ground arith in
      rw (at.head, n, self)
        (returns (record {
          block = b;
          rest = [];
          heap = heap;
          base_same = refl;
          pieces_lem = refl;
          kept = Kept-refl s.mem _;
        }))
  up-Ends s xs b (c ∷ ys) heap =
      let at = IsHeap-Around heap xs b (c ∷ ys) refl in
      let pos = at.above.1 in
      let top = Chain-le s.mem _ c.len ys s.heaptop at.above.2 in
      let small = heap.small in
      let n : (end_of s.heapbase xs + m_nextoff (header (last_len 0 xs) b)) % 2 ^ 32
          ≡ end_of s.heapbase xs + 8 * b.len =
        omega arith in
      let other : (end_of s.heapbase xs + 8 * b.len == s.heaptop) ≡ false = ground arith in
      rw (at.head, n, other) (malloc_trymerge-Ends wiped s xs b c ys heap)

  abbrev down : ℕ → Heap → Outcome (Unit {0}) × Heap
  down mid s = if mid == s.heapbase then (ok tt, s) else malloc_trymerge wiped (m_prev s mid) mid s

  down-Ends :
      (s : Heap) (xs : List Block) (b : Block) (ys : List Block)
      → IsHeap s (xs ++ b ∷ ys)
      → Ends
          (λ _ s'. Preserved s (pieces s.heapbase (xs ++ b ∷ ys)) s')
          (λ _ _. ⊥)
          (down (end_of s.heapbase xs) s)
  down-Ends s xs b ys heap = elim (snoc-cases xs) [
    | inl e ↦
        let m : end_of s.heapbase xs ≡ s.heapbase = ap (end_of s.heapbase) e in
        let self : (s.heapbase == s.heapbase) ≡ true = ground arith in
        rw (m, self)
          (returns (record {
            blocks = xs ++ b ∷ ys;
            heap = heap;
            base_same = refl;
            pieces_lem = refl;
            kept = Kept-refl s.mem _;
          }))
    | inr (ws, d, e) ↦
        let all : ws ++ d ∷ b ∷ ys ≡ xs ++ b ∷ ys =
          sym (append_assoc ws (d ∷ []) (b ∷ ys)) ∙ ap (λ l. l ++ b ∷ ys) e in
        let at = IsHeap-Around heap ws d (b ∷ ys) all in
        let low = at.filled in
        let top = Chain-le s.mem _ b.len ys s.heaptop at.above.2 in
        let small = heap.small in
        let from = end_of-ge s.heapbase ws in
        let m : end_of s.heapbase xs ≡ end_of s.heapbase ws + 8 * d.len =
          rw (← e) (end_of-append s.heapbase ws d) in
        let other : (end_of s.heapbase ws + 8 * d.len == s.heapbase) ≡ false = ground arith in
        let p : (end_of s.heapbase ws + 8 * d.len + 2 ^ 32 - m_prevoff (header d.len b)) % 2 ^ 32
            ≡ end_of s.heapbase ws =
          omega arith in
        rw (m, at.above.0, other, p)
          (Ends.mono (malloc_trymerge-Ends wiped s ws d b ys (subst (IsHeap s) (sym all) heap))
            (λ _ s' g. record {
              blocks = ws ++ g.block ∷ g.rest;
              heap = g.heap;
              base_same = g.base_same;
              pieces_lem = g.pieces_lem ∙ ap (pieces s.heapbase) all;
              kept = subst (λ bs. Kept s.mem s'.mem (pieces s.heapbase bs)) all g.kept;
            })
            (λ e s' f. f))
  ]

  -- The block at `mid` is marked free and its data are wiped.
  module _ (s : Heap) (xs : List Block) (b : Block) (ys : List Block)
      (heap : IsHeap s (xs ++ b ∷ ys)) where
    abbrev mid : ℕ
    mid = end_of s.heapbase xs

    at : Around s xs b mid ys
    at = IsHeap-Around heap xs b ys refl

    abbrev freed : Block
    freed = record b { used = false }

    abbrev marked : Heap
    marked = set_header mid (header (last_len 0 xs) freed) s

    abbrev cleared : Heap
    cleared = malloc_deadbeef wiped ((8 * b.len - 8) / 8) (mid + 8) marked

    cleared_other : (a : ℕ) → (a < mid) ⊎ (mid + 8 * b.len ≤ a) → cleared.mem a ≡ s.mem a
    cleared_other a o =
        let pos = at.filled in
        let outer : (a < mid + 8) ⊎ (mid + 8 + 8 * ((8 * b.len - 8) / 8) ≤ a) = ground arith in
        let e : (a == mid) ≡ false = ground arith in
        (deadbeef_lem wiped ((8 * b.len - 8) / 8) (mid + 8) marked).0 a outer ∙ rw e

    cleared-Around : Around cleared xs freed mid ys
    cleared-Around =
        let (_, be, te, ke) = deadbeef_lem wiped ((8 * b.len - 8) / 8) (mid + 8) marked in
        let pos = at.filled in
        let self : (mid == mid) ≡ true = ground arith in
        record {
          below = rw be (
              Chain-frame s.mem cleared.mem s.heapbase 0 xs mid at.below
                (λ a p q. cleared_other a (inl q)));
          head =
              (deadbeef_lem wiped ((8 * b.len - 8) / 8) (mid + 8) marked).0 mid (inl (omega arith))
              ∙ rw self;
          filled = pos;
          above = rw te (
              Chain-frame s.mem cleared.mem (mid + 8 * b.len) b.len ys s.heaptop at.above
                (λ a p q. cleared_other a (inr p)));
        }

    abbrev others : List (ℕ × ℕ)
    others = pieces s.heapbase xs ++ pieces (mid + 8 * b.len) ys

    cleared-Preserved :
        IsHeap cleared (xs ++ freed ∷ ys)
        × (cleared.heapbase ≡ s.heapbase)
        × (pieces s.heapbase (xs ++ freed ∷ ys) ≡ others)
        × Kept s.mem cleared.mem others
    cleared-Preserved =
        let (_, be, te, ke) = deadbeef_lem wiped ((8 * b.len - 8) / 8) (mid + 8) marked in
        (
          record {
            start = omega (arith, be, heap.start);
            aligned = rw be heap.aligned;
            ended = ke ∙ heap.ended ∙ sym te;
            small = omega (arith, te, heap.small);
            chain = Around-Chain s cleared xs freed mid ys cleared-Around;
          },
          be,
          subst (λ h. pieces h (xs ++ freed ∷ ys) ≡ pieces h xs ++ pieces (mid + 8 * b.len) ys) be
              (free_pieces s cleared xs freed mid ys cleared-Around refl),
          Kept-append s.mem cleared.mem _ _
              (Chain-Kept s.mem cleared.mem s.heapbase 0 xs mid at.below
                (λ a p q. cleared_other a (inl q)))
              (Chain-Kept s.mem cleared.mem (mid + 8 * b.len) b.len ys s.heaptop at.above
                (λ a p q. cleared_other a (inr (omega arith)))),
        )

    release_eq : release wiped (mid + 8) mid s ≡ (up mid >> down mid) cleared
    unfolding release
    release_eq =
        let small = heap.small in
        let top = Chain-le s.mem _ b.len ys s.heaptop at.above in
        let z : m_size (header (last_len 0 xs) freed) ≡ 8 * b.len - 8 =
          size_lem (last_len 0 xs) freed (omega arith) at.filled in
        let self : (mid == mid) ≡ true = ground arith in rw (at.head, self, z)

    -- What is left behind both merges.
    merged_twice :
        (t s' : Heap) (g : Merged cleared xs freed ys t)
        → Preserved t (pieces t.heapbase (xs ++ g.block ∷ g.rest)) s'
        → Preserved s others s'
    merged_twice t s' g d =
        let (h0, be, pe, k0) = cleared-Preserved in
        let tb : t.heapbase ≡ s.heapbase = g.base_same ∙ be in
        let p1 : pieces s.heapbase (xs ++ g.block ∷ g.rest) ≡ others =
          subst (λ h. pieces h (xs ++ g.block ∷ g.rest) ≡ pieces h (xs ++ freed ∷ ys)) be
            g.pieces_lem
          ∙ pe in
        record {
          blocks = d.blocks;
          heap = d.heap;
          base_same = d.base_same ∙ tb;
          pieces_lem =
              subst (λ h. pieces h d.blocks ≡ pieces h (xs ++ g.block ∷ g.rest)) tb d.pieces_lem
              ∙ p1;
          kept = Kept-trans s.mem cleared.mem s'.mem others k0 (
              Kept-trans cleared.mem t.mem s'.mem others
                (subst (Kept cleared.mem t.mem) (ap (λ h. pieces h (xs ++ freed ∷ ys)) be ∙ pe)
                  g.kept)
                (subst (Kept t.mem s'.mem) (ap (λ h. pieces h (xs ++ g.block ∷ g.rest)) tb ∙ p1)
                  d.kept));
        }

    release-Ends : Ends (λ _ s'. Preserved s others s') (λ _ _. ⊥) (release wiped (mid + 8) mid s)
    release-Ends =
        let (h0, be, pe, k0) = cleared-Preserved in
        let me : end_of cleared.heapbase xs ≡ mid = ap (λ h. end_of h xs) be in
        rw release_eq (
          Ends.bind
            (subst (λ m. Ends (λ _ s'. Merged cleared xs freed ys s') (λ _ _. ⊥) (up m cleared)) me
              (up-Ends cleared xs freed ys h0))
            (λ _ t g.
              let mt : end_of t.heapbase xs ≡ mid = ap (λ h. end_of h xs) (g.base_same ∙ be) in
              Ends.mono
                (subst
                  (λ m.
                    Ends (λ _ s'. Preserved t (pieces t.heapbase (xs ++ g.block ∷ g.rest)) s')
                      (λ _ _. ⊥) (down m t))
                  mt (down-Ends t xs g.block g.rest g.heap))
                (λ _ s' d. merged_twice t s' g d) (λ e s' f. f))
            (λ e s' f. f))

    pub free_block-Ends :
        b.used ≡ true
        → 2 ≤ b.len
        → Ends (λ _ s'. Preserved s others s') (λ _ _. ⊥) (free wiped (mid + 8) s)
    unfolding free
    free_block-Ends used filled =
        let small = heap.small in
        let start = heap.start in
        let from = end_of-ge s.heapbase xs in
        let top = Chain-le s.mem _ b.len ys s.heaptop at.above in
        let mh : (mid + 8 + 2 ^ 32 - 8) % 2 ^ 32 ≡ mid = omega arith in
        let t1 : (mid + 8 == 0) ≡ false = ground arith in
        let t2 : ((s.heapbase == 0) || (s.heaptop == 0) || ltb s.heaptop s.heapbase) ≡ false =
          ground arith in
        let t3 : (ltb (mid + 8) s.heapbase || leb s.heaptop (mid + 8)) ≡ false = ground arith in
        rw (mh, t1, t2, t3, at.head, used) release-Ends
