-- ===== src/Malloc/Split.antt =====
-- __malloc_split of malloc.c.
use project_os.Prelude.{
  ℕ, ◌+◌, ◌-◌, ◌*◌, ◌/◌, ◌%◌, ◌^◌, ◌≤◌, ◌<◌, ◌≡◌, ◌≢◌, inl, inr, refl, arith, true, false,
  Bool-cases, ltb, List, ◌∷◌, ◌==◌,
}
use project_os.Outcome.{ok}
use project_os.Outcome.Ends.{Ends, returns}
use project_os.Malloc.{
  Heap, m_size, m_nextoff, m_mkfield, set_header, relink, split_off, malloc_split,
}
use project_os.Malloc.View.{
  Block, header, Chain, last_len, pieces, Chain-le, Chain-frame, Chain-relink,
}

-- The block `b` at `mid`, between the blocks `xs` below it and `ys` above it.
pub record Around (s : Heap) (xs : List Block) (b : Block) (mid : ℕ) (ys : List Block)
    : Type 0 where
  pub below : Chain s.mem s.heapbase 0 xs mid
  pub head : s.mem mid ≡ header (last_len 0 xs) b
  pub filled : 1 ≤ b.len
  pub above : Chain s.mem (mid + 8 * b.len) b.len ys s.heaptop

-- The block at `mid` has become shorter or stayed, and nothing else has changed but a free block
-- behind it and what the next header says of the block before it.
pub record Resized (s : Heap) (xs : List Block) (b : Block) (mid : ℕ) (ys : List Block) (size : ℕ)
    (s' : Heap) : Type 0 where
  pub block : Block
  pub rest : List Block
  pub around : Around s' xs block mid rest
  pub used : block.used ≡ b.used
  pub room : size + 8 ≤ 8 * block.len
  pub pieces_lem : pieces (mid + 8 * block.len) rest ≡ pieces (mid + 8 * b.len) ys
  pub below_same : (a : ℕ) → a < mid → s'.mem a ≡ s.mem a
  pub above_same : (a : ℕ) → mid + 8 * b.len < a → s'.mem a ≡ s.mem a
  pub base_same : s'.heapbase ≡ s.heapbase
  pub top_same : s'.heaptop ≡ s.heaptop
  pub brk_same : s'.brk ≡ s.brk

-- What the header of a block says, in the code's arithmetic.
module _ (prev : ℕ) (b : Block) (fits : 8 * b.len < 2 ^ 32) where
  pub nextoff_lem : m_nextoff (header prev b) ≡ 8 * b.len
  nextoff_lem = omega arith

  pub size_lem : 1 ≤ b.len → m_size (header prev b) ≡ 8 * b.len - 8
  size_lem le = omega arith

module _ (s : Heap) (xs : List Block) (b : Block) (mid : ℕ) (ys : List Block) (size : ℕ)
    (at : Around s xs b mid ys) (whole : size % 8 ≡ 0) (room : size + 8 ≤ 8 * b.len)
    (small : s.heaptop < 2 ^ 32) where
  top_le : mid + 8 * b.len ≤ s.heaptop
  top_le = Chain-le s.mem _ b.len ys s.heaptop at.above

  len_small : 8 * b.len < 2 ^ 32
  len_small = omega (arith, top_le)

  -- The lengths of the two blocks.
  abbrev front : ℕ
  front = size / 8 + 1

  abbrev back : ℕ
  back = b.len - front

  abbrev shortened : Heap
  shortened = set_header mid (header (last_len 0 xs) (record b { len = front })) s

  abbrev free_block : Block
  free_block = record { len = back; used = false }

  abbrev carved : Heap
  carved =
      relink (mid + 8 * b.len) back
        (set_header (mid + size + 8) (header front free_block) shortened)

  -- The tests and values of __malloc_split, in the block's length.
  whole_test : (size % 8 == 0) ≡ true
  whole_test = ground arith

  old_size : m_size (header (last_len 0 xs) b) ≡ 8 * b.len - 8
  old_size = size_lem (last_len 0 xs) b len_small at.filled

  left_size : (8 * b.len - 8 + 2 ^ 32 - size) % 2 ^ 32 ≡ 8 * b.len - 8 - size
  left_size = omega (arith, len_small)

  next_lem : (mid + m_nextoff (header (last_len 0 xs) b)) % 2 ^ 32 ≡ mid + 8 * b.len
  next_lem = omega (arith, top_le)

  no_room_lem : 8 * b.len < size + 24 → malloc_split mid size s ≡ (ok tt, s)
  unfolding malloc_split
  no_room_lem full =
      let t : ltb (8 * b.len - 8 - size) 16 ≡ true = ground arith in
      rw (whole_test, at.head, old_size, left_size, t)

  split_off_lem :
      size + 24 ≤ 8 * b.len
      → split_off mid size (mid + 8 * b.len) (8 * b.len - 8) s ≡ (ok tt, carved)
  unfolding split_off
  split_off_lem wide =
      let k : m_mkfield (size + 8) ≡ front = omega (arith, len_small) in
      let l : m_mkfield (8 * b.len - 8 - size) ≡ back = omega (arith, len_small) in
      let self : (mid == mid) ≡ true = ground arith in
      let new : (mid + front * 8 % 2 ^ 32) % 2 ^ 32 ≡ mid + size + 8 = omega (arith, top_le) in
      let other : (mid + size + 8 == mid + 8 * b.len) ≡ false = ground arith in
      rw (left_size, at.head, k, l, self, new, other)

  split_lem : size + 24 ≤ 8 * b.len → malloc_split mid size s ≡ (ok tt, carved)
  unfolding malloc_split
  split_lem wide =
      let t : ltb (8 * b.len - 8 - size) 16 ≡ false = ground arith in
      rw (whole_test, at.head, old_size, left_size, t, next_lem) (split_off_lem wide)

  -- The memory behind the split.
  cell_other : (a : ℕ) → a ≢ mid → a ≢ mid + size + 8 → a ≢ mid + 8 * b.len → carved.mem a ≡ s.mem a
  cell_other a p q r = ground arith

  cell_mid :
      size + 24 ≤ 8 * b.len → carved.mem mid ≡ header (last_len 0 xs) (record b { len = front })
  cell_mid wide = ground arith

  cell_new : size + 24 ≤ 8 * b.len → carved.mem (mid + size + 8) ≡ header front free_block
  cell_new wide = ground arith

  cell_next :
      size + 24 ≤ 8 * b.len
      → mid + 8 * b.len ≢ s.heaptop
      → carved.mem (mid + 8 * b.len) ≡ record (s.mem (mid + 8 * b.len)) { prevblock = back }
  cell_next wide inner = ground arith

  carved_fields :
      (carved.heapbase ≡ s.heapbase) × (carved.heaptop ≡ s.heaptop) × (carved.brk ≡ s.brk)
  carved_fields = (ground arith, ground arith, ground arith)

  carved-Around :
      size + 24 ≤ 8 * b.len → Around carved xs (record b { len = front }) mid (free_block ∷ ys)
  carved-Around wide =
      let (be, te, ke) = carved_fields in
      let lower = Chain-le s.mem _ 0 xs mid at.below in
      let e1 : mid + 8 * front ≡ mid + size + 8 = omega arith in
      let e2 : mid + size + 8 + 8 * back ≡ mid + 8 * b.len = omega arith in
      record {
        below = rw be (
            Chain-frame s.mem carved.mem s.heapbase 0 xs mid at.below
              (λ a p q. cell_other a (omega arith) (omega arith) (omega arith)));
        head = cell_mid wide;
        filled = omega arith;
        above =
            rw (te, e1)
              (
                cell_new wide,
                omega arith,
                rw e2 (
                    Chain-relink s.mem carved.mem (mid + 8 * b.len) b.len back ys s.heaptop at.above
                      (cell_next wide)
                      (λ a p q. cell_other a (omega arith) (omega arith) (omega arith))),
              );
      }

  -- The block keeps at least the size asked for.
  pub malloc_split-Ends :
      Ends (λ _ s'. Resized s xs b mid ys size s') (λ _ _. ⊥) (malloc_split mid size s)
  malloc_split-Ends = elim (Bool-cases (ltb (8 * b.len) (size + 24))) [
    | inl full ↦ rw (no_room_lem (ground arith)) (
        returns (record {
          block = b;
          rest = ys;
          around = at;
          used = refl;
          room = room;
          pieces_lem = refl;
          below_same = λ a p. refl;
          above_same = λ a p. refl;
          base_same = refl;
          top_same = refl;
          brk_same = refl;
        }))
    | inr wide ↦
        let w : size + 24 ≤ 8 * b.len = ground arith in
        let e1 : mid + 8 * front ≡ mid + size + 8 = omega arith in
        let e2 : mid + size + 8 + 8 * back ≡ mid + 8 * b.len = omega arith in
        let (be, te, ke) = carved_fields in
        rw (split_lem w) (
          returns (record {
            block = record b { len = front };
            rest = free_block ∷ ys;
            around = carved-Around w;
            used = refl;
            room = omega arith;
            pieces_lem = rw (e1, e2);
            below_same = λ a p. cell_other a (omega arith) (omega arith) (omega arith);
            above_same = λ a p. cell_other a (omega arith) (omega arith) (omega arith);
            base_same = be;
            top_same = te;
            brk_same = ke;
          }))
  ]
