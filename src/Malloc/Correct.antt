-- ===== src/Malloc/Correct.antt =====
-- What malloc of malloc.c promises.
use project_os.Prelude.{
  ℕ, ◌+◌, ◌-◌, ◌*◌, ◌/◌, ◌%◌, ◌^◌, ◌≤◌, ◌<◌, ◌≡◌, ◌≢◌, ◌⊎◌, inl, inr, refl, sym, ap, arith, true,
  false, not, ◌||◌, Bool-cases, Option-cases, ltb, Option, none, some, List, [], ◌∷◌, ◌++◌, length,
  ◌==◌,
}
use project_os.Outcome.Exec.{◌>>=◌}
use project_os.Outcome.Ends
use project_os.Outcome.Ends.{Ends, returns}
use project_os.Malloc.{Header, Heap, Sbrk, Search, found, missed}
use project_os.Malloc.Allocate.{
  expand, after_search, call_sbrk, align_base, malloc_init, malloc_body, malloc,
}
use project_os.Malloc.View.{
  Block, Chain, last_len, end_of, Apart, Chain-le, Chain-parts, Chain-Apart,
}
use project_os.Malloc.Split.{Around}
use project_os.Malloc.Grant.{IsHeap, Granted}
use project_os.Malloc.Loop.{AllSmall, SearchDone, last_at, malloc_search-Ends}
use project_os.Malloc.Expand.{MallocDone, expand_new-Ends, expand_top-Ends}

-- A sequence is empty or has a last block.
pub snoc-cases :
    (bs : List Block) → (bs ≡ []) ⊎ ((xs : List Block) × (b : Block) × (xs ++ b ∷ [] ≡ bs))
snoc-cases [] = inl refl
snoc-cases (b ∷ bs) = elim (snoc-cases bs) [
  | inl e ↦ inr ([], b, ap (λ ys. b ∷ ys) (sym e))
  | inr (xs, c, e) ↦ inr (b ∷ xs, c, ap (λ ys. b ∷ ys) e)
]

last_at-append :
    (d : Option ℕ) (i : ℕ) (xs : List Block) (b : Block)
    → last_at d i (xs ++ b ∷ []) ≡ some (end_of i xs)
last_at-append d i [] b = refl
last_at-append d i (x ∷ xs) b = last_at-append (some i) (i + 8 * x.len) xs b

AllSmall-last :
    (size : ℕ) (xs : List Block) (b : Block)
    → AllSmall size (xs ++ b ∷ [])
    → b.used ≡ false
    → 8 * b.len - 8 < size
AllSmall-last size [] b (h, _) = h
AllSmall-last size (x ∷ xs) b (_, h) = AllSmall-last size xs b h

Chain-length :
    (m : ℕ → Header) (i prev : ℕ) (bs : List Block) (top : ℕ)
    → Chain m i prev bs top
    → 8 * length bs ≤ top - i
Chain-length m i prev [] top c = omega arith
Chain-length m i prev (b ∷ bs) top (h, l, c) =
    let le = Chain-le m _ b.len bs top c in
    omega (arith, Chain-length m (i + 8 * b.len) b.len bs top c)

module _ (os : Sbrk) (s : Heap) (bs : List Block) (size : ℕ) (whole : size % 8 ≡ 0)
    (limit : size + 2 ^ 13 ≤ 2 ^ 31) (heap : IsHeap s bs) where
  expand-Ends :
      AllSmall size bs
      → Ends
          (MallocDone s bs size)
          (λ _ _. ⊥)
          (expand os size (last_at none s.heapbase bs) (last_len 0 bs) s)
  expand-Ends short = elim (snoc-cases bs) [
    | inl e ↦
        let new = expand_new-Ends os s bs size whole limit heap in
        let la : last_at none s.heapbase bs ≡ none = ap (last_at none s.heapbase) e in rw la new
    | inr (xs, b, e) ↦
        let new = expand_new-Ends os s bs size whole limit heap in
        let la : last_at none s.heapbase bs ≡ some (end_of s.heapbase xs) =
          rw (← e) (last_at-append none s.heapbase xs b) in
        let (c, (h, pos, d)) =
          Chain-parts s.mem s.heapbase 0 xs (b ∷ []) s.heaptop (rw e heap.chain) in
        let at : Around s xs b (end_of s.heapbase xs) [] = record {
          below = c;
          head = h;
          filled = pos;
          above = d;
        } in
        rw (la, h)
          (elim (Bool-cases b.used) [
            | inl u ↦ rw u new
            | inr f ↦ rw f (
                expand_top-Ends os s bs size whole limit heap xs b (end_of s.heapbase xs) e at f
                  (AllSmall-last size xs b (rw e short) f))
          ])
  ]

  after_search-Ends :
      (r : Search) (s' : Heap)
      → SearchDone s bs size none 0 s.heapbase bs r s'
      → Ends (MallocDone s bs size) (λ _ _. ⊥) (after_search os size r s')
  after_search-Ends (found p) s' g = returns g
  after_search-Ends (missed mh right i) s' (same, e, r, m, short) =
      let self : (s.heaptop == s.heaptop) ≡ true = ground arith in
      rw (same, e, r, m, self) (expand-Ends short)

-- Null and an unchanged heap, or a piece of `size` bytes or more, apart from the others.
abbrev pub Malloced : Heap → List Block → ℕ → Option ℕ → Heap → Type 0
Malloced s bs size none s' = s' ≡ s
Malloced s bs size (some p) s' =
    (g : Granted s bs size s' p) × Apart s'.heapbase (g.lower ++ (p, g.bytes) ∷ g.upper) s'.heaptop

-- What is granted for the rounded size.
rounded :
    (s : Heap) (bs : List Block) (size size' : ℕ) (r : Option ℕ) (s' : Heap)
    → size ≤ size'
    → MallocDone s bs size' r s'
    → Malloced s bs size r s'
rounded s bs size size' none s' le e = e
rounded s bs size size' (some p) s' le g = (
  record {
    blocks = g.blocks;
    heap = g.heap;
    base_same = g.base_same;
    lower = g.lower;
    upper = g.upper;
    bytes = g.bytes;
    before = g.before;
    after = g.after;
    room = omega (arith, g.room);
    kept = g.kept;
  },
  rw (← g.after) (Chain-Apart s'.mem s'.heapbase 0 g.blocks s'.heaptop g.heap.aligned g.heap.chain),
)

malloc_body-Ends :
    (os : Sbrk) (s : Heap) (bs : List Block) (size : ℕ)
    → size + 2 ^ 14 ≤ 2 ^ 31
    → IsHeap s bs
    → Ends (Malloced s bs size) (λ _ _. ⊥) (malloc_body os size s)
unfolding malloc_body
malloc_body-Ends os s bs size limit heap =
    let n = (size + 7) / 8 * 8 in
    let e : (size + 7) % 2 ^ 32 / 8 * 8 ≡ n = omega arith in
    let start = heap.start in
    let c = Chain-le s.mem s.heapbase 0 bs s.heaptop heap.chain in
    let len = Chain-length s.mem s.heapbase 0 bs s.heaptop heap.chain in
    let t : ((s.heapbase == 0) || (s.heaptop == 0) || ltb s.heaptop s.heapbase) ≡ false =
      ground arith in
    rw (e, t)
      (Ends.mono
        (Ends.bind
          (malloc_search-Ends s bs n (omega arith) heap ((s.heaptop - s.heapbase) / 8 + 1) [] bs
            s.heapbase none refl (omega arith) refl heap.chain)
          (after_search-Ends os s bs n (omega arith) (omega arith) heap) (λ e s' f. f))
        (λ r s' d. rounded s bs size n r s' (omega arith) d) (λ e s' f. f))

-- On a heap that is a sequence of blocks, for a size up to 2^31 - 2^14, malloc does not fail a
-- check. If it returns null, the heap is as it was. If it returns p, the heap is a sequence of
-- blocks again; the pieces in use are those from before, with their contents, and one more at p,
-- which has the size asked for at least; and all pieces lie apart, at multiples of 8.
pub malloc-Ends :
    (os : Sbrk) (s : Heap) (bs : List Block) (size : ℕ)
    → size + 2 ^ 14 ≤ 2 ^ 31
    → IsHeap s bs
    → Ends (Malloced s bs size) (λ _ _. ⊥) (malloc os size s)
unfolding malloc
malloc-Ends os s bs size limit heap =
    let start = heap.start in
    let t : (s.heapbase == 0) ≡ false = ground arith in
    rw t (malloc_body-Ends os s bs size limit heap)

-- Where sbrk gives no error for up to 7 bytes below the end of the address space, the first call of
-- malloc sets the heap up as an empty sequence of blocks.
module _ (os : Sbrk) (s : Heap) (fresh : (s.heapbase ≡ 0) × (s.heaptop ≡ 0)) (start : 0 < s.brk)
    (room : s.brk + 8 < 2 ^ 32)
    (grants : (b n : ℕ) → b + n < 2 ^ 32 → n < 8 → os.sbrk b n ≢ none) where
  -- The adjustment of a base that is no multiple of 8.
  aligned-IsHeap :
      (s.brk % 8 == 0) ≡ false
      → Ends
          (λ _ s'. IsHeap s' [])
          (λ _ _. ⊥)
          ((call_sbrk os (8 - s.brk % 8) >>= align_base os (8 - s.brk % 8))
            (record s { heapbase = s.brk; heaptop = s.brk }))
  aligned-IsHeap odd =
      let n = 8 - s.brk % 8 in
      let lt : n < 8 = ground arith in
      elim (Option-cases (os.sbrk s.brk n)) [
        | inl e ↦ absurd (grants s.brk n (omega arith) lt e)
        | inr ((x, b), e) ↦
            let (p, q, r) = os.raises s.brk n x b (omega arith) e in
            let self : (s.brk == s.brk) ≡ true = ground arith in
            let base : (s.brk + n) % 2 ^ 32 ≡ s.brk + n = omega arith in
            rw (e, p, q, self, base)
              (returns (record {
                start = omega arith;
                aligned = omega arith;
                ended = refl;
                small = omega (arith, lt);
                chain = refl;
              }))
      ]

  pub malloc_init-IsHeap : Ends (λ _ s'. IsHeap s' []) (λ _ _. ⊥) (malloc_init os s)
  unfolding malloc_init
  malloc_init-IsHeap = elim (Option-cases (os.sbrk s.brk 0)) [
    | inl e ↦ absurd (grants s.brk 0 (omega arith) (omega arith) e)
    | inr ((x, b), e) ↦
        let (p, q, r) = os.raises s.brk 0 x b (omega arith) e in
        let same : b ≡ s.brk = omega (arith, q) in
        let t : (not (s.heapbase == 0) || not (s.heaptop == 0)) ≡ false =
          ground (arith, fresh.0, fresh.1) in
        let some_ : (s.brk == 0) ≡ false = ground arith in
        rw (t, e, p, same, some_)
          (elim (Bool-cases (s.brk % 8 == 0)) [
            | inl even ↦ rw even (
                returns (record {
                  start = start;
                  aligned = ground arith;
                  ended = refl;
                  small = omega arith;
                  chain = refl;
                }))
            | inr odd ↦ rw odd (aligned-IsHeap odd)
          ])
  ]
