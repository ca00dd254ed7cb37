-- ===== src/Malloc/Allocate.antt =====
-- malloc of userland/lib/libc/stdlib/malloc.c behind its search, with sbrk and __malloc_init.
use project_os.Prelude.{
  ℕ, ◌+◌, ◌-◌, ◌*◌, ◌/◌, ◌%◌, ◌^◌, true, not, ◌||◌, ltb, ◌==◌, if◌then◌else◌, Option, none, some,
}
use project_os.Outcome.Exec.{Exec, pure, panics, kassert, modify, ◌>>=◌, ◌>>◌}
use project_os.Malloc.{
  Heap, Sbrk, Search, found, m_mkfield, m_nextoff, m_size, malloc_search, malloc_split, missed,
  set_header,
}

-- The header of a new block at `p`.
abbrev pub new_block : (p right morespace : ℕ) → Heap → Heap
new_block p right morespace = set_header p (record {
  prevblock = right;
  pad = 0;
  magic1 = 2;
  nextblock = m_mkfield morespace;
  inuse = true;
  magic2 = 2;
})

-- The top block with the new space.
abbrev pub grow_block : (mh morespace : ℕ) → Heap → Heap
grow_block mh morespace s =
    set_header mh
      (record (s.mem mh) {
        nextblock = m_mkfield ((m_nextoff (s.mem mh) + morespace) % 2 ^ 32);
        inuse = true;
      })
      s

abbrev pub whole_pages : ℕ → ℕ
whole_pages n = 4096 * ((n + 4095) % 2 ^ 32 / 4096) % 2 ^ 32

abbrev pub set_break : Option (ℕ × ℕ) → Exec Heap (Option ℕ)
set_break none s = pure none s
set_break (some (x, b)) s = pure (some x) (record s { brk = b })

module _ (os : Sbrk) where
  abbrev pub call_sbrk : ℕ → Exec Heap (Option ℕ)
  call_sbrk n s = set_break (os.sbrk s.brk n) s

  -- Past `sbrk` in __malloc_sbrk.
  abbrev pub raise_top : ℕ → Option ℕ → Exec Heap (Option ℕ)
  raise_top size none s = pure none s
  raise_top size (some x) s =
      if not (x == s.heaptop)
      then panics s
      else pure (some x) (record s { heaptop = (s.heaptop + size) % 2 ^ 32 })

  unfoldable pub malloc_sbrk : ℕ → Exec Heap (Option ℕ)
  malloc_sbrk size = call_sbrk size >>= raise_top size

  -- Past the call of __malloc_sbrk in malloc.
  abbrev pub use_new : (size right morespace : ℕ) → Option ℕ → Exec Heap (Option ℕ)
  use_new size right morespace none = pure none
  use_new size right morespace (some p) =
      modify (new_block p right morespace) >> malloc_split p size >> pure (some ((p + 8) % 2 ^ 32))

  abbrev pub use_top : (size mh morespace : ℕ) → Option ℕ → Exec Heap (Option ℕ)
  use_top size mh morespace none = pure none
  use_top size mh morespace (some p) =
      modify (grow_block mh morespace) >> malloc_split mh size >> pure (some ((mh + 8) % 2 ^ 32))

  -- "Expand the heap", where the top block is in use or there is none, and where it is free.
  unfoldable pub expand_new : (size right : ℕ) → Exec Heap (Option ℕ)
  expand_new size right =
      let morespace = whole_pages ((8 + size) % 2 ^ 32) in
      malloc_sbrk morespace >>= use_new size right morespace

  unfoldable pub expand_top : (size mh : ℕ) → Exec Heap (Option ℕ)
  expand_top size mh s =
      let old = m_size (s.mem mh) in
      let morespace = whole_pages ((size + 2 ^ 32 - old) % 2 ^ 32) in
      (kassert (ltb old size) >> (malloc_sbrk morespace >>= use_top size mh morespace)) s

  abbrev pub expand : (size : ℕ) → Option ℕ → ℕ → Exec Heap (Option ℕ)
  expand size none right s = expand_new size right s
  expand size (some mh) right s =
      if not (s.mem mh).inuse then expand_top size mh s else expand_new size right s

  -- Behind the loop of malloc.
  abbrev pub after_search : ℕ → Search → Exec Heap (Option ℕ)
  after_search size (found p) s = pure (some p) s
  after_search size (missed mh right i) s =
      if not (i == s.heaptop) then panics s else expand size mh right s

  -- __malloc_init
  abbrev pub align_base : ℕ → Option ℕ → Exec Heap (Unit {0})
  align_base adjust none s = panics s
  align_base adjust (some x) s =
      if not (x == s.heapbase)
      then panics s
      else let base = (s.heapbase + adjust) % 2 ^ 32 in
        pure tt (record s { heapbase = base; heaptop = base })

  abbrev pub first_base : Option ℕ → Exec Heap (Unit {0})
  first_base none s = panics s
  first_base (some x) s =
      let s' = record s { heapbase = x; heaptop = x } in
      let adjust = 8 - x % 8 in
      if x == 0
      then panics s
      else if x % 8 == 0
      then pure tt s'
      else (call_sbrk adjust >>= align_base adjust) s'

  unfoldable pub malloc_init : Exec Heap (Unit {0})
  malloc_init s =
      if not (s.heapbase == 0) || not (s.heaptop == 0)
      then panics s
      else (call_sbrk 0 >>= first_base) s

  abbrev pub ensure_init : Exec Heap (Unit {0})
  ensure_init s = if s.heapbase == 0 then malloc_init s else pure tt s

  -- malloc behind its first test: the size rounded up, the search, the expansion.
  unfoldable pub malloc_body : ℕ → Exec Heap (Option ℕ)
  malloc_body size s =
      let size' = (size + 7) % 2 ^ 32 / 8 * 8 in
      if (s.heapbase == 0) || (s.heaptop == 0) || ltb s.heaptop s.heapbase
      then panics s
      else (malloc_search ((s.heaptop - s.heapbase) / 8 + 1) size' s.heapbase none 0
            >>= after_search size')
          s

  unfoldable pub malloc : ℕ → Exec Heap (Option ℕ)
  malloc size = ensure_init >> malloc_body size
