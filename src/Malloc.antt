-- ===== src/Malloc.antt =====
-- userland/lib/libc/stdlib/malloc.c, built with MALLOC32: blocks of 8 bytes, a header of one block
-- before the data of each piece of the heap. The memory is a cell of 8 bytes at each address, read
-- as the six bit-fields of a struct mheader; a failed check, which ends the program by errx, and a
-- failed assert are panics. sbrk is a parameter.
pub mod Allocate
pub mod View
pub mod Split
pub mod Grant
pub mod Loop
pub mod Expand
pub mod Correct
pub mod Merge
pub mod Release
pub mod Free
pub mod Tests
use project_os.Prelude.{
  ℕ, zero, suc, ◌+◌, ◌-◌, ◌*◌, ◌/◌, ◌%◌, ◌^◌, ◌<◌, ◌≡◌, Bool, true, false, not, ◌&&◌, ◌||◌, ltb,
  leb, ◌==◌, if◌then◌else◌, Option, none, some,
}
use project_os.Outcome.Exec.{Exec, pure, panics, kassert, modify, ◌>>=◌, ◌>>◌}

-- struct mheader
pub record Header : Type 0 where
  pub prevblock : ℕ
  pub pad : ℕ
  pub magic1 : ℕ
  pub nextblock : ℕ
  pub inuse : Bool
  pub magic2 : ℕ

-- __heapbase and __heaptop, the break of the process, and the memory.
pub record Heap : Type 0 where
  pub heapbase : ℕ
  pub heaptop : ℕ
  pub brk : ℕ
  pub mem : ℕ → Header

-- sbrk: from the break and the amount, the address that it returns and the new break, or `none` for
-- -1. An amount below 2^31 is not negative; then the old break is returned and the new one is
-- higher by the amount, below the end of the address space.
pub record Sbrk : Type 0 where
  pub sbrk : ℕ → ℕ → Option (ℕ × ℕ)
  pub raises :
      (b n x b' : ℕ) → n < 2 ^ 31 → sbrk b n ≡ some (x, b') → (x ≡ b) × (b' ≡ b + n) × (b' < 2 ^ 32)

-- M_NEXTOFF, M_PREVOFF, M_SIZE, M_OK and M_MKFIELD
abbrev pub m_nextoff : Header → ℕ
m_nextoff h = h.nextblock * 8 % 2 ^ 32

abbrev pub m_prevoff : Header → ℕ
m_prevoff h = h.prevblock * 8 % 2 ^ 32

abbrev pub m_size : Header → ℕ
m_size h = (m_nextoff h + 2 ^ 32 - 8) % 2 ^ 32

abbrev pub m_ok : Header → Bool
m_ok h = h.magic1 == 2 && h.magic2 == 2

abbrev pub m_mkfield : ℕ → ℕ
m_mkfield off = off / 8 % 2 ^ 29

-- M_NEXT and M_PREV, of the header at `mh`
abbrev pub m_next : Heap → ℕ → ℕ
m_next s mh = (mh + m_nextoff (s.mem mh)) % 2 ^ 32

abbrev pub m_prev : Heap → ℕ → ℕ
m_prev s mh = (mh + 2 ^ 32 - m_prevoff (s.mem mh)) % 2 ^ 32

abbrev pub store : (ℕ → Header) → ℕ → Header → ℕ → Header
store mem at h a = if a == at then h else mem a

abbrev pub set_header : ℕ → Header → Heap → Heap
set_header at h s = record s { mem = store s.mem at h }

-- The last step of a split or a merge: the block above, unless it is the top, learns the new size.
abbrev pub relink : ℕ → ℕ → Heap → Heap
relink next size s =
    if next == s.heaptop then s else set_header next (record (s.mem next) { prevblock = size }) s

-- From the new size of the block on, in __malloc_split.
unfoldable pub split_off : (mh size mhnext oldsize : ℕ) → Exec Heap (Unit {0})
split_off mh size mhnext oldsize s =
    let s1 = set_header mh (record (s.mem mh) { nextblock = m_mkfield (size + 8) }) s in
    let mhnew = m_next s1 mh in
    let left = m_mkfield ((oldsize + 2 ^ 32 - size) % 2 ^ 32) in
    if mhnew == mhnext
    then panics s1
    else pure tt (
        relink mhnext left (
          set_header mhnew
            (record {
              prevblock = m_mkfield (size + 8);
              pad = 0;
              magic1 = 2;
              nextblock = left;
              inuse = false;
              magic2 = 2;
            })
            s1))

unfoldable pub malloc_split : (mh size : ℕ) → Exec Heap (Unit {0})
malloc_split mh size s =
    let oldsize = m_size (s.mem mh) in
    if not (size % 8 == 0)
    then panics s
    else if ltb ((oldsize + 2 ^ 32 - size) % 2 ^ 32) 16
    then pure tt s
    else split_off mh size (m_next s mh) oldsize s

-- How the search of malloc ends: with the address of the data, or at the end, with `mh`,
-- `rightprevblock` and `i` as they then are; `none` is a null `mh`.
pub data Search : Type 0 where
  found : ℕ → Search
  missed : Option ℕ → ℕ → ℕ → Search

abbrev pub allot : ℕ → Heap → Heap
allot mh s = set_header mh (record (s.mem mh) { inuse = true }) s

-- The loop over the headers. Fuel that runs out stands for a loop that does not end.
unfoldable pub malloc_search : ℕ → (size i : ℕ) → Option ℕ → ℕ → Exec Heap Search
malloc_search zero size i mh right s = panics s
malloc_search (suc fuel) size i mh right s =
    let h = s.mem i in
    let next = malloc_search fuel size ((i + m_nextoff h) % 2 ^ 32) (some i) h.nextblock s in
    if leb s.heaptop i
    then pure (missed mh right i) s
    else if not (m_ok h) || not (h.prevblock == right)
    then panics s
    else if h.inuse || ltb (m_size h) size
    then next
    else (malloc_split i size >> modify (allot i) >> pure (found ((i + 8) % 2 ^ 32))) s

-- The cell of 8 bytes that two words 0xdeadbeef make: which bits are a field's, the compiler says.
module _ (wiped : Header) where
  -- __malloc_deadbeef on `n` cells; all sizes that it is called with are multiples of 8.
  unfoldable pub malloc_deadbeef : (n ptr : ℕ) → Heap → Heap
  malloc_deadbeef zero ptr s = s
  malloc_deadbeef (suc n) ptr s = malloc_deadbeef n (ptr + 8) (set_header ptr wiped s)

  unfoldable pub malloc_trymerge : (mh mhnext : ℕ) → Exec Heap (Unit {0})
  malloc_trymerge mh mhnext s =
      let h = s.mem mh in
      let n = s.mem mhnext in
      let size = m_mkfield ((8 + m_size h + 8 + m_size n) % 2 ^ 32) in
      if not (h.nextblock == n.prevblock)
      then panics s
      else if h.inuse || n.inuse
      then pure tt s
      else pure tt (
          malloc_deadbeef 1 mhnext
            (relink (m_next s mhnext) size (set_header mh (record h { nextblock = size }) s)))

  -- free where its checks have passed.
  unfoldable pub release : (x mh : ℕ) → Exec Heap (Unit {0})
  release x mh =
      modify (λ s. set_header mh (record (s.mem mh) { inuse = false }) s)
      >> modify (λ s. malloc_deadbeef (m_size (s.mem mh) / 8) x s)
      >> (λ s. if m_next s mh == s.heaptop then pure tt s else malloc_trymerge mh (m_next s mh) s)
      >> (λ s. if mh == s.heapbase then pure tt s else malloc_trymerge (m_prev s mh) mh s)

  unfoldable pub free : ℕ → Exec Heap (Unit {0})
  free x s =
      let mh = (x + 2 ^ 32 - 8) % 2 ^ 32 in
      if x == 0
      then pure tt s
      else if (s.heapbase == 0) || (s.heaptop == 0) || ltb s.heaptop s.heapbase
      then panics s
      else if ltb x s.heapbase || leb s.heaptop x
      then panics s
      else if not (m_ok (s.mem mh)) || not (s.mem mh).inuse
      then panics s
      else release x mh s
