-- ===== src/Uio/View.antt =====
-- The bytes that a struct uio of kern/lib/uio.c names, in their order, and how far a move of some of
-- them has come.
use project_os.Prelude.{
  ℕ, zero, suc, ◌+◌, ◌-◌, ◌^◌, ◌≤◌, ◌<◌, ◌≡◌, inl, inr, refl, sym, ◌∙◌, ap, Bool-cases, true, ◌&&◌,
  ltb, leb, if◌then◌else◌, List, [], ◌∷◌, arith,
}
use project_os.Libc.{Memory, put}
use project_os.Uio.{Iovec, Uio, UioRw, uio_read, uio_write, copy_to}

-- The bytes in all regions.
unfoldable pub total : List Iovec → ℕ
total [] = 0
total (v ∷ rest) = v.len + total rest

-- The address of each of them.
unfoldable pub addr : List Iovec → ℕ → ℕ
addr [] i = 0
addr (v ∷ rest) i = let later = addr rest (i - v.len) in if ltb i v.len then v.base + i else later

-- Stores `n` bytes one after the other at the addresses that `a` gives.
unfoldable pub scatter : ℕ → (a src : ℕ → ℕ) → Memory → Memory
scatter zero a src mem = mem
scatter (suc n) a src mem = put (scatter n a src mem) (a n) (src n)

pub scatter_same :
    (n : ℕ) (a a' src src' : ℕ → ℕ) (mem : Memory)
    → ((i : ℕ) → i < n → (a i ≡ a' i) × (src i ≡ src' i))
    → scatter n a src mem ≡ scatter n a' src' mem
unfolding scatter
scatter_same zero a a' src src' mem h = refl
scatter_same (suc n) a a' src src' mem h =
    let (ea, es) = h n (omega arith) in
    rw (ea, es, scatter_same n a a' src src' mem (λ i l. h i (omega arith)))

pub scatter-add :
    (m n : ℕ) (a src : ℕ → ℕ) (mem : Memory)
    → scatter (n + m) a src mem
      ≡ scatter m (λ i. a (n + i)) (λ i. src (n + i)) (scatter n a src mem)
unfolding scatter
scatter-add zero n a src mem = let e : n + 0 ≡ n = omega arith in rw e
scatter-add (suc m) n a src mem =
    let e : n + suc m ≡ suc (n + m) = omega arith in rw (e, scatter-add m n a src mem)

-- A region's bytes are stored one after the other.
pub scatter-copy_to :
    (n : ℕ) (base : ℕ) (src : ℕ → ℕ) (mem : Memory) (k : ℕ)
    → copy_to mem base src n k ≡ scatter n (λ i. base + i) src mem k
unfolding scatter
scatter-copy_to zero base src mem k = ground arith
scatter-copy_to (suc n) base src mem k = ground (arith, scatter-copy_to n base src mem k)

-- The uio has moved on by `n` bytes.
pub record Advanced (n : ℕ) (s s' : Uio) : Type 0 where
  pub offset : s'.offset ≡ s.offset + n
  pub resid : s'.resid ≡ s.resid - n
  pub total_lem : total s'.iov ≡ total s.iov - n
  pub addrs : (i : ℕ) → i < total s'.iov → addr s'.iov i ≡ addr s.iov (n + i)
  pub rw_lem : s'.rw ≡ s.rw
  pub segflg : s'.segflg ≡ s.segflg

-- What a move of `n` bytes does to the memory and to the kernel's buffer.
abbrev pub Transfers : UioRw → (ptr : Memory) → (at n : ℕ) → Uio → (ptr' : Memory) → Uio → Type 0
Transfers uio_read ptr at n s ptr' s' =
    (ptr' ≡ ptr) × (s'.mem ≡ scatter n (addr s.iov) (λ i. ptr (at + i)) s.mem)
Transfers uio_write ptr at n s ptr' s' =
    (s'.mem ≡ s.mem)
    × ((k : ℕ)
        → ptr' k ≡ (if leb at k && ltb k (at + n) then s.mem (addr s.iov (k - at)) else ptr k))

-- The bytes that are to be moved are there.
pub record HasRoom (n : ℕ) (s : Uio) : Type 0 where
  pub asked : n ≤ s.resid
  pub regions : n ≤ total s.iov
  pub small : s.resid < 2 ^ 32

module _ (k m : ℕ) (s t u : Uio) where
  pub Advanced-trans : Advanced k s t → Advanced m t u → Advanced (k + m) s u
  Advanced-trans a b = record {
    offset = omega (arith, a.offset, b.offset);
    resid = omega (arith, a.resid, b.resid);
    total_lem = omega (arith, a.total_lem, b.total_lem);
    addrs = λ i h.
        let e : k + (m + i) ≡ k + m + i = omega arith in
        b.addrs i h ∙ a.addrs (m + i) (omega (arith, b.total_lem)) ∙ ap (addr s.iov) e;
    rw_lem = b.rw_lem ∙ a.rw_lem;
    segflg = b.segflg ∙ a.segflg;
  }

  -- One move after the other.
  pub Transfers-trans :
      (dir : UioRw) (ptr ptr1 ptr2 : Memory) (at : ℕ)
      → Advanced k s t
      → m ≤ total t.iov
      → Transfers dir ptr at k s ptr1 t
      → Transfers dir ptr1 (at + k) m t ptr2 u
      → Transfers dir ptr at (k + m) s ptr2 u
  Transfers-trans uio_read ptr ptr1 ptr2 at a room (e1, m1) (e2, m2) = (
    e2 ∙ e1,
    m2
        ∙ rw (e1, m1)
            (scatter_same m (addr t.iov) (λ i. addr s.iov (k + i)) (λ i. ptr (at + k + i))
              (λ i. ptr (at + (k + i))) _
              (λ i h.
                let e : at + k + i ≡ at + (k + i) = omega arith in
                (a.addrs i (omega arith), ap ptr e)))
        ∙ sym (scatter-add m k (addr s.iov) (λ i. ptr (at + i)) s.mem),
  )
  Transfers-trans uio_write ptr ptr1 ptr2 at a room (e1, p1) (e2, p2) = (
    e2 ∙ e1,
    λ j. elim (Bool-cases (leb (at + k) j && ltb j (at + k + m))) [
      | inl e ↦
          let inside : (leb at j && ltb j (at + (k + m))) ≡ true = ground arith in
          let off : k + (j - (at + k)) ≡ j - at = ground arith in
          p2 j ∙ rw (e, inside, e1, ← off) (ap s.mem (a.addrs (j - (at + k)) (ground arith)))
      | inr e ↦
          let alike : (leb at j && ltb j (at + k)) ≡ (leb at j && ltb j (at + (k + m))) =
            ground arith in
          p2 j ∙ rw e (p1 j ∙ rw alike)
    ],
  )
