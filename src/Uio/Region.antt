-- ===== src/Uio/Region.antt =====
-- One round of uiomove of kern/lib/uio.c: the part of a region that is moved, the region that is
-- passed over, and what two moves after each other are.
use project_os.Prelude.{
  ℕ, ◌+◌, ◌-◌, ◌^◌, ◌≤◌, ◌<◌, ◌≡◌, ◌≢◌, inl, inr, refl, sym, ◌∙◌, ap, fun_ext, subst, Bool-cases,
  true, false, ◌&&◌, ltb, leb, List, ◌∷◌, arith,
}
use project_os.Outcome.{Errno, efault}
use project_os.Outcome.Ends.{Ends, returns, fails}
use project_os.Libc.{Memory}
use project_os.Uio.{Iovec, Uio, UioRw, uio_read, uio_write, UserCopy, is_user, move_region, advance}
use project_os.Uio.View.{
  total, addr, scatter, scatter_same, scatter-copy_to, Advanced, Advanced-trans, Transfers,
  Transfers-trans,
}

-- A move of `n` bytes from `at` on that returns, and one that fails.
abbrev pub Done : (ptr : Memory) → (at n : ℕ) → Uio → Memory → Uio → Type 0
Done ptr at n s ptr' s' = Transfers s.rw ptr at n s ptr' s' × Advanced n s s'

abbrev pub Faulted : Uio → Errno → Uio → Type 0
Faulted s e s' = (e ≡ efault) × (is_user s.segflg ≡ true) × (s'.rw ≡ s.rw)

module _ (user : UserCopy) where
  -- The part of a region is moved, and the uio advanced.
  module _ (ptr : Memory) (at size : ℕ) (v : Iovec) (rest : List Iovec) (s : Uio)
      (regions : s.iov ≡ v ∷ rest) (some_ : size ≢ 0) (part : size ≤ v.len) (asked : size ≤ s.resid)
      (small : s.resid < 2 ^ 32) where
    abbrev moved : Memory → Uio
    moved mem = advance user v rest size (record s { mem = mem })

    moved-Advanced : (mem : Memory) → Advanced size s (moved mem)
    unfolding addr total
    moved-Advanced mem = rw regions (record {
      offset = refl;
      resid = omega arith;
      total_lem = omega arith;
      addrs = λ i h. ground arith;
      rw_lem = refl;
      segflg = refl;
    })

    head_addr : (i : ℕ) → i < size → addr s.iov i ≡ v.base + i
    unfolding addr
    head_addr i h = let e : ltb i v.len ≡ true = ground arith in rw (regions, e)

    pub moved_dir :
        (dir : UioRw)
        → Ends
            (λ ptr' s'.
              Transfers dir ptr at size s ptr' (advance user v rest size s')
              × Advanced size s (advance user v rest size s'))
            (Faulted s)
            (move_region user dir ptr at v.base size s)
    unfolding move_region
    moved_dir uio_read = elim (Bool-cases (is_user s.segflg && user.faults v.base size)) [
      | inl e ↦ rw e (fails (refl, ground arith, refl))
      | inr e ↦ rw e (
          returns (
            (
              refl,
              fun_ext (λ k.
                  scatter-copy_to size v.base (λ i. ptr (at + i)) s.mem k
                  ∙ ap (λ (m : Memory). m k)
                      (scatter_same size (λ i. v.base + i) (addr s.iov) (λ i. ptr (at + i))
                        (λ i. ptr (at + i)) s.mem (λ i h. (sym (head_addr i h), refl)))),
            ),
            moved-Advanced _,
          ))
    ]
    moved_dir uio_write = elim (Bool-cases (is_user s.segflg && user.faults v.base size)) [
      | inl e ↦ rw e (fails (refl, ground arith, refl))
      | inr e ↦ rw e (
          returns (
            (
              refl,
              λ k. elim (Bool-cases (leb at k && ltb k (at + size))) [
                | inl i ↦ rw (i, head_addr (k - at) (ground arith))
                | inr o ↦ rw o
              ],
            ),
            moved-Advanced s.mem,
          ))
    ]

pub nothing_to_do : (ptr : Memory) (at n : ℕ) (s : Uio) → n ≡ 0 → Done ptr at n s ptr s
unfolding scatter
nothing_to_do ptr at n s e = (
  none_moved s.rw,
  record {
    offset = omega (arith, e);
    resid = omega (arith, e);
    total_lem = omega (arith, e);
    addrs = λ i h. let e' : i ≡ n + i = omega (arith, e) in ap (addr s.iov) e';
    rw_lem = refl;
    segflg = refl;
  },
)
  where
    none_moved : (dir : UioRw) → Transfers dir ptr at n s ptr s
    none_moved uio_read = (refl, rw e)
    none_moved uio_write = (refl, λ k. ground arith)

-- A region that is used up is passed over.
module _ (v : Iovec) (rest : List Iovec) (s : Uio) (regions : s.iov ≡ v ∷ rest)
    (used : v.len ≡ 0) where
  pub total_skip : total s.iov ≡ total rest
  unfolding total
  total_skip = rw (regions, used) (omega arith)

  addr_skip : (i : ℕ) → addr s.iov i ≡ addr rest i
  unfolding addr
  addr_skip i =
      let no_byte : ltb i v.len ≡ false = ground arith in
      let off : i - v.len ≡ i = omega arith in rw (regions, no_byte, off)

  Transfers-skip :
      (dir : UioRw) (ptr ptr' : Memory) (at n : ℕ) (s' : Uio)
      → Transfers dir ptr at n (record s { iov = rest }) ptr' s'
      → Transfers dir ptr at n s ptr' s'
  Transfers-skip uio_read ptr ptr' at n s' (e, m) = (
    e,
    m
        ∙ scatter_same n (addr rest) (addr s.iov) (λ i. ptr (at + i)) (λ i. ptr (at + i)) s.mem
            (λ i h. (sym (addr_skip i), refl)),
  )
  Transfers-skip uio_write ptr ptr' at n s' (e, p) = (e, λ k. p k ∙ rw (addr_skip (k - at)))

  pub Done-skip :
      (ptr ptr' : Memory) (at n : ℕ) (s' : Uio)
      → Done ptr at n (record s { iov = rest }) ptr' s'
      → Done ptr at n s ptr' s'
  Done-skip ptr ptr' at n s' (x, a) = (
    Transfers-skip s.rw ptr ptr' at n s' x,
    record {
      offset = a.offset;
      resid = a.resid;
      total_lem = rw total_skip a.total_lem;
      addrs = λ i h. a.addrs i h ∙ sym (addr_skip (n + i));
      rw_lem = a.rw_lem;
      segflg = a.segflg;
    },
  )

-- A move and the one that follows it.
pub Done-trans :
    (k n : ℕ) (ptr ptr1 ptr2 : Memory) (at : ℕ) (s t u : Uio)
    → k ≤ n
    → n ≤ total s.iov
    → Transfers s.rw ptr at k s ptr1 t × Advanced k s t
    → Done ptr1 (at + k) (n - k) t ptr2 u
    → Done ptr at n s ptr2 u
Done-trans k n ptr ptr1 ptr2 at s t u le room (x, a) (y, b) =
    let e : k + (n - k) ≡ n = omega arith in
    subst (λ m. Done ptr at m s ptr2 u) e
      (
        Transfers-trans k (n - k) s t u s.rw ptr ptr1 ptr2 at a (omega (arith, a.total_lem)) x
            (subst (λ dir. Transfers dir ptr1 (at + k) (n - k) t ptr2 u) a.rw_lem y),
        Advanced-trans k (n - k) s t u a b,
      )

pub Faulted-Advanced :
    (k : ℕ) (s t : Uio) (e : Errno) (u : Uio) → Advanced k s t → Faulted t e u → Faulted s e u
Faulted-Advanced k s t e u a (x, y, z) = (x, rw (← a.segflg) y, z ∙ a.rw_lem)
