-- ===== src/Uio/Zeros.antt =====
-- What uiomovezeros of kern/lib/uio.c moves.
use project_os.Prelude.{
  ℕ, zero, suc, ◌+◌, ◌-◌, ◌≤◌, ◌<◌, ◌≡◌, inl, inr, refl, ◌∙◌, subst, Bool-cases, true, ltb, ◌==◌,
  if◌then◌else◌, arith,
}
use project_os.Outcome.Exec.{kassert_pass}
use project_os.Outcome.Ends
use project_os.Outcome.Ends.{Ends, returns, fails}
use project_os.Uio.{Uio, uio_read, is_read, UserCopy, zeros_loop, uiomovezeros}
use project_os.Uio.View.{
  total, addr, scatter, Advanced, Advanced-trans, Transfers, Transfers-trans, HasRoom,
}
use project_os.Uio.Region.{Faulted, nothing_to_do, Faulted-Advanced}
use project_os.Uio.Move.{uiomove-Ends}

-- Zeros are stored in the next `n` bytes of the regions.
abbrev pub Zeroed : ℕ → Uio → Uio → Type 0
Zeroed n s s' = (s'.mem ≡ scatter n (addr s.iov) (λ i. 0) s.mem) × Advanced n s s'

module _ (user : UserCopy) where
  Zeroed-trans :
      (k n : ℕ) (s t u : Uio)
      → k ≤ n
      → n ≤ total s.iov
      → Zeroed k s t
      → Zeroed (n - k) t u
      → Zeroed n s u
  Zeroed-trans k n s t u le room (x, a) (y, b) =
      let e : k + (n - k) ≡ n = omega arith in
      subst (λ m. Zeroed m s u) e
        (
          (Transfers-trans k (n - k) s t u uio_read (λ i. 0) (λ i. 0) (λ i. 0) 0 a
              (omega (arith, a.total_lem)) (refl, x) (refl, y)).1,
          Advanced-trans k (n - k) s t u a b,
        )

  zeros_loop-Ends :
      (fuel n : ℕ) (s : Uio)
      → HasRoom n s
      → s.rw ≡ uio_read
      → n < fuel
      → Ends (λ _ s'. Zeroed n s s') (Faulted s) (zeros_loop user fuel n s)
  unfolding zeros_loop
  zeros_loop-Ends zero n s h dir l = absurd (omega arith)
  zeros_loop-Ends (suc fuel) n s h dir l = elim (Bool-cases (n == 0)) [
    | inl e ↦
        let none_ : n ≡ 0 = ground arith in
        let (x, a) = nothing_to_do (λ i. 0) 0 n s none_ in
        rw e (returns ((subst (λ d. Transfers d (λ i. 0) 0 n s (λ i. 0) s) dir x).1, a))
    | inr e ↦
        let amt = if ltb n 16 then n else 16 in
        let le : amt ≤ n = ground arith in
        let some_ : 0 < amt = ground arith in
        rw e (
          Ends.bind
            (uiomove-Ends user (λ i. 0) 0 amt s
              (record {
                asked = omega (arith, h.asked);
                regions = omega (arith, h.regions);
                small = h.small;
              }))
            (λ ptr t (x, a).
              Ends.mono
                (zeros_loop-Ends fuel (n - amt) t
                  (record {
                    asked = omega (arith, h.asked, a.resid);
                    regions = omega (arith, h.regions, a.total_lem);
                    small = omega (arith, h.small, a.resid);
                  })
                  (a.rw_lem ∙ dir) (omega arith))
                (λ _ u z.
                  Zeroed-trans amt n s t u le h.regions
                    ((subst (λ d. Transfers d (λ i. 0) 0 amt s ptr t) dir x).1, a) z)
                (λ e u f. Faulted-Advanced amt s t e u a f))
            (λ e u f. f))
  ]

  -- Where a read asks for `n` bytes and the uio's regions have them, uiomovezeros stores `n` zeros
  -- there, or returns EFAULT for user memory.
  pub uiomovezeros-Ends :
      (n : ℕ) (s : Uio)
      → HasRoom n s
      → s.rw ≡ uio_read
      → Ends (λ _ s'. Zeroed n s s') (Faulted s) (uiomovezeros user n s)
  unfolding uiomovezeros
  uiomovezeros-Ends n s h dir =
      let reads : is_read s.rw ≡ true = rw dir in
      rw (kassert_pass _ _ s reads) (zeros_loop-Ends (n + 1) n s h dir (omega arith))
