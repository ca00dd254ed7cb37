-- ===== src/Uio/Move.antt =====
-- What uiomove of kern/lib/uio.c moves, and where.
use project_os.Prelude.{
  ℕ, zero, suc, ◌+◌, ◌-◌, ◌*◌, ◌≤◌, ◌<◌, ◌≡◌, ◌≢◌, ◌⊎◌, inl, inr, refl, ap, Bool-cases, false, ◌||◌,
  ltb, ◌==◌, if◌then◌else◌, List, [], ◌∷◌, length, arith,
}
use project_os.Outcome.{Outcome}
use project_os.Outcome.Ends
use project_os.Outcome.Ends.{Ends, returns, fails}
use project_os.Libc.{Memory}
use project_os.Uio.{
  Iovec, Uio, UserCopy, advance, next_region, uiomove_round, uiomove_loop, uiomove,
}
use project_os.Uio.View.{total, HasRoom}
use project_os.Uio.Region.{
  Done, Faulted, moved_dir, nothing_to_do, total_skip, Done-skip, Done-trans, Faulted-Advanced,
}

-- An upper bound of the rounds, but for the last one: two for each region that is not used up.
weight : List Iovec → ℕ
weight [] = 0
weight (v ∷ rest) = if v.len == 0 then 1 + weight rest else 2 + weight rest

weight-le : (l : List Iovec) → weight l ≤ 2 * length l
unfolding weight
weight-le [] = omega arith
weight-le (v ∷ rest) = ground (arith, weight-le rest)

weight_used : (v : Iovec) (rest : List Iovec) → v.len ≡ 0 → weight rest < weight (v ∷ rest)
unfolding weight
weight_used v rest used = ground arith

-- What a round moves.
abbrev round_size : ℕ → Iovec → ℕ
round_size n v = if ltb n v.len then n else v.len

weight_some :
    (n : ℕ) (v : Iovec) (rest : List Iovec) → (round_size n v == 0) ≡ false → 1 < weight (v ∷ rest)
unfolding weight
weight_some n v rest e = ground arith

-- Behind a round nothing is left to move, or less is left of the regions.
weight_moved :
    (fuel n : ℕ) (v : Iovec) (rest : List Iovec)
    → weight (v ∷ rest) < suc fuel
    → (round_size n v == 0) ≡ false
    → (n - round_size n v ≡ 0)
      ⊎ (weight (record v { base = v.base + round_size n v; len = v.len - round_size n v } ∷ rest)
          < fuel)
unfolding weight
weight_moved fuel n v rest w e = elim (Bool-cases (ltb n v.len)) [
  | inl l ↦ rw l (inl (omega arith))
  | inr l ↦ rw l (inr (ground arith))
]

module _ (user : UserCopy) where
  -- The loop ends where the rounds that it may take exceed those that the regions need.
  abbrev Enough : (fuel n : ℕ) → Uio → Type 0
  Enough fuel n s = (0 < fuel) × ((n ≡ 0) ⊎ (weight s.iov < fuel))

  abbrev Goal : (ptr : Memory) → (at n : ℕ) → Uio → Outcome Memory × Uio → Type 0
  Goal ptr at n s r = Ends (Done ptr at n s) (Faulted s) r

  module _ (fuel : ℕ)
      (next : (ptr : Memory) (at n : ℕ) (s : Uio)
        → HasRoom n s
        → Enough fuel n s
        → Goal ptr at n s (uiomove_loop user fuel ptr at n s)) where
    region_next :
        (ptr : Memory) (at n : ℕ) (rest : List Iovec) (s : Uio)
        → HasRoom n (record s { iov = rest })
        → n ≢ 0
        → weight rest < fuel
        → Ends
            (Done ptr at n (record s { iov = rest }))
            (Faulted s)
            (next_region user (uiomove_loop user fuel) ptr at n rest s)
    unfolding next_region total
    region_next ptr at n [] s h some_ w = absurd (omega (arith, h.regions))
    region_next ptr at n (v ∷ rest) s h some_ w =
        next ptr at n (record s { iov = v ∷ rest }) h (omega arith, inr w)

    round-Ends :
        (ptr : Memory) (at n : ℕ) (l : List Iovec) (s : Uio)
        → s.iov ≡ l
        → HasRoom n s
        → n ≢ 0
        → weight l < suc fuel
        → Goal ptr at n s (uiomove_round user (uiomove_loop user fuel) ptr at n l s)
    unfolding uiomove_round total
    round-Ends ptr at n [] s regions h some_ w = absurd (omega (arith, h.regions, ap total regions))
    round-Ends ptr at n (v ∷ rest) s regions h some_ w =
        let size = round_size n v in
        elim (Bool-cases (size == 0)) [
          | inl e ↦
              let used : v.len ≡ 0 = ground arith in
              let w' : weight rest < fuel = omega (arith, weight_used v rest used) in
              rw e (
                Ends.mono
                  (region_next ptr at n rest s
                    (record {
                      asked = h.asked;
                      regions = rw (← total_skip v rest s regions used) h.regions;
                      small = h.small;
                    })
                    some_ w')
                  (λ ptr' s' dn. Done-skip v rest s regions used ptr ptr' at n s' dn) (λ e s' f. f))
          | inr e ↦
              let le : size ≤ n = ground arith in
              let part : size ≤ v.len = ground arith in
              rw e (
                Ends.bind
                  (moved_dir user ptr at size v rest s regions (ground arith) part
                    (omega (arith, h.asked)) h.small s.rw)
                  (λ ptr1 t (x, a).
                    Ends.mono
                      (next ptr1 (at + size) (n - size) (advance user v rest size t)
                        (record {
                          asked = omega (arith, a.resid, h.asked);
                          regions = omega (arith, a.total_lem, h.regions);
                          small = omega (arith, a.resid, h.small);
                        })
                        (omega (arith, w, weight_some n v rest e), weight_moved fuel n v rest w e))
                      (λ ptr2 u dn. Done-trans size n ptr ptr1 ptr2 at s _ u le h.regions (x, a) dn)
                      (λ e u f. Faulted-Advanced size s _ e u a f))
                  (λ e s' f. f))
        ]

  uiomove_loop-Ends :
      (fuel : ℕ) (ptr : Memory) (at n : ℕ) (s : Uio)
      → HasRoom n s
      → Enough fuel n s
      → Goal ptr at n s (uiomove_loop user fuel ptr at n s)
  unfolding uiomove_loop
  uiomove_loop-Ends zero ptr at n s h (pos, en) = absurd (omega arith)
  uiomove_loop-Ends (suc fuel) ptr at n s h (pos, en) =
      elim (Bool-cases ((n == 0) || (s.resid == 0))) [
        | inl e ↦ rw e (returns (nothing_to_do ptr at n s (ground (arith, h.asked))))
        | inr e ↦
            let some_ : n ≢ 0 = ground arith in
            let w : weight s.iov < suc fuel = elim en [ inl z ↦ absurd (some_ z) | inr w ↦ w ] in
            rw e (round-Ends fuel (uiomove_loop-Ends fuel) ptr at n s.iov s refl h some_ w)
      ]

  -- Where `n` bytes are asked for and the uio's regions have them, uiomove does not run out of
  -- regions. If it returns 0 it has moved `n` bytes: in a read it has stored the kernel's bytes one
  -- after the other at the addresses of the regions, in a write it has filled the kernel's buffer
  -- from there; the offset and the residue count them, and the regions that are left begin behind
  -- them. It returns an error only for user memory, and then EFAULT.
  pub uiomove-Ends :
      (ptr : Memory) (at n : ℕ) (s : Uio)
      → HasRoom n s
      → Ends (Done ptr at n s) (Faulted s) (uiomove user ptr at n s)
  unfolding uiomove
  uiomove-Ends ptr at n s h =
      uiomove_loop-Ends (2 * length s.iov + 1) ptr at n s h
        (omega arith, inr (omega (arith, weight-le s.iov)))
