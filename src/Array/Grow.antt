-- ===== src/Array/Grow.antt =====
-- The loop of array_preallocate, kern/lib/array.c.
use project_os.Prelude.{
  ℕ, zero, suc, ◌*◌, ◌^◌, ◌≤◌, ◌<◌, ◌≡◌, true, false, arith, Option, some, ltb, ◌==◌, Bool-cases,
  inl, inr,
}
use project_os.Array.{doubled, grow}

-- The loop ends with a capacity that is enough.
abbrev pub Grown : ℕ → Option ℕ → Type 0
Grown num r = (newmax : ℕ) × (r ≡ some newmax) × (num ≤ newmax) × (newmax < 2 ^ 30)

abbrev twice : ℕ → ℕ → ℕ
twice zero m = m
twice (suc n) m = twice n (m * 2)

stops :
    (n newmax num : ℕ) → ltb newmax num ≡ false → newmax < 2 ^ 30 → Grown num (grow n newmax num)
unfolding grow
stops zero newmax num enough low = (newmax, rw enough, ground arith, low)
stops (suc n) newmax num enough low = (newmax, rw enough, ground arith, low)

-- From a positive capacity, the loop doubles at most `n` times.
grow_doubling :
    (n newmax num : ℕ)
    → 0 < newmax
    → newmax < 2 ^ 30
    → num ≤ twice n newmax
    → num ≤ 2 ^ 29
    → Grown num (grow n newmax num)
unfolding grow
grow_doubling zero newmax num p low h small = stops zero newmax num (ground arith) low
grow_doubling (suc n) newmax num p low h small = elim (Bool-cases (ltb newmax num)) [
  | inr enough ↦ stops (suc n) newmax num enough low
  | inl short ↦
      let d : doubled newmax ≡ newmax * 2 = ground arith in
      rw (short, d) (grow_doubling n (newmax * 2) num (omega arith) (ground arith) h small)
]

-- Up to 2^29 elements, 32 rounds of the loop are enough, and the capacity stays below 2^30.
pub grow_enough : (newmax num : ℕ) → num ≤ 2 ^ 29 → newmax < num → Grown num (grow 32 newmax num)
unfolding grow
grow_enough newmax num small short = elim (Bool-cases (newmax == 0)) [
  | inr some_ ↦
      let p : 0 < newmax = ground arith in
      grow_doubling 32 newmax num p (omega arith) (omega arith) small
  | inl none_ ↦
      let t : ltb newmax num ≡ true = ground arith in
      let d : doubled newmax ≡ 4 = ground arith in
      rw (t, d) (grow_doubling 31 4 num (omega arith) (omega arith) (omega arith) small)
]
