-- ===== src/Sfs/FileIo/Correct.antt =====
-- The parts of sfs_io of kern/fs/sfs/sfs_io.c: each moves the bytes that it is asked for, or returns an error.
use project_os.Prelude.{
  ℕ, zero, suc, ◌+◌, ◌-◌, ◌*◌, ◌/◌, ◌%◌, ◌≤◌, ◌<◌, ◌≡◌, ◌≢◌, ◌⊎◌, refl, sym, ◌∙◌, subst, true, ltb,
  ◌==◌, if◌then◌else◌, Bool-cases, inl, inr, arith,
}
use project_os.Outcome.{Outcome}
use project_os.Outcome.Exec.{Exec, continue, kassert_pass, ◌>>◌}
use project_os.Outcome.Ends
use project_os.Outcome.Ends.{Ends, returns, fails}
use project_os.Uio.{UserCopy}
use project_os.Sfs.{blocksize}
use project_os.Sfs.FileIo.{Request, sfs_partialio, io_blocks, io_lead, io_tail, io_rest}
use project_os.Sfs.FileIo.Step.{
  Did, Quit, Ready, Ready-part, Ready-rest, Did-rest, Quit-rest, Did-none,
}
use project_os.Sfs.FileIo.Partial.{sfs_partialio-Ends}
use project_os.Sfs.FileIo.Whole.{sfs_blockio-Ends}

-- A step of `n` bytes ends with all of them moved, or with an error.
abbrev pub Steps : ℕ → Request → Outcome (Unit {0}) × Request → Type 0
Steps n s r = Ends (λ _ s'. Did n s s') (λ e s'. Quit n s s') r

Quit-more : (k n : ℕ) (s t : Request) → k ≤ n → Quit k s t → Quit n s t
Quit-more k n s t le q = record {
  keeps = q.keeps;
  outside = λ o h out. q.outside o h (ground arith);
}

-- One step and then the rest.
Steps-then :
    (k n : ℕ) (s : Request) {r : Outcome (Unit {0}) × Request} {f : Exec Request (Unit {0})}
    → Ready n s
    → k ≤ n
    → Steps k s r
    → ((t : Request) → Did k s t → Ready (n - k) t → Steps (n - k) t (f t))
    → Steps n s (continue r.0 (λ _. f) r.1)
Steps-then k n s ready le first next =
    Ends.bind first
      (λ _ t a.
        Ends.mono (next t a (Ready-rest k n s t ready le a))
          (λ _ u b. Did-rest k n s t u ready le a b) (λ e u q. Quit-rest k n s t u ready le a q))
      (λ e t q. Quit-more k n s t le q)

-- Behind the leading partial block nothing is left, or the offset is that of a block.
aligned_lem :
    (offset resid : ℕ)
    → (lead : ℕ)
    → lead ≡ (
        if offset % blocksize == 0
        then 0
        else if ltb resid (blocksize - offset % blocksize)
        then resid
        else blocksize - offset % blocksize)
    → (resid - lead ≡ 0) ⊎ ((offset + lead) % blocksize ≡ 0)
aligned_lem offset resid lead e = elim (Bool-cases (offset % blocksize == 0)) [
  | inl z ↦ inr (ground arith)
  | inr z ↦ elim (Bool-cases (ltb resid (blocksize - offset % blocksize))) [
    | inl l ↦ inl (ground arith)
    | inr l ↦ inr (ground arith)
  ]
]

module _ (user : UserCopy) where
  -- `n` bytes that lie in one block.
  partial-Steps :
      (n : ℕ) (s : Request)
      → Ready n s
      → 0 < n
      → s.uio.offset % blocksize + n ≤ blocksize
      → Steps n s (sfs_partialio user (s.uio.offset % blocksize) n s)
  partial-Steps n s ready some_ within =
      sfs_partialio-Ends user (s.uio.offset % blocksize) n (s.uio.offset / blocksize) s (record {
        ready = ready;
        begins = omega arith;
        within = within;
        low = omega (arith, ready.fits);
        place = omega arith;
      })

  blocks-Steps :
      (m : ℕ) (s : Request)
      → Ready (blocksize * m) s
      → s.uio.offset % blocksize ≡ 0
      → Steps (blocksize * m) s (io_blocks user m s)
  unfolding io_blocks
  blocks-Steps zero s ready even = returns (Did-none s ready.file)
  blocks-Steps (suc m) s ready even =
      let rest : blocksize * suc m - blocksize ≡ blocksize * m = omega arith in
      Steps-then blocksize (blocksize * suc m) s ready (omega arith)
        (sfs_blockio-Ends user (s.uio.offset / blocksize) s (record {
          ready = Ready-part blocksize (blocksize * suc m) s (omega arith) ready;
          begins = omega arith;
          within = omega arith;
          low = omega (arith, ready.fits);
          place = omega arith;
        }))
        (λ t a ready'.
          rw rest
            (blocks-Steps m t (subst (λ x. Ready x t) rest ready') (omega (arith, a.adv.offset))))

  tail-Steps :
      (s : Request)
      → Ready s.uio.resid s
      → s.uio.offset % blocksize ≡ 0
      → s.uio.resid < blocksize
      → Steps s.uio.resid s (io_tail user s)
  unfolding io_tail
  tail-Steps s ready even short =
      let little : ltb s.uio.resid blocksize ≡ true = ground arith in
      rw (kassert_pass _ _ s little) (elim (Bool-cases (ltb 0 s.uio.resid)) [
        | inl e ↦ rw e (
            subst (λ x. Steps s.uio.resid s (sfs_partialio user x s.uio.resid s)) even
              (partial-Steps s.uio.resid s ready (ground arith) (omega (arith, even))))
        | inr e ↦
            let none_ : s.uio.resid ≡ 0 = ground arith in
            rw e (returns (subst (λ x. Did x s s) (sym none_) (Did-none s ready.file)))
      ])

  rest-Steps :
      (s : Request)
      → Ready s.uio.resid s
      → (s.uio.resid ≡ 0) ⊎ (s.uio.offset % blocksize ≡ 0)
      → Steps s.uio.resid s (io_rest user s)
  unfolding io_rest
  rest-Steps s ready even = elim (Bool-cases (s.uio.resid == 0)) [
    | inl e ↦
        let none_ : s.uio.resid ≡ 0 = ground arith in
        rw e (returns (subst (λ x. Did x s s) (sym none_) (Did-none s ready.file)))
    | inr e ↦
        let even' : s.uio.offset % blocksize ≡ 0 = ground arith in
        let test : (s.uio.offset % blocksize == 0) ≡ true = ground arith in
        let q = blocksize * (s.uio.resid / blocksize) in
        rw (e, kassert_pass _ _ s test)
          (Steps-then q s.uio.resid s ready (omega arith)
            (blocks-Steps (s.uio.resid / blocksize) s
              (Ready-part q s.uio.resid s (omega arith) ready) even')
            (λ t a ready'.
              let left : t.uio.resid ≡ s.uio.resid - q = a.adv.resid in
              subst (λ x. Steps x t (io_tail user t)) left
                (tail-Steps t (subst (λ x. Ready x t) (sym left) ready')
                  (omega (arith, a.adv.offset)) (omega (arith, left)))))
  ]

  -- What the leading partial block moves.
  abbrev lead_len : Request → ℕ
  lead_len s =
      let len = blocksize - s.uio.offset % blocksize in
      if s.uio.offset % blocksize == 0 then 0 else if ltb s.uio.resid len then s.uio.resid else len

  lead-Steps :
      (s : Request) → Ready s.uio.resid s → s.uio.resid ≢ 0 → Steps (lead_len s) s (io_lead user s)
  unfolding io_lead
  lead-Steps s ready some_ = elim (Bool-cases (s.uio.offset % blocksize == 0)) [
    | inl e ↦ rw e (returns (Did-none s ready.file))
    | inr e ↦
        let len = blocksize - s.uio.offset % blocksize in
        let n = if ltb s.uio.resid len then s.uio.resid else len in
        rw e (
          partial-Steps n s (Ready-part n s.uio.resid s (ground arith) ready) (ground arith)
            (ground arith))
  ]

  -- The body moves all that the uio asks for.
  pub body-Steps :
      (s : Request)
      → Ready s.uio.resid s
      → s.uio.resid ≢ 0
      → Steps s.uio.resid s ((io_lead user >> io_rest user) s)
  body-Steps s ready some_ =
      Steps-then (lead_len s) s.uio.resid s ready (ground arith) (lead-Steps s ready some_)
        (λ t a ready'.
          let left : t.uio.resid ≡ s.uio.resid - lead_len s = a.adv.resid in
          subst (λ x. Steps x t (io_rest user t)) left
            (rest-Steps t (subst (λ x. Ready x t) (sym left) ready')
              (elim (aligned_lem s.uio.offset s.uio.resid (lead_len s) refl) [
                | inl z ↦ inl (left ∙ z)
                | inr z ↦ inr (rw a.adv.offset z)
              ])))
