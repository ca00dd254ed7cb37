-- ===== src/Sfs/Io.antt =====
-- Block I/O of kern/fs/sfs/sfs_io.c, and how it uses the device.
use project_os.Prelude.{
  Bool, false, ◌⊎◌, inl, inr, ◌<◌, ℕ, zero, suc, ◌≡◌, ◌≢◌, refl, subst, sym, true, Option, none,
  some, List, [], ◌∷◌, arith, ◌==◌, if◌then◌else◌,
}
use project_os.Outcome.{Errno, Outcome, ok, err, panic, einval, eio}
use project_os.Outcome.Exec.{Exec, kassert, kassert_pass, ◌>>◌}
use project_os.Outcome.Ends
use project_os.Outcome.Ends.{Ends, returns, fails}
use project_os.Sfs.{Answer, Block, Fs}

abbrev pub with_answers : Fs → List Answer → Fs
with_answers fs rest = record fs { answers = rest }

-- A uio for one block, as sfs_rwblock and the device see it: its direction, the bytes that are left
-- of it, what a transfer does, and what the caller has got without one.
pub record BlockUio (A : Type 0) : Type 0 where
  pub is_write : Bool
  pub resid : ℕ
  pub transfer : Fs → A × Fs
  pub idle : A

-- What the device will say to the next request.
abbrev pub reply : Bool → Answer → Option Errno
reply false (r, w) = r
reply true (r, w) = w

module _ {A : Type 0} where
  -- lhd_io uses up the uio of a write before it knows how the write ends, that of a read only when
  -- the block has been read.
  abbrev pub used : Bool → BlockUio A → BlockUio A
  used false u = u
  used true u = record u { resid = 0 }

  replied : Option Errno → BlockUio A → Fs → Outcome A × (BlockUio A × Fs)
  replied none u fs = let (a, fs') = u.transfer fs in (ok a, (record u { resid = 0 }, fs'))
  replied (some e) u fs = (err e, (used u.is_write u, fs))

  next_reply : List Answer → BlockUio A → Fs → Outcome A × (BlockUio A × Fs)
  unfolding replied
  next_reply [] u fs = replied none u fs
  next_reply (a ∷ rest) u fs = replied (reply u.is_write a) u (with_answers fs rest)

  -- DEVOP_IO, by its implementation lhd_io: a uio with nothing left asks for no block.
  devop_io : BlockUio A → Fs → Outcome A × (BlockUio A × Fs)
  unfolding next_reply
  devop_io u fs = if u.resid == 0 then (ok u.idle, (u, fs)) else next_reply fs.answers u fs

  -- What sfs_rwblock makes of a result: EINVAL is a panic, EIO leads to `again`.
  settle : Outcome A → Exec Fs A → Exec Fs A
  settle (err einval) again fs = (panic, fs)
  settle (err eio) again fs = again fs
  settle r again fs = (r, fs)

  give_up : Exec Fs A
  give_up fs = (err eio, fs)

  -- The loop behind `retry`, with the retries that are left. Each asks with the uio as it is then.
  rwblock_tries : ℕ → BlockUio A → Exec Fs A
  unfolding devop_io settle give_up
  rwblock_tries zero u fs = let (r, (u', fs')) = devop_io u fs in settle r give_up fs'
  rwblock_tries (suc n) u fs =
      let (r, (u', fs')) = devop_io u fs in settle r (rwblock_tries n u') fs'

  unfoldable pub sfs_rwblock : BlockUio A → Exec Fs A
  unfolding rwblock_tries
  sfs_rwblock u fs = (kassert fs.lock.held >> rwblock_tries 10 u) fs

-- The uios that the two operations make by SFSUIO.
abbrev pub reading : ℕ → BlockUio Block
reading block = record {
  is_write = false;
  resid = 512;
  transfer = λ fs. (fs.disk block, fs);
  idle = λ k. 0;
}

abbrev pub put_block : (ℕ → Block) → ℕ → Block → ℕ → Block
put_block disk block content k = if block == k then content else disk k

abbrev pub writing : ℕ → Block → BlockUio (Unit {0})
writing block content = record {
  is_write = true;
  resid = 512;
  transfer = λ fs. (tt, record fs { disk = put_block fs.disk block content });
  idle = tt;
}

unfoldable pub sfs_readblock : ℕ → Exec Fs Block
unfolding sfs_rwblock
sfs_readblock block = sfs_rwblock (reading block)

unfoldable pub sfs_writeblock : ℕ → Block → Exec Fs (Unit {0})
unfolding sfs_rwblock
sfs_writeblock block content = sfs_rwblock (writing block content)

-- No answer to come is EINVAL, which the device gives to a request that is out of range.
abbrev pub IsInRange : List Answer → Type 0
IsInRange [] = Unit
IsInRange (a ∷ rest) = (a.0 ≢ some einval) × (a.1 ≢ some einval) × IsInRange rest

-- And no write meets an I/O error, so that none is lost.
abbrev pub IsPolite : List Answer → Type 0
IsPolite [] = Unit
IsPolite (a ∷ rest) = (a.0 ≢ some einval) × (a.1 ≢ some einval) × (a.1 ≢ some eio) × IsPolite rest

-- The uio's one transfer took place, after the device had used up some of its answers; `Q` is what
-- is known of those to come.
abbrev pub Transferred : (List Answer → Type 0) → {A : Type 0} → BlockUio A → Fs → A → Fs → Type 0
Transferred Q u fs a fs' =
    (rest : List Answer) × Q rest
    × (a ≡ (u.transfer (with_answers fs rest)).0)
    × (fs' ≡ (u.transfer (with_answers fs rest)).1)

-- No transfer took place.
abbrev pub Untouched : (List Answer → Type 0) → Fs → Errno → Fs → Type 0
Untouched Q fs e fs' = (rest : List Answer) × Q rest × (fs' ≡ with_answers fs rest)

-- The device answered a write with an I/O error: nothing has been written, and no one is told.
abbrev pub Lost : (List Answer → Type 0) → {A : Type 0} → BlockUio A → Fs → A → Fs → Type 0
Lost Q u fs a fs' =
    (r : Option Errno) × (rest : List Answer) × Q rest
    × (u.is_write ≡ true)
    × (fs.answers ≡ (r, some eio) ∷ rest)
    × (a ≡ u.idle)
    × (fs' ≡ with_answers fs rest)

abbrev pub Moved : {A : Type 0} → BlockUio A → Fs → A → Fs → Type 0
Moved u = Transferred IsPolite u

abbrev pub Unmoved : {A : Type 0} → BlockUio A → Fs → Errno → Fs → Type 0
Unmoved u = Untouched IsPolite

module _ {A : Type 0} (Q : List Answer → Type 0)
    (next : (a : Answer) (rest : List Answer) → Q (a ∷ rest) → Q rest)
    (inside : (a : Answer) (rest : List Answer)
      → Q (a ∷ rest)
      → (a.0 ≢ some einval) × (a.1 ≢ some einval))
    (none_ : Q []) (resid : ℕ) (full : 0 < resid) (transfer : Fs → A × Fs) (idle : A) where
  abbrev asked : Bool → BlockUio A
  asked w = record { is_write = w; resid = resid; transfer = transfer; idle = idle }

  left : (resid == 0) ≡ false
  left = ground arith

  read-Ends :
      (n : ℕ) (fs : Fs) (l : List Answer)
      → Q l
      → Ends
          (Transferred Q (asked false) fs)
          (Untouched Q fs)
          (rwblock_tries n (asked false) (with_answers fs l))
  unfolding rwblock_tries
  read-Ends zero fs [] p = rw left (returns ([], none_, refl, refl))
  read-Ends zero fs ((none, w) ∷ rest) p = rw left (returns (rest, next _ rest p, refl, refl))
  read-Ends zero fs ((some einval, w) ∷ rest) p = absurd ((inside _ rest p).0 refl)
  read-Ends zero fs ((some eio, w) ∷ rest) p = rw left (fails (rest, next _ rest p, refl))
  read-Ends zero fs ((some e, w) ∷ rest) p = rw left (fails (rest, next _ rest p, refl))
  read-Ends (suc n) fs [] p = rw left (returns ([], none_, refl, refl))
  read-Ends (suc n) fs ((none, w) ∷ rest) p = rw left (returns (rest, next _ rest p, refl, refl))
  read-Ends (suc n) fs ((some einval, w) ∷ rest) p = absurd ((inside _ rest p).0 refl)
  read-Ends (suc n) fs ((some eio, w) ∷ rest) p = rw left (read-Ends n fs rest (next _ rest p))
  read-Ends (suc n) fs ((some e, w) ∷ rest) p = rw left (fails (rest, next _ rest p, refl))

  -- A write asks the device once: after an error its uio is used up.
  write-Ends :
      (n : ℕ) (fs : Fs) (l : List Answer)
      → Q l
      → Ends
          (λ a fs'.
            Transferred Q (asked true) fs a fs' ⊎ Lost Q (asked true) (with_answers fs l) a fs')
          (Untouched Q fs)
          (rwblock_tries (suc n) (asked true) (with_answers fs l))
  unfolding rwblock_tries
  write-Ends n fs [] p = rw left (returns (inl ([], none_, refl, refl)))
  write-Ends n fs ((r, none) ∷ rest) p = rw left (returns (inl (rest, next _ rest p, refl, refl)))
  write-Ends n fs ((r, some einval) ∷ rest) p = absurd ((inside _ rest p).1 refl)
  write-Ends zero fs ((r, some eio) ∷ rest) p =
      rw left (returns (inr (r, rest, next _ rest p, refl, refl, refl, refl)))
  write-Ends (suc n) fs ((r, some eio) ∷ rest) p =
      rw left (returns (inr (r, rest, next _ rest p, refl, refl, refl, refl)))
  write-Ends n fs ((r, some e) ∷ rest) p = rw left (fails (rest, next _ rest p, refl))

module _ {A : Type 0} where
  tries-Ends :
      (Q : List Answer → Type 0)
      → ((a : Answer) (rest : List Answer) → Q (a ∷ rest) → Q rest)
      → ((a : Answer) (rest : List Answer)
          → Q (a ∷ rest)
          → (a.0 ≢ some einval) × (a.1 ≢ some einval))
      → Q []
      → (w : Bool) (u : BlockUio A) (fs : Fs) → u.is_write ≡ w
      → 0 < u.resid
      → Q fs.answers
      → Ends
          (λ a fs'. Transferred Q u fs a fs' ⊎ Lost Q u fs a fs')
          (Untouched Q fs)
          (rwblock_tries 10 u fs)
  tries-Ends Q next inside none_ false u fs e full q =
      subst
        (λ w.
          Ends
            (λ a fs'.
              Transferred Q (record u { is_write = w }) fs a fs'
              ⊎ Lost Q (record u { is_write = w }) fs a fs')
            (Untouched Q fs) (rwblock_tries 10 (record u { is_write = w }) fs))
        (sym e)
        (Ends.mono (read-Ends Q next inside none_ u.resid full u.transfer u.idle 10 fs fs.answers q)
          (λ a s t. inl t) (λ e s f. f))
  tries-Ends Q next inside none_ true u fs e full q =
      subst
        (λ w.
          Ends
            (λ a fs'.
              Transferred Q (record u { is_write = w }) fs a fs'
              ⊎ Lost Q (record u { is_write = w }) fs a fs')
            (Untouched Q fs) (rwblock_tries 10 (record u { is_write = w }) fs))
        (sym e) (write-Ends Q next inside none_ u.resid full u.transfer u.idle 9 fs fs.answers q)

  -- With the big lock held, for a uio that has bytes left and a device that never answers EINVAL,
  -- sfs_rwblock does not panic. If it returns 0, the transfer took place once, or it was a write
  -- that the device answered with an I/O error first, and then nothing has been written: the retry
  -- finds the uio used up. If it returns an error, no transfer took place.
  pub sfs_rwblock-Ends :
      (u : BlockUio A) (fs : Fs)
      → fs.lock.held ≡ true
      → 0 < u.resid
      → IsInRange fs.answers
      → Ends
          (λ a fs'. Transferred IsInRange u fs a fs' ⊎ Lost IsInRange u fs a fs')
          (Untouched IsInRange fs)
          (sfs_rwblock u fs)
  unfolding sfs_rwblock
  sfs_rwblock-Ends u fs held full inside = rw (kassert_pass _ (rwblock_tries 10 u) fs held) (
      tries-Ends IsInRange (λ a rest q. q.2) (λ a rest q. (q.0, q.1)) tt u.is_write u fs refl full
        inside)

  IsPolite-Lost :
      (u : BlockUio A) (fs : Fs) (a : A) (fs' : Fs)
      → IsPolite fs.answers
      → Lost IsPolite u fs a fs'
      → ⊥
  IsPolite-Lost u fs a fs' polite (r, rest, _, _, e, _, _) = (subst IsPolite e polite).2 refl

  -- Where no write meets an I/O error, what returns 0 has made its transfer.
  pub sfs_rwblock-Moved :
      (u : BlockUio A) (fs : Fs)
      → fs.lock.held ≡ true
      → 0 < u.resid
      → IsPolite fs.answers
      → Ends (Moved u fs) (Unmoved u fs) (sfs_rwblock u fs)
  unfolding sfs_rwblock
  sfs_rwblock-Moved u fs held full polite = rw (kassert_pass _ (rwblock_tries 10 u) fs held) (
      Ends.mono
        (tries-Ends IsPolite (λ a rest q. q.3) (λ a rest q. (q.0, q.1)) tt u.is_write u fs refl full
          polite)
        (λ a s m. elim m [ inl t ↦ t | inr l ↦ absurd (IsPolite-Lost u fs a s polite l) ])
        (λ e s f. f))

module _ (block : ℕ) (fs : Fs) (held : fs.lock.held ≡ true) (polite : IsPolite fs.answers) where
  pub sfs_readblock-Ends :
      Ends (Moved (reading block) fs) (Unmoved (reading block) fs) (sfs_readblock block fs)
  unfolding sfs_readblock
  sfs_readblock-Ends = sfs_rwblock-Moved (reading block) fs held (omega arith) polite

module _ (block : ℕ) (content : Block) (fs : Fs) (held : fs.lock.held ≡ true)
    (polite : IsPolite fs.answers) where
  pub sfs_writeblock-Ends :
      Ends
        (Moved (writing block content) fs)
        (Unmoved (writing block content) fs)
        (sfs_writeblock block content fs)
  unfolding sfs_writeblock
  sfs_writeblock-Ends = sfs_rwblock-Moved (writing block content) fs held (omega arith) polite
