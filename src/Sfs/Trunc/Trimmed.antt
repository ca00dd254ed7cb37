-- ===== src/Sfs/Trunc/Trimmed.antt =====
-- What the loops of sfs_itrunc (kern/fs/sfs/sfs_bmap.c) do to a block map `m` and the freemap: some
-- positions lose their blocks.
use project_os.Prelude.{
  ℕ, ◌-◌, ◌<◌, ◌≡◌, ◌≢◌, refl, Bool, true, false, ◌||◌, arith, ltb, ◌==◌, if◌then◌else◌, List,
  get_or, Bool-cases, inl, inr, ◌∙◌, sym, ap, subst,
}
use project_os.Bitmap.{bitmap_isset}
use project_os.Sfs.{Block, Fs, File, ndirect}
use project_os.Sfs.Block.{get_word}
use project_os.Sfs.Balloc.{IsSound, Freed}
use project_os.Sfs.Bmap.View.{max_blocks, InUse}

-- The fields of a file that name no blocks.
abbrev pub SameFields : File → File → Type 0
SameFields s s' = (s'.size ≡ s.size) × (s'.ino ≡ s.ino) × (s'.linkcount ≡ s.linkcount)

-- A block map with the direct blocks and the entries of the indirect block.
abbrev pub view : List ℕ → Block → ℕ → ℕ
view direct buf k = if ltb k ndirect then get_or direct k 0 else get_word buf (k - ndirect)

-- `IsFile`, for a block map that is being worked on.
pub record Holds (fs : Fs) (m : ℕ → ℕ) (table : ℕ) : Type 0 where
  pub sound : IsSound fs
  pub blocks : (k : ℕ) → k < max_blocks → InUse fs (m k)
  pub id_used : InUse fs table
  pub distinct : (j k : ℕ) → j < max_blocks → k < max_blocks → m j ≢ 0 → m j ≡ m k → j ≡ k
  pub apart : (k : ℕ) → k < max_blocks → m k ≢ 0 → m k ≢ table

-- The positions where `gone` holds have lost their blocks.
pub record Trimmed (fs : Fs) (m : ℕ → ℕ) (table : ℕ) (gone : ℕ → Bool) (fs' : Fs) (m' : ℕ → ℕ)
    : Type 0 where
  pub holds : Holds fs' m' table
  pub entries : (j : ℕ) → j < max_blocks → m' j ≡ (if gone j then 0 else m j)
  pub freed :
      (j : ℕ) → j < max_blocks → gone j ≡ true → m j ≢ 0 → bitmap_isset fs'.freemap (m j) ≡ false
  pub stays :
      (c : ℕ)
      → c ≢ 0
      → ((j : ℕ) → j < max_blocks → gone j ≡ true → m j ≢ c)
      → bitmap_isset fs'.freemap c ≡ bitmap_isset fs.freemap c
  pub disk : (c : ℕ) → fs'.disk c ≡ fs.disk c
  pub nblocks : fs'.nblocks ≡ fs.nblocks
  pub lock : fs'.lock ≡ fs.lock

module _ (fs : Fs) (m : ℕ → ℕ) (table : ℕ) (h : Holds fs m table) where
  pub Trimmed-refl :
      (gone : ℕ → Bool)
      → ((j : ℕ) → j < max_blocks → gone j ≡ true → m j ≡ 0)
      → Trimmed fs m table gone fs m
  Trimmed-refl gone empty = record {
    holds = h;
    entries = λ j p. ground (arith, empty j p);
    freed = λ j p g ne. absurd (ne (empty j p g));
    stays = λ c other away. refl;
    disk = λ c. refl;
    nblocks = refl;
    lock = refl;
  }

  module _ (k : ℕ) (low : k < max_blocks) (some_ : m k ≢ 0) (fs' : Fs) (fr : Freed fs (m k) fs')
      (m' : ℕ → ℕ) (here : (j : ℕ) → j < max_blocks → m' j ≡ (if k == j then 0 else m j)) where
    other_InUse : (c : ℕ) → c ≢ m k → InUse fs c → InUse fs' c
    other_InUse c ne u = record {
      inside = λ z. omega (arith, u.inside z, fr.nblocks);
      marked = λ z. ground (arith, fr.bits c, u.marked z);
    }

    zero_InUse : InUse fs' 0
    zero_InUse = record { inside = λ z. absurd (z refl); marked = λ z. absurd (z refl) }

    free-Holds : Holds fs' m' table
    free-Holds = record {
      sound = fr.sound;
      blocks = λ j p. rw (here j p) (elim (Bool-cases (k == j)) [
        | inl e ↦ rw e zero_InUse
        | inr e ↦
            rw e
              (other_InUse (m j) (λ z. ground (arith, h.distinct k j low p some_)) (h.blocks j p))
      ]);
      id_used = other_InUse table (λ z. h.apart k low some_ (sym z)) h.id_used;
      distinct = λ i j hi hj ne e. ground (arith, here i hi, here j hj, h.distinct i j hi hj);
      apart = λ j p ne. ground (arith, here j p, h.apart j p);
    }

    -- A position loses its block.
    pub Trimmed-free :
        (gone : ℕ → Bool)
        → ((j : ℕ) → j < max_blocks → gone j ≡ (k == j))
        → Trimmed fs m table gone fs' m'
    Trimmed-free gone only = record {
      holds = free-Holds;
      entries = λ j p. rw (only j p) (here j p);
      freed = λ j p g ne.
          let e : k ≡ j = ground (arith, only j p) in ground (arith, fr.bits (m j), ap m e);
      stays = λ c other away. ground (arith, fr.bits c, away k low, only k low);
      disk = fr.disk;
      nblocks = fr.nblocks;
      lock = fr.lock;
    }

  -- First some positions lose their blocks, then others.
  pub Trimmed-trans :
      {gone₁ gone₂ : ℕ → Bool} {fs₁ fs₂ : Fs} {m₁ m₂ : ℕ → ℕ} (gone : ℕ → Bool)
      → Trimmed fs m table gone₁ fs₁ m₁
      → Trimmed fs₁ m₁ table gone₂ fs₂ m₂
      → ((j : ℕ) → j < max_blocks → gone j ≡ (gone₁ j || gone₂ j))
      → Trimmed fs m table gone fs₂ m₂
  Trimmed-trans {gone₁} {gone₂} {fs₁} {fs₂} {m₁} {m₂} gone t u both = record {
    holds = u.holds;
    entries = λ j p. ground (arith, u.entries j p, t.entries j p, both j p);
    freed = λ j p g ne. elim (Bool-cases (gone₁ j)) [
      | inl g₁ ↦
          u.stays (m j) ne (λ i q g₂ e. ground (
            arith,
            t.entries i q,
            h.distinct j i p q ne,
            ap gone₁ (h.distinct j i p q ne (ground (arith, t.entries i q))),
          ))
          ∙ t.freed j p g₁ ne
      | inr g₁ ↦
          let same : m₁ j ≡ m j = ground (arith, t.entries j p) in
          subst (λ c. bitmap_isset fs₂.freemap c ≡ false) same
            (u.freed j p (ground (arith, both j p)) (λ e. ne (sym same ∙ e)))
    ];
    stays = λ c other away.
        u.stays c other (λ j p g e. ground (arith, t.entries j p, both j p, away j p))
        ∙ t.stays c other (λ j p g. away j p (ground (arith, both j p)));
    disk = λ c. u.disk c ∙ t.disk c;
    nblocks = u.nblocks ∙ t.nblocks;
    lock = u.lock ∙ t.lock;
  }
