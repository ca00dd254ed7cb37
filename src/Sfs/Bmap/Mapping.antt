-- ===== src/Sfs/Bmap/Mapping.antt =====
-- What sfs_bmap of kern/fs/sfs/sfs_bmap.c promises of the block map of a file.
use project_os.Prelude.{
  ℕ, ◌<◌, ◌≡◌, ◌≢◌, refl, Bool, true, false, ◌&&◌, arith, leb, ◌==◌, if◌then◌else◌, get_or, List,
  Bool-cases, inl, inr, sym, ap, and_parts,
}
use project_os.Outcome.{Errno, Outcome, ok}
use project_os.Outcome.Ends
use project_os.Outcome.Ends.{Ends, returns, fails}
use project_os.Bitmap.{bitmap_isset}
use project_os.Sfs.{Answer, File, Fs, ndirect}
use project_os.Sfs.Block.{zeros}
use project_os.Sfs.Io.{with_answers, IsPolite}
use project_os.Sfs.Balloc.{NewBlock, Unchanged, sfs_balloc-Ends, sfs_bused_lem}
use project_os.Sfs.Bmap.{with_direct, hand_back, bmap_direct}
use project_os.Sfs.Bmap.View.{
  entry, max_blocks, InUse, IsFile, Extends, Extends-IsFile, new_ne_zero, new-InUse,
}
use project_os.Sfs.Bmap.Steps.{
  with_fs, IsFile-answers, Unchanged-IsFile, entry-unchanged, direct-Extends, contents_kept,
  new_blank,
}

-- sfs_bmap hands back block `b` for position `k`.
pub record Mapped (s : File) (k : ℕ) (doalloc : Bool) (b : ℕ) (s' : File) : Type 0 where
  pub file : IsFile s'
  -- the map has `b` at `k`, and is otherwise as before
  pub entries : (j : ℕ) → j < max_blocks → entry s' j ≡ (if k == j then b else entry s j)
  pub kept : entry s k ≢ 0 → b ≡ entry s k
  -- a block that was not there before was free, and holds zeros
  pub free : entry s k ≡ 0 → b ≢ 0 → bitmap_isset s.freemap b ≡ false
  pub blank : entry s k ≡ 0 → b ≢ 0 → s'.disk b ≡ zeros
  pub allocates : doalloc ≡ true → b ≢ 0
  -- without `doalloc` nothing changes
  pub reads :
      doalloc ≡ false
      → (b ≡ entry s k) × (rest : List Answer) × (s' ≡ with_fs s (with_answers s.fs rest))
  -- the blocks in use keep their contents, but for the indirect block
  pub contents : (c : ℕ) → bitmap_isset s.freemap c ≡ true → c ≢ s.indirect → s'.disk c ≡ s.disk c
  pub size : s'.size ≡ s.size
  pub kind : s'.kind ≡ s.kind
  pub nblocks : s'.nblocks ≡ s.nblocks
  pub lock : s'.lock ≡ s.lock

-- sfs_bmap returns an error.
pub record Failed (s : File) (s' : File) : Type 0 where
  pub file : IsFile s'
  pub entries : (j : ℕ) → j < max_blocks → entry s' j ≡ entry s j
  pub contents : (c : ℕ) → bitmap_isset s.freemap c ≡ true → c ≢ s.indirect → s'.disk c ≡ s.disk c
  pub size : s'.size ≡ s.size
  pub kind : s'.kind ≡ s.kind
  pub nblocks : s'.nblocks ≡ s.nblocks
  pub lock : s'.lock ≡ s.lock

pub hand_back_lem : (b : ℕ) (s : File) → InUse s.fs b → hand_back b s ≡ (ok b, s)
unfolding hand_back
hand_back_lem b s u = elim (Bool-cases (b == 0)) [
  | inl e ↦ let e' : b ≡ 0 = ground arith in rw (e', hand_back)
  | inr e ↦
      let inside : leb s.nblocks b ≡ false = ground (arith, u.inside) in
      let marked : bitmap_isset s.freemap b ≡ true = ground (arith, u.marked) in
      rw (e, sfs_bused_lem s.fs b, inside, marked)
]

pub on_fs-Ends :
    {A : Type 0} {P : A → Fs → Type 0} {E : Errno → Fs → Type 0} {r : Outcome A × Fs} (s : File)
    → Ends P E r
    → Ends
        (λ a s'. (fs' : Fs) × P a fs' × (s' ≡ with_fs s fs'))
        (λ e s'. (fs' : Fs) × E e fs' × (s' ≡ with_fs s fs'))
        (r.0, with_fs s r.1)
on_fs-Ends s (returns {s = fs'} p) = returns (fs', p, refl)
on_fs-Ends s (fails {s = fs'} p) = fails (fs', p, refl)

-- The block was there, or was not asked for.
pub Mapped-answers :
    (s : File) (k : ℕ) (doalloc : Bool) (rest : List Answer)
    → IsFile s
    → IsPolite rest
    → (doalloc ≡ true → entry s k ≢ 0)
    → Mapped s k doalloc (entry s k) (with_fs s (with_answers s.fs rest))
unfolding entry
Mapped-answers s k doalloc rest file polite present = record {
  file = IsFile-answers s rest file polite;
  entries = λ j h. elim (Bool-cases (k == j)) [
    | inl e ↦ let e' : j ≡ k = ground arith in rw e (ap (entry s) e')
    | inr e ↦ rw e
  ];
  kept = λ h. refl;
  free = λ h h'. absurd (h' h);
  blank = λ h h'. absurd (h' h);
  allocates = present;
  reads = λ h. (refl, rest, refl);
  contents = λ c u h. refl;
  size = refl;
  kind = refl;
  nblocks = refl;
  lock = refl;
}

module _ (s : File) (k b : ℕ) (s' : File) (file : IsFile s) (ext : Extends s k b s')
    (missing : entry s k ≡ 0) where
  -- The block is new.
  pub Mapped-new :
      s'.disk b ≡ zeros
      → ((c : ℕ) → bitmap_isset s.freemap c ≡ true → c ≢ s.indirect → s'.disk c ≡ s.disk c)
      → s'.size ≡ s.size
      → s'.kind ≡ s.kind
      → s'.nblocks ≡ s.nblocks
      → s'.lock ≡ s.lock
      → Mapped s k true b s'
  Mapped-new blank contents size kind nblocks lock = record {
    file = Extends-IsFile s s' k b file ext;
    entries = ext.entries;
    kept = λ h. absurd (h missing);
    free = λ _ _. ext.free;
    blank = λ _ _. blank;
    allocates = λ _. new_ne_zero s s' k b file ext;
    reads = λ h. cc;
    contents = contents;
    size = size;
    kind = kind;
    nblocks = nblocks;
    lock = lock;
  }

pub Failed-Unchanged :
    (s : File) (fs' : Fs) → IsFile s → Unchanged s.fs fs' → Failed s (with_fs s fs')
Failed-Unchanged s fs' file un = record {
  file = Unchanged-IsFile s fs' file un;
  entries = λ j h. entry-unchanged s fs' file un j;
  contents = λ c u h. un.disk c;
  size = refl;
  kind = refl;
  nblocks = un.nblocks;
  lock = un.lock;
}

-- The block that is there already is handed back, or 0.
pub hand_back_old :
    (s : File) (k : ℕ) (doalloc : Bool) (block : ℕ)
    → IsFile s
    → k < max_blocks
    → block ≡ entry s k
    → ((block == 0) && doalloc) ≡ false
    → Ends (Mapped s k doalloc) (λ e s'. Failed s s') (hand_back block s)
hand_back_old s k doalloc block file h e stay =
    let present : doalloc ≡ true → entry s k ≢ 0 = λ d. ground arith in
    rw (e, hand_back_lem (entry s k) s (file.blocks k h))
      (returns (Mapped-answers s k doalloc s.answers file file.sound.polite present))

module _ (s : File) (k : ℕ) (doalloc : Bool) (file : IsFile s) (direct : k < ndirect) where
  direct_new :
      entry s k ≡ 0
      → (b : ℕ) (fs' : Fs) → NewBlock s.fs b fs'
      → Ends (Mapped s k true) (λ e s'. Failed s s') (hand_back b (with_direct (with_fs s fs') k b))
  direct_new missing b fs' new =
      let s' = with_direct (with_fs s fs') k b in
      let ext = direct-Extends s b fs' file new k direct in
      rw (hand_back_lem b s' (new-InUse s s' k b file ext)) (
        returns (
          Mapped-new s k b s' file ext missing (new_blank s b fs' file new)
            (λ c u _. contents_kept s b fs' file new c u) refl refl new.nblocks new.lock))

  direct_entry : entry s k ≡ get_or s.direct k 0
  unfolding entry
  direct_entry = ground arith

  pub bmap_direct-Ends : Ends (Mapped s k doalloc) (λ e s'. Failed s s') (bmap_direct k doalloc s)
  unfolding bmap_direct
  bmap_direct-Ends = elim (Bool-cases ((get_or s.direct k 0 == 0) && doalloc)) [
    | inl go ↦
        let parts = and_parts (get_or s.direct k 0 == 0) doalloc go in
        let missing : entry s k ≡ 0 = ground (arith, direct_entry) in
        rw (go, parts.1)
          (Ends.bind (on_fs-Ends s (sfs_balloc-Ends s.fs file.sound))
            (λ b s1 (fs', new, e). rw e (direct_new missing b fs' new))
            (λ e s1 (fs', un, e'). rw e' (Failed-Unchanged s fs' file un)))
    | inr stay ↦
        rw stay (
          hand_back_old s k doalloc (get_or s.direct k 0) file (omega arith) (sym direct_entry)
            stay)
  ]
