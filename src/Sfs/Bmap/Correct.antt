-- ===== src/Sfs/Bmap/Correct.antt =====
-- The theorems on sfs_bmap of kern/fs/sfs/sfs_bmap.c.
use project_os.Prelude.{
  ℕ, ◌+◌, ◌-◌, ◌/◌, ◌%◌, ◌≤◌, ◌<◌, ◌≡◌, ◌≢◌, refl, Bool, true, false, arith, ltb, leb, ◌==◌, List,
  Bool-cases, inl, inr, ◌∙◌, sym, ap, subst,
}
use project_os.Outcome.{Outcome, err, efbig}
use project_os.Outcome.Exec.{kassert_pass}
use project_os.Outcome.Ends
use project_os.Outcome.Ends.{Ends, returns, fails}
use project_os.Bitmap.{bitmap_isset}
use project_os.Sfs.{Answer, File, Fs, ndirect, nindirect, dbperidb}
use project_os.Sfs.Block.{zeros, get_word}
use project_os.Sfs.Io.{with_answers, IsPolite, sfs_readblock-Ends}
use project_os.Sfs.Balloc.{NewBlock, sfs_balloc-Ends}
use project_os.Sfs.Bmap.{with_indirect, bmap_buffer, bmap_indirect, bmap_from, sfs_bmap}
use project_os.Sfs.Bmap.View.{entry, max_blocks, IsFile}
use project_os.Sfs.Bmap.Steps.{
  with_fs, IsFile-answers, with_table, with_table-IsFile, entry-with_table, contents_kept,
  new_blank, used_kept,
}
use project_os.Sfs.Bmap.Mapping.{
  Mapped, Failed, on_fs-Ends, Mapped-answers, Failed-Unchanged, bmap_direct-Ends,
}
use project_os.Sfs.Bmap.Buffer.{bmap_buffer-Ends}

-- From a state `s1` on the way, with the same block map, to the state `s` before.
record Via (s : File) (doalloc : Bool) (s1 : File) : Type 0 where
  same : (j : ℕ) → entry s1 j ≡ entry s j
  used : (c : ℕ) → bitmap_isset s.freemap c ≡ true → bitmap_isset s1.freemap c ≡ true
  away :
      (c : ℕ)
      → bitmap_isset s.freemap c ≡ true
      → c ≢ s.indirect
      → (c ≢ s1.indirect) × (s1.disk c ≡ s.disk c)
  size : s1.size ≡ s.size
  kind : s1.kind ≡ s.kind
  nblocks : s1.nblocks ≡ s.nblocks
  lock : s1.lock ≡ s.lock
  reads : doalloc ≡ false → (rest : List Answer) × (s1 ≡ with_fs s (with_answers s.fs rest))

module _ (s : File) (k : ℕ) (doalloc : Bool) (s1 : File) (via : Via s doalloc s1) where
  Mapped-via : (b : ℕ) (s' : File) → Mapped s1 k doalloc b s' → Mapped s k doalloc b s'
  Mapped-via b s' m = record {
    file = m.file;
    entries = λ j h. ground (arith, m.entries j h, via.same j);
    kept = λ h. ground (arith, m.kept, via.same k);
    free = λ h h'. ground (arith, m.free, via.same k, via.used b);
    blank = λ h h'. m.blank (via.same k ∙ h) h';
    allocates = m.allocates;
    reads = λ d.
        let (rest, e) = via.reads d in
        let (old, rest', e') = m.reads d in (old ∙ via.same k, rest', rw e at e');
    contents =
        λ c u h. let (apart, kept) = via.away c u h in m.contents c (via.used c u) apart ∙ kept;
    size = m.size ∙ via.size;
    kind = m.kind ∙ via.kind;
    nblocks = m.nblocks ∙ via.nblocks;
    lock = m.lock ∙ via.lock;
  }

  Failed-via : (s' : File) → Failed s1 s' → Failed s s'
  Failed-via s' f = record {
    file = f.file;
    entries = λ j h. f.entries j h ∙ via.same j;
    contents =
        λ c u h. let (apart, kept) = via.away c u h in f.contents c (via.used c u) apart ∙ kept;
    size = f.size ∙ via.size;
    kind = f.kind ∙ via.kind;
    nblocks = f.nblocks ∙ via.nblocks;
    lock = f.lock ∙ via.lock;
  }

  Ends-via :
      {r : Outcome ℕ × File}
      → Ends (Mapped s1 k doalloc) (λ e s'. Failed s1 s') r
      → Ends (Mapped s k doalloc) (λ e s'. Failed s s') r
  Ends-via h = Ends.mono h Mapped-via (λ e s'. Failed-via s')

module _ (s : File) (file : IsFile s) where
  Via-answers :
      (doalloc : Bool) (rest : List Answer) → Via s doalloc (with_fs s (with_answers s.fs rest))
  unfolding entry
  Via-answers doalloc rest = record {
    same = λ j. refl;
    used = λ c u. u;
    away = λ c u h. (h, refl);
    size = refl;
    kind = refl;
    nblocks = refl;
    lock = refl;
    reads = λ d. (rest, refl);
  }

  Via-with_table :
      (b : ℕ) (fs' : Fs) (new : NewBlock s.fs b fs')
      → s.indirect ≡ 0
      → Via s true (with_table s b fs' file new)
  Via-with_table b fs' new none_ = record {
    same = entry-with_table s b fs' file new none_;
    used = used_kept s b fs' file new;
    away = λ c u h. (λ e. ground (arith, new.free), contents_kept s b fs' file new c u);
    size = refl;
    kind = refl;
    nblocks = new.nblocks;
    lock = new.lock;
    reads = λ d. cc;
  }

  Failed-answers :
      (rest : List Answer) → IsPolite rest → Failed s (with_fs s (with_answers s.fs rest))
  unfolding entry
  Failed-answers rest polite = record {
    file = IsFile-answers s rest file polite;
    entries = λ j h. refl;
    contents = λ c u h. refl;
    size = refl;
    kind = refl;
    nblocks = refl;
    lock = refl;
  }

  module _ (i : ℕ) (low : i < dbperidb) where
    no_table : s.indirect ≡ 0 → entry s (i + ndirect) ≡ 0
    unfolding entry
    no_table h = ground arith

    table_new :
        s.indirect ≡ 0
        → (b : ℕ) (fs' : Fs) → NewBlock s.fs b fs'
        → Ends
            (Mapped s (i + ndirect) true)
            (λ e s'. Failed s s')
            (bmap_buffer b zeros i true (with_indirect (with_fs s fs') b))
    table_new none_ b fs' new =
        let s1 = with_table s b fs' file new in
        let some_ : b ≢ 0 = λ e.
          let f : bitmap_isset s.freemap 0 ≡ false = rw e at new.free in
          ground (arith, file.sound.super) in
        let blank : (j : ℕ) → get_word zeros j ≡ get_word (fs'.disk b) j =
          λ j. ap (λ x. get_word x j) (sym (new_blank s b fs' file new)) in
        Ends-via s (i + ndirect) true s1 (Via-with_table b fs' new none_) (
          bmap_buffer-Ends s1 i (with_table-IsFile s b fs' file new none_) low some_ zeros blank
            true)

    table_old :
        (doalloc : Bool) (rest : List Answer)
        → IsPolite rest
        → s.indirect ≢ 0
        → Ends
            (Mapped s (i + ndirect) doalloc)
            (λ e s'. Failed s s')
            (bmap_buffer s.indirect
              (s.disk s.indirect)
              i
              doalloc
              (with_fs s (with_answers s.fs rest)))
    table_old doalloc rest polite some_ =
        let s1 = with_fs s (with_answers s.fs rest) in
        Ends-via s (i + ndirect) doalloc s1 (Via-answers doalloc rest) (
          bmap_buffer-Ends s1 i (IsFile-answers s rest file polite) low some_ (s.disk s.indirect)
            (λ j. refl) doalloc)

    bmap_indirect-Ends :
        (doalloc : Bool)
        → Ends (Mapped s (i + ndirect) doalloc) (λ e s'. Failed s s') (bmap_indirect i doalloc s)
    unfolding bmap_indirect
    bmap_indirect-Ends doalloc = elim (Bool-cases (s.indirect == 0)) [
      | inr some_ ↦ rw some_ (
          Ends.bind
            (on_fs-Ends s (sfs_readblock-Ends s.indirect s.fs file.sound.held file.sound.polite))
            (λ idbuf s1 (fs1, (rest, polite, e2, e1), e).
              rw (e, e1, e2) (table_old doalloc rest polite (ground arith)))
            (λ _ s1 (fs1, (rest, polite, e1), e). rw (e, e1) (Failed-answers rest polite)))
      | inl none_ ↦
          let zero_ : s.indirect ≡ 0 = ground arith in
          elim (Bool-cases doalloc) [
            | inl d ↦
                rw (none_, d)
                  (Ends.bind (on_fs-Ends s (sfs_balloc-Ends s.fs file.sound))
                    (λ b s1 (fs', new, e). rw e (table_new zero_ b fs' new))
                    (λ e s1 (fs', un, e'). rw e' (Failed-Unchanged s fs' file un)))
            | inr d ↦
                rw (none_, d)
                  (returns (
                    subst (λ b. Mapped s (i + ndirect) false b s) (no_table zero_)
                      (Mapped-answers s (i + ndirect) false s.answers file file.sound.polite
                        (λ h. cc))))
          ]
    ]

-- On a consistent file, at a position below SFS_NDIRECT + SFS_DBPERIDB, and on a device that
-- answers no write with an I/O error, sfs_bmap does not panic. If it returns 0 it hands back the
-- block that the map has there; where there is none, without `doalloc` 0, changing nothing, and
-- with `doalloc` a block that was free, is zeroed and is now in the map. If it returns an error the
-- map is as before. Either way the file stays consistent.
pub sfs_bmap-Ends :
    (s : File) (k : ℕ) (doalloc : Bool)
    → IsFile s
    → k < max_blocks
    → Ends (Mapped s k doalloc) (λ e s'. Failed s s') (sfs_bmap k doalloc s)
unfolding sfs_bmap
sfs_bmap-Ends s k doalloc file h =
    rw (kassert_pass s.lock.held (bmap_from k doalloc) s file.sound.held)
      (elim (Bool-cases (ltb k ndirect)) [
        | inl low ↦ rw low (bmap_direct-Ends s k doalloc file (ground arith))
        | inr high ↦
            let fits : leb nindirect ((k - ndirect) / dbperidb) ≡ false = ground arith in
            let offset : (k - ndirect) % dbperidb ≡ k - ndirect = ground arith in
            let place : k - ndirect + ndirect ≡ k = ground arith in
            rw (high, fits, offset)
              (subst
                (λ j.
                  Ends (Mapped s j doalloc) (λ e s'. Failed s s')
                    (bmap_indirect (k - ndirect) doalloc s))
                place (bmap_indirect-Ends s file (k - ndirect) (ground arith) doalloc))
      ])

-- With the big lock held, sfs_bmap returns EFBIG for any other position, and changes nothing.
pub sfs_bmap_past :
    (s : File) (k : ℕ) (doalloc : Bool)
    → s.lock.held ≡ true
    → max_blocks ≤ k
    → sfs_bmap k doalloc s ≡ (err efbig, s)
unfolding sfs_bmap
sfs_bmap_past s k doalloc held h =
    let high : ltb k ndirect ≡ false = ground arith in
    let past : leb nindirect ((k - ndirect) / dbperidb) ≡ true = ground arith in
    rw (kassert_pass s.lock.held (bmap_from k doalloc) s held, high, past)
