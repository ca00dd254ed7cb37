-- ===== src/Sfs/Trunc/Stored.antt =====
-- What sfs_itrunc of kern/fs/sfs/sfs_bmap.c makes of the indirect block behind the loop over it.
use project_os.Prelude.{
  ℕ, ◌-◌, ◌≤◌, ◌<◌, ◌≡◌, ◌≢◌, refl, true, false, arith, leb, ◌==◌, if◌then◌else◌, get_or, length,
  List, Bool-cases, inl, inr, sym,
}
use project_os.Outcome.Ends
use project_os.Outcome.Ends.{Ends, returns, fails}
use project_os.Sfs.{Answer, File, Fs, ndirect, dbperidb}
use project_os.Sfs.Block.{get_word}
use project_os.Sfs.Io.{with_answers, IsPolite, put_block, sfs_writeblock-Ends}
use project_os.Sfs.Balloc.{Freed, sfs_bfree-Ends}
use project_os.Sfs.Bmap.{with_indirect}
use project_os.Sfs.Bmap.View.{entry, max_blocks, IsFile}
use project_os.Sfs.Bmap.Steps.{with_fs}
use project_os.Sfs.Bmap.Mapping.{on_fs-Ends}
use project_os.Sfs.Trunc.{Scan, store_entries}
use project_os.Sfs.Trunc.Trimmed.{SameFields, view, Trimmed}
use project_os.Sfs.Trunc.Cut.{
  gone, Cut, HalfCut, Holds-IsFile, Holds-disk, Holds-untabled, Cut-made,
}

-- The state `s2` behind the loop over the indirect block.
module _ (s : File) (blocklen : ℕ) (file : IsFile s) (s2 : File) (sc : Scan)
    (t : Trimmed s.fs (entry s) s.indirect (gone blocklen) s2.fs (view s2.direct sc.idbuf))
    (directs : length s2.direct ≡ ndirect) (table : s2.indirect ≡ s.indirect)
    (fields : SameFields s s2) (some_ : s.indirect ≢ 0) where
  -- the indirect block holds the words `sc.idbuf`
  entry_of_words :
      (s3 : File)
      → s3.direct ≡ s2.direct
      → s3.indirect ≡ s.indirect
      → s3.disk s.indirect ≡ sc.idbuf
      → (j : ℕ) → entry s3 j ≡ view s2.direct sc.idbuf j
  unfolding entry
  entry_of_words s3 d i w j = let on : (s.indirect == 0) ≡ false = ground arith in rw (d, i, on, w)

  empty-Cut :
      ((j : ℕ) → 0 ≤ j → j < dbperidb → get_word sc.idbuf j ≡ 0)
      → (fs3 : Fs) → Freed s2.fs s.indirect fs3
      → Cut s blocklen (with_indirect (with_fs s2 fs3) 0)
  unfolding entry
  empty-Cut empty fs3 fr =
      let s3 = with_indirect (with_fs s2 fs3) 0 in
      let same : (j : ℕ) → j < max_blocks → entry s3 j ≡ view s2.direct sc.idbuf j =
        λ j p. ground (arith, empty (j - ndirect)) in
      Cut-made s blocklen s2.fs (view s2.direct sc.idbuf) s3 file t
        (Holds-IsFile s3 (view s2.direct sc.idbuf)
          (Holds-untabled s2.fs fs3 _ s.indirect t.holds fr some_) directs same)
        same (λ c ne. (ground (arith, fr.bits c), fr.disk c)) fields fr.nblocks fr.lock

  written-Cut :
      (rest : List Answer)
      → IsPolite rest
      → Cut s blocklen (
          with_fs s2
            (record s2.fs { disk = put_block s2.disk s.indirect sc.idbuf; answers = rest }))
  written-Cut rest polite =
      let s3 =
        with_fs s2
          (record s2.fs { disk = put_block s2.disk s.indirect sc.idbuf; answers = rest }) in
      let self : (s.indirect == s.indirect) ≡ true = ground arith in
      let same = entry_of_words s3 refl table (rw self) in
      Cut-made s blocklen s2.fs (view s2.direct sc.idbuf) s3 file t
        (Holds-IsFile s3 (view s2.direct sc.idbuf)
          (rw table
            (Holds-disk s2.fs (view s2.direct sc.idbuf) s.indirect s3.disk rest t.holds polite))
          directs (λ j p. same j))
        (λ j p. same j)
        (λ c ne. let other : (s.indirect == c) ≡ false = ground arith in (refl, rw other)) fields
        refl refl

  clean-Cut : sc.idbuf ≡ s2.disk s.indirect → Cut s blocklen s2
  clean-Cut clean =
      let same = entry_of_words s2 refl table (sym clean) in
      Cut-made s blocklen s2.fs (view s2.direct sc.idbuf) s2 file t
        (Holds-IsFile s2 (view s2.direct sc.idbuf) (rw table t.holds) directs (λ j p. same j))
        (λ j p. same j) (λ c ne. (refl, refl)) fields refl refl

  lost_words : (rest : List Answer) → HalfCut s blocklen (with_fs s2 (with_answers s2.fs rest))
  unfolding entry
  lost_words rest = record {
    entries = λ j p.
        let direct : j < ndirect
            → get_or s2.direct j 0 ≡ (if leb blocklen j then 0 else entry s j) =
          λ q. ground (arith, t.entries j p) in
        rw (table, t.disk s.indirect) (ground (arith, direct));
    contents = t.disk;
    fields = fields;
    lock = t.lock;
  }

  pub store_entries-Ends :
      (sc.hasnonzero ≡ false → (j : ℕ) → 0 ≤ j → j < dbperidb → get_word sc.idbuf j ≡ 0)
      → (sc.iddirty ≡ false → sc.idbuf ≡ s2.disk s.indirect)
      → Ends (λ _. Cut s blocklen) (λ e. HalfCut s blocklen) (store_entries s.indirect sc s2)
  unfolding store_entries
  store_entries-Ends empty clean = elim (Bool-cases sc.hasnonzero) [
    | inr none_ ↦ rw none_ (
        Ends.bind
          (on_fs-Ends s2 (
            sfs_bfree-Ends s2.fs s.indirect t.holds.sound (t.holds.id_used.inside some_) some_
              (t.holds.id_used.marked some_)))
          (λ _ s3 (fs3, fr, e). rw e (returns (empty-Cut (empty none_) fs3 fr)))
          (λ _ _ (_, void, _). absurd void))
    | inl some_left ↦ rw some_left (elim (Bool-cases sc.iddirty) [
      | inr untouched ↦ rw untouched (returns (clean-Cut (clean untouched)))
      | inl dirty ↦ rw dirty (
          Ends.mono
            (on_fs-Ends s2 (
              sfs_writeblock-Ends s.indirect sc.idbuf s2.fs t.holds.sound.held
                t.holds.sound.polite))
            (λ _ s3 (fs3, (rest, polite, _, e1), e). rw (e, e1) (written-Cut rest polite))
            (λ _ s3 (fs3, (rest, polite, e1), e). rw (e, e1) (lost_words rest)))
    ])
  ]
