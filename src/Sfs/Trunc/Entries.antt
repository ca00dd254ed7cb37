-- ===== src/Sfs/Trunc/Entries.antt =====
-- The loop over the indirect block in sfs_itrunc, kern/fs/sfs/sfs_bmap.c.
use project_os.Prelude.{
  ℕ, zero, suc, ◌+◌, ◌-◌, ◌≤◌, ◌<◌, ◌≡◌, ◌≢◌, refl, List, true, false, not, ◌&&◌, arith, ltb, ◌==◌,
  if◌then◌else◌, Bool-cases, inl, inr, ◌∙◌, sym,
}
use project_os.Outcome.Ends
use project_os.Outcome.Ends.{Ends, returns, fails}
use project_os.Sfs.{Block, File, Fs, ndirect, dbperidb}
use project_os.Sfs.Block.{get_word, get_word-set_word}
use project_os.Sfs.Balloc.{sfs_bfree-Ends}
use project_os.Sfs.Bmap.View.{max_blocks}
use project_os.Sfs.Bmap.Steps.{with_fs}
use project_os.Sfs.Bmap.Mapping.{on_fs-Ends}
use project_os.Sfs.Trunc.{Scan, noticed, dropped, scan_entry, scan_entries}
use project_os.Sfs.Trunc.Directs.{range}
use project_os.Sfs.Trunc.Trimmed.{view, Holds, Trimmed, Trimmed-refl, Trimmed-free, Trimmed-trans}

-- The loop over the indirect block has passed the words from `i` on, `n` of them.
pub record ScanDone (s : File) (sc : Scan) (blocklen i n : ℕ) (sc' : Scan) (s' : File)
    : Type 0 where
  pub trimmed :
      Trimmed s.fs
        (view s.direct sc.idbuf)
        s.indirect
        (λ j. ltb blocklen j && range (ndirect + i) n j)
        s'.fs
        (view s.direct sc'.idbuf)
  pub inode : s' ≡ with_fs s s'.fs
  -- the words that are left out are none, if it says so
  pub empty :
      sc'.hasnonzero ≡ false
      → (sc.hasnonzero ≡ false) × ((j : ℕ) → i ≤ j → j < i + n → get_word sc'.idbuf j ≡ 0)
  pub clean : sc'.iddirty ≡ false → (sc.iddirty ≡ false) × (sc'.idbuf ≡ sc.idbuf)

view_word : (direct : List ℕ) (buf : Block) (i : ℕ) → view direct buf (ndirect + i) ≡ get_word buf i
view_word direct buf i =
    let high : ltb (ndirect + i) ndirect ≡ false = ground arith in
    let offset : ndirect + i - ndirect ≡ i = ground arith in rw (high, offset)

module _ (s : File) (blocklen : ℕ) (sc : Scan) (h : Holds s.fs (view s.direct sc.idbuf) s.indirect)
    (i : ℕ) (low : i < dbperidb) where
  place : view s.direct sc.idbuf (ndirect + i) ≡ get_word sc.idbuf i
  place = view_word s.direct sc.idbuf i

  noticed_buf : (sc : Scan) → (noticed i sc).idbuf ≡ sc.idbuf
  noticed_buf sc = ground arith

  noticed_dirt : (sc : Scan) → (noticed i sc).iddirty ≡ sc.iddirty
  noticed_dirt sc = ground arith

  noticed_empty :
      (sc : Scan)
      → (noticed i sc).hasnonzero ≡ false
      → (sc.hasnonzero ≡ false) × (get_word sc.idbuf i ≡ 0)
  noticed_empty sc e = (ground arith, ground arith)

  ScanDone-noticed :
      (sc' : Scan) (fs' : Fs)
      → Trimmed s.fs
          (view s.direct sc.idbuf)
          s.indirect
          (λ j. ltb blocklen j && range (ndirect + i) 1 j)
          fs'
          (view s.direct sc'.idbuf)
      → sc'.hasnonzero ≡ sc.hasnonzero
      → (sc'.iddirty ≡ false → (sc.iddirty ≡ false) × (sc'.idbuf ≡ sc.idbuf))
      → ScanDone s sc blocklen i 1 (noticed i sc') (with_fs s fs')
  ScanDone-noticed sc' fs' trimmed same clean = record {
    trimmed = rw (noticed_buf sc') trimmed;
    inode = refl;
    empty = λ z.
        let (e, none_) = noticed_empty sc' z in
        (sym same ∙ e, λ j p q. let at_i : j ≡ i = omega arith in rw (noticed_buf sc', at_i) none_);
    clean = λ z. let (c, e) = clean (sym (noticed_dirt sc') ∙ z) in (c, noticed_buf sc' ∙ e);
  }

  view-dropped :
      (j : ℕ)
      → j < max_blocks
      → view s.direct (dropped i sc).idbuf j
        ≡ (if ndirect + i == j then 0 else view s.direct sc.idbuf j)
  view-dropped j p = ground (arith, get_word-set_word sc.idbuf i 0 (j - ndirect) (omega arith))

  stay_empty :
      (ltb blocklen (ndirect + i) && not (get_word sc.idbuf i == 0)) ≡ false
      → (j : ℕ) → j < max_blocks
      → (ltb blocklen j && range (ndirect + i) 1 j) ≡ true
      → view s.direct sc.idbuf j ≡ 0
  stay_empty stay j p g =
      let here : j ≡ ndirect + i = ground arith in
      let past : ltb blocklen (ndirect + i) ≡ true = ground arith in rw (here, place) (ground arith)

  scan_entry-Ends :
      Ends (λ sc' s'. ScanDone s sc blocklen i 1 sc' s') (λ e s'. ⊥) (scan_entry blocklen i sc s)
  unfolding scan_entry
  scan_entry-Ends =
      elim (Bool-cases (ltb blocklen (ndirect + i) && not (get_word sc.idbuf i == 0))) [
        | inl go ↦
            let some_ : view s.direct sc.idbuf (ndirect + i) ≢ 0 = ground (arith, place) in
            let u = h.blocks (ndirect + i) (omega arith) in
            rw go (
              Ends.bind
                (on_fs-Ends s (
                  sfs_bfree-Ends s.fs (get_word sc.idbuf i) h.sound (rw place at (u.inside some_))
                    (ground (arith, place)) (rw place at (u.marked some_))))
                (λ _ s1 (fs', fr, e). rw e (
                  returns (
                    ScanDone-noticed (dropped i sc) fs'
                      (Trimmed-free s.fs (view s.direct sc.idbuf) s.indirect h (ndirect + i)
                        (omega arith) some_ fs' (rw (sym place) at fr)
                        (view s.direct (dropped i sc).idbuf) view-dropped _ (λ j p. ground arith))
                      refl (λ z. absurd (ground arith)))))
                (λ _ _ (_, void, _). void))
        | inr stay ↦ rw stay (
            returns (
              ScanDone-noticed sc s.fs
                (Trimmed-refl s.fs (view s.direct sc.idbuf) s.indirect h _ (stay_empty stay)) refl
                (λ z. (z, refl))))
      ]

ScanDone-trans :
    (s : File) (blocklen : ℕ) (sc : Scan) (i n : ℕ)
    → Holds s.fs (view s.direct sc.idbuf) s.indirect
    → (sc1 : Scan) (s1 : File) → ScanDone s sc blocklen i 1 sc1 s1
    → (sc2 : Scan) (s2 : File) → ScanDone (with_fs s s1.fs) sc1 blocklen (i + 1) n sc2 s2
    → i + suc n ≤ dbperidb
    → ScanDone s sc blocklen i (suc n) sc2 s2
ScanDone-trans s blocklen sc i n h sc1 s1 d sc2 s2 e fits = record {
  trimmed =
      Trimmed-trans s.fs (view s.direct sc.idbuf) s.indirect h _ d.trimmed e.trimmed
        (λ j p. ground arith);
  inode = e.inode;
  empty = λ z.
      let (z1, after) = e.empty z in
      let (z0, here) = d.empty z1 in
      (
        z0,
        λ j p q. elim (Bool-cases (i == j)) [
          | inl at ↦
              let at_i : j ≡ i = ground arith in
              rw at_i (word_left ∙ here i (omega arith) (omega arith))
          | inr no_ ↦ after j (ground arith) (omega arith)
        ],
      );
  clean = λ z. let (c1, e2) = e.clean z in let (c0, e1) = d.clean c1 in (c0, e2 ∙ e1);
}
  where
    word_left : get_word sc2.idbuf i ≡ get_word sc1.idbuf i
    word_left =
        let left : (ltb blocklen (ndirect + i) && range (ndirect + (i + 1)) n (ndirect + i))
            ≡ false =
          ground arith in
        rw (left, view_word s.direct sc2.idbuf i, view_word s.direct sc1.idbuf i) at
          (e.trimmed.entries (ndirect + i) (omega arith))

-- The loop over the indirect block frees those behind `blocklen`, but for the one at `blocklen`.
pub scan_entries-Ends :
    (s : File) (blocklen : ℕ) (sc : Scan) (n i : ℕ)
    → Holds s.fs (view s.direct sc.idbuf) s.indirect
    → i + n ≤ dbperidb
    → Ends
        (λ sc' s'. ScanDone s sc blocklen i n sc' s')
        (λ e s'. ⊥)
        (scan_entries blocklen n i sc s)
unfolding scan_entries
scan_entries-Ends s blocklen sc zero i h fits = returns (record {
  trimmed =
      Trimmed-refl s.fs (view s.direct sc.idbuf) s.indirect h _ (λ j p g. absurd (ground arith));
  inode = refl;
  empty = λ z. (z, λ j p q. absurd (omega arith));
  clean = λ z. (z, refl);
})
scan_entries-Ends s blocklen sc (suc n) i h fits =
    Ends.bind (scan_entry-Ends s blocklen sc h i (omega arith))
      (λ sc1 s1 d. rw d.inode (
        Ends.mono
          (scan_entries-Ends (with_fs s s1.fs) blocklen sc1 n (i + 1) d.trimmed.holds (omega arith))
          (λ sc2 s2 e. ScanDone-trans s blocklen sc i n h sc1 s1 d sc2 s2 e fits)
          (λ _ _ void. void)))
      (λ _ _ void. void)
