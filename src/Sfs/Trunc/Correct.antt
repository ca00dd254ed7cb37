-- ===== src/Sfs/Trunc/Correct.antt =====
-- The theorem on sfs_itrunc of kern/fs/sfs/sfs_bmap.c.
use project_os.Prelude.{
  ℕ, ◌+◌, ◌-◌, ◌<◌, ◌≡◌, ◌≢◌, refl, true, false, not, ◌&&◌, arith, ltb, leb, ◌==◌, if◌then◌else◌,
  get_or, List, Bool-cases, inl, inr, ◌∙◌, sym, subst,
}
use project_os.Outcome.{Outcome, ok}
use project_os.Outcome.Exec.{◌>>=◌}
use project_os.Outcome.Ends
use project_os.Outcome.Ends.{Ends, returns, fails}
use project_os.BigLock.{BigLock, IsBalanced, acquire_held, release-acquire, vfs_biglock_release}
use project_os.Sfs.{Answer, File, ndirect, dbperidb}
use project_os.Sfs.Block.{get_word-zeros}
use project_os.Sfs.Io.{with_answers, IsPolite, sfs_readblock-Ends}
use project_os.Sfs.Bmap.View.{entry, max_blocks, IsFile}
use project_os.Sfs.Bmap.Steps.{with_fs}
use project_os.Sfs.Bmap.Mapping.{on_fs-Ends}
use project_os.Sfs.Trunc.{
  with_lock, block_length, Scan, scan_entries, store_entries, trunc_words, trunc_indirect,
  trunc_body, with_size, released, sfs_itrunc,
}
use project_os.Sfs.Trunc.Trimmed.{view, Holds, Trimmed, Trimmed-refl, Trimmed-trans}
use project_os.Sfs.Trunc.Directs.{range, DirectsDone, trunc_directs-Ends}
use project_os.Sfs.Trunc.Entries.{scan_entries-Ends}
use project_os.Sfs.Trunc.Stored.{store_entries-Ends}
use project_os.Sfs.Trunc.Cut.{
  gone, Cut, HalfCut, id_words, entry-view, IsFile-Holds, Holds-IsFile, Trimmed-answers, Cut-made,
}

module _ (s : File) (blocklen : ℕ) (file : IsFile s) where
  -- The state `s1` behind the loop over the direct blocks.
  module _ (s1 : File)
      (d : DirectsDone s (id_words s) (λ j. leb blocklen j && range 0 ndirect j) s1) where
    seen :
        Trimmed s.fs
          (entry s)
          s.indirect
          (λ j. leb blocklen j && range 0 ndirect j)
          s1.fs
          (view s1.direct (id_words s))
    seen = rw (entry-view s) d.trimmed

    same : (j : ℕ) → entry s1 j ≡ view s1.direct (id_words s) j
    unfolding entry
    same j =
        rw (d.indirect, d.trimmed.disk s.indirect) (ground (arith, get_word-zeros (j - ndirect)))

    untouched-Cut :
        (ltb blocklen (ndirect + dbperidb - 1) && not (s.indirect == 0)) ≡ false → Cut s blocklen s1
    untouched-Cut stay =
        let m1 = view s1.direct (id_words s) in
        let h1 : Holds s1.fs m1 s1.indirect =
          subst (λ i. Holds s1.fs m1 i) (sym d.indirect) d.trimmed.holds in
        let empty : (j : ℕ) → j < max_blocks → (leb ndirect j && ltb blocklen j) ≡ true → m1 j ≡ 0 =
          λ j p g.
            let none_ : (s.indirect == 0) ≡ true = ground arith in
            rw none_ (ground (arith, get_word-zeros (j - ndirect))) in
        let t =
          Trimmed-trans s.fs (entry s) s.indirect (IsFile-Holds s file) (gone blocklen) seen
            (Trimmed-refl s1.fs m1 s.indirect d.trimmed.holds (λ j. leb ndirect j && ltb blocklen j)
              empty)
            (λ j p. ground arith) in
        Cut-made s blocklen s1.fs m1 s1 file t (Holds-IsFile s1 m1 h1 d.directs (λ j p. same j))
          (λ j p. same j) (λ c ne. (refl, refl)) d.fields refl refl

    unread : (rest : List Answer) → HalfCut s blocklen (with_fs s1 (with_answers s1.fs rest))
    unfolding entry
    unread rest = record {
      entries = λ j p.
          let direct : j < ndirect
              → get_or s1.direct j 0 ≡ (if leb blocklen j then 0 else entry s j) =
            λ q. ground (arith, seen.entries j p) in
          rw (d.indirect, d.trimmed.disk s.indirect) (ground (arith, direct));
      contents = d.trimmed.disk;
      fields = d.fields;
      lock = d.trimmed.lock;
    }

    module _ (some_ : s.indirect ≢ 0) (rest : List Answer) (polite : IsPolite rest) where
      abbrev s0 : File
      s0 = with_fs s1 (with_answers s1.fs rest)

      abbrev sc0 : Scan
      sc0 = record { idbuf = s.disk s.indirect; hasnonzero = false; iddirty = false }

      scanned :
          Ends
            (λ _. Cut s blocklen)
            (λ e. HalfCut s blocklen)
            ((scan_entries blocklen dbperidb 0 sc0 >>= store_entries s.indirect) s0)
      scanned =
          let on : (s.indirect == 0) ≡ false = ground arith in
          let t1 = rw on at (Trimmed-answers s.fs s1.fs _ _ s.indirect _ rest seen polite) in
          Ends.bind
            (scan_entries-Ends s0 blocklen sc0 dbperidb 0
              (subst (λ i. Holds s0.fs (view s1.direct (s.disk s.indirect)) i) (sym d.indirect)
                t1.holds)
              (omega arith))
            (λ sc s2 e.
              let t2 =
                subst
                  (λ i.
                    Trimmed s0.fs (view s1.direct (s.disk s.indirect)) i
                      (λ j. ltb blocklen j && range (ndirect + 0) dbperidb j) s2.fs
                      (view s1.direct sc.idbuf))
                  d.indirect e.trimmed in
              let t =
                Trimmed-trans s.fs (entry s) s.indirect (IsFile-Holds s file) (gone blocklen) t1 t2
                  (λ j p. ground arith) in
              rw e.inode (
                store_entries-Ends s blocklen file (with_fs s1 s2.fs) sc t d.directs d.indirect
                  d.fields some_ (λ z. (e.empty z).1)
                  (λ z.
                    (e.clean z).1 ∙ sym (e.trimmed.disk s.indirect ∙ d.trimmed.disk s.indirect))))
            (λ _ _ void. absurd void)

    words_Ends :
        s.indirect ≢ 0
        → Ends (λ _. Cut s blocklen) (λ e. HalfCut s blocklen) (trunc_words blocklen s.indirect s1)
    words_Ends some_ =
        Ends.bind
          (on_fs-Ends s1 (
            sfs_readblock-Ends s.indirect s1.fs d.trimmed.holds.sound.held
              d.trimmed.holds.sound.polite))
          (λ buf _ (fs', (rest, polite, e2, e1), e).
            rw (e, e1, e2, d.trimmed.disk s.indirect) (scanned some_ rest polite))
          (λ _ _ (fs', (rest, polite, e1), e). rw (e, e1) (unread rest))

    trunc_indirect-Ends :
        Ends (λ _. Cut s blocklen) (λ e. HalfCut s blocklen) (trunc_indirect blocklen s1)
    unfolding trunc_indirect
    trunc_indirect-Ends =
        elim (Bool-cases (ltb blocklen (ndirect + dbperidb - 1) && not (s1.indirect == 0))) [
          | inr stay ↦ rw stay (returns (untouched-Cut (rw d.indirect at stay)))
          | inl go ↦ rw go (
              subst
                (λ i.
                  Ends (λ _. Cut s blocklen) (λ e. HalfCut s blocklen) (trunc_words blocklen i s1))
                (sym d.indirect) (words_Ends (ground (arith, d.indirect))))
        ]

  trunc_body-Ends :
      (len : ℕ)
      → blocklen ≡ block_length len
      → Ends
          (λ _ s'. (c : File) × Cut s blocklen c × (s' ≡ with_size len c))
          (λ e. HalfCut s blocklen)
          (trunc_body len s)
  unfolding trunc_body
  trunc_body-Ends len eq = rw⁻¹ eq (
      Ends.bind
        (trunc_directs-Ends s blocklen (id_words s) ndirect 0 file.directs
          (rw (entry-view s) at (IsFile-Holds s file)) (omega arith))
        (λ _ s1 d.
          Ends.bind (trunc_indirect-Ends s1 d) (λ _ c cut. returns (c, cut, refl))
            (λ _ _ half. half))
        (λ _ _ void. absurd void))

-- The file while sfs_itrunc holds the big lock.
abbrev pub locked : File → File
locked s = with_lock s (record { held = true; depth = s.lock.depth + 1 })

pub release_locked :
    (l : BigLock)
    → IsBalanced l
    → vfs_biglock_release (record { held = true; depth = l.depth + 1 }) ≡ ok l
release_locked l b = rw (acquire_held l b) at (release-acquire l b)

-- On a file that is consistent once the big lock is held, with a lock whose depth counts its
-- acquisitions, and a device that answers no write with an I/O error, sfs_itrunc does not panic and
-- leaves the lock as it found it, on the error paths too. If it returns 0, the size is `len` cut to
-- 32 bits and the file is consistent; it has lost the blocks at the direct positions from the new
-- length in blocks on, and in the indirect block those behind that length, but not the one at that
-- length itself. The blocks that it lost are free; but for these, the superblock and the indirect
-- block no bit of the freemap has changed, and every block but the indirect one has its contents.
-- If it returns an error, the direct positions have lost their blocks, and the other entries of the
-- map, the size and the disk are as before.
pub sfs_itrunc-Ends :
    (s : File) (len : ℕ)
    → IsBalanced s.lock
    → IsFile (locked s)
    → Ends
        (λ _ s'.
          (c : File) × Cut (locked s) (block_length len) c
          × (s' ≡ with_lock (with_size len c) s.lock))
        (λ e s'. (c : File) × HalfCut (locked s) (block_length len) c × (s' ≡ with_lock c s.lock))
        (sfs_itrunc len s)
unfolding sfs_itrunc
sfs_itrunc-Ends s len b file =
    rw (acquire_held s.lock b)
      (unlock (trunc_body-Ends (locked s) (block_length len) file len refl))
  where
    unlock :
        {r : Outcome (Unit {0}) × File}
        → Ends
            (λ _ s'. (c : File) × Cut (locked s) (block_length len) c × (s' ≡ with_size len c))
            (λ e. HalfCut (locked s) (block_length len))
            r
        → Ends
            (λ _ s'.
              (c : File) × Cut (locked s) (block_length len) c
              × (s' ≡ with_lock (with_size len c) s.lock))
            (λ e s'.
              (c : File) × HalfCut (locked s) (block_length len) c × (s' ≡ with_lock c s.lock))
            (released r.0 r.1)
    unlock (returns (c, cut, e)) =
        rw (e, cut.lock, release_locked s.lock b) (returns (c, cut, refl))
    unlock (fails {s = c} half) = rw (half.lock, release_locked s.lock b) (fails (c, half, refl))
