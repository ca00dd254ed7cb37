-- ===== src/Sfs/Bmap/Buffer.antt =====
-- sfs_bmap of kern/fs/sfs/sfs_bmap.c, behind the loading of the indirect block.
use project_os.Prelude.{
  ℕ, ◌+◌, ◌-◌, ◌<◌, ◌≡◌, ◌≢◌, refl, Bool, true, false, ◌&&◌, arith, ◌==◌, List, Bool-cases, inl,
  inr, ◌∙◌, sym, and_parts,
}
use project_os.Outcome.Ends
use project_os.Outcome.Ends.{Ends, returns, fails}
use project_os.Sfs.{Answer, Block, File, Fs, ndirect, dbperidb}
use project_os.Sfs.Block.{get_word, set_word}
use project_os.Sfs.Io.{IsPolite, sfs_writeblock-Ends}
use project_os.Sfs.Balloc.{NewBlock, sfs_balloc-Ends}
use project_os.Sfs.Bmap.{hand_back, bmap_buffer}
use project_os.Sfs.Bmap.View.{entry, IsFile, new-InUse}
use project_os.Sfs.Bmap.Steps.{
  with_fs, with_entry, with_lost, with_lost-IsFile, entry-with_lost, buffer-Extends, contents_kept,
  new_blank, new_ne_table,
}
use project_os.Sfs.Bmap.Mapping.{
  Mapped, Failed, hand_back_lem, on_fs-Ends, Mapped-new, hand_back_old, Failed-Unchanged,
}

module _ (s : File) (i : ℕ) (file : IsFile s) (low : i < dbperidb) (table : s.indirect ≢ 0) where
  table_entry : entry s (i + ndirect) ≡ get_word (s.disk s.indirect) i
  unfolding entry
  table_entry = let e : i + ndirect - ndirect ≡ i = omega arith in ground arith

  module _ (idbuf : Block)
      (same : (j : ℕ) → get_word idbuf j ≡ get_word (s.disk s.indirect) j) where
    buffer_new :
        entry s (i + ndirect) ≡ 0
        → (b : ℕ) (fs' : Fs) (new : NewBlock s.fs b fs') (rest : List Answer) → IsPolite rest
        → Ends
            (Mapped s (i + ndirect) true)
            (λ e s'. Failed s s')
            (hand_back b (with_entry s b fs' file new idbuf i rest))
    buffer_new missing b fs' new rest polite =
        let s' = with_entry s b fs' file new idbuf i rest in
        let ext = buffer-Extends s b fs' file new idbuf i rest table same low polite in
        let apart : (s.indirect == b) ≡ false = ground (arith, new_ne_table s b fs' file new) in
        rw (hand_back_lem b s' (new-InUse s s' (i + ndirect) b file ext)) (
          returns (
            Mapped-new s (i + ndirect) b s' file ext missing (rw apart (new_blank s b fs' file new))
              (λ c u other.
                let e : (s.indirect == c) ≡ false = ground arith in
                rw e (contents_kept s b fs' file new c u))
              refl refl new.nblocks new.lock))

    lost :
        (b : ℕ) (fs' : Fs) (new : NewBlock s.fs b fs') (rest : List Answer)
        → IsPolite rest
        → Failed s (with_lost s b fs' file new rest)
    lost b fs' new rest polite = record {
      file = with_lost-IsFile s b fs' file new rest polite;
      entries = λ j h. entry-with_lost s b fs' file new rest j;
      contents = λ c u h. contents_kept s b fs' file new c u;
      size = refl;
      kind = refl;
      nblocks = new.nblocks;
      lock = new.lock;
    }

    pub bmap_buffer-Ends :
        (doalloc : Bool)
        → Ends
            (Mapped s (i + ndirect) doalloc)
            (λ e s'. Failed s s')
            (bmap_buffer s.indirect idbuf i doalloc s)
    unfolding bmap_buffer
    bmap_buffer-Ends doalloc = elim (Bool-cases ((get_word idbuf i == 0) && doalloc)) [
      | inl go ↦
          let parts = and_parts (get_word idbuf i == 0) doalloc go in
          let missing : entry s (i + ndirect) ≡ 0 = ground (arith, table_entry, same i) in
          rw (go, parts.1)
            (Ends.bind (on_fs-Ends s (sfs_balloc-Ends s.fs file.sound))
              (λ b s1 (fs', new, e). rw e (
                Ends.bind
                  (on_fs-Ends (with_fs s fs') (
                    sfs_writeblock-Ends s.indirect (set_word idbuf i b) fs' new.sound.held
                      new.sound.polite))
                  (λ _ s2 (fs2, (rest, polite, _, e2), e1).
                    rw (e1, e2) (buffer_new missing b fs' new rest polite))
                  (λ _ s2 (fs2, (rest, polite, e2), e1). rw (e1, e2) (lost b fs' new rest polite))))
              (λ e s1 (fs', un, e'). rw e' (Failed-Unchanged s fs' file un)))
      | inr stay ↦ rw stay (
          hand_back_old s (i + ndirect) doalloc (get_word idbuf i) file (omega arith)
            (same i ∙ sym table_entry) stay)
    ]
