-- ===== src/Sfs/FileIo/Partial.antt =====
-- A part of a block of a request: sfs_partialio of kern/fs/sfs/sfs_io.c.
use project_os.Prelude.{
  ℕ, ◌+◌, ◌%◌, ◌^◌, ◌≡◌, ◌≢◌, refl, sym, ◌∙◌, ap, subst, true, leb, ◌==◌, Bool-cases, inl, inr,
  arith,
}
use project_os.Outcome.Exec.{kassert_pass}
use project_os.Outcome.Ends
use project_os.Outcome.Ends.{Ends, returns, fails}
use project_os.Uio.{Uio, UioRw, uio_read, uio_write, is_write, is_read, UserCopy, uiomove}
use project_os.Uio.View.{Transfers}
use project_os.Uio.Region.{Done, Faulted}
use project_os.Uio.Move.{uiomove-Ends}
use project_os.Sfs.{Block, blocksize}
use project_os.Sfs.Io.{with_answers, sfs_readblock-Ends, sfs_writeblock-Ends}
use project_os.Sfs.Bmap.Steps.{with_fs}
use project_os.Sfs.Bmap.Mapping.{on_fs-Ends}
use project_os.Sfs.Meta.View.{Intact-trans, Intact-answers}
use project_os.Sfs.FileIo.{Request, partial_fill, partial_store, partial_move, sfs_partialio}
use project_os.Sfs.FileIo.Step.{Did, Quit, Quit-Intact}
use project_os.Sfs.FileIo.Blocks.{
  InBlock, Loaded, Looked, on_file-Ends, on_uio-Ends, read_bytes, must_read, lookup-Ends, loaded,
  Quit-asked, stored, fetched, merged,
}

module _ (user : UserCopy) (skip n k : ℕ) (s : Request) (inb : InBlock skip n k s) where
  fill-Ends :
      (b : ℕ) (t : Request)
      → Looked k b s t
      → Ends (Loaded k b s) (λ e s'. Quit n s s') (partial_fill user b t)
  unfolding partial_fill
  fill-Ends b t l = elim (Bool-cases (b == 0)) [
    | inl e ↦
        let none_ : b ≡ 0 = ground arith in
        let reads : is_read t.uio.rw ≡ true =
          rw l.same_uio (ap is_read (must_read s.uio.rw (λ w. l.writes w none_))) in
        rw (e, kassert_pass _ _ t reads)
          (returns (record {
            intact = l.intact;
            same_uio = l.same_uio;
            bytes = λ j h. rw e at (read_bytes s k t b l.intact inb.low l.at j h);
            at = l.at;
          }))
    | inr e ↦ rw e (
        Ends.mono
          (on_file-Ends t (
            on_fs-Ends t.file
              (sfs_readblock-Ends b t.file.fs l.intact.file.sound.held l.intact.file.sound.polite)))
          (λ buf s' (f, (fs1, (rest, polite, e2, e1), e0), e3).
            rw (e3, e0, e1, e2) (loaded skip n k s inb b t rest l (ground arith) polite))
          (λ _ s' (f, (fs1, (rest, polite, e1), e0), e3).
            rw (e3, e0, e1) (Quit-asked skip n k s inb b t rest l polite)))
  ]

  -- Behind the move of sfs_partialio.
  store-Ends :
      (b : ℕ) (iobuf buf : Block) (t : Request) (v : Uio)
      → Loaded k b s iobuf t
      → (is_write s.uio.rw ≡ true → b ≢ 0)
      → Done iobuf skip n s.uio buf v
      → (dir : UioRw) → s.uio.rw ≡ dir
      → Ends
          (λ _ s'. Did n s s')
          (λ e s'. Quit n s s')
          (partial_store user b buf dir (record { file = t.file; uio = v }))
  unfolding partial_store
  store-Ends b iobuf buf t v l some_ (x, adv) uio_read reads =
      let (e, moved) = subst (λ d. Transfers d iobuf skip n s.uio buf v) reads x in
      returns (fetched skip n k s inb t v iobuf l.intact l.bytes reads moved adv)
  store-Ends b iobuf buf t v l some_ (x, adv) uio_write writes =
      let (same, filled) = subst (λ d. Transfers d iobuf skip n s.uio buf v) writes x in
      let ne : b ≢ 0 = some_ (rw writes) in
      Ends.mono
        (on_file-Ends (record { file = t.file; uio = v })
          (on_fs-Ends t.file (
            sfs_writeblock-Ends b buf t.file.fs l.intact.file.sound.held
              l.intact.file.sound.polite)))
        (λ _ s' (f, (fs2, (rest, polite, _, e2), e1), e0).
          rw (e0, e1, e2, ← l.at)
            (stored skip n k s inb t v l.intact (λ z. ne (sym l.at ∙ z)) buf
              (merged skip n k s inb iobuf buf l.bytes filled) rest polite adv same writes))
        (λ _ s' (f, (fs2, (rest, polite, e2), e1), e0).
          rw (e0, e1, e2)
            (Quit-Intact n s
              (record { file = with_fs t.file (with_answers t.file.fs rest); uio = v })
              (Intact-trans s.file t.file _ l.intact
                (Intact-answers t.file rest l.intact.file polite))
              adv.rw_lem))

  partial_move-Ends :
      (b : ℕ) (t : Request)
      → Looked k b s t
      → Ends (λ _ s'. Did n s s') (λ e s'. Quit n s s') (partial_move user skip n b t)
  unfolding partial_move
  partial_move-Ends b t l =
      Ends.bind (fill-Ends b t l)
        (λ iobuf u ld.
          Ends.bind
            (on_uio-Ends u (
              subst
                (λ w. Ends (Done iobuf skip n s.uio) (Faulted s.uio) (uiomove user iobuf skip n w))
                (sym ld.same_uio) (uiomove-Ends user iobuf skip n s.uio inb.ready.room)))
            (λ buf w (v, done, e). rw e (
              subst
                (λ d.
                  Ends (λ _ s'. Did n s s') (λ e s'. Quit n s s')
                    (partial_store user b buf d (record u { uio = v })))
                (sym done.1.rw_lem) (store-Ends b iobuf buf u v ld l.writes done s.uio.rw refl)))
            (λ e w (v, (_, _, r), e'). rw e' (Quit-Intact n s (record u { uio = v }) ld.intact r)))
        (λ e u q. q)

  -- On a consistent file, for a region that lies in one block of the file, sfs_partialio does not
  -- panic, and moves the region or returns an error.
  pub sfs_partialio-Ends :
      Ends (λ _ s'. Did n s s') (λ e s'. Quit n s s') (sfs_partialio user skip n s)
  unfolding sfs_partialio
  sfs_partialio-Ends =
      let fits : leb ((skip + n) % 2 ^ 32) blocksize ≡ true = ground (arith, inb.within) in
      rw (kassert_pass _ _ s fits, kassert_pass _ _ s inb.ready.file.sound.held)
        (Ends.bind (lookup-Ends skip n k s inb) partial_move-Ends (λ e t q. q))
