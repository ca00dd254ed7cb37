-- ===== src/Sfs/FileIo/Whole.antt =====
-- A whole block of a request: sfs_blockio of kern/fs/sfs/sfs_io.c, and the loop over the blocks.
use project_os.Prelude.{
  ℕ, ◌≡◌, ◌≢◌, sym, ◌∙◌, ap, subst, true, leb, ◌==◌, Bool-cases, inl, inr, arith,
}
use project_os.Outcome.{Outcome}
use project_os.Outcome.Exec.{pure, kassert_pass, ◌>>=◌}
use project_os.Outcome.Ends
use project_os.Outcome.Ends.{Ends, returns, fails}
use project_os.Uio.{Uio, UioRw, uio_read, uio_write, is_read, UserCopy, uiomove}
use project_os.Uio.View.{Transfers}
use project_os.Uio.Zeros.{uiomovezeros-Ends}
use project_os.Uio.Region.{Done, Faulted}
use project_os.Uio.Move.{uiomove-Ends}
use project_os.Sfs.{Block, blocksize}
use project_os.Sfs.Block.{zeros}
use project_os.Sfs.Io.{reading, writing, sfs_rwblock-Moved}
use project_os.Sfs.Bmap.Mapping.{on_fs-Ends}
use project_os.Sfs.FileIo.{Request, on_uio, block_store, block_transfer, block_move, sfs_blockio}
use project_os.Sfs.FileIo.Step.{Did, Quit, Quit-Intact}
use project_os.Sfs.Meta.View.{Intact-trans, Intact-answers}
use project_os.Sfs.FileIo.Blocks.{
  asked, InBlock, Loaded, Looked, on_file-Ends, on_uio-Ends, read_bytes, must_read, lookup-Ends,
  device_lem, loaded, Quit-asked, stored, fetched,
}

module _ (user : UserCopy) (k : ℕ) (s : Request) (inb : InBlock 0 blocksize k s) where
  gathered-Ends :
      (b : ℕ) (t : Request)
      → Looked k b s t
      → b ≢ 0
      → s.uio.rw ≡ uio_write
      → {r : Outcome Block × Uio} → Ends (Done zeros 0 blocksize s.uio) (Faulted s.uio) r
      → Ends (λ _ s'. Did blocksize s s') (λ e s'. Quit blocksize s s') (block_store user b r t)
  unfolding block_store
  gathered-Ends b t l ne writes (returns {a = buf} {s = v} (x, adv)) =
      let (same, filled) = subst (λ d. Transfers d zeros 0 blocksize s.uio buf v) writes x in
      rw (device_lem 0 blocksize k s inb b t l ne) (
        Ends.mono
          (on_file-Ends (record t { uio = v })
            (on_fs-Ends t.file (
              sfs_rwblock-Moved (writing b buf) t.file.fs l.intact.file.sound.held (omega arith)
                l.intact.file.sound.polite)))
          (λ _ w (f, (fs2, (rest, polite, _, e2), e1), e0).
            rw (e0, e1, e2, ← l.at)
              (stored 0 blocksize k s inb t v l.intact (λ z. ne (sym l.at ∙ z)) buf
                (λ j h. ground (arith, filled j)) rest polite adv same writes))
          (λ _ w (f, (fs2, (rest, polite, e2), e1), e0).
            rw (e0, e1, e2)
              (Quit-Intact blocksize s (record (asked t rest) { uio = v })
                (Intact-trans s.file t.file _ l.intact
                  (Intact-answers t.file rest l.intact.file polite))
                adv.rw_lem)))
  gathered-Ends b t l ne writes (fails {e = e} {s = v} (_, _, r)) =
      fails (Quit-Intact blocksize s (record { file = t.file; uio = v }) l.intact r)

  fetch-Ends :
      (b : ℕ) (t : Request) (block : Block) (u : Request)
      → Loaded k b s block u
      → s.uio.rw ≡ uio_read
      → Ends
          (λ _ s'. Did blocksize s s')
          (λ e s'. Quit blocksize s s')
          ((do rest ← on_uio (uiomove user block 0 blocksize); pure tt) u)
  fetch-Ends b t block u l reads = rw l.same_uio (
      Ends.bind (on_uio-Ends u (uiomove-Ends user block 0 blocksize s.uio inb.ready.room))
        (λ buf w (v, (x, adv), e0).
          let (_, moved) = subst (λ d. Transfers d block 0 blocksize s.uio buf v) reads x in
          rw e0 (returns (fetched 0 blocksize k s inb u v block l.intact l.bytes reads moved adv)))
        (λ _ w (v, (_, _, r), e0).
          rw e0 (Quit-Intact blocksize s (record { file = u.file; uio = v }) l.intact r)))

  transfer-Ends :
      (b : ℕ) (t : Request)
      → Looked k b s t
      → b ≢ 0
      → (dir : UioRw) → s.uio.rw ≡ dir
      → Ends
          (λ _ s'. Did blocksize s s')
          (λ e s'. Quit blocksize s s')
          (block_transfer user b dir t)
  unfolding block_transfer
  transfer-Ends b t l ne uio_read reads = rw (device_lem 0 blocksize k s inb b t l ne) (
      Ends.bind
        (on_file-Ends t (
          on_fs-Ends t.file (
            sfs_rwblock-Moved (reading b) t.file.fs l.intact.file.sound.held (omega arith)
              l.intact.file.sound.polite)))
        (λ block w (f, (fs2, (rest, polite, e3, e2), e1), e0).
          rw (e0, e1, e2, e3)
            (fetch-Ends b t _ _ (loaded 0 blocksize k s inb b t rest l ne polite) reads))
        (λ _ w (f, (fs2, (rest, polite, e2), e1), e0).
          rw (e0, e1, e2) (Quit-asked 0 blocksize k s inb b t rest l polite)))
  transfer-Ends b t l ne uio_write writes = gathered-Ends b t l ne writes (
      subst
        (λ w.
          Ends (Done zeros 0 blocksize s.uio) (Faulted s.uio) (uiomove user zeros 0 blocksize w))
        (sym l.same_uio) (uiomove-Ends user zeros 0 blocksize s.uio inb.ready.room))

  block_move-Ends :
      (b : ℕ) (t : Request)
      → Looked k b s t
      → Ends (λ _ s'. Did blocksize s s') (λ e s'. Quit blocksize s s') (block_move user b t)
  unfolding block_move
  block_move-Ends b t l = elim (Bool-cases (b == 0)) [
    | inr e ↦
        let room : leb blocksize t.uio.resid ≡ true =
          rw l.same_uio (ground (arith, inb.ready.room.asked)) in
        rw (e, kassert_pass _ _ t room)
          (transfer-Ends b t l (ground arith) t.uio.rw (ap (λ (u : Uio). u.rw) (sym l.same_uio)))
    | inl e ↦
        let none_ : b ≡ 0 = ground arith in
        let dir : s.uio.rw ≡ uio_read = must_read s.uio.rw (λ w. l.writes w none_) in
        let reads : is_read t.uio.rw ≡ true = rw l.same_uio (ap is_read dir) in
        rw (e, kassert_pass _ _ t reads, l.same_uio)
          (Ends.mono (on_uio-Ends t (uiomovezeros-Ends user blocksize s.uio inb.ready.room dir))
            (λ _ w (v, (moved, adv), e0). rw e0 (
              fetched 0 blocksize k s inb t v zeros l.intact
                (λ j h. rw e at (read_bytes s k t b l.intact inb.low l.at j h)) dir moved adv))
            (λ _ w (v, (_, _, r), e0).
              rw e0 (Quit-Intact blocksize s (record { file = t.file; uio = v }) l.intact r)))
  ]

  -- A whole block that lies in the file is moved, or an error is returned.
  pub sfs_blockio-Ends :
      Ends (λ _ s'. Did blocksize s s') (λ e s'. Quit blocksize s s') (sfs_blockio user s)
  unfolding sfs_blockio
  sfs_blockio-Ends = Ends.bind (lookup-Ends 0 blocksize k s inb) block_move-Ends (λ e t q. q)
