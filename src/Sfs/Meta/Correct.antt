-- ===== src/Sfs/Meta/Correct.antt =====
-- What sfs_metaio of kern/fs/sfs/sfs_io.c does to the bytes of a file.
use project_os.Prelude.{
  ℕ, ◌+◌, ◌/◌, ◌%◌, ◌^◌, ◌≤◌, ◌<◌, ◌≡◌, ◌≢◌, Bool, true, false, arith, ◌==◌, Bool-cases, inl, inr,
}
use project_os.Outcome.{err, efbig}
use project_os.Outcome.Exec.{kassert_pass}
use project_os.Outcome.Ends
use project_os.Outcome.Ends.{Ends, returns, fails}
use project_os.Uio.{UioRw, uio_read, uio_write, is_write, copy_to}
use project_os.Sfs.{Block, File, blocksize}
use project_os.Sfs.Io.{with_answers, sfs_readblock-Ends, sfs_writeblock-Ends}
use project_os.Sfs.Bmap.View.{entry, max_blocks, IsFile}
use project_os.Sfs.Bmap.Steps.{with_fs}
use project_os.Sfs.Bmap.Mapping.{Mapped, on_fs-Ends}
use project_os.Sfs.Bmap.Correct.{sfs_bmap-Ends, sfs_bmap_past}
use project_os.Sfs.Meta.{meta_move, meta_block, sfs_metaio}
use project_os.Sfs.Meta.View.{
  Intact, Written, Intact-trans, Written-trans, Intact-answers, Intact-Failed, Intact-Mapped,
  Filled, read_hole, read_block, write_block,
}

module _ (pos : ℕ) (buf : Block) (len : ℕ) (within : pos % blocksize + len ≤ blocksize)
    (low : pos / blocksize < max_blocks) where
  module _ (s : File) (file : IsFile s) where
    vnblock : pos / blocksize % 2 ^ 32 ≡ pos / blocksize
    vnblock = omega (arith, low)

    entry-Mapped :
        (doalloc : Bool) (b : ℕ) (t : File)
        → Mapped s (pos / blocksize) doalloc b t
        → entry t (pos / blocksize) ≡ b
    entry-Mapped doalloc b t m = ground (arith, m.entries (pos / blocksize) low)

    Filled-Intact :
        (t : File) (out : Block) → Intact s t → Filled pos buf len t out → Filled pos buf len s out
    Filled-Intact t out whole f i = ground (arith, f i, whole.same (pos + i))

    meta_block_read :
        (b : ℕ) (t : File)
        → Mapped s (pos / blocksize) false b t
        → Ends
            (λ out s'. Filled pos buf len s out × Intact s s')
            (λ e s'. Intact s s')
            (meta_block pos buf len uio_read b t)
    unfolding meta_block meta_move
    meta_block_read b t m =
        let whole = Intact-Mapped s (pos / blocksize) false b t file low m in
        let at = entry-Mapped false b t m in
        elim (Bool-cases (b == 0)) [
          | inl e ↦ rw e (
              returns (
                Filled-Intact t _ whole
                    (read_hole pos buf len within low t m.file b at (ground arith)),
                whole,
              ))
          | inr e ↦ rw e (
              Ends.bind
                (on_fs-Ends t (sfs_readblock-Ends b t.fs m.file.sound.held m.file.sound.polite))
                (λ metaiobuf u (fs1, (rest, polite, e2, e1), e0).
                  rw (e0, e1, e2)
                    (returns (
                      Filled-Intact t _ whole
                          (read_block pos buf len within low t m.file b at (ground arith)),
                      Intact-trans s t _ whole (Intact-answers t rest m.file polite),
                    )))
                (λ _ u (fs1, (rest, polite, e1), e0).
                  rw (e0, e1) (Intact-trans s t _ whole (Intact-answers t rest m.file polite))))
        ]

    meta_block_write :
        (b : ℕ) (t : File)
        → Mapped s (pos / blocksize) true b t
        → Ends
            (λ out s'. Written pos buf len s s')
            (λ e s'. Intact s s')
            (meta_block pos buf len uio_write b t)
    unfolding meta_block meta_move
    meta_block_write b t m =
        let whole = Intact-Mapped s (pos / blocksize) true b t file low m in
        let at = entry-Mapped true b t m in
        let e : (b == 0) ≡ false = ground (arith, m.allocates) in
        let some_ : entry t (pos / blocksize) ≢ 0 = ground (arith, m.allocates) in
        rw e (
          Ends.bind (on_fs-Ends t (sfs_readblock-Ends b t.fs m.file.sound.held m.file.sound.polite))
            (λ metaiobuf u (fs1, (rest, polite, e2, e1), e0).
              rw (e0, e1, e2)
                (Ends.bind
                  (on_fs-Ends (with_fs t (with_answers t.fs rest)) (
                    sfs_writeblock-Ends b (copy_to (t.disk b) (pos % blocksize) buf len)
                      (with_answers t.fs rest) m.file.sound.held polite))
                  (λ _ v (fs2, (rest', polite', _, e4), e3).
                    rw (e3, e4, ← at)
                      (returns (
                        Written-trans pos buf len s t _ whole
                          (write_block pos buf len within low t m.file some_ rest' polite'))))
                  (λ _ v (fs2, (rest', polite', e4), e3).
                    rw (e3, e4)
                      (Intact-trans s t _ whole (Intact-answers t rest' m.file polite')))))
            (λ _ u (fs1, (rest, polite, e1), e0).
              rw (e0, e1) (Intact-trans s t _ whole (Intact-answers t rest m.file polite))))

    -- On a consistent file, for a region that lies in one block of the file, a metadata read does
    -- not panic. If it returns 0 the caller's buffer has the bytes of the file from `pos` on, zeros
    -- where the file has no block, and is beyond `len` as before. The file, its size and its kind
    -- do not change, also where it returns an error.
    pub sfs_metaio_read :
        Ends
          (λ out s'. Filled pos buf len s out × Intact s s')
          (λ e s'. Intact s s')
          (sfs_metaio pos buf len uio_read s)
    unfolding sfs_metaio
    sfs_metaio_read =
        rw (kassert_pass s.lock.held _ s file.sound.held, vnblock)
          (Ends.bind (sfs_bmap-Ends s (pos / blocksize) false file low) meta_block_read
            (λ e t f. Intact-Failed s t file f))

    -- On a consistent file, for a region that lies in one block of the file, and on a device that
    -- answers no write with an I/O error, a metadata write does not panic. If it returns 0 the file
    -- has the caller's bytes in the region and is elsewhere as before, and its size grows to the
    -- region's end if it was smaller. If it returns an error the bytes and the size are as before.
    -- Either way the file stays consistent.
    pub sfs_metaio_write :
        Ends
          (λ out s'. Written pos buf len s s')
          (λ e s'. Intact s s')
          (sfs_metaio pos buf len uio_write s)
    unfolding sfs_metaio
    sfs_metaio_write =
        rw (kassert_pass s.lock.held _ s file.sound.held, vnblock)
          (Ends.bind (sfs_bmap-Ends s (pos / blocksize) true file low) meta_block_write
            (λ e t f. Intact-Failed s t file f))

-- At a position that no file reaches a metadata request returns EFBIG and changes nothing.
pub sfs_metaio_past :
    (pos : ℕ) (buf : Block) (len : ℕ) (dir : UioRw) (s : File)
    → s.lock.held ≡ true
    → max_blocks ≤ pos / blocksize
    → pos / blocksize < 2 ^ 32
    → sfs_metaio pos buf len dir s ≡ (err efbig, s)
unfolding sfs_metaio
sfs_metaio_past pos buf len dir s held past small =
    let vnblock : pos / blocksize % 2 ^ 32 ≡ pos / blocksize = omega (arith, small) in
    rw (
      kassert_pass s.lock.held _ s held,
      vnblock,
      sfs_bmap_past s (pos / blocksize) (is_write dir) held past,
    )
