-- ===== src/Sfs/Dir/Slots.antt =====
-- A slot of a directory is written: sfs_writedir of kern/fs/sfs/sfs_dir.c.
use project_os.Prelude.{
  ℕ, ◌+◌, ◌-◌, ◌*◌, ◌%◌, ◌^◌, ◌≤◌, ◌<◌, ◌≡◌, ◌≢◌, ◌∙◌, true, false, ◌&&◌, leb, arith, List, ◌==◌,
  ltb, if◌then◌else◌, Bool-cases, inl, inr,
}
use project_os.Outcome.Ends
use project_os.Outcome.Ends.{Ends, returns, fails}
use project_os.Sfs.{Block, File}
use project_os.Sfs.Block.{get_word}
use project_os.Sfs.Bmap.View.{IsFile}
use project_os.Sfs.Content.{max_size}
use project_os.Sfs.Meta.View.{Intact, Written}
use project_os.Sfs.Meta.Correct.{sfs_metaio_write, sfs_metaio_past}
use project_os.Sfs.Dir.{direntry_size, type_dir, name_len, sfs_writedir}
use project_os.Sfs.Dir.Names.{name_of, text_same}
use project_os.Sfs.Dir.View.{
  slot_bytes, slot_ino, slot_name, slots, slot_ino_same, slot_name_same, IsDir,
}
use project_os.Sfs.Dir.Findname.{Intact-refl}

-- Slot `i` holds an inode number and a name, and the other slots are as before.
pub record SlotSet (s : File) (i ino : ℕ) (name : List ℕ) (s' : File) : Type 0 where
  pub file : IsFile s'
  pub kind : s'.kind ≡ type_dir
  pub whole : s'.size % direntry_size ≡ 0
  pub fits : s'.size ≤ max_size
  pub slots_lem : slots s' ≡ (if i == slots s then slots s + 1 else slots s)
  pub ino_at : slot_ino s' i ≡ ino
  pub name_at : slot_name s' i ≡ name
  pub inos : (j : ℕ) → j < slots s → j ≢ i → slot_ino s' j ≡ slot_ino s j
  pub names : (j : ℕ) → j < slots s → j ≢ i → slot_name s' j ≡ slot_name s j
  pub lock : s'.lock ≡ s.lock

module _ (s : File) (d : IsDir s) (i : ℕ) (low : i ≤ slots s) (sd : Block) where
  module _ (room : i * direntry_size + direntry_size ≤ max_size) (s' : File)
      (w : Written (i * direntry_size) sd direntry_size s s') where
    written_here : (k : ℕ) → k < direntry_size → slot_bytes s' i k ≡ sd k
    written_here k h =
        let inside : (leb (i * direntry_size) (i * direntry_size + k)
              && ltb (i * direntry_size + k) (i * direntry_size + direntry_size))
            ≡ true =
          ground arith in
        let at : i * direntry_size + k - i * direntry_size ≡ k = omega arith in
        w.bytes (i * direntry_size + k) (omega arith) ∙ rw (inside, at)

    written_there :
        (j : ℕ)
        → j < slots s
        → j ≢ i
        → (k : ℕ) → k < direntry_size
        → slot_bytes s' j k ≡ slot_bytes s j k
    written_there j l ne k h =
        let outside : (leb (i * direntry_size) (j * direntry_size + k)
              && ltb (j * direntry_size + k) (i * direntry_size + direntry_size))
            ≡ false =
          ground arith in
        w.bytes (j * direntry_size + k) (omega (arith, d.fits)) ∙ rw outside

    here_ino : slot_ino s' i ≡ get_word sd 0
    unfolding slot_ino get_word
    here_ino = rw (
      written_here 0 (omega arith),
      written_here 1 (omega arith),
      written_here 2 (omega arith),
      written_here 3 (omega arith),
    )

    here_name : slot_name s' i ≡ name_of sd
    unfolding slot_name
    here_name =
        text_same (name_len - 1) (λ k. slot_bytes s' i (4 + k)) (λ k. sd (4 + k))
          (λ k h. written_here (4 + k) (omega arith))

    Written-SlotSet : SlotSet s i (get_word sd 0) (name_of sd) s'
    Written-SlotSet = record {
      file = w.file;
      kind = w.kind ∙ d.kind;
      whole = ground (arith, w.size, d.whole);
      fits = ground (arith, w.size, d.fits);
      slots_lem = ground (arith, w.size, d.whole);
      ino_at = here_ino;
      name_at = here_name;
      inos = λ j l ne. slot_ino_same s s' j (written_there j l ne);
      names = λ j l ne. slot_name_same s s' j (written_there j l ne);
      lock = w.lock;
    }

  -- The slot is written, or nothing changes.
  pub sfs_writedir-Ends :
      Ends
        (λ _ s'. SlotSet s i (get_word sd 0) (name_of sd) s')
        (λ e s'. Intact s s')
        (sfs_writedir i sd s)
  unfolding sfs_writedir
  sfs_writedir-Ends =
      let at : i * direntry_size % 2 ^ 32 ≡ i * direntry_size = omega (arith, d.fits) in
      elim (Bool-cases (ltb (i * direntry_size) max_size)) [
        | inl e ↦
            let l : i * direntry_size < max_size = ground arith in
            rw at (
              Ends.mono
                (sfs_metaio_write (i * direntry_size) sd direntry_size (omega arith) (omega arith) s
                  d.file)
                (λ _ s' w. Written-SlotSet (omega arith) s' w) (λ e s' a. a))
        | inr e ↦
            let l : max_size ≤ i * direntry_size = ground arith in
            rw
              (
                at,
                sfs_metaio_past (i * direntry_size) sd direntry_size _ s d.file.sound.held
                    (omega arith) (omega (arith, d.fits)),
              )
              (fails (Intact-refl s d.file))
      ]
