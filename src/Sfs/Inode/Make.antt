-- ===== src/Sfs/Inode/Make.antt =====
-- What sfs_makeobj of sfs_inode.c promises.
use project_os.Prelude.{
  ℕ, ◌≡◌, ◌≢◌, inl, inr, refl, ◌∙◌, subst, arith, Bool, true, false, ◌==◌, if◌then◌else◌, List, [],
  ◌∷◌, ◌++◌, length,
}
use project_os.Outcome.{Outcome}
use project_os.Outcome.Exec.{continue}
use project_os.Outcome.Ends
use project_os.Outcome.Ends.{Ends, returns, fails}
use project_os.Bitmap.{bitmap_isset}
use project_os.Sfs.{Answer, Fs}
use project_os.Sfs.Block.{zeros, get_word}
use project_os.Sfs.Io.{with_answers}
use project_os.Sfs.Balloc.{
  IsSound, NewBlock, Freed, Unchanged, sfs_balloc, sfs_bfree, sfs_balloc-Ends, sfs_bfree-Ends,
}
use project_os.Sfs.Inode.{
  Mount, known_type, sfs_loadvnode, dinode_of, makeobj_end, load_object, sfs_makeobj,
}
use project_os.Sfs.Inode.Table.{IsInode, IsTable, FewReferences, Absent, Loadable, fresh}
use project_os.Sfs.Inode.Load.{LoadedAt, NotLoaded, sfs_loadvnode-Ends, answered-IsSound}

-- A new object: its inode was a free block, which is now in use; its vnode is new, at the end of the
-- table, with the type, one reference and no links, and has to be written. No other bit has changed.
pub record Made (s : Mount) (type_ i : ℕ) (s' : Mount) : Type 0 where
  pub table : IsTable s'
  pub ino : ℕ
  pub free : bitmap_isset s.fs.freemap ino ≡ false
  pub bits :
      (j : ℕ)
      → bitmap_isset s'.fs.freemap j ≡ (if ino == j then true else bitmap_isset s.fs.freemap j)
  pub place : i ≡ length s.vnodes
  pub vnodes : s'.vnodes ≡ s.vnodes ++ fresh ino type_ zeros ∷ []

-- No object: the freemap and the table are as they were.
pub record NotMade (s s' : Mount) : Type 0 where
  pub table : IsTable s'
  pub bits : (j : ℕ) → bitmap_isset s'.fs.freemap j ≡ bitmap_isset s.fs.freemap j
  pub vnodes : s'.vnodes ≡ s.vnodes

-- The table is over a file system where no bit of a loaded inode has changed.
moved-IsTable :
    (s : Mount) (fs' : Fs)
    → IsTable s
    → IsSound fs'
    → fs'.nblocks ≡ s.fs.nblocks
    → ((j : ℕ) → bitmap_isset s.fs.freemap j ≡ true → bitmap_isset fs'.freemap j ≡ true)
    → IsTable (record s { fs = fs' })
moved-IsTable s fs' t sound size bits = record {
  sound = sound;
  blocks = λ i h.
      let b = t.blocks i h in
      record { inside = omega (arith, b.inside, size); marked = bits _ b.marked };
  counted = t.counted;
  distinct = t.distinct;
}

zeros_type : (dinode_of zeros).kind ≡ 0
unfolding dinode_of get_word
zeros_type = refl

module _ (s : Mount) (table : IsTable s) (type_ : ℕ) (some_ : type_ ≢ 0)
    (known : known_type type_ ≡ true) where
  module _ (ino : ℕ) (fs1 : Fs) (new : NewBlock s.fs ino fs1) where
    abbrev started : Mount
    started = record s { fs = fs1 }

    started-IsTable : IsTable started
    started-IsTable =
        moved-IsTable s fs1 table new.sound new.nblocks (λ j h. ground (arith, new.bits j))

    new-IsInode : IsInode fs1 ino
    new-IsInode = record {
      inside = omega (arith, new.inside, new.nblocks);
      marked = ground (arith, new.bits ino);
    }

    absent : Absent started ino
    absent i h e =
        let m = (table.blocks i h).marked in
        let m' : bitmap_isset s.fs.freemap ino ≡ true =
          subst (λ k. bitmap_isset s.fs.freemap k ≡ true) e m in
        ground (arith, new.free)

    loads : Loadable type_ (dinode_of (fs1.disk ino))
    loads =
        let z : fs1.disk ino ≡ zeros = ground (arith, new.disk ino) in
        let f : (type_ == 0) ≡ false = ground arith in (rw f known, λ h. rw z zeros_type)

    loaded-Made : (i : ℕ) (s' : Mount) → LoadedAt started ino type_ i s' → Made s type_ i s'
    loaded-Made i s' l = elim l.how [
      | inl (low, same, _) ↦ absurd (absent i low same)
      | inr (_, (ei, rest, polite, es)) ↦
          let z : fs1.disk ino ≡ zeros = ground (arith, new.disk ino) in
          record {
            table = l.table;
            ino = ino;
            free = new.free;
            bits = λ j. rw es (new.bits j);
            place = ei;
            vnodes = rw (es, z);
          }
    ]

    sfs_bfree-NotMade :
        (fs2 : Fs) (rest : List Answer)
        → Freed (with_answers fs1 rest) ino fs2
        → NotMade s (record s { fs = fs2 })
    sfs_bfree-NotMade fs2 rest f =
        let same : (j : ℕ) → bitmap_isset fs2.freemap j ≡ bitmap_isset s.fs.freemap j =
          λ j. ground (arith, f.bits j, new.bits j, new.free) in
        record {
          table = moved-IsTable s fs2 table f.sound (f.nblocks ∙ new.nblocks) (λ j h. same j ∙ h);
          bits = same;
          vnodes = refl;
        }

    given_back :
        (rest : List Answer) (r : Outcome (Unit {0}) × Fs)
        → Ends (λ _ fs'. Freed (with_answers fs1 rest) ino fs') (λ e fs'. ⊥) r
        → Ends {S = Mount} {A = Unit {0}}
            (λ _ s'. NotMade s s')
            (λ e s'. NotMade s s')
            (r.0, record s { fs = r.1 })
    given_back rest _ (returns {s = fs2} f) = returns (sfs_bfree-NotMade fs2 rest f)
    given_back rest _ (fails f) = fails (absurd f)

    object-Ends :
        (r : Outcome ℕ × Mount)
        → Ends (LoadedAt started ino type_) (λ e s'. NotLoaded started ino s') r
        → Ends (Made s type_) (λ e s'. NotMade s s') (makeobj_end ino r.0 r.1)
    object-Ends _ (returns {a = i} {s = s'} l) = returns (loaded-Made i s' l)
    object-Ends _ (fails n) =
        let (rest, polite, e) = n.answered in
        let other : ino ≢ 0 = λ z.
          let f : bitmap_isset s.fs.freemap 0 ≡ false = rw z at new.free in
          ground (arith, table.sound.super) in
        rw e (
          Ends.bind
            (given_back rest (sfs_bfree ino (with_answers fs1 rest)) (
              sfs_bfree-Ends (with_answers fs1 rest) ino
                (answered-IsSound fs1 rest new.sound polite) new-IsInode.inside other
                new-IsInode.marked))
            (λ _ s' f. fails f) (λ e s' f. f))

  -- On a sound file system, with a table where every loaded inode is in a block in use and none is
  -- loaded twice, with no reference count at the maximum of an int, for the type of a file or a
  -- directory, and on a device that answers no write with an I/O error, sfs_makeobj does not panic.
  -- If it returns 0, the object is new: its inode is a block that was free, it is the last of the
  -- table with one reference and no links, and no other bit of the freemap has changed. If it
  -- returns an error, the block that it may have taken has been given back.
  pub sfs_makeobj-Ends :
      (memory table_room : Bool)
      → FewReferences s
      → Ends (Made s type_) (λ e s'. NotMade s s') (sfs_makeobj memory table_room type_ s)
  unfolding sfs_makeobj
  sfs_makeobj-Ends memory table_room few = made (sfs_balloc s.fs) (sfs_balloc-Ends s.fs table.sound)
    where
      made :
          (r : Outcome ℕ × Fs)
          → Ends (NewBlock s.fs) (λ e fs'. Unchanged s.fs fs') r
          → Ends
              (Made s type_)
              (λ e s'. NotMade s s')
              (continue r.0 (load_object memory table_room type_) (record s { fs = r.1 }))
      made _ (returns {a = ino} {s = fs1} new) =
          object-Ends ino fs1 new (sfs_loadvnode memory table_room ino type_ (started ino fs1 new))
            (sfs_loadvnode-Ends (started ino fs1 new) (started-IsTable ino fs1 new) memory
              table_room ino type_ (new-IsInode ino fs1 new) (λ _. absent ino fs1 new) few
              (λ _. loads ino fs1 new))
      made _ (fails {s = fs1} u) = fails (record {
        table = moved-IsTable s fs1 table u.sound u.nblocks (λ j h. u.bits j ∙ h);
        bits = u.bits;
        vnodes = refl;
      })
