-- ===== src/Sfs/Dir/Link.antt =====
-- The theorems on sfs_dir_link and sfs_dir_unlink of kern/fs/sfs/sfs_dir.c.
use project_os.Prelude.{
  ℕ, zero, suc, ◌+◌, ◌-◌, ◌^◌, ◌≤◌, ◌<◌, ◌≡◌, ◌≢◌, refl, sym, ◌∙◌, true, ◌&&◌, leb, arith, List,
  length, Option, none, some, ltb, Bool-cases, inl, inr, subst,
}
use project_os.Outcome.Exec.{pure}
use project_os.Outcome.Ends
use project_os.Outcome.Ends.{Ends, returns, fails}
use project_os.Libc.{Memory, chars}
use project_os.Libc.Correct.{StringAt, strlen_lem, strcpy_lem}
use project_os.Sfs.{File}
use project_os.Sfs.Block.{zeros, get_word, set_word, get_word-set_word}
use project_os.Sfs.Meta.View.{Intact, Intact-trans}
use project_os.Sfs.Dir.{
  name_len, Search, choose_slot, link_entry, link_named, sfs_dir_link, sfs_dir_unlink,
}
use project_os.Sfs.Dir.Names.{name_of, IsText, text-chars, chars-IsLength}
use project_os.Sfs.Dir.View.{
  slot_ino, slots, IsDir, Has, Lacks, listed, listing, Intact-ino, Intact-name,
}
use project_os.Sfs.Dir.Findname.{
  Intact-refl, Intact-slots, Intact-IsDir, nentries_lem, Searched, sfs_dir_findname-Ends,
}
use project_os.Sfs.Dir.Slots.{SlotSet, sfs_writedir-Ends}
use project_os.Sfs.Dir.Change.{IsVacant, Linked, SlotSet-Linked, Unlinked, SlotSet-Unlinked}

module _ (s t : File) (d : IsDir s) (a : Intact s t) where
  listed_same : (n : ℕ) (m : List ℕ) → n ≤ slots s → listed t n m ≡ listed s n m
  unfolding listed
  listed_same zero m h = refl
  listed_same (suc n) m h = rw (
    Intact-ino s t d a n (omega arith),
    Intact-name s t d a n (omega arith),
    listed_same n m (omega arith),
  )

  -- The map does not change where the bytes of the file do not.
  pub listing_same : (m : List ℕ) → listing t m ≡ listing s m
  listing_same m = rw (Intact-slots s t a) (listed_same (slots s) m (omega arith))

  Has-Intact : (name : List ℕ) (i : ℕ) → Has s (slots s) name i → Has t (slots t) name i
  Has-Intact name i h = record {
    inside = rw (Intact-slots s t a) h.inside;
    used = rw (Intact-ino s t d a i h.inside) h.used;
    named = Intact-name s t d a i h.inside ∙ h.named;
  }

  Searched-Intact :
      (name : List ℕ) (f : Search) → Searched s name (slots s) f → Searched t name (slots t) f
  Searched-Intact name f done = record {
    hit = λ h.
        let (has, e) = done.hit h in
        (Has-Intact name f.slot has, e ∙ sym (Intact-ino s t d a f.slot has.inside));
    miss = λ h.
        rw (Intact-slots s t a)
          (λ j l. rw (Intact-ino s t d a j l, Intact-name s t d a j l) (done.miss h j l));
    none_free =
        λ h. rw (Intact-slots s t a) (λ j l. rw (Intact-ino s t d a j l) (done.none_free h j l));
    some_free = λ j h.
        let (l, e) = done.some_free j h in (rw (Intact-slots s t a) l, Intact-ino s t d a j l ∙ e);
  }

  Linked-Intact :
      (name : List ℕ) (ino i : ℕ) (s' : File) → Linked t name ino i s' → Linked s name ino i s'
  Linked-Intact name ino i s' l = record {
    dir = l.dir;
    absent = sym (listing_same name) ∙ l.absent;
    short = l.short;
    now = l.now;
    others = λ m ne. l.others m ne ∙ listing_same m;
    slot = l.slot;
    lock = l.lock ∙ a.lock;
  }

-- The new entry on the caller's stack.
module _ (name : List ℕ) (ino : ℕ) (t : IsText name) (short : length name < name_len) (sd : Memory)
    (at : StringAt (chars name) (length name) 4 0 (set_word zeros 0 ino) sd) where
  entry_ino : ino < 2 ^ 32 → get_word sd 0 ≡ ino
  unfolding get_word
  entry_ino small = rw (at 0, at 1, at 2, at 3) (get_word-set_word zeros 0 ino 0 small)

  entry_text : name_of sd ≡ name
  entry_text =
      text-chars (name_len - 1) (λ k. sd (4 + k)) name t (omega arith)
        (λ k h.
          let inside : (leb (4 + 0) (4 + k) && leb (4 + k) (4 + length name)) ≡ true =
            ground arith in
          let off : 4 + k - 4 ≡ k = omega arith in at (4 + k) ∙ rw (inside, off))

module _ (s : File) (d : IsDir s) (name : List ℕ) (ino : ℕ) (t : IsText name) (filled : ino ≢ 0)
    (small : ino < 2 ^ 32) where
  choose_slot-Vacant :
      (o : Option ℕ)
      → (o ≡ none → (j : ℕ) → j < slots s → slot_ino s j ≢ 0)
      → ((j : ℕ) → o ≡ some j → (j < slots s) × (slot_ino s j ≡ 0))
      → (i : ℕ) × (choose_slot o s ≡ pure i s) × IsVacant s i
  choose_slot-Vacant none full free = (slots s, nentries_lem s d, inl refl)
  choose_slot-Vacant (some i) full free = (i, refl, inr (free i refl))

  vacant_le : (i : ℕ) → IsVacant s i → i ≤ slots s
  vacant_le i (inl e) = omega arith
  vacant_le i (inr (l, e)) = omega arith

  link_entry-Ends :
      (i : ℕ) (o : Option ℕ)
      → choose_slot o s ≡ pure i s
      → IsVacant s i
      → length name < name_len
      → Lacks s (slots s) name
      → Ends (λ slot s'. Linked s name ino slot s') (λ e s'. Intact s s') (link_entry name ino o s)
  unfolding link_entry
  link_entry-Ends i o choice vacant short lacks =
      let (sd, e, at) =
        strcpy_lem (chars name) (length name) (chars-IsLength name t) 4 (suc (length name))
          (set_word zeros 0 ino) (omega arith) in
      rw (choice, e)
        (Ends.bind (sfs_writedir-Ends s d i (vacant_le i vacant) sd)
          (λ _ s' set. returns (
            SlotSet-Linked s d i ino name s'
              (subst (λ v. SlotSet s i v name s') (entry_ino name ino t short sd at small)
                (subst (λ v. SlotSet s i (get_word sd 0) v s') (entry_text name ino t short sd at)
                  set))
              vacant filled short lacks))
          (λ e s' a. a))

  link_named-Ends :
      (f : Search)
      → Searched s name (slots s) f
      → Ends (λ slot s'. Linked s name ino slot s') (λ e s'. Intact s s') (link_named name ino f s)
  unfolding link_named
  link_named-Ends f done = elim (Bool-cases f.found) [
    | inl e ↦ rw e (fails (Intact-refl s d.file))
    | inr e ↦
        let len =
          strlen_lem (chars name) (length name) (chars-IsLength name t) (suc (length name))
            (omega arith) in
        elim (Bool-cases (ltb name_len (length name + 1))) [
          | inl long ↦ rw (e, len, long) (fails (Intact-refl s d.file))
          | inr fits ↦
              let (i, choice, vacant) =
                choose_slot-Vacant f.emptyslot done.none_free done.some_free in
              rw (e, len, fits)
                (link_entry-Ends i f.emptyslot choice vacant (ground arith) (done.miss e))
        ]
  ]

-- In a consistent directory, for an inode number that is not 0 and fits 32 bits, and on a device
-- that answers no write with an I/O error, sfs_dir_link does not panic. If it returns 0 the name
-- was not in the directory and is at most 59 bytes long; the directory, which stays consistent, now
-- has the name with that number in the slot that is handed back, and every other name as before. If
-- it returns an error the directory is as before.
pub sfs_dir_link-Ends :
    (s : File) (name : List ℕ) (ino : ℕ)
    → IsDir s
    → IsText name
    → ino ≢ 0
    → ino < 2 ^ 32
    → Ends (λ slot s'. Linked s name ino slot s') (λ e s'. Intact s s') (sfs_dir_link name ino s)
unfolding sfs_dir_link
sfs_dir_link-Ends s name ino d t filled small =
    Ends.bind (sfs_dir_findname-Ends s d name t)
      (λ f u (done, a).
        Ends.mono
          (link_named-Ends u (Intact-IsDir s u d a) name ino t filled small f
            (Searched-Intact s u d a name f done))
          (λ slot s' l. Linked-Intact s u d a name ino slot s' l)
          (λ e s' b. Intact-trans s u s' a b))
      (λ e u a. a)

-- In a consistent directory sfs_dir_unlink, at a slot that is in use, and on a device that answers
-- no write with an I/O error, does not panic. If it returns 0 the directory, which stays
-- consistent, no longer has the name of that slot, and has every other name as before. If it
-- returns an error the directory is as before.
pub sfs_dir_unlink-Ends :
    (s : File) (i : ℕ)
    → IsDir s
    → i < slots s
    → slot_ino s i ≢ 0
    → Ends (λ _ s'. Unlinked s i s') (λ e s'. Intact s s') (sfs_dir_unlink i s)
unfolding sfs_dir_unlink
sfs_dir_unlink-Ends s i d low used =
    Ends.mono (sfs_writedir-Ends s d i (omega arith) (set_word zeros 0 0))
      (λ _ s' set.
        SlotSet-Unlinked s i _ _ s' d low used (get_word-set_word zeros 0 0 0 (omega arith)) set)
      (λ e s' a. a)
