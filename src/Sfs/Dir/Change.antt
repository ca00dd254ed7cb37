-- ===== src/Sfs/Dir/Change.antt =====
-- What sfs_dir_link and sfs_dir_unlink of kern/fs/sfs/sfs_dir.c do to the map from names to inode
-- numbers that a directory is.
use project_os.Prelude.{
  ℕ, ◌<◌, ◌≡◌, ◌≢◌, ◌⊎◌, sym, ◌∙◌, arith, List, length, none, some, ◌==◌, Bool-cases, inl, inr, ap,
}
use project_os.Sfs.{File}
use project_os.Sfs.Dir.{name_len}
use project_os.Sfs.Dir.View.{
  slot_ino, slot_name, slots, IsDir, Has, Lacks, listing, listed-Finds, listed-Lacks, listing-Has,
}
use project_os.Sfs.Dir.Slots.{SlotSet}

-- Slot `i` was free, or lies just behind the last slot.
abbrev pub IsVacant : File → ℕ → Type 0
IsVacant s i = (i ≡ slots s) ⊎ ((i < slots s) × (slot_ino s i ≡ 0))

-- The directory is consistent and has the name, and is otherwise as before.
pub record Linked (s : File) (name : List ℕ) (ino i : ℕ) (s' : File) : Type 0 where
  pub dir : IsDir s'
  pub absent : listing s name ≡ none
  pub short : length name < name_len
  pub now : listing s' name ≡ some ino
  pub others : (m : List ℕ) → m ≢ name → listing s' m ≡ listing s m
  pub slot : Has s' (slots s') name i
  pub lock : s'.lock ≡ s.lock

module _ (s : File) (d : IsDir s) (i ino : ℕ) (name : List ℕ) (s' : File)
    (set : SlotSet s i ino name s') where
  -- A slot but `i` of the new directory is one of the old.
  old_slot : (j : ℕ) → j < slots s' → j ≢ i → j < slots s
  old_slot j h ne = ground (arith, set.slots_lem)

  kept_ino : (j : ℕ) → j < slots s' → j ≢ i → slot_ino s' j ≢ 0 → slot_ino s j ≢ 0
  kept_ino j h ne u z = u (set.inos j (old_slot j h ne) ne ∙ z)

  module _ (lacks : ino ≢ 0 → Lacks s (slots s) name) where
    apart_names :
        (j k : ℕ)
        → j ≡ i
        → k < slots s'
        → k ≢ i
        → slot_ino s' j ≢ 0
        → slot_ino s' k ≢ 0
        → slot_name s' j ≢ slot_name s' k
    apart_names j k at h ne uj uk e =
        let filled : ino ≢ 0 = λ z. uj (ap (slot_ino s') at ∙ set.ino_at ∙ z) in
        lacks filled k (old_slot k h ne) (kept_ino k h ne uk)
          (sym (set.names k (old_slot k h ne) ne) ∙ sym e ∙ ap (slot_name s') at ∙ set.name_at)

    SlotSet-IsDir : IsDir s'
    SlotSet-IsDir = record {
      file = set.file;
      kind = set.kind;
      whole = set.whole;
      fits = set.fits;
      unique = λ j k hj hk uj uk e. elim (Bool-cases (j == i)) [
        | inl ej ↦ elim (Bool-cases (k == i)) [
          | inl ek ↦ ground arith
          | inr ek ↦ absurd (apart_names j k (ground arith) hk (ground arith) uj uk e)
        ]
        | inr ej ↦ elim (Bool-cases (k == i)) [
          | inl ek ↦ absurd (apart_names k j (ground arith) hj (ground arith) uk uj (sym e))
          | inr ek ↦
              let nj : j ≢ i = ground arith in
              let nk : k ≢ i = ground arith in
              let lj = old_slot j hj nj in
              let lk = old_slot k hk nk in
              d.unique j k lj lk (kept_ino j hj nj uj) (kept_ino k hk nk uk)
                (sym (set.names j lj nj) ∙ e ∙ set.names k lk nk)
        ]
      ];
    }

    -- A name that slot `i` neither had nor has is listed as before.
    listing_other :
        (m : List ℕ)
        → (ino ≢ 0 → m ≢ name)
        → ((j : ℕ) → Has s (slots s) m j → j ≢ i)
        → listing s' m ≡ listing s m
    listing_other m ne away = elim (listed-Finds s (slots s) m) [
      | inl (j, h, e) ↦
          let off : j ≢ i = away j h in
          let kept : slot_ino s' j ≡ slot_ino s j = set.inos j h.inside off in
          let has : Has s' (slots s') m j = record {
            inside = ground (arith, h.inside, set.slots_lem);
            used = λ z. h.used (sym kept ∙ z);
            named = set.names j h.inside off ∙ h.named;
          } in
          listing-Has s' m j SlotSet-IsDir has ∙ ap some kept ∙ sym e
      | inr (lacks', e) ↦
          listed-Lacks s' (slots s') m (λ j l u z. elim (Bool-cases (j == i)) [
            | inl ej ↦
                let at : j ≡ i = ground arith in
                ne (λ o. u (ap (slot_ino s') at ∙ set.ino_at ∙ o))
                  (sym z ∙ ap (slot_name s') at ∙ set.name_at)
            | inr ej ↦
                let off : j ≢ i = ground arith in
                lacks' j (old_slot j l off) (kept_ino j l off u)
                  (sym (set.names j (old_slot j l off) off) ∙ z)
          ])
          ∙ sym e
    ]

  -- The new entry.
  pub SlotSet-Linked :
      IsVacant s i
      → ino ≢ 0
      → length name < name_len
      → Lacks s (slots s) name
      → Linked s name ino i s'
  SlotSet-Linked vacant filled short lacks =
      let has : Has s' (slots s') name i = record {
        inside = ground (arith, vacant, set.slots_lem);
        used = λ z. filled (sym set.ino_at ∙ z);
        named = set.name_at;
      } in
      record {
        dir = SlotSet-IsDir (λ _. lacks);
        absent = listed-Lacks s (slots s) name lacks;
        short = short;
        now = listing-Has s' name i (SlotSet-IsDir (λ _. lacks)) has ∙ ap some set.ino_at;
        others = λ m ne.
            listing_other (λ _. lacks) m (λ _. ne)
              (λ j h e. elim vacant [
                | inl at ↦ absurd (omega (arith, h.inside))
                | inr (l, z) ↦ h.used (ap (slot_ino s) e ∙ z)
              ]);
        slot = has;
        lock = set.lock;
      }

-- The directory is consistent and has no entry with the name that slot `i` had, and is otherwise
-- as before.
pub record Unlinked (s : File) (i : ℕ) (s' : File) : Type 0 where
  pub dir : IsDir s'
  pub gone : listing s' (slot_name s i) ≡ none
  pub others : (m : List ℕ) → m ≢ slot_name s i → listing s' m ≡ listing s m
  pub lock : s'.lock ≡ s.lock

-- The entry is cleared.
pub SlotSet-Unlinked :
    (s : File) (i ino : ℕ) (name : List ℕ) (s' : File)
    → IsDir s
    → i < slots s
    → slot_ino s i ≢ 0
    → ino ≡ 0
    → SlotSet s i ino name s'
    → Unlinked s i s'
SlotSet-Unlinked s i ino name s' d low used clear set =
    let lacks : ino ≢ 0 → Lacks s (slots s) name = λ o. absurd (o clear) in
    record {
      dir = SlotSet-IsDir s d i ino name s' set lacks;
      gone = listed-Lacks s' (slots s') (slot_name s i) (λ j l u z. elim (Bool-cases (j == i)) [
        | inl ej ↦ let at : j ≡ i = ground arith in u (ap (slot_ino s') at ∙ set.ino_at ∙ clear)
        | inr ej ↦
            let off : j ≢ i = ground arith in
            let l' = old_slot s d i ino name s' set j l off in
            off (
              d.unique j i l' low (kept_ino s d i ino name s' set j l off u) used
                (sym (set.names j l' off) ∙ z))
      ]);
      others = λ m ne.
          listing_other s d i ino name s' set lacks m (λ o. absurd (o clear))
            (λ j h e. ne (sym h.named ∙ ap (slot_name s) e));
      lock = set.lock;
    }
