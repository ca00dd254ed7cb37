-- ===== src/Sfs/Dir/Findname.antt =====
-- The search of a directory, sfs_dir_findname of kern/fs/sfs/sfs_dir.c.
use project_os.Prelude.{
  ℕ, zero, suc, ◌+◌, ◌-◌, ◌*◌, ◌/◌, ◌%◌, ◌^◌, ◌≤◌, ◌<◌, ◌≡◌, ◌≢◌, refl, sym, ◌∙◌, true, false, not,
  arith, List, none, some, ◌==◌, ltb, Bool-cases, and_below, inl, inr, ap, subst,
}
use project_os.Outcome.Exec.{kassert_pass, pure}
use project_os.Outcome.Ends
use project_os.Outcome.Ends.{Ends, returns, fails}
use project_os.Sfs.{Block, File}
use project_os.Sfs.Block.{zeros, get_word}
use project_os.Sfs.Bmap.View.{IsFile}
use project_os.Sfs.Meta.View.{Intact, Intact-trans}
use project_os.Sfs.Meta.Correct.{sfs_metaio_read}
use project_os.Sfs.Dir.{
  direntry_size, type_dir, name_len, sfs_readdir, sfs_dir_nentries, Search, note_slot, scan_slots,
  nothing_yet, is_zero, sfs_dir_findname,
}
use project_os.Sfs.Dir.Names.{name_of, text_same, IsText, strcmp_name}
use project_os.Sfs.Dir.View.{
  slot_bytes, slot_ino, slot_name, slots, IsDir, Has, Lacks, Intact-ino, Intact-name,
}

pub Intact-refl : (s : File) → IsFile s → Intact s s
Intact-refl s file = record {
  file = file;
  same = λ o h. refl;
  size = refl;
  kind = refl;
  nblocks = refl;
  lock = refl;
}

pub Intact-slots : (s t : File) → Intact s t → slots t ≡ slots s
Intact-slots s t a = ap (λ n. n / direntry_size) a.size

pub Intact-IsDir : (s t : File) → IsDir s → Intact s t → IsDir t
Intact-IsDir s t d a = record {
  file = a.file;
  kind = a.kind ∙ d.kind;
  whole = rw a.size d.whole;
  fits = rw a.size d.fits;
  unique = λ i j hi hj.
      let hi' : i < slots s = omega (arith, a.size) in
      let hj' : j < slots s = omega (arith, a.size) in
      rw
        (
          Intact-ino s t d a i hi',
          Intact-ino s t d a j hj',
          Intact-name s t d a i hi',
          Intact-name s t d a j hj',
        )
        (d.unique i j hi' hj');
}

-- sfs_dir_nentries neither panics nor fails in a directory.
pub nentries_lem : (s : File) → IsDir s → sfs_dir_nentries s ≡ pure (slots s) s
unfolding sfs_dir_nentries
nentries_lem s d =
    let isdir : (s.kind == type_dir) ≡ true = ground (arith, d.kind) in
    let whole : (s.size % direntry_size == 0) ≡ true = ground (arith, d.whole) in rw (isdir, whole)

-- The bytes of the slot are read.
pub sfs_readdir-Ends :
    (s : File) (i : ℕ)
    → IsDir s
    → i < slots s
    → Ends
        (λ tsd s'. ((k : ℕ) → k < direntry_size → tsd k ≡ slot_bytes s i k) × Intact s s')
        (λ e s'. Intact s s')
        (sfs_readdir i s)
unfolding sfs_readdir
sfs_readdir-Ends s i d low =
    let at : i * direntry_size % 2 ^ 32 ≡ i * direntry_size = omega (arith, d.fits) in
    rw at (
      Ends.mono
        (sfs_metaio_read (i * direntry_size) zeros direntry_size (omega arith)
          (omega (arith, d.fits)) s d.file)
        (λ tsd s' (filled, a).
          (λ k h. filled k ∙ (let e : ltb k direntry_size ≡ true = ground arith in rw e), a))
        (λ e s' a. a))

-- What the variables of the search say of the first `i` slots.
pub record Searched (s : File) (name : List ℕ) (i : ℕ) (f : Search) : Type 0 where
  pub hit : f.found ≡ true → Has s i name f.slot × (f.ino ≡ slot_ino s f.slot)
  pub miss : f.found ≡ false → Lacks s i name
  pub none_free : f.emptyslot ≡ none → (j : ℕ) → j < i → slot_ino s j ≢ 0
  pub some_free : (j : ℕ) → f.emptyslot ≡ some j → (j < i) × (slot_ino s j ≡ 0)

module _ (s : File) (d : IsDir s) (name : List ℕ) (t : IsText name) where
  module _ (i : ℕ) (low : i < slots s) (tsd : Block)
      (at : (k : ℕ) → k < direntry_size → tsd k ≡ slot_bytes s i k) (f : Search)
      (done : Searched s name i f) where
    tsd_ino : get_word tsd 0 ≡ slot_ino s i
    unfolding slot_ino get_word
    tsd_ino = rw (at 0 (omega arith), at 1 (omega arith), at 2 (omega arith), at 3 (omega arith))

    tsd_name : name_of tsd ≡ slot_name s i
    unfolding slot_name
    tsd_name =
        text_same (name_len - 1) (λ k. tsd (4 + k)) (λ k. slot_bytes s i (4 + k))
          (λ k h. at (4 + k) (omega arith))

    earlier : f.found ≡ true → Has s (i + 1) name f.slot × (f.ino ≡ slot_ino s f.slot)
    earlier h =
        let (h', e) = done.hit h in
        (record { inside = omega (arith, h'.inside); used = h'.used; named = h'.named }, e)

    -- A free slot.
    noted_free : slot_ino s i ≡ 0 → Searched s name (i + 1) (record f { emptyslot = some i })
    noted_free free = record {
      hit = earlier;
      miss = λ h.
          and_below (λ j. slot_ino s j ≢ 0 → slot_name s j ≢ name) i (λ u. absurd (u free))
            (done.miss h);
      none_free = λ h. cc;
      some_free = λ j h. let e : i ≡ j = ground arith in (omega arith, rw (← e) free);
    }

    -- A slot with another name.
    noted_other : slot_ino s i ≢ 0 → slot_name s i ≢ name → Searched s name (i + 1) f
    noted_other used other = record {
      hit = earlier;
      miss = λ h.
          and_below (λ j. slot_ino s j ≢ 0 → slot_name s j ≢ name) i (λ u. other) (done.miss h);
      none_free = λ h. and_below (λ j. slot_ino s j ≢ 0) i used (done.none_free h);
      some_free = λ j h. let (l, e) = done.some_free j h in (omega arith, e);
    }

    -- The slot with the name: no slot before has it.
    noted_first : slot_ino s i ≢ 0 → slot_name s i ≡ name → f.found ≡ false
    noted_first used named = elim (Bool-cases f.found) [
      | inr e ↦ e
      | inl e ↦
          let (h, _) = done.hit e in
          let at : f.slot ≡ i =
            d.unique f.slot i (omega (arith, h.inside)) low h.used used (h.named ∙ sym named) in
          absurd (omega (arith, h.inside))
    ]

    noted_name :
        slot_ino s i ≢ 0
        → slot_name s i ≡ name
        → Searched s name (i + 1) (record f { found = true; ino = get_word tsd 0; slot = i })
    noted_name used named = record {
      hit = λ h. (record { inside = omega arith; used = used; named = named }, tsd_ino);
      miss = λ h. cc;
      none_free = λ h. and_below (λ j. slot_ino s j ≢ 0) i used (done.none_free h);
      some_free = λ j h. let (l, e) = done.some_free j h in (omega arith, e);
    }

    note_slot-Ends :
        (u : File)
        → Intact s u
        → Ends
            (λ f' s'. Searched s name (i + 1) f' × Intact s s')
            (λ e s'. Intact s s')
            (note_slot name i tsd f u)
    unfolding note_slot
    note_slot-Ends u a = elim (Bool-cases (get_word tsd 0 == 0)) [
      | inl e ↦ rw e (returns (noted_free (ground (arith, tsd_ino)), a))
      | inr e ↦
          let used : slot_ino s i ≢ 0 = ground (arith, tsd_ino) in
          let (c, r, one, two) = strcmp_name tsd name t in
          elim (Bool-cases (is_zero c)) [
            | inl z ↦
                let named = sym tsd_name ∙ one z in
                rw (e, r, z, kassert_pass (not f.found) _ u (ap not (noted_first used named)))
                  (returns (noted_name used named, a))
            | inr z ↦ rw (e, r, z) (returns (noted_other used (λ m. cc (two (tsd_name ∙ m), z)), a))
          ]
    ]

  scan_slots-Ends :
      (n i : ℕ) (f : Search) (u : File)
      → i + n ≤ slots s
      → Searched s name i f
      → Intact s u
      → Ends
          (λ f' s'. Searched s name (i + n) f' × Intact s s')
          (λ e s'. Intact s s')
          (scan_slots name n i f u)
  unfolding scan_slots
  scan_slots-Ends zero i f u h done a = let e : i + 0 ≡ i = omega arith in rw e (returns (done, a))
  scan_slots-Ends (suc n) i f u h done a =
      let e : i + suc n ≡ i + 1 + n = omega arith in
      rw e (
        Ends.bind (sfs_readdir-Ends u i (Intact-IsDir s u d a) (omega (arith, h, a.size)))
          (λ tsd v (at, b).
            Ends.bind
              (note_slot-Ends i (omega arith) tsd
                (λ k l. at k l ∙ a.same (i * direntry_size + k) (omega (arith, d.fits))) f done v
                (Intact-trans s u v a b))
              (λ f' w (done', c). scan_slots-Ends n (i + 1) f' w (omega arith) done' c)
              (λ e w c. c))
          (λ e v b. Intact-trans s u v a b))

  nothing-Searched : Searched s name 0 nothing_yet
  nothing-Searched = record {
    hit = λ h. cc;
    miss = λ h j l. elim l [ ];
    none_free = λ h j l. elim l [ ];
    some_free = λ j h. cc;
  }

  -- In a consistent directory sfs_dir_findname does not panic. If it returns 0 it hands back the
  -- slot that has the name, and the inode number there; if it returns ENOENT no slot has it. The
  -- empty slot that it hands back is free, and if it hands back none then every slot is in use. The
  -- directory stays as it is, also where it returns another error.
  pub sfs_dir_findname-Ends :
      Ends
        (λ f s'. Searched s name (slots s) f × Intact s s')
        (λ e s'. Intact s s')
        (sfs_dir_findname name s)
  unfolding sfs_dir_findname
  sfs_dir_findname-Ends = rw (nentries_lem s d) (
      Ends.mono
        (scan_slots-Ends (slots s) 0 nothing_yet s (omega arith) nothing-Searched
          (Intact-refl s d.file))
        (λ f s' (done, a).
          let e : 0 + slots s ≡ slots s = omega arith in
          (subst (λ n. Searched s name n f) e done, a))
        (λ e s' a. a))
