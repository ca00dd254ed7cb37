-- ===== src/Sfs/Inode/Load.antt =====
-- What sfs_loadvnode and sfs_makeobj of sfs_inode.c promise.
use project_os.Prelude.{
  ℕ, ◌+◌, ◌≤◌, ◌<◌, ◌≡◌, ◌≢◌, ◌⊎◌, inl, inr, refl, sym, ◌∙◌, ap, arith, Bool, ltb, ◌==◌,
  if◌then◌else◌, Bool-cases, Option, none, some, List, [], ◌∷◌, ◌++◌, length, length-set,
  length-append, get_or-set,
}
use project_os.Outcome.Ends
use project_os.Outcome.Ends.{Ends, returns, fails}
use project_os.Sfs.{Answer, Fs, Vnode}
use project_os.Sfs.Io.{IsPolite, with_answers}
use project_os.Sfs.Balloc.{IsSound}
use project_os.Sfs.Inode.{
  Loaded, Mount, no_vnode, vnode_at, incref, load_rest, sfs_loadvnode, dinode_of,
}
use project_os.Sfs.Inode.Table.{
  IsInode, IsTable, FewReferences, Absent, Scanned, Loadable, Answered, Added, fresh,
  load_scan-Ends, load_new-Ends, get_or-concat_old, get_or-concat_new,
}

-- The place `i` of the table has the inode: it was there before and has a reference more, or it is
-- new, at the end, with one reference.
pub record LoadedAt (s : Mount) (ino forcetype i : ℕ) (s' : Mount) : Type 0 where
  pub table : IsTable s'
  pub inside : i < length s'.vnodes
  pub inode : (vnode_at s' i).sv.ino ≡ ino
  pub how :
      ((i < length s.vnodes) × ((vnode_at s i).sv.ino ≡ ino) × (s' ≡ incref i s))
      ⊎ (Absent s ino × Added s ino forcetype i s')

-- Nothing is loaded: but for answers of the device, all is as it was.
pub record NotLoaded (s : Mount) (ino : ℕ) (s' : Mount) : Type 0 where
  pub table : IsTable s'
  pub absent : Absent s ino
  pub answered : Answered s s'

pub answered-IsSound :
    (fs : Fs) (rest : List Answer) → IsSound fs → IsPolite rest → IsSound (with_answers fs rest)
answered-IsSound fs rest h p = record {
  map = h.map;
  covers = h.covers;
  past = h.past;
  super = h.super;
  polite = p;
  held = h.held;
}

module _ (s : Mount) (table : IsTable s) where
  module _ (j : ℕ) (low : j < length s.vnodes) where
    incref_at :
        (i : ℕ)
        → vnode_at (incref j s) i ≡ (
            if j == i
            then record (vnode_at s j) { refcount = (vnode_at s j).refcount + 1 }
            else vnode_at s i)
    incref_at i = get_or-set s.vnodes j _ i no_vnode low

    incref_sv : (i : ℕ) → (vnode_at (incref j s) i).sv ≡ (vnode_at s i).sv
    incref_sv i = elim (Bool-cases (j == i)) [
      | inl e ↦
          let e' : j ≡ i = ground arith in rw (incref_at i, e) (ap (λ k. (vnode_at s k).sv) e')
      | inr e ↦ rw (incref_at i, e)
    ]

    incref_count : (i : ℕ) → i < length s.vnodes → 1 ≤ (vnode_at (incref j s) i).refcount
    incref_count i h = elim (Bool-cases (j == i)) [
      | inl e ↦ rw (incref_at i, e) (omega arith)
      | inr e ↦ rw (incref_at i, e) (table.counted i h)
    ]

    incref-IsTable : IsTable (incref j s)
    incref-IsTable =
        let len : length (incref j s).vnodes ≡ length s.vnodes = length-set s.vnodes j _ in
        let ino_ : (i : ℕ) → (vnode_at (incref j s) i).sv.ino ≡ (vnode_at s i).sv.ino =
          λ i. ap (λ (v : Vnode). v.ino) (incref_sv i) in
        record {
          sound = table.sound;
          blocks = λ i h. rw (ino_ i) (table.blocks i (omega (arith, len)));
          counted = λ i h. incref_count i (omega (arith, len));
          distinct = λ i k h l e.
              table.distinct i k (omega (arith, len)) (omega (arith, len))
                (sym (ino_ i) ∙ e ∙ ino_ k);
        }

  module _ (ino forcetype : ℕ) (inode : IsInode s.fs ino) (absent : Absent s ino)
      (rest : List Answer) (polite : IsPolite rest) where
    abbrev new_vnode : Loaded
    new_vnode = fresh ino forcetype (s.fs.disk ino)

    abbrev with_new : Mount
    with_new = record { fs = with_answers s.fs rest; vnodes = s.vnodes ++ new_vnode ∷ [] }

    new_length : length with_new.vnodes ≡ length s.vnodes + 1
    new_length = length-append s.vnodes (new_vnode ∷ []) ∙ omega arith

    at_old : (i : ℕ) → i < length s.vnodes → vnode_at with_new i ≡ vnode_at s i
    at_old i h = get_or-concat_old s.vnodes new_vnode no_vnode i h

    at_new : vnode_at with_new (length s.vnodes) ≡ new_vnode
    at_new = get_or-concat_new s.vnodes new_vnode no_vnode

    -- A place of the new table is an old one or the last one.
    place-cases :
        (i : ℕ) → i < length with_new.vnodes → (i < length s.vnodes) ⊎ (i ≡ length s.vnodes)
    place-cases i h = elim (Bool-cases (ltb i (length s.vnodes))) [
      | inl e ↦ inl (ground arith)
      | inr e ↦ inr (ground (arith, new_length))
    ]

    old_ino : (i : ℕ) → i < length s.vnodes → (vnode_at with_new i).sv.ino ≡ (vnode_at s i).sv.ino
    old_ino i h = ap (λ (v : Loaded). v.sv.ino) (at_old i h)

    new_ino : (i : ℕ) → i ≡ length s.vnodes → (vnode_at with_new i).sv.ino ≡ ino
    new_ino i n = rw (n, at_new)

    with_new-IsTable : IsTable with_new
    with_new-IsTable = record {
      sound = answered-IsSound s.fs rest table.sound polite;
      blocks = λ i h. elim (place-cases i h) [
        | inl o ↦
            let b = table.blocks i o in
            rw (at_old i o) (record { inside = b.inside; marked = b.marked })
        | inr n ↦ rw (n, at_new) (record { inside = inode.inside; marked = inode.marked })
      ];
      counted = λ i h. elim (place-cases i h) [
        | inl o ↦ rw (at_old i o) (table.counted i o)
        | inr n ↦ rw (n, at_new) (omega arith)
      ];
      distinct = λ i k h l e. elim (place-cases i h) [
        | inl o ↦ elim (place-cases k l) [
          | inl p ↦ table.distinct i k o p (sym (old_ino i o) ∙ e ∙ old_ino k p)
          | inr p ↦ absurd (absent i o (sym (old_ino i o) ∙ e ∙ new_ino k p))
        ]
        | inr n ↦ elim (place-cases k l) [
          | inl p ↦ absurd (absent k p (sym (old_ino k p) ∙ sym e ∙ new_ino i n))
          | inr p ↦ n ∙ sym p
        ]
      ];
    }

  add_vnode-LoadedAt :
      (ino forcetype i : ℕ) (s' : Mount)
      → IsInode s.fs ino
      → Absent s ino
      → Added s ino forcetype i s'
      → LoadedAt s ino forcetype i s'
  add_vnode-LoadedAt ino forcetype i s' inode absent (ei, rest, polite, es) =
      rw (ei, es)
        (record {
          table = with_new-IsTable ino forcetype inode absent rest polite;
          inside = omega (arith, new_length ino forcetype inode absent rest polite);
          inode = ap (λ (v : Loaded). v.sv.ino) (at_new ino forcetype inode absent rest polite);
          how = inr (absent, (refl, rest, polite, refl));
        })

  with_answers-NotLoaded :
      (ino : ℕ) (s' : Mount) → Absent s ino → Answered s s' → NotLoaded s ino s'
  with_answers-NotLoaded ino s' absent (rest, polite, e) = rw e (record {
    table = record {
      sound = answered-IsSound s.fs rest table.sound polite;
      blocks = λ i h. let b = table.blocks i h in record { inside = b.inside; marked = b.marked };
      counted = table.counted;
      distinct = table.distinct;
    };
    absent = absent;
    answered = (rest, polite, refl);
  })

  -- On a sound file system, with a table where every loaded inode is in a block in use and none is
  -- loaded twice, with no reference count at the maximum of an int, for an inode block that is in
  -- use, sfs_loadvnode does not panic, if an inode that is created is not loaded yet, and one that
  -- is not loaded has a type, or none where one is forced on it. If it returns 0, the table has the
  -- inode at the place handed out, once, and what was loaded has not changed but for a reference
  -- more. If it returns an error, the inode was not loaded and nothing has changed.
  pub sfs_loadvnode-Ends :
      (memory table_room : Bool) (ino forcetype : ℕ)
      → IsInode s.fs ino
      → (forcetype ≢ 0 → Absent s ino)
      → FewReferences s
      → (Absent s ino → Loadable forcetype (dinode_of (s.fs.disk ino)))
      → Ends
          (LoadedAt s ino forcetype)
          (λ e s'. NotLoaded s ino s')
          (sfs_loadvnode memory table_room ino forcetype s)
  unfolding sfs_loadvnode
  sfs_loadvnode-Ends memory table_room ino forcetype inode create few loads =
      Ends.bind
        (load_scan-Ends s table ino forcetype create few s.vnodes 0 (omega arith)
          (λ k. let z : 0 + k ≡ k = omega arith in ap (vnode_at s) (sym z)))
        scanned (λ e s' f. absurd f)
    where
      scanned :
          (r : Option ℕ) (s1 : Mount)
          → Scanned s 0 (length s.vnodes) ino r s1
          → Ends
              (LoadedAt s ino forcetype)
              (λ e s'. NotLoaded s ino s')
              (load_rest memory table_room ino forcetype r s1)
      scanned none s1 (e, absent) =
          let absent' : Absent s ino = λ i h. absent i (omega arith) h in
          rw e (
            Ends.mono
              (load_new-Ends s table.sound ino forcetype inode (loads absent') memory table_room)
              (λ i s' a. add_vnode-LoadedAt ino forcetype i s' inode absent' a)
              (λ e s' a. with_answers-NotLoaded ino s' absent' a))
      scanned (some j) s1 (e, low, same) = rw e (
          returns (record {
            table = incref-IsTable j low;
            inside =
                let len : length (incref j s).vnodes ≡ length s.vnodes = length-set s.vnodes j _ in
                omega (arith, len, low);
            inode = ap (λ (v : Vnode). v.ino) (incref_sv j low j) ∙ same;
            how = inl (low, same, refl);
          }))
