-- ===== src/Sfs/Inode/Table.antt =====
-- The table of loaded vnodes that sfs_inode.c keeps: what holds of it, and sfs_loadvnode.
use project_os.Prelude.{
  ◌^◌, ltb, ℕ, zero, suc, ◌+◌, ◌≤◌, ◌<◌, ◌≡◌, ◌≢◌, inl, inr, refl, sym, ◌∙◌, ap, subst, arith, Bool,
  true, false, not, leb, ◌==◌, if◌then◌else◌, Bool-cases, Option, none, some, List, [], ◌∷◌, ◌++◌,
  length, get_or,
}
use project_os.Outcome.{Outcome, ok}
use project_os.Outcome.Exec.{Exec, continue, kassert, ◌>>=◌, ◌>>◌}
use project_os.Outcome.Ends
use project_os.Outcome.Ends.{Ends, returns, fails}
use project_os.Bitmap.{bitmap_isset}
use project_os.Sfs.{Answer, Block, Fs, Dinode}
use project_os.Sfs.Io.{
  IsPolite, with_answers, reading, Moved, Unmoved, sfs_readblock, sfs_readblock-Ends,
}
use project_os.Sfs.Balloc.{IsSound, sfs_bused, sfs_bused_lem}
use project_os.Sfs.Inode.{
  Loaded, Mount, no_vnode, vnode_at, incref, load_scan, force_type, known_type, add_vnode, load_new,
  dinode_of,
}

-- An inode block on the disk that is marked in the freemap.
pub record IsInode (fs : Fs) (ino : ℕ) : Type 0 where
  pub inside : ino < fs.nblocks
  pub marked : bitmap_isset fs.freemap ino ≡ true

-- Every loaded inode is in a block that is in use, and none is loaded twice.
pub record IsTable (s : Mount) : Type 0 where
  pub sound : IsSound s.fs
  pub blocks : (i : ℕ) → i < length s.vnodes → IsInode s.fs (vnode_at s i).sv.ino
  pub counted : (i : ℕ) → i < length s.vnodes → 1 ≤ (vnode_at s i).refcount
  pub distinct :
      (i j : ℕ)
      → i < length s.vnodes
      → j < length s.vnodes
      → (vnode_at s i).sv.ino ≡ (vnode_at s j).sv.ino
      → i ≡ j

-- No reference count is at the maximum of an int.
abbrev pub FewReferences : Mount → Type 0
FewReferences s = (i : ℕ) → i < length s.vnodes → (vnode_at s i).refcount + 1 < 2 ^ 31

-- No loaded vnode has the inode.
abbrev pub Absent : Mount → ℕ → Type 0
Absent s ino = (i : ℕ) → i < length s.vnodes → (vnode_at s i).sv.ino ≢ ino

-- What the search finds: nothing, or the place of the inode, with a reference more.
abbrev pub Scanned : Mount → (i n ino : ℕ) → Option ℕ → Mount → Type 0
Scanned s i n ino none s' = (s' ≡ s) × ((k : ℕ) → i ≤ k → k < n → (vnode_at s k).sv.ino ≢ ino)
Scanned s i n ino (some j) s' = (s' ≡ incref j s) × (j < n) × ((vnode_at s j).sv.ino ≡ ino)

pub bused_true : (fs : Fs) (ino : ℕ) → IsInode fs ino → sfs_bused ino fs ≡ (ok true, fs)
bused_true fs ino h =
    let t : leb fs.nblocks ino ≡ false = ground (arith, h.inside) in
    sfs_bused_lem fs ino ∙ rw (t, h.marked)

module _ (s : Mount) (table : IsTable s) (ino forcetype : ℕ) (create : forcetype ≢ 0 → Absent s ino)
    (small : FewReferences s) where
  skipped :
      (i n : ℕ) (r : Option ℕ) (s' : Mount)
      → (vnode_at s i).sv.ino ≢ ino
      → Scanned s (i + 1) n ino r s'
      → Scanned s i n ino r s'
  skipped i n none s' ne (e, f) = (
    e,
    λ k p q. elim (Bool-cases (i == k)) [
      | inl h ↦ let h' : i ≡ k = ground arith in subst (λ j. (vnode_at s j).sv.ino ≢ ino) h' ne
      | inr h ↦ f k (ground arith) q
    ],
  )
  skipped i n (some j) s' ne d = d

  pub load_scan-Ends :
      (rest : List Loaded) (i : ℕ)
      → i + length rest ≡ length s.vnodes
      → ((k : ℕ) → get_or rest k no_vnode ≡ vnode_at s (i + k))
      → Ends (Scanned s i (length s.vnodes) ino) (λ _ _. ⊥) (load_scan rest i ino forcetype s)
  unfolding load_scan
  load_scan-Ends [] i len at = returns (refl, λ k p q. absurd (omega arith))
  load_scan-Ends (v ∷ rest) i len at =
      let z : i + 0 ≡ i = omega arith in
      let e : v ≡ vnode_at s i = at 0 ∙ ap (vnode_at s) z in
      let low : i < length s.vnodes = omega arith in
      let b : sfs_bused v.sv.ino s.fs ≡ (ok true, s.fs) =
        bused_true s.fs v.sv.ino (rw e (table.blocks i low)) in
      rw b (elim (Bool-cases (v.sv.ino == ino)) [
        | inl same ↦
            let here : (vnode_at s i).sv.ino ≡ ino =
              ap (λ (x : Loaded). x.sv.ino) (sym e) ∙ ground arith in
            elim (Bool-cases (forcetype == 0)) [
              | inl f ↦
                  let room : ltb (v.refcount + 1) (2 ^ 31) ≡ true =
                    let few = small i low in rw e (ground arith) in
                  rw (same, f, room) (returns (refl, low, here))
              | inr f ↦ absurd (create (ground arith) i low here)
            ]
        | inr other ↦
            let away : (vnode_at s i).sv.ino ≢ ino =
              λ h. absurd (let h' = ap (λ (x : Loaded). x.sv.ino) e ∙ h in ground arith) in
            rw other (
              Ends.mono
                (load_scan-Ends rest (i + 1) (omega (arith, len)) (λ k.
                  let shift : i + suc k ≡ i + 1 + k = omega arith in
                  at (suc k) ∙ ap (vnode_at s) shift))
                (λ r s' d. skipped i (length s.vnodes) r s' away d) (λ e s' f. f))
      ])

-- A vnode more, at the end of the table.
pub get_or-concat_old :
    (xs : List Loaded) (v d : Loaded) (i : ℕ)
    → i < length xs
    → get_or (xs ++ v ∷ []) i d ≡ get_or xs i d
get_or-concat_old [] v d i h = elim h [ ]
get_or-concat_old (x ∷ xs) v d zero h = refl
get_or-concat_old (x ∷ xs) v d (suc i) h = get_or-concat_old xs v d i (omega arith)

pub get_or-concat_new : (xs : List Loaded) (v d : Loaded) → get_or (xs ++ v ∷ []) (length xs) d ≡ v
get_or-concat_new [] v d = refl
get_or-concat_new (x ∷ xs) v d = get_or-concat_new xs v d

-- The inode that is loaded: as it is on the disk, with the type that is forced on it.
abbrev pub with_type : ℕ → Dinode → Dinode
with_type forcetype d = if forcetype == 0 then d else record d { kind = forcetype }

abbrev pub fresh : (ino forcetype : ℕ) → Block → Loaded
fresh ino forcetype b = record {
  sv = record {
    inode = with_type forcetype (dinode_of b);
    ino = ino;
    dirty = not (forcetype == 0);
  };
  block = b;
  refcount = 1;
}

-- The type on the disk is one that can be loaded, or is overwritten.
abbrev pub Loadable : (forcetype : ℕ) → Dinode → Type 0
Loadable forcetype d =
    (known_type (with_type forcetype d).kind ≡ true) × (forcetype ≢ 0 → d.kind ≡ 0)

force_type_lem :
    (forcetype ino : ℕ) (b : Block) (s : Mount)
    → Loadable forcetype (dinode_of b)
    → force_type forcetype
        (record {
          sv = record { inode = dinode_of b; ino = ino; dirty = false };
          block = b;
          refcount = 1;
        })
        s
      ≡ (ok (fresh ino forcetype b), s)
unfolding force_type
force_type_lem forcetype ino b s (known, zero_) = elim (Bool-cases (forcetype == 0)) [
  | inl f ↦ rw f
  | inr f ↦ let k : (dinode_of b).kind ≡ 0 = zero_ (ground arith) in rw (f, k)
]

-- The device has answered some requests, and nothing else has changed.
abbrev pub Answered : Mount → Mount → Type 0
Answered s s' =
    (rest : List Answer) × IsPolite rest × (s' ≡ record s { fs = with_answers s.fs rest })

-- The vnode is new in the table, and the file system is as it was.
abbrev pub Added : Mount → (ino forcetype : ℕ) → ℕ → Mount → Type 0
Added s ino forcetype i s' =
    (i ≡ length s.vnodes)
    × (rest : List Answer) × IsPolite rest
    × (s' ≡ record {
      fs = with_answers s.fs rest;
      vnodes = s.vnodes ++ fresh ino forcetype (s.fs.disk ino) ∷ [];
    })

-- The end of the load, once the inode has been read.
abbrev store_new : (table_room : Bool) → (ino forcetype : ℕ) → Block → Exec Mount ℕ
store_new table_room ino forcetype b = do
  v ← force_type forcetype (record {
    sv = record { inode = dinode_of b; ino = ino; dirty = false };
    block = b;
    refcount = 1;
  })
  kassert (known_type v.sv.inode.kind)
  add_vnode table_room v

module _ (s : Mount) (sound : IsSound s.fs) (ino forcetype : ℕ) (inode : IsInode s.fs ino)
    (loads : Loadable forcetype (dinode_of (s.fs.disk ino))) where
  stored-Ends :
      (table_room : Bool) (b : Block) (fs' : Fs)
      → Moved (reading ino) s.fs b fs'
      → Ends
          (Added s ino forcetype)
          (λ e s'. Answered s s')
          (store_new table_room ino forcetype b (record s { fs = fs' }))
  stored-Ends true b fs' (rest, polite, eb, ef) =
      rw
        (
          eb,
          ef,
          force_type_lem forcetype ino (s.fs.disk ino) (record s { fs = with_answers s.fs rest })
              loads,
          loads.0,
        )
        (returns (refl, rest, polite, refl))
  stored-Ends false b fs' (rest, polite, eb, ef) =
      rw
        (
          eb,
          ef,
          force_type_lem forcetype ino (s.fs.disk ino) (record s { fs = with_answers s.fs rest })
              loads,
          loads.0,
        )
        (fails (rest, polite, refl))

  read-Ends :
      (table_room : Bool) (r : Outcome Block × Fs)
      → Ends (Moved (reading ino) s.fs) (Unmoved (reading ino) s.fs) r
      → Ends
          (Added s ino forcetype)
          (λ e s'. Answered s s')
          (continue r.0 (store_new table_room ino forcetype) (record s { fs = r.1 }))
  read-Ends table_room _ (returns {a = b} {s = fs'} m) = stored-Ends table_room b fs' m
  read-Ends table_room _ (fails (rest, polite, e)) = fails (rest, polite, rw e)

  pub load_new-Ends :
      (memory table_room : Bool)
      → Ends
          (Added s ino forcetype)
          (λ e s'. Answered s s')
          (load_new memory table_room ino forcetype s)
  unfolding load_new
  load_new-Ends false table_room = fails (s.fs.answers, sound.polite, refl)
  load_new-Ends true table_room = rw (bused_true s.fs ino inode) (
      read-Ends table_room (sfs_readblock ino s.fs)
        (sfs_readblock-Ends ino s.fs sound.held sound.polite))
