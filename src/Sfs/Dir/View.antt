-- ===== src/Sfs/Dir/View.antt =====
-- The slots of a directory as inode numbers and names, the map from names to inode numbers that
-- they stand for, and when a directory is consistent.
use project_os.Prelude.{
  ℕ, zero, suc, ◌+◌, ◌-◌, ◌*◌, ◌/◌, ◌%◌, ◌≤◌, ◌<◌, ◌≡◌, ◌≢◌, ◌⊎◌, refl, sym, ◌∙◌, Bool, true, false,
  ◌&&◌, arith, List, [], ◌∷◌, Option, none, some, ◌==◌, if◌then◌else◌, Bool-cases, and_below, inl,
  inr,
}
use project_os.Sfs.{Block, File}
use project_os.Sfs.Block.{get_word}
use project_os.Sfs.Bmap.View.{IsFile}
use project_os.Sfs.Content.{max_size, content}
use project_os.Sfs.Meta.View.{Intact}
use project_os.Sfs.Dir.{direntry_size, type_dir, name_len}
use project_os.Sfs.Dir.Names.{name_of, text_same}

-- The bytes of a slot.
abbrev pub slot_bytes : File → ℕ → Block
slot_bytes s i k = content s (i * direntry_size + k)

unfoldable pub slot_ino : File → ℕ → ℕ
slot_ino s i = get_word (slot_bytes s i) 0

unfoldable pub slot_name : File → ℕ → List ℕ
slot_name s i = name_of (slot_bytes s i)

abbrev pub slots : File → ℕ
slots s = s.size / direntry_size

-- A directory of whole entries, within the size that a file can have, in which no name is twice.
pub record IsDir (s : File) : Type 0 where
  pub file : IsFile s
  pub kind : s.kind ≡ type_dir
  pub whole : s.size % direntry_size ≡ 0
  pub fits : s.size ≤ max_size
  pub unique :
      (i j : ℕ)
      → i < slots s
      → j < slots s
      → slot_ino s i ≢ 0
      → slot_ino s j ≢ 0
      → slot_name s i ≡ slot_name s j
      → i ≡ j

same_name : List ℕ → List ℕ → Bool
same_name [] [] = true
same_name [] (c ∷ cs) = false
same_name (c ∷ cs) [] = false
same_name (c ∷ cs) (d ∷ ds) = c == d && same_name cs ds

same_name_refl : (l : List ℕ) → same_name l l ≡ true
unfolding same_name
same_name_refl [] = refl
same_name_refl (c ∷ cs) = ground (arith, same_name_refl cs)

same_name-eq : (l l' : List ℕ) → same_name l l' ≡ true → l ≡ l'
unfolding same_name
same_name-eq [] [] h = refl
same_name-eq [] (c ∷ cs) h = cc
same_name-eq (c ∷ cs) [] h = cc
same_name-eq (c ∷ cs) (d ∷ ds) h = ground (arith, same_name-eq cs ds)

-- The inode number that the first `n` slots have for a name.
unfoldable pub listed : File → ℕ → List ℕ → Option ℕ
unfolding same_name
listed s zero name = none
listed s (suc n) name =
    let rest = listed s n name in
    if slot_ino s n == 0
    then rest
    else if same_name (slot_name s n) name
    then some (slot_ino s n)
    else rest

-- The map from names to inode numbers that the directory is.
abbrev pub listing : File → List ℕ → Option ℕ
listing s name = listed s (slots s) name

-- No slot below `n` has the name.
abbrev pub Lacks : File → ℕ → List ℕ → Type 0
Lacks s n name = (j : ℕ) → j < n → slot_ino s j ≢ 0 → slot_name s j ≢ name

-- A slot has the name.
pub record Has (s : File) (n : ℕ) (name : List ℕ) (i : ℕ) : Type 0 where
  pub inside : i < n
  pub used : slot_ino s i ≢ 0
  pub named : slot_name s i ≡ name

pub listed-Lacks : (s : File) (n : ℕ) (name : List ℕ) → Lacks s n name → listed s n name ≡ none
unfolding listed
listed-Lacks s zero name h = refl
listed-Lacks s (suc n) name h = ground (
  arith,
  h n,
  same_name-eq (slot_name s n) name,
  listed-Lacks s n name (λ j l. h j (omega arith)),
)

-- A value is that of the slot that has the name, or no slot has it.
abbrev pub Finds : File → ℕ → List ℕ → Option ℕ → Type 0
Finds s n name v =
    ((i : ℕ) × Has s n name i × (v ≡ some (slot_ino s i))) ⊎ (Lacks s n name × (v ≡ none))

Finds-suc :
    (s : File) (n : ℕ) (name : List ℕ) (v : Option ℕ)
    → (slot_ino s n ≢ 0 → slot_name s n ≢ name)
    → Finds s n name v
    → Finds s (suc n) name v
Finds-suc s n name v miss (inl (i, h, e)) =
    inl (i, record { inside = omega (arith, h.inside); used = h.used; named = h.named }, e)
Finds-suc s n name v miss (inr (lacks, e)) = inr (
  λ j l. and_below (λ j. slot_ino s j ≢ 0 → slot_name s j ≢ name) n miss lacks j (omega arith),
  e,
)

pub listed-Finds : (s : File) (n : ℕ) (name : List ℕ) → Finds s n name (listed s n name)
unfolding listed
listed-Finds s zero name = inr (λ j h. elim h [ ], refl)
listed-Finds s (suc n) name =
    let rest = listed-Finds s n name in
    elim (Bool-cases (slot_ino s n == 0)) [
      | inl e ↦ rw e (Finds-suc s n name (listed s n name) (λ u. absurd (u (ground arith))) rest)
      | inr e ↦ elim (Bool-cases (same_name (slot_name s n) name)) [
        | inl m ↦
            rw (e, m)
              (inl (
                n,
                record {
                  inside = omega arith;
                  used = ground arith;
                  named = same_name-eq (slot_name s n) name m;
                },
                refl,
              ))
        | inr m ↦
            rw (e, m)
              (Finds-suc s n name (listed s n name) (λ u z. cc (same_name_refl name, m, z)) rest)
      ]
    ]

-- In a directory the listing has what any slot with the name has.
pub listing-Has :
    (s : File) (name : List ℕ) (i : ℕ)
    → IsDir s
    → Has s (slots s) name i
    → listing s name ≡ some (slot_ino s i)
listing-Has s name i d h = elim (listed-Finds s (slots s) name) [
  | inl (j, h', e) ↦
      let at : j ≡ i = d.unique j i h'.inside h.inside h'.used h.used (h'.named ∙ sym h.named) in
      rw at at e
  | inr (lacks, e) ↦ absurd (lacks i h.inside h.used h.named)
]

-- The slots do not change where the bytes of the file do not.
module _ (s s' : File) (i : ℕ)
    (same : (k : ℕ) → k < direntry_size → slot_bytes s' i k ≡ slot_bytes s i k) where
  pub slot_ino_same : slot_ino s' i ≡ slot_ino s i
  unfolding slot_ino get_word
  slot_ino_same =
      rw (same 0 (omega arith), same 1 (omega arith), same 2 (omega arith), same 3 (omega arith))

  pub slot_name_same : slot_name s' i ≡ slot_name s i
  unfolding slot_name
  slot_name_same =
      text_same (name_len - 1) (λ k. slot_bytes s' i (4 + k)) (λ k. slot_bytes s i (4 + k))
        (λ k h. same (4 + k) (omega arith))

module _ (s s' : File) (d : IsDir s) (a : Intact s s') (i : ℕ) (low : i < slots s) where
  bytes_same : (k : ℕ) → k < direntry_size → slot_bytes s' i k ≡ slot_bytes s i k
  bytes_same k h = a.same (i * direntry_size + k) (omega (arith, d.fits, d.whole))

  pub Intact-ino : slot_ino s' i ≡ slot_ino s i
  Intact-ino = slot_ino_same s s' i bytes_same

  pub Intact-name : slot_name s' i ≡ slot_name s i
  Intact-name = slot_name_same s s' i bytes_same
