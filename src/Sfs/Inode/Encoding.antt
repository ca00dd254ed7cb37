-- ===== src/Sfs/Inode/Encoding.antt =====
-- The inode of sfs_inode.c as the contents of a block.
use project_os.Prelude.{
  ℕ, suc, ◌+◌, ◌-◌, ◌*◌, ◌/◌, ◌%◌, ◌^◌, ◌<◌, ◌≡◌, inl, inr, refl, sym, ◌∙◌, ap, arith, true, false,
  ◌&&◌, ltb, leb, ◌==◌, if◌then◌else◌, Bool-cases, List, [], ◌∷◌, length, get_or,
}
use project_os.Sfs.{Block, Dinode, ndirect}
use project_os.Sfs.Block.{get_word, set_word, get_word-set_word}
use project_os.Sfs.Inode.{get_words, set_words, dinode_of, block_of}

-- All words of the list fit 32 bits.
abbrev pub Words : List ℕ → Type 0
Words [] = Unit {0}
Words (v ∷ vs) = (v < 2 ^ 32) × Words vs

-- The fields fit their widths.
pub record IsDinode (d : Dinode) : Type 0 where
  pub size_fits : d.size < 2 ^ 32
  pub kind_fits : d.kind < 2 ^ 16
  pub links_fit : d.linkcount < 2 ^ 16
  pub directs : length d.direct ≡ ndirect
  pub directs_fit : Words d.direct
  pub indirect_fits : d.indirect < 2 ^ 32

get_word-set_words :
    (vs : List ℕ) (i : ℕ) (b : Block) (j : ℕ)
    → Words vs
    → get_word (set_words vs i b) j
      ≡ (if leb i j && ltb j (i + length vs) then get_or vs (j - i) 0 else get_word b j)
unfolding set_words
get_word-set_words [] i b j w = let e : (leb i j && ltb j (i + 0)) ≡ false = ground arith in rw e
get_word-set_words (v ∷ vs) i b j w = elim (Bool-cases (i == j)) [
  | inl e ↦
      let e' : i ≡ j = ground arith in
      let out : (leb (i + 1) j && ltb j (i + 1 + length vs)) ≡ false = ground arith in
      let here : (leb i j && ltb j (i + suc (length vs))) ≡ true = ground arith in
      let z : j - i ≡ 0 = omega (arith, e') in
      get_word-set_words vs (i + 1) (set_word b i v) j w.1
      ∙ rw (out, get_word-set_word b i v j w.0, e, here, z)
  | inr e ↦
      let tests : (leb (i + 1) j && ltb j (i + 1 + length vs))
          ≡ (leb i j && ltb j (i + suc (length vs))) =
        ground arith in
      get_word-set_words vs (i + 1) (set_word b i v) j w.1
      ∙ rw (tests, get_word-set_word b i v j w.0, e)
          (elim (Bool-cases (leb i j && ltb j (i + suc (length vs)))) [
            | inl t ↦ let s : j - i ≡ suc (j - (i + 1)) = ground arith in rw (t, s)
            | inr f ↦ rw f
          ])
]

get_words_lem :
    (vs : List ℕ) (i : ℕ) (b : Block)
    → ((k : ℕ) → k < length vs → get_word b (i + k) ≡ get_or vs k 0)
    → get_words (length vs) i b ≡ vs
unfolding get_words
get_words_lem [] i b at = refl
get_words_lem (v ∷ vs) i b at =
    let z : i + 0 ≡ i = omega arith in
    let first : get_word b i ≡ v = ap (get_word b) (sym z) ∙ at 0 (omega arith) in
    let rest = get_words_lem vs (i + 1) b (λ k h.
      let e : i + 1 + k ≡ i + suc k = omega arith in
      ap (get_word b) e ∙ at (suc k) (omega arith)) in
    rw (first, rest)

module _ (d : Dinode) (b : Block) (h : IsDinode d) where
  abbrev type_and_links : ℕ
  type_and_links = d.kind * 2 ^ 16 + d.linkcount

  -- The words of the block that is written.
  word_lem :
      (j : ℕ)
      → get_word (block_of d b) j ≡ (
          if 17 == j
          then d.indirect
          else if leb 2 j && ltb j (2 + length d.direct)
          then get_or d.direct (j - 2) 0
          else if 1 == j
          then type_and_links
          else if 0 == j
          then d.size
          else get_word b j)
  unfolding block_of
  word_lem j = rw (
    get_word-set_word (set_words d.direct 2 (set_word (set_word b 0 d.size) 1 type_and_links)) 17
        d.indirect j h.indirect_fits,
    get_word-set_words d.direct 2 (set_word (set_word b 0 d.size) 1 type_and_links) j h.directs_fit,
    get_word-set_word (set_word b 0 d.size) 1 type_and_links j
        (omega (arith, h.kind_fits, h.links_fit)),
    get_word-set_word b 0 d.size j h.size_fits,
  )

  direct_lem : (k : ℕ) → k < length d.direct → get_word (block_of d b) (2 + k) ≡ get_or d.direct k 0
  direct_lem k l =
      let len = h.directs in
      let last : (17 == 2 + k) ≡ false = ground arith in
      let mid : (leb 2 (2 + k) && ltb (2 + k) (2 + length d.direct)) ≡ true = ground arith in
      let e : 2 + k - 2 ≡ k = omega arith in word_lem (2 + k) ∙ rw (last, mid, e)

  -- An inode whose fields fit their widths is read back from a block that it has been written to.
  pub dinode_of-block_of : dinode_of (block_of d b) ≡ d
  unfolding dinode_of
  dinode_of-block_of =
      let directs : get_words 15 2 (block_of d b) ≡ d.direct =
        rw h.directs at (get_words_lem d.direct 2 (block_of d b) direct_lem) in
      let l = h.directs in
      let past : (leb 2 17 && ltb 17 (2 + length d.direct)) ≡ false = ground arith in
      let ind : get_word (block_of d b) 17 ≡ d.indirect = word_lem 17 in
      let kinds : get_word (block_of d b) 1 ≡ type_and_links = word_lem 1 in
      let sizes : get_word (block_of d b) 0 ≡ d.size = word_lem 0 in
      let k : type_and_links / 2 ^ 16 ≡ d.kind = omega (arith, h.links_fit) in
      let m : type_and_links % 2 ^ 16 ≡ d.linkcount = omega (arith, h.links_fit) in
      rw (sizes, kinds, k, m, directs, ind)
