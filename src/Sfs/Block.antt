-- ===== src/Sfs/Block.antt =====
-- A disk block as the array `uint32_t idbuf[SFS_DBPERIDB]` of kern/fs/sfs/sfs_bmap.c: its words,
-- in the big-endian byte order of the MIPS processor.
use project_os.Prelude.{
  ℕ, ◌+◌, ◌*◌, ◌/◌, ◌%◌, ◌^◌, ◌<◌, ◌≡◌, refl, arith, ◌==◌, if◌then◌else◌, Bool-cases, inl, inr,
}
use project_os.Sfs.{Block}

abbrev pub zeros : Block
zeros k = 0

unfoldable pub get_word : Block → ℕ → ℕ
get_word b i = b (4 * i) * 2 ^ 24 + b (4 * i + 1) * 2 ^ 16 + b (4 * i + 2) * 2 ^ 8 + b (4 * i + 3)

-- The byte of a word at an offset in it.
abbrev byte_of : ℕ → ℕ → ℕ
byte_of v k =
    if k == 0
    then v / 2 ^ 24 % 256
    else if k == 1
    then v / 2 ^ 16 % 256
    else if k == 2
    then v / 2 ^ 8 % 256
    else v % 256

unfoldable pub set_word : Block → ℕ → ℕ → Block
set_word b i v k = if k / 4 == i then byte_of v (k % 4) else b k

pub get_word-zeros : (i : ℕ) → get_word zeros i ≡ 0
unfolding get_word
get_word-zeros i = refl

module _ (b : Block) (i v j : ℕ) where
  set_word_at :
      (x k : ℕ) → x / 4 ≡ j → x % 4 ≡ k → set_word b i v x ≡ (if i == j then byte_of v k else b x)
  unfolding set_word
  set_word_at x k d m = rw (d, m) (ground arith)

  bytes_of_word :
      v < 2 ^ 32
      → byte_of v 0 * 2 ^ 24 + byte_of v 1 * 2 ^ 16 + byte_of v 2 * 2 ^ 8 + byte_of v 3 ≡ v
  bytes_of_word h = omega arith

  -- A word that was written is read back, and the other words stay.
  pub get_word-set_word :
      v < 2 ^ 32 → get_word (set_word b i v) j ≡ (if i == j then v else get_word b j)
  unfolding get_word
  get_word-set_word h =
      rw
        (
          set_word_at (4 * j) 0 (omega arith) (omega arith),
          set_word_at (4 * j + 1) 1 (omega arith) (omega arith),
          set_word_at (4 * j + 2) 2 (omega arith) (omega arith),
          set_word_at (4 * j + 3) 3 (omega arith) (omega arith),
        )
        (elim (Bool-cases (i == j)) [ inl e ↦ rw e (bytes_of_word h) | inr e ↦ rw e ])
