-- ===== src/Libc/Tests.antt =====
-- The theorems on common/libc/string at a memory with two short strings.
use project_os.Prelude.{ℕ, ◌≡◌, refl, arith, List, [], ◌∷◌, some}
use project_os.Outcome.{ok}
use project_os.Libc.{IsLength, chars}
use project_os.Libc.Strings.{
  strlen_from, strlen, same, below, sign, strcmp_from, strcmp, strchr_from, strchr, strrchr_down,
  strrchr,
}
use project_os.Libc.Correct.{Parts, strcmp_lem}
use project_os.Libc.Moves.{copy_down, copy_item, memmove}
use project_os.Libc.Copying.{Copied, memmove_lem}

abbrev foo : List ℕ
foo = b'f' ∷ b'o' ∷ b'o' ∷ []

abbrev four : List ℕ
four = b'f' ∷ b'o' ∷ b'u' ∷ b'r' ∷ []

foo-IsLength : IsLength (chars foo) 3
foo-IsLength = record { before = λ i h. ground arith; stop = refl }

four-IsLength : IsLength (chars four) 4
four-IsLength = record { before = λ i h. ground arith; stop = refl }

strcmp_test : strcmp 9 (chars foo) (chars four) ≡ ok below
unfolding strcmp strcmp_from
strcmp_test = refl

strcmp_same : strcmp 9 (chars foo) (chars foo) ≡ ok same
unfolding strcmp strcmp_from
strcmp_same = refl

strchr_test : strchr 9 (chars foo) b'o' ≡ ok (some 1)
unfolding strchr strchr_from
strchr_test = refl

strrchr_test : strrchr 9 (chars foo) b'o' ≡ ok (some 2)
unfolding strrchr strlen strlen_from strrchr_down
strrchr_test = refl

strcmp_lem_example :
    (i : ℕ) × (strcmp 9 (chars foo) (chars four) ≡ ok (sign (chars foo i) (chars four i)))
    × Parts (chars foo) (chars four) 3 i
strcmp_lem_example = strcmp_lem (chars foo) (chars four) 3 foo-IsLength 9 (omega arith)

memmove_lem_example : Copied 2 1 3 (chars four) (memmove 2 1 3 (chars four))
memmove_lem_example = memmove_lem 2 1 3 (chars four)

memmove_test : memmove 2 1 2 (chars four) 3 ≡ b'u'
unfolding memmove copy_down copy_item
memmove_test = refl
