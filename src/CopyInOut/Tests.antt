-- ===== src/CopyInOut/Tests.antt =====
-- The theorems on kern/vm/copyinout.c at a machine where user space has one page, from 0x1000 on,
-- that holds a string of three bytes, 65, 66 and 0.
use project_os.Prelude.{ℕ, refl, Bool, false, arith, ltb, leb, ◌==◌, ◌&&◌, if◌then◌else◌}
use project_os.Outcome.Ends.{Ends}
use project_os.CopyInOut.{Machine, copyin}
use project_os.CopyInOut.Blocks.{BlockDone, BlockRefused, copyin-Ends}

abbrev one_page : ℕ → Bool
one_page a = leb 0x1000 a && ltb a 0x2000

abbrev two_letters : Machine
two_letters = record {
  memory = λ a. if a == 0x1000 then 65 else if a == 0x1001 then 66 else 0;
  guarded = false;
}

copyin-Ends_example :
    Ends
      (λ _. BlockDone one_page 0x80001000 0x1000 0x1000 3 two_letters)
      (BlockRefused one_page 0x80001000 0x1000 0x1000 3 two_letters)
      (copyin one_page 0x1000 0x80001000 3 two_letters)
copyin-Ends_example =
    copyin-Ends one_page 0x1000 0x80001000 3 two_letters refl (omega arith) (omega arith)
      (omega arith)
