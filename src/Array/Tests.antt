-- ===== src/Array/Tests.antt =====
-- The theorems on kern/lib/array.c at a full array of four elements.
use project_os.Prelude.{ℕ, ◌*◌, ◌≡◌, arith, some}
use project_os.Outcome.{ok}
use project_os.Array.{Array, array_add}
use project_os.Array.Correct.{Added, array_add_lem}

abbrev squares : Array
squares = record { v = λ i. i * i; num = 4; max = 4 }

abbrev garbage : ℕ → ℕ
garbage i = 99

array_add_lem_example :
    (a' : Array) × (array_add (some garbage) 16 squares ≡ (ok 4, a')) × Added squares 16 a'
array_add_lem_example = array_add_lem garbage 16 squares (omega arith)
