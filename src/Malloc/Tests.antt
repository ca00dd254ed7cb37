-- ===== src/Malloc/Tests.antt =====
-- malloc and free at a heap of one page with three blocks, of which the middle one is free.
use project_os.Prelude.{
  ℕ, ◌+◌, ◌^◌, ◌<◌, ◌≡◌, ◌-◌, refl, arith, Bool, true, false, ltb, Option, none, some, List, [],
  ◌∷◌, ◌==◌, if◌then◌else◌,
}
use project_os.Outcome.{ok}
use project_os.Outcome.Ends.{Ends}
use project_os.Outcome.Exec.{◌>>=◌}
use project_os.Malloc.{Header, Heap, Sbrk, free, malloc_search, malloc_split, split_off}
use project_os.Malloc.Allocate.{malloc, malloc_body, expand_new, malloc_sbrk}
use project_os.Malloc.View.{Block, header, pieces}
use project_os.Malloc.Grant.{IsHeap}
use project_os.Malloc.Correct.{Malloced, malloc-Ends}
use project_os.Malloc.Release.{Preserved}
use project_os.Malloc.Free.{free-Ends, free_result, free-malloc-Ends}

-- An sbrk that grants what ends below 2^31.
abbrev grow : ℕ → ℕ → Option (ℕ × ℕ)
grow b n = if ltb (b + n) (2 ^ 31) then some (b, b + n) else none

grow_raises :
    (b n x b' : ℕ) → n < 2 ^ 31 → grow b n ≡ some (x, b') → (x ≡ b) × (b' ≡ b + n) × (b' < 2 ^ 32)
grow_raises b n x b' small e = ground arith

abbrev os : Sbrk
os = record { sbrk = grow; raises = grow_raises }

abbrev block : ℕ → Bool → Block
block n u = record { len = n; used = u }

abbrev sample_blocks : List Block
sample_blocks = block 3 true ∷ block 6 false ∷ block 503 true ∷ []

abbrev unused : Header
unused = record { prevblock = 0; pad = 0; magic1 = 3; nextblock = 0; inuse = true; magic2 = 3 }

abbrev sample : Heap
sample = record {
  heapbase = 4096;
  heaptop = 8192;
  brk = 8192;
  mem = λ a.
      if a == 4096
      then header 0 (block 3 true)
      else if a == 4120
      then header 3 (block 6 false)
      else if a == 4168
      then header 6 (block 503 true)
      else unused;
}

sample-IsHeap : IsHeap sample sample_blocks
sample-IsHeap = record {
  start = omega arith;
  aligned = refl;
  ended = refl;
  small = omega arith;
  chain = (refl, omega arith, (refl, omega arith, (refl, omega arith, refl)));
}

malloc-Ends_example : Ends (Malloced sample sample_blocks 10) (λ _ _. ⊥) (malloc os 10 sample)
malloc-Ends_example = malloc-Ends os sample sample_blocks 10 (omega arith) sample-IsHeap

free-Ends_example :
    Ends (λ _ s'. Preserved sample ((4176, 4016) ∷ []) s') (λ _ _. ⊥) (free unused 4104 sample)
free-Ends_example =
    free-Ends unused sample sample_blocks [] 4104 16 ((4176, 4016) ∷ []) sample-IsHeap refl
      (omega arith)

free-malloc-Ends_example :
    Ends
      (λ _ s'. Preserved sample (pieces 4096 sample_blocks) s')
      (λ _ _. ⊥)
      ((malloc os 10 >>= free_result unused) sample)
free-malloc-Ends_example =
    free-malloc-Ends unused os sample sample_blocks 10 (omega arith) (omega arith) sample-IsHeap

-- The first block that is large enough is taken, here the middle one.
first_fit : (malloc os 10 sample).0 ≡ ok (some 4128)
unfolding malloc malloc_body malloc_search malloc_split split_off
first_fit = refl

-- Nothing is large enough, so that a page is asked for.
next_page : (malloc os 100 sample).0 ≡ ok (some 8200)
unfolding malloc malloc_body malloc_search expand_new malloc_sbrk malloc_split split_off
next_page = refl

-- The size is rounded up in 32 bits: a request for all but a byte of the address space is granted,
-- with a piece of no bytes.
request_wraps : (malloc os (2 ^ 32 - 1) sample).0 ≡ ok (some 4128)
unfolding malloc malloc_body malloc_search malloc_split split_off
request_wraps = refl
