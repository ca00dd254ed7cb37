-- ===== src/Array.antt =====
-- The resizable arrays of pointers, kern/lib/array.c and kern/include/array.h. A pointer is a
-- number. What kmalloc returns is an argument: no memory, or memory with some contents.
pub mod Grow
pub mod Correct
pub mod Tests
use project_os.Prelude.{
  ℕ, zero, suc, ◌+◌, ◌-◌, ◌*◌, ◌%◌, ◌^◌, Bool, true, false, not, Option, none, some, ◌&&◌, ltb, leb,
  ◌==◌, if◌then◌else◌,
}
use project_os.Outcome.{Outcome, ok, err, panic, enomem}
use project_os.Outcome.Exec.{Exec, pure, kassert, ◌>>=◌, ◌>>◌}

-- struct array: the contents of the memory at `v`, num and max
pub record Array : Type 0 where
  pub v : ℕ → ℕ
  pub num : ℕ
  pub max : ℕ

unfoldable pub array_init : Exec Array (Unit {0})
array_init a = (ok tt, record a { num = 0; max = 0 })

unfoldable pub array_cleanup : Exec Array (Unit {0})
array_cleanup a = kassert (a.num == 0) a

-- newmax ? newmax*2 : 4
abbrev pub doubled : ℕ → ℕ
doubled newmax = if newmax == 0 then 4 else newmax * 2 % 2 ^ 32

-- The loop of array_preallocate, with a bound on the rounds; `none` if that is not enough.
unfoldable pub grow : (rounds newmax num : ℕ) → Option ℕ
grow zero newmax num = if ltb newmax num then none else some newmax
grow (suc n) newmax num =
    let next = grow n (doubled newmax) num in if ltb newmax num then next else some newmax

-- Behind the loop: memcpy, kfree and the two assignments.
-- kmalloc is asked for newmax*sizeof(*a->v) bytes in 32 bits; where that wraps around, the memory
-- is smaller than the array, which is taken for a panic.
abbrev pub moved_to : Option (ℕ → ℕ) → ℕ → Exec Array (Unit {0})
moved_to none newmax a = (err enomem, a)
moved_to (some newptr) newmax a =
    if not (newmax * 4 % 2 ^ 32 == newmax * 4)
    then (panic, a)
    else (ok tt, record a { v = λ i. if ltb i a.num then a.v i else newptr i; max = newmax })

-- The loop does not end if the bound on the rounds is too small, which is taken for a panic here.
abbrev pub enlarged : Option (ℕ → ℕ) → Option ℕ → Exec Array (Unit {0})
enlarged newptr none a = (panic, a)
enlarged newptr (some newmax) a = moved_to newptr newmax a

unfoldable pub array_preallocate : Option (ℕ → ℕ) → (num : ℕ) → Exec Array (Unit {0})
array_preallocate newptr num a =
    if ltb a.max num then enlarged newptr (grow 32 a.max num) a else (ok tt, a)

unfoldable pub array_setsize : Option (ℕ → ℕ) → (num : ℕ) → Exec Array (Unit {0})
array_setsize newptr num = array_preallocate newptr num >> λ a. (ok tt, record a { num = num })

unfoldable pub array_get : (index : ℕ) → Exec Array ℕ
array_get index a = (kassert (ltb index a.num) >> λ a. (ok (a.v index), a)) a

abbrev pub put_item : ℕ → ℕ → Array → Array
put_item index val a = record a { v = λ i. if index == i then val else a.v i }

unfoldable pub array_set : (index val : ℕ) → Exec Array (Unit {0})
array_set index val a = (kassert (ltb index a.num) >> λ a. (ok tt, put_item index val a)) a

-- The result is the index of the new element.
unfoldable pub array_add : Option (ℕ → ℕ) → (val : ℕ) → Exec Array ℕ
array_add newptr val a =
    let index = a.num in
    (array_setsize newptr ((index + 1) % 2 ^ 32) >> λ a. (ok index, put_item index val a)) a

-- memmove(a->v + index, a->v + index+1, ...) and a->num--
abbrev pub closed_up : ℕ → Array → Array
closed_up index a = record a {
  v = λ i. if leb index i && ltb i (a.num - 1) then a.v (i + 1) else a.v i;
  num = a.num - 1;
}

unfoldable pub array_remove : (index : ℕ) → Exec Array (Unit {0})
array_remove index a =
    (kassert (leb a.num a.max) >> kassert (ltb index a.num) >> λ a. (ok tt, closed_up index a)) a
