-- ===== src/Array/Correct.antt =====
-- The theorems on kern/lib/array.c and kern/include/array.h.
use project_os.Prelude.{
  ℕ, ◌*◌, ◌+◌, ◌%◌, ◌^◌, ◌≤◌, ◌<◌, ◌≡◌, refl, true, arith, none, some, ltb, leb, ◌==◌,
  if◌then◌else◌, Bool-cases, inl, inr,
}
use project_os.Outcome.{ok, err, enomem}
use project_os.Outcome.Exec.{◌>>=◌}
use project_os.Array.{
  Array, put_item, closed_up, array_preallocate, array_setsize, array_get, array_set, array_add,
  array_remove,
}
use project_os.Array.Grow.{grow_enough}

pub record IsArray (a : Array) : Type 0 where
  pub fits : a.num ≤ a.max

-- The array has room for `num` elements, and the same elements.
pub record HasRoom (a : Array) (num : ℕ) (a' : Array) : Type 0 where
  pub room : num ≤ a'.max
  pub larger : a.max ≤ a'.max
  pub count : a'.num ≡ a.num
  pub items : (i : ℕ) → i < a.num → a'.v i ≡ a.v i

-- With memory, and for at most 2^29 elements, array_preallocate returns 0 and makes room for
-- `num` elements; the elements stay.
pub array_preallocate_lem :
    (newptr : ℕ → ℕ) (num : ℕ) (a : Array)
    → num ≤ 2 ^ 29
    → (a' : Array) × (array_preallocate (some newptr) num a ≡ (ok tt, a')) × HasRoom a num a'
unfolding array_preallocate
array_preallocate_lem newptr num a small = elim (Bool-cases (ltb a.max num)) [
  | inr enough ↦ (
    a,
    rw enough,
    record { room = ground arith; larger = omega arith; count = refl; items = λ i h. refl },
  )
  | inl short ↦
      let (newmax, r, h, low) = grow_enough a.max num small (ground arith) in
      (
        record a { v = λ i. if ltb i a.num then a.v i else newptr i; max = newmax },
        (let fits : (newmax * 4 % 2 ^ 32 == newmax * 4) ≡ true = ground arith in
            rw (short, r, fits)),
        record { room = h; larger = ground arith; count = refl; items = λ i p. ground arith },
      )
]

-- Without memory array_add returns ENOMEM and changes nothing if the array is full, with fewer than
-- 2^29 elements.
pub array_add_enomem :
    (val : ℕ) (a : Array) → a.num ≡ a.max → a.num < 2 ^ 29 → array_add none val a ≡ (err enomem, a)
unfolding array_add array_setsize array_preallocate
array_add_enomem val a full small =
    let w : (a.num + 1) % 2 ^ 32 ≡ a.num + 1 = omega arith in
    let short : ltb a.max (a.num + 1) ≡ true = ground arith in
    let (newmax, r, h, low) = grow_enough a.max (a.num + 1) (omega arith) (omega arith) in
    rw (w, short, r)

-- The array has the elements of `a` and then `val`.
pub record Added (a : Array) (val : ℕ) (a' : Array) : Type 0 where
  pub valid : IsArray a'
  pub count : a'.num ≡ a.num + 1
  pub items : (i : ℕ) → i < a.num → a'.v i ≡ a.v i
  pub last : a'.v a.num ≡ val

added :
    (newptr : ℕ → ℕ) (val : ℕ) (a a1 : Array)
    → a.num < 2 ^ 29
    → array_preallocate (some newptr) (a.num + 1) a ≡ (ok tt, a1)
    → HasRoom a (a.num + 1) a1
    → (a' : Array) × (array_add (some newptr) val a ≡ (ok a.num, a')) × Added a val a'
unfolding array_add array_setsize
added newptr val a a1 small r room =
    let w : (a.num + 1) % 2 ^ 32 ≡ a.num + 1 = omega arith in
    (
      put_item a.num val (record a1 { num = a.num + 1 }),
      rw (w, r),
      record {
        valid = record { fits = room.room };
        count = refl;
        items = λ i h. ground (arith, room.items i h);
        last = ground arith;
      },
    )

-- With memory, array_add puts a new element behind the others and returns its index; the array
-- grows if it is full. It has fewer than 2^29 elements before.
pub array_add_lem :
    (newptr : ℕ → ℕ) (val : ℕ) (a : Array)
    → a.num < 2 ^ 29
    → (a' : Array) × (array_add (some newptr) val a ≡ (ok a.num, a')) × Added a val a'
array_add_lem newptr val a small =
    let (a1, r, room) = array_preallocate_lem newptr (a.num + 1) a (omega arith) in
    added newptr val a a1 small r room

-- The array lacks the element at `index`, and those behind it have moved up.
pub record Removed (a : Array) (index : ℕ) (a' : Array) : Type 0 where
  pub valid : IsArray a'
  pub count : a'.num + 1 ≡ a.num
  pub items : (i : ℕ) → i < a'.num → a'.v i ≡ (if ltb i index then a.v i else a.v (i + 1))

-- array_remove takes out the element at an index of the array, and the others keep their order.
pub array_remove_lem :
    (index : ℕ) (a : Array)
    → IsArray a
    → index < a.num
    → (a' : Array) × (array_remove index a ≡ (ok tt, a')) × Removed a index a'
unfolding array_remove
array_remove_lem index a valid low =
    let fits : leb a.num a.max ≡ true = ground (arith, valid.fits) in
    let inside : ltb index a.num ≡ true = ground arith in
    (
      closed_up index a,
      rw (fits, inside),
      record {
        valid = record { fits = omega (arith, valid.fits) };
        count = omega arith;
        items = λ i h. ground arith;
      },
    )

-- array_get reads back what array_set has written at an index of the array, and reads at every
-- other index what was there.
pub array_get-set :
    (index val j : ℕ) (a : Array)
    → index < a.num
    → j < a.num
    → (array_set index val >>= λ _. array_get j) a
      ≡ (ok (if index == j then val else a.v j), put_item index val a)
unfolding array_get array_set
array_get-set index val j a p q =
    let inside : ltb index a.num ≡ true = ground arith in
    let inside_j : ltb j a.num ≡ true = ground arith in rw (inside, inside_j)
