-- ===== src/Libc/Copying.antt =====
-- What memcpy, memmove, bzero and memset of common/libc/string do to memory.
use project_os.Prelude.{
  ℕ, zero, suc, ◌+◌, ◌-◌, ◌*◌, ◌/◌, ◌%◌, ◌≤◌, ◌<◌, ◌≡◌, ◌⊎◌, inl, inr, arith, Bool-cases, true,
  false, ◌&&◌, ltb, leb, ◌==◌, if◌then◌else◌,
}
use project_os.Libc.{Memory}
use project_os.Libc.Moves.{copy_item, copy_up, copy_down, memcpy, memmove, fill_up, bzero, memset}

-- The `len` bytes at `dst` become what the bytes at `src` were.
abbrev pub Copied : (dst src len : ℕ) → (m m' : Memory) → Type 0
Copied dst src len m m' =
    (k : ℕ) → m' k ≡ (if leb dst k && ltb k (dst + len) then m (src + (k - dst)) else m k)

module _ (w : ℕ) (dst src : ℕ) where
  -- Upwards, an item that is written is not read later.
  copy_up_lem :
      (n i : ℕ) (m : Memory) (k : ℕ)
      → (dst ≤ src) ⊎ (src + w * (i + n) ≤ dst)
      → copy_up w n i dst src m k
        ≡ (if leb (dst + w * i) k && ltb k (dst + w * (i + n)) then m (src + (k - dst)) else m k)
  unfolding copy_up copy_item
  copy_up_lem zero i m k h = ground arith
  copy_up_lem (suc n) i m k h =
      let a : w * (i + 1) ≡ w * i + w = grind arith in
      let b : w * (i + 1 + n) ≡ w * i + w + w * n = grind arith in
      let c : w * (i + suc n) ≡ w * i + w + w * n = grind arith in
      ground (arith, copy_up_lem n (i + 1) (copy_item w dst src i m) k)

  item_below : (n : ℕ) (m : Memory) (x : ℕ) → x < dst + w * n → copy_item w dst src n m x ≡ m x
  unfolding copy_item
  item_below n m x h = ground arith

  item_last :
      (n : ℕ) (m : Memory) (k : ℕ)
      → (leb dst k && ltb k (dst + w * n)) ≡ false
      → copy_item w dst src n m k
        ≡ (if leb dst k && ltb k (dst + w * suc n) then m (src + (k - dst)) else m k)
  unfolding copy_item
  item_last n m k h =
      let a : w * suc n ≡ w * n + w = grind arith in
      elim (Bool-cases (leb (dst + w * n) k && ltb k (dst + w * n + w))) [
        | inl e ↦
            let e' : (leb dst k && ltb k (dst + w * suc n)) ≡ true = ground arith in
            let at : src + w * n + (k - (dst + w * n)) ≡ src + (k - dst) = ground arith in
            rw (e, e', at)
        | inr e ↦
            let e' : (leb dst k && ltb k (dst + w * suc n)) ≡ false = ground arith in rw (e, e')
      ]

  -- Downwards likewise.
  copy_down_lem :
      (n : ℕ) (m : Memory) (k : ℕ)
      → src ≤ dst
      → copy_down w n dst src m k
        ≡ (if leb dst k && ltb k (dst + w * n) then m (src + (k - dst)) else m k)
  unfolding copy_down copy_item
  copy_down_lem zero m k h = ground arith
  copy_down_lem (suc n) m k h =
      let a : w * suc n ≡ w * n + w = grind arith in
      rw (copy_down_lem n (copy_item w dst src n m) k h)
        (elim (Bool-cases (leb dst k && ltb k (dst + w * n))) [
          | inl e ↦
              let below : src + (k - dst) < dst + w * n = ground arith in
              let e' : (leb dst k && ltb k (dst + w * suc n)) ≡ true = ground arith in
              rw (e, e', item_below n m (src + (k - dst)) below)
          | inr e ↦ rw e (item_last n m k e)
        ])

module _ (w : ℕ) (block v : ℕ) where
  fill_up_lem :
      (n i : ℕ) (m : Memory) (k : ℕ)
      → fill_up w n i block v m k
        ≡ (if leb (block + w * i) k && ltb k (block + w * (i + n)) then v else m k)
  unfolding fill_up
  fill_up_lem zero i m k = ground arith
  fill_up_lem (suc n) i m k =
      let a : w * (i + 1) ≡ w * i + w = grind arith in
      let b : w * (i + 1 + n) ≡ w * i + w + w * n = grind arith in
      let c : w * (i + suc n) ≡ w * i + w + w * n = grind arith in
      ground (
        arith,
        fill_up_lem n (i + 1)
            (λ (j : ℕ). if leb (block + w * i) j && ltb j (block + w * i + w) then v else m j) k,
      )

-- memcpy, by longs or by bytes, copies `len` bytes where the destination does not lie above the
-- source inside it: the destination gets what the source held before, and no other byte changes.
pub memcpy_lem :
    (dst src len : ℕ) (m : Memory)
    → (dst ≤ src) ⊎ (src + len ≤ dst)
    → Copied dst src len m (memcpy dst src len m)
unfolding memcpy
memcpy_lem dst src len m h k =
    elim (Bool-cases ((dst % 4 == 0) && ((src % 4 == 0) && (len % 4 == 0)))) [
      | inl e ↦ ground (arith, copy_up_lem 4 dst src (len / 4) 0 m k)
      | inr e ↦ rw e (ground (arith, copy_up_lem 1 dst src len 0 m k))
    ]

-- memmove copies `len` bytes also where the two regions overlap: the destination gets what the
-- source held before the call, and no other byte changes.
pub memmove_lem : (dst src len : ℕ) (m : Memory) → Copied dst src len m (memmove dst src len m)
unfolding memmove
memmove_lem dst src len m k = elim (Bool-cases (ltb dst src)) [
  | inl e ↦ rw e (memcpy_lem dst src len m (inl (ground arith)) k)
  | inr e ↦ elim (Bool-cases ((dst % 4 == 0) && ((src % 4 == 0) && (len % 4 == 0)))) [
    | inl long ↦ ground (arith, copy_down_lem 4 dst src (len / 4) m k)
    | inr byte ↦ rw (e, byte) (ground (arith, copy_down_lem 1 dst src len m k))
  ]
]

-- bzero, by longs or by bytes, stores 0 in the `len` bytes, and memset the low byte of `ch`; no
-- other byte changes.
pub bzero-memset_lem :
    (block ch len : ℕ) (m : Memory) (k : ℕ)
    → (bzero block len m k ≡ (if leb block k && ltb k (block + len) then 0 else m k))
      × (memset block ch len m k ≡ (if leb block k && ltb k (block + len) then ch % 256 else m k))
unfolding bzero memset
bzero-memset_lem block ch len m k = (
  ground (arith, fill_up_lem 4 block 0 (len / 4) 0 m k, fill_up_lem 1 block 0 len 0 m k),
  ground (arith, fill_up_lem 1 block (ch % 256) len 0 m k),
)
