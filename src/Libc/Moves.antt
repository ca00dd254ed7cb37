-- ===== src/Libc/Moves.antt =====
-- common/libc/string: memcpy.c, memmove.c, bzero.c and memset.c, on one memory with both the
-- source and the destination in it. A long is four bytes.
use project_os.Prelude.{ℕ, zero, suc, ◌+◌, ◌-◌, ◌*◌, ◌/◌, ◌%◌, ◌&&◌, ltb, leb, ◌==◌, if◌then◌else◌}
use project_os.Libc.{Memory}

-- d[i] = s[i] for items of `w` bytes, the whole item at once.
unfoldable pub copy_item : ℕ → (dst src i : ℕ) → Memory → Memory
copy_item w dst src i m k =
    if leb (dst + w * i) k && ltb k (dst + w * i + w)
    then m (src + w * i + (k - (dst + w * i)))
    else m k

-- The loop of memcpy, with the items that are left.
unfoldable pub copy_up : (w n i : ℕ) → (dst src : ℕ) → Memory → Memory
copy_up w zero i dst src m = m
copy_up w (suc n) i dst src m = copy_up w n (i + 1) dst src (copy_item w dst src i m)

-- The loop of memmove, from the last item down.
unfoldable pub copy_down : (w n : ℕ) → (dst src : ℕ) → Memory → Memory
copy_down w zero dst src m = m
copy_down w (suc n) dst src m = copy_down w n dst src (copy_item w dst src n m)

unfoldable pub memcpy : (dst src len : ℕ) → Memory → Memory
memcpy dst src len m =
    if (dst % 4 == 0) && ((src % 4 == 0) && (len % 4 == 0))
    then copy_up 4 (len / 4) 0 dst src m
    else copy_up 1 len 0 dst src m

unfoldable pub memmove : (dst src len : ℕ) → Memory → Memory
unfolding memcpy
memmove dst src len m =
    if ltb dst src
    then memcpy dst src len m
    else if (dst % 4 == 0) && ((src % 4 == 0) && (len % 4 == 0))
    then copy_down 4 (len / 4) dst src m
    else copy_down 1 len dst src m

-- The loop of bzero and memset: stores `v` in `w` bytes at a time.
unfoldable pub fill_up : (w n i : ℕ) → (block v : ℕ) → Memory → Memory
fill_up w zero i block v m = m
fill_up w (suc n) i block v m =
    fill_up w n (i + 1) block v
      (λ k. if leb (block + w * i) k && ltb k (block + w * i + w) then v else m k)

unfoldable pub bzero : (block len : ℕ) → Memory → Memory
bzero block len m =
    if (block % 4 == 0) && (len % 4 == 0)
    then fill_up 4 (len / 4) 0 block 0 m
    else fill_up 1 len 0 block 0 m

unfoldable pub memset : (ptr ch len : ℕ) → Memory → Memory
memset ptr ch len m = fill_up 1 len 0 ptr (ch % 256) m
