-- ===== src/Libc/Strings.antt =====
-- common/libc/string: strlen.c, strcmp.c, strcpy.c, strcat.c, strchr.c and strrchr.c.
use project_os.Prelude.{ℕ, zero, suc, ◌+◌, not, ◌&&◌, ltb, ◌==◌, if◌then◌else◌, Option, none, some}
use project_os.Outcome.{Outcome, ok, panic, ◌>>=◌}
use project_os.Libc.{Memory, put}

-- while (str[ret]) ret++
unfoldable pub strlen_from : ℕ → Memory → ℕ → Outcome ℕ
strlen_from zero str ret = panic
strlen_from (suc n) str ret =
    let rest = strlen_from n str (ret + 1) in if str ret == 0 then ok ret else rest

unfoldable pub strlen : ℕ → Memory → Outcome ℕ
strlen n str = strlen_from n str 0

-- The results 1, 0 and -1 of strcmp.
pub data Sign : Type 0 where
  above same below : Sign

-- The index at which the loop of strcmp stops.
unfoldable pub strcmp_from : ℕ → (a b : Memory) → ℕ → Outcome ℕ
strcmp_from zero a b i = panic
strcmp_from (suc n) a b i =
    let rest = strcmp_from n a b (i + 1) in if not (a i == 0) && (a i == b i) then rest else ok i

abbrev pub sign : ℕ → ℕ → Sign
sign x y = if ltb y x then above else if x == y then same else below

unfoldable pub strcmp : ℕ → (a b : Memory) → Outcome Sign
strcmp n a b = do i ← strcmp_from n a b 0; ok (sign (a i) (b i))

-- Copies to `dest + start`.
unfoldable pub strcpy_from : ℕ → (dest : Memory) → (start : ℕ) → (src : Memory) → ℕ → Outcome Memory
strcpy_from zero dest start src i = panic
strcpy_from (suc n) dest start src i =
    let rest = strcpy_from n (put dest (start + i) (src i)) start src (i + 1) in
    if src i == 0 then ok (put dest (start + i) 0) else rest

unfoldable pub strcpy : ℕ → (dest : Memory) → (start : ℕ) → (src : Memory) → Outcome Memory
strcpy n dest start src = strcpy_from n dest start src 0

unfoldable pub strcat : ℕ → (dest src : Memory) → Outcome Memory
strcat n dest src = do offset ← strlen n dest; strcpy n dest offset src

-- The index of the byte that is pointed to, `none` for NULL.
unfoldable pub strchr_from : ℕ → Memory → (ch : ℕ) → ℕ → Outcome (Option ℕ)
strchr_from zero s ch i = panic
strchr_from (suc n) s ch i =
    let rest = strchr_from n s ch (i + 1) in
    if s i == 0
    then ok (if s i == ch then some i else none)
    else if s i == ch
    then ok (some i)
    else rest

unfoldable pub strchr : ℕ → Memory → (ch : ℕ) → Outcome (Option ℕ)
strchr n s ch = strchr_from n s ch 0

-- while (i > 0) { i--; if (s[i] == ch) return s+i; }
unfoldable pub strrchr_down : ℕ → Memory → (ch : ℕ) → Option ℕ
strrchr_down zero s ch = none
strrchr_down (suc i) s ch = if s i == ch then some i else strrchr_down i s ch

unfoldable pub strrchr : ℕ → Memory → (ch : ℕ) → Outcome (Option ℕ)
strrchr n s ch = do len ← strlen n s; ok (strrchr_down (len + 1) s ch)
