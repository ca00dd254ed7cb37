-- ===== src/Libc/Correct.antt =====
-- What the functions of Libc/Strings do, where the strings have an end and the fuel exceeds their
-- length.
use project_os.Prelude.{
  ℕ, zero, suc, ◌+◌, ◌-◌, ◌≤◌, ◌<◌, ◌≡◌, ◌≢◌, inl, inr, ◌∙◌, arith, Bool-cases, and_below,
  and_above, true, not, ◌&&◌, leb, ◌==◌, if◌then◌else◌, Option, none, some,
}
use project_os.Outcome.{ok}
use project_os.Libc.{Memory, IsLength, put}
use project_os.Libc.Strings.{
  strlen_from, strlen, strcmp_from, sign, strcmp, strcpy_from, strcpy, strcat, strchr_from, strchr,
  strrchr_down, strrchr,
}

module _ (m : Memory) (k : ℕ) (s : IsLength m k) where
  strlen_from_lem : (n i : ℕ) → i ≤ k → k < i + n → strlen_from n m i ≡ ok k
  unfolding strlen_from
  strlen_from_lem zero i h h' = absurd (omega arith)
  strlen_from_lem (suc n) i h h' = ground (arith, strlen_from_lem n (i + 1), s.before i, s.stop)

  pub strlen_lem : (n : ℕ) → k < n → strlen n m ≡ ok k
  unfolding strlen
  strlen_lem n h = strlen_from_lem n 0 (omega arith) (omega arith)

-- The strings first differ at `i`, or end there both.
pub record Parts (a b : Memory) (k i : ℕ) : Type 0 where
  pub inside : i ≤ k
  pub agree : (j : ℕ) → j < i → a j ≡ b j
  pub differ : a i ≡ b i → i ≡ k

module _ (a b : Memory) (k : ℕ) (s : IsLength a k) where
  strcmp_from_lem :
      (n i : ℕ)
      → i ≤ k
      → k < i + n
      → ((j : ℕ) → j < i → a j ≡ b j)
      → (at : ℕ) × (strcmp_from n a b i ≡ ok at) × Parts a b k at
  unfolding strcmp_from
  strcmp_from_lem zero i h h' agree = absurd (omega arith)
  strcmp_from_lem (suc n) i h h' agree = elim (Bool-cases (not (a i == 0) && (a i == b i))) [
    | inl go ↦
        let more : i < k = ground (arith, s.stop) in
        let here : a i ≡ b i = ground arith in
        rw go (
          strcmp_from_lem n (i + 1) (omega arith) (omega arith)
            (and_below (λ j. a j ≡ b j) i here agree))
    | inr stop ↦
        (i, rw stop, record { inside = h; agree = agree; differ = λ e. ground (arith, s.before i) })
  ]

  -- Where the first string has an end, strcmp compares the strings at the first place where they
  -- differ, or at their common end: its result is the order of the two bytes there.
  pub strcmp_lem :
      (n : ℕ) → k < n → (i : ℕ) × (strcmp n a b ≡ ok (sign (a i) (b i))) × Parts a b k i
  unfolding strcmp
  strcmp_lem n h =
      let (i, e, p) =
        strcmp_from_lem n 0 (omega arith) (omega arith) (λ j l. absurd (omega arith)) in
      (i, rw e, p)

-- `dest'` is `dest` with the bytes of the source from `i` on and its NUL, behind `start`.
abbrev pub StringAt : (src : Memory) → (k start i : ℕ) → (dest dest' : Memory) → Type 0
StringAt src k start i dest dest' =
    (j : ℕ) → dest' j ≡ (if leb (start + i) j && leb j (start + k) then src (j - start) else dest j)

module _ (src : Memory) (k : ℕ) (s : IsLength src k) (start : ℕ) where
  strcpy_from_lem :
      (n i : ℕ) (dest : Memory)
      → i ≤ k
      → k < i + n
      → (dest' : Memory) × (strcpy_from n dest start src i ≡ ok dest')
        × StringAt src k start i dest dest'
  unfolding strcpy_from
  strcpy_from_lem zero i dest h h' = absurd (omega arith)
  strcpy_from_lem (suc n) i dest h h' = elim (Bool-cases (src i == 0)) [
    | inl e ↦
        let at : i ≡ k = ground (arith, s.before i) in
        (put dest (start + i) 0, rw e, λ j. ground (arith, s.stop))
    | inr e ↦
        let more : i < k = ground (arith, s.stop) in
        let (dest', r, p) =
          strcpy_from_lem n (i + 1) (put dest (start + i) (src i)) (omega arith) (omega arith) in
        (dest', rw e r, λ j. ground (arith, p j))
  ]

  -- strcpy copies a string that has an end, its NUL included, and changes no other byte.
  pub strcpy_lem :
      (n : ℕ) (dest : Memory)
      → k < n
      → (dest' : Memory) × (strcpy n dest start src ≡ ok dest') × StringAt src k start 0 dest dest'
  unfolding strcpy
  strcpy_lem n dest h = strcpy_from_lem n 0 dest (omega arith) (omega arith)

appended :
    (src : Memory) (k d : ℕ) (dest dest' : Memory)
    → StringAt src k d 0 dest dest'
    → (i : ℕ) → i ≤ k
    → dest' (d + i) ≡ src i
appended src k d dest dest' p i h =
    let at : d + i - d ≡ i = omega arith in
    let inside : (leb (d + 0) (d + i) && leb (d + i) (d + k)) ≡ true = ground arith in
    p (d + i) ∙ rw (inside, at)

-- strcat appends one string that has an end to another: the result has both lengths together, the
-- bytes of the first and then those of the second.
pub strcat_lem :
    (dest src : Memory) (d k n : ℕ)
    → IsLength dest d
    → IsLength src k
    → d < n
    → k < n
    → (dest' : Memory) × (strcat n dest src ≡ ok dest')
      × IsLength dest' (d + k)
      × ((i : ℕ) → i < d → dest' i ≡ dest i)
      × ((i : ℕ) → i ≤ k → dest' (d + i) ≡ src i)
unfolding strcat
strcat_lem dest src d k n ds ss hd hk =
    let (dest', e, p) = strcpy_lem src k ss d n dest hk in
    (
      dest',
      rw (strlen_lem dest d ds n hd) e,
      record {
        before = λ i h. ground (arith, p i, ds.before i, ss.before (i - d));
        stop = appended src k d dest dest' p k (omega arith) ∙ ss.stop;
      },
      λ i h. ground (arith, p i),
      appended src k d dest dest' p,
    )

-- The first byte of the string, or its NUL, that is `ch`.
abbrev pub IsFirst : Memory → (ch k : ℕ) → Option ℕ → Type 0
IsFirst m ch k none = (i : ℕ) → i ≤ k → m i ≢ ch
IsFirst m ch k (some at) = (at ≤ k) × (m at ≡ ch) × ((i : ℕ) → i < at → m i ≢ ch)

-- The last one.
abbrev pub IsLast : Memory → (ch k : ℕ) → Option ℕ → Type 0
IsLast m ch k none = (i : ℕ) → i ≤ k → m i ≢ ch
IsLast m ch k (some at) = (at ≤ k) × (m at ≡ ch) × ((i : ℕ) → at < i → i ≤ k → m i ≢ ch)

module _ (m : Memory) (k : ℕ) (s : IsLength m k) (ch : ℕ) where
  strchr_from_lem :
      (n i : ℕ)
      → i ≤ k
      → k < i + n
      → ((j : ℕ) → j < i → m j ≢ ch)
      → (r : Option ℕ) × (strchr_from n m ch i ≡ ok r) × IsFirst m ch k r
  unfolding strchr_from
  strchr_from_lem zero i h h' past = absurd (omega arith)
  strchr_from_lem (suc n) i h h' past = elim (Bool-cases (m i == ch)) [
    | inl hit ↦ (some i, rw hit (ground arith), (h, ground arith, past))
    | inr miss ↦
        let past' = and_below (λ j. m j ≢ ch) i (ground arith) past in
        elim (Bool-cases (m i == 0)) [
          | inl end ↦ (none, rw (end, miss), λ j l. past' j (ground (arith, s.before i)))
          | inr go ↦
              let more : i < k = ground (arith, s.stop) in
              rw (miss, go) (strchr_from_lem n (i + 1) (omega arith) (omega arith) past')
        ]
  ]

  strrchr_down_lem :
      (i : ℕ)
      → i ≤ k + 1
      → ((j : ℕ) → i ≤ j → j ≤ k → m j ≢ ch)
      → IsLast m ch k (strrchr_down i m ch)
  unfolding strrchr_down
  strrchr_down_lem zero h past = λ j l. past j (omega arith) l
  strrchr_down_lem (suc i) h past = elim (Bool-cases (m i == ch)) [
    | inl hit ↦ rw hit (omega arith, ground arith, λ j l l'. past j (omega arith) l')
    | inr miss ↦ rw miss (
        strrchr_down_lem i (omega arith)
          (and_above (λ j. j ≤ k → m j ≢ ch) i (λ l. ground arith) (λ j l. past j (omega arith))))
  ]

  -- In a string that has an end, strchr finds the first place of a byte and strrchr the last one,
  -- the NUL at the end included, and they return NULL exactly where it has none.
  pub strchr-strrchr_lem :
      (n : ℕ)
      → k < n
      → ((r : Option ℕ) × (strchr n m ch ≡ ok r) × IsFirst m ch k r)
        × ((r : Option ℕ) × (strrchr n m ch ≡ ok r) × IsLast m ch k r)
  unfolding strchr strrchr
  strchr-strrchr_lem n h = (
    strchr_from_lem n 0 (omega arith) (omega arith) (λ j l. absurd (omega arith)),
    (
      strrchr_down (k + 1) m ch,
      rw (strlen_lem m k s n h),
      strrchr_down_lem (k + 1) (omega arith) (λ j l l'. absurd (omega arith)),
    ),
  )
