-- ===== src/Sfs/Dir/Names.antt =====
-- The names in directory entries as lists of bytes, and how strcmp and strcpy treat them.
use project_os.Prelude.{
  ℕ, zero, suc, ◌+◌, ◌-◌, ◌≤◌, ◌<◌, ◌≡◌, ◌≢◌, refl, sym, ◌∙◌, ap, true, false, arith, List, [], ◌∷◌,
  length, get_or_past, ◌==◌, if◌then◌else◌, Bool-cases, and_below, inl, inr,
}
use project_os.Outcome.{ok}
use project_os.Libc.{Memory, IsLength, chars}
use project_os.Libc.Strings.{Sign, sign, strcmp}
use project_os.Libc.Correct.{strcmp_lem}
use project_os.Sfs.{Block}
use project_os.Sfs.Dir.{is_zero, entry_name, name_len}

-- Bytes with no NUL among them.
abbrev pub IsText : List ℕ → Type 0
IsText [] = Unit
IsText (c ∷ cs) = (c ≢ 0) × IsText cs

-- The string at the start of memory, of at most `n` bytes.
unfoldable pub text : ℕ → Memory → List ℕ
text zero m = []
text (suc n) m = if m 0 == 0 then [] else m 0 ∷ text n (λ i. m (suc i))

pub text_same : (n : ℕ) (m m' : Memory) → ((k : ℕ) → k < n → m k ≡ m' k) → text n m ≡ text n m'
unfolding text
text_same zero m m' h = refl
text_same (suc n) m m' h =
    let rest = text_same n (λ i. m (suc i)) (λ i. m' (suc i)) (λ k l. h (suc k) (omega arith)) in
    rw (h 0 (omega arith), rest)

pub text-IsText : (n : ℕ) (m : Memory) → IsText (text n m)
unfolding text
text-IsText zero m = tt
text-IsText (suc n) m = elim (Bool-cases (m 0 == 0)) [
  | inl e ↦ rw e tt
  | inr e ↦ rw e (λ z. ground arith, text-IsText n (λ i. m (suc i)))
]

pub length-text : (n : ℕ) (m : Memory) → length (text n m) ≤ n
unfolding text
length-text zero m = omega arith
length-text (suc n) m = ground (arith, length-text n (λ i. m (suc i)))

chars-text : (n : ℕ) (m : Memory) (i : ℕ) → i < length (text n m) → chars (text n m) i ≡ m i
unfolding text
chars-text zero m i h = elim h [ ]
chars-text (suc n) m zero h = elim (Bool-cases (m 0 == 0)) [
  | inl e ↦ let h' = rw e at h in elim h' [ ]
  | inr e ↦ rw e
]
chars-text (suc n) m (suc i) h = elim (Bool-cases (m 0 == 0)) [
  | inl e ↦ let h' = rw e at h in elim h' [ ]
  | inr e ↦ let h' = rw e at h in rw e (chars-text n (λ i. m (suc i)) i (omega arith))
]

text_end : (n : ℕ) (m : Memory) → length (text n m) < n → m (length (text n m)) ≡ 0
unfolding text
text_end zero m h = elim h [ ]
text_end (suc n) m h = elim (Bool-cases (m 0 == 0)) [
  | inl e ↦ rw e (ground arith)
  | inr e ↦ let h' = rw e at h in rw e (text_end n (λ i. m (suc i)) (omega arith))
]

chars_ne_zero : (l : List ℕ) → IsText l → (i : ℕ) → i < length l → chars l i ≢ 0
chars_ne_zero [] t i h = elim h [ ]
chars_ne_zero (c ∷ cs) t zero h = t.0
chars_ne_zero (c ∷ cs) t (suc i) h = chars_ne_zero cs t.1 i (omega arith)

pub chars-IsLength : (l : List ℕ) → IsText l → IsLength (chars l) (length l)
chars-IsLength l t = record {
  before = chars_ne_zero l t;
  stop = get_or_past l (length l) 0 (omega arith);
}

texts_same :
    (l l' : List ℕ)
    → IsText l
    → IsText l'
    → ((i : ℕ) → i ≤ length l → chars l i ≡ chars l' i)
    → l ≡ l'
texts_same [] [] t t' h = refl
texts_same [] (c ∷ cs) t t' h = absurd (t'.0 (sym (h 0 (omega arith))))
texts_same (c ∷ cs) [] t t' h = absurd (t.0 (h 0 (omega arith)))
texts_same (c ∷ cs) (d ∷ ds) t t' h =
    let rest = texts_same cs ds t.1 t'.1 (λ i l. h (suc i) (omega arith)) in
    rw (h 0 (omega arith), rest)

-- The string is read from where it stands.
pub text-chars :
    (n : ℕ) (m : Memory) (l : List ℕ)
    → IsText l
    → length l ≤ n
    → ((k : ℕ) → k ≤ length l → m k ≡ chars l k)
    → text n m ≡ l
unfolding text
text-chars zero m [] t h agrees = refl
text-chars zero m (c ∷ cs) t h agrees = absurd (omega arith)
text-chars (suc n) m [] t h agrees = rw (agrees 0 (omega arith))
text-chars (suc n) m (c ∷ cs) t h agrees =
    let rest =
      text-chars n (λ k. m (suc k)) cs t.1 (omega arith) (λ k l. agrees (suc k) (omega arith)) in
    let e : (c == 0) ≡ false = ground (arith, t.0) in rw (agrees 0 (omega arith), e, rest)

-- The name in an entry, whose last byte is taken as NUL.
abbrev pub name_of : Block → List ℕ
name_of tsd = text (name_len - 1) (λ k. tsd (4 + k))

module _ (tsd : Block) where
  name_fits : length (name_of tsd) ≤ name_len - 1
  name_fits = length-text (name_len - 1) (λ k. tsd (4 + k))

  entry_end : entry_name tsd (length (name_of tsd)) ≡ 0
  entry_end = elim (Bool-cases (63 == 4 + length (name_of tsd))) [
    | inl e ↦ rw e
    | inr e ↦ rw e (text_end (name_len - 1) (λ k. tsd (4 + k)) (ground (arith, name_fits)))
  ]

  entry_char : (i : ℕ) → i < length (name_of tsd) → entry_name tsd i ≡ chars (name_of tsd) i
  entry_char i h =
      let e : (63 == 4 + i) ≡ false = ground (arith, name_fits) in
      rw e (sym (chars-text (name_len - 1) (λ k. tsd (4 + k)) i h))

  entry_chars : (i : ℕ) → i ≤ length (name_of tsd) → entry_name tsd i ≡ chars (name_of tsd) i
  entry_chars i h = elim (Bool-cases (i == length (name_of tsd))) [
    | inl e ↦
        let at : i ≡ length (name_of tsd) = ground arith in
        rw at (entry_end ∙ sym (get_or_past (name_of tsd) (length (name_of tsd)) 0 (omega arith)))
    | inr e ↦ entry_char i (ground arith)
  ]

  entry-IsLength : IsLength (entry_name tsd) (length (name_of tsd))
  entry-IsLength = record {
    before = λ i h z.
        chars_ne_zero (name_of tsd) (text-IsText (name_len - 1) (λ k. tsd (4 + k))) i h
          (sym (entry_char i h) ∙ z);
    stop = entry_end;
  }

  -- The comparison finds whether the names are the same.
  pub strcmp_name :
      (name : List ℕ)
      → IsText name
      → (c : Sign) × (strcmp name_len (entry_name tsd) (chars name) ≡ ok c)
        × ((is_zero c ≡ true) → name_of tsd ≡ name)
        × (name_of tsd ≡ name → is_zero c ≡ true)
  strcmp_name name t =
      let (i, e, p) =
        strcmp_lem (entry_name tsd) (chars name) (length (name_of tsd)) entry-IsLength name_len
          (omega (arith, name_fits)) in
      (
        sign (entry_name tsd i) (chars name i),
        e,
        λ z.
            let here : entry_name tsd i ≡ chars name i = ground arith in
            let at : i ≡ length (name_of tsd) = p.differ here in
            let agree = and_below (λ j. entry_name tsd j ≡ chars name j) i here p.agree in
            texts_same (name_of tsd) name (text-IsText (name_len - 1) (λ k. tsd (4 + k))) t
              (λ j h. sym (entry_chars j h) ∙ agree j (omega arith)),
        λ z.
            let here : entry_name tsd i ≡ chars name i =
              entry_chars i p.inside ∙ ap (λ l. chars l i) z in
            ground arith,
      )
