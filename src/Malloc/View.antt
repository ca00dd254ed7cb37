-- ===== src/Malloc/View.antt =====
-- The heap of malloc.c as a sequence of blocks, and the pieces of memory that are in use.
use project_os.Prelude.{
  ℕ, ◌+◌, ◌-◌, ◌*◌, ◌%◌, ◌≤◌, ◌<◌, ◌≡◌, ◌≢◌, refl, ◌∙◌, ap, arith, Bool, true, false, List, [], ◌∷◌,
  ◌++◌,
}
use project_os.Malloc.{Header}

-- A block: its length with the header, counted in blocks of 8 bytes, and whether it is in use.
pub record Block : Type 0 where
  pub len : ℕ
  pub used : Bool

abbrev pub header : ℕ → Block → Header
header prev b = record {
  prevblock = prev;
  pad = 0;
  magic1 = 2;
  nextblock = b.len;
  inuse = b.used;
  magic2 = 2;
}

-- From `i` to `top` the memory holds the headers of the blocks, each with the length of the one
-- before it.
abbrev pub Chain : (ℕ → Header) → (i prev : ℕ) → List Block → (top : ℕ) → Type 0
Chain m i prev [] top = i ≡ top
Chain m i prev (b ∷ bs) top =
    (m i ≡ header prev b) × (1 ≤ b.len) × Chain m (i + 8 * b.len) b.len bs top

-- The length of the last block.
abbrev pub last_len : ℕ → List Block → ℕ
last_len prev [] = prev
last_len prev (b ∷ bs) = last_len b.len bs

-- The end of the blocks that begin at `i`.
abbrev pub end_of : ℕ → List Block → ℕ
end_of i [] = i
end_of i (b ∷ bs) = end_of (i + 8 * b.len) bs

-- The address and the size of the data of each block that is in use.
abbrev pub cons_if : Bool → (ℕ × ℕ) → List (ℕ × ℕ) → List (ℕ × ℕ)
cons_if true r rs = r ∷ rs
cons_if false r rs = rs

abbrev pub pieces : ℕ → List Block → List (ℕ × ℕ)
pieces i [] = []
pieces i (b ∷ bs) = cons_if b.used (i + 8, 8 * b.len - 8) (pieces (i + 8 * b.len) bs)

-- The pieces lie one behind the other between `lo` and `top`, at multiples of 8, with room for a
-- header before each.
abbrev pub Apart : ℕ → List (ℕ × ℕ) → ℕ → Type 0
Apart lo [] top = lo ≤ top
Apart lo ((p, n) ∷ rs) top = (lo + 8 ≤ p) × (p % 8 ≡ 0) × Apart (p + n) rs top

-- The contents of the pieces are the same in both memories.
abbrev pub Kept : (m m' : ℕ → Header) → List (ℕ × ℕ) → Type 0
Kept m m' [] = Unit {0}
Kept m m' ((p, n) ∷ rs) = ((a : ℕ) → p ≤ a → a < p + n → m' a ≡ m a) × Kept m m' rs

pub Chain-end :
    (m : ℕ → Header) (i prev : ℕ) (bs : List Block) (top : ℕ)
    → Chain m i prev bs top
    → end_of i bs ≡ top
Chain-end m i prev [] top c = c
Chain-end m i prev (b ∷ bs) top (h, l, c) = Chain-end m (i + 8 * b.len) b.len bs top c

pub end_of-ge : (i : ℕ) (bs : List Block) → i ≤ end_of i bs
end_of-ge i [] = omega arith
end_of-ge i (b ∷ bs) = omega (arith, end_of-ge (i + 8 * b.len) bs)

pub Chain-le :
    (m : ℕ → Header) (i prev : ℕ) (bs : List Block) (top : ℕ) → Chain m i prev bs top → i ≤ top
Chain-le m i prev bs top c = omega (arith, Chain-end m i prev bs top c, end_of-ge i bs)

-- The memory may change outside of the chain.
pub Chain-frame :
    (m m' : ℕ → Header) (i prev : ℕ) (bs : List Block) (top : ℕ)
    → Chain m i prev bs top
    → ((a : ℕ) → i ≤ a → a < top → m' a ≡ m a)
    → Chain m' i prev bs top
Chain-frame m m' i prev [] top c same = c
Chain-frame m m' i prev (b ∷ bs) top (h, l, c) same =
    let le = Chain-le m _ _ bs top c in
    (
      same i (omega arith) (omega arith) ∙ h,
      l,
      Chain-frame m m' (i + 8 * b.len) b.len bs top c (λ a p q. same a (omega arith) q),
    )

-- The first header may learn another length of the block before it.
pub Chain-relink :
    (m m' : ℕ → Header) (i prev prev' : ℕ) (bs : List Block) (top : ℕ)
    → Chain m i prev bs top
    → (i ≢ top → m' i ≡ record (m i) { prevblock = prev' })
    → ((a : ℕ) → i < a → a < top → m' a ≡ m a)
    → Chain m' i prev' bs top
Chain-relink m m' i prev prev' [] top c first same = c
Chain-relink m m' i prev prev' (b ∷ bs) top (h, l, c) first same =
    let le = Chain-le m _ _ bs top c in
    (
      first (omega arith) ∙ ap (λ (x : Header). record x { prevblock = prev' }) h,
      l,
      Chain-frame m m' _ _ bs top c (λ a p q. same a (omega arith) q),
    )

pub Chain-append :
    (m : ℕ → Header) (i prev : ℕ) (xs ys : List Block) (mid top : ℕ)
    → Chain m i prev xs mid
    → Chain m mid (last_len prev xs) ys top
    → Chain m i prev (xs ++ ys) top
Chain-append m i prev [] ys mid top c d = rw c d
Chain-append m i prev (b ∷ xs) ys mid top (h, l, c) d =
    (h, l, Chain-append m (i + 8 * b.len) b.len xs ys mid top c d)

pub Chain-parts :
    (m : ℕ → Header) (i prev : ℕ) (xs ys : List Block) (top : ℕ)
    → Chain m i prev (xs ++ ys) top
    → Chain m i prev xs (end_of i xs) × Chain m (end_of i xs) (last_len prev xs) ys top
Chain-parts m i prev [] ys top c = (refl, c)
Chain-parts m i prev (b ∷ xs) ys top (h, l, c) =
    let (d, e) = Chain-parts m (i + 8 * b.len) b.len xs ys top c in ((h, l, d), e)

cons_if-append :
    (u : Bool) (r : ℕ × ℕ) (rs qs : List (ℕ × ℕ)) → cons_if u r (rs ++ qs) ≡ cons_if u r rs ++ qs
cons_if-append true r rs qs = refl
cons_if-append false r rs qs = refl

pub pieces-append :
    (i : ℕ) (xs ys : List Block) → pieces i (xs ++ ys) ≡ pieces i xs ++ pieces (end_of i xs) ys
pieces-append i [] ys = refl
pieces-append i (b ∷ xs) ys =
    ap (cons_if b.used (i + 8, 8 * b.len - 8)) (pieces-append (i + 8 * b.len) xs ys)
    ∙ cons_if-append b.used (i + 8, 8 * b.len - 8) _ _

pub last_len-append :
    (prev : ℕ) (xs : List Block) (b : Block) → last_len prev (xs ++ b ∷ []) ≡ b.len
last_len-append prev [] b = refl
last_len-append prev (x ∷ xs) b = last_len-append x.len xs b

Apart-cons :
    (lo : ℕ) (u : Bool) (n : ℕ) (rs : List (ℕ × ℕ)) (top : ℕ)
    → lo % 8 ≡ 0
    → 1 ≤ n
    → Apart (lo + 8 * n) rs top
    → Apart lo (cons_if u (lo + 8, 8 * n - 8) rs) top
Apart-cons lo true n rs top al le p =
    (omega arith, omega arith, let e : lo + 8 + (8 * n - 8) ≡ lo + 8 * n = omega arith in rw e p)
Apart-cons lo false n [] top al le p = omega arith
Apart-cons lo false n (r ∷ rs) top al le p = (omega (arith, p.0), p.1, p.2)

-- The pieces in use of a chain lie apart.
pub Chain-Apart :
    (m : ℕ → Header) (i prev : ℕ) (bs : List Block) (top : ℕ)
    → i % 8 ≡ 0
    → Chain m i prev bs top
    → Apart i (pieces i bs) top
Chain-Apart m i prev [] top al c = omega (arith, c)
Chain-Apart m i prev (b ∷ bs) top al (h, l, c) =
    Apart-cons i b.used b.len _ top al l
      (Chain-Apart m (i + 8 * b.len) b.len bs top (omega (arith, al)) c)

Kept-cons :
    (m m' : ℕ → Header) (u : Bool) (p n : ℕ) (rs : List (ℕ × ℕ))
    → (u ≡ true → (a : ℕ) → p ≤ a → a < p + n → m' a ≡ m a)
    → Kept m m' rs
    → Kept m m' (cons_if u (p, n) rs)
Kept-cons m m' true p n rs same k = (same refl, k)
Kept-cons m m' false p n rs same k = k

-- The first header of a chain may change, all other cells of it stay.
pub Chain-Kept :
    (m m' : ℕ → Header) (i prev : ℕ) (bs : List Block) (top : ℕ)
    → Chain m i prev bs top
    → ((a : ℕ) → i < a → a < top → m' a ≡ m a)
    → Kept m m' (pieces i bs)
Chain-Kept m m' i prev [] top c same = tt
Chain-Kept m m' i prev (b ∷ bs) top (h, l, c) same =
    let le = Chain-le m _ _ bs top c in
    Kept-cons m m' b.used (i + 8) (8 * b.len - 8) _ (λ _ a p q. same a (omega arith) (omega arith))
      (Chain-Kept m m' (i + 8 * b.len) b.len bs top c (λ a p q. same a (omega arith) q))

pub Kept-append :
    (m m' : ℕ → Header) (rs qs : List (ℕ × ℕ)) → Kept m m' rs → Kept m m' qs → Kept m m' (rs ++ qs)
Kept-append m m' [] qs k l = l
Kept-append m m' (r ∷ rs) qs k l = (k.0, Kept-append m m' rs qs k.1 l)
