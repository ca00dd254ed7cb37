-- ===== src/Malloc/Free.antt =====
-- free of malloc.c, in terms of the pieces in use; and free of what malloc has returned.
use project_os.Prelude.{
  ℕ, ◌+◌, ◌-◌, ◌*◌, ◌^◌, ◌≤◌, ◌<◌, ◌≡◌, refl, sym, ◌∙◌, ap, subst, arith, Bool, true, false, Option,
  none, some, List, [], ◌∷◌, ◌++◌,
}
use project_os.Outcome.Ends
use project_os.Outcome.Ends.{Ends, returns}
use project_os.Outcome.Exec.{Exec, ◌>>=◌}
use project_os.Malloc.{Header, Heap, Sbrk, free}
use project_os.Malloc.Allocate.{malloc}
use project_os.Malloc.View.{Block, end_of, pieces, cons_if, Kept}
use project_os.Malloc.Merge.{Kept-refl, Kept-trans}
use project_os.Malloc.Grant.{IsHeap}
use project_os.Malloc.Correct.{Malloced, malloc-Ends}
use project_os.Malloc.Release.{Preserved, free_block-Ends}

-- The block in use whose data are the piece (p, n).
record Located (i : ℕ) (bs : List Block) (lo : List (ℕ × ℕ)) (p n : ℕ) (up : List (ℕ × ℕ))
    : Type 0 where
  xs : List Block
  b : Block
  ys : List Block
  all : xs ++ b ∷ ys ≡ bs
  used : b.used ≡ true
  place : end_of i xs + 8 ≡ p
  bytes : 8 * b.len - 8 ≡ n
  lower : pieces i xs ≡ lo
  upper : pieces (end_of i xs + 8 * b.len) ys ≡ up

-- Where the block is not the first one.
further :
    (i : ℕ) (u : Bool) (k : ℕ) (bs : List Block) (lo up : List (ℕ × ℕ)) (p n : ℕ)
    → Located (i + 8 * k) bs lo p n up
    → Located i (record { len = k; used = u } ∷ bs) (cons_if u (i + 8, 8 * k - 8) lo) p n up
further i u k bs lo up p n l = record {
  xs = record { len = k; used = u } ∷ l.xs;
  b = l.b;
  ys = l.ys;
  all = ap (λ zs. record { len = k; used = u } ∷ zs) l.all;
  used = l.used;
  place = l.place;
  bytes = l.bytes;
  lower = ap (cons_if u (i + 8, 8 * k - 8)) l.lower;
  upper = l.upper;
}

tail : List (ℕ × ℕ) → List (ℕ × ℕ)
tail [] = []
tail (r ∷ rs) = rs

abbrev head_or : (ℕ × ℕ) → List (ℕ × ℕ) → ℕ × ℕ
head_or d [] = d
head_or d (r ∷ rs) = r

locate_cons :
    (i : ℕ) (u : Bool) (k : ℕ) (bs : List Block) (lo up : List (ℕ × ℕ)) (p n : ℕ)
    → ((lo' : List (ℕ × ℕ))
        → pieces (i + 8 * k) bs ≡ lo' ++ (p, n) ∷ up
        → Located (i + 8 * k) bs lo' p n up)
    → cons_if u (i + 8, 8 * k - 8) (pieces (i + 8 * k) bs) ≡ lo ++ (p, n) ∷ up
    → Located i (record { len = k; used = u } ∷ bs) lo p n up
unfolding tail
locate_cons i true k bs [] up p n rest e = record {
  xs = [];
  b = record { len = k; used = true };
  ys = bs;
  all = refl;
  used = refl;
  place = ap (λ l. (head_or (0, 0) l).0) e;
  bytes = ap (λ l. (head_or (0, 0) l).1) e;
  lower = refl;
  upper = ap tail e;
}
locate_cons i true k bs (r ∷ lo) up p n rest e =
    subst (λ q. Located i (record { len = k; used = true } ∷ bs) (q ∷ lo) p n up)
      (ap (head_or (0, 0)) e) (further i true k bs lo up p n (rest lo (ap tail e)))
locate_cons i false k bs lo up p n rest e = further i false k bs lo up p n (rest lo e)

locate :
    (i : ℕ) (bs : List Block) (lo : List (ℕ × ℕ)) (p n : ℕ) (up : List (ℕ × ℕ))
    → pieces i bs ≡ lo ++ (p, n) ∷ up
    → Located i bs lo p n up
locate i [] [] p n up e = absurd (cc)
locate i [] (r ∷ lo) p n up e = absurd (cc)
locate i (b ∷ bs) lo p n up e =
    locate_cons i b.used b.len bs lo up p n (λ lo' q. locate (i + 8 * b.len) bs lo' p n up q) e

module _ (wiped : Header) where
  -- On a heap that is a sequence of blocks, free of a piece in use that has a byte at least does
  -- not fail a check. Behind it the heap is a sequence of blocks, and the pieces in use are the
  -- others, with their contents.
  pub free-Ends :
      (s : Heap) (bs : List Block) (lo : List (ℕ × ℕ)) (p n : ℕ) (up : List (ℕ × ℕ))
      → IsHeap s bs
      → pieces s.heapbase bs ≡ lo ++ (p, n) ∷ up
      → 0 < n
      → Ends (λ _ s'. Preserved s (lo ++ up) s') (λ _ _. ⊥) (free wiped p s)
  free-Ends s bs lo p n up heap e some_ =
      let l = locate s.heapbase bs lo p n up e in
      let filled : 2 ≤ l.b.len = omega (arith, l.bytes) in
      let same : pieces s.heapbase l.xs ++ pieces (end_of s.heapbase l.xs + 8 * l.b.len) l.ys
          ≡ lo ++ up =
        rw (l.lower, l.upper) in
      subst (λ q. Ends (λ _ s'. Preserved s (lo ++ up) s') (λ _ _. ⊥) (free wiped q s)) l.place
        (subst
          (λ rs.
            Ends (λ _ s'. Preserved s rs s') (λ _ _. ⊥) (free wiped (end_of s.heapbase l.xs + 8) s))
          same
          (free_block-Ends wiped s l.xs l.b l.ys (subst (IsHeap s) (sym l.all) heap) l.used filled))

  -- What a program does that gives back at once what it got.
  abbrev pub free_result : Option ℕ → Exec Heap (Unit {0})
  free_result none = free wiped 0
  free_result (some p) = free wiped p

  given_back :
      (s : Heap) (bs : List Block) (size : ℕ) (r : Option ℕ) (s' : Heap)
      → IsHeap s bs
      → 0 < size
      → Malloced s bs size r s'
      → Ends (λ _ s''. Preserved s (pieces s.heapbase bs) s'') (λ _ _. ⊥) (free_result r s')
  unfolding free
  given_back s bs size none s' heap pos e = rw e (
      returns (record {
        blocks = bs;
        heap = heap;
        base_same = refl;
        pieces_lem = refl;
        kept = Kept-refl s.mem _;
      }))
  given_back s bs size (some p) s' heap pos (g, _) =
      Ends.mono
        (free-Ends s' g.blocks g.lower p g.bytes g.upper g.heap g.after (omega (arith, g.room)))
        (λ _ s'' d. record {
          blocks = d.blocks;
          heap = d.heap;
          base_same = d.base_same ∙ g.base_same;
          pieces_lem =
              subst (λ h. pieces h d.blocks ≡ g.lower ++ g.upper) g.base_same d.pieces_lem
              ∙ sym g.before;
          kept =
              Kept-trans s.mem s'.mem s''.mem (pieces s.heapbase bs) g.kept
                (subst (Kept s'.mem s''.mem) (sym g.before) d.kept);
        })
        (λ e s'' f. f)

  -- malloc of a byte or more, and free of what it returns: the pieces in use are those from before,
  -- with their contents, and no check fails.
  pub free-malloc-Ends :
      (os : Sbrk) (s : Heap) (bs : List Block) (size : ℕ)
      → 0 < size
      → size + 2 ^ 14 ≤ 2 ^ 31
      → IsHeap s bs
      → Ends
          (λ _ s'. Preserved s (pieces s.heapbase bs) s')
          (λ _ _. ⊥)
          ((malloc os size >>= free_result) s)
  free-malloc-Ends os s bs size pos limit heap =
      Ends.bind (malloc-Ends os s bs size limit heap)
        (λ r s' m. given_back s bs size r s' heap pos m) (λ e s' f. f)
