-- ===== src/ThreadList/Walk.antt =====
-- The loop THREADLIST_FORALL of kern/include/threadlist.h, and the empty list.
use project_os.Prelude.{
  ℕ, zero, suc, ◌+◌, ◌-◌, ◌<◌, ◌≡◌, refl, ◌∙◌, arith, none, some, ap, List, [], ◌∷◌,
}
use project_os.Outcome.{ok}
use project_os.ThreadList.{
  Nodes, tl_head, tl_tail, threadlist_remhead, threadlist_remtail, forall_from,
}
use project_os.ThreadList.Chain.{IsChain}
use project_os.ThreadList.Ends.{IsList}

-- The threads at `n` positions from `i` on.
unfoldable pub members : (ℕ → ℕ) → ℕ → ℕ → List ℕ
members c i zero = []
members c i (suc n) = (c i - 2) ∷ members c (i + 1) n

module _ (s : Nodes) (c : ℕ → ℕ) (n : ℕ) (ch : IsChain s c n) where
  forall_members :
      (m i : ℕ) → 0 < i → i + m ≡ n + 1 → forall_from (suc m) s (some (c i)) ≡ some (members c i m)
  unfolding forall_from members
  forall_members zero i p e =
      let end_ : c i ≡ tl_tail = ap c (omega (arith, e)) ∙ ch.last in rw (end_, ch.bookends.1)
  forall_members (suc m) i p e =
      rw
        (
          ch.selfs i p (omega arith),
          ch.nexts i (omega arith),
          forall_members m (i + 1) (omega arith) (omega arith),
        )
        refl

  -- The loop THREADLIST_FORALL ends, after as many rounds as there are threads and one, and has
  -- visited the threads of the list in their order.
  pub forall_lem : forall_from (suc n) s (s.next tl_head) ≡ some (members c 1 n)
  forall_lem =
      rw (rw ch.first at (ch.nexts 0 (omega arith)))
        (forall_members n 1 (omega arith) (omega arith))

-- On an empty list threadlist_remhead and threadlist_remtail return NULL and change nothing.
pub rem_empty :
    (s : Nodes) (c : ℕ → ℕ)
    → IsList s c 0
    → (threadlist_remhead s ≡ (ok none, s)) × (threadlist_remtail s ≡ (ok none, s))
unfolding threadlist_remhead threadlist_remtail
rem_empty s c l =
    let next_ : s.next tl_head ≡ some tl_tail =
      rw (l.chain.first, l.chain.last) at (l.chain.nexts 0 (omega arith)) in
    let prev_ : s.prev tl_tail ≡ some tl_head =
      rw (l.chain.first, l.chain.last) at (l.chain.prevs 0 (omega arith)) in
    (rw (next_, l.chain.right), rw (prev_, l.chain.left))
