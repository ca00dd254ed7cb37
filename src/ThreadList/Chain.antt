-- ===== src/ThreadList/Chain.antt =====
-- What it is for the nodes of kern/thread/threadlist.c to form a list, and how insertion and
-- removal of a node change the list.
use project_os.Prelude.{
  ℕ, ◌+◌, ◌-◌, ◌≤◌, ◌<◌, ◌≡◌, ◌≢◌, arith, true, false, ltb, leb, ◌==◌, if◌then◌else◌, none, some,
  ap,
}
use project_os.Outcome.{ok}
use project_os.ThreadList.{
  Nodes, put, tl_head, tl_tail, listnode, threadlist_insertafternode, threadlist_insertbeforenode,
  threadlist_removenode,
}

-- The list has the threads of the nodes `c 1` to `c n`, in this order, between its bookends.
pub record IsChain (s : Nodes) (c : ℕ → ℕ) (n : ℕ) : Type 0 where
  pub first : c 0 ≡ tl_head
  pub last : c (n + 1) ≡ tl_tail
  pub nexts : (i : ℕ) → i ≤ n → s.next (c i) ≡ some (c (i + 1))
  pub prevs : (i : ℕ) → i ≤ n → s.prev (c (i + 1)) ≡ some (c i)
  pub left : s.prev tl_head ≡ none
  pub right : s.next tl_tail ≡ none
  pub distinct : (i j : ℕ) → i ≤ n + 1 → j ≤ n + 1 → c i ≡ c j → i ≡ j
  pub selfs : (i : ℕ) → 0 < i → i ≤ n → s.self (c i) ≡ some (c i - 2)
  pub bookends : (s.self tl_head ≡ none) × (s.self tl_tail ≡ none)

-- The sequence with `a` between the positions `k` and `k + 1`, and without position `k`.
abbrev pub inserted : ℕ → ℕ → (ℕ → ℕ) → ℕ → ℕ
inserted k a c i = if leb i k then c i else if i == k + 1 then a else c (i - 1)

abbrev pub removed : ℕ → (ℕ → ℕ) → ℕ → ℕ
removed k c i = if ltb i k then c i else c (i + 1)

module _ (s : Nodes) (c : ℕ → ℕ) (n : ℕ) (ch : IsChain s c n) where
  module _ (k : ℕ) (low : k ≤ n) (t : ℕ) (fresh : (i : ℕ) → i ≤ n + 1 → c i ≢ listnode t)
      (own : s.self (listnode t) ≡ some t) where
    -- The nodes with the new one linked in.
    abbrev pub linked : Nodes
    linked = record s {
      next = put (put s.next (listnode t) (some (c (k + 1)))) (c k) (some (listnode t));
      prev = put (put s.prev (listnode t) (some (c k))) (c (k + 1)) (some (listnode t));
    }

    pub linked-IsChain : IsChain linked (inserted k (listnode t) c) (n + 1)
    linked-IsChain = record {
      first = ground (arith, ch.first);
      last = ground (arith, ch.last);
      nexts = λ i h. ground (
        arith,
        ch.nexts i,
        ch.nexts (i - 1),
        ch.distinct i k,
        ch.distinct (i - 1) k,
        fresh i,
        fresh (i - 1),
        fresh k,
      );
      prevs = λ i h. ground (
        arith,
        ch.prevs i,
        ch.prevs (i - 1),
        ch.distinct (i + 1) (k + 1),
        ch.distinct i (k + 1),
        fresh i,
        fresh (i + 1),
        fresh (k + 1),
      );
      left = ground (arith, ch.left, ch.first, ch.distinct (k + 1) 0);
      right = ground (arith, ch.right, ch.last, ch.distinct k (n + 1));
      distinct = λ i j hi hj e. ground (
        arith,
        ch.distinct i j,
        ch.distinct (i - 1) j,
        ch.distinct i (j - 1),
        ch.distinct (i - 1) (j - 1),
        fresh i,
        fresh j,
        fresh (i - 1),
        fresh (j - 1),
      );
      selfs = λ i p q. ground (arith, ch.selfs i, ch.selfs (i - 1), own);
      bookends = ch.bookends;
    }

    self_eq : (listnode t == listnode t) ≡ true
    self_eq = ground arith

    other_before : (c k == listnode t) ≡ false
    other_before = ground (arith, fresh k)

    pub insertafter_eq : threadlist_insertafternode (c k) t s ≡ (ok tt, linked)
    unfolding threadlist_insertafternode
    insertafter_eq = rw (ch.nexts k low, self_eq, other_before, self_eq)

    pub insertbefore_eq : threadlist_insertbeforenode t (c (k + 1)) s ≡ (ok tt, linked)
    unfolding threadlist_insertbeforenode
    insertbefore_eq = rw (ch.prevs k low, self_eq, other_before, self_eq)

  module _ (k : ℕ) (low : k < n) where
    -- The nodes without the one at position `k + 1`.
    abbrev pub unlinked : Nodes
    unlinked = record s {
      next = put (put s.next (c k) (some (c (k + 2)))) (c (k + 1)) none;
      prev = put (put s.prev (c (k + 2)) (some (c k))) (c (k + 1)) none;
    }

    pub unlinked-IsChain : (m : ℕ) → n ≡ m + 1 → IsChain unlinked (removed (k + 1) c) m
    unlinked-IsChain m e = record {
      first = ground (arith, ch.first);
      last = ground (arith, ch.last, ap c e);
      nexts = λ i h. ground (
        arith,
        ch.nexts i,
        ch.nexts (i + 1),
        ch.distinct i k,
        ch.distinct (i + 1) k,
        ch.distinct i (k + 1),
        ch.distinct (i + 1) (k + 1),
      );
      prevs = λ i h. ground (
        arith,
        ch.prevs i,
        ch.prevs (i + 1),
        ch.distinct (i + 1) (k + 2),
        ch.distinct (i + 2) (k + 2),
        ch.distinct (i + 1) (k + 1),
        ch.distinct (i + 2) (k + 1),
      );
      left = ground (arith, ch.left, ch.first, ch.distinct (k + 1) 0, ch.distinct (k + 2) 0);
      right = ground (arith, ch.right, ch.last, ch.distinct k (n + 1), ch.distinct (k + 1) (n + 1));
      distinct = λ i j hi hj f. ground (
        arith,
        ch.distinct i j,
        ch.distinct (i + 1) j,
        ch.distinct i (j + 1),
        ch.distinct (i + 1) (j + 1),
      );
      selfs = λ i p q. ground (arith, ch.selfs i, ch.selfs (i + 1));
      bookends = ch.bookends;
    }

    pub remove_eq : threadlist_removenode (c (k + 1)) s ≡ (ok tt, unlinked)
    unfolding threadlist_removenode
    remove_eq =
        let before : (c k == c (k + 1)) ≡ false = ground (arith, ch.distinct k (k + 1)) in
        let after_it : s.next (c (k + 1)) ≡ some (c (k + 2)) = ground (arith, ch.nexts (k + 1)) in
        rw (ch.prevs k (omega arith), before, after_it, ch.prevs k (omega arith))
