-- ===== src/ThreadList/Ends.antt =====
-- The theorems on insertion and removal of kern/thread/threadlist.c.
use project_os.Prelude.{
  ℕ, ◌+◌, ◌-◌, ◌%◌, ◌^◌, ◌≤◌, ◌<◌, ◌≡◌, ◌≢◌, refl, arith, Option, none, some, subst,
}
use project_os.Outcome.{ok}
use project_os.Outcome.Exec.{◌>>◌}
use project_os.ThreadList.{
  Nodes, tl_head, tl_tail, listnode, threadlist_init, threadlist_addhead, threadlist_addtail,
  threadlist_insertafter, threadlist_insertbefore, threadlist_remove, threadlist_remhead,
  threadlist_remtail, take_node, threadlist_insertafternode, threadlist_insertbeforenode,
  threadlist_removenode, count_down,
}
use project_os.ThreadList.Chain.{
  IsChain, inserted, removed, linked, linked-IsChain, insertafter_eq, insertbefore_eq, unlinked,
  unlinked-IsChain, remove_eq,
}

-- The nodes form a list, and tl_count counts its threads.
pub record IsList (s : Nodes) (c : ℕ → ℕ) (n : ℕ) : Type 0 where
  pub chain : IsChain s c n
  pub counted : s.count ≡ n
  pub small : n < 2 ^ 32

abbrev pub counting : Nodes → ℕ → Nodes
counting s n = record s { count = n }

recount :
    (s : Nodes) (c : ℕ → ℕ) (n m : ℕ)
    → IsChain s c n
    → m ≡ n
    → n < 2 ^ 32
    → IsList (counting s m) c n
recount s c n m ch e small = record {
  chain = record {
    first = ch.first;
    last = ch.last;
    nexts = ch.nexts;
    prevs = ch.prevs;
    left = ch.left;
    right = ch.right;
    distinct = ch.distinct;
    selfs = ch.selfs;
    bookends = ch.bookends;
  };
  counted = e;
  small = small;
}

-- threadlist_init makes an empty list, whatever the nodes were before.
pub threadlist_init_lem :
    (s : Nodes) → (s' : Nodes) × (threadlist_init s ≡ (ok tt, s')) × IsList s' (λ i. i) 0
unfolding threadlist_init
threadlist_init_lem s = (
  _,
  refl,
  record {
    chain = record {
      first = refl;
      last = refl;
      nexts = λ i h. let e : i ≡ 0 = omega arith in rw e;
      prevs = λ i h. let e : i ≡ 0 = omega arith in rw e;
      left = refl;
      right = refl;
      distinct = λ i j hi hj e. e;
      selfs = λ i p q. absurd (omega arith);
      bookends = (refl, refl);
    };
    counted = refl;
    small = omega arith;
  },
)

module _ (s : Nodes) (c : ℕ → ℕ) (n : ℕ) (l : IsList s c n) where
  -- A thread that is on no list, whose node was initialised.
  pub record IsNew (t : ℕ) : Type 0 where
    pub fresh : (i : ℕ) → i ≤ n + 1 → c i ≢ listnode t
    pub own : s.self (listnode t) ≡ some t
    pub room : n + 1 < 2 ^ 32

  count_up_eq : n + 1 < 2 ^ 32 → (s.count + 1) % 2 ^ 32 ≡ n + 1
  count_up_eq h = omega (arith, l.counted)

  module _ (t : ℕ) (new : IsNew t) where
    grown :
        (k : ℕ) (low : k ≤ n)
        → IsList
            (counting (linked s c n l.chain k low t new.fresh new.own) ((s.count + 1) % 2 ^ 32))
            (inserted k (listnode t) c)
            (n + 1)
    grown k low =
        recount (linked s c n l.chain k low t new.fresh new.own) (inserted k (listnode t) c) (n + 1)
          ((s.count + 1) % 2 ^ 32) (linked-IsChain s c n l.chain k low t new.fresh new.own)
          (count_up_eq new.room) new.room

    after_eq :
        (k : ℕ) (low : k ≤ n) (node : ℕ)
        → c k ≡ node
        → threadlist_insertafternode node t s
          ≡ (ok tt, linked s c n l.chain k low t new.fresh new.own)
    after_eq k low node e =
        subst
          (λ a.
            threadlist_insertafternode a t s
            ≡ (ok tt, linked s c n l.chain k low t new.fresh new.own))
          e (insertafter_eq s c n l.chain k low t new.fresh new.own)

    before_eq :
        (k : ℕ) (low : k ≤ n) (node : ℕ)
        → c (k + 1) ≡ node
        → threadlist_insertbeforenode t node s
          ≡ (ok tt, linked s c n l.chain k low t new.fresh new.own)
    before_eq k low node e =
        subst
          (λ a.
            threadlist_insertbeforenode t a s
            ≡ (ok tt, linked s c n l.chain k low t new.fresh new.own))
          e (insertbefore_eq s c n l.chain k low t new.fresh new.own)

    -- On a list, threadlist_addhead makes a new thread the first one; the others keep their order
    -- and the count is right.
    pub threadlist_addhead_lem :
        (s' : Nodes) × (threadlist_addhead t s ≡ (ok tt, s'))
        × IsList s' (inserted 0 (listnode t) c) (n + 1)
    unfolding threadlist_addhead
    threadlist_addhead_lem =
        (_, rw (after_eq 0 (omega arith) tl_head l.chain.first), grown 0 (omega arith))

    -- On a list, threadlist_addtail makes a new thread the last one; the others keep their order
    -- and the count is right.
    pub threadlist_addtail_lem :
        (s' : Nodes) × (threadlist_addtail t s ≡ (ok tt, s'))
        × IsList s' (inserted n (listnode t) c) (n + 1)
    unfolding threadlist_addtail
    threadlist_addtail_lem =
        (_, rw (before_eq n (omega arith) tl_tail l.chain.last), grown n (omega arith))

    -- On a list, threadlist_insertafter puts a new thread behind the thread at position `k`; the
    -- others keep their order and the count is right.
    pub threadlist_insertafter_lem :
        (k onlist : ℕ)
        → k ≤ n
        → c k ≡ listnode onlist
        → (s' : Nodes) × (threadlist_insertafter onlist t s ≡ (ok tt, s'))
          × IsList s' (inserted k (listnode t) c) (n + 1)
    unfolding threadlist_insertafter
    threadlist_insertafter_lem k onlist low e =
        (_, rw (after_eq k low (listnode onlist) e), grown k low)

    -- On a list, threadlist_insertbefore puts a new thread in front of the thread at position
    -- `k + 1`; the others keep their order and the count is right.
    pub threadlist_insertbefore_lem :
        (k onlist : ℕ)
        → k ≤ n
        → c (k + 1) ≡ listnode onlist
        → (s' : Nodes) × (threadlist_insertbefore t onlist s ≡ (ok tt, s'))
          × IsList s' (inserted k (listnode t) c) (n + 1)
    unfolding threadlist_insertbefore
    threadlist_insertbefore_lem k onlist low e =
        (_, rw (before_eq k low (listnode onlist) e), grown k low)

-- The list without the thread at position `k + 1`, whose node can be used again.
pub record IsRemoved (c : ℕ → ℕ) (m k : ℕ) (s' : Nodes) : Type 0 where
  pub list : IsList s' (removed (k + 1) c) m
  pub free : (s'.next (c (k + 1)) ≡ none) × (s'.prev (c (k + 1)) ≡ none)

module _ (s : Nodes) (c : ℕ → ℕ) (m : ℕ) (l : IsList s c (m + 1)) where
  module _ (k : ℕ) (low : k < m + 1) where
    abbrev pub shrunk : Nodes
    shrunk = counting (unlinked s c (m + 1) l.chain k low) ((s.count + (2 ^ 32 - 1)) % 2 ^ 32)

    shrunk-IsRemoved : IsRemoved c m k shrunk
    shrunk-IsRemoved = record {
      list =
          recount (unlinked s c (m + 1) l.chain k low) (removed (k + 1) c) m
            ((s.count + (2 ^ 32 - 1)) % 2 ^ 32) (unlinked-IsChain s c (m + 1) l.chain k low m refl)
            (omega (arith, l.counted, l.small)) (omega (arith, l.small));
      free = (ground arith, ground arith);
    }

    take_eq :
        (end_ : Option ℕ) (b : ℕ)
        → end_ ≡ some b
        → take_node (c (k + 1)) end_ s ≡ (ok (some (c (k + 1) - 2)), shrunk)
    take_eq end_ b e =
        rw (
          e,
          remove_eq s c (m + 1) l.chain k low,
          l.chain.selfs (k + 1) (omega arith) (omega arith),
        )

  -- threadlist_remove takes a thread out of its list; the others keep their order, the count is
  -- right, and the node of the thread has null pointers.
  pub threadlist_remove_lem :
      (k t : ℕ) (low : k < m + 1)
      → c (k + 1) ≡ listnode t
      → (s' : Nodes) × (threadlist_remove t s ≡ (ok tt, s')) × IsRemoved c m k s'
  unfolding threadlist_remove
  threadlist_remove_lem k t low e = (
    _,
    subst (λ a. (threadlist_removenode a >> count_down) s ≡ (ok tt, shrunk k low)) e
        (rw (remove_eq s c (m + 1) l.chain k low)),
    shrunk-IsRemoved k low,
  )

  first_next : s.next tl_head ≡ some (c 1)
  first_next = rw l.chain.first at (l.chain.nexts 0 (omega arith))

  last_prev : s.prev tl_tail ≡ some (c (m + 1))
  last_prev = rw l.chain.last at (l.chain.prevs (m + 1) (omega arith))

  -- On a list with threads threadlist_remhead returns the first one and takes it out; the others
  -- keep their order, the count is right, and the node of the thread has null pointers.
  pub threadlist_remhead_lem :
      (s' : Nodes) × (threadlist_remhead s ≡ (ok (some (c 1 - 2)), s')) × IsRemoved c m 0 s'
  unfolding threadlist_remhead
  threadlist_remhead_lem = (
    _,
    rw (first_next)
        (take_eq 0 (omega arith) (s.next (c 1)) (c 2) (ground (arith, l.chain.nexts 1))),
    shrunk-IsRemoved 0 (omega arith),
  )

  -- On a list with threads threadlist_remtail returns the last one and takes it out; the others
  -- keep their order, the count is right, and the node of the thread has null pointers.
  pub threadlist_remtail_lem :
      (s' : Nodes) × (threadlist_remtail s ≡ (ok (some (c (m + 1) - 2)), s')) × IsRemoved c m m s'
  unfolding threadlist_remtail
  threadlist_remtail_lem = (
    _,
    rw (last_prev)
        (take_eq m (omega arith) (s.prev (c (m + 1))) (c m) (ground (arith, l.chain.prevs m))),
    shrunk-IsRemoved m (omega arith),
  )
