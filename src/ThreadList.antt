-- ===== src/ThreadList.antt =====
-- The doubly linked lists of threads, kern/thread/threadlist.c, as one list among the nodes of all
-- threads. A node is a number: the two bookends of the list, and the t_listnode of each thread.
-- A null pointer is `none`; to go through it is a panic. DEBUGASSERT is compiled out.
pub mod Chain
pub mod Ends
pub mod Walk
pub mod Tests
use project_os.Prelude.{
  ℕ, zero, suc, ◌+◌, ◌-◌, ◌%◌, ◌^◌, Bool, true, false, Option, none, some, List, [], ◌∷◌, ◌==◌,
  if◌then◌else◌,
}
use project_os.Outcome.{Outcome, ok, err, panic}
use project_os.Outcome.Exec.{Exec, pure, panics, kassert, modify, ◌>>=◌, ◌>>◌}

-- &tl->tl_head, &tl->tl_tail and &t->t_listnode
abbrev pub tl_head : ℕ
tl_head = 0

abbrev pub tl_tail : ℕ
tl_tail = 1

abbrev pub listnode : ℕ → ℕ
listnode t = t + 2

-- The fields of every struct threadlistnode, and tl_count.
pub record Nodes : Type 0 where
  pub next : ℕ → Option ℕ
  pub prev : ℕ → Option ℕ
  pub self : ℕ → Option ℕ
  pub count : ℕ

abbrev pub put : (ℕ → Option ℕ) → ℕ → Option ℕ → ℕ → Option ℕ
put f a p k = if a == k then p else f k

abbrev pub set_next : ℕ → Option ℕ → Exec Nodes (Unit {0})
set_next a p = modify (λ s. record s { next = put s.next a p })

abbrev pub set_prev : ℕ → Option ℕ → Exec Nodes (Unit {0})
set_prev a p = modify (λ s. record s { prev = put s.prev a p })

abbrev pub set_self : ℕ → Option ℕ → Exec Nodes (Unit {0})
set_self a p = modify (λ s. record s { self = put s.self a p })

abbrev pub set_count : (ℕ → ℕ) → Exec Nodes (Unit {0})
set_count f = modify (λ s. record s { count = f s.count })

-- The node behind a pointer.
abbrev pub deref : Option ℕ → Exec Nodes ℕ
deref none s = (panic, s)
deref (some a) s = (ok a, s)

abbrev pub next_of : ℕ → Exec Nodes ℕ
next_of a s = deref (s.next a) s

abbrev pub prev_of : ℕ → Exec Nodes ℕ
prev_of a s = deref (s.prev a) s

abbrev pub is_null : Option ℕ → Bool
is_null none = true
is_null (some a) = false

unfoldable pub threadlistnode_init : ℕ → ℕ → Exec Nodes (Unit {0})
threadlistnode_init tln t = do set_next tln none; set_prev tln none; set_self tln (some t)

unfoldable pub threadlistnode_cleanup : ℕ → Exec Nodes (Unit {0})
threadlistnode_cleanup tln s =
    (kassert (is_null (s.next tln))
        >> kassert (is_null (s.prev tln))
        >> kassert (if is_null (s.self tln) then false else true))
      s

unfoldable pub threadlist_init : Exec Nodes (Unit {0})
threadlist_init = do
  set_next tl_head (some tl_tail)
  set_prev tl_head none
  set_next tl_tail none
  set_prev tl_tail (some tl_head)
  set_self tl_head none
  set_self tl_tail none
  set_count (λ n. 0)

abbrev pub threadlist_isempty : Nodes → Bool
threadlist_isempty s = s.count == 0

unfoldable pub threadlist_cleanup : Exec Nodes (Unit {0})
threadlist_cleanup s = (kassert (threadlist_isempty s) >> kassert (s.count == 0)) s

unfoldable pub threadlist_insertafternode : (onlist t : ℕ) → Exec Nodes (Unit {0})
threadlist_insertafternode onlist t = do
  let addee = listnode t
  set_prev addee (some onlist)
  λ s. set_next addee (s.next onlist) s
  before ← prev_of addee
  set_next before (some addee)
  after ← next_of addee
  set_prev after (some addee)

unfoldable pub threadlist_insertbeforenode : (t onlist : ℕ) → Exec Nodes (Unit {0})
threadlist_insertbeforenode t onlist = do
  let addee = listnode t
  λ s. set_prev addee (s.prev onlist) s
  set_next addee (some onlist)
  before ← prev_of addee
  set_next before (some addee)
  after ← next_of addee
  set_prev after (some addee)

unfoldable pub threadlist_removenode : ℕ → Exec Nodes (Unit {0})
threadlist_removenode tln = do
  before ← prev_of tln
  λ s. set_next before (s.next tln) s
  after ← next_of tln
  λ s. set_prev after (s.prev tln) s
  set_prev tln none
  set_next tln none

-- tl->tl_count++ and tl->tl_count--, on an unsigned
abbrev pub count_up : Exec Nodes (Unit {0})
count_up = set_count (λ n. (n + 1) % 2 ^ 32)

abbrev pub count_down : Exec Nodes (Unit {0})
count_down = set_count (λ n. (n + (2 ^ 32 - 1)) % 2 ^ 32)

unfoldable pub threadlist_addhead : ℕ → Exec Nodes (Unit {0})
threadlist_addhead t = threadlist_insertafternode tl_head t >> count_up

unfoldable pub threadlist_addtail : ℕ → Exec Nodes (Unit {0})
threadlist_addtail t = threadlist_insertbeforenode t tl_tail >> count_up

-- Behind the choice of the node, by the pointer of it that is null on a bookend.
abbrev pub take_node : ℕ → Option ℕ → Exec Nodes (Option ℕ)
take_node tln none = pure none
take_node tln (some _) = threadlist_removenode tln >> count_down >> λ s. (ok (s.self tln), s)

unfoldable pub threadlist_remhead : Exec Nodes (Option ℕ)
threadlist_remhead = next_of tl_head >>= λ tln. λ s. take_node tln (s.next tln) s

unfoldable pub threadlist_remtail : Exec Nodes (Option ℕ)
threadlist_remtail = prev_of tl_tail >>= λ tln. λ s. take_node tln (s.prev tln) s

unfoldable pub threadlist_insertafter : (onlist addee : ℕ) → Exec Nodes (Unit {0})
threadlist_insertafter onlist addee = threadlist_insertafternode (listnode onlist) addee >> count_up

unfoldable pub threadlist_insertbefore : (addee onlist : ℕ) → Exec Nodes (Unit {0})
threadlist_insertbefore addee onlist =
    threadlist_insertbeforenode addee (listnode onlist) >> count_up

unfoldable pub threadlist_remove : ℕ → Exec Nodes (Unit {0})
threadlist_remove t = threadlist_removenode (listnode t) >> count_down

-- THREADLIST_FORALL from a node on: the threads that the loop has visited when it ends, with a bound
-- on the rounds; `none` if it has not ended by then, or meets a null pointer where a node should be.
abbrev pub visit : Option ℕ → Option (List ℕ) → Option (List ℕ)
visit none rest = some []
visit (some t) none = none
visit (some t) (some ts) = some (t ∷ ts)

unfoldable pub forall_from : ℕ → Nodes → Option ℕ → Option (List ℕ)
forall_from zero s start = none
forall_from (suc n) s none = none
forall_from (suc n) s (some a) = visit (s.self a) (forall_from n s (s.next a))
