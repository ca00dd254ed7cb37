-- ===== src/ThreadList/Tests.antt =====
-- The theorems on kern/thread/threadlist.c at a list of the threads 5 and 7, with a thread 9 that
-- is on no list.
use project_os.Prelude.{ℕ, ◌-◌, ◌≡◌, refl, arith, none, some, ◌==◌, if◌then◌else◌}
use project_os.Outcome.{ok}
use project_os.ThreadList.{Nodes, threadlist_remove, forall_from}
use project_os.ThreadList.Ends.{IsList, IsNew, IsRemoved, threadlist_remove_lem}
use project_os.ThreadList.Walk.{members, forall_lem}

-- The nodes 7 and 9 of the two threads.
abbrev pair : ℕ → ℕ
pair i = if i == 0 then 0 else if i == 1 then 7 else if i == 2 then 9 else 1

abbrev two_threads : Nodes
two_threads = record {
  next = λ a. if a == 0 then some 7 else if a == 7 then some 9 else if a == 9 then some 1 else none;
  prev = λ a. if a == 1 then some 9 else if a == 9 then some 7 else if a == 7 then some 0 else none;
  self = λ a. if a == 0 then none else if a == 1 then none else some (a - 2);
  count = 2;
}

two_threads-IsList : IsList two_threads pair 2
two_threads-IsList = record {
  chain = record {
    first = refl;
    last = refl;
    nexts = λ i h. ground arith;
    prevs = λ i h. ground arith;
    left = refl;
    right = refl;
    distinct = λ i j hi hj e. ground arith;
    selfs = λ i p q. ground arith;
    bookends = (refl, refl);
  };
  counted = refl;
  small = omega arith;
}

nine-IsNew : IsNew two_threads pair 2 two_threads-IsList 9
nine-IsNew = record { fresh = λ i h e. ground arith; own = refl; room = omega arith }

threadlist_remove_lem_example :
    (s' : Nodes) × (threadlist_remove 7 two_threads ≡ (ok tt, s')) × IsRemoved pair 1 1 s'
threadlist_remove_lem_example =
    threadlist_remove_lem two_threads pair 1 two_threads-IsList 1 7 (omega arith) refl

forall_lem_example : forall_from 3 two_threads (some 7) ≡ some (members pair 1 2)
forall_lem_example = forall_lem two_threads pair 2 two_threads-IsList.chain

abbrev no_threads : Nodes
no_threads = record {
  next = λ a. if a == 0 then some 1 else none;
  prev = λ a. if a == 1 then some 0 else none;
  self = λ a. none;
  count = 0;
}

no_threads-IsList : IsList no_threads (λ i. i) 0
no_threads-IsList = record {
  chain = record {
    first = refl;
    last = refl;
    nexts = λ i h. ground arith;
    prevs = λ i h. ground arith;
    left = refl;
    right = refl;
    distinct = λ i j hi hj e. e;
    selfs = λ i p q. absurd (omega arith);
    bookends = (refl, refl);
  };
  counted = refl;
  small = omega arith;
}
