-- ===== src/Hangman.antt =====
-- The deadlock detector of kern/thread/hangman.c: which lockable an actor waits for, and which actor
-- holds a lockable. Each function runs under hangman_lock, whose own lockable, `own`, is left out of
-- the graph. What is printed about a cycle is left out.
pub mod Walk
pub mod Correct
pub mod Tests
use project_os.Prelude.{
  ℕ, zero, suc, ◌≡◌, Bool, true, false, not, ◌||◌, ◌==◌, if◌then◌else◌, Option, none, some,
}

-- a_waiting and l_holding
pub record Graph : Type 0 where
  pub waiting : ℕ → Option ℕ
  pub holding : ℕ → Option ℕ

-- What the search of hangman_check says; `endless` stands for a loop that does not end.
pub data Search : Type 0 where
  cycle clear endless : Search

-- How a function ends: with the graph, with the panic "Deadlock", with one of the panics that a
-- wrong call leads to, or not at all.
pub data Verdict : Type 0 where
  done : Graph → Verdict
  deadlock misuse hangs : Verdict

abbrev pub update : (ℕ → Option ℕ) → ℕ → Option ℕ → ℕ → Option ℕ
update f k v j = if k == j then v else f j

abbrev pub is_some : Option ℕ → Bool
is_some none = false
is_some (some l) = true

abbrev pub same_option : Option ℕ → ℕ → Bool
same_option none l = false
same_option (some k) l = k == l

-- The loop of hangman_check, with fuel, at `cur`; `through` is its step past a_waiting.
abbrev through : (Option ℕ → Search) → Graph → Option ℕ → Search
through loop g none = clear
through loop g (some l) = loop (g.holding l)

unfoldable pub check_loop : ℕ → Graph → (target : ℕ) → Option ℕ → Search
check_loop zero g target cur = endless
check_loop (suc fuel) g target none = clear
check_loop (suc fuel) g target (some cur) =
    let next = through (λ n. check_loop fuel g target n) g (g.waiting cur) in
    if cur == target then cycle else next

unfoldable pub hangman_check : ℕ → Graph → (start target : ℕ) → Search
hangman_check fuel g start target = check_loop fuel g target (g.holding start)

abbrev pub after_check : (a l : ℕ) → Graph → Search → Verdict
after_check a l g cycle = deadlock
after_check a l g clear = done (record g { waiting = update g.waiting a (some l) })
after_check a l g endless = hangs

module _ (own : ℕ) where
  unfoldable pub hangman_wait : ℕ → (a l : ℕ) → Graph → Verdict
  hangman_wait fuel a l g =
      if l == own
      then done g
      else if is_some (g.waiting a)
      then misuse
      else after_check a l g (hangman_check fuel g l a)

  unfoldable pub hangman_acquire : (a l : ℕ) → Graph → Verdict
  hangman_acquire a l g =
      if l == own
      then done g
      else if not (same_option (g.waiting a) l) || is_some (g.holding l)
      then misuse
      else done
          (record { waiting = update g.waiting a none; holding = update g.holding l (some a) })

  unfoldable pub hangman_release : (a l : ℕ) → Graph → Verdict
  hangman_release a l g =
      if l == own
      then done g
      else if is_some (g.waiting a) || not (same_option (g.holding l) a)
      then misuse
      else done (record g { holding = update g.holding l none })

  -- No actor waits, and none holds anything.
  abbrev pub empty : Graph
  empty = record { waiting = λ a. none; holding = λ l. none }

  -- What the calls that return make of the graph, in any order.
  pub data Reachable : Graph → Type 0 where
    starts : Reachable empty
    waits :
        {g : Graph} (fuel a l : ℕ) (g' : Graph)
        → Reachable g
        → hangman_wait fuel a l g ≡ done g'
        → Reachable g'
    acquires :
        {g : Graph} (a l : ℕ) (g' : Graph)
        → Reachable g
        → hangman_acquire a l g ≡ done g'
        → Reachable g'
    releases :
        {g : Graph} (a l : ℕ) (g' : Graph)
        → Reachable g
        → hangman_release a l g ≡ done g'
        → Reachable g'
