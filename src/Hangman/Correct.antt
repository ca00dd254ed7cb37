-- ===== src/Hangman/Correct.antt =====
-- The theorems on the deadlock detector of kern/thread/hangman.c.
use project_os.Prelude.{
  ℕ, ◌≤◌, ◌≡◌, ◌≢◌, ◌⊎◌, inl, inr, refl, sym, ◌∙◌, ap, subst, arith, Bool, true, false, not, ◌||◌,
  ◌==◌, if◌then◌else◌, Bool-cases, Option, none, some,
}
use project_os.Hangman.{
  Graph, Search, cycle, clear, endless, done, deadlock, misuse, update, is_some, same_option,
  check_loop, hangman_check, after_check, hangman_wait, hangman_acquire, hangman_release, Reachable,
  starts, waits, acquires, releases,
}
use project_os.Hangman.Walk.{
  Halts, free, idle, goes, Meets, here, later, NoCycle, check_loop_lem, clear_sound,
}

-- A wait that closes no cycle.
abbrev pub waited : Graph → (a l : ℕ) → Graph
waited g a l = record g { waiting = update g.waiting a (some l) }

module _ (g : Graph) (a l : ℕ) (quiet : g.waiting a ≡ none)
    (clear_ : Meets g a (g.holding l) → ⊥) where
  same_wait : (b : ℕ) (v : Option ℕ) → b ≢ a → g.waiting b ≡ v → (waited g a l).waiting b ≡ v
  same_wait b v ne w = let e : (a == b) ≡ false = ground arith in rw (e, w)

  -- A walk that does not meet the actor is as before.
  away-Halts : (n : Option ℕ) → Halts g n → (Meets g a n → ⊥) → Halts (waited g a l) n
  away-Halts none free m = free
  away-Halts (some b) (idle w) m = idle (same_wait b none (λ e. m (here e)) w)
  away-Halts (some b) (goes k n w h r) m =
      goes k n (same_wait b (some k) (λ e. m (here e)) w) h
        (away-Halts n r (λ x. m (later k n w h x)))

  actor-Halts : Halts g (g.holding l) → Halts (waited g a l) (some a)
  actor-Halts r =
      let e : (a == a) ≡ true = ground arith in
      goes l (g.holding l) (rw e) refl (away-Halts (g.holding l) r clear_)

  waited-Halts : Halts g (g.holding l) → (n : Option ℕ) → Halts g n → Halts (waited g a l) n
  waited-Halts r none free = free
  waited-Halts r (some b) (idle w) = elim (Bool-cases (b == a)) [
    | inl e ↦
        let e' : a ≡ b = ground arith in
        subst (λ x. Halts (waited g a l) (some x)) e' (actor-Halts r)
    | inr e ↦ idle (same_wait b none (ground arith) w)
  ]
  waited-Halts r (some b) (goes k n w h q) = elim (Bool-cases (b == a)) [
    | inl e ↦
        let e' : a ≡ b = ground arith in
        let w' : g.waiting a ≡ some k = ap g.waiting e' ∙ w in absurd (cc)
    | inr e ↦ goes k n (same_wait b (some k) (ground arith) w) h (waited-Halts r n q)
  ]

module _ (g : Graph) (a l : ℕ) where
  abbrev acquired : Graph
  acquired = record { waiting = update g.waiting a none; holding = update g.holding l (some a) }

  holder-Halts : Halts acquired (some a)
  holder-Halts = let e : (a == a) ≡ true = ground arith in idle (rw e)

  acquired-Halts : (n : Option ℕ) → Halts g n → Halts acquired n
  acquired-Halts none free = free
  acquired-Halts (some b) (idle w) = idle (ground arith)
  acquired-Halts (some b) (goes k n w h q) = elim (Bool-cases (a == b)) [
    | inl e ↦ idle (rw e)
    | inr e ↦ elim (Bool-cases (l == k)) [
      | inl f ↦ goes k (some a) (rw (e, w)) (rw f) holder-Halts
      | inr f ↦ goes k n (rw (e, w)) (rw (f, h)) (acquired-Halts n q)
    ]
  ]

  abbrev given_up : Graph
  given_up = record g { holding = update g.holding l none }

  given_up-Halts : (n : Option ℕ) → Halts g n → Halts given_up n
  given_up-Halts none free = free
  given_up-Halts (some b) (idle w) = idle w
  given_up-Halts (some b) (goes k n w h q) = elim (Bool-cases (l == k)) [
    | inl f ↦ goes k none w (rw f) free
    | inr f ↦ goes k n w (rw (f, h)) (given_up-Halts n q)
  ]

-- The walk from the holder of a lockable.
holding-Halts : (g : Graph) → NoCycle g → (n : Option ℕ) → Halts g n
holding-Halts g acyclic none = free
holding-Halts g acyclic (some a) = acyclic a

-- The cases in which a function of the detector returns.
wait_cases :
    (b : Bool) (w : Option ℕ) (r : Search) (a l : ℕ) (g g' : Graph)
    → (if b then done g else if is_some w then misuse else after_check a l g r) ≡ done g'
    → (g' ≡ g)
      ⊎ ((w ≡ none) × (r ≡ clear) × (g' ≡ record g { waiting = update g.waiting a (some l) }))
wait_cases true w r a l g g' e = inl (cc)
wait_cases false (some k) r a l g g' e = absurd (cc)
wait_cases false none cycle a l g g' e = absurd (cc)
wait_cases false none clear a l g g' e =
    let same : record g { waiting = update g.waiting a (some l) } ≡ g' = cc in
    inr (refl, refl, sym same)
wait_cases false none endless a l g g' e = absurd (cc)

done_cases :
    (b c : Bool) (g x g' : Graph)
    → (if b then done g else if c then misuse else done x) ≡ done g'
    → (g' ≡ g) ⊎ (g' ≡ x)
done_cases true c g x g' e = inl (cc)
done_cases false true g x g' e = absurd (cc)
done_cases false false g x g' e = inr (cc)

module _ (own : ℕ) where
  wait-NoCycle :
      (fuel a l : ℕ) (g g' : Graph) → NoCycle g → hangman_wait own fuel a l g ≡ done g' → NoCycle g'
  unfolding hangman_wait hangman_check
  wait-NoCycle fuel a l g g' acyclic e =
      elim (wait_cases (l == own) (g.waiting a) (check_loop fuel g a (g.holding l)) a l g g' e) [
        | inl same ↦ rw same acyclic
        | inr (quiet, r, new) ↦ rw new (λ b.
            waited-Halts g a l quiet (clear_sound g a fuel (g.holding l) r)
              (holding-Halts g acyclic (g.holding l)) (some b) (acyclic b))
      ]

  acquire-NoCycle :
      (a l : ℕ) (g g' : Graph) → NoCycle g → hangman_acquire own a l g ≡ done g' → NoCycle g'
  unfolding hangman_acquire
  acquire-NoCycle a l g g' acyclic e =
      elim (done_cases (l == own) (not (same_option (g.waiting a) l) || is_some (g.holding l)) g
        (acquired g a l) g' e) [
          | inl same ↦ rw same acyclic
          | inr new ↦ rw new (λ b. acquired-Halts g a l (some b) (acyclic b))
        ]

  release-NoCycle :
      (a l : ℕ) (g g' : Graph) → NoCycle g → hangman_release own a l g ≡ done g' → NoCycle g'
  unfolding hangman_release
  release-NoCycle a l g g' acyclic e =
      elim (done_cases (l == own) (is_some (g.waiting a) || not (same_option (g.holding l) a)) g
        (given_up g a l) g' e) [
          | inl same ↦ rw same acyclic
          | inr new ↦ rw new (λ b. given_up-Halts g a l (some b) (acyclic b))
        ]

  -- As long as no call has panicked, no actor waits, through others, for itself.
  pub Reachable-NoCycle : (g : Graph) → Reachable own g → NoCycle g
  Reachable-NoCycle g starts = λ a. idle refl
  Reachable-NoCycle g (waits {g = h} fuel a l _ r e) =
      wait-NoCycle fuel a l h g (Reachable-NoCycle h r) e
  Reachable-NoCycle g (acquires {g = h} a l _ r e) =
      acquire-NoCycle a l h g (Reachable-NoCycle h r) e
  Reachable-NoCycle g (releases {g = h} a l _ r e) =
      release-NoCycle a l h g (Reachable-NoCycle h r) e

  -- In every graph that the calls make, for an actor that does not wait and a lockable other than
  -- the detector's own, the search of hangman_wait ends, and it panics with a deadlock exactly when
  -- the actor is met on the walk from the holder of the lockable, so that the wait would close a
  -- cycle; otherwise it records the wait, and the graph has no cycle.
  pub hangman_wait_lem :
      (g : Graph) (a l : ℕ)
      → Reachable own g
      → g.waiting a ≡ none
      → l ≢ own
      → (k : ℕ) × ((fuel : ℕ)
          → k ≤ fuel
          → ((hangman_wait own fuel a l g ≡ deadlock) × Meets g a (g.holding l))
            ⊎ ((hangman_wait own fuel a l g ≡ done (waited g a l))
                × (Meets g a (g.holding l) → ⊥)
                × NoCycle (waited g a l)))
  unfolding hangman_wait hangman_check
  hangman_wait_lem g a l r quiet other =
      let acyclic = Reachable-NoCycle g r in
      let h = holding-Halts g acyclic (g.holding l) in
      let (k, decides) = check_loop_lem g a (g.holding l) h in
      let o : (l == own) ≡ false = ground arith in
      (
        k,
        λ fuel le. elim (decides fuel le) [
          | inl (c, m) ↦ inl (rw (o, quiet, c), m)
          | inr (c, m) ↦
              inr (rw (o, quiet, c), m, λ b. waited-Halts g a l quiet m h (some b) (acyclic b))
        ],
      )
