-- ===== src/Hangman/Walk.antt =====
-- The walks in the graph of kern/thread/hangman.c, from an actor to the holder of what it waits
-- for, and what the search of hangman_check says of them.
use project_os.Prelude.{
  ℕ, zero, suc, ◌≤◌, ◌≡◌, ◌≢◌, ◌⊎◌, inl, inr, refl, sym, ◌∙◌, ap, subst, arith, true, false, ◌==◌,
  Bool-cases, Option, none, some,
}
use project_os.Hangman.{Graph, cycle, clear, endless, check_loop}

-- The walk from an actor, by the lockable that it waits for, to the holder of that, and on, ends.
pub data Halts (g : Graph) : Option ℕ → Type 0 where
  free : Halts g none
  idle : {a : ℕ} → g.waiting a ≡ none → Halts g (some a)
  goes :
      {a : ℕ} (l : ℕ) (n : Option ℕ)
      → g.waiting a ≡ some l
      → g.holding l ≡ n
      → Halts g n
      → Halts g (some a)

-- The walk meets the actor `t`.
pub data Meets (g : Graph) (t : ℕ) : Option ℕ → Type 0 where
  here : {a : ℕ} → a ≡ t → Meets g t (some a)
  later :
      {a : ℕ} (l : ℕ) (n : Option ℕ)
      → g.waiting a ≡ some l
      → g.holding l ≡ n
      → Meets g t n
      → Meets g t (some a)

-- No actor waits, through others, for itself.
abbrev pub NoCycle : Graph → Type 0
NoCycle g = (a : ℕ) → Halts g (some a)

module _ (g : Graph) (t : ℕ) where
  not_free : Meets g t none → ⊥
  not_free m = elim m [ ]

  not_idle : (a : ℕ) → a ≢ t → g.waiting a ≡ none → Meets g t (some a) → ⊥
  not_idle a ne w (here e) = ne e
  not_idle a ne w (later l n w' h m) = absurd (cc)

  not_later :
      (a l : ℕ) (n : Option ℕ)
      → a ≢ t
      → g.waiting a ≡ some l
      → g.holding l ≡ n
      → (Meets g t n → ⊥)
      → Meets g t (some a)
      → ⊥
  not_later a l n ne w h not_n (here e) = ne e
  not_later a l n ne w h not_n (later l' n' w' h' m) =
      let same : ◌≡◌ {A = Option ℕ} (some l') (some l) = sym w' ∙ w in
      let e : l' ≡ l = ground arith in not_n (subst (Meets g t) (sym h' ∙ ap g.holding e ∙ h) m)

  -- The search has found a cycle, and the walk meets the target, or neither.
  abbrev pub Decides : Option ℕ → ℕ → Type 0
  Decides cur fuel =
      ((check_loop fuel g t cur ≡ cycle) × Meets g t cur)
      ⊎ ((check_loop fuel g t cur ≡ clear) × (Meets g t cur → ⊥))

  loop_hit : (fuel a : ℕ) → (a == t) ≡ true → check_loop (suc fuel) g t (some a) ≡ cycle
  unfolding check_loop
  loop_hit fuel a e = rw e

  loop_idle :
      (fuel a : ℕ)
      → (a == t) ≡ false
      → g.waiting a ≡ none
      → check_loop (suc fuel) g t (some a) ≡ clear
  unfolding check_loop
  loop_idle fuel a e w = rw (e, w)

  loop_goes :
      (fuel a l : ℕ)
      → (a == t) ≡ false
      → g.waiting a ≡ some l
      → check_loop (suc fuel) g t (some a) ≡ check_loop fuel g t (g.holding l)
  unfolding check_loop
  loop_goes fuel a l e w = rw (e, w)

  free-Decides : (fuel : ℕ) → 1 ≤ fuel → Decides none fuel
  unfolding check_loop
  free-Decides zero h = absurd (omega arith)
  free-Decides (suc fuel) h = inr (refl, not_free)

  idle-Decides : (a : ℕ) → g.waiting a ≡ none → (fuel : ℕ) → 1 ≤ fuel → Decides (some a) fuel
  idle-Decides a w zero h = absurd (omega arith)
  idle-Decides a w (suc fuel) h = elim (Bool-cases (a == t)) [
    | inl e ↦ inl (loop_hit fuel a e, here (ground arith))
    | inr e ↦ inr (loop_idle fuel a e w, not_idle a (ground arith) w)
  ]

  goes-Decides :
      (a l k : ℕ) (n : Option ℕ)
      → g.waiting a ≡ some l
      → g.holding l ≡ n
      → ((fuel : ℕ) → k ≤ fuel → Decides n fuel)
      → (fuel : ℕ) → suc k ≤ fuel
      → Decides (some a) fuel
  goes-Decides a l k n w h next zero le = absurd (omega arith)
  goes-Decides a l k n w h next (suc fuel) le = elim (Bool-cases (a == t)) [
    | inl e ↦ inl (loop_hit fuel a e, here (ground arith))
    | inr e ↦
        let step = loop_goes fuel a l e w ∙ ap (check_loop fuel g t) h in
        elim (next fuel (omega arith)) [
          | inl (r, m) ↦ inl (step ∙ r, later l n w h m)
          | inr (r, m) ↦ inr (step ∙ r, not_later a l n (ground arith) w h m)
        ]
  ]

  -- With fuel enough for the walk, the loop says whether the walk meets the target.
  pub check_loop_lem :
      (cur : Option ℕ) → Halts g cur → (k : ℕ) × ((fuel : ℕ) → k ≤ fuel → Decides cur fuel)
  check_loop_lem none free = (1, free-Decides)
  check_loop_lem (some a) (idle w) = (1, idle-Decides a w)
  check_loop_lem (some a) (goes l n w h r) =
      let (k, next) = check_loop_lem n r in (suc k, goes-Decides a l k n w h next)

module _ (g : Graph) (t : ℕ) where
  loop_out : (cur : Option ℕ) → check_loop zero g t cur ≡ endless
  unfolding check_loop
  loop_out cur = refl

  -- A search that has come to an end without a cycle has not missed the target.
  pub clear_sound :
      (fuel : ℕ) (cur : Option ℕ) → check_loop fuel g t cur ≡ clear → Meets g t cur → ⊥
  clear_sound zero cur e m = let out = loop_out cur in absurd (cc)
  clear_sound (suc fuel) _ e (here {a = a} h) =
      let hit = loop_hit g t fuel a (ground arith) in absurd (cc)
  clear_sound (suc fuel) _ e (later {a = a} l n w h m) = elim (Bool-cases (a == t)) [
    | inl q ↦ let hit = loop_hit g t fuel a q in absurd (cc)
    | inr q ↦
        clear_sound fuel n (ap (check_loop fuel g t) (sym h) ∙ sym (loop_goes g t fuel a l q w) ∙ e)
          m
  ]
