-- ===== src/Outcome/Exec.antt =====
-- Functions that change a state and may fail. The state comes back beside every outcome, since
-- the code keeps what it wrote before it returned an error.
use project_os.Prelude.{◌≡◌, refl, Bool, true, false, arith}
use project_os.Outcome.{Errno, Outcome, ok, err, panic}

abbrev pub Exec : Type 0 → Type 0 → Type 0
Exec S A = S → Outcome A × S

module _ {S A : Type 0} where
  abbrev pub pure : A → Exec S A
  pure a s = (ok a, s)

  abbrev pub fail : Errno → Exec S A
  fail e s = (err e, s)

  abbrev pub panics : Exec S A
  panics s = (panic, s)

  -- A call of a function that has no part in the state.
  abbrev pub lift : Outcome A → Exec S A
  lift r s = (r, s)

module _ {S A B : Type 0} where
  abbrev pub continue : Outcome A → (A → Exec S B) → Exec S B
  continue (ok a) f s = f a s
  continue (err e) f s = (err e, s)
  continue panic f s = (panic, s)

  infixl 5 ◌>>=◌ ◌>>◌
  abbrev pub ◌>>=◌ : Exec S A → (A → Exec S B) → Exec S B
  ◌>>=◌ m f s = continue (m s).0 f (m s).1

  abbrev pub ◌>>◌ : Exec S A → Exec S B → Exec S B
  m >> n = m >>= λ _. n

module _ {S : Type 0} where
  abbrev pub kassert : Bool → Exec S (Unit {0})
  kassert true s = (ok tt, s)
  kassert false s = (panic, s)

  abbrev pub modify : (S → S) → Exec S (Unit {0})
  modify f s = (ok tt, f s)

-- An assertion that holds is passed over.
pub kassert_pass :
    {S B : Type 0} (b : Bool) (m : Exec S B) (s : S) → b ≡ true → (kassert b >> m) s ≡ m s
kassert_pass true m s h = refl
kassert_pass false m s h = absurd (ground arith)
