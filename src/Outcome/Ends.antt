-- ===== src/Outcome/Ends.antt =====
-- How a run of an `Exec` function ends, with a condition for a return of 0 and one for a return of
-- an error number. A run that panics does not end.
use project_os.Outcome.{Errno, Outcome, ok, err}
use project_os.Outcome.Exec.{Exec, continue}

pub data Ends {S A : Type 0} (P : A → S → Type 0) (E : Errno → S → Type 0)
    : Outcome A × S → Type 0 where
  returns : {a : A} {s : S} → P a s → Ends P E (ok a, s)
  fails : {e : Errno} {s : S} → E e s → Ends P E (err e, s)

module _ {S A : Type 0} {P : A → S → Type 0} {E : Errno → S → Type 0} where
  pub bind :
      {B : Type 0} {Q : B → S → Type 0} {F : Errno → S → Type 0} {r : Outcome A × S}
      {f : A → Exec S B}
      → Ends P E r
      → ((a : A) (s : S) → P a s → Ends Q F (f a s))
      → ((e : Errno) (s : S) → E e s → F e s)
      → Ends Q F (continue r.0 f r.1)
  bind (returns p) next stop = next _ _ p
  bind (fails e) next stop = fails (stop _ _ e)

  pub mono :
      {Q : A → S → Type 0} {F : Errno → S → Type 0} {r : Outcome A × S}
      → Ends P E r
      → ((a : A) (s : S) → P a s → Q a s)
      → ((e : Errno) (s : S) → E e s → F e s)
      → Ends Q F r
  mono (returns p) up down = returns (up _ _ p)
  mono (fails e) up down = fails (down _ _ e)
