-- ===== src/Common/Session/Ends.antt =====
-- What holds of the tables when a call on a session ends: one rule for each way of making a call.
use mathlib.Core.Bool.{Bool, true, false}
use mathlib.Core.List.{List, [], ◌∷◌}
use forecast_e_zoo.Common.Session.{
  Error, database, Result, ok, err, Session, Action, ◌>>=◌, statement,
}

-- `P` of the value and the tables if the call succeeds, `Q` of the error and the tables otherwise.
abbrev pub Ends :
    {S A : Type 0} → (A → S → Type 0) → (Error → S → Type 0) → Result A × Session S → Type 0
Ends P Q (ok a, s) = P a s.tables
Ends P Q (err e, s) = Q e s.tables

module _ {S A : Type 0} (P : A → S → Type 0) (Q : Error → S → Type 0) where
  -- A statement that succeeds where it is served.
  pub statement-Ends :
      (value : S → A) (after : S → S) (s : Session S)
      → P (value s.tables) (after s.tables)
      → Q database s.tables
      → Ends P Q (statement (λ t. (ok (value t), after t)) s)
  unfolding statement
  statement-Ends value after s h k = go s.faults
    where
      go :
          (fs : List Bool)
          → Ends P Q (statement (λ t. (ok (value t), after t)) (record s { faults = fs }))
      go [] = h
      go (true ∷ fs) = k
      go (false ∷ fs) = h

  -- A statement that may also refuse on its own account.
  pub statement-Ends_any :
      (q : S → Result A × S) (s : Session S)
      → ((fs : List Bool)
          → Ends P Q ((q s.tables).0, record { tables = (q s.tables).1; faults = fs }))
      → Q database s.tables
      → Ends P Q (statement q s)
  unfolding statement
  statement-Ends_any q s h k = go s.faults
    where
      go : (fs : List Bool) → Ends P Q (statement q (record s { faults = fs }))
      go [] = h []
      go (true ∷ fs) = k
      go (false ∷ fs) = h fs

-- A chain: what the first part ends with is where the second begins.
pub bind-Ends :
    {S A B : Type 0} (P : B → S → Type 0) (Q : Error → S → Type 0) (m : Action S A)
    (k : A → Action S B) (s : Session S)
    → Ends (λ a t. (fs : List Bool) → Ends P Q (k a (record { tables = t; faults = fs }))) Q (m s)
    → Ends P Q ((m >>= k) s)
bind-Ends {S} {A} {B} P Q m k s = go (m s).0
  where
    go :
        (r : Result A)
        → Ends
            (λ a t. (fs : List Bool) → Ends P Q (k a (record { tables = t; faults = fs })))
            Q
            (r, (m s).1)
        → let out : Result B × Session S = elim r [
          | ok a ↦ k a (m s).1
          | err e ↦ (err e, (m s).1)
        ] in
          Ends P Q out
    go (ok a) h = h (m s).1.faults
    go (err e) h = h

-- A statement that succeeds where it is served, and what follows it.
pub statement_then-Ends :
    {S A B : Type 0} (P : B → S → Type 0) (Q : Error → S → Type 0) (value : S → A) (after : S → S)
    (k : A → Action S B) (s : Session S)
    → ((fs : List Bool)
        → Ends P Q (k (value s.tables) (record { tables = after s.tables; faults = fs })))
    → Q database s.tables
    → Ends P Q ((statement (λ t. (ok (value t), after t)) >>= k) s)
statement_then-Ends P Q value after k s h j =
    bind-Ends P Q (statement (λ t. (ok (value t), after t))) k s (
      statement-Ends (λ a t. (fs : List Bool) → Ends P Q (k a (record { tables = t; faults = fs })))
        Q value after s h j)

-- Weaker conditions.
pub Ends-weaken :
    {S A : Type 0} {P P' : A → S → Type 0} {Q Q' : Error → S → Type 0} (r : Result A × Session S)
    → ((a : A) (t : S) → P a t → P' a t)
    → ((e : Error) (t : S) → Q e t → Q' e t)
    → Ends P Q r
    → Ends P' Q' r
Ends-weaken (ok a, s) f g h = f a s.tables h
Ends-weaken (err e, s) f g h = g e s.tables h
