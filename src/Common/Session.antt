-- ===== src/Common/Session.antt =====
-- Calls that can fail: results as values, the domain errors of pkg/errorspkg that the modelled
-- features return, and a database session whose statements may be refused.
pub mod Ends
use mathlib.Core.Path.{◌≡◌, refl}
use mathlib.Core.Logic.{◌⊎◌, inl, inr}
use mathlib.Core.Bool.{Bool, true, false}
use mathlib.Core.List.{List, [], ◌∷◌}
use forecast_e_zoo.Common.Tests.{if◌then◌else◌}

-- The sentinels by their Go names. `database` stands for every error of the driver, wrapped or not;
-- `internal` for the errors that a feature makes by `errors.New` and `fmt.Errorf`.
pub data Error : Type 0 where
  database no_rows internal : Error
  bad_request : Error
  purchase_order_not_found po_not_cancellable po_already_sent po_not_ready_to_send : Error
  invalid_po_status invalid_channel_type invalid_auth_mode channel_not_configured : Error
  order_builder_unavailable channel_routing_unavailable send_attempt_not_found : Error
  plan_not_found plan_not_draft invalid_kpi_name quality_threshold_exceeded : Error
  forecast_run_not_found forecast_scheduler_unavailable invalid_horizon : Error
  invalid_plan_status etl_run_already_running etl_run_not_found cannot_retry_etl : Error

pub data Result (A : Type 0) : Type 0 where
  ok : A → Result A
  err : Error → Result A

-- The tables, and for each statement to come whether the server refuses it. After the end of the
-- list every statement is served.
pub record Session (S : Type 0) : Type 0 where
  pub tables : S
  pub faults : List Bool

abbrev pub Action : Type 0 → Type 0 → Type 0
Action S A = Session S → Result A × Session S

infixl 5 ◌>>=◌ ◌>>◌
abbrev pub ◌>>=◌ : {S A B : Type 0} → Action S A → (A → Action S B) → Action S B
◌>>=◌ m k s = let (r, s') = m s in elim r [ ok a ↦ k a s' | err e ↦ (err e, s') ]

abbrev pub ◌>>◌ : {S A B : Type 0} → Action S A → Action S B → Action S B
m >> k = m >>= λ _. k

abbrev pub pure : {S A : Type 0} → A → Action S A
pure a s = (ok a, s)

abbrev pub raise : {S A : Type 0} → Error → Action S A
raise e s = (err e, s)

-- One statement: refused with the tables unchanged, or carried out.
unfoldable pub statement : {S A : Type 0} → (S → Result A × S) → Action S A
statement q s = elim s.faults [
  | [] ↦ let (r, t) = q s.tables in (r, record s { tables = t })
  | refused ∷ rest ↦
      let (r, t) = q s.tables in
      if refused
      then (err database, record s { faults = rest })
      else (r, record { tables = t; faults = rest })
]

-- The outcome of a call is an error exactly where its value is `err`.
abbrev pub failed : {A : Type 0} → Result A → Bool
failed (ok _) = false
failed (err _) = true

pub Result-cases :
    {A : Type 0} (r : Result A) → ((a : A) × (r ≡ ok a)) ⊎ ((e : Error) × (r ≡ err e))
Result-cases (ok a) = inl (a, refl)
Result-cases (err e) = inr (e, refl)

-- A property of the tables that both parts of a chain keep.
pub bind-keeps :
    {S A B : Type 0} (P : S → Type 0) (m : Action S A) (k : A → Action S B) (s : Session S)
    → P (m s).1.tables
    → ((a : A) → P (k a (m s).1).1.tables)
    → P ((m >>= k) s).1.tables
bind-keeps {S} {A} {B} P m k s h t = go (m s).0
  where
    go :
        (r : Result A)
        → let out : Result B × Session S = elim r [
          | ok a ↦ k a (m s).1
          | err e ↦ (err e, (m s).1)
        ] in
          P out.1.tables
    go (ok a) = t a
    go (err e) = h

-- What holds of every failure and of every end of the second part holds of the end of a chain.
pub bind-ends :
    {S A B : Type 0} (Q : Result B × Session S → Type 0) (m : Action S A) (k : A → Action S B)
    (s : Session S)
    → ((e : Error) (s' : Session S) → Q (err e, s'))
    → ((a : A) → Q (k a (m s).1))
    → Q ((m >>= k) s)
bind-ends {S} {A} {B} Q m k s h t = go (m s).0
  where
    go :
        (r : Result A)
        → let out : Result B × Session S = elim r [
          | ok a ↦ k a (m s).1
          | err e ↦ (err e, (m s).1)
        ] in
          Q out
    go (ok a) = t a
    go (err e) = h e (m s).1
