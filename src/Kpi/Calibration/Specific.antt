-- ===== src/Kpi/Calibration/Specific.antt =====
-- The resolver against a scan of the list of calibrations.
use mathlib.Core.Path.{◌≡◌, refl, sym, ◌∙◌}
use forecast_e_zoo.Common.{
  Bool, Option, none, some, List, [], ◌∷◌, inl, inr, arith, if◌then◌else◌, ◌&&◌, Option-cases,
}
use forecast_e_zoo.Common.Text.{Text, text_eq, text_eq_iff}
use forecast_e_zoo.Common.Dict.{Dict, lookup, insert, lookup-insert}
use forecast_e_zoo.Kpi.Calibration.{
  KpiCalibration, ScopeKeys, Resolver, or_empty, key_of, index_one, index_all, new_resolver,
  empty_calibration, at_scope, try_scope, resolve, scope_global, scope_category, scope_supplier,
  scope_location, scope_product_location,
}

-- The calibration is for this indicator, scope and key.
abbrev pub is_for : Text → Text → Text → KpiCalibration → Bool
is_for kpi scope key c =
    text_eq c.kpi_name kpi && (text_eq c.scope_type scope && text_eq (key_of c) key)

-- The last calibration of the list for this indicator, scope and key.
pub latest : Text → Text → Text → List KpiCalibration → Option KpiCalibration
latest kpi scope key [] = none
latest kpi scope key (c ∷ cs) = elim (latest kpi scope key cs) [
  | some d ↦ some d
  | none ↦ if is_for kpi scope key c then some c else none
]

-- The first of the given (scope, key) pairs for which the list has a calibration.
pub first_match : Text → List (Text × Option Text) → List KpiCalibration → Option KpiCalibration
first_match kpi [] cs = none
first_match kpi ((scope, none) ∷ rest) cs = first_match kpi rest cs
first_match kpi ((scope, some key) ∷ rest) cs = elim (latest kpi scope key cs) [
  | some c ↦ some c
  | none ↦ first_match kpi rest cs
]

-- From the most specific scope to the global one.
abbrev pub hierarchy : ScopeKeys → List (Text × Option Text)
hierarchy keys =
    (scope_product_location, keys.product_location)
    ∷ (scope_location, keys.location_id)
    ∷ (scope_supplier, keys.supplier_id)
    ∷ (scope_category, keys.category_id)
    ∷ (scope_global, some [])
    ∷ []

cell : Resolver → Text → Text → Text → Option KpiCalibration
cell idx kpi scope key = at_scope (or_empty (lookup kpi idx)) scope key

or_else : {A : Type 0} → Option A → Option A → Option A
or_else (some a) o = some a
or_else none o = o

lookup-empty : {V : Type 0} (k : Text) → lookup {V = V} k [] ≡ none
unfolding lookup
lookup-empty k = refl

cell-index_one :
    (idx : Resolver) (c : KpiCalibration) (kpi scope key : Text)
    → cell (index_one idx c) kpi scope key
      ≡ (if is_for kpi scope key c then some c else cell idx kpi scope key)
unfolding cell at_scope index_one
cell-index_one idx c kpi scope key = ground (
  arith,
  lookup-insert c.kpi_name kpi
      (insert c.scope_type
        (insert (key_of c) c (or_empty (lookup c.scope_type (or_empty (lookup c.kpi_name idx)))))
        (or_empty (lookup c.kpi_name idx)))
      idx,
  lookup-insert c.scope_type scope
      (insert (key_of c) c (or_empty (lookup c.scope_type (or_empty (lookup c.kpi_name idx)))))
      (or_empty (lookup c.kpi_name idx)),
  lookup-insert (key_of c) key c
      (or_empty (lookup c.scope_type (or_empty (lookup c.kpi_name idx)))),
  text_eq_iff c.kpi_name kpi,
  text_eq_iff c.scope_type scope,
)

cell-index_all :
    (cs : List KpiCalibration) (idx : Resolver) (kpi scope key : Text)
    → cell (index_all idx cs) kpi scope key
      ≡ or_else (latest kpi scope key cs) (cell idx kpi scope key)
unfolding index_all latest or_else
cell-index_all [] idx kpi scope key = refl
cell-index_all (c ∷ cs) idx kpi scope key =
    ground
      (arith, cell-index_all cs (index_one idx c) kpi scope key, cell-index_one idx c kpi scope key)

cell-new_resolver :
    (all : List KpiCalibration) (kpi scope key : Text)
    → cell (new_resolver all) kpi scope key ≡ latest kpi scope key all
unfolding new_resolver
cell-new_resolver all kpi scope key = cell-index_all all [] kpi scope key ∙ no_cell
  where
    no_cell : or_else (latest kpi scope key all) (cell [] kpi scope key) ≡ latest kpi scope key all
    no_cell = unfold or_else cell at_scope lookup in ground arith

-- The nested lookups of `resolve`, as a recursion on the hierarchy.
abbrev try_all :
    Dict (Dict KpiCalibration) → List (Text × Option Text) → KpiCalibration → KpiCalibration
try_all scopes [] d = d
try_all scopes ((scope, key) ∷ rest) d = try_scope scopes scope key (try_all scopes rest d)

try_all-first_match :
    (kpi : Text) (scopes : Dict (Dict KpiCalibration)) (cs : List KpiCalibration)
    → ((scope key : Text) → at_scope scopes scope key ≡ latest kpi scope key cs)
    → (l : List (Text × Option Text)) (d : KpiCalibration)
    → try_all scopes l d ≡ (elim (first_match kpi l cs) [ some c ↦ c | none ↦ d ])
unfolding first_match
try_all-first_match kpi scopes cs h [] d = refl
try_all-first_match kpi scopes cs h ((scope, none) ∷ rest) d =
    try_all-first_match kpi scopes cs h rest d
try_all-first_match kpi scopes cs h ((scope, some key) ∷ rest) d =
    ground (arith, h scope key, try_all-first_match kpi scopes cs h rest d)

try_all-empty : (l : List (Text × Option Text)) (d : KpiCalibration) → try_all [] l d ≡ d
unfolding at_scope lookup
try_all-empty [] d = refl
try_all-empty ((scope, none) ∷ rest) d = try_all-empty rest d
try_all-empty ((scope, some key) ∷ rest) d = try_all-empty rest d

resolve-try_all :
    (r : Resolver) (kpi : Text) (keys : ScopeKeys)
    → resolve r kpi keys
      ≡ try_all (or_empty (lookup kpi r)) (hierarchy keys) (empty_calibration kpi)
unfolding resolve
resolve-try_all r kpi keys = elim (Option-cases (lookup kpi r)) [
  | inl e ↦ rw (e, resolve) (sym (try_all-empty (hierarchy keys) (empty_calibration kpi)))
  | inr (scopes, e) ↦ rw (e, resolve) refl
]

-- Resolving finds the calibration of the most specific scope that the list has one for, the last
-- listed one where several fit, and the empty global calibration where none does.
pub resolve-most_specific :
    (all : List KpiCalibration) (kpi : Text) (keys : ScopeKeys)
    → resolve (new_resolver all) kpi keys
      ≡ (elim (first_match kpi (hierarchy keys) all) [ some c ↦ c | none ↦ empty_calibration kpi ])
unfolding cell
resolve-most_specific all kpi keys =
    resolve-try_all (new_resolver all) kpi keys
    ∙ try_all-first_match kpi (or_empty (lookup kpi (new_resolver all))) all
        (cell-new_resolver all kpi) (hierarchy keys) (empty_calibration kpi)
