-- ===== src/Kpi/Calibration.antt =====
-- internal/features/kpi/calibration/resolver.go and models/calibration.go: the calibration that
-- applies to an indicator, looked up from the most specific scope to the global one.
pub mod Specific
use forecast_e_zoo.Common.{ℕ, Option, none, some, List, [], ◌∷◌}
use forecast_e_zoo.Common.Text.{Text, codes}
use forecast_e_zoo.Common.Dict.{Dict, lookup, insert}

abbrev pub scope_global : Text
scope_global = codes "global"

abbrev pub scope_category : Text
scope_category = codes "category"

abbrev pub scope_supplier : Text
scope_supplier = codes "supplier"

abbrev pub scope_location : Text
scope_location = codes "location"

abbrev pub scope_product_location : Text
scope_product_location = codes "product_location"

-- `id` 0 is uuid.Nil; `params` is the raw JSON.
pub record KpiCalibration : Type 0 where
  pub id : ℕ
  pub kpi_name : Text
  pub scope_type : Text
  pub scope_id : Option Text
  pub params : Text

pub record ScopeKeys : Type 0 where
  pub product_location : Option Text
  pub location_id : Option Text
  pub supplier_id : Option Text
  pub category_id : Option Text

-- byKpi[kpi_name][scope_type][scope_id]
abbrev pub Resolver : Type 0
Resolver = Dict (Dict (Dict KpiCalibration))

abbrev pub or_empty : {V : Type 0} → Option (Dict V) → Dict V
or_empty none = []
or_empty (some m) = m

abbrev pub key_of : KpiCalibration → Text
key_of c = elim c.scope_id [ none ↦ [] | some s ↦ s ]

-- One round of the loop of `NewResolver`, with the inner maps made where they are missing.
unfoldable pub index_one : Resolver → KpiCalibration → Resolver
index_one idx c =
    let by_scope = or_empty (lookup c.kpi_name idx) in
    let by_key = or_empty (lookup c.scope_type by_scope) in
    insert c.kpi_name (insert c.scope_type (insert (key_of c) c by_key) by_scope) idx

unfoldable pub index_all : Resolver → List KpiCalibration → Resolver
unfolding index_one
index_all idx [] = idx
index_all idx (c ∷ cs) = index_all (index_one idx c) cs

unfoldable pub new_resolver : List KpiCalibration → Resolver
unfolding index_all
new_resolver all = index_all [] all

unfoldable pub empty_calibration : Text → KpiCalibration
empty_calibration kpi = record {
  id = 0;
  kpi_name = kpi;
  scope_type = scope_global;
  scope_id = none;
  params = codes "{}";
}

-- `scopes[scope_type][key]`, where a missing inner map has no entries
unfoldable pub at_scope : Dict (Dict KpiCalibration) → Text → Text → Option KpiCalibration
at_scope scopes scope key = lookup key (or_empty (lookup scope scopes))

-- One `if keys.X != nil { if c, ok := …; ok { return c } }`, with the rest of the function.
abbrev pub try_scope :
    Dict (Dict KpiCalibration) → Text → Option Text → KpiCalibration → KpiCalibration
try_scope scopes scope none next = next
try_scope scopes scope (some key) next = elim (at_scope scopes scope key) [
  | none ↦ next
  | some c ↦ c
]

unfoldable pub resolve : Resolver → Text → ScopeKeys → KpiCalibration
unfolding at_scope empty_calibration
resolve r kpi keys = elim (lookup kpi r) [
  | none ↦ empty_calibration kpi
  | some scopes ↦ try_scope scopes scope_product_location keys.product_location (
      try_scope scopes scope_location keys.location_id (
        try_scope scopes scope_supplier keys.supplier_id (
          try_scope scopes scope_category keys.category_id
            (try_scope scopes scope_global (some []) (empty_calibration kpi)))))
]
