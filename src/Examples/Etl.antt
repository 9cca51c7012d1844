-- ===== src/Examples/Etl.antt =====
-- Rules over two entities, and a run of the pipeline over them.
use forecast_e_zoo.Common.{
  ℕ, ◌+◌, ◌-◌, ◌≡◌, refl, true, false, none, [], ◌∷◌, map, keep, All, arith,
}
use mathlib.Core.List.{Memᴰ}
use forecast_e_zoo.Common.Text.{Text, codes, text_eq}
use forecast_e_zoo.Common.Dict.{lookup, insert}
use forecast_e_zoo.Common.Int.{ℤ, pos, quot_ℤ}
use forecast_e_zoo.Common.Session.{Result, ok}
use forecast_e_zoo.Common.Session.Ends.{Ends}
use forecast_e_zoo.Examples.Fixed.{thousandths}
use forecast_e_zoo.Etl.Validation.{
  Value, string, Row, Dataset, Rule, rows_of, unique_business_key_rule, fk_exists_rule,
  referential_integrity_rule, aggregate_sum_matches_rule, null_required_field_rule,
}
use forecast_e_zoo.Etl.Validation.Duplicates.{
  occurrences, reported, complete_keys, unique_business_key_rule-occurrences,
}
use forecast_e_zoo.Etl.Validation.References.{
  dangles, absent, unused, fk_exists_rule-dangles, referential_integrity_rule-dangles,
}
use forecast_e_zoo.Etl.Engine.{
  FileSchema, Engine, register, check_rules, default_registry, parse_schema, run, critical_count,
  soft_count,
}
use forecast_e_zoo.Etl.Engine.{count_severity}
use forecast_e_zoo.Etl.Engine.Reports.{IsOf}
use forecast_e_zoo.Etl.Engine.Loaded.{parse_schema-run}
use forecast_e_zoo.Etl.Tables.{EtlTables, patch_runs}
use forecast_e_zoo.Etl.Pipeline.{
  Builder, staged, new_etl_run, trigger_admin, source_patch, exceeds, ApplyParams, try_start,
  run_async,
}
use forecast_e_zoo.Etl.Pipeline.Flip.{built, flipped}
use forecast_e_zoo.Etl.Pipeline.Gate.{params_of, HasEnded, run_async-HasEnded}
use forecast_e_zoo.Etl.Pipeline.Commits.{IsCommitted, run_async_commits}
use forecast_e_zoo.Etl.Pipeline.Starting.{HasStarted, HasNotStarted, try_start-HasStarted}

sprint : Value ℤ → Text
sprint v = codes "0"

print_row : Row ℤ → Text
print_row row = codes "map[]"

abbrev sale : Text → Row ℤ
sale product = (codes "product_id", string product) ∷ []

abbrev data_set : Dataset ℤ
data_set =
    (codes "sales", sale (codes "p1") ∷ sale (codes "p1") ∷ sale (codes "p2") ∷ [])
    ∷ (codes "products", ((codes "id", string (codes "p1")) ∷ []) ∷ [])
    ∷ []

abbrev rule : Rule
rule = record {
  name = codes "sales_fk";
  kind = codes "fk_exists";
  entity = codes "sales";
  severity = codes "critical";
  column = codes "product_id";
  ref_entity = codes "products";
  ref_column = codes "id";
  keys = codes "product_id" ∷ [];
  sum_column = [];
  ref_sum = [];
}

unique_business_key_rule-occurrences_example :
    occurrences
      (codes "p1")
      (reported (unique_business_key_rule thousandths sprint print_row rule data_set))
    ≡ occurrences
        (codes "p1")
        (complete_keys thousandths sprint print_row rule (rows_of (codes "sales") data_set))
      - 1
unique_business_key_rule-occurrences_example =
    unique_business_key_rule-occurrences thousandths sprint print_row rule data_set (codes "p1")
      (λ e. ground arith)

fk_exists_rule-dangles_example :
    fk_exists_rule thousandths sprint print_row rule data_set
    ≡ map (absent thousandths sprint print_row rule) (
        keep
          (dangles thousandths sprint print_row
            (codes "product_id")
            (codes "id")
            (rows_of (codes "products") data_set))
          (rows_of (codes "sales") data_set))
fk_exists_rule-dangles_example =
    fk_exists_rule-dangles thousandths sprint print_row rule data_set refl

referential_integrity_rule-dangles_example :
    referential_integrity_rule thousandths sprint print_row rule data_set
    ≡ map (unused thousandths sprint print_row rule) (
        keep
          (dangles thousandths sprint print_row
            (codes "id")
            (codes "product_id")
            (rows_of (codes "sales") data_set))
          (rows_of (codes "products") data_set))
referential_integrity_rule-dangles_example =
    referential_integrity_rule-dangles thousandths sprint print_row rule data_set refl

abbrev schema : FileSchema
schema = record { version = 1; rules = rule ∷ [] }

abbrev engine : Engine ℤ
engine = record {
  registry =
      (codes "fk_exists", fk_exists_rule thousandths sprint print_row)
      ∷ (codes "unique_business_key", unique_business_key_rule thousandths sprint print_row)
      ∷ (codes "aggregate_sum_matches", aggregate_sum_matches_rule thousandths sprint print_row)
      ∷ (codes "referential_integrity", referential_integrity_rule thousandths sprint print_row)
      ∷ (codes "null_required_field", null_required_field_rule thousandths sprint print_row)
      ∷ [];
  rules = rule ∷ [];
}

accepted : parse_schema thousandths sprint print_row schema ≡ ok engine
unfolding parse_schema default_registry check_rules register lookup insert text_eq
accepted = refl

parse_schema-run_example :
    let report = run engine data_set in
    All (λ v. (r : Rule) × Memᴰ r (rule ∷ []) × IsOf r v) report.violations
    × (critical_count report + soft_count report ≡ report.lines_failed)
parse_schema-run_example =
    parse_schema-run thousandths sprint print_row schema engine data_set accepted

-- A mart that is its number of rows.
abbrev builder : Builder ℕ
builder = record { name = codes "mart"; build = λ run_id load_id m. (ok m, m + load_id) }

abbrev tables : EtlTables ℕ
tables = record {
  runs = new_etl_run 1 trigger_admin none none ∷ [];
  reject_log = [];
  marts = 10;
  next_run = 2;
  lock_busy = false;
}

abbrev populate : ℕ → Result (Unit {0}) × ℕ
populate m = (ok tt, m + 1)

run_async-HasEnded_example :
    Ends
      (HasEnded thousandths
        (pos 500)
        (λ m. m)
        (builder ∷ [])
        engine
        1
        (staged 9 data_set 4 populate)
        tables)
      (λ e t'. ⊥)
      (run_async thousandths
        (pos 500)
        (λ m. m)
        (builder ∷ [])
        engine
        1
        (staged 9 data_set 4 populate)
        (record { tables = tables; faults = true ∷ [] }))
run_async-HasEnded_example =
    run_async-HasEnded thousandths (pos 500) (λ m. m) (builder ∷ []) engine 1
      (staged 9 data_set 4 populate) (record { tables = tables; faults = true ∷ [] })

-- The same rule, but soft.
abbrev soft_rule : Rule
soft_rule = record rule { severity = codes "soft" }

abbrev soft_engine : Engine ℤ
soft_engine = record engine { rules = soft_rule ∷ [] }

soft_accepted :
    parse_schema thousandths sprint print_row (record { version = 1; rules = soft_rule ∷ [] })
    ≡ ok soft_engine
unfolding parse_schema default_registry check_rules register lookup insert text_eq
soft_accepted = refl

abbrev params : ApplyParams ℕ
params = params_of thousandths (pos 500) (λ m. m) (builder ∷ []) soft_engine 1 9 data_set 4 populate

flips : flipped (λ m. m) params 10 ≡ ok ((codes "mart", 11) ∷ [], 20)
unfolding flipped built insert
flips = refl

no_critical : critical_count (run soft_engine data_set) ≡ 0
unfolding run count_severity fk_exists_rule lookup text_eq insert
no_critical = refl

-- One of four lines has a soft violation.
passes :
    exceeds thousandths (pos 500) (soft_count (run soft_engine data_set)) params.lines_total ≡ false
unfolding run count_severity fk_exists_rule lookup text_eq quot_ℤ insert
passes = refl

run_async_commits_example :
    IsCommitted thousandths
      (pos 500)
      (λ m. m)
      (builder ∷ [])
      soft_engine
      1
      params
      ((codes "mart", 11) ∷ [])
      20
      (patch_runs 1 (source_patch 9) tables.runs)
      (run_async thousandths
        (pos 500)
        (λ m. m)
        (builder ∷ [])
        soft_engine
        1
        (staged 9 data_set 4 populate)
        (record { tables = tables; faults = [] }))
run_async_commits_example =
    run_async_commits thousandths (pos 500) (λ m. m) (builder ∷ []) soft_engine 1 sprint print_row
      (record { version = 1; rules = soft_rule ∷ [] }) soft_accepted 9 data_set 4 populate tables
      ((codes "mart", 11) ∷ []) 20 (λ e. ground arith) (omega arith) (omega arith) flips no_critical
      passes

try_start-HasStarted_example :
    Ends
      (HasStarted trigger_admin none none tables)
      (HasNotStarted trigger_admin none none tables)
      (try_start trigger_admin none none (record { tables = tables; faults = [] }))
try_start-HasStarted_example = try_start-HasStarted trigger_admin none none tables []
