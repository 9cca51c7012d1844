-- ===== src/Etl/Engine.antt =====
-- internal/features/etl_validation/validation/registry.go and engine_adapter.go: the registry of the
-- kinds of rules, loading a configuration that the YAML library has parsed, and a run over the data.
pub mod Reports
pub mod Loaded
use forecast_e_zoo.Common.{
  ℕ, suc, ◌+◌, ◌==◌, Bool, true, false, not, ◌||◌, Option, none, some, List, [], ◌∷◌, ◌++◌,
  if◌then◌else◌, length,
}
use forecast_e_zoo.Common.Text.{Text, text_eq, codes}
use forecast_e_zoo.Common.Dict.{Dict, lookup, insert}
use forecast_e_zoo.Common.Float.{Float64}
use forecast_e_zoo.Common.Session.{internal, Result, ok, err}
use forecast_e_zoo.Etl.Validation.{
  Value, Row, Dataset, Rule, Violation, Report, severity_critical, severity_soft, is_valid,
  is_empty, kind_unknown, refused_rule, count_all, fk_exists_rule, unique_business_key_rule,
  aggregate_sum_matches_rule, referential_integrity_rule, null_required_field_rule,
}

abbrev pub CheckFunc : Type 0 → Type 0
CheckFunc V = Rule → Dataset V → List Violation

-- kind → CheckFunc; no function of the source is nil.
abbrev pub Registry : Type 0 → Type 0
Registry V = Dict (CheckFunc V)

pub record FileSchema : Type 0 where
  pub version : ℕ
  pub rules : List Rule

pub record Engine (V : Type 0) : Type 0 where
  pub registry : Registry V
  pub rules : List Rule

unfoldable pub register : {V : Type 0} → Text → CheckFunc V → Registry V → Result (Registry V)
register kind fn r = elim (lookup kind r) [
  | some _ ↦ err internal
  | none ↦ if is_empty kind then err internal else ok (insert kind fn r)
]

-- mustRegister: a panic is an error that ends the program.
abbrev pub then_register :
    {V : Type 0} → Text → CheckFunc V → Result (Registry V) → Result (Registry V)
then_register kind fn (ok r) = register kind fn r
then_register kind fn (err e) = err e

-- The missing fields of a rule, `r.Name == "" || …`
abbrev pub lacks_field : Rule → Bool
lacks_field r = is_empty r.name || is_empty r.kind || is_empty r.entity || is_empty r.severity

abbrev pub has_kind : {V : Type 0} → Registry V → Text → Bool
has_kind reg kind = elim (lookup kind reg) [ none ↦ false | some _ ↦ true ]

unfoldable pub check_rules : {V : Type 0} → Registry V → List Rule → Bool
check_rules reg [] = true
check_rules reg (r ∷ rs) =
    let rest = check_rules reg rs in
    if lacks_field r
    then false
    else if not (is_valid r.severity)
    then false
    else if has_kind reg r.kind
    then rest
    else false

abbrev pub checked_engine : {V : Type 0} → Registry V → FileSchema → Result (Engine V)
checked_engine reg sc =
    if check_rules reg sc.rules
    then ok (record { registry = reg; rules = sc.rules })
    else err internal

abbrev pub engine_with : {V : Type 0} → Result (Registry V) → FileSchema → Result (Engine V)
engine_with (ok reg) sc = checked_engine reg sc
engine_with (err e) sc = err e

-- Report.CriticalCount and Report.SoftCount
unfoldable pub count_severity : Text → List Violation → ℕ
count_severity s [] = 0
count_severity s (v ∷ vs) =
    let rest = count_severity s vs in if text_eq v.severity s then rest + 1 else rest

abbrev pub critical_count : Report → ℕ
critical_count r = count_severity severity_critical r.violations

abbrev pub soft_count : Report → ℕ
soft_count r = count_severity severity_soft r.violations

module _ {V : Type 0} where
  abbrev pub apply_rule : Option (CheckFunc V) → Rule → Dataset V → List Violation
  apply_rule none r ds = refused_rule r (kind_unknown r.kind)
  apply_rule (some fn) r ds = fn r ds

  unfoldable pub run_rules : Registry V → List Rule → Dataset V → List Violation
  run_rules reg [] ds = []
  run_rules reg (r ∷ rs) ds = apply_rule (lookup r.kind reg) r ds ++ run_rules reg rs ds

  unfoldable pub run : Engine V → Dataset V → Report
  unfolding run_rules count_all
  run e ds =
      let out = run_rules e.registry e.rules ds in
      record { lines_total = count_all ds; lines_failed = length out; violations = out }

module _ (f : Float64) (sprint : Value f.Val → Text) (print_row : Row f.Val → Text) where
  unfoldable pub default_registry : Result (Registry f.Val)
  unfolding register
  default_registry =
      then_register (codes "null_required_field") (null_required_field_rule f sprint print_row) (
        then_register (codes "referential_integrity")
          (referential_integrity_rule f sprint print_row)
          (then_register (codes "aggregate_sum_matches")
            (aggregate_sum_matches_rule f sprint print_row)
            (then_register (codes "unique_business_key")
              (unique_business_key_rule f sprint print_row)
              (register (codes "fk_exists") (fk_exists_rule f sprint print_row) []))))

  -- parseYAML behind yaml.Unmarshal
  unfoldable pub parse_schema : FileSchema → Result (Engine f.Val)
  unfolding default_registry check_rules
  parse_schema sc = if sc.version == 1 then engine_with default_registry sc else err internal
