-- ===== src/Etl/Engine/Loaded.antt =====
-- A run of the engine over a configuration that was accepted.
use mathlib.Core.Path.{subst}
use mathlib.Core.List.{Memᴰ}
use forecast_e_zoo.Common.{
  ◌+◌, ◌≡◌, refl, true, false, Bool-cases, some, Option-cases, inl, inr, List, [], ◌∷◌, length, All,
  All-append, All-weaken, sym, ap, ◌∙◌, if◌then◌else◌, arith,
}
use forecast_e_zoo.Common.Text.{Text, text_eq, text_eq_sound, codes}
use forecast_e_zoo.Common.Dict.{lookup, insert, lookup-insert}
use forecast_e_zoo.Common.Float.{Float64}
use forecast_e_zoo.Common.Session.{Result, ok, err, Result-cases}
use forecast_e_zoo.Etl.Validation.{
  Value, Row, Dataset, Rule, Violation, severity_critical, severity_soft, is_valid, fk_exists_rule,
  unique_business_key_rule, aggregate_sum_matches_rule, referential_integrity_rule,
  null_required_field_rule,
}
use forecast_e_zoo.Etl.Engine.{
  CheckFunc, Registry, FileSchema, Engine, register, then_register, check_rules, count_severity,
  critical_count, soft_count, run_rules, run, default_registry, parse_schema,
}
use forecast_e_zoo.Etl.Engine.Reports.{
  IsOf, Reports, null_required-Reports, unique-Reports, fk_exists-Reports, referential-Reports,
  aggregate-Reports,
}

some_injective : {A : Type 0} {x y : A} → some x ≡ some y → x ≡ y
some_injective e = cc

module _ {V : Type 0} where
  -- What every function of the registry does.
  abbrev AllReport : Registry V → Type 0
  AllReport reg = (kind : Text) (fn : CheckFunc V) → lookup kind reg ≡ some fn → Reports fn

  empty-AllReport : AllReport []
  unfolding lookup
  empty-AllReport k fn q = absurd (cc)

  register-insert :
      (kind : Text) (fn : CheckFunc V) (reg reg' : Registry V)
      → register kind fn reg ≡ ok reg'
      → reg' ≡ insert kind fn reg
  unfolding register
  register-insert kind fn reg reg' e = elim (Option-cases (lookup kind reg)) [
    | inl q ↦ ground arith
    | inr (x, q) ↦ ground arith
  ]

  register-AllReport :
      (kind : Text) (fn : CheckFunc V) (reg reg' : Registry V)
      → Reports fn
      → AllReport reg
      → register kind fn reg ≡ ok reg'
      → AllReport reg'
  register-AllReport kind fn reg reg' s a e k g q =
      let found : (if text_eq kind k then some fn else lookup k reg) ≡ some g =
        sym (lookup-insert kind k fn reg)
        ∙ ap (lookup k) (sym (register-insert kind fn reg reg' e))
        ∙ q in
      elim (Bool-cases (text_eq kind k)) [
        | inl same ↦ subst Reports (some_injective (rw same at found)) s
        | inr differs ↦ a k g (rw differs at found)
      ]

  then_register-AllReport :
      (kind : Text) (fn : CheckFunc V) (before : Result (Registry V)) (reg : Registry V)
      → Reports fn
      → ((reg' : Registry V) → before ≡ ok reg' → AllReport reg')
      → then_register kind fn before ≡ ok reg
      → AllReport reg
  then_register-AllReport kind fn (ok r) reg s a e = register-AllReport kind fn r reg s (a r refl) e
  then_register-AllReport kind fn (err x) reg s a e = cc

  rule_kept :
      (reg : Registry V) (r : Rule) (rs : List Rule)
      → check_rules reg (r ∷ rs) ≡ true
      → (is_valid r.severity ≡ true)
        × ((fn : CheckFunc V) × (lookup r.kind reg ≡ some fn))
        × (check_rules reg rs ≡ true)
  unfolding check_rules
  rule_kept reg r rs c = elim (Option-cases (lookup r.kind reg)) [
    | inl q ↦ absurd (ground arith)
    | inr (fn, q) ↦ (ground arith, (fn, q), ground arith)
  ]

  run_rules-IsOf :
      (reg : Registry V) (rs : List Rule) (ds : Dataset V)
      → AllReport reg
      → check_rules reg rs ≡ true
      → All (λ v. (r : Rule) × Memᴰ r rs × IsOf r v) (run_rules reg rs ds)
  unfolding run_rules
  run_rules-IsOf reg [] ds a c = tt
  run_rules-IsOf reg (r ∷ rs) ds a c =
      let kept = rule_kept reg r rs c in
      let fn = kept.1.0 in
      rw kept.1.1 (
        All-append (λ v. (q : Rule) × Memᴰ q (r ∷ rs) × IsOf q v) (fn r ds) (run_rules reg rs ds)
          (All-weaken (λ v h. (r, Memᴰ.head refl, h)) (fn r ds) (a r.kind fn kept.1.1 r ds kept.0))
          (All-weaken (λ v h. (h.0, Memᴰ.tail h.1, h.2)) (run_rules reg rs ds)
            (run_rules-IsOf reg rs ds a kept.2)))

not_both : (s : Text) → text_eq s severity_critical ≡ true → text_eq s severity_soft ≡ false
unfolding text_eq
not_both s h = rw (text_eq_sound s severity_critical h) refl

count_severity-length :
    (vs : List Violation)
    → All (λ (v : Violation). is_valid v.severity ≡ true) vs
    → count_severity severity_critical vs + count_severity severity_soft vs ≡ length vs
unfolding count_severity
count_severity-length [] h = omega arith
count_severity-length (v ∷ vs) h =
    ground (arith, not_both v.severity, count_severity-length vs h.1, h.0)

module _ (f : Float64) (sprint : Value f.Val → Text) (print_row : Row f.Val → Text) where
  abbrev with_fk : Result (Registry f.Val)
  with_fk = register (codes "fk_exists") (fk_exists_rule f sprint print_row) []

  abbrev with_unique : Result (Registry f.Val)
  with_unique =
      then_register (codes "unique_business_key") (unique_business_key_rule f sprint print_row)
        with_fk

  abbrev with_sum : Result (Registry f.Val)
  with_sum =
      then_register (codes "aggregate_sum_matches") (aggregate_sum_matches_rule f sprint print_row)
        with_unique

  abbrev with_integrity : Result (Registry f.Val)
  with_integrity =
      then_register (codes "referential_integrity") (referential_integrity_rule f sprint print_row)
        with_sum

  with_unique-AllReport : (reg : Registry f.Val) → with_unique ≡ ok reg → AllReport reg
  with_unique-AllReport reg =
      then_register-AllReport (codes "unique_business_key")
        (unique_business_key_rule f sprint print_row) with_fk reg
        (unique-Reports f sprint print_row)
        (λ r.
          register-AllReport (codes "fk_exists") (fk_exists_rule f sprint print_row) [] r
            (fk_exists-Reports f sprint print_row) empty-AllReport)

  with_integrity-AllReport : (reg : Registry f.Val) → with_integrity ≡ ok reg → AllReport reg
  with_integrity-AllReport reg =
      then_register-AllReport (codes "referential_integrity")
        (referential_integrity_rule f sprint print_row) with_sum reg
        (referential-Reports f sprint print_row)
        (λ r.
          then_register-AllReport (codes "aggregate_sum_matches")
            (aggregate_sum_matches_rule f sprint print_row) with_unique r
            (aggregate-Reports f sprint print_row) with_unique-AllReport)

  default_registry-AllReport :
      (reg : Registry f.Val) → default_registry f sprint print_row ≡ ok reg → AllReport reg
  unfolding default_registry
  default_registry-AllReport reg =
      then_register-AllReport (codes "null_required_field")
        (null_required_field_rule f sprint print_row) with_integrity reg
        (null_required-Reports f sprint print_row) with_integrity-AllReport

  loaded :
      (sc : FileSchema) (e : Engine f.Val)
      → parse_schema f sprint print_row sc ≡ ok e
      → (default_registry f sprint print_row ≡ ok e.registry)
        × (check_rules e.registry e.rules ≡ true)
        × (e.rules ≡ sc.rules)
  unfolding parse_schema
  loaded sc e h = elim (Result-cases (default_registry f sprint print_row)) [
    | inl (reg, q) ↦ ground arith
    | inr (x, q) ↦ absurd (ground arith)
  ]

  -- Where the configuration is accepted, every violation of a run is of a rule of the configuration, by
  -- its name, with one of the two severities; and the critical and the soft violations together are
  -- the number of failed lines of the report.
  pub parse_schema-run :
      (sc : FileSchema) (e : Engine f.Val) (ds : Dataset f.Val)
      → parse_schema f sprint print_row sc ≡ ok e
      → let report = run e ds in
        All (λ v. (r : Rule) × Memᴰ r sc.rules × IsOf r v) report.violations
        × (critical_count report + soft_count report ≡ report.lines_failed)
  unfolding run
  parse_schema-run sc e ds h =
      let fields = loaded sc e h in
      let all =
        run_rules-IsOf e.registry e.rules ds (default_registry-AllReport e.registry fields.0)
          fields.1 in
      (
        All-weaken (λ v h. (h.0, subst (λ rs. Memᴰ h.0 rs) fields.2 h.1, h.2))
            (run_rules e.registry e.rules ds) all,
        count_severity-length (run_rules e.registry e.rules ds)
            (All-weaken (λ v h. h.2.1) (run_rules e.registry e.rules ds) all),
      )
