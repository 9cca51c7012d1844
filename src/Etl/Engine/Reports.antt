-- ===== src/Etl/Engine/Reports.antt =====
-- The violations that each kind of rule reports are of the rule.
use forecast_e_zoo.Common.{
  ◌≡◌, refl, true, Option, none, some, Bool-cases, List-cases, inl, inr, List, [], ◌∷◌, All, arith,
}
use forecast_e_zoo.Common.Text.{Text, text_eq}
use forecast_e_zoo.Common.Dict.{insert}
use forecast_e_zoo.Common.Float.{Float64}
use forecast_e_zoo.Etl.Validation.{
  Value, Row, Dataset, Rule, Violation, unused_message, misconfigured, TextSet, rows_of,
  lacks_reference, composite_key, is_valid, null_loop, unique_loop, absent_loop, add_unused,
  unused_loop, has, business_key, as_string, violation, fk_exists_rule, unique_business_key_rule,
  aggregate_sum_matches_rule, referential_integrity_rule, null_required_field_rule,
}
use forecast_e_zoo.Etl.Engine.{CheckFunc}

-- A violation is of a rule: by its name, and with a severity that is valid.
abbrev pub IsOf : Rule → Violation → Type 0
IsOf r v = (v.rule_name ≡ r.name) × (is_valid v.severity ≡ true)

-- Every violation that the function reports is of the rule that it is given.
abbrev pub Reports : {V : Type 0} → CheckFunc V → Type 0
Reports {V} fn = (r : Rule) (ds : Dataset V) → is_valid r.severity ≡ true → All (IsOf r) (fn r ds)

pub misconfigured-IsOf : (r : Rule) → All (IsOf r) (misconfigured r)
unfolding text_eq
misconfigured-IsOf r = ((refl, refl), tt)

add_unused-IsOf :
    (r : Rule) (cell : Option Text) (s : TextSet) (v : Text → Violation) (rest : List Violation)
    → ((t : Text) → IsOf r (v t))
    → All (IsOf r) rest
    → All (IsOf r) (add_unused cell s v rest)
add_unused-IsOf r none s v rest h hs = hs
add_unused-IsOf r (some []) s v rest h hs = hs
add_unused-IsOf r (some (c ∷ t)) s v rest h hs = elim (Bool-cases (has (c ∷ t) s)) [
  | inl e ↦ rw e hs
  | inr e ↦ rw e (h (c ∷ t), hs)
]

module _ (f : Float64) (sprint : Value f.Val → Text) (print_row : Row f.Val → Text) where
  null_loop-IsOf :
      (r : Rule) (rows : List (Row f.Val))
      → is_valid r.severity ≡ true
      → All (IsOf r) (null_loop f sprint print_row r rows)
  unfolding null_loop
  null_loop-IsOf r [] h = tt
  null_loop-IsOf r (row ∷ rows) h = ground (arith, null_loop-IsOf r rows)

  unique_loop-IsOf :
      (r : Rule) (seen : TextSet) (rows : List (Row f.Val))
      → is_valid r.severity ≡ true
      → All (IsOf r) (unique_loop f sprint print_row r seen rows)
  unfolding unique_loop
  unique_loop-IsOf r seen [] h = tt
  unique_loop-IsOf r seen (row ∷ rows) h =
      let key = composite_key f sprint print_row row r.keys in
      ground (arith, unique_loop-IsOf r seen rows, unique_loop-IsOf r (insert key tt seen) rows)

  absent_loop-IsOf :
      (r : Rule) (s : TextSet) (rows : List (Row f.Val))
      → is_valid r.severity ≡ true
      → All (IsOf r) (absent_loop f sprint print_row r s rows)
  unfolding absent_loop
  absent_loop-IsOf r s [] h = tt
  absent_loop-IsOf r s (row ∷ rows) h = ground (arith, absent_loop-IsOf r s rows)

  unused_loop-IsOf :
      (r : Rule) (s : TextSet) (rows : List (Row f.Val))
      → is_valid r.severity ≡ true
      → All (IsOf r) (unused_loop f sprint print_row r s rows)
  unfolding unused_loop
  unused_loop-IsOf r s [] h = tt
  unused_loop-IsOf r s (row ∷ rows) h =
      add_unused-IsOf r (as_string f sprint print_row row r.ref_column) s
        (λ (value : Text).
          violation r r.ref_entity r.ref_column (business_key f sprint print_row row)
            (unused_message r value))
        _ (λ value. (refl, h)) (unused_loop-IsOf r s rows h)

  pub null_required-Reports : Reports (null_required_field_rule f sprint print_row)
  unfolding null_required_field_rule
  null_required-Reports r ds h =
      ground (arith, misconfigured-IsOf r, null_loop-IsOf r (rows_of r.entity ds))

  pub unique-Reports : Reports (unique_business_key_rule f sprint print_row)
  unfolding unique_business_key_rule
  unique-Reports r ds h = elim (List-cases r.keys) [
    | inl e ↦ rw (e, unique_business_key_rule) (misconfigured-IsOf r)
    | inr (c, cs, e) ↦ ground (arith, unique_loop-IsOf r [] (rows_of r.entity ds) h)
  ]

  pub fk_exists-Reports : Reports (fk_exists_rule f sprint print_row)
  unfolding fk_exists_rule
  fk_exists-Reports r ds h = elim (Bool-cases (lacks_reference r)) [
    | inl e ↦ rw e (misconfigured-IsOf r)
    | inr e ↦ rw e (absent_loop-IsOf r _ (rows_of r.entity ds) h)
  ]

  pub referential-Reports : Reports (referential_integrity_rule f sprint print_row)
  unfolding referential_integrity_rule
  referential-Reports r ds h = elim (Bool-cases (lacks_reference r)) [
    | inl e ↦ rw e (misconfigured-IsOf r)
    | inr e ↦ rw e (unused_loop-IsOf r _ (rows_of r.ref_entity ds) h)
  ]

  pub aggregate-Reports : Reports (aggregate_sum_matches_rule f sprint print_row)
  unfolding aggregate_sum_matches_rule
  aggregate-Reports r ds h = ground (arith, misconfigured-IsOf r)
