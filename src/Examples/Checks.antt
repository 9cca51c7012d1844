-- ===== src/Examples/Checks.antt =====
-- Three rows of a load, of which two have the same key.
use mathlib.Core.List.{Memᴰ}
use forecast_e_zoo.Common.{◌≡◌, refl, none, List, [], ◌∷◌}
use forecast_e_zoo.Common.Text.{Text, codes, text_eq}
use forecast_e_zoo.Common.Dict.{lookup, insert}
use forecast_e_zoo.Common.Int.{ℤ}
use forecast_e_zoo.Examples.Fixed.{thousandths}
use forecast_e_zoo.Export.Checks.{
  severity_critical, string, Payload, Rule, Outside, mark_pk, rules_for, pk_value, default_checks,
  check_rules, check, duplicate_pk, as_string, as_float, has_critical, accept,
}
use forecast_e_zoo.Export.Checks.Marks.{Fresh, Distinct}
use forecast_e_zoo.Export.Checks.Distinct.{keys_of, accept-Distinct}

abbrev outside : Outside ℤ
outside = record {
  future_limit = 1000;
  parse_rfc3339 = λ s. none;
  trim_space = λ s. s;
  sprint = λ x. codes "0";
  match_string = λ pattern s. none;
}

abbrev rule : Rule ℤ
rule = record {
  id = codes "products.duplicate_pk";
  entity = codes "products";
  check = codes "duplicate_pk";
  field = codes "id";
  fields = [];
  pattern = [];
  min = none;
  max = none;
  severity = severity_critical;
}

abbrev row : Text → Payload ℤ
row id = (codes "id", string id) ∷ []

abbrev rows : List (Payload ℤ)
rows = row (codes "a") ∷ row (codes "b") ∷ row (codes "a") ∷ []

second_refused :
    keys_of thousandths outside rule
      (accept thousandths outside (rule ∷ []) (codes "products") rows []).kept
    ≡ codes "a" ∷ codes "b" ∷ []
unfolding keys_of accept check check_rules rules_for default_checks duplicate_pk pk_value as_string
    as_float mark_pk has_critical lookup insert text_eq
second_refused = refl

accept-Distinct_example :
    let keys =
      keys_of thousandths outside rule
        (accept thousandths outside (rule ∷ []) (codes "products") rows []).kept in
    Fresh (codes "products") [] keys × Distinct keys
accept-Distinct_example =
    accept-Distinct thousandths outside (rule ∷ []) rule (Memᴰ.head refl) refl refl refl rows []
