-- ===== src/Etl/Validation/Duplicates.antt =====
-- unique_business_key against the number of rows with a key.
use forecast_e_zoo.Common.{
  ℕ, ◌+◌, ◌-◌, ◌≡◌, ◌≢◌, List-cases, true, Bool-cases, inl, inr, List, [], ◌∷◌, map, if◌then◌else◌,
  arith,
}
use forecast_e_zoo.Common.Text.{Text, text_eq, text_eq_iff}
use forecast_e_zoo.Common.Dict.{lookup, insert, lookup-insert}
use forecast_e_zoo.Common.Float.{Float64}
use forecast_e_zoo.Etl.Validation.{
  Value, Row, Dataset, Rule, Violation, TextSet, has, rows_of, composite_key, has_all, unique_loop,
  unique_business_key_rule,
}

abbrev pub occurrences : Text → List Text → ℕ
occurrences k [] = 0
occurrences k (j ∷ js) = let rest = occurrences k js in if text_eq j k then rest + 1 else rest

abbrev pub reported : List Violation → List Text
reported = map (λ (v : Violation). v.business_key)

pub has-insert :
    (k j : Text) (s : TextSet) → has j (insert k tt s) ≡ (if text_eq k j then true else has j s)
has-insert k j s = rw (lookup-insert k j tt s) (ground arith)

module _ (f : Float64) (sprint : Value f.Val → Text) (print_row : Row f.Val → Text) where
  -- The keys of the rows in which every column of the key has a value.
  pub complete_keys : Rule → List (Row f.Val) → List Text
  complete_keys r [] = []
  complete_keys r (row ∷ rows) =
      let rest = complete_keys r rows in
      if has_all f sprint print_row row r.keys
      then composite_key f sprint print_row row r.keys ∷ rest
      else rest

  unique_loop-occurrences :
      (r : Rule) (k : Text) (seen : TextSet) (rows : List (Row f.Val))
      → occurrences k (reported (unique_loop f sprint print_row r seen rows)) ≡ (
          if has k seen
          then occurrences k (complete_keys r rows)
          else occurrences k (complete_keys r rows) - 1)
  unfolding unique_loop complete_keys
  unique_loop-occurrences r k seen [] = ground arith
  unique_loop-occurrences r k seen (row ∷ rows) =
      let key = composite_key f sprint print_row row r.keys in
      elim (Bool-cases (has_all f sprint print_row row r.keys)) [
        | inl all ↦ elim (Bool-cases (has key seen)) [
          | inl old ↦
              rw (all, old)
                (ground (arith, text_eq_iff key k, unique_loop-occurrences r k seen rows))
          | inr new ↦
              rw (all, new)
                (ground (
                  arith,
                  text_eq_iff key k,
                  unique_loop-occurrences r k (insert key tt seen) rows,
                  has-insert key k seen,
                ))
        ]
        | inr part ↦ rw part (unique_loop-occurrences r k seen rows)
      ]

  -- A rule with columns reports each key once less than the number of rows that have this key, with a
  -- value in every column of it, and not at all where there is no such row.
  pub unique_business_key_rule-occurrences :
      (r : Rule) (ds : Dataset f.Val) (k : Text)
      → r.keys ≢ []
      → occurrences k (reported (unique_business_key_rule f sprint print_row r ds))
        ≡ occurrences k (complete_keys r (rows_of r.entity ds)) - 1
  unfolding unique_business_key_rule lookup
  unique_business_key_rule-occurrences r ds k n = elim (List-cases r.keys) [
    | inl e ↦ absurd (n e)
    | inr (c, cs, e) ↦ ground (arith, unique_loop-occurrences r k [] (rows_of r.entity ds))
  ]
