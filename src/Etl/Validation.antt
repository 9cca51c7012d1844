-- ===== src/Etl/Validation.antt =====
-- internal/features/etl_validation/validation: the rules of the snapshot's quality, their registry and
-- the engine that applies them. `Value` is what a column holds.
-- `sprint` is fmt.Sprint on the values that are neither text nor bytes, and `print_row` prints a row
-- by `%v`.
pub mod Duplicates
pub mod References
use forecast_e_zoo.Common.{
  ℕ, suc, ◌+◌, ◌==◌, ltb, Bool, true, false, not, ◌&&◌, ◌||◌, Option, none, some, List, [], ◌∷◌,
  ◌++◌, if◌then◌else◌, length,
}
use forecast_e_zoo.Common.Text.{Text, text_eq, codes}
use forecast_e_zoo.Common.Int.{ℤ}
use forecast_e_zoo.Common.Dict.{Dict, lookup, insert}
use forecast_e_zoo.Common.Float.{Float64}
use forecast_e_zoo.Common.Session.{Error, internal, Result, ok, err}

-- `severity.go`: a text in the source, of which two are valid.
abbrev pub severity_critical : Text
severity_critical = codes "critical"

abbrev pub severity_soft : Text
severity_soft = codes "soft"

-- Severity.IsValid
abbrev pub is_valid : Text → Bool
is_valid s = text_eq s severity_critical || text_eq s severity_soft

-- float32 and float64 are one constructor, as are the three types of integers.
pub data Value (V : Type 0) : Type 0 where
  null : Value V
  string bytes : Text → Value V
  float : V → Value V
  integer : ℤ → Value V
  other : ℕ → Value V

abbrev pub Row : Type 0 → Type 0
Row V = Dict (Value V)

abbrev pub Dataset : Type 0 → Type 0
Dataset V = Dict (List (Row V))

-- Without `Filter`, which nothing reads.
pub record Rule : Type 0 where
  pub name : Text
  pub kind : Text
  pub entity : Text
  pub severity : Text
  pub column : Text
  pub ref_entity : Text
  pub ref_column : Text
  pub keys : List Text
  pub sum_column : Text
  pub ref_sum : Text

-- The messages by their format, with the texts that are filled in. That of a rule which lacks a
-- parameter names the rule; the parameters it lists depend on the kind alone.
pub data Message : Type 0 where
  rule_misconfigured : Text → Message
  kind_unknown : Text → Message
  required_empty : Text → Text → Message
  duplicate_key : List Text → Text → Message
  reference_absent : Text → Text → Text → Text → Text → Message
  value_unused : Text → Text → Text → Text → Text → Message
  sums_differ : Text → Text → Text → Text → Text → Text → Message

pub record Violation : Type 0 where
  pub rule_name : Text
  pub kind : Text
  pub entity : Text
  pub field : Text
  pub business_key : Text
  pub severity : Text
  pub message : Message

pub record Report : Type 0 where
  pub lines_total : ℕ
  pub lines_failed : ℕ
  pub violations : List Violation

abbrev pub is_empty : Text → Bool
is_empty [] = true
is_empty (_ ∷ _) = false

-- strings.Join(parts, "|")
unfoldable pub join_bar : List Text → Text
join_bar [] = []
join_bar (s ∷ []) = s
join_bar (s ∷ t ∷ rest) = s ++ codes "|" ++ join_bar (t ∷ rest)

unfoldable pub rows_of : {V : Type 0} → Text → Dataset V → List (Row V)
rows_of entity ds = elim (lookup entity ds) [ none ↦ [] | some rows ↦ rows ]

-- The sum of the numbers of rows.
unfoldable pub count_all : {V : Type 0} → Dataset V → ℕ
count_all [] = 0
count_all ((entity, rows) ∷ ds) = length rows + count_all ds

-- The violation of a rule that cannot be applied; then of one that lacks a parameter.
abbrev pub refused_rule : Rule → Message → List Violation
refused_rule r message =
    record {
      rule_name = r.name;
      kind = r.kind;
      entity = r.entity;
      field = [];
      business_key = [];
      severity = severity_critical;
      message = message;
    }
    ∷ []

abbrev pub misconfigured : Rule → List Violation
misconfigured r = refused_rule r (rule_misconfigured r.name)

abbrev pub violation : Rule → Text → Text → Text → Message → Violation
violation r entity field key message = record {
  rule_name = r.name;
  kind = r.kind;
  entity = entity;
  field = field;
  business_key = key;
  severity = r.severity;
  message = message;
}

abbrev pub absent_message : Rule → Text → Message
absent_message r value = reference_absent r.entity r.column value r.ref_entity r.ref_column

abbrev pub unused_message : Rule → Text → Message
unused_message r value = value_unused r.ref_entity r.ref_column value r.entity r.column

abbrev pub lacks_reference : Rule → Bool
lacks_reference r = is_empty r.column || is_empty r.ref_entity || is_empty r.ref_column

-- A Go map with empty values.
abbrev pub TextSet : Type 0
TextSet = Dict (Unit {0})

abbrev pub is_some : {A : Type 0} → Option A → Bool
is_some none = false
is_some (some _) = true

abbrev pub has : Text → TextSet → Bool
has k s = is_some (lookup k s)

-- `!ok || v == ""`
abbrev pub is_missing : Option Text → Bool
is_missing none = true
is_missing (some v) = is_empty v

abbrev pub text_of : Option Text → Text
text_of none = []
text_of (some v) = v

-- referential_integrity: the values that the rows of the entity use, but for empty ones, and the rows
-- of the other entity whose value none of them uses.
abbrev pub add_used : Option Text → TextSet → TextSet
add_used none s = s
add_used (some []) s = s
add_used (some (c ∷ v)) s = insert (c ∷ v) tt s

abbrev pub add_unused : Option Text → TextSet → (Text → Violation) → List Violation → List Violation
add_unused none s found rest = rest
add_unused (some []) s found rest = rest
add_unused (some (c ∷ v)) s found rest = if has (c ∷ v) s then rest else found (c ∷ v) ∷ rest

module _ (f : Float64) (sprint : Value f.Val → Text) (print_row : Row f.Val → Text) where
  open f use {Val, lit, of_int, add, sub, abs, le}

  abbrev pub show_value : Value Val → Option Text
  show_value null = none
  show_value (string s) = some s
  show_value (bytes s) = some s
  show_value (float x) = some (sprint (float x))
  show_value (integer n) = some (sprint (integer n))
  show_value (other n) = some (sprint (other n))

  abbrev pub show_found : Option (Value Val) → Option Text
  show_found none = none
  show_found (some v) = show_value v

  unfoldable pub as_string : Row Val → Text → Option Text
  as_string row col = if is_empty col then none else show_found (lookup col row)

  abbrev pub number : Option (Value Val) → Option Val
  number (some (float x)) = some x
  number (some (integer n)) = some (of_int n)
  number (some null) = none
  number (some (string s)) = none
  number (some (bytes s)) = none
  number (some (other n)) = none
  number none = none

  unfoldable pub as_float : Row Val → Text → Option Val
  as_float row col = if is_empty col then none else number (lookup col row)

  abbrev pub key_parts : Row Val → List Text → List Text
  key_parts row [] = []
  key_parts row (c ∷ cs) = text_of (as_string row c) ∷ key_parts row cs

  unfoldable pub composite_key : Row Val → List Text → Text
  unfolding join_bar as_string
  composite_key row cols = join_bar (key_parts row cols)

  abbrev pub key_or_row : Row Val → Option Text → Text
  key_or_row row (some id) = id
  key_or_row row none = print_row row

  unfoldable pub business_key : Row Val → Text
  unfolding as_string
  business_key row = key_or_row row (as_string row (codes "id"))

  unfoldable pub null_loop : Rule → List (Row Val) → List Violation
  unfolding as_string business_key
  null_loop r [] = []
  null_loop r (row ∷ rows) =
      let rest = null_loop r rows in
      if is_missing (as_string row r.column)
      then violation r r.entity r.column (business_key row) (required_empty r.entity r.column)
        ∷ rest
      else rest

  unfoldable pub null_required_field_rule : Rule → Dataset Val → List Violation
  unfolding null_loop rows_of
  null_required_field_rule r ds =
      if is_empty r.column then misconfigured r else null_loop r (rows_of r.entity ds)

  -- `hasAll`
  unfoldable pub has_all : Row Val → List Text → Bool
  unfolding as_string
  has_all row [] = true
  has_all row (k ∷ ks) =
      let rest = has_all row ks in if is_missing (as_string row k) then false else rest

  unfoldable pub unique_loop : Rule → TextSet → List (Row Val) → List Violation
  unfolding has_all composite_key
  unique_loop r seen [] = []
  unique_loop r seen (row ∷ rows) =
      let key = composite_key row r.keys in
      let skipped = unique_loop r seen rows in
      let added = unique_loop r (insert key tt seen) rows in
      if not (has_all row r.keys)
      then skipped
      else if has key seen
      then violation r r.entity [] key (duplicate_key r.keys key) ∷ skipped
      else added

  unfoldable pub unique_business_key_rule : Rule → Dataset Val → List Violation
  unfolding unique_loop rows_of
  unique_business_key_rule r ds = elim r.keys [
    | [] ↦ misconfigured r
    | _ ∷ _ ↦ unique_loop r [] (rows_of r.entity ds)
  ]

  -- The set of the values of a column that are there and not empty.
  unfoldable pub value_set : Text → List (Row Val) → TextSet → TextSet
  unfolding as_string
  value_set col [] s = s
  value_set col (row ∷ rows) s =
      value_set col rows
        (if is_missing (as_string row col) then s else insert (text_of (as_string row col)) tt s)

  -- The rows whose value is there and not in the set.
  unfoldable pub absent_loop : Rule → TextSet → List (Row Val) → List Violation
  unfolding as_string business_key
  absent_loop r s [] = []
  absent_loop r s (row ∷ rows) =
      let rest = absent_loop r s rows in
      let value = text_of (as_string row r.column) in
      if is_missing (as_string row r.column)
      then rest
      else if has value s
      then rest
      else violation r r.entity r.column (business_key row) (absent_message r value) ∷ rest

  unfoldable pub fk_exists_rule : Rule → Dataset Val → List Violation
  unfolding value_set absent_loop rows_of
  fk_exists_rule r ds =
      let refs = value_set r.ref_column (rows_of r.ref_entity ds) [] in
      if lacks_reference r then misconfigured r else absent_loop r refs (rows_of r.entity ds)

  unfoldable pub used_set : Rule → List (Row Val) → TextSet → TextSet
  unfolding as_string
  used_set r [] s = s
  used_set r (row ∷ rows) s = used_set r rows (add_used (as_string row r.column) s)

  unfoldable pub unused_loop : Rule → TextSet → List (Row Val) → List Violation
  unfolding as_string business_key
  unused_loop r s [] = []
  unused_loop r s (parent ∷ parents) =
      let rest = unused_loop r s parents in
      let found = λ (value : Text).
        violation r r.ref_entity r.ref_column (business_key parent) (unused_message r value) in
      add_unused (as_string parent r.ref_column) s found rest

  unfoldable pub referential_integrity_rule : Rule → Dataset Val → List Violation
  unfolding used_set unused_loop rows_of
  referential_integrity_rule r ds =
      let used = used_set r (rows_of r.entity ds) [] in
      if lacks_reference r then misconfigured r else unused_loop r used (rows_of r.ref_entity ds)

  abbrev pub add_found : Val → Option Val → Val
  add_found s none = s
  add_found s (some v) = add s v

  unfoldable pub sum_column : List (Row Val) → Text → Val → Val
  unfolding as_float
  sum_column [] col s = s
  sum_column (row ∷ rows) col s = sum_column rows col (add_found s (as_float row col))

  unfoldable pub aggregate_sum_matches_rule : Rule → Dataset Val → List Violation
  unfolding sum_column rows_of
  aggregate_sum_matches_rule r ds =
      let left = sum_column (rows_of r.entity ds) r.sum_column (lit 0 0) in
      let right = sum_column (rows_of r.ref_entity ds) r.ref_sum (lit 0 0) in
      if is_empty r.sum_column || is_empty r.ref_entity || is_empty r.ref_sum
      then misconfigured r
      else if le (abs (sub left right)) (lit 1 2)
      then []
      else violation r r.entity [] [] (
          sums_differ r.entity r.sum_column (sprint (float left)) r.ref_entity r.ref_sum
            (sprint (float right)))
        ∷ []
