-- ===== src/Etl/Validation/References.antt =====
-- fk_exists and referential_integrity against a search of the other entity's rows.
use forecast_e_zoo.Common.{
  ◌≡◌, refl, Option, none, some, Bool, true, false, not, ◌&&◌, ◌||◌, List, [], ◌∷◌, map, keep,
  if◌then◌else◌, arith,
}
use forecast_e_zoo.Common.Text.{Text, text_eq}
use forecast_e_zoo.Common.Dict.{lookup, insert}
use forecast_e_zoo.Common.Float.{Float64}
use forecast_e_zoo.Etl.Validation.{
  Value, Row, Dataset, Rule, violation, TextSet, has, is_missing, text_of, rows_of, as_string,
  value_set, absent_loop, business_key, lacks_reference, absent_message, unused_message,
  fk_exists_rule, Violation, add_used, add_unused, used_set, unused_loop,
  referential_integrity_rule,
}
use forecast_e_zoo.Etl.Validation.Duplicates.{has-insert}

has-add_used :
    (cell : Option Text) (v : Text) (s : TextSet)
    → has v (add_used cell s)
      ≡ ((if is_missing cell then false else text_eq (text_of cell) v) || has v s)
has-add_used none v s = ground arith
has-add_used (some []) v s = ground arith
has-add_used (some (c ∷ t)) v s = ground (arith, has-insert (c ∷ t) v s)

add_unused-cases :
    (cell : Option Text) (s : TextSet) (found : Text → Violation) (rest : List Violation)
    → add_unused cell s found rest ≡ (
        if is_missing cell
        then rest
        else if has (text_of cell) s
        then rest
        else found (text_of cell) ∷ rest)
add_unused-cases none s found rest = refl
add_unused-cases (some []) s found rest = refl
add_unused-cases (some (c ∷ t)) s found rest = refl

module _ (f : Float64) (sprint : Value f.Val → Text) (print_row : Row f.Val → Text) where
  -- Some row has this value in the column.
  pub occurs : Text → Text → List (Row f.Val) → Bool
  occurs col v [] = false
  occurs col v (row ∷ rows) =
      let rest = occurs col v rows in
      if is_missing (as_string f sprint print_row row col)
      then rest
      else if text_eq (text_of (as_string f sprint print_row row col)) v
      then true
      else rest

  -- The value of the row's column is there, and occurs in no row of the others.
  pub dangles : Text → Text → List (Row f.Val) → Row f.Val → Bool
  dangles col other others row =
      not (is_missing (as_string f sprint print_row row col))
      && not (occurs other (text_of (as_string f sprint print_row row col)) others)

  -- What a row with this reference is reported as, with its value in the message.
  abbrev pub absent : Rule → Row f.Val → Violation
  absent r row =
      violation r r.entity r.column (business_key f sprint print_row row)
        (absent_message r (text_of (as_string f sprint print_row row r.column)))

  abbrev pub unused : Rule → Row f.Val → Violation
  unused r row =
      violation r r.ref_entity r.ref_column (business_key f sprint print_row row)
        (unused_message r (text_of (as_string f sprint print_row row r.ref_column)))

  value_set-occurs :
      (col v : Text) (rows : List (Row f.Val)) (s : TextSet)
      → has v (value_set f sprint print_row col rows s) ≡ (occurs col v rows || has v s)
  unfolding value_set occurs
  value_set-occurs col v [] s = ground arith
  value_set-occurs col v (row ∷ rows) s =
      let cell = as_string f sprint print_row row col in
      ground (
        arith,
        value_set-occurs col v rows s,
        value_set-occurs col v rows (insert (text_of cell) tt s),
        has-insert (text_of cell) v s,
      )

  absent_loop-keep :
      (r : Rule) (others : List (Row f.Val)) (rows : List (Row f.Val))
      → absent_loop f sprint print_row r (value_set f sprint print_row r.ref_column others []) rows
        ≡ map (absent r) (keep (dangles r.column r.ref_column others) rows)
  unfolding absent_loop dangles lookup
  absent_loop-keep r others [] = refl
  absent_loop-keep r others (row ∷ rows) =
      let cell = as_string f sprint print_row row r.column in
      ground (
        arith,
        value_set-occurs r.ref_column (text_of cell) others [],
        absent_loop-keep r others rows,
      )

  -- With its parameters given, fk_exists reports, in their order, exactly the rows of its entity with a
  -- value in the column that no row of the other entity has in the referenced column, each by its key
  -- and with the value in the message.
  pub fk_exists_rule-dangles :
      (r : Rule) (ds : Dataset f.Val)
      → lacks_reference r ≡ false
      → fk_exists_rule f sprint print_row r ds
        ≡ map
            (absent r)
            (keep (dangles r.column r.ref_column (rows_of r.ref_entity ds)) (rows_of r.entity ds))
  unfolding fk_exists_rule
  fk_exists_rule-dangles r ds h =
      rw h (absent_loop-keep r (rows_of r.ref_entity ds) (rows_of r.entity ds))

  used_set-occurs :
      (r : Rule) (v : Text) (rows : List (Row f.Val)) (s : TextSet)
      → has v (used_set f sprint print_row r rows s) ≡ (occurs r.column v rows || has v s)
  unfolding used_set occurs
  used_set-occurs r v [] s = ground arith
  used_set-occurs r v (row ∷ rows) s =
      let cell = as_string f sprint print_row row r.column in
      ground (arith, used_set-occurs r v rows (add_used cell s), has-add_used cell v s)

  unused_loop-keep :
      (r : Rule) (children : List (Row f.Val)) (parents : List (Row f.Val))
      → unused_loop f sprint print_row r (used_set f sprint print_row r children []) parents
        ≡ map (unused r) (keep (dangles r.ref_column r.column children) parents)
  unfolding unused_loop dangles lookup
  unused_loop-keep r children [] = refl
  unused_loop-keep r children (row ∷ rows) =
      let cell = as_string f sprint print_row row r.ref_column in
      let used = used_set f sprint print_row r children [] in
      let found = λ (value : Text).
        violation r r.ref_entity r.ref_column (business_key f sprint print_row row)
          (unused_message r value) in
      let rest = unused_loop f sprint print_row r used rows in
      ground (
        arith,
        add_unused-cases cell used found rest,
        used_set-occurs r (text_of cell) children [],
        unused_loop-keep r children rows,
      )

  -- With its parameters given, referential_integrity reports, in their order, exactly the rows of the
  -- other entity with a value in the referenced column that no row of its entity has in the column,
  -- each by its key and with the value in the message.
  pub referential_integrity_rule-dangles :
      (r : Rule) (ds : Dataset f.Val)
      → lacks_reference r ≡ false
      → referential_integrity_rule f sprint print_row r ds
        ≡ map
            (unused r)
            (keep (dangles r.ref_column r.column (rows_of r.entity ds)) (rows_of r.ref_entity ds))
  unfolding referential_integrity_rule
  referential_integrity_rule-dangles r ds h =
      rw h (unused_loop-keep r (rows_of r.entity ds) (rows_of r.ref_entity ds))
