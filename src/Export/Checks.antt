-- ===== src/Export/Checks.antt =====
-- internal/features/data_export/validation (engine.go and builtin.go): the rules on the rows of a load,
-- their engine, and the keys that a load has seen. The clock, the regular expressions, time.Parse,
-- TrimSpace and the printing of a number are parameters; the texts of messages are left out.
pub mod Marks
pub mod Distinct
use forecast_e_zoo.Common.{
  ℕ, ◌+◌, Bool, true, false, ltb, ◌&&◌, ◌||◌, ◌++◌, Option, none, some, List, [], ◌∷◌,
  if◌then◌else◌,
}
use forecast_e_zoo.Common.Text.{Text, text_eq, codes}
use forecast_e_zoo.Common.Time.{Time}
use forecast_e_zoo.Common.Int.{ℤ, pos, leb_ℤ}
use forecast_e_zoo.Common.Dict.{Dict, lookup, insert}
use forecast_e_zoo.Common.Float.{Float64}
use forecast_e_zoo.Common.Session.{internal, Result, ok, err}

abbrev pub severity_critical : Text
severity_critical = codes "critical"

abbrev pub severity_soft : Text
severity_soft = codes "soft"

-- What a field of a row holds. The number types are two constructors.
pub data Value (V : Type 0) : Type 0 where
  null : Value V
  string : Text → Value V
  float : V → Value V
  integer : ℤ → Value V
  time : Time → Value V
  other : Value V

abbrev pub Payload : Type 0 → Type 0
Payload V = Dict (Value V)

pub record Rule (V : Type 0) : Type 0 where
  pub id : Text
  pub entity : Text
  pub check : Text
  pub field : Text
  pub fields : List Text
  pub pattern : Text
  pub min : Option V
  pub max : Option V
  pub severity : Text

pub record FileSchema (V : Type 0) : Type 0 where
  pub version : ℤ
  pub rules : List (Rule V)
  pub entity_optional : List Text

pub record Violation : Type 0 where
  pub rule_id : Text
  pub entity : Text
  pub field : Text
  pub severity : Text

-- seenPKs: for each entity the keys that were marked.
abbrev pub State : Type 0
State = Dict (Dict (Unit {0}))

-- What the checks use of the libraries; `future_limit` is 15 minutes after now.
pub record Outside (V : Type 0) : Type 0 where
  pub future_limit : Time
  pub parse_rfc3339 : Text → Option Time
  pub trim_space : Text → Text
  pub sprint : V → Text
  pub match_string : Text → Text → Option Bool  -- none for a pattern that does not compile

abbrev pub is_empty : Text → Bool
is_empty [] = true
is_empty (_ ∷ _) = false

abbrev pub is_some : {A : Type 0} → Option A → Bool
is_some none = false
is_some (some _) = true

abbrev pub seen_keys : Text → State → Dict (Unit {0})
seen_keys entity s = elim (lookup entity s) [ none ↦ [] | some set ↦ set ]

-- markPK: whether the key is new, and the state behind.
unfoldable pub mark_pk : Text → Text → State → Bool × State
mark_pk entity pk s =
    if is_some (lookup pk (seen_keys entity s))
    then (false, s)
    else (true, insert entity (insert pk tt (seen_keys entity s)) s)

abbrev pub CheckFunc : Type 0 → Type 0
CheckFunc V = Rule V → Payload V → State → Bool × State

-- The rules of an entity, which New puts together in their order.
unfoldable pub rules_for : {V : Type 0} → Text → List (Rule V) → List (Rule V)
rules_for entity [] = []
rules_for entity (r ∷ rs) =
    let rest = rules_for entity rs in if text_eq r.entity entity then r ∷ rest else rest

-- The checks of Load behind yaml.Unmarshal.
abbrev pub is_severity : Text → Bool
is_severity s = text_eq s severity_critical || text_eq s severity_soft

unfoldable pub check_schema : {V : Type 0} → List (Rule V) → Bool
check_schema [] = true
check_schema (r ∷ rs) =
    let rest = check_schema rs in
    if is_empty r.id || is_empty r.entity || is_empty r.check || is_empty r.severity
    then false
    else if is_severity r.severity
    then rest
    else false

-- New puts the rules of an entity together; the checks are always the default ones.
pub record Engine (V : Type 0) : Type 0 where
  pub rules : List (Rule V)
  pub entity_optional : List Text

abbrev pub is_version_one : ℤ → Bool
is_version_one v = leb_ℤ v (pos 1) && leb_ℤ (pos 1) v

unfoldable pub load : {V : Type 0} → FileSchema V → Result (Engine V)
unfolding check_schema
load sc =
    if is_version_one sc.version && check_schema sc.rules
    then ok (record { rules = sc.rules; entity_optional = sc.entity_optional })
    else err internal

-- hasCritical of the loader
unfoldable pub has_critical : List Violation → Bool
has_critical [] = false
has_critical (v ∷ vs) =
    let rest = has_critical vs in if text_eq v.severity severity_critical then true else rest

-- The rows of an entity that the loader's loop goes on to write, the number of the others, and the
-- state at the end.
pub record Accepted (V : Type 0) : Type 0 where
  pub kept : List (Payload V)
  pub lines_failed : ℕ
  pub state : State

module _ (f : Float64) (o : Outside f.Val) where
  open f use {Val, lit, of_int, lt}

  abbrev pub found : {A : Type 0} → Text → Option A → Option A
  found field v = if is_empty field then none else v

  abbrev pub number : Option (Value Val) → Option Val
  number none = none
  number (some null) = none
  number (some (string s)) = none
  number (some (float x)) = some x
  number (some (integer n)) = some (of_int n)
  number (some (time t)) = none
  number (some other) = none

  abbrev pub text : Option (Value Val) → Option Text
  text none = none
  text (some null) = none
  text (some (string s)) = some s
  text (some (float x)) = none
  text (some (integer n)) = none
  text (some (time t)) = none
  text (some other) = none

  unfoldable pub as_float : Payload Val → Text → Option Val
  as_float p field = found field (number (lookup field p))

  unfoldable pub as_string : Payload Val → Text → Option Text
  as_string p field = found field (text (lookup field p))

  abbrev pub field_or : Text → Rule Val → Text
  field_or default r = if is_empty r.field then default else r.field

  abbrev pub not_below_zero : Option Val → Bool
  not_below_zero none = true
  not_below_zero (some x) = if lt x (lit 0 0) then false else true

  unfoldable pub negative_qty : CheckFunc Val
  unfolding as_float
  negative_qty r p s = (not_below_zero (as_float p (field_or (codes "qty") r)), s)

  unfoldable pub negative_stock : CheckFunc Val
  unfolding as_float
  negative_stock r p s = (not_below_zero (as_float p (field_or (codes "qty_on_hand") r)), s)

  abbrev pub not_future : Option Time → Bool
  not_future none = false
  not_future (some t) = if ltb o.future_limit t then false else true

  abbrev pub valid_time : Option (Value Val) → Bool
  valid_time none = true
  valid_time (some null) = true
  valid_time (some (time t)) = not_future (some t)
  valid_time (some (string s)) = not_future (o.parse_rfc3339 s)
  valid_time (some (float x)) = false
  valid_time (some (integer n)) = false
  valid_time (some other) = false

  unfoldable pub future_event_time : CheckFunc Val
  future_event_time r p s = (valid_time (lookup (field_or (codes "event_time") r) p), s)

  -- pkValue: the text, or the printed number.
  abbrev pub printed : Option Val → Option Text
  printed none = none
  printed (some x) = some (o.sprint x)

  abbrev pub text_or_number : Option Text → Option Val → Option Text
  text_or_number (some s) n = some s
  text_or_number none n = printed n

  unfoldable pub pk_value : Rule Val → Payload Val → Option Text
  unfolding as_string as_float
  pk_value r p = text_or_number (as_string p r.field) (as_float p r.field)

  abbrev pub mark_value : Text → Option Text → State → Bool × State
  mark_value entity none s = (true, s)
  mark_value entity (some pk) s = mark_pk entity pk s

  -- With a state given, as the loader does.
  unfoldable pub duplicate_pk : CheckFunc Val
  unfolding pk_value mark_pk
  duplicate_pk r p s = if is_empty r.field then (true, s) else mark_value r.entity (pk_value r p) s

  abbrev pub is_missing : Option (Value Val) → Bool
  is_missing none = true
  is_missing (some null) = true
  is_missing (some (string s)) = is_empty (o.trim_space s)
  is_missing (some (float x)) = false
  is_missing (some (integer n)) = false
  is_missing (some (time t)) = false
  is_missing (some other) = false

  unfoldable pub has_fields : List Text → Payload Val → Bool
  has_fields [] p = true
  has_fields (k ∷ ks) p =
      let rest = has_fields ks p in if is_missing (lookup k p) then false else rest

  unfoldable pub missing_required : CheckFunc Val
  unfolding has_fields
  missing_required r p s = (has_fields r.fields p, s)

  abbrev pub above_min : Option Val → Val → Bool
  above_min none x = true
  above_min (some m) x = if lt x m then false else true

  abbrev pub below_max : Option Val → Val → Bool
  below_max none x = true
  below_max (some m) x = if lt m x then false else true

  abbrev pub in_range : Rule Val → Option Val → Bool
  in_range r none = true
  in_range r (some x) = if above_min r.min x then below_max r.max x else false

  unfoldable pub numeric_range : CheckFunc Val
  unfolding as_float
  numeric_range r p s = (in_range r (as_float p r.field), s)

  abbrev pub matched : Option Bool → Bool
  matched none = false
  matched (some b) = b

  abbrev pub matches : Rule Val → Option Text → Bool
  matches r none = true
  matches r (some t) = if is_empty r.pattern then true else matched (o.match_string r.pattern t)

  unfoldable pub regex_match : CheckFunc Val
  unfolding as_string
  regex_match r p s = (matches r (as_string p r.field), s)

  unfoldable pub default_checks : Dict (CheckFunc Val)
  default_checks =
      (codes "negative_qty", negative_qty)
      ∷ (codes "future_event_time", future_event_time)
      ∷ (codes "negative_stock", negative_stock)
      ∷ (codes "duplicate_pk", duplicate_pk)
      ∷ (codes "missing_required", missing_required)
      ∷ (codes "numeric_range", numeric_range)
      ∷ (codes "regex_match", regex_match)
      ∷ []

  abbrev pub violated : Text → Rule Val → Text → Violation
  violated entity r severity = record {
    rule_id = r.id;
    entity = entity;
    field = r.field;
    severity = severity;
  }

  -- One rule of Check: what it adds to the violations, and the state behind it.
  abbrev pub apply_check :
      Text → Option (CheckFunc Val) → Rule Val → Payload Val → State → List Violation × State
  apply_check entity none r p s = (violated entity r severity_critical ∷ [], s)
  apply_check entity (some fn) r p s =
      let (valid, s') = fn r p s in ((if valid then [] else violated entity r r.severity ∷ []), s')

  unfoldable pub check_rules : Text → List (Rule Val) → Payload Val → State → List Violation × State
  unfolding default_checks
  check_rules entity [] p s = ([], s)
  check_rules entity (r ∷ rs) p s =
      let (vs, s1) = apply_check entity (lookup r.check default_checks) r p s in
      let (rest, s2) = check_rules entity rs p s1 in (vs ++ rest, s2)

  -- Engine.Check
  unfoldable pub check : List (Rule Val) → Text → Payload Val → State → List Violation × State
  unfolding check_rules rules_for
  check rules entity p s = check_rules entity (rules_for entity rules) p s

  unfoldable pub accept : List (Rule Val) → Text → List (Payload Val) → State → Accepted Val
  unfolding check has_critical
  accept rules entity [] s = record { kept = []; lines_failed = 0; state = s }
  accept rules entity (p ∷ ps) s =
      let (vs, s1) = check rules entity p s in
      let rest = accept rules entity ps s1 in
      if has_critical vs
      then record rest { lines_failed = rest.lines_failed + 1 }
      else record rest { kept = p ∷ rest.kept }
