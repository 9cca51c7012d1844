-- ===== src/Forecast/Constructor/Groups.antt =====
-- The map of groups that `BuildPlans` makes of the calculation lines, against a plain selection of
-- the orderable lines of a key.
use mathlib.Core.Path.{◌≡◌, refl, ◌∙◌, ap}
use mathlib.Core.List.{Memᴰ}
use forecast_e_zoo.Common.{
  ◌+◌, ◌<◌, true, Option, none, some, List, [], ◌∷◌, inl, inr, arith, if◌then◌else◌, Bool-cases,
  Option-cases, length,
}
use forecast_e_zoo.Common.Text.{Text, text_eq_iff, text_eq_refl}
use forecast_e_zoo.Common.Float.{Float64}
use forecast_e_zoo.Common.Sorting.{Related, All-elem}
use forecast_e_zoo.Forecast.Models.{CalculationLine}
use forecast_e_zoo.Forecast.Constructor.{
  Aggregator, same_key, bump, eligible_supplier, add_to_group, group_line, group_lines,
}
use forecast_e_zoo.Forecast.Constructor.Order.{Apart, Apart-symm, group_lines-Apart}

module _ (f : Float64) where
  open f use {Val, lit, add, lt}

  -- The quantities of the orderable lines of one supplier and location, in their order.
  unfoldable pub ordered : Text → Text → List (CalculationLine Val) → List Val
  ordered s l [] = []
  ordered s l (ln ∷ lns) = elim (eligible_supplier f ln) [
    | none ↦ ordered s l lns
    | some s' ↦
        if same_key s' ln.location_id s l then ln.reorder_qty ∷ ordered s l lns else ordered s l lns
  ]

  -- The sum of a list in its order, from a first value.
  pub total_from : Val → List Val → Val
  total_from t [] = t
  total_from t (q ∷ qs) = total_from (add t q) qs

  find : Text → Text → List (Aggregator Val) → Option (Aggregator Val)
  find s l [] = none
  find s l (g ∷ gs) = if same_key s l g.supplier g.location then some g else find s l gs

  abbrev fresh : Text → Text → Aggregator Val
  fresh s l = record { supplier = s; location = l; total_qty = lit 0 0; lines_count = 0 }

  abbrev bump_found : Text → Text → Val → Option (Aggregator Val) → Option (Aggregator Val)
  bump_found s l q none = some (bump f q (fresh s l))
  bump_found s l q (some g) = some (bump f q g)

  find-add_to_group :
      (s l s' l' : Text) (q : Val) (gs : List (Aggregator Val))
      → find s l (add_to_group f s' l' q gs)
        ≡ (if same_key s' l' s l then bump_found s' l' q (find s l gs) else find s l gs)
  unfolding find add_to_group
  find-add_to_group s l s' l' q [] =
      ground (arith, text_eq_iff s s', text_eq_iff s' s, text_eq_iff l l', text_eq_iff l' l)
  find-add_to_group s l s' l' q (g ∷ gs) = ground (
    arith,
    find-add_to_group s l s' l' q gs,
    text_eq_iff s s',
    text_eq_iff s' s,
    text_eq_iff l l',
    text_eq_iff l' l,
    text_eq_iff s g.supplier,
    text_eq_iff s' g.supplier,
    text_eq_iff l g.location,
    text_eq_iff l' g.location,
  )

  -- What the lines with these quantities make of the group of their key.
  tally : Text → Text → List Val → Option (Aggregator Val) → Option (Aggregator Val)
  tally s l [] o = o
  tally s l (q ∷ qs) o = tally s l qs (bump_found s l q o)

  find-group_line :
      (s l : Text) (ln : CalculationLine Val) (gs : List (Aggregator Val))
      (lns : List (CalculationLine Val))
      → tally s l (ordered s l lns) (find s l (group_line f ln gs))
        ≡ tally s l (ordered s l (ln ∷ lns)) (find s l gs)
  unfolding ordered group_line tally
  find-group_line s l ln gs lns = elim (Option-cases (eligible_supplier f ln)) [
    | inl e ↦ rw (e, group_line, ordered)
    | inr (s', e) ↦
        rw (e, group_line, ordered)
          (rw (find-add_to_group s l s' ln.location_id ln.reorder_qty gs)
            (ground (arith, text_eq_iff s' s, text_eq_iff ln.location_id l)))
  ]

  find-group_lines :
      (s l : Text) (lns : List (CalculationLine Val)) (gs : List (Aggregator Val))
      → find s l (group_lines f lns gs) ≡ tally s l (ordered s l lns) (find s l gs)
  unfolding group_lines
  find-group_lines s l [] gs = unfold ordered tally in refl
  find-group_lines s l (ln ∷ lns) gs =
      find-group_lines s l lns (group_line f ln gs) ∙ find-group_line s l ln gs lns

  tally-some :
      (s l : Text) (qs : List Val) (g : Aggregator Val)
      → tally s l qs (some g)
        ≡ some (record g {
          total_qty = total_from g.total_qty qs;
          lines_count = g.lines_count + length qs;
        })
  unfolding tally total_from
  tally-some s l [] g = ground arith
  tally-some s l (q ∷ qs) g = ground (arith, tally-some s l qs (bump f q g))

  -- The group that holds the given quantities.
  abbrev pub group_of : Text → Text → List Val → Aggregator Val
  group_of s l qs = record {
    supplier = s;
    location = l;
    total_qty = total_from (lit 0 0) qs;
    lines_count = length qs;
  }

  find_group :
      (s l : Text) (lns : List (CalculationLine Val)) {q : Val} {qs : List Val}
      → ordered s l lns ≡ q ∷ qs
      → find s l (group_lines f lns []) ≡ some (group_of s l (q ∷ qs))
  unfolding find tally total_from
  find_group s l lns {q} {qs} e =
      find-group_lines s l lns []
      ∙ ap (λ xs. tally s l xs none) e
      ∙ ground (arith, tally-some s l qs (bump f q (fresh s l)))

  find_no_group :
      (s l : Text) (lns : List (CalculationLine Val))
      → ordered s l lns ≡ []
      → find s l (group_lines f lns []) ≡ none
  unfolding find tally
  find_no_group s l lns e = find-group_lines s l lns [] ∙ ap (λ xs. tally s l xs none) e

  find-elem :
      (s l : Text) (gs : List (Aggregator Val)) {g : Aggregator Val}
      → find s l gs ≡ some g
      → Memᴰ g gs
  unfolding find
  find-elem s l [] h = cc
  find-elem s l (x ∷ xs) {g} h = elim (Bool-cases (same_key s l x.supplier x.location)) [
    | inl e ↦ Memᴰ.head (ground arith)
    | inr e ↦ Memᴰ.tail (find-elem s l xs (ground arith))
  ]

  same_key_self : (s l : Text) → same_key s l s l ≡ true
  same_key_self s l = ground (arith, text_eq_refl s, text_eq_refl l)

  elem-find :
      (gs : List (Aggregator Val)) {g : Aggregator Val}
      → Related Apart gs
      → Memᴰ g gs
      → find g.supplier g.location gs ≡ some g
  unfolding find
  elem-find [] h m = elim m [ ]
  elem-find (x ∷ xs) {g} h (Memᴰ.head e) = rw e (rw (same_key_self x.supplier x.location) refl)
  elem-find (x ∷ xs) {g} h (Memᴰ.tail m) =
      let apart : Apart g x = Apart-symm x g (All-elem (Apart x) xs h.0 m) in
      rw apart (elem-find xs h.1 m)

  -- A group of the map holds exactly the orderable lines of its key.
  pub group_lines-holds :
      (lns : List (CalculationLine Val)) {g : Aggregator Val}
      → Memᴰ g (group_lines f lns [])
      → (0 < length (ordered g.supplier g.location lns))
        × (g ≡ group_of g.supplier g.location (ordered g.supplier g.location lns))
  group_lines-holds lns {g} m = go (ordered g.supplier g.location lns) refl
    where
      found : find g.supplier g.location (group_lines f lns []) ≡ some g
      found = elem-find (group_lines f lns []) (group_lines-Apart f lns [] tt) m

      go :
          (qs : List Val)
          → ordered g.supplier g.location lns ≡ qs
          → (0 < length qs) × (g ≡ group_of g.supplier g.location qs)
      go [] e = cc (found, find_no_group g.supplier g.location lns e)
      go (q ∷ qs) e = (omega arith, cc (found, find_group g.supplier g.location lns e))

  -- Every key with an orderable line has its group.
  pub group_lines-complete :
      (s l : Text) (lns : List (CalculationLine Val))
      → 0 < length (ordered s l lns)
      → Memᴰ (group_of s l (ordered s l lns)) (group_lines f lns [])
  group_lines-complete s l lns h = go (ordered s l lns) refl h
    where
      go :
          (qs : List Val)
          → ordered s l lns ≡ qs
          → 0 < length qs
          → Memᴰ (group_of s l qs) (group_lines f lns [])
      go [] e k = elim k [ ]
      go (q ∷ qs) e k = find-elem s l (group_lines f lns []) (find_group s l lns e)
