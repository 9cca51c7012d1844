-- ===== src/Kpi/Calculators/Bounds.antt =====
-- The ranges that the indicator values stay in, and that no row is ever counted as an error.
use forecast_e_zoo.Common.{
  ℕ, suc, ◌≡◌, refl, ap, false, List, [], ◌∷◌, arith, if◌then◌else◌, All, length, Bool-cases, inl,
  inr,
}
use forecast_e_zoo.Common.Text.{Text}
use forecast_e_zoo.Common.Int.{ℤ, pos, negsuc, ◌≤ℤ◌, ltb_ℤ, leb_ℤ}
use forecast_e_zoo.Common.Float.{Float64, IsOrdered}
use forecast_e_zoo.Kpi.Calculators.{
  DemandHistoryAgg, CalcInputRow, SupplierScorecardRow, OsaParams, OtifParams, StockDaysParams,
  parse_osa_params, osa_value, compute_osa, bad_lines, otif_value, compute_otif, stock_days_value,
  compute_stock_days, parse_stock_days_params,
}

capped-le : (n b : ℤ) → (if ltb_ℤ n b then n else b) ≤ℤ n
capped-le n b = ground arith

bad_lines-le :
    (f : Float64) (r : SupplierScorecardRow f.Val) (params : OtifParams f.Val)
    → bad_lines f r params ≤ℤ r.lines_delivered
unfolding bad_lines
bad_lines-le f r params = capped-le r.lines_delivered _

module _ (f : Float64) (ordered : IsOrdered f) where
  open f use {Val, lit, lt, le}

  -- The value is a share: neither below zero nor above one.
  abbrev pub IsShare : Val → Type 0
  IsShare v = (lt v (lit 0 0) ≡ false) × (lt (lit 1 0) v ≡ false)

  zero-IsShare : IsShare (lit 0 0)
  zero-IsShare =
      (ordered.lt_irrefl (lit 0 0), ordered.lt_asym (lit 0 0) (lit 1 0) ordered.zero_lt_one)

  osa_value-IsShare :
      (r : DemandHistoryAgg) (a b : ℕ)
      → r.days_oos ≡ pos a
      → r.days_observed ≡ pos b
      → IsShare (osa_value f r)
  unfolding osa_value
  osa_value-IsShare r a b ea eb = ground (
    arith,
    zero-IsShare,
    ordered.ratio_nonneg a b,
    ordered.sub_bound (lit 1 0) (f.div (f.of_int (pos a)) (f.of_int (pos b))),
  )

  good_share :
      (bad all : ℤ) (n : ℕ)
      → all ≡ pos n
      → bad ≤ℤ all
      → lt (f.sub (lit 1 0) (f.div (f.of_int bad) (f.of_int all))) (lit 0 0) ≡ false
  good_share bad (pos k) n e h =
      ordered.one_sub_nonneg (f.div (f.of_int bad) (f.of_int (pos k)))
        (ordered.ratio_le_one bad k h)
  good_share bad (negsuc k) n e h = cc

  -- At most the delivered lines count as bad, so the share of the good ones is not below zero.
  otif_value_nonneg :
      (r : SupplierScorecardRow Val) (params : OtifParams Val) (n : ℕ)
      → r.lines_delivered ≡ pos n
      → lt (otif_value f r params) (lit 0 0) ≡ false
  unfolding otif_value
  otif_value_nonneg r params n e =
      good_share (bad_lines f r params) r.lines_delivered n e (bad_lines-le f r params)

  positive : (n : ℤ) → leb_ℤ n (pos 0) ≡ false → (k : ℕ) × (n ≡ pos k)
  positive (pos k) h = (k, refl)
  positive (negsuc k) h = absurd (ground arith)

  -- With the cap on bad lines the error branch of `ComputeOTIF` is never taken.
  pub compute_otif_no_errors :
      (rows : List (SupplierScorecardRow Val)) (params : OtifParams Val)
      → (compute_otif f rows params).1 ≡ 0
  unfolding compute_otif
  compute_otif_no_errors [] params = refl
  compute_otif_no_errors (r ∷ rows) params = elim (Bool-cases (leb_ℤ r.lines_delivered (pos 0))) [
    | inl e ↦ rw e (compute_otif_no_errors rows params)
    | inr e ↦
        let (n, k) = positive r.lines_delivered e in
        rw e (rw (otif_value_nonneg r params n k) (compute_otif_no_errors rows params))
  ]

  -- The value lies between zero and the cap on days, where the cap is a positive number.
  stock_days_value-range :
      (r : CalcInputRow Val) (params : StockDaysParams Val)
      → le params.cap_days (lit 0 0) ≡ false
      → (lt (stock_days_value f r params) (lit 0 0) ≡ false)
        × (lt params.cap_days (stock_days_value f r params) ≡ false)
  unfolding stock_days_value
  stock_days_value-range r params h = ground (
    arith,
    ordered.lt_irrefl (lit 0 0),
    ordered.lt_irrefl params.cap_days,
    ordered.lt_le params.cap_days (lit 0 0),
  )

  cap_days_pos :
      (unmarshal : Text → StockDaysParams Val → StockDaysParams Val) (raw : Text)
      → le (parse_stock_days_params f unmarshal raw).cap_days (lit 0 0) ≡ false
  unfolding parse_stock_days_params
  cap_days_pos unmarshal [] = ordered.lit_pos 365 0 (omega arith) (omega arith)
  cap_days_pos unmarshal (b ∷ raw) =
      ground (arith, ordered.lit_pos 365 0 (omega arith) (omega arith))

  in_range :
      (rows : List (CalcInputRow Val)) (params : StockDaysParams Val)
      → le params.cap_days (lit 0 0) ≡ false
      → let (out, errs) = compute_stock_days f rows params in
        All (λ s. (lt s.value (lit 0 0) ≡ false) × (lt params.cap_days s.value ≡ false)) out
        × (length out ≡ length rows)
        × (errs ≡ 0)
  unfolding compute_stock_days
  in_range [] params h = (tt, refl, refl)
  in_range (r ∷ rows) params h =
      let (all, len, errs) = in_range rows params h in
      ((stock_days_value-range r params h, all), ap suc len, errs)

  -- For every raw parameter text, decoded in any way, there is one number of stock days for each
  -- row, it lies between zero and the cap in force, and no row is counted as an error.
  pub compute_stock_days-range :
      (unmarshal : Text → StockDaysParams Val → StockDaysParams Val) (raw : Text)
      (rows : List (CalcInputRow Val))
      → let params = parse_stock_days_params f unmarshal raw in
        let (out, errs) = compute_stock_days f rows params in
        All (λ s. (lt s.value (lit 0 0) ≡ false) × (lt params.cap_days s.value ≡ false)) out
        × (length out ≡ length rows)
        × (errs ≡ 0)
  compute_stock_days-range unmarshal raw rows =
      in_range rows (parse_stock_days_params f unmarshal raw) (cap_days_pos unmarshal raw)

  min_observations_pos :
      (unmarshal : Text → OsaParams → OsaParams) (raw : Text)
      → pos 1 ≤ℤ (parse_osa_params unmarshal raw).min_observations
  unfolding parse_osa_params
  min_observations_pos unmarshal [] = omega arith
  min_observations_pos unmarshal (b ∷ raw) = ground arith

  osa_shares :
      (rows : List DemandHistoryAgg) (params : OsaParams)
      → pos 1 ≤ℤ params.min_observations
      → All (λ r. pos 0 ≤ℤ r.days_oos) rows
      → All (λ s. IsShare s.value) (compute_osa f rows params).0
  unfolding compute_osa
  osa_shares [] params h k = tt
  osa_shares (r ∷ rows) params h k =
      elim (Bool-cases (ltb_ℤ r.days_observed params.min_observations)) [
        | inl e ↦ rw e (osa_shares rows params h k.1)
        | inr e ↦ rw e (share e, osa_shares rows params h k.1)
      ]
    where
      natural : (n : ℤ) → pos 0 ≤ℤ n → (a : ℕ) × (n ≡ pos a)
      natural (pos a) p = (a, refl)
      natural (negsuc a) p = absurd (omega arith)

      share : ltb_ℤ r.days_observed params.min_observations ≡ false → IsShare (osa_value f r)
      share e =
          let (a, ea) = natural r.days_oos k.0 in
          let (b, eb) = natural r.days_observed (ground arith) in osa_value-IsShare r a b ea eb

  -- For every raw parameter text, decoded in any way, every on-shelf availability lies between zero
  -- and one, if no row counts a negative number of days out of stock.
  pub compute_osa-IsShare :
      (unmarshal : Text → OsaParams → OsaParams) (raw : Text) (rows : List DemandHistoryAgg)
      → All (λ r. pos 0 ≤ℤ r.days_oos) rows
      → All (λ s. IsShare s.value) (compute_osa f rows (parse_osa_params unmarshal raw)).0
  compute_osa-IsShare unmarshal raw rows h =
      osa_shares rows (parse_osa_params unmarshal raw) (min_observations_pos unmarshal raw) h
