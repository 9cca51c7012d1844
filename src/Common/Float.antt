-- ===== src/Common/Float.antt =====
-- Go's `float64`, whose arithmetic the services use and do not implement. `Float64` is the type
-- with the operations that the source calls; `IsOrdered` collects the facts of IEEE 754 that the
-- proofs rely on. They hold of every value, infinities and NaN included: a comparison with NaN is
-- false, so facts about `<` say that it does not hold.
use Prim.Native.Nat.{ℕ, ◌≤◌, ◌<◌}
use mathlib.Core.Path.{◌≡◌}
use mathlib.Core.Bool.{Bool, true, false}
use forecast_e_zoo.Common.Int.{ℤ, pos, ◌≤ℤ◌}

pub record Float64 : Type 1 where
  pub Val : Type 0
  pub lit : ℕ → ℕ → Val  -- lit m k is the literal m / 1000 ^ k
  pub of_int : ℤ → Val  -- float64(n)
  pub to_int : Val → ℤ  -- int(x)
  pub add : Val → Val → Val
  pub sub : Val → Val → Val
  pub mul : Val → Val → Val
  pub div : Val → Val → Val
  pub sqrt : Val → Val
  pub ceil : Val → Val
  pub abs : Val → Val  -- math.Abs
  pub lt : Val → Val → Bool
  pub le : Val → Val → Bool
  pub eq : Val → Val → Bool
  pub is_nan : Val → Bool
  pub is_inf : Val → Bool

pub record IsOrdered (f : Float64) : Type 0 where
  pub lt_irrefl : (x : f.Val) → f.lt x x ≡ false
  pub lt_asym : (x y : f.Val) → f.lt x y ≡ true → f.lt y x ≡ false
  pub le_not_lt : (x y : f.Val) → f.le x y ≡ true → f.lt y x ≡ false
  pub lt_le : (x y : f.Val) → f.lt x y ≡ true → f.le x y ≡ true
  pub zero_lt_one : f.lt (f.lit 0 0) (f.lit 1 0) ≡ true
  -- a positive literal, of at most three decimals, is above zero
  pub lit_pos : (m k : ℕ) → 0 < m → k ≤ 1 → f.le (f.lit m k) (f.lit 0 0) ≡ false
  -- x - y is not above x where y is not below zero
  pub sub_bound : (x y : f.Val) → f.lt y (f.lit 0 0) ≡ false → f.lt x (f.sub x y) ≡ false
  -- 1 - z is not below zero where z is not above one
  pub one_sub_nonneg :
      (z : f.Val) → f.lt (f.lit 1 0) z ≡ false → f.lt (f.sub (f.lit 1 0) z) (f.lit 0 0) ≡ false
  pub ratio_nonneg :
      (a b : ℕ) → f.lt (f.div (f.of_int (pos a)) (f.of_int (pos b))) (f.lit 0 0) ≡ false
  pub ratio_le_one :
      (a : ℤ) (b : ℕ)
      → a ≤ℤ pos b
      → f.lt (f.lit 1 0) (f.div (f.of_int a) (f.of_int (pos b))) ≡ false
  -- 0 / n is 0
  pub zero_ratio : (n : ℕ) → 0 < n → f.div (f.of_int (pos 0)) (f.of_int (pos n)) ≡ f.lit 0 0
  pub zero_finite : (f.is_nan (f.lit 0 0) ≡ false) × (f.is_inf (f.lit 0 0) ≡ false)
