-- ===== src/Examples/Fixed.antt =====
-- Numbers in thousandths, as an instance of the floats that the services compute with. It shows that
-- the facts assumed of `float64` can hold together, and lets the models run.
use native.Mathlib.Nat.{div-le_of_le-mul}
use forecast_e_zoo.Common.{◌&&◌, ℕ, zero, suc, ◌+◌, ◌≤◌, ◌<◌, ◌*◌, ◌/◌, ◌≡◌, refl, false, arith}
use forecast_e_zoo.Common.Int.{
  ℤ, pos, pos_part, neg_part, negsuc, ◌+ℤ◌, ◌-ℤ◌, ◌*ℤ◌, ◌≤ℤ◌, quot_ℤ, ltb_ℤ, leb_ℤ,
}
use forecast_e_zoo.Common.Float.{Float64, IsOrdered}

-- A thousandfold.
abbrev scaled : ℤ → ℤ
scaled (pos n) = pos (n * 1000)
scaled (negsuc n) = negsuc (n * 1000 + 999)

abbrev pub thousandths : Float64
thousandths = record {
  Val = ℤ;
  lit = λ m k. elim k [ zero ↦ pos (m * 1000) | suc j ↦ pos m ];
  of_int = scaled;
  to_int = λ a. quot_ℤ a (pos 1000);
  add = ◌+ℤ◌;
  sub = ◌-ℤ◌;
  mul = λ a b. quot_ℤ (a *ℤ b) (pos 1000);
  div = λ a b. quot_ℤ (scaled a) b;
  sqrt = λ a. a;  -- any function serves: nothing is assumed of it
  ceil = λ a. quot_ℤ (a +ℤ pos 999) (pos 1000) *ℤ pos 1000;  -- right above zero
  abs = λ a. pos (pos_part a + neg_part a);
  lt = ltb_ℤ;
  le = leb_ℤ;
  eq = λ a b. leb_ℤ a b && leb_ℤ b a;
  is_nan = λ a. false;
  is_inf = λ a. false;
}

ratio_nonneg :
    (a b : ℕ)
    → thousandths.lt
        (thousandths.div (thousandths.of_int (pos a)) (thousandths.of_int (pos b)))
        (pos 0)
      ≡ false
unfolding quot_ℤ
ratio_nonneg a b = ground arith

quotient_bound : (a b : ℕ) → a ≤ b → a * 1000 * 1000 / (b * 1000) ≤ 1000
quotient_bound a b h = div-le_of_le-mul (b * 1000) (omega arith)

ratio_le_one :
    (a : ℤ) (b : ℕ)
    → a ≤ℤ pos b
    → thousandths.lt
        (pos 1000)
        (thousandths.div (thousandths.of_int a) (thousandths.of_int (pos b)))
      ≡ false
unfolding quot_ℤ
ratio_le_one (pos a) b h = ground (arith, quotient_bound a b)
ratio_le_one (negsuc a) b h = ground arith

lit_pos : (m k : ℕ) → 0 < m → k ≤ 1 → thousandths.le (thousandths.lit m k) (pos 0) ≡ false
lit_pos m zero h k = ground arith
lit_pos m (suc j) h k = ground arith

zero_ratio :
    (n : ℕ)
    → 0 < n
    → thousandths.div (thousandths.of_int (pos 0)) (thousandths.of_int (pos n)) ≡ pos 0
unfolding quot_ℤ
zero_ratio n h = ground arith

pub thousandths-IsOrdered : IsOrdered thousandths
unfolding ◌-ℤ◌
thousandths-IsOrdered = record {
  lt_irrefl = λ x. ground arith;
  lt_asym = λ x y h. ground arith;
  le_not_lt = λ x y h. ground arith;
  lt_le = λ x y h. ground arith;
  lit_pos = lit_pos;
  zero_lt_one = refl;
  sub_bound = λ x y h. ground arith;
  one_sub_nonneg = λ z h. ground arith;
  ratio_nonneg = ratio_nonneg;
  ratio_le_one = ratio_le_one;
  zero_ratio = zero_ratio;
  zero_finite = (refl, refl);
}
