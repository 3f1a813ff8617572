-- ===== src/Examples/Doubles.antt =====
-- The thousandths keep what is relied on of doubles: they are exact, and cut off keeps the order.
use Prim.Native.Nat.{◌/◌}
use native.Mathlib.Nat.{mul-le-mul_right, mul-le-mul_left}
use smart_dialer.Base.{ℕ, ◌*◌, ◌≤◌, ◌≡◌, false, ltb, refl, arith}
use smart_dialer.Settings.Doubles.{Within, IsDouble}
use smart_dialer.Examples.Environment.{thousandths}

at_most : (a b : ℕ) → ltb a b ≡ false → b ≤ a
at_most a b h = ground arith

not_above : (a b : ℕ) → b ≤ a → ltb a b ≡ false
not_above a b h = ground arith

product_le : (n m x y : ℕ) → x ≤ n * 1000 → y ≤ m * 1000 → x * y / 1000 ≤ n * m * 1000
product_le n m x y p q =
    let left : x * y ≤ n * 1000 * y = mul-le-mul_right y p in
    let right : n * 1000 * y ≤ n * 1000 * (m * 1000) = mul-le-mul_left (n * 1000) q in
    let flat : n * 1000 * (m * 1000) ≡ n * m * 1000 * 1000 = omega arith in
    omega (arith, left, right, flat)

product-Within :
    (n m x y : ℕ)
    → Within thousandths n x
    → Within thousandths m y
    → Within thousandths (n * m) (thousandths.mul x y)
product-Within n m x y p q = record {
  not_greater =
      not_above _ _ (product_le n m x y (at_most _ _ p.not_greater) (at_most _ _ q.not_greater));
  not_negative = not_above _ _ (omega arith);
}

pub thousandths-IsDouble : IsDouble thousandths
thousandths-IsDouble = record {
  exact = λ n small. record { not_greater = ground arith; not_negative = ground arith };
  mul_within = λ n m x y n_small m_small small p q. product-Within n m x y p q;
  floor_within = λ n x small p finite.
      let bound : x ≤ n * 1000 = at_most _ _ p.not_greater in omega (arith, bound);
  mul_zero = λ n small. omega arith;
  add_zero = λ n small. omega arith;
  div_one = λ n small. omega arith;
  one_not_zero = refl;
  sub_exact = λ n m small h. omega (arith, h);
  sub_negative = λ n m small h. ground arith;
}
