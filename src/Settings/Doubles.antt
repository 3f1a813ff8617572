-- ===== src/Settings/Doubles.antt =====
-- What is relied on of Python's floats, which are IEEE 754 doubles: an integer below 2^53 is
-- exact, and rounding keeps the order. The numbers are converted from integers, so none is negative.
use smart_dialer.Base.{ℕ, ◌-◌, ◌*◌, ◌^◌, ◌≤◌, ◌<◌, ◌≡◌, true, false}
use smart_dialer.Settings.{Floats}

-- From 0 to n; NaN, which is neither less nor greater than any number, is not excluded.
pub record Within {F : Type 0} (floats : Floats F) (n : ℕ) (x : F) : Type 0 where
  pub not_greater : floats.lt (floats.of_ℕ n) x ≡ false
  pub not_negative : floats.lt x (floats.of_ℕ 0) ≡ false

-- Every law is on integers below 2^53, which a double holds exactly.
pub record IsDouble {F : Type 0} (floats : Floats F) : Type 0 where
  pub exact : (n : ℕ) → n < 2 ^ 53 → Within floats n (floats.of_ℕ n)
  pub mul_within :
      (n m : ℕ) (x y : F)
      → n < 2 ^ 53
      → m < 2 ^ 53
      → n * m < 2 ^ 53
      → Within floats n x
      → Within floats m y
      → Within floats (n * m) (floats.mul x y)
  pub floor_within :
      (n : ℕ) (x : F)
      → n < 2 ^ 53
      → Within floats n x
      → floats.is_finite x ≡ true
      → floats.floor x ≤ n
  pub mul_zero : (n : ℕ) → n < 2 ^ 53 → floats.mul (floats.of_ℕ n) (floats.of_ℕ 0) ≡ floats.of_ℕ 0
  pub add_zero : (n : ℕ) → n < 2 ^ 53 → floats.add (floats.of_ℕ n) (floats.of_ℕ 0) ≡ floats.of_ℕ n
  pub div_one : (n : ℕ) → n < 2 ^ 53 → floats.div (floats.of_ℕ n) (floats.of_ℕ 1) ≡ floats.of_ℕ n
  pub one_not_zero : floats.eq (floats.of_ℕ 1) (floats.of_ℕ 0) ≡ false
  pub sub_exact :
      (n m : ℕ)
      → n < 2 ^ 53
      → m ≤ n
      → floats.sub (floats.of_ℕ n) (floats.of_ℕ m) ≡ floats.of_ℕ (n - m)
  pub sub_negative :
      (n m : ℕ)
      → m < 2 ^ 53
      → n < m
      → floats.lt (floats.of_ℕ 0) (floats.sub (floats.of_ℕ n) (floats.of_ℕ m)) ≡ false
