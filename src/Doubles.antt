-- ===== src/Doubles.antt =====
-- The C type `double` with the operations that the map and the vehicle code use, as an interface: the
-- rounding of the arithmetic and `sin` and `cos` of <math.h> are not fixed here.
use green_right_topst_linux.Base.{ℕ, Bool}

pub record Doubles : Type 1 where
  pub Double : Type 0
  -- `decimal m e` is the literal m · 10⁻ᵉ; a conversion from an unsigned integer n is `decimal n 0`.
  pub decimal : ℕ → ℕ → Double
  pub add : Double → Double → Double
  pub sub : Double → Double → Double
  pub mul : Double → Double → Double
  pub div : Double → Double → Double
  pub neg : Double → Double
  pub less : Double → Double → Bool
  pub sin : Double → Double
  pub cos : Double → Double
  -- The cast to `uint16_t`.
  pub to_u16 : Double → ℕ
  -- The cast to `unsigned long long`, of a number that it can hold.
  pub to_u64 : Double → ℕ
