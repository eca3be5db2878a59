-- ===== src/Go/Float64.antt =====
-- `float64` by its bit pattern: the comparisons and the tests for NaN are computed from it. Sums,
-- quotients and conversions are the processor's, and are parameters of the model (World.antt).
use nostradamus_api.Prelude.{ℕ, ◌+◌, ◌-◌, ◌*◌, ◌%◌, ◌^◌, Bool, ◌&&◌, not, ltb, if◌then◌else◌}

pub record Float64 : Type 0 where
  pub bits : ℕ

-- The exponent and the mantissa: the pattern without its sign.
abbrev pub magnitude : Float64 → ℕ
magnitude x = x.bits % 2 ^ 63

abbrev pub is_negative : Float64 → Bool
is_negative x = ltb (2 ^ 63 - 1) (x.bits % 2 ^ 64)

abbrev pub infinity : ℕ
infinity = 2047 * 2 ^ 52

unfoldable pub is_nan : Float64 → Bool
is_nan x = ltb infinity (magnitude x)

unfoldable pub is_finite : Float64 → Bool
is_finite x = ltb (magnitude x) infinity

-- The order of the numbers that are not NaN, as an order of natural numbers. Both zeros have one key.
unfoldable pub order_key : Float64 → ℕ
order_key x = if is_negative x then 2 ^ 63 - magnitude x else 2 ^ 63 + magnitude x

-- `a < b`: false where either is NaN.
unfoldable pub less : Float64 → Float64 → Bool
less a b = not (is_nan a) && not (is_nan b) && ltb (order_key a) (order_key b)
