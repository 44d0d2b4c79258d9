-- ===== src/Prelude/Float.antt =====
-- Go's `float64` as its IEEE 754 bit pattern, with the tests that the program uses.
use Prim.Native.Nat.{ℕ, ◌+◌, ◌*◌, ◌%◌, ◌^◌}
use mathlib.Core.Path.{◌≡◌}
use mathlib.Core.Bool.{Bool, true, false, not, ◌&&◌, ◌||◌}
use native.Mathlib.Omega.{arith}
use terraform_provider_mongo.Prelude.Tests.{leb, ltb, nat_beq}

abbrev pub Float64 : Type 0
Float64 = ℕ

-- An exponent of all ones with a mantissa that is not 0.
unfoldable pub is_nan : Float64 → Bool
is_nan x = ltb (2047 * 2 ^ 52) (x % 2 ^ 63)

-- +0 or -0.
unfoldable pub is_zero : Float64 → Bool
is_zero x = nat_beq (x % 2 ^ 63) 0

-- `a == b`: a NaN equals nothing, and the two zeros are equal.
unfoldable pub float_beq : Float64 → Float64 → Bool
unfolding is_nan is_zero
float_beq a b = not (is_nan a) && not (is_nan b) && (nat_beq a b || is_zero a && is_zero b)

-- `a <= 0`.
unfoldable pub float_le_zero : Float64 → Bool
unfolding is_nan is_zero
float_le_zero a = not (is_nan a) && (is_zero a || leb (2 ^ 63) (a % 2 ^ 64))

abbrev pub zero_float : Float64
zero_float = 0

-- 1.0 and -1.0.
abbrev pub one_float : Float64
one_float = 1023 * 2 ^ 52

abbrev pub minus_one_float : Float64
minus_one_float = 2 ^ 63 + 1023 * 2 ^ 52

-- A number that is no NaN equals itself.
pub float_beq_refl : (a : Float64) → is_nan a ≡ false → float_beq a a ≡ true
unfolding float_beq
float_beq_refl a h = ground arith

pub float_beq_sym : (a b : Float64) → float_beq a b ≡ float_beq b a
unfolding float_beq
float_beq_sym a b = ground arith

-- -1.0 is equal to no number above 0.
pub float_beq-minus_one :
    (a : Float64) → float_le_zero a ≡ false → float_beq a minus_one_float ≡ false
unfolding float_le_zero float_beq
float_beq-minus_one a h = ground arith
