-- ===== src/Grader/Runtime.antt =====
-- What the grader uses of Go's floating point and of package fmt. A comparison of float64 values reads
-- the bit patterns, as IEEE 754 has it; multiplication, conversion and printing are parameters.
use storage_cert_harness.Common.{
  ℕ, ◌+◌, ◌-◌, ◌%◌, String, Bool, ◌&&◌, not, ltb, leb, eqb, if◌then◌else◌,
}
use storage_cert_harness.Core.{Float64, AnyValue}

pub record Runtime : Type 0 where
  -- `a * b`
  pub mul : Float64 → Float64 → Float64
  -- `float64(n)` of a signed integer, and of a float32
  pub of_int : Bool → ℕ → Float64
  pub widen : Float64 → Float64
  -- `%g`, `%q`, `%d` and `fmt.Sprint`
  pub format_g : Float64 → String
  pub quote : String → String
  pub format_d : ℕ → String
  pub sprint : AnyValue → String

-- The value without its sign, as an integer in the order of the magnitudes.
abbrev magnitude : Float64 → ℕ
magnitude x = x.bits % 9223372036854775808

unfoldable pub is_nan : Float64 → Bool
is_nan x = ltb 9218868437227405312 (magnitude x)

-- A number in the order of the values; the two zeros have the same.
pub rank : Float64 → ℕ
rank x =
    if ltb x.bits 9223372036854775808
    then 9223372036854775808 + magnitude x
    else 9223372036854775808 - magnitude x

-- `a < b`, `a <= b` and `a == b`: false where one is not a number.
unfoldable pub float_lt : Float64 → Float64 → Bool
unfolding is_nan rank
float_lt a b = not (is_nan a) && (not (is_nan b) && ltb (rank a) (rank b))

unfoldable pub float_le : Float64 → Float64 → Bool
unfolding is_nan rank
float_le a b = not (is_nan a) && (not (is_nan b) && leb (rank a) (rank b))

unfoldable pub float_eq : Float64 → Float64 → Bool
unfolding is_nan rank
float_eq a b = not (is_nan a) && (not (is_nan b) && eqb (rank a) (rank b))
