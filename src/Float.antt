-- ===== src/Float.antt =====
-- Floating-point numbers, which the code takes from Go: the types float32 and float64 and the
-- operations of the packages math and strconv that the modelled code calls, with the laws that it
-- relies on. A comparison with NaN is false in Go, and `lt` and `le` are arbitrary tests here.
use Prim.Native.Nat.{ℕ, ◌^◌, ◌<◌}
use Prim.Native.String.{String}
use mathlib.Core.Path.{◌≡◌}
use mathlib.Core.Bool.{Bool}
use mathlib.Core.Option.{Option}

pub record Floats : Type 1 where
  pub Float32 : Type 0
  pub Float64 : Type 0
  -- math.Float32bits and math.Float32frombits, documented as inverse to one another
  pub bits : Float32 → ℕ
  pub of_bits : ℕ → Float32
  pub bits-lt : (v : Float32) → bits v < 2 ^ 32
  pub of_bits-bits : (v : Float32) → of_bits (bits v) ≡ v
  -- the conversions float32(v) and float64(v)
  pub narrow : Float64 → Float32
  pub widen : Float32 → Float64
  -- strconv.FormatFloat(v, 'g', -1, 32) and strconv.ParseFloat(s, 64)
  pub format : Float64 → String
  pub parse : String → Option Float64
  -- the operators < and <=, math.IsNaN and math.IsInf(v, 0)
  pub lt : Float64 → Float64 → Bool
  pub le : Float64 → Float64 → Bool
  pub is_nan : Float64 → Bool
  pub is_inf : Float64 → Bool
  pub lt32 : Float32 → Float32 → Bool
  -- the operators +, -, * and /
  pub add : Float64 → Float64 → Float64
  pub sub : Float64 → Float64 → Float64
  pub mul : Float64 → Float64 → Float64
  pub div : Float64 → Float64 → Float64
  -- Duration.Hours and Duration.Seconds of a number of nanoseconds
  pub hours : ℕ → Float64
  pub seconds : ℕ → Float64
  -- time.Duration(s * float64(time.Second)), and float64 of a number of nanoseconds
  pub to_duration : Float64 → ℕ
  pub of_nanos : ℕ → Float64
  -- time.Duration(v) of a positive number of nanoseconds, float64 of an int, int(math.Round(v)) of a
  -- positive number (0 for a negative one), and the function min
  pub truncate : Float64 → ℕ
  pub of_int : ℕ → Float64
  pub round_int : Float64 → ℕ
  pub min2 : Float64 → Float64 → Float64
  -- the constants 0, and m / 10^k as the decimal literals of the program write them
  pub zero64 : Float64
  pub zero32 : Float32
  pub decimal : ℕ → ℕ → Float64
  pub decimal32 : ℕ → ℕ → Float32
