-- ===== src/Tests.antt =====
-- Concrete values for the tests: numbers in place of floats, and a device with a plain load.
mod ProtocolTests
mod EmulatorTests
mod HubTests
mod HistoryTests
mod IvtraceTests
mod SequenceTests
mod NotifyTests
mod MeteringTests
mod MqttTests
mod RunTests
mod AutomationTests
mod ChargerTests
use dps150_web.Base.{
  ℕ, ◌+◌, ◌-◌, ◌*◌, ◌/◌, ◌%◌, ◌^◌, ◌<◌, ◌≡◌, Bool, true, false, List, [], ◌∷◌, Option, none, some,
  ltb, leb, arith, if◌then◌else◌,
}
use Prim.Native.String.{String}
use mathlib.Core.HLevel.{Σ_prop_path}
use native.Mathlib.Bridge.{le_prop}
use dps150_web.Float.{Floats}
use dps150_web.Emulator.Device.{Plants}

abbrev pub Word : Type 0
Word = (n : ℕ) × (n < 2 ^ 32)

pub mod-lt_word : (n : ℕ) → n % 2 ^ 32 < 2 ^ 32
mod-lt_word n = omega arith

abbrev pub word : ℕ → Word
word n = (n % 2 ^ 32, mod-lt_word n)

pub word_lem : (w : Word) → word w.0 ≡ w
word_lem w = Σ_prop_path (λ n. le_prop) (mod_word w.0 w.1)
  where
    mod_word : (n : ℕ) → n < 2 ^ 32 → n % 2 ^ 32 ≡ n
    mod_word n h = omega arith

pub word-lt : (w : Word) → w.0 < 2 ^ 32
word-lt w = w.1

-- Floats as natural numbers.
abbrev pub sample : Floats
sample = record {
  Float32 = Word;
  Float64 = ℕ;
  bits = λ w. w.0;
  of_bits = word;
  bits-lt = word-lt;
  of_bits-bits = word_lem;
  narrow = word;
  widen = λ w. w.0;
  format = λ n. "";
  parse = λ s. none;
  lt = ltb;
  le = leb;
  is_nan = λ n. false;
  is_inf = λ n. false;
  lt32 = λ a b. ltb a.0 b.0;
  add = λ a b. a + b;
  sub = λ a b. a - b;
  mul = λ a b. a * b;
  div = λ a b. a / b;
  hours = λ n. n;
  seconds = λ n. n;
  to_duration = λ n. n * 10 ^ 9;
  of_nanos = λ n. n;
  truncate = λ n. n;
  of_int = λ n. n;
  round_int = λ n. n;
  min2 = λ a b. if leb a b then a else b;
  zero64 = 0;
  zero32 = word 0;
  decimal = λ m k. m / 10 ^ k;
  decimal32 = λ m k. word (m / 10 ^ k);
}

-- Nothing but the resistive load is ever on the terminals.
abbrev pub no_plants : Plants sample
no_plants = record {
  Battery = Unit {0};
  battery_measure = λ b on v i. (word 0, word 0, word 0);
  battery_mode = λ b v i. 0;
  battery_advance = λ b t v i. b;
  Dut = Unit {0};
  dut_measure = λ b on v i. (word 0, word 0, word 0);
  dut_mode = λ b v i. 0;
}
