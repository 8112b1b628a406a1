-- ===== src/Emulator/Dump.antt =====
-- backend/internal/device/emulator/emulator.go: the payload of the full state dump.
pub mod RoundTrip
use dps150_web.Base.{
  ℕ, zero, suc, ◌+◌, ◌*◌, ◌/◌, ◌%◌, Bool, true, false, List, [], ◌∷◌, ◌++◌, set, if◌then◌else◌,
}
use dps150_web.Float.{Floats}
use dps150_web.Protocol.Word.{put_u32}
use dps150_web.Protocol.Event.{Preset}
use dps150_web.Emulator.Device.{Plants, Device, measure}

unfoldable pub b2u8 : Bool → ℕ
b2u8 true = 1
b2u8 false = 0

abbrev pub zeros : ℕ → List ℕ
zeros zero = []
zeros (suc n) = 0 ∷ zeros n

-- binary.LittleEndian.PutUint32(b[off:], w); every call below is within the buffer.
abbrev pub put_word : List ℕ → ℕ → ℕ → List ℕ
put_word b zero w = overwrite b (put_u32 w)
  where
    overwrite : List ℕ → List ℕ → List ℕ
    overwrite b [] = b
    overwrite [] (x ∷ xs) = []
    overwrite (y ∷ b) (x ∷ xs) = x ∷ overwrite b xs
put_word [] (suc off) w = []
put_word (x ∷ b) (suc off) w = x ∷ put_word b off w

module _ (fl : Floats) where
  open fl use {Float32, bits}

  unfoldable pub put_f32 : List ℕ → ℕ → Float32 → List ℕ
  put_f32 b off v = put_word b off (bits v)

  unfoldable pub f32bytes : Float32 → List ℕ
  f32bytes v = put_u32 (bits v)

  unfoldable pub measurement_data : Float32 × Float32 × Float32 → List ℕ
  unfolding put_f32
  measurement_data (v, i, p) = put_f32 (put_f32 (put_f32 (zeros 12) 0 v) 4 i) 8 p

  -- The loop over the presets, from index `idx` on.
  unfoldable pub put_presets : List ℕ → ℕ → List (Preset fl) → List ℕ
  unfolding put_f32
  put_presets dump idx [] = dump
  put_presets dump idx (p ∷ ps) =
      put_presets (put_f32 (put_f32 dump (28 + idx * 8) p.voltage) (32 + idx * 8) p.current)
        (idx + 1) ps

  unfoldable pub full_dump : (plants : Plants fl) → Device fl plants → List ℕ
  unfolding put_f32 put_presets b2u8
  full_dump plants d =
      let (v, i, p) = measure fl plants d in
      let d0 = zeros 139 in
      let d1 = put_f32 d0 0 d.input_voltage in
      let d2 = put_f32 d1 4 d.vset in
      let d3 = put_f32 d2 8 d.iset in
      let d4 = put_f32 d3 12 v in
      let d5 = put_f32 d4 16 i in
      let d6 = put_f32 d5 20 p in
      let d7 = put_f32 d6 24 d.temperature in
      let d8 = put_presets d7 0 d.presets in
      let d9 = put_f32 d8 76 d.ovp in
      let d10 = put_f32 d9 80 d.ocp in
      let d11 = put_f32 d10 84 d.opp in
      let d12 = put_f32 d11 88 d.otp in
      let d13 = put_f32 d12 92 d.lvp in
      let d14 = set d13 96 d.brightness in
      let d15 = set d14 97 d.volume in
      let d16 = set d15 98 (b2u8 d.metering) in
      let d17 = put_f32 d16 99 (fl.narrow d.capacity) in
      let d18 = put_f32 d17 103 (fl.narrow d.energy) in
      let d19 = set d18 107 (b2u8 d.output) in
      let d20 = set d19 108 d.protection in
      let d21 = set d20 109 d.mode in
      let d22 = put_f32 d21 111 d.max_voltage in put_f32 d22 115 d.max_current
