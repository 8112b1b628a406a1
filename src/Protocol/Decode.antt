-- ===== src/Protocol/Decode.antt =====
-- backend/internal/device/protocol/decode.go: a device-to-host frame as a typed event.
-- A payload text is the list of its bytes.
pub mod Totality
use dps150_web.Base.{
  ℕ, zero, suc, ◌+◌, ◌*◌, ◌≤◌, Bool, List, [], ◌∷◌, ◌++◌, Option, none, some, length, drop, ltb,
  leb, ◌==◌, if◌then◌else◌,
}
use dps150_web.Float.{Floats}
use dps150_web.Protocol.Word.{u32}
use dps150_web.Protocol.Register
use dps150_web.Protocol.Frame.{Frame}
use dps150_web.Protocol.Event.{
  InfoField, info_model_name, info_hardware_version, info_firmware_version, Preset, FullDump, Event,
  measurement, input_voltage, temperature, max_voltage, max_current, voltage_set, current_set,
  output_state, protection_state, cccv_mode, capacity, energy, device_info, full_dump,
}

pub data DecodeError : Type 0 where
  unsupported_register : DecodeError
  payload_size : DecodeError

-- `panic`: an index or a slice out of range.
pub data Result {ℓ} (A : Type ℓ) : Type ℓ where
  ok : A → Result A
  err : DecodeError → Result A
  panic : Result A

infixl 5 ◌>>=◌ ◌>>◌
abbrev pub ◌>>=◌ {ℓ κ} : {A : Type ℓ} {B : Type κ} → Result A → (A → Result B) → Result B
ok a >>= f = f a
err e >>= f = err e
panic >>= f = panic

abbrev pub ◌>>◌ {ℓ} : {B : Type ℓ} → Result (Unit {0}) → Result B → Result B
m >> k = m >>= λ _. k

abbrev pub full_dump_size : ℕ
full_dump_size = 139

-- dumpOffMaxCurrent + 4
abbrev pub dump_decoded_size : ℕ
dump_decoded_size = 119

-- d[off:]
unfoldable pub slice_from : ℕ → List ℕ → Result (List ℕ)
slice_from off d = if leb off (length d) then ok (drop off d) else panic

-- d[i]
unfoldable pub index : List ℕ → ℕ → Result ℕ
index [] i = panic
index (b ∷ bs) zero = ok b
index (b ∷ bs) (suc i) = index bs i

unfoldable pub want_len : Frame → ℕ → Result (Unit {0})
want_len f want = if length f.payload == want then ok tt else err payload_size

unfoldable pub decode_byte : Frame → Result ℕ
unfolding want_len index
decode_byte f = do want_len f 1; index f.payload 0

-- bytes.TrimRight(f.Data, "\x00")
unfoldable pub trim_right : List ℕ → List ℕ
trim_right [] = []
trim_right (b ∷ bs) = keep b (trim_right bs)
  where
    keep : ℕ → List ℕ → List ℕ
    keep b [] = if b == 0 then [] else b ∷ []
    keep b (c ∷ cs) = b ∷ c ∷ cs

unfoldable pub decode_string : Frame → List ℕ
unfolding trim_right
decode_string f = trim_right f.payload

module _ (fl : Floats) where
  open fl use {Float32, of_bits}

  -- The first four bytes; binary.LittleEndian.Uint32 panics where there are fewer.
  unfoldable pub f32 : List ℕ → Result Float32
  f32 (a ∷ b ∷ c ∷ d ∷ _) = ok (of_bits (u32 a b c d))
  f32 _ = panic

  -- f32(d[off:])
  unfoldable pub f32_at : List ℕ → ℕ → Result Float32
  unfolding slice_from f32
  f32_at d off = do rest ← slice_from off d; f32 rest

  unfoldable pub decode_float : Frame → Result Float32
  unfolding want_len f32
  decode_float f = do want_len f 4; f32 f.payload

  -- The loop `for i := range dump.Presets`, with `k` rounds left from index `i`.
  unfoldable pub decode_presets : List ℕ → ℕ → ℕ → Result (List (Preset fl))
  decode_presets d i zero = ok []
  decode_presets d i (suc k) = do
    voltage ← f32_at d (28 + i * 8)
    current ← f32_at d (28 + i * 8 + 4)
    rest ← decode_presets d (i + 1) k
    ok (record { voltage = voltage; current = current } ∷ rest)

  -- The composite literal of decodeFullDump and the loop after it.
  unfoldable pub decode_dump : List ℕ → Result (Event fl)
  decode_dump d = do
    input_v ← f32_at d 0
    set_v ← f32_at d 4
    set_i ← f32_at d 8
    out_v ← f32_at d 12
    out_i ← f32_at d 16
    out_p ← f32_at d 20
    temp ← f32_at d 24
    ovp ← f32_at d 76
    ocp ← f32_at d 80
    opp ← f32_at d 84
    otp ← f32_at d 88
    lvp ← f32_at d 92
    bright ← index d 96
    vol ← index d 97
    metering ← index d 98
    cap ← f32_at d 99
    wh ← f32_at d 103
    out ← index d 107
    prot ← index d 108
    mode ← index d 109
    max_v ← f32_at d 111
    max_i ← f32_at d 115
    presets ← decode_presets d 0 Register.preset_count
    ok (
        full_dump (record {
          raw = d;
          input_voltage = input_v;
          voltage_set = set_v;
          current_set = set_i;
          output_voltage = out_v;
          output_current = out_i;
          output_power = out_p;
          temperature = temp;
          presets = presets;
          ovp = ovp;
          ocp = ocp;
          opp = opp;
          otp = otp;
          lvp = lvp;
          brightness = bright;
          volume = vol;
          metering_on = metering == 1;
          capacity = cap;
          energy = wh;
          output_on = out == 1;
          protection = prot;
          mode = mode;
          max_voltage = max_v;
          max_current = max_i;
        }))

  unfoldable pub decode_full_dump : Frame → Result (Event fl)
  decode_full_dump f =
      if ltb (length f.payload) dump_decoded_size then err payload_size else decode_dump f.payload

  unfoldable pub float_event : (Float32 → Event fl) → Frame → Result (Event fl)
  unfolding decode_float
  float_event make f = do v ← decode_float f; ok (make v)

  unfoldable pub byte_event : (ℕ → Event fl) → Frame → Result (Event fl)
  unfolding decode_byte
  byte_event make f = do b ← decode_byte f; ok (make b)

  unfoldable pub decode_measurement : Frame → Result (Event fl)
  unfolding want_len f32_at
  decode_measurement f = do
    want_len f 12
    v ← f32_at f.payload 0
    i ← f32_at f.payload 4
    p ← f32_at f.payload 8
    ok (measurement v i p)

  unfoldable pub decode : Frame → Result (Event fl)
  decode f =
      if f.reg == Register.reg_input_voltage
      then float_event input_voltage f
      else if f.reg == Register.reg_voltage_set
      then float_event voltage_set f
      else if f.reg == Register.reg_current_set
      then float_event current_set f
      else if f.reg == Register.reg_measurement
      then decode_measurement f
      else if f.reg == Register.reg_temperature
      then float_event temperature f
      else if f.reg == Register.reg_capacity
      then float_event capacity f
      else if f.reg == Register.reg_energy
      then float_event energy f
      else if f.reg == Register.reg_output_enable
      then byte_event (λ b. output_state (b == 1)) f
      else if f.reg == Register.reg_protection_state
      then byte_event protection_state f
      else if f.reg == Register.reg_mode
      then byte_event cccv_mode f
      else if f.reg == Register.reg_model_name
      then ok (device_info info_model_name (decode_string f))
      else if f.reg == Register.reg_hardware_version
      then ok (device_info info_hardware_version (decode_string f))
      else if f.reg == Register.reg_firmware_version
      then ok (device_info info_firmware_version (decode_string f))
      else if f.reg == Register.reg_max_voltage
      then float_event max_voltage f
      else if f.reg == Register.reg_max_current
      then float_event max_current f
      else if f.reg == Register.reg_all
      then decode_full_dump f
      else err unsupported_register
