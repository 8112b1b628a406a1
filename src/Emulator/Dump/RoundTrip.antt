-- ===== src/Emulator/Dump/RoundTrip.antt =====
-- The full dump of the emulator and its decoder in the protocol package.
use dps150_web.Base.{ℕ, ◌≡◌, ◌/◌, ◌%◌, refl, Bool, true, false, [], ◌∷◌, ◌==◌, length}
use dps150_web.Float.{Floats}
use dps150_web.Protocol.Register
use dps150_web.Protocol.Word.{u32, u32-put_u32}
use dps150_web.Protocol.Event.{Preset, FullDump, Event}
use dps150_web.Protocol.Decode.{
  ok, decode, decode_full_dump, decode_dump, f32_at, index, decode_presets,
}
use dps150_web.Emulator.Device.{Plants, Device, measure}
use dps150_web.Emulator.Dump.{full_dump, b2u8}

module _ (fl : Floats) (plants : Plants fl) where
  open fl use {Float32, bits, of_bits, bits-lt, of_bits-bits}

  pub word_back :
      (v : Float32)
      → of_bits
          (u32 (bits v % 256) (bits v / 256 % 256) (bits v / 65536 % 256) (bits v / 16777216 % 256))
        ≡ v
  word_back v = rw (u32-put_u32 (bits v) (bits-lt v)) (of_bits-bits v)

  -- The view of the device that a full dump gives.
  abbrev pub view : Device fl plants → FullDump fl
  view d =
      let (v, i, p) = measure fl plants d in
      record {
        raw = full_dump fl plants d;
        input_voltage = d.input_voltage;
        voltage_set = d.vset;
        current_set = d.iset;
        output_voltage = v;
        output_current = i;
        output_power = p;
        temperature = d.temperature;
        presets = d.presets;
        ovp = d.ovp;
        ocp = d.ocp;
        opp = d.opp;
        otp = d.otp;
        lvp = d.lvp;
        brightness = d.brightness;
        volume = d.volume;
        metering_on = d.metering;
        capacity = fl.narrow d.capacity;
        energy = fl.narrow d.energy;
        output_on = d.output;
        protection = d.protection;
        mode = d.mode;
        max_voltage = d.max_voltage;
        max_current = d.max_current;
      }

  b2u8-eq_one : (b : Bool) → (b2u8 b == 1) ≡ b
  unfolding b2u8
  b2u8-eq_one true = refl
  b2u8-eq_one false = refl

  decode_dump-full_dump :
      (d : Device fl plants) (p1 p2 p3 p4 p5 p6 : Preset fl)
      → d.presets ≡ p1 ∷ p2 ∷ p3 ∷ p4 ∷ p5 ∷ p6 ∷ []
      → decode_dump fl (full_dump fl plants d) ≡ ok (Event.full_dump (view d))
  unfolding decode_dump f32_at index decode_presets full_dump
  decode_dump-full_dump d p1 p2 p3 p4 p5 p6 e = rw e (simp (word_back, b2u8-eq_one))

  length-full_dump :
      (d : Device fl plants) (p1 p2 p3 p4 p5 p6 : Preset fl)
      → d.presets ≡ p1 ∷ p2 ∷ p3 ∷ p4 ∷ p5 ∷ p6 ∷ []
      → length (full_dump fl plants d) ≡ 139
  unfolding full_dump
  length-full_dump d p1 p2 p3 p4 p5 p6 e = rw e refl

  -- What the emulator sends as its full dump, the protocol package decodes to the state of the
  -- device, field by field: the two layouts agree on every offset, and no field is lost, for a
  -- device with its six presets.
  pub decode-full_dump :
      (d : Device fl plants) (g : ℕ) (p1 p2 p3 p4 p5 p6 : Preset fl)
      → d.presets ≡ p1 ∷ p2 ∷ p3 ∷ p4 ∷ p5 ∷ p6 ∷ []
      → decode fl (record { group = g; reg = Register.reg_all; payload = full_dump fl plants d })
        ≡ ok (Event.full_dump (view d))
  unfolding decode decode_full_dump
  decode-full_dump d g p1 p2 p3 p4 p5 p6 e =
      rw (length-full_dump d p1 p2 p3 p4 p5 p6 e) (decode_dump-full_dump d p1 p2 p3 p4 p5 p6 e)
