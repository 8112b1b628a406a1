-- ===== src/Emulator/Handle.antt =====
-- backend/internal/device/emulator/emulator.go: what the device does with a frame of the host and
-- with a telemetry tick. `now` is the reading of the clock in nanoseconds.
use dps150_web.Base.{
  ℕ, ◌-◌, ◌/◌, ◌%◌, Bool, not, ◌&&◌, List, [], ◌∷◌, ◌++◌, Option, none, some, get_or, set, leb,
  ◌==◌, if◌then◌else◌,
}
use dps150_web.Float.{Floats}
use dps150_web.Protocol.Word.{u32}
use dps150_web.Protocol.Register
use dps150_web.Protocol.Frame.{Frame}
use dps150_web.Protocol.Event.{Preset}
use dps150_web.Emulator.Device.{Plants, Sent, Device, push, refresh}

-- The writable float32 registers: `floatReg` returns a pointer to the field.
pub data FloatReg : Type 0 where
  vset iset ovp ocp opp otp lvp : FloatReg

unfoldable pub float_reg : ℕ → Option FloatReg
float_reg reg =
    if reg == Register.reg_voltage_set
    then some vset
    else if reg == Register.reg_current_set
    then some iset
    else if reg == Register.reg_ovp
    then some ovp
    else if reg == Register.reg_ocp
    then some ocp
    else if reg == Register.reg_opp
    then some opp
    else if reg == Register.reg_otp
    then some otp
    else if reg == Register.reg_lvp
    then some lvp
    else none

abbrev pub is_preset_reg : ℕ → Bool
is_preset_reg reg = leb Register.reg_m1_voltage reg && leb reg Register.reg_m6_current

module _ (fl : Floats) (plants : Plants fl) where
  open fl use {Float32}

  -- Reads and writes through the pointer.
  unfoldable pub load : Device fl plants → FloatReg → Float32
  load d vset = d.vset
  load d iset = d.iset
  load d ovp = d.ovp
  load d ocp = d.ocp
  load d opp = d.opp
  load d otp = d.otp
  load d lvp = d.lvp

  unfoldable pub store : Device fl plants → FloatReg → Float32 → Device fl plants
  store d vset v = record d { vset = v }
  store d iset v = record d { iset = v }
  store d ovp v = record d { ovp = v }
  store d ocp v = record d { ocp = v }
  store d opp v = record d { opp = v }
  store d otp v = record d { otp = v }
  store d lvp v = record d { lvp = v }

  -- Any write of the output register clears a latched protection.
  unfoldable pub set_output : Device fl plants → Bool → Device fl plants × Sent
  set_output d on =
      if not (d.protection == Register.protection_ok)
      then (let cleared = record d { protection = Register.protection_ok } in
          (
            record cleared { output = on },
            push fl plants cleared Register.reg_protection_state (Register.protection_ok ∷ []),
          ))
      else (record d { output = on }, [])

  -- Enabling restarts the accumulators from zero; disabling keeps the values.
  unfoldable pub set_metering : ℕ → Device fl plants → Bool → Device fl plants
  set_metering now d on =
      let d' =
        if on && not d.metering
        then record d { capacity = fl.zero64; energy = fl.zero64; last_meter = now }
        else d in
      record d' { metering = on }

  unfoldable pub zero_preset : Preset fl
  zero_preset = record { voltage = fl.zero32; current = fl.zero32 }

  -- The slot's index is below 6, the length of the array, on every call.
  unfoldable pub store_preset : Device fl plants → ℕ → Float32 → Device fl plants
  unfolding zero_preset
  store_preset d off v =
      let preset = get_or d.presets (off / 2) zero_preset in
      let preset' =
        if off % 2 == 0 then record preset { voltage = v } else record preset { current = v } in
      record d { presets = set d.presets (off / 2) preset' }

  unfoldable pub write_byte : ℕ → Device fl plants → ℕ → ℕ → Option (Device fl plants × Sent)
  write_byte now d reg b =
      if reg == Register.reg_brightness
      then some (record d { brightness = b }, [])
      else if reg == Register.reg_volume
      then some (record d { volume = b }, [])
      else if reg == Register.reg_metering_enable
      then some (set_metering now d (b == 1), [])
      else if reg == Register.reg_output_enable
      then some (set_output d (b == 1))
      else none

  -- The four bytes of a float payload, and the one of a byte payload; `none` at another length.
  abbrev pub float_payload : List ℕ → Option Float32
  float_payload (a ∷ b ∷ c ∷ e ∷ []) = some (fl.of_bits (u32 a b c e))
  float_payload _ = none

  abbrev pub byte_payload : List ℕ → Option ℕ
  byte_payload (b ∷ []) = some b
  byte_payload _ = none

  -- `none`: the register is read-only or unknown, or the payload malformed, and nothing changes.
  unfoldable pub apply_write : ℕ → Device fl plants → Frame → Option (Device fl plants × Sent)
  apply_write now d f = elim (float_reg f.reg) [
    | some r ↦ elim (float_payload f.payload) [ some v ↦ some (store d r v, []) | none ↦ none ]
    | none ↦
        if is_preset_reg f.reg
        then elim (float_payload f.payload) [
          | some v ↦ some (store_preset d (f.reg - Register.reg_m1_voltage) v, [])
          | none ↦ none
        ]
        else elim (byte_payload f.payload) [ some b ↦ write_byte now d f.reg b | none ↦ none ]
  ]

  -- A write is confirmed by an echo, and then the device reacts to its new state.
  unfoldable pub handle_write : ℕ → Device fl plants → Frame → Device fl plants × Sent
  handle_write now d f = elim (apply_write now d f) [
    | none ↦ (d, [])
    | some (written, before) ↦
        let (settled, after) = refresh fl plants written in
        (settled, before ++ (f.reg, f.payload) ∷ after)
  ]
