-- ===== src/Emulator/Control.antt =====
-- backend/internal/device/emulator/emulator.go: reads, telemetry, sessions and the dispatch of a
-- frame and of a tick.
pub mod Safety
pub mod Registers
use dps150_web.Base.{
  ℕ, ◌+◌, ◌-◌, ◌/◌, ◌%◌, Bool, true, false, not, ◌&&◌, ◌||◌, List, [], ◌∷◌, ◌++◌, Option, none,
  some, length, get_or, ltb, leb, ◌==◌, if◌then◌else◌,
}
use dps150_web.Float.{Floats}
use dps150_web.Protocol.Register
use dps150_web.Protocol.Frame.{Frame}
use dps150_web.Protocol.Event.{Preset}
use dps150_web.Emulator.Device.{Plants, Conn, Sent, Device, measure, refresh}
use dps150_web.Emulator.Dump.{full_dump, f32bytes, measurement_data, b2u8}
use dps150_web.Emulator.Handle.{
  float_reg, is_preset_reg, load, set_metering, handle_write, zero_preset,
}

-- "DPS-150", "V1.0" and "V1.3"
abbrev pub model_name : List ℕ
model_name = 0x44 ∷ 0x50 ∷ 0x53 ∷ 0x2d ∷ 0x31 ∷ 0x35 ∷ 0x30 ∷ []

abbrev pub hardware_version : List ℕ
hardware_version = 0x56 ∷ 0x31 ∷ 0x2e ∷ 0x30 ∷ []

abbrev pub firmware_version : List ℕ
firmware_version = 0x56 ∷ 0x31 ∷ 0x2e ∷ 0x33 ∷ []

module _ (fl : Floats) (plants : Plants fl) where
  read_text : ℕ → Option (List ℕ)
  read_text reg =
      if reg == Register.reg_model_name
      then some model_name
      else if reg == Register.reg_hardware_version
      then some hardware_version
      else if reg == Register.reg_firmware_version
      then some firmware_version
      else none

  read_byte : Device fl plants → ℕ → Option (List ℕ)
  unfolding read_text
  read_byte d reg =
      if reg == Register.reg_brightness
      then some (d.brightness ∷ [])
      else if reg == Register.reg_volume
      then some (d.volume ∷ [])
      else if reg == Register.reg_metering_enable
      then some (b2u8 d.metering ∷ [])
      else if reg == Register.reg_output_enable
      then some (b2u8 d.output ∷ [])
      else if reg == Register.reg_protection_state
      then some (d.protection ∷ [])
      else if reg == Register.reg_mode
      then some (d.mode ∷ [])
      else read_text reg

  -- `none`: an unknown register, which the device ignores.
  unfoldable pub read_register : Device fl plants → ℕ → Option (List ℕ)
  unfolding read_byte
  read_register d reg = elim (float_reg reg) [
    | some r ↦ some (f32bytes fl (load fl plants d r))
    | none ↦
        if is_preset_reg reg
        then (let off = reg - Register.reg_m1_voltage in
            let preset = get_or d.presets (off / 2) (zero_preset fl plants) in
            some (f32bytes fl (if off % 2 == 0 then preset.voltage else preset.current)))
        else if reg == Register.reg_input_voltage
        then some (f32bytes fl d.input_voltage)
        else if reg == Register.reg_measurement
        then some (measurement_data fl (measure fl plants d))
        else if reg == Register.reg_temperature
        then some (f32bytes fl d.temperature)
        else if reg == Register.reg_capacity
        then some (f32bytes fl (fl.narrow d.capacity))
        else if reg == Register.reg_energy
        then some (f32bytes fl (fl.narrow d.energy))
        else if reg == Register.reg_max_voltage
        then some (f32bytes fl d.max_voltage)
        else if reg == Register.reg_max_current
        then some (f32bytes fl d.max_current)
        else read_byte d reg
  ]

  -- Metering is also enabled by a read frame with the payload 01.
  unfoldable pub is_metering_command : Frame → Bool
  is_metering_command f =
      f.reg == Register.reg_metering_enable && length f.payload == 1 && get_or f.payload 0 0 == 1

  unfoldable pub handle_read : ℕ → Device fl plants → Frame → Device fl plants × Sent
  unfolding is_metering_command
  handle_read now d f =
      if f.reg == Register.reg_all
      then (d, (Register.reg_all, full_dump fl plants d) ∷ [])
      else (if is_metering_command f
          then (set_metering fl plants now d true, [])
          else elim (read_register d f.reg) [
            | some payload ↦ (d, (f.reg, payload) ∷ [])
            | none ↦ (d, [])
          ])

  unfoldable pub push_telemetry : Device fl plants → Sent
  push_telemetry d =
      (Register.reg_input_voltage, f32bytes fl d.input_voltage)
      ∷ (Register.reg_measurement, measurement_data fl (measure fl plants d))
      ∷ (Register.reg_temperature, f32bytes fl d.temperature)
      ∷ (Register.reg_max_voltage, f32bytes fl d.max_voltage)
      ∷ (Register.reg_max_current, f32bytes fl d.max_current)
      ∷ (if d.metering && d.output
          then (Register.reg_capacity, f32bytes fl (fl.narrow d.capacity))
            ∷ (Register.reg_energy, f32bytes fl (fl.narrow d.energy))
            ∷ []
          else [])

  -- The session flag lives in the connection.
  unfoldable pub set_session : Device fl plants → Conn → Bool → Device fl plants
  set_session d c on = record d { conn = some (record c { session = on }) }

  unfoldable pub handle_session : ℕ → Device fl plants → Conn → Frame → Device fl plants × Sent
  unfolding set_session
  handle_session now d c f =
      if not (f.reg == 0) || not (length f.payload == 1)
      then (d, [])
      else (let control = get_or f.payload 0 0 in
          if control == 1
          then (if c.session
              then (d, [])
              else (let opened = record (set_session d c true) { last_meter = now } in
                  let (settled, sent) = refresh fl plants opened in
                  (settled, sent ++ push_telemetry settled)))
          else (if control == 0 then (set_session d c false, []) else (d, [])))

  unfoldable pub dispatch : ℕ → Device fl plants → Conn → Frame → Device fl plants × Sent
  dispatch now d c f =
      if f.group == Register.group_session
      then handle_session now d c f
      else if f.group == Register.group_baud
      then (d, [])
      else if f.group == Register.group_write
      then (if c.session then handle_write fl plants now d f else (d, []))
      else if f.group == Register.group_read
      then (if c.session then handle_read now d f else (d, []))
      else (d, [])

  -- A frame received on the connection `from`: a superseded connection is not heard.
  unfoldable pub handle : ℕ → Device fl plants → ℕ → Frame → Device fl plants × Sent
  unfolding dispatch
  handle now d from f = elim d.conn [
    | none ↦ (d, [])
    | some c ↦ if c.id == from then dispatch now d c f else (d, [])
  ]

  -- The frames that one read of the loop readLoop brings, in turn.
  unfoldable pub handle_all : ℕ → Device fl plants → ℕ → List Frame → Device fl plants × Sent
  unfolding handle
  handle_all now d from [] = (d, [])
  handle_all now d from (f ∷ fs) =
      let (heard, answers) = handle now d from f in
      let (last, more) = handle_all now heard from fs in (last, answers ++ more)

  unfoldable pub charge_step : Device fl plants → Device fl plants
  charge_step d = elim d.battery [
    | none ↦ d
    | some b ↦
        if d.output
        then record d {
          battery = some (plants.battery_advance b d.interval (fl.widen d.vset) (fl.widen d.iset));
        }
        else d
  ]

  unfoldable pub meter : ℕ → Device fl plants → Device fl plants
  meter now d =
      let hours = fl.hours (now - d.last_meter) in
      let stamped = record d { last_meter = now } in
      let (v, i, p) = measure fl plants stamped in
      if not d.metering || not d.output then stamped else record stamped {
        capacity = fl.add d.capacity (fl.mul (fl.widen i) hours);
        energy = fl.add d.energy (fl.mul (fl.widen p) hours);
      }

  -- One telemetry period of the connection `from`; the loop ends when it is superseded.
  unfoldable pub tick : ℕ → Device fl plants → ℕ → Device fl plants × Sent × Bool
  tick now d from = elim d.conn [
    | none ↦ (d, [], false)
    | some c ↦
        if not (c.id == from)
        then (d, [], false)
        else (if not c.session
            then (d, [], true)
            else (let (settled, sent) = refresh fl plants (charge_step d) in
                let metered = meter now settled in (metered, sent ++ push_telemetry metered, true)))
  ]

  -- A new connection supersedes the open one, and starts without a session.
  unfoldable pub attach : Device fl plants → ℕ → Device fl plants
  attach d id = record d { conn = some (record { id = id; session = false }) }

  unfoldable pub detach : Device fl plants → ℕ → Device fl plants
  detach d id = elim d.conn [
    | none ↦ d
    | some c ↦ if c.id == id then record d { conn = none } else d
  ]

  -- New: the power-on state, with the options that the caller chose.
  unfoldable pub power_on : ℕ → Option plants.Battery → Option plants.Dut → Device fl plants
  power_on interval battery dut =
      let volts = fl.decimal32 50 1 in
      let amps = fl.decimal32 10 1 in
      let preset : Preset fl = record { voltage = volts; current = amps } in
      record {
        interval = interval;
        conn = none;
        load = fl.decimal 100 1;
        battery = battery;
        dut = dut;
        vset = volts;
        iset = amps;
        presets = preset ∷ preset ∷ preset ∷ preset ∷ preset ∷ preset ∷ [];
        ovp = fl.decimal32 210 1;
        ocp = fl.decimal32 52 1;
        opp = fl.decimal32 105 0;
        otp = fl.decimal32 800 1;
        lvp = fl.decimal32 48 1;
        brightness = 10;
        volume = 5;
        metering = false;
        capacity = fl.zero64;
        energy = fl.zero64;
        last_meter = 0;
        output = false;
        protection = Register.protection_ok;
        mode = Register.mode_cv;
        input_voltage = fl.decimal32 200 1;
        temperature = fl.decimal32 300 1;
        max_voltage = fl.decimal32 198 1;
        max_current = fl.decimal32 51 1;
      }
