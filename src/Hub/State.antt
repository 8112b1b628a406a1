-- ===== src/Hub/State.antt =====
-- backend/internal/device/state.go and update.go: the cached device state and the updates that
-- subscribers receive. A time is a number of nanoseconds.
use dps150_web.Base.{ℕ, Bool, false, List, [], ◌∷◌, Option, none, some, if◌then◌else◌}
use dps150_web.Float.{Floats}
use dps150_web.Protocol.Register
use Prim.Native.String.{String}

-- The identification texts, as the bytes that the device sent.
pub record Info : Type 0 where
  pub model : List ℕ
  pub hardware : List ℕ
  pub firmware : List ℕ

module _ (fl : Floats) where
  open fl use {Float32, Float64}

  pub record Preset : Type 0 where
    pub voltage : Float64
    pub current : Float64

  pub record State : Type 0 where
    pub output_on : Bool
    pub mode : ℕ
    pub protection : ℕ
    pub set_voltage : Float64
    pub set_current : Float64
    pub voltage : Float64
    pub current : Float64
    pub power : Float64
    pub input_voltage : Float64
    pub temperature : Float64
    pub max_voltage : Float64
    pub max_current : Float64
    pub capacity_ah : Float64
    pub energy_wh : Float64
    pub ovp : Float64
    pub ocp : Float64
    pub opp : Float64
    pub otp : Float64
    pub lvp : Float64
    pub presets : List Preset
    pub brightness : ℕ
    pub volume : ℕ
    pub updated_at : ℕ

  -- The zero value.
  abbrev pub zero_state : State
  zero_state =
      let preset : Preset = record { voltage = fl.zero64; current = fl.zero64 } in
      record {
        output_on = false;
        mode = Register.mode_cc;
        protection = Register.protection_ok;
        set_voltage = fl.zero64;
        set_current = fl.zero64;
        voltage = fl.zero64;
        current = fl.zero64;
        power = fl.zero64;
        input_voltage = fl.zero64;
        temperature = fl.zero64;
        max_voltage = fl.zero64;
        max_current = fl.zero64;
        capacity_ah = fl.zero64;
        energy_wh = fl.zero64;
        ovp = fl.zero64;
        ocp = fl.zero64;
        opp = fl.zero64;
        otp = fl.zero64;
        lvp = fl.zero64;
        presets = preset ∷ preset ∷ preset ∷ preset ∷ preset ∷ preset ∷ [];
        brightness = 0;
        volume = 0;
        updated_at = 0;
      }

  pub record Snapshot : Type 0 where
    pub connected : Bool
    pub transport : String
    pub info : Option Info
    pub state : Option State

  abbrev pub fallback_max_voltage : Float64
  fallback_max_voltage = fl.decimal 300 1

  abbrev pub fallback_max_current : Float64
  fallback_max_current = fl.decimal 50 1

  -- The device's maxima where it has reported them, and the fallbacks otherwise.
  unfoldable pub limits : Snapshot → Float64 × Float64
  limits s = elim s.state [
    | none ↦ (fallback_max_voltage, fallback_max_current)
    | some st ↦ (
      if fl.lt fl.zero64 st.max_voltage then st.max_voltage else fallback_max_voltage,
      if fl.lt fl.zero64 st.max_current then st.max_current else fallback_max_current,
    )
  ]

  -- By way of the shortest decimal representation.
  unfoldable pub f64 : Float32 → Float64
  f64 v = elim (fl.parse (fl.format (fl.widen v))) [ some f ↦ f | none ↦ fl.widen v ]

  pub record Telemetry : Type 0 where
    pub voltage : Float64
    pub current : Float64
    pub power : Float64
    pub input_voltage : Float64
    pub temperature : Float64
    pub mode : ℕ
    pub protection : ℕ
    pub output_on : Bool
    pub capacity_ah : Float64
    pub energy_wh : Float64
    pub ts : ℕ

  -- Only the field of a device event that its kind makes meaningful is kept. The payload of a
  -- journal event is opaque: its kind alone is kept.
  pub data Update : Type 0 where
    state_snapshot : Snapshot → Update
    telemetry : Telemetry → Update
    status_change : Bool → String → Update
    protection_trip : ℕ → ℕ → Update
    mode_change : ℕ → ℕ → Update
    output_change : Bool → ℕ → Update
    journal_event : String → ℕ → Update
