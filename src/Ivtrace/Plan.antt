-- ===== src/Ivtrace/Plan.antt =====
-- backend/internal/ivtrace/presets.go and sweep.go: the compilation of a request to a sweep. A negative
-- number of steps or of milliseconds is 0; the profile's name, the snapshot for the store and the text of
-- an error are left out, and an error is what it complains of.
pub mod Envelope
use dps150_web.Base.{
  ℕ, zero, suc, ◌+◌, ◌-◌, ◌*◌, ◌^◌, Bool, not, ◌&&◌, ◌||◌, List, [], ◌∷◌, Option, none, some, ◌⊎◌,
  inl, inr, ltb, if◌then◌else◌,
}
use Prim.Native.String.{String}
use text.Mathlib.Text as Text
use dps150_web.Float.{Floats}
use dps150_web.Hub.Command.{ProtectionLimits}

pub data RequestError : Type 0 where
  unknown_component : RequestError
  unknown_mode : RequestError
  bad_steps : RequestError
  bad_dwell : RequestError
  bad_range : RequestError
  bad_compliance : RequestError
  above_power : RequestError

-- Component.valid
abbrev pub is_component : String → Bool
is_component c =
    Text.◌==◌ c "led"
    || Text.◌==◌ c "diode"
    || Text.◌==◌ c "zener"
    || Text.◌==◌ c "resistor"
    || Text.◌==◌ c "lamp"
    || Text.◌==◌ c "generic"

abbrev pub is_voltage : String → Bool
is_voltage m = Text.◌==◌ m "voltage"

-- SweepMode.valid
abbrev pub is_mode : String → Bool
is_mode m = is_voltage m || Text.◌==◌ m "current"

abbrev pub min_steps : ℕ
min_steps = 2

abbrev pub max_steps : ℕ
max_steps = 1000

abbrev pub min_dwell_ms : ℕ
min_dwell_ms = 200

-- 30 seconds, in nanoseconds
abbrev pub sweep_timeout_floor : ℕ
sweep_timeout_floor = 30 * 10 ^ 9

module _ (fl : Floats) where
  open fl use {Float64}

  abbrev pub device_max_voltage : Float64
  device_max_voltage = fl.decimal 300 1

  abbrev pub device_max_current : Float64
  device_max_current = fl.decimal 50 1

  abbrev pub device_max_power : Float64
  device_max_power = fl.decimal 1500 1

  abbrev pub prot_voltage_margin : Float64
  prot_voltage_margin = fl.decimal 11 1

  abbrev pub prot_current_margin : Float64
  prot_current_margin = fl.decimal 15 1

  abbrev pub prot_otp_celsius : Float64
  prot_otp_celsius = fl.decimal 600 1

  abbrev pub sweep_timeout_factor : Float64
  sweep_timeout_factor = fl.decimal 30 1

  pub record Request : Type 0 where
    pub component : String
    pub mode : String
    pub v_start : Float64
    pub v_stop : Float64
    pub i_start : Float64
    pub i_stop : Float64
    pub steps : ℕ
    pub dwell_ms : ℕ
    pub compliance_a : Float64
    pub compliance_v : Float64
    pub params : String

  pub record ProtectionSet : Type 0 where
    pub ovp : Float64
    pub ocp : Float64
    pub opp : Float64
    pub otp : Float64

  pub record Plan : Type 0 where
    pub request : Request
    pub setpoints : List Float64
    pub protections : ProtectionSet
    pub dwell : ℕ
    pub sweep_timeout : ℕ

  -- The checks of the axis that is stepped, and of the other axis. `power` is their product, in the
  -- order in which the code writes it.
  abbrev pub bounds_error :
      Float64 → Float64 → Float64 → Float64 → Float64 → Float64 → Option RequestError
  bounds_error start stop max compliance max_compliance power =
      if not (fl.le fl.zero64 start && fl.lt start stop && fl.le stop max)
      then some bad_range
      else if not (fl.lt fl.zero64 compliance && fl.le compliance max_compliance)
      then some bad_compliance
      else if fl.lt device_max_power power
      then some above_power
      else none

  unfoldable pub request_error : Request → Option RequestError
  request_error req =
      if not (is_component req.component)
      then some unknown_component
      else if not (is_mode req.mode)
      then some unknown_mode
      else if ltb req.steps min_steps || ltb max_steps req.steps
      then some bad_steps
      else if ltb req.dwell_ms min_dwell_ms
      then some bad_dwell
      else if is_voltage req.mode
      then bounds_error req.v_start req.v_stop device_max_voltage req.compliance_a
          device_max_current (fl.mul req.v_stop req.compliance_a)
      else bounds_error req.i_start req.i_stop device_max_current req.compliance_v
          device_max_voltage (fl.mul req.compliance_v req.i_stop)

  -- The hardware's limits for the highest voltage and the highest current of a sweep.
  abbrev pub protections_for : Float64 → Float64 → ProtectionSet
  protections_for volts amps =
      let ovp = fl.min2 (fl.mul volts prot_voltage_margin) device_max_voltage in
      let ocp = fl.min2 (fl.mul amps prot_current_margin) device_max_current in
      record {
        ovp = ovp;
        ocp = ocp;
        opp = fl.min2 (fl.mul ovp ocp) device_max_power;
        otp = prot_otp_celsius;
      }

  abbrev pub setpoint : Float64 → Float64 → ℕ → ℕ → Float64
  setpoint start stop steps i =
      fl.add start (fl.div (fl.mul (fl.sub stop start) (fl.of_int i)) (fl.of_int (steps - 1)))

  -- The loop of buildSetpoints from the index `i` on, with `left` setpoints to go.
  abbrev pub setpoints_from : Float64 → Float64 → ℕ → ℕ → ℕ → List Float64
  setpoints_from start stop steps i zero = []
  setpoints_from start stop steps i (suc left) =
      setpoint start stop steps i ∷ setpoints_from start stop steps (suc i) left

  unfoldable pub build_setpoints : Float64 → Float64 → ℕ → List Float64
  build_setpoints start stop steps = setpoints_from start stop steps 0 steps

  abbrev pub start_of : Request → Float64
  start_of req = if is_voltage req.mode then req.v_start else req.i_start

  abbrev pub stop_of : Request → Float64
  stop_of req = if is_voltage req.mode then req.v_stop else req.i_stop

  abbrev pub plan_of : Request → Plan
  plan_of req =
      let dwell = req.dwell_ms * 10 ^ 6 in
      record {
        request = req;
        setpoints = build_setpoints (start_of req) (stop_of req) req.steps;
        protections =
            if is_voltage req.mode
            then protections_for req.v_stop req.compliance_a
            else protections_for req.compliance_v req.i_stop;
        dwell = dwell;
        sweep_timeout =
            fl.truncate
              (fl.mul (fl.mul (fl.of_int req.steps) sweep_timeout_factor) (fl.of_nanos dwell))
            + sweep_timeout_floor;
      }

  unfoldable pub compile : Request → RequestError ⊎ Plan
  unfolding request_error build_setpoints
  compile req = elim (request_error req) [ some e ↦ inl e | none ↦ inr (plan_of req) ]

  abbrev pub protection_limits : ProtectionSet → ProtectionLimits fl
  protection_limits p = record {
    ovp = some p.ovp;
    ocp = some p.ocp;
    opp = some p.opp;
    otp = some p.otp;
    lvp = none;
  }
