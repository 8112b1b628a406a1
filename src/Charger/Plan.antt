-- ===== src/Charger/Plan.antt =====
-- backend/internal/charger/presets.go and charge.go: the chemistries, the compilation of a request to
-- phases with a safety envelope, and the check of the measured battery voltage. A number of cells
-- below 1 is 0; the text of an error is left out, and an error is what it complains of.
pub mod Envelope
use dps150_web.Base.{
  ℕ, ◌+◌, ◌/◌, ◌^◌, ◌*◌, Bool, true, false, not, ◌&&◌, ◌||◌, List, [], ◌∷◌, ◌++◌, Option, none,
  some, ◌⊎◌, inl, inr, ltb, leb, ◌==◌, if◌then◌else◌,
}
use Prim.Native.String.{String}
use text.Mathlib.Text as Text
use dps150_web.Float.{Floats}

pub data PhaseKind : Type 0 where
  precharge : PhaseKind
  main : PhaseKind
  float : PhaseKind

pub data RequestError : Type 0 where
  unsupported_chemistry : RequestError
  bad_cells : RequestError
  bad_capacity : RequestError
  bad_current : RequestError
  no_bms : RequestError
  above_rate : RequestError
  above_voltage : RequestError
  above_current : RequestError
  above_power : RequestError
  inverted_margins : RequestError

-- PreflightResult.Reason; `accepted` is the empty one of a result with OK set.
pub data Verdict : Type 0 where
  accepted : Verdict
  reversed_polarity : Verdict
  no_battery_or_short : Verdict
  voltage_too_high_for_cells : Verdict
  voltage_too_low_for_cells : Verdict
  cell_count_mismatch : Verdict

-- time.Hour, in nanoseconds
abbrev pub hour : ℕ
hour = 3600 * 10 ^ 9

abbrev pub precharge_timeout : ℕ
precharge_timeout = hour

module _ (fl : Floats) where
  open fl use {Float64}

  abbrev pub device_max_voltage : Float64
  device_max_voltage = fl.decimal 300 1

  abbrev pub device_max_current : Float64
  device_max_current = fl.decimal 50 1

  abbrev pub device_max_power : Float64
  device_max_power = fl.decimal 1500 1

  abbrev pub no_battery_volts : Float64
  no_battery_volts = fl.decimal 3 1

  abbrev pub otp_celsius : Float64
  otp_celsius = fl.decimal 600 1

  pub record Preset : Type 0 where
    pub v_charge : Float64
    pub v_ceiling : Float64
    pub v_ovp : Float64
    pub v_float : Float64
    pub v_precharge : Float64
    pub precharge_c : Float64
    pub taper_c : Float64
    pub v_nominal : Float64
    pub v_abs_min : Float64
    pub v_max_rest : Float64
    pub cap_cap_fraction : Float64
    pub max_charge_c : Float64
    pub timeout_factor : Float64

  abbrev pub li_ion : Preset
  li_ion = record {
    v_charge = fl.decimal 420 2;
    v_ceiling = fl.decimal 425 2;
    v_ovp = fl.decimal 430 2;
    v_float = fl.zero64;
    v_precharge = fl.decimal 30 1;
    precharge_c = fl.decimal 1 1;
    taper_c = fl.decimal 5 2;
    v_nominal = fl.decimal 37 1;
    v_abs_min = fl.decimal 20 1;
    v_max_rest = fl.decimal 425 2;
    cap_cap_fraction = fl.decimal 115 2;
    max_charge_c = fl.decimal 10 1;
    timeout_factor = fl.decimal 15 1;
  }

  abbrev pub li_fe_po4 : Preset
  li_fe_po4 = record {
    v_charge = fl.decimal 365 2;
    v_ceiling = fl.decimal 370 2;
    v_ovp = fl.decimal 380 2;
    v_float = fl.zero64;
    v_precharge = fl.decimal 25 1;
    precharge_c = fl.decimal 1 1;
    taper_c = fl.decimal 5 2;
    v_nominal = fl.decimal 32 1;
    v_abs_min = fl.decimal 20 1;
    v_max_rest = fl.decimal 370 2;
    cap_cap_fraction = fl.decimal 115 2;
    max_charge_c = fl.decimal 10 1;
    timeout_factor = fl.decimal 15 1;
  }

  abbrev pub lead : Preset
  lead = record {
    v_charge = fl.decimal 240 2;
    v_ceiling = fl.decimal 250 2;
    v_ovp = fl.decimal 255 2;
    v_float = fl.decimal 225 2;
    v_precharge = fl.zero64;
    precharge_c = fl.zero64;
    taper_c = fl.decimal 5 2;
    v_nominal = fl.decimal 20 1;
    v_abs_min = fl.decimal 16 1;
    v_max_rest = fl.decimal 255 2;
    cap_cap_fraction = fl.decimal 125 2;
    max_charge_c = fl.decimal 3 1;
    timeout_factor = fl.decimal 20 1;
  }

  unfoldable pub preset_for : String → Option Preset
  preset_for chem =
      if Text.◌==◌ chem "liion"
      then some li_ion
      else if Text.◌==◌ chem "lifepo4"
      then some li_fe_po4
      else if Text.◌==◌ chem "pb"
      then some lead
      else none

  unfoldable pub suggest_cells : Preset → Float64 → ℕ
  suggest_cells p vbat = let n = fl.round_int (fl.div vbat p.v_nominal) in if ltb n 1 then 1 else n

  -- The request, without the fields that only the session's record shows.
  pub record Request : Type 0 where
    pub chemistry : String
    pub cells : ℕ
    pub capacity_mah : Float64
    pub charge_a : Float64
    pub bms_attested : Bool

  pub record Limits : Type 0 where
    pub ceiling_volts : Float64
    pub cap_cap_mah : Float64
    pub timeout : ℕ
    pub ovp_volts : Float64
    pub ocp_amps : Float64
    pub opp_watts : Float64
    pub otp_celsius : Float64

  -- A number that is zero stands for a rule that does not apply.
  pub record Phase : Type 0 where
    pub kind : PhaseKind
    pub volts : Float64
    pub amps : Float64
    pub taper_amps : Float64
    pub until_volts : Float64
    pub hold_to_stop : Bool
    pub timeout : ℕ

  pub record Plan : Type 0 where
    pub request : Request
    pub preset : Preset
    pub phases : List Phase
    pub limits : Limits

  abbrev pub cap_amps : Request → Float64
  cap_amps req = fl.div req.capacity_mah (fl.decimal 10_000 1)

  abbrev pub needs_bms : Request → Bool
  needs_bms req =
      (Text.◌==◌ req.chemistry "liion" || Text.◌==◌ req.chemistry "lifepo4")
      && leb 2 req.cells
      && not req.bms_attested

  -- The guards of Compile, in order.
  unfoldable pub request_error : Request → Preset → Option RequestError
  request_error req p =
      let cells = fl.of_int req.cells in
      let v_charge = fl.mul p.v_charge cells in
      let v_ceiling = fl.mul p.v_ceiling cells in
      let v_ovp = fl.mul p.v_ovp cells in
      if ltb req.cells 1
      then some bad_cells
      else if fl.le req.capacity_mah fl.zero64
      then some bad_capacity
      else if fl.le req.charge_a fl.zero64
      then some bad_current
      else if needs_bms req
      then some no_bms
      else if fl.lt (fl.add (fl.mul p.max_charge_c (cap_amps req)) (fl.decimal 1 9)) req.charge_a
      then some above_rate
      else if fl.lt device_max_voltage v_ovp
      then some above_voltage
      else if fl.lt device_max_current req.charge_a
      then some above_current
      else if fl.lt device_max_power (fl.mul v_charge req.charge_a)
      then some above_power
      else if not (fl.le v_charge v_ceiling && fl.le v_ceiling v_ovp)
      then some inverted_margins
      else none

  -- time.Duration(p.timeoutFactor * float64(fill)), fill being the time that the rated charge takes
  abbrev pub main_timeout : Request → Preset → ℕ
  main_timeout req p =
      let fill = fl.truncate (fl.mul (fl.div (cap_amps req) req.charge_a) (fl.of_nanos hour)) in
      fl.truncate (fl.mul p.timeout_factor (fl.of_nanos fill))

  abbrev pub precharge_phase : Request → Preset → Phase
  precharge_phase req p = record {
    kind = precharge;
    volts = fl.mul p.v_charge (fl.of_int req.cells);
    amps = fl.mul p.precharge_c (cap_amps req);
    taper_amps = fl.zero64;
    until_volts = fl.mul p.v_precharge (fl.of_int req.cells);
    hold_to_stop = false;
    timeout = precharge_timeout;
  }

  abbrev pub main_phase : Request → Preset → Phase
  main_phase req p = record {
    kind = main;
    volts = fl.mul p.v_charge (fl.of_int req.cells);
    amps = req.charge_a;
    taper_amps = fl.mul p.taper_c (cap_amps req);
    until_volts = fl.zero64;
    hold_to_stop = false;
    timeout = main_timeout req p;
  }

  abbrev pub float_phase : Request → Preset → Phase
  float_phase req p = record {
    kind = float;
    volts = fl.mul p.v_float (fl.of_int req.cells);
    amps = req.charge_a;
    taper_amps = fl.zero64;
    until_volts = fl.zero64;
    hold_to_stop = true;
    timeout = 0;
  }

  unfoldable pub phases_of : Request → Preset → List Phase
  phases_of req p =
      (if fl.lt fl.zero64 p.v_precharge then precharge_phase req p ∷ [] else [])
      ++ main_phase req p ∷ (if fl.lt fl.zero64 p.v_float then float_phase req p ∷ [] else [])

  unfoldable pub limits_of : Request → Preset → Limits
  limits_of req p =
      let v_charge = fl.mul p.v_charge (fl.of_int req.cells) in
      let bounded =
        (if fl.lt fl.zero64 p.v_precharge then precharge_timeout else 0) + main_timeout req p in
      record {
        ceiling_volts = fl.mul p.v_ceiling (fl.of_int req.cells);
        cap_cap_mah = fl.mul p.cap_cap_fraction req.capacity_mah;
        timeout = bounded + bounded / 10;
        ovp_volts = fl.mul p.v_ovp (fl.of_int req.cells);
        ocp_amps = fl.min2 (fl.mul req.charge_a (fl.decimal 125 2)) device_max_current;
        opp_watts =
            fl.min2 (fl.mul (fl.mul v_charge req.charge_a) (fl.decimal 125 2)) device_max_power;
        otp_celsius = otp_celsius;
      }

  unfoldable pub compile : Request → RequestError ⊎ Plan
  unfolding preset_for request_error phases_of limits_of
  compile req = elim (preset_for req.chemistry) [
    | none ↦ inl unsupported_chemistry
    | some p ↦ elim (request_error req p) [
      | some e ↦ inl e
      | none ↦
          inr (record {
            request = req;
            preset = p;
            phases = phases_of req p;
            limits = limits_of req p;
          })
    ]
  ]

  pub record PreflightResult : Type 0 where
    pub vbat : Float64
    pub vbat_per_cell : Float64
    pub suggested_cells : ℕ
    pub verdict : Verdict
    -- deep discharge, which also is the only warning
    pub needs_confirm : Bool
    pub limits : Limits

  unfoldable pub judge : Preset → ℕ → Float64 → Verdict
  unfolding suggest_cells
  judge p cells vbat =
      let per_cell = fl.div vbat (fl.of_int cells) in
      if fl.lt vbat fl.zero64
      then reversed_polarity
      else if fl.lt vbat no_battery_volts
      then no_battery_or_short
      else if fl.lt p.v_max_rest per_cell
      then voltage_too_high_for_cells
      else if fl.lt per_cell p.v_abs_min
      then voltage_too_low_for_cells
      else if not (suggest_cells p vbat == cells)
      then cell_count_mismatch
      else accepted

  abbrev pub is_accepted : Verdict → Bool
  is_accepted accepted = true
  is_accepted reversed_polarity = false
  is_accepted no_battery_or_short = false
  is_accepted voltage_too_high_for_cells = false
  is_accepted voltage_too_low_for_cells = false
  is_accepted cell_count_mismatch = false

  abbrev pub result_of : Request → Float64 → Plan → Verdict → ℕ → PreflightResult
  result_of req vbat plan verdict suggested =
      let per_cell = fl.div vbat (fl.of_int req.cells) in
      record {
        vbat = vbat;
        vbat_per_cell = per_cell;
        suggested_cells = suggested;
        verdict = verdict;
        needs_confirm =
            is_accepted verdict
            && fl.lt fl.zero64 plan.preset.v_precharge
            && fl.lt per_cell plan.preset.v_precharge;
        limits = plan.limits;
      }

  unfoldable pub preflight : Request → Float64 → RequestError ⊎ PreflightResult
  unfolding compile judge suggest_cells
  preflight req vbat = elim (compile req) [
    | inl e ↦ inl e
    | inr plan ↦ inr (
        result_of req vbat plan (judge plan.preset req.cells vbat) (suggest_cells plan.preset vbat))
  ]
