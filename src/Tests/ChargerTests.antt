-- ===== src/Tests/ChargerTests.antt =====
-- A charge of two lithium cells at two amperes.
use dps150_web.Base.{ℕ, ◌≡◌, refl, true, false, List, [], ◌∷◌, ◌++◌, Option, none, some, inr}
use dps150_web.Hub.State.{Telemetry, Update, telemetry}
use dps150_web.Hub.Command.{CommandError}
use dps150_web.Charger.Plan.{
  precharge, Request, Phase, Plan, PreflightResult, accepted, li_ion, phases_of, limits_of,
  precharge_phase, preset_for, request_error, compile, judge, suggest_cells, result_of, preflight,
  accepted,
}
use dps150_web.Charger.Plan.Envelope.{IsJudged, preflight-IsJudged}
use dps150_web.Charger.Run.{
  Config, running, Status, Vitals, World, Input, tick, other, voltage_ceiling, Effect, see, got,
  envelope, terminates, note_tick, phase_loop, execute, update_status, maybe_refresh,
  maybe_progress, maybe_capture_cc_onset,
}
use dps150_web.Charger.Run.Monitor.{IsAny, phase_loop-Within, phase_loop-IsCause}
use dps150_web.Charger.Run.Within.{Within, IsCause, first_of, counter_of, counters_of}
use dps150_web.Charger.Run.Walk.{EndsSafe, execute-EndsSafe}
use dps150_web.Hub.Safety.{free, acquire}
use dps150_web.Charger.Manager
use dps150_web.Charger.Manager.{
  Manager, Call, set_protections, set_voltage, set_current, set_output, Reading, settled, View,
  claim, ensure_output_off, read_vbat, apply_start_order, launch, check_and_launch,
  measure_and_launch, start,
}
use dps150_web.Charger.Manager.Start.{IsStart, start-IsStart}
use dps150_web.Tests.{sample}
use dps150_web.Tests.RunTests.{telemetry_at}

abbrev request : Request sample
request = record {
  chemistry = "liion";
  cells = 2;
  capacity_mah = 2000;
  charge_a = 2;
  bms_attested = true;
}

abbrev plan : Plan sample
plan = record {
  request = request;
  preset = li_ion sample;
  phases = phases_of sample request (li_ion sample);
  limits = limits_of sample request (li_ion sample);
}

abbrev first_phase : Phase sample
first_phase = precharge_phase sample request (li_ion sample)

abbrev result : PreflightResult sample
result = result_of sample request 8 plan accepted 2

judged : preflight sample request 8 ≡ inr result
unfolding preflight compile preset_for request_error judge suggest_cells
judged = refl

preflight-IsJudged_example : IsJudged sample request 8 result
preflight-IsJudged_example = preflight-IsJudged sample request 8 result judged

abbrev at : ℕ → ℕ → Input sample
at n volts = tick (record (telemetry_at n) { voltage = volts })

abbrev config : Config
config = record { taper_hold = 10; refresh_every = 5; recording = true; notifying = false }

abbrev status : Status sample
status = record {
  phase = precharge;
  phase_index = 0;
  state = running;
  reason = none;
  voltage = 0;
  current = 0;
  power = 0;
  in_cv = false;
  delivered_mah = 0;
  delivered_wh = 0;
  peak_voltage = 0;
  elapsed_sec = 0;
  eta_sec = none;
}

abbrev vitals : Vitals sample
vitals = record {
  base = none;
  last_cap = 0;
  peak_v = 0;
  last_refresh = none;
  last_prog = none;
  captured = false;
  cc_high_ticks = 0;
}

abbrev rising : List (Input sample)
rising = at 1 5 ∷ other ∷ at 2 7 ∷ at 3 9 ∷ []

abbrev begin : World sample
begin = record { log = []; inputs = rising; vitals = vitals; status = status }

phase_loop-Within_example :
    (consumed : List (Input sample)) × (rising
      ≡ consumed ++ (phase_loop sample config plan first_phase rising none none begin).0.inputs)
    × Within sample plan first_phase
        (IsAny sample plan first_phase)
        none
        (counters_of sample plan first_phase begin.vitals)
        consumed
unfolding phase_loop see envelope terminates note_tick update_status maybe_refresh maybe_progress
    maybe_capture_cc_onset limits_of
phase_loop-Within_example =
    phase_loop-Within sample plan first_phase config rising none none begin refl

abbrev spike : List (Input sample)
spike = at 1 5 ∷ other ∷ at 2 9 ∷ at 3 5 ∷ []

phase_loop-IsCause_example :
    (consumed : List (Input sample)) × (i : Input sample) × (t : Telemetry sample) × (spike
      ≡ consumed ++ i ∷ (phase_loop sample config plan first_phase spike none none begin).0.inputs)
    × (see sample i ≡ got t)
    × Within sample plan first_phase
        (λ s c.
          IsCause sample plan first_phase
            (first_of sample plan first_phase s t)
            (counter_of sample plan first_phase c t).0
            (counter_of sample plan first_phase c t).1
            t
            voltage_ceiling)
        none
        (counters_of sample plan first_phase begin.vitals)
        consumed
unfolding phase_loop see envelope terminates note_tick update_status maybe_refresh maybe_progress
    maybe_capture_cc_onset limits_of
phase_loop-IsCause_example =
    phase_loop-IsCause sample plan first_phase config spike none none begin voltage_ceiling refl

abbrev agrees : List (Effect sample) → Option CommandError
agrees log = none

abbrev shown : List (Update sample)
shown = telemetry (record (telemetry_at 4) { output_on = false }) ∷ []

execute-EndsSafe_example :
    EndsSafe sample config plan agrees shown begin
      (execute sample agrees config plan false shown begin)
execute-EndsSafe_example = execute-EndsSafe sample config plan agrees false shown begin

abbrev idle : Manager
idle = record { interlock = some free; active = none }

abbrev view : View sample
view = record { connected = true; output_on = true; voltage = none }

abbrev accepts : List (Call sample) → Option CommandError
accepts log = none

abbrev rest_reading : List (Reading sample)
rest_reading =
    Manager.tick (record (telemetry_at 1) { output_on = false; voltage = 8 }) ∷ settled ∷ []

start-IsStart_example :
    IsStart sample accepts idle request 7
      (start sample accepts idle request false view rest_reading 7)
start-IsStart_example = start-IsStart sample accepts idle request false view rest_reading 7

started_in_order :
    (start sample accepts idle request false view rest_reading 7).1
    ≡ set_output false
      ∷ set_protections plan.limits
      ∷ set_voltage 8
      ∷ set_current 0
      ∷ set_output true
      ∷ []
unfolding start compile preset_for request_error claim acquire measure_and_launch ensure_output_off
    read_vbat check_and_launch preflight judge suggest_cells launch apply_start_order phases_of
started_in_order = refl
