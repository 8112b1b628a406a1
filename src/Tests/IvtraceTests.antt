-- ===== src/Tests/IvtraceTests.antt =====
-- A sweep of a resistor from 1 to 5 volts.
use dps150_web.Base.{
  ℕ, ◌*◌, ◌^◌, ◌≤◌, ◌≡◌, refl, true, false, List, [], ◌∷◌, Option, none, some, ◌⊎◌, inr, ltb, leb,
  arith, if◌then◌else◌,
}
use dps150_web.Hub.State.{Update, telemetry}
use dps150_web.Hub.Command.{CommandError}
use dps150_web.Hub.Safety.{free, acquire}
use dps150_web.Ivtrace.Plan.{
  Request, Plan, plan_of, compile, request_error, build_setpoints, protection_limits,
}
use dps150_web.Ivtrace.Plan.Envelope.{IsCompiled, compile-IsCompiled}
use dps150_web.Ivtrace.Run.{
  Config, running, Point, Input, tick, other, World, Effect, drive, execute, see, sample_step,
  sample_loop, record_point, maybe_progress,
}
use dps150_web.Ivtrace.Run.Finish.{Concludes, execute-Concludes}
use dps150_web.Ivtrace.Manager.{
  Manager, Call, set_protections, set_voltage, set_current, set_output, start, claim, launch,
  apply_start_order,
}
use dps150_web.Ivtrace.Manager.Start.{IsBegun, start-IsBegun}
use dps150_web.Ivtrace.Fit.{Maths, max_current}
use dps150_web.Ivtrace.Analyze.{
  AnalysisParams, analyze_diode, no_diode, did_not_conduct, vt, ref_of, top_frac_of,
}
use dps150_web.Ivtrace.Analyze.Support.{IsSupported, analyze_diode-IsSupported}
use dps150_web.Tests.{sample}
use dps150_web.Tests.RunTests.{telemetry_at}

abbrev request : Request sample
request = record {
  component = "resistor";
  mode = "voltage";
  v_start = 1;
  v_stop = 5;
  i_start = 0;
  i_stop = 0;
  steps = 3;
  dwell_ms = 1000;
  compliance_a = 2;
  compliance_v = 0;
  params = "";
}

abbrev plan : Plan sample
plan = plan_of sample request

compiled : compile sample request ≡ inr plan
unfolding compile request_error build_setpoints
compiled = refl

compile-IsCompiled_example : IsCompiled sample request (compile sample request)
compile-IsCompiled_example = compile-IsCompiled sample request

swept : plan.setpoints ≡ 1 ∷ 3 ∷ 5 ∷ []
unfolding build_setpoints
swept = refl

abbrev at : ℕ → ℕ → Input sample
at n volts = tick (record (telemetry_at n) { voltage = volts })

-- The first tick is what the first dwell is measured from.
abbrev ticks : List (Input sample)
ticks = at 1 0 ∷ at 2 1 ∷ other ∷ at 3 3 ∷ at 5 5 ∷ []

abbrev config : Config
config = record { recording = true; notifying = false }

abbrev begin : World sample
begin = record {
  log = [];
  inputs = ticks;
  vitals = record { points = []; clock = none; last_prog = none };
  status = record {
    state = running;
    reason = none;
    step_index = 0;
    point_count = 0;
    last_point = none;
    voltage = 0;
    current = 0;
    power = 0;
    elapsed_sec = 0;
    eta_sec = none;
  };
}

abbrev agrees : List (Effect sample) → Option CommandError
agrees log = none

abbrev point : ℕ → ℕ → Point sample
point volts amps = record { v = volts; i = amps }

recorded :
    (drive sample agrees plan plan.setpoints 0 begin).0.vitals.points
    ≡ point 1 1 ∷ point 3 1 ∷ point 5 1 ∷ []
unfolding drive sample_step sample_loop see record_point maybe_progress build_setpoints
recorded = refl

abbrev shown : List (Update sample)
shown = telemetry (record (telemetry_at 6) { output_on = false }) ∷ []

long_enough : 1 ≤ 1000 * 10 ^ 6
long_enough = omega arith

execute-Concludes_example :
    Concludes sample agrees config plan shown begin
      (execute sample agrees config plan false shown begin)
execute-Concludes_example =
    execute-Concludes sample agrees config plan false shown begin long_enough refl

abbrev idle : Manager
idle = record { interlock = some free; active = none }

abbrev accepts : List (Call sample) → Option CommandError
accepts log = none

start-IsBegun_example :
    IsBegun sample accepts idle request 7 (start sample accepts idle request true 7)
start-IsBegun_example = start-IsBegun sample accepts idle request true 7

energized_last :
    (start sample accepts idle request true 7).1
    ≡ set_protections (protection_limits sample plan.protections)
      ∷ set_current 2
      ∷ set_voltage 1
      ∷ set_output true
      ∷ []
unfolding start compile request_error claim acquire launch apply_start_order build_setpoints
energized_last = refl

-- Whole numbers in place of floats.
abbrev maths : Maths sample
maths = record {
  minimum = λ a b. if leb a b then a else b;
  maximum = λ a b. if leb a b then b else a;
  abs = λ a. a;
  log = λ a. a;
  exp = λ a. a;
  int_ceil = λ a. a;
  sort_by_current = λ ps. ps;
}

abbrev curve : List (Point sample)
curve = point 1 0 ∷ point 2 10 ∷ point 4 30 ∷ []

abbrev params : AnalysisParams sample
params = record {
  ref_current_a = some 20;
  junction_temp_k = none;
  izt_a = none;
  fit_high_frac = none;
}

analyze_diode-IsSupported_example :
    ((ltb (max_current sample curve) 0 ≡ true)
      × (analyze_diode sample maths curve params 40 true
          ≡ record (no_diode sample) { notes = did_not_conduct ∷ [] }))
    ⊎ ((ltb (max_current sample curve) 0 ≡ false)
        × IsSupported sample maths curve
            (vt sample params)
            (ref_of sample maths params true)
            (sample.mul (sample.sub (sample.decimal 10 1) (sample.decimal 5 2)) 40)
            (top_frac_of sample maths params)
            (analyze_diode sample maths curve params 40 true))
analyze_diode-IsSupported_example = analyze_diode-IsSupported sample maths curve params 40 true
