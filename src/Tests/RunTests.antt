-- ===== src/Tests/RunTests.antt =====
-- Runs of a program, and a manager that shares its interlock with a charge.
use dps150_web.Base.{
  ℕ, ◌*◌, ◌≡◌, refl, true, false, List, [], ◌∷◌, ◌++◌, Option, none, some, ◌⊎◌, arith,
}
use dps150_web.Hub.State.{Telemetry}
use dps150_web.Hub.Command.{CommandError}
use dps150_web.Hub.Safety.{Interlock, free, acquire}
use dps150_web.Sequence.Program
use dps150_web.Sequence.Program.{Condition, validate}
use dps150_web.Sequence.Run.{
  Input, tick, other, Effect, World, see, fresh, hold_loop, ramp_loop, execute,
}
use dps150_web.Sequence.Run.Hold.{hold_loop-elapsed}
use dps150_web.Sequence.Run.Ramp.{Wrote, ramp_loop-Wrote}
use dps150_web.Sequence.Run.Walk.{EndsOff, execute-EndsOff}
use dps150_web.Sequence.Manager.{Manager, start, interlock_owner}
use dps150_web.Sequence.Manager.Ownership.{here, next, started, foreign_acquired, Reach-acquire}
use dps150_web.Tests.{sample}
use dps150_web.Tests.SequenceTests.{charge, unspaced, ramp, accepted}

-- A second after second.
abbrev at : ℕ → Input sample
at n = tick (record {
  voltage = 12;
  current = 1;
  power = 12;
  input_voltage = 20;
  temperature = 30;
  mode = 0;
  protection = 0;
  output_on = true;
  capacity_ah = 0;
  energy_wh = 0;
  ts = n * 1_000_000_000;
})

abbrev agrees : List (Effect sample) → Option CommandError
agrees log = none

abbrev begin : World sample
begin = record { log = []; inputs = at 1 ∷ other ∷ at 2 ∷ []; path = [] }

execute-EndsOff_example : EndsOff sample agrees begin (execute sample agrees charge false begin)
execute-EndsOff_example = execute-EndsOff sample agrees unspaced charge false begin accepted

abbrev pub telemetry_at : ℕ → Telemetry sample
telemetry_at n = record {
  voltage = 12;
  current = 1;
  power = 12;
  input_voltage = 20;
  temperature = 30;
  mode = 0;
  protection = 0;
  output_on = true;
  capacity_ah = 0;
  energy_wh = 0;
  ts = n * 1_000_000_000;
}

abbrev a_while : Condition sample
a_while = record { type = "elapsedAbove"; amps = 0; ah = 0; wh = 0; seconds = 5; for_seconds = 0 }

hold_loop-elapsed_example :
    (hold_loop sample a_while (fresh sample) (at 1 ∷ (at 3 ∷ other ∷ []) ++ at 7 ∷ [])).1 ≡ none
unfolding see
hold_loop-elapsed_example =
    hold_loop-elapsed sample a_while (at 1) (at 7) (at 3 ∷ other ∷ []) [] (telemetry_at 1)
      (telemetry_at 7) refl refl ((λ e q. cc), (λ e q. cc, tt)) refl (omega arith)

ramp_ends : (ramp_loop sample agrees ramp (at 1 ∷ at 70 ∷ []) none none begin).1 ≡ none
unfolding ramp_loop
ramp_ends = refl

ramp_loop-Wrote_example :
    Wrote sample agrees
      (sample.add ramp.from (sample.mul (sample.sub ramp.to ramp.from) (sample.decimal 1 0)))
      (ramp_loop sample agrees ramp (at 1 ∷ at 70 ∷ []) none none begin).0
ramp_loop-Wrote_example =
    ramp_loop-Wrote sample agrees ramp (at 1 ∷ at 70 ∷ []) none none begin refl ramp_ends

abbrev idle : Manager
idle = record { interlock = some free; active = none }

abbrev busy_manager : Manager
busy_manager = (start sample unspaced idle charge 4 none).0

abbrev contended : Manager
contended = record busy_manager {
  interlock = some (acquire (record { owner = interlock_owner }) "charge").0;
}

Reach-acquire_example :
    (contended.active ≡ none)
    ⊎ ((i : Interlock) × (contended.interlock ≡ some i)
        × (i.owner ≡ interlock_owner)
        × ((acquire i "charge").1 ≡ false))
unfolding start validate Program.validate_nodes Program.validate_list Program.node_error
    Program.ramp_error Program.ramp_target_max Program.set_hold_error Program.condition_valid
    acquire
Reach-acquire_example = Reach-acquire sample unspaced "charge" (
    next (next here (started charge 4 none))
      (foreign_acquired (record { owner = interlock_owner }) "charge" refl refl))
