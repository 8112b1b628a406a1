-- ===== src/Tests/SequenceTests.antt =====
-- A program with a ramp in a loop, and a hold after it.
use dps150_web.Base.{◌≡◌, refl, ◌↔◌, none, some}
use Prim.Native.String.{String}
use dps150_web.Sequence.Program.{
  Condition, Fields, no_nodes, node, Program, validate, validate_nodes, validate_list, node_error,
  set_hold_error, ramp_error, condition_valid, ramp_target_max,
}
use dps150_web.Sequence.Program.Validation.{IsRunnable}
use dps150_web.Sequence.Program.Acceptance.{validate-none_iff}
use dps150_web.Tests.{sample}

abbrev pub blank_fields : Fields sample
blank_fields = record {
  type = "";
  volts = 0;
  amps = 0;
  advance = none;
  target = "";
  from = 0;
  to = 0;
  seconds = 0;
  repeat = 0;
}

abbrev pub full : Condition sample
full = record { type = "currentBelow"; amps = 1; ah = 0; wh = 0; seconds = 0; for_seconds = 30 }

abbrev pub hold : Fields sample
hold = record blank_fields { type = "setHold"; volts = 12; amps = 2; advance = some full }

abbrev pub ramp : Fields sample
ramp = record blank_fields { type = "ramp"; target = "voltage"; from = 3; to = 12; seconds = 60 }

abbrev pub cycles : Fields sample
cycles = record blank_fields { type = "loop"; repeat = 3 }

abbrev pub charge : Program sample
charge = record {
  name = "charge";
  steps = node cycles (node ramp no_nodes no_nodes) (node hold no_nodes no_nodes);
  repeat = 1;
}

abbrev pub unspaced : String → String
unspaced s = s

pub accepted : validate sample unspaced charge ≡ none
unfolding validate validate_nodes validate_list node_error set_hold_error ramp_error condition_valid
    ramp_target_max
accepted = refl

validate-none_iff_example :
    (validate sample unspaced charge ≡ none) ↔ IsRunnable sample unspaced charge
validate-none_iff_example = validate-none_iff sample unspaced charge
