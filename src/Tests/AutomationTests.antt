-- ===== src/Tests/AutomationTests.antt =====
-- A rule that switches the output off below an ampere, at once.
use dps150_web.Base.{ℕ, ◌≤◌, ◌&&◌, ◌≡◌, refl, true, false, [], ◌∷◌, some}
use dps150_web.Hub.State.{Telemetry, telemetry, status_change}
use dps150_web.Sequence.Program.{Condition}
use dps150_web.Automation.Engine.{
  Rule, RuleState, Engine, fresh, evaluate, condition_holds, with_base, scope_always,
}
use dps150_web.Automation.Engine.Firing.{
  firings, held_long, firings-le, OnTrace, begin, next, evaluate-held_long,
}
use dps150_web.Automation.Engine.Reset.{handle_updates, handle_updates-disconnect}
use dps150_web.Tests.{sample}
use dps150_web.Tests.RunTests.{telemetry_at}
use dps150_web.Tests.SequenceTests.{full}

abbrev stop_rule : Rule sample
stop_rule = record {
  id = 4;
  name = "full";
  enabled = true;
  scope = scope_always;
  condition = some (record full { for_seconds = 3 });
}

abbrev low : ℕ → Telemetry sample
low n = record (telemetry_at n) { current = 0 }

abbrev off_at : ℕ → Telemetry sample
off_at n = record (low n) { output_on = false }

abbrev limit : Condition sample
limit = record full { for_seconds = 3 }

abbrev once : RuleState sample
once = (evaluate sample stop_rule (fresh sample) (low 1)).0

abbrev twice : RuleState sample
twice = (evaluate sample stop_rule once (low 3)).0

abbrev engine : Engine sample
engine = record { rules = stop_rule ∷ []; states = (4, twice) ∷ []; link_up = true }

firings-le_example : firings sample stop_rule (fresh sample) (low 1 ∷ low 4 ∷ low 5 ∷ []) ≤ 1
firings-le_example =
    firings-le sample stop_rule (low 1 ∷ low 4 ∷ low 5 ∷ []) (fresh sample)
      (refl, (refl, (refl, tt)))

pub trace_example : OnTrace sample stop_rule limit twice (low 3 ∷ low 1 ∷ [])
unfolding condition_holds
trace_example = next (low 3) (next (low 1) begin refl) refl

evaluate-held_long_example : (evaluate sample stop_rule twice (low 4)).1 ≡ (
    condition_holds sample limit (low 4) (with_base sample twice (low 4))
    && held_long sample limit (low 4) (low 3 ∷ low 1 ∷ []))
unfolding evaluate
evaluate-held_long_example =
    evaluate-held_long sample stop_rule limit twice (low 3 ∷ low 1 ∷ []) (low 4) refl trace_example
      refl refl

handle_updates-disconnect_example :
    handle_updates sample true engine (
      (false, status_change false "tcp")
      ∷ (false, telemetry (low 2))
      ∷ (false, status_change true "tcp")
      ∷ [])
    ≡ (record engine { link_up = true; states = [] }, [])
handle_updates-disconnect_example =
    handle_updates-disconnect sample true false false engine "tcp" "tcp"
      ((false, telemetry (low 2)) ∷ []) (refl, tt)
