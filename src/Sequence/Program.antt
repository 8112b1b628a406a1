-- ===== src/Sequence/Program.antt =====
-- backend/internal/sequence/program.go: programs and their validation, with the conditions of
-- backend/internal/automation/engine.go. A repeat count is a natural number: a negative one, which
-- the guards refuse as they refuse 0, is not represented.
pub mod Validation
pub mod Acceptance
use dps150_web.Base.{ℕ, ◌+◌, Bool, true, false, not, ◌||◌, Option, none, some, ltb, if◌then◌else◌}
use Prim.Native.String.{String}
use text.Mathlib.Text.{◌==◌}
use dps150_web.Float.{Floats}
use dps150_web.Hub.State.{fallback_max_voltage, fallback_max_current}

abbrev pub max_nesting_depth : ℕ
max_nesting_depth = 5

abbrev pub max_node_count : ℕ
max_node_count = 200

-- The errors of Validate, by what they complain of.
pub data Invalid : Type 0 where
  empty_name : Invalid
  no_steps : Invalid
  program_repeat : Invalid
  too_deep : Invalid
  too_many : Invalid
  volts_range : Invalid
  amps_range : Invalid
  advance_missing : Invalid
  advance_invalid : Invalid
  ramp_target : Invalid
  ramp_from : Invalid
  ramp_to : Invalid
  ramp_seconds : Invalid
  loop_repeat : Invalid
  loop_empty : Invalid
  unknown_type : Invalid

-- The node count so far, or the error.
pub data Checked : Type 0 where
  counted : ℕ → Checked
  invalid : Invalid → Checked

module _ (fl : Floats) where
  open fl use {Float64}

  pub record Condition : Type 0 where
    pub type : String
    pub amps : Float64
    pub ah : Float64
    pub wh : Float64
    pub seconds : Float64
    pub for_seconds : Float64

  -- The fields of a node, without its children.
  pub record Fields : Type 0 where
    pub type : String
    pub volts : Float64
    pub amps : Float64
    pub advance : Option Condition
    pub target : String
    pub from : Float64
    pub to : Float64
    pub seconds : Float64
    pub repeat : ℕ

  -- A list of nodes: the fields of the first, its children, and the nodes after it.
  pub data Nodes : Type 0 where
    no_nodes : Nodes
    node : Fields → Nodes → Nodes → Nodes

  pub record Program : Type 0 where
    pub name : String
    pub steps : Nodes
    pub repeat : ℕ

  -- `v > 0`, as the negation of the code's `v <= 0`.
  abbrev pub positive : Float64 → Bool
  positive v = not (fl.le v fl.zero64)

  -- Condition.Validate; the message of the error is not kept.
  unfoldable pub condition_valid : Condition → Bool
  condition_valid c =
      if c.type == "currentBelow"
      then (if positive c.amps then positive c.for_seconds else false)
      else if c.type == "capacityAbove"
      then positive c.ah
      else if c.type == "energyAbove"
      then positive c.wh
      else if c.type == "elapsedAbove"
      then positive c.seconds
      else false

  unfoldable pub ramp_target_max : String → Option Float64
  ramp_target_max target =
      if target == "voltage"
      then some (fallback_max_voltage fl)
      else if target == "current"
      then some (fallback_max_current fl)
      else none

  abbrev pub out_of : Float64 → Float64 → Bool
  out_of v hi = fl.lt v fl.zero64 || fl.lt hi v

  unfoldable pub set_hold_error : Fields → Option Invalid
  set_hold_error f =
      if out_of f.volts (fallback_max_voltage fl)
      then some volts_range
      else if out_of f.amps (fallback_max_current fl)
      then some amps_range
      else elim f.advance [
        | none ↦ some advance_missing
        | some c ↦ if condition_valid c then none else some advance_invalid
      ]

  unfoldable pub ramp_error : Fields → Option Invalid
  ramp_error f = elim (ramp_target_max f.target) [
    | none ↦ some ramp_target
    | some hi ↦
        if out_of f.from hi
        then some ramp_from
        else if out_of f.to hi
        then some ramp_to
        else if positive f.seconds
        then none
        else some ramp_seconds
  ]

  abbrev pub is_empty : Nodes → Bool
  is_empty no_nodes = true
  is_empty (node f cs ns) = false

  -- What validateNode checks of a node before it goes down to the children of a loop.
  unfoldable pub node_error : Fields → Nodes → Option Invalid
  node_error f children =
      if f.type == "setHold"
      then set_hold_error f
      else if f.type == "ramp"
      then ramp_error f
      else if f.type == "loop"
      then (if ltb f.repeat 1
          then some loop_repeat
          else (if is_empty children then some loop_empty else none))
      else some unknown_type

  abbrev pub is_loop : Fields → Bool
  is_loop f = f.type == "loop"

  -- The loop of validateNodes, after its test of the depth. Only a loop's children are looked at.
  unfoldable pub validate_list : ℕ → Nodes → ℕ → Checked
  validate_list depth no_nodes count = counted count
  validate_list depth (node f children rest) count =
      let below = validate_list (depth + 1) children (count + 1) in
      let deeper = if ltb max_nesting_depth (depth + 1) then invalid too_deep else below in
      let here = if is_loop f then deeper else counted (count + 1) in
      if ltb max_node_count (count + 1) then invalid too_many else elim (node_error f children) [
        | some e ↦ invalid e
        | none ↦ elim here [ invalid e ↦ invalid e | counted c ↦ validate_list depth rest c ]
      ]

  unfoldable pub validate_nodes : ℕ → Nodes → ℕ → Checked
  validate_nodes depth nodes count =
      if ltb max_nesting_depth depth then invalid too_deep else validate_list depth nodes count

  -- `trim_space` is strings.TrimSpace.
  unfoldable pub validate : (String → String) → Program → Option Invalid
  validate trim_space p =
      if trim_space p.name == ""
      then some empty_name
      else if is_empty p.steps
      then some no_steps
      else if ltb p.repeat 1
      then some program_repeat
      else elim (validate_nodes 1 p.steps 0) [ counted c ↦ none | invalid e ↦ some e ]
