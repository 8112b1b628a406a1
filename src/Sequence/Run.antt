-- ===== src/Sequence/Run.antt =====
-- backend/internal/sequence/manager.go: the run of a program. What a run does to the outside is the
-- log of its effects, in order; `reply` gives the hub's answer to the last call of a log, whatever
-- the hub and the device make of it. What a run receives is the list of its inputs, which ends when
-- the subscription closes. Telemetry is stamped by one clock, so the difference of two stamps is a
-- number of nanoseconds.
pub mod Hold
pub mod Ramp
pub mod Drives
pub mod Walk
use dps150_web.Base.{
  ℕ, zero, suc, ◌+◌, ◌-◌, Bool, true, false, not, ◌&&◌, List, [], ◌∷◌, ◌++◌, Option, none, some,
  ltb, leb, ◌==◌, if◌then◌else◌,
}
use Prim.Native.String.{String}
use dps150_web.Float.{Floats}
use dps150_web.Protocol.Register
use dps150_web.Hub.State.{Telemetry}
use dps150_web.Hub.Command.{CommandError}
use dps150_web.Hub.Safety.{safe_output_off}
use dps150_web.Sequence.Program
use dps150_web.Sequence.Program.{Condition, Fields, Nodes, no_nodes, node, Program}
use text.Mathlib.Text as Text

-- The values of RunStatus.State.
pub data RunState : Type 0 where
  running : RunState
  completed : RunState
  stopped : RunState
  aborted : RunState
  failed : RunState

-- Why a run ends early: an error of the hub, a protection trip, the cancelled context (or the closed
-- subscription), or a node that Validate would have refused.
pub data RunError : Type 0 where
  hub_error : CommandError → RunError
  protection : RunError
  cancelled : RunError
  unknown_node : RunError

abbrev pub ramp_min_interval : ℕ
ramp_min_interval = 100_000_000

module _ (fl : Floats) where
  open fl use {Float64}

  -- An update of the hub, or the end of the run's context.
  pub data Input : Type 0 where
    tick : Telemetry fl → Input
    trip : ℕ → Input
    other : Input
    done : Input

  pub data Effect : Type 0 where
    progress : RunState → List ℕ → Effect
    voltage : Float64 → Effect
    current : Float64 → Effect
    output : Bool → Effect
    released : Effect
    journaled : RunState → Effect

  -- What nextTelemetry makes of one input: it goes on waiting, returns a tick, or gives up.
  pub data Seen : Type 0 where
    skipped : Seen
    got : Telemetry fl → Seen
    gone : RunError → Seen

  unfoldable pub see : Input → Seen
  see (tick t) = if t.protection == Register.protection_ok then got t else gone protection
  see (trip p) = if p == Register.protection_ok then skipped else gone protection
  see other = skipped
  see done = gone cancelled

  pub record AdvanceState : Type 0 where
    -- the capacity, the energy and the time of the first tick
    pub baseline : Option (Float64 × Float64 × ℕ)
    -- since when the current has been below the threshold
    pub held_since : Option ℕ

  abbrev pub fresh : AdvanceState
  fresh = record { baseline = none; held_since = none }

  -- The baseline, captured on the first tick.
  abbrev pub base_of : AdvanceState → Telemetry fl → Float64 × Float64 × ℕ
  base_of a t = elim a.baseline [ none ↦ (t.capacity_ah, t.energy_wh, t.ts) | some b ↦ b ]

  abbrev pub held_from : AdvanceState → Telemetry fl → ℕ
  held_from a t = elim a.held_since [ none ↦ t.ts | some s ↦ s ]

  -- The state and whether the condition now holds.
  unfoldable pub observe : AdvanceState → Condition fl → Telemetry fl → AdvanceState × Bool
  observe a c t =
      let (cap, energy, start) = base_of a t in
      let based : AdvanceState = record a { baseline = some (cap, energy, start) } in
      if Text.◌==◌ c.type "currentBelow"
      then (if fl.le c.amps t.current then (record based { held_since = none }, false) else (
        record based { held_since = some (held_from a t) },
        leb (fl.to_duration c.for_seconds) (t.ts - held_from a t),
      ))
      else if Text.◌==◌ c.type "capacityAbove"
      then (based, fl.le c.ah (fl.sub t.capacity_ah cap))
      else if Text.◌==◌ c.type "energyAbove"
      then (based, fl.le c.wh (fl.sub t.energy_wh energy))
      else if Text.◌==◌ c.type "elapsedAbove"
      then (based, leb (fl.to_duration c.seconds) (t.ts - start))
      else (based, false)

  -- The log, the inputs to come, and the step path of the status.
  pub record World : Type 0 where
    pub log : List Effect
    pub inputs : List Input
    pub path : List ℕ

  abbrev pub Outcome : Type 0
  Outcome = World × Option RunError

  abbrev pub emit : World → Effect → World
  emit w e = record w { log = w.log ++ e ∷ [] }

  -- The loop of runSetHold: what is left of the inputs, and the error.
  unfoldable pub hold_loop : Condition fl → AdvanceState → List Input → List Input × Option RunError
  unfolding see observe
  hold_loop c a [] = ([], some cancelled)
  hold_loop c a (i ∷ is) = elim (see i) [
    | skipped ↦ hold_loop c a is
    | gone e ↦ (is, some e)
    | got t ↦
        let (a', holds) = observe a c t in
        elim holds [ true ↦ (is, none) | false ↦ hold_loop c a' is ]
  ]

  module _ (reply : List Effect → Option CommandError) where
    -- A call of the hub, and then the rest unless it fails.
    abbrev pub call : World → Effect → (World → Outcome) → Outcome
    call w e next = elim (reply (w.log ++ e ∷ [])) [
      | some x ↦ (emit w e, some (hub_error x))
      | none ↦ next (emit w e)
    ]

    -- The condition is never missing in a validated program; without it Go would panic.
    unfoldable pub hold_phase : Fields fl → World → Outcome
    unfolding hold_loop
    hold_phase f w = elim f.advance [
      | none ↦ (w, some unknown_node)
      | some c ↦ let (left, e) = hold_loop c fresh w.inputs in (record w { inputs = left }, e)
    ]

    unfoldable pub run_set_hold : Fields fl → World → Outcome
    unfolding hold_phase
    run_set_hold f w = call w (voltage f.volts) (λ w'. call w' (current f.amps) (hold_phase f))

    -- The fraction of the ramp that has passed, and whether the ramp is over.
    unfoldable pub ramp_fraction : Fields fl → ℕ → ℕ → Float64 × Bool
    ramp_fraction f start ts =
        let dur = fl.to_duration f.seconds in
        let frac =
          if ltb 0 dur
          then fl.div (fl.of_nanos (ts - start)) (fl.of_nanos dur)
          else fl.decimal 1 0 in
        let positive = if fl.lt frac fl.zero64 then fl.zero64 else frac in
        if fl.le (fl.decimal 1 0) positive then (fl.decimal 1 0, true) else (positive, false)

    -- n.From + (n.To-n.From)*frac
    abbrev pub ramp_value : Fields fl → Float64 → Float64
    ramp_value f frac = fl.add f.from (fl.mul (fl.sub f.to f.from) frac)

    -- A write too soon after the last one is left out.
    abbrev pub too_soon : Option ℕ → ℕ → Bool
    too_soon last ts = elim last [ none ↦ false | some s ↦ ltb (ts - s) ramp_min_interval ]

    -- The write of a ramp: a target that is neither leaves the device alone.
    abbrev pub ramp_write : Fields fl → World → Float64 → (World → Outcome) → Outcome
    ramp_write f w v next =
        if Text.◌==◌ f.target "voltage"
        then call w (voltage v) next
        else if Text.◌==◌ f.target "current"
        then call w (current v) next
        else next w

    -- After a write the ramp ends, or goes on with `rest`.
    abbrev pub after_write : Bool → List Input → (World → Outcome) → World → Outcome
    after_write true is rest w = (record w { inputs = is }, none)
    after_write false is rest w = rest w

    -- One tick of runRamp at the fraction `frac`: `quiet` is the course of the loop without a write.
    unfoldable pub ramp_tick :
        Fields fl
        → Float64
        → Bool
        → Bool
        → List Input
        → Outcome
        → (World → Outcome)
        → World
        → Outcome
    ramp_tick f frac over soon is quiet rest w =
        if not over && soon
        then quiet
        else ramp_write f w (ramp_value f frac) (after_write over is rest)

    -- The loop of runRamp, with the time of its first tick and of its last write.
    unfoldable pub ramp_loop : Fields fl → List Input → Option ℕ → Option ℕ → World → Outcome
    unfolding see ramp_fraction ramp_tick
    ramp_loop f [] start last w = (record w { inputs = [] }, some cancelled)
    ramp_loop f (i ∷ is) start last w =
        let from : Telemetry fl → ℕ = λ t. elim start [ none ↦ t.ts | some s ↦ s ] in
        elim (see i) [
          | skipped ↦ ramp_loop f is start last w
          | gone e ↦ (record w { inputs = is }, some e)
          | got t ↦
              let (frac, over) = ramp_fraction f (from t) t.ts in
              ramp_tick f frac over (too_soon last t.ts) is (ramp_loop f is (some (from t)) last w)
                (λ w'. ramp_loop f is (some (from t)) (some t.ts) w') w
        ]

    unfoldable pub run_ramp : Fields fl → World → Outcome
    unfolding ramp_loop
    run_ramp f w = ramp_loop f w.inputs none none w

    -- `enter`: the step path, and a progress event.
    abbrev pub enter : List ℕ → World → World
    enter path w = emit (record w { path = path }) (progress running path)

    -- A body run a number of times, until it fails.
    unfoldable pub times : ℕ → (World → Outcome) → World → Outcome
    times zero body w = (w, none)
    times (suc n) body w =
        let (w', e) = body w in elim e [ some x ↦ (w', some x) | none ↦ times n body w' ]

    -- runNode, with the outcome of a loop's repetitions.
    unfoldable pub run_node : Fields fl → Outcome → World → Outcome
    unfolding run_set_hold run_ramp
    run_node f looped w =
        if Text.◌==◌ f.type "setHold"
        then run_set_hold f w
        else if Text.◌==◌ f.type "ramp"
        then run_ramp f w
        else if Text.◌==◌ f.type "loop"
        then looped
        else (w, some unknown_node)

    -- What follows a node that did not fail.
    abbrev pub and_then : Outcome → (World → Outcome) → Outcome
    and_then (w, some x) next = (w, some x)
    and_then (w, none) next = next w

    -- runNodes from the node at index `i` on.
    unfoldable pub run_nodes : Nodes fl → List ℕ → ℕ → World → Outcome
    unfolding run_node times
    run_nodes no_nodes parent i w = (w, none)
    run_nodes (node f children rest) parent i w =
        let path = parent ++ i ∷ [] in
        let at = enter path w in
        let looped = times f.repeat (λ v. run_nodes children path 0 v) at in
        and_then (run_node f looped at) (λ v. run_nodes rest parent (i + 1) v)

    unfoldable pub drive : Program fl → World → Outcome
    unfolding run_nodes times
    drive p w = times p.repeat (λ v. run_nodes p.steps [] 0 v) w

    -- `stop`: the cause of the context's end is Stop.
    unfoldable pub terminal_state : Option RunError → Bool → RunState
    terminal_state none stop = completed
    terminal_state (some protection) stop = aborted
    terminal_state (some cancelled) stop = if stop then stopped else aborted
    terminal_state (some (hub_error x)) stop = failed
    terminal_state (some unknown_node) stop = failed

    abbrev pub offs : ℕ → List Effect
    offs zero = []
    offs (suc n) = output false ∷ offs n

    -- SafeOutputOff, whose error is only logged.
    unfoldable pub output_off : World → World
    unfolding safe_output_off
    output_off w =
        let (e, made) = safe_output_off (λ n. reply (w.log ++ offs (suc n))) in
        record w { log = w.log ++ offs made }

    unfoldable pub finish : RunState → World → World
    finish state w = record w {
      log = w.log ++ released ∷ progress state w.path ∷ journaled state ∷ [];
    }

    unfoldable pub execute : Program fl → Bool → World → World × RunState
    unfolding drive output_off finish terminal_state
    execute p stop w =
        let (driven, e) = drive p (emit w (progress running w.path)) in
        let state = terminal_state e stop in (finish state (output_off driven), state)
