-- ===== src/Ivtrace/Tick.antt =====
-- backend/internal/ivtrace/run.go and manager.go: one input of a sweep, and what a point and a report do to the
-- run. What a run does to the outside is the log of its effects, in order. Telemetry is stamped by one clock, so the
-- difference of two stamps is a number of nanoseconds.
use dps150_web.Base.{
  ℕ, suc, ◌-◌, ◌^◌, Bool, false, List, [], ◌∷◌, ◌++◌, Option, none, some, length, ltb, ◌==◌,
  if◌then◌else◌,
}
use dps150_web.Float.{Floats}
use dps150_web.Protocol.Register
use dps150_web.Hub.State.{Telemetry}
use dps150_web.Ivtrace.Plan.{Plan}

pub data RunState : Type 0 where
  running : RunState
  completed : RunState
  stopped : RunState
  aborted : RunState
  failed : RunState

-- The terminal reasons.
pub data Reason : Type 0 where
  complete : Reason
  user_stop : Reason
  protection : Reason
  telemetry_stale : Reason
  timed_out : Reason
  device_offline : Reason
  output_off_failed : Reason
  shutdown : Reason
  internal_error : Reason

-- errAbort, errStale, errProtection and a faultError.
pub data RunError : Type 0 where
  abort : RunError
  stale_error : RunError
  protection_error : RunError
  fault : Reason → RunError

abbrev pub progress_every : ℕ
progress_every = 10 ^ 9

unfoldable pub classify : Reason → RunState
classify complete = completed
classify user_stop = stopped
classify internal_error = failed
classify protection = aborted
classify telemetry_stale = aborted
classify timed_out = aborted
classify device_offline = aborted
classify output_off_failed = aborted
classify shutdown = aborted

-- `stop`: the cause of the context's end is Stop.
unfoldable pub reason_for : Option RunError → Bool → Reason
reason_for none stop = complete
reason_for (some stale_error) stop = telemetry_stale
reason_for (some protection_error) stop = protection
reason_for (some abort) stop = if stop then user_stop else shutdown
reason_for (some (fault r)) stop = r

module _ (fl : Floats) where
  open fl use {Float64}

  pub record Point : Type 0 where
    pub v : Float64
    pub i : Float64

  -- An update of the hub, the end of the watchdog's time, or the end of the run's context.
  pub data Input : Type 0 where
    tick : Telemetry fl → Input
    trip : ℕ → Input
    other : Input
    stale : Input
    done : Input

  -- What nextTick makes of one input: it goes on waiting, returns a tick, or gives up.
  pub data Seen : Type 0 where
    skipped : Seen
    got : Telemetry fl → Seen
    gone : RunError → Seen

  unfoldable pub see : Input → Seen
  see (tick t) = if t.protection == Register.protection_ok then got t else gone protection_error
  see (trip p) = if p == Register.protection_ok then skipped else gone protection_error
  see other = skipped
  see stale = gone stale_error
  see done = gone abort

  -- What a run changes of its RunStatus; `none` is the -1 of an unknown time to go.
  pub record Status : Type 0 where
    pub state : RunState
    pub reason : Option Reason
    pub step_index : ℕ
    pub point_count : ℕ
    pub last_point : Option Point
    pub voltage : Float64
    pub current : Float64
    pub power : Float64
    pub elapsed_sec : Float64
    pub eta_sec : Option Float64

  -- The fields that the run keeps for itself. `clock` has the time of the first tick and that of the last, once there
  -- is one.
  pub record Vitals : Type 0 where
    pub points : List Point
    pub clock : Option (ℕ × ℕ)
    pub last_prog : Option ℕ

  -- The end of a sweep is stored with its points; the metrics are those of these points.
  pub data Effect : Type 0 where
    progress : Status → Effect
    set_voltage : Float64 → Effect
    set_current : Float64 → Effect
    refresh : Effect
    output : Bool → Effect
    released : Effect
    sweep_finished : Status → List Point → Effect
    journaled : Status → List Point → Effect
    notified : Status → List Point → Effect

  pub record World : Type 0 where
    pub log : List Effect
    pub inputs : List Input
    pub vitals : Vitals
    pub status : Status

  abbrev pub log_effect : World → Effect → World
  log_effect w e = record w { log = w.log ++ e ∷ [] }

  abbrev pub first_of : World → Telemetry fl → ℕ
  first_of w t = elim w.vitals.clock [ none ↦ t.ts | some c ↦ c.0 ]

  -- The times that sampleStep keeps of a tick.
  abbrev pub note_tick : Telemetry fl → World → World
  note_tick t w = record w { vitals = record w.vitals { clock = some (first_of w t, t.ts) } }

  -- `none` for a negative number.
  abbrev pub total_steps_remaining : Plan fl → ℕ → Option ℕ
  total_steps_remaining plan idx =
      if ltb idx (length plan.setpoints) then some (length plan.setpoints - suc idx) else none

  abbrev pub point_of : Telemetry fl → Point
  point_of t = record { v = t.voltage; i = t.current }

  unfoldable pub record_point : Plan fl → ℕ → Telemetry fl → World → World
  record_point plan idx t w =
      let points = w.vitals.points ++ point_of t ∷ [] in
      record w {
        vitals = record w.vitals { points = points };
        status = record w.status {
          step_index = suc idx;
          point_count = length points;
          last_point = some (point_of t);
          voltage = t.voltage;
          current = t.current;
          power = t.power;
          elapsed_sec = fl.seconds (t.ts - first_of w t);
          eta_sec = elim (total_steps_remaining plan idx) [
            | none ↦ none
            | some n ↦ some (fl.mul (fl.of_int n) (fl.seconds plan.dwell))
          ];
        };
      }

  unfoldable pub maybe_progress : ℕ → World → World
  maybe_progress ts w =
      if elim w.vitals.last_prog [ none ↦ false | some s ↦ ltb (ts - s) progress_every ]
      then w
      else log_effect (record w { vitals = record w.vitals { last_prog = some ts } })
          (progress w.status)
