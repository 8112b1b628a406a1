-- ===== src/Charger/Tick.antt =====
-- backend/internal/charger/run.go: one input of a charge's run and what a tick of telemetry does to the
-- run. What a run does to the outside is the log of its effects, in order. Telemetry is stamped by one
-- clock, so the difference of two stamps is a number of nanoseconds.
use dps150_web.Base.{
  ℕ, suc, ◌-◌, ◌^◌, Bool, true, false, not, ◌&&◌, ◌||◌, List, [], ◌∷◌, ◌++◌, Option, none, some,
  ltb, leb, ◌==◌, if◌then◌else◌,
}
use dps150_web.Float.{Floats}
use dps150_web.Protocol.Register
use dps150_web.Hub.State.{Telemetry}
use dps150_web.Charger.Plan.{PhaseKind, precharge, main, float, Phase, Plan}

pub data RunState : Type 0 where
  running : RunState
  completed : RunState
  stopped : RunState
  aborted : RunState
  failed : RunState

-- The terminal reasons.
pub data Reason : Type 0 where
  complete : Reason
  user_stop : Reason
  protection : Reason
  voltage_ceiling : Reason
  capacity_cap : Reason
  timed_out : Reason
  telemetry_stale : Reason
  counter_reset : Reason
  device_offline : Reason
  output_off_failed : Reason
  shutdown : Reason
  internal_error : Reason

-- errAbort, errStale, errProtection and a faultError.
pub data RunError : Type 0 where
  abort : RunError
  stale_error : RunError
  protection_error : RunError
  fault : Reason → RunError

abbrev pub progress_every : ℕ
progress_every = 10 ^ 9

-- The timings of the manager, whether the session has a record in the store, and whether a sender is
-- configured.
pub record Config : Type 0 where
  pub taper_hold : ℕ
  pub refresh_every : ℕ
  pub recording : Bool
  pub notifying : Bool

unfoldable pub classify : Reason → RunState
classify complete = completed
classify user_stop = stopped
classify internal_error = failed
classify protection = aborted
classify voltage_ceiling = aborted
classify capacity_cap = aborted
classify timed_out = aborted
classify telemetry_stale = aborted
classify counter_reset = aborted
classify device_offline = aborted
classify output_off_failed = aborted
classify shutdown = aborted

-- `stop`: the cause of the context's end is Stop.
unfoldable pub reason_for : Option RunError → Bool → Reason
reason_for none stop = complete
reason_for (some stale_error) stop = telemetry_stale
reason_for (some protection_error) stop = protection
reason_for (some abort) stop = if stop then user_stop else shutdown
reason_for (some (fault r)) stop = r

abbrev pub is_main : PhaseKind → Bool
is_main main = true
is_main precharge = false
is_main float = false

module _ (fl : Floats) where
  open fl use {Float64}

  -- An update of the hub, the end of the watchdog's time, or the end of the run's context.
  pub data Input : Type 0 where
    tick : Telemetry fl → Input
    trip : ℕ → Input
    other : Input
    stale : Input
    done : Input

  -- What nextTick makes of one input: it goes on waiting, returns a tick, or gives up.
  pub data Seen : Type 0 where
    skipped : Seen
    got : Telemetry fl → Seen
    gone : RunError → Seen

  unfoldable pub see : Input → Seen
  see (tick t) = if t.protection == Register.protection_ok then got t else gone protection_error
  see (trip p) = if p == Register.protection_ok then skipped else gone protection_error
  see other = skipped
  see stale = gone stale_error
  see done = gone abort

  -- What a run changes of its RunStatus; `none` is the -1 of an unknown time to go.
  pub record Status : Type 0 where
    pub phase : PhaseKind
    pub phase_index : ℕ
    pub state : RunState
    pub reason : Option Reason
    pub voltage : Float64
    pub current : Float64
    pub power : Float64
    pub in_cv : Bool
    pub delivered_mah : Float64
    pub delivered_wh : Float64
    pub peak_voltage : Float64
    pub elapsed_sec : Float64
    pub eta_sec : Option Float64

  -- The fields that the run keeps for itself; `none` is what has not been set yet.
  pub record Vitals : Type 0 where
    -- the capacity, the energy and the time of the run's first tick
    pub base : Option (Float64 × Float64 × ℕ)
    pub last_cap : Float64
    pub peak_v : Float64
    pub last_refresh : Option ℕ
    pub last_prog : Option ℕ
    pub captured : Bool
    pub cc_high_ticks : ℕ

  pub data Effect : Type 0 where
    progress : Status → Effect
    set_voltage : Float64 → Effect
    set_current : Float64 → Effect
    refresh : Effect
    cc_onset : Float64 → Float64 → Effect
    output : Bool → Effect
    released : Effect
    session_finished : Status → Effect
    journaled : Status → Effect
    notified : Status → Effect

  pub record World : Type 0 where
    pub log : List Effect
    pub inputs : List Input
    pub vitals : Vitals
    pub status : Status

  abbrev pub Outcome : Type 0
  Outcome = World × Option RunError

  abbrev pub log_effect : World → Effect → World
  log_effect w e = record w { log = w.log ++ e ∷ [] }

  abbrev pub base_of : Vitals → Telemetry fl → Float64 × Float64 × ℕ
  base_of v t = elim v.base [ none ↦ (t.capacity_ah, t.energy_wh, t.ts) | some b ↦ b ]

  -- The capacity counter of the tick before, which for the run's first tick is its own.
  abbrev pub cap_before : Vitals → Telemetry fl → Float64
  cap_before v t = elim v.base [ none ↦ t.capacity_ah | some b ↦ v.last_cap ]

  abbrev pub delivered : Vitals → Telemetry fl → Float64
  delivered v t = fl.mul (fl.sub t.capacity_ah (base_of v t).0) (fl.decimal 10_000 1)

  -- The baseline of the first tick, and the maxima.
  abbrev pub record_tick : Vitals → Telemetry fl → Vitals
  record_tick v t = record v {
    base = some (base_of v t);
    last_cap = t.capacity_ah;
    peak_v = if fl.lt v.peak_v t.voltage then t.voltage else v.peak_v;
  }

  -- The checks of a tick, in order; a fall of the counter ends the run before the tick is recorded.
  unfoldable pub envelope : Plan fl → Phase fl → ℕ → Vitals → Telemetry fl → Option Reason
  envelope plan ph start v t =
      if fl.lt t.capacity_ah (fl.sub (cap_before v t) (fl.decimal 1 6))
      then some counter_reset
      else if fl.lt plan.limits.ceiling_volts t.voltage
      then some voltage_ceiling
      else if fl.lt plan.limits.cap_cap_mah (delivered v t)
      then some capacity_cap
      else if ltb 0 ph.timeout && ltb ph.timeout (t.ts - start)
      then some timed_out
      else none

  abbrev pub v_eps : Phase fl → Float64
  v_eps ph = fl.mul (fl.decimal 2 2) ph.volts

  abbrev pub reached_cv : Phase fl → Telemetry fl → Bool
  reached_cv ph t = fl.le (fl.sub ph.volts (v_eps ph)) t.voltage

  abbrev pub held_from : Option ℕ → Telemetry fl → ℕ
  held_from since t = elim since [ none ↦ t.ts | some s ↦ s ]

  -- Since when the taper holds, and whether the phase is over.
  unfoldable pub terminates : ℕ → Phase fl → Option ℕ → Telemetry fl → Option ℕ × Bool
  terminates hold ph since t =
      if ph.hold_to_stop
      then (since, false)
      else if fl.lt fl.zero64 ph.until_volts
      then (since, fl.le ph.until_volts t.voltage)
      else if not (fl.lt fl.zero64 ph.taper_amps)
      then (since, false)
      else if reached_cv ph t && fl.lt t.current ph.taper_amps
      then (some (held_from since t), leb hold (t.ts - held_from since t))
      else (none, false)

  abbrev pub eta : Plan fl → Phase fl → Telemetry fl → Float64 → Option Float64
  eta plan ph t mah =
      let in_cv = fl.lt fl.zero64 ph.taper_amps && reached_cv ph t in
      let remaining = fl.sub plan.request.capacity_mah mah in
      if not ph.hold_to_stop && not in_cv && fl.lt (fl.decimal 1 3) t.current
      then (if fl.lt fl.zero64 remaining
          then some (
              fl.mul (fl.div (fl.div remaining (fl.decimal 10_000 1)) t.current)
                (fl.decimal 36_000 1))
          else some fl.zero64)
      else none

  -- Here and below the vitals have recorded the tick.
  unfoldable pub update_status : Plan fl → Phase fl → Telemetry fl → World → World
  update_status plan ph t w =
      let (cap, energy, first) = base_of w.vitals t in
      let mah = delivered w.vitals t in
      record w {
        status = record w.status {
          voltage = t.voltage;
          current = t.current;
          power = t.power;
          in_cv = t.mode == Register.mode_cv;
          delivered_mah = mah;
          delivered_wh = fl.sub t.energy_wh energy;
          peak_voltage = w.vitals.peak_v;
          elapsed_sec = fl.seconds (t.ts - first);
          eta_sec = eta plan ph t mah;
        };
      }

  unfoldable pub maybe_refresh : ℕ → ℕ → World → World
  maybe_refresh every ts w = elim w.vitals.last_refresh [
    | none ↦ record w { vitals = record w.vitals { last_refresh = some ts } }
    | some s ↦
        if ltb (ts - s) every
        then w
        else log_effect (record w { vitals = record w.vitals { last_refresh = some ts } }) refresh
  ]

  unfoldable pub maybe_progress : ℕ → World → World
  maybe_progress ts w =
      if elim w.vitals.last_prog [ none ↦ false | some s ↦ ltb (ts - s) progress_every ]
      then w
      else log_effect (record w { vitals = record w.vitals { last_prog = some ts } })
          (progress w.status)

  abbrev pub with_ticks : World → ℕ → World
  with_ticks w n = record w { vitals = record w.vitals { cc_high_ticks = n } }

  -- The latch, and the record if the session has one.
  abbrev pub capture : Bool → Telemetry fl → World → World
  capture recording t w =
      let latched : World = record w { vitals = record w.vitals { captured = true } } in
      if recording then log_effect latched (cc_onset t.voltage t.current) else latched

  unfoldable pub maybe_capture_cc_onset : Bool → Plan fl → Phase fl → Telemetry fl → World → World
  maybe_capture_cc_onset recording plan ph t w =
      if w.vitals.captured
      then w
      else if not (is_main ph.kind)
      then with_ticks w 0
      else if not (fl.le (fl.mul (fl.decimal 9 1) plan.request.charge_a) t.current)
      then with_ticks w 0
      else (let counted = with_ticks w (suc w.vitals.cc_high_ticks) in
          if ltb counted.vitals.cc_high_ticks 2 || (t.mode == Register.mode_cv)
          then counted
          else capture recording t counted)

  -- What a tick within the envelope leaves behind.
  unfoldable pub note_tick : Config → Plan fl → Phase fl → Telemetry fl → World → World
  unfolding update_status maybe_refresh maybe_progress maybe_capture_cc_onset
  note_tick cfg plan ph t w =
      let recorded : World = record w { vitals = record_tick w.vitals t } in
      let shown = update_status plan ph t recorded in
      let polled = maybe_refresh cfg.refresh_every t.ts shown in
      let told = maybe_progress t.ts polled in maybe_capture_cc_onset cfg.recording plan ph t told
