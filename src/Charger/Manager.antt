-- ===== src/Charger/Manager.antt =====
-- backend/internal/charger/manager.go: the start of a charge, and the cut of a stray output. The calls of the hub are a list, in
-- order, and `reply` gives the hub's answer to the last call of a list. A start is one step here.
pub mod Order
pub mod Checks
pub mod Start
use dps150_web.Base.{
  ℕ, zero, suc, Bool, true, false, not, ◌&&◌, List, [], ◌∷◌, ◌++◌, Option, none, some, ◌⊎◌, inl,
  inr, if◌then◌else◌,
}
use Prim.Native.String.{String}
use dps150_web.Float.{Floats}
use dps150_web.Hub.State.{
  Telemetry, Update, state_snapshot, telemetry, status_change, protection_trip, mode_change,
  output_change, journal_event,
}
use dps150_web.Hub.Command.{CommandError}
use dps150_web.Hub.Safety.{safe_output_off, Interlock, acquire, release}
use dps150_web.Charger.Plan.{
  RequestError, Verdict, is_accepted, Request, Limits, Phase, Plan, PreflightResult, compile,
  preflight,
}

abbrev pub interlock_owner : String
interlock_owner = "charge"

-- `active` is the identity of the active run.
pub record Manager : Type 0 where
  pub interlock : Option Interlock
  pub active : Option ℕ

pub data StartResult : Type 0 where
  started : StartResult
  invalid : RequestError → StartResult
  run_active : StartResult
  offline : StartResult
  hub_error : CommandError → StartResult
  refused : Verdict → StartResult
  deep_discharge_unconfirmed : StartResult
  panicked : StartResult

unfoldable pub release_interlock : Manager → Manager
release_interlock m = elim m.interlock [
  | none ↦ m
  | some i ↦ record m { interlock = some (release i interlock_owner) }
]

-- The interlock, if it is wired: `none` is a refusal.
unfoldable pub claim : Manager → Option Manager
claim m = elim m.interlock [
  | none ↦ some m
  | some i ↦
      let (i', ok) = acquire i interlock_owner in
      if ok then some (record m { interlock = some i' }) else none
]

unfoldable pub is_running : Manager → Bool
is_running m = elim m.active [ none ↦ false | some id ↦ true ]

module _ (fl : Floats) where
  open fl use {Float64}

  pub data Call : Type 0 where
    set_protections : Limits fl → Call
    set_voltage : Float64 → Call
    set_current : Float64 → Call
    set_output : Bool → Call

  -- What readVbat receives: the updates, the end of the settle time, and the end of the context.
  pub data Reading : Type 0 where
    tick : Telemetry fl → Reading
    other : Reading
    settled : Reading
    done : Reading

  -- The last voltage with the output off, or at the end of the settle time that of the cache.
  unfoldable pub read_vbat : List Reading → Option Float64 → Option Float64 → Option Float64
  read_vbat [] got cached = none
  read_vbat (tick t ∷ rs) got cached =
      read_vbat rs (if t.output_on then got else some t.voltage) cached
  read_vbat (other ∷ rs) got cached = read_vbat rs got cached
  read_vbat (settled ∷ rs) got cached = elim got [ some v ↦ some v | none ↦ cached ]
  read_vbat (done ∷ rs) got cached = none

  -- What the hub's snapshots show to a start: whether it is connected, whether the output is on, and the voltage.
  pub record View : Type 0 where
    pub connected : Bool
    pub output_on : Bool
    pub voltage : Option Float64

  module _ (reply : List Call → Option CommandError) where
    abbrev pub Outcome : Type 0
    Outcome = List Call × Option CommandError

    -- A call, and then the rest unless it fails.
    abbrev pub and_then : Outcome → Call → Outcome
    and_then (log, some x) c = (log, some x)
    and_then (log, none) c = (log ++ c ∷ [], reply (log ++ c ∷ []))

    unfoldable pub ensure_output_off : View → Outcome
    ensure_output_off v = if v.output_on then and_then ([], none) (set_output false) else ([], none)

    unfoldable pub apply_start_order : Plan fl → Phase fl → List Call → Outcome
    apply_start_order plan ph log =
        and_then
          (and_then
            (and_then (and_then (log, none) (set_protections plan.limits)) (set_voltage ph.volts))
            (set_current ph.amps))
          (set_output true)

    abbrev pub offs : ℕ → List Call
    offs zero = []
    offs (suc n) = set_output false ∷ offs n

    -- SafeOutputOff, whose error is dropped.
    unfoldable pub output_off : List Call → List Call
    unfolding safe_output_off
    output_off log = log ++ offs (safe_output_off (λ n. reply (log ++ offs (suc n)))).1

    -- From the pre-flight's result on; the index of the first phase panics if there is none.
    unfoldable pub launch : Plan fl → List Call → List Call × StartResult
    unfolding apply_start_order output_off
    launch plan log = elim plan.phases [
      | [] ↦ (log, panicked)
      | ph ∷ phs ↦
          let (calls, e) = apply_start_order plan ph log in
          elim e [ some x ↦ (output_off calls, hub_error x) | none ↦ (calls, started) ]
    ]

    -- The checks of the measured voltage, and the launch.
    unfoldable pub check_and_launch :
        Request fl → Bool → Plan fl → Float64 → List Call → List Call × StartResult
    unfolding preflight launch
    check_and_launch req confirm_deep plan vbat log = elim (preflight fl req vbat) [
      | inl e ↦ (log, invalid e)
      | inr pf ↦
          if not (is_accepted fl pf.verdict)
          then (log, refused pf.verdict)
          else if pf.needs_confirm && not confirm_deep
          then (log, deep_discharge_unconfirmed)
          else launch plan log
    ]

    -- From the claim of the interlock on: the calls, and the result.
    unfoldable pub measure_and_launch :
        Request fl → Bool → Plan fl → View → List Reading → List Call × StartResult
    unfolding ensure_output_off read_vbat check_and_launch
    measure_and_launch req confirm_deep plan v readings =
        if not v.connected
        then ([], offline)
        else (let (log, e) = ensure_output_off v in
            elim e [
              | some x ↦ (log, hub_error x)
              | none ↦ elim (read_vbat readings none v.voltage) [
                | none ↦ (log, offline)
                | some vbat ↦ check_and_launch req confirm_deep plan vbat log
              ]
            ])

    abbrev pub is_started : StartResult → Bool
    is_started started = true
    is_started (invalid e) = false
    is_started run_active = false
    is_started offline = false
    is_started (hub_error x) = false
    is_started (refused v) = false
    is_started deep_discharge_unconfirmed = false
    is_started panicked = false

    -- `id` is the identity that a run gets.
    unfoldable pub start :
        Manager → Request fl → Bool → View → List Reading → ℕ → Manager × List Call × StartResult
    unfolding compile claim release_interlock measure_and_launch
    start m req confirm_deep v readings id = elim (compile fl req) [
      | inl e ↦ (m, [], invalid e)
      | inr plan ↦ elim (claim m) [
        | none ↦ (m, [], run_active)
        | some held ↦ elim held.active [
          | some running ↦ (release_interlock held, [], run_active)
          | none ↦
              let (calls, r) = measure_and_launch req confirm_deep plan v readings in
              (
                if is_started r then record held { active = some id } else release_interlock held,
                calls,
                r,
              )
        ]
      ]
    ]

    -- What an update tells of the output, if anything.
    abbrev pub output_seen : Update fl → Option Bool
    output_seen (telemetry t) = some t.output_on
    output_seen (state_snapshot s) = elim s.state [ none ↦ none | some st ↦ some st.output_on ]
    output_seen (status_change _ _) = none
    output_seen (protection_trip _ _) = none
    output_seen (mode_change _ _) = none
    output_seen (output_change _ _) = none
    output_seen (journal_event _ _) = none

    -- The output-off of cutStrayOutput, under the interlock.
    abbrev pub cut : Manager → Manager × List Call
    unfolding claim release_interlock output_off
    cut m = elim (claim m) [ none ↦ (m, []) | some held ↦ (release_interlock held, output_off []) ]

    -- The updates within the time allowed, each with the manager that it finds; `none` is a wait that ends without one
    -- that tells of the output.
    unfoldable pub cut_stray_output : List (Update fl × Manager) → Option (Manager × List Call)
    unfolding is_running claim release_interlock output_off
    cut_stray_output [] = none
    cut_stray_output ((u, m) ∷ us) = elim (output_seen u) [
      | none ↦ cut_stray_output us
      | some on ↦ some (if is_running m then (m, []) else if not on then (m, []) else cut m)
    ]
