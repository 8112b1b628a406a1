-- ===== src/Ivtrace/Manager.antt =====
-- backend/internal/ivtrace/manager.go: the start of a sweep, and the cut of a stray output. The calls of the hub are a list, in order, and
-- `reply` gives the hub's answer to the last call of a list. A start is one step here.
pub mod Start
use dps150_web.Base.{
  ℕ, zero, suc, Bool, true, false, not, List, [], ◌∷◌, ◌++◌, Option, none, some, inl, inr,
  if◌then◌else◌,
}
use Prim.Native.String.{String}
use dps150_web.Float.{Floats}
use dps150_web.Hub.State.{
  Update, state_snapshot, telemetry, status_change, protection_trip, mode_change, output_change,
  journal_event,
}
use dps150_web.Hub.Command.{CommandError, ProtectionLimits}
use dps150_web.Hub.Safety.{safe_output_off, Interlock, acquire, release}
use dps150_web.Ivtrace.Plan.{RequestError, is_voltage, Request, Plan, compile, protection_limits}

abbrev pub interlock_owner : String
interlock_owner = "iv"

-- `active` is the identity of the active run.
pub record Manager : Type 0 where
  pub interlock : Option Interlock
  pub active : Option ℕ

-- A start panics when it takes the first of no setpoints.
pub data StartResult : Type 0 where
  started : StartResult
  invalid : RequestError → StartResult
  run_active : StartResult
  offline : StartResult
  hub_error : CommandError → StartResult
  panicked : StartResult

unfoldable pub release_interlock : Manager → Manager
release_interlock m = elim m.interlock [
  | none ↦ m
  | some i ↦ record m { interlock = some (release i interlock_owner) }
]

-- The interlock, if it is wired: `none` is a refusal.
unfoldable pub claim : Manager → Option Manager
claim m = elim m.interlock [
  | none ↦ some m
  | some i ↦
      let (i', ok) = acquire i interlock_owner in
      if ok then some (record m { interlock = some i' }) else none
]

unfoldable pub is_running : Manager → Bool
is_running m = elim m.active [ none ↦ false | some id ↦ true ]

abbrev pub is_started : StartResult → Bool
is_started started = true
is_started (invalid e) = false
is_started run_active = false
is_started offline = false
is_started (hub_error x) = false
is_started panicked = false

module _ (fl : Floats) where
  open fl use {Float64}

  pub data Call : Type 0 where
    set_protections : ProtectionLimits fl → Call
    set_voltage : Float64 → Call
    set_current : Float64 → Call
    set_output : Bool → Call

  abbrev pub compliance_write : Plan fl → Call
  compliance_write plan =
      if is_voltage plan.request.mode
      then set_current plan.request.compliance_a
      else set_voltage plan.request.compliance_v

  abbrev pub first_write : Plan fl → Float64 → Call
  first_write plan v = if is_voltage plan.request.mode then set_voltage v else set_current v

  module _ (reply : List Call → Option CommandError) where
    abbrev pub Outcome : Type 0
    Outcome = List Call × Option CommandError

    -- A call, and then the rest unless it fails.
    abbrev pub and_then : Outcome → Call → Outcome
    and_then (log, some x) c = (log, some x)
    and_then (log, none) c = (log ++ c ∷ [], reply (log ++ c ∷ []))

    abbrev pub apply_compliance : Plan fl → Outcome
    apply_compliance plan =
        and_then (and_then ([], none) (set_protections (protection_limits fl plan.protections)))
          (compliance_write plan)

    -- With the first setpoint `v`.
    unfoldable pub apply_start_order : Plan fl → Float64 → Outcome
    apply_start_order plan v =
        and_then (and_then (apply_compliance plan) (first_write plan v)) (set_output true)

    abbrev pub offs : ℕ → List Call
    offs zero = []
    offs (suc n) = set_output false ∷ offs n

    -- SafeOutputOff, whose error is dropped.
    unfoldable pub output_off : List Call → List Call
    unfolding safe_output_off
    output_off log = log ++ offs (safe_output_off (λ n. reply (log ++ offs (suc n)))).1

    unfoldable pub launch : Plan fl → List Call × StartResult
    unfolding apply_start_order output_off
    launch plan = elim plan.setpoints [
      | [] ↦
          let (calls, e) = apply_compliance plan in
          elim e [ some x ↦ (output_off calls, hub_error x) | none ↦ (calls, panicked) ]
      | v ∷ vs ↦
          let (calls, e) = apply_start_order plan v in
          elim e [ some x ↦ (output_off calls, hub_error x) | none ↦ (calls, started) ]
    ]

    -- From the claim of the interlock on: the calls, and the result.
    abbrev pub connect_and_launch : Plan fl → Bool → List Call × StartResult
    unfolding launch
    connect_and_launch plan connected = if connected then launch plan else ([], offline)

    -- `id` is the identity that a run gets.
    unfoldable pub start : Manager → Request fl → Bool → ℕ → Manager × List Call × StartResult
    unfolding compile claim release_interlock launch
    start m req connected id = elim (compile fl req) [
      | inl e ↦ (m, [], invalid e)
      | inr plan ↦ elim (claim m) [
        | none ↦ (m, [], run_active)
        | some held ↦ elim held.active [
          | some running ↦ (release_interlock held, [], run_active)
          | none ↦
              let (calls, r) = connect_and_launch plan connected in
              (
                if is_started r then record held { active = some id } else release_interlock held,
                calls,
                r,
              )
        ]
      ]
    ]

    -- What an update tells of the output, if anything.
    abbrev pub output_seen : Update fl → Option Bool
    output_seen (telemetry t) = some t.output_on
    output_seen (state_snapshot s) = elim s.state [ none ↦ none | some st ↦ some st.output_on ]
    output_seen (status_change _ _) = none
    output_seen (protection_trip _ _) = none
    output_seen (mode_change _ _) = none
    output_seen (output_change _ _) = none
    output_seen (journal_event _ _) = none

    -- The output-off of cutStrayOutput, under the interlock.
    abbrev pub cut : Manager → Manager × List Call
    unfolding claim release_interlock output_off
    cut m = elim (claim m) [ none ↦ (m, []) | some held ↦ (release_interlock held, output_off []) ]

    -- The updates within the time allowed, each with the manager that it finds; `none` is a wait that ends without one
    -- that tells of the output.
    unfoldable pub cut_stray_output : List (Update fl × Manager) → Option (Manager × List Call)
    unfolding is_running claim release_interlock output_off
    cut_stray_output [] = none
    cut_stray_output ((u, m) ∷ us) = elim (output_seen u) [
      | none ↦ cut_stray_output us
      | some on ↦ some (if is_running m then (m, []) else if not on then (m, []) else cut m)
    ]
