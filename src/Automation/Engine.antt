-- ===== src/Automation/Engine.antt =====
-- backend/internal/automation/engine.go: the evaluation of the rules against the hub's updates. What
-- a rule's firing asks of the outside stands beside the new state, as the list of its calls; none of
-- them depends on what the others return. Telemetry is stamped by one clock, so the difference of
-- two stamps is a number of nanoseconds; `none` is the zero time.
pub mod Firing
pub mod Reset
use dps150_web.Base.{
  ℕ, ◌+◌, ◌-◌, Bool, true, false, not, ◌&&◌, ◌||◌, List, [], ◌∷◌, ◌++◌, Option, none, some, ltb,
  leb, ◌==◌, if◌then◌else◌,
}
use Prim.Native.String.{String}
use text.Mathlib.Text as Text
use dps150_web.Float.{Floats}
use dps150_web.Hub.State.{
  Telemetry, Update, state_snapshot, telemetry, status_change, protection_trip, mode_change,
  output_change, journal_event,
}
use dps150_web.Sequence.Program.{Condition}

abbrev pub scope_always : String
scope_always = "always"

unfoldable pub valid_scope : String → Bool
valid_scope scope = Text.◌==◌ scope "session" || Text.◌==◌ scope scope_always

-- A row of the rules; `condition` is what ParseCondition makes of its JSON text, `none` its error.
pub record Rule (fl : Floats) : Type 0 where
  pub id : ℕ
  pub name : String
  pub enabled : Bool
  pub scope : String
  pub condition : Option (Condition fl)

-- What a firing does, in order: SetOutput(false), the mark on the rule, the trigger's history, the
-- journal, and the broadcast; a message goes out if a sender is configured.
pub data Call : Type 0 where
  output_off : Call
  mark_triggered : ℕ → Call
  append_trigger : ℕ → String → Call
  append_event : ℕ → String → Call
  broadcast : ℕ → String → Call
  message : ℕ → String → Call

module _ (fl : Floats) where
  open fl use {Float64}

  pub record RuleState : Type 0 where
    pub awaiting_off : Bool
    -- the capacity, the energy and the time of the session's first tick
    pub baseline : Option (Float64 × Float64 × ℕ)
    pub holding : Bool
    pub held_since : ℕ
    pub off_since : Option ℕ

  abbrev pub fresh : RuleState
  fresh = record {
    awaiting_off = false;
    baseline = none;
    holding = false;
    held_since = 0;
    off_since = none;
  }

  abbrev pub base_of : RuleState → Telemetry fl → Float64 × Float64 × ℕ
  base_of st t = elim st.baseline [ none ↦ (t.capacity_ah, t.energy_wh, t.ts) | some b ↦ b ]

  abbrev pub with_base : RuleState → Telemetry fl → RuleState
  with_base st t = record st { baseline = some (base_of st t) }

  unfoldable pub condition_holds : Condition fl → Telemetry fl → RuleState → Bool
  condition_holds c t st =
      let (cap, energy, start) = base_of st t in
      if Text.◌==◌ c.type "currentBelow"
      then fl.lt t.current c.amps
      else if Text.◌==◌ c.type "capacityAbove"
      then fl.lt c.ah (fl.sub t.capacity_ah cap)
      else if Text.◌==◌ c.type "energyAbove"
      then fl.lt c.wh (fl.sub t.energy_wh energy)
      else if Text.◌==◌ c.type "elapsedAbove"
      then fl.lt c.seconds (fl.seconds (t.ts - start))
      else false

  -- A tick with the output off.
  unfoldable pub observe_off : String → RuleState → ℕ → RuleState
  observe_off scope st ts = if not (Text.◌==◌ scope scope_always) then fresh else record st {
    awaiting_off = false;
    off_since = elim st.off_since [ some s ↦ some s | none ↦ if st.holding then some ts else none ];
  }

  -- The condition holds: since when, the time of a gap with the output off left out.
  unfoldable pub observe_held : RuleState → ℕ → RuleState
  observe_held st ts =
      if not st.holding
      then record st { holding = true; held_since = ts; off_since = none }
      else elim st.off_since [
        | none ↦ st
        | some s ↦ record st { held_since = st.held_since + (ts - s); off_since = none }
      ]

  -- A tick with the output on and a condition that parses, and whether the rule fires.
  unfoldable pub observe_on : Condition fl → RuleState → Telemetry fl → RuleState × Bool
  unfolding condition_holds observe_held
  observe_on c st t =
      if not (condition_holds c t st)
      then (record st { holding = false; off_since = none }, false)
      else (let held = observe_held st t.ts in
          if ltb (t.ts - held.held_since) (fl.to_duration c.for_seconds)
          then (held, false)
          else (record held { awaiting_off = true }, true))

  -- `evaluate`, from the rule's state on.
  unfoldable pub evaluate : Rule fl → RuleState → Telemetry fl → RuleState × Bool
  unfolding observe_off observe_on
  evaluate rule st t =
      if not t.output_on
      then (observe_off rule.scope st t.ts, false)
      else if st.awaiting_off
      then (st, false)
      else elim rule.condition [
        | none ↦ (with_base st t, false)
        | some c ↦ observe_on c (with_base st t) t
      ]

  -- `sender`: a sender is there and configured.
  unfoldable pub trigger : Bool → Rule fl → List Call
  trigger sender r =
      output_off
      ∷ mark_triggered r.id
      ∷ append_trigger r.id r.name
      ∷ append_event r.id r.name
      ∷ broadcast r.id r.name
      ∷ (if sender then message r.id r.name ∷ [] else [])

  -- The states by rule; a missing one is fresh.
  abbrev pub States : Type 0
  States = List (ℕ × RuleState)

  abbrev pub lookup : States → ℕ → Option RuleState
  lookup [] id = none
  lookup ((k, st) ∷ rest) id = if k == id then some st else lookup rest id

  abbrev pub state_of : States → ℕ → RuleState
  state_of sts id = elim (lookup sts id) [ none ↦ fresh | some st ↦ st ]

  abbrev pub store : States → ℕ → RuleState → States
  store sts id st = (id, st) ∷ sts

  -- `suppressed` is what the predicate of WithActiveSuppressor answers.
  pub record Engine : Type 0 where
    pub rules : List (Rule fl)
    pub states : States
    pub link_up : Bool

  -- The loop over the rules.
  unfoldable pub evaluate_all : Bool → List (Rule fl) → States → Telemetry fl → States × List Call
  unfolding evaluate trigger
  evaluate_all sender [] sts t = (sts, [])
  evaluate_all sender (r ∷ rs) sts t =
      let (st, fired) = evaluate r (state_of sts r.id) t in
      let (last, calls) = evaluate_all sender rs (if r.enabled then store sts r.id st else sts) t in
      (last, (if r.enabled && fired then trigger sender r else []) ++ calls)

  unfoldable pub handle_telemetry : Bool → Bool → Engine → Telemetry fl → Engine × List Call
  unfolding evaluate_all
  handle_telemetry sender suppressed e t =
      if not e.link_up || suppressed
      then (e, [])
      else (let (sts, calls) = evaluate_all sender e.rules e.states t in
          (record e { states = sts }, calls))

  unfoldable pub handle_status : Engine → Bool → Engine
  handle_status e connected = record e { link_up = connected; states = [] }

  unfoldable pub handle : Bool → Bool → Engine → Update fl → Engine × List Call
  unfolding handle_telemetry handle_status
  handle sender suppressed e (status_change on transport) = (handle_status e on, [])
  handle sender suppressed e (telemetry t) = handle_telemetry sender suppressed e t
  handle sender suppressed e (state_snapshot _) = (e, [])
  handle sender suppressed e (protection_trip _ _) = (e, [])
  handle sender suppressed e (mode_change _ _) = (e, [])
  handle sender suppressed e (output_change _ _) = (e, [])
  handle sender suppressed e (journal_event _ _) = (e, [])

  abbrev pub is_enabled : List (Rule fl) → ℕ → Bool
  is_enabled [] id = false
  is_enabled (r ∷ rs) id = if r.id == id then r.enabled else is_enabled rs id

  -- The states of the rules that are still there and enabled.
  abbrev pub kept : List (Rule fl) → States → States
  kept rs [] = []
  kept rs ((id, st) ∷ sts) = if is_enabled rs id then (id, st) ∷ kept rs sts else kept rs sts

  -- `none`: the rules could not be listed, and the cache stays.
  unfoldable pub reload : Engine → Option (List (Rule fl)) → Engine
  reload e none = e
  reload e (some rows) = record e { rules = rows; states = kept rows e.states }
