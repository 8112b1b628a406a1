-- ===== src/Ivtrace/Run.antt =====
-- backend/internal/ivtrace/run.go: the run of a sweep. `reply` gives the hub's answer to the last call of a log.
-- What a run receives is the list of its inputs, which ends when the subscription closes.
pub mod Settle
pub mod Sweep
pub mod Finish
use dps150_web.Base.{
  ℕ, zero, suc, ◌-◌, Bool, true, false, not, List, [], ◌∷◌, ◌++◌, Option, none, some, ◌⊎◌, inl, inr,
  ltb, leb, if◌then◌else◌,
}
use dps150_web.Float.{Floats}
use dps150_web.Hub.State.{
  Telemetry, Update, state_snapshot, telemetry, status_change, protection_trip, mode_change,
  output_change, journal_event,
}
use dps150_web.Hub.Command.{CommandError}
use dps150_web.Hub.Safety.{safe_output_off}
use dps150_web.Ivtrace.Plan.{is_voltage, Plan}
unfoldable pub use dps150_web.Ivtrace.Tick.{classify, reason_for, see, record_point, maybe_progress}
pub use dps150_web.Ivtrace.Tick.{
  RunState, running, completed, stopped, aborted, failed, Reason, complete, user_stop, protection,
  telemetry_stale, timed_out, device_offline, output_off_failed, shutdown, internal_error, RunError,
  abort, stale_error, protection_error, fault, Point, Input, tick, trip, other, stale, done, Seen,
  skipped, got, gone, Status, Vitals, Effect, progress, set_voltage, set_current, refresh, output,
  released, sweep_finished, journaled, notified, World, log_effect, first_of, note_tick, point_of,
}

-- Whether the sweep has a record in the store, and whether a sender is configured.
pub record Config : Type 0 where
  pub recording : Bool
  pub notifying : Bool

module _ (fl : Floats) where
  open fl use {Float64}

  -- The loop of sampleStep, with the time that the dwell is measured from. A dwell is positive.
  unfoldable pub sample_loop :
      Plan fl → List (Input fl) → Option ℕ → World fl → World fl × (RunError ⊎ Telemetry fl)
  unfolding see
  sample_loop plan [] ref w = (record w { inputs = [] }, inl abort)
  sample_loop plan (i ∷ is) ref w = elim (see fl i) [
    | skipped ↦ sample_loop plan is ref w
    | gone e ↦ (record w { inputs = is }, inl e)
    | got t ↦
        let noted = note_tick fl t w in
        elim (ltb plan.sweep_timeout (t.ts - first_of fl w t)) [
          | true ↦ (record noted { inputs = is }, inl (fault timed_out))
          | false ↦ elim ref [
            | none ↦ sample_loop plan is (some t.ts) noted
            | some r ↦ elim (leb plan.dwell (t.ts - r)) [
              | true ↦ (record noted { inputs = is }, inr t)
              | false ↦ sample_loop plan is (some r) noted
            ]
          ]
        ]
  ]

  abbrev pub last_tick : World fl → Option ℕ
  last_tick w = elim w.vitals.clock [ none ↦ none | some c ↦ some c.1 ]

  abbrev pub write_sweep : Plan fl → Float64 → Effect fl
  write_sweep plan v = if is_voltage plan.request.mode then set_voltage v else set_current v

  module _ (reply : List (Effect fl) → Option CommandError) where
    unfoldable pub sample_step : Plan fl → Float64 → World fl → World fl × (RunError ⊎ Telemetry fl)
    unfolding sample_loop
    sample_step plan v w = elim (reply (w.log ++ write_sweep plan v ∷ [])) [
      | some x ↦ (log_effect fl w (write_sweep plan v), inl (fault device_offline))
      | none ↦ sample_loop plan w.inputs (last_tick w) (log_effect fl w (write_sweep plan v))
    ]

    -- The setpoints from the index `idx` on.
    unfoldable pub drive : Plan fl → List Float64 → ℕ → World fl → World fl × Option RunError
    unfolding sample_step record_point maybe_progress
    drive plan [] idx w = (w, none)
    drive plan (v ∷ vs) idx w =
        let (w', r) = sample_step plan v w in
        elim r [
          | inl e ↦ (w', some e)
          | inr t ↦ drive plan vs (suc idx) (maybe_progress fl t.ts (record_point fl plan idx t w'))
        ]

    abbrev pub offs : ℕ → List (Effect fl)
    offs zero = []
    offs (suc n) = output false ∷ offs n

    -- SafeOutputOff, and its error.
    unfoldable pub output_off : World fl → World fl × Option CommandError
    unfolding safe_output_off
    output_off w =
        let (e, made) = safe_output_off (λ n. reply (w.log ++ offs (suc n))) in
        (record w { log = w.log ++ offs made }, e)

    -- Whether an update shows the output off.
    abbrev pub shows_off : Update fl → Bool
    shows_off (telemetry t) = not t.output_on
    shows_off (state_snapshot s) = elim s.state [ none ↦ false | some st ↦ not st.output_on ]
    shows_off (status_change _ _) = false
    shows_off (protection_trip _ _) = false
    shows_off (mode_change _ _) = false
    shows_off (output_change _ _) = false
    shows_off (journal_event _ _) = false

    -- The updates that arrive within the time allowed.
    unfoldable pub confirm_output_off : List (Update fl) → Bool
    confirm_output_off [] = false
    confirm_output_off (u ∷ us) =
        let rest = confirm_output_off us in if shows_off u then true else rest

    -- The interlock is released before the reports.
    unfoldable pub finish : Config → RunState → Reason → World fl → World fl
    finish cfg state why w =
        let final : Status fl = record w.status { state = state; reason = some why } in
        let points = w.vitals.points in
        record w {
          status = final;
          log =
              w.log
              ++ (released
                    ∷ progress final
                    ∷ (if cfg.recording then sweep_finished final points ∷ [] else [])
                  ++ journaled final points
                    ∷ (if cfg.notifying then notified final points ∷ [] else []));
        }

    -- The output-off, with the reason to be reported: `after` is what the subscription of confirmOutputOff
    -- receives.
    unfoldable pub switch_off : List (Update fl) → Reason → World fl → World fl × Reason
    unfolding output_off confirm_output_off
    switch_off after why w =
        let (off, e) = output_off w in
        elim e [
          | some x ↦ (off, output_off_failed)
          | none ↦ (
            log_effect fl off refresh,
            if confirm_output_off after then why else output_off_failed,
          )
        ]

    unfoldable pub execute : Config → Plan fl → Bool → List (Update fl) → World fl → World fl
    unfolding drive switch_off finish reason_for classify
    execute cfg plan stop after w =
        let (driven, e) = drive plan plan.setpoints 0 (log_effect fl w (progress w.status)) in
        let (off, why) = switch_off after (reason_for e stop) driven in
        finish cfg (classify why) why off
