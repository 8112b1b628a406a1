-- ===== src/Charger/Run.antt =====
-- backend/internal/charger/run.go: the run of a charge. What a run does to the outside is the log of
-- its effects, in order; `reply` gives the hub's answer to the last call of a log. What a run
-- receives is the list of its inputs, which ends when the subscription closes. Telemetry is stamped
-- by one clock, so the difference of two stamps is a number of nanoseconds.
pub mod Watch
pub mod Steps
pub mod Within
pub mod Monitor
pub mod Drive
pub mod Walk
use dps150_web.Base.{
  ℕ, zero, suc, ◌+◌, ◌-◌, ◌*◌, ◌^◌, Bool, true, false, not, ◌&&◌, ◌||◌, List, [], ◌∷◌, ◌++◌, Option,
  none, some, ltb, leb, ◌==◌, if◌then◌else◌,
}
use dps150_web.Float.{Floats}
use dps150_web.Protocol.Register
use dps150_web.Hub.State.{
  Telemetry, Update, state_snapshot, telemetry, status_change, protection_trip, mode_change,
  output_change, journal_event,
}
use dps150_web.Hub.Command.{CommandError}
use dps150_web.Hub.Safety.{safe_output_off}
use dps150_web.Charger.Plan.{PhaseKind, precharge, main, float, Phase, Plan}
unfoldable pub use dps150_web.Charger.Tick.{
  classify, reason_for, see, envelope, terminates, update_status, maybe_refresh, maybe_progress,
  maybe_capture_cc_onset, note_tick,
}
pub use dps150_web.Charger.Tick.{
  RunState, running, completed, stopped, aborted, failed, Reason, complete, user_stop, protection,
  voltage_ceiling, capacity_cap, timed_out, telemetry_stale, counter_reset, device_offline,
  output_off_failed, shutdown, internal_error, RunError, abort, stale_error, protection_error,
  fault, progress_every, Config, is_main, Input, tick, trip, other, stale, done, Seen, skipped, got,
  gone, Status, Vitals, Effect, progress, set_voltage, set_current, refresh, cc_onset, output,
  released, session_finished, journaled, notified, World, Outcome, log_effect, base_of, cap_before,
  delivered, record_tick, v_eps, reached_cv, held_from, eta, with_ticks, capture,
}

module _ (fl : Floats) where
  abbrev pub start_of : Option ℕ → Telemetry fl → ℕ
  start_of start t = elim start [ none ↦ t.ts | some s ↦ s ]

  -- The loop of runPhase, with the time of the phase's first tick and of the taper's.
  unfoldable pub phase_loop :
      Config → Plan fl → Phase fl → List (Input fl) → Option ℕ → Option ℕ → World fl → Outcome fl
  unfolding see envelope terminates note_tick
  phase_loop cfg plan ph [] start since w = (record w { inputs = [] }, some abort)
  phase_loop cfg plan ph (i ∷ is) start since w = elim (see fl i) [
    | skipped ↦ phase_loop cfg plan ph is start since w
    | gone e ↦ (record w { inputs = is }, some e)
    | got t ↦ elim (envelope fl plan ph (start_of start t) w.vitals t) [
      | some r ↦ (record w { inputs = is }, some (fault r))
      | none ↦
          let (held, over) = terminates fl cfg.taper_hold ph since t in
          let noted = note_tick fl cfg plan ph t w in
          elim over [
            | true ↦ (record noted { inputs = is }, none)
            | false ↦ phase_loop cfg plan ph is (some (start_of start t)) held noted
          ]
    ]
  ]

  module _ (reply : List (Effect fl) → Option CommandError) where
    -- A setpoint, and then the rest unless it fails.
    abbrev pub call : World fl → Effect fl → (World fl → Outcome fl) → Outcome fl
    call w e next = elim (reply (w.log ++ e ∷ [])) [
      | some x ↦ (log_effect fl w e, some (fault device_offline))
      | none ↦ next (log_effect fl w e)
    ]

    abbrev pub set_phase : Phase fl → ℕ → World fl → World fl
    set_phase ph idx w = record w {
      status = record w.status { phase = ph.kind; phase_index = idx };
    }

    unfoldable pub run_phase : Config → Plan fl → Phase fl → ℕ → World fl → Outcome fl
    unfolding phase_loop
    run_phase cfg plan ph idx w = call w (set_voltage ph.volts) (λ u.
        call u (set_current ph.amps)
          (λ v. phase_loop cfg plan ph v.inputs none none (set_phase ph idx v)))

    -- The phases from the index `idx` on.
    unfoldable pub drive : Config → Plan fl → List (Phase fl) → ℕ → World fl → Outcome fl
    unfolding run_phase
    drive cfg plan [] idx w = (w, none)
    drive cfg plan (ph ∷ phs) idx w =
        let (w', e) = run_phase cfg plan ph idx w in
        elim e [ some x ↦ (w', some x) | none ↦ drive cfg plan phs (suc idx) w' ]

    abbrev pub offs : ℕ → List (Effect fl)
    offs zero = []
    offs (suc n) = output false ∷ offs n

    -- SafeOutputOff, and its error.
    unfoldable pub output_off : World fl → World fl × Option CommandError
    unfolding safe_output_off
    output_off w =
        let (e, made) = safe_output_off (λ n. reply (w.log ++ offs (suc n))) in
        (record w { log = w.log ++ offs made }, e)

    -- Whether an update shows the output off.
    abbrev pub shows_off : Update fl → Bool
    shows_off (telemetry t) = not t.output_on
    shows_off (state_snapshot s) = elim s.state [ none ↦ false | some st ↦ not st.output_on ]
    shows_off (status_change _ _) = false
    shows_off (protection_trip _ _) = false
    shows_off (mode_change _ _) = false
    shows_off (output_change _ _) = false
    shows_off (journal_event _ _) = false

    -- The updates that arrive within the time allowed.
    unfoldable pub confirm_output_off : List (Update fl) → Bool
    confirm_output_off [] = false
    confirm_output_off (u ∷ us) =
        let rest = confirm_output_off us in if shows_off u then true else rest

    -- The terminal state is that of the status that is passed on; the interlock is released before.
    unfoldable pub finish : Config → RunState → Reason → World fl → World fl
    finish cfg state why w =
        let final : Status fl = record w.status { state = state; reason = some why } in
        record w {
          status = final;
          log =
              w.log
              ++ (released
                    ∷ progress final
                    ∷ (if cfg.recording then session_finished final ∷ [] else [])
                  ++ journaled final ∷ (if cfg.notifying then notified final ∷ [] else []));
        }

    -- The output-off, with the reason to be reported: `after` is what the subscription of
    -- confirmOutputOff receives.
    unfoldable pub switch_off : List (Update fl) → Reason → World fl → World fl × Reason
    unfolding output_off confirm_output_off
    switch_off after why w =
        let (off, e) = output_off w in
        elim e [
          | some x ↦ (off, output_off_failed)
          | none ↦ (
            log_effect fl off refresh,
            if confirm_output_off after then why else output_off_failed,
          )
        ]

    unfoldable pub execute : Config → Plan fl → Bool → List (Update fl) → World fl → World fl
    unfolding drive switch_off finish reason_for classify
    execute cfg plan stop after w =
        let (driven, e) = drive cfg plan plan.phases 0 (log_effect fl w (progress w.status)) in
        let (off, why) = switch_off after (reason_for e stop) driven in
        finish cfg (classify why) why off
