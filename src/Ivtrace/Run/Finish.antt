-- ===== src/Ivtrace/Run/Finish.antt =====
-- A whole sweep in run.go, from its first report to its last.
use dps150_web.Base.{
  ℕ, suc, ◌≤◌, ◌≡◌, refl, sym, ap, ◌∙◌, true, List, [], ◌∷◌, ◌++◌, map, Option, none, some, Bool,
  arith, if◌then◌else◌, Bool-cases, Option-cases, ◌⊎◌, inl, inr, append-nil,
}
use mathlib.Core.Path.{subst}
use dps150_web.Float.{Floats}
use dps150_web.Hub.State.{Telemetry, Update}
use dps150_web.Hub.Command.{CommandError}
use dps150_web.Hub.Safety.Exclusion.{safe_output_off-last}
use dps150_web.Ivtrace.Plan.{Plan}
use dps150_web.Ivtrace.Run.{
  Config, aborted, Reason, output_off_failed, classify, reason_for, Point, Status, World, Effect,
  progress, refresh, released, sweep_finished, journaled, notified, log_effect, point_of, drive,
  offs, output_off, confirm_output_off, switch_off, finish, execute,
}
use dps150_web.Ivtrace.Run.Sweep.{Among, AreSettled, IsDone, drive-Sweeps}

module _ (fl : Floats) (reply : List (Effect fl) → Option CommandError) where
  -- The output-off of a run, with at least one attempt and the hub's answer to the last.
  switch_off_lem :
      (after : List (Update fl)) (why : Reason) (w : World fl)
      → (made : ℕ) × (polled : List (Effect fl)) × (1 ≤ made)
        × ((polled ≡ []) ⊎ (polled ≡ refresh ∷ []))
        × ((switch_off fl reply after why w).0.log ≡ (w.log ++ offs fl reply made) ++ polled)
        × ((switch_off fl reply after why w).0.vitals ≡ w.vitals)
        × (((reply (w.log ++ offs fl reply made) ≡ none)
              × (confirm_output_off fl reply after ≡ true)
              × ((switch_off fl reply after why w).1 ≡ why))
            ⊎ ((switch_off fl reply after why w).1 ≡ output_off_failed))
  unfolding switch_off output_off
  switch_off_lem after why w =
      let (k, e, _) = safe_output_off-last (λ n. reply (w.log ++ offs fl reply (suc n))) in
      let off : (output_off fl reply w).0.log ≡ w.log ++ offs fl reply (suc k) =
        ap (λ r. w.log ++ offs fl reply r.1) e in
      let answer : (output_off fl reply w).1 ≡ reply (w.log ++ offs fl reply (suc k)) =
        ap (λ r. r.0) e in
      elim (Option-cases (output_off fl reply w).1) [
        | inr (x, f) ↦
            rw (f, switch_off)
              (
                suc k,
                [],
                omega arith,
                inl refl,
                off ∙ sym (append-nil (w.log ++ offs fl reply (suc k))),
                refl,
                inr refl,
              )
        | inl f ↦ elim (Bool-cases (confirm_output_off fl reply after)) [
          | inl c ↦
              rw (f, c, switch_off)
                (
                  suc k,
                  refresh ∷ [],
                  omega arith,
                  inr refl,
                  ap (λ l. l ++ refresh ∷ []) off,
                  refl,
                  inl (sym answer ∙ f, refl, refl),
                )
          | inr c ↦
              rw (f, c, switch_off)
                (
                  suc k,
                  refresh ∷ [],
                  omega arith,
                  inr refl,
                  ap (λ l. l ++ refresh ∷ []) off,
                  refl,
                  inr refl,
                )
        ]
      ]

  module _ (cfg : Config) (plan : Plan fl) where
    -- The last effects of a run, with the status that it ends in and its points.
    abbrev pub closing : Status fl → List (Point fl) → List (Effect fl)
    closing final points =
        released ∷ progress final ∷ (if cfg.recording then sweep_finished final points ∷ [] else [])
        ++ journaled final points ∷ (if cfg.notifying then notified final points ∷ [] else [])

    -- The whole of a run: the first report, the sweep with its samples, the output-off with a poll, and the closing with
    -- the points of the samples.
    abbrev pub Concludes : List (Update fl) → World fl → World fl → Type 0
    Concludes after w w' =
        (f : ℕ) × (ts : List (Telemetry fl)) × (swept : List (Effect fl)) × (made : ℕ)
        × (polled : List (Effect fl)) × Among fl ts w.inputs
        × AreSettled fl plan f f ts
        × IsDone fl plan plan.setpoints ts swept
            (drive fl reply plan plan.setpoints 0 (log_effect fl w (progress w.status))).1
        × (1 ≤ made)
        × ((polled ≡ []) ⊎ (polled ≡ refresh ∷ []))
        × (w'.log
            ≡ ((((w.log ++ progress w.status ∷ []) ++ swept) ++ offs fl reply made) ++ polled)
              ++ closing w'.status (w.vitals.points ++ map (point_of fl) ts))
        × (((reply (((w.log ++ progress w.status ∷ []) ++ swept) ++ offs fl reply made) ≡ none)
              × (confirm_output_off fl reply after ≡ true))
            ⊎ ((w'.status.state ≡ aborted) × (w'.status.reason ≡ some output_off_failed)))

    -- Whatever the hub answers and whatever a run receives that has a positive dwell and has seen no tick yet, a sweep does this, in order: it goes
    -- through its setpoints in order, as far as it comes, and takes a sample after each, which is at least a dwell later than the
    -- one before, within the sweep's time and free of a protection; it switches the output off, at least
    -- once; and only then it releases the interlock and stores and reports the end, with the points of exactly these samples. If
    -- the hub did not accept the output-off, or no update showed it, the run ends as
    -- aborted, with the reason output_off_failed.
    pub execute-Concludes :
        (stop : Bool) (after : List (Update fl)) (w : World fl)
        → 1 ≤ plan.dwell
        → w.vitals.clock ≡ none
        → Concludes after w (execute fl reply cfg plan stop after w)
    unfolding execute finish classify
    execute-Concludes stop after w d c =
        let begun = log_effect fl w (progress w.status) in
        let walked = drive fl reply plan plan.setpoints 0 begun in
        let why = reason_for walked.1 stop in
        let (f, (ts, swept, points, grown, among, settled, ends)) =
          drive-Sweeps fl plan reply d plan.setpoints 0 begun c in
        let (made, polled, some_made, poll, log, same, off) = switch_off_lem after why walked.0 in
        let final = (execute fl reply cfg plan stop after w).status in
        (
          f,
          ts,
          swept,
          made,
          polled,
          among,
          settled,
          ends,
          some_made,
          poll,
          ap (λ l. l ++ closing final (switch_off fl reply after why walked.0).0.vitals.points)
                (log ∙ ap (λ l. (l ++ offs fl reply made) ++ polled) grown)
              ∙ ap
                  (λ p.
                    ((((w.log ++ progress w.status ∷ []) ++ swept) ++ offs fl reply made) ++ polled)
                    ++ closing final p)
                  (ap (λ v. v.points) same ∙ points),
          elim off [
            | inl (a, s, _) ↦ inl (subst (λ l. reply (l ++ offs fl reply made) ≡ none) grown a, s)
            | inr g ↦ inr (ap classify g, ap some g)
          ],
        )
