-- ===== src/Charger/Run/Walk.antt =====
-- A whole charge in run.go, from its first report to its last.
use dps150_web.Base.{
  ℕ, suc, ◌≤◌, ◌≡◌, refl, sym, ap, ◌∙◌, Bool, true, List, [], ◌∷◌, ◌++◌, Option, none, some, arith,
  if◌then◌else◌, Bool-cases, Option-cases, ◌⊎◌, inl, inr, All, append-nil,
}
use mathlib.Core.Path.{subst}
use dps150_web.Float.{Floats}
use dps150_web.Hub.State.{Update}
use dps150_web.Hub.Command.{CommandError}
use dps150_web.Hub.Safety.Exclusion.{safe_output_off-last}
use dps150_web.Charger.Plan.{Plan}
use dps150_web.Charger.Run.{
  Config, aborted, Reason, output_off_failed, classify, reason_for, Status, World, Effect, progress,
  refresh, released, session_finished, journaled, notified, log_effect, drive, offs, output_off,
  confirm_output_off, switch_off, finish, execute,
}
use dps150_web.Charger.Run.Watch.{IsCharging, onsets}
use dps150_web.Charger.Run.Drive.{drive-Grows, IsOneOf-All}

module _ (fl : Floats) (cfg : Config) (plan : Plan fl)
    (reply : List (Effect fl) → Option CommandError) where
  output_off_lem :
      (w : World fl)
      → (made : ℕ) × (1 ≤ made)
        × ((output_off fl reply w).0 ≡ record w { log = w.log ++ offs fl reply made })
        × ((output_off fl reply w).1 ≡ reply (w.log ++ offs fl reply made))
        × (((output_off fl reply w).1 ≡ none) ⊎ (made ≡ 3))
  unfolding output_off
  output_off_lem w =
      let (k, e, ends) = safe_output_off-last (λ n. reply (w.log ++ offs fl reply (suc n))) in
      (
        suc k,
        omega arith,
        ap (λ r. record w { log = w.log ++ offs fl reply r.1 }) e,
        ap (λ r. r.0) e,
        elim ends [ inl a ↦ inl (ap (λ r. r.0) e ∙ a) | inr b ↦ inr (ap suc b) ],
      )

  -- The last effects of a run, with the status that it ends in.
  abbrev pub closing : Status fl → List (Effect fl)
  closing final =
      released ∷ progress final ∷ (if cfg.recording then session_finished final ∷ [] else [])
      ++ journaled final ∷ (if cfg.notifying then notified final ∷ [] else [])

  -- The end of a run: either the hub accepted the output-off and a later update showed the output off, or
  -- the run ends as aborted with the reason that its output-off failed.
  abbrev pub IsOff : List (Effect fl) → List (Update fl) → Status fl → Type 0
  IsOff log after final =
      ((reply log ≡ none) × (confirm_output_off fl reply after ≡ true))
      ⊎ ((final.state ≡ aborted) × (final.reason ≡ some output_off_failed))

  -- From the world `w`, a run has led to `w'` by effects that leave the output alone, then attempts to
  -- switch it off and a poll, and then the release and the reports.
  abbrev pub EndsSafe : List (Update fl) → World fl → World fl → Type 0
  EndsSafe after w w' =
      (driven : List (Effect fl)) × (made : ℕ) × (polled : List (Effect fl)) × All
        (IsCharging fl plan) driven
      × (1 ≤ made)
      × ((polled ≡ []) ⊎ (polled ≡ refresh ∷ []))
      × (w'.log
          ≡ ((((w.log ++ progress w.status ∷ []) ++ driven) ++ offs fl reply made) ++ polled)
            ++ closing w'.status)
      × IsOff (((w.log ++ progress w.status ∷ []) ++ driven) ++ offs fl reply made) after w'.status

  switch_off_lem :
      (after : List (Update fl)) (why : Reason) (w : World fl)
      → (made : ℕ) × (polled : List (Effect fl)) × (1 ≤ made)
        × ((polled ≡ []) ⊎ (polled ≡ refresh ∷ []))
        × ((switch_off fl reply after why w).0.log ≡ (w.log ++ offs fl reply made) ++ polled)
        × (((reply (w.log ++ offs fl reply made) ≡ none)
              × (confirm_output_off fl reply after ≡ true))
            ⊎ ((switch_off fl reply after why w).1 ≡ output_off_failed))
  unfolding switch_off
  switch_off_lem after why w =
      let (made, some_made, off, e, _) = output_off_lem w in
      elim (Option-cases (output_off fl reply w).1) [
        | inr (x, f) ↦
            rw (f, switch_off)
              (
                made,
                [],
                some_made,
                inl refl,
                ap (λ u. u.log) off ∙ sym (append-nil (w.log ++ offs fl reply made)),
                inr refl,
              )
        | inl f ↦ elim (Bool-cases (confirm_output_off fl reply after)) [
          | inl c ↦
              rw (f, switch_off)
                (
                  made,
                  refresh ∷ [],
                  some_made,
                  inr refl,
                  ap (λ u. u.log ++ refresh ∷ []) off,
                  inl (sym e ∙ f, c),
                )
          | inr c ↦
              rw (f, switch_off)
                (
                  made,
                  refresh ∷ [],
                  some_made,
                  inr refl,
                  ap (λ u. u.log ++ refresh ∷ []) off,
                  inr (rw c refl),
                )
        ]
      ]

  -- Whatever the hub answers and whatever a run receives, a charge does this, in order: it reports, polls and
  -- writes setpoints of the plan, but does not touch the output; it switches the output off, at least
  -- once; and only then it releases the interlock, closes its session and reports. If the hub did not
  -- accept the output-off, or no update showed it, the run ends as
  -- aborted, with the reason output_off_failed.
  pub execute-EndsSafe :
      (stop : Bool) (after : List (Update fl)) (w : World fl)
      → EndsSafe after w (execute fl reply cfg plan stop after w)
  unfolding execute finish classify
  execute-EndsSafe stop after w =
      let begun = log_effect fl w (progress w.status) in
      let walked = drive fl reply cfg plan plan.phases 0 begun in
      let why = reason_for walked.1 stop in
      let (driven, grown, within, _) =
        drive-Grows fl cfg plan reply plan.phases 0 begun
          (IsOneOf-All fl cfg plan reply plan.phases plan.phases (λ f v m. m)) in
      let (made, polled, some_made, poll, log, ends) = switch_off_lem after why walked.0 in
      (
        driven,
        made,
        polled,
        within,
        some_made,
        poll,
        ap (λ l. l ++ closing (execute fl reply cfg plan stop after w).status)
            (log ∙ ap (λ l. (l ++ offs fl reply made) ++ polled) grown),
        elim ends [
          | inl (a, c) ↦ inl (subst (λ l. reply (l ++ offs fl reply made) ≡ none) grown a, c)
          | inr f ↦ inr (ap classify f, ap some f)
        ],
      )

  -- A run records the onset of the constant current at most once, whatever its telemetry.
  pub drive-onsets :
      (idx : ℕ) (w : World fl)
      → (xs : List (Effect fl)) × ((drive fl reply cfg plan plan.phases idx w).0.log ≡ w.log ++ xs)
        × (onsets fl plan xs ≤ 1)
  drive-onsets idx w =
      let (xs, e, _, n) =
        drive-Grows fl cfg plan reply plan.phases idx w
          (IsOneOf-All fl cfg plan reply plan.phases plan.phases (λ f v m. m)) in
      (xs, e, ground (arith, n))
