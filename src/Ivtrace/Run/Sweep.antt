-- ===== src/Ivtrace/Run/Sweep.antt =====
-- The steps of a sweep in run.go, one after the other.
use dps150_web.Base.{
  ℕ, suc, ◌+◌, ◌-◌, ◌≤◌, ◌<◌, ◌≡◌, ◌≢◌, refl, sym, ap, ◌∙◌, Bool, false, List, [], ◌∷◌, ◌++◌, map,
  Option, none, some, ltb, arith, Bool-cases, Option-cases, ◌⊎◌, inl, inr, length, take, append-nil,
  append_assoc,
}
use mathlib.Core.Path.{subst}
use dps150_web.Float.{Floats}
use dps150_web.Hub.State.{Telemetry}
use dps150_web.Hub.Command.{CommandError}
use dps150_web.Ivtrace.Plan.{is_voltage, Plan}
use dps150_web.Ivtrace.Tick.{progress_every}
use dps150_web.Ivtrace.Run.{
  RunError, Input, tick, World, Effect, progress, set_voltage, set_current, refresh, output,
  released, sweep_finished, journaled, notified, log_effect, point_of, record_point, maybe_progress,
  write_sweep, last_tick, sample_loop, sample_step, drive,
}
use dps150_web.Ivtrace.Run.Settle.{IsFine, Settles, sample_loop-Settles, sample_loop-first}

module _ (fl : Floats) where
  -- A log without the reports of progress.
  abbrev pub unreported : List (Effect fl) → List (Effect fl)
  unreported [] = []
  unreported (progress s ∷ es) = unreported es
  unreported (set_voltage v ∷ es) = set_voltage v ∷ unreported es
  unreported (set_current a ∷ es) = set_current a ∷ unreported es
  unreported (refresh ∷ es) = refresh ∷ unreported es
  unreported (output on ∷ es) = output on ∷ unreported es
  unreported (released ∷ es) = released ∷ unreported es
  unreported (sweep_finished s p ∷ es) = sweep_finished s p ∷ unreported es
  unreported (journaled s p ∷ es) = journaled s p ∷ unreported es
  unreported (notified s p ∷ es) = notified s p ∷ unreported es

  -- The ticks of a list are among some inputs, in order.
  abbrev pub Among : List (Telemetry fl) → List (Input fl) → Type 0
  Among [] is = Unit
  Among (t ∷ ts) is =
      (pre : List (Input fl)) × (post : List (Input fl)) × (is ≡ pre ++ tick t ∷ post)
      × Among ts post

  -- What a report does.
  maybe_progress-Tells :
      (ts : ℕ) (w : World fl)
      → let u = maybe_progress fl ts w in
        (u.inputs ≡ w.inputs)
        × (u.vitals.points ≡ w.vitals.points)
        × (u.vitals.clock ≡ w.vitals.clock)
        × ((xs : List (Effect fl)) × (u.log ≡ w.log ++ xs)
            × ((ys : List (Effect fl)) → unreported (xs ++ ys) ≡ unreported ys))
  unfolding maybe_progress
  maybe_progress-Tells ts w =
      elim (Bool-cases (elim w.vitals.last_prog as (λ _. Bool) [
        | none ↦ false
        | some s ↦ ltb (ts - s) progress_every
      ])) [
        | inl l ↦
            rw (l, maybe_progress) (refl, refl, refl, ([], sym (append-nil w.log), λ ys. refl))
        | inr l ↦
            rw (l, maybe_progress) (refl, refl, refl, (progress w.status ∷ [], refl, λ ys. refl))
      ]

  unreported-write :
      (plan : Plan fl) (v : fl.Float64) (ys : List (Effect fl))
      → unreported (write_sweep fl plan v ∷ ys) ≡ write_sweep fl plan v ∷ unreported ys
  unreported-write plan v ys = elim (Bool-cases (is_voltage plan.request.mode)) [
    | inl e ↦ rw e refl
    | inr e ↦ rw e refl
  ]

  module _ (plan : Plan fl) where
    -- The samples of a run whose first tick came at `f`: each is free of a protection, came a dwell at least after the one
    -- before (the first after `r`), and within the sweep's time.
    abbrev pub AreSettled : ℕ → ℕ → List (Telemetry fl) → Type 0
    AreSettled f r [] = Unit
    AreSettled f r (t ∷ ts) =
        IsFine fl t
        × (r + plan.dwell ≤ t.ts)
        × (t.ts ≤ f + plan.sweep_timeout)
        × AreSettled f t.ts ts

    -- How some setpoints have been gone through, with the samples `ts` and the effects `xs`.
    abbrev pub IsDone :
        List fl.Float64 → List (Telemetry fl) → List (Effect fl) → Option RunError → Type 0
    IsDone vs ts xs e =
        ((e ≡ none) × (length ts ≡ length vs) × (unreported xs ≡ map (write_sweep fl plan) vs))
        ⊎ ((e ≢ none)
            × (length ts < length vs)
            × (unreported xs ≡ map (write_sweep fl plan) (take (suc (length ts)) vs)))

    abbrev pub Sweeps : ℕ → ℕ → List fl.Float64 → World fl → World fl × Option RunError → Type 0
    Sweeps f r vs w (w', e) =
        (ts : List (Telemetry fl)) × (xs : List (Effect fl)) × (w'.vitals.points
          ≡ w.vitals.points ++ map (point_of fl) ts)
        × (w'.log ≡ w.log ++ xs)
        × Among ts w.inputs
        × AreSettled f r ts
        × IsDone vs ts xs e

    module _ (reply : List (Effect fl) → Option CommandError) (d : 1 ≤ plan.dwell) where
      -- What is left of a step is the wait.
      abbrev after :
          fl.Float64
          → List fl.Float64
          → ℕ
          → World fl × (RunError ⊎ Telemetry fl)
          → World fl × Option RunError
      after v vs idx p = elim p.1 [
        | inl e ↦ (p.0, some e)
        | inr t ↦
            drive fl reply plan vs (suc idx)
              (maybe_progress fl t.ts (record_point fl plan idx t p.0))
      ]

      IsDone-cons :
          (v : fl.Float64) (vs : List fl.Float64) (t : Telemetry fl) (ts : List (Telemetry fl))
          (xs : List (Effect fl)) (e : Option RunError) (told : List (Effect fl))
          → ((ys : List (Effect fl)) → unreported (told ++ ys) ≡ unreported ys)
          → IsDone vs ts xs e
          → IsDone (v ∷ vs) (t ∷ ts) (write_sweep fl plan v ∷ told ++ xs) e
      IsDone-cons v vs t ts xs e told quiet (inl (n, l, q)) = inl (
        n,
        ap suc l,
        unreported-write plan v (told ++ xs) ∙ ap (λ z. write_sweep fl plan v ∷ z) (quiet xs ∙ q),
      )
      IsDone-cons v vs t ts xs e told quiet (inr (n, l, q)) = inr (
        n,
        omega arith,
        unreported-write plan v (told ++ xs) ∙ ap (λ z. write_sweep fl plan v ∷ z) (quiet xs ∙ q),
      )

      Sweeps-cons :
          (f r : ℕ) (v : fl.Float64) (vs : List fl.Float64) (idx : ℕ) (w : World fl)
          (p : World fl × (RunError ⊎ Telemetry fl))
          → Settles fl plan f r w.inputs (log_effect fl w (write_sweep fl plan v)) p
          → ((l : ℕ) (u : World fl)
              → u.vitals.clock ≡ some (f, l)
              → Sweeps f l vs u (drive fl reply plan vs (suc idx) u))
          → Sweeps f r (v ∷ vs) w (after v vs idx p)
      unfolding record_point
      Sweeps-cons f r v vs idx w (u, inl e) (log, points) rest = (
        [],
        write_sweep fl plan v ∷ [],
        points ∙ sym (append-nil w.vitals.points),
        log,
        tt,
        tt,
        inr (λ q. absurd (cc), omega arith, unreported-write plan v []),
      )
      Sweeps-cons f r v vs idx w (u, inr t) (log, points, (pre, from), clock, fine, late, early)
            rest =
          let recorded = record_point fl plan idx t u in
          let told = maybe_progress fl t.ts recorded in
          let (same, kept, timed, (xs, grown, quiet)) = maybe_progress-Tells t.ts recorded in
          let (ts, ys, more, log', among, settled, ends) = rest t.ts told (timed ∙ clock) in
          (
            t ∷ ts,
            write_sweep fl plan v ∷ xs ++ ys,
            more
                ∙ ap (λ z. z ++ map (point_of fl) ts)
                    (kept ∙ ap (λ z. z ++ point_of fl t ∷ []) points)
                ∙ append_assoc w.vitals.points (point_of fl t ∷ []) (map (point_of fl) ts),
            log'
                ∙ ap (λ z. z ++ ys) (grown ∙ ap (λ z. z ++ xs) log)
                ∙ append_assoc (w.log ++ write_sweep fl plan v ∷ []) xs ys
                ∙ append_assoc w.log (write_sweep fl plan v ∷ []) (xs ++ ys),
            (pre, u.inputs, from, subst (Among ts) same among),
            (fine, late, early, settled),
            IsDone-cons v vs t ts ys (drive fl reply plan vs (suc idx) told).1 xs quiet ends,
          )

      sample_step-Settles :
          (v : fl.Float64) (f l : ℕ) (w : World fl)
          → w.vitals.clock ≡ some (f, l)
          → Settles fl plan f l w.inputs
              (log_effect fl w (write_sweep fl plan v))
              (sample_step fl reply plan v w)
      unfolding sample_step
      sample_step-Settles v f l w c =
          elim (Option-cases (reply (w.log ++ write_sweep fl plan v ∷ []))) [
            | inr (x, e) ↦ rw (e, sample_step) (refl, refl)
            | inl e ↦
                let known : last_tick fl w ≡ some l = rw c refl in
                rw (e, sample_step)
                  (subst
                    (λ o.
                      Settles fl plan f l w.inputs (log_effect fl w (write_sweep fl plan v))
                        (sample_loop fl plan w.inputs o (log_effect fl w (write_sweep fl plan v))))
                    (sym known)
                    (sample_loop-Settles fl plan w.inputs f l l
                      (log_effect fl w (write_sweep fl plan v)) d c))
          ]

      sample_step-first :
          (v : fl.Float64) (w : World fl)
          → w.vitals.clock ≡ none
          → (f : ℕ) × Settles fl plan f f w.inputs
              (log_effect fl w (write_sweep fl plan v))
              (sample_step fl reply plan v w)
      unfolding sample_step
      sample_step-first v w c = elim (Option-cases (reply (w.log ++ write_sweep fl plan v ∷ []))) [
        | inr (x, e) ↦ (0, rw (e, sample_step) (refl, refl))
        | inl e ↦
            let known : last_tick fl w ≡ none = rw c refl in
            let (f, g) =
              sample_loop-first fl plan w.inputs (log_effect fl w (write_sweep fl plan v)) d c in
            (
              f,
              rw (e, sample_step)
                  (subst
                    (λ o.
                      Settles fl plan f f w.inputs (log_effect fl w (write_sweep fl plan v))
                        (sample_loop fl plan w.inputs o (log_effect fl w (write_sweep fl plan v))))
                    (sym known) g),
            )
      ]

      drive-known :
          (vs : List fl.Float64) (idx f l : ℕ) (w : World fl)
          → w.vitals.clock ≡ some (f, l)
          → Sweeps f l vs w (drive fl reply plan vs idx w)
      unfolding drive
      drive-known [] idx f l w c = (
        [],
        [],
        sym (append-nil w.vitals.points),
        sym (append-nil w.log),
        tt,
        tt,
        inl (refl, refl, refl),
      )
      drive-known (v ∷ vs) idx f l w c =
          Sweeps-cons f l v vs idx w (sample_step fl reply plan v w) (sample_step-Settles v f l w c)
            (λ k u e. drive-known vs (suc idx) f k u e)

      -- The samples of a run that starts without a tick: the dwell of the first is measured from the first tick.
      -- Their points are what the run records. If the run goes through, there is one for each setpoint; if not, there is none for
      -- the setpoint written last. Apart from reports, the run does nothing but write the setpoints in order, and it
      -- does not write the one after without a sample for the one before.
      pub drive-Sweeps :
          (vs : List fl.Float64) (idx : ℕ) (w : World fl)
          → w.vitals.clock ≡ none
          → (f : ℕ) × Sweeps f f vs w (drive fl reply plan vs idx w)
      unfolding drive
      drive-Sweeps [] idx w c = (
        0,
        (
          [],
          [],
          sym (append-nil w.vitals.points),
          sym (append-nil w.log),
          tt,
          tt,
          inl (refl, refl, refl),
        ),
      )
      drive-Sweeps (v ∷ vs) idx w c =
          let (f, s) = sample_step-first v w c in
          (
            f,
            Sweeps-cons f f v vs idx w (sample_step fl reply plan v w) s
                (λ k u e. drive-known vs (suc idx) f k u e),
          )
