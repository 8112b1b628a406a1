-- ===== src/Charger/Run/Drive.antt =====
-- What the phases of a charge in run.go do to the log.
use dps150_web.Base.{
  ℕ, suc, ◌≡◌, refl, sym, List, [], ◌∷◌, ◌++◌, Option, none, some, arith, Option-cases, inl, inr,
  All,
}
use mathlib.Core.Path.{subst}
use dps150_web.Float.{Floats}
use dps150_web.Hub.Command.{CommandError}
use dps150_web.Charger.Plan.{Phase, Plan}
use dps150_web.Charger.Run.{
  Config, Input, World, Outcome, Effect, set_voltage, set_current, log_effect, start_of, terminates,
  note_tick, phase_loop, call, set_phase, run_phase, drive,
}
use dps150_web.Charger.Run.Steps.{phase_loop-Course}
use dps150_web.Charger.Run.Watch.{
  IsOneOf, IsCharging, onsets, Grows, Grows-trans, Grows-same, note_tick-Keeps,
}

module _ (fl : Floats) (cfg : Config) (plan : Plan fl)
    (reply : List (Effect fl) → Option CommandError) where
  phase_loop-Grows :
      (ph : Phase fl) (is : List (Input fl)) (start since : Option ℕ) (w : World fl)
      → Grows fl plan w (phase_loop fl cfg plan ph is start since w).0
  unfolding phase_loop
  phase_loop-Grows ph [] start since w = Grows-same fl plan w (record w { inputs = [] }) refl refl
  phase_loop-Grows ph (i ∷ is) start since w =
      let G : Outcome fl → Type 0 = λ x. Grows fl plan w x.0 in
      elim (phase_loop-Course fl cfg plan ph i is start since w) [
        | inl (s, q) ↦ subst G (sym q) (phase_loop-Grows ph is start since w)
        | inr (inl (x, s, q)) ↦
            subst G (sym q) (Grows-same fl plan w (record w { inputs = is }) refl refl)
        | inr (inr (inl (t, r, s, v, q))) ↦
            subst G (sym q) (Grows-same fl plan w (record w { inputs = is }) refl refl)
        | inr (inr (inr (t, s, v, inl q))) ↦ subst G (sym q) (note_tick-Keeps fl plan cfg ph t w).2
        | inr (inr (inr (t, s, v, inr q))) ↦
            let noted = note_tick fl cfg plan ph t w in
            let held = (terminates fl cfg.taper_hold ph since t).0 in
            let rest = phase_loop fl cfg plan ph is (some (start_of fl start t)) held noted in
            subst G (sym q) (
              Grows-trans fl plan w noted rest.0 (note_tick-Keeps fl plan cfg ph t w).2
                (phase_loop-Grows ph is (some (start_of fl start t)) held noted))
      ]

  Grows-effect :
      (w : World fl) (e : Effect fl)
      → IsCharging fl plan e
      → onsets fl plan (e ∷ []) ≡ 0
      → Grows fl plan w (log_effect fl w e)
  Grows-effect w e c n = (e ∷ [], refl, (c, tt), omega (arith, n))

  Grows-call :
      (w : World fl) (e : Effect fl) (next : World fl → Outcome fl)
      → IsCharging fl plan e
      → onsets fl plan (e ∷ []) ≡ 0
      → ((v : World fl) → Grows fl plan v (next v).0)
      → Grows fl plan w (call fl reply w e next).0
  Grows-call w e next p n keep = elim (Option-cases (reply (w.log ++ e ∷ []))) [
    | inl q ↦
        rw (q, call)
          (Grows-trans fl plan w (log_effect fl w e) (next (log_effect fl w e)).0
            (Grows-effect w e p n) (keep (log_effect fl w e)))
    | inr (x, q) ↦ rw (q, call) (Grows-effect w e p n)
  ]

  -- A phase with the setpoints of one of the plan's.
  abbrev IsPlanned : Phase fl → Type 0
  IsPlanned ph =
      IsOneOf fl plan (λ p. p.volts) ph.volts plan.phases
      × IsOneOf fl plan (λ p. p.amps) ph.amps plan.phases

  run_phase-Grows :
      (ph : Phase fl) (idx : ℕ) (w : World fl)
      → IsPlanned ph
      → Grows fl plan w (run_phase fl reply cfg plan ph idx w).0
  unfolding run_phase
  run_phase-Grows ph idx w (v, a) =
      Grows-call w (set_voltage ph.volts)
        (λ u.
          call fl reply u (set_current ph.amps)
            (λ x. phase_loop fl cfg plan ph x.inputs none none (set_phase fl reply ph idx x)))
        v refl
        (λ u.
          Grows-call u (set_current ph.amps)
            (λ x. phase_loop fl cfg plan ph x.inputs none none (set_phase fl reply ph idx x)) a refl
            (λ x.
              Grows-trans fl plan x (set_phase fl reply ph idx x)
                (phase_loop fl cfg plan ph x.inputs none none (set_phase fl reply ph idx x)).0
                (Grows-same fl plan x (set_phase fl reply ph idx x) refl refl)
                (phase_loop-Grows ph x.inputs none none (set_phase fl reply ph idx x))))

  pub drive-Grows :
      (phs : List (Phase fl)) (idx : ℕ) (w : World fl)
      → All IsPlanned phs
      → Grows fl plan w (drive fl reply cfg plan phs idx w).0
  unfolding drive
  drive-Grows [] idx w all = Grows-same fl plan w w refl refl
  drive-Grows (ph ∷ phs) idx w (p, ps) =
      let w' = (run_phase fl reply cfg plan ph idx w).0 in
      elim (Option-cases (run_phase fl reply cfg plan ph idx w).1) [
        | inl e ↦
            rw (e, drive)
              (Grows-trans fl plan w w' (drive fl reply cfg plan phs (suc idx) w').0
                (run_phase-Grows ph idx w p) (drive-Grows phs (suc idx) w' ps))
        | inr (x, e) ↦ rw (e, drive) (run_phase-Grows ph idx w p)
      ]

  -- Every phase of a list is one of it.
  pub IsOneOf-All :
      (all phs : List (Phase fl))
      → ((f : Phase fl → fl.Float64) (v : fl.Float64)
          → IsOneOf fl plan f v phs
          → IsOneOf fl plan f v all)
      → All
          (λ ph.
            IsOneOf fl plan (λ p. p.volts) ph.volts all × IsOneOf fl plan (λ p. p.amps) ph.amps all)
          phs
  IsOneOf-All all [] sub = tt
  IsOneOf-All all (ph ∷ phs) sub = (
    (sub (λ p. p.volts) ph.volts (inl refl), sub (λ p. p.amps) ph.amps (inl refl)),
    IsOneOf-All all phs (λ f v m. sub f v (inr m)),
  )
