-- ===== src/Charger/Run/Monitor.antt =====
-- The safety envelope of a charge in run.go, tick by tick.
use dps150_web.Base.{
  ℕ, ◌≡◌, ◌≢◌, sym, ap, ◌∙◌, List, [], ◌∷◌, ◌++◌, Option, none, some, arith, inl, inr,
}
use mathlib.Core.Path.{subst}
use dps150_web.Float.{Floats}
use dps150_web.Hub.State.{Telemetry}
use dps150_web.Charger.Plan.{Phase, Plan}
use dps150_web.Charger.Run.{
  Config, fault, Reason, Input, tick, trip, other, stale, done, got, gone, see, World, note_tick,
  start_of, phase_loop,
}
use dps150_web.Charger.Run.Steps.{phase_loop-Course}
use dps150_web.Charger.Run.Within.{
  IsCause, first_of, counter_of, Within, counters_of, counters_of-base, envelope-IsCause,
  Within-tick, Within-skipped,
}

module _ (fl : Floats) (plan : Plan fl) (ph : Phase fl) where
  open fl use {Float64}

  abbrev pub IsAny : Option ℕ → Option (Float64 × Float64) → Type 0
  IsAny start counters = Unit

  -- A phase that ends without an error has consumed only ticks within the envelope of the plan, and nothing
  -- that ends a run: no protection tripped, the telemetry never went stale, no tick was above the
  -- ceiling, above the cap of delivered charge, or later than the phase's time-out, and the counter never fell.
  pub phase_loop-Within :
      (cfg : Config) (is : List (Input fl)) (start since : Option ℕ) (w : World fl)
      → (phase_loop fl cfg plan ph is start since w).1 ≡ none
      → (consumed : List (Input fl)) × (is
          ≡ consumed ++ (phase_loop fl cfg plan ph is start since w).0.inputs)
        × Within fl plan ph IsAny start (counters_of fl plan ph w.vitals) consumed
  unfolding phase_loop
  phase_loop-Within cfg [] start since w e = absurd (cc)
  phase_loop-Within cfg (i ∷ is) start since w e =
      elim (phase_loop-Course fl cfg plan ph i is start since w) [
        | inl (s, q) ↦
            let (used, eq, ok) =
              phase_loop-Within cfg is start since w (sym (ap (λ x. x.1) q) ∙ e) in
            (
              i ∷ used,
              ap (λ l. i ∷ l) eq ∙ ap (λ x. i ∷ used ++ x.0.inputs) (sym q),
              Within-skipped fl plan ph IsAny i used start (counters_of fl plan ph w.vitals) s ok,
            )
        | inr (inl (x, s, q)) ↦ let f = sym (ap (λ x. x.1) q) ∙ e in absurd (cc)
        | inr (inr (inl (t, r, s, v, q))) ↦ let f = sym (ap (λ x. x.1) q) ∙ e in absurd (cc)
        | inr (inr (inr (t, s, v, inl q))) ↦ (
          i ∷ [],
          ap (λ x. i ∷ x.0.inputs) (sym q),
          Within-tick fl plan ph IsAny cfg i [] start w t s v tt,
        )
        | inr (inr (inr (t, s, v, inr q))) ↦
            let (used, eq, ok) =
              phase_loop-Within cfg is (some (start_of fl start t)) _ (note_tick fl cfg plan ph t w)
                (sym (ap (λ x. x.1) q) ∙ e) in
            (
              i ∷ used,
              ap (λ l. i ∷ l) eq ∙ ap (λ x. i ∷ used ++ x.0.inputs) (sym q),
              Within-tick fl plan ph IsAny cfg i used start w t s v ok,
            )
      ]

  -- What nextTick returns is never a fault.
  see-gone : (i : Input fl) (r : Reason) → see fl i ≢ gone (fault r)
  unfolding see
  see-gone (tick t) r e = ground arith
  see-gone (trip p) r e = ground arith
  see-gone other r e = absurd (cc)
  see-gone stale r e = absurd (cc)
  see-gone done r e = absurd (cc)

  -- A phase that ends in a fault does so at the first tick that is not within the envelope, and for
  -- the reason that this tick gives: before it come only ticks within the envelope.
  pub phase_loop-IsCause :
      (cfg : Config) (is : List (Input fl)) (start since : Option ℕ) (w : World fl) (r : Reason)
      → (phase_loop fl cfg plan ph is start since w).1 ≡ some (fault r)
      → (consumed : List (Input fl)) × (i : Input fl) × (t : Telemetry fl) × (is
          ≡ consumed ++ i ∷ (phase_loop fl cfg plan ph is start since w).0.inputs)
        × (see fl i ≡ got t)
        × Within fl plan ph
            (λ s c.
              IsCause fl plan ph
                (first_of fl plan ph s t)
                (counter_of fl plan ph c t).0
                (counter_of fl plan ph c t).1
                t
                r)
            start
            (counters_of fl plan ph w.vitals)
            consumed
  unfolding phase_loop
  phase_loop-IsCause cfg [] start since w r e = absurd (cc)
  phase_loop-IsCause cfg (i ∷ is) start since w r e =
      let P : Telemetry fl → Option ℕ → Option (Float64 × Float64) → Type 0 = λ t s c.
        IsCause fl plan ph (first_of fl plan ph s t) (counter_of fl plan ph c t).0
          (counter_of fl plan ph c t).1 t r in
      elim (phase_loop-Course fl cfg plan ph i is start since w) [
        | inl (s, q) ↦
            let (used, j, t, eq, sj, ok) =
              phase_loop-IsCause cfg is start since w r (sym (ap (λ x. x.1) q) ∙ e) in
            (
              i ∷ used,
              j,
              t,
              ap (λ l. i ∷ l) eq ∙ ap (λ x. i ∷ used ++ j ∷ x.0.inputs) (sym q),
              sj,
              Within-skipped fl plan ph (P t) i used start (counters_of fl plan ph w.vitals) s ok,
            )
        | inr (inl (x, s, q)) ↦
            let f = sym (ap (λ x. x.1) q) ∙ e in absurd (see-gone i r (s ∙ ap gone (cc)))
        | inr (inr (inl (t, r', s, v, q))) ↦
            let f = sym (ap (λ x. x.1) q) ∙ e in
            (
              [],
              i,
              t,
              ap (λ x. i ∷ x.0.inputs) (sym q),
              s,
              subst (λ c. IsCause fl plan ph (start_of fl start t) c.0 c.1 t r)
                  (sym (counters_of-base fl plan ph w.vitals t))
                  (envelope-IsCause fl plan ph (start_of fl start t) w.vitals t r
                    (v ∙ ap some (cc))),
            )
        | inr (inr (inr (t, s, v, inl q))) ↦ let f = sym (ap (λ x. x.1) q) ∙ e in absurd (cc)
        | inr (inr (inr (t, s, v, inr q))) ↦
            let (used, j, u, eq, sj, ok) =
              phase_loop-IsCause cfg is (some (start_of fl start t)) _
                (note_tick fl cfg plan ph t w) r (sym (ap (λ x. x.1) q) ∙ e) in
            (
              i ∷ used,
              j,
              u,
              ap (λ l. i ∷ l) eq ∙ ap (λ x. i ∷ used ++ j ∷ x.0.inputs) (sym q),
              sj,
              Within-tick fl plan ph (P u) cfg i used start w t s v ok,
            )
      ]
