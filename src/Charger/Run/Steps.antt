-- ===== src/Charger/Run/Steps.antt =====
-- One input of the loop of runPhase in run.go.
use dps150_web.Base.{
  ℕ, ◌≡◌, refl, List, ◌∷◌, Option, none, some, Bool-cases, Option-cases, ◌⊎◌, inl, inr,
}
use dps150_web.Float.{Floats}
use dps150_web.Hub.State.{Telemetry}
use dps150_web.Charger.Plan.{Phase, Plan}
use dps150_web.Charger.Run.{
  Config, RunError, fault, Reason, Input, Seen, skipped, got, gone, see, World, envelope,
  terminates, note_tick, start_of, phase_loop,
}

module _ (fl : Floats) where
  see-cases :
      (i : Input fl)
      → (see fl i ≡ skipped)
        ⊎ ((e : RunError) × (see fl i ≡ gone e))
        ⊎ ((t : Telemetry fl) × (see fl i ≡ got t))
  see-cases i = go (see fl i) refl
    where
      go :
          (x : Seen fl)
          → see fl i ≡ x
          → (see fl i ≡ skipped)
            ⊎ ((e : RunError) × (see fl i ≡ gone e))
            ⊎ ((t : Telemetry fl) × (see fl i ≡ got t))
      go skipped e = inl e
      go (gone x) e = inr (inl (x, e))
      go (got t) e = inr (inr (t, e))

  module _ (cfg : Config) (plan : Plan fl) (ph : Phase fl) (i : Input fl) (is : List (Input fl))
      (start since : Option ℕ) (w : World fl) where
    -- The five courses of an input: skipped, the end of the run, a fault, the end of the phase, and on.
    abbrev pub Course : Type 0
    Course =
        ((see fl i ≡ skipped)
          × (phase_loop fl cfg plan ph (i ∷ is) start since w
              ≡ phase_loop fl cfg plan ph is start since w))
        ⊎ ((e : RunError) × (see fl i ≡ gone e)
            × (phase_loop fl cfg plan ph (i ∷ is) start since w
                ≡ (record w { inputs = is }, some e)))
        ⊎ ((t : Telemetry fl) × (r : Reason) × (see fl i ≡ got t)
            × (envelope fl plan ph (start_of fl start t) w.vitals t ≡ some r)
            × (phase_loop fl cfg plan ph (i ∷ is) start since w
                ≡ (record w { inputs = is }, some (fault r))))
        ⊎ ((t : Telemetry fl) × (see fl i ≡ got t)
            × (envelope fl plan ph (start_of fl start t) w.vitals t ≡ none)
            × ((phase_loop fl cfg plan ph (i ∷ is) start since w
                  ≡ (record (note_tick fl cfg plan ph t w) { inputs = is }, none))
                ⊎ (phase_loop fl cfg plan ph (i ∷ is) start since w
                    ≡ phase_loop fl cfg plan ph is (some (start_of fl start t))
                        (terminates fl cfg.taper_hold ph since t).0
                        (note_tick fl cfg plan ph t w))))

    pub phase_loop-Course : Course
    unfolding phase_loop
    phase_loop-Course = elim (see-cases i) [
      | inl s ↦ inl (s, rw (s, phase_loop) refl)
      | inr (inl (x, s)) ↦ inr (inl (x, s, rw (s, phase_loop) refl))
      | inr (inr (t, s)) ↦
          elim (Option-cases (envelope fl plan ph (start_of fl start t) w.vitals t)) [
            | inr (r, e) ↦ inr (inr (inl (t, r, s, e, rw (s, phase_loop) (rw e refl))))
            | inl e ↦ elim (Bool-cases (terminates fl cfg.taper_hold ph since t).1) [
              | inl o ↦ inr (inr (inr (t, s, e, inl (rw (s, phase_loop) (rw e (rw o refl))))))
              | inr o ↦ inr (inr (inr (t, s, e, inr (rw (s, phase_loop) (rw e (rw o refl))))))
            ]
          ]
    ]
