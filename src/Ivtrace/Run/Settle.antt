-- ===== src/Ivtrace/Run/Settle.antt =====
-- The wait of run.go for a settled sample.
use dps150_web.Base.{
  ℕ, ◌+◌, ◌-◌, ◌≤◌, ◌≡◌, refl, ap, ◌∙◌, true, List, [], ◌∷◌, ◌++◌, none, some, ltb, leb, ◌==◌,
  arith, Bool-cases, ◌⊎◌, inl, inr,
}
use dps150_web.Float.{Floats}
use dps150_web.Protocol.Register
use dps150_web.Hub.State.{Telemetry}
use dps150_web.Ivtrace.Plan.{Plan}
use dps150_web.Ivtrace.Run.{
  RunError, abort, stale_error, protection_error, Input, tick, trip, other, stale, done, skipped,
  got, gone, see, World, first_of, note_tick, sample_loop,
}

module _ (fl : Floats) where
  -- What nextTick waits for is a tick without a protection.
  abbrev pub IsFine : Telemetry fl → Type 0
  IsFine t = (t.protection == Register.protection_ok) ≡ true

  see-cases :
      (i : Input fl)
      → (see fl i ≡ skipped)
        ⊎ ((e : RunError) × (see fl i ≡ gone e))
        ⊎ ((t : Telemetry fl) × (see fl i ≡ got t) × (i ≡ tick t) × IsFine t)
  unfolding see
  see-cases (tick t) = elim (Bool-cases (t.protection == Register.protection_ok)) [
    | inl e ↦ inr (inr (t, rw (e, see) refl, refl, e))
    | inr e ↦ inr (inl (protection_error, rw (e, see) refl))
  ]
  see-cases (trip p) = elim (Bool-cases (p == Register.protection_ok)) [
    | inl e ↦ inl (rw (e, see) refl)
    | inr e ↦ inr (inl (protection_error, rw (e, see) refl))
  ]
  see-cases other = inl refl
  see-cases stale = inr (inl (stale_error, refl))
  see-cases done = inr (inl (abort, refl))

  module _ (plan : Plan fl) where
    -- A wait for a sample leaves the log and the points alone. Its sample `t`, at the time `f` of the first tick of the
    -- run, came a dwell at least after `r` and within the run's time.
    abbrev pub Settles :
        ℕ → ℕ → List (Input fl) → World fl → World fl × (RunError ⊎ Telemetry fl) → Type 0
    Settles f r is w (w', inl e) = (w'.log ≡ w.log) × (w'.vitals.points ≡ w.vitals.points)
    Settles f r is w (w', inr t) =
        (w'.log ≡ w.log)
        × (w'.vitals.points ≡ w.vitals.points)
        × ((pre : List (Input fl)) × (is ≡ pre ++ tick t ∷ w'.inputs))
        × (w'.vitals.clock ≡ some (f, t.ts))
        × IsFine t
        × (r + plan.dwell ≤ t.ts)
        × (t.ts ≤ f + plan.sweep_timeout)

    -- A wait that goes on is a wait for one input less.
    Settles-next :
        (f r : ℕ) (i : Input fl) (is : List (Input fl)) (w u : World fl)
        (p : World fl × (RunError ⊎ Telemetry fl))
        → u.log ≡ w.log
        → u.vitals.points ≡ w.vitals.points
        → Settles f r is u p
        → Settles f r (i ∷ is) w p
    Settles-next f r i is w u (w', inl e) el ep (l, p) = (l ∙ el, p ∙ ep)
    Settles-next f r i is w u (w', inr t) el ep (l, p, (pre, q), c, y, d, o) =
        (l ∙ el, p ∙ ep, (i ∷ pre, ap (λ x. i ∷ x) q), c, y, d, o)

    first_of-some :
        (w : World fl) (t : Telemetry fl) (f l : ℕ)
        → w.vitals.clock ≡ some (f, l)
        → first_of fl w t ≡ f
    first_of-some w t f l e = rw e refl

    -- The wait when the run has seen a tick.
    pub sample_loop-Settles :
        (is : List (Input fl)) (f l r : ℕ) (w : World fl)
        → 1 ≤ plan.dwell
        → w.vitals.clock ≡ some (f, l)
        → Settles f r is w (sample_loop fl plan is (some r) w)
    unfolding sample_loop
    sample_loop-Settles [] f l r w d c = (refl, refl)
    sample_loop-Settles (i ∷ is) f l r w d c = elim (see-cases i) [
      | inl s ↦
          rw (s, sample_loop)
            (Settles-next f r i is w w (sample_loop fl plan is (some r) w) refl refl
              (sample_loop-Settles is f l r w d c))
      | inr (inl (x, s)) ↦ rw (s, sample_loop) (refl, refl)
      | inr (inr (t, s, it, fine)) ↦
          let noted = note_tick fl t w in
          let known : noted.vitals.clock ≡ some (f, t.ts) =
            ap (λ x. some (x, t.ts)) (first_of-some w t f l c) in
          elim (Bool-cases (ltb plan.sweep_timeout (t.ts - first_of fl w t))) [
            | inl o ↦ rw (s, sample_loop) (rw o (refl, refl))
            | inr o ↦ elim (Bool-cases (leb plan.dwell (t.ts - r))) [
              | inl e ↦
                  rw (s, sample_loop)
                    (rw (o, e)
                      (
                        refl,
                        refl,
                        ([], ap (λ x. x ∷ is) it),
                        known,
                        fine,
                        ground (arith),
                        ground (arith, first_of-some w t f l c),
                      ))
              | inr e ↦
                  rw (s, sample_loop)
                    (rw (o, e)
                      (Settles-next f r i is w noted (sample_loop fl plan is (some r) noted) refl
                        refl (sample_loop-Settles is f t.ts r noted d known)))
            ]
          ]
    ]

    -- The wait when the run has seen no tick yet: its first one is what the dwell is measured from.
    pub sample_loop-first :
        (is : List (Input fl)) (w : World fl)
        → 1 ≤ plan.dwell
        → w.vitals.clock ≡ none
        → (f : ℕ) × Settles f f is w (sample_loop fl plan is none w)
    unfolding sample_loop
    sample_loop-first [] w d c = (0, (refl, refl))
    sample_loop-first (i ∷ is) w d c = elim (see-cases i) [
      | inl s ↦
          let (f, g) = sample_loop-first is w d c in
          (
            f,
            rw (s, sample_loop)
                (Settles-next f f i is w w (sample_loop fl plan is none w) refl refl g),
          )
      | inr (inl (x, s)) ↦ (0, rw (s, sample_loop) (refl, refl))
      | inr (inr (t, s, it, fine)) ↦
          let noted = note_tick fl t w in
          let same : first_of fl w t ≡ t.ts = rw c refl in
          let known : noted.vitals.clock ≡ some (t.ts, t.ts) = ap (λ x. some (x, t.ts)) same in
          elim (Bool-cases (ltb plan.sweep_timeout (t.ts - first_of fl w t))) [
            | inl o ↦ (0, rw (s, sample_loop) (rw o (refl, refl)))
            | inr o ↦ (
              t.ts,
              rw (s, sample_loop)
                  (rw o (
                    Settles-next t.ts t.ts i is w noted (sample_loop fl plan is (some t.ts) noted)
                      refl refl (sample_loop-Settles is t.ts t.ts t.ts noted d known))),
            )
          ]
    ]
