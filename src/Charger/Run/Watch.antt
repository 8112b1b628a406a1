-- ===== src/Charger/Run/Watch.antt =====
-- The effects of the watching and of the setpoints of a charge in run.go.
use dps150_web.Base.{
  ℕ, suc, ◌+◌, ◌-◌, ◌≤◌, ◌≡◌, refl, sym, ap, ◌∙◌, Bool, true, false, not, ◌||◌, List, [], ◌∷◌, ◌++◌,
  none, some, ltb, ◌==◌, arith, if◌then◌else◌, Bool-cases, Option-cases, ◌⊎◌, inl, inr, All,
  All-append, append_assoc, append-nil,
}
use dps150_web.Float.{Floats}
use dps150_web.Protocol.Register
use dps150_web.Hub.State.{Telemetry}
use dps150_web.Charger.Plan.{Phase, Plan}
use dps150_web.Charger.Run.{
  Config, World, base_of, record_tick, is_main, update_status, maybe_refresh, maybe_progress,
  maybe_capture_cc_onset, capture, with_ticks, note_tick, Effect, progress, refresh, set_voltage,
  set_current, cc_onset, output, released, session_finished, journaled, notified, progress_every,
}

module _ (fl : Floats) (plan : Plan fl) where
  open fl use {Float64}

  -- A number is that of one of some phases.
  abbrev pub IsOneOf : (Phase fl → Float64) → Float64 → List (Phase fl) → Type 0
  IsOneOf f v [] = ⊥
  IsOneOf f v (p ∷ ps) = (v ≡ f p) ⊎ IsOneOf f v ps

  -- What a run does before its end: reports, polls and setpoints of the plan, but nothing to the output.
  abbrev pub IsCharging : Effect fl → Type 0
  IsCharging (progress s) = Unit
  IsCharging refresh = Unit
  IsCharging (set_voltage v) = IsOneOf (λ p. p.volts) v plan.phases
  IsCharging (set_current a) = IsOneOf (λ p. p.amps) a plan.phases
  IsCharging (cc_onset v a) = Unit
  IsCharging (output on) = ⊥
  IsCharging released = ⊥
  IsCharging (session_finished s) = ⊥
  IsCharging (journaled s) = ⊥
  IsCharging (notified s) = ⊥

  -- How often a log records the onset of the constant current.
  abbrev pub onsets : List (Effect fl) → ℕ
  onsets [] = 0
  onsets (cc_onset v a ∷ es) = suc (onsets es)
  onsets (progress s ∷ es) = onsets es
  onsets (refresh ∷ es) = onsets es
  onsets (set_voltage v ∷ es) = onsets es
  onsets (set_current a ∷ es) = onsets es
  onsets (output on ∷ es) = onsets es
  onsets (released ∷ es) = onsets es
  onsets (session_finished s ∷ es) = onsets es
  onsets (journaled s ∷ es) = onsets es
  onsets (notified s ∷ es) = onsets es

  pub onsets-append : (xs ys : List (Effect fl)) → onsets (xs ++ ys) ≡ onsets xs + onsets ys
  onsets-append [] ys = omega arith
  onsets-append (cc_onset v a ∷ xs) ys = omega (arith, onsets-append xs ys)
  onsets-append (progress s ∷ xs) ys = onsets-append xs ys
  onsets-append (refresh ∷ xs) ys = onsets-append xs ys
  onsets-append (set_voltage v ∷ xs) ys = onsets-append xs ys
  onsets-append (set_current a ∷ xs) ys = onsets-append xs ys
  onsets-append (output on ∷ xs) ys = onsets-append xs ys
  onsets-append (released ∷ xs) ys = onsets-append xs ys
  onsets-append (session_finished s ∷ xs) ys = onsets-append xs ys
  onsets-append (journaled s ∷ xs) ys = onsets-append xs ys
  onsets-append (notified s ∷ xs) ys = onsets-append xs ys

  -- From `w` to `u` the log grows by such effects, with an onset only if the latch was open.
  abbrev pub Grows : World fl → World fl → Type 0
  Grows w u =
      (xs : List (Effect fl)) × (u.log ≡ w.log ++ xs)
      × All IsCharging xs
      × (onsets xs + (if u.vitals.captured then 0 else 1) ≤ (if w.vitals.captured then 0 else 1))

  pub Grows-trans : (w u v : World fl) → Grows w u → Grows u v → Grows w v
  Grows-trans w u v (xs, e, a, n) (ys, f, b, m) = (
    xs ++ ys,
    f ∙ ap (λ z. z ++ ys) e ∙ append_assoc w.log xs ys,
    All-append IsCharging xs ys a b,
    omega (arith, onsets-append xs ys),
  )

  -- The log and the latch stay.
  pub Grows-same :
      (w u : World fl) → u.log ≡ w.log → u.vitals.captured ≡ w.vitals.captured → Grows w u
  Grows-same w u e c = ([], e ∙ sym (append-nil w.log), tt, rw c (omega arith))

  -- From `w` to `u` the log grows, and the counters stay.
  abbrev pub Keeps : World fl → World fl → Type 0
  Keeps w u = (u.vitals.base ≡ w.vitals.base) × (u.vitals.last_cap ≡ w.vitals.last_cap) × Grows w u

  Keeps-trans : (w u v : World fl) → Keeps w u → Keeps u v → Keeps w v
  Keeps-trans w u v (b, l, g) (b', l', g') = (b' ∙ b, l' ∙ l, Grows-trans w u v g g')

  Keeps-same :
      (w u : World fl)
      → u.log ≡ w.log
      → u.vitals.captured ≡ w.vitals.captured
      → u.vitals.base ≡ w.vitals.base
      → u.vitals.last_cap ≡ w.vitals.last_cap
      → Keeps w u
  Keeps-same w u e c b l = (b, l, Grows-same w u e c)

  update_status-Keeps :
      (ph : Phase fl) (t : Telemetry fl) (w : World fl) → Keeps w (update_status fl plan ph t w)
  unfolding update_status
  update_status-Keeps ph t w = Keeps-same w (update_status fl plan ph t w) refl refl refl refl

  maybe_refresh-Keeps : (every ts : ℕ) (w : World fl) → Keeps w (maybe_refresh fl every ts w)
  unfolding maybe_refresh
  maybe_refresh-Keeps every ts w = elim (Option-cases w.vitals.last_refresh) [
    | inl e ↦
        rw (e, maybe_refresh)
          (Keeps-same w (record w { vitals = record w.vitals { last_refresh = some ts } }) refl refl
            refl refl)
    | inr (s, e) ↦ elim (Bool-cases (ltb (ts - s) every)) [
      | inl l ↦ rw (e, l, maybe_refresh) (Keeps-same w w refl refl refl refl)
      | inr l ↦ rw (e, l, maybe_refresh) (refl, refl, (refresh ∷ [], refl, (tt, tt), omega arith))
    ]
  ]

  maybe_progress-Keeps : (ts : ℕ) (w : World fl) → Keeps w (maybe_progress fl ts w)
  unfolding maybe_progress
  maybe_progress-Keeps ts w =
      elim (Bool-cases (elim w.vitals.last_prog as (λ _. Bool) [
        | none ↦ false
        | some s ↦ ltb (ts - s) progress_every
      ])) [
        | inl l ↦ rw (l, maybe_progress) (Keeps-same w w refl refl refl refl)
        | inr l ↦
            rw (l, maybe_progress)
              (refl, refl, (progress w.status ∷ [], refl, (tt, tt), omega arith))
      ]

  capture-Keeps :
      (recording : Bool) (t : Telemetry fl) (w : World fl)
      → w.vitals.captured ≡ false
      → Keeps w (capture fl recording t w)
  capture-Keeps true t w o =
      (refl, refl, (cc_onset t.voltage t.current ∷ [], refl, (tt, tt), rw o (omega arith)))
  capture-Keeps false t w o = (refl, refl, ([], sym (append-nil w.log), tt, rw o (omega arith)))

  Keeps-if :
      (b : Bool) (w u v : World fl)
      → (b ≡ true → Keeps w u)
      → (b ≡ false → Keeps w v)
      → Keeps w (if b then u else v)
  Keeps-if true w u v f g = f refl
  Keeps-if false w u v f g = g refl

  with_ticks-Keeps : (n : ℕ) (w : World fl) → Keeps w (with_ticks fl w n)
  with_ticks-Keeps n w = Keeps-same w (with_ticks fl w n) refl refl refl refl

  maybe_capture-Keeps :
      (recording : Bool) (ph : Phase fl) (t : Telemetry fl) (w : World fl)
      → Keeps w (maybe_capture_cc_onset fl recording plan ph t w)
  unfolding maybe_capture_cc_onset
  maybe_capture-Keeps recording ph t w =
      let counted = with_ticks fl w (suc w.vitals.cc_high_ticks) in
      Keeps-if w.vitals.captured w w _ (λ _. Keeps-same w w refl refl refl refl)
        (λ o.
          Keeps-if (not (is_main ph.kind)) w (with_ticks fl w 0) _ (λ _. with_ticks-Keeps 0 w)
            (λ _.
              Keeps-if (not (fl.le (fl.mul (fl.decimal 9 1) plan.request.charge_a) t.current)) w
                (with_ticks fl w 0) _ (λ _. with_ticks-Keeps 0 w)
                (λ _.
                  Keeps-if (ltb (suc w.vitals.cc_high_ticks) 2 || (t.mode == Register.mode_cv)) w
                    counted _ (λ _. with_ticks-Keeps (suc w.vitals.cc_high_ticks) w)
                    (λ _.
                      Keeps-trans w counted (capture fl recording t counted)
                        (with_ticks-Keeps (suc w.vitals.cc_high_ticks) w)
                        (capture-Keeps recording t counted o)))))

  abbrev recorded : Telemetry fl → World fl → World fl
  recorded t w = record w { vitals = record_tick fl w.vitals t }

  -- What a tick within the envelope leaves behind: the counters that it recorded.
  pub note_tick-Keeps :
      (cfg : Config) (ph : Phase fl) (t : Telemetry fl) (w : World fl)
      → let u = note_tick fl cfg plan ph t w in
        (u.vitals.base ≡ some (base_of fl w.vitals t))
        × (u.vitals.last_cap ≡ t.capacity_ah)
        × Grows w u
  unfolding note_tick
  note_tick-Keeps cfg ph t w =
      let shown = update_status fl plan ph t (recorded t w) in
      let polled = maybe_refresh fl cfg.refresh_every t.ts shown in
      let told = maybe_progress fl t.ts polled in
      let last = maybe_capture_cc_onset fl cfg.recording plan ph t told in
      let (b, l, g) =
        Keeps-trans (recorded t w) shown last (update_status-Keeps ph t (recorded t w)) (
          Keeps-trans shown polled last (maybe_refresh-Keeps cfg.refresh_every t.ts shown) (
            Keeps-trans polled told last (maybe_progress-Keeps t.ts polled)
              (maybe_capture-Keeps cfg.recording ph t told))) in
      (b, l, Grows-trans w (recorded t w) last (Grows-same w (recorded t w) refl refl) g)
