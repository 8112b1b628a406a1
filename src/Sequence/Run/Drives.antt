-- ===== src/Sequence/Run/Drives.antt =====
-- The effects of one node of a run of manager.go.
use dps150_web.Base.{
  ℕ, zero, suc, ◌≡◌, refl, sym, ap, ◌∙◌, Bool, true, false, not, ◌&&◌, List, [], ◌∷◌, ◌++◌, Option,
  none, some, arith, Bool-cases, Option-cases, ◌⊎◌, inl, inr, All, All-append, append_assoc,
  append-nil,
}
use Prim.Native.String.{String}
use text.Mathlib.Text as Text
use text.Mathlib.TextEquality.{eq_iff}
use dps150_web.Float.{Floats}
use dps150_web.Hub.State.{fallback_max_voltage, fallback_max_current}
use dps150_web.Hub.Command.{CommandError}
use dps150_web.Sequence.Program.{Fields, out_of, ramp_target_max}
use dps150_web.Sequence.Program.Validation.{IsSetHold, IsRamp}
use dps150_web.Sequence.Run.{
  running, completed, stopped, aborted, failed, Input, Effect, progress, voltage, current, output,
  released, journaled, Seen, skipped, got, gone, see, World, Outcome, emit, hold_phase, ramp_tick,
  after_write, call, run_set_hold, ramp_fraction, ramp_value, too_soon, ramp_write, ramp_loop,
  times,
}

module _ (fl : Floats) (reply : List (Effect fl) → Option CommandError) where
  abbrev pub IsFraction : fl.Float64 → Type 0
  IsFraction x =
      (x ≡ fl.zero64)
      ⊎ (x ≡ fl.decimal 1 0)
      ⊎ ((fl.lt x fl.zero64 ≡ false) × (fl.le (fl.decimal 1 0) x ≡ false))

  -- A setpoint is within 0 and `hi`, or a part of the way between two setpoints that are.
  abbrev pub IsSetpoint : fl.Float64 → fl.Float64 → Type 0
  IsSetpoint v hi =
      (out_of fl v hi ≡ false)
      ⊎ ((f : Fields fl) × (frac : fl.Float64) × IsFraction frac
          × (out_of fl f.from hi ≡ false)
          × (out_of fl f.to hi ≡ false)
          × (v ≡ ramp_value fl reply f frac))

  -- What a run does while it walks the program: it never touches the output.
  abbrev pub IsDriven : Effect fl → Type 0
  IsDriven (progress running path) = Unit
  IsDriven (progress completed path) = ⊥
  IsDriven (progress stopped path) = ⊥
  IsDriven (progress aborted path) = ⊥
  IsDriven (progress failed path) = ⊥
  IsDriven (voltage v) = IsSetpoint v (fallback_max_voltage fl)
  IsDriven (current v) = IsSetpoint v (fallback_max_current fl)
  IsDriven (output on) = ⊥
  IsDriven released = ⊥
  IsDriven (journaled s) = ⊥

  -- From `w` to `w'` the log has grown by such effects.
  abbrev pub Drives : World fl → World fl → Type 0
  Drives w w' = (xs : List (Effect fl)) × (w'.log ≡ w.log ++ xs) × All IsDriven xs

  pub Drives-refl : (w : World fl) → Drives w w
  Drives-refl w = ([], sym (append-nil w.log), tt)

  pub Drives-trans : (u v w : World fl) → Drives u v → Drives v w → Drives u w
  Drives-trans u v w (xs, e, p) (ys, f, q) =
      (xs ++ ys, f ∙ ap (λ l. l ++ ys) e ∙ append_assoc u.log xs ys, All-append IsDriven xs ys p q)

  pub Drives-emit : (w : World fl) (e : Effect fl) → IsDriven e → Drives w (emit fl w e)
  Drives-emit w e p = (e ∷ [], refl, (p, tt))

  pub Drives-call :
      (w : World fl) (e : Effect fl) (next : World fl → Outcome fl)
      → IsDriven e
      → ((v : World fl) → Drives v (next v).0)
      → Drives w (call fl reply w e next).0
  Drives-call w e next p keep = elim (Option-cases (reply (w.log ++ e ∷ []))) [
    | inl q ↦
        rw (q, call)
          (Drives-trans w (emit fl w e) (next (emit fl w e)).0 (Drives-emit w e p)
            (keep (emit fl w e)))
    | inr (x, q) ↦ rw (q, call) (Drives-emit w e p)
  ]

  pub Drives-hold_phase : (f : Fields fl) (w : World fl) → Drives w (hold_phase fl reply f w).0
  unfolding hold_phase
  Drives-hold_phase f w = elim (Option-cases f.advance) [
    | inl e ↦ rw (e, hold_phase) (Drives-refl w)
    | inr (c, e) ↦ rw (e, hold_phase) (Drives-refl w)
  ]

  pub Drives-set_hold :
      (f : Fields fl) (w : World fl) → IsSetHold fl f → Drives w (run_set_hold fl reply f w).0
  unfolding run_set_hold
  Drives-set_hold f w (v, a, c, e, ok) =
      Drives-call w (voltage f.volts)
        (λ w'. call fl reply w' (current f.amps) (hold_phase fl reply f)) (inl v)
        (λ w'.
          Drives-call w' (current f.amps) (hold_phase fl reply f) (inl a) (Drives-hold_phase f))

  pub same_target : (s t : String) → Text.◌==◌ s t ≡ true → s ≡ t
  same_target s t e = (eq_iff s t).0 e

  voltage_target :
      (f : Fields fl) (hi : fl.Float64)
      → ramp_target_max fl f.target ≡ some hi
      → Text.◌==◌ f.target "voltage" ≡ true
      → fallback_max_voltage fl ≡ hi
  unfolding ramp_target_max
  voltage_target f hi m e = ground arith

  current_target :
      (f : Fields fl) (hi : fl.Float64)
      → ramp_target_max fl f.target ≡ some hi
      → Text.◌==◌ f.target "voltage" ≡ false
      → Text.◌==◌ f.target "current" ≡ true
      → fallback_max_current fl ≡ hi
  unfolding ramp_target_max
  current_target f hi m e e' = ground arith

  pub Drives-ramp_write :
      (f : Fields fl) (w : World fl) (frac : fl.Float64) (next : World fl → Outcome fl)
      → IsRamp fl f
      → IsFraction frac
      → ((v : World fl) → Drives v (next v).0)
      → Drives w (ramp_write fl reply f w (ramp_value fl reply f frac) next).0
  Drives-ramp_write f w frac next (hi, m, from, to, _) part keep =
      elim (Bool-cases (Text.◌==◌ f.target "voltage")) [
        | inl v ↦
            let is_hi = voltage_target f hi m v in
            rw (v, ramp_write)
              (Drives-call w _ next (inr (f, frac, part, rw is_hi from, rw is_hi to, refl)) keep)
        | inr v ↦ elim (Bool-cases (Text.◌==◌ f.target "current")) [
          | inl c ↦
              let is_hi = current_target f hi m v c in
              rw (v, c, ramp_write)
                (Drives-call w _ next (inr (f, frac, part, rw is_hi from, rw is_hi to, refl)) keep)
          | inr c ↦ rw (v, c, ramp_write) (keep w)
        ]
      ]

  ramp_fraction-IsFraction :
      (f : Fields fl) (start ts : ℕ) → IsFraction (ramp_fraction fl reply f start ts).0
  unfolding ramp_fraction
  ramp_fraction-IsFraction f start ts = ground arith

  pub Drives-after_write :
      (over : Bool) (is : List (Input fl)) (rest : World fl → Outcome fl)
      → ((v : World fl) → Drives v (rest v).0)
      → (w : World fl) → Drives w (after_write fl reply over is rest w).0
  Drives-after_write true is rest keep w = Drives-refl w
  Drives-after_write false is rest keep w = keep w

  pub Drives-ramp_tick :
      (f : Fields fl) (frac : fl.Float64) (over soon : Bool) (is : List (Input fl))
      (quiet : Outcome fl) (rest : World fl → Outcome fl) (w : World fl)
      → IsRamp fl f
      → IsFraction frac
      → Drives w quiet.0
      → ((v : World fl) → Drives v (rest v).0)
      → Drives w (ramp_tick fl reply f frac over soon is quiet rest w).0
  unfolding ramp_tick
  Drives-ramp_tick f frac over soon is quiet rest w r part still keep =
      elim (Bool-cases (not over && soon)) [
        | inl e ↦ rw (e, ramp_tick) still
        | inr e ↦
            rw (e, ramp_tick)
              (Drives-ramp_write f w frac (after_write fl reply over is rest) r part
                (Drives-after_write over is rest keep))
      ]

  pub Drives-ramp_loop :
      (f : Fields fl) (is : List (Input fl)) (start last : Option ℕ) (w : World fl)
      → IsRamp fl f
      → Drives w (ramp_loop fl reply f is start last w).0
  unfolding ramp_loop
  Drives-ramp_loop f [] start last w r = Drives-refl w
  Drives-ramp_loop f (i ∷ is) start last w r =
      go (see fl i) refl (λ s l v. Drives-ramp_loop f is s l v r)
    where
      go :
          (s : Seen fl)
          → see fl i ≡ s
          → ((s l : Option ℕ) (v : World fl) → Drives v (ramp_loop fl reply f is s l v).0)
          → Drives w (ramp_loop fl reply f (i ∷ is) start last w).0
      go skipped e more = rw (e, ramp_loop) (more start last w)
      go (gone x) e more = rw (e, ramp_loop) (Drives-refl w)
      go (got t) e more =
          let from : ℕ = elim start [ none ↦ t.ts | some s ↦ s ] in
          let (frac, over) = ramp_fraction fl reply f from t.ts in
          rw (e, ramp_loop)
            (Drives-ramp_tick f frac over (too_soon fl reply last t.ts) is
              (ramp_loop fl reply f is (some from) last w)
              (λ v. ramp_loop fl reply f is (some from) (some t.ts) v) w r
              (ramp_fraction-IsFraction f from t.ts) (more (some from) last w)
              (more (some from) (some t.ts)))

  pub Drives-times :
      (n : ℕ) (body : World fl → Outcome fl)
      → ((v : World fl) → Drives v (body v).0)
      → (w : World fl) → Drives w (times fl reply n body w).0
  unfolding times
  Drives-times zero body keep w = Drives-refl w
  Drives-times (suc n) body keep w = elim (Option-cases (body w).1) [
    | inl e ↦
        rw (e, times)
          (Drives-trans w (body w).0 (times fl reply n body (body w).0).0 (keep w)
            (Drives-times n body keep (body w).0))
    | inr (x, e) ↦ rw (e, times) (keep w)
  ]
