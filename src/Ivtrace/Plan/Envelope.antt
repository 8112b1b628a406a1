-- ===== src/Ivtrace/Plan/Envelope.antt =====
-- What sweep.go guarantees of a compiled sweep.
use dps150_web.Base.{
  ℕ, zero, suc, ◌*◌, ◌-◌, ◌^◌, ◌≤◌, ◌≡◌, refl, sym, ap, ◌∙◌, Bool, true, false, ◌||◌, List, [], ◌∷◌,
  none, arith, Bool-cases, Option-cases, ◌⊎◌, inl, inr, length,
}
use mathlib.Core.Path.{subst}
use Prim.Native.String.{String}
use text.Mathlib.Text as Text
use dps150_web.Float.{Floats}
use dps150_web.Ivtrace.Plan.{
  RequestError, Request, Plan, request_error, setpoints_from, build_setpoints, start_of, stop_of,
  plan_of, compile,
}

module _ (fl : Floats) where
  length-setpoints_from :
      (start stop : fl.Float64) (steps i left : ℕ)
      → length (setpoints_from fl start stop steps i left) ≡ left
  length-setpoints_from start stop steps i zero = refl
  length-setpoints_from start stop steps i (suc left) =
      ap suc (length-setpoints_from start stop steps (suc i) left)

  -- The setpoints go from `start` to `stop` in equal steps, `i` of which lie before the first one.
  abbrev pub IsRamp : fl.Float64 → fl.Float64 → ℕ → ℕ → List fl.Float64 → Type 0
  IsRamp start stop steps i [] = Unit
  IsRamp start stop steps i (x ∷ xs) =
      (x ≡ fl.add start (fl.div (fl.mul (fl.sub stop start) (fl.of_int i)) (fl.of_int (steps - 1))))
      × IsRamp start stop steps (suc i) xs

  setpoints_from-IsRamp :
      (start stop : fl.Float64) (steps i left : ℕ)
      → IsRamp start stop steps i (setpoints_from fl start stop steps i left)
  setpoints_from-IsRamp start stop steps i zero = tt
  setpoints_from-IsRamp start stop steps i (suc left) =
      (refl, setpoints_from-IsRamp start stop steps (suc i) left)

  abbrev pub is_among : Bool → String → List String → Bool
  is_among found s [] = found
  is_among found s (n ∷ ns) = is_among (found || Text.◌==◌ s n) s ns

  -- The range of the stepped axis, the compliance on the other, and the power of the two ends.
  abbrev pub IsInEnvelope :
      fl.Float64 → fl.Float64 → fl.Float64 → fl.Float64 → fl.Float64 → fl.Float64 → Type 0
  IsInEnvelope start stop max compliance max_compliance power =
      (fl.le fl.zero64 start ≡ true)
      × (fl.lt start stop ≡ true)
      × (fl.le stop max ≡ true)
      × (fl.lt fl.zero64 compliance ≡ true)
      × (fl.le compliance max_compliance ≡ true)
      × (fl.lt (fl.decimal 1500 1) power ≡ false)

  abbrev pub IsVoltageSweep : Request fl → Type 0
  IsVoltageSweep req =
      (Text.◌==◌ req.mode "voltage" ≡ true)
      × IsInEnvelope req.v_start req.v_stop (fl.decimal 300 1) req.compliance_a (fl.decimal 50 1)
          (fl.mul req.v_stop req.compliance_a)

  abbrev pub IsCurrentSweep : Request fl → Type 0
  IsCurrentSweep req =
      (Text.◌==◌ req.mode "voltage" ≡ false)
      × (Text.◌==◌ req.mode "current" ≡ true)
      × IsInEnvelope req.i_start req.i_stop (fl.decimal 50 1) req.compliance_v (fl.decimal 300 1)
          (fl.mul req.compliance_v req.i_stop)

  abbrev pub IsRunnable : Request fl → Type 0
  IsRunnable req =
      (is_among false req.component
          ("led" ∷ "diode" ∷ "zener" ∷ "resistor" ∷ "lamp" ∷ "generic" ∷ [])
        ≡ true)
      × (2 ≤ req.steps)
      × (req.steps ≤ 1000)
      × (200 ≤ req.dwell_ms)
      × (IsVoltageSweep req ⊎ IsCurrentSweep req)

  request_error-none : (req : Request fl) → request_error fl req ≡ none → IsRunnable req
  unfolding request_error
  request_error-none req e = ground arith

  runnable_lem : (req : Request fl) → IsRunnable req → request_error fl req ≡ none
  unfolding request_error
  runnable_lem req (c, l, u, d, inl (v, (a, b, s, x, y, z))) = ground arith
  runnable_lem req (c, l, u, d, inr (v, w, (a, b, s, x, y, z))) = ground arith

  compile-inr :
      (req : Request fl) (plan : Plan fl)
      → compile fl req ≡ inr plan
      → (request_error fl req ≡ none) × (plan ≡ plan_of fl req)
  unfolding compile
  compile-inr req plan e = elim (Option-cases (request_error fl req)) [
    | inl n ↦
        let f : compile fl req ≡ inr (plan_of fl req) = rw (n, compile) refl in
        let g = sym e ∙ f in (n, cc)
    | inr (x, n) ↦
        let f : compile fl req ≡ inl x = rw (n, compile) refl in let g = sym e ∙ f in absurd (cc)
  ]

  -- The plan of a request, whose setpoints are those of the axis that its mode steps.
  abbrev pub IsSweep : Request fl → Plan fl → Type 0
  IsSweep req plan =
      (plan.request ≡ req)
      × (length plan.setpoints ≡ req.steps)
      × (((Text.◌==◌ req.mode "voltage" ≡ true)
            × IsRamp req.v_start req.v_stop req.steps 0 plan.setpoints)
          ⊎ ((Text.◌==◌ req.mode "voltage" ≡ false)
              × IsRamp req.i_start req.i_stop req.steps 0 plan.setpoints))
      × (plan.dwell ≡ req.dwell_ms * 10 ^ 6)
      × (30 * 10 ^ 9 ≤ plan.sweep_timeout)

  -- A result of Compile: a plan of a request within the bounds, or an error of one that is not.
  abbrev pub IsCompiled : Request fl → RequestError ⊎ Plan fl → Type 0
  IsCompiled req r =
      (IsRunnable req × ((plan : Plan fl) × (r ≡ inr plan) × IsSweep req plan))
      ⊎ ((¬ IsRunnable req) × ((x : RequestError) × (r ≡ inl x)))

  plan_of-IsSweep : (req : Request fl) → IsSweep req (plan_of fl req)
  unfolding build_setpoints
  plan_of-IsSweep req = (
    refl,
    length-setpoints_from (start_of fl req) (stop_of fl req) req.steps 0 req.steps,
    elim (Bool-cases (Text.◌==◌ req.mode "voltage")) [
      | inl e ↦
          rw e (inl (refl, setpoints_from-IsRamp req.v_start req.v_stop req.steps 0 req.steps))
      | inr e ↦
          rw e (inr (refl, setpoints_from-IsRamp req.i_start req.i_stop req.steps 0 req.steps))
    ],
    refl,
    omega arith,
  )

  -- Compile returns a plan exactly if the component is one of the six, the mode is voltage or current, there are 2 to 1000 steps, the dwell is at least 200 ms,
  -- and of the axis that is stepped and the other one the range, the compliance and the power of the two ends are within 30 V, 5 A and 150 W; otherwise
  -- it returns an error. The plan has as many setpoints as the request has steps, the i-th of them (from 0 on) is start + (stop - start) * i / (steps - 1)
  -- in floating-point numbers, with the start and the stop of the axis of the mode, and its timeout is at least 30 seconds.
  pub compile-IsCompiled : (req : Request fl) → IsCompiled req (compile fl req)
  unfolding compile
  compile-IsCompiled req = elim (Option-cases (request_error fl req)) [
    | inl n ↦
        inl (request_error-none req n, (plan_of fl req, rw (n, compile) refl, plan_of-IsSweep req))
    | inr (x, n) ↦
        inr (λ ok. let f = sym n ∙ runnable_lem req ok in absurd (cc), (x, rw (n, compile) refl))
  ]

  -- A sweep has two setpoints at least.
  pub compile-length :
      (req : Request fl) (plan : Plan fl) → compile fl req ≡ inr plan → 2 ≤ length plan.setpoints
  unfolding build_setpoints
  compile-length req plan e =
      let (n, same) = compile-inr req plan e in
      let (_, some_steps, _, _, _) = request_error-none req n in
      subst (λ p. 2 ≤ length p.setpoints) (sym same)
        (omega (
          arith,
          some_steps,
          length-setpoints_from (start_of fl req) (stop_of fl req) req.steps 0 req.steps,
        ))
