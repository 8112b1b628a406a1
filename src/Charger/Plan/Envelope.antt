-- ===== src/Charger/Plan/Envelope.antt =====
-- What charge.go guarantees of a compiled plan and of an accepted battery.
use dps150_web.Base.{
  ℕ, ◌≡◌, ◌≢◌, refl, sym, ap, ◌∙◌, true, false, ◌&&◌, [], Bool-cases, ◌↔◌, ◌≤◌, none, some, arith,
  Option-cases, ◌⊎◌, inl, inr, All,
}
use mathlib.Core.Path.{subst}
use dps150_web.Float.{Floats}
use dps150_web.Charger.Plan.{
  float, RequestError, unsupported_chemistry, accepted, Verdict, reversed_polarity,
  no_battery_or_short, voltage_too_high_for_cells, voltage_too_low_for_cells, cell_count_mismatch,
  Preset, preset_for, suggest_cells, Request, Limits, Phase, Plan, request_error, phases_of,
  limits_of, compile, judge, is_accepted, PreflightResult, result_of, preflight,
}

module _ (fl : Floats) where
  -- A phase that ends by itself charges to at most the ceiling; any other is the float.
  abbrev pub IsBounded : Limits fl → Phase fl → Type 0
  IsBounded l ph =
      ((ph.hold_to_stop ≡ false) × (fl.le ph.volts l.ceiling_volts ≡ true))
      ⊎ ((ph.hold_to_stop ≡ true) × (ph.kind ≡ float))

  -- What Go documents of min: the result is above neither argument (with NaN, every comparison is false).
  abbrev pub IsBelow : Type 0
  IsBelow = (a b : fl.Float64) → (fl.lt a (fl.min2 a b) ≡ false) × (fl.lt b (fl.min2 a b) ≡ false)

  -- The protections are within the 30 V, 5 A and 150 W of the device, and those of the current and the power also within 125 %
  -- of the charge's own.
  abbrev pub IsProtected : Request fl → Plan fl → Type 0
  IsProtected req plan =
      let power = fl.mul (fl.mul plan.preset.v_charge (fl.of_int req.cells)) req.charge_a in
      (fl.lt (fl.decimal 300 1) plan.limits.ovp_volts ≡ false)
      × (fl.lt (fl.decimal 50 1) plan.limits.ocp_amps ≡ false)
      × (fl.lt (fl.mul req.charge_a (fl.decimal 125 2)) plan.limits.ocp_amps ≡ false)
      × (fl.lt (fl.decimal 1500 1) plan.limits.opp_watts ≡ false)
      × (fl.lt (fl.mul power (fl.decimal 125 2)) plan.limits.opp_watts ≡ false)
      × (plan.limits.otp_celsius ≡ fl.decimal 600 1)

  abbrev pub IsPlan : Request fl → Plan fl → Type 0
  IsPlan req plan =
      (plan.request ≡ req)
      × (preset_for fl req.chemistry ≡ some plan.preset)
      × (plan.phases ≢ [])
      × All (IsBounded plan.limits) plan.phases
      × (fl.le plan.limits.ceiling_volts plan.limits.ovp_volts ≡ true)
      × IsProtected req plan

  abbrev plan_of : Request fl → Preset fl → Plan fl
  plan_of req p = record {
    request = req;
    preset = p;
    phases = phases_of fl req p;
    limits = limits_of fl req p;
  }

  compile-cases :
      (req : Request fl)
      → ((x : RequestError) × (compile fl req ≡ inl x))
        ⊎ ((p : Preset fl) × (preset_for fl req.chemistry ≡ some p)
            × (request_error fl req p ≡ none)
            × (compile fl req ≡ inr (plan_of req p)))
  unfolding compile
  compile-cases req = elim (Option-cases (preset_for fl req.chemistry)) [
    | inl n ↦ inl (unsupported_chemistry, rw (n, compile) refl)
    | inr (p, s) ↦ elim (Option-cases (request_error fl req p)) [
      | inr (x, r) ↦ inl (x, rw (s, r, compile) refl)
      | inl r ↦ inr (p, s, r, rw (s, r, compile) refl)
    ]
  ]

  -- The number of cells that a voltage suggests: the nearest number of nominal voltages, and one at least.
  abbrev pub Suggests : Preset fl → fl.Float64 → ℕ → Type 0
  Suggests p vbat cells =
      let n = fl.round_int (fl.div vbat p.v_nominal) in
      ((1 ≤ n) × (cells ≡ n)) ⊎ ((n ≡ 0) × (cells ≡ 1))

  -- A battery is there, each cell is within the band of the preset, and the number of cells is the one suggested.
  abbrev pub Fits : Preset fl → ℕ → fl.Float64 → Type 0
  Fits p cells vbat =
      (fl.lt vbat fl.zero64 ≡ false)
      × (fl.lt vbat (fl.decimal 3 1) ≡ false)
      × (fl.lt p.v_max_rest (fl.div vbat (fl.of_int cells)) ≡ false)
      × (fl.lt (fl.div vbat (fl.of_int cells)) p.v_abs_min ≡ false)
      × Suggests p vbat cells

  -- The chemistry has a threshold of a deep discharge, and each cell is below it.
  abbrev pub IsDeep : Preset fl → ℕ → fl.Float64 → Type 0
  IsDeep p cells vbat =
      (fl.lt fl.zero64 p.v_precharge ≡ true)
      × (fl.lt (fl.div vbat (fl.of_int cells)) p.v_precharge ≡ true)

  judge-Fits :
      (p : Preset fl) (cells : ℕ) (vbat : fl.Float64)
      → judge fl p cells vbat ≡ accepted
      → Fits p cells vbat
  unfolding judge suggest_cells
  judge-Fits p cells vbat e = ground arith

  Fits-judge :
      (p : Preset fl) (cells : ℕ) (vbat : fl.Float64)
      → Fits p cells vbat
      → judge fl p cells vbat ≡ accepted
  unfolding judge suggest_cells
  Fits-judge p cells vbat (a, b, c, d, s) = ground arith

  -- What a result says of a battery.
  abbrev pub IsJudged : Request fl → fl.Float64 → PreflightResult fl → Type 0
  IsJudged req vbat res =
      (p : Preset fl) × (preset_for fl req.chemistry ≡ some p)
      × ((res.verdict ≡ accepted) ↔ Fits p req.cells vbat)
      × ((res.needs_confirm ≡ true) ↔ (Fits p req.cells vbat × IsDeep p req.cells vbat))

  abbrev judged : Request fl → fl.Float64 → Preset fl → PreflightResult fl
  judged req vbat p =
      result_of fl req vbat (plan_of req p) (judge fl p req.cells vbat) (suggest_cells fl p vbat)

  is_accepted-eq : (v : Verdict) → is_accepted fl v ≡ true → v ≡ accepted
  is_accepted-eq accepted e = refl
  is_accepted-eq reversed_polarity e = absurd (cc)
  is_accepted-eq no_battery_or_short e = absurd (cc)
  is_accepted-eq voltage_too_high_for_cells e = absurd (cc)
  is_accepted-eq voltage_too_low_for_cells e = absurd (cc)
  is_accepted-eq cell_count_mismatch e = absurd (cc)

  confirm-IsDeep :
      (p : Preset fl) (cells : ℕ) (vbat : fl.Float64) (v : Verdict)
      → (is_accepted fl v
          && fl.lt fl.zero64 p.v_precharge
          && fl.lt (fl.div vbat (fl.of_int cells)) p.v_precharge)
        ≡ true
      → (v ≡ accepted) × IsDeep p cells vbat
  confirm-IsDeep p cells vbat v e = elim (Bool-cases (is_accepted fl v)) [
    | inl a ↦ (is_accepted-eq v a, ground arith)
    | inr a ↦ absurd (ground arith)
  ]

  judged-IsJudged :
      (req : Request fl) (vbat : fl.Float64) (p : Preset fl)
      → preset_for fl req.chemistry ≡ some p
      → IsJudged req vbat (judged req vbat p)
  judged-IsJudged req vbat p s = (
    p,
    s,
    (judge-Fits p req.cells vbat, Fits-judge p req.cells vbat),
    (
      λ e.
          let (ok, deep) = confirm-IsDeep p req.cells vbat (judge fl p req.cells vbat) e in
          (judge-Fits p req.cells vbat ok, deep),
      λ (fits, (has, below)). rw (Fits-judge p req.cells vbat fits, has, below) refl,
    ),
  )

  preflight-inl :
      (req : Request fl) (vbat : fl.Float64) (x : RequestError)
      → compile fl req ≡ inl x
      → preflight fl req vbat ≡ inl x
  unfolding preflight
  preflight-inl req vbat x q =
      ap
        (λ c. elim c as (λ _. RequestError ⊎ PreflightResult fl) [
          | inl e ↦ inl e
          | inr plan ↦ inr (
              result_of fl req vbat plan (judge fl plan.preset req.cells vbat)
                (suggest_cells fl plan.preset vbat))
        ])
        q

  preflight-inr :
      (req : Request fl) (vbat : fl.Float64) (p : Preset fl)
      → compile fl req ≡ inr (plan_of req p)
      → preflight fl req vbat ≡ inr (judged req vbat p)
  unfolding preflight
  preflight-inr req vbat p q =
      ap
        (λ c. elim c as (λ _. RequestError ⊎ PreflightResult fl) [
          | inl e ↦ inl e
          | inr plan ↦ inr (
              result_of fl req vbat plan (judge fl plan.preset req.cells vbat)
                (suggest_cells fl plan.preset vbat))
        ])
        q

  -- A result of Preflight accepts the measured voltage exactly if it is at least 0.3 V and not negative, the voltage per cell is not above
  -- the greatest rest voltage nor below the least voltage of its chemistry's preset, and the number of cells is the voltage over the nominal voltage of a cell,
  -- rounded, or 1 where that is 0. It asks for a confirmation exactly if it accepts, and the preset has a threshold of a deep
  -- discharge, and the voltage per cell is below that.
  pub preflight-IsJudged :
      (req : Request fl) (vbat : fl.Float64) (res : PreflightResult fl)
      → preflight fl req vbat ≡ inr res
      → IsJudged req vbat res
  preflight-IsJudged req vbat res e = elim (compile-cases req) [
    | inl (x, q) ↦ let f = sym (preflight-inl req vbat x q) ∙ e in absurd (cc)
    | inr (p, s, r, q) ↦
        let f = sym (preflight-inr req vbat p q) ∙ e in
        let same : judged req vbat p ≡ res = cc in
        subst (IsJudged req vbat) same (judged-IsJudged req vbat p s)
  ]
