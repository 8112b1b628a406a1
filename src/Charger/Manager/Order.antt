-- ===== src/Charger/Manager/Order.antt =====
-- The order of the calls at the start of a charge in manager.go.
use dps150_web.Base.{
  ℕ, suc, ◌≤◌, ◌≡◌, refl, ap, ◌∙◌, true, false, List, [], ◌∷◌, ◌++◌, Option, none, some, ◌⊎◌, inl,
  inr, arith, Option-cases, All,
}
use dps150_web.Float.{Floats}
use dps150_web.Hub.Command.{CommandError}
use dps150_web.Hub.Safety.Exclusion.{safe_output_off-last}
use dps150_web.Charger.Plan.{Phase, Plan}
use dps150_web.Charger.Manager.{
  StartResult, started, hub_error, Call, set_protections, set_voltage, set_current, set_output,
  Outcome, and_then, apply_start_order, offs, output_off, launch, is_started,
}

module _ (fl : Floats) (reply : List (Call fl) → Option CommandError) where
  and_then-none :
      (o : Outcome fl reply) (c : Call fl)
      → (and_then fl reply o c).1 ≡ none
      → (o.1 ≡ none) × ((and_then fl reply o c).0 ≡ o.0 ++ c ∷ [])
  and_then-none (log, some x) c e = absurd (cc)
  and_then-none (log, none) c e = (refl, refl)

  -- The writes that come before the output goes on, and then that.
  abbrev pub order : Plan fl → Phase fl → List (Call fl)
  order plan ph =
      set_protections plan.limits
      ∷ set_voltage ph.volts
      ∷ set_current ph.amps
      ∷ set_output true
      ∷ []

  apply_start_order-none :
      (plan : Plan fl) (ph : Phase fl) (log : List (Call fl))
      → (apply_start_order fl reply plan ph log).1 ≡ none
      → (apply_start_order fl reply plan ph log).0 ≡ log ++ order plan ph
  unfolding apply_start_order
  apply_start_order-none plan ph log e =
      let a = and_then fl reply (log, none) (set_protections plan.limits) in
      let b = and_then fl reply a (set_voltage ph.volts) in
      let c = and_then fl reply b (set_current ph.amps) in
      let (ec, qd) = and_then-none c (set_output true) e in
      let (eb, qc) = and_then-none b (set_current ph.amps) ec in
      let (ea, qb) = and_then-none a (set_voltage ph.volts) eb in
      let (_, qa) = and_then-none (log, none) (set_protections plan.limits) ea in
      qd
      ∙ ap (λ l. l ++ set_output true ∷ [])
          (qc
            ∙ ap (λ l. l ++ set_current ph.amps ∷ [])
                (qb ∙ ap (λ l. l ++ set_voltage ph.volts ∷ []) qa))
      ∙ joined log (set_protections plan.limits) (set_voltage ph.volts) (set_current ph.amps)
          (set_output true)
    where
      joined :
          (l : List (Call fl)) (p q r s : Call fl)
          → (((l ++ p ∷ []) ++ q ∷ []) ++ r ∷ []) ++ s ∷ [] ≡ l ++ p ∷ q ∷ r ∷ s ∷ []
      joined [] p q r s = refl
      joined (x ∷ xs) p q r s = ap (λ l. x ∷ l) (joined xs p q r s)

  -- The calls before the launch switch the output off at most.
  abbrev pub IsOff : Call fl → Type 0
  IsOff (set_output on) = on ≡ false
  IsOff (set_protections l) = ⊥
  IsOff (set_voltage v) = ⊥
  IsOff (set_current a) = ⊥

  -- Some calls never switched the output on, or the last of them tried to switch it off.
  abbrev pub LeavesOff : List (Call fl) → Type 0
  LeavesOff calls =
      All IsOff calls
      ⊎ ((log : List (Call fl)) × (made : ℕ) × (1 ≤ made) × (calls ≡ log ++ offs fl reply made))

  output_off-LeavesOff : (log : List (Call fl)) → LeavesOff (output_off fl reply log)
  unfolding output_off
  output_off-LeavesOff log =
      let (k, e, _) = safe_output_off-last (λ n. reply (log ++ offs fl reply (suc n))) in
      inr (log, suc k, omega arith, ap (λ r. log ++ offs fl reply r.1) e)

  -- A start that succeeded ends with the writes in order; any other leaves the output off.
  abbrev pub IsOrdered : Plan fl → List (Call fl) × StartResult → Type 0
  IsOrdered plan (calls, r) =
      ((r ≡ started)
        × ((before : List (Call fl)) × (ph : Phase fl) × (rest : List (Phase fl)) × All IsOff before
            × (plan.phases ≡ ph ∷ rest)
            × (calls ≡ before ++ order plan ph)))
      ⊎ ((is_started fl reply r ≡ false) × LeavesOff calls)

  pub launch-IsOrdered :
      (plan : Plan fl) (log : List (Call fl))
      → All IsOff log
      → IsOrdered plan (launch fl reply plan log)
  unfolding launch
  launch-IsOrdered plan log quiet = go plan.phases refl
    where
      first : (ph : Phase fl) → List (Call fl) × StartResult
      first ph = elim (apply_start_order fl reply plan ph log).1 [
        | some x ↦ (output_off fl reply (apply_start_order fl reply plan ph log).0, hub_error x)
        | none ↦ ((apply_start_order fl reply plan ph log).0, started)
      ]

      go : (phs : List (Phase fl)) → plan.phases ≡ phs → IsOrdered plan (launch fl reply plan log)
      go [] e = rw (e, launch) (inr (refl, inl quiet))
      go (ph ∷ rest) e = elim (Option-cases (apply_start_order fl reply plan ph log).1) [
        | inl n ↦
            rw (e, launch)
              (rw n
                (inl (refl, (log, ph, rest, quiet, refl, apply_start_order-none plan ph log n))))
        | inr (x, n) ↦
            rw (e, launch)
              (rw n (inr (refl, output_off-LeavesOff (apply_start_order fl reply plan ph log).0)))
      ]
