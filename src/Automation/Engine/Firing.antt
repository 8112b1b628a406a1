-- ===== src/Automation/Engine/Firing.antt =====
-- When a rule of engine.go fires, over the ticks of one period with the output on.
use dps150_web.Base.{
  ℕ, ◌+◌, ◌-◌, ◌≤◌, ◌<◌, ◌≡◌, refl, ap, ◌∙◌, Bool, true, false, ◌&&◌, List, [], ◌∷◌, Option, none,
  some, ltb, leb, arith, if◌then◌else◌, Bool-cases, Option-cases, ◌⊎◌, inl, inr, All,
}
use dps150_web.Float.{Floats}
use dps150_web.Hub.State.{Telemetry}
use dps150_web.Sequence.Program.{Condition}
use dps150_web.Automation.Engine.{
  Rule, RuleState, fresh, with_base, condition_holds, observe_on, observe_held, evaluate,
}

module _ (fl : Floats) where
  -- How often a rule fires over some ticks.
  abbrev pub firings : Rule fl → RuleState fl → List (Telemetry fl) → ℕ
  firings r st [] = 0
  firings r st (t ∷ ts) =
      (if (evaluate fl r st t).1 then 1 else 0) + firings r (evaluate fl r st t).0 ts

  abbrev pub IsOn : Telemetry fl → Type 0
  IsOn t = t.output_on ≡ true

  evaluate-awaiting :
      (r : Rule fl) (st : RuleState fl) (t : Telemetry fl)
      → IsOn t
      → st.awaiting_off ≡ true
      → evaluate fl r st t ≡ (st, false)
  unfolding evaluate
  evaluate-awaiting r st t on a =
      rw (on, evaluate)
        (ap
          (λ b. if b then (st, false) else elim r.condition as (λ _. RuleState fl × Bool) [
            | none ↦ (with_base fl st t, false)
            | some c ↦ observe_on fl c (with_base fl st t) t
          ])
          a)

  firings-awaiting :
      (r : Rule fl) (ts : List (Telemetry fl)) (st : RuleState fl)
      → All IsOn ts
      → st.awaiting_off ≡ true
      → firings r st ts ≡ 0
  firings-awaiting r [] st on a = refl
  firings-awaiting r (t ∷ ts) st (on, ons) a =
      rw (evaluate-awaiting r st t on a) (omega (arith, firings-awaiting r ts st ons a))

  observe_on-fired :
      (c : Condition fl) (st : RuleState fl) (t : Telemetry fl)
      → (observe_on fl c st t).1 ≡ true
      → (observe_on fl c st t).0.awaiting_off ≡ true
  unfolding observe_on
  observe_on-fired c st t e = ground arith

  evaluate-fired :
      (r : Rule fl) (st : RuleState fl) (t : Telemetry fl)
      → (evaluate fl r st t).1 ≡ true
      → (evaluate fl r st t).0.awaiting_off ≡ true
  unfolding evaluate
  evaluate-fired r st t e = elim (Option-cases r.condition) [
    | inl n ↦ absurd (ground arith)
    | inr (c, s) ↦ ground (arith, observe_on-fired c (with_base fl st t) t)
  ]

  -- When evaluate is given tick after tick with the output on, and each time the state that it has left, it fires at most once, whatever the first
  -- state, the condition and the scope. This is about one state that is handed on: a status change or a reload may put a fresh one in its place.
  pub firings-le :
      (r : Rule fl) (ts : List (Telemetry fl)) (st : RuleState fl)
      → All IsOn ts
      → firings r st ts ≤ 1
  firings-le r [] st on = omega arith
  firings-le r (t ∷ ts) st (on, ons) = elim (Bool-cases (evaluate fl r st t).1) [
    | inl f ↦
        rw f (
          omega (arith, firings-awaiting r ts (evaluate fl r st t).0 ons (evaluate-fired r st t f)))
    | inr q ↦ rw q (omega (arith, firings-le r ts (evaluate fl r st t).0 ons))
  ]

  -- The ticks at the end of a period, newest first, at which the condition has held without a break.
  -- The trace starts from a fresh state and has the output on throughout.
  pub data OnTrace (r : Rule fl) (c : Condition fl)
      : RuleState fl → List (Telemetry fl) → Type 0 where
    begin : OnTrace r c (fresh fl) []
    next :
        {st : RuleState fl} {held : List (Telemetry fl)} (t : Telemetry fl)
        → OnTrace r c st held
        → IsOn t
        → OnTrace r c
            (evaluate fl r st t).0
            (if condition_holds fl c t (with_base fl st t) then t ∷ held else [])

  abbrev pub oldest : List (Telemetry fl) → Option ℕ
  oldest [] = none
  oldest (t ∷ []) = some t.ts
  oldest (t ∷ u ∷ us) = oldest (u ∷ us)

  -- The state remembers since when the condition has held, unless the rule has fired.
  abbrev Remembers : RuleState fl → List (Telemetry fl) → Type 0
  Remembers st held =
      (st.awaiting_off ≡ true)
      ⊎ ((st.off_since ≡ none)
          × (((st.holding ≡ false) × (held ≡ []))
              ⊎ ((st.holding ≡ true) × (oldest held ≡ some st.held_since))))

  oldest-cons :
      (t : Telemetry fl) (held : List (Telemetry fl)) (s : ℕ)
      → oldest held ≡ some s
      → oldest (t ∷ held) ≡ some s
  oldest-cons t [] s e = absurd (cc)
  oldest-cons t (u ∷ us) s e = e

  -- What observe_held leaves is the time of the oldest of these ticks.
  observe_held-oldest :
      (st : RuleState fl) (t : Telemetry fl) (held : List (Telemetry fl))
      → st.off_since ≡ none
      → ((st.holding ≡ false) × (held ≡ []))
        ⊎ ((st.holding ≡ true) × (oldest held ≡ some st.held_since))
      → let st' = observe_held fl st t.ts in
        (oldest (t ∷ held) ≡ some st'.held_since) × (st'.holding ≡ true) × (st'.off_since ≡ none)
  unfolding observe_held
  observe_held-oldest st t held o (inl (h, e)) = rw (h, observe_held) (rw e refl, refl, refl)
  observe_held-oldest st t held o (inr (h, e)) =
      rw (h, o, observe_held) (oldest-cons t held st.held_since e, h, o)

  -- One tick with the output on and the rule not yet fired.
  pub observe_on-cases :
      (c : Condition fl) (st : RuleState fl) (t : Telemetry fl)
      → ((condition_holds fl c t st ≡ false)
          × (observe_on fl c st t ≡ (record st { holding = false; off_since = none }, false)))
        ⊎ ((condition_holds fl c t st ≡ true)
            × (t.ts - (observe_held fl st t.ts).held_since < fl.to_duration c.for_seconds)
            × (observe_on fl c st t ≡ (observe_held fl st t.ts, false)))
        ⊎ ((condition_holds fl c t st ≡ true)
            × (fl.to_duration c.for_seconds ≤ t.ts - (observe_held fl st t.ts).held_since)
            × (observe_on fl c st t
                ≡ (record (observe_held fl st t.ts) { awaiting_off = true }, true)))
  unfolding observe_on
  observe_on-cases c st t = elim (Bool-cases (condition_holds fl c t st)) [
    | inr e ↦ inl (e, rw (e, observe_on) refl)
    | inl e ↦
        elim (Bool-cases
          (ltb (t.ts - (observe_held fl st t.ts).held_since) (fl.to_duration c.for_seconds))) [
            | inl l ↦ inr (inl (e, ground arith, rw (e, l, observe_on) refl))
            | inr l ↦ inr (inr (e, ground arith, rw (e, l, observe_on) refl))
          ]
  ]

  pub evaluate-on :
      (r : Rule fl) (c : Condition fl) (st : RuleState fl) (t : Telemetry fl)
      → r.condition ≡ some c
      → IsOn t
      → st.awaiting_off ≡ false
      → evaluate fl r st t ≡ observe_on fl c (with_base fl st t) t
  unfolding evaluate
  evaluate-on r c st t e on a =
      rw (on, evaluate)
        (ap
            (λ b. if b then (st, false) else elim r.condition as (λ _. RuleState fl × Bool) [
              | none ↦ (with_base fl st t, false)
              | some x ↦ observe_on fl x (with_base fl st t) t
            ])
            a
          ∙ ap
              (λ o. elim o as (λ _. RuleState fl × Bool) [
                | none ↦ (with_base fl st t, false)
                | some x ↦ observe_on fl x (with_base fl st t) t
              ])
              e)

  -- Whether the condition has held for long enough, read off the ticks themselves.
  abbrev pub held_long : Condition fl → Telemetry fl → List (Telemetry fl) → Bool
  held_long c t held = elim (oldest (t ∷ held)) [
    | none ↦ false
    | some s ↦ leb (fl.to_duration c.for_seconds) (t.ts - s)
  ]

  held_long-oldest :
      (c : Condition fl) (t : Telemetry fl) (held : List (Telemetry fl)) (s : ℕ)
      → oldest (t ∷ held) ≡ some s
      → held_long c t held ≡ leb (fl.to_duration c.for_seconds) (t.ts - s)
  held_long-oldest c t held s e =
      ap
        (λ o. elim o as (λ _. Bool) [
          | none ↦ false
          | some u ↦ leb (fl.to_duration c.for_seconds) (t.ts - u)
        ])
        e

  OnTrace-Remembers :
      (r : Rule fl) (c : Condition fl) (st : RuleState fl) (held : List (Telemetry fl))
      → r.condition ≡ some c
      → OnTrace r c st held
      → Remembers st held
  OnTrace-Remembers r c st held e begin = inr (refl, inl (refl, refl))
  OnTrace-Remembers r c st' held' e (next {st} {held} t trace on) =
      elim (OnTrace-Remembers r c st held e trace) [
        | inl a ↦ inl (rw (evaluate-awaiting r st t on a) a)
        | inr (o, h) ↦ elim (Bool-cases st.awaiting_off) [
          | inl a ↦ inl (rw (evaluate-awaiting r st t on a) a)
          | inr a ↦
              rw (evaluate-on r c st t e on a) (elim (observe_on-cases c (with_base fl st t) t) [
                | inl (n, q) ↦ rw (q, n) (inr (refl, inl (refl, refl)))
                | inr (inl (y, l, q)) ↦
                    let (old, hold, off) = observe_held-oldest (with_base fl st t) t held o h in
                    rw (q, y) (inr (off, inr (hold, old)))
                | inr (inr (y, l, q)) ↦ rw q (inl refl)
              ])
        ]
      ]

  -- Over a period of ticks with the output on, from a fresh state, and with a condition c that parses: a
  -- rule that has not fired before fires at a tick if and only if c holds there and the oldest of the
  -- ticks up to it over which c has held without a break is at least the rule's hold time ago.
  pub evaluate-held_long :
      (r : Rule fl) (c : Condition fl) (st : RuleState fl) (held : List (Telemetry fl))
      (t : Telemetry fl)
      → r.condition ≡ some c
      → OnTrace r c st held
      → IsOn t
      → st.awaiting_off ≡ false
      → (evaluate fl r st t).1 ≡ (condition_holds fl c t (with_base fl st t) && held_long c t held)
  evaluate-held_long r c st held t e trace on a =
      rw (evaluate-on r c st t e on a) (elim (OnTrace-Remembers r c st held e trace) [
        | inl b ↦ absurd (cc)
        | inr (o, h) ↦
            let long =
              held_long-oldest c t held (observe_held fl (with_base fl st t) t.ts).held_since
                (observe_held-oldest (with_base fl st t) t held o h).0 in
            elim (observe_on-cases c (with_base fl st t) t) [
              | inl (n, q) ↦ rw (q, n) refl
              | inr (inl (y, l, q)) ↦ rw (q, y) (ground (arith, long))
              | inr (inr (y, l, q)) ↦ rw (q, y) (ground (arith, long))
            ]
      ])
