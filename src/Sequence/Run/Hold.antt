-- ===== src/Sequence/Run/Hold.antt =====
-- When the wait of runSetHold ends.
use dps150_web.Base.{
  ℕ, ◌-◌, ◌≤◌, ◌≡◌, ◌≢◌, refl, ap, true, false, List, [], ◌∷◌, ◌++◌, none, some, arith, leb,
  Bool-cases, inl, inr, All,
}
use text.Mathlib.Text as Text
use text.Mathlib.TextEquality.{eq_iff}
use dps150_web.Float.{Floats}
use dps150_web.Hub.State.{Telemetry}
use dps150_web.Sequence.Program.{Condition}
use dps150_web.Sequence.Run.{
  RunError, Input, Seen, skipped, got, gone, see, AdvanceState, fresh, base_of, observe, hold_loop,
}

module _ (fl : Floats) where
  -- The input does not end the run.
  abbrev pub IsQuiet : Input fl → Type 0
  IsQuiet i = (e : RunError) → see fl i ≢ gone e

  observe-elapsed :
      (c : Condition fl) (a : AdvanceState fl) (t : Telemetry fl)
      → Text.◌==◌ c.type "elapsedAbove" ≡ true
      → observe fl a c t ≡ (
        record a { baseline = some (base_of fl a t) },
        leb (fl.to_duration c.seconds) (t.ts - (base_of fl a t).2),
      )
  unfolding observe
  observe-elapsed c a t e =
      let named : c.type ≡ "elapsedAbove" = (eq_iff c.type "elapsedAbove").0 e in
      let below : Text.◌==◌ c.type "currentBelow" ≡ false =
        ap (λ s. Text.◌==◌ s "currentBelow") named in
      let cap : Text.◌==◌ c.type "capacityAbove" ≡ false =
        ap (λ s. Text.◌==◌ s "capacityAbove") named in
      let en : Text.◌==◌ c.type "energyAbove" ≡ false = ap (λ s. Text.◌==◌ s "energyAbove") named in
      rw (below, cap, en, e, observe) refl

  -- The state after a tick of a wait for a time.
  abbrev based : AdvanceState fl → Telemetry fl → AdvanceState fl
  based a t = record a { baseline = some (base_of fl a t) }

  hold_loop-in_time :
      (c : Condition fl) (a : AdvanceState fl) (i : Input fl) (is : List (Input fl))
      (t : Telemetry fl)
      → Text.◌==◌ c.type "elapsedAbove" ≡ true
      → see fl i ≡ got t
      → leb (fl.to_duration c.seconds) (t.ts - (base_of fl a t).2) ≡ true
      → (hold_loop fl c a (i ∷ is)).1 ≡ none
  unfolding hold_loop
  hold_loop-in_time c a i is t e g l = rw (g, hold_loop, observe-elapsed c a t e, l) refl

  hold_loop-waits :
      (c : Condition fl) (a : AdvanceState fl) (i : Input fl) (is : List (Input fl))
      (t : Telemetry fl)
      → Text.◌==◌ c.type "elapsedAbove" ≡ true
      → see fl i ≡ got t
      → leb (fl.to_duration c.seconds) (t.ts - (base_of fl a t).2) ≡ false
      → hold_loop fl c a (i ∷ is) ≡ hold_loop fl c (based a t) is
  unfolding hold_loop
  hold_loop-waits c a i is t e g l =
      rw (g, hold_loop, observe-elapsed c a t e, l)
        (ap (λ s. hold_loop fl c s.0 is) (observe-elapsed c a t e))

  hold_loop-skips :
      (c : Condition fl) (a : AdvanceState fl) (i : Input fl) (is : List (Input fl))
      → see fl i ≡ skipped
      → hold_loop fl c a (i ∷ is) ≡ hold_loop fl c a is
  unfolding hold_loop
  hold_loop-skips c a i is g = rw (g, hold_loop) refl

  -- Once the step has a start, a tick late enough ends the wait, if no tick before it does.
  hold_loop-started :
      (c : Condition fl) (a : AdvanceState fl) (b : fl.Float64 × fl.Float64 × ℕ)
      (before : List (Input fl)) (i : Input fl) (after : List (Input fl)) (t : Telemetry fl)
      → Text.◌==◌ c.type "elapsedAbove" ≡ true
      → a.baseline ≡ some b
      → All IsQuiet before
      → see fl i ≡ got t
      → fl.to_duration c.seconds ≤ t.ts - b.2
      → (hold_loop fl c a (before ++ i ∷ after)).1 ≡ none
  hold_loop-started c a b [] i after t e s q g late =
      let start : base_of fl a t ≡ b =
        ap (λ o. elim o [ none ↦ (t.capacity_ah, t.energy_wh, t.ts) | some x ↦ x ]) s in
      let test : leb (fl.to_duration c.seconds) (t.ts - (base_of fl a t).2) ≡ true =
        rw start (ground arith) in
      hold_loop-in_time c a i after t e g test
  hold_loop-started c a b (j ∷ before) i after t e s (q, qs) g late =
      go (see fl j) refl (λ a' s'. hold_loop-started c a' b before i after t e s' qs g late)
    where
      go :
          (r : Seen fl)
          → see fl j ≡ r
          → ((a' : AdvanceState fl)
              → a'.baseline ≡ some b
              → (hold_loop fl c a' (before ++ i ∷ after)).1 ≡ none)
          → (hold_loop fl c a (j ∷ before ++ i ∷ after)).1 ≡ none
      go skipped x more = rw (hold_loop-skips c a j (before ++ i ∷ after) x) (more a s)
      go (gone y) x more = absurd (q y x)
      go (got u) x more =
          let start : base_of fl a u ≡ b =
            ap (λ o. elim o [ none ↦ (u.capacity_ah, u.energy_wh, u.ts) | some z ↦ z ]) s in
          elim (Bool-cases (leb (fl.to_duration c.seconds) (u.ts - (base_of fl a u).2))) [
            | inl l ↦ hold_loop-in_time c a j (before ++ i ∷ after) u e x l
            | inr l ↦
                rw (hold_loop-waits c a j (before ++ i ∷ after) u e x l)
                  (more (based a u) (ap some start))
          ]

  -- A setHold with the condition elapsedAbove advances: as soon as a tick comes that is stamped the
  -- given time after the first tick, the wait is over, provided that none of the inputs between is a
  -- trip or the end of the context.
  pub hold_loop-elapsed :
      (c : Condition fl) (i j : Input fl) (between after : List (Input fl))
      (first last : Telemetry fl)
      → Text.◌==◌ c.type "elapsedAbove" ≡ true
      → see fl i ≡ got first
      → All IsQuiet between
      → see fl j ≡ got last
      → fl.to_duration c.seconds ≤ last.ts - first.ts
      → (hold_loop fl c (fresh fl) (i ∷ between ++ j ∷ after)).1 ≡ none
  hold_loop-elapsed c i j between after first last e g q g' late =
      elim (Bool-cases (leb (fl.to_duration c.seconds) (first.ts - first.ts))) [
        | inl l ↦ hold_loop-in_time c (fresh fl) i (between ++ j ∷ after) first e g l
        | inr l ↦ rw (hold_loop-waits c (fresh fl) i (between ++ j ∷ after) first e g l) (
            hold_loop-started c (based (fresh fl) first)
              (first.capacity_ah, first.energy_wh, first.ts) between j after last e refl q g' late)
      ]
