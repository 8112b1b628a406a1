-- ===== src/Charger/Run/Within.antt =====
-- The specification of the safety envelope of a charge in run.go, and one tick of it.
use dps150_web.Base.{
  ℕ, ◌-◌, ◌≤◌, ◌<◌, ◌≡◌, refl, sym, ap, ◌∙◌, Bool, true, false, ◌&&◌, List, [], ◌∷◌, Option, none,
  some, ltb, arith, if◌then◌else◌, ◌⊎◌,
}
use mathlib.Core.Path.{subst}
use dps150_web.Float.{Floats}
use dps150_web.Hub.State.{Telemetry}
use dps150_web.Charger.Plan.{Phase, Plan}
use dps150_web.Charger.Run.{
  Config, Reason, complete, user_stop, protection, telemetry_stale, device_offline,
  output_off_failed, shutdown, internal_error, counter_reset, voltage_ceiling, capacity_cap,
  timed_out, Input, skipped, got, gone, see, Vitals, World, base_of, cap_before, envelope,
  note_tick, start_of,
}
use dps150_web.Charger.Run.Watch.{note_tick-Keeps}

module _ (fl : Floats) (plan : Plan fl) (ph : Phase fl) where
  open fl use {Float64}

  abbrev pub delivered_since : Float64 → Telemetry fl → Float64
  delivered_since base t = fl.mul (fl.sub t.capacity_ah base) (fl.decimal 10_000 1)

  -- The tick `t` of a phase that began at `s`, in a run whose counter stood at `base` at its first tick and
  -- at `last` at the tick before.
  abbrev pub IsSafe : ℕ → Float64 → Float64 → Telemetry fl → Type 0
  IsSafe s base last t =
      (fl.lt t.capacity_ah (fl.sub last (fl.decimal 1 6)) ≡ false)
      × (fl.lt plan.limits.ceiling_volts t.voltage ≡ false)
      × (fl.lt plan.limits.cap_cap_mah (delivered_since base t) ≡ false)
      × ((ph.timeout ≡ 0) ⊎ (t.ts - s ≤ ph.timeout))

  -- What the tick has to do with the reason of a fault.
  abbrev pub IsCause : ℕ → Float64 → Float64 → Telemetry fl → Reason → Type 0
  IsCause s base last t counter_reset = fl.lt t.capacity_ah (fl.sub last (fl.decimal 1 6)) ≡ true
  IsCause s base last t voltage_ceiling = fl.lt plan.limits.ceiling_volts t.voltage ≡ true
  IsCause s base last t capacity_cap = fl.lt plan.limits.cap_cap_mah (delivered_since base t) ≡ true
  IsCause s base last t timed_out = (0 < ph.timeout) × (ph.timeout < t.ts - s)
  IsCause s base last t complete = ⊥
  IsCause s base last t user_stop = ⊥
  IsCause s base last t protection = ⊥
  IsCause s base last t telemetry_stale = ⊥
  IsCause s base last t device_offline = ⊥
  IsCause s base last t output_off_failed = ⊥
  IsCause s base last t shutdown = ⊥
  IsCause s base last t internal_error = ⊥

  abbrev pub first_of : Option ℕ → Telemetry fl → ℕ
  first_of start t = elim start [ none ↦ t.ts | some s ↦ s ]

  -- The counter at the run's first tick and at the tick before `t`.
  abbrev pub counter_of : Option (Float64 × Float64) → Telemetry fl → Float64 × Float64
  counter_of counters t = elim counters [ none ↦ (t.capacity_ah, t.capacity_ah) | some c ↦ c ]

  -- Inputs whose ticks are within the envelope and of which none ends the run, and then `P`: `start` is the
  -- time of the phase's first tick and `counters` what the run's first tick and its last one read, if
  -- there were such.
  abbrev pub Within :
      (Option ℕ → Option (Float64 × Float64) → Type 0)
      → Option ℕ
      → Option (Float64 × Float64)
      → List (Input fl)
      → Type 0
  Within P start counters [] = P start counters
  Within P start counters (i ∷ is) = elim (see fl i) [
    | skipped ↦ Within P start counters is
    | gone e ↦ ⊥
    | got t ↦
        IsSafe (first_of start t) (counter_of counters t).0 (counter_of counters t).1 t
        × Within P (some (first_of start t)) (some ((counter_of counters t).0, t.capacity_ah)) is
  ]

  abbrev pub counters_of : Vitals fl → Option (Float64 × Float64)
  counters_of v = elim v.base [ none ↦ none | some b ↦ some (b.0, v.last_cap) ]

  -- By the run's first tick, which is its base, or not yet.
  counter_of-base :
      (b : Option (Float64 × Float64 × ℕ)) (last : Float64) (t : Telemetry fl)
      → counter_of
          (elim b as (λ _. Option (Float64 × Float64)) [ none ↦ none | some x ↦ some (x.0, last) ])
          t
        ≡ (
          (elim b as (λ _. Float64 × Float64 × ℕ) [
            | none ↦ (t.capacity_ah, t.energy_wh, t.ts)
            | some x ↦ x
          ]).0,
          elim b as (λ _. Float64) [ none ↦ t.capacity_ah | some x ↦ last ],
        )
  counter_of-base none last t = refl
  counter_of-base (some b) last t = refl

  pub counters_of-base :
      (v : Vitals fl) (t : Telemetry fl)
      → counter_of (counters_of v) t ≡ ((base_of fl v t).0, cap_before fl v t)
  counters_of-base v t = counter_of-base v.base v.last_cap t

  counters_of-noted :
      (cfg : Config) (t : Telemetry fl) (w : World fl)
      → counters_of (note_tick fl cfg plan ph t w).vitals
        ≡ some ((counter_of (counters_of w.vitals) t).0, t.capacity_ah)
  counters_of-noted cfg t w =
      let (b, l, _) = note_tick-Keeps fl plan cfg ph t w in
      ap
        (λ o. elim o as (λ _. Option (Float64 × Float64)) [
          | none ↦ none
          | some x ↦ some (x.0, (note_tick fl cfg plan ph t w).vitals.last_cap)
        ])
        b
      ∙ ap (λ c. some ((base_of fl w.vitals t).0, c)) l
      ∙ ap (λ c. some (c.0, t.capacity_ah)) (sym (counters_of-base w.vitals t))

  envelope-IsSafe :
      (s : ℕ) (v : Vitals fl) (t : Telemetry fl)
      → envelope fl plan ph s v t ≡ none
      → IsSafe s (base_of fl v t).0 (cap_before fl v t) t
  unfolding envelope
  envelope-IsSafe s v t e = ground arith

  -- The tests in order, each with what it is a cause of.
  if_cause :
      (a b c d : Bool) (P : Reason → Type 0) (r : Reason)
      → (a ≡ true → P counter_reset)
      → (b ≡ true → P voltage_ceiling)
      → (c ≡ true → P capacity_cap)
      → (d ≡ true → P timed_out)
      → (if a
          then some counter_reset
          else if b
          then some voltage_ceiling
          else if c
          then some capacity_cap
          else if d
          then some timed_out
          else none)
        ≡ some r
      → P r
  if_cause true b c d P r f g h k e = subst P (cc) (f refl)
  if_cause false true c d P r f g h k e = subst P (cc) (g refl)
  if_cause false false true d P r f g h k e = subst P (cc) (h refl)
  if_cause false false false true P r f g h k e = subst P (cc) (k refl)
  if_cause false false false false P r f g h k e = absurd (cc)

  pub envelope-IsCause :
      (s : ℕ) (v : Vitals fl) (t : Telemetry fl) (r : Reason)
      → envelope fl plan ph s v t ≡ some r
      → IsCause s (base_of fl v t).0 (cap_before fl v t) t r
  unfolding envelope
  envelope-IsCause s v t r e =
      if_cause (fl.lt t.capacity_ah (fl.sub (cap_before fl v t) (fl.decimal 1 6)))
        (fl.lt plan.limits.ceiling_volts t.voltage)
        (fl.lt plan.limits.cap_cap_mah (delivered_since (base_of fl v t).0 t))
        (ltb 0 ph.timeout && ltb ph.timeout (t.ts - s))
        (IsCause s (base_of fl v t).0 (cap_before fl v t) t) r (λ q. q) (λ q. q) (λ q. q)
        (λ q. ground (arith, q)) e

  -- A tick within the envelope, and then the inputs after it.
  pub Within-tick :
      (P : Option ℕ → Option (Float64 × Float64) → Type 0) (cfg : Config) (i : Input fl)
      (is : List (Input fl)) (start : Option ℕ) (w : World fl) (t : Telemetry fl)
      → see fl i ≡ got t
      → envelope fl plan ph (start_of fl start t) w.vitals t ≡ none
      → Within P (some (start_of fl start t)) (counters_of (note_tick fl cfg plan ph t w).vitals) is
      → Within P start (counters_of w.vitals) (i ∷ is)
  Within-tick P cfg i is start w t s e rest =
      rw (s, Within)
        (
          subst (λ c. IsSafe (first_of start t) c.0 c.1 t) (sym (counters_of-base w.vitals t))
              (envelope-IsSafe (start_of fl start t) w.vitals t e),
          subst (λ c. Within P (some (start_of fl start t)) c is) (counters_of-noted cfg t w) rest,
        )

  pub Within-skipped :
      (P : Option ℕ → Option (Float64 × Float64) → Type 0) (i : Input fl) (is : List (Input fl))
      (start : Option ℕ) (c : Option (Float64 × Float64))
      → see fl i ≡ skipped
      → Within P start c is
      → Within P start c (i ∷ is)
  Within-skipped P i is start c s rest = rw (s, Within) rest
