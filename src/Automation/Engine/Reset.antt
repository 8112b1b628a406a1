-- ===== src/Automation/Engine/Reset.antt =====
-- What engine.go keeps over a lost connection and over a gap with the output off.
use dps150_web.Base.{
  ℕ, ◌+◌, ◌-◌, ◌≤◌, ◌≡◌, refl, sym, ap, ◌∙◌, Bool, true, false, List, [], ◌∷◌, ◌++◌, Option, none,
  some, arith, if◌then◌else◌, Bool-cases, Option-cases, inl, inr, All,
}
use Prim.Native.String.{String}
use dps150_web.Float.{Floats}
use dps150_web.Hub.State.{
  Telemetry, Update, state_snapshot, telemetry, status_change, protection_trip, mode_change,
  output_change, journal_event,
}
use dps150_web.Sequence.Program.{Condition}
use dps150_web.Automation.Engine.{
  Rule, RuleState, Engine, Call, with_base, condition_holds, observe_held, observe_off, evaluate,
  scope_always, handle, handle_telemetry, handle_status,
}
use dps150_web.Automation.Engine.Firing.{IsOn, observe_on-cases, evaluate-on}

module _ (fl : Floats) where
  -- The engine over some updates, each with the answer of the suppressing predicate.
  abbrev pub handle_updates : Bool → Engine fl → List (Bool × Update fl) → Engine fl × List Call
  handle_updates sender e [] = (e, [])
  handle_updates sender e ((suppressed, u) ∷ us) =
      let (e', calls) = handle fl sender suppressed e u in
      let (last, more) = handle_updates sender e' us in (last, calls ++ more)

  abbrev pub connects : Update fl → Bool
  connects (status_change on transport) = on
  connects (telemetry t) = false
  connects (state_snapshot _) = false
  connects (protection_trip _ _) = false
  connects (mode_change _ _) = false
  connects (output_change _ _) = false
  connects (journal_event _ _) = false

  abbrev pub KeepsDown : Bool × Update fl → Type 0
  KeepsDown u = connects u.1 ≡ false

  handle-down :
      (sender suppressed : Bool) (e : Engine fl) (u : Update fl)
      → connects u ≡ false
      → e.link_up ≡ false
      → e.states ≡ []
      → handle fl sender suppressed e u ≡ (e, [])
  unfolding handle handle_telemetry handle_status
  handle-down sender suppressed e (status_change on transport) k d n = rw (k, sym d, sym n) refl
  handle-down sender suppressed e (telemetry t) k d n = rw (d, handle_telemetry) refl
  handle-down sender suppressed e (state_snapshot _) k d n = refl
  handle-down sender suppressed e (protection_trip _ _) k d n = refl
  handle-down sender suppressed e (mode_change _ _) k d n = refl
  handle-down sender suppressed e (output_change _ _) k d n = refl
  handle-down sender suppressed e (journal_event _ _) k d n = refl

  handle_updates-down :
      (sender : Bool) (e : Engine fl) (us vs : List (Bool × Update fl))
      → All KeepsDown us
      → e.link_up ≡ false
      → e.states ≡ []
      → handle_updates sender e (us ++ vs) ≡ handle_updates sender e vs
  handle_updates-down sender e [] vs k d n = refl
  handle_updates-down sender e ((s, u) ∷ us) vs (k, ks) d n =
      rw (handle-down sender s e u k d n) (handle_updates-down sender e us vs ks d n)

  -- From the loss of the connection on, and whatever updates follow before it is back, the engine
  -- asks nothing of the outside, and then every rule starts from a fresh state: no progress survives.
  pub handle_updates-disconnect :
      (sender s s' : Bool) (e : Engine fl) (tr tr' : String) (us : List (Bool × Update fl))
      → All KeepsDown us
      → let updates = ((s, status_change false tr) ∷ us) ++ ((s', status_change true tr') ∷ []) in
        handle_updates sender e updates ≡ (record e { link_up = true; states = [] }, [])
  unfolding handle handle_status
  handle_updates-disconnect sender s s' e tr tr' us k =
      rw
        (handle_updates-down sender (handle_status fl e false) us
          ((s', status_change true tr') ∷ []) k refl refl)
        refl

  -- A tick with the output off starts a rule of any other scope than "always" afresh.
  evaluate-off :
      (r : Rule fl) (st : RuleState fl) (t : Telemetry fl)
      → t.output_on ≡ false
      → evaluate fl r st t ≡ (observe_off fl r.scope st t.ts, false)
  unfolding evaluate
  evaluate-off r st t off = rw off refl

  observe_held-holding :
      (st : RuleState fl) (ts : ℕ)
      → ((observe_held fl st ts).holding ≡ true) × ((observe_held fl st ts).off_since ≡ none)
  unfolding observe_held
  observe_held-holding st ts = elim (Bool-cases st.holding) [
    | inr h ↦ rw (h, observe_held) (refl, refl)
    | inl h ↦ elim (Option-cases st.off_since) [
      | inl n ↦ rw (h, n, observe_held) (h, n)
      | inr (s, n) ↦ rw (h, n, observe_held) (h, refl)
    ]
  ]

  evaluate-fires :
      (r : Rule fl) (c : Condition fl) (st : RuleState fl) (t : Telemetry fl)
      → r.condition ≡ some c
      → IsOn fl t
      → st.awaiting_off ≡ false
      → (evaluate fl r st t).1 ≡ true
      → let held = observe_held fl (with_base fl st t) t.ts in
        (fl.to_duration c.for_seconds ≤ t.ts - held.held_since)
        × (evaluate fl r st t ≡ (record held { awaiting_off = true }, true))
  evaluate-fires r c st t e on a f = elim (observe_on-cases fl c (with_base fl st t) t) [
    | inl (n, q) ↦ let g = sym f ∙ ap (λ x. x.1) (evaluate-on fl r c st t e on a ∙ q) in absurd (cc)
    | inr (inl (y, l, q)) ↦
        let g = sym f ∙ ap (λ x. x.1) (evaluate-on fl r c st t e on a ∙ q) in absurd (cc)
    | inr (inr (y, l, q)) ↦ (l, evaluate-on fl r c st t e on a ∙ q)
  ]

  -- The state after a gap between a firing and the output's return.
  abbrev paused : RuleState fl → ℕ → RuleState fl
  paused held ts = record held { awaiting_off = false; off_since = some ts }

  observe_off-always :
      (held : RuleState fl) (ts : ℕ)
      → held.holding ≡ true
      → held.off_since ≡ none
      → observe_off fl scope_always (record held { awaiting_off = true }) ts ≡ paused held ts
  unfolding observe_off
  observe_off-always held ts h o =
      ap
        (λ x. record held {
          awaiting_off = false;
          off_since = elim x as (λ _. Option ℕ) [
            | some s ↦ some s
            | none ↦ if held.holding then some ts else none
          ];
        })
        o
      ∙ ap (λ b. record held { awaiting_off = false; off_since = if b then some ts else none }) h

  evaluate-paused :
      (r : Rule fl) (c : Condition fl) (held : RuleState fl) (ts : ℕ) (v : Telemetry fl)
      → r.condition ≡ some c
      → held.holding ≡ true
      → IsOn fl v
      → condition_holds fl c v (with_base fl (paused held ts) v) ≡ true
      → fl.to_duration c.for_seconds ≤ v.ts - (held.held_since + (v.ts - ts))
      → (evaluate fl r (paused held ts) v).1 ≡ true
  unfolding observe_held
  evaluate-paused r c held ts v e h on y w =
      rw (evaluate-on fl r c (paused held ts) v e on refl)
        (elim (observe_on-cases fl c (with_base fl (paused held ts) v) v) [
          | inl (n, q) ↦ absurd (cc)
          | inr (inl (y, l, q)) ↦ absurd (ground arith)
          | inr (inr (y, l, q)) ↦ rw q refl
        ])

  -- A rule of scope "always" that has just fired keeps its hold time over the gap: when the output goes off and comes on
  -- again, it fires at the first tick at which its condition holds, however short its hold time there.
  pub evaluate-always :
      (r : Rule fl) (c : Condition fl) (st : RuleState fl) (t u v : Telemetry fl)
      → r.condition ≡ some c
      → r.scope ≡ scope_always
      → st.awaiting_off ≡ false
      → IsOn fl t
      → u.output_on ≡ false
      → IsOn fl v
      → t.ts ≤ u.ts
      → u.ts ≤ v.ts
      → (evaluate fl r st t).1 ≡ true
      → let again = (evaluate fl r (evaluate fl r st t).0 u).0 in
        condition_holds fl c v (with_base fl again v) ≡ true → (evaluate fl r again v).1 ≡ true
  evaluate-always r c st t u v e sc a on off on' tu uv fired =
      let held = observe_held fl (with_base fl st t) t.ts in
      let (w, q) = evaluate-fires r c st t e on a fired in
      let (h, o) = observe_held-holding (with_base fl st t) t.ts in
      let again : (evaluate fl r (evaluate fl r st t).0 u).0 ≡ paused held u.ts =
        ap (λ x. (evaluate fl r x.0 u).0) q
        ∙ ap (λ x. x.0) (evaluate-off r (record held { awaiting_off = true }) u off)
        ∙ ap (λ x. observe_off fl x (record held { awaiting_off = true }) u.ts) sc
        ∙ observe_off-always held u.ts h o in
      rw again (λ y. evaluate-paused r c held u.ts v e h on' y (omega arith))
