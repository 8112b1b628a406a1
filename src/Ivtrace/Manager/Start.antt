-- ===== src/Ivtrace/Manager/Start.antt =====
-- The start of a sweep in manager.go as a whole.
use dps150_web.Base.{
  ℕ, suc, ◌≤◌, ◌≡◌, ◌≢◌, refl, sym, ap, ◌∙◌, Bool, true, false, List, [], ◌∷◌, ◌++◌, Option, none,
  some, ◌⊎◌, inl, inr, arith, if◌then◌else◌, Bool-cases, Option-cases, length,
}
use mathlib.Core.Path.{subst}
use text.Mathlib.Text.{◌==◌}
use text.Mathlib.TextEquality.{eq_iff}
use dps150_web.Float.{Floats}
use dps150_web.Hub.Command.{CommandError}
use dps150_web.Hub.Safety.{Interlock, acquire, release}
use dps150_web.Hub.Safety.Exclusion.{safe_output_off-last}
use dps150_web.Ivtrace.Plan.{RequestError, Request, Plan, compile, protection_limits}
use dps150_web.Ivtrace.Plan.Envelope.{compile-length}
use dps150_web.Ivtrace.Manager.{
  Manager, StartResult, interlock_owner, started, run_active, invalid, panicked, release_interlock,
  claim, is_started, Call, set_protections, set_output, compliance_write, first_write, Outcome,
  and_then, apply_start_order, offs, output_off, launch, connect_and_launch, start,
}

claim-none : (m held : Manager) → m.interlock ≡ none → claim m ≡ some held → held ≡ m
unfolding claim
claim-none m held e q =
    let f : claim m ≡ some m = rw (e, claim) (ap (λ o. some (record m { interlock = o })) e) in
    let g = sym f ∙ q in cc

claim-some :
    (m held : Manager) (i : Interlock)
    → m.interlock ≡ some i
    → claim m ≡ some held
    → (i.owner ≡ "") × (held ≡ record m { interlock = some (record { owner = interlock_owner }) })
unfolding claim acquire
claim-some m held i e q = elim (Bool-cases (i.owner == "")) [
  | inl b ↦
      let f : claim m ≡ some (record m { interlock = some (record { owner = interlock_owner }) }) =
        rw (e, claim) (rw (b, acquire) refl) in
      let g = sym f ∙ q in ((eq_iff i.owner "").0 b, cc)
  | inr b ↦
      let f : claim m ≡ none = rw (e, claim) (rw (b, acquire) refl) in
      let g = sym f ∙ q in absurd (cc)
]

-- Giving the interlock back leaves the manager as it was.
release-claim :
    (m held : Manager)
    → claim m ≡ some held
    → (release_interlock held ≡ m) × (held.active ≡ m.active)
unfolding release_interlock release
release-claim m held q = elim (Option-cases m.interlock) [
  | inl e ↦
      let same = claim-none m held e q in
      (
        subst (λ h. release_interlock h ≡ m) (sym same)
            (rw (e, release_interlock) (ap (λ o. record m { interlock = o }) e)),
        ap (λ h. h.active) same,
      )
  | inr (i, e) ↦
      let (free, same) = claim-some m held i e q in
      let was : record m { interlock = some (record { owner = "" }) } ≡ m =
        ap (λ o. record m { interlock = o })
          (ap (λ o. some (record { owner = o })) (sym free) ∙ sym e) in
      (subst (λ h. release_interlock h ≡ m) (sym same) was, ap (λ h. h.active) same)
]

module _ (fl : Floats) (reply : List (Call fl) → Option CommandError) where
  and_then-eq :
      (o : Outcome fl reply) (c : Call fl)
      → (and_then fl reply o c).1 ≡ none
      → (o.1 ≡ none) × ((and_then fl reply o c).0 ≡ o.0 ++ c ∷ [])
  and_then-eq (log, some x) c e = absurd (cc)
  and_then-eq (log, none) c e = (refl, refl)

  -- The protections, the compliance, the first setpoint, and only then the output.
  abbrev pub order : Plan fl → fl.Float64 → List (Call fl)
  order plan v =
      set_protections (protection_limits fl plan.protections)
      ∷ compliance_write fl plan
      ∷ first_write fl plan v
      ∷ set_output true
      ∷ []

  apply_start_order-eq :
      (plan : Plan fl) (v : fl.Float64)
      → (apply_start_order fl reply plan v).1 ≡ none
      → (apply_start_order fl reply plan v).0 ≡ order plan v
  unfolding apply_start_order
  apply_start_order-eq plan v e =
      let a =
        and_then fl reply ([], none) (set_protections (protection_limits fl plan.protections)) in
      let b = and_then fl reply a (compliance_write fl plan) in
      let c = and_then fl reply b (first_write fl plan v) in
      let (ec, qd) = and_then-eq c (set_output true) e in
      let (eb, qc) = and_then-eq b (first_write fl plan v) ec in
      let (ea, qb) = and_then-eq a (compliance_write fl plan) eb in
      qd ∙ ap (λ l. l ++ set_output true ∷ []) (qc ∙ ap (λ l. l ++ first_write fl plan v ∷ []) qb)

  -- Some calls are none, or the last of them tried to switch the output off.
  abbrev pub LeavesOff : List (Call fl) → Type 0
  LeavesOff calls =
      (calls ≡ [])
      ⊎ ((log : List (Call fl)) × (made : ℕ) × (1 ≤ made) × (calls ≡ log ++ offs fl reply made))

  output_off-LeavesOff : (log : List (Call fl)) → LeavesOff (output_off fl reply log)
  unfolding output_off
  output_off-LeavesOff log =
      let (k, e, _) = safe_output_off-last (λ n. reply (log ++ offs fl reply (suc n))) in
      inr (log, suc k, omega arith, ap (λ r. log ++ offs fl reply r.1) e)

  abbrev pub IsLaunched : Plan fl → List (Call fl) × StartResult → Type 0
  IsLaunched plan (calls, r) =
      ((r ≡ started)
        × ((v : fl.Float64) × (vs : List fl.Float64) × (plan.setpoints ≡ v ∷ vs)
            × (calls ≡ order plan v)))
      ⊎ ((is_started r ≡ false) × (r ≢ panicked) × LeavesOff calls)

  launch-IsLaunched :
      (plan : Plan fl) (connected : Bool)
      → plan.setpoints ≢ []
      → IsLaunched plan (connect_and_launch fl reply plan connected)
  unfolding launch
  launch-IsLaunched plan false some_point = inr (refl, λ q. absurd (cc), inl refl)
  launch-IsLaunched plan true some_point = go plan.setpoints refl
    where
      go : (vs : List fl.Float64) → plan.setpoints ≡ vs → IsLaunched plan (launch fl reply plan)
      go [] e = absurd (some_point e)
      go (v ∷ vs) e = elim (Option-cases (apply_start_order fl reply plan v).1) [
        | inl n ↦ rw (e, launch) (rw n (inl (refl, (v, vs, refl, apply_start_order-eq plan v n))))
        | inr (x, n) ↦
            rw (e, launch)
              (rw n (
                inr (
                  refl,
                  λ q. absurd (cc),
                  output_off-LeavesOff (apply_start_order fl reply plan v).0,
                )))
      ]

  compile-some_point :
      (req : Request fl) (plan : Plan fl) → compile fl req ≡ inr plan → plan.setpoints ≢ []
  compile-some_point req plan e q =
      absurd (omega (arith, compile-length fl req plan e, ap length q))

  -- What a start of a run with the identity `id` has led to.
  abbrev pub IsBegun : Manager → Request fl → ℕ → Manager × List (Call fl) × StartResult → Type 0
  IsBegun m req id (m', calls, r) =
      ((r ≡ started)
        × (m.active ≡ none)
        × (m'.active ≡ some id)
        × ((plan : Plan fl) × (v : fl.Float64) × (vs : List fl.Float64) × (compile fl req
              ≡ inr plan)
            × (plan.setpoints ≡ v ∷ vs)
            × (calls ≡ order plan v)))
      ⊎ ((is_started r ≡ false) × (r ≢ panicked) × (m' ≡ m) × LeavesOff calls)

  -- What follows the claim of the interlock.
  abbrev launched : Plan fl → Manager → ℕ → Bool → Manager × List (Call fl) × StartResult
  launched plan held id connected =
      let (calls, r) = connect_and_launch fl reply plan connected in
      (if is_started r then record held { active = some id } else release_interlock held, calls, r)

  launched-IsBegun :
      (m held : Manager) (req : Request fl) (plan : Plan fl) (connected : Bool) (id : ℕ)
      → compile fl req ≡ inr plan
      → claim m ≡ some held
      → held.active ≡ none
      → IsBegun m req id (launched plan held id connected)
  launched-IsBegun m held req plan connected id c q idle =
      let (back, same) = release-claim m held q in
      let next : Bool → Manager =
        λ b. if b then record held { active = some id } else release_interlock held in
      elim (launch-IsLaunched plan connected (compile-some_point req plan c)) [
        | inl (e, (v, vs, p, calls)) ↦ inl (
          e,
          sym same ∙ idle,
          ap (λ r. (next (is_started r)).active) e,
          (plan, v, vs, c, p, calls),
        )
        | inr (e, calm, off) ↦ inr (e, calm, ap next e ∙ back, off)
      ]

  -- A start that succeeds found no active run, and has written the protections of the compiled sweep, then the compliance, then
  -- the first setpoint, and switched the output on last. A start that does not succeed does not panic and leaves the manager and its
  -- interlock as they were; and it has not called the hub, or its last calls tried to switch the output off.
  pub start-IsBegun :
      (m : Manager) (req : Request fl) (connected : Bool) (id : ℕ)
      → IsBegun m req id (start fl reply m req connected id)
  unfolding start
  start-IsBegun m req connected id = compiled (compile fl req) refl
    where
      held_by :
          (plan : Plan fl) (held : Manager) (o : Option ℕ)
          → compile fl req ≡ inr plan
          → claim m ≡ some held
          → held.active ≡ o
          → IsBegun m req id (elim o as (λ _. Manager × List (Call fl) × StartResult) [
            | some running ↦ (release_interlock held, [], run_active)
            | none ↦ launched plan held id connected
          ])
      held_by plan held (some a) c q e =
          inr (refl, λ f. absurd (cc), (release-claim m held q).0, inl refl)
      held_by plan held none c q e = launched-IsBegun m held req plan connected id c q e

      claimed :
          (plan : Plan fl) (o : Option Manager)
          → compile fl req ≡ inr plan
          → claim m ≡ o
          → IsBegun m req id (elim o as (λ _. Manager × List (Call fl) × StartResult) [
            | none ↦ (m, [], run_active)
            | some held ↦ elim held.active as (λ _. Manager × List (Call fl) × StartResult) [
              | some running ↦ (release_interlock held, [], run_active)
              | none ↦ launched plan held id connected
            ]
          ])
      claimed plan none c e = inr (refl, λ f. absurd (cc), refl, inl refl)
      claimed plan (some held) c e = held_by plan held held.active c e refl

      compiled :
          (x : RequestError ⊎ Plan fl)
          → compile fl req ≡ x
          → IsBegun m req id (elim x as (λ _. Manager × List (Call fl) × StartResult) [
            | inl e ↦ (m, [], invalid e)
            | inr plan ↦ elim (claim m) as (λ _. Manager × List (Call fl) × StartResult) [
              | none ↦ (m, [], run_active)
              | some held ↦ elim held.active as (λ _. Manager × List (Call fl) × StartResult) [
                | some running ↦ (release_interlock held, [], run_active)
                | none ↦ launched plan held id connected
              ]
            ]
          ])
      compiled (inl e) c = inr (refl, λ f. absurd (cc), refl, inl refl)
      compiled (inr plan) c = claimed plan (claim m) c refl
