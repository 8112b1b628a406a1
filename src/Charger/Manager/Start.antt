-- ===== src/Charger/Manager/Start.antt =====
-- The start of a charge in manager.go as a whole.
use dps150_web.Base.{
  ℕ, ◌≡◌, refl, sym, ap, ◌∙◌, Bool, true, false, List, [], ◌∷◌, ◌++◌, Option, none, some, ◌⊎◌, inl,
  inr, if◌then◌else◌, Option-cases, All,
}
use dps150_web.Float.{Floats}
use dps150_web.Hub.Command.{CommandError}
use dps150_web.Hub.Safety.{Interlock, acquire}
use dps150_web.Charger.Plan.{RequestError, Request, Phase, Plan, compile}
use dps150_web.Charger.Manager.{
  Manager, StartResult, interlock_owner, started, run_active, invalid, release_interlock, claim,
  Call, Reading, View, measure_and_launch, is_started, start,
}
use dps150_web.Charger.Manager.Order.{order, IsOff, LeavesOff}
use dps150_web.Charger.Manager.Checks.{measure_and_launch-IsOrdered}

module _ (fl : Floats) (reply : List (Call fl) → Option CommandError) where
  release_interlock-active : (m : Manager) → (release_interlock m).active ≡ m.active
  unfolding release_interlock
  release_interlock-active m = elim (Option-cases m.interlock) [
    | inl e ↦ rw (e, release_interlock) refl
    | inr (i, e) ↦ rw (e, release_interlock) refl
  ]

  claim-active : (m held : Manager) → claim m ≡ some held → held.active ≡ m.active
  unfolding claim
  claim-active m held e = go m.interlock refl e
    where
      taken : Interlock → Interlock × Bool → Option Manager
      taken i r = if r.1 then some (record m { interlock = some r.0 }) else none

      kept :
          (b : Bool) (i : Interlock)
          → (if b then some (record m { interlock = some i }) else none) ≡ some held
          → held.active ≡ m.active
      kept true i f =
          let same : record m { interlock = some i } ≡ held = cc in ap (λ x. x.active) (sym same)
      kept false i f = absurd (cc)

      go :
          (o : Option Interlock)
          → m.interlock ≡ o
          → (elim o as (λ _. Option Manager) [
            | none ↦ some m
            | some i ↦ taken i (acquire i interlock_owner)
          ])
            ≡ some held
          → held.active ≡ m.active
      go none q f = let same : m ≡ held = cc in ap (λ x. x.active) (sym same)
      go (some i) q f = kept (acquire i interlock_owner).1 (acquire i interlock_owner).0 f

  -- What a start of a run with the identity `id` has led to.
  abbrev pub IsStart : Manager → Request fl → ℕ → Manager × List (Call fl) × StartResult → Type 0
  IsStart m req id (m', calls, r) =
      ((r ≡ started)
        × (m.active ≡ none)
        × (m'.active ≡ some id)
        × ((plan : Plan fl) × (before : List (Call fl)) × (ph : Phase fl) × (rest : List (Phase fl))
            × (compile fl req ≡ inr plan)
            × All (IsOff fl reply) before
            × (plan.phases ≡ ph ∷ rest)
            × (calls ≡ before ++ order fl reply plan ph)))
      ⊎ ((is_started fl reply r ≡ false) × (m'.active ≡ m.active) × LeavesOff fl reply calls)

  -- A start that succeeds found no active run, and has written the plan's protections, then the voltage and the current of its first
  -- phase, and switched the output on last; before these it called the hub at most to switch the output off. A start that does
  -- not succeed leaves the run that was active or none; and it has never switched the output on, or
  -- its last calls tried to switch it off again.
  pub start-IsStart :
      (m : Manager) (req : Request fl) (confirm_deep : Bool) (v : View fl)
      (readings : List (Reading fl)) (id : ℕ)
      → IsStart m req id (start fl reply m req confirm_deep v readings id)
  unfolding start
  start-IsStart m req confirm_deep v readings id = compiled (compile fl req) refl
    where
      finished : Plan fl → Manager → Manager × List (Call fl) × StartResult
      finished plan held =
          let (calls, r) = measure_and_launch fl reply req confirm_deep plan v readings in
          (
            if is_started fl reply r
                then record held { active = some id }
                else release_interlock held,
            calls,
            r,
          )

      launched :
          (plan : Plan fl) (held : Manager)
          → compile fl req ≡ inr plan
          → m.active ≡ none
          → held.active ≡ m.active
          → IsStart m req id (finished plan held)
      launched plan held c idle same =
          elim (measure_and_launch-IsOrdered fl reply req confirm_deep plan v readings) [
            | inl (e, (before, ph, rest, quiet, p, calls)) ↦ inl (
              e,
              idle,
              ap
                  (λ r.
                    (if is_started fl reply r
                      then record held { active = some id }
                      else release_interlock held).active)
                  e,
              (plan, before, ph, rest, c, quiet, p, calls),
            )
            | inr (e, off) ↦ inr (
              e,
              ap
                    (λ b.
                      (if b
                        then record held { active = some id }
                        else release_interlock held).active)
                    e
                  ∙ release_interlock-active held
                  ∙ same,
              off,
            )
          ]

      held_by :
          (plan : Plan fl) (held : Manager) (o : Option ℕ)
          → compile fl req ≡ inr plan
          → held.active ≡ o
          → held.active ≡ m.active
          → IsStart m req id (elim o as (λ _. Manager × List (Call fl) × StartResult) [
            | some running ↦ (release_interlock held, [], run_active)
            | none ↦ finished plan held
          ])
      held_by plan held (some a) c e same = inr (refl, release_interlock-active held ∙ same, inl tt)
      held_by plan held none c e same = launched plan held c (sym same ∙ e) same

      claimed :
          (plan : Plan fl) (o : Option Manager)
          → compile fl req ≡ inr plan
          → claim m ≡ o
          → IsStart m req id (elim o as (λ _. Manager × List (Call fl) × StartResult) [
            | none ↦ (m, [], run_active)
            | some held ↦ elim held.active as (λ _. Manager × List (Call fl) × StartResult) [
              | some running ↦ (release_interlock held, [], run_active)
              | none ↦ finished plan held
            ]
          ])
      claimed plan none c e = inr (refl, refl, inl tt)
      claimed plan (some held) c e = held_by plan held held.active c refl (claim-active m held e)

      compiled :
          (x : RequestError ⊎ Plan fl)
          → compile fl req ≡ x
          → IsStart m req id (elim x as (λ _. Manager × List (Call fl) × StartResult) [
            | inl e ↦ (m, [], invalid e)
            | inr plan ↦ elim (claim m) as (λ _. Manager × List (Call fl) × StartResult) [
              | none ↦ (m, [], run_active)
              | some held ↦ elim held.active as (λ _. Manager × List (Call fl) × StartResult) [
                | some running ↦ (release_interlock held, [], run_active)
                | none ↦ finished plan held
              ]
            ]
          ])
      compiled (inl e) c = inr (refl, refl, inl tt)
      compiled (inr plan) c = claimed plan (claim m) c refl
