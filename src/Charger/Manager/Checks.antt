-- ===== src/Charger/Manager/Checks.antt =====
-- What a start of a charge in manager.go does between its checks.
use dps150_web.Base.{
  ◌≡◌, refl, Bool, true, false, not, ◌&&◌, List, [], Option, none, some, ◌⊎◌, inl, inr,
  if◌then◌else◌, Bool-cases, All,
}
use dps150_web.Float.{Floats}
use dps150_web.Hub.Command.{CommandError}
use dps150_web.Charger.Plan.{RequestError, Request, Plan, PreflightResult, is_accepted, preflight}
use dps150_web.Charger.Manager.{
  StartResult, hub_error, offline, invalid, refused, deep_discharge_unconfirmed, Call, Reading,
  read_vbat, View, ensure_output_off, launch, check_and_launch, measure_and_launch, is_started,
}
use dps150_web.Charger.Manager.Order.{IsOff, IsOrdered, launch-IsOrdered}

module _ (fl : Floats) (reply : List (Call fl) → Option CommandError) where
  -- A start that gives up before the launch has left the output off.
  gives_up :
      (plan : Plan fl) (log : List (Call fl)) (r : StartResult)
      → All (IsOff fl reply) log
      → is_started fl reply r ≡ false
      → IsOrdered fl reply plan (log, r)
  gives_up plan log r quiet e = inr (e, inl quiet)

  IsOrdered-if :
      (plan : Plan fl) (b : Bool) (x y : List (Call fl) × StartResult)
      → IsOrdered fl reply plan x
      → IsOrdered fl reply plan y
      → IsOrdered fl reply plan (if b then x else y)
  IsOrdered-if plan true x y p q = p
  IsOrdered-if plan false x y p q = q

  check_and_launch-IsOrdered :
      (req : Request fl) (confirm_deep : Bool) (plan : Plan fl) (vbat : fl.Float64)
      (log : List (Call fl))
      → All (IsOff fl reply) log
      → IsOrdered fl reply plan (check_and_launch fl reply req confirm_deep plan vbat log)
  unfolding check_and_launch
  check_and_launch-IsOrdered req confirm_deep plan vbat log quiet = go (preflight fl req vbat)
    where
      go :
          (x : RequestError ⊎ PreflightResult fl)
          → IsOrdered fl reply plan (elim x as (λ _. List (Call fl) × StartResult) [
            | inl e ↦ (log, invalid e)
            | inr pf ↦
                if not (is_accepted fl pf.verdict)
                then (log, refused pf.verdict)
                else if pf.needs_confirm && not confirm_deep
                then (log, deep_discharge_unconfirmed)
                else launch fl reply plan log
          ])
      go (inl e) = gives_up plan log (invalid e) quiet refl
      go (inr pf) =
          IsOrdered-if plan (not (is_accepted fl pf.verdict)) (log, refused pf.verdict) _
            (gives_up plan log (refused pf.verdict) quiet refl)
            (IsOrdered-if plan (pf.needs_confirm && not confirm_deep)
              (log, deep_discharge_unconfirmed) (launch fl reply plan log)
              (gives_up plan log deep_discharge_unconfirmed quiet refl)
              (launch-IsOrdered fl reply plan log quiet))

  ensure_output_off-IsOff : (v : View fl) → All (IsOff fl reply) (ensure_output_off fl reply v).0
  unfolding ensure_output_off
  ensure_output_off-IsOff v = elim (Bool-cases v.output_on) [
    | inl o ↦ rw (o, ensure_output_off) (refl, tt)
    | inr o ↦ rw (o, ensure_output_off) tt
  ]

  pub measure_and_launch-IsOrdered :
      (req : Request fl) (confirm_deep : Bool) (plan : Plan fl) (v : View fl)
      (readings : List (Reading fl))
      → IsOrdered fl reply plan (measure_and_launch fl reply req confirm_deep plan v readings)
  unfolding measure_and_launch
  measure_and_launch-IsOrdered req confirm_deep plan v readings =
      IsOrdered-if plan (not v.connected) ([], offline) _ (gives_up plan [] offline tt refl)
        (ensured (ensure_output_off fl reply v).1 (ensure_output_off-IsOff v))
    where
      log : List (Call fl)
      log = (ensure_output_off fl reply v).0

      measured :
          (x : Option fl.Float64)
          → All (IsOff fl reply) log
          → IsOrdered fl reply plan (elim x as (λ _. List (Call fl) × StartResult) [
            | none ↦ (log, offline)
            | some vbat ↦ check_and_launch fl reply req confirm_deep plan vbat log
          ])
      measured none quiet = gives_up plan log offline quiet refl
      measured (some vbat) quiet = check_and_launch-IsOrdered req confirm_deep plan vbat log quiet

      ensured :
          (x : Option CommandError)
          → All (IsOff fl reply) log
          → IsOrdered fl reply plan (elim x as (λ _. List (Call fl) × StartResult) [
            | some e ↦ (log, hub_error e)
            | none ↦
                elim (read_vbat fl readings none v.voltage) as (λ _. List (Call fl) × StartResult) [
                  | none ↦ (log, offline)
                  | some vbat ↦ check_and_launch fl reply req confirm_deep plan vbat log
                ]
          ])
      ensured (some e) quiet = gives_up plan log (hub_error e) quiet refl
      ensured none quiet = measured (read_vbat fl readings none v.voltage) quiet
