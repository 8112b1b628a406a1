-- ===== src/Emulator/Device/Protection.antt =====
-- The protections of emulator.go: latching, tripping and `refresh`.
use dps150_web.Base.{
  ◌⊎◌, ℕ, ◌≡◌, ◌∙◌, ap, refl, Bool, true, false, not, ◌&&◌, arith, ◌==◌, Bool-cases, inl, inr,
}
use dps150_web.Float.{Floats}
use dps150_web.Protocol.Register
use dps150_web.Emulator.Device.{
  Plants, Device, violated, trip, refresh, refresh_mode, refresh_protection, current_mode,
}

module _ (fl : Floats) (plants : Plants fl) where
  -- While a protection is latched, the output is off.
  abbrev pub IsLatched : Device fl plants → Type 0
  IsLatched d = (d.protection ≡ 0) ⊎ (d.output ≡ false)

  pub trip-IsLatched : (d : Device fl plants) (p : ℕ) → IsLatched (trip fl plants d p).0
  unfolding trip
  trip-IsLatched d p = ground arith

  trip_off : (d : Device fl plants) (p : ℕ) → (trip fl plants d p).0.output ≡ false
  unfolding trip
  trip_off d p = ground arith

  refresh_mode-IsLatched :
      (d : Device fl plants) → IsLatched d → IsLatched (refresh_mode fl plants d).0
  unfolding refresh_mode
  refresh_mode-IsLatched d h = ground arith

  refresh_protection-IsLatched :
      (d : Device fl plants) → IsLatched d → IsLatched (refresh_protection fl plants d).0
  unfolding refresh_protection
  refresh_protection-IsLatched d h = ground (arith, trip_off d (violated fl plants d))

  pub refresh-IsLatched : (d : Device fl plants) → IsLatched d → IsLatched (refresh fl plants d).0
  unfolding refresh
  refresh-IsLatched d h =
      refresh_protection-IsLatched (refresh_mode fl plants d).0 (refresh_mode-IsLatched d h)

  refresh_protection_guard :
      (d : Device fl plants)
      → IsLatched d
      → (refresh_protection fl plants d).0.output ≡ true
      → (violated fl plants (refresh_protection fl plants d).0 ≡ Register.protection_ok)
        × ((refresh_protection fl plants d).0.protection ≡ Register.protection_ok)
  unfolding refresh_protection
  refresh_protection_guard d h on = ground (arith, trip_off d (violated fl plants d))

  -- An output that is still on after `refresh` is within every threshold, and no protection is
  -- latched.
  pub refresh_guard :
      (d : Device fl plants)
      → IsLatched d
      → (refresh fl plants d).0.output ≡ true
      → (violated fl plants (refresh fl plants d).0 ≡ Register.protection_ok)
        × ((refresh fl plants d).0.protection ≡ Register.protection_ok)
  unfolding refresh
  refresh_guard d h on =
      refresh_protection_guard (refresh_mode fl plants d).0 (refresh_mode-IsLatched d h) on

  -- The device with another output, protection and mode.
  abbrev pub switched : Device fl plants → Bool → ℕ → ℕ → Device fl plants
  switched d o p m = record d { output = o; protection = p; mode = m }

  trip_shape :
      (d : Device fl plants) (p : ℕ) → (o : Bool) × ((trip fl plants d p).0 ≡ switched d o p d.mode)
  unfolding trip
  trip_shape d p = elim (Bool-cases d.output) [
    | inl e ↦ (false, rw (e, trip) refl)
    | inr e ↦ (d.output, rw (e, trip) refl)
  ]

  refresh_mode_shape :
      (d : Device fl plants)
      → (m : ℕ) × ((refresh_mode fl plants d).0 ≡ switched d d.output d.protection m)
  unfolding refresh_mode
  refresh_mode_shape d = elim (Bool-cases (d.output && not (current_mode fl plants d == d.mode))) [
    | inl e ↦ (current_mode fl plants d, rw (e, refresh_mode) refl)
    | inr e ↦ (d.mode, rw (e, refresh_mode) refl)
  ]

  refresh_protection_shape :
      (d : Device fl plants)
      → (o : Bool) × (p : ℕ) × ((refresh_protection fl plants d).0 ≡ switched d o p d.mode)
  unfolding refresh_protection
  refresh_protection_shape d =
      elim (Bool-cases (d.protection == 0 && not (violated fl plants d == 0))) [
        | inl e ↦
            let (o, eq) = trip_shape d (violated fl plants d) in
            (o, violated fl plants d, rw (e, refresh_protection) eq)
        | inr e ↦ (d.output, d.protection, rw (e, refresh_protection) refl)
      ]

  -- `refresh` changes the output, the protection and the mode, and nothing else.
  pub refresh_shape :
      (d : Device fl plants)
      → (o : Bool) × (p : ℕ) × (m : ℕ) × ((refresh fl plants d).0 ≡ switched d o p m)
  unfolding refresh
  refresh_shape d =
      let (m, em) = refresh_mode_shape d in
      let (o, p, ep) = refresh_protection_shape (refresh_mode fl plants d).0 in
      (
        o,
        p,
        (refresh_mode fl plants d).0.mode,
        ep ∙ ap (λ s. switched s o p (refresh_mode fl plants d).0.mode) em,
      )
