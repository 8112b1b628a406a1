-- ===== src/Emulator/Control/Safety.antt =====
-- The steps of the emulated device (emulator.go) and its latched protections.
use dps150_web.Base.{
  inl, inr, ℕ, ◌≡◌, refl, sym, ◌∙◌, not, ◌||◌, Bool, true, Option, none, some, arith, Bool-cases,
  Option-cases, inl, inr, List,
}
use dps150_web.Float.{Floats}
use dps150_web.Protocol.Register
use dps150_web.Protocol.Frame.{Frame}
use dps150_web.Emulator.Device.{Plants, Conn, Device, measure, violated, refresh, trip_protection}
use dps150_web.Emulator.Device.Protection.{
  IsLatched, trip-IsLatched, refresh-IsLatched, refresh_guard,
}
use dps150_web.Emulator.Handle.{
  FloatReg, vset, float_reg, store, store_preset, set_output, set_metering, write_byte, apply_write,
  handle_write, float_payload, byte_payload, is_preset_reg,
}
use dps150_web.Emulator.Control.{
  handle_read, handle_session, dispatch, handle, charge_step, meter, tick, attach, detach, power_on,
}

module _ (fl : Floats) (plants : Plants fl) where
  store-IsLatched :
      (d : Device fl plants) (r : FloatReg) (v : fl.Float32)
      → IsLatched fl plants d
      → IsLatched fl plants (store fl plants d r v)
  unfolding store
  store-IsLatched d vset v h = h
  store-IsLatched d _ v h = h

  -- The device that a write leaves, if it is applied.
  abbrev Kept : Option (Device fl plants × List (ℕ × List ℕ)) → Type 0
  Kept none = Unit
  Kept (some (d, sent)) = IsLatched fl plants d

  write_byte-Kept :
      (now : ℕ) (d : Device fl plants) (reg b : ℕ)
      → IsLatched fl plants d
      → Kept (write_byte fl plants now d reg b)
  unfolding write_byte set_output set_metering
  write_byte-Kept now d reg b h = ground arith

  apply_write-Kept :
      (now : ℕ) (d : Device fl plants) (f : Frame)
      → IsLatched fl plants d
      → Kept (apply_write fl plants now d f)
  unfolding apply_write
  apply_write-Kept now d f h = elim (Option-cases (float_reg f.reg)) [
    | inr (r, er) ↦ elim (Option-cases (float_payload fl plants f.payload)) [
      | inr (v, ev) ↦ rw (er, ev, apply_write) (store-IsLatched d r v h)
      | inl ev ↦ rw (er, ev, apply_write) tt
    ]
    | inl er ↦ elim (Bool-cases (is_preset_reg f.reg)) [
      | inl ep ↦ elim (Option-cases (float_payload fl plants f.payload)) [
        | inr (v, ev) ↦ rw (er, ep, ev, apply_write) (unfold store_preset in h)
        | inl ev ↦ rw (er, ep, ev, apply_write) tt
      ]
      | inr ep ↦ elim (Option-cases (byte_payload fl plants f.payload)) [
        | inr (b, eb) ↦ rw (er, ep, eb, apply_write) (write_byte-Kept now d f.reg b h)
        | inl eb ↦ rw (er, ep, eb, apply_write) tt
      ]
    ]
  ]

  handle_write-IsLatched :
      (now : ℕ) (d : Device fl plants) (f : Frame)
      → IsLatched fl plants d
      → IsLatched fl plants (handle_write fl plants now d f).0
  unfolding handle_write
  handle_write-IsLatched now d f h = elim (Option-cases (apply_write fl plants now d f)) [
    | inl e ↦ rw (e, handle_write) h
    | inr ((d', sent), e) ↦
        rw (e, handle_write) (refresh-IsLatched fl plants d' (rw e at (apply_write-Kept now d f h)))
  ]

  set_metering-IsLatched :
      (now : ℕ) (d : Device fl plants) (on : Bool)
      → IsLatched fl plants d
      → IsLatched fl plants (set_metering fl plants now d on)
  unfolding set_metering
  set_metering-IsLatched now d on h = ground arith

  handle_read-IsLatched :
      (now : ℕ) (d : Device fl plants) (f : Frame)
      → IsLatched fl plants d
      → IsLatched fl plants (handle_read fl plants now d f).0
  unfolding handle_read set_metering
  handle_read-IsLatched now d f h = ground arith

  handle_session-IsLatched :
      (now : ℕ) (d : Device fl plants) (c : Conn) (f : Frame)
      → IsLatched fl plants d
      → IsLatched fl plants (handle_session fl plants now d c f).0
  unfolding handle_session
  handle_session-IsLatched now d c f h = ground (
    arith,
    refresh-IsLatched fl plants
        (record d { conn = some (record { id = c.id; session = true }); last_meter = now }),
  )

  dispatch-IsLatched :
      (now : ℕ) (d : Device fl plants) (c : Conn) (f : Frame)
      → IsLatched fl plants d
      → IsLatched fl plants (dispatch fl plants now d c f).0
  unfolding dispatch
  dispatch-IsLatched now d c f h = ground (
    arith,
    handle_session-IsLatched now d c f h,
    handle_write-IsLatched now d f h,
    handle_read-IsLatched now d f h,
  )

  handle-IsLatched :
      (now : ℕ) (d : Device fl plants) (from : ℕ) (f : Frame)
      → IsLatched fl plants d
      → IsLatched fl plants (handle fl plants now d from f).0
  unfolding handle
  handle-IsLatched now d from f h = elim (Option-cases d.conn) [
    | inl e ↦ rw (e, handle) h
    | inr (c, e) ↦ ground (arith, dispatch-IsLatched now d c f h)
  ]

  charge_step-IsLatched :
      (d : Device fl plants) → IsLatched fl plants d → IsLatched fl plants (charge_step fl plants d)
  unfolding charge_step
  charge_step-IsLatched d h = ground arith

  meter-IsLatched :
      (now : ℕ) (d : Device fl plants)
      → IsLatched fl plants d
      → IsLatched fl plants (meter fl plants now d)
  unfolding meter
  meter-IsLatched now d h = ground arith

  tick-IsLatched :
      (now : ℕ) (d : Device fl plants) (from : ℕ)
      → IsLatched fl plants d
      → IsLatched fl plants (tick fl plants now d from).0
  unfolding tick
  tick-IsLatched now d from h =
      let charged = charge_step fl plants d in
      let settled = (refresh fl plants charged).0 in
      ground (
        arith,
        meter-IsLatched now settled
            (refresh-IsLatched fl plants charged (charge_step-IsLatched d h)),
      )

  trip_protection-IsLatched :
      (d : Device fl plants) (p : ℕ)
      → IsLatched fl plants d
      → IsLatched fl plants (trip_protection fl plants d p).0
  unfolding trip_protection
  trip_protection-IsLatched d p h = ground (arith, trip-IsLatched fl plants d p)

  -- What can happen to the device: a frame on some connection, a tick, a forced trip, a new
  -- connection, another load.
  pub data Step : Device fl plants → Device fl plants → Type 0 where
    framed :
        {d : Device fl plants} (now from : ℕ) (f : Frame) → Step d (handle fl plants now d from f).0
    ticked : {d : Device fl plants} (now from : ℕ) → Step d (tick fl plants now d from).0
    tripped : {d : Device fl plants} (p : ℕ) → Step d (trip_protection fl plants d p).0
    attached : {d : Device fl plants} (id : ℕ) → Step d (attach fl plants d id)
    detached : {d : Device fl plants} (id : ℕ) → Step d (detach fl plants d id)
    loaded : {d : Device fl plants} (ohms : fl.Float64) → Step d (record d { load = ohms })

  pub data Reach (start : Device fl plants) : Device fl plants → Type 0 where
    here : Reach start start
    next : {d e : Device fl plants} → Reach start d → Step d e → Reach start e

  Step-IsLatched :
      {d e : Device fl plants} → Step d e → IsLatched fl plants d → IsLatched fl plants e
  unfolding attach detach
  Step-IsLatched (framed {d = d} now from f) h = handle-IsLatched now d from f h
  Step-IsLatched (ticked {d = d} now from) h = tick-IsLatched now d from h
  Step-IsLatched (tripped {d = d} p) h = trip_protection-IsLatched d p h
  Step-IsLatched (attached id) h = h
  Step-IsLatched (detached {d = d} id) h = ground arith
  Step-IsLatched (loaded ohms) h = h

  Reach-IsLatched_from :
      {s d : Device fl plants} → IsLatched fl plants s → Reach s d → IsLatched fl plants d
  Reach-IsLatched_from h here = h
  Reach-IsLatched_from h (next r st) = Step-IsLatched st (Reach-IsLatched_from h r)

  power_on-IsLatched :
      (interval : ℕ) (battery : Option plants.Battery) (dut : Option plants.Dut)
      → IsLatched fl plants (power_on fl plants interval battery dut)
  unfolding power_on
  power_on-IsLatched interval battery dut = inl refl

  -- Whatever frames, ticks, trips, connections and loads the device meets from its power-on state,
  -- its output is off as long as a protection is latched.
  pub Reach-IsLatched :
      (interval : ℕ) (battery : Option plants.Battery) (dut : Option plants.Dut)
      {d : Device fl plants}
      → Reach (power_on fl plants interval battery dut) d
      → IsLatched fl plants d
  Reach-IsLatched interval battery dut r =
      Reach-IsLatched_from (power_on-IsLatched interval battery dut) r

  meter_same :
      (now : ℕ) (d : Device fl plants)
      → (violated fl plants (meter fl plants now d) ≡ violated fl plants d)
        × ((meter fl plants now d).output ≡ d.output)
        × ((meter fl plants now d).protection ≡ d.protection)
  unfolding meter violated measure
  meter_same now d = elim (Bool-cases (not d.metering || not d.output)) [
    | inl e ↦ rw (e, meter) (refl, refl, refl)
    | inr e ↦ rw (e, meter) (refl, refl, refl)
  ]

  tick_session :
      (now : ℕ) (d : Device fl plants) (c : Conn)
      → d.conn ≡ some c
      → c.session ≡ true
      → (tick fl plants now d c.id).0
        ≡ meter fl plants now (refresh fl plants (charge_step fl plants d)).0
  unfolding tick
  tick_session now d c e s = ground arith

  -- After a tick of an open session that leaves the output on, the operating point is within every
  -- threshold and no protection is latched.
  pub tick_guard :
      (now : ℕ) (d : Device fl plants) (c : Conn)
      → IsLatched fl plants d
      → d.conn ≡ some c
      → c.session ≡ true
      → (tick fl plants now d c.id).0.output ≡ true
      → (violated fl plants (tick fl plants now d c.id).0 ≡ Register.protection_ok)
        × ((tick fl plants now d c.id).0.protection ≡ Register.protection_ok)
  tick_guard now d c h e s on =
      let charged = charge_step fl plants d in
      let settled = (refresh fl plants charged).0 in
      let (same, out, prot) = meter_same now settled in
      let on' : settled.output ≡ true = sym out ∙ (rw (tick_session now d c e s) at on) in
      let (fine, clear) = refresh_guard fl plants charged (charge_step-IsLatched d h) on' in
      rw (tick_session now d c e s) (same ∙ fine, prot ∙ clear)
