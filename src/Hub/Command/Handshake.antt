-- ===== src/Hub/Command/Handshake.antt =====
-- The handshake of hub.go against the emulated device of emulator.go, over one link.
use dps150_web.Base.{
  ℕ, ◌≡◌, ◌∙◌, refl, ap, true, false, List, [], ◌∷◌, map, some, arith, inl, inr, Bool-cases, ◌==◌,
}
use dps150_web.Float.{Floats}
use dps150_web.Protocol.Register
use dps150_web.Protocol.Frame.{Frame}
use dps150_web.Protocol.Event.{Preset}
use dps150_web.Protocol.Encode.Commands.{enable, baud, read, read_all, write_byte, frame_of}
use dps150_web.Emulator.Device.{Plants, Conn, Device, refresh}
use dps150_web.Emulator.Device.Protection.{refresh_shape}
use dps150_web.Emulator.Dump
use dps150_web.Emulator.Dump.RoundTrip.{decode-full_dump}
use dps150_web.Emulator.Handle
use dps150_web.Emulator.Handle.{set_metering, apply_write, handle_write, float_reg}
use dps150_web.Emulator.Control.{
  handle, handle_all, handle_read, is_metering_command, handle_session, dispatch, set_session,
}
use dps150_web.Emulator.Control.Registers.{dispatched}
use dps150_web.Hub.Apply.{Hub, handle_frames}
use dps150_web.Hub.Apply.Connected.{rx_frame, HasDump, now, HasDump-append, handle_frames-HasDump}
use dps150_web.Hub.Command.{handshake_frames}

module _ (fl : Floats) (plants : Plants fl) where
  handle-read_state :
      (t : ℕ) (d : Device fl plants) (c : Conn) (reg : ℕ)
      → d.conn ≡ some c
      → c.session ≡ true
      → (reg == Register.reg_all) ≡ false
      → (handle fl plants t d c.id (frame_of fl (read reg))).0 ≡ d
  unfolding dispatch frame_of handle_read is_metering_command
  handle-read_state t d c reg e s n =
      rw (dispatched fl plants t d c (frame_of fl (read reg)) e, s, dispatch) (ground arith)

  handle-baud :
      (t : ℕ) (d : Device fl plants) (c : Conn) (b : ℕ)
      → d.conn ≡ some c
      → (handle fl plants t d c.id (frame_of fl (baud b))).0 ≡ d
  unfolding dispatch frame_of
  handle-baud t d c b e = rw (dispatched fl plants t d c (frame_of fl (baud b)) e, dispatch) refl

  handle-read_all :
      (t : ℕ) (d : Device fl plants) (c : Conn)
      → d.conn ≡ some c
      → c.session ≡ true
      → handle fl plants t d c.id (frame_of fl read_all)
        ≡ (d, (Register.reg_all, Dump.full_dump fl plants d) ∷ [])
  unfolding dispatch frame_of handle_read
  handle-read_all t d c e s =
      rw (dispatched fl plants t d c (frame_of fl read_all) e, s, dispatch) refl

  -- The write of handshake that starts the metering, and the session's begin.
  handle-metering :
      (t : ℕ) (d : Device fl plants) (c : Conn)
      → d.conn ≡ some c
      → c.session ≡ true
      → (handle fl plants t d c.id (frame_of fl (write_byte Register.reg_metering_enable 1))).0
        ≡ (refresh fl plants (set_metering fl plants t d true)).0
  unfolding dispatch frame_of handle_write apply_write float_reg Handle.write_byte
  handle-metering t d c e s =
      rw
        (
          dispatched fl plants t d c (frame_of fl (write_byte Register.reg_metering_enable 1)) e,
          s,
          dispatch,
        )
        refl

  refresh-kept :
      (d : Device fl plants)
      → let d' = (refresh fl plants d).0 in
        (d'.conn ≡ d.conn) × (d'.presets ≡ d.presets) × (d'.metering ≡ d.metering)
  refresh-kept d = let (o, p, m, e) = refresh_shape fl plants d in rw e (refl, refl, refl)

  handle-enable :
      (t : ℕ) (d : Device fl plants) (c : Conn)
      → d.conn ≡ some c
      → let d' = (handle fl plants t d c.id (frame_of fl enable)).0 in
        (d'.conn ≡ some (record c { session = true })) × (d'.presets ≡ d.presets)
  unfolding dispatch frame_of handle_session set_session
  handle-enable t d c e = elim (Bool-cases c.session) [
    | inl s ↦
        rw (dispatched fl plants t d c (frame_of fl enable) e, s, dispatch, handle_session)
          (e ∙ ap (λ b. some (record c { session = b })) s, refl)
    | inr s ↦
        let opened : Device fl plants = record (set_session fl plants d c true) {
          last_meter = t;
        } in
        let (kept, same, _) = refresh-kept opened in
        rw (dispatched fl plants t d c (frame_of fl enable) e, s, dispatch, handle_session)
          (kept, same)
  ]

  set_metering-kept :
      (t : ℕ) (d : Device fl plants)
      → let d' = set_metering fl plants t d true in
        (d'.conn ≡ d.conn) × (d'.presets ≡ d.presets) × (d'.metering ≡ true)
  unfolding set_metering
  set_metering-kept t d = ground arith

  handle-metering_kept :
      (t : ℕ) (d : Device fl plants) (c : Conn)
      → d.conn ≡ some c
      → c.session ≡ true
      → let d' =
          (handle fl plants t d c.id (frame_of fl (write_byte Register.reg_metering_enable 1))).0 in
        (d'.conn ≡ d.conn) × (d'.metering ≡ true)
  handle-metering_kept t d c e s =
      let metered = set_metering fl plants t d true in
      let (k1, _, m1) = refresh-kept metered in
      let (k2, _, m2) = set_metering-kept t d in rw (handle-metering t d c e s) (k1 ∙ k2, m1 ∙ m2)

  -- The frames bring a dump to the host, and leave the device metering and on its connection.
  abbrev Reaches : ℕ → Device fl plants → Conn → List Frame → Type 0
  Reaches t d c fs =
      let (d', sent) = handle_all fl plants t d c.id fs in
      HasDump fl sent × (d'.metering ≡ true) × (d'.conn ≡ some c)

  -- A frame that does not change the device.
  Reaches-unchanged :
      (t : ℕ) (d : Device fl plants) (c : Conn) (f : Frame) (fs : List Frame)
      → (handle fl plants t d c.id f).0 ≡ d
      → Reaches t d c fs
      → Reaches t d c (f ∷ fs)
  unfolding handle_all
  Reaches-unchanged t d c f fs e (dump, on, link) =
      rw e (HasDump-append fl (handle fl plants t d c.id f).1 dump, on, link)

  Reaches-last :
      (t : ℕ) (d : Device fl plants) (c : Conn) (p1 p2 p3 p4 p5 p6 : Preset fl)
      → d.conn ≡ some c
      → c.session ≡ true
      → d.presets ≡ p1 ∷ p2 ∷ p3 ∷ p4 ∷ p5 ∷ p6 ∷ []
      → Reaches t d c
          (frame_of fl read_all ∷ frame_of fl (write_byte Register.reg_metering_enable 1) ∷ [])
  unfolding handle_all
  Reaches-last t d c p1 p2 p3 p4 p5 p6 e s ps =
      let (link, on) = handle-metering_kept t d c e s in
      let dump = decode-full_dump fl plants d Register.group_read p1 p2 p3 p4 p5 p6 ps in
      rw (handle-read_all t d c e s) (now _ _ dump, on, link ∙ e)

  Reaches-opened :
      (t : ℕ) (d : Device fl plants) (c : Conn) (p1 p2 p3 p4 p5 p6 : Preset fl)
      → d.conn ≡ some c
      → c.session ≡ true
      → d.presets ≡ p1 ∷ p2 ∷ p3 ∷ p4 ∷ p5 ∷ p6 ∷ []
      → Reaches t d c (
          frame_of fl (baud Register.baud_115200)
          ∷ frame_of fl (read Register.reg_model_name)
          ∷ frame_of fl (read Register.reg_hardware_version)
          ∷ frame_of fl (read Register.reg_firmware_version)
          ∷ frame_of fl read_all
          ∷ frame_of fl (write_byte Register.reg_metering_enable 1)
          ∷ [])
  Reaches-opened t d c p1 p2 p3 p4 p5 p6 e s ps =
      Reaches-unchanged t d c _ _ (handle-baud t d c Register.baud_115200 e) (
        Reaches-unchanged t d c _ _ (handle-read_state t d c Register.reg_model_name e s refl) (
          Reaches-unchanged t d c _ _
            (handle-read_state t d c Register.reg_hardware_version e s refl)
            (Reaches-unchanged t d c _ _
              (handle-read_state t d c Register.reg_firmware_version e s refl)
              (Reaches-last t d c p1 p2 p3 p4 p5 p6 e s ps))))

  -- An emulated device that hears the handshake on its connection, whether or not a session was
  -- open before, ends with an open session and with the metering on; and a hub in any state that
  -- receives its answers is connected after them. The device has its six presets.
  pub handshake_connects :
      (t u : ℕ) (d : Device fl plants) (c : Conn) (h : Hub fl) (p1 p2 p3 p4 p5 p6 : Preset fl)
      → d.conn ≡ some c
      → d.presets ≡ p1 ∷ p2 ∷ p3 ∷ p4 ∷ p5 ∷ p6 ∷ []
      → let (d', sent) = handle_all fl plants t d c.id (map (frame_of fl) (handshake_frames fl)) in
        ((handle_frames fl h (map (rx_frame fl) sent) u).0.connected ≡ true)
        × (d'.metering ≡ true)
        × (d'.conn ≡ some (record c { session = true }))
  unfolding handle_all
  handshake_connects t u d c h p1 p2 p3 p4 p5 p6 e ps =
      let first = handle fl plants t d c.id (frame_of fl enable) in
      let (link, same) = handle-enable t d c e in
      let (dump, on, last) =
        Reaches-opened t first.0 (record c { session = true }) p1 p2 p3 p4 p5 p6 link refl
          (same ∙ ps) in
      (handle_frames-HasDump fl h u (HasDump-append fl first.1 dump), on, last)
