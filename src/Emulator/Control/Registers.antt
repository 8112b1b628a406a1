-- ===== src/Emulator/Control/Registers.antt =====
-- Writing a float32 register of the emulator and reading it back, alone and in the full dump.
use dps150_web.Base.{ℕ, ◌≡◌, ◌≢◌, ◌∙◌, ap, refl, Bool, true, [], ◌∷◌, some, arith}
use dps150_web.Float.{Floats}
use dps150_web.Protocol.Word.{put_u32}
use dps150_web.Protocol.Register
use dps150_web.Protocol.Frame.{Frame}
use dps150_web.Protocol.Event.{Preset, Event}
use dps150_web.Protocol.Decode.{ok, decode}
use dps150_web.Protocol.Encode.Commands.{write_float, read_all, frame_of}
use dps150_web.Emulator.Device.{Plants, Conn, Device, refresh}
use dps150_web.Emulator.Device.Protection.{switched, refresh_shape}
use dps150_web.Emulator.Dump.{full_dump, f32bytes}
use dps150_web.Emulator.Dump.RoundTrip.{view, decode-full_dump, word_back}
use dps150_web.Emulator.Handle.{
  FloatReg, vset, iset, ovp, ocp, opp, otp, lvp, float_reg, load, store, apply_write, handle_write,
}
use dps150_web.Emulator.Control.{read_register, handle_read, dispatch, handle}

module _ (fl : Floats) (plants : Plants fl) where
  open fl use {Float32, bits}

  -- The frame that writes `v` to the register `reg`.
  abbrev pub write_frame : ℕ → Float32 → Frame
  write_frame reg v = record { group = Register.group_write; reg = reg; payload = put_u32 (bits v) }

  load-store :
      (d : Device fl plants) (r : FloatReg) (v : Float32)
      → load fl plants (store fl plants d r v) r ≡ v
  unfolding load store
  load-store d vset v = refl
  load-store d iset v = refl
  load-store d ovp v = refl
  load-store d ocp v = refl
  load-store d opp v = refl
  load-store d otp v = refl
  load-store d lvp v = refl

  load-store_ne :
      (d : Device fl plants) (r s : FloatReg) (v : Float32)
      → r ≢ s
      → load fl plants (store fl plants d r v) s ≡ load fl plants d s
  unfolding load store
  load-store_ne d r s v h = ground arith

  load-switched :
      (d : Device fl plants) (o : Bool) (p m : ℕ) (r : FloatReg)
      → load fl plants (switched fl plants d o p m) r ≡ load fl plants d r
  unfolding load
  load-switched d o p m vset = refl
  load-switched d o p m _ = refl

  -- The setpoints and thresholds do not change in `refresh`.
  load-refresh :
      (d : Device fl plants) (r : FloatReg)
      → load fl plants (refresh fl plants d).0 r ≡ load fl plants d r
  load-refresh d r = let (o, p, m, e) = refresh_shape fl plants d in rw e (load-switched d o p m r)

  apply_write-float :
      (now : ℕ) (d : Device fl plants) (reg : ℕ) (r : FloatReg) (v : Float32)
      → float_reg reg ≡ some r
      → apply_write fl plants now d (write_frame reg v) ≡ some (store fl plants d r v, [])
  unfolding apply_write
  apply_write-float now d reg r v e = rw (e, apply_write, word_back fl plants v)

  store-presets :
      (d : Device fl plants) (r : FloatReg) (v : Float32)
      → (store fl plants d r v).presets ≡ d.presets
  unfolding store
  store-presets d vset v = refl
  store-presets d _ v = refl

  presets-refresh-store :
      (d : Device fl plants) (r : FloatReg) (v : Float32)
      → (refresh fl plants (store fl plants d r v)).0.presets ≡ d.presets
  presets-refresh-store d r v =
      let (o, p, m, e) = refresh_shape fl plants (store fl plants d r v) in
      ap (λ s. s.presets) e ∙ store-presets d r v

  store-conn :
      (d : Device fl plants) (r : FloatReg) (v : Float32) → (store fl plants d r v).conn ≡ d.conn
  unfolding store
  store-conn d vset v = refl
  store-conn d _ v = refl

  conn-refresh-store :
      (d : Device fl plants) (r : FloatReg) (v : Float32)
      → (refresh fl plants (store fl plants d r v)).0.conn ≡ d.conn
  conn-refresh-store d r v =
      let (o, p, m, e) = refresh_shape fl plants (store fl plants d r v) in
      ap (λ s. s.conn) e ∙ store-conn d r v

  vset-refresh-store :
      (d : Device fl plants) (v : Float32)
      → (refresh fl plants (store fl plants d vset v)).0.vset ≡ v
  unfolding load
  vset-refresh-store d v = load-refresh (store fl plants d vset v) vset ∙ load-store d vset v

  handle_write-float :
      (now : ℕ) (d : Device fl plants) (reg : ℕ) (r : FloatReg) (v : Float32)
      → float_reg reg ≡ some r
      → handle_write fl plants now d (write_frame reg v) ≡ (
        (refresh fl plants (store fl plants d r v)).0,
        (reg, put_u32 (bits v)) ∷ (refresh fl plants (store fl plants d r v)).1,
      )
  unfolding handle_write
  handle_write-float now d reg r v e = rw (apply_write-float now d reg r v e, handle_write)

  read_register-float :
      (d : Device fl plants) (reg : ℕ) (r : FloatReg)
      → float_reg reg ≡ some r
      → read_register fl plants d reg ≡ some (f32bytes fl (load fl plants d r))
  unfolding read_register
  read_register-float d reg r e = rw (e, read_register)

  -- A float32 that the host writes to a writable register is echoed first, and is read back bit
  -- for bit; another writable float32 register keeps its value. So also if the write trips a
  -- protection.
  pub write-read :
      (now : ℕ) (d : Device fl plants) (reg other : ℕ) (r s : FloatReg) (v : Float32)
      → float_reg reg ≡ some r
      → float_reg other ≡ some s
      → r ≢ s
      → let (d', sent) = handle_write fl plants now d (write_frame reg v) in
        (sent ≡ (reg, put_u32 (bits v)) ∷ (refresh fl plants (store fl plants d r v)).1)
        × (read_register fl plants d' reg ≡ some (put_u32 (bits v)))
        × (read_register fl plants d' other ≡ read_register fl plants d other)
  unfolding f32bytes
  write-read now d reg other r s v e e' ne =
      let stored = store fl plants d r v in
      rw (handle_write-float now d reg r v e) (
        refl,
        rw
            (
              read_register-float (refresh fl plants stored).0 reg r e,
              load-refresh stored r,
              load-store d r v,
            )
            refl,
        rw
            (
              read_register-float (refresh fl plants stored).0 other s e',
              read_register-float d other s e',
              load-refresh stored s,
              load-store_ne d r s v ne,
            )
            refl,
      )

  pub dispatched :
      (now : ℕ) (d : Device fl plants) (c : Conn) (f : Frame)
      → d.conn ≡ some c
      → handle fl plants now d c.id f ≡ dispatch fl plants now d c f
  unfolding handle
  dispatched now d c f e = ground arith

  -- A write and a GetAll in an open session.
  handle-write :
      (now : ℕ) (d : Device fl plants) (c : Conn) (reg : ℕ) (r : FloatReg) (v : Float32)
      → d.conn ≡ some c
      → c.session ≡ true
      → float_reg reg ≡ some r
      → (handle fl plants now d c.id (write_frame reg v)).0
        ≡ (refresh fl plants (store fl plants d r v)).0
  unfolding dispatch
  handle-write now d c reg r v e s f =
      rw (dispatched now d c (write_frame reg v) e, s, dispatch, handle_write-float now d reg r v f)
        refl

  handle-read_all :
      (now : ℕ) (d : Device fl plants) (c : Conn)
      → d.conn ≡ some c
      → c.session ≡ true
      → (handle fl plants now d c.id (frame_of fl read_all)).1
        ≡ (Register.reg_all, full_dump fl plants d) ∷ []
  unfolding dispatch frame_of handle_read
  handle-read_all now d c e s = rw (dispatched now d c (frame_of fl read_all) e, s, dispatch) refl

  -- SetVoltage through the wire: the frame that the hub sends to set the voltage `v`, and the
  -- GetAll after it, make an emulated device with an open session answer with a dump that decodes
  -- to the setpoint `v`.
  pub set_voltage_dump :
      (now : ℕ) (d : Device fl plants) (c : Conn) (v : Float32) (p1 p2 p3 p4 p5 p6 : Preset fl)
      → d.conn ≡ some c
      → c.session ≡ true
      → d.presets ≡ p1 ∷ p2 ∷ p3 ∷ p4 ∷ p5 ∷ p6 ∷ []
      → let d' =
          (handle fl plants now d c.id (frame_of fl (write_float Register.reg_voltage_set v))).0 in
        let dump = full_dump fl plants d' in
        ((handle fl plants now d' c.id (frame_of fl read_all)).1 ≡ (Register.reg_all, dump) ∷ [])
        × (decode fl
              (record { group = Register.group_read; reg = Register.reg_all; payload = dump })
            ≡ ok (Event.full_dump (view fl plants d')))
        × ((view fl plants d').voltage_set ≡ v)
  unfolding frame_of
  set_voltage_dump now d c v p1 p2 p3 p4 p5 p6 e s ps =
      let after = (refresh fl plants (store fl plants d vset v)).0 in
      rw (handle-write now d c Register.reg_voltage_set vset v e s (unfold float_reg in refl)) (
        handle-read_all now after c (conn-refresh-store d vset v ∙ e) s,
        decode-full_dump fl plants after Register.group_read p1 p2 p3 p4 p5 p6
            (presets-refresh-store d vset v ∙ ps),
        vset-refresh-store d v,
      )
