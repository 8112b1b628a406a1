-- ===== src/Emulator/Device.antt =====
-- backend/internal/device/emulator/emulator.go: the state of the emulated device, its load model
-- and its protections. A frame that the device sends is its register with its payload; what a
-- function sends stands beside the new state, in order.
pub mod Protection
use dps150_web.Base.{
  ℕ, ◌+◌, ◌-◌, ◌*◌, ◌/◌, ◌%◌, ◌≤◌, Bool, true, false, not, ◌&&◌, ◌||◌, List, [], ◌∷◌, ◌++◌, Option,
  none, some, ltb, leb, ◌==◌, if◌then◌else◌,
}
use dps150_web.Float.{Floats}
use dps150_web.Protocol.Register
use dps150_web.Protocol.Event.{Preset}

-- The battery pack and the passive device under test that can stand on the terminals
-- (battery.go, dut.go): each gives the operating point for the output switch and the setpoints.
pub record Plants (fl : Floats) : Type 1 where
  pub Battery : Type 0
  pub battery_measure :
      Battery → Bool → fl.Float64 → fl.Float64 → fl.Float32 × fl.Float32 × fl.Float32
  pub battery_mode : Battery → fl.Float64 → fl.Float64 → ℕ
  pub battery_advance : Battery → ℕ → fl.Float64 → fl.Float64 → Battery
  pub Dut : Type 0
  pub dut_measure : Dut → Bool → fl.Float64 → fl.Float64 → fl.Float32 × fl.Float32 × fl.Float32
  pub dut_mode : Dut → fl.Float64 → fl.Float64 → ℕ

-- The host's connection; a new one supersedes it.
pub record Conn : Type 0 where
  pub id : ℕ
  pub session : Bool

abbrev pub Sent : Type 0
Sent = List (ℕ × List ℕ)

module _ (fl : Floats) (plants : Plants fl) where
  open fl use {Float32, Float64}
  open plants use {Battery, battery_measure, battery_mode, Dut, dut_measure, dut_mode}

  pub record Device : Type 0 where
    pub interval : ℕ
    pub conn : Option Conn
    pub load : Float64
    pub battery : Option Battery
    pub dut : Option Dut
    pub vset : Float32
    pub iset : Float32
    pub presets : List (Preset fl)
    pub ovp : Float32
    pub ocp : Float32
    pub opp : Float32
    pub otp : Float32
    pub lvp : Float32
    pub brightness : ℕ
    pub volume : ℕ
    pub metering : Bool
    pub capacity : Float64
    pub energy : Float64
    pub last_meter : ℕ
    pub output : Bool
    pub protection : ℕ
    pub mode : ℕ
    pub input_voltage : Float32
    pub temperature : Float32
    pub max_voltage : Float32
    pub max_current : Float32

  -- The resistive load R: CV while Vset/R <= Iset, and CC otherwise.
  resistive : Device → Float32 × Float32 × Float32
  resistive d =
      let volts = fl.widen d.vset in
      let amps = fl.div volts d.load in
      let limit = fl.widen d.iset in
      if fl.lt limit amps
      then (let clipped = fl.mul limit d.load in
          (fl.narrow clipped, fl.narrow limit, fl.narrow (fl.mul clipped limit)))
      else (fl.narrow volts, fl.narrow amps, fl.narrow (fl.mul volts amps))

  unfoldable pub measure : Device → Float32 × Float32 × Float32
  unfolding resistive
  measure d = elim d.battery [
    | some b ↦ battery_measure b d.output (fl.widen d.vset) (fl.widen d.iset)
    | none ↦ elim d.dut [
      | some u ↦ dut_measure u d.output (fl.widen d.vset) (fl.widen d.iset)
      | none ↦ if not d.output then (fl.zero32, fl.zero32, fl.zero32) else resistive d
    ]
  ]

  unfoldable pub current_mode : Device → ℕ
  current_mode d = elim d.battery [
    | some b ↦ battery_mode b (fl.widen d.vset) (fl.widen d.iset)
    | none ↦ elim d.dut [
      | some u ↦ dut_mode u (fl.widen d.vset) (fl.widen d.iset)
      | none ↦
          if fl.le (fl.div (fl.widen d.vset) d.load) (fl.widen d.iset)
          then Register.mode_cv
          else Register.mode_cc
    ]
  ]

  -- The first protection whose threshold is exceeded.
  unfoldable pub violated : Device → ℕ
  violated d =
      let (v, i, p) = measure d in
      if fl.lt32 d.ovp v
      then Register.protection_ovp
      else if fl.lt32 d.ocp i
      then Register.protection_ocp
      else if fl.lt32 d.opp p
      then Register.protection_opp
      else if fl.lt32 d.otp d.temperature
      then Register.protection_otp
      else if fl.lt32 d.input_voltage d.lvp
      then Register.protection_lvp
      else Register.protection_ok

  -- An on-change frame goes to the session, if there is one.
  unfoldable pub push : Device → ℕ → List ℕ → Sent
  push d reg payload = elim d.conn [
    | none ↦ []
    | some c ↦ if c.session then (reg, payload) ∷ [] else []
  ]

  unfoldable pub trip : Device → ℕ → Device × Sent
  trip d p =
      let latched = record d { protection = p } in
      let state = push latched Register.reg_protection_state (p ∷ []) in
      if d.output
      then (let off = record latched { output = false } in
          (off, state ++ push off Register.reg_output_enable (0 ∷ [])))
      else (latched, state)

  refresh_mode : Device → Device × Sent
  refresh_mode d =
      let mode = current_mode d in
      if d.output && not (mode == d.mode)
      then (let changed = record d { mode = mode } in
          (changed, push changed Register.reg_mode (mode ∷ [])))
      else (d, [])

  refresh_protection : Device → Device × Sent
  refresh_protection d =
      let p = violated d in
      if d.protection == Register.protection_ok && not (p == Register.protection_ok)
      then trip d p
      else (d, [])

  unfoldable pub refresh : Device → Device × Sent
  unfolding refresh_mode refresh_protection
  refresh d =
      let (settled, sent) = refresh_mode d in
      let (checked, more) = refresh_protection settled in (checked, sent ++ more)

  -- TripProtection: tripping ProtectionOK is a no-op.
  unfoldable pub trip_protection : Device → ℕ → Device × Sent
  trip_protection d p = if p == Register.protection_ok then (d, []) else trip d p
