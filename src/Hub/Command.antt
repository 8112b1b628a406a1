-- ===== src/Hub/Command.antt =====
-- The commands of backend/internal/device/hub.go. Go's `error` is an option, `none` being nil. What
-- the transport and the context do while a frame is written is the argument `env`, which gives the
-- outcome of each write in turn. No other step of the hub is taken between the begin and the end of
-- a command here.
pub mod Laws
pub mod Protections
pub mod Handshake
use dps150_web.Base.{
  ℕ, suc, ◌+◌, ◌-◌, ◌*◌, Bool, true, false, not, ◌&&◌, ◌||◌, List, [], ◌∷◌, ◌++◌, Option, none,
  some, ltb, set, ◌==◌, if◌then◌else◌,
}
use dps150_web.Float.{Floats}
use dps150_web.Protocol.Register
use dps150_web.Protocol.Register.{preset_regs}
use dps150_web.Protocol.Encode.Commands.{
  Command, write_float, write_byte, read, read_all, enable, baud,
}
use dps150_web.Hub.State.{Preset, State, Snapshot, limits}
use dps150_web.Hub.Apply.{Hub, snapshot_locked, drop_conn, update_state}

-- A write ends by itself, or the transport refuses it, or it outlasts the write timeout, or the
-- caller's context is cancelled while it is under way or while the hub waits for its turn. The
-- Boolean says whether the context is cancelled by the time that the error is looked at.
pub data Outcome : Type 0 where
  written : Outcome
  refused : Bool → Outcome
  stalled : Bool → Outcome
  cancelled_writing : Outcome
  cancelled_pacing : Outcome

pub data CommandError : Type 0 where
  context_error : CommandError
  offline : CommandError
  invalid_setpoint : CommandError

module _ (fl : Floats) where
  open fl use {Float64}

  -- The hub afterwards, the frames that went out, and the error.
  abbrev pub Reply : Type 0
  Reply = Hub fl × List (Command fl) × Option CommandError

  after_error : Bool → CommandError
  after_error true = context_error
  after_error false = offline

  -- The loop of `write` over the frames, with the outcomes of writeConn.
  unfoldable pub write_frames : Hub fl → ℕ → List (Command fl) → (ℕ → Outcome) → Reply
  unfolding after_error
  write_frames h conn [] env = (h, [], none)
  write_frames h conn (f ∷ fs) env =
      let (h', sent, e) = write_frames h conn fs (λ n. env (suc n)) in
      let rest : Reply = (h', f ∷ sent, e) in
      elim (env 0) [
        | written ↦ rest
        | refused done ↦ (h, [], some (after_error done))
        | stalled done ↦ (drop_conn fl h conn, [], some (after_error done))
        | cancelled_writing ↦ (drop_conn fl h conn, [], some context_error)
        | cancelled_pacing ↦ (h, [], some context_error)
      ]

  unfoldable pub write : Hub fl → List (Command fl) → (ℕ → Outcome) → Reply
  write h frames env = elim h.conn [
    | none ↦ (h, [], some offline)
    | some conn ↦ if not h.connected then (h, [], some offline) else write_frames h conn frames env
  ]

  -- The session's first writes, which wait for no answer. The kind of an error is only logged.
  abbrev pub handshake_frames : List (Command fl)
  handshake_frames =
      enable
      ∷ baud Register.baud_115200
      ∷ read Register.reg_model_name
      ∷ read Register.reg_hardware_version
      ∷ read Register.reg_firmware_version
      ∷ read_all
      ∷ write_byte Register.reg_metering_enable 1
      ∷ []

  unfoldable pub handshake : Hub fl → ℕ → (ℕ → Outcome) → Reply
  unfolding write_frames
  handshake h conn env = write_frames h conn handshake_frames env

  -- A successful write is followed by a change of the cache, if there is one.
  unfoldable pub write_then :
      Hub fl → List (Command fl) → (ℕ → Outcome) → (State fl → State fl) → Reply
  write_then h frames env change =
      let (h', sent, e) = write h frames env in
      elim e [ some x ↦ (h', sent, some x) | none ↦ (update_state fl h' change, sent, none) ]

  abbrev pub outside : Float64 → Float64 → Bool
  outside v hi = fl.lt v fl.zero64 || fl.lt hi v

  -- `cancelled`: the context's error at entry.
  unfoldable pub set_voltage : Hub fl → Bool → Float64 → (ℕ → Outcome) → ℕ → Reply
  set_voltage h cancelled volts env now =
      if cancelled
      then (h, [], some context_error)
      else (if outside volts (limits fl (snapshot_locked fl h)).0
          then (h, [], some invalid_setpoint)
          else write_then h (write_float Register.reg_voltage_set (fl.narrow volts) ∷ read_all ∷ [])
              env (λ st. record st { set_voltage = volts; updated_at = now }))

  unfoldable pub set_current : Hub fl → Bool → Float64 → (ℕ → Outcome) → ℕ → Reply
  set_current h cancelled amps env now =
      if cancelled
      then (h, [], some context_error)
      else (if outside amps (limits fl (snapshot_locked fl h)).1
          then (h, [], some invalid_setpoint)
          else write_then h (write_float Register.reg_current_set (fl.narrow amps) ∷ read_all ∷ [])
              env (λ st. record st { set_current = amps; updated_at = now }))

  unfoldable pub set_output : Hub fl → Bool → Bool → (ℕ → Outcome) → Reply
  set_output h cancelled on env =
      if cancelled
      then (h, [], some context_error)
      else write h (write_byte Register.reg_output_enable (if on then 1 else 0) ∷ read_all ∷ []) env

  unfoldable pub refresh : Hub fl → Bool → (ℕ → Outcome) → Reply
  refresh h cancelled env =
      if cancelled then (h, [], some context_error) else write h (read_all ∷ []) env

  -- Positive, or not negative, and still finite as a float32.
  unfoldable pub finite_in_range : Float64 → Bool → Bool
  finite_in_range v allow_zero =
      if fl.is_nan v || fl.is_inf (fl.widen (fl.narrow v))
      then false
      else (if allow_zero then fl.le fl.zero64 v else fl.lt fl.zero64 v)

  pub record ProtectionLimits : Type 0 where
    pub ovp : Option Float64
    pub ocp : Option Float64
    pub opp : Option Float64
    pub otp : Option Float64
    pub lvp : Option Float64

  pub record Field : Type 0 where
    pub reg : ℕ
    pub value : Option Float64
    pub allow_zero : Bool

  unfoldable pub fields : ProtectionLimits → List Field
  fields l =
      record { reg = Register.reg_ovp; value = l.ovp; allow_zero = false }
      ∷ record { reg = Register.reg_ocp; value = l.ocp; allow_zero = false }
      ∷ record { reg = Register.reg_opp; value = l.opp; allow_zero = false }
      ∷ record { reg = Register.reg_otp; value = l.otp; allow_zero = false }
      ∷ record { reg = Register.reg_lvp; value = l.lvp; allow_zero = true }
      ∷ []

  -- The loop over the fields; `none` is the return at a bad value.
  unfoldable pub protection_frames : List Field → List (Command fl) → Option (List (Command fl))
  protection_frames [] frames = some frames
  protection_frames (f ∷ fs) frames = elim f.value [
    | none ↦ protection_frames fs frames
    | some v ↦
        if not (finite_in_range v f.allow_zero)
        then none
        else protection_frames fs (frames ++ write_float f.reg (fl.narrow v) ∷ [])
  ]

  abbrev pub or_old : Option Float64 → Float64 → Float64
  or_old none old = old
  or_old (some v) old = v

  unfoldable pub set_protections : Hub fl → Bool → ProtectionLimits → (ℕ → Outcome) → ℕ → Reply
  set_protections h cancelled l env now =
      if cancelled then (h, [], some context_error) else elim (protection_frames (fields l) []) [
        | none ↦ (h, [], some invalid_setpoint)
        | some [] ↦ (h, [], some invalid_setpoint)
        | some (f ∷ fs) ↦ write_then h ((f ∷ fs) ++ read_all ∷ []) env (λ st. record st {
          ovp = or_old l.ovp st.ovp;
          ocp = or_old l.ocp st.ocp;
          opp = or_old l.opp st.opp;
          otp = or_old l.otp st.otp;
          lvp = or_old l.lvp st.lvp;
          updated_at = now;
        })
      ]

  unfoldable pub set_preset : Hub fl → Bool → ℕ → Float64 → Float64 → (ℕ → Outcome) → ℕ → Reply
  set_preset h cancelled slot volts amps env now =
      if cancelled then (h, [], some context_error) else elim (preset_regs slot) [
        | none ↦ (h, [], some invalid_setpoint)
        | some (v_reg, i_reg) ↦
            if not (finite_in_range volts true) || not (finite_in_range amps true)
            then (h, [], some invalid_setpoint)
            else write_then h
                (write_float v_reg (fl.narrow volts)
                  ∷ write_float i_reg (fl.narrow amps)
                  ∷ read_all
                  ∷ [])
                env
                (λ st. record st {
                  presets = set st.presets (slot - 1) (record { voltage = volts; current = amps });
                  updated_at = now;
                })
      ]
