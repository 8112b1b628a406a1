-- ===== src/Hub/Apply.antt =====
-- backend/internal/device/apply.go, and of hub.go the session's begin and end and the snapshot:
-- how a decoded event changes the cache, and what is broadcast. The mutex h.mu makes each of
-- these functions one step. What a function broadcasts stands beside the new hub, in order.
pub mod Invariant
pub mod Mirror
pub mod Connected
use dps150_web.Base.{
  ℕ, Bool, true, false, not, ◌&&◌, List, [], ◌∷◌, ◌++◌, map, Option, none, some, ◌==◌,
  if◌then◌else◌,
}
use Prim.Native.String.{String}
use dps150_web.Float.{Floats}
use dps150_web.Protocol.Register
use dps150_web.Protocol.Event.{
  Event, FullDump, InfoField, info_model_name, info_hardware_version, info_firmware_version,
  measurement, input_voltage, temperature, max_voltage, max_current, voltage_set, current_set,
  output_state, protection_state, cccv_mode, capacity, energy, device_info, full_dump,
}
use dps150_web.Protocol.Frame.{Frame}
use dps150_web.Protocol.Decode.{Result, ok, err, panic, decode}
use dps150_web.Hub.State.{
  Info, Preset, State, zero_state, Snapshot, f64, Update, state_snapshot, telemetry, status_change,
  protection_trip, mode_change, output_change,
}

abbrev pub bool_eq : Bool → Bool → Bool
bool_eq true b = b
bool_eq false b = not b

module _ (fl : Floats) where
  -- The part of Hub that h.mu guards; `first_dump` says that the session still waits for its first
  -- full dump, and `conn` names the session's transport.
  pub record Hub : Type 0 where
    pub transport : String
    pub conn : Option ℕ
    pub connected : Bool
    pub first_dump : Bool
    pub info : Option Info
    pub state : Option (State fl)

  abbrev pub Updates : Type 0
  Updates = List (Update fl)

  unfoldable pub snapshot_locked : Hub → Snapshot fl
  snapshot_locked h = record {
    connected = h.connected;
    transport = h.transport;
    info = h.info;
    state = h.state;
  }

  -- The cached state, created on first use.
  unfoldable pub state_locked : Hub → State fl
  state_locked h = elim h.state [ none ↦ zero_state fl | some st ↦ st ]

  -- `h.state != nil && differs`
  abbrev pub known : Hub → (State fl → Bool) → Bool
  known h differs = elim h.state [ none ↦ false | some st ↦ differs st ]

  abbrev pub keep : Hub → State fl → Hub
  keep h st = record h { state = some st }

  state_of_dump : FullDump fl → ℕ → State fl
  state_of_dump d now =
      let f = f64 fl in
      record {
        output_on = d.output_on;
        mode = d.mode;
        protection = d.protection;
        set_voltage = f d.voltage_set;
        set_current = f d.current_set;
        voltage = f d.output_voltage;
        current = f d.output_current;
        power = f d.output_power;
        input_voltage = f d.input_voltage;
        temperature = f d.temperature;
        max_voltage = f d.max_voltage;
        max_current = f d.max_current;
        capacity_ah = f d.capacity;
        energy_wh = f d.energy;
        ovp = f d.ovp;
        ocp = f d.ocp;
        opp = f d.opp;
        otp = f d.otp;
        lvp = f d.lvp;
        presets = map (λ p. record { voltage = f p.voltage; current = f p.current }) d.presets;
        brightness = d.brightness;
        volume = d.volume;
        updated_at = now;
      }

  -- The change events of a full dump, against the state before it.
  changes : State fl → FullDump fl → ℕ → Updates
  changes prev d now =
      (if bool_eq prev.output_on d.output_on then [] else output_change d.output_on now ∷ [])
      ++ (if prev.mode == d.mode then [] else mode_change d.mode now ∷ [])
      ++ (if not (prev.protection == d.protection) && not (d.protection == Register.protection_ok)
          then protection_trip d.protection now ∷ []
          else [])

  unfoldable pub apply_dump : Hub → FullDump fl → ℕ → Hub × Updates
  unfolding state_of_dump changes snapshot_locked
  apply_dump h d now =
      let h' = record h {
        state = some (state_of_dump d now);
        connected = true;
        first_dump = false;
      } in
      let joined : Updates = if h.connected then [] else status_change true h.transport ∷ [] in
      let changed : Updates = elim h.state [ none ↦ [] | some prev ↦ changes prev d now ] in
      (h', joined ++ changed ++ state_snapshot (snapshot_locked h') ∷ [])

  unfoldable pub apply_info : Hub → InfoField → List ℕ → Hub
  apply_info h field value =
      let info : Info = elim h.info [
        | none ↦ record { model = []; hardware = []; firmware = [] }
        | some i ↦ i
      ] in
      record h {
        info = some (elim field [
          | info_model_name ↦ record info { model = value }
          | info_hardware_version ↦ record info { hardware = value }
          | info_firmware_version ↦ record info { firmware = value }
        ]);
      }

  unfoldable pub apply : Hub → Event fl → ℕ → Hub × Updates
  unfolding state_locked apply_info
  apply h (measurement v i p) now =
      let st = record (state_locked h) {
        voltage = f64 fl v;
        current = f64 fl i;
        power = f64 fl p;
        updated_at = now;
      } in
      (
        keep h st,
        telemetry (record {
          voltage = st.voltage;
          current = st.current;
          power = st.power;
          input_voltage = st.input_voltage;
          temperature = st.temperature;
          mode = st.mode;
          protection = st.protection;
          output_on = st.output_on;
          capacity_ah = st.capacity_ah;
          energy_wh = st.energy_wh;
          ts = now;
        })
            ∷ [],
      )
  apply h (input_voltage v) now =
      (keep h (record (state_locked h) { input_voltage = f64 fl v; updated_at = now }), [])
  apply h (temperature v) now =
      (keep h (record (state_locked h) { temperature = f64 fl v; updated_at = now }), [])
  apply h (voltage_set v) now =
      (keep h (record (state_locked h) { set_voltage = f64 fl v; updated_at = now }), [])
  apply h (current_set v) now =
      (keep h (record (state_locked h) { set_current = f64 fl v; updated_at = now }), [])
  apply h (max_voltage v) now =
      (keep h (record (state_locked h) { max_voltage = f64 fl v; updated_at = now }), [])
  apply h (max_current v) now =
      (keep h (record (state_locked h) { max_current = f64 fl v; updated_at = now }), [])
  apply h (capacity v) now =
      (keep h (record (state_locked h) { capacity_ah = f64 fl v; updated_at = now }), [])
  apply h (energy v) now =
      (keep h (record (state_locked h) { energy_wh = f64 fl v; updated_at = now }), [])
  apply h (output_state on) now = (
    keep h (record (state_locked h) { output_on = on; updated_at = now }),
    if known h (λ st. not (bool_eq st.output_on on)) then output_change on now ∷ [] else [],
  )
  apply h (protection_state p) now = (
    keep h (record (state_locked h) { protection = p; updated_at = now }),
    if known h (λ st. not (st.protection == p)) && not (p == Register.protection_ok)
        then protection_trip p now ∷ []
        else [],
  )
  apply h (cccv_mode m) now = (
    keep h (record (state_locked h) { mode = m; updated_at = now }),
    if known h (λ st. not (st.mode == m)) then mode_change m now ∷ [] else [],
  )
  apply h (device_info field value) now = (apply_info h field value, [])
  apply h (full_dump d) now = apply_dump h d now

  -- One received frame: a frame that does not decode is dropped. Where the
  -- decoder would panic, the hub is left as it is.
  unfoldable pub handle_frame : Hub → Frame → ℕ → Hub × Updates
  handle_frame h f now = elim (decode fl f) [
    | ok ev ↦ apply h ev now
    | err e ↦ (h, [])
    | panic ↦ (h, [])
  ]

  -- The frames that one read brings, in turn.
  unfoldable pub handle_frames : Hub → List Frame → ℕ → Hub × Updates
  unfolding handle_frame
  handle_frames h [] now = (h, [])
  handle_frames h (f ∷ fs) now =
      let (k, us) = handle_frame h f now in
      let (last, vs) = handle_frames k fs now in (last, us ++ vs)

  -- The begin of a session on the transport `id`, and its deferred end.
  unfoldable pub open_session : Hub → ℕ → Hub × Updates
  open_session h id = (record h { conn = some id; first_dump = true }, [])

  unfoldable pub close_session : Hub → Hub × Updates
  close_session h = (
    record h { conn = none; first_dump = false; connected = false },
    if h.connected then status_change false h.transport ∷ [] else [],
  )

  unfoldable pub drop_conn : Hub → ℕ → Hub
  drop_conn h id = elim h.conn [
    | none ↦ h
    | some c ↦ if c == id then record h { conn = none } else h
  ]

  -- `if h.state != nil { … }` after a successful command.
  unfoldable pub update_state : Hub → (State fl → State fl) → Hub
  update_state h change = elim h.state [
    | none ↦ h
    | some st ↦ record h { state = some (change st) }
  ]

  -- NewHub
  unfoldable pub new_hub : String → Hub
  new_hub transport = record {
    transport = transport;
    conn = none;
    connected = false;
    first_dump = false;
    info = none;
    state = none;
  }
