-- ===== src/Mqtt/Service.antt =====
-- backend/internal/mqtt/service.go, with the topics of config.go: what the bridge publishes of the hub's updates, and what a
-- command makes it call. `to_upper`, `trim_space` and `print` are strings.ToUpper, strings.TrimSpace and the texts that fmt
-- gives of an unknown mode or protection. The configs of the discovery are one effect.
pub mod Latest
use dps150_web.Base.{
  ℕ, Bool, true, false, not, ◌&&◌, ◌||◌, List, [], ◌∷◌, ◌++◌, Option, none, some, ◌==◌,
  if◌then◌else◌,
}
use Prim.Native.String.{String}
use Prim.Native.String as Str
use text.Mathlib.Text as Text
use dps150_web.Float.{Floats}
use dps150_web.Protocol.Register
use dps150_web.Protocol.Register.{protection_string}
use dps150_web.Hub.State.{
  State, Snapshot, Telemetry, Update, state_snapshot, telemetry, status_change, protection_trip,
  mode_change, output_change, journal_event,
}

pub record Config : Type 0 where
  pub topic_prefix : String
  pub discovery_prefix : String
  pub control : Bool

abbrev pub birth_topic : Config → String
birth_topic c = Str.◌++◌ c.discovery_prefix "/status"

abbrev pub command_topic : Config → String → String
command_topic c name = Str.◌++◌ c.topic_prefix (Str.◌++◌ "/" (Str.◌++◌ name "/set"))

-- Mode.String
abbrev pub mode_string : (ℕ → String) → ℕ → String
mode_string print m =
    if m == Register.mode_cc then "CC" else if m == Register.mode_cv then "CV" else print m

module _ (fl : Floats) where
  open fl use {Float64}

  pub record StatePayload : Type 0 where
    pub voltage : Float64
    pub current : Float64
    pub power : Float64
    pub input_voltage : Float64
    pub temperature : Float64
    pub capacity_ah : Float64
    pub energy_wh : Float64
    pub mode : String
    pub protection : String
    pub output : Bool
    pub connected : Bool
    pub setpoint_voltage : Float64
    pub setpoint_current : Float64

  pub data Effect : Type 0 where
    discovery_published : Effect
    status_published : String → Effect
    state_published : StatePayload → Effect
    subscribed : String → Effect

  pub data Call : Type 0 where
    set_output : Bool → Call
    set_voltage : Float64 → Call
    set_current : Float64 → Call

  pub record Service : Type 0 where
    pub state : StatePayload
    pub log : List Effect

  abbrev pub publish : Service → Effect → Service
  publish s e = record s { log = s.log ++ e ∷ [] }

  abbrev pub is_json_number : Float64 → Bool
  is_json_number v = not (fl.is_nan v || fl.is_inf v)

  -- Whether json.Marshal succeeds: it refuses NaN and the infinities, and takes all else that the payload holds.
  abbrev pub marshals : StatePayload → Bool
  marshals p =
      is_json_number p.voltage
      && is_json_number p.current
      && is_json_number p.power
      && is_json_number p.input_voltage
      && is_json_number p.temperature
      && is_json_number p.capacity_ah
      && is_json_number p.energy_wh
      && is_json_number p.setpoint_voltage
      && is_json_number p.setpoint_current

  unfoldable pub publish_state : Service → Service
  publish_state s = if marshals s.state then publish s (state_published s.state) else s

  module _ (print : ℕ → String) where
    unfoldable pub apply_telemetry : Telemetry fl → StatePayload → StatePayload
    apply_telemetry t p = record p {
      voltage = t.voltage;
      current = t.current;
      power = t.power;
      input_voltage = t.input_voltage;
      temperature = t.temperature;
      capacity_ah = t.capacity_ah;
      energy_wh = t.energy_wh;
      mode = mode_string print t.mode;
      protection = protection_string print t.protection;
      output = t.output_on;
    }

    abbrev pub apply_state : State fl → StatePayload → StatePayload
    apply_state st p = record p {
      voltage = st.voltage;
      current = st.current;
      power = st.power;
      input_voltage = st.input_voltage;
      temperature = st.temperature;
      capacity_ah = st.capacity_ah;
      energy_wh = st.energy_wh;
      mode = mode_string print st.mode;
      protection = protection_string print st.protection;
      output = st.output_on;
      setpoint_voltage = st.set_voltage;
      setpoint_current = st.set_current;
    }

    unfoldable pub apply_snapshot : Snapshot fl → StatePayload → StatePayload
    apply_snapshot x p =
        let linked : StatePayload = record p { connected = x.connected } in
        elim x.state [ none ↦ linked | some st ↦ apply_state st linked ]

    unfoldable pub handle_update : Service → Update fl → Service
    unfolding apply_telemetry apply_snapshot publish_state
    handle_update s (telemetry t) = publish_state (record s { state = apply_telemetry t s.state })
    handle_update s (state_snapshot x) =
        publish_state (record s { state = apply_snapshot x s.state })
    handle_update s (status_change on _) =
        publish_state (record s { state = record s.state { connected = on } })
    handle_update s (protection_trip _ _) = s
    handle_update s (mode_change _ _) = s
    handle_update s (output_change _ _) = s
    handle_update s (journal_event _ _) = s

    unfoldable pub handle_updates : Service → List (Update fl) → Service
    unfolding handle_update
    handle_updates s [] = s
    handle_updates s (u ∷ us) = handle_updates (handle_update s u) us

    -- The seed of availability and state, with the hub's snapshot.
    unfoldable pub announce : Snapshot fl → Service → Service
    unfolding apply_snapshot publish_state
    announce x s = publish_state (record s { state = apply_snapshot x s.state })

    abbrev pub subscribe_commands : Config → Service → Service
    subscribe_commands cfg s =
        publish
          (publish (publish s (subscribed (command_topic cfg "output")))
            (subscribed (command_topic cfg "voltage")))
          (subscribed (command_topic cfg "current"))

    abbrev pub online : Service → Service
    online s = publish (publish s discovery_published) (status_published "online")

    unfoldable pub on_connect : Config → Snapshot fl → Service → Service
    unfolding announce
    on_connect cfg x s =
        let told = online s in
        let listening = if cfg.control then subscribe_commands cfg told else told in
        announce x (publish listening (subscribed (birth_topic cfg)))

    module _ (to_upper trim_space : String → String) where
      -- `equal_fold` is strings.EqualFold.
      unfoldable pub handle_birth :
          (String → String → Bool) → String → Snapshot fl → Service → Service
      unfolding announce
      handle_birth equal_fold payload x s =
          if equal_fold (trim_space payload) "online" then announce x (online s) else s

      unfoldable pub parse_on_off : String → Option Bool
      parse_on_off v =
          let t = to_upper (trim_space v) in
          if Text.◌==◌ t "ON" || Text.◌==◌ t "1" || Text.◌==◌ t "TRUE"
          then some true
          else if Text.◌==◌ t "OFF" || Text.◌==◌ t "0" || Text.◌==◌ t "FALSE"
          then some false
          else none

      -- The call of the hub that a command makes, if any.
      unfoldable pub handle_command : Config → String → String → Option Call
      unfolding parse_on_off
      handle_command cfg topic payload =
          let value = trim_space payload in
          if Text.◌==◌ topic (command_topic cfg "output")
          then elim (parse_on_off value) [ none ↦ none | some on ↦ some (set_output on) ]
          else if Text.◌==◌ topic (command_topic cfg "voltage")
          then elim (fl.parse value) [ none ↦ none | some v ↦ some (set_voltage v) ]
          else if Text.◌==◌ topic (command_topic cfg "current")
          then elim (fl.parse value) [ none ↦ none | some v ↦ some (set_current v) ]
          else none
