-- ===== src/Notify/Service.antt =====
-- backend/internal/notify/notifier.go and metering.go: what the notifier does with the hub's updates. A message is what it
-- says, before the throttle. Times are in nanoseconds.
pub mod Metering
pub mod Independence
use dps150_web.Base.{
  ℕ, Bool, true, false, not, ◌&&◌, List, [], ◌∷◌, ◌++◌, Option, none, some, if◌then◌else◌,
}
use Prim.Native.String.{String}
use dps150_web.Float.{Floats}
use dps150_web.Hub.State.{
  State, Update, state_snapshot, telemetry, status_change, protection_trip, mode_change,
  output_change, journal_event,
}
use dps150_web.Notify.Settings.{
  Kind, device_link, metering_session, Settings, default_settings, enabled, Loaded, load_settings,
}
use dps150_web.Notify.Settings

-- Whether a sender is configured, and whether there is a journal and a store of settings.
pub record Config : Type 0 where
  pub configured : Bool
  pub journaling : Bool
  pub storing : Bool

module _ (fl : Floats) where
  open fl use {Float64}

  pub record MeterSession : Type 0 where
    pub start_ts : ℕ
    pub start_ah : Float64
    pub start_wh : Float64

  -- The duration is that from the one time to the other, in milliseconds.
  pub record MeteringSessionData : Type 0 where
    pub capacity_ah : Float64
    pub energy_wh : Float64
    pub start_ts : ℕ
    pub end_ts : ℕ

  -- A trip with the measurement of the cache, if there is one.
  pub data Message : Type 0 where
    tripped : ℕ → Option (Float64 × Float64 × Float64) → Message
    link_restored : String → Message
    link_lost : String → Message
    output_on : Message
    output_off : Message
    session_over : MeteringSessionData → Message

  pub data Effect : Type 0 where
    journaled : MeteringSessionData → Effect
    mirrored : MeteringSessionData → Effect
    notified : Kind → Message → Effect

  -- The fields that the loop touches, and what it has done.
  pub record Service : Type 0 where
    pub saw_disconnect : Bool
    pub last_settings : Settings
    pub session : Option MeterSession
    pub log : List Effect

  -- New
  abbrev pub fresh : Service
  fresh = record {
    saw_disconnect = false;
    last_settings = default_settings;
    session = none;
    log = [];
  }

  -- What one update meets: the time, the states of the hub's cache that the first and the second snapshot show, and what
  -- the first and the second load of the settings come to.
  pub record Moment : Type 0 where
    pub now : ℕ
    pub first : Option (State fl)
    pub second : Option (State fl)
    pub loaded : Loaded
    pub reloaded : Loaded

  abbrev pub log_effect : Service → Effect → Service
  log_effect s e = record s { log = s.log ++ e ∷ [] }

  -- The settings, with the service that remembers them.
  unfoldable pub current_settings :
      Config → (String → Option Settings) → Loaded → Service → Service × Settings
  unfolding load_settings
  current_settings cfg unmarshal loaded s =
      if not cfg.storing then (s, s.last_settings) else elim (load_settings unmarshal loaded) [
        | none ↦ (s, s.last_settings)
        | some new ↦ (record s { last_settings = new }, new)
      ]

  unfoldable pub notify :
      Config → (String → Option Settings) → Loaded → Kind → Message → Service → Service
  unfolding current_settings
  notify cfg unmarshal loaded kind text s =
      let (s', settings) = current_settings cfg unmarshal loaded s in
      if not cfg.configured
      then s
      else if settings.telegram_enabled && enabled settings.events kind
      then log_effect s' (notified kind text)
      else s'

  unfoldable pub start_session : ℕ → Option (State fl) → Service → Service
  start_session ts st s = elim s.session [
    | some already ↦ s
    | none ↦ elim st [
      | none ↦ s
      | some x ↦ record s {
        session = some (record { start_ts = ts; start_ah = x.capacity_ah; start_wh = x.energy_wh });
      }
    ]
  ]

  unfoldable pub resume_session_on_connect :
      ℕ → Option (State fl) → Option (State fl) → Service → Service
  unfolding start_session
  resume_session_on_connect ts seen st s = elim seen [
    | none ↦ s
    | some x ↦ if x.output_on then start_session ts st s else s
  ]

  unfoldable pub abort_session : Service → Service
  abort_session s = record s { session = none }

  -- What a counter has gained, or its value if it was reset.
  abbrev pub gained : Float64 → Float64 → Float64
  gained from to = if fl.lt (fl.sub to from) fl.zero64 then to else fl.sub to from

  abbrev pub session_data : MeterSession → State fl → ℕ → MeteringSessionData
  session_data sess x ts = record {
    capacity_ah = gained sess.start_ah x.capacity_ah;
    energy_wh = gained sess.start_wh x.energy_wh;
    start_ts = sess.start_ts;
    end_ts = ts;
  }

  abbrev pub record_session : Config → MeteringSessionData → Service → Service
  record_session cfg d s =
      let closed : Service = record s { session = none } in
      log_effect (if cfg.journaling then log_effect closed (journaled d) else closed) (mirrored d)

  unfoldable pub finish_session :
      Config → (String → Option Settings) → Loaded → ℕ → Option (State fl) → Service → Service
  unfolding notify
  finish_session cfg unmarshal loaded ts st s = elim s.session [
    | none ↦ s
    | some sess ↦ elim st [
      | none ↦ record s { session = none }
      | some x ↦
          let d = session_data sess x ts in
          notify cfg unmarshal loaded metering_session (session_over d) (record_session cfg d s)
    ]
  ]

  abbrev pub protection_text : ℕ → Option (State fl) → Message
  protection_text p st =
      tripped p (elim st [ none ↦ none | some x ↦ some (x.voltage, x.current, x.power) ])

  -- Whether a session is open when the output goes off decides which load of the settings the second message has.
  abbrev pub after_session : Moment → Option MeterSession → Loaded
  after_session m sess = elim sess [
    | none ↦ m.loaded
    | some x ↦ elim m.first [ none ↦ m.loaded | some st ↦ m.reloaded ]
  ]

  unfoldable pub handle_status :
      Config → (String → Option Settings) → Moment → Bool → String → Service → Service
  unfolding resume_session_on_connect abort_session notify
  handle_status cfg unmarshal m true transport s =
      let resumed = resume_session_on_connect m.now m.first m.second s in
      if s.saw_disconnect
      then notify cfg unmarshal m.loaded device_link (link_restored transport) resumed
      else resumed
  handle_status cfg unmarshal m false transport s =
      notify cfg unmarshal m.loaded device_link (link_lost transport)
        (abort_session (record s { saw_disconnect = true }))

  unfoldable pub handle_output :
      Config → (String → Option Settings) → Moment → Bool → ℕ → Service → Service
  unfolding start_session finish_session notify
  handle_output cfg unmarshal m true ts s =
      notify cfg unmarshal m.loaded Settings.output output_on (start_session ts m.first s)
  handle_output cfg unmarshal m false ts s =
      notify cfg unmarshal (after_session m s.session) Settings.output output_off
        (finish_session cfg unmarshal m.loaded ts m.first s)

  unfoldable pub handle :
      Config → (String → Option Settings) → Service → Update fl → Moment → Service
  unfolding handle_status handle_output notify
  handle cfg unmarshal s (status_change on transport) m =
      handle_status cfg unmarshal m on transport s
  handle cfg unmarshal s (protection_trip p ts) m =
      notify cfg unmarshal m.loaded Settings.protection_trip (protection_text p m.first) s
  handle cfg unmarshal s (output_change on ts) m = handle_output cfg unmarshal m on ts s
  handle cfg unmarshal s (mode_change _ _) m = s
  handle cfg unmarshal s (telemetry t) m = s
  handle cfg unmarshal s (state_snapshot x) m = s
  handle cfg unmarshal s (journal_event _ _) m = s

  unfoldable pub run :
      Config → (String → Option Settings) → Service → List (Update fl × Moment) → Service
  unfolding handle
  run cfg unmarshal s [] = s
  run cfg unmarshal s ((u, m) ∷ us) = run cfg unmarshal (handle cfg unmarshal s u m) us
