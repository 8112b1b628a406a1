-- ===== src/Mqtt/Service/Latest.antt =====
-- The payload of service.go against the updates that it has seen.
use dps150_web.Base.{
  ℕ, ◌≡◌, refl, sym, ap, ◌∙◌, Bool, true, not, ◌&&◌, ◌||◌, List, [], ◌∷◌, ◌++◌, append-nil,
  append_assoc, Option, none, some, inl, inr, Bool-cases, if◌then◌else◌,
}
use Prim.Native.String.{String}
use dps150_web.Float.{Floats}
use dps150_web.Protocol.Register.{protection_string}
use dps150_web.Hub.State.{
  State, Snapshot, Telemetry, Update, state_snapshot, telemetry, status_change, protection_trip,
  mode_change, output_change, journal_event,
}
use dps150_web.Mqtt.Service.{
  mode_string, StatePayload, Effect, state_published, Service, apply_telemetry, apply_state,
  apply_snapshot, marshals, publish_state, handle_update, handle_updates,
}

module _ (fl : Floats) (print : ℕ → String) where
  open fl use {Float64}

  -- The measured part of a payload.
  pub record Reading : Type 0 where
    pub voltage : Float64
    pub current : Float64
    pub power : Float64
    pub input_voltage : Float64
    pub temperature : Float64
    pub capacity_ah : Float64
    pub energy_wh : Float64
    pub mode : String
    pub protection : String
    pub output : Bool

  abbrev pub reading_of : Telemetry fl → Reading
  reading_of t = record {
    voltage = t.voltage;
    current = t.current;
    power = t.power;
    input_voltage = t.input_voltage;
    temperature = t.temperature;
    capacity_ah = t.capacity_ah;
    energy_wh = t.energy_wh;
    mode = mode_string print t.mode;
    protection = protection_string print t.protection;
    output = t.output_on;
  }

  abbrev pub reading_of_state : State fl → Reading
  reading_of_state st = record {
    voltage = st.voltage;
    current = st.current;
    power = st.power;
    input_voltage = st.input_voltage;
    temperature = st.temperature;
    capacity_ah = st.capacity_ah;
    energy_wh = st.energy_wh;
    mode = mode_string print st.mode;
    protection = protection_string print st.protection;
    output = st.output_on;
  }

  abbrev pub payload_of : Reading → Float64 × Float64 → Bool → StatePayload fl
  payload_of r (v, a) on = record {
    voltage = r.voltage;
    current = r.current;
    power = r.power;
    input_voltage = r.input_voltage;
    temperature = r.temperature;
    capacity_ah = r.capacity_ah;
    energy_wh = r.energy_wh;
    mode = r.mode;
    protection = r.protection;
    output = r.output;
    connected = on;
    setpoint_voltage = v;
    setpoint_current = a;
  }

  -- What an update tells last: of the measurements, of the setpoints and of the link.
  abbrev pub last_reading : Reading → List (Update fl) → Reading
  last_reading r [] = r
  last_reading r (telemetry t ∷ us) = last_reading (reading_of t) us
  last_reading r (state_snapshot x ∷ us) =
      last_reading (elim x.state as (λ _. Reading) [ none ↦ r | some st ↦ reading_of_state st ]) us
  last_reading r (status_change _ _ ∷ us) = last_reading r us
  last_reading r (protection_trip _ _ ∷ us) = last_reading r us
  last_reading r (mode_change _ _ ∷ us) = last_reading r us
  last_reading r (output_change _ _ ∷ us) = last_reading r us
  last_reading r (journal_event _ _ ∷ us) = last_reading r us

  abbrev pub last_setpoints : Float64 × Float64 → List (Update fl) → Float64 × Float64
  last_setpoints p [] = p
  last_setpoints p (state_snapshot x ∷ us) =
      last_setpoints
        (elim x.state as (λ _. Float64 × Float64) [
          | none ↦ p
          | some st ↦ (st.set_voltage, st.set_current)
        ])
        us
  last_setpoints p (telemetry _ ∷ us) = last_setpoints p us
  last_setpoints p (status_change _ _ ∷ us) = last_setpoints p us
  last_setpoints p (protection_trip _ _ ∷ us) = last_setpoints p us
  last_setpoints p (mode_change _ _ ∷ us) = last_setpoints p us
  last_setpoints p (output_change _ _ ∷ us) = last_setpoints p us
  last_setpoints p (journal_event _ _ ∷ us) = last_setpoints p us

  abbrev pub last_link : Bool → List (Update fl) → Bool
  last_link on [] = on
  last_link on (status_change b _ ∷ us) = last_link b us
  last_link on (state_snapshot x ∷ us) = last_link x.connected us
  last_link on (telemetry _ ∷ us) = last_link on us
  last_link on (protection_trip _ _ ∷ us) = last_link on us
  last_link on (mode_change _ _ ∷ us) = last_link on us
  last_link on (output_change _ _ ∷ us) = last_link on us
  last_link on (journal_event _ _ ∷ us) = last_link on us

  apply_snapshot-payload :
      (r : Reading) (p : Float64 × Float64) (on : Bool) (x : Snapshot fl)
      → apply_snapshot fl print x (payload_of r p on)
        ≡ payload_of
            (elim x.state as (λ _. Reading) [ none ↦ r | some st ↦ reading_of_state st ])
            (elim x.state as (λ _. Float64 × Float64) [
              | none ↦ p
              | some st ↦ (st.set_voltage, st.set_current)
            ])
            x.connected
  unfolding apply_snapshot
  apply_snapshot-payload r p on x = go x.state
    where
      linked : StatePayload fl
      linked = payload_of r p x.connected

      go :
          (st : Option (State fl))
          → (elim st as (λ _. StatePayload fl) [
            | none ↦ linked
            | some y ↦ apply_state fl print y linked
          ])
            ≡ payload_of
                (elim st as (λ _. Reading) [ none ↦ r | some y ↦ reading_of_state y ])
                (elim st as (λ _. Float64 × Float64) [
                  | none ↦ p
                  | some y ↦ (y.set_voltage, y.set_current)
                ])
                x.connected
      go none = refl
      go (some y) = refl

  abbrev with_link : Bool → StatePayload fl → StatePayload fl
  with_link b q = record q { connected = b }

  -- No member is NaN or an infinity, as none has been before.
  abbrev pub are_finite : Bool → List Float64 → Bool
  are_finite so_far [] = so_far
  are_finite so_far (x ∷ xs) = are_finite (so_far && not (fl.is_nan x || fl.is_inf x)) xs

  abbrev pub numbers_of : Reading → Float64 × Float64 → List Float64
  numbers_of r (v, a) =
      r.voltage ∷ r.current ∷ r.power ∷ r.input_voltage ∷ r.temperature ∷ r.capacity_ah
      ∷ r.energy_wh ∷ v ∷ a ∷ []

  -- What one publication adds to the log: the payload, if its numbers are finite.
  abbrev pub published : Reading → Float64 × Float64 → Bool → List (Effect fl)
  published r p on =
      if are_finite true (numbers_of r p) then state_published (payload_of r p on) ∷ [] else []

  -- The publications of some updates, one for each tick, snapshot and transition.
  abbrev pub publications : Reading → Float64 × Float64 → Bool → List (Update fl) → List (Effect fl)
  publications r p on [] = []
  publications r p on (telemetry t ∷ us) =
      published (reading_of t) p on ++ publications (reading_of t) p on us
  publications r p on (state_snapshot x ∷ us) =
      let r' : Reading = last_reading r (state_snapshot x ∷ []) in
      let p' : Float64 × Float64 = last_setpoints p (state_snapshot x ∷ []) in
      published r' p' x.connected ++ publications r' p' x.connected us
  publications r p on (status_change b _ ∷ us) = published r p b ++ publications r p b us
  publications r p on (protection_trip _ _ ∷ us) = publications r p on us
  publications r p on (mode_change _ _ ∷ us) = publications r p on us
  publications r p on (output_change _ _ ∷ us) = publications r p on us
  publications r p on (journal_event _ _ ∷ us) = publications r p on us

  -- The state and the log of a service that shows the payload and the publications.
  abbrev pub Shows : Service fl → List (Effect fl) → Reading → Float64 × Float64 → Bool → Type 0
  Shows s log r p on = (s.state ≡ payload_of r p on) × (s.log ≡ log)

  marshals-payload :
      (r : Reading) (p : Float64 × Float64) (on : Bool)
      → marshals fl (payload_of r p on) ≡ are_finite true (numbers_of r p)
  marshals-payload r (v, a) on = refl

  publish_state-Shows :
      (s : Service fl) (r : Reading) (p : Float64 × Float64) (on : Bool)
      → s.state ≡ payload_of r p on
      → Shows (publish_state fl s) (s.log ++ published r p on) r p on
  unfolding publish_state
  publish_state-Shows s r p on e =
      let same = ap (marshals fl) e ∙ marshals-payload r p on in
      elim (Bool-cases (are_finite true (numbers_of r p))) [
        | inl y ↦ rw (y, same ∙ y, publish_state) (e, ap (λ q. s.log ++ state_published q ∷ []) e)
        | inr n ↦ rw (n, same ∙ n, publish_state) (e, sym (append-nil s.log))
      ]

  tick_Shows :
      (s : Service fl) (t : Telemetry fl) (r : Reading) (p : Float64 × Float64) (on : Bool)
      → s.state ≡ payload_of r p on
      → Shows
          (handle_update fl print s (telemetry t))
          (s.log ++ published (reading_of t) p on)
          (reading_of t)
          p
          on
  unfolding handle_update apply_telemetry
  tick_Shows s t r p on e =
      publish_state-Shows (record s { state = apply_telemetry fl print t s.state }) (reading_of t) p
        on (ap (apply_telemetry fl print t) e)

  snapshot_Shows :
      (s : Service fl) (x : Snapshot fl) (r : Reading) (p : Float64 × Float64) (on : Bool)
      → s.state ≡ payload_of r p on
      → let r' : Reading = last_reading r (state_snapshot x ∷ []) in
        let p' : Float64 × Float64 = last_setpoints p (state_snapshot x ∷ []) in
        Shows
          (handle_update fl print s (state_snapshot x))
          (s.log ++ published r' p' x.connected)
          r'
          p'
          x.connected
  unfolding handle_update
  snapshot_Shows s x r p on e =
      publish_state-Shows (record s { state = apply_snapshot fl print x s.state })
        (last_reading r (state_snapshot x ∷ [])) (last_setpoints p (state_snapshot x ∷ []))
        x.connected (ap (apply_snapshot fl print x) e ∙ apply_snapshot-payload r p on x)

  link_Shows :
      (s : Service fl) (b : Bool) (t : String) (r : Reading) (p : Float64 × Float64) (on : Bool)
      → s.state ≡ payload_of r p on
      → Shows (handle_update fl print s (status_change b t)) (s.log ++ published r p b) r p b
  unfolding handle_update
  link_Shows s b t r p on e =
      publish_state-Shows (record s { state = with_link b s.state }) r p b (ap (with_link b) e)

  handle_updates-Shows :
      (us : List (Update fl)) (s : Service fl) (r : Reading) (p : Float64 × Float64) (on : Bool)
      → s.state ≡ payload_of r p on
      → Shows
          (handle_updates fl print s us)
          (s.log ++ publications r p on us)
          (last_reading r us)
          (last_setpoints p us)
          (last_link on us)
  unfolding handle_updates
  handle_updates-Shows [] s r p on e = (e, sym (append-nil s.log))
  handle_updates-Shows (telemetry t ∷ us) s r p on e =
      let (state, log) = tick_Shows s t r p on e in
      let (a, b) =
        handle_updates-Shows us (handle_update fl print s (telemetry t)) (reading_of t) p on
          state in
      (
        a,
        b
            ∙ ap (λ l. l ++ publications (reading_of t) p on us) log
            ∙ append_assoc s.log (published (reading_of t) p on)
                (publications (reading_of t) p on us),
      )
  handle_updates-Shows (state_snapshot x ∷ us) s r p on e =
      let r' : Reading = last_reading r (state_snapshot x ∷ []) in
      let p' : Float64 × Float64 = last_setpoints p (state_snapshot x ∷ []) in
      let (state, log) = snapshot_Shows s x r p on e in
      let (a, b) =
        handle_updates-Shows us (handle_update fl print s (state_snapshot x)) r' p' x.connected
          state in
      (
        a,
        b
            ∙ ap (λ l. l ++ publications r' p' x.connected us) log
            ∙ append_assoc s.log (published r' p' x.connected) (publications r' p' x.connected us),
      )
  handle_updates-Shows (status_change b t ∷ us) s r p on e =
      let (state, log) = link_Shows s b t r p on e in
      let (a, c) =
        handle_updates-Shows us (handle_update fl print s (status_change b t)) r p b state in
      (
        a,
        c
            ∙ ap (λ l. l ++ publications r p b us) log
            ∙ append_assoc s.log (published r p b) (publications r p b us),
      )
  handle_updates-Shows (protection_trip _ _ ∷ us) s r p on e = handle_updates-Shows us s r p on e
  handle_updates-Shows (mode_change _ _ ∷ us) s r p on e = handle_updates-Shows us s r p on e
  handle_updates-Shows (output_change _ _ ∷ us) s r p on e = handle_updates-Shows us s r p on e
  handle_updates-Shows (journal_event _ _ ∷ us) s r p on e = handle_updates-Shows us s r p on e

  -- After any updates, each part of the payload is that of the latest update that tells of it: the measurements that of the
  -- latest tick or state, the setpoints that of the latest state, the link that of the latest transition or snapshot. And what was
  -- published is, for each tick, snapshot and transition in turn, the payload after it, if none of its numbers is NaN or
  -- infinite; such a payload is left out, so that the broker keeps the one before.
  pub handle_updates-publications :
      (us : List (Update fl)) (s : Service fl) (r : Reading) (p : Float64 × Float64) (on : Bool)
      → s.state ≡ payload_of r p on
      → ((handle_updates fl print s us).state
          ≡ payload_of (last_reading r us) (last_setpoints p us) (last_link on us))
        × ((handle_updates fl print s us).log ≡ s.log ++ publications r p on us)
  handle_updates-publications us s r p on e = handle_updates-Shows us s r p on e
