-- ===== src/Journal.antt =====
-- backend/internal/journal/journal.go: the entries that device transitions leave in the journal. Times are in
-- nanoseconds, and what AppendEvent returns is an argument. `to_lower` and `print` are strings.ToLower and
-- the text that fmt gives of an unknown protection.
pub mod Entries
use dps150_web.Base.{
  ℕ, ◌+◌, ◌-◌, ◌*◌, ◌^◌, Bool, true, false, List, [], ◌∷◌, ◌++◌, Option, none, some, leb,
  if◌then◌else◌,
}
use Prim.Native.String.{String}
use dps150_web.Float.{Floats}
use dps150_web.Protocol.Register.{protection_string}
use dps150_web.Hub.State.{
  State, Snapshot, Telemetry, Update, state_snapshot, telemetry, status_change, protection_trip,
  mode_change, output_change, journal_event,
}

abbrev pub warn_interval : ℕ
warn_interval = 60 * 10 ^ 9

-- What AppendEvent comes to: nil, an error, or an error while the service shuts down.
pub data Outcome : Type 0 where
  appended : Outcome
  refused : Outcome
  shutting_down : Outcome

pub record Service : Type 0 where
  pub last_warn : Option ℕ
  pub dropped : ℕ

-- `append` from the store's answer on, at the time `now`.
unfoldable pub append : Service → ℕ → Outcome → Service
append s now appended = s
append s now shutting_down = s
append s now refused =
    if elim s.last_warn [ none ↦ true | some w ↦ leb warn_interval (now - w) ]
    then record { last_warn = some now; dropped = 0 }
    else record s { dropped = s.dropped + 1 }

module _ (fl : Floats) where
  open fl use {Float64}

  pub record Measured : Type 0 where
    pub voltage : Float64
    pub current : Float64
    pub power : Float64

  -- The kinds of entries, a trip with its data.
  pub data Entry : Type 0 where
    trip_entry : String → Measured → Entry
    device_connected : Entry
    device_disconnected : Entry
    output_on : Entry
    output_off : Entry

  abbrev pub kind_of : Entry → String
  kind_of (trip_entry _ _) = "protectionTrip"
  kind_of device_connected = "deviceConnected"
  kind_of device_disconnected = "deviceDisconnected"
  kind_of output_on = "outputOn"
  kind_of output_off = "outputOff"

  abbrev pub measured_state : State fl → Measured
  measured_state st = record { voltage = st.voltage; current = st.current; power = st.power }

  abbrev pub measured_tick : Telemetry fl → Measured
  measured_tick t = record { voltage = t.voltage; current = t.current; power = t.power }

  -- The variable `last` of the loop.
  unfoldable pub watch : Measured → Update fl → Measured
  watch last (telemetry t) = measured_tick t
  watch last (state_snapshot s) = elim s.state [ none ↦ last | some st ↦ measured_state st ]
  watch last (status_change _ _) = last
  watch last (protection_trip _ _) = last
  watch last (mode_change _ _) = last
  watch last (output_change _ _) = last
  watch last (journal_event _ _) = last

  module _ (to_lower : String → String) (print : ℕ → String) where
    -- The entry that an update leaves, if any.
    unfoldable pub entry_of : Measured → Update fl → Option Entry
    entry_of last (telemetry t) = none
    entry_of last (state_snapshot s) = none
    entry_of last (status_change on _) = some (if on then device_connected else device_disconnected)
    entry_of last (protection_trip p _) =
        some (trip_entry (to_lower (protection_string print p)) last)
    entry_of last (mode_change _ _) = none
    entry_of last (output_change on _) = some (if on then output_on else output_off)
    entry_of last (journal_event _ _) = none

    -- The service, and what it has handed to AppendEvent.
    pub record World : Type 0 where
      pub service : Service
      pub last : Measured
      pub entries : List Entry

    -- One round of the loop, with the time and the outcome that an append would have.
    unfoldable pub handle : World → Update fl → ℕ → Outcome → World
    unfolding append watch entry_of
    handle w u now outcome = elim (entry_of w.last u) [
      | none ↦ record w { last = watch w.last u }
      | some e ↦ record {
        service = append w.service now outcome;
        last = watch w.last u;
        entries = w.entries ++ e ∷ [];
      }
    ]

    unfoldable pub consume : World → List (Update fl × ℕ × Outcome) → World
    unfolding handle
    consume w [] = w
    consume w ((u, now, outcome) ∷ us) = consume (handle w u now outcome) us

    -- The loop's start, from the hub's state if there is one.
    unfoldable pub begin : Option (State fl) → World
    begin st = record {
      service = record { last_warn = none; dropped = 0 };
      last = elim st [
        | none ↦ record { voltage = fl.zero64; current = fl.zero64; power = fl.zero64 }
        | some s ↦ measured_state s
      ];
      entries = [];
    }
