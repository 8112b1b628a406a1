-- ===== src/History/Recorder.antt =====
-- backend/internal/history/recorder.go and the constants and the row of history.go: the recorder's
-- buffer, its batches and its count of dropped samples. Times are in nanoseconds; what an insert
-- returns is an argument, true being nil. `to_lower` and `print` are strings.ToLower and the text that
-- fmt gives of an unknown protection.
pub mod Batches
pub mod Account
use dps150_web.Base.{
  ℕ, ◌+◌, ◌-◌, ◌*◌, ◌/◌, ◌^◌, Bool, true, false, List, [], ◌∷◌, ◌++◌, Option, none, some, ltb, leb,
  ◌==◌, if◌then◌else◌, length, drop,
}
use Prim.Native.String.{String}
use dps150_web.Float.{Floats}
use dps150_web.Protocol.Register
use dps150_web.Protocol.Register.{protection_string}
use dps150_web.Hub.State.{
  Telemetry, Update, state_snapshot, telemetry, status_change, protection_trip, mode_change,
  output_change, journal_event,
}

abbrev pub max_buffered : ℕ
max_buffered = 600

abbrev pub drop_warn_period : ℕ
drop_warn_period = 60 * 10 ^ 9

abbrev pub mode_text : ℕ → String
mode_text m = if m == Register.mode_cc then "cc" else "cv"

module _ (fl : Floats) where
  open fl use {Float64}

  -- A row of the table samples, whose key is `ts`, in milliseconds.
  pub record Sample : Type 0 where
    pub ts : ℕ
    pub voltage : Float64
    pub current : Float64
    pub power : Float64
    pub input_voltage : Float64
    pub temperature : Float64
    pub output_on : Bool
    pub mode : String
    pub protection : String

  pub record Recorder : Type 0 where
    pub buf : List Sample
    pub dropped : ℕ
    -- the drops since the last warning, and the time of that
    pub pending : ℕ
    pub last_warn : Option ℕ

  abbrev pub fresh : Recorder
  fresh = record { buf = []; dropped = 0; pending = 0; last_warn = none }

  -- `drop`, at the time `now`.
  unfoldable pub drop_samples : Recorder → ℕ → ℕ → Recorder
  drop_samples r n now =
      let counted : Recorder = record r { dropped = r.dropped + n; pending = r.pending + n } in
      if elim r.last_warn [ none ↦ false | some w ↦ ltb (now - w) drop_warn_period ]
      then counted
      else record counted { pending = 0; last_warn = some now }

  -- The key of the last sample of the buffer is that of the new one.
  abbrev pub ends_at : List Sample → ℕ → Bool
  ends_at [] ts = false
  ends_at (x ∷ []) ts = x.ts == ts
  ends_at (x ∷ y ∷ ys) ts = ends_at (y ∷ ys) ts

  abbrev pub replace_last : List Sample → Sample → List Sample
  replace_last [] s = []
  replace_last (x ∷ []) s = s ∷ []
  replace_last (x ∷ y ∷ ys) s = x ∷ replace_last (y ∷ ys) s

  unfoldable pub append : Recorder → Sample → ℕ → Recorder
  unfolding drop_samples
  append r s now =
      if ends_at r.buf s.ts
      then record r { buf = replace_last r.buf s }
      else if leb max_buffered (length r.buf)
      then record (drop_samples r 1 now) { buf = drop 1 r.buf ++ s ∷ [] }
      else record r { buf = r.buf ++ s ∷ [] }

  -- The recorder, and the batches that it has handed to the database with their outcomes.
  pub record World : Type 0 where
    pub recorder : Recorder
    pub batches : List (List Sample × Bool)

  unfoldable pub flush : World → Bool → ℕ → World
  unfolding drop_samples
  flush w inserted now = elim w.recorder.buf [
    | [] ↦ w
    | x ∷ xs ↦
        let r = if inserted then w.recorder else drop_samples w.recorder (length (x ∷ xs)) now in
        record { recorder = record r { buf = [] }; batches = w.batches ++ (x ∷ xs, inserted) ∷ [] }
  ]

  module _ (to_lower : String → String) (print : ℕ → String) where
    unfoldable pub sample_from : Telemetry fl → Sample
    sample_from t = record {
      ts = t.ts / 10 ^ 6;
      voltage = t.voltage;
      current = t.current;
      power = t.power;
      input_voltage = t.input_voltage;
      temperature = t.temperature;
      output_on = t.output_on;
      mode = mode_text t.mode;
      protection = to_lower (protection_string print t.protection);
    }

    -- An update, or the ticker, each at a time.
    pub data Event : Type 0 where
      updated : Update fl → ℕ → Event
      flushed : Bool → ℕ → Event

    unfoldable pub handle : World → Event → World
    unfolding append flush sample_from
    handle w (updated (telemetry t) now) = record w {
      recorder = append w.recorder (sample_from t) now;
    }
    handle w (updated (state_snapshot _) now) = w
    handle w (updated (status_change _ _) now) = w
    handle w (updated (protection_trip _ _) now) = w
    handle w (updated (mode_change _ _) now) = w
    handle w (updated (output_change _ _) now) = w
    handle w (updated (journal_event _ _) now) = w
    handle w (flushed inserted now) = flush w inserted now

    -- The loop, up to the end of the context or of the subscription, and the final flush.
    unfoldable pub run : List Event → Bool → ℕ → World → World
    unfolding handle flush
    run [] inserted now w = flush w inserted now
    run (e ∷ es) inserted now w = run es inserted now (handle w e)
