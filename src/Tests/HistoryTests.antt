-- ===== src/Tests/HistoryTests.antt =====
-- The theorems on the recorder and the journal at concrete updates.
use dps150_web.Base.{ℕ, ◌+◌, ◌≡◌, true, false, arith, List, [], ◌∷◌, ◌++◌, none, All}
use Prim.Native.String.{String}
use dps150_web.Protocol.Register.{protection_string}
use dps150_web.Hub.State.{Update, telemetry, protection_trip, output_change}
use dps150_web.History.Recorder.{fresh, run, Event, updated, flushed}
use dps150_web.History.Recorder.Batches.{IsBatch, run-IsBatch}
use dps150_web.History.Recorder.Account.{stored, ticks, replaced, run_accounts}
use dps150_web.Journal.{
  Outcome, appended, refused, Entry, trip_entry, measured_tick, World, begin, consume,
}
use dps150_web.Journal.Entries.{consume-trip}
use dps150_web.Tests.{sample}
use dps150_web.Tests.RunTests.{telemetry_at}

abbrev lower : String → String
lower s = s

abbrev print : ℕ → String
print n = "unknown"

-- Two ticks, a flush that the database refuses, and a third tick.
abbrev events : List (Event sample lower print)
events =
    updated (telemetry (telemetry_at 1)) 1
    ∷ updated (telemetry (telemetry_at 2)) 2
    ∷ flushed false 3
    ∷ updated (output_change true 4) 4
    ∷ updated (telemetry (telemetry_at 3)) 5
    ∷ []

run-IsBatch_example :
    All
      (IsBatch sample)
      (run sample lower print events true 6
        (record { recorder = fresh sample; batches = [] })).batches
run-IsBatch_example =
    run-IsBatch sample lower print events true 6 (omega arith, (omega arith, (omega arith, tt)))

-- The third tick of a millisecond comes after a flush, and its row is not replaced.
abbrev crowded : List (Event sample lower print)
crowded =
    updated (telemetry (telemetry_at 1)) 1
    ∷ updated (telemetry (telemetry_at 1)) 2
    ∷ flushed false 3
    ∷ updated (telemetry (telemetry_at 1)) 5
    ∷ []

run_accounts_example :
    let end =
      run sample lower print crowded true 6 (record { recorder = fresh sample; batches = [] }) in
    stored sample end.batches + end.recorder.dropped + replaced sample lower print none crowded
    ≡ ticks sample lower print crowded
run_accounts_example = run_accounts sample lower print crowded true 6

abbrev before : List (Update sample × ℕ × Outcome)
before = (telemetry (telemetry_at 7), 7, appended) ∷ (output_change true 8, 8, refused) ∷ []

abbrev begun : World sample lower print
unfolding begin
begun = begin sample lower print none

consume-trip_example :
    (rest : List (Entry sample)) × ((consume sample lower print begun
        (before ++ (protection_trip 1 9, 9, appended) ∷ before)).entries
      ≡ (consume sample lower print begun before).entries
        ++ trip_entry (lower (protection_string print 1)) (measured_tick sample (telemetry_at 7))
          ∷ rest)
consume-trip_example = consume-trip sample lower print before before 1 9 9 appended begun
