-- ===== src/Tests/HubTests.antt =====
-- The hub's theorems at concrete sessions, commands and engines.
use dps150_web.Base.{
  map, ℕ, ◌≡◌, refl, sym, ap, true, false, List, [], ◌∷◌, ◌++◌, Option, none, some, ◌⊎◌, ◌==◌,
  if◌then◌else◌,
}
use dps150_web.Protocol.Frame.{Frame}
use dps150_web.Protocol.Encode.Commands.{frame_of}
use dps150_web.Hub.State.{Update}
use dps150_web.Hub.Apply.{
  Hub, Updates, new_hub, open_session, handle_frame, handle_frames, close_session,
}
use dps150_web.Hub.Apply.Invariant.{
  IsSound, links, Alternates, Trace, here, next, opened, received, closed, Trace-IsSound,
}
use dps150_web.Hub.Apply.Mirror.{follow_all, Agrees, Trace-Agrees}
use dps150_web.Hub.Command.{Outcome, written, ProtectionLimits, handshake_frames, set_protections}
use dps150_web.Hub.Command.Protections.{Protects, set_protections_lem}
use dps150_web.Hub.Safety.{busy, free}
use dps150_web.Hub.Safety.Exclusion.{Use, acquires, releases, claims, after, claims-busy}
use dps150_web.Emulator.Dump.{full_dump}
use dps150_web.Emulator.Control.{power_on, handle_all}
use dps150_web.Emulator.Device.{Conn, Device}
use dps150_web.Protocol.Event.{Preset}
use dps150_web.Hub.Apply.Connected.{rx_frame}
use dps150_web.Hub.Command.Handshake.{handshake_connects}
use Prim.Native.String.{String}
use mathlib.Core.Path.{subst}
use dps150_web.Journal
use dps150_web.Journal.{refused, begin, consume}
use dps150_web.Journal.Entries.{updates, link_entries, consume-Alternates}
use dps150_web.Tests.{sample, no_plants, word}

abbrev start : Hub sample
unfolding new_hub
start = new_hub sample "usb"

-- A session with a full dump, then the output switched on.
abbrev dump_frame : Frame
unfolding power_on
dump_frame = record {
  group = 0xA1;
  reg = 0xFF;
  payload = full_dump sample no_plants (power_on sample no_plants 500 none none);
}

abbrev output_frame : Frame
output_frame = record { group = 0xA1; reg = 0xDB; payload = 1 ∷ [] }

abbrev began : Hub sample × Updates sample
began = open_session sample start 1

abbrev dumped : Hub sample × Updates sample
dumped = handle_frame sample began.0 dump_frame 5

abbrev switched : Hub sample × Updates sample
switched = handle_frame sample dumped.0 output_frame 6

abbrev ended : Hub sample × Updates sample
ended = close_session sample switched.0

abbrev seen : Updates sample
seen = (([] ++ began.1) ++ dumped.1) ++ switched.1

abbrev online : Trace sample start switched.0 seen
online = next (next (next here (opened 1)) (received dump_frame 5)) (received output_frame 6)

Trace-IsSound_example :
    IsSound sample ended.0
    × Alternates sample false (links sample (seen ++ ended.1)) ended.0.connected
unfolding new_hub
Trace-IsSound_example = Trace-IsSound sample "usb" (next online closed)

Trace-Agrees_example :
    Agrees sample (follow_all sample (record { output = none; mode = none }) seen) switched.0.state
unfolding new_hub
Trace-Agrees_example = Trace-Agrees sample "usb" online

-- The device just attached.
abbrev link : Conn
link = record { id = 1; session = false }

abbrev attached : Device sample no_plants
unfolding power_on
attached = record (power_on sample no_plants 500 none none) { conn = some link }

abbrev preset : Preset sample
preset = record { voltage = word 5; current = word 1 }

handshake_connects_example :
    let (d', sent) =
      handle_all sample no_plants 3 attached 1 (map (frame_of sample) (handshake_frames sample)) in
    ((handle_frames sample began.0 (map (rx_frame sample) sent) 4).0.connected ≡ true)
    × (d'.metering ≡ true)
    × (d'.conn ≡ some (record link { session = true }))
unfolding power_on
handshake_connects_example =
    handshake_connects sample no_plants 3 4 attached link began.0 preset preset preset preset preset
      preset refl refl

abbrev all_written : ℕ → Outcome
all_written n = written

abbrev thresholds : ProtectionLimits sample
thresholds = record { ovp = some 31; ocp = none; opp = none; otp = none; lvp = some 2 }

set_protections_lem_example :
    Protects sample dumped.0 thresholds 7
      (set_protections sample dumped.0 false thresholds all_written 7)
set_protections_lem_example = set_protections_lem sample dumped.0 false thresholds all_written 7

-- The device answers at the second attempt.
abbrev second : ℕ → Option ℕ
second n = if n == 0 then some 7 else none

abbrev uses : List Use
uses = acquires "sequence" ∷ acquires "charge" ∷ releases "charge" ∷ []

claims-busy_example :
    ((busy (after free uses) ≡ false) × (claims free [] uses ≡ []))
    ⊎ ((busy (after free uses) ≡ true) × (claims free [] uses ≡ (after free uses).owner ∷ []))
claims-busy_example = claims-busy uses (refl, (refl, (tt, tt)))

-- The updates of the session, as a journal receives them.
abbrev told : List (Update sample) → List (Update sample × ℕ × Journal.Outcome)
told [] = []
told (u ∷ us) = (u, 1, refused) ∷ told us

updates-told : (us : List (Update sample)) → updates sample (told us) ≡ us
updates-told [] = refl
updates-told (u ∷ us) = ap (λ l. u ∷ l) (updates-told us)

abbrev lower : String → String
lower s = s

abbrev print : ℕ → String
print n = "unknown"

consume-Alternates_example :
    Alternates sample false
      (link_entries sample
        (consume sample lower print (begin sample lower print none) (told seen)).entries)
      switched.0.connected
unfolding new_hub
consume-Alternates_example =
    consume-Alternates sample lower print "usb" switched.0 (told seen)
      (subst (Trace sample start switched.0) (sym (updates-told seen)) online)
