-- ===== src/Tests/EmulatorTests.antt =====
-- The emulator at concrete inputs.
use dps150_web.Base.{◌≡◌, refl, true, none, some}
use dps150_web.Protocol.Event.{Preset, Event}
use dps150_web.Protocol.Decode.{ok, decode}
use dps150_web.Emulator.Device.{Conn, Device, trip_protection}
use dps150_web.Emulator.Device.Protection.{IsLatched}
use dps150_web.Emulator.Dump.{full_dump}
use dps150_web.Emulator.Dump.RoundTrip.{view, decode-full_dump}
use dps150_web.Emulator.Control.{power_on}
use dps150_web.Emulator.Control.Safety.{here, next, tripped, Reach-IsLatched}
use dps150_web.Tests.{sample, no_plants, word}

abbrev preset : Preset sample
preset = record { voltage = word 5; current = word 1 }

abbrev fresh : Device sample no_plants
unfolding power_on
fresh = power_on sample no_plants 500 none none

abbrev link : Conn
link = record { id = 1; session = true }

abbrev online : Device sample no_plants
unfolding power_on
online = record fresh { conn = some link; output = true }

decode-full_dump_example :
    decode sample (record { group = 0xA1; reg = 0xFF; payload = full_dump sample no_plants fresh })
    ≡ ok (Event.full_dump (view sample no_plants fresh))
unfolding power_on
decode-full_dump_example =
    decode-full_dump sample no_plants fresh 0xA1 preset preset preset preset preset preset refl

Reach-IsLatched_example : IsLatched sample no_plants (trip_protection sample no_plants fresh 6).0
unfolding power_on
Reach-IsLatched_example = Reach-IsLatched sample no_plants 500 none none (next here (tripped 6))
