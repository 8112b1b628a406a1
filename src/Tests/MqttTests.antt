-- ===== src/Tests/MqttTests.antt =====
-- The payload after a tick and the loss of the link.
use dps150_web.Base.{ℕ, ◌≡◌, refl, true, false, List, [], ◌∷◌}
use Prim.Native.String.{String}
use dps150_web.Hub.State.{Update, telemetry, status_change, output_change}
use dps150_web.Mqtt.Service.{Service, handle_updates}
use dps150_web.Mqtt.Service.Latest.{
  Reading, reading_of, payload_of, last_reading, last_setpoints, last_link, publications,
  handle_updates-publications,
}
use dps150_web.Tests.{sample}
use dps150_web.Tests.RunTests.{telemetry_at}

abbrev print : ℕ → String
print n = "unknown"

abbrev reading : Reading sample print
reading = record (reading_of sample print (telemetry_at 1)) { voltage = 3 }

abbrev seen : List (Update sample)
seen = telemetry (telemetry_at 1) ∷ output_change false 2 ∷ status_change false "usb" ∷ []

abbrev begun : Service sample
begun = record { state = payload_of sample print reading (5, 2) true; log = [] }

handle_updates-publications_example :
    ((handle_updates sample print begun seen).state
      ≡ payload_of sample print
          (last_reading sample print reading seen)
          (last_setpoints sample print (5, 2) seen)
          (last_link sample print true seen))
    × ((handle_updates sample print begun seen).log
        ≡ publications sample print reading (5, 2) true seen)
handle_updates-publications_example =
    handle_updates-publications sample print seen begun reading (5, 2) true refl
