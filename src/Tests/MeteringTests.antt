-- ===== src/Tests/MeteringTests.antt =====
-- A session of four seconds with a repeated switch-on and a tick in between.
use dps150_web.Base.{
  if◌then◌else◌, ◌≡◌, ℕ, ◌*◌, refl, true, false, List, [], ◌∷◌, ◌++◌, Option, none, some,
}
use Prim.Native.String.{String}
use dps150_web.Hub.State.{
  State, Update, zero_state, telemetry, output_change, status_change, protection_trip,
}
use dps150_web.Notify.Settings.{Settings, missing, unavailable}
use dps150_web.Notify.Service.{Config, MeteringSessionData, journaled, mirrored, Moment, fresh, run}
use dps150_web.Notify.Service.Independence.{entries, books, keep_all, all_shown, run-books}
use dps150_web.Notify.Service.Metering.{Spans, run-session}
use dps150_web.Tests.{sample}
use dps150_web.Tests.RunTests.{telemetry_at}

abbrev config : Config
config = record { configured = true; journaling = true; storing = true }

abbrev unmarshal : String → Option Settings
unmarshal raw = none

abbrev on_with : ℕ → State sample
on_with ah = record (zero_state sample) { output_on = true; capacity_ah = ah; energy_wh = 12 * ah }

abbrev at : ℕ → State sample → Moment sample
at now st = record {
  now = now;
  first = some st;
  second = some st;
  loaded = missing;
  reloaded = unavailable;
}

abbrev between : List (Update sample × Moment sample)
between =
    (telemetry (telemetry_at 2), at 2 (on_with 5))
    ∷ (output_change true 3, at 3 (on_with 6))
    ∷ (protection_trip 1 4, at 4 (on_with 7))
    ∷ []

abbrev later : List (Update sample × Moment sample)
later =
    (status_change false "usb", at 6 (on_with 9)) ∷ (output_change false 7, at 7 (on_with 9)) ∷ []

abbrev course : List (Update sample × Moment sample)
course =
    (output_change true 1, at 1 (on_with 4)) ∷ between
    ++ (output_change false 5, at 5 (on_with 9)) ∷ later

run-session_example :
    (d : MeteringSessionData sample) × Spans sample 1 5 (on_with 4) (on_with 9) d
    × (books sample (run sample config unmarshal (fresh sample) course) ≡ (
      none,
      entries sample (fresh sample).log
          ++ ((if config.journaling then journaled d ∷ [] else []) ++ mirrored d ∷ []),
    ))
run-session_example =
    run-session sample config unmarshal (fresh sample) 1 5 (at 1 (on_with 4)) (at 5 (on_with 9))
      (on_with 4) (on_with 9) between later refl refl refl (tt, (refl, (tt, tt))) (refl, (refl, tt))

run-books_example :
    books sample (run sample config unmarshal (fresh sample) course)
    ≡ keep_all sample true (books sample (fresh sample)) (all_shown sample course)
run-books_example = run-books sample config unmarshal course (fresh sample)
