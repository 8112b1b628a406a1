-- ===== src/Lib.antt =====
-- Verification of the DPS-150 control panel: the wire protocol, the emulated device, the device
-- hub, the sequence programs and their runs, the charges, the I-V sweeps, the automation rules, the
-- recorder, the journal, the notifications and the MQTT bridge of the Go backend.
--
-- The program. The hub (backend/internal/device/hub.go) owns the one link to a DPS-150 power supply.
-- It encodes commands with the protocol package, reads the device's byte stream with the streaming
-- parser, decodes each frame to an event, applies the event to its cache and broadcasts updates to
-- subscribers. The emulator (backend/internal/device/emulator) is the other end of the wire: it parses
-- host frames, changes its registers, and answers with frames of its own. Run engines take the output
-- through the interlock and switch it off through SafeOutputOff (backend/internal/device/safety.go).
--
-- The parts, and where they stand:
-- - Base, Float: lists, options and Boolean tests over the native naturals; float32 and float64 as a
--   record of operations and laws (`Floats`), of which the bit conversions alone have laws: bits are a
--   32-bit word and of_bits inverts them. That is documented of math.Float32bits and
--   math.Float32frombits. Arithmetic and comparison are parameters;
--   a law of min that a theorem needs is a hypothesis of it.
-- - Protocol/Register, Protocol/Frame, Protocol/Word, Protocol/Encode:
--   backend/internal/device/protocol/register.go, frame.go and encode.go. A byte is a natural number
--   below 256 (`IsByte`); a sum keeps its wrap-around; a panic of the encoder is `none`.
-- - Protocol/Scan: the loop that backend/internal/device/protocol/parser.go and
--   backend/internal/device/emulator/txparser.go both write out; Protocol/Parser (Parser.Feed) and
--   Emulator/TxParser (txParser.feed) are its two uses. One round consumes one byte at least or stops,
--   so one unit of fuel more than there are bytes, which `drain` gives it, is enough.
-- - Protocol/Event, Protocol/Decode: backend/internal/device/protocol/decode.go, with an index or a
--   slice out of range as the result `panic`.
-- - Emulator/Device, Emulator/Dump, Emulator/Handle, Emulator/Control:
--   backend/internal/device/emulator/emulator.go, and the connection of pipe.go. Device.mu makes each
--   method one step; what it sends is a list of registers with payloads. Times are arguments, in
--   nanoseconds. The pack of battery.go and the passive device of dut.go are parameters (`Plants`).
-- - Hub/State, Hub/Apply: backend/internal/device/state.go, update.go and apply.go, and the begin and
--   the end of hub.go's session. Hub.mu makes each of these functions one step; its broadcasts are a
--   list of updates.
-- - Hub/Command: the commands of backend/internal/device/hub.go. What the transport and the context do
--   to each write is an argument, so that a theorem covers every course of the writes.
-- - Hub/Safety: backend/internal/device/safety.go, with the outcomes of SetOutput as an argument.
-- - Sequence/Program: backend/internal/sequence/program.go, and Condition.Validate of
--   backend/internal/automation/engine.go. A node is its fields, its children and the nodes after it.
-- - Sequence/Run: the interpreter of backend/internal/sequence/manager.go. What a run does is the log
--   of its effects; the hub's answer to each call is an arbitrary function of the log, and what the
--   run receives is a list of inputs, so a loop over telemetry is structural recursion on it.
-- - Sequence/Manager: Start, the run slot and the shared interlock of the same file.
-- - Charger/Plan: backend/internal/charger/presets.go and charge.go.
-- - Charger/Tick, Charger/Run: backend/internal/charger/run.go, a tick and the whole run, and
--   confirmOutputOff of manager.go. The end of the watchdog's time and of the context are inputs
--   beside the updates.
-- - Charger/Manager: Start of backend/internal/charger/manager.go, as one step, with what the hub
--   shows to it and what the settle time brings as arguments; and the cut of a stray output.
-- - Ivtrace/Plan: backend/internal/ivtrace/presets.go and sweep.go; Ivtrace/Tick, Ivtrace/Run: run.go
--   of the same directory, in the way of the charges; Ivtrace/Manager: Start and the cut of a stray
--   output of manager.go; Ivtrace/Fit, Ivtrace/Analyze: analyze.go, with the functions of the packages
--   math and sort as a record of parameters (`Maths`).
-- - History/Recorder: backend/internal/history/recorder.go, with the database's answer to each batch
--   as an argument.
-- - Journal: backend/internal/journal/journal.go, with the store's answer to each entry as an argument.
-- - Automation/Engine: backend/internal/automation/engine.go. A rule's condition is what ParseCondition
--   makes of its text; the calls of a firing are a list.
-- - Notify/Throttle: backend/internal/notify/throttle.go, one kind of notification at a time, with its
--   timer as the time at which it is due. Notify/Settings, Notify/Service: settings.go, notifier.go
--   and metering.go of the same directory. What the snapshots of the hub and the loads of the settings
--   give while an update is handled is an argument.
-- - Mqtt/Service: backend/internal/mqtt/service.go, with the topics of config.go.
-- - Tests: the theorems at concrete inputs, with numbers in place of floats.
--
-- Not modelled: the numbers of battery.go and dut.go and the laws of float comparison; dialling,
-- back-off, timers and write pacing, whose effect is an outcome of a write; the buffers of
-- subscribers and of the in-memory pipe; logging; interleavings inside a command, between its
-- writes. The jobs of the history, the sender of notifications, the HTTP interface, the client and
-- the discovery of MQTT and the storage are outside this development; so are a conversion to a duration that overflows, a
-- recovered panic, and the reconciliation of the store at boot.
pub mod Base
pub mod Float
pub mod Protocol
pub mod Emulator
pub mod Hub
pub mod History
pub mod Journal
pub mod Mqtt
pub mod Sequence
pub mod Automation
pub mod Charger
pub mod Ivtrace
pub mod Notify
pub mod Tests
