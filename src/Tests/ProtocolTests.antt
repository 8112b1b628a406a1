-- ===== src/Tests/ProtocolTests.antt =====
-- The protocol at concrete inputs: the frames that encode.go documents, and instances of the
-- theorems.
use dps150_web.Base.{ℕ, ◌≡◌, refl, List, [], ◌∷◌, some, map, arith}
use mathlib.Core.List.{flatten}
use dps150_web.Protocol.Frame.{Frame, header_rx, encode, checksum, add_bytes}
use dps150_web.Protocol.Scan.{framed}
use dps150_web.Protocol.Scan.Soundness.{Carries}
use dps150_web.Protocol.Scan.Transmit.{noise, message, transmit}
use dps150_web.Protocol.Parser.{Parser, idle, is_read, feed, feed_all}
use dps150_web.Protocol.Parser.Stream.{feed_total, feed_all-idle, feed-transmit, feed-Carries}
use dps150_web.Protocol.Encode.{set_byte, get, get_all, set_baud}
use dps150_web.Protocol.Encode.Commands.{Command, write_byte, read_all, encode_all, frame_of}
use dps150_web.Protocol.Decode.{decode}
use dps150_web.Protocol.Decode.Totality.{verdict, admits, layout, decode-layout}
use dps150_web.Emulator.TxParser
use dps150_web.Emulator.TxParser.Stream.{feed-encode_all}
use dps150_web.Tests.{sample}

-- The examples of the comments in encode.go.
set_byte_bytes : set_byte 0xDB 1 ≡ some (0xF1 ∷ 0xB1 ∷ 0xDB ∷ 0x01 ∷ 0x01 ∷ 0xDD ∷ [])
unfolding set_byte add_bytes checksum
set_byte_bytes = refl

get_bytes : get 0xDE ≡ some (0xF1 ∷ 0xA1 ∷ 0xDE ∷ 0x01 ∷ 0x00 ∷ 0xDF ∷ [])
unfolding get checksum
get_bytes = refl

get_all_bytes : get_all ≡ some (0xF1 ∷ 0xA1 ∷ 0xFF ∷ 0x00 ∷ 0xFF ∷ [])
unfolding get_all checksum
get_all_bytes = refl

set_baud_bytes : set_baud 5 ≡ some (0xF1 ∷ 0xB0 ∷ 0x00 ∷ 0x01 ∷ 0x05 ∷ 0x06 ∷ [])
unfolding set_baud checksum
set_baud_bytes = refl

-- The device reports that the output is on.
abbrev output_frame : Frame
output_frame = record { group = 0xA1; reg = 0xDB; payload = 1 ∷ [] }

abbrev output_bytes : List ℕ
output_bytes = 0xF0 ∷ 0xA1 ∷ 0xDB ∷ 1 ∷ 1 ∷ 0xDD ∷ []

feed_output : feed idle (7 ∷ output_bytes) ≡ some (output_frame ∷ [], idle)
unfolding feed framed checksum
feed_output = refl

-- A false header before the frame costs one byte.
feed_false_sync : feed idle (0xF0 ∷ 0x00 ∷ output_bytes) ≡ some (output_frame ∷ [], idle)
unfolding feed checksum
feed_false_sync = refl

feed_total_example : (fs : List Frame) × (q : Parser) × (feed idle output_bytes ≡ some (fs, q))
feed_total_example = feed_total idle output_bytes

feed_all-idle_example :
    feed_all idle ((0xF0 ∷ 0xA1 ∷ []) ∷ (0xDB ∷ 1 ∷ 1 ∷ []) ∷ (0xDD ∷ []) ∷ [])
    ≡ feed idle output_bytes
unfolding flatten
feed_all-idle_example = feed_all-idle ((0xF0 ∷ 0xA1 ∷ []) ∷ (0xDB ∷ 1 ∷ 1 ∷ []) ∷ (0xDD ∷ []) ∷ [])

feed-transmit_example : feed idle (9 ∷ 8 ∷ output_bytes) ≡ some (output_frame ∷ [], idle)
unfolding transmit encode checksum add_bytes
feed-transmit_example =
    feed-transmit (noise (9 ∷ 8 ∷ []) ∷ message output_frame ∷ []) (9 ∷ 8 ∷ output_bytes)
      ((refl, (refl, tt)), (refl, tt)) refl

feed-Carries_example : Carries header_rx is_read (output_frame ∷ []) (7 ∷ output_bytes) []
feed-Carries_example =
    feed-Carries idle (7 ∷ output_bytes) (output_frame ∷ []) idle (omega arith) feed_output

abbrev commands : List (Command sample)
commands = write_byte 0xDB 1 ∷ read_all ∷ []

feed-encode_all_example :
    TxParser.feed TxParser.idle
      (0xF1 ∷ 0xB1 ∷ 0xDB ∷ 1 ∷ 1 ∷ 0xDD ∷ 0xF1 ∷ 0xA1 ∷ 0xFF ∷ 0 ∷ 0xFF ∷ [])
    ≡ some (map (frame_of sample) commands, TxParser.idle)
unfolding encode_all checksum add_bytes
feed-encode_all_example =
    feed-encode_all sample commands
      (0xF1 ∷ 0xB1 ∷ 0xDB ∷ 1 ∷ 1 ∷ 0xDD ∷ 0xF1 ∷ 0xA1 ∷ 0xFF ∷ 0 ∷ 0xFF ∷ []) refl

decode-layout_example : verdict (decode sample output_frame) ≡ admits (layout 0xDB) 1
decode-layout_example = decode-layout sample output_frame
