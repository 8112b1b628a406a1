-- ===== src/Emulator/TxParser.antt =====
-- backend/internal/device/emulator/txparser.go: the decoder of host-to-device frames.
pub mod Stream
use dps150_web.Base.{ℕ, List, [], Bool, Option, some, ◌==◌, ◌||◌, ◌>>=◌}
use dps150_web.Protocol.Register.{group_read, group_baud, group_write, group_session}
use dps150_web.Protocol.Frame.{Frame, header_tx}
use dps150_web.Protocol.Scan.{drain}

pub record TxParser : Type 0 where
  pub buf : List ℕ

-- The zero value.
abbrev pub idle : TxParser
idle = record { buf = [] }

abbrev pub valid_tx_group : ℕ → Bool
valid_tx_group g = g == group_read || g == group_baud || g == group_write || g == group_session

unfoldable pub feed : TxParser → List ℕ → Option (List Frame × TxParser)
unfolding drain
feed p chunk = do
  (frames, rest) ← drain header_tx valid_tx_group p.buf chunk
  some (frames, record { buf = rest })
