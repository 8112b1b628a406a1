-- ===== src/Protocol/Parser.antt =====
-- backend/internal/device/protocol/parser.go: the decoder of device-to-host frames, and the loop
-- of the hub's session (backend/internal/device/hub.go) that feeds it what each read returns.
pub mod Stream
use dps150_web.Base.{ℕ, List, [], ◌∷◌, ◌++◌, Bool, Option, some, ◌==◌, ◌>>=◌}
use dps150_web.Protocol.Register.{group_read}
use dps150_web.Protocol.Frame.{Frame, header_rx}
use dps150_web.Protocol.Scan.{drain}

pub record Parser : Type 0 where
  pub buf : List ℕ

-- The zero value.
abbrev pub idle : Parser
idle = record { buf = [] }

-- Device-to-host frames always carry GROUP A1.
abbrev pub is_read : ℕ → Bool
is_read g = g == group_read

unfoldable pub feed : Parser → List ℕ → Option (List Frame × Parser)
unfolding drain
feed p chunk = do
  (frames, rest) ← drain header_rx is_read p.buf chunk
  some (frames, record { buf = rest })

-- The frames that the session sees over a series of reads.
unfoldable pub feed_all : Parser → List (List ℕ) → Option (List Frame × Parser)
unfolding feed
feed_all p [] = some ([], p)
feed_all p (chunk ∷ chunks) = do
  (fs, q) ← feed p chunk
  (gs, last) ← feed_all q chunks
  some (fs ++ gs, last)
