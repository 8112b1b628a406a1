-- ===== src/Protocol/Scan.antt =====
-- The resynchronising frame decoder that backend/internal/device/protocol/parser.go (device to
-- host) and backend/internal/device/emulator/txparser.go (host to device) both spell out: the
-- loop of Feed and of feed over the header byte and the test of the GROUP byte in which they differ.
pub mod Runs
pub mod Chunks
pub mod RoundTrip
pub mod Soundness
pub mod Transmit
use dps150_web.Base.{
  ℕ, zero, suc, ◌+◌, Bool, List, [], ◌∷◌, ◌++◌, Option, none, some, length, get_or, take, drop, ltb,
  ◌==◌, if◌then◌else◌,
}
use dps150_web.Protocol.Frame.{Frame, checksum}

-- What one round of the loop does: it stops and keeps the buffer, it consumes a byte and goes on,
-- or it returns a frame and consumes that.
pub data Round : Type 0 where
  wait : List ℕ → Round
  skip : List ℕ → Round
  emit : Frame → List ℕ → Round

-- `bytes.IndexByte` and the first `consume`: what stands before the first header byte is dropped,
-- and the whole buffer where there is none.
unfoldable pub seek : ℕ → List ℕ → List ℕ
seek header [] = []
seek header (b ∷ bs) = if b == header then b ∷ bs else seek header bs

-- The buffer is `h ∷ g ∷ rest` with an admissible GROUP byte `g`: the frame's length and checksum.
unfoldable pub framed : ℕ → ℕ → List ℕ → Round
framed h g [] = wait (h ∷ g ∷ [])
framed h g (reg ∷ []) = wait (h ∷ g ∷ reg ∷ [])
framed h g (reg ∷ len ∷ body) =
    if ltb (length body) (len + 1)
    then wait (h ∷ g ∷ reg ∷ len ∷ body)
    else (if checksum reg (take len body) == get_or body len 0
        then emit (record { group = g; reg = reg; payload = take len body }) (drop (len + 1) body)
        else skip (g ∷ reg ∷ len ∷ body))

module _ (header : ℕ) (valid_group : ℕ → Bool) where
  -- The buffer is empty or begins with the header byte.
  unfoldable pub inspect : List ℕ → Round
  unfolding framed
  inspect [] = wait []
  inspect (h ∷ []) = wait (h ∷ [])
  inspect (h ∷ g ∷ rest) = if valid_group g then framed h g rest else skip (g ∷ rest)

  unfoldable pub round : List ℕ → Round
  unfolding inspect seek
  round buf = inspect (seek header buf)

  -- `none`: the fuel ran out. A round that goes on shortens the buffer.
  unfoldable pub scan : ℕ → List ℕ → List Frame → Option (List Frame × List ℕ)
  unfolding round
  scan zero buf frames = none
  scan (suc fuel) buf frames = elim (round buf) [
    | wait rest ↦ some (frames, rest)
    | skip rest ↦ scan fuel rest frames
    | emit f rest ↦ scan fuel rest (frames ++ (f ∷ []))
  ]

  -- The frames that are complete, and the bytes that stay buffered.
  unfoldable pub drain : List ℕ → List ℕ → Option (List Frame × List ℕ)
  unfolding scan
  drain buf chunk = let joined = buf ++ chunk in scan (suc (length joined)) joined []
