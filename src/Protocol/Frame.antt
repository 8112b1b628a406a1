-- ===== src/Protocol/Frame.antt =====
-- backend/internal/device/protocol/frame.go: the frame, its checksum and its encoding.
pub mod Checksum
pub mod Encoding
use dps150_web.Base.{
  ℕ, ◌+◌, ◌%◌, ◌^◌, ◌<◌, List, [], ◌∷◌, ◌++◌, Option, none, some, length, ltb, if◌then◌else◌,
}
use dps150_web.Protocol.Register.{Group, Register}

abbrev pub IsByte : ℕ → Type 0
IsByte b = b < 256

abbrev pub header_tx : ℕ
header_tx = 0xF1

abbrev pub header_rx : ℕ
header_rx = 0xF0

abbrev pub header_size : ℕ
header_size = 4

abbrev pub max_data_len : ℕ
max_data_len = 0xFF

pub record Frame : Type 0 where
  pub group : Group
  pub reg : Register
  pub payload : List ℕ

-- A Go `uint` has 64 bits.
abbrev pub uint : ℕ → ℕ
uint n = n % 2 ^ 64

-- The loop `sum += uint(b)`.
unfoldable pub add_bytes : ℕ → List ℕ → ℕ
add_bytes sum [] = sum
add_bytes sum (b ∷ bs) = add_bytes (uint (sum + b)) bs

unfoldable pub checksum : Register → List ℕ → ℕ
unfolding add_bytes
checksum reg payload = add_bytes (uint (reg + uint (length payload))) payload % 256

-- `none` is the panic on a payload that the length byte cannot express.
unfoldable pub encode : ℕ → Group → Register → List ℕ → Option (List ℕ)
encode header group reg payload =
    if ltb max_data_len (length payload)
    then none
    else some
        (header ∷ group ∷ reg ∷ (length payload % 256) ∷ (payload ++ checksum reg payload ∷ []))

unfoldable pub encode_tx : Group → Register → List ℕ → Option (List ℕ)
unfolding encode
encode_tx = encode header_tx

unfoldable pub encode_rx : Group → Register → List ℕ → Option (List ℕ)
unfolding encode
encode_rx = encode header_rx
