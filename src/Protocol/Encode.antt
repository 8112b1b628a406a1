-- ===== src/Protocol/Encode.antt =====
-- backend/internal/device/protocol/encode.go: the commands of the host. `none` is the panic of
-- `encode` on a payload that is too long.
pub mod Commands
use dps150_web.Base.{ℕ, List, [], ◌∷◌, Option}
use dps150_web.Float.{Floats}
use dps150_web.Protocol.Word.{put_u32}
use dps150_web.Protocol.Register.{
  Register, Baud, group_read, group_baud, group_write, group_session, reg_all,
}
use dps150_web.Protocol.Frame.{encode_tx}

unfoldable pub set_float : (fl : Floats) → Register → fl.Float32 → Option (List ℕ)
unfolding encode_tx
set_float fl reg v = encode_tx group_write reg (put_u32 (fl.bits v))

unfoldable pub set_byte : Register → ℕ → Option (List ℕ)
unfolding encode_tx
set_byte reg b = encode_tx group_write reg (b ∷ [])

unfoldable pub get : Register → Option (List ℕ)
unfolding encode_tx
get reg = encode_tx group_read reg (0 ∷ [])

unfoldable pub get_all : Option (List ℕ)
unfolding encode_tx
get_all = encode_tx group_read reg_all []

unfoldable pub session_enable : Option (List ℕ)
unfolding encode_tx
session_enable = encode_tx group_session 0 (1 ∷ [])

unfoldable pub session_disable : Option (List ℕ)
unfolding encode_tx
session_disable = encode_tx group_session 0 (0 ∷ [])

unfoldable pub set_baud : Baud → Option (List ℕ)
unfolding encode_tx
set_baud b = encode_tx group_baud 0 (b ∷ [])
