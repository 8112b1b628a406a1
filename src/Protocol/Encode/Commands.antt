-- ===== src/Protocol/Encode/Commands.antt =====
-- A command as a value, its bytes by encode.go, and the frame that the device should read from them.
use dps150_web.Base.{ℕ, ◌≡◌, refl, List, [], ◌∷◌, ◌++◌, Option, some, ◌>>=◌, map, ap, Bool}
use dps150_web.Float.{Floats}
use dps150_web.Protocol.Word.{put_u32}
use dps150_web.Protocol.Register.{
  Register, Baud, group_read, group_baud, group_write, group_session, reg_all,
}
use dps150_web.Protocol.Frame.{Frame, encode, header_tx}
use dps150_web.Protocol.Scan.Transmit.{Item, message, messages, transmit}
use dps150_web.Protocol.Encode.{
  set_float, set_byte, get, get_all, session_enable, session_disable, set_baud,
}

module _ (fl : Floats) where
  open fl use {Float32, bits}

  pub data Command : Type 0 where
    write_float : Register → Float32 → Command
    write_byte : Register → ℕ → Command
    read : Register → Command
    read_all : Command
    enable : Command
    disable : Command
    baud : Baud → Command

  unfoldable pub encode_command : Command → Option (List ℕ)
  unfolding set_float set_byte get get_all session_enable session_disable set_baud
  encode_command (write_float reg v) = set_float fl reg v
  encode_command (write_byte reg b) = set_byte reg b
  encode_command (read reg) = get reg
  encode_command read_all = get_all
  encode_command enable = session_enable
  encode_command disable = session_disable
  encode_command (baud b) = set_baud b

  unfoldable pub frame_of : Command → Frame
  frame_of (write_float reg v) = record {
    group = group_write;
    reg = reg;
    payload = put_u32 (bits v);
  }
  frame_of (write_byte reg b) = record { group = group_write; reg = reg; payload = b ∷ [] }
  frame_of (read reg) = record { group = group_read; reg = reg; payload = 0 ∷ [] }
  frame_of read_all = record { group = group_read; reg = reg_all; payload = [] }
  frame_of enable = record { group = group_session; reg = 0; payload = 1 ∷ [] }
  frame_of disable = record { group = group_session; reg = 0; payload = 0 ∷ [] }
  frame_of (baud b) = record { group = group_baud; reg = 0; payload = b ∷ [] }

  -- The bytes of a series of commands.
  unfoldable pub encode_all : List Command → Option (List ℕ)
  unfolding encode_command
  encode_all [] = some []
  encode_all (c ∷ cs) = do bytes ← encode_command c; rest ← encode_all cs; some (bytes ++ rest)

  encode_command-frame_of :
      (c : Command)
      → encode_command c ≡ encode header_tx (frame_of c).group (frame_of c).reg (frame_of c).payload
  unfolding encode_command frame_of
  encode_command-frame_of (write_float reg v) = refl
  encode_command-frame_of (write_byte reg b) = refl
  encode_command-frame_of (read reg) = refl
  encode_command-frame_of read_all = refl
  encode_command-frame_of enable = refl
  encode_command-frame_of disable = refl
  encode_command-frame_of (baud b) = refl

  encode_command_total : (c : Command) → (bytes : List ℕ) × (encode_command c ≡ some bytes)
  unfolding encode_command
  encode_command_total (write_float reg v) = (_, unfold encode in refl)
  encode_command_total (write_byte reg b) = (_, unfold encode in refl)
  encode_command_total (read reg) = (_, unfold encode in refl)
  encode_command_total read_all = (_, unfold encode in refl)
  encode_command_total enable = (_, unfold encode in refl)
  encode_command_total disable = (_, unfold encode in refl)
  encode_command_total (baud b) = (_, unfold encode in refl)

  -- No series of commands panics.
  pub encode_all_total : (cs : List Command) → (bytes : List ℕ) × (encode_all cs ≡ some bytes)
  unfolding encode_all
  encode_all_total [] = ([], refl)
  encode_all_total (c ∷ cs) =
      let (bytes, e) = encode_command_total c in
      let (rest, e') = encode_all_total cs in (bytes ++ rest, rw (e, e'))

  -- The frames that the commands stand for, with nothing between them.
  abbrev pub items : List Command → List Item
  items [] = []
  items (c ∷ cs) = message (frame_of c) ∷ items cs

  pub messages-items : (cs : List Command) → messages (items cs) ≡ map frame_of cs
  messages-items [] = refl
  messages-items (c ∷ cs) = ap (λ fs. frame_of c ∷ fs) (messages-items cs)

  pub encode_all-transmit :
      (valid_group : ℕ → Bool) (cs : List Command)
      → encode_all cs ≡ transmit header_tx valid_group (items cs)
  unfolding encode_all transmit
  encode_all-transmit valid_group [] = refl
  encode_all-transmit valid_group (c ∷ cs) =
      rw (encode_command-frame_of c, encode_all-transmit valid_group cs)
