-- ===== src/Emulator/TxParser/Stream.antt =====
-- What txparser.go reads from the byte stream, and from the commands of the host.
use dps150_web.Base.{ℕ, ◌≡◌, refl, ◌∙◌, sym, true, List, [], ◌∷◌, ◌++◌, some, All, map}
use dps150_web.Float.{Floats}
use dps150_web.Protocol.Frame.{Frame, header_tx}
use dps150_web.Protocol.Scan.Chunks.{drain_total, drain-append, drain-Runs}
use dps150_web.Protocol.Scan.Transmit.{Item, messages, transmit, IsClean, Runs-transmit}
use dps150_web.Protocol.Encode.Commands.{
  Command, write_float, write_byte, read, read_all, enable, disable, baud, frame_of, encode_all,
  items, messages-items, encode_all-transmit,
}
use dps150_web.Emulator.TxParser.{TxParser, idle, valid_tx_group, feed}

-- Feeding two chunks one after the other returns the frames, and leaves the parser, that feeding
-- them joined does; and each of these calls ends.
pub tx_feed-append :
    (p : TxParser) (a b : List ℕ)
    → (fs gs : List Frame) × (q r : TxParser) × (feed p a ≡ some (fs, q))
      × (feed q b ≡ some (gs, r))
      × (feed p (a ++ b) ≡ some (fs ++ gs, r))
unfolding feed
tx_feed-append p a b =
    let (fs, r, run, e) = drain_total header_tx valid_tx_group p.buf a in
    let (gs, s, run', e') = drain_total header_tx valid_tx_group r b in
    (
      fs,
      gs,
      record { buf = r },
      record { buf = s },
      rw e,
      rw e',
      rw (drain-append header_tx valid_tx_group p.buf a b, e, e'),
    )

tx_feed-transmit :
    (is : List Item) (stream : List ℕ)
    → All (IsClean header_tx valid_tx_group) is
    → transmit header_tx valid_tx_group is ≡ some stream
    → feed idle stream ≡ some (messages is, idle)
unfolding feed
tx_feed-transmit is stream clean e = rw (
    drain-Runs header_tx valid_tx_group [] stream
      (Runs-transmit header_tx valid_tx_group is clean e))

module _ (fl : Floats) where
  command_group : (c : Command fl) → valid_tx_group (frame_of fl c).group ≡ true
  unfolding frame_of
  command_group (write_float reg v) = refl
  command_group (write_byte reg b) = refl
  command_group (read reg) = refl
  command_group read_all = refl
  command_group enable = refl
  command_group disable = refl
  command_group (baud b) = refl

  items-IsClean : (cs : List (Command fl)) → All (IsClean header_tx valid_tx_group) (items fl cs)
  items-IsClean [] = tt
  items-IsClean (c ∷ cs) = (command_group c, items-IsClean cs)

  -- Every series of commands that the host encodes is decoded by the device to the frames of those
  -- commands, in order, and nothing stays buffered.
  pub feed-encode_all :
      (cs : List (Command fl)) (bytes : List ℕ)
      → encode_all fl cs ≡ some bytes
      → feed idle bytes ≡ some (map (frame_of fl) cs, idle)
  feed-encode_all cs bytes e = rw (← messages-items fl cs) (
      tx_feed-transmit (items fl cs) bytes (items-IsClean cs)
        (sym (encode_all-transmit fl valid_tx_group cs) ∙ e))
