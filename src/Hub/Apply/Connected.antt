-- ===== src/Hub/Apply/Connected.antt =====
-- The frames of apply.go and hub.go that connect the hub.
use dps150_web.Base.{ℕ, ◌≡◌, refl, true, List, [], ◌∷◌, ◌++◌, map}
use dps150_web.Float.{Floats}
use dps150_web.Protocol.Register
use dps150_web.Protocol.Frame.{Frame}
use dps150_web.Protocol.Event.{Event, device_info, full_dump, FullDump}
use dps150_web.Protocol.Decode.{Result, ok, err, panic, decode}
use dps150_web.Emulator.Device.{Sent}
use dps150_web.Hub.Apply.{Hub, apply, apply_dump, apply_info, handle_frame, handle_frames}

module _ (fl : Floats) where
  -- A message of the device, as the frame that the host's parser returns.
  abbrev pub rx_frame : ℕ × List ℕ → Frame
  rx_frame (reg, payload) = record { group = Register.group_read; reg = reg; payload = payload }

  apply-connected :
      (h : Hub fl) (ev : Event fl) (now : ℕ)
      → h.connected ≡ true
      → (apply fl h ev now).0.connected ≡ true
  unfolding apply apply_dump apply_info
  apply-connected h (full_dump d) now e = refl
  apply-connected h (device_info f v) now e = e
  apply-connected h _ now e = e

  handle_frame-connected :
      (h : Hub fl) (f : Frame) (now : ℕ)
      → h.connected ≡ true
      → (handle_frame fl h f now).0.connected ≡ true
  unfolding handle_frame
  handle_frame-connected h f now c = go (decode fl f) refl
    where
      go : (r : Result (Event fl)) → decode fl f ≡ r → (handle_frame fl h f now).0.connected ≡ true
      go (ok ev) e = rw (e, handle_frame) (apply-connected h ev now c)
      go (err x) e = rw (e, handle_frame) c
      go panic e = rw (e, handle_frame) c

  handle_frames-connected :
      (fs : List Frame) (h : Hub fl) (now : ℕ)
      → h.connected ≡ true
      → (handle_frames fl h fs now).0.connected ≡ true
  unfolding handle_frames
  handle_frames-connected [] h now c = c
  handle_frames-connected (f ∷ fs) h now c =
      handle_frames-connected fs _ now (handle_frame-connected h f now c)

  -- Among the messages is a full dump that decodes.
  pub data HasDump : Sent → Type 0 where
    now :
        {sent : Sent} (payload : List ℕ) (d : FullDump fl)
        → decode fl (rx_frame (Register.reg_all, payload)) ≡ ok (full_dump d)
        → HasDump ((Register.reg_all, payload) ∷ sent)
    later : {m : ℕ × List ℕ} {sent : Sent} → HasDump sent → HasDump (m ∷ sent)

  pub HasDump-append : (xs : Sent) {ys : Sent} → HasDump ys → HasDump (xs ++ ys)
  HasDump-append [] p = p
  HasDump-append (x ∷ xs) p = later (HasDump-append xs p)

  pub handle_frames-HasDump :
      {sent : Sent} (h : Hub fl) (t : ℕ)
      → HasDump sent
      → (handle_frames fl h (map rx_frame sent) t).0.connected ≡ true
  unfolding handle_frames handle_frame apply apply_dump
  handle_frames-HasDump h t (now {sent = sent} payload d e) =
      handle_frames-connected (map rx_frame sent) _ t (rw (e, handle_frame) refl)
  handle_frames-HasDump h t (later {sent = sent} p) = handle_frames-HasDump _ t p
