-- ===== src/Protocol/Scan/Transmit.antt =====
-- A stream of frames and noise, in any order, and what the decoder reads from it.
use dps150_web.Base.{
  ℕ, ◌≡◌, refl, Bool, true, false, List, [], ◌∷◌, ◌++◌, Option, some, All, ◌==◌, ◌>>=◌, >>=-eq-some,
}
use dps150_web.Protocol.Frame.{Frame, encode}
use dps150_web.Protocol.Scan.{round}
use dps150_web.Protocol.Scan.Runs.{Runs, stops}
use dps150_web.Protocol.Scan.RoundTrip.{Runs-encode, Runs-noise}

-- What a sender puts on the line, and bytes that belong to no frame.
pub data Item : Type 0 where
  noise : List ℕ → Item
  message : Frame → Item

-- The frames among the items, in order.
abbrev pub messages : List Item → List Frame
messages [] = []
messages (noise xs ∷ is) = messages is
messages (message f ∷ is) = f ∷ messages is

module _ (header : ℕ) (valid_group : ℕ → Bool) where
  -- The bytes on the line; `none` if a payload is too long.
  unfoldable pub transmit : List Item → Option (List ℕ)
  transmit [] = some []
  transmit (noise xs ∷ is) = transmit is >>= λ rest. some (xs ++ rest)
  transmit (message f ∷ is) = encode header f.group f.reg f.payload >>= λ bytes.
      transmit is >>= λ rest. some (bytes ++ rest)

  -- Noise holds no header byte, and a message has an admissible group.
  abbrev pub IsClean : Item → Type 0
  IsClean (noise xs) = All (λ x. (x == header) ≡ false) xs
  IsClean (message f) = valid_group f.group ≡ true

  pub Runs-transmit :
      (is : List Item) {stream : List ℕ}
      → All IsClean is
      → transmit is ≡ some stream
      → Runs header valid_group stream (messages is) []
  unfolding transmit
  Runs-transmit [] {stream} clean e =
      let s : [] ≡ stream = cc in rw (← s) (stops {a = []} {r = []} (unfold round in refl))
  Runs-transmit (noise xs ∷ is) {stream} (quiet, clean) e =
      let (rest, e', last) = >>=-eq-some (transmit is) _ e in
      let s : xs ++ rest ≡ stream = cc in
      rw (← s) (Runs-noise header valid_group xs quiet (Runs-transmit is clean e'))
  Runs-transmit (message f ∷ is) {stream} (v, clean) e =
      let (bytes, enc, e1) = >>=-eq-some (encode header f.group f.reg f.payload) _ e in
      let (rest, e', last) = >>=-eq-some (transmit is) _ e1 in
      let s : bytes ++ rest ≡ stream = cc in
      rw (← s)
        (Runs-encode header valid_group f.group f.reg f.payload v enc (Runs-transmit is clean e'))
