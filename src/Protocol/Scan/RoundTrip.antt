-- ===== src/Protocol/Scan/RoundTrip.antt =====
-- The decoder of parser.go and txparser.go on what `encode` of frame.go wrote.
use dps150_web.Base.{
  ℕ, suc, ◌+◌, ◌≡◌, refl, Bool, true, false, List, [], ◌∷◌, ◌++◌, some, length, drop, get_or, All,
  ◌==◌, arith, append_assoc, length-append, take-length_append,
}
use native.Mathlib.Numerals.{add-one}
use dps150_web.Protocol.Frame.{Frame, checksum, encode}
use dps150_web.Protocol.Frame.Encoding.{encode_shape}
use dps150_web.Protocol.Scan.{emit, seek, framed, round}
use dps150_web.Protocol.Scan.Runs.{
  Runs, emits, Runs-same_round, seek_self, round-inspect, inspect_valid,
}

drop-suc-past : (xs : List ℕ) (y : ℕ) (ys : List ℕ) → drop (suc (length xs)) (xs ++ y ∷ ys) ≡ ys
drop-suc-past [] y ys = refl
drop-suc-past (x ∷ xs) y ys = drop-suc-past xs y ys

drop-past : (xs : List ℕ) (y : ℕ) (ys : List ℕ) → drop (length xs + 1) (xs ++ y ∷ ys) ≡ ys
drop-past xs y ys = rw add-one (drop-suc-past xs y ys)

get_or-past : (xs : List ℕ) (y : ℕ) (ys : List ℕ) → get_or (xs ++ y ∷ ys) (length xs) 0 ≡ y
get_or-past [] y ys = refl
get_or-past (x ∷ xs) y ys = get_or-past xs y ys

framed-encode :
    (h g reg n : ℕ) (payload rest : List ℕ)
    → n ≡ length payload
    → framed h g (reg ∷ n ∷ (payload ++ checksum reg payload ∷ rest))
      ≡ emit (record { group = g; reg = reg; payload = payload }) rest
unfolding framed
framed-encode h g reg n payload rest e =
    let chk = checksum reg payload in
    rw e (
      ground (
        arith,
        length-append payload (chk ∷ rest),
        take-length_append payload (chk ∷ rest),
        get_or-past payload chk rest,
        drop-past payload chk rest,
      ))

seek-noise :
    (h : ℕ) (noise b : List ℕ) → All (λ x. (x == h) ≡ false) noise → seek h (noise ++ b) ≡ seek h b
unfolding seek
seek-noise h [] b a = refl
seek-noise h (x ∷ xs) b a = ground (arith, seek-noise h xs b)

module _ (header : ℕ) (valid_group : ℕ → Bool) where
  round-encode :
      (g reg : ℕ) (payload bytes rest : List ℕ)
      → valid_group g ≡ true
      → encode header g reg payload ≡ some bytes
      → round header valid_group (bytes ++ rest)
        ≡ emit (record { group = g; reg = reg; payload = payload }) rest
  round-encode g reg payload bytes rest v e =
      let (fits, shape) = encode_shape header g reg payload bytes e in
      let chk = checksum reg payload in
      rw
        (
          shape,
          append_assoc payload (chk ∷ []) rest,
          round-inspect header valid_group,
          seek_self,
          inspect_valid header valid_group header g (reg ∷ length payload ∷ (payload ++ chk ∷ rest))
              v,
        )
        (framed-encode header g reg (length payload) payload rest refl)

  -- A frame is read off the front of the buffer.
  pub Runs-encode :
      (g reg : ℕ) (payload : List ℕ) {bytes rest r : List ℕ} {fs : List Frame}
      → valid_group g ≡ true
      → encode header g reg payload ≡ some bytes
      → Runs header valid_group rest fs r
      → Runs header valid_group
          (bytes ++ rest)
          (record { group = g; reg = reg; payload = payload } ∷ fs)
          r
  Runs-encode g reg payload {bytes} {rest} v e run =
      emits (round-encode g reg payload bytes rest v e) run

  -- Bytes with no header among them are dropped.
  pub Runs-noise :
      (noise : List ℕ) {b r : List ℕ} {fs : List Frame}
      → All (λ x. (x == header) ≡ false) noise
      → Runs header valid_group b fs r
      → Runs header valid_group (noise ++ b) fs r
  unfolding round
  Runs-noise noise {b} a run =
      Runs-same_round header valid_group (rw (seek-noise header noise b a) refl) run
