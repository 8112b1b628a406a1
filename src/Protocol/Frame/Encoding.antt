-- ===== src/Protocol/Frame/Encoding.antt =====
-- What `encode` of frame.go writes, and when it panics.
use dps150_web.Base.{
  ℕ, ◌+◌, ◌≤◌, ◌<◌, ◌≡◌, ◌↔◌, List, [], ◌∷◌, ◌++◌, none, some, length, All, arith, length-append,
  All-append,
}
use dps150_web.Protocol.Frame.{IsByte, checksum, encode}
use dps150_web.Protocol.Frame.Checksum.{checksum-lt}

pub encode_shape :
    (header g reg : ℕ) (payload bytes : List ℕ)
    → encode header g reg payload ≡ some bytes
    → (length payload ≤ 255)
      × (bytes ≡ header ∷ g ∷ reg ∷ length payload ∷ (payload ++ checksum reg payload ∷ []))
unfolding encode
encode_shape header g reg payload bytes e = ground arith

pub encode-some :
    (header g reg : ℕ) (payload : List ℕ)
    → length payload ≤ 255
    → encode header g reg payload
      ≡ some (header ∷ g ∷ reg ∷ length payload ∷ (payload ++ checksum reg payload ∷ []))
unfolding encode
encode-some header g reg payload h = ground arith

-- Encoding panics exactly on a payload of more than 255 bytes.
pub encode-none_iff :
    (header g reg : ℕ) (payload : List ℕ)
    → (encode header g reg payload ≡ none) ↔ (255 < length payload)
unfolding encode
encode-none_iff header g reg payload = ground arith

-- An encoded frame is five bytes longer than its payload, and each of its elements is a byte if
-- its header, group, register and payload are.
pub encode-IsByte :
    (header g reg : ℕ) (payload bytes : List ℕ)
    → IsByte header
    → IsByte g
    → IsByte reg
    → All IsByte payload
    → encode header g reg payload ≡ some bytes
    → All IsByte bytes × (length bytes ≡ length payload + 5)
encode-IsByte header g reg payload bytes h hg hr hp e =
    let (fits, shape) = encode_shape header g reg payload bytes e in
    let chk = checksum reg payload in
    rw shape (
      (
        h,
        (
          hg,
          (
            hr,
            (omega arith, All-append IsByte payload (chk ∷ []) hp (checksum-lt reg payload, tt)),
          ),
        ),
      ),
      omega (arith, length-append payload (chk ∷ [])),
    )
