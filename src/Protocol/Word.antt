-- ===== src/Protocol/Word.antt =====
-- Little-endian 32-bit words, as encoding/binary writes and reads them in
-- backend/internal/device/protocol and in the emulator.
use dps150_web.Base.{ℕ, ◌+◌, ◌*◌, ◌/◌, ◌%◌, ◌^◌, ◌<◌, ◌≡◌, List, [], ◌∷◌, All, arith}
use dps150_web.Protocol.Frame.{IsByte}

-- binary.LittleEndian.PutUint32
abbrev pub put_u32 : ℕ → List ℕ
put_u32 w = (w % 256) ∷ (w / 256 % 256) ∷ (w / 65536 % 256) ∷ (w / 16777216 % 256) ∷ []

-- binary.LittleEndian.Uint32 of four bytes
abbrev pub u32 : ℕ → ℕ → ℕ → ℕ → ℕ
u32 a b c d = a + 256 * b + 65536 * c + 16777216 * d

pub u32-put_u32 :
    (w : ℕ) → w < 2 ^ 32 → u32 (w % 256) (w / 256 % 256) (w / 65536 % 256) (w / 16777216 % 256) ≡ w
u32-put_u32 w h = omega arith

pub put_u32-IsByte : (w : ℕ) → All IsByte (put_u32 w)
put_u32-IsByte w = omega arith
