-- ===== src/Protocol/Frame/Checksum.antt =====
-- The checksum of frame.go against its documented formula.
use dps150_web.Base.{ℕ, ◌+◌, ◌%◌, ◌<◌, ◌≡◌, List, [], ◌∷◌, length, arith}
use dps150_web.Protocol.Frame.{add_bytes, checksum}

-- The sum of the bytes, without a bound.
unfoldable pub sum : List ℕ → ℕ
sum [] = 0
sum (b ∷ bs) = b + sum bs

add_bytes-mod : (acc : ℕ) (bs : List ℕ) → add_bytes acc bs % 256 ≡ (acc + sum bs) % 256
unfolding add_bytes sum
add_bytes-mod acc [] = omega arith
add_bytes-mod acc (b ∷ bs) = omega (arith, add_bytes-mod ((acc + b) % 18446744073709551616) bs)

-- The checksum is (REG + LEN + sum(DATA)) & 0xFF for payloads of every length: the wrap-around of
-- the 64-bit accumulator never shows in the low byte.
pub checksum-sum :
    (reg : ℕ) (payload : List ℕ) → checksum reg payload ≡ (reg + length payload + sum payload) % 256
unfolding checksum
checksum-sum reg payload = omega (
  arith,
  add_bytes-mod ((reg + length payload % 18446744073709551616) % 18446744073709551616) payload,
)

pub checksum-lt : (reg : ℕ) (payload : List ℕ) → checksum reg payload < 256
unfolding checksum
checksum-lt reg payload = omega arith
