-- ===== src/Protocol/Decode/Totality.antt =====
-- The payloads that decode.go admits for each register.
use dps150_web.Base.{
  ℕ, zero, suc, ◌+◌, ◌*◌, ◌≤◌, ◌<◌, ◌≡◌, inl, inr, refl, List, [], ◌∷◌, ◌||◌, ◌&&◌, length, drop,
  length-drop, ltb, leb, ◌==◌, if◌then◌else◌, arith, Bool-cases,
}
use dps150_web.Float.{Floats}
use dps150_web.Protocol.Frame.{Frame}
use dps150_web.Protocol.Event.{
  Event, input_voltage, temperature, max_voltage, max_current, voltage_set, current_set,
  output_state, protection_state, cccv_mode, capacity, energy,
}
use dps150_web.Protocol.Decode.{
  Result, ok, err, panic, ◌>>=◌, unsupported_register, payload_size, index, decode_byte, f32,
  f32_at, decode_float, decode_presets, decode_dump, decode_full_dump, float_event, byte_event,
  decode_measurement, decode,
}

-- What a payload must be: of one exact size, of at least a size, or anything.
pub data Layout : Type 0 where
  exactly : ℕ → Layout
  at_least : ℕ → Layout
  text : Layout
  unknown : Layout

-- The payload of each register that Decode supports: four bytes for a float32 (0xC0 to 0xC4 but 0xC3, 0xD9, 0xDA, 0xE2 and 0xE3), one for a u8
-- (0xDB to 0xDD), twelve for the measurement (0xC3), the 119 known bytes for the full dump (0xFF), and any for a text (0xDE to 0xE0).
pub layout : ℕ → Layout
layout reg =
    if reg == 0xC3
    then exactly 12
    else if reg == 0xFF
    then at_least 119
    else if reg == 0xDB || reg == 0xDC || reg == 0xDD
    then exactly 1
    else if reg == 0xDE || reg == 0xDF || reg == 0xE0
    then text
    else if leb 0xC0 reg && leb reg 0xC4 || reg == 0xD9 || reg == 0xDA || reg == 0xE2 || reg == 0xE3
    then exactly 4
    else unknown

pub data Verdict : Type 0 where
  accepted wrong_size not_decoded crashed : Verdict

pub admits : Layout → ℕ → Verdict
admits (exactly k) n = if n == k then accepted else wrong_size
admits (at_least k) n = if leb k n then accepted else wrong_size
admits text n = accepted
admits unknown n = not_decoded

abbrev pub verdict {ℓ} : {A : Type ℓ} → Result A → Verdict
verdict (ok a) = accepted
verdict (err unsupported_register) = not_decoded
verdict (err payload_size) = wrong_size
verdict panic = crashed

-- The result is a value.
abbrev IsOk {ℓ} : {A : Type ℓ} → Result A → Type ℓ
IsOk {A} m = (a : A) × (m ≡ ok a)

bind-IsOk {ℓ κ} :
    {A : Type ℓ} {B : Type κ} (m : Result A) (f : A → Result B)
    → IsOk m
    → ((a : A) → IsOk (f a))
    → IsOk (m >>= f)
bind-IsOk m f (a, e) h = rw e (h a)

index-IsOk : (d : List ℕ) (i : ℕ) → i < length d → IsOk (index d i)
unfolding index
index-IsOk [] i h = elim h [ ]
index-IsOk (b ∷ bs) zero h = (b, refl)
index-IsOk (b ∷ bs) (suc i) h = index-IsOk bs i (omega arith)

module _ (fl : Floats) where
  f32-IsOk : (d : List ℕ) → 4 ≤ length d → IsOk (f32 fl d)
  unfolding f32
  f32-IsOk (a ∷ b ∷ c ∷ e ∷ rest) h = (_, refl)
  f32-IsOk [] h = absurd (omega arith)
  f32-IsOk (a ∷ []) h = absurd (omega arith)
  f32-IsOk (a ∷ b ∷ []) h = absurd (omega arith)
  f32-IsOk (a ∷ b ∷ c ∷ []) h = absurd (omega arith)

  f32_at-IsOk : (d : List ℕ) (off : ℕ) → off + 4 ≤ length d → IsOk (f32_at fl d off)
  unfolding f32_at
  f32_at-IsOk d off h = elim (Bool-cases (leb off (length d))) [
    | inl e ↦ rw e (f32-IsOk (drop off d) (omega (arith, length-drop off d)))
    | inr e ↦ absurd (ground arith)
  ]

  presets-IsOk :
      (d : List ℕ) (i k : ℕ) → 28 + (i + k) * 8 ≤ length d → IsOk (decode_presets fl d i k)
  unfolding decode_presets
  presets-IsOk d i zero h = ([], refl)
  presets-IsOk d i (suc k) h = bind-IsOk _ _ (f32_at-IsOk d (28 + i * 8) (omega arith)) λ v.
      bind-IsOk _ _ (f32_at-IsOk d (28 + i * 8 + 4) (omega arith))
        λ c. bind-IsOk _ _ (presets-IsOk d (i + 1) k (omega arith)) λ rest. (_, refl)

  dump-IsOk : (d : List ℕ) → 119 ≤ length d → IsOk (decode_dump fl d)
  unfolding decode_dump
  dump-IsOk d h = bind-IsOk _ _ (f32_at-IsOk d 0 (omega arith)) λ _.
      bind-IsOk _ _ (f32_at-IsOk d 4 (omega arith)) λ _.
        bind-IsOk _ _ (f32_at-IsOk d 8 (omega arith)) λ _.
          bind-IsOk _ _ (f32_at-IsOk d 12 (omega arith)) λ _.
            bind-IsOk _ _ (f32_at-IsOk d 16 (omega arith)) λ _.
              bind-IsOk _ _ (f32_at-IsOk d 20 (omega arith)) λ _.
                bind-IsOk _ _ (f32_at-IsOk d 24 (omega arith)) λ _.
                  bind-IsOk _ _ (f32_at-IsOk d 76 (omega arith)) λ _.
                    bind-IsOk _ _ (f32_at-IsOk d 80 (omega arith)) λ _.
                      bind-IsOk _ _ (f32_at-IsOk d 84 (omega arith)) λ _.
                        bind-IsOk _ _ (f32_at-IsOk d 88 (omega arith)) λ _.
                          bind-IsOk _ _ (f32_at-IsOk d 92 (omega arith)) λ _.
                            bind-IsOk _ _ (index-IsOk d 96 (omega arith)) λ _.
                              bind-IsOk _ _ (index-IsOk d 97 (omega arith)) λ _.
                                bind-IsOk _ _ (index-IsOk d 98 (omega arith)) λ _.
                                  bind-IsOk _ _ (f32_at-IsOk d 99 (omega arith)) λ _.
                                    bind-IsOk _ _ (f32_at-IsOk d 103 (omega arith)) λ _.
                                      bind-IsOk _ _ (index-IsOk d 107 (omega arith)) λ _.
                                        bind-IsOk _ _ (index-IsOk d 108 (omega arith)) λ _.
                                          bind-IsOk _ _ (index-IsOk d 109 (omega arith)) λ _.
                                            bind-IsOk _ _ (f32_at-IsOk d 111 (omega arith)) λ _.
                                              bind-IsOk _ _ (f32_at-IsOk d 115 (omega arith)) λ _.
                                                bind-IsOk _ _ (presets-IsOk d 0 6 (omega arith))
                                                  λ _. (_, refl)

  verdict_ok : (m : Result (Event fl)) → IsOk m → verdict m ≡ accepted
  verdict_ok m (a, e) = rw e refl

  verdict-float_event :
      (make : fl.Float32 → Event fl) (f : Frame)
      → verdict (float_event fl make f) ≡ admits (exactly 4) (length f.payload)
  unfolding float_event decode_float admits
  verdict-float_event make f = elim (Bool-cases (length f.payload == 4)) [
    | inl e ↦ let (v, r) = f32-IsOk f.payload (ground arith) in rw (e, r) refl
    | inr e ↦ rw e refl
  ]

  verdict-byte_event :
      (make : ℕ → Event fl) (f : Frame)
      → verdict (byte_event fl make f) ≡ admits (exactly 1) (length f.payload)
  unfolding byte_event decode_byte admits
  verdict-byte_event make f = elim (Bool-cases (length f.payload == 1)) [
    | inl e ↦ let (v, r) = index-IsOk f.payload 0 (ground arith) in rw (e, r) refl
    | inr e ↦ rw e refl
  ]

  measurement_verdict :
      (f : Frame) → verdict (decode_measurement fl f) ≡ admits (exactly 12) (length f.payload)
  unfolding decode_measurement admits
  measurement_verdict f = elim (Bool-cases (length f.payload == 12)) [
    | inl e ↦
        let (v, rv) = f32_at-IsOk f.payload 0 (ground arith) in
        let (i, ri) = f32_at-IsOk f.payload 4 (ground arith) in
        let (p, rp) = f32_at-IsOk f.payload 8 (ground arith) in rw (e, rv, ri, rp) refl
    | inr e ↦ rw e refl
  ]

  full_dump_verdict :
      (f : Frame) → verdict (decode_full_dump fl f) ≡ admits (at_least 119) (length f.payload)
  unfolding decode_full_dump admits
  full_dump_verdict f = elim (Bool-cases (ltb (length f.payload) 119)) [
    | inl e ↦ ground arith
    | inr e ↦ let (ev, r) = dump-IsOk f.payload (ground arith) in rw (e, r) (ground arith)
  ]

  -- Decode accepts a frame exactly when its register is one of 0xC0 to 0xC4, 0xD9 to 0xE0, 0xE2, 0xE3 and 0xFF, and its payload has
  -- 4 bytes, or 12 for 0xC3, 1 for 0xDB to 0xDD, any number for 0xDE to 0xE0, and 119 or more for 0xFF. With one of these registers another size is ErrPayloadSize; any other register,
  -- also a setting such as a preset (0xC5 to 0xD0), a protection (0xD1 to 0xD5) or 0xD6 to 0xD8, is ErrUnsupportedRegister; and no frame makes it panic.
  pub decode-layout : (f : Frame) → verdict (decode fl f) ≡ admits (layout f.reg) (length f.payload)
  unfolding decode layout admits
  decode-layout f = ground (
    arith,
    verdict-float_event input_voltage f,
    verdict-float_event voltage_set f,
    verdict-float_event current_set f,
    verdict-float_event temperature f,
    verdict-float_event capacity f,
    verdict-float_event energy f,
    verdict-float_event max_voltage f,
    verdict-float_event max_current f,
    verdict-byte_event (λ b. output_state (b == 1)) f,
    verdict-byte_event protection_state f,
    verdict-byte_event cccv_mode f,
    full_dump_verdict f,
    measurement_verdict f,
  )
