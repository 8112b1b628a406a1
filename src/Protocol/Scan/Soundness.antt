-- ===== src/Protocol/Scan/Soundness.antt =====
-- The frames that the decoder of parser.go and txparser.go returns, against the bytes that it was fed.
use dps150_web.Base.{
  ℕ, zero, suc, ◌+◌, ◌≤◌, ◌<◌, ◌≡◌, refl, sym, ap, ◌∙◌, Bool, true, List, [], ◌∷◌, ◌++◌, some, ◌⊎◌,
  inl, inr, length, get_or, take, drop, ◌==◌, arith, All, append_assoc, length-take, Bool-cases,
}
use native.Mathlib.Numerals.{add-one}
use dps150_web.Protocol.Frame.{Frame, IsByte, checksum, encode}
use dps150_web.Protocol.Frame.Encoding.{encode-some}
use dps150_web.Protocol.Scan.{wait, skip, emit, seek, framed, inspect, round}
use dps150_web.Protocol.Scan.Runs.{
  Runs, stops, skips, emits, inspect_valid, inspect_wait, seek_head,
}

take-get-drop :
    (n : ℕ) (xs : List ℕ) → n < length xs → take n xs ++ get_or xs n 0 ∷ drop (suc n) xs ≡ xs
take-get-drop n [] h = elim h [ ]
take-get-drop zero (x ∷ xs) h = refl
take-get-drop (suc n) (x ∷ xs) h = ap (λ r. x ∷ r) (take-get-drop n xs (omega arith))

All-suffix {ℓ κ} : {A : Type ℓ} (P : A → Type κ) (xs ys : List A) → All P (xs ++ ys) → All P ys
All-suffix P [] ys a = a
All-suffix P (x ∷ xs) ys (p, a) = All-suffix P xs ys a

seek-All : (P : ℕ → Type 0) (h : ℕ) (a : List ℕ) → All P a → All P (seek h a)
unfolding seek
seek-All P h [] p = p
seek-All P h (x ∷ xs) (p, ps) = elim (Bool-cases (x == h)) [
  | inl e ↦ rw e (p, ps)
  | inr e ↦ rw e (seek-All P h xs ps)
]

framed_skip : (h g : ℕ) (rest : List ℕ) {b : List ℕ} → framed h g rest ≡ skip b → b ≡ g ∷ rest
unfolding framed
framed_skip h g [] e = ground arith
framed_skip h g (x ∷ []) e = ground arith
framed_skip h g (x ∷ n ∷ body) e = ground arith

-- The encoding of `f`, under the header `h`, stands at the front of `s`, and `b` follows.
abbrev pub Leads : ℕ → Frame → List ℕ → List ℕ → Type 0
Leads h f s b =
    (bytes : List ℕ) × (encode h f.group f.reg f.payload ≡ some bytes) × (s ≡ bytes ++ b)

framed-emit_facts :
    (h g x n : ℕ) (body : List ℕ) (f : Frame) (b : List ℕ)
    → framed h g (x ∷ n ∷ body) ≡ emit f b
    → (n < length body)
      × (checksum x (take n body) ≡ get_or body n 0)
      × (f ≡ record { group = g; reg = x; payload = take n body })
      × (b ≡ drop (n + 1) body)
unfolding framed
framed-emit_facts h g x n body f b e = ground arith

framed-emit :
    (h g : ℕ) (rest : List ℕ) {f : Frame} {b : List ℕ}
    → All IsByte rest
    → framed h g rest ≡ emit f b
    → Leads h f (h ∷ g ∷ rest) b × (f.group ≡ g)
framed-emit h g [] bs e = unfold framed in cc
framed-emit h g (x ∷ []) bs e = unfold framed in cc
framed-emit h g (x ∷ n ∷ body) {f} {b} (_, (byte, _)) e =
    let (fits, ce, fe, be) = framed-emit_facts h g x n body f b e in
    let chk = checksum x (take n body) in
    let len = length-take n body (omega arith) in
    let tail : body ≡ (take n body ++ chk ∷ []) ++ b =
      rw (append_assoc (take n body) (chk ∷ []) b, ce, be, add-one)
        (sym (take-get-drop n body fits)) in
    rw fe (
      (
        h ∷ g ∷ x ∷ n ∷ (take n body ++ chk ∷ []),
        rw len at (encode-some h g x (take n body) (omega (arith, len))),
        ap (λ t. h ∷ g ∷ x ∷ n ∷ t) tail,
      ),
      refl,
    )

framed_wait_bound :
    (h g : ℕ) (rest : List ℕ) {r : List ℕ}
    → All IsByte rest
    → framed h g rest ≡ wait r
    → length rest ≤ 257
unfolding framed
framed_wait_bound h g [] bs e = omega arith
framed_wait_bound h g (x ∷ []) bs e = omega arith
framed_wait_bound h g (x ∷ n ∷ body) bs e = ground arith

module _ (header : ℕ) (valid_group : ℕ → Bool) where
  -- `Carries fs a r`: the stream `a` is the encodings of `fs`, in order and with bytes between
  -- them that belong to none, and `r` at the end.
  pub data Carries : List Frame → List ℕ → List ℕ → Type 0 where
    ends : {r : List ℕ} → Carries [] r r
    junk : {fs : List Frame} {a r : List ℕ} (x : ℕ) → Carries fs a r → Carries fs (x ∷ a) r
    frame :
        {f : Frame} {fs : List Frame} {s a r : List ℕ}
        → Leads header f s a
        → valid_group f.group ≡ true
        → Carries fs a r
        → Carries (f ∷ fs) s r

  seek-Carries :
      (a : List ℕ) {fs : List Frame} {r : List ℕ} → Carries fs (seek header a) r → Carries fs a r
  unfolding seek
  seek-Carries [] c = c
  seek-Carries (x ∷ xs) c = elim (Bool-cases (x == header)) [
    | inl e ↦ rw e at c
    | inr e ↦ junk x (seek-Carries xs (rw e at c))
  ]

  inspect_skip :
      (s : List ℕ) {b : List ℕ} → inspect header valid_group s ≡ skip b → (x : ℕ) × (s ≡ x ∷ b)
  unfolding inspect
  inspect_skip [] e = cc
  inspect_skip (h ∷ []) e = cc
  inspect_skip (h ∷ g ∷ rest) e = (h, ground (arith, framed_skip h g rest))

  inspect-emit :
      (s : List ℕ) {f : Frame} {b : List ℕ}
      → ((x : ℕ) (xs : List ℕ) → s ≡ x ∷ xs → x ≡ header)
      → All IsByte s
      → inspect header valid_group s ≡ emit f b
      → Leads header f s b × (valid_group f.group ≡ true)
  unfolding inspect
  inspect-emit [] hd bs e = cc
  inspect-emit (h ∷ []) hd bs e = cc
  inspect-emit (h ∷ g ∷ rest) hd (_, (_, bs)) e = elim (Bool-cases (valid_group g)) [
    | inl v ↦
        let (leads, ge) =
          framed-emit h g rest bs (sym (inspect_valid header valid_group h g rest v) ∙ e) in
        (rw (hd h (g ∷ rest) refl) (rw (hd h (g ∷ rest) refl) at leads), rw ge v)
    | inr v ↦ absurd (ground arith)
  ]

  pub Runs-Carries :
      {a r : List ℕ} {fs : List Frame}
      → All IsByte a
      → Runs header valid_group a fs r
      → Carries fs a r
  unfolding inspect round
  Runs-Carries bs (stops {a = a} e) =
      let kept = inspect_wait header valid_group (seek header a) e in seek-Carries a (rw kept ends)
  Runs-Carries bs (skips {a = a} e rest) =
      let (x, eq) = inspect_skip (seek header a) e in
      let (_, bs') = rw eq at (seek-All IsByte header a bs) in
      seek-Carries a (rw eq (junk x (Runs-Carries bs' rest)))
  Runs-Carries bs (emits {a = a} {b = b} e rest) =
      let bs' = seek-All IsByte header a bs in
      let (leads, v) = inspect-emit (seek header a) (seek_head header a) bs' e in
      let (bytes, _, eq) = leads in
      seek-Carries a (frame leads v (Runs-Carries (All-suffix IsByte bytes b (rw eq at bs')) rest))

  inspect_wait_bound :
      (s : List ℕ) {r : List ℕ}
      → All IsByte s
      → inspect header valid_group s ≡ wait r
      → length s ≤ 259
  unfolding inspect
  inspect_wait_bound [] bs e = omega arith
  inspect_wait_bound (h ∷ []) bs e = omega arith
  inspect_wait_bound (h ∷ g ∷ rest) (_, (_, bs)) e = ground (arith, framed_wait_bound h g rest bs)

  -- What is kept is nothing, or a header byte and at most 258 bytes more.
  abbrev pub IsPartial : List ℕ → Type 0
  IsPartial r = ((r ≡ []) ⊎ (xs : List ℕ) × (r ≡ header ∷ xs)) × (length r ≤ 259)

  starts :
      (s : List ℕ)
      → ((x : ℕ) (xs : List ℕ) → s ≡ x ∷ xs → x ≡ header)
      → (s ≡ []) ⊎ (xs : List ℕ) × (s ≡ header ∷ xs)
  starts [] hd = inl refl
  starts (x ∷ xs) hd = inr (xs, rw (hd x xs refl) refl)

  pub Runs-IsPartial :
      {a r : List ℕ} {fs : List Frame} → All IsByte a → Runs header valid_group a fs r → IsPartial r
  unfolding inspect round
  Runs-IsPartial bs (stops {a = a} e) =
      let s = seek header a in
      rw (inspect_wait header valid_group s e)
        (starts s (seek_head header a), inspect_wait_bound s (seek-All IsByte header a bs) e)
  Runs-IsPartial bs (skips {a = a} e rest) =
      let (x, eq) = inspect_skip (seek header a) e in
      let (_, bs') = rw eq at (seek-All IsByte header a bs) in Runs-IsPartial bs' rest
  Runs-IsPartial bs (emits {a = a} {b = b} e rest) =
      let bs' = seek-All IsByte header a bs in
      let (leads, v) = inspect-emit (seek header a) (seek_head header a) bs' e in
      let (bytes, _, eq) = leads in Runs-IsPartial (All-suffix IsByte bytes b (rw eq at bs')) rest
