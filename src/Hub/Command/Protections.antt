-- ===== src/Hub/Command/Protections.antt =====
-- SetProtections of hub.go: the thresholds that it writes, and when.
use dps150_web.Base.{
  ℕ, ◌≡◌, ◌≢◌, ◌∙◌, refl, ap, Bool, true, false, List, [], ◌∷◌, ◌++◌, Option, none, some, arith,
  Bool-cases, Option-cases, ◌⊎◌, inl, inr, append_assoc, append-nil, All,
}
use mathlib.Core.Path.{subst}
use dps150_web.Float.{Floats}
use dps150_web.Protocol.Encode.Commands.{Command, write_float, read_all}
use dps150_web.Hub.State.{State}
use dps150_web.Hub.Apply.{Hub}
use dps150_web.Hub.Command.{
  Outcome, Reply, write_then, finite_in_range, ProtectionLimits, Field, fields, protection_frames,
  set_protections, or_old,
}
use dps150_web.Hub.Command.Laws.{Atomic, write_then-Atomic}

module _ (fl : Floats) where
  open fl use {Float64}

  -- The thresholds that are given, as the writes that they ask for.
  abbrev pub given : List (Field fl) → List (Command fl)
  given [] = []
  given (f ∷ fs) =
      (elim f.value [ none ↦ [] | some v ↦ write_float f.reg (fl.narrow v) ∷ [] ]) ++ given fs

  abbrev pub IsAllowed : Field fl → Type 0
  IsAllowed f = elim f.value [ none ↦ Unit | some v ↦ finite_in_range fl v f.allow_zero ≡ true ]

  protection_frames-given :
      (fs : List (Field fl)) (acc out : List (Command fl))
      → protection_frames fl fs acc ≡ some out
      → (out ≡ acc ++ given fs) × All IsAllowed fs
  unfolding protection_frames
  protection_frames-given [] acc out e = (ground (arith, append-nil acc), tt)
  protection_frames-given (f ∷ fs) acc out e = elim (Option-cases f.value) [
    | inl n ↦
        let (same, ok) = protection_frames-given fs acc out (rw (n, protection_frames) at e) in
        rw n (same, (tt, ok))
    | inr (v, s) ↦ elim (Bool-cases (finite_in_range fl v f.allow_zero)) [
      | inl good ↦
          let wr = write_float f.reg (fl.narrow v) in
          let (same, ok) =
            protection_frames-given fs (acc ++ wr ∷ []) out
              (rw (s, good, protection_frames) at e) in
          rw s (same ∙ append_assoc acc (wr ∷ []) (given fs), (good, ok))
      | inr bad ↦ absurd (ground arith)
    ]
  ]

  -- The write of a threshold to a register, if the threshold is given.
  abbrev pub threshold : ℕ → Option Float64 → List (Command fl)
  threshold reg o = elim o [ none ↦ [] | some v ↦ write_float reg (fl.narrow v) ∷ [] ]

  -- The writes of the thresholds, in order: OVP, OCP, OPP, OTP, LVP.
  abbrev pub thresholds : ProtectionLimits fl → List (Command fl)
  thresholds l =
      threshold 0xD1 l.ovp
      ++ (threshold 0xD2 l.ocp
          ++ (threshold 0xD3 l.opp ++ (threshold 0xD4 l.otp ++ threshold 0xD5 l.lvp)))

  given-thresholds : (l : ProtectionLimits fl) → given (fields fl l) ≡ thresholds l
  unfolding fields
  given-thresholds l =
      ap
        (λ e.
          threshold 0xD1 l.ovp
          ++ (threshold 0xD2 l.ocp ++ (threshold 0xD3 l.opp ++ (threshold 0xD4 l.otp ++ e))))
        (append-nil (threshold 0xD5 l.lvp))

  -- A number whose float32 is finite.
  abbrev pub IsFinite : Float64 → Type 0
  IsFinite v = (fl.is_nan v ≡ false) × (fl.is_inf (fl.widen (fl.narrow v)) ≡ false)

  -- Each threshold that is given is finite and positive; that of LVP may be zero.
  abbrev pub IsPositive : Option Float64 → Type 0
  IsPositive o = elim o [ none ↦ Unit | some v ↦ IsFinite v × (fl.lt fl.zero64 v ≡ true) ]

  abbrev pub IsNatural : Option Float64 → Type 0
  IsNatural o = elim o [ none ↦ Unit | some v ↦ IsFinite v × (fl.le fl.zero64 v ≡ true) ]

  abbrev pub AreValid : ProtectionLimits fl → Type 0
  AreValid l =
      IsPositive l.ovp × IsPositive l.ocp × IsPositive l.opp × IsPositive l.otp × IsNatural l.lvp

  finite-IsPositive : (v : Float64) → finite_in_range fl v false ≡ true → IsPositive (some v)
  unfolding finite_in_range
  finite-IsPositive v e = ground arith

  finite-IsNatural : (v : Float64) → finite_in_range fl v true ≡ true → IsNatural (some v)
  unfolding finite_in_range
  finite-IsNatural v e = ground arith

  allowed-IsPositive :
      (reg : ℕ) (o : Option Float64)
      → IsAllowed (record { reg = reg; value = o; allow_zero = false })
      → IsPositive o
  allowed-IsPositive reg none e = tt
  allowed-IsPositive reg (some v) e = finite-IsPositive v e

  allowed-IsNatural :
      (reg : ℕ) (o : Option Float64)
      → IsAllowed (record { reg = reg; value = o; allow_zero = true })
      → IsNatural o
  allowed-IsNatural reg none e = tt
  allowed-IsNatural reg (some v) e = finite-IsNatural v e

  fields-AreValid : (l : ProtectionLimits fl) → All IsAllowed (fields fl l) → AreValid l
  unfolding fields
  fields-AreValid l (a, (b, (c, (d, (e, u))))) = (
    allowed-IsPositive 0xD1 l.ovp a,
    allowed-IsPositive 0xD2 l.ocp b,
    allowed-IsPositive 0xD3 l.opp c,
    allowed-IsPositive 0xD4 l.otp d,
    allowed-IsNatural 0xD5 l.lvp e,
  )

  -- A threshold that is given takes the place of the old one.
  abbrev pub taken : Option Float64 → Float64 → Float64
  taken none old = old
  taken (some v) old = v

  or_old-taken : (o : Option Float64) (old : Float64) → or_old fl o old ≡ taken o old
  or_old-taken none old = refl
  or_old-taken (some v) old = refl

  -- The cache with the thresholds that are given.
  abbrev with_by :
      (Option Float64 → Float64 → Float64) → ProtectionLimits fl → ℕ → State fl → State fl
  with_by f l now st = record st {
    ovp = f l.ovp st.ovp;
    ocp = f l.ocp st.ocp;
    opp = f l.opp st.opp;
    otp = f l.otp st.otp;
    lvp = f l.lvp st.lvp;
    updated_at = now;
  }

  abbrev pub with_limits : ProtectionLimits fl → ℕ → State fl → State fl
  with_limits l now st = record st {
    ovp = taken l.ovp st.ovp;
    ocp = taken l.ocp st.ocp;
    opp = taken l.opp st.opp;
    otp = taken l.otp st.otp;
    lvp = taken l.lvp st.lvp;
    updated_at = now;
  }

  -- What SetProtections promises of a reply.
  abbrev pub Protects : Hub fl → ProtectionLimits fl → ℕ → Reply fl → Type 0
  Protects h l now r =
      ((r.2 ≢ none) ⊎ (AreValid l × (thresholds l ≢ [])))
      × Atomic fl h (thresholds l ++ read_all ∷ []) (with_limits l now) r

  Protects-written :
      (h : Hub fl) (l : ProtectionLimits fl) (now : ℕ) (env : ℕ → Outcome)
      (frames : List (Command fl))
      → frames ≡ given (fields fl l)
      → frames ≢ []
      → All IsAllowed (fields fl l)
      → Protects h l now (write_then fl h (frames ++ read_all ∷ []) env (with_by (or_old fl) l now))
  Protects-written h l now env frames e some_frame ok =
      let same = e ∙ given-thresholds l in
      let change : with_by (or_old fl) l now ≡ with_limits l now =
        ap (λ f. with_by f l now) (λ i o old. or_old-taken o old i) in
      (
        inr (fields-AreValid l ok, subst (λ x. x ≢ []) same some_frame),
        subst
            (λ c.
              Atomic fl h (thresholds l ++ read_all ∷ []) c
                (write_then fl h (frames ++ read_all ∷ []) env (with_by (or_old fl) l now)))
            change
            (subst
              (λ x.
                Atomic fl h (x ++ read_all ∷ []) (with_by (or_old fl) l now)
                  (write_then fl h (frames ++ read_all ∷ []) env (with_by (or_old fl) l now)))
              same
              (write_then-Atomic fl h (frames ++ read_all ∷ []) env (with_by (or_old fl) l now))),
      )

  -- SetProtections either returns nil, with one threshold at least given, each one a number whose float32 is finite, and
  -- positive (LVP: not negative), the device connected, exactly those thresholds and a GetAll written,
  -- in the order OVP, OCP, OPP, OTP, LVP, to the registers 0xD1 to 0xD5, and those thresholds cached; or it returns an error and
  -- leaves the cache as it was.
  pub set_protections_lem :
      (h : Hub fl) (cancelled : Bool) (l : ProtectionLimits fl) (env : ℕ → Outcome) (now : ℕ)
      → Protects h l now (set_protections fl h cancelled l env now)
  unfolding set_protections
  set_protections_lem h true l env now = (inl (λ n. cc), inr (λ n. cc, refl))
  set_protections_lem h false l env now = go (protection_frames fl (fields fl l) []) refl
    where
      go :
          (r : Option (List (Command fl)))
          → protection_frames fl (fields fl l) [] ≡ r
          → Protects h l now (set_protections fl h false l env now)
      go none e = rw (e, set_protections) (inl (λ n. cc), inr (λ n. cc, refl))
      go (some []) e = rw (e, set_protections) (inl (λ n. cc), inr (λ n. cc, refl))
      go (some (f ∷ fs)) e =
          let (same, ok) = protection_frames-given (fields fl l) [] (f ∷ fs) e in
          rw (e, set_protections) (Protects-written h l now env (f ∷ fs) same (λ n. absurd (cc)) ok)
