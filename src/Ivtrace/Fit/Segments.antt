-- ===== src/Ivtrace/Fit/Segments.antt =====
-- What the interpolation of analyze.go finds.
use dps150_web.Base.{
  Bool, ◌&&◌, ◌≡◌, refl, sym, ap, true, false, List, [], ◌∷◌, ◌++◌, Option, none, some, ◌⊎◌, inl,
  inr, if◌then◌else◌, Bool-cases,
}
use mathlib.Core.Path.{subst}
use dps150_web.Float.{Floats}
use dps150_web.Ivtrace.Tick.{Point}
use dps150_web.Ivtrace.Fit.{Maths, interpolated, interp_v_at_i}

module _ (fl : Floats) (m : Maths fl) where
  -- The currents of two neighbours differ and have the target between them.
  abbrev pub holds : fl.Float64 → Point fl → Point fl → Bool
  holds target a b =
      fl.lt (m.minimum a.i b.i) (m.maximum a.i b.i)
      && fl.le (m.minimum a.i b.i) target
      && fl.le target (m.maximum a.i b.i)

  -- The voltage at the target, on the straight line between the two.
  abbrev pub voltage_at : fl.Float64 → Point fl → Point fl → fl.Float64
  voltage_at target a b =
      fl.add a.v (fl.mul (fl.div (fl.sub target a.i) (fl.sub b.i a.i)) (fl.sub b.v a.v))

  -- No two neighbours have the target between them.
  abbrev pub Misses : fl.Float64 → List (Point fl) → Type 0
  Misses target [] = Unit
  Misses target (a ∷ []) = Unit
  Misses target (a ∷ b ∷ ps) = (holds target a b ≡ false) × Misses target (b ∷ ps)

  -- The result of an interpolation: of the first segment with the target, if there is one.
  abbrev pub IsFirst : fl.Float64 → List (Point fl) → Option fl.Float64 → Type 0
  IsFirst target points o =
      (Misses target points × (o ≡ none))
      ⊎ ((pre : List (Point fl)) × (a : Point fl) × (b : Point fl) × (post : List (Point fl))
          × (points ≡ pre ++ a ∷ b ∷ post)
          × Misses target (pre ++ a ∷ [])
          × (holds target a b ≡ true)
          × (o ≡ some (voltage_at target a b)))

  IsFirst-cons :
      (target : fl.Float64) (a b : Point fl) (ps : List (Point fl)) (o : Option fl.Float64)
      → holds target a b ≡ false
      → IsFirst target (b ∷ ps) o
      → IsFirst target (a ∷ b ∷ ps) o
  IsFirst-cons target a b ps o n (inl (miss, e)) = inl ((n, miss), e)
  IsFirst-cons target a b ps o n (inr ([], x, y, post, e, miss, s, r)) =
      let same : b ≡ x = cc in
      inr (
        a ∷ [],
        x,
        y,
        post,
        ap (λ l. a ∷ l) e,
        (subst (λ z. holds target a z ≡ false) same n, tt),
        s,
        r,
      )
  IsFirst-cons target a b ps o n (inr (c ∷ pre, x, y, post, e, miss, s, r)) =
      let same : b ≡ c = cc in
      inr (
        a ∷ c ∷ pre,
        x,
        y,
        post,
        ap (λ l. a ∷ l) e,
        (subst (λ z. holds target a z ≡ false) same n, miss),
        s,
        r,
      )

  -- The interpolation is that of the first segment of neighbouring points whose currents differ and have the target between
  -- them, and there is no result exactly if no segment does.
  pub interp_v_at_i-IsFirst :
      (points : List (Point fl)) (target : fl.Float64)
      → IsFirst target points (interp_v_at_i fl m points target)
  unfolding interp_v_at_i
  interp_v_at_i-IsFirst [] target = inl (tt, refl)
  interp_v_at_i-IsFirst (a ∷ []) target = inl (tt, refl)
  interp_v_at_i-IsFirst (a ∷ b ∷ ps) target = elim (Bool-cases (holds target a b)) [
    | inl s ↦ inr ([], a, b, ps, refl, tt, s, rw s refl)
    | inr s ↦
        let rest = interp_v_at_i fl m (b ∷ ps) target in
        subst (IsFirst target (a ∷ b ∷ ps))
          (sym (ap (λ c. if c then some (interpolated fl m target a b) else rest) s))
          (IsFirst-cons target a b ps rest s (interp_v_at_i-IsFirst (b ∷ ps) target))
  ]
