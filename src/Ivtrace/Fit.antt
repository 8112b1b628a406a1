-- ===== src/Ivtrace/Fit.antt =====
-- backend/internal/ivtrace/analyze.go: the least squares and the interpolation. The functions of the packages math and
-- sort are parameters: math.Min, math.Max, math.Abs, math.Log, math.Exp, int(math.Ceil(v)) of a number that is not
-- negative, and sort.Slice by the current.
pub mod Segments
use dps150_web.Base.{
  ℕ, suc, ◌-◌, Bool, true, false, not, ◌&&◌, ◌||◌, List, [], ◌∷◌, map, Option, none, some, ltb, leb,
  ◌==◌, if◌then◌else◌, length, drop,
}
use dps150_web.Float.{Floats}
use dps150_web.Ivtrace.Tick.{Point}

pub record Maths (fl : Floats) : Type 0 where
  pub minimum : fl.Float64 → fl.Float64 → fl.Float64
  pub maximum : fl.Float64 → fl.Float64 → fl.Float64
  pub abs : fl.Float64 → fl.Float64
  pub log : fl.Float64 → fl.Float64
  pub exp : fl.Float64 → fl.Float64
  pub int_ceil : fl.Float64 → ℕ
  pub sort_by_current : List (Point fl) → List (Point fl)

module _ (fl : Floats) where
  open fl use {Float64}

  abbrev pub conduction_floor_a : Float64
  conduction_floor_a = fl.decimal 1 3

  pub record Line : Type 0 where
    pub slope : Float64
    pub intercept : Float64
    pub r2 : Float64

  -- A loop that adds to `s` what each member contributes.
  abbrev pub sum_from {ℓ} : {A : Type ℓ} → Float64 → (A → Float64) → List A → Float64
  sum_from s f [] = s
  sum_from s f (x ∷ xs) = sum_from (fl.add s (f x)) f xs

  -- The pairs of two slices of the same length.
  abbrev pub pairs : List Float64 → List Float64 → List (Float64 × Float64)
  pairs [] ys = []
  pairs (x ∷ xs) [] = []
  pairs (x ∷ xs) (y ∷ ys) = (x, y) ∷ pairs xs ys

  -- The fit, from the means on.
  abbrev pub fit_about : Float64 → Float64 → List (Float64 × Float64) → Option Line
  fit_about mx my ps =
      let ssxx = sum_from fl.zero64 (λ p. fl.mul (fl.sub p.0 mx) (fl.sub p.0 mx)) ps in
      let ssxy = sum_from fl.zero64 (λ p. fl.mul (fl.sub p.0 mx) (fl.sub p.1 my)) ps in
      let ssyy = sum_from fl.zero64 (λ p. fl.mul (fl.sub p.1 my) (fl.sub p.1 my)) ps in
      let slope = fl.div ssxy ssxx in
      let intercept = fl.sub my (fl.mul slope mx) in
      let residual : Float64 × Float64 → Float64 =
        λ p. fl.sub p.1 (fl.add (fl.mul slope p.0) intercept) in
      let ssres = sum_from fl.zero64 (λ p. fl.mul (residual p) (residual p)) ps in
      if fl.le ssxx (fl.decimal 1 12) || fl.le ssyy (fl.decimal 1 15)
      then none
      else some (record {
        slope = slope;
        intercept = intercept;
        r2 = fl.sub (fl.decimal 10 1) (fl.div ssres ssyy);
      })

  unfoldable pub linear_fit : List Float64 → List Float64 → Option Line
  linear_fit xs ys =
      let n = fl.of_int (length xs) in
      if ltb (length xs) 2 || not (length xs == length ys)
      then none
      else fit_about (fl.div (sum_from fl.zero64 (λ x. x) xs) n)
          (fl.div (sum_from fl.zero64 (λ y. y) ys) n) (pairs xs ys)

  unfoldable pub max_current : List (Point fl) → Float64
  max_current points = above fl.zero64 points
    where
      above : Float64 → List (Point fl) → Float64
      above m [] = m
      above m (p ∷ ps) = above (if fl.lt m p.i then p.i else m) ps

  -- The points of a loop's condition.
  abbrev pub filter : (Point fl → Bool) → List (Point fl) → List (Point fl)
  filter f [] = []
  filter f (p ∷ ps) = if f p then p ∷ filter f ps else filter f ps

  abbrev pub in_region : Float64 → Point fl → Bool
  in_region i_max p = fl.le conduction_floor_a p.i && fl.le p.i i_max

  -- splitVI and splitIV
  abbrev pub voltages : List (Point fl) → List Float64
  voltages ps = map (λ p. p.v) ps

  abbrev pub currents : List (Point fl) → List Float64
  currents ps = map (λ p. p.i) ps

  module _ (m : Maths fl) where
    -- The condition on two neighbours.
    abbrev pub straddles : Float64 → Point fl → Point fl → Bool
    straddles target a b =
        fl.lt (m.minimum a.i b.i) (m.maximum a.i b.i)
        && fl.le (m.minimum a.i b.i) target
        && fl.le target (m.maximum a.i b.i)

    abbrev pub interpolated : Float64 → Point fl → Point fl → Float64
    interpolated target a b =
        fl.add a.v (fl.mul (fl.div (fl.sub target a.i) (fl.sub b.i a.i)) (fl.sub b.v a.v))

    unfoldable pub interp_v_at_i : List (Point fl) → Float64 → Option Float64
    interp_v_at_i [] target = none
    interp_v_at_i (a ∷ []) target = none
    interp_v_at_i (a ∷ b ∷ ps) target =
        let rest = interp_v_at_i (b ∷ ps) target in
        if straddles target a b then some (interpolated target a b) else rest

    -- How many of `n` points the top fraction is.
    abbrev pub top_count : Float64 → ℕ → ℕ
    top_count frac n =
        let k = m.int_ceil (fl.mul frac (fl.of_int n)) in
        let at_least = if ltb k 2 then 2 else k in if ltb n at_least then n else at_least

    unfoldable pub top_by_current : List (Point fl) → Float64 → Float64 → List (Point fl)
    top_by_current points i_max frac =
        let reg = m.sort_by_current (filter (in_region i_max) points) in
        if ltb (length reg) 2 then reg else drop (length reg - top_count frac (length reg)) reg
