-- ===== src/Ivtrace/Analyze/Evidence.antt =====
-- What stands behind the numbers of a diode in analyze.go, described without its helpers.
use dps150_web.Base.{
  ℕ, ◌-◌, ◌≤◌, ◌≡◌, ◌≢◌, refl, sym, ap, ◌∙◌, true, false, ◌&&◌, List, [], ◌∷◌, ◌++◌, map, Option,
  none, some, ltb, if◌then◌else◌, ◌⊎◌, inl, inr, arith, Bool-cases, Option-cases, length, drop,
}
use Prim.Native.String.{String}
use mathlib.Core.Path.{subst}
use dps150_web.Float.{Floats}
use dps150_web.Ivtrace.Tick.{Point}
use dps150_web.Ivtrace.Fit.{Maths, Line, filter, in_region, linear_fit, top_by_current}
use dps150_web.Ivtrace.Analyze.{
  Quality, unreliable, DiodeMetrics, rising, resistance_over, dynamic_of,
}

-- An entry that marks a key as unreliable.
abbrev pub Flags : String → List (String × Quality) → Type 0
Flags k [] = ⊥
Flags k ((j, q) ∷ qs) = ((j ≡ k) × (q ≡ unreliable)) ⊎ Flags k qs

pub Flags-append : (k : String) (xs ys : List (String × Quality)) → Flags k xs → Flags k (xs ++ ys)
Flags-append k [] ys f = elim f [ ]
Flags-append k ((j, q) ∷ xs) ys (inl e) = inl e
Flags-append k ((j, q) ∷ xs) ys (inr f) = inr (Flags-append k xs ys f)

pub Flags-last : (k : String) (xs : List (String × Quality)) → Flags k (xs ++ (k, unreliable) ∷ [])
Flags-last k [] = inl (refl, refl)
Flags-last k (x ∷ xs) = inr (Flags-last k xs)

module _ (fl : Floats) (m : Maths fl) where
  open fl use {Float64}

  -- A number is there, or its key is marked.
  abbrev pub IsTold : String → Option Float64 → List (String × Quality) → Type 0
  IsTold k o qs = (o ≢ none) ⊎ Flags k qs

  pub IsTold-append :
      (k : String) (o : Option Float64) (xs ys : List (String × Quality))
      → IsTold k o xs
      → IsTold k o (xs ++ ys)
  IsTold-append k o xs ys (inl n) = inl n
  IsTold-append k o xs ys (inr f) = inr (Flags-append k xs ys f)

  -- The entries of `d` are kept.
  abbrev pub Extends : DiodeMetrics fl → DiodeMetrics fl → Type 0
  Extends d d' = (xs : List (String × Quality)) × (d'.quality ≡ d.quality ++ xs)

  pub IsTold-Extends :
      (k : String) (o : Option Float64) (d d' : DiodeMetrics fl)
      → Extends d d'
      → IsTold k o d.quality
      → IsTold k o d'.quality
  IsTold-Extends k o d d' (xs, e) t = subst (IsTold k o) (sym e) (IsTold-append k o d.quality xs t)

  -- The points between the conduction floor of 1 mA and `i_max`, both included.
  abbrev pub conducting : Float64 → List (Point fl) → List (Point fl)
  conducting i_max [] = []
  conducting i_max (p ∷ ps) =
      if fl.le (fl.decimal 1 3) p.i && fl.le p.i i_max
      then p ∷ conducting i_max ps
      else conducting i_max ps

  -- A least-squares line that goes up.
  abbrev pub IsRising : List Float64 → List Float64 → Line fl → Type 0
  IsRising xs ys l = (linear_fit fl xs ys ≡ some l) × (fl.lt fl.zero64 l.slope ≡ true)

  -- The ideality n and the saturation current of a line, log(i) over v, that goes up through the points, of which there are eight at least:
  -- n = 1 / (slope * v_t), and the exponential of the intercept.
  abbrev pub IsFitted : List (Point fl) → Float64 → DiodeMetrics fl → Type 0
  IsFitted reg v_t d =
      ((d.ideality ≡ none) × (d.sat_current_a ≡ none))
      ⊎ ((8 ≤ length reg)
          × ((l : Line fl) × IsRising (map (λ p. p.v) reg) (map (λ p. m.log p.i) reg) l
              × (d.ideality ≡ some (fl.div (fl.decimal 10 1) (fl.mul l.slope v_t)))
              × (d.sat_current_a ≡ some (m.exp l.intercept))))

  -- How many of `n` points are the topmost: the fraction, rounded up, two at least, and at most all.
  abbrev pub share : Float64 → ℕ → ℕ
  share frac n =
      let k = m.int_ceil (fl.mul frac (fl.of_int n)) in
      let two = if ltb k 2 then 2 else k in if ltb n two then n else two

  -- The points of the greatest currents.
  abbrev pub topmost : Float64 → List (Point fl) → List (Point fl)
  topmost frac reg =
      let sorted = m.sort_by_current reg in
      if ltb (length sorted) 2
      then sorted
      else drop (length sorted - share frac (length sorted)) sorted

  -- The series resistance is the slope of a line, v over i, that goes up through two points at least.
  abbrev pub IsTopped : List (Point fl) → DiodeMetrics fl → Type 0
  IsTopped top d =
      ((d.series_r ≡ none) × (d.series_r_apparent ≡ false))
      ⊎ ((2 ≤ length top)
          × ((l : Line fl) × IsRising (map (λ p. p.i) top) (map (λ p. p.v) top) l
              × (d.series_r ≡ some l.slope)
              × (d.series_r_apparent ≡ true)))

  -- The dynamic resistance is n * v_t / ref, with the series resistance added if there is one.
  abbrev pub IsDynamic : Float64 → Float64 → DiodeMetrics fl → Type 0
  IsDynamic v_t ref d =
      (d.dynamic_r ≡ none)
      ⊎ ((n : Float64) × (v : Float64) × (d.ideality ≡ some n)
          × (d.vf_at_ref ≡ some v)
          × ((w : Float64) × (d.dynamic_r ≡ some w)
              × (((d.series_r ≡ none) × (w ≡ fl.div (fl.mul n v_t) ref))
                  ⊎ ((r : Float64) × (d.series_r ≡ some r)
                      × (w ≡ fl.add (fl.div (fl.mul n v_t) ref) r)))))

  pub filter-conducting :
      (i_max : Float64) (ps : List (Point fl))
      → filter fl (in_region fl i_max) ps ≡ conducting i_max ps
  filter-conducting i_max [] = refl
  filter-conducting i_max (p ∷ ps) =
      ap (λ l. if fl.le (fl.decimal 1 3) p.i && fl.le p.i i_max then p ∷ l else l)
        (filter-conducting i_max ps)

  pub top_by_current-topmost :
      (points : List (Point fl)) (i_max frac : Float64)
      → top_by_current fl m points i_max frac ≡ topmost frac (conducting i_max points)
  unfolding top_by_current
  top_by_current-topmost points i_max frac = ap (topmost frac) (filter-conducting i_max points)

  pub rising-IsRising :
      (xs ys : List Float64) (l : Line fl)
      → rising fl (linear_fit fl xs ys) ≡ some l
      → IsRising xs ys l
  rising-IsRising xs ys l e = elim (Option-cases (linear_fit fl xs ys)) [
    | inl n ↦ absurd (ground arith)
    | inr (x, s) ↦ elim (Bool-cases (fl.lt fl.zero64 x.slope)) [
      | inl up ↦
          let f : rising fl (linear_fit fl xs ys) ≡ some x = rw s (rw up refl) in
          let same : x ≡ l = cc in
          (s ∙ ap (λ y. some y) same, subst (λ y. fl.lt fl.zero64 y.slope ≡ true) same up)
      | inr down ↦ absurd (ground arith)
    ]
  ]

  pub resistance_over-IsRising :
      (top : List (Point fl)) (l : Line fl)
      → resistance_over fl m top ≡ some l
      → (2 ≤ length top) × IsRising (map (λ p. p.i) top) (map (λ p. p.v) top) l
  resistance_over-IsRising top l e = elim (Bool-cases (ltb (length top) 2)) [
    | inl few ↦ absurd (ground arith)
    | inr enough ↦ (ground arith, rising-IsRising _ _ l (rw enough at e))
  ]

  pub dynamic_of-cases :
      (n v_t ref : Float64) (o : Option Float64)
      → ((o ≡ none) × (dynamic_of fl m n v_t o ref ≡ fl.div (fl.mul n v_t) ref))
        ⊎ ((r : Float64) × (o ≡ some r)
            × (dynamic_of fl m n v_t o ref ≡ fl.add (fl.div (fl.mul n v_t) ref) r))
  dynamic_of-cases n v_t ref none = inl (refl, refl)
  dynamic_of-cases n v_t ref (some r) = inr (r, refl, refl)
