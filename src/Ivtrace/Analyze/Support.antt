-- ===== src/Ivtrace/Analyze/Support.antt =====
-- When analyze.go reports a number of a diode.
use dps150_web.Base.{
  ◌≡◌, refl, sym, ◌∙◌, Bool, true, false, List, [], ◌∷◌, append-nil, Option, none, some, ltb, ◌⊎◌,
  inl, inr, arith, Bool-cases, Option-cases, length,
}
use mathlib.Core.Path.{subst}
use dps150_web.Float.{Floats}
use dps150_web.Ivtrace.Tick.{Point}
use dps150_web.Ivtrace.Fit.{Maths, max_current, filter, in_region, interp_v_at_i, top_by_current}
use dps150_web.Ivtrace.Fit.Segments.{IsFirst, interp_v_at_i-IsFirst}
use dps150_web.Ivtrace.Analyze.{
  ideality_min_points, AnalysisParams, vt, DiodeMetrics, no_diode, did_not_conduct, i_max_of,
  ref_of, with_vf, log_fit, with_ideality, top_frac_of, resistance_over, with_series, dynamic_of,
  no_dynamic, with_dynamic, analyze_diode,
}
use dps150_web.Ivtrace.Analyze.Evidence.{
  Flags-last, IsTold, Extends, IsTold-Extends, conducting, topmost, IsFitted, IsTopped, IsDynamic,
  filter-conducting, top_by_current-topmost, rising-IsRising, resistance_over-IsRising,
  dynamic_of-cases,
}

module _ (fl : Floats) (m : Maths fl) where
  open fl use {Float64}

  with_vf_lem :
      (points : List (Point fl)) (ref : Float64)
      → let d = with_vf fl m points ref (no_diode fl) in
        (d.vf_at_ref ≡ interp_v_at_i fl m points ref)
        × IsTold fl m "vfAtRef" d.vf_at_ref d.quality
        × (d.ideality ≡ none)
        × (d.sat_current_a ≡ none)
        × (d.series_r ≡ none)
        × (d.series_r_apparent ≡ false)
        × (d.dynamic_r ≡ none)
  unfolding with_vf
  with_vf_lem points ref = elim (Option-cases (interp_v_at_i fl m points ref)) [
    | inl e ↦ rw (e, with_vf) (refl, inr (inl (refl, refl)), refl, refl, refl, refl, refl)
    | inr (v, e) ↦ rw (e, with_vf) (refl, inl (λ q. absurd (cc)), refl, refl, refl, refl, refl)
  ]

  -- The fields that the fit of the ideality does not write.
  abbrev Same : DiodeMetrics fl → DiodeMetrics fl → Type 0
  Same d d' = (d'.vf_at_ref ≡ d.vf_at_ref) × (d'.dynamic_r ≡ d.dynamic_r) × Extends fl m d d'

  with_ideality_lem :
      (points : List (Point fl)) (v_t i_max : Float64) (d : DiodeMetrics fl)
      → d.ideality ≡ none
      → d.sat_current_a ≡ none
      → let d' = with_ideality fl m points v_t i_max d in
        Same d d'
        × (d'.series_r ≡ d.series_r)
        × (d'.series_r_apparent ≡ d.series_r_apparent)
        × IsFitted fl m (filter fl (in_region fl i_max) points) v_t d'
        × IsTold fl m "ideality" d'.ideality d'.quality
  unfolding with_ideality
  with_ideality_lem points v_t i_max d n s =
      let reg = filter fl (in_region fl i_max) points in
      elim (Bool-cases (ltb (length reg) ideality_min_points)) [
        | inl few ↦
            rw (few, with_ideality)
              (
                (refl, refl, (_, refl)),
                refl,
                refl,
                inl (n, s),
                inr (Flags-last "ideality" d.quality),
              )
        | inr enough ↦ elim (Option-cases (log_fit fl m reg)) [
          | inl e ↦
              rw (enough, with_ideality)
                (rw e (
                  (refl, refl, (_, refl)),
                  refl,
                  refl,
                  inl (n, s),
                  inr (Flags-last "ideality" d.quality),
                ))
          | inr (l, e) ↦
              rw (enough, with_ideality)
                (rw e (
                  (refl, refl, (_, refl)),
                  refl,
                  refl,
                  inr (ground (arith), (l, rising-IsRising fl m _ _ l e, refl, refl)),
                  inl (λ q. absurd (cc)),
                ))
        ]
      ]

  with_series_lem :
      (points : List (Point fl)) (i_max frac : Float64) (d : DiodeMetrics fl)
      → d.series_r ≡ none
      → d.series_r_apparent ≡ false
      → let d' = with_series fl m points i_max frac d in
        Same d d'
        × (d'.ideality ≡ d.ideality)
        × (d'.sat_current_a ≡ d.sat_current_a)
        × IsTopped fl m (top_by_current fl m points i_max frac) d'
        × IsTold fl m "seriesR" d'.series_r d'.quality
  unfolding with_series
  with_series_lem points i_max frac d n a =
      elim (Option-cases (resistance_over fl m (top_by_current fl m points i_max frac))) [
        | inl e ↦
            rw (e, with_series)
              (
                (refl, refl, (_, refl)),
                refl,
                refl,
                inl (n, a),
                inr (Flags-last "seriesR" d.quality),
              )
        | inr (l, e) ↦
            rw (e, with_series)
              (
                (refl, refl, ([], sym (append-nil d.quality))),
                refl,
                refl,
                inr (
                    let (two, up) = resistance_over-IsRising fl m _ l e in
                    (two, (l, up, refl, refl))),
                inl (λ q. absurd (cc)),
              )
      ]

  -- The last stage writes the dynamic resistance alone.
  abbrev Rates : Float64 → Float64 → DiodeMetrics fl → DiodeMetrics fl → Type 0
  Rates v_t ref d d' =
      (d'.vf_at_ref ≡ d.vf_at_ref)
      × (d'.ideality ≡ d.ideality)
      × (d'.sat_current_a ≡ d.sat_current_a)
      × (d'.series_r ≡ d.series_r)
      × (d'.series_r_apparent ≡ d.series_r_apparent)
      × Extends fl m d d'
      × IsDynamic fl m v_t ref d'
      × IsTold fl m "dynamicR" d'.dynamic_r d'.quality

  with_dynamic-Rates :
      (v_t ref : Float64) (d : DiodeMetrics fl)
      → d.dynamic_r ≡ none
      → Rates v_t ref d (with_dynamic fl m v_t ref d)
  unfolding with_dynamic
  with_dynamic-Rates v_t ref d z = go d.ideality d.vf_at_ref refl refl
    where
      missing : Rates v_t ref d (no_dynamic fl m d)
      missing =
          (refl, refl, refl, refl, refl, (_, refl), inl z, inr (Flags-last "dynamicR" d.quality))

      go :
          (i f : Option Float64)
          → d.ideality ≡ i
          → d.vf_at_ref ≡ f
          → Rates v_t ref d (elim i as (λ _. DiodeMetrics fl) [
            | none ↦ no_dynamic fl m d
            | some n ↦ elim f as (λ _. DiodeMetrics fl) [
              | none ↦ no_dynamic fl m d
              | some v ↦ record d { dynamic_r = some (dynamic_of fl m n v_t d.series_r ref) }
            ]
          ])
      go none f e g = missing
      go (some n) none e g = missing
      go (some n) (some v) e g = (
        refl,
        refl,
        refl,
        refl,
        refl,
        ([], sym (append-nil d.quality)),
        inr (n, v, e, g, (_, refl, dynamic_of-cases fl m n v_t ref d.series_r)),
        inl (λ q. absurd (cc)),
      )

  -- The metrics of a diode that conducted, at the reference current `ref`.
  abbrev pub IsSupported :
      List (Point fl) → Float64 → Float64 → Float64 → Float64 → DiodeMetrics fl → Type 0
  IsSupported points v_t ref i_max frac d =
      (IsFirst fl m ref points d.vf_at_ref × IsTold fl m "vfAtRef" d.vf_at_ref d.quality)
      × (IsFitted fl m (conducting fl m i_max points) v_t d
          × IsTold fl m "ideality" d.ideality d.quality)
      × (IsTopped fl m (topmost fl m frac (conducting fl m i_max points)) d
          × IsTold fl m "seriesR" d.series_r d.quality)
      × (IsDynamic fl m v_t ref d × IsTold fl m "dynamicR" d.dynamic_r d.quality)

  -- The metrics of a diode are empty if no point carries 1 mA. Otherwise the forward voltage is that of the first segment of
  -- neighbouring points with the reference current between them; the ideality is 1 / (slope * v_t) of a rising least-squares line, log(i) over v, through at
  -- least eight points, those with a current from 1 mA to 95 % of the ceiling; the series
  -- resistance is the slope of a rising line, v over i, through the topmost of these points, two at least; the dynamic resistance is n * v_t / ref, with the
  -- series resistance added if there is one, and is given only with the ideality n and the forward voltage. Each of
  -- these four numbers is reported, or the quality entry of its name says unreliable. The reference current, v_t and the topmost fraction are those that the parameters give.
  pub analyze_diode-IsSupported :
      (points : List (Point fl)) (p : AnalysisParams fl) (ceiling : Float64) (led : Bool)
      → ((fl.lt (max_current fl points) (fl.decimal 1 3) ≡ true)
          × (analyze_diode fl m points p ceiling led
              ≡ record (no_diode fl) { notes = did_not_conduct ∷ [] }))
        ⊎ ((fl.lt (max_current fl points) (fl.decimal 1 3) ≡ false)
            × IsSupported points
                (vt fl p)
                (ref_of fl m p led)
                (fl.mul (fl.sub (fl.decimal 10 1) (fl.decimal 5 2)) ceiling)
                (top_frac_of fl m p)
                (analyze_diode fl m points p ceiling led))
  unfolding analyze_diode
  analyze_diode-IsSupported points p ceiling led =
      elim (Bool-cases (fl.lt (max_current fl points) (fl.decimal 1 3))) [
        | inl e ↦ inl (e, rw (e, analyze_diode) refl)
        | inr e ↦
            let v_t = vt fl p in
            let ref = ref_of fl m p led in
            let a = with_vf fl m points ref (no_diode fl) in
            let b = with_ideality fl m points v_t (i_max_of fl m ceiling) a in
            let c = with_series fl m points (i_max_of fl m ceiling) (top_frac_of fl m p) b in
            let d = with_dynamic fl m v_t ref c in
            let (va, ta, ia, sa, ra, pa, ya) = with_vf_lem points ref in
            let ((vb, yb, xb), rb, pb, fb, tb) =
              with_ideality_lem points v_t (i_max_of fl m ceiling) a ia sa in
            let ((vc, yc, xc), ic, sc, top, tc) =
              with_series_lem points (i_max_of fl m ceiling) (top_frac_of fl m p) b (rb ∙ ra)
                (pb ∙ pa) in
            let (vd, id, sd, rd, pd, xd, dyn, td) = with_dynamic-Rates v_t ref c (yc ∙ yb ∙ ya) in
            inr (
              e,
              rw (e, analyze_diode)
                  (
                    (
                      subst (IsFirst fl m ref points) (sym (vd ∙ vc ∙ vb ∙ va))
                          (interp_v_at_i-IsFirst fl m points ref),
                      subst (λ o. IsTold fl m "vfAtRef" o d.quality) (sym (vd ∙ vc ∙ vb))
                          (IsTold-Extends fl m "vfAtRef" a.vf_at_ref c d xd (
                            IsTold-Extends fl m "vfAtRef" a.vf_at_ref b c xc
                              (IsTold-Extends fl m "vfAtRef" a.vf_at_ref a b xb ta))),
                    ),
                    (
                      IsFitted-same _ v_t b d (id ∙ ic) (sd ∙ sc) (
                          subst (λ reg. IsFitted fl m reg v_t b)
                            (filter-conducting fl m (i_max_of fl m ceiling) points) fb),
                      subst (λ o. IsTold fl m "ideality" o d.quality) (sym (id ∙ ic))
                          (IsTold-Extends fl m "ideality" b.ideality c d xd
                            (IsTold-Extends fl m "ideality" b.ideality b c xc tb)),
                    ),
                    (
                      IsTopped-same _ c d rd pd (
                          subst (λ x. IsTopped fl m x c)
                            (top_by_current-topmost fl m points (i_max_of fl m ceiling)
                              (top_frac_of fl m p))
                            top),
                      subst (λ o. IsTold fl m "seriesR" o d.quality) (sym rd)
                          (IsTold-Extends fl m "seriesR" c.series_r c d xd tc),
                    ),
                    (dyn, td),
                  ),
            )
      ]
    where
      IsFitted-same :
          (reg : List (Point fl)) (v_t : Float64) (x y : DiodeMetrics fl)
          → y.ideality ≡ x.ideality
          → y.sat_current_a ≡ x.sat_current_a
          → IsFitted fl m reg v_t x
          → IsFitted fl m reg v_t y
      IsFitted-same reg v_t x y e f (inl (a, b)) = inl (e ∙ a, f ∙ b)
      IsFitted-same reg v_t x y e f (inr (n, (l, g, a, b))) = inr (n, (l, g, e ∙ a, f ∙ b))

      IsTopped-same :
          (top : List (Point fl)) (x y : DiodeMetrics fl)
          → y.series_r ≡ x.series_r
          → y.series_r_apparent ≡ x.series_r_apparent
          → IsTopped fl m top x
          → IsTopped fl m top y
      IsTopped-same top x y e f (inl (a, b)) = inl (e ∙ a, f ∙ b)
      IsTopped-same top x y e f (inr (n, (l, g, a, b))) = inr (n, (l, g, e ∙ a, f ∙ b))
