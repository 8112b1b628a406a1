-- ===== src/Ivtrace/Analyze.antt =====
-- backend/internal/ivtrace/analyze.go: the metrics of a sweep. The metrics are built in the source's order, and
-- `quality` and `notes` are the entries in the order in which they are made (each key at most once). A note is what it
-- says. The decoding of the overrides is encoding/json's.
pub mod Evidence
pub mod Support
use dps150_web.Base.{
  ℕ, Bool, true, false, ◌&&◌, ◌||◌, List, [], ◌∷◌, ◌++◌, map, Option, none, some, ltb,
  if◌then◌else◌, length,
}
use Prim.Native.String.{String}
use text.Mathlib.Text as Text
use dps150_web.Float.{Floats}
use dps150_web.Ivtrace.Tick.{Point}
use dps150_web.Ivtrace.Fit.{
  Maths, conduction_floor_a, Line, linear_fit, max_current, filter, in_region, voltages, currents,
  interp_v_at_i, top_by_current,
}

pub data Quality : Type 0 where
  approx : Quality
  unreliable : Quality

abbrev pub ideality_min_points : ℕ
ideality_min_points = 8

abbrev pub resistor_min_points : ℕ
resistor_min_points = 3

module _ (fl : Floats) where
  open fl use {Float64}

  pub data Note : Type 0 where
    did_not_conduct : Note
    reference_not_reached : Float64 → Note
    too_few_in_region : ℕ → Note
    ideality_approximate : ℕ → Note
    ideality_ill_conditioned : Note
    series_too_few : Note
    too_few_points : ℕ → Note
    fit_degenerate : Note
    non_ohmic : Float64 → Note
    breakdown_not_reached : Note
    zzt_too_few : Note
    lamp_unavailable : Note

  -- The overrides that the analyses read.
  pub record AnalysisParams : Type 0 where
    pub ref_current_a : Option Float64
    pub junction_temp_k : Option Float64
    pub izt_a : Option Float64
    pub fit_high_frac : Option Float64

  -- An override if it is there and positive, and the default otherwise.
  abbrev pub positive_or : Option Float64 → Float64 → Float64
  positive_or o d = elim o [ none ↦ d | some v ↦ if fl.lt fl.zero64 v then v else d ]

  abbrev pub vt_300k : Float64
  vt_300k = fl.decimal 25_852 6

  unfoldable pub vt : AnalysisParams → Float64
  vt p = elim p.junction_temp_k [
    | none ↦ vt_300k
    | some k ↦ if fl.lt fl.zero64 k then fl.mul vt_300k (fl.div k (fl.decimal 3000 1)) else vt_300k
  ]

  pub record DiodeMetrics : Type 0 where
    pub vf_at_ref : Option Float64
    pub ref_current_a : Option Float64
    pub ideality : Option Float64
    pub sat_current_a : Option Float64
    pub series_r : Option Float64
    pub series_r_apparent : Bool
    pub dynamic_r : Option Float64
    pub quality : List (String × Quality)
    pub notes : List Note

  abbrev pub no_diode : DiodeMetrics
  no_diode = record {
    vf_at_ref = none;
    ref_current_a = none;
    ideality = none;
    sat_current_a = none;
    series_r = none;
    series_r_apparent = false;
    dynamic_r = none;
    quality = [];
    notes = [];
  }

  pub record ResistorMetrics : Type 0 where
    pub resistance : Option Float64
    pub r_squared : Option Float64
    pub max_dev_pct : Option Float64
    pub quality : List (String × Quality)
    pub notes : List Note

  abbrev pub no_resistor : ResistorMetrics
  no_resistor = record {
    resistance = none;
    r_squared = none;
    max_dev_pct = none;
    quality = [];
    notes = [];
  }

  pub record ZenerMetrics : Type 0 where
    pub vz : Option Float64
    pub izt_a : Option Float64
    pub zzt : Option Float64
    pub quality : List (String × Quality)
    pub notes : List Note

  pub record LampMetrics : Type 0 where
    pub r_cold : Option Float64
    pub r_hot : Option Float64
    pub r_hot_cold_ratio : Option Float64
    pub quality : List (String × Quality)
    pub notes : List Note

  -- A line that rises.
  abbrev pub rising : Option (Line fl) → Option (Line fl)
  rising o = elim o [ none ↦ none | some l ↦ if fl.lt fl.zero64 l.slope then some l else none ]

  module _ (m : Maths fl) where
    -- The clamped points are above 95 % of the ceiling.
    abbrev pub i_max_of : Float64 → Float64
    i_max_of ceiling = fl.mul (fl.sub (fl.decimal 10 1) (fl.decimal 5 2)) ceiling

    abbrev pub ref_of : AnalysisParams → Bool → Float64
    ref_of p led = positive_or p.ref_current_a (if led then fl.decimal 20 3 else fl.decimal 100 3)

    -- The forward voltage at the reference current.
    unfoldable pub with_vf : List (Point fl) → Float64 → DiodeMetrics → DiodeMetrics
    with_vf points ref d = elim (interp_v_at_i fl m points ref) [
      | some v ↦ record d { ref_current_a = some ref; vf_at_ref = some v }
      | none ↦ record d {
        ref_current_a = some ref;
        quality = d.quality ++ ("vfAtRef", unreliable) ∷ [];
        notes = d.notes ++ reference_not_reached ref ∷ [];
      }
    ]

    abbrev pub log_fit : List (Point fl) → Option (Line fl)
    log_fit ps = rising (linear_fit fl (voltages fl ps) (map (λ p. m.log p.i) ps))

    -- The ideality and the saturation current, from the points of the exponential region.
    unfoldable pub with_ideality : List (Point fl) → Float64 → Float64 → DiodeMetrics → DiodeMetrics
    with_ideality points v_t i_max d =
        let reg = filter fl (in_region fl i_max) points in
        if ltb (length reg) ideality_min_points
        then record d {
          quality = d.quality ++ ("ideality", unreliable) ∷ [];
          notes = d.notes ++ too_few_in_region (length reg) ∷ [];
        }
        else elim (log_fit reg) [
          | some l ↦ record d {
            ideality = some (fl.div (fl.decimal 10 1) (fl.mul l.slope v_t));
            sat_current_a = some (m.exp l.intercept);
            quality = d.quality ++ ("ideality", approx) ∷ [];
            notes = d.notes ++ ideality_approximate (length reg) ∷ [];
          }
          | none ↦ record d {
            quality = d.quality ++ ("ideality", unreliable) ∷ [];
            notes = d.notes ++ ideality_ill_conditioned ∷ [];
          }
        ]

    -- The override of the top fraction, if it is between 0 and 1.
    abbrev pub top_frac_of : AnalysisParams → Float64
    top_frac_of p = elim p.fit_high_frac [
      | none ↦ fl.decimal 2 1
      | some f ↦ if fl.lt fl.zero64 f && fl.lt f (fl.decimal 10 1) then f else fl.decimal 2 1
    ]

    -- The slope dV/dI over some points, if there are two and it rises.
    abbrev pub resistance_over : List (Point fl) → Option (Line fl)
    resistance_over ps =
        if ltb (length ps) 2 then none else rising (linear_fit fl (currents fl ps) (voltages fl ps))

    unfoldable pub with_series : List (Point fl) → Float64 → Float64 → DiodeMetrics → DiodeMetrics
    with_series points i_max frac d =
        elim (resistance_over (top_by_current fl m points i_max frac)) [
          | some l ↦ record d { series_r = some l.slope; series_r_apparent = true }
          | none ↦ record d {
            quality = d.quality ++ ("seriesR", unreliable) ∷ [];
            notes = d.notes ++ series_too_few ∷ [];
          }
        ]

    -- The dynamic resistance of an ideality, with the series resistance if there is one.
    abbrev pub dynamic_of : Float64 → Float64 → Option Float64 → Float64 → Float64
    dynamic_of n v_t series ref = elim series [
      | none ↦ fl.div (fl.mul n v_t) ref
      | some r ↦ fl.add (fl.div (fl.mul n v_t) ref) r
    ]

    abbrev pub no_dynamic : DiodeMetrics → DiodeMetrics
    no_dynamic d = record d { quality = d.quality ++ ("dynamicR", unreliable) ∷ [] }

    unfoldable pub with_dynamic : Float64 → Float64 → DiodeMetrics → DiodeMetrics
    with_dynamic v_t ref d = elim d.ideality [
      | none ↦ no_dynamic d
      | some n ↦ elim d.vf_at_ref [
        | none ↦ no_dynamic d
        | some v ↦ record d { dynamic_r = some (dynamic_of n v_t d.series_r ref) }
      ]
    ]

    unfoldable pub analyze_diode : List (Point fl) → AnalysisParams → Float64 → Bool → DiodeMetrics
    unfolding max_current with_vf with_ideality with_series with_dynamic
    analyze_diode points p ceiling led =
        if fl.lt (max_current fl points) (conduction_floor_a fl)
        then record no_diode { notes = did_not_conduct ∷ [] }
        else (let forward = with_vf points (ref_of p led) no_diode in
            let fitted = with_ideality points (vt p) (i_max_of ceiling) forward in
            let topped = with_series points (i_max_of ceiling) (top_frac_of p) fitted in
            with_dynamic (vt p) (ref_of p led) topped)

    -- The greatest deviation from a line.
    abbrev pub max_deviation : Line fl → Float64 → List (Point fl) → Float64
    max_deviation l dev [] = dev
    max_deviation l dev (p ∷ ps) =
        let d = m.abs (fl.sub p.i (fl.add (fl.mul l.slope p.v) l.intercept)) in
        max_deviation l (if fl.lt dev d then d else dev) ps

    abbrev pub ohmic : List (Point fl) → Line fl → ResistorMetrics
    ohmic points l =
        let dev = max_deviation l fl.zero64 points in
        let found : ResistorMetrics = record no_resistor {
          resistance = some (fl.div (fl.decimal 10 1) l.slope);
          r_squared = some l.r2;
          max_dev_pct = some (fl.mul (fl.div dev (max_current fl points)) (fl.decimal 1000 1));
        } in
        if fl.lt l.r2 (fl.decimal 999 3)
        then record found { quality = ("resistance", approx) ∷ []; notes = non_ohmic l.r2 ∷ [] }
        else found

    abbrev pub no_ohmic : ResistorMetrics
    no_ohmic = record no_resistor {
      quality = ("resistance", unreliable) ∷ [];
      notes = fit_degenerate ∷ [];
    }

    unfoldable pub analyze_resistor : List (Point fl) → ResistorMetrics
    unfolding max_current linear_fit
    analyze_resistor points =
        if fl.lt (max_current fl points) (conduction_floor_a fl)
        then record no_resistor { notes = did_not_conduct ∷ [] }
        else if ltb (length points) resistor_min_points
        then record no_resistor {
          quality = ("resistance", unreliable) ∷ [];
          notes = too_few_points (length points) ∷ [];
        }
        else elim (linear_fit fl (voltages fl points) (currents fl points)) [
          | none ↦ no_ohmic
          | some l ↦ if fl.le l.slope fl.zero64 then no_ohmic else ohmic points l
        ]

    abbrev pub izt_of : AnalysisParams → Float64
    izt_of p = positive_or p.izt_a (fl.decimal 5 3)

    abbrev pub no_breakdown : Float64 → ZenerMetrics
    no_breakdown izt = record {
      vz = none;
      izt_a = some izt;
      zzt = none;
      quality = [];
      notes = breakdown_not_reached ∷ [];
    }

    -- The impedance in the breakdown region, from half the test current on.
    abbrev pub broken_down : List (Point fl) → Float64 → Float64 → ZenerMetrics
    broken_down points izt v =
        elim (resistance_over (filter fl (λ p. fl.le (fl.mul izt (fl.decimal 5 1)) p.i) points)) [
          | some l ↦ record {
            vz = some v;
            izt_a = some izt;
            zzt = some l.slope;
            quality = [];
            notes = [];
          }
          | none ↦ record {
            vz = some v;
            izt_a = some izt;
            zzt = none;
            quality = ("zzt", unreliable) ∷ [];
            notes = zzt_too_few ∷ [];
          }
        ]

    unfoldable pub analyze_zener : List (Point fl) → AnalysisParams → ZenerMetrics
    unfolding max_current interp_v_at_i
    analyze_zener points p =
        if fl.lt (max_current fl points) (izt_of p)
        then no_breakdown (izt_of p)
        else elim (interp_v_at_i fl m points (izt_of p)) [
          | none ↦ no_breakdown (izt_of p)
          | some v ↦ broken_down points (izt_of p) v
        ]

    -- The first point that conducts at a positive voltage.
    abbrev pub cold_of : List (Point fl) → Option (Point fl)
    cold_of [] = none
    cold_of (p ∷ ps) =
        let rest = cold_of ps in
        if fl.le (conduction_floor_a fl) p.i && fl.lt fl.zero64 p.v then some p else rest

    -- The first point of the greatest current.
    abbrev pub hot_from : Option (Point fl) → List (Point fl) → Option (Point fl)
    hot_from hot [] = hot
    hot_from none (p ∷ ps) = hot_from (some p) ps
    hot_from (some h) (p ∷ ps) = hot_from (if fl.lt h.i p.i then some p else some h) ps

    -- V / I of a point that carries a current.
    abbrev pub ratio_at : Option (Point fl) → Option Float64
    ratio_at o = elim o [
      | none ↦ none
      | some p ↦ if fl.lt fl.zero64 p.i then some (fl.div p.v p.i) else none
    ]

    abbrev pub hot_cold : Option Float64 → Option Float64 → Option Float64
    hot_cold none h = none
    hot_cold (some c) none = none
    hot_cold (some c) (some h) = if fl.lt fl.zero64 c then some (fl.div h c) else none

    abbrev pub is_missing : Option Float64 → Bool
    is_missing none = true
    is_missing (some v) = false

    unfoldable pub analyze_lamp : List (Point fl) → LampMetrics
    unfolding max_current
    analyze_lamp points =
        let cold = ratio_at (cold_of points) in
        let hot = ratio_at (hot_from none points) in
        if fl.lt (max_current fl points) (conduction_floor_a fl)
        then record {
          r_cold = none;
          r_hot = none;
          r_hot_cold_ratio = none;
          quality = [];
          notes = did_not_conduct ∷ [];
        }
        else (let unavailable = is_missing cold || is_missing hot in
            record {
              r_cold = cold;
              r_hot = hot;
              r_hot_cold_ratio = hot_cold cold hot;
              quality = if unavailable then ("rCold", unreliable) ∷ [] else [];
              notes = if unavailable then lamp_unavailable ∷ [] else [];
            })

    pub data Metrics : Type 0 where
      diode_metrics : DiodeMetrics → Metrics
      resistor_metrics : ResistorMetrics → Metrics
      zener_metrics : ZenerMetrics → Metrics
      lamp_metrics : LampMetrics → Metrics
      generic_metrics : Metrics

    -- `unmarshal` is parseParams.
    unfoldable pub analyze :
        (String → AnalysisParams) → String → List (Point fl) → String → Float64 → Metrics
    unfolding analyze_diode analyze_resistor analyze_zener analyze_lamp
    analyze unmarshal component points raw ceiling =
        if Text.◌==◌ component "led"
        then diode_metrics (analyze_diode points (unmarshal raw) ceiling true)
        else if Text.◌==◌ component "diode"
        then diode_metrics (analyze_diode points (unmarshal raw) ceiling false)
        else if Text.◌==◌ component "resistor"
        then resistor_metrics (analyze_resistor points)
        else if Text.◌==◌ component "zener"
        then zener_metrics (analyze_zener points (unmarshal raw))
        else if Text.◌==◌ component "lamp"
        then lamp_metrics (analyze_lamp points)
        else generic_metrics
