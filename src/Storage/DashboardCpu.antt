-- ===== src/Storage/DashboardCpu.antt =====
-- internal/storage/dashboard_series.go, `ConfigureDashboardCPU`: one CPU unit for a chart.
use statlite.Storage.Types.{SeriesPoint, Series}
use statlite.Prelude.{
  String, ◌≡◌, refl, inl, inr, Bool, true, false, not, ◌&&◌, ◌||◌, Option, none, some, List, [],
  ◌∷◌, map, if◌then◌else◌, Bool-cases, is_some, anyb, str_eq, is_empty,
}

module _ {F : Type 0} where
  -- The closure `filter` on one point: the point after it, and whether it found the unit missing
  -- and whether it found another unit.
  unfoldable pub filter_cpu : String → SeriesPoint F → SeriesPoint F × Bool × Bool
  filter_cpu unit p =
      if not (is_some p.process_cpu_usage)
      then (p, false, false)
      else if is_empty p.cpu_unit
      then (p, true, false)
      else if not (str_eq p.cpu_unit unit)
      then (record p { process_cpu_usage = none }, false, true)
      else (p, false, false)

  unfoldable pub filter_points : String → List (SeriesPoint F) → List (SeriesPoint F) × Bool × Bool
  unfolding filter_cpu
  filter_points unit [] = ([], false, false)
  filter_points unit (p ∷ ps) =
      let (q, assumed, conflict) = filter_cpu unit p in
      let (qs, assumed', conflict') = filter_points unit ps in
      (q ∷ qs, assumed || assumed', conflict || conflict')

  unfoldable pub filter_latest :
      String → Option (SeriesPoint F) → Option (SeriesPoint F) × Bool × Bool
  unfolding filter_cpu
  filter_latest unit none = (none, false, false)
  filter_latest unit (some p) =
      let (q, assumed, conflict) = filter_cpu unit p in (some q, assumed, conflict)

  unfoldable pub configure_dashboard_cpu : Option (Series F) → String → Option (Series F)
  unfolding filter_points filter_latest
  configure_dashboard_cpu none unit = none
  configure_dashboard_cpu (some series) unit =
      let (points, assumed, conflict) = filter_points unit series.points in
      let (latest, assumed', conflict') = filter_latest unit series.latest_point in
      some (record series {
        cpu_unit = unit;
        cpu_unit_assumed = series.cpu_unit_assumed || (assumed || assumed');
        cpu_unit_conflict = series.cpu_unit_conflict || (conflict || conflict');
        points = points;
        latest_point = latest;
      })

module _ {F : Type 0} where
  -- A CPU value that a chart in `unit` may show: of that unit, or of none.
  abbrev pub fits_unit : String → SeriesPoint F → Bool
  fits_unit unit p =
      not (is_some p.process_cpu_usage) || is_empty p.cpu_unit || str_eq p.cpu_unit unit

  -- A point without its CPU value, where that does not fit.
  abbrev pub keep_fitting : String → SeriesPoint F → SeriesPoint F
  keep_fitting unit p = if fits_unit unit p then p else record p { process_cpu_usage = none }

  abbrev pub lacks_unit : SeriesPoint F → Bool
  lacks_unit p = is_some p.process_cpu_usage && is_empty p.cpu_unit

  abbrev pub option_any : (SeriesPoint F → Bool) → Option (SeriesPoint F) → Bool
  option_any test none = false
  option_any test (some p) = test p

  abbrev pub option_map :
      (SeriesPoint F → SeriesPoint F) → Option (SeriesPoint F) → Option (SeriesPoint F)
  option_map f none = none
  option_map f (some p) = some (f p)

  filter_cpu_lem :
      (unit : String) (p : SeriesPoint F)
      → filter_cpu unit p ≡ (keep_fitting unit p, lacks_unit p, not (fits_unit unit p))
  unfolding filter_cpu
  filter_cpu_lem unit p = elim (Bool-cases (is_some p.process_cpu_usage)) [
    | inl a ↦ elim (Bool-cases (is_empty p.cpu_unit)) [
      | inl b ↦ rw (a, b)
      | inr b ↦ elim (Bool-cases (str_eq p.cpu_unit unit)) [
        | inl c ↦ rw (a, b, c)
        | inr c ↦ rw (a, b, c)
      ]
    ]
    | inr a ↦ rw a
  ]

  filter_latest_lem :
      (unit : String) (latest : Option (SeriesPoint F))
      → filter_latest unit latest ≡ (
        option_map (keep_fitting unit) latest,
        option_any lacks_unit latest,
        option_any (λ p. not (fits_unit unit p)) latest,
      )
  unfolding filter_latest
  filter_latest_lem unit none = refl
  filter_latest_lem unit (some p) = rw (filter_cpu_lem unit p)

  filter_points_lem :
      (unit : String) (ps : List (SeriesPoint F))
      → filter_points unit ps
        ≡ (map (keep_fitting unit) ps, anyb lacks_unit ps, anyb (λ p. not (fits_unit unit p)) ps)
  unfolding filter_points
  filter_points_lem unit [] = refl
  filter_points_lem unit (p ∷ ps) = rw (filter_cpu_lem unit p, filter_points_lem unit ps)

  -- Configuring a chart's CPU unit drops exactly the CPU values of another, known unit, from the
  -- points and the latest point, keeps everything else, and raises the flag of assumed units
  -- exactly when a value has no unit, and that of conflicts exactly when a value was dropped.
  pub configure_dashboard_cpu_lem :
      (series : Series F) (unit : String)
      → configure_dashboard_cpu (some series) unit
        ≡ some (record series {
          cpu_unit = unit;
          cpu_unit_assumed =
              series.cpu_unit_assumed
              || (anyb lacks_unit series.points || option_any lacks_unit series.latest_point);
          cpu_unit_conflict =
              series.cpu_unit_conflict
              || (anyb (λ p. not (fits_unit unit p)) series.points
                  || option_any (λ p. not (fits_unit unit p)) series.latest_point);
          points = map (keep_fitting unit) series.points;
          latest_point = option_map (keep_fitting unit) series.latest_point;
        })
  unfolding configure_dashboard_cpu
  configure_dashboard_cpu_lem series unit =
      rw (filter_points_lem unit series.points, filter_latest_lem unit series.latest_point)
