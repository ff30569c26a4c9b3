-- ===== src/Scenarios/Samples.antt =====
-- The series' loop on a target with two polls that have samples and one that has none
-- (internal/storage/series.go).
use statlite.Result.{ok, err}
use statlite.Float.{nat_float}
use statlite.Time.{Time, before}
use statlite.Collector.Model.{counter, gauge}
use statlite.Storage.Db.{
  Db, PollRow, SampleRow, target_name_required, start_not_before_end, poll_limit_exceeded,
}
use statlite.Storage.Query.{polls_of}
use statlite.Storage.DashboardPolls.{window_polls, oldest_first, insert_oldest}
use statlite.Storage.SeriesRows.{samples_of, series_polls, series_with_baseline}
use statlite.Storage.SeriesRows.Points.{
  gather_polls, derive_points, HasDistinctIds, series_with_baseline-derive_points,
}
use statlite.Storage.Series.{series_counter_keys}
use statlite.Storage.SeriesQuery.{bounded_series, previous_counter_values_from}
use statlite.Storage.SeriesQuery.Bounded.{points_of, bounded_series-derive_points}
use statlite.Storage.SeriesQuery.Baseline.{IsBaseline, previous_counter_values_from-IsBaseline}
use statlite.Scenarios.Rows.{target}
use statlite.Prelude.{
  not, ltb, if◌then◌else◌, length, anyb, str_eq, is_blank, lookup, ℕ, ◌≡◌, refl, none, some, [],
  ◌∷◌, last?,
}

abbrev poll_at : ℕ → Time → PollRow
poll_at id at = record {
  id = id;
  target_id = 1;
  app_run_id = none;
  started_at = at;
  finished_at = at;
  status = "ok";
  health_status = none;
  db_health_status = none;
  error_summary = none;
  metrics_source = none;
}

abbrev requests_of : ℕ → ℕ → SampleRow ℕ
requests_of id value = record {
  poll_id = id;
  metric_key = "http_requests_total";
  metric_kind = counter;
  value = value;
  unit = none;
}

abbrev sampled : Db ℕ
sampled = record {
  targets = target ∷ [];
  app_runs = [];
  polls = poll_at 1 100 ∷ poll_at 2 130 ∷ poll_at 3 160 ∷ [];
  metric_samples =
      requests_of 1 10
      ∷ record {
        poll_id = 1;
        metric_key = "process_cpu_usage";
        metric_kind = gauge;
        value = 3;
        unit = some "cores";
      }
      ∷ requests_of 3 14
      ∷ [];
  collector_events = [];
}

sampled-HasDistinctIds : HasDistinctIds (series_polls sampled "app" 50 200 none)
unfolding polls_of oldest_first insert_oldest
sampled-HasDistinctIds = ((refl, (refl, tt)), ((refl, tt), (tt, tt)))

series_with_baseline-derive_points_example :
    let series = series_with_baseline sampled "app" 50 200 none [] in
    let polls = gather_polls (samples_of sampled) (series_polls sampled "app" 50 200 none) in
    (series.points ≡ derive_points 50 [] polls)
    × (series.latest_point ≡ last? (derive_points 50 [] polls))
series_with_baseline-derive_points_example =
    series_with_baseline-derive_points sampled "app" 50 200 none [] sampled-HasDistinctIds

window-HasDistinctIds : HasDistinctIds (window_polls sampled "app" 120 200)
unfolding polls_of oldest_first insert_oldest
window-HasDistinctIds = ((refl, tt), (tt, tt))

bounded_series-derive_points_example : points_of (bounded_series sampled "app" 120 200 0) ≡ (
    if is_blank "app"
    then err target_name_required
    else if not (before 120 200)
    then err start_not_before_end
    else if ltb 4096 (length (window_polls sampled "app" 120 200))
    then err poll_limit_exceeded
    else ok (
        derive_points 120
          (previous_counter_values_from sampled "app" 120 series_counter_keys 0)
          (gather_polls (samples_of sampled) (window_polls sampled "app" 120 200))))
bounded_series-derive_points_example =
    bounded_series-derive_points sampled "app" 120 200 0 window-HasDistinctIds

previous_counter_values_from-IsBaseline_example :
    IsBaseline sampled "app" 170 100 "http_requests_total"
      (anyb (λ k. str_eq k "http_requests_total") series_counter_keys)
      (lookup "http_requests_total"
        (previous_counter_values_from sampled "app" 170 series_counter_keys 100))
previous_counter_values_from-IsBaseline_example =
    previous_counter_values_from-IsBaseline sampled "app" 170 series_counter_keys 100
      "http_requests_total"
