-- ===== src/Scenarios/Points.antt =====
-- The series' theorems on a short series of four polls (internal/storage, internal/collector).
use statlite.Float.{nat_float}
use statlite.Time.{Time, minute}
use statlite.Collector.Model.{counter, is_counter}
use statlite.Storage.Types.{SeriesPoint, Series}
use statlite.Storage.Series.{SampleValue, CounterValue, PollSamples, Baselines, counter_delta}
use statlite.Storage.Series.Deltas.{counter_delta_iff}
use statlite.Storage.Downsample.{aggregate_series, add_point, new_bucket_accumulator}
use statlite.Storage.Downsample.Groups.{
  has_shared_bucket, groups, summarise, aggregate_series-eq_summaries,
}
use statlite.Storage.Downsample.Order.{IsIncreasingFrom, aggregate_series-IsIncreasingFrom}
use statlite.Storage.Downsample.Totals.{
  present, sum_of, mean_of, weights, request_total, weighted_total, summarise_fields,
  summarise_latency,
}
use statlite.Storage.PublicMetrics.{
  is_usable, is_http_observation, paired_4, paired_5, error_rate, group_public_metrics,
}
use statlite.Storage.PublicMetrics.Slots.{
  minute_of, minute_summary, last_seen, group_public_metrics-eq_minutes,
}
use statlite.Storage.PublicMetrics.Errors.{is_complete, minute_summary_errors}
use statlite.Storage.Grouping
use statlite.Storage.DashboardCpu.{
  lacks_unit, fits_unit, keep_fitting, option_any, option_map, configure_dashboard_cpu,
  configure_dashboard_cpu_lem,
}
use statlite.Prelude.{
  ℕ, ◌+◌, ◌-◌, ◌*◌, ◌/◌, String, ◌≡◌, refl, ◌↔◌, true, false, not, ◌&&◌, ◌||◌, Option, none, some,
  List, [], ◌∷◌, map, arith, ltb, leb, if◌then◌else◌, filterb, anyb, foldl, lookup,
}

abbrev point : ℕ → Time → Option ℕ → Option ℕ → String → SeriesPoint ℕ
point id at requests latency unit = record {
  cpu_unit = unit;
  public_coverage = record { paired_4xx = true; paired_5xx = true };
  poll_id = id;
  timestamp = at;
  app_run_id = some 1;
  requests = requests;
  http_404 = some 0;
  http_4xx = requests;
  http_5xx = some 1;
  average_latency_seconds = latency;
  heap_used_bytes = some 100;
  process_cpu_usage = some 2;
  host_cpu_usage = none;
  host_memory_used_bytes = some 5;
  host_memory_total_bytes = some 10;
  host_memory_usage = some 0;
  host_disk_used_bytes = none;
  host_disk_total_bytes = none;
  host_disk_usage = none;
}

abbrev pub first : SeriesPoint ℕ
first = point 1 (60 * minute) (some 10) (some 2) "cores"

abbrev pub second_one : SeriesPoint ℕ
second_one = point 2 (60 * minute + 1) (some 5) (some 4) ""

abbrev pub third : SeriesPoint ℕ
third = point 3 (62 * minute) none none "usage"

abbrev pub all_points : List (SeriesPoint ℕ)
all_points = first ∷ second_one ∷ third ∷ []

abbrev pub series_of : List (SeriesPoint ℕ) → Series ℕ
series_of points = record {
  cpu_unit = "";
  cpu_unit_assumed = false;
  cpu_unit_conflict = false;
  start = 60 * minute;
  end = 70 * minute;
  points = points;
  first_poll_id = 1;
  latest_point = some third;
  current_host_disk = none;
}

abbrev sample : SampleValue ℕ
sample = record { unit = "requests"; kind = counter; value = 12 }

abbrev polled : PollSamples ℕ
polled = record {
  poll_id = 4;
  timestamp = 65 * minute;
  app_run_id = some 1;
  samples = ("http_requests_total", sample) ∷ [];
}

abbrev baseline : CounterValue ℕ
baseline = record { poll_id = 3; app_run_id = some 1; value = 7 }

abbrev baselines : Baselines ℕ
baselines = ("http_requests_total", baseline) ∷ []

counter_delta_iff_example : (counter_delta polled baselines "http_requests_total" ≡ some 5) ↔ (
    (s : SampleValue ℕ) × (b : CounterValue ℕ) × (lookup "http_requests_total" polled.samples
      ≡ some s)
    × (is_counter s.kind ≡ true)
    × (lookup "http_requests_total" baselines ≡ some b)
    × (b.app_run_id ≡ some 1)
    × (ltb 5 0 ≡ false)
    × (5 ≡ s.value - b.value))
counter_delta_iff_example = counter_delta_iff polled baselines "http_requests_total" 5

aggregate_series-eq_summaries_example :
    aggregate_series (some (series_of all_points)) minute
    ≡ some (
        if ltb 0 minute && has_shared_bucket (60 * minute) minute all_points
        then record (series_of all_points) {
          points = map summarise (groups (60 * minute) minute all_points);
        }
        else series_of all_points)
aggregate_series-eq_summaries_example = aggregate_series-eq_summaries (series_of all_points) minute

aggregate_series-IsIncreasingFrom_example : IsIncreasingFrom (60 * minute) (first ∷ third ∷ [])
unfolding aggregate_series add_point new_bucket_accumulator
aggregate_series-IsIncreasingFrom_example =
    aggregate_series-IsIncreasingFrom (series_of (first ∷ third ∷ []))
      (series_of (first ∷ third ∷ [])) minute (omega arith) (omega arith, (omega arith, tt)) refl

summarise_fields_example :
    let g = all_points in
    let s = summarise (60 * minute, g) in
    (s.requests ≡ sum_of (present (λ p. p.requests) g))
    × (s.http_404 ≡ sum_of (present (λ p. p.http_404) g))
    × (s.http_4xx ≡ sum_of (present (λ p. p.http_4xx) g))
    × (s.http_5xx ≡ sum_of (present (λ p. p.http_5xx) g))
    × (s.heap_used_bytes ≡ mean_of (present (λ p. p.heap_used_bytes) g))
    × (s.process_cpu_usage ≡ mean_of (present (λ p. p.process_cpu_usage) g))
    × (s.host_cpu_usage ≡ mean_of (present (λ p. p.host_cpu_usage) g))
    × (s.host_memory_used_bytes ≡ mean_of (present (λ p. p.host_memory_used_bytes) g))
    × (s.host_memory_total_bytes ≡ mean_of (present (λ p. p.host_memory_total_bytes) g))
    × (s.host_memory_usage ≡ mean_of (present (λ p. p.host_memory_usage) g))
    × (s.host_disk_used_bytes ≡ mean_of (present (λ p. p.host_disk_used_bytes) g))
    × (s.host_disk_total_bytes ≡ mean_of (present (λ p. p.host_disk_total_bytes) g))
    × (s.host_disk_usage ≡ mean_of (present (λ p. p.host_disk_usage) g))
summarise_fields_example = summarise_fields (60 * minute) all_points

summarise_latency_example : (summarise (60 * minute, all_points)).average_latency_seconds ≡ (
    if leb (request_total 0 (weights all_points)) 0
    then none
    else some (weighted_total 0 (weights all_points) / request_total 0 (weights all_points)))
summarise_latency_example = summarise_latency (60 * minute) all_points

group_public_metrics-eq_minutes_example :
    (group_public_metrics (some (series_of all_points))).points
      ≡ map minute_summary (Grouping.group_by minute_of (filterb is_usable all_points))
    × ((group_public_metrics (some (series_of all_points))).latest_http_observation_at
        ≡ last_seen (λ p. is_usable p && is_http_observation p) none all_points)
group_public_metrics-eq_minutes_example = group_public_metrics-eq_minutes (series_of all_points)

minute_summary_errors_example :
    let m = minute_summary (60 * minute, all_points) in
    (m.http_4xx ≡ (
      if is_complete paired_4 all_points
      then some (foldl ◌+◌ 0 (present paired_4 all_points))
      else none))
    × (m.http_5xx ≡ (
        if is_complete paired_5 all_points
        then some (foldl ◌+◌ 0 (present paired_5 all_points))
        else none))
    × (m.http_5xx_rate ≡ error_rate m.http_5xx m.requests)
    × (m.latency_requests ≡ (
        if ltb 0 (request_total 0 (weights all_points))
        then some (request_total 0 (weights all_points))
        else none))
minute_summary_errors_example = minute_summary_errors (60 * minute) all_points

configure_dashboard_cpu_lem_example :
    configure_dashboard_cpu (some (series_of all_points)) "cores"
    ≡ some (record (series_of all_points) {
      cpu_unit = "cores";
      cpu_unit_assumed =
          false || (anyb lacks_unit all_points || option_any lacks_unit (some third));
      cpu_unit_conflict =
          false
          || (anyb (λ p. not (fits_unit "cores" p)) all_points
              || option_any (λ p. not (fits_unit "cores" p)) (some third));
      points = map (keep_fitting "cores") all_points;
      latest_point = option_map (keep_fitting "cores") (some third);
    })
configure_dashboard_cpu_lem_example = configure_dashboard_cpu_lem (series_of all_points) "cores"
