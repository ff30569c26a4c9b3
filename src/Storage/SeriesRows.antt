-- ===== src/Storage/SeriesRows.antt =====
-- internal/storage/series.go, the loop of seriesWithBaseline over the joined rows: samples of one poll
-- are gathered in a map and become one point. The rows of a poll stand in the table's order here; the
-- code orders them by key too, which a map does not see.
pub mod Points
use statlite.Float.{Float64}
use statlite.Time.{Time}
use statlite.Collector.Model.{MetricKind}
use statlite.Storage.Types.{SeriesPoint, Series}
use statlite.Storage.Db.{Db, PollRow, SampleRow, string_of}
use statlite.Storage.DashboardPolls.{window_polls}
use statlite.Storage.Series.{
  PollSamples, Baselines, series_metric_keys, build_series_point, set_current_host_disk,
}
use statlite.Prelude.{
  ℕ, String, Bool, true, false, ◌&&◌, Option, none, some, List, [], ◌∷◌, ◌++◌, map, ◌==◌,
  if◌then◌else◌, head?, last?, filterb, anyb, foldl, str_eq, insert,
}

-- A row of the query; `unit.String` is "" for NULL.
pub record SeriesRow (F : Type 0) : Type 0 where
  pub poll_id : ℕ
  pub started_at : Time
  pub app_run_id : Option ℕ
  pub metric_key : String
  pub metric_kind : MetricKind
  pub value : F
  pub unit : Option String

-- `current`, `previous` and `series.Points` of the loop.
pub record SeriesLoop (F : Type 0) : Type 0 where
  pub current : Option (PollSamples F)
  pub previous : Baselines F
  pub points : List (SeriesPoint F)

-- AND p.id IN (...), left out for a nil list.
abbrev pub selects : Option (List ℕ) → ℕ → Bool
selects none id = true
selects (some ids) id = anyb (λ i. i == id) ids

module _ {F : Type 0} where
  abbrev pub is_series_sample : PollRow → SampleRow F → Bool
  is_series_sample p r =
      (r.poll_id == p.id) && anyb (λ key. str_eq key r.metric_key) series_metric_keys

  abbrev pub samples_of : Db F → PollRow → List (SampleRow F)
  samples_of db p = filterb (is_series_sample p) db.metric_samples

  abbrev pub joined_row : PollRow → SampleRow F → SeriesRow F
  joined_row p r = record {
    poll_id = p.id;
    started_at = p.started_at;
    app_run_id = p.app_run_id;
    metric_key = r.metric_key;
    metric_kind = r.metric_kind;
    value = r.value;
    unit = r.unit;
  }

  -- JOIN metric_samples ms ON ms.poll_id = p.id
  unfoldable pub joined_rows : (PollRow → List (SampleRow F)) → List PollRow → List (SeriesRow F)
  joined_rows samples [] = []
  joined_rows samples (p ∷ ps) = map (joined_row p) (samples p) ++ joined_rows samples ps

  abbrev pub series_polls : Db F → String → Time → Time → Option (List ℕ) → List PollRow
  series_polls db target_name start end ids =
      filterb (λ (p : PollRow). selects ids p.id) (window_polls db target_name start end)

  abbrev pub is_current : Option (PollSamples F) → ℕ → Bool
  is_current none id = false
  is_current (some poll) id = poll.poll_id == id

  abbrev pub new_poll_samples : SeriesRow F → PollSamples F
  new_poll_samples row = record {
    poll_id = row.poll_id;
    timestamp = row.started_at;
    app_run_id = row.app_run_id;
    samples = [];
  }

  -- current.samples[metricKey] = ...
  abbrev pub put_sample : PollSamples F → SeriesRow F → PollSamples F
  put_sample poll row = record poll {
    samples =
        insert row.metric_key
          (record { unit = string_of row.unit; kind = row.metric_kind; value = row.value })
          poll.samples;
  }

module _ {F : Type 0} ⦃fl : Float64 F⦄ where
  unfoldable pub flush_poll : Time → SeriesLoop F → SeriesLoop F
  flush_poll start loop = elim loop.current [
    | none ↦ loop
    | some poll ↦
        let (point, include, previous) = build_series_point poll loop.previous start in
        record {
          current = loop.current;
          previous = previous;
          points = if include then loop.points ++ point ∷ [] else loop.points;
        }
  ]

  abbrev pub open_poll : SeriesLoop F → SeriesRow F → PollSamples F
  open_poll loop row = elim loop.current [
    | none ↦ new_poll_samples row
    | some poll ↦ if poll.poll_id == row.poll_id then poll else new_poll_samples row
  ]

  unfoldable pub series_row : Time → SeriesLoop F → SeriesRow F → SeriesLoop F
  series_row start loop row =
      let flushed = if is_current loop.current row.poll_id then loop else flush_poll start loop in
      record flushed { current = some (put_sample (open_poll loop row) row) }

  abbrev pub first_id : Option (SeriesPoint F) → ℕ
  first_id none = 0
  first_id (some p) = p.poll_id

  unfoldable pub series_with_baseline :
      Db F → String → Time → Time → Option (List ℕ) → Baselines F → Series F
  series_with_baseline db target_name start end ids previous =
      let rows = joined_rows (samples_of db) (series_polls db target_name start end ids) in
      let loop = flush_poll start (
        foldl (series_row start) (record { current = none; previous = previous; points = [] })
          rows) in
      set_current_host_disk (record {
        cpu_unit = "";
        cpu_unit_assumed = false;
        cpu_unit_conflict = false;
        start = start;
        end = end;
        points = loop.points;
        first_poll_id = first_id (head? loop.points);
        latest_point = last? loop.points;
        current_host_disk = none;
      })
