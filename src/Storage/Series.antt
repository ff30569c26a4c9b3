-- ===== src/Storage/Series.antt =====
-- internal/storage/series.go, the part that derives points: counter deltas against a map of
-- baselines, gauges, and the baselines' update. A Go map is an association list with distinct keys.
pub mod Deltas
use statlite.Float.{Float64}
use statlite.Time.{Time, before}
use statlite.Collector.Model.{MetricKind, is_counter}
use statlite.Storage.Types.{SeriesPoint, Series, HostDiskCurrent}
use statlite.Prelude.{
  ℕ, zero, suc, ◌+◌, ◌-◌, ◌*◌, ◌/◌, ◌%◌, ◌≤◌, ◌<◌, String, ◌≡◌, refl, sym, ap, ◌∙◌, ◌≢◌, ◌↔◌, ◌⊎◌,
  inl, inr, Bool, true, false, not, ◌&&◌, ◌||◌, Option, none, some, List, [], ◌∷◌, ◌++◌, map, arith,
  eq_iff, eq_refl, ltb, leb, ◌==◌, if◌then◌else◌, ltb→lt, lt→ltb, leb→le, ==_iff, tests, Bool-cases,
  Option-cases, is_some, get_or_else, option_eq, length, take, head?, last?, filterb, anyb, find?,
  foldl, All, length-append, length-take, length-filterb, foldl-append, str_eq, is_empty,
  trim_space, is_blank, upper_eq, lookup, insert, lookup-insert,
}

pub record SampleValue (F : Type 0) : Type 0 where
  pub unit : String
  pub kind : MetricKind
  pub value : F

pub record CounterValue (F : Type 0) : Type 0 where
  pub poll_id : ℕ
  pub app_run_id : Option ℕ
  pub value : F

pub record PollSamples (F : Type 0) : Type 0 where
  pub poll_id : ℕ
  pub timestamp : Time
  pub app_run_id : Option ℕ
  pub samples : List (String × SampleValue F)

abbrev pub Baselines : Type 0 → Type 0
Baselines F = List (String × CounterValue F)

unfoldable pub same_app_run : Option ℕ → Option ℕ → Bool
same_app_run a b =
    if not (is_some a) || not (is_some b) then not (is_some a) && not (is_some b) else option_eq a b

abbrev pub series_counter_keys : List String
series_counter_keys =
    "http_requests_total" ∷ "http_404_total" ∷ "http_4xx_total" ∷ "http_5xx_total"
    ∷ "http_request_time_total_seconds" ∷ []

abbrev pub series_metric_keys : List String
series_metric_keys =
    series_counter_keys
    ++ "runtime_heap_used_bytes" ∷ "jvm_heap_used_bytes" ∷ "process_cpu_usage" ∷ "host_cpu_usage"
      ∷ "host_memory_used_bytes" ∷ "host_memory_total_bytes" ∷ "host_disk_used_bytes"
      ∷ "host_disk_total_bytes" ∷ []

module _ {F : Type 0} ⦃fl : Float64 F⦄ where
  -- The subtraction, once the sample and its baseline are found.
  abbrev pub delta_of : Option ℕ → Option (SampleValue F) → Option (CounterValue F) → Option F
  delta_of run none b = none
  delta_of run (some sample) none = none
  delta_of run (some sample) (some b) =
      if not (is_counter sample.kind)
      then none
      else if not (same_app_run b.app_run_id run)
      then none
      else (let delta = fl.sub sample.value b.value in
          if fl.flt delta fl.zero_f then none else some delta)

  unfoldable pub counter_delta : PollSamples F → Baselines F → String → Option F
  unfolding same_app_run
  counter_delta poll previous key =
      delta_of poll.app_run_id (lookup key poll.samples) (lookup key previous)

  unfoldable pub usage_percentage : Option F → Option F → Option F
  usage_percentage none total = none
  usage_percentage (some used) none = none
  usage_percentage (some used) (some total) =
      if fl.flt used fl.zero_f || fl.fle total fl.zero_f || fl.flt total used
      then none
      else some (fl.div used total)

module _ {F : Type 0} where
  abbrev pub same_poll : Option (CounterValue F) → Option (CounterValue F) → Bool
  same_poll (some a) (some b) = a.poll_id == b.poll_id
  same_poll _ _ = false

  unfoldable pub matching_counter_baseline : Baselines F → String → String → Bool
  matching_counter_baseline previous first second =
      same_poll (lookup first previous) (lookup second previous)

  abbrev pub gauge_of : Option (SampleValue F) → Option F
  gauge_of none = none
  gauge_of (some sample) = if is_counter sample.kind then none else some sample.value

  unfoldable pub gauge_value : PollSamples F → String → Option F
  gauge_value poll key = gauge_of (lookup key poll.samples)

  abbrev pub or_else : Option F → Option F → Option F
  or_else none b = b
  or_else (some a) b = some a

  unfoldable pub runtime_memory_value : PollSamples F → Option F
  unfolding gauge_value
  runtime_memory_value poll =
      or_else (gauge_value poll "runtime_heap_used_bytes") (gauge_value poll "jvm_heap_used_bytes")

  abbrev pub unit_of : Option (SampleValue F) → String
  unit_of none = ""
  unit_of (some sample) = sample.unit

  -- The range over `poll.samples`; a Go map's order is arbitrary, and the keys are distinct.
  unfoldable pub update_counters :
      ℕ → Option ℕ → List (String × SampleValue F) → Baselines F → Baselines F
  update_counters id run [] previous = previous
  update_counters id run ((key, sample) ∷ rest) previous = update_counters id run rest (
      if is_counter sample.kind
      then insert key (record { poll_id = id; app_run_id = run; value = sample.value }) previous
      else previous)

  unfoldable pub update_previous_counters : PollSamples F → Baselines F → Baselines F
  unfolding update_counters
  update_previous_counters poll previous =
      update_counters poll.poll_id poll.app_run_id poll.samples previous

module _ {F : Type 0} ⦃fl : Float64 F⦄ where
  -- The average latency: of a positive request delta whose baseline is the duration's poll too.
  unfoldable pub average_latency : Bool → Option F → Option F → Option F
  average_latency matching (some requests) (some time) =
      if fl.flt fl.zero_f requests && matching then some (fl.div time requests) else none
  average_latency matching _ _ = none

  unfoldable pub build_series_point :
      PollSamples F → Baselines F → Time → SeriesPoint F × Bool × Baselines F
  build_series_point poll previous start =
      let request_delta = counter_delta poll previous "http_requests_total" in
      let request_time_delta = counter_delta poll previous "http_request_time_total_seconds" in
      let delta_4xx = counter_delta poll previous "http_4xx_total" in
      let delta_5xx = counter_delta poll previous "http_5xx_total" in
      let memory_used = gauge_value poll "host_memory_used_bytes" in
      let memory_total = gauge_value poll "host_memory_total_bytes" in
      let disk_used = gauge_value poll "host_disk_used_bytes" in
      let disk_total = gauge_value poll "host_disk_total_bytes" in
      let point : SeriesPoint F = record {
        cpu_unit = unit_of (lookup "process_cpu_usage" poll.samples);
        public_coverage = record {
          paired_4xx =
              is_some request_delta
              && is_some delta_4xx
              && matching_counter_baseline previous "http_requests_total" "http_4xx_total";
          paired_5xx =
              is_some request_delta
              && is_some delta_5xx
              && matching_counter_baseline previous "http_requests_total" "http_5xx_total";
        };
        poll_id = poll.poll_id;
        timestamp = poll.timestamp;
        app_run_id = poll.app_run_id;
        requests = request_delta;
        http_404 = counter_delta poll previous "http_404_total";
        http_4xx = delta_4xx;
        http_5xx = delta_5xx;
        average_latency_seconds =
            average_latency
              (matching_counter_baseline previous "http_requests_total"
                "http_request_time_total_seconds")
              request_delta request_time_delta;
        heap_used_bytes = runtime_memory_value poll;
        process_cpu_usage = gauge_value poll "process_cpu_usage";
        host_cpu_usage = gauge_value poll "host_cpu_usage";
        host_memory_used_bytes = memory_used;
        host_memory_total_bytes = memory_total;
        host_memory_usage = usage_percentage memory_used memory_total;
        host_disk_used_bytes = disk_used;
        host_disk_total_bytes = disk_total;
        host_disk_usage = usage_percentage disk_used disk_total;
      } in
      (point, not (before poll.timestamp start), update_previous_counters poll previous)

module _ {F : Type 0} where
  abbrev pub disk_of : Option F → Option F → Option F → Option (HostDiskCurrent F)
  disk_of (some used) (some total) (some usage) =
      some (record { used_bytes = used; total_bytes = total; usage = usage })
  disk_of _ _ _ = none

  abbrev pub point_disk : Option (SeriesPoint F) → Option (HostDiskCurrent F)
  point_disk none = none
  point_disk (some p) = disk_of p.host_disk_used_bytes p.host_disk_total_bytes p.host_disk_usage

  unfoldable pub set_current_host_disk : Series F → Series F
  set_current_host_disk series = record series {
    current_host_disk = point_disk (last? series.points);
  }
