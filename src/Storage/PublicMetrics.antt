-- ===== src/Storage/PublicMetrics.antt =====
-- internal/storage/public_metrics.go: grouping of a series into UTC minutes for the public API. The
-- variables that `flush` reads and a new slot resets are one record, `Slot`.
pub mod Slots
pub mod Errors
use statlite.Float.{Float64}
use statlite.Time.{Time, truncate, minute}
use statlite.Storage.Types.{SeriesPoint, Series}
use statlite.Storage.Downsample.{BucketAccumulator, new_bucket_accumulator, add_point, bucket_point}
use statlite.Prelude.{
  ℕ, ◌+◌, Bool, not, ◌&&◌, ◌||◌, Option, none, some, List, [], ◌∷◌, ◌++◌, ltb, ◌==◌, if◌then◌else◌,
  is_some, foldl,
}

pub record PublicMetricPoint (F : Type 0) : Type 0 where
  pub timestamp : Time
  pub requests : Option F
  pub http_4xx : Option F
  pub http_5xx : Option F
  pub http_5xx_rate : Option F
  pub average_latency_seconds : Option F
  pub latency_requests : Option F
  pub process_cpu_cores : Option F
  pub runtime_memory_bytes : Option F
  pub host_cpu_usage : Option F
  pub host_memory_usage : Option F
  pub host_disk_usage : Option F

pub record PublicMetricSeries (F : Type 0) : Type 0 where
  pub points : List (PublicMetricPoint F)
  pub latest_http_observation_at : Option Time

pub record Slot (F : Type 0) : Type 0 where
  pub acc : BucketAccumulator F
  pub request_intervals : ℕ
  pub paired_4xx : ℕ
  pub paired_5xx : ℕ
  pub sum_4xx : F
  pub sum_5xx : F

pub record GroupState (F : Type 0) : Type 0 where
  pub out : List (PublicMetricPoint F)
  pub latest : Option Time
  pub slot : Option (Slot F)

module _ {F : Type 0} where
  -- The errors of a point that come with a request delta over the same interval.
  unfoldable pub paired_value : Option F → Bool → Option F → Option F
  paired_value requests covered value =
      if is_some requests && covered && is_some value then value else none

  abbrev pub paired_4 : SeriesPoint F → Option F
  paired_4 p = paired_value p.requests p.public_coverage.paired_4xx p.http_4xx

  abbrev pub paired_5 : SeriesPoint F → Option F
  paired_5 p = paired_value p.requests p.public_coverage.paired_5xx p.http_5xx

  unfoldable pub is_usable : SeriesPoint F → Bool
  is_usable p =
      is_some p.requests
      || is_some p.average_latency_seconds
      || is_some p.heap_used_bytes
      || is_some p.process_cpu_usage
      || is_some p.host_cpu_usage
      || is_some p.host_memory_usage
      || is_some p.host_disk_usage

  unfoldable pub is_http_observation : SeriesPoint F → Bool
  unfolding paired_value
  is_http_observation p =
      is_some p.requests
      || is_some p.average_latency_seconds
      || is_some (paired_4 p)
      || is_some (paired_5 p)

module _ {F : Type 0} ⦃fl : Float64 F⦄ where
  unfoldable pub new_slot : Time → Slot F
  new_slot start = record {
    acc = new_bucket_accumulator start;
    request_intervals = 0;
    paired_4xx = 0;
    paired_5xx = 0;
    sum_4xx = fl.zero_f;
    sum_5xx = fl.zero_f;
  }

  abbrev pub add_value : F → Option F → F
  add_value sum none = sum
  add_value sum (some v) = fl.add sum v

  unfoldable pub add_to_slot : Slot F → SeriesPoint F → Slot F
  unfolding paired_value
  add_to_slot s p = record {
    acc = add_point s.acc p;
    request_intervals = if is_some p.requests then s.request_intervals + 1 else s.request_intervals;
    paired_4xx = if is_some (paired_4 p) then s.paired_4xx + 1 else s.paired_4xx;
    paired_5xx = if is_some (paired_5 p) then s.paired_5xx + 1 else s.paired_5xx;
    sum_4xx = add_value s.sum_4xx (paired_4 p);
    sum_5xx = add_value s.sum_5xx (paired_5 p);
  }

  -- An error count, once every request interval of the slot is paired with one.
  abbrev pub complete_errors : ℕ → ℕ → F → Option F
  complete_errors intervals paired sum =
      if ltb 0 intervals && (paired == intervals) then some sum else none

  abbrev pub error_rate : Option F → Option F → Option F
  error_rate (some errors) (some requests) =
      if fl.flt fl.zero_f requests then some (fl.div errors requests) else none
  error_rate _ _ = none

  -- What `flush` appends.
  unfoldable pub public_point : Slot F → PublicMetricPoint F
  public_point s =
      let point = bucket_point s.acc in
      let errors_5xx = complete_errors s.request_intervals s.paired_5xx s.sum_5xx in
      record {
        timestamp = s.acc.start;
        requests = point.requests;
        http_4xx = complete_errors s.request_intervals s.paired_4xx s.sum_4xx;
        http_5xx = errors_5xx;
        http_5xx_rate = error_rate errors_5xx point.requests;
        average_latency_seconds = point.average_latency_seconds;
        latency_requests =
            if fl.flt fl.zero_f s.acc.latency_requests_sum
            then some s.acc.latency_requests_sum
            else none;
        process_cpu_cores = point.process_cpu_usage;
        runtime_memory_bytes = point.heap_used_bytes;
        host_cpu_usage = point.host_cpu_usage;
        host_memory_usage = point.host_memory_usage;
        host_disk_usage = point.host_disk_usage;
      }

  unfoldable pub flush_slot : GroupState F → GroupState F
  unfolding public_point
  flush_slot s = record s {
    out = elim s.slot [ none ↦ s.out | some a ↦ s.out ++ public_point a ∷ [] ];
    slot = none;
  }

  -- One round of the loop over the points.
  unfoldable pub group_step : GroupState F → SeriesPoint F → GroupState F
  unfolding is_usable is_http_observation flush_slot
  group_step s p =
      if not (is_usable p)
      then s
      else (let t = record s {
        latest = if is_http_observation p then some p.timestamp else s.latest;
      } in
          let slot_start = truncate p.timestamp minute in
          let fresh = record (flush_slot t) { slot = some (add_to_slot (new_slot slot_start) p) } in
          elim t.slot [
            | none ↦ fresh
            | some a ↦
                if a.acc.start == slot_start
                then record t { slot = some (add_to_slot a p) }
                else fresh
          ])

  unfoldable pub group_points : GroupState F → List (SeriesPoint F) → GroupState F
  unfolding group_step
  group_points s points = foldl group_step s points

  unfoldable pub group_public_metrics : Option (Series F) → PublicMetricSeries F
  unfolding group_points
  group_public_metrics none = record { points = []; latest_http_observation_at = none }
  group_public_metrics (some series) =
      let s = group_points (record { out = []; latest = none; slot = none }) series.points in
      record { points = (flush_slot s).out; latest_http_observation_at = s.latest }
