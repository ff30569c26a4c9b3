-- ===== src/Storage/Downsample.antt =====
-- internal/storage/downsample.go: aggregation of points into fixed clock buckets. A sum and its
-- count (`requestsSum`, `requestsN`) are one `SumCount`; a loop's variables are one state record.
pub mod Groups
pub mod Order
pub mod Totals
use statlite.Float.{Float64}
use statlite.Time.{Time, Duration, before, truncate}
use statlite.Storage.Types.{SeriesPoint, Series}
use statlite.Storage.Series.{same_app_run}
use statlite.Prelude.{
  is_some, not, ℕ, zero, suc, ◌+◌, ◌-◌, ◌*◌, ◌/◌, ◌%◌, ◌≤◌, ◌<◌, String, ◌≡◌, refl, sym, ap, ◌∙◌,
  ◌≢◌, ◌↔◌, ◌⊎◌, inl, inr, Bool, true, false, not, ◌&&◌, ◌||◌, Option, none, some, List, [], ◌∷◌,
  ◌++◌, map, arith, eq_iff, eq_refl, ltb, leb, ◌==◌, if◌then◌else◌, ltb→lt, lt→ltb, leb→le, ==_iff,
  tests, Bool-cases, Option-cases, is_some, get_or_else, option_eq, length, take, head?, last?,
  filterb, anyb, find?, foldl, All, length-append, length-take, length-filterb, foldl-append,
  str_eq, is_empty, trim_space, is_blank, upper_eq, lookup, insert, lookup-insert,
}

pub record SumCount (F : Type 0) : Type 0 where
  pub sum : F
  pub n : ℕ

pub record BucketAccumulator (F : Type 0) : Type 0 where
  pub start : Time
  pub identity_set : Bool
  pub poll_id_common : Bool
  pub app_run_common : Bool
  pub poll_id : ℕ
  pub app_run_id : Option ℕ
  pub requests : SumCount F
  pub http_404 : SumCount F
  pub http_4xx : SumCount F
  pub http_5xx : SumCount F
  pub latency_weighted_sum : F
  pub latency_requests_sum : F
  pub heap : SumCount F
  pub cpu : SumCount F
  pub host_cpu : SumCount F
  pub host_memory_used : SumCount F
  pub host_memory_total : SumCount F
  pub host_memory_usage : SumCount F
  pub host_disk_used : SumCount F
  pub host_disk_total : SumCount F
  pub host_disk_usage : SumCount F

-- The variables of the loop of `AggregateSeries`.
pub record AggregateState (F : Type 0) : Type 0 where
  pub out : List (SeriesPoint F)
  pub acc : Option (BucketAccumulator F)
  pub merged : Bool

unfoldable pub clock_bucket_start : Time → Duration → Time
unfolding truncate
clock_bucket_start timestamp bucket_dur =
    if leb bucket_dur 0 then timestamp else truncate timestamp bucket_dur

-- The start of a point's bucket; the first partial one is kept inside the requested range.
unfoldable pub bucket_start_of : Time → Duration → Time → Time
unfolding clock_bucket_start
bucket_start_of start bucket timestamp =
    let b = clock_bucket_start timestamp bucket in if before b start then start else b

module _ {F : Type 0} ⦃fl : Float64 F⦄ where
  unfoldable pub add_sum : SumCount F → Option F → SumCount F
  add_sum s none = s
  add_sum s (some value) = record { sum = fl.add s.sum value; n = s.n + 1 }

  -- The two sums `weightedSum` and `requestSum` after a point.
  unfoldable pub add_weighted_latency : F × F → Option F → Option F → F × F
  add_weighted_latency (weighted, requests_sum) (some latency) (some requests) =
      if fl.fle requests fl.zero_f
      then (weighted, requests_sum)
      else (fl.add weighted (fl.mul latency requests), fl.add requests_sum requests)
  add_weighted_latency (weighted, requests_sum) _ _ = (weighted, requests_sum)

  unfoldable pub sum_result : SumCount F → Option F
  sum_result s = if s.n == 0 then none else some s.sum

  unfoldable pub avg_result : SumCount F → Option F
  avg_result s = if s.n == 0 then none else some (fl.div s.sum (fl.of_nat s.n))

  unfoldable pub weighted_result : F → F → Option F
  weighted_result weighted_sum weight_sum =
      if fl.fle weight_sum fl.zero_f then none else some (fl.div weighted_sum weight_sum)

  abbrev pub empty_sum : SumCount F
  empty_sum = record { sum = fl.zero_f; n = 0 }

  unfoldable pub new_bucket_accumulator : Time → BucketAccumulator F
  new_bucket_accumulator start = record {
    start = start;
    identity_set = false;
    poll_id_common = false;
    app_run_common = false;
    poll_id = 0;
    app_run_id = none;
    requests = empty_sum;
    http_404 = empty_sum;
    http_4xx = empty_sum;
    http_5xx = empty_sum;
    latency_weighted_sum = fl.zero_f;
    latency_requests_sum = fl.zero_f;
    heap = empty_sum;
    cpu = empty_sum;
    host_cpu = empty_sum;
    host_memory_used = empty_sum;
    host_memory_total = empty_sum;
    host_memory_usage = empty_sum;
    host_disk_used = empty_sum;
    host_disk_total = empty_sum;
    host_disk_usage = empty_sum;
  }

  -- The first half of `add`: the bucket's poll and run are kept only while all points agree.
  unfoldable pub add_identity : BucketAccumulator F → SeriesPoint F → BucketAccumulator F
  add_identity a point =
      let poll_differs = a.poll_id_common && not (a.poll_id == point.poll_id) in
      let run_differs = a.app_run_common && not (same_app_run a.app_run_id point.app_run_id) in
      record a {
        identity_set = true;
        poll_id_common =
            if not a.identity_set then true else if poll_differs then false else a.poll_id_common;
        poll_id =
            if not a.identity_set then point.poll_id else if poll_differs then 0 else a.poll_id;
        app_run_common =
            if not a.identity_set then true else if run_differs then false else a.app_run_common;
        app_run_id =
            if not a.identity_set
            then point.app_run_id
            else if run_differs
            then none
            else a.app_run_id;
      }

  unfoldable pub add_point : BucketAccumulator F → SeriesPoint F → BucketAccumulator F
  unfolding add_identity add_sum add_weighted_latency
  add_point acc point =
      let a = add_identity acc point in
      let latency : F × F =
        add_weighted_latency (a.latency_weighted_sum, a.latency_requests_sum)
          point.average_latency_seconds point.requests in
      record a {
        requests = add_sum a.requests point.requests;
        http_404 = add_sum a.http_404 point.http_404;
        http_4xx = add_sum a.http_4xx point.http_4xx;
        http_5xx = add_sum a.http_5xx point.http_5xx;
        latency_weighted_sum = latency.0;
        latency_requests_sum = latency.1;
        heap = add_sum a.heap point.heap_used_bytes;
        cpu = add_sum a.cpu point.process_cpu_usage;
        host_cpu = add_sum a.host_cpu point.host_cpu_usage;
        host_memory_used = add_sum a.host_memory_used point.host_memory_used_bytes;
        host_memory_total = add_sum a.host_memory_total point.host_memory_total_bytes;
        host_memory_usage = add_sum a.host_memory_usage point.host_memory_usage;
        host_disk_used = add_sum a.host_disk_used point.host_disk_used_bytes;
        host_disk_total = add_sum a.host_disk_total point.host_disk_total_bytes;
        host_disk_usage = add_sum a.host_disk_usage point.host_disk_usage;
      }

  unfoldable pub bucket_point : BucketAccumulator F → SeriesPoint F
  unfolding sum_result avg_result weighted_result
  bucket_point a = record {
    cpu_unit = "";
    public_coverage = record { paired_4xx = false; paired_5xx = false };
    poll_id = if a.poll_id_common then a.poll_id else 0;
    timestamp = a.start;
    app_run_id = if a.app_run_common then a.app_run_id else none;
    requests = sum_result a.requests;
    http_404 = sum_result a.http_404;
    http_4xx = sum_result a.http_4xx;
    http_5xx = sum_result a.http_5xx;
    average_latency_seconds = weighted_result a.latency_weighted_sum a.latency_requests_sum;
    heap_used_bytes = avg_result a.heap;
    process_cpu_usage = avg_result a.cpu;
    host_cpu_usage = avg_result a.host_cpu;
    host_memory_used_bytes = avg_result a.host_memory_used;
    host_memory_total_bytes = avg_result a.host_memory_total;
    host_memory_usage = avg_result a.host_memory_usage;
    host_disk_used_bytes = avg_result a.host_disk_used;
    host_disk_total_bytes = avg_result a.host_disk_total;
    host_disk_usage = avg_result a.host_disk_usage;
  }

  unfoldable pub flush_bucket : AggregateState F → AggregateState F
  flush_bucket s = record {
    out = elim s.acc [ none ↦ s.out | some a ↦ s.out ++ bucket_point a ∷ [] ];
    acc = none;
    merged = s.merged;
  }

  -- One round of the loop over the points.
  unfoldable pub aggregate_step :
      Time → Duration → AggregateState F → SeriesPoint F → AggregateState F
  unfolding bucket_start_of flush_bucket
  aggregate_step start bucket s point =
      let b = bucket_start_of start bucket point.timestamp in
      elim s.acc [
        | none ↦ record (flush_bucket s) { acc = some (add_point (new_bucket_accumulator b) point) }
        | some a ↦
            if a.start == b
            then record s { merged = true; acc = some (add_point a point) }
            else record (flush_bucket s) { acc = some (add_point (new_bucket_accumulator b) point) }
      ]

  unfoldable pub aggregate_points : Time → Duration → List (SeriesPoint F) → AggregateState F
  unfolding aggregate_step flush_bucket
  aggregate_points start bucket points =
      flush_bucket (
        foldl (aggregate_step start bucket) (record { out = []; acc = none; merged = false })
          points)

  unfoldable pub aggregate_series : Option (Series F) → Duration → Option (Series F)
  unfolding aggregate_points
  aggregate_series none bucket = none
  aggregate_series (some series) bucket =
      if leb bucket 0 || ltb (length series.points) 2
      then some series
      else (let s = aggregate_points series.start bucket series.points in
          if not s.merged
          then some series
          else some (record {
            cpu_unit = series.cpu_unit;
            cpu_unit_assumed = series.cpu_unit_assumed;
            cpu_unit_conflict = series.cpu_unit_conflict;
            start = series.start;
            end = series.end;
            points = s.out;
            first_poll_id = series.first_poll_id;
            latest_point = series.latest_point;
            current_host_disk = series.current_host_disk;
          }))
