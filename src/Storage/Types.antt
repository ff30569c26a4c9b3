-- ===== src/Storage/Types.antt =====
-- internal/storage/types.go: what the store returns. A pointer to a value is an option.
use statlite.Time.{Time}
use statlite.Collector.Model.{CollectionResult}
use statlite.Prelude.{ℕ, String, Bool, Option, List}

pub record Snapshot (F : Type 0) : Type 0 where
  pub poll_id : ℕ
  pub target_id : ℕ
  pub app_run_id : Option ℕ
  pub status : String
  pub error_summary : String
  pub result : CollectionResult F

pub record HostDiskCurrent (F : Type 0) : Type 0 where
  pub used_bytes : F
  pub total_bytes : F
  pub usage : F

pub record PublicCounterCoverage : Type 0 where
  pub paired_4xx : Bool
  pub paired_5xx : Bool

pub record SeriesPoint (F : Type 0) : Type 0 where
  pub cpu_unit : String
  pub public_coverage : PublicCounterCoverage
  pub poll_id : ℕ
  pub timestamp : Time
  pub app_run_id : Option ℕ
  pub requests : Option F
  pub http_404 : Option F
  pub http_4xx : Option F
  pub http_5xx : Option F
  pub average_latency_seconds : Option F
  pub heap_used_bytes : Option F
  pub process_cpu_usage : Option F
  pub host_cpu_usage : Option F
  pub host_memory_used_bytes : Option F
  pub host_memory_total_bytes : Option F
  pub host_memory_usage : Option F
  pub host_disk_used_bytes : Option F
  pub host_disk_total_bytes : Option F
  pub host_disk_usage : Option F

pub record Series (F : Type 0) : Type 0 where
  pub cpu_unit : String
  pub cpu_unit_assumed : Bool
  pub cpu_unit_conflict : Bool
  pub start : Time
  pub end : Time
  pub points : List (SeriesPoint F)
  pub first_poll_id : ℕ
  pub latest_point : Option (SeriesPoint F)
  pub current_host_disk : Option (HostDiskCurrent F)

pub record Event : Type 0 where
  pub poll_id : ℕ
  pub timestamp : Time
  pub severity : String
  pub type : String
  pub metric_key : String
  pub message : String
