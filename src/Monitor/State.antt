-- ===== src/Monitor/State.antt =====
-- internal/monitor/monitor.go: what a monitor keeps, the store and the collector as it sees them, and
-- the recording of a poll's result.
use statlite.Result.{Result, ok, ◌>>◌, refuse}
use statlite.Time.{Time, Duration, second}
use statlite.Collector.Model.{CollectionResult}
use statlite.Storage.Types.{Snapshot}
use statlite.Prelude.{
  ℕ, ◌+◌, ◌*◌, String, Bool, true, false, not, ◌&&◌, Option, none, some, leb, if◌then◌else◌,
  is_empty, is_blank,
}

pub record Status : Type 0 where
  pub last_poll_at : Option Time
  pub last_successful_poll_at : Option Time
  pub last_failed_poll_at : Option Time
  pub consecutive_poll_failures : ℕ
  pub last_poll_error_summary : String
  pub last_stored_poll_id : ℕ
  pub last_successful_stored_poll_id : ℕ

pub record HealthObservation : Type 0 where
  pub application : String
  pub dependency : String
  pub observed_at : Time
  pub reported : Bool

abbrev pub no_status : Status
no_status = record {
  last_poll_at = none;
  last_successful_poll_at = none;
  last_failed_poll_at = none;
  consecutive_poll_failures = 0;
  last_poll_error_summary = "";
  last_stored_poll_id = 0;
  last_successful_stored_poll_id = 0;
}

-- HealthObservation{}
abbrev pub no_health : HealthObservation
no_health = record { application = ""; dependency = ""; observed_at = 0; reported = false }

-- The methods of *storage.Store that a monitor calls, for any state `S` of the store and any errors
-- `E`; a write that fails is rolled back.
pub record Store (F S E : Type 0) : Type 0 where
  pub latest_snapshot : S → String → Result E (Snapshot F)
  pub latest_successful_snapshot : S → String → Result E (Snapshot F)
  pub latest_failed_poll_at : S → String → Result E Time
  pub trailing_failed_polls : S → String → Result E ℕ
  pub ensure_app_run : S → String → Option Time → Time → Result E (ℕ × S)
  pub touch_app_run : S → ℕ → Time → Result E S
  pub save_collection_result_with_app_run : S → CollectionResult F → Option ℕ → Result E (ℕ × S)
  -- errors.Is(err, sql.ErrNoRows)
  pub is_no_rows : E → Bool
  -- err.Error()
  pub message : E → String

-- What `Collect` returned: a result that may be missing, and an error's text.
pub record Collected (F : Type 0) : Type 0 where
  pub result : Option (CollectionResult F)
  pub error : Option String

pub record Monitor (F : Type 0) : Type 0 where
  pub target_name : String
  pub interval : Duration
  pub startup_follow_up_delay : Duration
  pub no_poll : Bool
  pub status : Status
  pub latest : Option (Snapshot F)
  pub previous : Option (Snapshot F)
  pub health : HealthObservation

abbrev pub default_startup_follow_up_delay : Duration
default_startup_follow_up_delay = 3 * second

module _ {F : Type 0} where
  -- `New`: whether a collector and a store were given, and the interval in nanoseconds.
  unfoldable pub new_monitor : String → Bool → Bool → Duration → Result String (Monitor F)
  new_monitor target_name has_collector has_store interval = do
    refuse (is_blank target_name) "target name is required"
    refuse (not has_collector) "collector is required"
    refuse (not has_store) "store is required"
    refuse (leb interval 0) "polling interval must be positive"
    ok (record {
      target_name = target_name;
      interval = interval;
      startup_follow_up_delay = default_startup_follow_up_delay;
      no_poll = false;
      status = no_status;
      latest = none;
      previous = none;
      health = no_health;
    })

  unfoldable pub health_observation : Option (CollectionResult F) → HealthObservation
  health_observation none = no_health
  health_observation (some r) =
      if is_empty r.health_status && is_empty r.db_health_status then no_health else record {
        application = r.health_status;
        dependency = r.db_health_status;
        observed_at = r.poll_finished_at;
        reported = true;
      }

  unfoldable pub record_success : Monitor F → Time → ℕ → Snapshot F → Monitor F
  unfolding health_observation
  record_success m at poll_id snapshot = record m {
    latest = some snapshot;
    previous = some snapshot;
    health = health_observation (some snapshot.result);
    status = record m.status {
      last_poll_at = some at;
      last_successful_poll_at = some at;
      consecutive_poll_failures = 0;
      last_poll_error_summary = "";
      last_stored_poll_id = poll_id;
      last_successful_stored_poll_id = poll_id;
    };
  }

  abbrev pub or_latest : Option (Snapshot F) → Option (Snapshot F) → Option (Snapshot F)
  or_latest none latest = latest
  or_latest (some s) latest = some s

  unfoldable pub record_failure :
      Monitor F → Time → ℕ → String → Option (Snapshot F) → Option (CollectionResult F) → Monitor F
  unfolding health_observation
  record_failure m at poll_id summary snapshot result = record m {
    latest = or_latest snapshot m.latest;
    health = health_observation result;
    status = record m.status {
      last_poll_at = some at;
      last_failed_poll_at = some at;
      consecutive_poll_failures = m.status.consecutive_poll_failures + 1;
      last_poll_error_summary = summary;
      last_stored_poll_id = poll_id;
    };
  }
