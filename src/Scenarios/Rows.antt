-- ===== src/Scenarios/Rows.antt =====
-- The tables' theorems on a database of one target with polls of two runs (internal/storage).
use statlite.Result.{ok}
use statlite.Float.{nat_float}
use statlite.Time.{Time, hour}
use statlite.Collector.Model.{CollectionResult, counter, warning}
use statlite.Storage.Db.{
  Db, TargetRow, AppRunRow, PollRow, SampleRow, EventRow, StoreError, next_key, nullable_string,
}
use statlite.Storage.Targets.{TargetIdentity, register_targets, registered_target}
use statlite.Storage.Targets.Binding.{type_of, AllBound, register_targets_atomic}
use statlite.Storage.Write.{
  poll_status, save_collection_result_with_app_run, ensure_app_run, run_exists, upsert_app_run,
}
use statlite.Storage.Retention.{delete_polls_before, run_cleanups}
use statlite.Storage.Integrity.{has_poll, IsValid}
use statlite.Storage.Integrity.Saves.{save-IsValid}
use statlite.Storage.Integrity.Runs.{has_run, ensure_app_run_sound}
use statlite.Storage.Integrity.Deletes.{expired, delete_polls_before_lem, run_cleanups_sound}
use statlite.Storage.Query.{polls_of, latest_snapshot, process_start_time}
use statlite.Storage.Query.Latest.{save_then_latest}
use statlite.Storage.DashboardPolls.{
  Group, Groups, find_group, group_ids, sort_ids, window_polls, select_polls, oldest_first,
  set_group, dashboard_poll_ids,
}
use statlite.Storage.DashboardPolls.Selection.{
  ids_of, endpoints_of, dashboard_poll_ids-endpoints_of,
}
use statlite.Storage.Downsample.{clock_bucket_start}
use statlite.Prelude.{
  ℕ, ◌+◌, ◌*◌, ◌≤◌, String, ◌≡◌, refl, true, false, none, some, List, [], ◌∷◌, arith, ◌==◌,
  if◌then◌else◌, leb, length, filterb, All, is_blank,
}

abbrev pub target : TargetRow
target = record { id = 1; name = "app"; created_at = 5; target_type = some "spring" }

abbrev run : AppRunRow
run = record {
  id = 1;
  target_id = 1;
  process_start_time = some 50;
  first_seen_at = 100;
  last_seen_at = 200;
  target_type = "spring";
}

abbrev poll : ℕ → Time → String → PollRow
poll id at status = record {
  id = id;
  target_id = 1;
  app_run_id = some 1;
  started_at = at;
  finished_at = at + 1;
  status = status;
  health_status = some "UP";
  db_health_status = none;
  error_summary = none;
  metrics_source = some "spring";
}

abbrev pub stored : Db ℕ
stored = record {
  targets = target ∷ [];
  app_runs = run ∷ [];
  polls = poll 1 100 "ok" ∷ poll 2 (72 * hour) "error" ∷ [];
  metric_samples =
      record {
        poll_id = 1;
        metric_key = "process_uptime";
        metric_kind = counter;
        value = 50;
        unit = none;
      }
      ∷ [];
  collector_events =
      record {
        poll_id = 2;
        severity = warning;
        event_type = "slow";
        metric_key = none;
        message = "slow";
      }
      ∷ [];
}

pub stored-IsValid : IsValid stored
unfolding run_exists
stored-IsValid = record {
  poll_keys_increase = (omega arith, (omega arith, tt));
  polls_have_target = (refl, (refl, tt));
  polls_have_run = (refl, (refl, tt));
  samples_have_poll = (refl, tt);
  events_have_poll = (refl, tt);
}

abbrev pub collected : CollectionResult ℕ
collected = record {
  counter_continuity_break = false;
  target_name = "app";
  metrics_source = "spring";
  poll_started_at = 73 * hour;
  poll_finished_at = 73 * hour + 1;
  health_status = "UP";
  db_health_status = "";
  process_start_time = some 50;
  samples = record { key = "process_uptime"; kind = counter; value = 60; unit = "s" } ∷ [];
  events = [];
}

abbrev saved : ℕ × Db ℕ
saved = (
  3,
  record stored {
    polls = poll 1 100 "ok" ∷ poll 2 (72 * hour) "error" ∷ poll 3 (73 * hour) "ok" ∷ [];
    metric_samples =
        record {
          poll_id = 1;
          metric_key = "process_uptime";
          metric_kind = counter;
          value = 50;
          unit = none;
        }
        ∷ record {
          poll_id = 3;
          metric_key = "process_uptime";
          metric_kind = counter;
          value = 60;
          unit = some "s";
        }
        ∷ [];
  },
)

save_stored : save_collection_result_with_app_run stored collected (some 1) ≡ ok saved
unfolding save_collection_result_with_app_run registered_target run_exists poll_status next_key
    nullable_string
save_stored = refl

save-IsValid_example : IsValid saved.1
save-IsValid_example = save-IsValid stored collected (some 1) 3 saved.1 stored-IsValid save_stored

abbrev identities : List TargetIdentity
identities = record { name = "app"; type = "spring" } ∷ record { name = "web"; type = "caddy" } ∷ []

register_targets_atomic_example :
    let (db', error) = register_targets stored 300 identities in
    (error ≡ none
      → AllBound identities db'.targets
        × ((n ty : String) → type_of n stored.targets ≡ some ty → type_of n db'.targets ≡ some ty)
        × (db' ≡ record stored { targets = db'.targets }))
    × ((e : StoreError) → error ≡ some e → db' ≡ stored)
register_targets_atomic_example = register_targets_atomic stored 300 identities

abbrev touched : Db ℕ
touched = record stored { app_runs = record run { last_seen_at = 300 } ∷ [] }

ensure_app_run_sound_example :
    (has_run 1 touched.app_runs ≡ true)
    × ((k : ℕ) → has_run k stored.app_runs ≡ true → has_run k touched.app_runs ≡ true)
    × (touched ≡ record stored { app_runs = touched.app_runs })
    × IsValid touched
unfolding ensure_app_run registered_target is_blank upsert_app_run
ensure_app_run_sound_example =
    ensure_app_run_sound stored "app" (some 50) 300 1 touched stored-IsValid refl

delete_polls_before_lem_example :
    let (deleted, db') = delete_polls_before stored 1000 in
    (deleted + length db'.polls ≡ 2)
    × All (λ (p : PollRow). 1000 ≤ p.started_at) db'.polls
    × (filterb (λ (p : PollRow). leb 1000 p.started_at) db'.polls
        ≡ filterb (λ (p : PollRow). leb 1000 p.started_at) stored.polls)
    × ((id : ℕ)
        → filterb (λ (r : SampleRow ℕ). r.poll_id == id) db'.metric_samples ≡ (
            if has_poll id (expired stored 1000)
            then []
            else filterb (λ (r : SampleRow ℕ). r.poll_id == id) stored.metric_samples))
    × ((id : ℕ)
        → filterb (λ (r : EventRow). r.poll_id == id) db'.collector_events ≡ (
            if has_poll id (expired stored 1000)
            then []
            else filterb (λ (r : EventRow). r.poll_id == id) stored.collector_events))
    × (db'.targets ≡ stored.targets)
    × (db'.app_runs ≡ stored.app_runs)
delete_polls_before_lem_example = delete_polls_before_lem stored 1000

run_cleanups_sound_example :
    let (db', cutoff') = run_cleanups stored 100 2 (73 * hour ∷ 97 * hour ∷ []) in
    IsValid db' × All (λ (p : PollRow). cutoff' ≤ p.started_at) db'.polls
run_cleanups_sound_example =
    run_cleanups_sound stored 100 2 (73 * hour ∷ 97 * hour ∷ []) stored-IsValid
      (omega arith, (omega arith, tt))

save_then_latest_example :
    (t : ℕ) × (latest_snapshot saved.1 "app"
      ≡ ok (record {
        poll_id = 3;
        target_id = t;
        app_run_id = some 1;
        status = (poll_status collected.events).0;
        error_summary = (poll_status collected.events).1;
        result = record collected {
          counter_continuity_break = false;
          process_start_time = some 50;
        };
      }))
unfolding polls_of process_start_time is_blank
save_then_latest_example =
    save_then_latest stored collected (some 1) 3 saved.1 (some 50) stored-IsValid refl
      (omega arith, (omega arith, tt)) save_stored refl

dashboard_poll_ids-endpoints_of_example :
    (groups : Groups) × (1 ∷ 2 ∷ [] ≡ sort_ids (group_ids groups))
    × (2 ≤ 4096)
    × ((key : Group)
        → find_group key groups
          ≡ endpoints_of (ids_of (2 * hour) key (window_polls stored "app" 50 (80 * hour))))
unfolding dashboard_poll_ids polls_of select_polls oldest_first set_group find_group group_ids
    sort_ids clock_bucket_start statlite.Storage.DashboardPolls.insert_oldest
    statlite.Storage.DashboardPolls.insert_id
dashboard_poll_ids-endpoints_of_example =
    dashboard_poll_ids-endpoints_of stored "app" 50 (80 * hour) (2 * hour) (1 ∷ 2 ∷ []) refl
