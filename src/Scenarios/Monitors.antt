-- ===== src/Scenarios/Monitors.antt =====
-- The monitor's theorems (internal/monitor) over a small store, which knows one earlier success.
use statlite.Result.{ok, err}
use statlite.Float.{nat_float}
use statlite.Time.{hour, second}
use statlite.Collector.Model.{warning, counter}
use statlite.Storage.Types.{Snapshot}
use statlite.Storage.Integrity.{IsValid}
use statlite.Storage.Query.{
  latest_snapshot, latest_successful_snapshot, latest_failed_poll_at, trailing_failed_polls,
  count_failed, polls_of, newest_first, snapshot_of, process_start_time,
}
use statlite.Monitor.State.{record_success, Store, Monitor, no_status, no_health}
use statlite.Monitor.Restart.{
  has_error_event, RunDecision, detect_app_run, compare_with_previous, process_start_changed,
  uptime_decreased, sample_value,
}
use statlite.Monitor.Restart.Signals.{
  is_restart, continues_run, TouchesOr, detect_app_run-is_restart, detect_app_run-continues_run,
}
use statlite.Monitor.Poll.{
  PollInput, polling_disabled, collected_result, collection_failed, poll_now,
}
use statlite.Monitor.Poll.Outcome.{Outcome}
use statlite.Monitor.Poll.Paths.{poll_now-Outcome}
use statlite.Monitor.Poll.Sequence.{
  IsConsistent, run_polls, trailing_failures, run_polls-trailing_failures,
}
use statlite.Monitor.Poll.Writes.{run_polls-IsValid}
use statlite.Monitor.NoPoll.{enable_no_poll, load_restored, optional}
use statlite.Monitor.NoPoll.Restored.{enable_no_poll-failures, poll_now-enable_no_poll}
use statlite.Monitor.FollowUp.{start_loop}
use statlite.Monitor.FollowUp.Baselines.{
  known_history, with_history, lacks_baselines, follow_up, start_loop-lacks_baselines,
}
use statlite.Monitor.Tables.{db_store}
use statlite.Monitor.Manager.{
  TargetMetadata, ManagedTarget, NewTarget, Manager, new_manager, resolve_target, is_failing,
  snapshot_unhealthy,
}
use statlite.Monitor.Manager.Resolve.{
  IsWellFormed, is_ok, has_name, acceptable, trimmed_names, passes, new_manager-acceptable,
  resolve_target-configured,
}
use statlite.Scenarios.Rows.{stored, stored-IsValid, collected}
use statlite.Storage.Targets.{registered_target}
use statlite.Monitor.Poll.Stored.{poll_now-record_success}
use statlite.Storage.Db.{Db}
use statlite.Prelude.{
  ℕ, ◌+◌, ◌*◌, String, ◌≡◌, refl, true, false, ◌&&◌, none, some, List, [], ◌∷◌, arith, eq_iff, ltb,
  ◌==◌, is_some, anyb, str_eq, trim_space, is_blank, lookup,
}

abbrev pub monitor : Monitor ℕ
monitor = record {
  target_name = "app";
  interval = 30 * second;
  startup_follow_up_delay = 3 * second;
  no_poll = false;
  status = no_status;
  latest = none;
  previous = none;
  health = no_health;
}

abbrev pub earlier : Snapshot ℕ
earlier = record {
  poll_id = 1;
  target_id = 1;
  app_run_id = some 1;
  status = "ok";
  error_summary = "";
  result = record collected {
    poll_finished_at = 101;
    samples = record { key = "process_uptime"; kind = counter; value = 90; unit = "s" } ∷ [];
  };
}

abbrev pub with_previous : Monitor ℕ
with_previous = record monitor { previous = some earlier }

-- A store that counts its writes and knows one poll.
abbrev counting_store : Store ℕ ℕ String
counting_store = record {
  latest_snapshot = λ s name. ok earlier;
  latest_successful_snapshot = λ s name. ok earlier;
  latest_failed_poll_at = λ s name. err "no rows";
  trailing_failed_polls = λ s name. ok 0;
  ensure_app_run = λ s name start at. ok (2, s + 1);
  touch_app_run = λ s id at. ok (s + 1);
  save_collection_result_with_app_run = λ s result run. ok (s + 1, s + 1);
  is_no_rows = λ e. true;
  message = λ e. e;
}

abbrev good : PollInput ℕ
good = record { collected = record { result = some collected; error = none }; now = 74 * hour }

abbrev unreachable : PollInput ℕ
unreachable = record {
  collected = record { result = none; error = some "connection refused" };
  now = 75 * hour;
}

abbrev restarted : RunDecision
restarted = record { app_run_id = 2; restart_detected = true; reason = "process uptime decreased" }

detect_restarted : detect_app_run counting_store 0 with_previous collected ≡ ok (restarted, 1)
unfolding detect_app_run compare_with_previous process_start_changed uptime_decreased sample_value
detect_restarted = refl

detect_app_run-is_restart_example : true ≡ is_restart with_previous collected
detect_app_run-is_restart_example =
    detect_app_run-is_restart counting_store 0 with_previous collected restarted 1 detect_restarted

detect_app_run-continues_run_example :
    TouchesOr counting_store
      (continues_run with_previous collected)
      0
      with_previous
      collected
      restarted
      1
detect_app_run-continues_run_example =
    detect_app_run-continues_run counting_store 0 with_previous collected restarted 1
      detect_restarted

poll_now-Outcome_example :
    let c = collected_result "app" (74 * hour) good.collected in
    let (s', m', out) = poll_now counting_store 0 monitor good in
    Outcome (collection_failed c.0 c.1) monitor m' out
poll_now-Outcome_example = poll_now-Outcome counting_store 0 monitor good refl

pub monitor-IsConsistent : IsConsistent monitor
monitor-IsConsistent = record {
  none_failed = λ _. refl;
  some_failed = λ p. absurd (omega arith);
  success_has_snapshot = λ e. absurd (ground arith);
}

run_polls-trailing_failures_example :
    let (s', m', fs) = run_polls counting_store 0 monitor (good ∷ unreachable ∷ unreachable ∷ []) in
    (m'.status.consecutive_poll_failures ≡ trailing_failures 0 fs) × IsConsistent m'
run_polls-trailing_failures_example =
    run_polls-trailing_failures counting_store 0 monitor (good ∷ unreachable ∷ unreachable ∷ [])
      refl monitor-IsConsistent

run_polls-IsValid_example : IsValid (run_polls db_store stored monitor (good ∷ unreachable ∷ [])).0
run_polls-IsValid_example =
    run_polls-IsValid stored monitor (good ∷ unreachable ∷ []) stored-IsValid

poll_now-enable_no_poll_example :
    let m' = (enable_no_poll counting_store 0 monitor).0 in
    poll_now counting_store 7 m' good
    ≡ (7, m', record { snapshot = none; error = some polling_disabled })
poll_now-enable_no_poll_example = poll_now-enable_no_poll counting_store 0 monitor 7 good

abbrev metadata : String → TargetMetadata
metadata name = record {
  name = name;
  type = "spring";
  endpoint = "http://localhost:8080/actuator";
  endpoint_source = "config";
}

abbrev new_targets : List NewTarget
new_targets =
    record { metadata = metadata " app "; monitor = some 0 }
    ∷ record { metadata = metadata "web"; monitor = some 1 }
    ∷ []

abbrev pub manager : Manager
manager = record {
  order = "app" ∷ "web" ∷ [];
  targets =
      ("app", record { metadata = metadata "app"; monitor = 0 })
      ∷ ("web", record { metadata = metadata "web"; monitor = 1 })
      ∷ [];
}

new_manager-acceptable_example :
    (is_ok (new_manager new_targets) ≡ (ltb 0 2 && acceptable [] new_targets))
    × ((m : Manager)
        → new_manager new_targets ≡ ok m
        → IsWellFormed m × (m.order ≡ trimmed_names new_targets))
new_manager-acceptable_example = new_manager-acceptable new_targets

manager-IsWellFormed : IsWellFormed manager
unfolding lookup
manager-IsWellFormed = record {
  ordered = λ name. ground arith;
  named = λ name t h. ground (arith, eq_iff "app" name, eq_iff "web" name);
}

resolve_target-configured_example :
    (t : ManagedTarget) × (resolve_target (λ _. monitor) manager "web " ≡ some t)
    × (lookup t.metadata.name manager.targets ≡ some t)
    × (has_name (trim_space "web ") manager.order ≡ true → t.metadata.name ≡ trim_space "web ")
    × (has_name (trim_space "web ") manager.order ≡ false
        → (anyb (passes (λ _. monitor) is_failing manager) manager.order ≡ true
            → is_failing monitor ≡ true)
          × (anyb (passes (λ _. monitor) is_failing manager) manager.order ≡ false
              → anyb
                  (passes (λ _. monitor) (λ (x : Monitor ℕ). snapshot_unhealthy x.latest) manager)
                  manager.order
                ≡ true
              → snapshot_unhealthy monitor.latest ≡ true))
resolve_target-configured_example =
    resolve_target-configured (λ _. monitor) manager "web " manager-IsWellFormed refl

abbrev failed_poll : Snapshot ℕ
failed_poll = record {
  poll_id = 2;
  target_id = 1;
  app_run_id = some 1;
  status = "error";
  error_summary = "";
  result = record collected {
    poll_started_at = 72 * hour;
    poll_finished_at = 72 * hour + 1;
    samples = [];
    events = record { severity = warning; type = "slow"; message = "slow"; metric_key = "" } ∷ [];
  };
}

abbrev restored : Monitor ℕ
restored = (enable_no_poll db_store stored monitor).0

enable_stored : enable_no_poll db_store stored monitor ≡ (restored, none)
unfolding enable_no_poll load_restored optional latest_snapshot latest_successful_snapshot
    latest_failed_poll_at trailing_failed_polls polls_of newest_first snapshot_of process_start_time
    count_failed is_blank
enable_stored = refl

latest_stored : restored.latest ≡ some failed_poll
unfolding enable_no_poll load_restored optional latest_snapshot latest_successful_snapshot
    latest_failed_poll_at trailing_failed_polls polls_of newest_first snapshot_of process_start_time
    count_failed is_blank
latest_stored = refl

enable_no_poll-failures_example :
    (restored.status.consecutive_poll_failures == 0) ≡ str_eq failed_poll.status "ok"
enable_no_poll-failures_example =
    enable_no_poll-failures stored monitor restored failed_poll refl refl enable_stored
      latest_stored

poll_now-record_success_example :
    let input : PollInput ℕ = record {
      collected = record { result = some collected; error = none };
      now = 74 * hour;
    } in
    (db' : Db ℕ) × (sn : Snapshot ℕ) × (poll_now db_store stored with_previous input ≡ (
      db',
      record_success with_previous (73 * hour + 1) sn.poll_id sn,
      record { snapshot = some sn; error = none },
    ))
    × (sn.status ≡ "ok")
    × (is_some sn.app_run_id ≡ true)
    × (sn.result.samples ≡ collected.samples)
unfolding registered_target polls_of is_blank has_error_event
poll_now-record_success_example =
    poll_now-record_success stored with_previous earlier collected (74 * hour) (1, "spring")
      stored-IsValid refl refl (λ id h. ground arith) refl refl refl
      (omega arith, (omega arith, tt)) refl refl refl

start_loop-lacks_baselines_example :
    let known = known_history counting_store 0 monitor in
    let polled = poll_now counting_store 0 (with_history monitor known) good in
    start_loop counting_store 0 monitor good false unreachable
    ≡ follow_up counting_store
        (lacks_baselines known polled.2.snapshot (is_some polled.2.error) && true)
        unreachable
        polled
start_loop-lacks_baselines_example =
    start_loop-lacks_baselines counting_store 0 monitor good unreachable false
