-- ===== src/Monitor/Poll.antt =====
-- internal/monitor/monitor.go: one polling cycle. The polls of a monitor exclude each other
-- (`pollMu`), so a run of the monitor is a sequence of them.
pub mod Outcome
pub mod Paths
pub mod Sequence
pub mod Writes
pub mod Stored
use Prim.Native.String.{◌++◌ as append_text}
use statlite.Result.{Result, ok, err}
use statlite.Float.{Float64}
use statlite.Time.{Time}
use statlite.Collector.Model.{CollectionResult, CollectorEvent, warning, error}
use statlite.Storage.Types.{Snapshot}
use statlite.Monitor.State.{Store, Collected, Monitor, record_success, record_failure}
use statlite.Monitor.Restart.{
  RunDecision, has_error_event, detect_app_run, clear_caddy_start, event_type_restart_detected,
}
use statlite.Prelude.{
  ℕ, ◌+◌, String, Bool, false, ◌||◌, Option, none, some, [], ◌∷◌, ◌++◌, if◌then◌else◌, is_some,
  get_or_else, is_empty,
}

pub data PollError (E : Type 0) : Type 0 where
  polling_disabled : PollError E
  store_error : E → PollError E
  collect_error : String → PollError E

-- PollNow's two results.
pub record PollReturn (F E : Type 0) : Type 0 where
  pub snapshot : Option (Snapshot F)
  pub error : Option (PollError E)

-- What a poll reads from outside: the collector's answer and `time.Now()`.
pub record PollInput (F : Type 0) : Type 0 where
  pub collected : Collected F
  pub now : Time

abbrev pub no_result_event : CollectorEvent
no_result_event = record {
  severity = error;
  type = "collector_failed";
  message = "collector returned no result";
  metric_key = "";
}

abbrev pub restart_event : String → CollectorEvent
restart_event reason = record {
  severity = warning;
  type = event_type_restart_detected;
  message = reason;
  metric_key = "";
}

module _ {F : Type 0} where
  -- The result and the collection's error, with what stands in for a missing result.
  unfoldable pub collected_result : String → Time → Collected F → CollectionResult F × Option String
  collected_result target_name now c = elim c.result [
    | some r ↦ (r, c.error)
    | none ↦ (
      record {
        counter_continuity_break = false;
        target_name = target_name;
        metrics_source = "";
        poll_started_at = now;
        poll_finished_at = now;
        health_status = "";
        db_health_status = "";
        process_start_time = none;
        samples = [];
        events = no_result_event ∷ [];
      },
      some (get_or_else c.error "collector returned no result"),
    )
  ]

  abbrev pub add_restart_event : RunDecision → CollectionResult F → CollectionResult F
  add_restart_event d r =
      if d.restart_detected
      then record r { events = r.events ++ restart_event d.reason ∷ [] }
      else r

  -- Whether the collection failed: by its error, or by an error event of its result.
  unfoldable pub collection_failed : CollectionResult F → Option String → Bool
  collection_failed r collect_err = is_some collect_err || has_error_event r.events

abbrev pub failure_summary : Option String → String → String
failure_summary none summary = summary
failure_summary (some e) summary = if is_empty summary then e else summary

module _ {F S E : Type 0} where
  abbrev pub stopped :
      S
      → Monitor F
      → Time
      → ℕ
      → String
      → E
      → Option (CollectionResult F)
      → S × Monitor F × PollReturn F E
  stopped s m at poll_id summary e result = (
    s,
    record_failure m at poll_id summary none result,
    record { snapshot = none; error = some (store_error e) },
  )

module _ {F S E : Type 0} ⦃fl : Float64 F⦄ (store : Store F S E) where
  -- The saving of a result in its run, and what is recorded of it.
  unfoldable pub store_result :
      S → Monitor F → CollectionResult F → Option String → Option ℕ → S × Monitor F × PollReturn F E
  store_result s m result collect_err run =
      elim (store.save_collection_result_with_app_run s result run) [
        | err e ↦
            stopped s m result.poll_finished_at 0 (append_text "store poll: " (store.message e)) e
              (some result)
        | ok (poll_id, s') ↦ elim (store.latest_snapshot s' m.target_name) [
          | err e ↦
              stopped s' m result.poll_finished_at poll_id
                (append_text "load stored poll: " (store.message e)) e (some result)
          | ok snapshot ↦
              if collection_failed result collect_err
              then (
                s',
                record_failure m result.poll_finished_at poll_id
                    (failure_summary collect_err snapshot.error_summary) (some snapshot)
                    (some result),
                record {
                  snapshot = some snapshot;
                  error = elim collect_err [ none ↦ none | some t ↦ some (collect_error t) ];
                },
              )
              else (
                s',
                record_success m result.poll_finished_at poll_id snapshot,
                record { snapshot = some snapshot; error = none },
              )
        ]
      ]

  -- The poll after the previous snapshot is loaded.
  unfoldable pub collect_and_store : S → Monitor F → PollInput F → S × Monitor F × PollReturn F E
  collect_and_store s m input =
      let (result, collect_err) = collected_result m.target_name input.now input.collected in
      if collection_failed result collect_err
      then store_result s m result collect_err none
      else elim (detect_app_run store s m result) [
        | err e ↦
            stopped s m result.poll_finished_at 0 (append_text "detect app run: " (store.message e))
              e (some result)
        | ok (d, s') ↦
            store_result s' m (add_restart_event d (clear_caddy_start result)) collect_err
              (some d.app_run_id)
      ]

  -- The previous snapshot as the poll finds it, loaded where the monitor has none.
  unfoldable pub load_previous : S → Monitor F → Result E (Monitor F)
  load_previous s m = elim m.previous [
    | some p ↦ ok m
    | none ↦ elim (store.latest_successful_snapshot s m.target_name) [
      | ok p ↦ ok (record m { previous = some p })
      | err e ↦ if store.is_no_rows e then ok m else err e
    ]
  ]

  -- The poll under the lock.
  unfoldable pub poll_locked : S → Monitor F → PollInput F → S × Monitor F × PollReturn F E
  poll_locked s m input = elim (load_previous s m) [
    | err e ↦
        stopped s m input.now 0 (append_text "load previous successful poll: " (store.message e)) e
          none
    | ok m' ↦ collect_and_store s m' input
  ]

  unfoldable pub poll_now : S → Monitor F → PollInput F → S × Monitor F × PollReturn F E
  poll_now s m input =
      if m.no_poll
      then (s, m, record { snapshot = none; error = some polling_disabled })
      else poll_locked s m input
