-- ===== src/Storage/Write.antt =====
-- internal/storage/write.go: app runs and the saving of a collection result. An operation gives the
-- database after it, or an error, and then the transaction's changes are rolled back.
use Prim.Native.String.{◌++◌ as append_text}
use statlite.Result.{Result, ok, err, ◌>>=◌, ◌>>◌, refuse}
use statlite.Float.{Float64}
use statlite.Time.{Time}
use statlite.Collector.Model.{CollectionResult, MetricSample, CollectorEvent, is_error}
use statlite.Storage.Db.{
  Db, AppRunRow, PollRow, SampleRow, EventRow, StoreError, result_required, result_target_required,
  target_name_required, app_run_not_found, constraint_failed, nullable_string, next_key, poll_keys,
  app_run_keys,
}
use statlite.Storage.Targets.{registered_target}
use statlite.Prelude.{
  ℕ, String, Bool, true, not, ◌&&◌, Option, none, some, List, [], ◌∷◌, ◌++◌, map, ◌==◌,
  if◌then◌else◌, option_eq, anyb, find?, allb, is_empty, is_blank,
}

-- strings.Join
unfoldable pub join_texts : String → List String → String
join_texts sep [] = ""
join_texts sep (s ∷ []) = s
join_texts sep (s ∷ t ∷ ts) = append_text s (append_text sep (join_texts sep (t ∷ ts)))

abbrev pub error_messages : List CollectorEvent → List String
error_messages [] = []
error_messages (e ∷ es) =
    if is_error e.severity then e.message ∷ error_messages es else error_messages es

unfoldable pub poll_status : List CollectorEvent → String × String
unfolding join_texts
poll_status events = elim (error_messages events) [
  | [] ↦ ("ok", "")
  | m ∷ ms ↦ ("error", join_texts "; " (m ∷ ms))
]

-- The row of `upsertAppRun`'s statement: the conflict is on (target_id, process_start_time).
abbrev pub same_run : ℕ → Time → AppRunRow → Bool
same_run target_id start r =
    (r.target_id == target_id) && option_eq r.process_start_time (some start)

unfoldable pub upsert_app_run : List AppRunRow → ℕ → String → Time → Time → ℕ × List AppRunRow
unfolding next_key
upsert_app_run rows target_id target_type start seen_at =
    elim (find? (same_run target_id start) rows) [
      | some old ↦ (
        old.id,
        map
            (λ (r : AppRunRow).
              if same_run target_id start r then record r { last_seen_at = seen_at } else r)
            rows,
      )
      | none ↦ (
        next_key (app_run_keys rows),
        rows
            ++ record {
              id = next_key (app_run_keys rows);
              target_id = target_id;
              process_start_time = some start;
              first_seen_at = seen_at;
              last_seen_at = seen_at;
              target_type = target_type;
            }
              ∷ [],
      )
    ]

unfoldable pub insert_anonymous_app_run : List AppRunRow → ℕ → String → Time → ℕ × List AppRunRow
unfolding next_key
insert_anonymous_app_run rows target_id target_type seen_at = (
  next_key (app_run_keys rows),
  rows
      ++ record {
        id = next_key (app_run_keys rows);
        target_id = target_id;
        process_start_time = none;
        first_seen_at = seen_at;
        last_seen_at = seen_at;
        target_type = target_type;
      }
        ∷ [],
)

abbrev pub app_run_step : List AppRunRow → ℕ → String → Option Time → Time → ℕ × List AppRunRow
app_run_step rows target_id type none seen_at = insert_anonymous_app_run rows target_id type seen_at
app_run_step rows target_id type (some start) seen_at =
    upsert_app_run rows target_id type start seen_at

-- FOREIGN KEY (app_run_id) REFERENCES app_runs(id)
unfoldable pub run_exists : Option ℕ → List AppRunRow → Bool
run_exists none runs = true
run_exists (some id) runs = anyb (λ (r : AppRunRow). r.id == id) runs

abbrev pub event_rows : ℕ → List CollectorEvent → List EventRow
event_rows poll_id events =
    map
      (λ e. record {
        poll_id = poll_id;
        severity = e.severity;
        event_type = e.type;
        metric_key = nullable_string e.metric_key;
        message = e.message;
      })
      events

module _ {F : Type 0} where
  unfoldable pub ensure_app_run : Db F → String → Option Time → Time → Result StoreError (ℕ × Db F)
  ensure_app_run db target_name process_start_time seen_at = do
    refuse (is_blank target_name) target_name_required
    target ← registered_target db target_name
    let run = app_run_step db.app_runs target.0 target.1 process_start_time seen_at
    ok (run.0, record db { app_runs = run.1 })

  unfoldable pub touch_app_run : Db F → ℕ → Time → Result StoreError (Db F)
  touch_app_run db id seen_at =
      if anyb (λ (r : AppRunRow). r.id == id) db.app_runs
      then ok (record db {
        app_runs =
            map (λ (r : AppRunRow). if r.id == id then record r { last_seen_at = seen_at } else r)
              db.app_runs;
      })
      else err (app_run_not_found id)

  abbrev pub sample_rows : ℕ → List (MetricSample F) → List (SampleRow F)
  sample_rows poll_id samples =
      map
        (λ s. record {
          poll_id = poll_id;
          metric_key = s.key;
          metric_kind = s.kind;
          value = s.value;
          unit = nullable_string s.unit;
        })
        samples

-- CHECK (event_type <> ''), CHECK (message <> '')
abbrev pub is_event_storable : CollectorEvent → Bool
is_event_storable e = not (is_empty e.type) && not (is_empty e.message)

module _ {F : Type 0} ⦃fl : Float64 F⦄ where
  -- CHECK (metric_key <> ''), and value REAL NOT NULL: SQLite stores a NaN as NULL.
  abbrev pub is_sample_storable : MetricSample F → Bool
  is_sample_storable s = not (is_empty s.key) && not (fl.is_nan s.value)

  abbrev pub poll_row : ℕ → ℕ → Option ℕ → CollectionResult F → PollRow
  poll_row id target_id app_run_id result =
      let (status, error_summary) = poll_status result.events in
      record {
        id = id;
        target_id = target_id;
        app_run_id = app_run_id;
        started_at = result.poll_started_at;
        finished_at = result.poll_finished_at;
        status = status;
        health_status = nullable_string result.health_status;
        db_health_status = nullable_string result.db_health_status;
        error_summary = nullable_string error_summary;
        metrics_source = nullable_string result.metrics_source;
      }

  -- A null result is refused by the caller's first test; here it is a value.
  unfoldable pub save_collection_result_with_app_run :
      Db F → CollectionResult F → Option ℕ → Result StoreError (ℕ × Db F)
  save_collection_result_with_app_run db result app_run_id = do
    refuse (is_empty result.target_name) result_target_required
    target ← registered_target db result.target_name
    refuse (not (run_exists app_run_id db.app_runs)) constraint_failed
    let id = next_key (poll_keys db.polls)
    refuse (not (allb is_sample_storable result.samples)) constraint_failed
    refuse (not (allb is_event_storable result.events)) constraint_failed
    ok (
      id,
      record db {
        polls = db.polls ++ poll_row id target.0 app_run_id result ∷ [];
        metric_samples = db.metric_samples ++ sample_rows id result.samples;
        collector_events = db.collector_events ++ event_rows id result.events;
      },
    )

  -- `SaveCollectionResult`: the run is ensured in a transaction of its own, which stays where the
  -- save then fails.
  unfoldable pub save_collection_result :
      Db F → Option (CollectionResult F) → Db F × Result StoreError ℕ
  save_collection_result db none = (db, err result_required)
  save_collection_result db (some result) =
      let save : Db F → Option ℕ → Db F × Result StoreError ℕ = λ d run.
        elim (save_collection_result_with_app_run d result run) [
          | ok (id, d') ↦ (d', ok id)
          | err e ↦ (d, err e)
        ] in
      elim result.process_start_time [
        | none ↦ save db none
        | some start ↦
            elim (ensure_app_run db result.target_name (some start) result.poll_started_at) [
              | ok (run, d) ↦ save d (some run)
              | err e ↦ (db, err e)
            ]
      ]
