-- ===== src/Storage/Query.antt =====
-- internal/storage/query.go: the latest polls of a target, its trailing failures and its events.
pub mod Latest
pub mod Stored
pub mod Sorted
use statlite.Result.{Result, ok, err, ◌>>=◌, ◌>>◌, refuse, or_err}
use statlite.Float.{Float64}
use statlite.Time.{Time, before}
use statlite.Collector.Model.{
  CollectionResult, MetricSample, CollectorEvent, EventSeverity, warning, error,
}
use statlite.Storage.Types.{Snapshot, Event}
use statlite.Storage.Db.{
  Db, TargetRow, AppRunRow, PollRow, SampleRow, EventRow, StoreError, target_name_required,
  start_not_before_end, event_type_required, no_rows, string_of, target_named,
}
use statlite.Prelude.{
  ℕ, zero, ◌+◌, String, Bool, false, not, ◌&&◌, ◌||◌, Option, none, some, List, [], ◌∷◌, ◌++◌, map,
  ltb, leb, ◌==◌, if◌then◌else◌, take, head?, filterb, find?, str_eq, is_empty, is_blank,
}

-- ORDER BY started_at DESC, id DESC
abbrev pub is_newer : PollRow → PollRow → Bool
is_newer a b = ltb b.started_at a.started_at || ((a.started_at == b.started_at) && ltb b.id a.id)

unfoldable pub insert_newest : PollRow → List PollRow → List PollRow
insert_newest p [] = p ∷ []
insert_newest p (q ∷ qs) = if is_newer p q then p ∷ q ∷ qs else q ∷ insert_newest p qs

unfoldable pub newest_first : List PollRow → List PollRow
unfolding insert_newest
newest_first [] = []
newest_first (p ∷ ps) = insert_newest p (newest_first ps)

-- The status filter is left out for an empty text.
abbrev pub has_status : String → PollRow → Bool
has_status status p = is_empty status || str_eq p.status status

abbrev pub trailing_failed_poll_limit : ℕ
trailing_failed_poll_limit = 100

-- The loop over the rows, which stops at the first that is "ok".
unfoldable pub count_failed : List PollRow → ℕ
count_failed [] = 0
count_failed (p ∷ ps) = let rest = count_failed ps in if str_eq p.status "ok" then 0 else rest + 1

abbrev pub severity_text : EventSeverity → String
severity_text warning = "warning"
severity_text error = "error"

-- The events of a poll, newest first: ORDER BY e.id DESC within a poll.
abbrev pub reverse_onto : List EventRow → List EventRow → List EventRow
reverse_onto [] acc = acc
reverse_onto (e ∷ es) acc = reverse_onto es (e ∷ acc)

abbrev pub event_of : PollRow → EventRow → Event
event_of p e = record {
  poll_id = p.id;
  timestamp = p.started_at;
  severity = severity_text e.severity;
  type = e.event_type;
  metric_key = string_of e.metric_key;
  message = e.message;
}

module _ {F : Type 0} where
  -- FROM polls p JOIN targets t ON t.id = p.target_id WHERE t.name = ?
  unfoldable pub polls_of : Db F → String → List PollRow
  polls_of db name = elim (target_named name db.targets) [
    | none ↦ []
    | some t ↦ filterb (λ (p : PollRow). p.target_id == t.id) db.polls
  ]

  abbrev pub load_samples : Db F → ℕ → List (MetricSample F)
  load_samples db poll_id =
      map
        (λ (r : SampleRow F). record {
          key = r.metric_key;
          kind = r.metric_kind;
          value = r.value;
          unit = string_of r.unit;
        })
        (filterb (λ (r : SampleRow F). r.poll_id == poll_id) db.metric_samples)

  abbrev pub load_events : Db F → ℕ → List CollectorEvent
  load_events db poll_id =
      map
        (λ (r : EventRow). record {
          severity = r.severity;
          type = r.event_type;
          message = r.message;
          metric_key = string_of r.metric_key;
        })
        (filterb (λ (r : EventRow). r.poll_id == poll_id) db.collector_events)

  -- The start time of a poll's run. A run that is not there is an error.
  unfoldable pub process_start_time : Db F → Option ℕ → Result StoreError (Option Time)
  process_start_time db none = ok none
  process_start_time db (some id) = do
    r ← or_err (find? (λ (r : AppRunRow). r.id == id) db.app_runs) no_rows
    ok r.process_start_time

  unfoldable pub snapshot_of : Db F → String → PollRow → Result StoreError (Snapshot F)
  snapshot_of db target_name p = do
    start ← process_start_time db p.app_run_id
    ok (record {
      poll_id = p.id;
      target_id = p.target_id;
      app_run_id = p.app_run_id;
      status = p.status;
      error_summary = string_of p.error_summary;
      result = record {
        counter_continuity_break = false;
        target_name = target_name;
        metrics_source = string_of p.metrics_source;
        poll_started_at = p.started_at;
        poll_finished_at = p.finished_at;
        health_status = string_of p.health_status;
        db_health_status = string_of p.db_health_status;
        process_start_time = start;
        samples = load_samples db p.id;
        events = load_events db p.id;
      };
    })

  unfoldable pub latest_snapshot_with : Db F → String → String → Result StoreError (Snapshot F)
  latest_snapshot_with db target_name status = do
    refuse (is_blank target_name) target_name_required
    p ←
        or_err (head? (newest_first (filterb (has_status status) (polls_of db target_name))))
          no_rows
    snapshot_of db target_name p

  unfoldable pub latest_snapshot : Db F → String → Result StoreError (Snapshot F)
  unfolding latest_snapshot_with
  latest_snapshot db target_name = latest_snapshot_with db target_name ""

  unfoldable pub latest_successful_snapshot : Db F → String → Result StoreError (Snapshot F)
  unfolding latest_snapshot_with
  latest_successful_snapshot db target_name = latest_snapshot_with db target_name "ok"

  unfoldable pub latest_failed_poll_at : Db F → String → Result StoreError Time
  latest_failed_poll_at db target_name = do
    refuse (is_blank target_name) target_name_required
    p ←
        or_err (head? (newest_first (filterb (has_status "error") (polls_of db target_name))))
          no_rows
    ok p.finished_at

  unfoldable pub trailing_failed_polls : Db F → String → Result StoreError ℕ
  trailing_failed_polls db target_name = do
    refuse (is_blank target_name) target_name_required
    ok (count_failed (take trailing_failed_poll_limit (newest_first (polls_of db target_name))))

  abbrev pub poll_events : Db F → String → PollRow → List Event
  poll_events db event_type p = map (event_of p) (
      reverse_onto
        (filterb
          (λ (e : EventRow).
            (e.poll_id == p.id) && (is_empty event_type || str_eq e.event_type event_type))
          db.collector_events)
        [])

  abbrev pub all_events : Db F → String → List PollRow → List Event
  all_events db event_type [] = []
  all_events db event_type (p ∷ ps) = poll_events db event_type p ++ all_events db event_type ps

  -- The rows of `eventsQuery`; a limit of zero is no limit.
  unfoldable pub query_events : Db F → String → Time → Time → String → ℕ → List Event
  query_events db target_name start end event_type limit =
      let window = newest_first (
        filterb (λ (p : PollRow). leb start p.started_at && leb p.started_at end)
          (polls_of db target_name)) in
      let found = all_events db event_type window in if ltb 0 limit then take limit found else found

  unfoldable pub events : Db F → String → Time → Time → ℕ → Result StoreError (List Event)
  events db target_name start end limit = do
    refuse (is_blank target_name) target_name_required
    refuse (not (before start end)) start_not_before_end
    ok (query_events db target_name start end "" limit)

  -- The newest event of the type in the window, or none.
  unfoldable pub latest_event_by_type :
      Db F → String → String → Time → Time → Result StoreError (Option Event)
  latest_event_by_type db target_name event_type start end = do
    refuse (is_blank target_name) target_name_required
    refuse (is_blank event_type) event_type_required
    refuse (not (before start end)) start_not_before_end
    ok (head? (query_events db target_name start end event_type 1))
