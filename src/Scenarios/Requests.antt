-- ===== src/Scenarios/Requests.antt =====
-- The theorems on requests and on a monitor's start, on the data of the other scenarios
-- (internal/server, internal/monitor).
use statlite.Result.{ok}
use statlite.Float.{nat_float}
use statlite.Time.{minute, hour, before}
use statlite.Storage.Types.{SeriesPoint}
use statlite.Storage.Query.{events, query_events, polls_of, newest_first}
use statlite.Monitor.Manager.{exact_target}
use statlite.Server.Request.{
  Query, get_value, check_query, select_public_target, events_window, events_limit,
  parse_public_events_options, clamp_to_retention, clear_series_counter_fields, clear_latest,
  clear_cutoff_counter_baseline,
}
use statlite.Server.Request.Cutoff.{IsEarliest, clear_cutoff_counter_baseline-IsEarliest}
use statlite.Server.Status.{has_url, public_event}
use statlite.Server.Status.View.{status_of, public_status-collection_status}
use statlite.Server.Events.{PublicEventsResponse, events_between, handle_public_events}
use statlite.Server.Events.Window.{Shown, handle_public_events-Shown}
use statlite.Scenarios.Points.{series_of, all_points}
use statlite.Scenarios.Rows.{stored}
use statlite.Scenarios.Monitors.{monitor, manager, monitor-IsConsistent}
use statlite.Prelude.{
  ℕ, ◌+◌, ◌*◌, ◌≤◌, String, ◌≡◌, refl, ◌⊎◌, true, false, none, some, List, [], ◌∷◌, ◌++◌, is_some,
  All, is_blank, lookup,
}

abbrev query : Query
query = ("target", "app" ∷ []) ∷ ("range", "24h" ∷ []) ∷ ("limit", "5" ∷ []) ∷ []

abbrev answer : PublicEventsResponse
answer = record {
  target = "app";
  events =
      record {
        timestamp = 72 * hour;
        severity = "warning";
        type = "slow";
        message = "slow";
        metric_key = "";
      }
      ∷ [];
}

answered :
    handle_public_events stored (λ _. monitor) manager 2 (some (71 * hour)) (73 * hour) query
    ≡ ok answer
unfolding handle_public_events events_between events query_events polls_of newest_first get_value
    check_query select_public_target exact_target events_window events_limit
    parse_public_events_options clamp_to_retention public_event is_blank lookup
answered = refl

handle_public_events-Shown_example : All (Shown (71 * hour) (73 * hour)) answer.events × (1 ≤ 500)
handle_public_events-Shown_example =
    handle_public_events-Shown stored (λ _. monitor) manager 2 (71 * hour) (73 * hour) query answer
      answered

clear_cutoff_counter_baseline-IsEarliest_example :
    let series = series_of all_points in
    let cutoff = 60 * minute + 1 in
    let latest = clear_latest 1 cutoff series.latest_point in
    (All (λ (q : SeriesPoint ℕ). before q.timestamp cutoff ≡ true) all_points
      × (clear_cutoff_counter_baseline (some series) cutoff
          ≡ some (record series { latest_point = latest })))
    ⊎ ((before_it : List (SeriesPoint ℕ)) × (p : SeriesPoint ℕ) × (after_it : List (SeriesPoint ℕ))
        × (all_points ≡ before_it ++ p ∷ after_it)
        × (clear_cutoff_counter_baseline (some series) cutoff
            ≡ some (record series {
              latest_point = latest;
              points = before_it ++ clear_series_counter_fields p ∷ after_it;
            }))
        × (cutoff ≤ p.timestamp)
        × IsEarliest cutoff p.timestamp all_points)
clear_cutoff_counter_baseline-IsEarliest_example =
    clear_cutoff_counter_baseline-IsEarliest (series_of all_points) (60 * minute + 1)

public_status-collection_status_example :
    let r = status_of "app" "spring" monitor in
    (((r.collection_status ≡ "not_polled") × (r.last_poll_at ≡ none))
      ⊎ ((r.collection_status ≡ "ok")
          × (r.last_poll_at ≡ monitor.status.last_successful_poll_at)
          × (is_some r.last_poll_at ≡ true))
      ⊎ ((r.collection_status ≡ "error")
          × (r.last_poll_at ≡ r.last_failed_poll_at)
          × (is_some r.last_poll_at ≡ true)))
    × ((text : String) → r.last_collection_error ≡ some text → has_url text ≡ false)
public_status-collection_status_example =
    public_status-collection_status monitor "app" "spring" monitor-IsConsistent
