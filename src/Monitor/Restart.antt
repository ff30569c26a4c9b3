-- ===== src/Monitor/Restart.antt =====
-- internal/monitor/monitor.go: the app run that a collected result belongs to.
pub mod Signals
pub mod Explained
use statlite.Result.{Result, ok, err, ◌>>=◌, ◌>>◌, refuse, or_err}
use statlite.Float.{Float64}
use statlite.Time.{Time, Duration}
use statlite.Collector.Model.{
  CollectionResult, MetricSample, CollectorEvent, is_error, is_counter, warning,
}
use statlite.Storage.Types.{Snapshot}
use statlite.Monitor.State.{Store, Monitor}
use statlite.Prelude.{
  ℕ, String, Bool, true, false, not, ◌&&◌, ◌||◌, Option, none, some, List, [], ◌∷◌, ltb, leb, ◌==◌,
  if◌then◌else◌, is_some, length, filterb, anyb, str_eq,
}

-- collector.CaddyMetricsSource
abbrev pub caddy_metrics_source : String
caddy_metrics_source = "caddy"

abbrev pub event_type_restart_detected : String
event_type_restart_detected = "restart_detected"

unfoldable pub has_error_event : List CollectorEvent → Bool
has_error_event events = anyb (λ e. is_error e.severity) events

-- What detectAppRun returns besides its error: the run, whether a restart was seen, and its reason.
pub record RunDecision : Type 0 where
  pub app_run_id : ℕ
  pub restart_detected : Bool
  pub reason : String

abbrev pub starts_differ : Option Time → Option Time → Bool
starts_differ (some a) (some b) = not (a == b)
starts_differ _ _ = false

module _ {F : Type 0} where
  unfoldable pub sample_value : List (MetricSample F) → String → Option F
  sample_value [] key = none
  sample_value (s ∷ samples) key =
      if str_eq s.key key then some s.value else sample_value samples key

  -- m.previous with its run, where both are there.
  abbrev pub with_run : Option (Snapshot F) → Option (Snapshot F × ℕ)
  with_run none = none
  with_run (some p) = elim p.app_run_id [ none ↦ none | some id ↦ some (p, id) ]

  unfoldable pub process_start_changed : Option (Snapshot F) → CollectionResult F → Bool
  process_start_changed none result = false
  process_start_changed (some p) result =
      starts_differ p.result.process_start_time result.process_start_time

  -- `result.ProcessStartTime = nil`, which detectAppRun does to a Caddy result.
  unfoldable pub clear_caddy_start : CollectionResult F → CollectionResult F
  clear_caddy_start result =
      if str_eq result.metrics_source caddy_metrics_source
      then record result { process_start_time = none }
      else result

abbrev pub core_counter_keys : List String
core_counter_keys = "http_requests_total" ∷ "http_request_time_total_seconds" ∷ []

module _ {F : Type 0} ⦃fl : Float64 F⦄ where
  abbrev pub is_lower : Option F → Option F → Bool
  is_lower (some previous) (some current) = fl.flt current previous
  is_lower _ _ = false

  unfoldable pub uptime_decreased : List (MetricSample F) → List (MetricSample F) → Bool
  uptime_decreased previous current =
      is_lower (sample_value previous "process_uptime") (sample_value current "process_uptime")

  unfoldable pub decreased_core_counters :
      List (MetricSample F) → List (MetricSample F) → List String
  decreased_core_counters previous current =
      filterb (λ key. is_lower (sample_value previous key) (sample_value current key))
        core_counter_keys

module _ {F S E : Type 0} ⦃fl : Float64 F⦄ (store : Store F S E) where
  abbrev pub new_run :
      S → CollectionResult F → Option Time → Bool → String → Result E (RunDecision × S)
  new_run s result start restart reason = do
    run ← store.ensure_app_run s result.target_name start result.poll_started_at
    ok (record { app_run_id = run.0; restart_detected = restart; reason = reason }, run.1)

  abbrev pub same_run : S → CollectionResult F → ℕ → Result E (RunDecision × S)
  same_run s result id = do
    s' ← store.touch_app_run s id result.poll_started_at
    ok (record { app_run_id = id; restart_detected = false; reason = "" }, s')

  -- A Caddy result, whose runs are counter boundaries.
  unfoldable pub detect_caddy_run : S → Monitor F → CollectionResult F → Result E (RunDecision × S)
  detect_caddy_run s m result =
      if not (is_some m.status.last_successful_poll_at)
        || ltb 0 m.status.consecutive_poll_failures
        || result.counter_continuity_break
      then new_run s result none false ""
      else elim (with_run m.previous) [
        | none ↦ new_run s result none false ""
        | some (p, id) ↦ same_run s result id
      ]

  -- Any other result, against the previous snapshot `p` of run `id`.
  unfoldable pub compare_with_previous :
      S → Monitor F → CollectionResult F → Snapshot F → ℕ → Result E (RunDecision × S)
  unfolding process_start_changed uptime_decreased decreased_core_counters
  compare_with_previous s m result p id =
      let core_drops = decreased_core_counters p.result.samples result.samples in
      if process_start_changed (some p) result
      then new_run s result result.process_start_time true "process.start.time changed"
      else if uptime_decreased p.result.samples result.samples
      then new_run s result result.process_start_time true "process uptime decreased"
      else if leb 2 (length core_drops)
      then new_run s result result.process_start_time true "core cumulative counters decreased"
      else if ltb 0 m.status.consecutive_poll_failures && ltb 0 (length core_drops)
      then new_run s result result.process_start_time true
          "poll failure followed by lower cumulative counter"
      else if is_some result.process_start_time && not (is_some p.result.process_start_time)
      then new_run s result result.process_start_time false ""
      else same_run s result id

  unfoldable pub detect_app_run : S → Monitor F → CollectionResult F → Result E (RunDecision × S)
  unfolding detect_caddy_run compare_with_previous
  detect_app_run s m result =
      if str_eq result.metrics_source caddy_metrics_source
      then detect_caddy_run s m result
      else elim (with_run m.previous) [
        | none ↦ new_run s result result.process_start_time false ""
        | some (p, id) ↦ compare_with_previous s m result p id
      ]
