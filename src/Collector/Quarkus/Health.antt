-- ===== src/Collector/Quarkus/Health.antt =====
-- internal/collector/quarkus.go: Collect, with the probe of the health endpoint behind the scrape.
use statlite.Result.{Result, ok, err}
use statlite.Float.{Float64}
use statlite.Time.{Time}
use statlite.Collector.Model.{CollectionResult, warning, error, add_event}
use statlite.Bytes.{is_nil}
use statlite.Prometheus.{Limits}
use statlite.Prometheus.Samples.{FloatText}
use statlite.Collector.Caddy.Collect.{Response}
use statlite.Collector.Micrometer.Runtime.{UnixTime}
use statlite.Collector.Quarkus.{
  QuarkusCollector, Evaluation, QuarkusError, not_configured, scrape_failed, parse_failed,
  incompatible, is_unknown, should_probe_health, mark_health_absent, mark_health_available,
}
use statlite.Collector.Quarkus.Evaluate.{evaluate}
use statlite.Prelude.{
  String, Bool, false, not, ◌&&◌, ◌||◌, Option, none, some, [], ◌++◌, if◌then◌else◌, is_some,
}

-- What QuarkusHealthClient.Fetch returns: the status and DBStatus(), or an error and its text, which
-- may be ErrQuarkusHealthNotFound.
pub data HealthAnswer : Type 0 where
  healthy : String → String → HealthAnswer
  not_found : String → HealthAnswer
  health_failed : String → HealthAnswer

abbrev pub event_type_of : QuarkusError → String
event_type_of not_configured = "collector_not_configured"
event_type_of (scrape_failed _) = "metrics_fetch_failed"
event_type_of (parse_failed _) = "metrics_fetch_failed"
event_type_of incompatible = "metrics_source_incompatible"

module _ {F : Type 0} where
  abbrev pub with_health :
      QuarkusCollector
      → CollectionResult F
      → Bool
      → HealthAnswer
      → QuarkusCollector × CollectionResult F
  with_health c r metrics_ok (healthy status db_status) = (
    mark_health_available c r.process_start_time,
    record r { health_status = status; db_health_status = db_status },
  )
  with_health c r metrics_ok (not_found text) =
      if c.not_found_optional && is_unknown c.health_capability
      then (if metrics_ok then mark_health_absent c r.process_start_time else c, r)
      else (c, add_event r warning "health_fetch_failed" "" text)
  with_health c r metrics_ok (health_failed text) =
      (c, add_event r warning "health_fetch_failed" "" text)

  -- The probe, where one is due.
  unfoldable pub probe_health :
      QuarkusCollector
      → CollectionResult F
      → Bool
      → HealthAnswer
      → QuarkusCollector × CollectionResult F
  unfolding should_probe_health
  probe_health c r metrics_ok answer =
      let (asked, probes) = should_probe_health c r.process_start_time in
      if not c.has_health_client
      then (c, r)
      else if probes
      then with_health asked r metrics_ok answer
      else (asked, r)

  abbrev pub quarkus_result : String → Time → Time → CollectionResult F
  quarkus_result name started finished = record {
    counter_continuity_break = false;
    target_name = name;
    metrics_source = "";
    poll_started_at = started;
    poll_finished_at = finished;
    health_status = "";
    db_health_status = "";
    process_start_time = none;
    samples = [];
    events = [];
  }

  -- What the evaluation leaves in the result.
  abbrev pub with_evaluation :
      (QuarkusError → String)
      → CollectionResult F
      → Result QuarkusError (Evaluation F)
      → CollectionResult F
  with_evaluation text r (err e) = add_event r error (event_type_of e) "" (text e)
  with_evaluation text r (ok v) = record r {
    samples = v.samples;
    events = r.events ++ v.events;
    process_start_time = v.process_start_time;
  }

  abbrev pub error_of : Result QuarkusError (Evaluation F) → Option QuarkusError
  error_of (ok v) = none
  error_of (err e) = some e

  abbrev pub with_error :
      Option QuarkusError
      → QuarkusCollector × CollectionResult F
      → QuarkusCollector × CollectionResult F × Option QuarkusError
  with_error e (c, r) = (c, r, e)

  -- Collect behind the evaluation.
  unfoldable pub collect_evaluated :
      (QuarkusError → String)
      → QuarkusCollector
      → CollectionResult F
      → Result QuarkusError (Evaluation F)
      → HealthAnswer
      → QuarkusCollector × CollectionResult F × Option QuarkusError
  unfolding probe_health
  collect_evaluated text c r evaluation answer = with_error (error_of evaluation) (
      probe_health c (with_evaluation text r evaluation) (not (is_some (error_of evaluation)))
        answer)

module _ {F : Type 0} ⦃fl : Float64 F⦄ ⦃ft : FloatText F⦄ ⦃ut : UnixTime F⦄ where
  unfoldable pub collect_quarkus :
      (QuarkusError → String)
      → Limits
      → Time
      → Time
      → QuarkusCollector
      → Response
      → HealthAnswer
      → QuarkusCollector × CollectionResult F × Option QuarkusError
  unfolding collect_evaluated
  collect_quarkus text limits started finished c response answer =
      let r = quarkus_result c.target_name started finished in
      if not c.has_client || is_nil c.endpoint
      then (
        c,
        add_event r error (event_type_of not_configured) "" (text not_configured),
        some not_configured,
      )
      else collect_evaluated text c r (evaluate limits response) answer
