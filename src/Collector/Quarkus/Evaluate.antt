-- ===== src/Collector/Quarkus/Evaluate.antt =====
-- internal/collector/quarkus.go: evaluate, over the answer of the metrics endpoint.
use statlite.Result.{Result, ok, err}
use statlite.Float.{Float64}
use statlite.Collector.Model.{CollectionResult}
use statlite.Bytes.{ascii, bytes_eq}
use statlite.Prometheus.{Limits, Format, Sample}
use statlite.Prometheus.Samples.{FloatText}
use statlite.Prometheus.Exposition.{Body, Parsed, parse}
use statlite.Collector.Caddy.Collect.{Response, unreachable, answered}
use statlite.Collector.Micrometer.{
  HttpValues, no_http_values, accept_count, accept_duration, add_http_values,
}
use statlite.Collector.Micrometer.Runtime.{
  UnixTime, RuntimeValues, no_runtime_values, accept_runtime, add_runtime_values,
}
use statlite.Collector.Quarkus.{
  validate_http_labels, Evaluation, QuarkusError, scrape_failed, parse_failed, incompatible,
}
use statlite.Collector.Quarkus.Warnings.{add_http_warnings, add_partial_warning}
use statlite.Prelude.{Bool, false, not, ◌&&◌, ◌||◌, none, some, [], if◌then◌else◌}

-- quarkusRuntimeCompatible
abbrev pub is_compatible : {F : Type 0} → RuntimeValues F → Bool
is_compatible v =
    (v.saw_cpu && not v.invalid_cpu)
    || (v.saw_heap && not v.invalid_heap)
    || (v.saw_process_start && not v.invalid_process_start)

module _ {F : Type 0} ⦃fl : Float64 F⦄ ⦃ut : UnixTime F⦄ where
  -- The handler of the scrape; it never fails.
  unfoldable pub accept_quarkus :
      HttpValues F × RuntimeValues F → Sample F → Result (Unit {0}) (HttpValues F × RuntimeValues F)
  unfolding accept_count accept_duration accept_runtime
  accept_quarkus (http, runtime) sample =
      if bytes_eq sample.name (ascii "http_server_requests_seconds_count")
      then ok (accept_count validate_http_labels http sample, runtime)
      else if bytes_eq sample.name (ascii "http_server_requests_seconds_sum")
      then ok (accept_duration validate_http_labels http sample, runtime)
      else ok (http, accept_runtime runtime sample)

  -- CollectionResult{}
  abbrev pub no_result : CollectionResult F
  no_result = record {
    counter_continuity_break = false;
    target_name = "";
    metrics_source = "";
    poll_started_at = 0;
    poll_finished_at = 0;
    health_status = "";
    db_health_status = "";
    process_start_time = none;
    samples = [];
    events = [];
  }

  unfoldable pub quarkus_normalized : HttpValues F × RuntimeValues F → CollectionResult F
  unfolding add_http_values add_http_warnings add_runtime_values add_partial_warning
  quarkus_normalized (http, runtime) =
      add_partial_warning runtime
        (add_runtime_values runtime (add_http_warnings http (add_http_values http no_result)))

  unfoldable pub evaluation_of :
      Parsed (HttpValues F × RuntimeValues F) (Unit {0}) → Result QuarkusError (Evaluation F)
  unfolding quarkus_normalized
  evaluation_of p = elim p.error [
    | some e ↦ err (parse_failed e)
    | none ↦
        if not (is_compatible p.state.1)
        then err incompatible
        else ok (record {
          samples = (quarkus_normalized p.state).samples;
          events = (quarkus_normalized p.state).events;
          process_start_time = (quarkus_normalized p.state).process_start_time;
        })
  ]

module _ {F : Type 0} ⦃fl : Float64 F⦄ ⦃ft : FloatText F⦄ ⦃ut : UnixTime F⦄ where
  -- The values of a scrape, also of one that failed.
  unfoldable pub scrape_values :
      Limits → Body → Format → Parsed (HttpValues F × RuntimeValues F) (Unit {0})
  scrape_values limits body format =
      parse accept_quarkus (no_http_values, no_runtime_values) body format limits

  unfoldable pub evaluate : Limits → Response → Result QuarkusError (Evaluation F)
  unfolding scrape_values evaluation_of
  evaluate limits (unreachable message) = err (scrape_failed message)
  evaluate limits (answered body format) = evaluation_of (scrape_values limits body format)
