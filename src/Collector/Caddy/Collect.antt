-- ===== src/Collector/Caddy/Collect.antt =====
-- internal/collector/caddy.go: Collect. The answer of the endpoint and the clock are inputs; the
-- collector's mutex makes its calls a sequence.
use statlite.Result.{Result, ok, err}
use statlite.Float.{Float64}
use statlite.Time.{Time}
use statlite.Collector.Model.{CollectionResult, counter, error, add_sample, add_event}
use statlite.Bytes.{Bytes, bytes_eq, is_nil}
use statlite.Prometheus.{Limits, Format}
use statlite.Prometheus.Samples.{FloatText}
use statlite.Prometheus.Exposition.{Body, Parsed, ParseError, parse}
use statlite.Collector.Caddy.{
  CaddyTuple, CaddyPopulation, CaddyTotals, CaddyError, find_tuple, accept, totals,
}
use statlite.Prelude.{
  String, Bool, true, false, not, ◌&&◌, ◌||◌, Option, none, some, List, [], ◌∷◌, if◌then◌else◌,
}

-- What the collector remembers; `previous` is nil before the first success and after a failure.
pub record CaddyCollector (F : Type 0) : Type 0 where
  pub target_name : String
  pub endpoint : Bytes
  pub host : Bytes
  pub has_client : Bool
  pub previous : Option (List (Bytes × CaddyTuple F))
  pub server : Bytes

-- What a scrape comes to before its body is parsed: a failure of its own, or a body in a format.
pub data Response : Type 0 where
  unreachable : String → Response
  answered : Body → Format → Response

pub data CollectError : Type 0 where
  not_configured : CollectError
  scrape_failed : String → CollectError
  parse_failed : ParseError CaddyError → CollectError
  not_observed : CollectError
  population_invalid : CaddyError → CollectError

abbrev pub event_type : CollectError → String
event_type not_configured = "collector_not_configured"
event_type (scrape_failed _) = "metrics_fetch_failed"
event_type (parse_failed _) = "metrics_fetch_failed"
event_type not_observed = "caddy_http_not_observed"
event_type (population_invalid _) = "caddy_population_invalid"

module _ {F : Type 0} ⦃fl : Float64 F⦄ where
  abbrev pub empty_result : String → Time → Time → CollectionResult F
  empty_result name started finished = record {
    counter_continuity_break = false;
    target_name = name;
    metrics_source = "caddy";
    poll_started_at = started;
    poll_finished_at = finished;
    health_status = "";
    db_health_status = "";
    process_start_time = none;
    samples = [];
    events = [];
  }

  abbrev pub parsed_population :
      Parsed (CaddyPopulation F) CaddyError → Result CollectError (CaddyPopulation F)
  parsed_population p = elim p.error [ none ↦ ok p.state | some e ↦ err (parse_failed e) ]

  -- A tuple that is gone, or whose count or sum went down.
  abbrev pub has_dropped : CaddyTuple F → Option (CaddyTuple F) → Bool
  has_dropped old none = true
  has_dropped old (some current) = fl.flt current.count old.count || fl.flt current.sum old.sum

  unfoldable pub any_dropped : List (Bytes × CaddyTuple F) → List (Bytes × CaddyTuple F) → Bool
  any_dropped [] tuples = false
  any_dropped ((key, old) ∷ previous) tuples =
      has_dropped old (find_tuple key tuples) || any_dropped previous tuples

  abbrev pub is_break : CaddyCollector F → CaddyPopulation F → Bool
  is_break c p = elim c.previous [
    | none ↦ true
    | some previous ↦ not (bytes_eq c.server p.server) || any_dropped previous p.tuples
  ]

  unfoldable pub add_totals : CollectionResult F → CaddyTotals F → CollectionResult F
  add_totals r t =
      let r1 = add_sample r "http_requests_total" counter t.requests "requests" in
      let r2 = add_sample r1 "http_404_total" counter t.not_found "requests" in
      let r3 = add_sample r2 "http_4xx_total" counter t.client_errors "requests" in
      let r4 = add_sample r3 "http_5xx_total" counter t.server_errors "requests" in
      add_sample r4 "http_request_time_total_seconds" counter t.duration "seconds"

  -- `fail`: the memory is cleared, and the error's text is an event.
  abbrev pub failed :
      (CollectError → String)
      → CaddyCollector F
      → CollectionResult F
      → CollectError
      → CaddyCollector F × CollectionResult F × Option CollectError
  failed text c r e = (
    record c { previous = none; server = [] },
    add_event r error (event_type e) "" (text e),
    some e,
  )

  abbrev pub is_configured : CaddyCollector F → Bool
  is_configured c = c.has_client && not (is_nil c.endpoint) && not (is_nil c.host)

  abbrev pub no_tuples : List (Bytes × CaddyTuple F) → Bool
  no_tuples [] = true
  no_tuples (_ ∷ _) = false

  -- The end of a scrape that found tuples.
  abbrev pub with_totals :
      (CollectError → String)
      → CaddyCollector F
      → CollectionResult F
      → CaddyPopulation F
      → Result CaddyError (CaddyTotals F)
      → CaddyCollector F × CollectionResult F × Option CollectError
  with_totals text c r p (err e) = failed text c r (population_invalid e)
  with_totals text c r p (ok t) = (
    record c { previous = some p.tuples; server = p.server },
    add_totals (record r { counter_continuity_break = is_break c p }) t,
    none,
  )

  abbrev pub with_population :
      (CollectError → String)
      → CaddyCollector F
      → CollectionResult F
      → Result CollectError (CaddyPopulation F)
      → CaddyCollector F × CollectionResult F × Option CollectError
  with_population text c r (err e) = failed text c r e
  with_population text c r (ok p) =
      if no_tuples p.tuples then failed text c r not_observed else with_totals text c r p (totals p)

module _ {F : Type 0} ⦃fl : Float64 F⦄ ⦃ft : FloatText F⦄ where
  -- The population of an answer.
  unfoldable pub scrape :
      (Bytes → Bytes) → Limits → Bytes → Response → Result CollectError (CaddyPopulation F)
  scrape quote limits host (unreachable message) = err (scrape_failed message)
  scrape quote limits host (answered body format) =
      parsed_population
        (parse (accept quote) (record { host = host; server = []; tuples = [] }) body format limits)

  unfoldable pub collect :
      (Bytes → Bytes)
      → (CollectError → String)
      → Limits
      → Time
      → Time
      → CaddyCollector F
      → Response
      → CaddyCollector F × CollectionResult F × Option CollectError
  collect quote text limits started finished c response =
      let r = empty_result c.target_name started finished in
      if not (is_configured c)
      then failed text c r not_configured
      else with_population text c r (scrape quote limits c.host response)
