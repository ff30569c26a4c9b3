-- ===== src/Collector/Quarkus/Scrapes.antt =====
-- What a scrape of a Quarkus target keeps, and when its health is probed
-- (internal/collector/quarkus.go).
use statlite.Result.{Result, ok, err}
use statlite.Float.{Float64}
use statlite.Time.{Time}
use statlite.Collector.Model.{CollectionResult, add_event}
use statlite.Bytes.{ascii, bytes_eq, is_nil}
use statlite.Prometheus.{Limits, Format, Sample}
use statlite.Prometheus.Samples.{FloatText}
use statlite.Prometheus.Exposition.{Body}
use statlite.Prometheus.Exposition.Invariant.{IsKeptBy, parse-keeps}
use statlite.Collector.Caddy.Collect.{Response}
use statlite.Collector.Dimensions.{DimensionHash, has_key}
use statlite.Collector.Micrometer.{HttpValues, no_http_values, duration_matches_counts}
use statlite.Collector.Micrometer.Population.{
  IsBounded, ArePopulations-nil, accept_count-IsBounded, accept_duration-IsBounded,
  duration_matches_counts-has_key,
}
use statlite.Collector.Micrometer.Runtime.{UnixTime, RuntimeValues, no_runtime_values}
use statlite.Collector.Quarkus.{
  QuarkusCollector, QuarkusError, Evaluation, is_absent, differs, should_probe_health,
  validate_http_labels,
}
use statlite.Collector.Quarkus.Evaluate.{accept_quarkus, scrape_values, evaluate}
use statlite.Collector.Quarkus.Health.{
  HealthAnswer, with_evaluation, quarkus_result, error_of, with_error, probe_health,
  collect_evaluated, collect_quarkus,
}
use statlite.Prelude.{
  ◌+◌, ◌≤◌, String, ◌≡◌, refl, ap, ◌∙◌, inl, inr, Bool, true, false, not, ◌||◌, Option, none, arith,
  Bool-cases, is_some, length,
}

module _ {F : Type 0} ⦃fl : Float64 F⦄ ⦃ut : UnixTime F⦄ where
  HasPopulations : HttpValues F × RuntimeValues F → Type 0
  HasPopulations s = IsBounded s.0

  accept_quarkus-keeps :
      (s : HttpValues F × RuntimeValues F) (sample : Sample F)
      → HasPopulations s
      → IsKeptBy HasPopulations (accept_quarkus s sample)
  unfolding accept_quarkus HasPopulations
  accept_quarkus-keeps (http, runtime) sample is =
      elim (Bool-cases (bytes_eq sample.name (ascii "http_server_requests_seconds_count"))) [
        | inl e ↦ simp e (accept_count-IsBounded validate_http_labels http sample is)
        | inr e ↦
            elim (Bool-cases (bytes_eq sample.name (ascii "http_server_requests_seconds_sum"))) [
              | inl f ↦ simp (e, f) (accept_duration-IsBounded validate_http_labels http sample is)
              | inr f ↦ simp (e, f) is
            ]
      ]

module _ (F : Type 0) ⦃fl : Float64 F⦄ ⦃ft : FloatText F⦄ ⦃ut : UnixTime F⦄ where
  scrape_values-IsBounded :
      (limits : Limits) (body : Body) (format : Format)
      → IsBounded (scrape_values {F = F} limits body format).state.0
  unfolding scrape_values HasPopulations
  scrape_values-IsBounded limits body format =
      parse-keeps accept_quarkus HasPopulations accept_quarkus-keeps
        (no_http_values, no_runtime_values) body format limits ArePopulations-nil

  -- Whatever an endpoint sends, a scrape whose durations match its counts, which is when the duration
  -- is reported, has the fingerprint of a series among its counts exactly if it has it among its
  -- durations; and it holds at most 20,000 fingerprints.
  pub scrape_values-has_key :
      (limits : Limits) (body : Body) (format : Format) (key : DimensionHash)
      → duration_matches_counts (scrape_values {F = F} limits body format).state.0 ≡ true
      → (has_key key (scrape_values {F = F} limits body format).state.0.count_dimensions
          ≡ has_key key (scrape_values {F = F} limits body format).state.0.duration_dimensions)
        × (length (scrape_values {F = F} limits body format).state.0.count_dimensions
              + length (scrape_values {F = F} limits body format).state.0.duration_dimensions
            ≤ 20_000)
  scrape_values-has_key limits body format key h =
      let v = (scrape_values {F = F} limits body format).state.0 in
      let is = scrape_values-IsBounded limits body format in
      let counted = is.states_counted in
      let within = is.states_within in (duration_matches_counts-has_key v key is h, omega arith)

should_probe_health_iff :
    (c : QuarkusCollector) (start : Option Time)
    → (should_probe_health c start).1
      ≡ (not (is_absent c.health_capability) || differs start c.health_process_start_time)
unfolding should_probe_health
should_probe_health_iff c start = ground arith

module _ {F : Type 0} where
  -- The process's start, where the evaluation knows it.
  abbrev pub start_of : Result QuarkusError (Evaluation F) → Option Time
  start_of (ok v) = v.process_start_time
  start_of (err e) = none

  with_evaluation-start_of :
      (text : QuarkusError → String) (name : String) (started finished : Time)
      (e : Result QuarkusError (Evaluation F))
      → (with_evaluation text (quarkus_result name started finished) e).process_start_time
        ≡ start_of e
  unfolding add_event
  with_evaluation-start_of text name started finished (ok v) = refl
  with_evaluation-start_of text name started finished (err e) = refl

  -- Without a probe, the answer is not read.
  probe_health-unread :
      (c : QuarkusCollector) (r : CollectionResult F) (metrics_ok : Bool) (a b : HealthAnswer)
      → is_absent c.health_capability ≡ true
      → differs r.process_start_time c.health_process_start_time ≡ false
      → (probe_health c r metrics_ok a ≡ probe_health c r metrics_ok b)
        × (is_absent (probe_health c r metrics_ok a).0.health_capability ≡ true)
  unfolding probe_health should_probe_health
  probe_health-unread c r metrics_ok a b gone same = elim (Bool-cases (not c.has_health_client)) [
    | inl e ↦ simp e (refl, gone)
    | inr e ↦ simp (e, same, gone) (refl, refl)
  ]

module _ (F : Type 0) ⦃fl : Float64 F⦄ ⦃ft : FloatText F⦄ ⦃ut : UnixTime F⦄ where
  -- Once the health endpoint counts as absent, and unless the scrape shows a start of the process that
  -- differs from the remembered one, a collection does not depend on what the health endpoint would
  -- answer, and the endpoint still counts as absent behind it.
  pub collect_quarkus-is_absent :
      (text : QuarkusError → String) (limits : Limits) (started finished : Time)
      (c : QuarkusCollector) (response : Response) (a b : HealthAnswer)
      → is_absent c.health_capability ≡ true
      → differs (start_of (evaluate {F = F} limits response)) c.health_process_start_time ≡ false
      → (collect_quarkus {F = F} text limits started finished c response a
          ≡ collect_quarkus {F = F} text limits started finished c response b)
        × (is_absent
              (collect_quarkus {F = F} text limits started finished c response
                a).0.health_capability
            ≡ true)
  unfolding collect_quarkus collect_evaluated
  collect_quarkus-is_absent text limits started finished c response a b gone same =
      let e = evaluate {F = F} limits response in
      let r = quarkus_result c.target_name started finished in
      let same' =
        ap (λ t. differs t c.health_process_start_time)
          (with_evaluation-start_of text c.target_name started finished e)
        ∙ same in
      let (unread, still) =
        probe_health-unread c (with_evaluation text r e) (not (is_some (error_of e))) a b gone
          same' in
      elim (Bool-cases (not c.has_client || is_nil c.endpoint)) [
        | inl f ↦ simp f (refl, gone)
        | inr f ↦ simp f (ap (λ p. with_error (error_of e) p) unread, still)
      ]
