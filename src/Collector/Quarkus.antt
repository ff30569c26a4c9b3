-- ===== src/Collector/Quarkus.antt =====
-- internal/collector/quarkus.go: one scrape of a Quarkus target, and the probes of its health, whose
-- capability the collector remembers. The answers of both endpoints are inputs.
pub mod Warnings
pub mod Evaluate
pub mod Health
pub mod Scrapes
use statlite.Float.{Float64}
use statlite.Time.{Time}
use statlite.Collector.Model.{MetricSample, CollectorEvent, CollectionResult}
use statlite.Bytes.{Bytes, ascii, is_nil}
use statlite.Prometheus.{Label, Sample}
use statlite.Prometheus.Exposition.{ParseError}
use statlite.Prometheus.Samples.{read_digits}
use statlite.Collector.Caddy.{label_value}
use statlite.Prelude.{
  ℕ, ◌+◌, String, Bool, true, false, not, ◌&&◌, ◌||◌, Option, none, some, List, [], ◌∷◌, leb, ◌==◌,
  if◌then◌else◌,
}

abbrev pub without_plus : Bytes → Bytes
without_plus [] = []
without_plus (c ∷ s) = if c == b'+' then s else c ∷ s

abbrev pub valid_status : Option ℕ → Option ℕ
valid_status none = none
valid_status (some code) = if leb 100 code && leb code 599 then some code else none

-- strconv.Atoi, and the range; a negative number is out of it.
unfoldable pub http_status : Bytes → Option ℕ
unfolding read_digits
http_status text = valid_status (read_digits 0 (without_plus text))

abbrev pub status_if_present : Option Bytes → Option Bytes → Option Bytes → Option ℕ
status_if_present (some method) (some outcome) (some status) =
    if is_nil method || is_nil outcome then none else http_status status
status_if_present _ _ _ = none

-- validateQuarkusHTTPLabels, over quarkusHTTPDimensions; of a repeated label the last one counts.
unfoldable pub validate_http_labels : List Label → Option ℕ
unfolding http_status label_value
validate_http_labels labels =
    status_if_present (label_value (ascii "method") labels) (label_value (ascii "outcome") labels)
      (label_value (ascii "status") labels)

pub data HealthCapability : Type 0 where
  unknown available absent : HealthCapability

pub record QuarkusCollector : Type 0 where
  pub target_name : String
  pub endpoint : Bytes
  pub has_client : Bool
  pub has_health_client : Bool
  pub not_found_optional : Bool
  pub health_capability : HealthCapability
  pub health_process_start_time : Option Time

-- quarkusEvaluation
pub record Evaluation (F : Type 0) : Type 0 where
  pub samples : List (MetricSample F)
  pub events : List CollectorEvent
  pub process_start_time : Option Time

pub data QuarkusError : Type 0 where
  not_configured : QuarkusError
  scrape_failed : String → QuarkusError
  parse_failed : ParseError (Unit {0}) → QuarkusError
  incompatible : QuarkusError

abbrev pub is_absent : HealthCapability → Bool
is_absent absent = true
is_absent _ = false

abbrev pub is_unknown : HealthCapability → Bool
is_unknown unknown = true
is_unknown _ = false

-- Whether both instants are known and differ.
abbrev pub differs : Option Time → Option Time → Bool
differs (some t) (some u) = not (t == u)
differs _ _ = false

abbrev pub or_remembered : Option Time → Option Time → Option Time
or_remembered none old = old
or_remembered (some t) old = some t

-- shouldProbeHealth
unfoldable pub should_probe_health : QuarkusCollector → Option Time → QuarkusCollector × Bool
should_probe_health c start =
    let capability =
      if differs start c.health_process_start_time then unknown else c.health_capability in
    (
      record c {
        health_capability = capability;
        health_process_start_time = or_remembered start c.health_process_start_time;
      },
      not (is_absent capability),
    )

abbrev pub mark_health_absent : QuarkusCollector → Option Time → QuarkusCollector
mark_health_absent c start = record c {
  health_capability = absent;
  health_process_start_time = start;
}

abbrev pub mark_health_available : QuarkusCollector → Option Time → QuarkusCollector
mark_health_available c start = record c {
  health_capability = available;
  health_process_start_time = start;
}
