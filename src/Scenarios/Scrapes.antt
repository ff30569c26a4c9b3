-- ===== src/Scenarios/Scrapes.antt =====
-- The Micrometer and Quarkus theorems on an exposition of one series (internal/collector).
use mathlib.Core.List.Perm
use statlite.Float.{nat_float}
use statlite.Bytes.{
  Bytes, ascii, is_nil, trim_space, space_width, last_space_width, drop_spaces, reverse_onto,
  bytes_eq, has_prefix, split_at, split_on, split_fields, fields, valid_utf8, continues_utf8,
}
use statlite.Prometheus.{
  default_limits, is_limit_exceeded, text_format, Label, valid_name, all_name_bytes,
  validate_limits,
}
use statlite.Prometheus.Labels.{
  parse_labels, parse_labels_from, parse_label, find_label_end, read_quoted, quoted_value,
}
use statlite.Prometheus.Samples.{
  FloatText, read_digits, parse_sample, sample_labels, parses_int64, validate_exemplar,
  validate_timestamp, value_and_timestamp,
}
use statlite.Prometheus.Exposition.{Body, parse, parse_line, parse_lines, scan_lines}
use statlite.Collector.Model.{add_sample, add_event, finite_nonnegative, add_finite_nonnegative}
use statlite.Collector.Caddy.{label_value}
use statlite.Collector.Caddy.Collect.{Response, answered}
use statlite.Collector.Dimensions.{
  DimensionHash, has_key, multiplicity, increment, add_matching_dimension, series_fingerprint,
  add_label, fnv_1, fnv_1a, hash_http_dimensions, rotate_left_23, all_match,
}
use statlite.Collector.Micrometer.{
  accept_count, count_accepted, accept_duration, duration_accepted, duration_matches_counts,
  add_http_values,
}
use statlite.Collector.Dimensions.Fingerprint.{series_fingerprint-perm}
use statlite.Collector.Micrometer.Runtime.{
  UnixTime, accept_runtime, accept_process_start, accept_cpu, accept_heap, accept_uptime,
  add_runtime_values,
}
use statlite.Collector.Quarkus.{
  QuarkusCollector, absent, is_absent, differs, http_status, validate_http_labels,
}
use statlite.Collector.Quarkus.Warnings.{
  add_http_warnings, add_status_warnings, add_partial_warning,
}
use statlite.Collector.Quarkus.Evaluate.{
  accept_quarkus, scrape_values, evaluate, evaluation_of, quarkus_normalized,
}
use statlite.Collector.Quarkus.Health.{healthy, not_found, event_type_of, collect_quarkus}
use statlite.Collector.Quarkus.Scrapes.{scrape_values-has_key, collect_quarkus-is_absent, start_of}
use statlite.Prelude.{
  ℕ, ◌+◌, ◌≤◌, ◌≡◌, refl, true, false, none, some, [], ◌∷◌, ◌++◌, if◌then◌else◌, length,
}

instance abbrev whole_text : FloatText ℕ
whole_text = record { parse_float = λ s. if is_nil s then none else read_digits 0 s }

instance abbrev whole_time : UnixTime ℕ
whole_time = record { unix_seconds = λ n. n; rfc3339_round_trips = λ _. true }

abbrev method : Label
method = record { name = ascii "method"; value = ascii "GET" }

abbrev status : Label
status = record { name = ascii "status"; value = ascii "200" }

series_fingerprint-perm_example :
    series_fingerprint (method ∷ status ∷ []) ≡ series_fingerprint (status ∷ method ∷ [])
series_fingerprint-perm_example =
    series_fingerprint-perm (method ∷ status ∷ []) (status ∷ method ∷ [])
      (Perm.swap status method [])

-- Two lines of counts and one of durations, with its labels in another order, and a start.
abbrev metrics : Bytes
metrics =
    ascii "http_server_requests_seconds_count{method=\"G\",outcome=\"S\",status=\"200\"} 7\n"
    ++ ascii "http_server_requests_seconds_sum{status=\"200\",method=\"G\",outcome=\"S\"} 3\n"
    ++ ascii "process_start_time_seconds 7\n"

abbrev body : Body
body = record { bytes = metrics; error = none }

abbrev some_series : DimensionHash
some_series = record { first = 1; second = 2 }

metrics-match :
    duration_matches_counts (scrape_values {F = ℕ} default_limits body text_format).state.0 ≡ true
unfolding duration_matches_counts scrape_values parse validate_limits parse_line trim_space bytes_eq
    has_prefix parse_sample split_at valid_name sample_labels find_label_end parse_labels
    parse_label quoted_value valid_utf8 continues_utf8 drop_spaces fields last_space_width
    reverse_onto space_width split_fields split_on label_value accept_cpu accept_heap
    accept_process_start accept_runtime accept_uptime accept_count accept_duration add_label
    add_matching_dimension all_match count_accepted duration_accepted fnv_1 fnv_1a has_key
    hash_http_dimensions increment multiplicity rotate_left_23 series_fingerprint
    add_finite_nonnegative finite_nonnegative accept_quarkus http_status validate_http_labels
    parse_lines scan_lines parse_labels_from read_quoted parses_int64 read_digits validate_exemplar
    validate_timestamp value_and_timestamp all_name_bytes is_limit_exceeded
metrics-match = refl

scrape_values-has_key_example :
    (has_key some_series
        (scrape_values {F = ℕ} default_limits body text_format).state.0.count_dimensions
      ≡ has_key some_series
          (scrape_values {F = ℕ} default_limits body text_format).state.0.duration_dimensions)
    × (length (scrape_values {F = ℕ} default_limits body text_format).state.0.count_dimensions
          + length
              (scrape_values {F = ℕ} default_limits body text_format).state.0.duration_dimensions
        ≤ 20_000)
scrape_values-has_key_example =
    scrape_values-has_key ℕ default_limits body text_format some_series metrics-match

-- A collector of a target that started at 7 and has no health endpoint.
abbrev collector : QuarkusCollector
collector = record {
  target_name = "q";
  endpoint = ascii "http://localhost/q/metrics";
  has_client = true;
  has_health_client = true;
  not_found_optional = true;
  health_capability = absent;
  health_process_start_time = some 7;
}

abbrev metrics_answer : Response
metrics_answer = answered body text_format

same_start : differs (start_of (evaluate {F = ℕ} default_limits metrics_answer)) (some 7) ≡ false
unfolding duration_matches_counts scrape_values parse validate_limits parse_line trim_space bytes_eq
    has_prefix parse_sample split_at valid_name sample_labels find_label_end parse_labels
    parse_label quoted_value valid_utf8 continues_utf8 drop_spaces fields last_space_width
    reverse_onto space_width split_fields split_on label_value accept_cpu accept_heap
    accept_process_start accept_runtime accept_uptime accept_count accept_duration add_label
    add_matching_dimension all_match count_accepted duration_accepted fnv_1 fnv_1a has_key
    hash_http_dimensions increment multiplicity rotate_left_23 series_fingerprint
    add_finite_nonnegative finite_nonnegative accept_quarkus http_status validate_http_labels
    parse_lines scan_lines parse_labels_from read_quoted parses_int64 read_digits validate_exemplar
    validate_timestamp value_and_timestamp all_name_bytes is_limit_exceeded evaluate evaluation_of
    quarkus_normalized add_http_values add_sample add_event add_http_warnings add_status_warnings
    add_runtime_values add_partial_warning
same_start = refl

collect_quarkus-is_absent_example :
    (collect_quarkus {F = ℕ} event_type_of default_limits 8 9 collector metrics_answer
        (healthy "UP" "")
      ≡ collect_quarkus {F = ℕ} event_type_of default_limits 8 9 collector metrics_answer
          (not_found "404"))
    × (is_absent
          (collect_quarkus {F = ℕ} event_type_of default_limits 8 9 collector metrics_answer
            (healthy "UP" "")).0.health_capability
        ≡ true)
collect_quarkus-is_absent_example =
    collect_quarkus-is_absent ℕ event_type_of default_limits 8 9 collector metrics_answer
      (healthy "UP" "") (not_found "404") refl same_start
