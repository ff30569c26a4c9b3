-- ===== src/Scenarios/Expositions.antt =====
-- The parser's and the Caddy collector's theorems on an exposition of one server
-- (internal/prometheus, internal/collector).
use statlite.Result.{Result, ok}
use statlite.Float.{nat_float}
use statlite.Bytes.{Bytes, ascii, is_nil, bytes_eq, valid_utf8}
use statlite.Prometheus.{
  default_limits, validate_limits, text_format, Label, Sample, valid_name, all_name_bytes,
}
use statlite.Prometheus.Labels.{parse_labels}
use statlite.Prometheus.Labels.Sound.{IsLabelSet, Ensures, parse_labels-IsLabelSet}
use statlite.Prometheus.Samples.{FloatText, read_digits}
use statlite.Prometheus.Exposition.{parse}
use statlite.Prometheus.Exposition.RoundTrip.{
  Entry, IsEntry, render_exposition, parse-render_exposition,
}
use statlite.Collector.Caddy.Collect.{
  CaddyCollector, Response, answered, CollectError, event_type, collect, scrape,
}
use statlite.Collector.Caddy.Continuity.{Remembers, collect-Remembers}
use statlite.Collector.Caddy.Remembered.{Leaves, collect-Leaves}
use statlite.Prelude.{
  ℕ, ◌+◌, ◌≡◌, refl, true, false, none, List, [], ◌∷◌, ◌++◌, arith, if◌then◌else◌,
}

-- Whole numbers in decimal.
instance abbrev nat_text : FloatText ℕ
nat_text = record { parse_float = λ s. if is_nil s then none else read_digits 0 s }

parse_labels-IsLabelSet_example :
    Ensures
      (IsLabelSet default_limits)
      (parse_labels (ascii "host=\"a\\nb\", code=\"200\",") default_limits)
parse_labels-IsLabelSet_example =
    parse_labels-IsLabelSet (ascii "host=\"a\\nb\", code=\"200\",") default_limits

abbrev up : Entry ℕ
up = record {
  name = ascii "up:total";
  labels =
      record { name = ascii "host"; value = ascii "a\"\n" }
      ∷ record { name = ascii "code"; value = [] }
      ∷ [];
  value = ascii "17";
  number = 17;
}

up-IsEntry : IsEntry default_limits up
unfolding valid_name all_name_bytes valid_utf8 bytes_eq read_digits
up-IsEntry = record {
  name_valid = refl;
  labels_valid = (
    record { name_valid = refl; value_valid = refl; size_within = omega arith },
    (record { name_valid = refl; value_valid = refl; size_within = omega arith }, tt),
  );
  labels_distinct = (refl, (refl, tt));
  label_count = omega arith;
  value_visible = (refl, (refl, (refl, tt)));
  value_reads = refl;
  line_fits = omega arith;
}

-- A handler that adds up.
abbrev add_value : ℕ → Sample ℕ → Result CollectError ℕ
add_value total sample = ok (total + sample.value)

parse-render_exposition_example :
    parse add_value 0
      (record { bytes = render_exposition text_format (up ∷ up ∷ []); error = none })
      text_format
      default_limits
    ≡ record { samples = 2; saw_eof = false; state = 34; error = none }
unfolding validate_limits
parse-render_exposition_example =
    parse-render_exposition add_value text_format default_limits 0 34 (up ∷ up ∷ []) refl
      (up-IsEntry, (up-IsEntry, tt)) (omega arith) refl

abbrev quoted : Bytes → Bytes
quoted s = b'"' ∷ s ++ b'"' ∷ []

abbrev caddy : CaddyCollector ℕ
caddy = record {
  target_name = "web";
  endpoint = ascii "http://localhost:2019/metrics";
  host = ascii "a.b";
  has_client = true;
  previous = none;
  server = [];
}

abbrev series_labels : List Label
series_labels =
    record { name = ascii "host"; value = ascii "a.b" }
    ∷ record { name = ascii "handler"; value = ascii "subroute" }
    ∷ record { name = ascii "server"; value = ascii "srv0" }
    ∷ record { name = ascii "method"; value = ascii "GET" }
    ∷ record { name = ascii "code"; value = ascii "200" }
    ∷ []

abbrev line_entry : Bytes → Entry ℕ
line_entry name = record { name = name; labels = series_labels; value = ascii "7"; number = 7 }

abbrev metrics : Bytes
metrics = render_exposition text_format (
    line_entry (ascii "caddy_http_request_duration_seconds_count")
    ∷ line_entry (ascii "caddy_http_request_duration_seconds_sum")
    ∷ [])

abbrev answer : Response
answer = answered (record { bytes = metrics; error = none }) text_format

collect-Remembers_example :
    Remembers
      (scrape quoted default_limits caddy.host answer)
      caddy
      (collect quoted event_type default_limits 5 6 caddy answer)
collect-Remembers_example = collect-Remembers quoted event_type default_limits 5 6 caddy answer

collect-Leaves_example : Leaves (collect quoted event_type default_limits 5 6 caddy answer)
collect-Leaves_example = collect-Leaves quoted event_type default_limits 5 6 caddy answer
