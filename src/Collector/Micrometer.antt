-- ===== src/Collector/Micrometer.antt =====
-- internal/collector/micrometer.go: the HTTP aggregates.
pub mod Runtime
pub mod Population
use statlite.Float.{Float64}
use statlite.Collector.Model.{
  CollectionResult, counter, add_sample, finite_nonnegative, add_finite_nonnegative,
}
use statlite.Prometheus.{Label, Sample}
use statlite.Collector.Dimensions.{
  DimensionHash, multiplicity, has_key, series_fingerprint, MatchingState, add_matching_dimension,
  all_match,
}
use statlite.Prelude.{
  ℕ, String, Bool, true, false, not, ◌&&◌, ◌||◌, Option, none, some, List, [], ltb, leb, ◌==◌,
  if◌then◌else◌, length,
}

pub record HttpValues (F : Type 0) : Type 0 where
  pub requests : F
  pub duration_seconds : F
  pub not_found : F
  pub client_errors : F
  pub server_errors : F
  pub saw_count : Bool
  pub saw_duration : Bool
  pub incomplete_count_label : Bool
  pub incomplete_sum_label : Bool
  pub count_dimensions : List (DimensionHash × ℕ)
  pub duration_dimensions : List (DimensionHash × ℕ)
  pub matching_states : ℕ
  pub matching_overflow : Bool
  pub request_overflow : Bool
  pub not_found_overflow : Bool
  pub client_errors_overflow : Bool
  pub server_errors_overflow : Bool
  pub duration_overflow : Bool
  pub count_duplicate : Bool
  pub duration_duplicate : Bool

module _ {F : Type 0} ⦃fl : Float64 F⦄ where
  -- micrometerHTTPValues{}
  abbrev pub no_http_values : HttpValues F
  no_http_values = record {
    requests = fl.zero_f;
    duration_seconds = fl.zero_f;
    not_found = fl.zero_f;
    client_errors = fl.zero_f;
    server_errors = fl.zero_f;
    saw_count = false;
    saw_duration = false;
    incomplete_count_label = false;
    incomplete_sum_label = false;
    count_dimensions = [];
    duration_dimensions = [];
    matching_states = 0;
    matching_overflow = false;
    request_overflow = false;
    not_found_overflow = false;
    client_errors_overflow = false;
    server_errors_overflow = false;
    duration_overflow = false;
    count_duplicate = false;
    duration_duplicate = false;
  }

  -- A total, and whether an addition to it was ever refused.
  abbrev pub accumulate : Bool → F → F × Bool → F × Bool
  accumulate false value total = total
  accumulate true value (total, overflow) =
      let (sum, added) = add_finite_nonnegative total value in (sum, overflow || not added)

  unfoldable pub count_accepted : HttpValues F → ℕ → F → DimensionHash → HttpValues F
  unfolding add_matching_dimension add_finite_nonnegative
  count_accepted v code value key =
      let requests = accumulate true value (v.requests, v.request_overflow) in
      let m = add_matching_dimension key (record {
        groups = v.count_dimensions;
        states = v.matching_states;
        overflow = v.matching_overflow;
      }) in
      let not_found = accumulate (code == 404) value (v.not_found, v.not_found_overflow) in
      let client =
        accumulate (leb 400 code && leb code 499) value
          (v.client_errors, v.client_errors_overflow) in
      let server = accumulate (leb 500 code) value (v.server_errors, v.server_errors_overflow) in
      record v {
        saw_count = true;
        requests = requests.0;
        request_overflow = requests.1;
        count_dimensions = m.groups;
        matching_states = m.states;
        matching_overflow = m.overflow;
        not_found = not_found.0;
        not_found_overflow = not_found.1;
        client_errors = client.0;
        client_errors_overflow = client.1;
        server_errors = server.0;
        server_errors_overflow = server.1;
      }

  -- acceptCount; the validator returns a status that is valid.
  unfoldable pub accept_count : (List Label → Option ℕ) → HttpValues F → Sample F → HttpValues F
  unfolding count_accepted multiplicity series_fingerprint
  accept_count validate v sample = elim (validate sample.labels) [
    | none ↦ record v { incomplete_count_label = true }
    | some code ↦
        if not (finite_nonnegative sample.value)
        then record v { incomplete_count_label = true }
        else (let key = series_fingerprint sample.labels in
            if ltb 0 (multiplicity key v.count_dimensions)
            then record v { count_duplicate = true }
            else count_accepted v code sample.value key)
  ]

  unfoldable pub duration_accepted : HttpValues F → F → DimensionHash → HttpValues F
  unfolding add_matching_dimension add_finite_nonnegative
  duration_accepted v value key =
      let duration = accumulate true value (v.duration_seconds, v.duration_overflow) in
      let m = add_matching_dimension key (record {
        groups = v.duration_dimensions;
        states = v.matching_states;
        overflow = v.matching_overflow;
      }) in
      record v {
        saw_duration = true;
        duration_seconds = duration.0;
        duration_overflow = duration.1;
        duration_dimensions = m.groups;
        matching_states = m.states;
        matching_overflow = m.overflow;
      }

  -- acceptDuration
  unfoldable pub accept_duration : (List Label → Option ℕ) → HttpValues F → Sample F → HttpValues F
  unfolding duration_accepted multiplicity series_fingerprint
  accept_duration validate v sample = elim (validate sample.labels) [
    | none ↦ record v { incomplete_sum_label = true }
    | some code ↦
        if not (finite_nonnegative sample.value)
        then record v { incomplete_sum_label = true }
        else (let key = series_fingerprint sample.labels in
            if ltb 0 (multiplicity key v.duration_dimensions)
            then record v { duration_duplicate = true }
            else duration_accepted v sample.value key)
  ]

  unfoldable pub duration_matches_counts : HttpValues F → Bool
  unfolding all_match
  duration_matches_counts v =
      not (
        v.matching_overflow
        || v.duration_overflow
        || v.count_duplicate
        || v.duration_duplicate
        || not v.saw_count
        || not v.saw_duration
        || not (length v.count_dimensions == length v.duration_dimensions))
      && all_match v.count_dimensions v.duration_dimensions

  abbrev pub add_sample_if : Bool → String → F → String → CollectionResult F → CollectionResult F
  add_sample_if false key value unit r = r
  add_sample_if true key value unit r = add_sample r key counter value unit

  -- addTo
  unfoldable pub add_http_values : HttpValues F → CollectionResult F → CollectionResult F
  unfolding duration_matches_counts
  add_http_values v r =
      let counted = v.saw_count && not v.count_duplicate && not v.matching_overflow in
      let by_status = counted && not v.incomplete_count_label in
      let r1 =
        add_sample_if (counted && not v.request_overflow) "http_requests_total" v.requests
          "requests" r in
      let r2 =
        add_sample_if (by_status && not v.not_found_overflow) "http_404_total" v.not_found
          "requests" r1 in
      let r3 =
        add_sample_if (by_status && not v.client_errors_overflow) "http_4xx_total" v.client_errors
          "requests" r2 in
      let r4 =
        add_sample_if (by_status && not v.server_errors_overflow) "http_5xx_total" v.server_errors
          "requests" r3 in
      add_sample_if (duration_matches_counts v) "http_request_time_total_seconds" v.duration_seconds
        "seconds" r4
