-- ===== src/Collector/Quarkus/Warnings.antt =====
-- internal/collector/quarkus.go: the warnings of an evaluation.
use statlite.Float.{Float64}
use statlite.Collector.Model.{CollectionResult, warning, add_event}
use statlite.Collector.Micrometer.{HttpValues, duration_matches_counts}
use statlite.Collector.Micrometer.Runtime.{RuntimeValues}
use Prim.Native.String.{◌++◌}
use statlite.Prelude.{String, Bool, true, false, not, ◌&&◌, List, [], ◌∷◌}

module _ {F : Type 0} where
  abbrev pub add_warning_if :
      Bool → String → String → String → CollectionResult F → CollectionResult F
  add_warning_if false type key message r = r
  add_warning_if true type key message r = add_event r warning type key message

  -- The rows of the loop over the status counters: a counter, and whether it overflowed.
  unfoldable pub add_status_warnings :
      List (String × (String × Bool)) → CollectionResult F → CollectionResult F
  add_status_warnings [] r = r
  add_status_warnings ((key, (message, overflow)) ∷ rows) r =
      add_status_warnings rows (add_warning_if overflow "metric_aggregate_invalid" key message r)

module _ {F : Type 0} ⦃fl : Float64 F⦄ where
  -- addQuarkusHTTPWarnings
  unfoldable pub add_http_warnings : HttpValues F → CollectionResult F → CollectionResult F
  unfolding add_status_warnings
  add_http_warnings v r =
      let mismatch =
        v.saw_duration
        && not (duration_matches_counts v)
        && not v.duration_overflow
        && not v.count_duplicate
        && not v.duration_duplicate
        && not v.matching_overflow in
      let r1 =
        add_warning_if v.incomplete_count_label "metric_dimension_invalid" "http_requests_total"
          "ignored http_server_requests_seconds_count series without valid method, outcome, and status dimensions and a finite nonnegative value; status counters are unavailable"
          r in
      let r2 =
        add_warning_if v.incomplete_sum_label "metric_dimension_invalid"
          "http_request_time_total_seconds"
          "ignored http_server_requests_seconds_sum series without valid method, outcome, and status dimensions and a finite nonnegative value"
          r1 in
      let r3 =
        add_warning_if mismatch "metric_series_mismatch" "http_request_time_total_seconds"
          "omitted HTTP request duration because its accepted dimensions do not match request count series within the bounded matching state"
          r2 in
      let r4 =
        add_warning_if v.request_overflow "metric_aggregate_invalid" "http_requests_total"
          "omitted HTTP request count because finite source values overflowed the normalized aggregate"
          r3 in
      let r5 =
        add_status_warnings
          ((
            "http_404_total",
            (
              "omitted http_404_total because finite source values overflowed the normalized aggregate",
              v.not_found_overflow,
            ),
          )
            ∷ (
              "http_4xx_total",
              (
                "omitted http_4xx_total because finite source values overflowed the normalized aggregate",
                v.client_errors_overflow,
              ),
            )
            ∷ (
              "http_5xx_total",
              (
                "omitted http_5xx_total because finite source values overflowed the normalized aggregate",
                v.server_errors_overflow,
              ),
            )
            ∷ [])
          r4 in
      let r6 =
        add_warning_if v.duration_overflow "metric_aggregate_invalid"
          "http_request_time_total_seconds"
          "omitted HTTP request duration because finite source values overflowed the normalized aggregate"
          r5 in
      let r7 =
        add_warning_if v.count_duplicate "metric_series_duplicate" "http_requests_total"
          "omitted HTTP request and status counters because a count series identity was repeated"
          r6 in
      let r8 =
        add_warning_if v.duration_duplicate "metric_series_duplicate"
          "http_request_time_total_seconds"
          "omitted HTTP request duration because a duration series identity was repeated" r7 in
      add_warning_if v.matching_overflow "metric_aggregation_limit" ""
        "omitted HTTP request, status, and duration concepts because bounded series-identity state was exceeded"
        r8

abbrev pub concept_if : Bool → String → List String → List String
concept_if false name names = names
concept_if true name names = name ∷ names

-- The invalid concepts, in the order of slices.Sort.
abbrev pub invalid_concepts : {F : Type 0} → RuntimeValues F → List String
invalid_concepts v = concept_if v.invalid_heap "heap used" (
    concept_if v.invalid_cpu "process CPU" (
      concept_if v.invalid_process_start "process start time"
        (concept_if v.invalid_uptime "process uptime" [])))

-- strings.Join(names, ", ")
unfoldable pub join_names : List String → String
join_names [] = ""
join_names (name ∷ []) = name
join_names (name ∷ other ∷ names) = name ++ (", " ++ join_names (other ∷ names))

module _ {F : Type 0} where
  -- addQuarkusPartialWarning
  unfoldable pub add_partial_warning : RuntimeValues F → CollectionResult F → CollectionResult F
  unfolding join_names
  add_partial_warning v r = elim (invalid_concepts v) [
    | [] ↦ r
    | name ∷ names ↦ add_event r warning "metrics_partial" "" (
        "Quarkus metrics are partial; invalid concepts were omitted: " ++ join_names (name ∷ names))
  ]
