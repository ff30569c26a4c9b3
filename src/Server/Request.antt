-- ===== src/Server/Request.antt =====
-- internal/server/request.go and range.go: the parameters of a request, the retention's clamp, and the
-- counters that a clamped series loses. A parsed query is the list of its names with their values.

pub mod Cutoff
use statlite.Result.{Result, ok, err, ◌>>=◌, ◌>>◌, refuse, or_err}
use statlite.Time.{Time, Duration, minute, hour, before}
use statlite.Storage.Types.{SeriesPoint, Series}
use statlite.Monitor.Manager.{Manager, ManagedTarget, exact_target}
use statlite.Prelude.{codes}
use statlite.Prelude.{
  ℕ, zero, suc, ◌+◌, ◌-◌, ◌*◌, String, Bool, true, false, not, ◌&&◌, ◌||◌, Option, none, some, List,
  [], ◌∷◌, ltb, leb, ◌==◌, if◌then◌else◌, get_or_else, length, head?, anyb, allb, str_eq, is_empty,
  is_blank, lookup,
}

pub data DashboardRange : Type 0 where
  range_1h range_24h range_7d range_30d range_custom : DashboardRange

unfoldable pub dashboard_bucket_duration : DashboardRange → Duration
dashboard_bucket_duration range_24h = 5 * minute
dashboard_bucket_duration range_7d = 30 * minute
dashboard_bucket_duration range_30d = 2 * hour
dashboard_bucket_duration _ = 0

pub data RequestError : Type 0 where
  unsupported_parameter repeated_parameter empty_parameter : String → RequestError
  target_required : RequestError
  unknown_target unsupported_range : String → RequestError
  bad_limit : RequestError

abbrev pub Query : Type 0
Query = List (String × List String)

-- query.Get(name)
unfoldable pub get_value : String → Query → String
get_value name query = elim (lookup name query) [
  | none ↦ ""
  | some values ↦ get_or_else (head? values) ""
]

-- The loop of parsePublicQuery, after url.ParseQuery; Go's order of the names is arbitrary.
unfoldable pub check_query : List String → Query → Result RequestError (Unit {0})
check_query allowed [] = ok tt
check_query allowed ((name, values) ∷ rest) = do
  refuse (not (anyb (λ a. str_eq a name) allowed)) (unsupported_parameter name)
  refuse (not (length values == 1)) (repeated_parameter name)
  refuse (is_blank (get_or_else (head? values) "")) (empty_parameter name)
  check_query allowed rest

unfoldable pub select_public_target : Manager → Query → Result RequestError ManagedTarget
select_public_target m query =
    let find : String → Result RequestError ManagedTarget =
      λ name. or_err (exact_target m name) (unknown_target name) in
    let given = get_value "target" query in
    if is_empty given
    then elim m.order [
      | [] ↦ err target_required
      | name ∷ others ↦ elim others [ [] ↦ find name | _ ∷ _ ↦ err target_required ]
    ]
    else find given

unfoldable pub events_window : String → Option Duration
events_window range =
    if is_empty range || str_eq range "1h"
    then some hour
    else if str_eq range "5m"
    then some (5 * minute)
    else if str_eq range "24h"
    then some (24 * hour)
    else none

abbrev pub is_digit : ℕ → Bool
is_digit c = leb 48 c && leb c 57

-- strconv.Atoi of digits; a number that does not fit an int is above every limit here too.
unfoldable pub digits_value : ℕ → List ℕ → ℕ
digits_value n [] = n
digits_value n (c ∷ cs) = digits_value (10 * n + (c - 48)) cs

unfoldable pub events_limit : String → Option ℕ
unfolding digits_value
events_limit value =
    if is_empty value
    then some 100
    else if not (allb is_digit (codes value))
    then none
    else (let parsed = digits_value 0 (codes value) in
        if ltb parsed 1 || ltb 500 parsed then none else some parsed)

unfoldable pub parse_public_events_options : Query → Result RequestError (Duration × ℕ)
parse_public_events_options query = do
  window ←
      or_err (events_window (get_value "range" query)) (unsupported_range (get_value "range" query))
  limit ← or_err (events_limit (get_value "limit" query)) bad_limit
  ok (window, limit)

-- The start, the cutoff (the zero time where there is none) and whether the start was moved.
unfoldable pub clamp_to_retention : ℕ → Option Time → Time → Time × Time × Bool
clamp_to_retention retention_days none start = (start, 0, false)
clamp_to_retention retention_days (some cutoff) start =
    if leb retention_days 0
    then (start, 0, false)
    else if before start cutoff
    then (cutoff, cutoff, true)
    else (start, cutoff, false)

abbrev pub is_earlier : Time → Option (ℕ × Time) → Bool
is_earlier at none = true
is_earlier at (some (j, best)) = before at best

module _ {F : Type 0} where
  unfoldable pub clear_series_counter_fields : SeriesPoint F → SeriesPoint F
  clear_series_counter_fields p = record p {
    requests = none;
    http_404 = none;
    http_4xx = none;
    http_5xx = none;
    average_latency_seconds = none;
  }

  -- The loop from position `i` on, with the index found so far and its timestamp.
  unfoldable pub cutoff_index :
      Time → ℕ → Option (ℕ × Time) → List (SeriesPoint F) → Option (ℕ × Time)
  cutoff_index cutoff i best [] = best
  cutoff_index cutoff i best (p ∷ ps) =
      cutoff_index cutoff (i + 1)
        (if before p.timestamp cutoff
          then best
          else if is_earlier p.timestamp best
          then some (i, p.timestamp)
          else best)
        ps

  -- series.Points[i] is cleared in place.
  unfoldable pub clear_at : ℕ → List (SeriesPoint F) → List (SeriesPoint F)
  clear_at i [] = []
  clear_at zero (p ∷ ps) = clear_series_counter_fields p ∷ ps
  clear_at (suc i) (p ∷ ps) = p ∷ clear_at i ps

  abbrev pub clear_found : Option (ℕ × Time) → List (SeriesPoint F) → List (SeriesPoint F)
  clear_found none points = points
  clear_found (some (i, at)) points = clear_at i points

  -- The latest point, which stands in memory of its own.
  unfoldable pub clear_latest : ℕ → Time → Option (SeriesPoint F) → Option (SeriesPoint F)
  clear_latest first_poll_id cutoff none = none
  clear_latest first_poll_id cutoff (some p) =
      if not (first_poll_id == 0) && (p.poll_id == first_poll_id) && not (before p.timestamp cutoff)
      then some (clear_series_counter_fields p)
      else some p

  unfoldable pub clear_cutoff_counter_baseline : Option (Series F) → Time → Option (Series F)
  clear_cutoff_counter_baseline none cutoff = none
  clear_cutoff_counter_baseline (some series) cutoff = some (record series {
    latest_point = clear_latest series.first_poll_id cutoff series.latest_point;
    points = clear_found (cutoff_index cutoff 0 none series.points) series.points;
  })
